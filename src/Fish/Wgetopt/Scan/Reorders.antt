-- ===== src/Fish/Wgetopt/Scan/Reorders.antt =====
-- wgetopt.rs: the arguments change places, and nothing else happens to them.
use mathlib.Core.List.{Perm}
use mathlib.Core.List.Perm
use reverse_rewrite.Common.{
  ℕ, suc, ◌+◌, ◌-◌, ◌≤◌, ◌≡◌, refl, arith, Bool, true, false, not, ◌&&◌, ◌||◌, Option, none, some,
  List, leb, ltb, ◌==◌, if◌then◌else◌, length, drop, get_elem?,
}
use reverse_rewrite.Common.Text.{bytes_eq, codes}
use reverse_rewrite.Common.Outcome.{◌>>?◌}
use reverse_rewrite.Fish.Wgetopt.{
  Text, Wide, WOption, LongOptMatch, exact, non_exact, ambiguous, no_match, NextArgv, finished,
  unpermuted_non_option, found_option, Wgetopter, slice_from, exchange, rotated, is_permuting,
  is_requiring, is_empty, has_char, from_char, name_length, find_matching_long_opt,
}
use reverse_rewrite.Fish.Wgetopt.Exchange.{rotated-Perm}
use reverse_rewrite.Fish.Wgetopt.Scan.{
  stripped, initialize, is_non_option, skip_non_options, move_non_options, permute_args,
  behind_terminator, skip_terminator, classify, next_argv, is_no_argument, is_required,
  take_argument, handle_short_opt, update_long_opt, not_found, handle_match, as_short, or_short,
  after_argv, handle_long_opt, try_long, handle_option, wgetopt_inner, next_opt,
}

-- what holds of the value of a call, if it does not panic
abbrev pub Gives : {A : Type 0} → (A → Type 0) → Option A → Type 0
Gives P none = Unit
Gives P (some a) = P a

bind-Gives :
    {A B : Type 0} (P : A → Type 0) (Q : B → Type 0) (o : Option A) (f : A → Option B)
    → Gives P o
    → ((a : A) → P a → Gives Q (f a))
    → Gives Q (o >>? f)
bind-Gives P Q none f h k = _
bind-Gives P Q (some a) f h k = k a h

each-Gives :
    {A B : Type 0} (Q : B → Type 0) (o : Option A) (f : A → Option B)
    → ((a : A) → Gives Q (f a))
    → Gives Q (o >>? f)
each-Gives Q none f k = _
each-Gives Q (some a) f k = k a

if-Gives :
    {A : Type 0} (Q : A → Type 0) (b : Bool) (x y : Option A)
    → Gives Q x
    → Gives Q y
    → Gives Q (if b then x else y)
if-Gives Q true x y h k = h
if-Gives Q false x y h k = k

-- a check that panics when it fails
checked-Gives :
    {A : Type 0} (Q : A → Type 0) (b : Bool) (a : A)
    → (b ≡ true → Q a)
    → Gives Q (if b then some a else none)
checked-Gives Q true a h = h refl
checked-Gives Q false a h = _

ordered : (x y z n : ℕ) → (leb x y && (leb y z && leb z n)) ≡ true → (x ≤ y) × (y ≤ z)
ordered x y z n h = (ground arith, ground arith)

module _ (wide : Wide) (argv : List Text) where
  -- the arguments are those, in some order
  abbrev Reordered : Wgetopter → Type 0
  Reordered g = Perm argv g.argv

  abbrev pub ReorderedBy : {A : Type 0} → A × Wgetopter → Type 0
  ReorderedBy (a, g) = Perm argv g.argv

  abbrev ReorderedLong : {A : Type 0} → A × (Wgetopter × ℕ) → Type 0
  ReorderedLong (a, (g, i)) = Perm argv g.argv

  exchange-Reordered : (g : Wgetopter) → Reordered g → Gives Reordered (exchange g)
  unfolding exchange
  exchange-Reordered g h =
      checked-Gives Reordered
        (leb g.first_nonopt g.last_nonopt
          && (leb g.last_nonopt g.wopt_index && leb g.wopt_index (length g.argv)))
        (record g {
          argv = rotated g.first_nonopt g.last_nonopt g.wopt_index g.argv;
          first_nonopt = g.first_nonopt + (g.wopt_index - g.last_nonopt);
          last_nonopt = g.wopt_index;
        })
        λ e.
          let (p, q) = ordered g.first_nonopt g.last_nonopt g.wopt_index (length g.argv) e in
          Perm.trans h (rotated-Perm g.first_nonopt g.last_nonopt g.wopt_index g.argv p q)

  permute_args-Reordered : (g : Wgetopter) → Reordered g → Gives Reordered (permute_args wide g)
  unfolding permute_args
  permute_args-Reordered g h =
      if-Gives Reordered (is_permuting g.ordering) _ (some g)
        (bind-Gives Reordered Reordered (move_non_options wide g) _
          (if-Gives Reordered (g.last_nonopt == g.wopt_index) (some g) _ h (
            if-Gives Reordered (g.first_nonopt == g.last_nonopt)
              (some (record g { first_nonopt = g.wopt_index })) (exchange g) h
              (exchange-Reordered g h)))
          λ g' h'.
            each-Gives Reordered (skip_non_options wide (drop g'.wopt_index g'.argv) g'.wopt_index)
              _ λ i. h')
        h

  terminator-Reordered : (g : Wgetopter) → Reordered g → Gives Reordered (skip_terminator wide g)
  unfolding skip_terminator
  terminator-Reordered g h =
      let g' = record g { wopt_index = suc g.wopt_index } in
      if-Gives Reordered (g.wopt_index == length g.argv) (some g) _ h (
        each-Gives Reordered (get_elem? g.argv g.wopt_index) _ λ arg.
          if-Gives Reordered (bytes_eq arg (codes "--")) _ (some g)
            (bind-Gives Reordered Reordered (behind_terminator wide g') _
              (if-Gives Reordered (g.first_nonopt == g.last_nonopt)
                (some (record g' { first_nonopt = suc g.wopt_index })) _ h
                (if-Gives Reordered (g.last_nonopt == suc g.wopt_index) (some g') (exchange g') h
                  (exchange-Reordered g' h)))
              λ g'' h''. h'')
            h)

  classify-Reordered : (g : Wgetopter) → Reordered g → Gives ReorderedBy (classify wide g)
  unfolding classify
  classify-Reordered g h =
      if-Gives ReorderedBy (g.wopt_index == length g.argv) _ _
        (finished-Reordered (g.first_nonopt == g.last_nonopt))
        (each-Gives ReorderedBy (get_elem? g.argv g.wopt_index) _ λ arg.
          each-Gives ReorderedBy (is_non_option wide arg) _ λ skipped.
            if-Gives ReorderedBy skipped _ _
              (if-Gives ReorderedBy (is_requiring g.ordering) (some (finished, g)) _ h h)
              (each-Gives ReorderedBy (if is_empty g.longopts then some 0 else wide.char_at arg 1) _
                λ c.
                  each-Gives ReorderedBy
                    (slice_from (if not (is_empty g.longopts) && c == b'-' then 2 else 1) arg)
                    (λ text. some (found_option, record g { remaining_text = text })) λ text. h))
    where
      finished-Reordered :
          (b : Bool) → Perm argv (if b then g else record g { wopt_index = g.first_nonopt }).argv
      finished-Reordered true = h
      finished-Reordered false = h

  next_argv-Reordered : (g : Wgetopter) → Reordered g → Gives ReorderedBy (next_argv wide g)
  unfolding next_argv
  next_argv-Reordered g h =
      bind-Gives Reordered ReorderedBy (permute_args wide g) _ (permute_args-Reordered g h) λ g' h'.
        bind-Gives Reordered ReorderedBy (skip_terminator wide g') _ (terminator-Reordered g' h')
          λ g'' h''. classify-Reordered g'' h''

  argument-Reordered :
      (c : ℕ) (temp : Text) (g : Wgetopter)
      → Reordered g
      → Gives ReorderedBy (take_argument wide c temp g)
  unfolding take_argument
  argument-Reordered c temp g h = each-Gives ReorderedBy (wide.char_at temp 2) _ λ second.
      if-Gives ReorderedBy (second == b':') _ _
        (if-Gives ReorderedBy (is_empty g.remaining_text) _ _ h h)
        (if-Gives ReorderedBy (not (is_empty g.remaining_text)) _ _ h (
          if-Gives ReorderedBy (g.wopt_index == length g.argv) _ _ h
            (each-Gives ReorderedBy (get_elem? g.argv g.wopt_index) _ λ arg. h)))

  short-Reordered : (g : Wgetopter) → Reordered g → Gives ReorderedBy (handle_short_opt wide g)
  unfolding handle_short_opt
  short-Reordered g h = each-Gives ReorderedBy (wide.char_at g.remaining_text 0) _ λ c.
      each-Gives ReorderedBy (slice_from 1 g.remaining_text) _ λ rest.
        let temp = from_char g.shortopts c in
        if-Gives ReorderedBy (is_empty temp || c == b':') _ _ h (
          each-Gives ReorderedBy (wide.char_at temp 1) _ λ first.
            if-Gives ReorderedBy (not (first == b':')) _ _ h (argument-Reordered c temp _ h))

  update-Reordered :
      (g : Wgetopter) (o : WOption) (name_end before i : ℕ)
      → Reordered g
      → Gives ReorderedLong (update_long_opt wide g o name_end before i)
  unfolding update_long_opt
  update-Reordered g o name_end before i h =
      each-Gives ReorderedLong (wide.char_at g.remaining_text name_end) _ λ c.
        if-Gives ReorderedLong (not (c == 0 || c == b'=')) none _ _ (
          if-Gives ReorderedLong (c == b'=') _ _
            (if-Gives ReorderedLong (is_no_argument o.arg_type) _ _ h
              (each-Gives ReorderedLong (slice_from (suc name_end) g.remaining_text) _ λ arg. h))
            (if-Gives ReorderedLong (is_required o.arg_type) _ _
              (if-Gives ReorderedLong (ltb (suc g.wopt_index) (length g.argv)) _ _
                (each-Gives ReorderedLong (get_elem? g.argv (suc g.wopt_index)) _ λ arg. h) h)
              h))

  not_found-Reordered :
      (g : Wgetopter) (before : ℕ)
      → Reordered g
      → Gives (ReorderedLong {A = Option ℕ}) (not_found wide g before)
  not_found-Reordered g before h = h

  match-Reordered :
      (m : LongOptMatch) (name_end : ℕ) (g : Wgetopter) (before : ℕ)
      → Reordered g
      → Gives ReorderedLong (handle_match wide m name_end g before)
  unfolding handle_match
  match-Reordered (exact o i) name_end g before h =
      bind-Gives ReorderedLong ReorderedLong (update_long_opt wide g o name_end before i) _
        (update-Reordered g o name_end before i h) λ a h'. h'
  match-Reordered (non_exact o i) name_end g before h =
      bind-Gives ReorderedLong ReorderedLong (update_long_opt wide g o name_end before i) _
        (update-Reordered g o name_end before i h) λ a h'. h'
  match-Reordered ambiguous name_end g before h = h
  match-Reordered no_match name_end g before h =
      each-Gives ReorderedLong (get_elem? g.argv g.wopt_index) _ λ arg.
        each-Gives ReorderedLong (wide.char_at arg 1) _ λ second.
          if-Gives ReorderedLong (second == b'-') (not_found wide g before) _ h (
            each-Gives ReorderedLong (wide.char_at g.remaining_text 0) _ λ c.
              if-Gives ReorderedLong (has_char g.shortopts c) (some (none, (g, before)))
                (not_found wide g before) h h)

  as_short-Reordered :
      (g : Wgetopter) (before : ℕ) → Reordered g → Gives ReorderedLong (as_short wide g before)
  as_short-Reordered g before h =
      bind-Gives ReorderedBy ReorderedLong (handle_short_opt wide g) _ (short-Reordered g h)
        λ a h'. h'

  option-Reordered :
      (g : Wgetopter) (before : ℕ) → Reordered g → Gives ReorderedLong (handle_option wide g before)
  unfolding handle_option handle_long_opt
  option-Reordered g before h = each-Gives ReorderedLong (try_long wide g) _ λ long.
      if-Gives ReorderedLong long _ (as_short wide g before)
        (bind-Gives ReorderedLong ReorderedLong (handle_long_opt wide g before) (or_short wide)
          (match-Reordered (find_matching_long_opt g (name_length g.remaining_text))
            (name_length g.remaining_text) g before h)
          or_short-Reordered)
        (as_short-Reordered g before h)
    where
      or_short-Reordered :
          (a : Option ℕ × (Wgetopter × ℕ)) → ReorderedLong a → Gives ReorderedLong (or_short wide a)
      or_short-Reordered (some c, after) h' = h'
      or_short-Reordered (none, (g', i)) h' = as_short-Reordered g' i h'

  initialize-Reordered : (g : Wgetopter) → Reordered g → Gives Reordered (initialize wide g)
  unfolding initialize
  initialize-Reordered g h =
      each-Gives Reordered (stripped wide b'-' g.shortopts) _ λ (in_order, s).
        each-Gives Reordered (if in_order then some (false, s) else stripped wide b'+' s) _
          λ (required, s'). each-Gives Reordered (stripped wide b':' s') _ λ (colon, s''). h

  after_argv-Reordered :
      (before : ℕ) (a : NextArgv × Wgetopter)
      → ReorderedBy a
      → Gives ReorderedLong (after_argv wide before a)
  after_argv-Reordered before (unpermuted_non_option, g) h = h
  after_argv-Reordered before (finished, g) h = h
  after_argv-Reordered before (found_option, g) h = option-Reordered g before h

  inner-Reordered :
      (g : Wgetopter) (before : ℕ) → Reordered g → Gives ReorderedLong (wgetopt_inner wide g before)
  unfolding wgetopt_inner
  inner-Reordered g before h =
      bind-Gives Reordered ReorderedLong (if g.initialized then some g else initialize wide g) _
        (if-Gives Reordered g.initialized (some g) (initialize wide g) h (initialize-Reordered g h))
        λ started h'.
          let k = record started { woptarg = none } in
          if-Gives ReorderedLong (is_empty started.remaining_text) _ (handle_option wide k before)
            (bind-Gives ReorderedBy ReorderedLong (next_argv wide k) (after_argv wide before)
              (next_argv-Reordered k h') (after_argv-Reordered before))
            (option-Reordered k before h')

-- A call for the next option that does not panic leaves the same arguments, in an order that may be
-- another.
pub next_opt-Perm :
    (wide : Wide) (g : Wgetopter) → Gives (ReorderedBy wide g.argv) (next_opt wide g)
unfolding next_opt
next_opt-Perm wide g =
    if-Gives (ReorderedBy wide g.argv) (leb g.wopt_index (length g.argv)) _ none
      (bind-Gives (ReorderedLong wide g.argv) (ReorderedBy wide g.argv) (wgetopt_inner wide g 0) _
        (inner-Reordered wide g.argv g 0 (Perm.refl g.argv)) λ a h. h)
      _
