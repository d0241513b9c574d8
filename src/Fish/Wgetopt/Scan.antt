-- ===== src/Fish/Wgetopt/Scan.antt =====
-- wgetopt.rs: the scan of the arguments, `WGetopter::next_opt`.
pub mod Reorders
use reverse_rewrite.Common.{
  ℕ, zero, suc, ◌+◌, ◌-◌, ◌≡◌, Bool, true, false, not, ◌&&◌, ◌||◌, Option, none, some, List, [],
  ◌∷◌, ◌++◌, ltb, leb, ◌==◌, if◌then◌else◌, length, take, drop, get_elem?,
}
use reverse_rewrite.Common.Text.{Bytes, bytes_eq, codes}
use reverse_rewrite.Common.Outcome.{◌>>?◌}
use reverse_rewrite.Fish.Wgetopt.{
  Text, Wide, Ordering, require_order, permute, return_in_order, ArgType, no_argument,
  required_argument, optional_argument, WOption, LongOptMatch, exact, non_exact, ambiguous,
  no_match, NextArgv, finished, unpermuted_non_option, found_option, Wgetopter, non_option_char,
  slice_from, exchange, is_permuting, is_requiring, is_empty, has_char, from_char, name_length,
  find_matching_long_opt,
}

abbrev pub is_no_argument : ArgType → Bool
is_no_argument no_argument = true
is_no_argument required_argument = false
is_no_argument optional_argument = false

abbrev pub is_required : ArgType → Bool
is_required required_argument = true
is_required no_argument = false
is_required optional_argument = false

-- What a call gives: the character, and the state after it.
abbrev pub Returned : Type 0 → Type 0
Returned A = Option (A × Wgetopter)

module _ (wide : Wide) where
  -- the prefix at the beginning of the option string, taken off
  abbrev pub stripped : ℕ → Text → Option (Bool × Text)
  stripped c optstring = wide.char_at optstring 0 >>? λ first.
      if first == c
      then (slice_from 1 optstring >>? λ rest. some (true, rest))
      else some (false, optstring)

  unfoldable pub initialize : Wgetopter → Option Wgetopter
  initialize g = stripped b'-' g.shortopts >>? λ (in_order, s).
      (if in_order then some (false, s) else stripped b'+' s) >>? λ (required, s').
      stripped b':' s' >>? λ (colon, s''). some (record g {
        first_nonopt = 1;
        last_nonopt = 1;
        wopt_index = 1;
        remaining_text = [];
        ordering =
            if in_order then return_in_order else if required then require_order else permute;
        return_colon = g.return_colon || colon;
        shortopts = s'';
        initialized = true;
      })

  abbrev pub is_non_option : Text → Option Bool
  is_non_option arg = wide.char_at arg 0 >>? λ c. some (not (c == b'-') || length arg == 1)

  -- the index of the first option among the arguments that are left, or behind them all
  unfoldable pub skip_non_options : List Text → ℕ → Option ℕ
  skip_non_options [] i = some i
  skip_non_options (arg ∷ args) i =
      let later = skip_non_options args (suc i) in
      is_non_option arg >>? λ skipped. if skipped then later else some i

  abbrev pub move_non_options : Wgetopter → Option Wgetopter
  move_non_options g =
      if g.last_nonopt == g.wopt_index
      then some g
      else if g.first_nonopt == g.last_nonopt
      then some (record g { first_nonopt = g.wopt_index })
      else exchange g

  -- the part of `next_argv` that is for `Permute`
  unfoldable pub permute_args : Wgetopter → Option Wgetopter
  unfolding exchange skip_non_options
  permute_args g =
      if is_permuting g.ordering
      then (move_non_options g >>? λ h.
          skip_non_options (drop h.wopt_index h.argv) h.wopt_index >>? λ i.
          some (record h { wopt_index = i; last_nonopt = i }))
      else some g

  abbrev pub behind_terminator : Wgetopter → Option Wgetopter
  behind_terminator g =
      if g.first_nonopt == g.last_nonopt
      then some (record g { first_nonopt = g.wopt_index })
      else if g.last_nonopt == g.wopt_index
      then some g
      else exchange g

  -- the part of `next_argv` that is for `--`
  unfoldable pub skip_terminator : Wgetopter → Option Wgetopter
  unfolding exchange
  skip_terminator g =
      let argc = length g.argv in
      if g.wopt_index == argc
      then some g
      else (get_elem? g.argv g.wopt_index >>? λ arg.
          if bytes_eq arg (codes "--")
          then (behind_terminator (record g { wopt_index = suc g.wopt_index }) >>? λ h.
              some (record h { last_nonopt = argc; wopt_index = argc }))
          else some g)

  -- the rest of `next_argv`
  unfoldable pub classify : Wgetopter → Returned NextArgv
  classify g =
      if g.wopt_index == length g.argv
      then some (
        finished,
        if g.first_nonopt == g.last_nonopt then g else record g { wopt_index = g.first_nonopt },
      )
      else (get_elem? g.argv g.wopt_index >>? λ arg. is_non_option arg >>? λ skipped.
          if skipped
          then (if is_requiring g.ordering
              then some (finished, g)
              else some (
                unpermuted_non_option,
                record g { woptarg = some arg; wopt_index = suc g.wopt_index },
              ))
          else ((if is_empty g.longopts then some 0 else wide.char_at arg 1) >>? λ c.
              slice_from (if not (is_empty g.longopts) && c == b'-' then 2 else 1) arg >>? λ text.
              some (found_option, record g { remaining_text = text })))

  unfoldable pub next_argv : Wgetopter → Returned NextArgv
  unfolding permute_args skip_terminator classify
  next_argv g = permute_args g >>? λ h. skip_terminator h >>? classify

  -- an option that takes an argument, from the text behind it or the next element
  unfoldable pub take_argument : ℕ → Text → Wgetopter → Returned ℕ
  take_argument c temp g = wide.char_at temp 2 >>? λ second.
      if second == b':'
      then (if is_empty g.remaining_text
          then some (c, record g { woptarg = none; remaining_text = [] })
          else some (
            c,
            record g {
              woptarg = some g.remaining_text;
              wopt_index = suc g.wopt_index;
              remaining_text = [];
            },
          ))
      else if not (is_empty g.remaining_text)
      then some (
        c,
        record g {
          woptarg = some g.remaining_text;
          wopt_index = suc g.wopt_index;
          remaining_text = [];
        },
      )
      else if g.wopt_index == length g.argv
      then some (
        if g.return_colon then b':' else b'?',
        record g { unrecognized_opt = c; remaining_text = [] },
      )
      else (get_elem? g.argv g.wopt_index >>? λ arg.
          some (
            c,
            record g { woptarg = some arg; wopt_index = suc g.wopt_index; remaining_text = [] },
          ))

  unfoldable pub handle_short_opt : Wgetopter → Returned ℕ
  unfolding take_argument
  handle_short_opt g = wide.char_at g.remaining_text 0 >>? λ c.
      slice_from 1 g.remaining_text >>? λ rest.
      let temp = from_char g.shortopts c in
      let h = record g {
        remaining_text = rest;
        wopt_index = if is_empty rest then suc g.wopt_index else g.wopt_index;
      } in
      if is_empty temp || c == b':'
      then some (
        b'?',
        record h {
          unrecognized_opt = c;
          wopt_index = if is_empty rest then h.wopt_index else suc h.wopt_index;
        },
      )
      else (wide.char_at temp 1 >>? λ first.
          if not (first == b':') then some (c, h) else take_argument c temp h)

  -- `update_long_opt`, with the index of the long option
  unfoldable pub update_long_opt : Wgetopter → WOption → ℕ → ℕ → ℕ → Option (ℕ × (Wgetopter × ℕ))
  update_long_opt g opt_found name_end longopt_index option_index =
      let h = record g { wopt_index = suc g.wopt_index; remaining_text = [] } in
      wide.char_at g.remaining_text name_end >>? λ c.
      if not (c == 0 || c == b'=')
      then none
      else if c == b'='
      then (if is_no_argument opt_found.arg_type
          then some (b'?', (h, longopt_index))
          else (slice_from (suc name_end) g.remaining_text >>? λ arg.
              some (opt_found.val, (record h { woptarg = some arg }, option_index))))
      else if is_required opt_found.arg_type
      then (if ltb h.wopt_index (length g.argv)
          then (get_elem? g.argv h.wopt_index >>? λ arg. some (
            opt_found.val,
            (record h { woptarg = some arg; wopt_index = suc h.wopt_index }, option_index),
          ))
          else some (if g.return_colon then b':' else b'?', (h, longopt_index)))
      else some (opt_found.val, (h, option_index))

  abbrev pub not_found : Wgetopter → ℕ → Option (Option ℕ × (Wgetopter × ℕ))
  not_found g longopt_index =
      some (
        some b'?',
        (record g { remaining_text = []; wopt_index = suc g.wopt_index }, longopt_index),
      )

  abbrev pub found_long : Option (ℕ × (Wgetopter × ℕ)) → Option (Option ℕ × (Wgetopter × ℕ))
  found_long updated = updated >>? λ (c, after). some (some c, after)

  -- the arms of `handle_long_opt`
  unfoldable pub handle_match :
      LongOptMatch → ℕ → Wgetopter → ℕ → Option (Option ℕ × (Wgetopter × ℕ))
  unfolding update_long_opt
  handle_match (exact opt i) name_end g longopt_index =
      found_long (update_long_opt g opt name_end longopt_index i)
  handle_match (non_exact opt i) name_end g longopt_index =
      found_long (update_long_opt g opt name_end longopt_index i)
  handle_match ambiguous name_end g longopt_index = not_found g longopt_index
  handle_match no_match name_end g longopt_index = get_elem? g.argv g.wopt_index >>? λ arg.
      wide.char_at arg 1 >>? λ second.
      if second == b'-'
      then not_found g longopt_index
      else (wide.char_at g.remaining_text 0 >>? λ c.
          if has_char g.shortopts c
          then some (none, (g, longopt_index))
          else not_found g longopt_index)

  unfoldable pub handle_long_opt : Wgetopter → ℕ → Option (Option ℕ × (Wgetopter × ℕ))
  unfolding handle_match find_matching_long_opt
  handle_long_opt g longopt_index =
      let name_end = name_length g.remaining_text in
      handle_match (find_matching_long_opt g name_end) name_end g longopt_index

  -- `try_long`: `--foo`, or `-f` where `f` is not a short option
  abbrev pub try_long : Wgetopter → Option Bool
  try_long g =
      if not (is_empty g.longopts) && ltb g.wopt_index (length g.argv)
      then (get_elem? g.argv g.wopt_index >>? λ arg. wide.char_at arg 0 >>? λ first.
          wide.char_at arg 1 >>? λ second.
          some ((first == b'-' && second == b'-') || not (has_char g.shortopts second)))
      else some false

  abbrev pub as_short : Wgetopter → ℕ → Option (Option ℕ × (Wgetopter × ℕ))
  as_short g longopt_index = handle_short_opt g >>? λ (c, h). some (some c, (h, longopt_index))

  abbrev pub or_short : Option ℕ × (Wgetopter × ℕ) → Option (Option ℕ × (Wgetopter × ℕ))
  or_short (some c, after) = some (some c, after)
  or_short (none, (g, longopt_index)) = as_short g longopt_index

  -- what follows `next_argv`: the option at the beginning of the text that remains
  unfoldable pub handle_option : Wgetopter → ℕ → Option (Option ℕ × (Wgetopter × ℕ))
  unfolding handle_long_opt handle_short_opt
  handle_option g longopt_index = try_long g >>? λ long.
      if long then (handle_long_opt g longopt_index >>? or_short) else as_short g longopt_index

  abbrev pub after_argv : ℕ → NextArgv × Wgetopter → Option (Option ℕ × (Wgetopter × ℕ))
  after_argv longopt_index (unpermuted_non_option, g) =
      some (some non_option_char, (g, longopt_index))
  after_argv longopt_index (finished, g) = some (none, (g, longopt_index))
  after_argv longopt_index (found_option, g) = handle_option g longopt_index

  unfoldable pub wgetopt_inner : Wgetopter → ℕ → Option (Option ℕ × (Wgetopter × ℕ))
  unfolding initialize next_argv handle_option
  wgetopt_inner g longopt_index = (if g.initialized then some g else initialize g) >>? λ started.
      let h = record started { woptarg = none } in
      if is_empty h.remaining_text
      then (next_argv h >>? after_argv longopt_index)
      else handle_option h longopt_index

  unfoldable pub next_opt : Wgetopter → Returned (Option ℕ)
  unfolding wgetopt_inner
  next_opt g =
      if leb g.wopt_index (length g.argv)
      then (wgetopt_inner g 0 >>? λ (o, (h, i)). some (o, h))
      else none

  abbrev usize_max : ℕ
  usize_max = 18446744073709551615

  unfoldable pub next_opt_indexed : Wgetopter → Returned (Option (ℕ × Option ℕ))
  unfolding wgetopt_inner
  next_opt_indexed g = wgetopt_inner g usize_max >>? λ (o, (h, i)).
      some (elim o [ none ↦ none | some c ↦ some (c, if i == usize_max then none else some i) ], h)
