-- ===== src/Fish/Wgetopt/Safe/Arguments.antt =====
-- wgetopt.rs: the arguments that `next_argv` passes over.
use reverse_rewrite.Common.{
  ℕ, suc, ◌+◌, ◌≤◌, ◌<◌, ◌≡◌, ◌≢◌, refl, sym, ap, subst, ◌∙◌, arith, Bool, true, false, not, ◌&&◌,
  ◌||◌, Option, none, some, List, [], ◌∷◌, ◌==◌, ==→eq, if◌then◌else◌, length, drop, get_elem?,
  length-drop,
}
use mathlib.Core.Bool.{true≢false}
use reverse_rewrite.Common.Text.{bytes_eq, codes}
use reverse_rewrite.Common.Outcome.{◌>>?◌}
use reverse_rewrite.Fish.Wgetopt.{
  Text, Wide, finished, found_option, Wgetopter, slice_from, exchange, is_permuting, is_requiring,
  is_empty,
}
use reverse_rewrite.Fish.Wgetopt.Exchange.{taken}
use reverse_rewrite.Fish.Wgetopt.Scan.{
  is_non_option, skip_non_options, move_non_options, permute_args, behind_terminator,
  skip_terminator, classify, next_argv,
}
use reverse_rewrite.Fish.Wgetopt.Safe.{
  Returns, bind-Returns, if-Returns, inside, some-eq, length-rotated, strict, Ordered, Blank,
  Exchanged, Between, Halfway, Clear, Stepped, char_at-Returns, char-inside, at-Returns,
  get-Returns, slice-bind,
}

module _ (wide : Wide) where
  pub exchange-Ordered : (g : Wgetopter) → Ordered g → Returns (Exchanged g) (exchange g)
  unfolding exchange
  exchange-Ordered g (p, q, r) =
      let same = length-rotated g.first_nonopt g.last_nonopt g.wopt_index g.argv p q r in
      subst (Returns (Exchanged g))
        (sym (taken g.first_nonopt g.last_nonopt g.wopt_index (length g.argv) none p q r))
        ((omega arith, omega arith, omega (arith, same)), refl, same, λ b. b)

  pub two_long :
      (arg : Text) (c : ℕ)
      → wide.char_at arg 0 ≡ some c
      → (not (c == b'-') || length arg == 1) ≡ false
      → 2 ≤ length arg
  two_long arg c e h =
      let dash : c ≡ b'-' = ground (arith, ==→eq c b'-') in
      let some_text : 0 < length arg =
        char-inside wide arg 0 c (omega arith) e (λ z. absurd (omega (arith, dash, z))) in
      let not_one : length arg ≢ 1 = λ z. ground (arith, z) in omega (arith, some_text, not_one)

  pub dashed :
      (arg : Text) (c : ℕ)
      → wide.char_at arg 0 ≡ some c
      → (not (c == b'-') || length arg == 1) ≡ false
      → wide.char_at arg 0 ≡ some b'-'
  dashed arg c e h = e ∙ ap some (ground (arith, ==→eq c b'-'))

  -- an element that is an option has a dash and more
  abbrev pub Dashed : Text → Type 0
  Dashed arg = (2 ≤ length arg) × (wide.char_at arg 0 ≡ some b'-')

  pub kind-Returns :
      {B : Type 0} (Q : B → Type 0) (arg : Text) (f : Bool → Option B)
      → ((b : Bool) → (b ≡ false → Dashed arg) → Returns Q (f b))
      → Returns Q (is_non_option wide arg >>? f)
  kind-Returns Q arg f k =
      let (c, e) = char_at-Returns wide arg 0 (omega arith) in
      subst (λ o. Returns Q ((o >>? λ c. some (not (c == b'-') || length arg == 1)) >>? f)) (sym e)
        (k (not (c == b'-') || length arg == 1) (λ h. (two_long arg c e h, dashed arg c e h)))

  pub skip-Bounds :
      (args : List Text) (i : ℕ)
      → Returns (λ j. (i ≤ j) × (j ≤ i + length args)) (skip_non_options wide args i)
  unfolding skip_non_options
  skip-Bounds [] i = (omega arith, omega arith)
  skip-Bounds (arg ∷ args) i =
      let Bounds = λ (j : ℕ). (i ≤ j) × (j ≤ i + length (arg ∷ args)) in
      kind-Returns Bounds arg _ λ skipped _.
        if-Returns Bounds skipped (skip_non_options wide args (suc i)) (some i)
          (λ _. weaker (skip_non_options wide args (suc i)) (skip-Bounds args (suc i)))
          (λ _. (omega arith, omega arith))
    where
      weaker :
          (o : Option ℕ)
          → Returns (λ j. (suc i ≤ j) × (j ≤ suc i + length args)) o
          → Returns (λ j. (i ≤ j) × (j ≤ i + suc (length args))) o
      weaker none h = h
      weaker (some j) (p, q) = (omega arith, omega arith)

  pub move-Halfway : (g : Wgetopter) → Between g → Returns Halfway (move_non_options wide g)
  move-Halfway g ((p, q, r), t) =
      if-Returns Halfway (g.last_nonopt == g.wopt_index) (some g) _ (λ _. (omega arith, r, t))
        λ _.
          if-Returns Halfway (g.first_nonopt == g.last_nonopt)
            (some (record g { first_nonopt = g.wopt_index })) (exchange g)
            (λ _. (omega arith, r, t))
            λ _. from_exchange (exchange g) (exchange-Ordered g (p, q, r))
    where
      from_exchange : (o : Option Wgetopter) → Returns (Exchanged g) o → Returns Halfway o
      from_exchange none h = h
      from_exchange (some h) ((a, b, c), _, _, same) = (omega arith, c, same t)

  pub permute-Between : (g : Wgetopter) → Between g → Returns Between (permute_args wide g)
  unfolding permute_args
  permute-Between g between =
      if-Returns Between (is_permuting g.ordering) _ (some g)
        (λ _.
          bind-Returns Halfway Between (move_non_options wide g) _ (move-Halfway g between)
            λ h _ (p, q, t).
              bind-Returns _ Between (skip_non_options wide (drop h.wopt_index h.argv) h.wopt_index)
                _ (skip-Bounds (drop h.wopt_index h.argv) h.wopt_index)
                λ i _ (a, b).
                  ((omega arith, omega arith, omega (arith, length-drop h.wopt_index h.argv)), t))
        λ _. between

  pub nothing_at :
      {A : Type 0} (xs : List A) (i : ℕ) {x : A} → length xs ≤ i → get_elem? xs i ≡ some x → ⊥
  nothing_at xs i h e = let k = inside i xs e in omega arith

  pub behind-Halfway :
      (g : Wgetopter)
      → Ordered g
      → Blank g
      → Returns
          (λ h. Halfway h × (h.first_nonopt ≤ length g.argv) × (length h.argv ≡ length g.argv))
          (behind_terminator wide g)
  behind-Halfway g (p, q, r) t =
      let Q = λ (h : Wgetopter).
        Halfway h × (h.first_nonopt ≤ length g.argv) × (length h.argv ≡ length g.argv) in
      if-Returns Q (g.first_nonopt == g.last_nonopt)
        (some (record g { first_nonopt = g.wopt_index })) _ (λ _. ((omega arith, r, t), r, refl))
        λ _.
          if-Returns Q (g.last_nonopt == g.wopt_index) (some g) (exchange g)
            (λ _. ((omega arith, r, t), omega arith, refl))
            λ _. from_exchange (exchange g) (exchange-Ordered g (p, q, r))
    where
      from_exchange :
          (o : Option Wgetopter)
          → Returns (Exchanged g) o
          → Returns
              (λ h. Halfway h × (h.first_nonopt ≤ length g.argv) × (length h.argv ≡ length g.argv))
              o
      from_exchange none h = h
      from_exchange (some h) ((a, b, c), _, n, same) =
          ((omega arith, c, same t), omega (arith, n), n)

  pub terminator-Clear : (g : Wgetopter) → Between g → Returns Clear (skip_terminator wide g)
  unfolding skip_terminator
  terminator-Clear g ((p, q, r), t) =
      let g' = record g { wopt_index = suc g.wopt_index } in
      if-Returns Clear (g.wopt_index == length g.argv) (some g) _
        (λ e. (
          ((p, q, r), t),
          λ arg at. absurd (
              nothing_at g.argv g.wopt_index (omega (arith, ==→eq g.wopt_index (length g.argv) e))
                at),
        ))
        λ e.
          let more : g.wopt_index < length g.argv = strict g.wopt_index (length g.argv) r e in
          get-Returns wide Clear g _ more λ arg at.
            if-Returns Clear (bytes_eq arg (codes "--")) _ (some g)
              (λ _.
                bind-Returns _ Clear (behind_terminator wide g') _
                  (behind-Halfway g' (p, omega arith, more) t)
                  λ h _ ((a, b, s), c, n). (
                    ((c, omega arith, omega (arith, n)), s),
                    λ arg' at'. absurd (nothing_at h.argv (length g.argv) (omega (arith, n)) at'),
                  ))
              (λ no. (
                ((p, q, r), t),
                λ arg' at'.
                    subst (λ w. bytes_eq w (codes "--") ≡ false) (some-eq (sym at ∙ at')) no,
              ))

  pub three_long :
      (arg : Text)
      → Dashed arg
      → wide.char_at arg 1 ≡ some b'-'
      → bytes_eq arg (codes "--") ≡ false
      → 3 ≤ length arg
  three_long [] (h, e) k l = absurd (omega arith)
  three_long (a ∷ []) (h, e) k l = absurd (omega arith)
  three_long (a ∷ b ∷ []) (h, e) k l =
      let first : a ≡ b'-' = some-eq (sym (wide.char_at-inside (a ∷ b ∷ []) 0 a refl) ∙ e) in
      let second : b ≡ b'-' = some-eq (sym (wide.char_at-inside (a ∷ b ∷ []) 1 b refl) ∙ k) in
      absurd (true≢false (sym (λ i. bytes_eq (first i ∷ second i ∷ []) (codes "--")) ∙ l))
  three_long (a ∷ b ∷ c ∷ cs) (h, e) k l = omega arith

  pub found-Stepped :
      (g : Wgetopter) (arg : Text) (two : Bool)
      → Ordered g
      → get_elem? g.argv g.wopt_index ≡ some arg
      → 2 ≤ length arg
      → (two ≡ true → 3 ≤ length arg)
      → g.initialized ≡ true
      → Returns Stepped (
          slice_from (if two then 2 else 1) arg >>? λ text.
          some (found_option, record g { remaining_text = text }))
  found-Stepped g arg true o at h k z =
      slice-bind wide Stepped 2 arg _ h
        (o, (arg, at, h), omega (arith, k refl, length-drop 2 arg), z)
  found-Stepped g arg false o at h k z =
      slice-bind wide Stepped 1 arg _ (omega arith)
        (o, (arg, at, h), omega (arith, length-drop 1 arg), z)

  pub classify-Stepped : (g : Wgetopter) → Clear g → Returns Stepped (classify wide g)
  unfolding classify
  classify-Stepped g (((p, q, r), t), clear) =
      if-Returns Stepped (g.wopt_index == length g.argv) _ _ (λ _. _)
        λ e.
          let more : g.wopt_index < length g.argv = strict g.wopt_index (length g.argv) r e in
          get-Returns wide Stepped g _ more λ arg at. kind-Returns Stepped arg _ λ skipped long.
            if-Returns Stepped skipped _ _
              (λ _.
                if-Returns Stepped (is_requiring g.ordering) (some (finished, g)) _ (λ _. _)
                  (λ _. ((p, omega arith, more), t)))
              (λ unskipped.
                let (two, dash) = long unskipped in
                second (is_empty g.longopts) arg at two dash (clear arg at))
    where
      second :
          (none_long : Bool) (arg : Text)
          → get_elem? g.argv g.wopt_index ≡ some arg
          → 2 ≤ length arg
          → wide.char_at arg 0 ≡ some b'-'
          → bytes_eq arg (codes "--") ≡ false
          → Returns Stepped (
              (if none_long then some 0 else wide.char_at arg 1) >>? λ c.
              slice_from (if not none_long && c == b'-' then 2 else 1) arg >>? λ text.
              some (found_option, record g { remaining_text = text }))
      second true arg at two dash k = found-Stepped g arg false (p, q, r) at two (λ z. cc) t.1
      second false arg at two dash k = at-Returns wide Stepped arg 1 _ (omega arith) λ c e.
          found-Stepped g arg (c == b'-') (p, q, r) at two
            (λ z. three_long arg (two, dash) (e ∙ ap some (==→eq c b'-' z)) k) t.1

  pub next_argv-Stepped : (g : Wgetopter) → Between g → Returns Stepped (next_argv wide g)
  unfolding next_argv
  next_argv-Stepped g between =
      bind-Returns Between Stepped (permute_args wide g) _ (permute-Between g between) λ h _ b.
        bind-Returns Clear Stepped (skip_terminator wide h) _ (terminator-Clear h b)
          λ k _ c. classify-Stepped k c
