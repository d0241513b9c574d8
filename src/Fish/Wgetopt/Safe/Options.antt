-- ===== src/Fish/Wgetopt/Safe/Options.antt =====
-- wgetopt.rs: the handlers of an option.
use reverse_rewrite.Common.{
  ℕ, suc, ◌≤◌, ◌<◌, ◌≡◌, ◌⊎◌, inl, inr, refl, sym, ap, subst, ◌∙◌, arith, Bool, true, false, not,
  ◌||◌, Option, none, some, [], ◌∷◌, ltb, ◌==◌, ==→eq, if◌then◌else◌, length, drop, get_elem?,
  Bool-cases, ltb→lt,
}
use mathlib.Core.Bool.{true≢false}
use reverse_rewrite.Fish.Wgetopt.{
  Text, Wide, WOption, LongOptMatch, exact, non_exact, ambiguous, no_match, Wgetopter, is_empty,
  has_char, from_char, name_length,
}
use reverse_rewrite.Fish.Wgetopt.Scan.{
  is_no_argument, is_required, take_argument, handle_short_opt, update_long_opt, not_found,
  found_long, handle_match,
}
use reverse_rewrite.Fish.Wgetopt.Safe.{
  Returns, if-Returns, inside, some-eq, strict, Ordered, AtText, Ready, ShortDone, LongDone,
  MatchDone, char-inside, at-Returns, get-Returns, slice-bind,
}

module _ (wide : Wide) where
  pub argument-Done :
      (c : ℕ) (temp : Text) (g : Wgetopter)
      → 2 ≤ length temp
      → Ordered g
      → g.initialized ≡ true
      → (is_empty g.remaining_text ≡ false → g.wopt_index < length g.argv)
      → Returns ShortDone (take_argument wide c temp g)
  unfolding take_argument
  argument-Done c temp g h (p, q, r) z k = at-Returns wide ShortDone temp 2 _ h λ second e.
      if-Returns ShortDone (second == b':') _ _
        (λ _.
          if-Returns ShortDone (is_empty g.remaining_text) _ _ (λ _. inl ((p, q, r), inl refl, z))
            λ f. inl ((p, omega arith, k f), inl refl, z))
        λ _.
          if-Returns ShortDone (not (is_empty g.remaining_text)) _ _
            (λ f. inl ((p, omega arith, k (not_true (is_empty g.remaining_text) f)), inl refl, z))
            λ _.
              if-Returns ShortDone (g.wopt_index == length g.argv) _ _
                (λ _. inl ((p, q, r), inl refl, z))
                λ e'.
                  let more = strict g.wopt_index (length g.argv) r e' in
                  get-Returns wide ShortDone g _ more
                    λ arg at. inl ((p, omega arith, more), inl refl, z)
    where
      not_true : (b : Bool) → not b ≡ true → b ≡ false
      not_true true h = cc
      not_true false h = refl

  pub nonempty : (xs : Text) → is_empty xs ≡ false → 1 ≤ length xs
  nonempty [] h = cc
  nonempty (x ∷ xs) h = omega arith

  pub short-Done : (g : Wgetopter) → AtText g → Returns ShortDone (handle_short_opt wide g)
  unfolding handle_short_opt
  short-Done g ((p, q, r), (arg, at, two), some_text, z) =
      at-Returns wide ShortDone g.remaining_text 0 _ (omega arith) λ c e.
        slice-bind wide ShortDone 1 g.remaining_text _ some_text (
          let rest = drop 1 g.remaining_text in
          let temp = from_char g.shortopts c in
          if-Returns ShortDone (is_empty temp || c == b':') _ _ (λ _. inr refl)
            λ known.
              let long : 1 ≤ length temp = nonempty temp (ground (arith, known)) in
              at-Returns wide ShortDone temp 1 _ long λ first e'.
                if-Returns ShortDone (not (first == b':')) _ _
                  (λ _. inl (advanced rest (is_empty rest) refl))
                  λ colon.
                    let is_colon : first ≡ b':' =
                      ==→eq first b':' (not_false (first == b':') colon) in
                    argument-Done c temp _
                      (char-inside wide temp 1 first long e'
                        (λ nul. absurd (omega (arith, is_colon, nul))))
                      (advanced rest (is_empty rest) refl).0 z (kept (is_empty rest)))
    where
      advanced :
          (rest : Text) (b : Bool)
          → is_empty rest ≡ b
          → Ready (record g {
            remaining_text = rest;
            wopt_index = if b then suc g.wopt_index else g.wopt_index;
          })
      advanced rest true h = ((p, omega arith, inside g.wopt_index g.argv at), inl h, z)
      advanced rest false h = ((p, q, r), inr (arg, at, two), z)

      not_false : (b : Bool) → not b ≡ false → b ≡ true
      not_false true h = refl
      not_false false h = cc

      kept : (b : Bool) → b ≡ false → (if b then suc g.wopt_index else g.wopt_index) < length g.argv
      kept true h = cc
      kept false h = inside g.wopt_index g.argv at

  pub name_length-le : (s : Text) → name_length s ≤ length s
  name_length-le [] = omega arith
  name_length-le (c ∷ cs) = ground (arith, name_length-le cs)

  -- the end of a name is the end of the text or an equals sign
  pub name-end : (s : Text) → (name_length s ≡ length s) ⊎ (get_elem? s (name_length s) ≡ some b'=')
  name-end [] = inl refl
  name-end (c ∷ cs) = elim (Bool-cases (c == b'=')) [
    | inl t ↦ inr (ground (arith, t, ==→eq c b'='))
    | inr f ↦ elim (name-end cs) [
      | inl e ↦ inl (ground (arith, e, f))
      | inr e ↦ inr (ground (arith, e, f))
    ]
  ]

  pub name-char :
      (s : Text) (c : ℕ)
      → wide.char_at s (name_length s) ≡ some c
      → (not (c == 0 || c == b'=') ≡ false) × ((c == b'=') ≡ true → name_length s < length s)
  name-char s c e = elim (name-end s) [
    | inl l ↦
        let nul : c ≡ 0 = some-eq (sym e ∙ (ap (wide.char_at s) l ∙ wide.char_at-length s)) in
        (ground (arith, nul), λ h. absurd (omega (arith, nul, ==→eq c b'=' h)))
    | inr l ↦
        let equals : c ≡ b'=' = some-eq (sym e ∙ wide.char_at-inside s (name_length s) b'=' l) in
        (ground (arith, equals), λ _. inside (name_length s) s l)
  ]

  pub update-Done :
      (g : Wgetopter) (o : WOption) (before i : ℕ)
      → AtText g
      → Returns LongDone (update_long_opt wide g o (name_length g.remaining_text) before i)
  unfolding update_long_opt
  update-Done g o before i ((p, q, r), (arg, at, two), some_text, z) =
      let more = inside g.wopt_index g.argv at in
      at-Returns wide LongDone g.remaining_text (name_length g.remaining_text) _
        (name_length-le g.remaining_text)
        λ c e.
          let (valid, cut) = name-char g.remaining_text c e in
          if-Returns LongDone (not (c == 0 || c == b'=')) none _
            (λ bad. absurd (true≢false (sym bad ∙ valid)))
            λ _.
              if-Returns LongDone (c == b'=') _ _
                (λ equals.
                  if-Returns LongDone (is_no_argument o.arg_type) _ _
                    (λ _. ((p, omega arith, more), inl refl, z))
                    λ _.
                      slice-bind wide LongDone (suc (name_length g.remaining_text)) g.remaining_text
                        _ (cut equals) ((p, omega arith, more), inl refl, z))
                λ _.
                  if-Returns LongDone (is_required o.arg_type) _ _
                    (λ _.
                      if-Returns LongDone (ltb (suc g.wopt_index) (length g.argv)) _ _
                        (λ t.
                          let further = ltb→lt (suc g.wopt_index) (length g.argv) t in
                          get-Returns wide LongDone (record g { wopt_index = suc g.wopt_index }) _
                            further λ arg' at'. ((p, omega arith, further), inl refl, z))
                        λ _. ((p, omega arith, more), inl refl, z))
                    λ _. ((p, omega arith, more), inl refl, z)

  pub found-Done :
      (o : Option (ℕ × (Wgetopter × ℕ)))
      → Returns LongDone o
      → Returns MatchDone (found_long wide o)
  found-Done none h = h
  found-Done (some (c, after)) h = h

  pub match-Done :
      (m : LongOptMatch) (g : Wgetopter) (before : ℕ)
      → AtText g
      → Returns MatchDone (handle_match wide m (name_length g.remaining_text) g before)
  unfolding handle_match
  match-Done (exact o i) g before h = found-Done _ (update-Done g o before i h)
  match-Done (non_exact o i) g before h = found-Done _ (update-Done g o before i h)
  match-Done ambiguous g before ((p, q, r), (arg, at, two), some_text, z) =
      ((p, omega arith, inside g.wopt_index g.argv at), inl refl, z)
  match-Done no_match g before ((p, q, r), (arg, at, two), some_text, z) =
      let gone : Ready (record g { remaining_text = []; wopt_index = suc g.wopt_index }) =
        ((p, omega arith, inside g.wopt_index g.argv at), inl refl, z) in
      get-Returns wide MatchDone g _ (inside g.wopt_index g.argv at) λ arg' at'.
        at-Returns wide MatchDone arg' 1 _
          (subst (λ w. 1 ≤ length w) (some-eq (sym at ∙ at')) (omega arith))
          λ second e.
            if-Returns MatchDone (second == b'-') (not_found wide g before) _ (λ _. gone)
              λ _. at-Returns wide MatchDone g.remaining_text 0 _ (omega arith) λ c e'.
                if-Returns MatchDone (has_char g.shortopts c) (some (none, (g, before)))
                  (not_found wide g before) (λ _. ((p, q, r), (arg, at, two), some_text, z))
                  λ _. gone
