-- ===== src/Fish/Wgetopt/Matching.antt =====
-- wgetopt.rs: `WGetopter::find_matching_long_opt`.
use reverse_rewrite.Common.{
  ℕ, suc, ◌≡◌, refl, arith, Bool, true, false, ◌&&◌, none, some, List, [], ◌∷◌, ◌==◌, if◌then◌else◌,
  length, take,
}
use reverse_rewrite.Fish.Wgetopt.{
  Text, WOption, LongOptMatch, exact, non_exact, ambiguous, no_match, Wgetopter, starts_with,
  match_from, find_matching_long_opt,
}

module _ (text : Text) where
  abbrev pub matches : WOption → Bool
  matches o = starts_with o.name text

  abbrev pub is_exact : WOption → Bool
  is_exact o = starts_with o.name text && length text == length o.name

  -- the options that a test holds of, with their indices from i on
  abbrev pub indexed : (WOption → Bool) → ℕ → List WOption → List (WOption × ℕ)
  indexed p i [] = []
  indexed p i (o ∷ os) = let rest = indexed p (suc i) os in if p o then (o, i) ∷ rest else rest

  -- An exact match, the first of them, decides; then it matters how many options match at all.
  abbrev pub decided : List (WOption × ℕ) → List (WOption × ℕ) → LongOptMatch
  decided ((o, i) ∷ _) _ = exact o i
  decided [] [] = no_match
  decided [] ((o, i) ∷ []) = non_exact o i
  decided [] (x ∷ y ∷ _) = ambiguous

  -- with a match that is not exact, and whether there were more
  abbrev pending : List (WOption × ℕ) → WOption × ℕ → Bool → List (WOption × ℕ) → LongOptMatch
  pending ((o, i) ∷ _) first more _ = exact o i
  pending [] (o, i) true _ = ambiguous
  pending [] (o, i) false [] = non_exact o i
  pending [] (o, i) false (x ∷ _) = ambiguous

  match_pending :
      (i : ℕ) (opts : List WOption) (first : WOption × ℕ) (more : Bool)
      → match_from text i opts (some first) more
        ≡ pending (indexed is_exact i opts) first more (indexed matches i opts)
  unfolding match_from
  match_pending i [] (o, j) true = refl
  match_pending i [] (o, j) false = refl
  match_pending i (o ∷ os) (o', j) true = ground (arith, match_pending (suc i) os (o', j) true)
  match_pending i (o ∷ os) (o', j) false =
      ground (arith, match_pending (suc i) os (o', j) true, match_pending (suc i) os (o', j) false)

  match_decided :
      (i : ℕ) (opts : List WOption)
      → match_from text i opts none false
        ≡ decided (indexed is_exact i opts) (indexed matches i opts)
  unfolding match_from
  match_decided i [] = refl
  match_decided i (o ∷ os) =
      ground (arith, match_decided (suc i) os, match_pending (suc i) os (o, i) false)

-- The search for a long option finds the first option that the text is the whole name of, if there is
-- one; else the only option whose name the text begins; it is ambiguous when there are several of
-- these, and finds no match when there is none.
pub find_matching_long_opt-decided :
    (g : Wgetopter) (name_end : ℕ)
    → (let text = take name_end g.remaining_text in
        find_matching_long_opt g name_end
        ≡ decided text
            (indexed text (is_exact text) 0 g.longopts)
            (indexed text (matches text) 0 g.longopts))
unfolding find_matching_long_opt
find_matching_long_opt-decided g name_end =
    match_decided (take name_end g.remaining_text) 0 g.longopts
