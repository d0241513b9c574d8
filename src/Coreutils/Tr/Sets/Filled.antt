-- ===== src/Coreutils/Tr/Sets/Filled.antt =====
-- operation.rs: the two strings of bytes that `Sequence::solve_set_characters` gives.
use reverse_rewrite.Common.{
  ℕ, zero, suc, ◌+◌, ◌-◌, ◌≤◌, ◌<◌, ◌⊎◌, ◌≡◌, refl, sym, ap, subst, ◌∙◌, arith, Bool, true, false,
  not, ◌&&◌, Option, none, some, List, [], ◌∷◌, ltb, ==→eq, if◌then◌else◌, length, take, ltb→le,
  ltb→lt, inl, inr, length-take,
}
use reverse_rewrite.Common.Text.{Bytes}
use reverse_rewrite.Common.Outcome.{Outcome, ok, err, >>=-eq-ok}
use reverse_rewrite.Coreutils.Tr.Sequence.{
  Sequence, multiple_char_repeat_in_set2, class_except_lower_upper_in_set2,
  class_in_set2_not_matched_by_set1, set1_longer_set2_ends_in_class,
  complement_more_than_one_unique_in_set2,
}
use reverse_rewrite.Coreutils.Tr.Sets.{
  contains, flatten_all, or_endless, Solution, is_class, is_case, all_in, class_offsets,
  is_char_star, is_overgrown, range_from, absent, count_if, any, complement_of, without_stars,
  replace_stars, ends_in_case, fit, solve_replaced, solve,
}

if-eq-ok :
    {E A : Type 0} (b : Bool) (e : E) (o : Outcome E A) {a : A}
    → (if b then err e else o) ≡ ok a
    → (b ≡ false) × (o ≡ ok a)
if-eq-ok true e o h = cc
if-eq-ok false e o h = (refl, h)

endless-eq-ok : (o : Option Bytes) {xs : Bytes} → or_endless o ≡ ok xs → o ≡ some xs
endless-eq-ok none h = cc
endless-eq-ok (some xs) h = cc

-- set 1 is whole, or cut to the length of set 2
abbrev pub Fits : Bool → Bytes → Bytes → Bytes → Type 0
Fits truncate whole xs ys =
    (xs ≡ whole) × ((truncate ≡ true) → length whole ≤ length ys)
    ⊎ (truncate ≡ true) × (xs ≡ take (length ys) whole) × (length ys < length whole)

ok-eq : {E A : Type 0} {a b : A} → ◌≡◌ {A = Outcome E A} (ok a) (ok b) → a ≡ b
ok-eq h = cc

pair-eq : {a b c d : Bytes} → ◌≡◌ {A = Solution} (ok (a, b)) (ok (c, d)) → (a ≡ c) × (b ≡ d)
pair-eq h = let e = ok-eq h in (ap (λ r. r.0) e, ap (λ r. r.1) e)

fit-Fits :
    (truncate : Bool) (set2 : List Sequence) (whole zs xs ys : Bytes)
    → fit truncate set2 whole zs ≡ ok (xs, ys)
    → (zs ≡ ys) × Fits truncate whole xs zs
unfolding fit
fit-Fits truncate set2 whole zs xs ys =
    go (ltb (length zs) (length whole)) truncate (ends_in_case set2) refl
  where
    chosen : Bool → Bool → Bool → Solution
    chosen short truncate ends =
        if short
        then (if truncate
            then ok (take (length zs) whole, zs)
            else if ends
            then err set1_longer_set2_ends_in_class
            else ok (whole, zs))
        else ok (whole, zs)

    go :
        (short truncate ends : Bool)
        → ltb (length zs) (length whole) ≡ short
        → chosen short truncate ends ≡ ok (xs, ys)
        → (zs ≡ ys) × Fits truncate whole xs zs
    go true true ends e h = let (p, q) = pair-eq h in (q, inr (refl, sym p, ltb→lt _ _ e))
    go true false true e h = cc
    go true false false e h = let (p, q) = pair-eq h in (q, inl (sym p, λ t. cc))
    go false t ends e h = let (p, q) = pair-eq h in (q, inl (sym p, λ _. ltb→le _ _ e))

absent-lem :
    (xs bs : Bytes) (b : ℕ) → contains (absent xs bs) b ≡ (contains bs b && not (contains xs b))
absent-lem xs [] b = refl
absent-lem xs (x ∷ bs) b = ground (arith, absent-lem xs bs b, ==→eq x b)

contains-range : (lo n b : ℕ) → lo ≤ b → b < lo + n → contains (range_from lo n) b ≡ true
contains-range lo zero b h k = absurd (omega arith)
contains-range lo (suc n) b h k = ground (arith, contains-range (suc lo) n b)

-- A byte is in the complement of a string exactly when it is not in the string.
pub contains-complement_of :
    (xs : Bytes) (b : ℕ) → b < 256 → contains (complement_of xs) b ≡ not (contains xs b)
contains-complement_of xs b h =
    absent-lem xs (range_from 0 256) b
    ∙ ap (λ t. t && not (contains xs b)) (contains-range 0 256 b (omega arith) (omega arith))

-- What solving the parsed sets comes to when it succeeds.
abbrev pub Parts : Bool → Bool → List Sequence → List Sequence → Bytes → Bytes → Type 0
Parts complement truncate set1 set2 xs ys =
    (flat : Bytes) × (plain : Bytes) × (flatten_all set1 ≡ some flat)
    × (flatten_all (without_stars set2) ≡ some plain)
    × (let whole = if complement then complement_of flat else flat in
        (flatten_all (replace_stars (length whole - length plain) set2) ≡ some ys)
        × Fits truncate whole xs ys)

pub solve-Parts :
    (complement truncate translating : Bool) (set1 set2 : List Sequence) (xs ys : Bytes)
    → solve complement truncate translating set1 set2 ≡ ok (xs, ys)
    → Parts complement truncate set1 set2 xs ys
unfolding solve solve_replaced
solve-Parts complement truncate translating set1 set2 xs ys h =
    let (_, h1) = if-eq-ok (ltb 1 (count_if is_char_star set2)) multiple_char_repeat_in_set2 _ h in
    let (_, h2) =
      if-eq-ok (translating && any (λ s. is_class s && not (is_case s)) set2)
        class_except_lower_upper_in_set2 _ h1 in
    let (flat, h3, h4) = >>=-eq-ok (or_endless (flatten_all set1)) _ h2 in
    let (plain, h5, h6) = >>=-eq-ok (or_endless (flatten_all (without_stars set2))) _ h4 in
    let whole = if complement then complement_of flat else flat in
    let filled = replace_stars (length whole - length plain) set2 in
    let (_, h7) =
      if-eq-ok (not (all_in (class_offsets 0 filled) (class_offsets 0 set1)))
        class_in_set2_not_matched_by_set1 _ h6 in
    let (zs, h8, h9) = >>=-eq-ok (or_endless (flatten_all filled)) _ h7 in
    let (_, h10) =
      if-eq-ok (is_overgrown complement translating set1 whole zs)
        complement_more_than_one_unique_in_set2 _ h9 in
    let (same, fits) = fit-Fits truncate filled whole zs xs ys h10 in
    (
      flat,
      plain,
      endless-eq-ok (flatten_all set1) h3,
      endless-eq-ok (flatten_all (without_stars set2)) h5,
      (
        endless-eq-ok (flatten_all filled) h8 ∙ ap some same,
        subst (λ r. Fits truncate whole xs r) same fits,
      ),
    )

-- When set 1 may be truncated and solving succeeds, the solved set 1 is not longer than the solved set 2.
pub solve_truncated :
    (complement translating : Bool) (set1 set2 : List Sequence) (xs ys : Bytes)
    → solve complement true translating set1 set2 ≡ ok (xs, ys)
    → length xs ≤ length ys
solve_truncated complement translating set1 set2 xs ys h =
    let (flat, plain, _, _, (_, fits)) =
      solve-Parts complement true translating set1 set2 xs ys h in
    shorter (if complement then complement_of flat else flat) fits
  where
    shorter : (whole : Bytes) → Fits true whole xs ys → length xs ≤ length ys
    shorter whole (inl (e, k)) = subst (λ r. length r ≤ length ys) (sym e) (k refl)
    shorter whole (inr (_, e, k)) =
        subst (λ r. length r ≤ length ys) (sym e) (omega (arith, length-take (length ys) whole))
