-- ===== src/Coreutils/Tr/Sets/Solved.antt =====
-- operation.rs: what `Sequence::solve_set_characters` comes to.
use reverse_rewrite.Common.{
  ℕ, zero, suc, ◌-◌, ◌≡◌, refl, sym, ap, subst, arith, Bool, true, false, not, ◌&&◌, Option, some,
  List, [], ◌∷◌, ◌++◌, ltb, if◌then◌else◌, length, take, ltb→le, inl, inr,
}
use reverse_rewrite.Common.Text.{Bytes}
use reverse_rewrite.Common.Outcome.{Outcome, ok, err, panic, out_of_fuel, ◌>>=◌}
use reverse_rewrite.Coreutils.Tr.Sequence.{
  Sequence, char, char_range, char_star, char_repeat, class_of, Item, many0,
  multiple_char_repeat_in_set2, char_repeat_in_set1, class_except_lower_upper_in_set2,
  class_in_set2_not_matched_by_set1, set1_longer_set2_ends_in_class,
  complement_more_than_one_unique_in_set2, collect, from_str,
}
use reverse_rewrite.Coreutils.Tr.Sets.{
  repeat_n, flatten_all, or_endless, is_char_star, is_overgrown, is_class, is_case, all_in,
  class_offsets, ends_in_case, count_if, any, append_flat, range_to, flatten_class, complement_of,
  without_stars, replace_stars, fit, solve_replaced, solve, solve_set_characters,
}

-- a value or an error, not a panic nor a run without end
abbrev pub Settles : {E A : Type 0} → Outcome E A → Type 0
Settles (ok a) = Unit
Settles (err e) = Unit
Settles panic = ⊥
Settles out_of_fuel = ⊥

bind-Settles :
    {E A B : Type 0} (m : Outcome E A) (f : A → Outcome E B)
    → Settles m
    → ((a : A) → m ≡ ok a → Settles (f a))
    → Settles (m >>= f)
bind-Settles (ok a) f h k = k a refl
bind-Settles (err e) f h k = _
bind-Settles panic f h k = h
bind-Settles out_of_fuel f h k = h

if-Settles :
    {E A : Type 0} (b : Bool) (x y : Outcome E A)
    → Settles x
    → (b ≡ false → Settles y)
    → Settles (if b then x else y)
if-Settles true x y h k = h
if-Settles false x y h k = k refl

collect-Settles : (items : List Item) → Settles (collect items)
collect-Settles [] = _
collect-Settles (inr s ∷ items) = bind-Settles (collect items) _ (collect-Settles items) λ ss _. _
collect-Settles (inl e ∷ items) = _

prefixed :
    (first : Bytes) (o : Option Bytes)
    → (xs : Bytes) × (o ≡ some xs)
    → (ys : Bytes) × (append_flat (some first) o ≡ some ys)
prefixed first o (xs, e) = (first ++ xs, ap (λ o. append_flat (some first) o) e)

-- a set without stars comes to an end
finite :
    (set : List Sequence)
    → count_if is_char_star set ≡ 0
    → (xs : Bytes) × (flatten_all set ≡ some xs)
unfolding flatten_all
finite [] h = ([], refl)
finite (char c ∷ ss) h = prefixed (c ∷ []) (flatten_all ss) (finite ss h)
finite (char_range l r ∷ ss) h = prefixed (range_to l r) (flatten_all ss) (finite ss h)
finite (char_star c ∷ ss) h = absurd (omega arith)
finite (char_repeat c n ∷ ss) h = prefixed (repeat_n c n) (flatten_all ss) (finite ss h)
finite (class_of c ∷ ss) h = prefixed (flatten_class c) (flatten_all ss) (finite ss h)

none_without : (set : List Sequence) → count_if is_char_star (without_stars set) ≡ 0
none_without [] = refl
none_without (s ∷ ss) = ground (arith, none_without ss)

none_replaced : (n : ℕ) (set : List Sequence) → count_if is_char_star (replace_stars n set) ≡ 0
none_replaced n [] = refl
none_replaced n (char c ∷ ss) = none_replaced n ss
none_replaced n (char_range l r ∷ ss) = none_replaced n ss
none_replaced n (char_star zero ∷ ss) = none_replaced n ss
none_replaced n (char_star (suc c) ∷ ss) = none_replaced n ss
none_replaced n (char_repeat c k ∷ ss) = none_replaced n ss
none_replaced n (class_of c ∷ ss) = none_replaced n ss

endless-Settles :
    (set : List Sequence) → count_if is_char_star set ≡ 0 → Settles (or_endless (flatten_all set))
endless-Settles set h = let (xs, e) = finite set h in subst (λ o. Settles (or_endless o)) (sym e) _

fit-Settles :
    (truncate : Bool) (set2 : List Sequence) (xs ys : Bytes) → Settles (fit truncate set2 xs ys)
unfolding fit
fit-Settles truncate set2 xs ys =
    if-Settles (ltb (length ys) (length xs)) _ (ok (xs, ys))
      (if-Settles truncate (ok (take (length ys) xs, ys)) _ _ λ _.
        if-Settles (ends_in_case set2) (err set1_longer_set2_ends_in_class) (ok (xs, ys)) _ λ _. _)
      λ _. _

replaced-Settles :
    (complement truncate translating : Bool) (set1 : List Sequence) (xs : Bytes)
    (set2 : List Sequence)
    → count_if is_char_star set2 ≡ 0
    → Settles (solve_replaced complement truncate translating set1 xs set2)
unfolding solve_replaced
replaced-Settles complement truncate translating set1 xs set2 h =
    if-Settles (not (all_in (class_offsets 0 set2) (class_offsets 0 set1)))
      (err class_in_set2_not_matched_by_set1) _ _
      λ _. bind-Settles (or_endless (flatten_all set2)) _ (endless-Settles set2 h) λ ys _.
        if-Settles (is_overgrown complement translating set1 xs ys)
          (err complement_more_than_one_unique_in_set2) (fit truncate set2 xs ys) _
          λ _. fit-Settles truncate set2 xs ys

solve-Settles :
    (complement truncate translating : Bool) (set1 set2 : List Sequence)
    → count_if is_char_star set1 ≡ 0
    → Settles (solve complement truncate translating set1 set2)
unfolding solve
solve-Settles complement truncate translating set1 set2 h =
    if-Settles (ltb 1 (count_if is_char_star set2)) (err multiple_char_repeat_in_set2) _ _ λ _.
      if-Settles (translating && any (λ s. is_class s && not (is_case s)) set2)
        (err class_except_lower_upper_in_set2) _ _
        λ _. bind-Settles (or_endless (flatten_all set1)) _ (endless-Settles set1 h) λ flat _.
          bind-Settles (or_endless (flatten_all (without_stars set2))) _
            (endless-Settles (without_stars set2) (none_without set2))
            λ plain _.
              let xs = if complement then complement_of flat else flat in
              let n = length xs - length plain in
              replaced-Settles complement truncate translating set1 xs (replace_stars n set2)
                (none_replaced n set2)

-- Solving the sets always gives two strings of bytes or an error: the flattening meets no repetition
-- without end, whatever the sets and the flags.
pub solve_set_characters-Settles :
    (set1_str set2_str : Bytes) (complement truncate translating : Bool)
    → Settles (solve_set_characters set1_str set2_str complement truncate translating)
unfolding solve_set_characters from_str
solve_set_characters-Settles set1_str set2_str complement truncate translating =
    bind-Settles (from_str set1_str) _ (collect-Settles (many0 (length set1_str) set1_str).0)
      λ set1 _.
        if-Settles (ltb 0 (count_if is_char_star set1)) (err char_repeat_in_set1) _ _ λ plain.
          bind-Settles (from_str set2_str) _ (collect-Settles (many0 (length set2_str) set2_str).0)
            λ set2 _.
              solve-Settles complement truncate translating set1 set2
                (omega (arith, ltb→le 0 (count_if is_char_star set1) plain))
