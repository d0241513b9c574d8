-- ===== src/Coreutils/Tr/Sets.antt =====
-- operation.rs: the bytes that the two sets stand for, `Sequence::solve_set_characters`.
pub mod Solved
pub mod Filled
pub mod Stars
use reverse_rewrite.Common.{
  ℕ, zero, suc, ◌+◌, ◌-◌, ◌≡◌, Bool, true, false, not, ◌&&◌, ◌||◌, Option, none, some, List, [],
  ◌∷◌, ◌++◌, ltb, ◌==◌, if◌then◌else◌, length, take,
}
use reverse_rewrite.Common.Text.{Bytes}
use reverse_rewrite.Common.Outcome.{Outcome, ok, err, panic, out_of_fuel, ◌>>=◌}
use reverse_rewrite.Coreutils.Tr.Sequence.{
  BadSequence, char_repeat_in_set1, multiple_char_repeat_in_set2, class_except_lower_upper_in_set2,
  class_in_set2_not_matched_by_set1, set1_longer_set2_ends_in_class,
  complement_more_than_one_unique_in_set2, Class, alnum, alpha, blank, control, digit, graph, lower,
  print, punct, space, upper, xdigit, Sequence, char, char_range, char_star, char_repeat, class_of,
  from_str,
}

-- n numbers from lo on
abbrev pub range_from : ℕ → ℕ → Bytes
range_from lo zero = []
range_from lo (suc n) = lo ∷ range_from (suc lo) n

-- `l..=r`
abbrev pub range_to : ℕ → ℕ → Bytes
range_to l r = range_from l (suc r - l)

abbrev pub repeat_n : ℕ → ℕ → Bytes
repeat_n c zero = []
repeat_n c (suc n) = c ∷ repeat_n c n

abbrev pub contains : Bytes → ℕ → Bool
contains [] b = false
contains (x ∷ xs) b = x == b || contains xs b

abbrev digits : Bytes
digits = range_to b'0' b'9'

abbrev uppercase : Bytes
uppercase = range_to b'A' b'Z'

abbrev lowercase : Bytes
lowercase = range_to b'a' b'z'

abbrev punctuation : Bytes
punctuation = range_to 33 47 ++ (range_to 58 64 ++ (range_to 91 96 ++ range_to 123 126))

unfoldable pub flatten_class : Class → Bytes
flatten_class alnum = digits ++ (uppercase ++ lowercase)
flatten_class alpha = uppercase ++ lowercase
flatten_class blank = 9 ∷ 32 ∷ []
flatten_class control = range_to 0 31 ++ (127 ∷ [])
flatten_class digit = digits
flatten_class graph = digits ++ (uppercase ++ (lowercase ++ (punctuation ++ (32 ∷ []))))
flatten_class print = digits ++ (uppercase ++ (lowercase ++ punctuation))
flatten_class punct = punctuation
flatten_class space = 9 ∷ 10 ∷ 11 ∷ 12 ∷ 13 ∷ 32 ∷ []
flatten_class xdigit = digits ++ (range_to b'A' b'F' ++ range_to b'a' b'f')
flatten_class lower = lowercase
flatten_class upper = uppercase

-- `flatten`: the bytes of a sequence, or none for the endless repetition of a byte.
unfoldable pub flatten : Sequence → Option Bytes
unfolding flatten_class
flatten (char c) = some (c ∷ [])
flatten (char_range l r) = some (range_to l r)
flatten (char_star c) = none
flatten (char_repeat c n) = some (repeat_n c n)
flatten (class_of c) = some (flatten_class c)

abbrev pub append_flat : Option Bytes → Option Bytes → Option Bytes
append_flat none _ = none
append_flat (some xs) none = none
append_flat (some xs) (some ys) = some (xs ++ ys)

-- `flat_map(Self::flatten)`, to its end, which it has unless there is a repetition without end.
unfoldable pub flatten_all : List Sequence → Option Bytes
unfolding flatten
flatten_all [] = some []
flatten_all (s ∷ ss) = append_flat (flatten s) (flatten_all ss)

abbrev pub or_endless : Option Bytes → Outcome BadSequence Bytes
or_endless none = out_of_fuel
or_endless (some xs) = ok xs

abbrev pub is_char_star : Sequence → Bool
is_char_star (char_star c) = true
is_char_star (char c) = false
is_char_star (char_range l r) = false
is_char_star (char_repeat c n) = false
is_char_star (class_of c) = false

abbrev pub is_class : Sequence → Bool
is_class (class_of c) = true
is_class (char c) = false
is_class (char_range l r) = false
is_class (char_star c) = false
is_class (char_repeat c n) = false

abbrev pub is_case : Sequence → Bool
is_case (class_of upper) = true
is_case (class_of lower) = true
is_case _ = false

abbrev pub count_if : (Sequence → Bool) → List Sequence → ℕ
count_if p [] = 0
count_if p (s ∷ ss) = let rest = count_if p ss in if p s then suc rest else rest

abbrev pub any : (Sequence → Bool) → List Sequence → Bool
any p [] = false
any p (s ∷ ss) = p s || any p ss

-- `(0..=u8::MAX).filter(|x| !set.contains(x))`
abbrev pub absent : Bytes → Bytes → Bytes
absent xs [] = []
absent xs (b ∷ bs) = let rest = absent xs bs in if contains xs b then rest else b ∷ rest

abbrev pub complement_of : Bytes → Bytes
complement_of xs = absent xs (range_from 0 256)

abbrev pub without_stars : List Sequence → List Sequence
without_stars [] = []
without_stars (s ∷ ss) = let rest = without_stars ss in if is_char_star s then rest else s ∷ rest

-- Each star becomes as many bytes as are missing; a star of the byte 0 is dropped.
abbrev pub replace_stars : ℕ → List Sequence → List Sequence
replace_stars n [] = []
replace_stars n (char_star zero ∷ ss) = replace_stars n ss
replace_stars n (char_star (suc c) ∷ ss) = char_repeat (suc c) n ∷ replace_stars n ss
replace_stars n (char c ∷ ss) = char c ∷ replace_stars n ss
replace_stars n (char_range l r ∷ ss) = char_range l r ∷ replace_stars n ss
replace_stars n (char_repeat c k ∷ ss) = char_repeat c k ∷ replace_stars n ss
replace_stars n (class_of c ∷ ss) = class_of c ∷ replace_stars n ss

-- `flatten().count()`, of a sequence that ends
abbrev pub flat_length : Sequence → ℕ
flat_length s = elim (flatten s) [ none ↦ 0 | some xs ↦ length xs ]

-- How many bytes come before each class of a set, `take(pos).flat_map(Self::flatten).count()`.
unfoldable pub class_offsets : ℕ → List Sequence → List ℕ
unfolding flatten
class_offsets before [] = []
class_offsets before (s ∷ ss) =
    let rest = class_offsets (before + flat_length s) ss in
    if is_class s then before ∷ rest else rest

abbrev pub all_in : List ℕ → List ℕ → Bool
all_in [] ys = true
all_in (x ∷ xs) ys = contains ys x && all_in xs ys

-- as many as `sort_unstable` and `dedup` leave
abbrev pub uniques : Bytes → Bytes
uniques [] = []
uniques (b ∷ bs) = let rest = uniques bs in if contains bs b then rest else b ∷ rest

abbrev pub ends_in_case : List Sequence → Bool
ends_in_case [] = false
ends_in_case (s ∷ []) = is_case s
ends_in_case (s ∷ t ∷ ss) = ends_in_case (t ∷ ss)

abbrev pub Solution : Type 0
Solution = Outcome BadSequence (Bytes × Bytes)

-- from the lengths of the solved sets on
unfoldable pub fit : Bool → List Sequence → Bytes → Bytes → Solution
fit truncate set2 xs ys =
    if ltb (length ys) (length xs)
    then (if truncate
        then ok (take (length ys) xs, ys)
        else if ends_in_case set2
        then err set1_longer_set2_ends_in_class
        else ok (xs, ys))
    else ok (xs, ys)

-- For a complement that is translated, set 2 must be of one byte, and not longer than set 1.
abbrev pub is_overgrown : Bool → Bool → List Sequence → Bytes → Bytes → Bool
is_overgrown complement translating set1 xs ys =
    any is_class set1
    && (translating && (complement && (ltb 1 (length (uniques ys)) || ltb (length xs) (length ys))))

-- from set 2 on, its stars replaced, when the bytes of set 1 are known
unfoldable pub solve_replaced :
    Bool → Bool → Bool → List Sequence → Bytes → List Sequence → Solution
unfolding flatten_all class_offsets fit
solve_replaced complement truncate translating set1 xs set2 =
    if not (all_in (class_offsets 0 set2) (class_offsets 0 set1))
    then err class_in_set2_not_matched_by_set1
    else (or_endless (flatten_all set2) >>= λ ys.
        if is_overgrown complement translating set1 xs ys
        then err complement_more_than_one_unique_in_set2
        else fit truncate set2 xs ys)

-- once both sets are parsed
unfoldable pub solve : Bool → Bool → Bool → List Sequence → List Sequence → Solution
unfolding solve_replaced
solve complement truncate translating set1 set2 =
    if ltb 1 (count_if is_char_star set2)
    then err multiple_char_repeat_in_set2
    else if translating && any (λ s. is_class s && not (is_case s)) set2
    then err class_except_lower_upper_in_set2
    else (or_endless (flatten_all set1) >>= λ flat.
        let xs = if complement then complement_of flat else flat in
        or_endless (flatten_all (without_stars set2)) >>= λ plain.
        solve_replaced complement truncate translating set1 xs
          (replace_stars (length xs - length plain) set2))

unfoldable pub solve_set_characters : Bytes → Bytes → Bool → Bool → Bool → Solution
unfolding from_str solve
solve_set_characters set1_str set2_str complement truncate translating =
    from_str set1_str >>= λ set1.
    if ltb 0 (count_if is_char_star set1)
    then err char_repeat_in_set1
    else (from_str set2_str >>= λ set2. solve complement truncate translating set1 set2)
