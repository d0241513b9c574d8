-- ===== src/Hexyl/Offset/Names.antt =====
-- main.rs: the names of units in arguments, apart from the `match` that reads them.
use reverse_rewrite.Common.{
  ◌≡◌, refl, Bool, true, false, none, some, List, [], ◌∷◌, arith, Bool-cases, inl, inr,
  if◌then◌else◌,
}
use reverse_rewrite.Common.Text.{Bytes, bytes_eq, codes}
use reverse_rewrite.Common.Order.{bytes_eq_iff}
use reverse_rewrite.Hexyl.Offset.{
  ByteUnit, byte, kilobyte, megabyte, gigabyte, terabyte, kibibyte, mebibyte, gibibyte, tebibyte,
  block, unit_of,
}

-- The names of a unit, in lower case, that the documentation gives.
abbrev pub names : ByteUnit → List Bytes
names byte = [] ∷ []
names kilobyte = codes "kb" ∷ []
names megabyte = codes "mb" ∷ []
names gigabyte = codes "gb" ∷ []
names terabyte = codes "tb" ∷ []
names kibibyte = codes "kib" ∷ []
names mebibyte = codes "mib" ∷ []
names gibibyte = codes "gib" ∷ []
names tebibyte = codes "tib" ∷ []
names (block none) = codes "block" ∷ codes "blocks" ∷ []
names (block (some own)) = []

-- Whether a text is one of those in a list.
abbrev pub is_one_of : Bytes → List Bytes → Bool
is_one_of s [] = false
is_one_of s (t ∷ ts) = if bytes_eq s t then true else is_one_of s ts

named_unit :
    (s name : Bytes) (unit : ByteUnit)
    → is_one_of s (name ∷ []) ≡ true
    → unit_of name ≡ some unit
    → unit_of s ≡ some unit
named_unit s name unit h known = elim (Bool-cases (bytes_eq s name)) [
  | inl same ↦ rw ((bytes_eq_iff s name).0 same) known
  | inr other ↦ absurd (ground (arith, h, other))
]

pub is_one_of-unit_of :
    (s : Bytes) (unit : ByteUnit) → is_one_of s (names unit) ≡ true → unit_of s ≡ some unit
unfolding unit_of
is_one_of-unit_of s byte h = ground (arith, h)
is_one_of-unit_of s kilobyte h = named_unit s (codes "kb") kilobyte h refl
is_one_of-unit_of s megabyte h = named_unit s (codes "mb") megabyte h refl
is_one_of-unit_of s gigabyte h = named_unit s (codes "gb") gigabyte h refl
is_one_of-unit_of s terabyte h = named_unit s (codes "tb") terabyte h refl
is_one_of-unit_of s kibibyte h = named_unit s (codes "kib") kibibyte h refl
is_one_of-unit_of s mebibyte h = named_unit s (codes "mib") mebibyte h refl
is_one_of-unit_of s gibibyte h = named_unit s (codes "gib") gibibyte h refl
is_one_of-unit_of s tebibyte h = named_unit s (codes "tib") tebibyte h refl
is_one_of-unit_of s (block none) h = elim (Bool-cases (bytes_eq s (codes "block"))) [
  | inl single ↦ rw ((bytes_eq_iff s (codes "block")).0 single) refl
  | inr other ↦ named_unit s (codes "blocks") (block none) (rw other at h) refl
]
is_one_of-unit_of s (block (some own)) h = cc
