-- ===== src/Hexyl/Offset/Bounds.antt =====
-- main.rs: no argument makes the parsing of a number of bytes panic.
use reverse_rewrite.Common.{
  ℕ, suc, ◌*◌, ◌<◌, ltb, ◌≡◌, refl, true, Option, none, some, [], ◌∷◌, inl, inr, arith, Bool-cases,
  Option-cases, ◌==◌,
}
use reverse_rewrite.Common.Text.{Bytes, codes}
use reverse_rewrite.Common.Outcome.{Outcome, Gives, >>=-Gives, map_err-Gives}
use reverse_rewrite.Common.Int.{
  ℤ, pos, negsuc, IsNatural, is_unsigned, checked_mul, from_str_radix-IsNatural, i64_limit,
}
use reverse_rewrite.Hexyl.Offset.{
  with_unit, or_overflow, ByteUnit, ByteOffsetParseError, ByteOffsetKind, get_multiplier, unit_of,
  split_digits, numbered, counted, extract_num_and_unit_from, process_sign_of, hex_number,
  try_parse_as_hex_number, into_byte_offset, with_block_size, multiplied, parse_byte_offset,
  parse_num, block, non_negative, strip_prefix,
}

-- A size of blocks that `PositiveI64` holds.
abbrev pub IsPositive : ℤ → Type 0
IsPositive size = (n : ℕ) × (size ≡ pos (suc n)) × (suc n < i64_limit)

abbrev pub IsCount : ℤ × ByteUnit → Type 0
IsCount (num, unit) = IsNatural num × IsNatural (get_multiplier unit)

unit_of-IsNatural :
    (s : Bytes) (unit : ByteUnit) → unit_of s ≡ some unit → IsNatural (get_multiplier unit)
unfolding unit_of get_multiplier
unit_of-IsNatural s unit h = ground arith

split_digits-is_unsigned : (s : Bytes) → is_unsigned (split_digits s).0 ≡ true
unfolding split_digits
split_digits-is_unsigned [] = refl
split_digits-is_unsigned (c ∷ s) = ground arith

with_unit-IsCount :
    (digits raw_unit : Bytes) (o : Option ByteUnit)
    → ((unit : ByteUnit) → o ≡ some unit → IsNatural (get_multiplier unit))
    → is_unsigned digits ≡ true
    → Gives IsCount (with_unit digits raw_unit o)
with_unit-IsCount digits raw_unit none natural h = tt
with_unit-IsCount digits raw_unit (some unit) natural h =
    >>=-Gives IsNatural IsCount _ _
      (map_err-Gives IsNatural _ _ (from_str_radix-IsNatural 10 digits h))
      (λ num counted. (counted, natural unit refl))

numbered-IsCount :
    (to_lowercase : Bytes → Bytes) (digits unit : Bytes)
    → is_unsigned digits ≡ true
    → Gives IsCount (numbered to_lowercase digits unit)
unfolding get_multiplier
numbered-IsCount to_lowercase digits [] h =
    >>=-Gives IsNatural IsCount _ _
      (map_err-Gives IsNatural parse_num _ (from_str_radix-IsNatural 10 digits h))
      (λ num natural. (natural, omega arith))
numbered-IsCount to_lowercase digits (c ∷ s) h =
    with_unit-IsCount digits (c ∷ s) (unit_of (to_lowercase (c ∷ s)))
      (unit_of-IsNatural (to_lowercase (c ∷ s))) h

pub extract_num_and_unit_from-IsCount :
    (to_lowercase : Bytes → Bytes) (s : Bytes)
    → Gives IsCount (extract_num_and_unit_from to_lowercase s)
unfolding extract_num_and_unit_from
extract_num_and_unit_from-IsCount to_lowercase [] = tt
extract_num_and_unit_from-IsCount to_lowercase (c ∷ s) =
    numbered-IsCount to_lowercase _ _ (split_digits-is_unsigned (c ∷ s))

hex_number-IsNatural : (s : Bytes) → Gives IsNatural (hex_number s)
hex_number-IsNatural [] = map_err-Gives IsNatural parse_num _ (from_str_radix-IsNatural 16 [] refl)
hex_number-IsNatural (c ∷ s) = elim (Bool-cases (c == b'+')) [
  | inl plus ↦ rw plus tt
  | inr other ↦ elim (Bool-cases (c == b'-')) [
    | inl minus ↦ rw (other, minus) tt
    | inr digit ↦
        rw (other, digit)
          (map_err-Gives IsNatural parse_num _ (from_str_radix-IsNatural 16 (c ∷ s) (ground arith)))
  ]
]

into_byte_offset-Gives :
    (kind : ByteOffsetKind) (v : ℤ)
    → IsNatural v
    → Gives (λ o. IsNatural o.value) (into_byte_offset kind v)
unfolding non_negative
into_byte_offset-Gives kind (pos n) h = h
into_byte_offset-Gives kind (negsuc n) h = absurd h

with_block_size-Gives :
    (size : ℤ) (unit : ByteUnit)
    → IsPositive size
    → IsNatural (get_multiplier unit)
    → Gives (λ u. IsNatural (get_multiplier u)) (with_block_size size unit)
unfolding get_multiplier
with_block_size-Gives size (block none) (n, e, small) h = rw e (ground arith)
with_block_size-Gives size (block (some other)) p h = h
with_block_size-Gives size _ p h = h

or_overflow-Gives :
    (kind : ByteOffsetKind) (o : Option ℤ)
    → ((v : ℤ) → o ≡ some v → IsNatural v)
    → Gives (λ o. IsNatural o.value) (or_overflow kind o)
or_overflow-Gives kind none h = tt
or_overflow-Gives kind (some v) h = into_byte_offset-Gives kind v (h v refl)

pub checked_mul-IsNatural :
    (a b v : ℤ) → IsNatural a → IsNatural b → checked_mul a b ≡ some v → IsNatural v
checked_mul-IsNatural (negsuc a) b v h k e = absurd h
checked_mul-IsNatural (pos a) (negsuc b) v h k e = absurd k
checked_mul-IsNatural (pos a) (pos b) v h k e = elim (Bool-cases (ltb (a * b) i64_limit)) [
  | inl small ↦ ground (arith, e)
  | inr large ↦ ground (arith, e)
]

process_sign_of-Gives : (s : Bytes) → Gives (λ r. Unit) (process_sign_of s)
unfolding process_sign_of
process_sign_of-Gives [] = tt
process_sign_of-Gives (c ∷ []) = ground arith
process_sign_of-Gives (c ∷ d ∷ s) = ground arith

abbrev pub IsHex : Option (Outcome ByteOffsetParseError ℤ) → Type 0
IsHex none = Unit
IsHex (some hex) = Gives IsNatural hex

multiplied-Gives :
    (kind : ByteOffsetKind) (num : ℤ) (unit : ByteUnit)
    → IsNatural num
    → IsNatural (get_multiplier unit)
    → Gives (λ o. IsNatural o.value) (multiplied kind num unit)
multiplied-Gives kind num unit h k =
    or_overflow-Gives kind _ (λ v e. checked_mul-IsNatural num (get_multiplier unit) v h k e)

pub try_parse_as_hex_number-IsHex : (s : Bytes) → IsHex (try_parse_as_hex_number s)
unfolding try_parse_as_hex_number
try_parse_as_hex_number-IsHex s = elim (Option-cases (strip_prefix (codes "0x") s)) [
  | inl other ↦ rw other tt
  | inr (num, hex) ↦ rw hex (hex_number-IsNatural num)
]

module _ (to_lowercase : Bytes → Bytes) (size : ℤ) (positive_size : IsPositive size) where
  counted-Gives :
      (s : Bytes) (kind : ByteOffsetKind) (o : Option (Outcome ByteOffsetParseError ℤ))
      → IsHex o
      → Gives (λ o. IsNatural o.value) (counted to_lowercase size s kind o)
  counted-Gives s kind (some hex) h =
      >>=-Gives IsNatural (λ o. IsNatural o.value) _ _ h (into_byte_offset-Gives kind)
  counted-Gives s kind none h =
      >>=-Gives IsCount (λ o. IsNatural o.value) _ _
        (extract_num_and_unit_from-IsCount to_lowercase s)
        (λ (num, unit) (natural, multiplier).
          >>=-Gives (λ u. IsNatural (get_multiplier u)) (λ o. IsNatural o.value) _ _
            (with_block_size-Gives size unit positive_size multiplier)
            (λ u known. multiplied-Gives kind num u natural known))

  -- With a block size that PositiveI64 holds, the parsing of a number of bytes never panics,
  -- whatever the text: it gives an error, or a value from 0 to below 2^63.
  pub parse_byte_offset-IsNatural :
      (s : Bytes) → Gives (λ o. IsNatural o.value) (parse_byte_offset to_lowercase size s)
  unfolding parse_byte_offset
  parse_byte_offset-IsNatural s =
      >>=-Gives (λ r. Unit) (λ o. IsNatural o.value) _ _ (process_sign_of-Gives s)
        (λ (rest, kind) given. counted-Gives rest kind _ (try_parse_as_hex_number-IsHex rest))
