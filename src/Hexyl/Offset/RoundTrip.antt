-- ===== src/Hexyl/Offset/RoundTrip.antt =====
-- main.rs: a number of bytes that is written out with a sign and a unit is read back.
use reverse_rewrite.Common.{
  ℕ, zero, suc, ◌+◌, ◌*◌, ◌/◌, ◌%◌, ◌^◌, ◌<◌, ◌≡◌, refl, sym, ap, subst, ◌≢◌, ◌∙◌, true, false,
  none, some, [], ◌∷◌, ◌++◌, append-nil, append_assoc, inl, inr, arith, Bool-cases, ◌==◌, ltb,
  ltb→lt, if◌then◌else◌, map, All,
}
use reverse_rewrite.Common.Text.{Bytes, codes, decimal, decimal_digits, in_range}
use reverse_rewrite.Common.Decimal.{IsDigit, decimal-IsDigit, decimal_head}
use reverse_rewrite.Common.Outcome.{Outcome, ok, err, ◌>>=◌}
use reverse_rewrite.Common.Int.{
  pos, checked_mul, i64_limit, from_digits, from_str_radix, pos_overflow,
}
use reverse_rewrite.Hexyl.Offset.Names.{names, is_one_of, is_one_of-unit_of}
use reverse_rewrite.Hexyl.Offset.{
  byte, kilobyte, megabyte, gigabyte, terabyte, kibibyte, mebibyte, gibibyte, tebibyte, block,
  forward_from_beginning, forward_from_last_offset, backward_from_end, unit_multiplication_overflow,
  with_block_size, multiplied, or_overflow, get_multiplier, non_negative, process_sign_of, numbered,
  ByteUnit, ByteOffset, ByteOffsetKind, ByteOffsetParseError, unit_of, split_digits,
  parse_byte_offset, strip_prefix, extract_num_and_unit_from, try_parse_as_hex_number,
}

abbrev pub to_ascii_lowercase : ℕ → ℕ
to_ascii_lowercase c = if in_range b'A' b'Z' c then c + 32 else c

-- What the documentation of `str::to_lowercase` says of ASCII.
abbrev pub LowersAscii : (Bytes → Bytes) → Type 0
LowersAscii lower = (s : Bytes) → All (λ c. c < 128) s → lower s ≡ map to_ascii_lowercase s

abbrev pow10 : ℕ → ℕ
pow10 zero = 1
pow10 (suc k) = 10 * pow10 k

digits_step :
    (n d m : ℕ) (rest : Bytes)
    → d < 10
    → m ≡ n * 10 + d
    → m < i64_limit
    → from_digits i64_limit pos_overflow 10 n ((48 + d) ∷ rest)
      ≡ from_digits i64_limit pos_overflow 10 m rest
unfolding from_digits
digits_step n d m rest h e k = ground arith

from_digits-decimal_digits :
    (k n : ℕ) (rest : Bytes)
    → n < 10 * pow10 k
    → n < i64_limit
    → from_digits i64_limit pos_overflow 10 0 (decimal_digits k n ++ rest)
      ≡ from_digits i64_limit pos_overflow 10 n rest
unfolding decimal_digits
from_digits-decimal_digits zero n rest h lim =
    digits_step 0 (n % 10) n rest (omega arith) (omega arith) lim
from_digits-decimal_digits (suc k) n rest h lim = elim (Bool-cases (ltb n 10)) [
  | inl small ↦ rw small (digits_step 0 n n rest (ltb→lt n 10 small) (omega arith) lim)
  | inr large ↦
      rw (large, append_assoc (decimal_digits k (n / 10)) ((48 + n % 10) ∷ []) rest)
        (from_digits-decimal_digits k (n / 10) ((48 + n % 10) ∷ rest) (omega arith) (omega arith)
          ∙ digits_step (n / 10) (n % 10) n rest (omega arith) (omega arith) lim)
]

from_digits-decimal :
    (n : ℕ) → n < i64_limit → from_digits i64_limit pos_overflow 10 0 (decimal n) ≡ ok n
unfolding decimal from_digits
from_digits-decimal n h =
    ap (from_digits i64_limit pos_overflow 10 0) (sym (append-nil (decimal_digits 19 n)))
    ∙ from_digits-decimal_digits 19 n [] (omega arith) h

-- neither a digit in front nor what would make a hex prefix of a zero
StartsUnit : Bytes → Type 0
StartsUnit [] = Unit
StartsUnit (c ∷ s) = (in_range b'0' b'9' c ≡ false) × (c ≢ b'x')

split_digits_lem :
    (digits rest : Bytes)
    → All IsDigit digits
    → StartsUnit rest
    → split_digits (digits ++ rest) ≡ (digits, rest)
unfolding split_digits StartsUnit
split_digits_lem [] [] h k = refl
split_digits_lem [] (c ∷ rest) h k = ground arith
split_digits_lem (c ∷ digits) rest (d, h) k =
    let digit : in_range b'0' b'9' c ≡ true = ground arith in
    rw (split_digits_lem digits rest h k, digit) refl

from_str_radix-digits :
    (c : ℕ) (s : Bytes)
    → IsDigit c
    → from_str_radix 10 (c ∷ s)
      ≡ (from_digits i64_limit pos_overflow 10 0 (c ∷ s) >>= (λ n. ok (pos n)))
unfolding from_str_radix
from_str_radix-digits c [] h = ground arith
from_str_radix-digits c (d ∷ s) h = ground arith

from_str_radix-decimal : (n : ℕ) → n < i64_limit → from_str_radix 10 (decimal n) ≡ ok (pos n)
from_str_radix-decimal n h =
    let (d, s, e) = decimal_head n in
    let (digit, more) = subst (All IsDigit) e (decimal-IsDigit n) in
    let read : from_digits i64_limit pos_overflow 10 0 (d ∷ s) ≡ ok n =
      subst (λ t. from_digits i64_limit pos_overflow 10 0 t ≡ ok n) e (from_digits-decimal n h) in
    rw (e, from_str_radix-digits d s digit, read) refl

unit_of-StartsUnit :
    (s : Bytes) (unit : ByteUnit) → unit_of (map to_ascii_lowercase s) ≡ some unit → StartsUnit s
unfolding unit_of StartsUnit
unit_of-StartsUnit [] unit h = tt
unit_of-StartsUnit (c ∷ s) unit h = (ground arith, λ e. ground arith)

strip_prefix-digits :
    (d : ℕ) (s rest : Bytes)
    → All IsDigit (d ∷ s)
    → StartsUnit rest
    → strip_prefix (codes "0x") (d ∷ (s ++ rest)) ≡ none
unfolding StartsUnit
strip_prefix-digits d [] [] (digit, h) k = ground arith
strip_prefix-digits d [] (c ∷ rest) (digit, h) k = ground arith
strip_prefix-digits d (c ∷ s) rest (digit, h) k = ground arith

-- How the documentation writes it: a sign for the kind, the digits, the unit.
abbrev pub sign_of : ByteOffsetKind → Bytes
sign_of forward_from_beginning = []
sign_of forward_from_last_offset = codes "+"
sign_of backward_from_end = codes "-"

-- The bytes in a unit; a name in an argument gives no block a size of its own.
abbrev pub bytes_per : ℕ → ByteUnit → ℕ
bytes_per size byte = 1
bytes_per size kilobyte = 10 ^ 3
bytes_per size megabyte = 10 ^ 6
bytes_per size gigabyte = 10 ^ 9
bytes_per size terabyte = 10 ^ 12
bytes_per size kibibyte = 2 ^ 10
bytes_per size mebibyte = 2 ^ 20
bytes_per size gibibyte = 2 ^ 30
bytes_per size tebibyte = 2 ^ 40
bytes_per size (block own) = size

abbrev pub bounded : ByteOffsetKind → ℕ → Outcome ByteOffsetParseError ByteOffset
bounded kind n =
    let o : ByteOffset = record { value = pos n; kind = kind } in
    if ltb n i64_limit then ok o else err unit_multiplication_overflow

or_overflow-bounded :
    (kind : ByteOffsetKind) (a b : ℕ)
    → or_overflow kind (checked_mul (pos a) (pos b)) ≡ bounded kind (a * b)
unfolding non_negative
or_overflow-bounded kind a b = elim (Bool-cases (ltb (a * b) i64_limit)) [
  | inl small ↦ rw small refl
  | inr large ↦ rw large refl
]

multiplied-bounded :
    (size n : ℕ) (kind : ByteOffsetKind) (s : Bytes) (unit : ByteUnit)
    → unit_of s ≡ some unit
    → (with_block_size (pos (suc size)) unit >>= multiplied kind (pos n))
      ≡ bounded kind (n * bytes_per (suc size) unit)
unfolding get_multiplier non_negative unit_of
multiplied-bounded size n kind s (block (some own)) h = absurd (ground arith)
multiplied-bounded size n kind s (block none) h =
    let some_bytes : (suc size == 0) ≡ false = ground arith in
    rw some_bytes (or_overflow-bounded kind n (suc size))
multiplied-bounded size n kind s _ h = or_overflow-bounded kind n _

process_sign_of-sign_of :
    (kind : ByteOffsetKind) (d : ℕ) (s : Bytes)
    → IsDigit d
    → process_sign_of (sign_of kind ++ (d ∷ s)) ≡ ok (d ∷ s, kind)
unfolding process_sign_of
process_sign_of-sign_of forward_from_beginning d s h = ground arith
process_sign_of-sign_of forward_from_last_offset d s h = refl
process_sign_of-sign_of backward_from_end d s h = refl

numbered-decimal :
    (to_lowercase : Bytes → Bytes)
    → LowersAscii to_lowercase
    → (n : ℕ) (suffix : Bytes) (unit : ByteUnit) → n < i64_limit
    → All (λ c. c < 128) suffix
    → unit_of (map to_ascii_lowercase suffix) ≡ some unit
    → numbered to_lowercase (decimal n) suffix ≡ ok (pos n, unit)
unfolding unit_of
numbered-decimal to_lowercase lowers n [] unit h ascii known =
    rw (from_str_radix-decimal n h) (ground arith)
numbered-decimal to_lowercase lowers n (c ∷ s) unit h ascii known =
    rw (lowers (c ∷ s) ascii, known, from_str_radix-decimal n h) refl

extract_num_and_unit_from-decimal :
    (to_lowercase : Bytes → Bytes) (n : ℕ) (suffix : Bytes)
    → StartsUnit suffix
    → extract_num_and_unit_from to_lowercase (decimal n ++ suffix)
      ≡ numbered to_lowercase (decimal n) suffix
unfolding extract_num_and_unit_from
extract_num_and_unit_from-decimal to_lowercase n suffix h =
    let (d, s, e) = decimal_head n in
    let parts = split_digits_lem (decimal n) suffix (decimal-IsDigit n) h in
    let headed : split_digits (d ∷ (s ++ suffix)) ≡ (decimal n, suffix) =
      subst (λ t. split_digits (t ++ suffix) ≡ (decimal n, suffix)) e parts in
    let unsplit : extract_num_and_unit_from to_lowercase (d ∷ (s ++ suffix))
        ≡ numbered to_lowercase (decimal n) suffix =
      rw headed refl in
    subst
      (λ t.
        extract_num_and_unit_from to_lowercase (t ++ suffix)
        ≡ numbered to_lowercase (decimal n) suffix)
      (sym e) unsplit

-- A count below 2^63, written in decimal behind a sign and in front of one of the names of a unit in
-- any casing (the empty name stands for bytes), is read back with the kind that the sign stands for, times the bytes in the
-- unit, a block being the size given; or it is an overflow, exactly if the product is not below
-- 2^63.
pub parse_byte_offset-decimal :
    (to_lowercase : Bytes → Bytes)
    → LowersAscii to_lowercase
    → (size n : ℕ) (kind : ByteOffsetKind) (suffix : Bytes) (unit : ByteUnit) → n < i64_limit
    → All (λ c. c < 128) suffix
    → is_one_of (map to_ascii_lowercase suffix) (names unit) ≡ true
    → parse_byte_offset to_lowercase (pos (suc size)) (sign_of kind ++ (decimal n ++ suffix))
      ≡ bounded kind (n * bytes_per (suc size) unit)
unfolding parse_byte_offset try_parse_as_hex_number
parse_byte_offset-decimal to_lowercase lowers size n kind suffix unit h ascii named =
    let known = is_one_of-unit_of (map to_ascii_lowercase suffix) unit named in
    let (d, s, e) = decimal_head n in
    let digits = subst (All IsDigit) e (decimal-IsDigit n) in
    let starts = unit_of-StartsUnit suffix unit known in
    let read : extract_num_and_unit_from to_lowercase (d ∷ (s ++ suffix)) ≡ ok (pos n, unit) =
      subst (λ t. extract_num_and_unit_from to_lowercase (t ++ suffix) ≡ ok (pos n, unit)) e
        (extract_num_and_unit_from-decimal to_lowercase n suffix starts
          ∙ numbered-decimal to_lowercase lowers n suffix unit h ascii known) in
    rw
      (
        e,
        process_sign_of-sign_of kind d (s ++ suffix) digits.0,
        strip_prefix-digits d s suffix digits starts,
        read,
      )
      (multiplied-bounded size n kind _ unit known)
