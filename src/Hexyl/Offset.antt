-- ===== src/Hexyl/Offset.antt =====
-- main.rs: the numbers of bytes in arguments, such as `64`, `+4KiB`, `-2blocks` and `0xff`.
-- A `&str` is the list of its code points. Its lower case is the Rust standard library's, taken as
-- an argument, since it follows the tables of Unicode.
pub mod Bounds
pub mod Names
pub mod RoundTrip
use mathlib.Core.Option.{map}
use reverse_rewrite.Common.{ℕ, Bool, Option, none, some, [], ◌∷◌, ltb, ◌==◌, if◌then◌else◌}
use reverse_rewrite.Common.Text.{Bytes, bytes_eq, codes, in_range}
use reverse_rewrite.Common.Outcome.{Outcome, ok, err, panic, ◌>>=◌, map_err}
use reverse_rewrite.Common.Int.{ℤ, pos, negsuc, checked_mul, IntErrorKind, from_str_radix}

-- `NonNegativeI64::new`, of a value that the caller unwraps: its integer is kept
unfoldable pub non_negative : ℤ → Option ℤ
non_negative (pos n) = some (pos n)
non_negative (negsuc n) = none

-- `PositiveI64::new`
unfoldable pub positive : ℤ → Option ℤ
positive (pos n) = if ltb n 1 then none else some (pos n)
positive (negsuc n) = none

pub data ByteUnit : Type 0 where
  byte kilobyte megabyte gigabyte terabyte kibibyte mebibyte gibibyte tebibyte : ByteUnit
  block : Option ℤ → ByteUnit

abbrev default_block_size : ℕ
default_block_size = 512

unfoldable pub get_multiplier : ByteUnit → ℤ
get_multiplier byte = pos 1
get_multiplier kilobyte = pos 1000
get_multiplier megabyte = pos 1000000
get_multiplier gigabyte = pos 1000000000
get_multiplier terabyte = pos 1000000000000
get_multiplier kibibyte = pos 1024
get_multiplier mebibyte = pos 1048576
get_multiplier gibibyte = pos 1073741824
get_multiplier tebibyte = pos 1099511627776
get_multiplier (block (some size)) = size
get_multiplier (block none) = pos default_block_size

pub data ByteOffsetKind : Type 0 where
  forward_from_beginning forward_from_last_offset backward_from_end : ByteOffsetKind

pub record ByteOffset : Type 0 where
  pub value : ℤ
  pub kind : ByteOffsetKind

pub data ByteOffsetParseError : Type 0 where
  empty empty_after_sign unit_multiplication_overflow : ByteOffsetParseError
  sign_found_after_hex_prefix : ℕ → ByteOffsetParseError
  invalid_num_and_unit empty_with_unit invalid_unit : Bytes → ByteOffsetParseError
  parse_num : IntErrorKind → ByteOffsetParseError

pub data NegativeOffsetSpecifiedError : Type 0 where
  negative_offset_specified : NegativeOffsetSpecifiedError

unfoldable pub assume_forward_offset_from_start :
    ByteOffset → Outcome NegativeOffsetSpecifiedError ℤ
assume_forward_offset_from_start o = elim o.kind [
  | forward_from_beginning ↦ ok o.value
  | forward_from_last_offset ↦ ok o.value
  | backward_from_end ↦ err negative_offset_specified
]

-- `u64::from`, which panics on what a NonNegativeI64 never holds
unfoldable pub into_u64 : {E : Type 0} → ℤ → Outcome E ℕ
into_u64 (pos n) = ok n
into_u64 (negsuc n) = panic

abbrev is_ascii_digit : ℕ → Bool
is_ascii_digit c = in_range b'0' b'9' c

-- the digits in front, and the rest
unfoldable pub split_digits : Bytes → Bytes × Bytes
split_digits [] = ([], [])
split_digits (c ∷ cs) =
    let (digits, rest) = split_digits cs in
    if is_ascii_digit c then (c ∷ digits, rest) else ([], c ∷ cs)

unfoldable pub unit_of : Bytes → Option ByteUnit
unit_of s =
    if bytes_eq s []
    then some byte
    else if bytes_eq s (codes "kb")
    then some kilobyte
    else if bytes_eq s (codes "mb")
    then some megabyte
    else if bytes_eq s (codes "gb")
    then some gigabyte
    else if bytes_eq s (codes "tb")
    then some terabyte
    else if bytes_eq s (codes "kib")
    then some kibibyte
    else if bytes_eq s (codes "mib")
    then some mebibyte
    else if bytes_eq s (codes "gib")
    then some gibibyte
    else if bytes_eq s (codes "tib")
    then some tebibyte
    else if bytes_eq s (codes "block")
    then some (block none)
    else if bytes_eq s (codes "blocks")
    then some (block none)
    else none

abbrev pub is_empty : Bytes → Bool
is_empty s = bytes_eq s []

abbrev pub with_unit : Bytes → Bytes → Option ByteUnit → Outcome ByteOffsetParseError (ℤ × ByteUnit)
with_unit digits raw_unit none =
    err (if is_empty digits then invalid_num_and_unit raw_unit else invalid_unit raw_unit)
with_unit digits raw_unit (some unit) =
    map_err (λ e. if is_empty digits then empty_with_unit raw_unit else parse_num e)
      (from_str_radix 10 digits)
    >>= (λ num. ok (num, unit))

abbrev pub numbered : (Bytes → Bytes) → Bytes → Bytes → Outcome ByteOffsetParseError (ℤ × ByteUnit)
numbered to_lowercase digits [] =
    map_err parse_num (from_str_radix 10 digits) >>= (λ num. ok (num, byte))
numbered to_lowercase digits (c ∷ s) = with_unit digits (c ∷ s) (unit_of (to_lowercase (c ∷ s)))

unfoldable pub extract_num_and_unit_from :
    (Bytes → Bytes) → Bytes → Outcome ByteOffsetParseError (ℤ × ByteUnit)
extract_num_and_unit_from to_lowercase [] = err empty
extract_num_and_unit_from to_lowercase (c ∷ cs) =
    let (digits, raw_unit) = split_digits (c ∷ cs) in numbered to_lowercase digits raw_unit

abbrev after_sign : ByteOffsetKind → Bytes → Outcome ByteOffsetParseError (Bytes × ByteOffsetKind)
after_sign kind [] = err empty_after_sign
after_sign kind (c ∷ cs) = ok (c ∷ cs, kind)

unfoldable pub process_sign_of : Bytes → Outcome ByteOffsetParseError (Bytes × ByteOffsetKind)
process_sign_of [] = err empty
process_sign_of (c ∷ cs) =
    if c == b'+'
    then after_sign forward_from_last_offset cs
    else if c == b'-'
    then after_sign backward_from_end cs
    else ok (c ∷ cs, forward_from_beginning)

abbrev pub strip_prefix : Bytes → Bytes → Option Bytes
strip_prefix [] s = some s
strip_prefix (p ∷ prefix) [] = none
strip_prefix (p ∷ prefix) (c ∷ s) = if p == c then strip_prefix prefix s else none

abbrev signed_hex : ℕ → Bytes → ByteOffsetParseError
signed_hex sign [] = empty_after_sign
signed_hex sign (c ∷ s) = sign_found_after_hex_prefix sign

abbrev pub hex_number : Bytes → Outcome ByteOffsetParseError ℤ
hex_number [] = map_err parse_num (from_str_radix 16 [])
hex_number (c ∷ s) =
    if c == b'+'
    then err (signed_hex c s)
    else if c == b'-'
    then err (signed_hex c s)
    else map_err parse_num (from_str_radix 16 (c ∷ s))

unfoldable pub try_parse_as_hex_number : Bytes → Option (Outcome ByteOffsetParseError ℤ)
try_parse_as_hex_number n = map hex_number (strip_prefix (codes "0x") n)

abbrev pub or_panic : ByteOffsetKind → Option ℤ → Outcome ByteOffsetParseError ByteOffset
or_panic kind none = panic
or_panic kind (some v) = let o : ByteOffset = record { value = v; kind = kind } in ok o

abbrev pub into_byte_offset : ByteOffsetKind → ℤ → Outcome ByteOffsetParseError ByteOffset
into_byte_offset kind value = or_panic kind (non_negative value)

-- `NonZeroI64::new(...).expect(...)` on the size of a block
abbrev pub sized_block : ℤ → Outcome ByteOffsetParseError ByteUnit
sized_block (pos n) = if n == 0 then panic else ok (block (some (pos n)))
sized_block (negsuc n) = ok (block (some (negsuc n)))

abbrev pub with_block_size : ℤ → ByteUnit → Outcome ByteOffsetParseError ByteUnit
with_block_size size (block none) = sized_block size
with_block_size size unit = ok unit

abbrev pub or_overflow : ByteOffsetKind → Option ℤ → Outcome ByteOffsetParseError ByteOffset
or_overflow kind none = err unit_multiplication_overflow
or_overflow kind (some value) = into_byte_offset kind value

abbrev pub multiplied : ByteOffsetKind → ℤ → ByteUnit → Outcome ByteOffsetParseError ByteOffset
multiplied kind num unit = or_overflow kind (checked_mul num (get_multiplier unit))

abbrev pub counted :
    (Bytes → Bytes)
    → ℤ
    → Bytes
    → ByteOffsetKind
    → Option (Outcome ByteOffsetParseError ℤ)
    → Outcome ByteOffsetParseError ByteOffset
counted to_lowercase block_size n kind (some hex) = hex >>= into_byte_offset kind
counted to_lowercase block_size n kind none =
    extract_num_and_unit_from to_lowercase n
    >>= (λ (num, unit). with_block_size block_size unit >>= multiplied kind num)

unfoldable pub parse_byte_offset :
    (Bytes → Bytes) → ℤ → Bytes → Outcome ByteOffsetParseError ByteOffset
parse_byte_offset to_lowercase block_size n =
    process_sign_of n
    >>= (λ (rest, kind). counted to_lowercase block_size rest kind (try_parse_as_hex_number rest))
