-- ===== src/Hexyl/Main.antt =====
-- main.rs: `run`, from the options that the command line gives to the printer that is built, and
-- input.rs: seeking in the input.
-- What the system answers is an argument: the variable NO_COLOR, the terminal, the lower case of a
-- text, the last component of a path, and the position that a seek arrives at, or none.
use reverse_rewrite.Common.{
  ℕ, ◌+◌, ◌-◌, ◌*◌, ◌/◌, Bool, true, false, not, Option, none, some, [], ◌∷◌, ltb, ◌==◌,
  if◌then◌else◌, length, drop,
}
use reverse_rewrite.Common.Text.{Bytes, bytes_eq, codes}
use reverse_rewrite.Common.Outcome.{Outcome, ok, err, panic, out_of_fuel, ◌>>=◌, map_err}
use reverse_rewrite.Common.Int.{ℤ, pos, negsuc, checked_mul, checked_neg, from_digits, pos_overflow}
use reverse_rewrite.Hexyl.Byte.{CharacterTable, ColorScheme}
use reverse_rewrite.Hexyl.Offset.{
  ByteUnit, block, ByteOffset, forward_from_beginning, forward_from_last_offset, backward_from_end,
  ByteOffsetParseError, unit_multiplication_overflow, positive, get_multiplier, into_u64,
  assume_forward_offset_from_start, extract_num_and_unit_from, parse_byte_offset,
}
use reverse_rewrite.Hexyl.Printer.{
  Base, binary, octal, decimal, hexadecimal, BorderStyle, Endianness, PrinterBuilder,
}

pub data SeekFrom : Type 0 where
  from_start : ℕ → SeekFrom
  from_current from_end : ℤ → SeekFrom

pub data Input : Type 0 where
  file_input stdin_input : Bytes → Input

-- Reading forward over what a pipe has yet to give: how many bytes there were, and the rest.
abbrev pub try_skip : Bytes → SeekFrom → Option (ℕ × Bytes)
try_skip bytes (from_current (pos n)) =
    some ((if ltb (length bytes) n then length bytes else n), drop n bytes)
try_skip bytes (from_current (negsuc n)) = none
try_skip bytes (from_start n) = none
try_skip bytes (from_end o) = none

-- What `File::seek` answers: that it cannot seek at all, another error, or the position and the bytes
-- from there.
pub data FileSeek : Type 0 where
  cannot_seek seek_error : FileSeek
  sought : ℕ → Bytes → FileSeek

abbrev seek_result : Bytes → SeekFrom → FileSeek → Option (ℕ × Bytes)
seek_result bytes where_to cannot_seek = try_skip bytes where_to
seek_result bytes where_to seek_error = none
seek_result bytes where_to (sought n rest) = some (n, rest)

unfoldable pub seek : (SeekFrom → FileSeek) → Input → SeekFrom → Option (ℕ × Bytes)
seek file_seek (file_input bytes) where_to = seek_result bytes where_to (file_seek where_to)
seek file_seek (stdin_input bytes) where_to = try_skip bytes where_to

pub data ColorWhen : Type 0 where
  always auto never force : ColorWhen

pub data GroupSize : Type 0 where
  one two four eight : GroupSize

abbrev pub group_octets : GroupSize → ℕ
group_octets one = 1
group_octets two = 2
group_octets four = 4
group_octets eight = 8

pub record Opt : Type 0 where
  pub file : Option Bytes
  pub length : Option Bytes
  pub skip : Option Bytes
  pub block_size : Bytes
  pub no_squeezing : Bool
  pub color : ColorWhen
  pub border : BorderStyle
  pub plain : Bool
  pub no_characters : Bool
  pub character_table : CharacterTable
  pub color_scheme : ColorScheme
  pub no_position : Bool
  pub display_offset : Bytes
  pub panels : Option Bytes
  pub group_size : GroupSize
  pub endianness : Endianness
  pub little_endian_format : Bool
  pub base : Bytes
  pub terminal_width : Option ℕ
  pub include_mode : Bool

pub record System : Type 0 where
  pub no_color : Bool
  pub supports_color : Bool
  pub terminal_columns : Option ℕ
  pub to_lowercase : Bytes → Bytes
  pub file_name : Bytes → Option Bytes
  pub seek_to : SeekFrom → Option ℕ

pub data RunError : Type 0 where
  parse_error : ByteOffsetParseError → RunError
  negative_offset block_as_unit not_positive seek_failed invalid_base invalid_base_name
        invalid_panels read_error :
      RunError

-- What the printer is built from, where it starts, and how much is read.
pub record Job : Type 0 where
  pub builder : PrinterBuilder
  pub offset : ℕ
  pub limit : Option ℕ

abbrev pub or_not_positive : Option ℤ → Outcome RunError ℤ
or_not_positive none = err not_positive
or_not_positive (some size) = ok size

abbrev pub or_overflow : Option ℤ → Outcome RunError ℤ
or_overflow none = err (parse_error unit_multiplication_overflow)
or_overflow (some size) = ok size

abbrev pub sized : ℤ × ByteUnit → Outcome RunError ℤ
sized (num, block own) = err block_as_unit
sized (num, unit) =
    or_overflow (checked_mul num (get_multiplier unit)) >>= (λ x. or_not_positive (positive x))

-- The size of a block; none if `run` returns at once, which it does on a hex number.
abbrev pub block_size_of :
    (Bytes → Bytes) → Bytes → Option (Outcome ByteOffsetParseError ℤ) → Outcome RunError (Option ℤ)
block_size_of to_lowercase text (some hex) =
    map_err parse_error hex >>= (λ x. or_not_positive (positive x)) >>= (λ size. ok none)
block_size_of to_lowercase text none =
    map_err parse_error (extract_num_and_unit_from to_lowercase text)
    >>= sized
    >>= (λ size. ok (some size))

-- `value.checked_neg().unwrap()`
abbrev pub or_panic : Option ℤ → Outcome RunError SeekFrom
or_panic none = panic
or_panic (some v) = ok (from_end v)

abbrev pub seek_from : ByteOffset → Outcome RunError SeekFrom
seek_from o = elim o.kind [
  | forward_from_beginning ↦ ok (from_current o.value)
  | forward_from_last_offset ↦ ok (from_current o.value)
  | backward_from_end ↦ or_panic (checked_neg o.value)
]

abbrev pub or_seek_failed : Option ℕ → Outcome RunError ℕ
or_seek_failed none = err seek_failed
or_seek_failed (some n) = ok n

abbrev pub skip_offset : System → ℤ → Option Bytes → Outcome RunError ℕ
skip_offset system size none = ok 0
skip_offset system size (some text) =
    map_err parse_error (parse_byte_offset system.to_lowercase size text)
    >>= seek_from
    >>= (λ where_to. or_seek_failed (system.seek_to where_to))

abbrev pub parse_byte_count : System → ℤ → Bytes → Outcome RunError ℕ
parse_byte_count system size text =
    map_err parse_error (parse_byte_offset system.to_lowercase size text)
    >>= (λ o. map_err (λ e. negative_offset) (assume_forward_offset_from_start o))
    >>= into_u64

abbrev pub limit_of : System → ℤ → Option Bytes → Outcome RunError (Option ℕ)
limit_of system size none = ok none
limit_of system size (some text) = parse_byte_count system size text >>= (λ n. ok (some n))

abbrev pub uses_color : ColorWhen → System → Bool
uses_color never system = false
uses_color always system = not system.no_color
uses_color force system = true
uses_color auto system = if system.no_color then false else system.supports_color

-- The division is of a difference that stops at 0.
unfoldable pub max_panels : Bool → Bool → ℕ → ℕ → ℕ → ℕ
max_panels show_position_panel show_char_panel terminal_width base_digits group_size =
    let offset = if show_position_panel then 10 else 1 in
    let col_width =
      if show_char_panel
      then 8 / group_size * (base_digits * group_size + 1) + 2 + 8
      else 8 / group_size * (base_digits * group_size + 1) + 2 in
    if ltb ((terminal_width - offset) / col_width) 1
    then 1
    else (terminal_width - offset) / col_width

-- The digits of `str::parse` on an unsigned type, with the sign that it takes.
abbrev unsigned_digits : ℕ → Bytes → Option ℕ
unsigned_digits limit s = elim (from_digits limit pos_overflow 10 0 s) [
  | ok n ↦ some n
  | err e ↦ none
  | panic ↦ none
  | out_of_fuel ↦ none
]

abbrev pub parse_unsigned : ℕ → Bytes → Option ℕ
parse_unsigned limit [] = none
parse_unsigned limit (c ∷ []) = unsigned_digits limit (c ∷ [])
parse_unsigned limit (c ∷ d ∷ s) =
    if c == b'+' then unsigned_digits limit (d ∷ s) else unsigned_digits limit (c ∷ d ∷ s)

abbrev base_of_number : ℕ → Outcome RunError Base
base_of_number n =
    if n == 2
    then ok binary
    else if n == 8
    then ok octal
    else if n == 10
    then ok decimal
    else if n == 16
    then ok hexadecimal
    else err invalid_base

abbrev one_of : Bytes → Bytes → Bytes → Bytes → Bool
one_of s a b c = if bytes_eq s a then true else if bytes_eq s b then true else bytes_eq s c

abbrev base_of_name : Bytes → Outcome RunError Base
base_of_name s =
    if one_of s (codes "b") (codes "bin") (codes "binary")
    then ok binary
    else if one_of s (codes "o") (codes "oct") (codes "octal")
    then ok octal
    else if one_of s (codes "d") (codes "dec") (codes "decimal")
    then ok decimal
    else if one_of s (codes "x") (codes "hex") (codes "hexadecimal")
    then ok hexadecimal
    else err invalid_base_name

unfoldable pub base_of : Bytes → Outcome RunError Base
base_of s = elim (parse_unsigned 256 s) [ none ↦ base_of_name s | some n ↦ base_of_number n ]
