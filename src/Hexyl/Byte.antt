-- ===== src/Hexyl/Byte.antt =====
-- lib.rs and colors.rs: what a byte is, its colour and the character that stands for it.
-- The colours of the default scheme come from a library and the environment, the gradients from
-- floating point: both are a palette, an argument. An index that is out of range is none.
pub mod Tables
use reverse_rewrite.Common.{
  ℕ, suc, ◌+◌, ◌-◌, ◌*◌, ◌/◌, ◌%◌, ◌^◌, Bool, ◌||◌, Option, some, List, [], ◌∷◌, ◌++◌, ltb, ◌==◌,
  if◌then◌else◌, get_elem?, get_or,
}
use reverse_rewrite.Common.Text.{Bytes, codes, in_range}

pub data ByteCategory : Type 0 where
  null ascii_printable ascii_whitespace ascii_other non_ascii : ByteCategory

pub data CharacterTable : Type 0 where
  default ascii cp1047 cp437 braille : CharacterTable

pub data ColorScheme : Type 0 where
  plain gradient : ColorScheme

-- The `COLOR_` statics, and the three gradients.
pub record Palette : Type 0 where
  pub color_null : Bytes
  pub color_offset : Bytes
  pub color_ascii_printable : Bytes
  pub color_ascii_whitespace : Bytes
  pub color_ascii_other : Bytes
  pub color_nonascii : Bytes
  pub color_gradient_ascii_printable : List Bytes
  pub color_gradient_ascii_nonprintable : List Bytes
  pub color_gradient_nonascii : List Bytes

abbrev pub color_reset : Bytes
color_reset = 27 ∷ codes "[39m"

abbrev is_ascii_whitespace : ℕ → Bool
is_ascii_whitespace b = b == 32 || (b == 9 || (b == 10 || (b == 12 || b == 13)))

unfoldable pub category : ℕ → ByteCategory
category b =
    if b == 0
    then null
    else if in_range 33 126 b
    then ascii_printable
    else if is_ascii_whitespace b
    then ascii_whitespace
    else if ltb b 128
    then ascii_other
    else non_ascii

abbrev pub as_dec : ℕ → Bytes
as_dec b = (b'0' + b / 100) ∷ (b'0' + b % 100 / 10) ∷ (b'0' + b % 10) ∷ []

-- The text that the buffer of 19 bytes holds once its nine digits are set.
unfoldable pub rgb_bytes : ℕ → ℕ → ℕ → Bytes
rgb_bytes r g b =
    (27 ∷ codes "[38;2;") ++ (as_dec r ++ (b';' ∷ (as_dec g ++ (b';' ∷ (as_dec b ++ codes "m")))))

abbrev plain_color : Palette → ByteCategory → Bytes
plain_color palette null = palette.color_null
plain_color palette ascii_printable = palette.color_ascii_printable
plain_color palette ascii_whitespace = palette.color_ascii_whitespace
plain_color palette ascii_other = palette.color_ascii_other
plain_color palette non_ascii = palette.color_nonascii

abbrev nonprintable_color : Palette → ℕ → Option Bytes
nonprintable_color palette b =
    if b == 0x7f
    then some (rgb_bytes 64 128 0)
    else get_elem? palette.color_gradient_ascii_nonprintable (b - 1)

abbrev gradient_color : Palette → ℕ → ByteCategory → Option Bytes
gradient_color palette b null = some (rgb_bytes 100 100 100)
gradient_color palette b ascii_printable =
    get_elem? palette.color_gradient_ascii_printable (b - b' ')
gradient_color palette b ascii_whitespace =
    if b == b' '
    then get_elem? palette.color_gradient_ascii_printable 0
    else nonprintable_color palette b
gradient_color palette b ascii_other = nonprintable_color palette b
gradient_color palette b non_ascii = get_elem? palette.color_gradient_nonascii (b - 128)

unfoldable pub color : Palette → ColorScheme → ℕ → Option Bytes
unfolding category rgb_bytes
color palette plain b = some (plain_color palette (category b))
color palette gradient b = gradient_color palette b (category b)

abbrev cp437_chars : Bytes
cp437_chars =
    codes "⋄☺☻♥♦♣♠•◘○◙♂♀♪♫☼►◄↕‼¶§▬↨↑↓→←∟↔▲▼ !\"#$%&'()*+,-./0123456789:;<=>?"
    ++ codes "@ABCDEFGHIJKLMNOPQRSTUVWXYZ[\\]^_`abcdefghijklmnopqrstuvwxyz{|}~⌂"
    ++ codes "ÇüéâäàåçêëèïîìÄÅÉæÆôöòûùÿÖÜ¢£¥₧ƒáíóúñÑªº¿⌐¬½¼¡«»░▒▓│┤╡╢╖╕╣║╗╝╜╛┐"
    ++ codes "└┴┬├─┼╞╟╚╔╩╦╠═╬╧╨╤╥╙╘╒╓╫╪┘┌█▄▌▐▀αßΓπΣσµτΦΘΩδ∞φε∩≡±≥≤⌠⌡÷≈°∙·√ⁿ²■ﬀ"

abbrev cp1047_chars : Bytes
cp1047_chars =
    codes "................................................................"
    ++ codes " .........$.<(+|&.........!$*);.-/.........,%_>?..........:#@'=."
    ++ codes ".abcdefghi.{.(+..jklmnopqr.}.)...~stuvwxyz................[]...-"
    ++ codes "{ABCDEFGHI......}JKLMNOPQR........STUVWXYZ......0123456789......"

-- `out |= (byte >> from & 1) << to`, for the bits in turn; each place is set once
unfoldable pub place_bits : ℕ → ℕ → List ℕ → ℕ
place_bits byte from [] = 0
place_bits byte from (to ∷ places) =
    byte / 2 ^ from % 2 * 2 ^ to + place_bits byte (suc from) places

unfoldable pub to_braille_bits : ℕ → ℕ
unfolding place_bits
to_braille_bits byte = place_bits byte 0 (0 ∷ 3 ∷ 1 ∷ 4 ∷ 2 ∷ 5 ∷ 6 ∷ 7 ∷ [])

abbrev default_char : ℕ → ByteCategory → ℕ
default_char b null = 0x22c4
default_char b ascii_printable = b
default_char b ascii_whitespace = if b == 0x20 then b' ' else b'_'
default_char b ascii_other = 0x2022
default_char b non_ascii = 0xd7

abbrev ascii_char : ℕ → ByteCategory → ℕ
ascii_char b null = b'.'
ascii_char b ascii_printable = b
ascii_char b ascii_whitespace = if b == 0x20 then b' ' else b'.'
ascii_char b ascii_other = b'.'
ascii_char b non_ascii = b'.'

abbrev braille_char : ℕ → ByteCategory → ℕ
braille_char b null = 0x22c4
braille_char b ascii_printable = b
braille_char b ascii_whitespace =
    if b == b' '
    then b' '
    else if b == 9
    then 0x2192
    else if b == 10
    then 0x21b5
    else if b == 13
    then 0x2190
    else 0x2800 + to_braille_bits b
braille_char b ascii_other = 0x2800 + to_braille_bits b
braille_char b non_ascii = 0x2800 + to_braille_bits b

-- The two tables have 256 characters, so that the default is never taken.
unfoldable pub as_char : CharacterTable → ℕ → ℕ
unfolding category to_braille_bits
as_char default b = default_char b (category b)
as_char ascii b = ascii_char b (category b)
as_char cp1047 b = get_or cp1047_chars b 0
as_char cp437 b = get_or cp437_chars b 0
as_char braille b = braille_char b (category b)
