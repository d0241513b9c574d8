-- ===== src/Hexyl/Line.antt =====
-- lib.rs: the parts of a line that the printer writes.
pub mod Width
pub mod Panels
pub mod Groups
use reverse_rewrite.Common.{
  ℕ, zero, suc, ◌+◌, ◌-◌, ◌*◌, ◌/◌, ◌%◌, ◌^◌, Bool, true, false, not, ◌&&◌, Option, none, some, [],
  ◌∷◌, ◌++◌, ◌==◌, if◌then◌else◌, length, take, drop, get_elem?,
}
use mathlib.Core.List.{reverse}
use reverse_rewrite.Common.Text.{Bytes, bytes_eq, codes}
use reverse_rewrite.Hexyl.Byte.{color, color_reset}
use reverse_rewrite.Hexyl.Printer.{
  Printer, Squeezer, print, delete, ignore, disabled, Endianness, little, big, outer_sep, inner_sep,
  repeat, write,
}

abbrev pub be_bytes : ℕ → ℕ → Bytes
be_bytes zero n = []
be_bytes (suc k) n = be_bytes k (n / 256) ++ (n % 256 ∷ [])

abbrev pub skip_zeros : ℕ → Bytes → Bytes
skip_zeros zero bs = bs
skip_zeros (suc k) [] = []
skip_zeros (suc k) (b ∷ bs) = if b == 0 then skip_zeros k bs else b ∷ bs

abbrev pub concat_map : (ℕ → Bytes) → Bytes → Bytes
concat_map f [] = []
concat_map f (b ∷ bs) = f b ++ concat_map f bs

-- The sum is of 64 bits.
unfoldable pub position : Printer → Bytes
position p =
    concat_map p.byte_hex_panel_g (skip_zeros 4 (be_bytes 8 ((p.idx + p.display_offset) % 2 ^ 64)))

abbrev pub is_print : Squeezer → Bool
is_print print = true
is_print delete = false
is_print ignore = false
is_print disabled = false

abbrev pub is_delete : Squeezer → Bool
is_delete print = false
is_delete delete = true
is_delete ignore = false
is_delete disabled = false

abbrev pub position_text : Printer → Bytes
position_text p =
    let reset = if p.show_color then color_reset else [] in
    if is_print p.squeezer then (b'*' ∷ reset) ++ codes "       " else position p ++ reset

unfoldable pub print_position_panel : Printer → Printer
print_position_panel p =
    let sep = outer_sep p.border_style ∷ [] in
    let offset = if p.show_color then p.palette.color_offset else [] in
    write (sep ++ (offset ++ (if p.show_position_panel then position_text p ++ sep else []))) p

abbrev is_current : Option Bytes → Bytes → Bool
is_current none c = false
is_current (some d) c = bytes_eq d c

-- The colour of a byte, which is never none.
abbrev pub color_of : Printer → ℕ → Bytes
color_of p b = elim (color p.palette p.color_scheme b) [ none ↦ [] | some c ↦ c ]

abbrev pub needs_color : ℕ → Printer → Bool
needs_color b p = p.show_color && not (is_current p.curr_color (color_of p b))

abbrev pub with_color : Bytes → Bytes → Printer → Printer
with_color c s p = record p { written = p.written ++ (c ++ s); curr_color = some c }

unfoldable pub write_colored : ℕ → Bytes → Printer → Printer
write_colored b s p = if needs_color b p then with_color (color_of p b) s p else write s p

-- the reset of the colour at the end of a panel
abbrev pub end_color : Printer → Printer
end_color p =
    if p.show_color then record p { written = p.written ++ color_reset; curr_color = none } else p

abbrev pub char_or_end : ℕ → Option ℕ → Printer → Printer
char_or_end i none p = record p { squeezer = print }
char_or_end i (some b) p = write_colored b (p.byte_char_panel b) p

abbrev pub char_part : ℕ → Squeezer → Printer → Printer
char_part i print p = write (codes " ") p
char_part i delete p = write (codes " ") p
char_part i ignore p = char_or_end i (get_elem? p.line_buf i) p
char_part i disabled p = char_or_end i (get_elem? p.line_buf i) p

abbrev pub char_end : ℕ → Printer → Printer
char_end i p =
    if i == 8 * p.panels - 1
    then write (outer_sep p.border_style ∷ []) (end_color p)
    else if i % 8 == 7
    then write (inner_sep p.border_style ∷ []) (end_color p)
    else p

unfoldable pub print_char : ℕ → Printer → Printer
print_char i p = char_end i (char_part i p.squeezer p)

-- `for i in from..from + n`
unfoldable pub print_chars : ℕ → ℕ → Printer → Printer
print_chars zero from p = p
print_chars (suc n) from p = print_chars n (suc from) (print_char from p)

abbrev pub print_char_panel : Printer → Printer
print_char_panel p = print_chars (length p.line_buf) 0 p

abbrev pub star : Printer → Bytes
star p =
    if p.show_color
    then p.palette.color_offset ++ (p.byte_char_panel b'*' ++ color_reset)
    else p.byte_char_panel b'*'

abbrev pub group_space : ℕ → Printer → Bytes
group_space i p = if i % p.group_size == 0 then codes " " else []

abbrev pub byte_part : ℕ → ℕ → Squeezer → Printer → Printer
byte_part i b print p =
    write
      ((if not p.show_position_panel && i == 0 then star p else group_space i p)
        ++ repeat p.base_digits (codes " "))
      p
byte_part i b delete p = write (codes "   ") p
byte_part i b ignore p = write_colored b (p.byte_hex_panel b) (write (group_space i p) p)
byte_part i b disabled p = write_colored b (p.byte_hex_panel b) (write (group_space i p) p)

abbrev pub panel_end : ℕ → Printer → Bytes
panel_end i p =
    b' '
    ∷ (if i % (8 * p.panels) == 8 * p.panels - 1
        then outer_sep p.border_style
        else inner_sep p.border_style)
    ∷ []

abbrev pub byte_end : ℕ → Printer → Printer
byte_end i p = if i % 8 == 7 then write (panel_end i p) (end_color p) else p

unfoldable pub print_byte : ℕ → ℕ → Printer → Printer
print_byte i b p = byte_end i (byte_part i b p.squeezer p)

unfoldable pub print_from : ℕ → Bytes → Printer → Printer
print_from i [] p = p
print_from i (b ∷ bs) p = print_from (suc i) bs (print_byte i b p)

-- One round of the fuel is for one group: as many as there are bytes are enough.
unfoldable pub reorder_groups : ℕ → ℕ → Bytes → Bytes
reorder_groups zero group_size buf = buf
reorder_groups (suc k) group_size buf =
    reverse (take group_size buf) ++ reorder_groups k group_size (drop group_size buf)

unfoldable pub reorder_buffer_to_little_endian : Printer → Bytes → Bytes
unfolding reorder_groups
reorder_buffer_to_little_endian p buf = reorder_groups (length buf) p.group_size buf

abbrev pub in_order : Endianness → Printer → Bytes → Bytes
in_order little p buf = reorder_buffer_to_little_endian p buf
in_order big p buf = buf

unfoldable pub print_bytes : Printer → Printer
print_bytes p = print_from 0 (in_order p.endianness p p.line_buf) p
