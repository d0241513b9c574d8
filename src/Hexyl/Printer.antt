-- ===== src/Hexyl/Printer.antt =====
-- lib.rs: the printer, its parts of a line and the borders.
-- What is written is a list of code points, and writing succeeds.
use reverse_rewrite.Common.{
  ℕ, zero, suc, ◌+◌, ◌-◌, ◌*◌, ◌/◌, ◌%◌, Bool, Option, none, some, [], ◌∷◌, ◌++◌, ltb,
  if◌then◌else◌,
}
use reverse_rewrite.Common.Text.{Bytes}
use reverse_rewrite.Hexyl.Byte.{Palette, ColorScheme, CharacterTable, as_char}

pub data Base : Type 0 where
  binary octal decimal hexadecimal : Base

pub data IncludeMode : Type 0 where
  file : Bytes → IncludeMode
  stdin slice off : IncludeMode

pub data Endianness : Type 0 where
  little big : Endianness

pub data Squeezer : Type 0 where
  print delete ignore disabled : Squeezer

pub data BorderStyle : Type 0 where
  unicode ascii borderless : BorderStyle

pub record BorderElements : Type 0 where
  pub left_corner : ℕ
  pub horizontal_line : ℕ
  pub column_separator : ℕ
  pub right_corner : ℕ

abbrev pub header_elems : BorderStyle → Option BorderElements
header_elems unicode = some record {
  left_corner = 0x250c;
  horizontal_line = 0x2500;
  column_separator = 0x252c;
  right_corner = 0x2510;
}
header_elems ascii = some record {
  left_corner = b'+';
  horizontal_line = b'-';
  column_separator = b'+';
  right_corner = b'+';
}
header_elems borderless = none

abbrev pub footer_elems : BorderStyle → Option BorderElements
footer_elems unicode = some record {
  left_corner = 0x2514;
  horizontal_line = 0x2500;
  column_separator = 0x2534;
  right_corner = 0x2518;
}
footer_elems ascii = some record {
  left_corner = b'+';
  horizontal_line = b'-';
  column_separator = b'+';
  right_corner = b'+';
}
footer_elems borderless = none

abbrev pub outer_sep : BorderStyle → ℕ
outer_sep unicode = 0x2502
outer_sep ascii = b'|'
outer_sep borderless = b' '

abbrev pub inner_sep : BorderStyle → ℕ
inner_sep unicode = 0x250a
inner_sep ascii = b'|'
inner_sep borderless = b' '

-- The fields that the builder gathers are the arguments of `build`.
pub record Printer : Type 0 where
  pub idx : ℕ
  pub line_buf : Bytes
  pub written : Bytes
  pub show_char_panel : Bool
  pub show_position_panel : Bool
  pub show_color : Bool
  pub curr_color : Option Bytes
  pub palette : Palette
  pub color_scheme : ColorScheme
  pub border_style : BorderStyle
  pub byte_hex_panel : ℕ → Bytes
  pub byte_char_panel : ℕ → Bytes
  pub byte_hex_panel_g : ℕ → Bytes
  pub squeezer : Squeezer
  pub display_offset : ℕ
  pub panels : ℕ
  pub squeeze_byte : ℕ
  pub group_size : ℕ
  pub base_digits : ℕ
  pub endianness : Endianness
  pub include_mode : IncludeMode

pub record PrinterBuilder : Type 0 where
  pub show_color : Bool
  pub show_char_panel : Bool
  pub show_position_panel : Bool
  pub border_style : BorderStyle
  pub use_squeeze : Bool
  pub panels : ℕ
  pub group_size : ℕ
  pub base : Base
  pub endianness : Endianness
  pub character_table : CharacterTable
  pub include_mode : IncludeMode
  pub color_scheme : ColorScheme

abbrev pub repeat : ℕ → Bytes → Bytes
repeat zero s = []
repeat (suc n) s = s ++ repeat n s

abbrev digit : ℕ → ℕ
digit d = if ltb d 10 then b'0' + d else b'a' + (d - 10)

-- `format!` of a number with leading zeros, which is one digit for each place
abbrev pub zero_padded : ℕ → ℕ → ℕ → Bytes
zero_padded radix zero n = []
zero_padded radix (suc places) n = zero_padded radix places (n / radix) ++ (digit (n % radix) ∷ [])

abbrev pub formatted : Base → ℕ → Bytes
formatted binary = zero_padded 2 8
formatted octal = zero_padded 8 3
formatted decimal = zero_padded 10 3
formatted hexadecimal = zero_padded 16 2

abbrev pub digits_of : Base → ℕ
digits_of binary = 8
digits_of octal = 3
digits_of decimal = 3
digits_of hexadecimal = 2

-- `PrinterBuilder::build` where 8 bytes a panel can be allocated; Hexyl/Run.antt has the vector's bounds.
unfoldable pub build : Palette → PrinterBuilder → Printer
build palette b = record {
  idx = 0;
  line_buf = repeat (8 * b.panels) (0 ∷ []);
  written = [];
  show_char_panel = b.show_char_panel;
  show_position_panel = b.show_position_panel;
  show_color = b.show_color;
  curr_color = none;
  palette = palette;
  color_scheme = b.color_scheme;
  border_style = b.border_style;
  byte_hex_panel = formatted b.base;
  byte_char_panel = λ i. as_char b.character_table i ∷ [];
  byte_hex_panel_g = formatted hexadecimal;
  squeezer = if b.use_squeeze then ignore else disabled;
  display_offset = 0;
  panels = b.panels;
  squeeze_byte = 0;
  group_size = b.group_size;
  base_digits = digits_of b.base;
  endianness = b.endianness;
  include_mode = b.include_mode;
}

abbrev pub write : Bytes → Printer → Printer
write s p = record p { written = p.written ++ s }

-- with the group size at least 1
abbrev pub panel_sz : Printer → ℕ
panel_sz p = 1 + (p.base_digits * p.group_size + 1) * (8 / p.group_size)

unfoldable pub border : Printer → BorderElements → Bytes
border p e =
    let c = e.column_separator ∷ [] in
    let h8 = repeat 8 (e.horizontal_line ∷ []) in
    let h_repeat = repeat (panel_sz p) (e.horizontal_line ∷ []) in
    (e.left_corner ∷ (if p.show_position_panel then h8 ++ c else []))
    ++ (repeat (p.panels - 1) (h_repeat ++ c)
        ++ ((if p.show_char_panel then h_repeat ++ c else h_repeat)
            ++ ((if p.show_char_panel then repeat (p.panels - 1) (h8 ++ c) ++ h8 else [])
                ++ (e.right_corner ∷ 10 ∷ []))))

abbrev pub border_text : Option BorderElements → Printer → Bytes
border_text none p = []
border_text (some e) p = border p e

abbrev pub print_header : Printer → Printer
print_header p = write (border_text (header_elems p.border_style) p) p

abbrev pub print_footer : Printer → Printer
print_footer p = write (border_text (footer_elems p.border_style) p) p
