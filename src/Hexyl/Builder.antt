-- ===== src/Hexyl/Builder.antt =====
-- lib.rs: `PrinterBuilder::new` and the methods that set one field of a builder each.
use reverse_rewrite.Common.{ℕ, Bool, true}
use reverse_rewrite.Hexyl.Byte.{CharacterTable, ColorScheme, default, plain}
use reverse_rewrite.Hexyl.Printer.{
  Base, hexadecimal, BorderStyle, unicode, Endianness, big, IncludeMode, off, PrinterBuilder,
}

abbrev pub new_builder : PrinterBuilder
new_builder = record {
  show_color = true;
  show_char_panel = true;
  show_position_panel = true;
  border_style = unicode;
  use_squeeze = true;
  panels = 2;
  group_size = 1;
  base = hexadecimal;
  endianness = big;
  character_table = default;
  include_mode = off;
  color_scheme = plain;
}

abbrev pub show_color : Bool → PrinterBuilder → PrinterBuilder
show_color value b = record b { show_color = value }

abbrev pub show_char_panel : Bool → PrinterBuilder → PrinterBuilder
show_char_panel value b = record b { show_char_panel = value }

abbrev pub show_position_panel : Bool → PrinterBuilder → PrinterBuilder
show_position_panel value b = record b { show_position_panel = value }

abbrev pub with_border_style : BorderStyle → PrinterBuilder → PrinterBuilder
with_border_style value b = record b { border_style = value }

abbrev pub enable_squeezing : Bool → PrinterBuilder → PrinterBuilder
enable_squeezing value b = record b { use_squeeze = value }

abbrev pub num_panels : ℕ → PrinterBuilder → PrinterBuilder
num_panels value b = record b { panels = value }

abbrev pub group_size : ℕ → PrinterBuilder → PrinterBuilder
group_size value b = record b { group_size = value }

abbrev pub with_base : Base → PrinterBuilder → PrinterBuilder
with_base value b = record b { base = value }

abbrev pub endianness : Endianness → PrinterBuilder → PrinterBuilder
endianness value b = record b { endianness = value }

abbrev pub character_table : CharacterTable → PrinterBuilder → PrinterBuilder
character_table value b = record b { character_table = value }

abbrev pub include_mode : IncludeMode → PrinterBuilder → PrinterBuilder
include_mode value b = record b { include_mode = value }

abbrev pub color_scheme : ColorScheme → PrinterBuilder → PrinterBuilder
color_scheme value b = record b { color_scheme = value }
