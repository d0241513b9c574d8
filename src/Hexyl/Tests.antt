-- ===== src/Hexyl/Tests.antt =====
-- The theorems about hexyl at concrete inputs.
use reverse_rewrite.Common.{
  ℕ, zero, suc, ◌+◌, ◌*◌, ◌≤◌, ◌<◌, ◌≡◌, ◌≢◌, refl, Bool, true, false, none, some, List, [], ◌∷◌,
  ◌++◌, arith, length,
}
use mathlib.Core.List.{map}
use reverse_rewrite.Common.Text.{Bytes, codes, decimal}
use reverse_rewrite.Common.Outcome.{out_of_fuel, Gives}
use reverse_rewrite.Common.Int.{pos}
use reverse_rewrite.Hexyl.Byte.{Palette, default, braille, plain, gradient, color, as_char}
use reverse_rewrite.Hexyl.Byte.Tables.{color-ne-none, from_braille-as_char, from_braille}
use reverse_rewrite.Hexyl.Offset.{backward_from_end, kibibyte, parse_byte_offset, unit_of}
use reverse_rewrite.Hexyl.Offset.RoundTrip.{
  parse_byte_offset-decimal, bounded, sign_of, bytes_per, LowersAscii, to_ascii_lowercase,
}
use reverse_rewrite.Hexyl.Printer.{
  Printer, PrinterBuilder, build, border, BorderElements, unicode, big, off, hexadecimal, print,
}
use reverse_rewrite.Hexyl.Line.{
  print_position_panel, position, print_bytes, print_from, print_byte, write_colored, print_chars,
  print_char,
}
use reverse_rewrite.Hexyl.Line.Width.{IsPlain, Adds}
use reverse_rewrite.Hexyl.Dump.{
  Arrival, arrived, print_loop, print_line, take_line, check_squeeze, ones,
}
use reverse_rewrite.Hexyl.Dump.Reads.{print_loop-dump_loop, dump_loop}
use reverse_rewrite.Hexyl.Dump.Squeezing.{Squeezes}
use reverse_rewrite.Hexyl.Dump.Hidden.{take_line-Squeezes}
use reverse_rewrite.Hexyl.PrintAll.{print_all, print_last_line}
use reverse_rewrite.Hexyl.PrintAll.Reads.{print_all-gathered, print_all-ne-out_of_fuel}
use reverse_rewrite.Hexyl.PrintAll.Width.{line_columns}
use reverse_rewrite.Hexyl.PrintAll.Lines.{print_line-Adds, print_last_line-Adds, with_squeezer}
use reverse_rewrite.Hexyl.Main.{max_panels, Opt, System, one, never}
use reverse_rewrite.Hexyl.Run.{run, panels_of, fitting_panels, builder_of}
use reverse_rewrite.Hexyl.Run.Panels.{length-border-fits, build-IsPlain}
use reverse_rewrite.Hexyl.Run.Safe.{run-Gives}

abbrev copies : ℕ → List Bytes
copies zero = []
copies (suc n) = codes "c" ∷ copies n

abbrev palette : Palette
palette = record {
  color_null = codes "c";
  color_offset = codes "c";
  color_ascii_printable = codes "c";
  color_ascii_whitespace = codes "c";
  color_ascii_other = codes "c";
  color_nonascii = codes "c";
  color_gradient_ascii_printable = copies 95;
  color_gradient_ascii_nonprintable = copies 31;
  color_gradient_nonascii = copies 128;
}

abbrev builder : PrinterBuilder
builder = record {
  show_color = false;
  show_char_panel = true;
  show_position_panel = true;
  border_style = unicode;
  use_squeeze = true;
  panels = 1;
  group_size = 1;
  base = hexadecimal;
  endianness = big;
  character_table = default;
  include_mode = off;
  color_scheme = plain;
}

abbrev printer : Printer
printer = build palette builder

abbrev in_parts : List Arrival
in_parts = arrived (codes "abc") ∷ arrived (codes "defghij") ∷ []

abbrev at_once : List Arrival
at_once = arrived (codes "abcdefghij") ∷ []

abbrev is_ascii : ℕ → Bool
is_ascii c = true

-- A line is printed with its position, its bytes and its characters.
line_test :
    (print_line (record printer { line_buf = codes "abcdefgh" })).written
    ≡ codes "│00000000│ 61 62 63 64 65 66 67 68 │abcdefgh│" ++ (10 ∷ [])
unfolding build print_line print_position_panel position print_bytes print_from print_byte
    write_colored print_chars print_char as_char
line_test = refl

color-ne-none_example : color palette gradient 9 ≢ none
color-ne-none_example = color-ne-none palette gradient 9 refl refl refl (omega arith)

from_braille-as_char_example : from_braille (as_char braille 200) ≡ 200
from_braille-as_char_example = from_braille-as_char 200 (omega arith)

print_all-gathered_example :
    print_all is_ascii 20 (build palette builder) in_parts
    ≡ print_all is_ascii 20 (build palette builder) at_once
print_all-gathered_example =
    print_all-gathered is_ascii 20 palette builder in_parts at_once (omega arith) tt tt refl

print_all-ne-out_of_fuel_example :
    print_all is_ascii 20 (build palette builder) in_parts ≢ out_of_fuel
print_all-ne-out_of_fuel_example =
    print_all-ne-out_of_fuel is_ascii 20 palette builder in_parts (omega arith) tt (omega arith)

print_loop-dump_loop_example :
    print_loop 20 true printer in_parts ≡ dump_loop 20 true printer (codes "abcdefghij")
unfolding build
print_loop-dump_loop_example = print_loop-dump_loop 20 true printer in_parts tt refl (omega arith)

abbrev opt : Opt
opt = record {
  file = none;
  length = none;
  skip = some (codes "-2KiB");
  block_size = codes "512";
  no_squeezing = false;
  color = never;
  border = unicode;
  plain = false;
  no_characters = false;
  character_table = default;
  color_scheme = plain;
  no_position = false;
  display_offset = codes "0x10";
  panels = none;
  group_size = one;
  endianness = big;
  little_endian_format = false;
  base = codes "16";
  terminal_width = none;
  include_mode = false;
}

abbrev system : System
system = record {
  no_color = false;
  supports_color = false;
  terminal_columns = some 79;
  to_lowercase = map to_ascii_lowercase;
  file_name = λ path. none;
  seek_to = λ where_to. some 0;
}

run-Gives_example : Gives (λ printed. Unit) (run is_ascii palette 20 in_parts system opt)
unfolding panels_of
run-Gives_example =
    run-Gives is_ascii palette 20 in_parts system opt tt (omega arith) (λ base. omega arith)

abbrev elements : BorderElements
elements = record {
  left_corner = b'+';
  horizontal_line = b'-';
  column_separator = b'+';
  right_corner = b'+';
}

length-border-fits_example :
    length (
      border
        (build palette (builder_of system opt hexadecimal (fitting_panels opt hexadecimal 79)))
        elements)
    ≤ suc (79 + fitting_panels opt hexadecimal 79)
length-border-fits_example =
    length-border-fits system opt hexadecimal 79 palette elements refl (omega arith)

-- At 79 columns, a line of 80 and the end of the line.
too_wide :
    length (
      border
        (build palette (builder_of system opt hexadecimal (fitting_panels opt hexadecimal 79)))
        elements)
    ≡ 81
unfolding border build max_panels
too_wide = refl

lowers : LowersAscii (map to_ascii_lowercase)
lowers s h = refl

parse_byte_offset-decimal_example :
    parse_byte_offset
      (map to_ascii_lowercase)
      (pos 512)
      (sign_of backward_from_end ++ (decimal 2 ++ codes "KiB"))
    ≡ bounded backward_from_end (2 * bytes_per 512 kibibyte)
unfolding unit_of
parse_byte_offset-decimal_example =
    parse_byte_offset-decimal (map to_ascii_lowercase) lowers 511 2 backward_from_end (codes "KiB")
      kibibyte (omega arith) (omega arith, (omega arith, (omega arith, tt))) refl

abbrev equal_line : Bytes
equal_line = codes "aaaaaaaa"

abbrev squeezing : Printer
squeezing = record printer { line_buf = equal_line; squeezer = print; squeeze_byte = 97 * ones }

take_line-Squeezes_example :
    Squeezes (take_line squeezing).squeezer equal_line (take_line squeezing).squeeze_byte
    × ((check_squeeze squeezing).0 ≡ true
        → (equal_line ≡ equal_line) × ((take_line squeezing).written ≡ squeezing.written))
unfolding build
take_line-Squeezes_example =
    let below : 97 < 256 = omega arith in
    take_line-Squeezes squeezing equal_line
      (below, (below, (below, (below, (below, (below, (below, (below, tt)))))))) refl refl
      (97, below, (refl, (refl, (refl, (refl, (refl, (refl, (refl, (refl, tt)))))))), refl)

IsPlain-printer : IsPlain (build palette builder)
IsPlain-printer = build-IsPlain palette builder one refl (omega arith) refl

print_line-Adds_example : Adds (suc (line_columns printer)) printer (print_line printer)
unfolding build
print_line-Adds_example = print_line-Adds printer IsPlain-printer (λ e. cc) refl (omega arith)

abbrev begun : Printer
begun = record printer { line_buf = codes "abc" }

IsPlain-begun : IsPlain begun
IsPlain-begun = record {
  colorless = IsPlain-printer.colorless;
  some_panels = IsPlain-printer.some_panels;
  groups = IsPlain-printer.groups;
  hex_width = IsPlain-printer.hex_width;
  offset_width = IsPlain-printer.offset_width;
  char_width = IsPlain-printer.char_width;
}

print_last_line-Adds_example :
    Adds (suc (line_columns begun)) (with_squeezer print begun) (print_last_line 3 begun)
unfolding build
print_last_line-Adds_example =
    print_last_line-Adds 3 begun IsPlain-begun refl (omega arith) (omega arith)
