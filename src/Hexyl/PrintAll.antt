-- ===== src/Hexyl/PrintAll.antt =====
-- lib.rs: `print_all` as a whole: the C include style, the loop, and the end of the output.
-- Whether a character is alphanumeric follows the tables of Unicode: an argument.
pub mod Reads
pub mod Width
pub mod Lines
use mathlib.Core.List.{map}
use reverse_rewrite.Common.{
  ℕ, suc, ◌+◌, ◌-◌, ◌*◌, ◌%◌, Bool, true, false, not, ◌||◌, Option, none, some, List, [], ◌∷◌, ◌++◌,
  ◌==◌, if◌then◌else◌, length,
}
use reverse_rewrite.Common.Text.{Bytes, codes, decimal}
use reverse_rewrite.Common.Outcome.{Outcome, ok, err, out_of_fuel, ◌>>=◌}
use reverse_rewrite.Hexyl.Printer.{
  IncludeMode, Printer, print, ignore, file, stdin, slice, off, write, print_header, print_footer,
  panel_sz, repeat, formatted, hexadecimal,
}
use reverse_rewrite.Hexyl.Line.{
  print_position_panel, print_bytes, print_char_panel, print_from, print_chars,
}
use reverse_rewrite.Hexyl.Dump.{Arrival, arrived, failed, print_loop}

pub data IoError : Type 0 where
  read_failed : IoError

-- The state of the loop: what is written, the bytes read, whether a byte has been printed, and the
-- counter of bytes.
pub record Include : Type 0 where
  pub text : Bytes
  pub total_bytes : ℕ
  pub is_first_chunk : Bool
  pub line_counter : ℕ

abbrev pub hex_byte : ℕ → Bytes
hex_byte b = codes "0x" ++ formatted hexadecimal b

abbrev comma_line : Include → Bytes
comma_line s =
    if not s.is_first_chunk || not (s.line_counter == 0) then codes "," ++ (10 ∷ []) else []

unfoldable pub include_byte : ℕ → Include → Include
include_byte b s =
    if s.line_counter % 12 == 0
    then record s {
      text = s.text ++ (comma_line s ++ (codes "  " ++ hex_byte b));
      is_first_chunk = false;
      line_counter = suc s.line_counter;
    }
    else record s { text = s.text ++ (codes ", " ++ hex_byte b); line_counter = suc s.line_counter }

unfoldable pub include_bytes : Bytes → Include → Include
include_bytes [] s = s
include_bytes (b ∷ bs) s = include_bytes bs (include_byte b s)

-- A read gives what has arrived, up to the 1024 bytes of the buffer, and the next read the rest.
unfoldable pub include_loop : List Arrival → Include → Outcome IoError Include
unfolding include_bytes include_byte
include_loop [] s = ok s
include_loop (failed ∷ es) s = err read_failed
include_loop (arrived bs ∷ es) s =
    include_loop es (include_bytes bs (record s { total_bytes = s.total_bytes + length bs }))

abbrev pub include_start : Include
include_start = record { text = []; total_bytes = 0; is_first_chunk = true; line_counter = 0 }

-- the bytes in the style of C, a new line behind them, and their number
unfoldable pub print_bytes_in_include_style : List Arrival → Outcome IoError (Bytes × ℕ)
unfolding include_loop
print_bytes_in_include_style es =
    include_loop es include_start >>= (λ s. ok (s.text ++ (10 ∷ []), s.total_bytes))

abbrev spaces : ℕ → Bytes
spaces n = repeat n (codes " ")

-- `{:w}` and `{:>w}`
abbrev pad_right : ℕ → Bytes → Bytes
pad_right w s = s ++ spaces (w - length s)

abbrev pad_left : ℕ → Bytes → Bytes
pad_left w s = spaces (w - length s) ++ s

abbrev bar : Bytes
bar = 0x2502 ∷ []

unfoldable pub no_content : Printer → Bytes
no_content p =
    (if p.show_position_panel then pad_right 9 bar else [])
    ++ (pad_right 2 bar
        ++ (pad_right (panel_sz p - 1) (codes "No content")
            ++ (bar
                ++ (pad_left (panel_sz p + 1) bar
                    ++ ((if p.show_char_panel then pad_left 9 bar ++ pad_left 9 bar else [])
                        ++ (10 ∷ []))))))

-- the panels of characters of an incomplete line of n bytes
abbrev pub last_chars : ℕ → Printer → Printer
last_chars n p =
    print_chars (8 * p.panels - n) n
      (record (print_char_panel (record p { squeezer = ignore })) { squeezer = print })

unfoldable pub print_last_line : ℕ → Printer → Printer
print_last_line n p =
    let begun = print_bytes (print_position_panel (record p { squeezer = ignore })) in
    let line =
      print_from n (repeat (8 * p.panels - n) (0 ∷ [])) (record begun { squeezer = print }) in
    write (10 ∷ []) (if p.show_char_panel then last_chars n line else line)

abbrev pub special_ending : Bool → Option ℕ → Printer → Printer
special_ending true leftover p =
    let q : Printer = record p { base_digits = 2 } in write (no_content q) (print_header q)
special_ending false none p = p
special_ending false (some n) p = print_last_line n p

abbrev pub finished : Option (Bool × (Option ℕ × Printer)) → Outcome IoError Printer
finished none = out_of_fuel
finished (some (is_empty, (leftover, p))) = ok (print_footer (special_ending is_empty leftover p))

abbrev pub var_name : (ℕ → Bool) → Bytes → Bytes
var_name is_alphanumeric filename = map (λ c. if is_alphanumeric c then c else b'_') filename

abbrev in_array : Bytes → Bytes → ℕ → Bytes
in_array name text total =
    codes "unsigned char "
    ++ (name
        ++ (codes "[] = {"
            ++ (10
                ∷ (text
                    ++ (codes "};"
                        ++ (10
                            ∷ (codes "unsigned int "
                                ++ (name
                                    ++ (codes "_len = "
                                        ++ (decimal total ++ (codes ";" ++ (10 ∷ []))))))))))))

abbrev pub print_mode :
    IncludeMode → (ℕ → Bool) → ℕ → Printer → List Arrival → Outcome IoError Printer
print_mode (file filename) is_alphanumeric k p es =
    print_bytes_in_include_style es
    >>= (λ (text, total). ok (write (in_array (var_name is_alphanumeric filename) text total) p))
print_mode stdin is_alphanumeric k p es =
    print_bytes_in_include_style es >>= (λ (text, total). ok (write text p))
print_mode slice is_alphanumeric k p es =
    print_bytes_in_include_style es >>= (λ (text, total). ok (write text p))
print_mode off is_alphanumeric k p es = finished (print_loop k true p es)

unfoldable pub print_all : (ℕ → Bool) → ℕ → Printer → List Arrival → Outcome IoError Printer
print_all is_alphanumeric k p es = print_mode p.include_mode is_alphanumeric k p es
