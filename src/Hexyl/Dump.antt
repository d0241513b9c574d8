-- ===== src/Hexyl/Dump.antt =====
-- lib.rs: `print_all`, the loop over the reads of the input, and the C include style.
-- What the reader will give is a list: the bytes that arrive together, or a failing read. Then the
-- input is at its end. A read takes what fits the buffer from the first bytes that have arrived,
-- as the documentation of `Read` allows; an entry without bytes is passed over.
pub mod Keeps
pub mod Fill
pub mod Reads
pub mod Squeezing
pub mod Hidden
use reverse_rewrite.Common.{
  ℕ, zero, suc, ◌+◌, ◌-◌, ◌*◌, Bool, true, false, ◌&&◌, ◌||◌, Option, none, some, List, [], ◌∷◌,
  ◌++◌, leb, ltb, ◌==◌, if◌then◌else◌, length, take, drop,
}
use reverse_rewrite.Common.Text.{Bytes}
use reverse_rewrite.Hexyl.Printer.{
  Printer, Squeezer, print, delete, ignore, disabled, write, border_text, header_elems,
}
use reverse_rewrite.Hexyl.Line.{
  print_position_panel, print_bytes, print_char_panel, is_print, is_delete,
}

pub data Arrival : Type 0 where
  arrived : Bytes → Arrival
  failed : Arrival

-- `usize::from_ne_bytes` on the machines with the lowest byte first
abbrev pub le_value : Bytes → ℕ
le_value [] = 0
le_value (b ∷ bs) = b + 256 * le_value bs

-- `chunks_exact(8).all(...)`, with a unit of fuel for a chunk
abbrev pub all_chunks : ℕ → ℕ → Bytes → Bool
all_chunks zero v bs = true
all_chunks (suc k) v bs =
    if ltb (length bs) 8 then true else (le_value (take 8 bs) == v && all_chunks k v (drop 8 bs))

abbrev pub is_repeated : ℕ → Bytes → Bool
is_repeated v bs = all_chunks (length bs) v bs

abbrev pub first : Bytes → ℕ
first [] = 0
first (b ∷ bs) = b

-- `usize::MAX / 255`
abbrev pub ones : ℕ
ones = 0x0101010101010101

abbrev pub print_chars_if : Printer → Printer
print_chars_if p = if p.show_char_panel then print_char_panel p else p

unfoldable pub print_line : Printer → Printer
print_line p = write (10 ∷ []) (print_chars_if (print_bytes (print_position_panel p)))

-- the squeezer after a line that is printed
abbrev pub after_line : Squeezer → Squeezer
after_line print = delete
after_line delete = delete
after_line ignore = ignore
after_line disabled = disabled

abbrev pub squeezes : Squeezer → Bool
squeezes print = true
squeezes ignore = true
squeezes delete = false
squeezes disabled = false

unfoldable pub note_repeat : Printer → Printer
note_repeat p =
    let repeat_byte = first p.line_buf * ones in
    if squeezes p.squeezer && is_repeated repeat_byte p.line_buf
    then record p { squeezer = print; squeeze_byte = repeat_byte }
    else p

unfoldable pub finish_line : Printer → Printer
unfolding note_repeat
finish_line p =
    note_repeat (record p { idx = p.idx + 8 * p.panels; squeezer = after_line p.squeezer })

-- Whether the line is passed over, and the printer with the squeezer that it is printed with.
abbrev pub checked_line : Bool → Squeezer → Printer → Bool × Printer
checked_line true delete p = (true, record p { idx = p.idx + 8 * p.panels })
checked_line true _ p = (false, p)
checked_line false _ p = (false, record p { squeezer = ignore })

unfoldable pub check_squeeze : Printer → Bool × Printer
check_squeeze p =
    if is_print p.squeezer || is_delete p.squeezer
    then checked_line (is_repeated p.squeeze_byte p.line_buf) p.squeezer p
    else (false, p)

-- what the loop does with the line buffer
unfoldable pub take_line : Printer → Printer
unfolding check_squeeze print_line finish_line
take_line p =
    let (skipped, q) = check_squeeze p in if skipped then q else finish_line (print_line q)

-- The loop that fills the rest of the line buffer: the number of bytes if the input ends before it
-- is full, the printer, and what has yet to arrive.
unfoldable pub fill : ℕ → Printer → List Arrival → Option ℕ × (Printer × List Arrival)
fill leftover p [] = (some leftover, (record p { line_buf = take leftover p.line_buf }, []))
fill leftover p (failed ∷ es) = fill leftover p es
fill leftover p (arrived bs ∷ es) =
    let space = length p.line_buf - leftover in
    let q : Printer = record p {
      line_buf =
          take leftover p.line_buf
          ++ (take space bs ++ drop (leftover + length (take space bs)) p.line_buf);
    } in
    let more = fill (leftover + length bs) q es in
    if leb (8 * p.panels) (leftover + length bs)
    then (none, (q, arrived (drop space bs) ∷ es))
    else more

-- the header in front of the first line
abbrev pub header_if : Bool → Printer → Printer
header_if is_empty p =
    write (if is_empty then border_text (header_elems p.border_style) p else []) p

-- A round of the loop: it stops, with the bytes of an incomplete line, or goes on.
pub data Round : Type 0 where
  stops : Bool → Option ℕ → Printer → Round
  goes_on : Printer → List Arrival → Round

abbrev pub filled : Option ℕ × (Printer × List Arrival) → Round
filled (some leftover, (p, es)) = stops false (some leftover) p
filled (none, (p, es)) = goes_on (take_line p) es

abbrev pub at_end : Bool → Printer → Round
at_end is_empty p =
    if is_delete p.squeezer
    then stops is_empty (some 0) (record p { line_buf = [] })
    else stops is_empty none p

unfoldable pub read_line : Bool → Printer → List Arrival → Round
read_line is_empty p [] = at_end is_empty p
read_line is_empty p (failed ∷ es) = goes_on (take_line (header_if is_empty p)) es
read_line is_empty p (arrived [] ∷ es) = read_line is_empty p es
read_line is_empty p (arrived (b ∷ bs) ∷ es) =
    let space = length p.line_buf in
    if ltb (length (b ∷ bs)) (8 * p.panels)
    then filled (fill 0 (header_if is_empty p) (arrived (b ∷ bs) ∷ es))
    else goes_on (take_line (header_if is_empty (record p { line_buf = take space (b ∷ bs) })))
        (arrived (drop space (b ∷ bs)) ∷ es)

-- A round of fuel is for one line; none is a run that was given too little.
unfoldable pub print_loop : ℕ → Bool → Printer → List Arrival → Option (Bool × (Option ℕ × Printer))
print_loop zero is_empty p es = none
print_loop (suc k) is_empty p es = elim (read_line is_empty p es) [
  | stops still_empty leftover q ↦ some (still_empty, (leftover, q))
  | goes_on q later ↦ print_loop k false q later
]
