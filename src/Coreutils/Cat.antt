-- ===== src/Coreutils/Cat.antt =====
-- cat.rs: the writing of lines with numbers, marks and visible characters.
-- What is written is the list of bytes, and writing succeeds; a failed assertion is none.
pub mod Lines
mod Tests
use reverse_rewrite.Common.{
  ℕ, zero, suc, ◌+◌, ◌-◌, ◌≤◌, ◌≡◌, Bool, true, false, not, ◌&&◌, ◌||◌, Option, none, some, List,
  [], ◌∷◌, ◌++◌, ltb, leb, ◌==◌, if◌then◌else◌, length, take, drop, get_elem?,
}
use reverse_rewrite.Common.Text.{Bytes, codes}
use reverse_rewrite.Common.Outcome.{◌>>?◌}
use reverse_rewrite.Coreutils.Tr.Operation.{
  Read, filled, interrupted, failing, Ended, at_end, read_error, reading,
}

pub data NumberingMode : Type 0 where
  unnumbered non_empty all : NumberingMode

pub record OutputOptions : Type 0 where
  pub number : NumberingMode
  pub squeeze_blank : Bool
  pub show_tabs : Bool
  pub show_ends : Bool
  pub show_nonprint : Bool

pub record LineNumber : Type 0 where
  pub buf : Bytes
  pub print_start : ℕ
  pub num_start : ℕ
  pub num_end : ℕ

pub record OutputState : Type 0 where
  pub line_number : LineNumber
  pub at_line_start : Bool
  pub skipped_carriage_return : Bool
  pub one_blank_kept : Bool

abbrev is_unnumbered : NumberingMode → Bool
is_unnumbered unnumbered = true
is_unnumbered non_empty = false
is_unnumbered all = false

abbrev is_all : NumberingMode → Bool
is_all all = true
is_all unnumbered = false
is_all non_empty = false

abbrev pub tab : OutputOptions → Bytes
tab options = if options.show_tabs then codes "^I" else 9 ∷ []

abbrev pub end_of_line : OutputOptions → Bytes
end_of_line options = if options.show_ends then b'$' ∷ 10 ∷ [] else 10 ∷ []

unfoldable pub can_write_fast : OutputOptions → Bool
can_write_fast options = not (
    options.show_tabs
    || (options.show_nonprint
        || (options.show_ends || (options.squeeze_blank || not (is_unnumbered options.number)))))

abbrev zeros : ℕ → Bytes
zeros zero = []
zeros (suc n) = b'0' ∷ zeros n

-- `LineNumber::new`, a buffer of 32 bytes
unfoldable pub new_line_number : LineNumber
new_line_number = record {
  buf = zeros 24 ++ (codes "     1" ++ (9 ∷ []));
  print_start = 25;
  num_start = 30;
  num_end = 31;
}

abbrev pub to_str : LineNumber → Bytes
to_str n = drop n.print_start n.buf

-- the bytes before the first that passes a test, and the rest
abbrev pub break_at : (ℕ → Bool) → Bytes → Bytes × Bytes
break_at p [] = ([], [])
break_at p (b ∷ bs) =
    let (before, rest) = break_at p bs in if p b then ([], b ∷ bs) else (b ∷ before, rest)

abbrev pub is_line_end : ℕ → Bool
is_line_end b = b == 10 || b == 13

abbrev pub stops_tabs : ℕ → Bool
stops_tabs b = b == 10 || (b == 9 || b == 13)

-- The three writers below give what they write and how many bytes they took.
unfoldable pub write_to_end : Bytes → Bytes × ℕ
write_to_end in_buf = let (before, rest) = break_at is_line_end in_buf in (before, length before)

-- what follows the bytes before a tab or the end of the line, of so many in the buffer
abbrev pub tab_round : (ℕ → Bytes → Bytes × ℕ) → ℕ → ℕ → Bytes → Bytes → Bytes × ℕ
tab_round later count total before [] = (before, total + count)
tab_round later count total before (b ∷ bs) =
    let (output, n) = later (count + (length before + 1)) bs in
    if b == 9 then (before ++ (codes "^I" ++ output), n) else (before, count + length before)

-- a round for each tab, after the bytes that were counted before
unfoldable pub write_tab_from : ℕ → ℕ → Bytes → Bytes × ℕ
write_tab_from zero count in_buf = ([], count)
write_tab_from (suc f) count in_buf =
    let (before, rest) = break_at stops_tabs in_buf in
    tab_round (λ n bs. write_tab_from f n bs) count (length in_buf) before rest

unfoldable pub write_tab_to_end : Bytes → Bytes × ℕ
unfolding write_tab_from
write_tab_to_end in_buf = write_tab_from (suc (length in_buf)) 0 in_buf

-- a byte in the notation with ^ and M-
unfoldable pub shown_byte : Bytes → ℕ → Bytes
shown_byte tab b =
    if b == 9
    then tab
    else if leb b 31
    then b'^' ∷ (b + 64) ∷ []
    else if leb b 126
    then b ∷ []
    else if b == 127
    then codes "^?"
    else if leb b 159
    then b'M' ∷ b'-' ∷ b'^' ∷ (b - 64) ∷ []
    else if leb b 254
    then b'M' ∷ b'-' ∷ (b - 128) ∷ []
    else codes "M-^?"

unfoldable pub write_nonprint_to_end : Bytes → Bytes → Bytes × ℕ
unfolding shown_byte
write_nonprint_to_end [] tab = ([], 0)
write_nonprint_to_end (b ∷ bs) tab =
    let (output, n) = write_nonprint_to_end bs tab in
    if b == 10 then ([], 0) else (shown_byte tab b ++ output, suc n)

unfoldable pub write_end : Bytes → OutputOptions → Bytes × ℕ
unfolding write_nonprint_to_end write_tab_to_end write_to_end
write_end in_buf options =
    if options.show_nonprint
    then write_nonprint_to_end in_buf (tab options)
    else if options.show_tabs
    then write_tab_to_end in_buf
    else write_to_end in_buf

-- The digits of a buffer between two indices are counted up by one, and start where they start then.
module _ (fast_inc_one : Bytes → ℕ → ℕ → Bytes × ℕ) where
  unfoldable pub increment : LineNumber → LineNumber
  increment n =
      let (buf', start) = fast_inc_one n.buf n.num_start n.num_end in
      record n {
        buf = buf';
        num_start = start;
        print_start = if leb n.print_start start then n.print_start else start;
      }

  abbrev pub numbered : Bool → OutputState → Bytes × OutputState
  numbered b state =
      if b
      then (to_str state.line_number, record state { line_number = increment state.line_number })
      else ([], state)

  unfoldable pub write_new_line : OutputOptions → OutputState → Bytes × OutputState
  unfolding increment
  write_new_line options state =
      if state.skipped_carriage_return
      then (
        (if options.show_ends then codes "^M" else 13 ∷ []) ++ end_of_line options,
        record state { skipped_carriage_return = false },
      )
      else if not state.at_line_start || (not options.squeeze_blank || not state.one_blank_kept)
      then (let (label, after) =
            numbered (state.at_line_start && is_all options.number)
              (record state { one_blank_kept = true }) in
          (label ++ end_of_line options, after))
      else ([], state)

  -- what comes before the text of a line that is not empty
  abbrev pub begin_line : OutputOptions → OutputState → Bytes × OutputState
  begin_line options state =
      let at_start = state.at_line_start && not state.skipped_carriage_return in
      let (label, after) = numbered (at_start && not (is_unnumbered options.number)) (record state {
        skipped_carriage_return = false;
        at_line_start = at_start;
        one_blank_kept = false;
      }) in
      ((if state.skipped_carriage_return then 13 ∷ [] else []) ++ label, after)

  -- the end of the text that was written: of the buffer, or of a line
  abbrev pub end_text : OutputOptions → OutputState → Bytes → Option (Bytes × OutputState)
  end_text options state [] = some ([], record state { at_line_start = false })
  end_text options state (b ∷ bs) =
      if b == 13
      then some ([], record state { skipped_carriage_return = true })
      else if b == 10
      then some (end_of_line options, record state { at_line_start = true })
      else none

  -- the loop over a buffer, with a round for each byte at most
  unfoldable pub write_buffer :
      ℕ → OutputOptions → OutputState → Bytes → Option (Bytes × OutputState)
  unfolding write_new_line write_end
  write_buffer zero options state rest = some ([], state)
  write_buffer (suc f) options state [] = some ([], state)
  write_buffer (suc f) options state (b ∷ bs) =
      let (blank, ended) = write_new_line options state in
      let later_line = write_buffer f options (record ended { at_line_start = true }) bs in
      let (start, begun) = begin_line options state in
      let (text, offset) = write_end (b ∷ bs) options in
      let left = drop offset (b ∷ bs) in
      if b == 10
      then (later_line >>? λ (output, s). some (blank ++ output, s))
      else (end_text options begun left >>? λ (mark, after).
          write_buffer f options after (drop 1 left) >>? λ (output, s).
          some (start ++ (text ++ (mark ++ output)), s))

  -- the loop over the reads; the output of a buffer is flushed before the next read
  unfoldable pub write_lines :
      OutputOptions → OutputState → List Read → Option (Bytes × (OutputState × Ended))
  unfolding write_buffer
  write_lines options state [] = some ([], (state, reading))
  write_lines options state (interrupted ∷ reads) = write_lines options state reads
  write_lines options state (failing ∷ reads) = some ([], (state, read_error))
  write_lines options state (filled [] ∷ reads) = some ([], (state, at_end))
  write_lines options state (filled (b ∷ bs) ∷ reads) =
      write_buffer (length (b ∷ bs)) options state (b ∷ bs) >>? λ (output, after).
      write_lines options after reads >>? λ (more, ended). some (output ++ more, ended)
