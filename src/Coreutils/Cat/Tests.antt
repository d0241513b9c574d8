-- ===== src/Coreutils/Cat/Tests.antt =====
-- cat: each theorem at a concrete input, and a run.
use reverse_rewrite.Common.{ℕ, ◌≡◌, true, false, some, [], ◌∷◌, ◌++◌, List}
use reverse_rewrite.Common.Text.{Bytes, codes}
use reverse_rewrite.Coreutils.Tr.Operation.{Read, Ended, filled}
use reverse_rewrite.Coreutils.Cat.{OutputOptions, OutputState, all, new_line_number, write_lines}
use reverse_rewrite.Coreutils.Cat.Lines.{write_lines-some}

abbrev numbering : OutputOptions
numbering = record {
  number = all;
  squeeze_blank = true;
  show_tabs = true;
  show_ends = true;
  show_nonprint = false;
}

abbrev at_start : OutputState
at_start = record {
  line_number = new_line_number;
  at_line_start = true;
  skipped_carriage_return = false;
  one_blank_kept = false;
}

-- a counter that stands still
abbrev uncounted : Bytes → ℕ → ℕ → Bytes × ℕ
uncounted buf start end_of_digits = (buf, start)

abbrev two_lines : List Read
two_lines = filled (codes "a" ++ (9 ∷ 13 ∷ [])) ∷ filled (10 ∷ 10 ∷ 10 ∷ codes "b") ∷ filled [] ∷ []

write_lines-some_example :
    (r : Bytes × (OutputState × Ended)) × (write_lines uncounted numbering at_start two_lines
      ≡ some r)
write_lines-some_example = write_lines-some uncounted numbering at_start two_lines
