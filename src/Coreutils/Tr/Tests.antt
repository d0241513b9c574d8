-- ===== src/Coreutils/Tr/Tests.antt =====
-- tr: each theorem at a concrete input.
use reverse_rewrite.Common.{
  ℕ, ◌<◌, ◌==◌, if◌then◌else◌, ◌≡◌, refl, arith, true, false, some, List, [], ◌∷◌, ◌++◌, map, All,
}
use reverse_rewrite.Common.Text.{Bytes, codes}
use reverse_rewrite.Common.Outcome.{ok, ◌>>=◌}
use reverse_rewrite.Coreutils.Tr.Sequence.{Sequence, char, char_range, char_star, from_str}
use reverse_rewrite.Coreutils.Tr.Sequence.Escapes.{escape_all, from_str-escape_all}
use reverse_rewrite.Coreutils.Tr.Sets.{contains, flatten_all, solve, solve_set_characters}
use reverse_rewrite.Coreutils.Tr.Sets.Solved.{Settles, solve_set_characters-Settles}
use reverse_rewrite.Coreutils.Tr.Sets.Stars.{filling, solve_star}
use reverse_rewrite.Coreutils.Tr.Operation.{
  Read, filled, interrupted, at_end, delete_chunk, translate_chunk, delete_operation,
  new_translation, process_input, translate_input,
}
use reverse_rewrite.Coreutils.Tr.Operation.Reads.{
  received, ending, process_input-delete_chunk, process_input-translate_chunk,
}
use reverse_rewrite.Coreutils.Tr.Operation.Tables.{Translates, new_translation_lem}
use reverse_rewrite.Coreutils.Tr.Main.{Flags, uumain}
use reverse_rewrite.Coreutils.Tr.Main.Refinement.{uumain_meaning, uumain-uumain_meaning}

abbrev squeezing : Flags
squeezing = record {
  delete_flag = false;
  complement_flag = false;
  squeeze_flag = true;
  truncate_set1_flag = false;
}

abbrev sets : List Bytes
sets = codes "a-c" ∷ codes "[x*]" ∷ []

abbrev three_reads : List Read
three_reads = filled (codes "ab") ∷ interrupted ∷ filled (codes "cda") ∷ filled [] ∷ []

abbrev vowels : Bytes
vowels = codes "ae"

received-three_reads : received three_reads ≡ codes "abcda"
unfolding received
received-three_reads = refl

under_256 : All (λ b. b < 256) (received three_reads)
unfolding received
under_256 = (omega arith, (omega arith, (omega arith, (omega arith, (omega arith, _)))))

run_squeezing : uumain squeezing sets false three_reads ≡ ok (codes "xdx", at_end)
unfolding uumain
run_squeezing = refl

uumain-uumain_meaning_example :
    uumain squeezing sets false three_reads
    ≡ (uumain_meaning squeezing sets >>= λ f. ok (f (received three_reads), ending three_reads))
uumain-uumain_meaning_example = uumain-uumain_meaning squeezing sets three_reads under_256

process_input-delete_chunk_example :
    process_input (delete_chunk (contains vowels)) three_reads
    ≡ translate_input (delete_operation (contains vowels)) (record {}) three_reads
process_input-delete_chunk_example =
    process_input-delete_chunk (contains vowels) (record {}) three_reads under_256

abbrev upper_a : ℕ → ℕ
upper_a b = if b == 97 then 65 else b

process_input-translate_chunk_example :
    process_input (translate_chunk upper_a) three_reads
    ≡ (map upper_a (received three_reads), ending three_reads)
process_input-translate_chunk_example = process_input-translate_chunk upper_a three_reads under_256

new_translation_lem_example :
    (table : ℕ → ℕ) × (new_translation (codes "abc") (codes "xy") ≡ ok table)
    × Translates (codes "abc") (codes "xy") 121 table
new_translation_lem_example = new_translation_lem (codes "abc") (codes "xy") 121 refl

solve_set_characters-Settles_example :
    Settles (solve_set_characters (codes "a-z") (codes "[0*]") true false true)
solve_set_characters-Settles_example =
    solve_set_characters-Settles (codes "a-z") (codes "[0*]") true false true

abbrev letters : List Sequence
letters = char_range 97 100 ∷ []

solved_letters : solve false true true letters (char 120 ∷ []) ≡ ok (codes "a", codes "x")
unfolding solve
solved_letters = refl

starred_letters :
    solve false false true letters (char 120 ∷ char_star 121 ∷ char 122 ∷ [])
    ≡ ok (codes "abcd", codes "xyyz")
unfolding solve
starred_letters = refl

flat_letters : flatten_all letters ≡ some (codes "abcd")
unfolding flatten_all
flat_letters = refl

flat_x : flatten_all (char 120 ∷ []) ≡ some (codes "x")
unfolding flatten_all
flat_x = refl

flat_z : flatten_all (char 122 ∷ []) ≡ some (codes "z")
unfolding flatten_all
flat_z = refl

solve_star_example : codes "xyyz" ≡ codes "x" ++ (filling 121 2 ++ codes "z")
solve_star_example =
    solve_star false false true letters (char 120 ∷ []) (char 122 ∷ []) 121 (codes "abcd")
      (codes "x") (codes "z") (codes "abcd") (codes "xyyz") flat_letters flat_x flat_z
      starred_letters

from_str-escape_all_example : from_str (escape_all (200 ∷ 45 ∷ [])) ≡ ok (char 200 ∷ char 45 ∷ [])
from_str-escape_all_example = from_str-escape_all (200 ∷ 45 ∷ []) (omega arith, (omega arith, _))
