-- ===== src/Coreutils/Tr/Main.antt =====
-- tr.rs: `uumain`, from the parsed command line on.
pub mod Refinement
use reverse_rewrite.Common.{
  ℕ, zero, suc, ◌+◌, ◌-◌, ◌%◌, ◌≡◌, Bool, true, false, not, ◌&&◌, ◌||◌, Option, none, some, List,
  [], ◌∷◌, ltb, ◌==◌, if◌then◌else◌,
}
use reverse_rewrite.Common.Text.{Bytes}
use reverse_rewrite.Common.Outcome.{Outcome, ok, err, map_err, ◌>>=◌}
use reverse_rewrite.Coreutils.Tr.Sequence.{BadSequence}
use reverse_rewrite.Coreutils.Tr.Sets.{solve_set_characters}
use reverse_rewrite.Coreutils.Tr.Operation.{
  set_to_bitmap, delete_chunk, translate_chunk, new_translation, delete_operation,
  translate_operation, squeeze_operation, chain, Read, Ended, process_input, translate_input,
}

pub record Flags : Type 0 where
  pub delete_flag : Bool
  pub complement_flag : Bool
  pub squeeze_flag : Bool
  pub truncate_set1_flag : Bool

pub data TrError : Type 0 where
  missing_operand read_directory : TrError
  missing_operand_translating missing_operand_deleting_squeezing : Bytes → TrError
  extra_operand_deleting_without_squeezing extra_operand_simple : Bytes → TrError
  bad_sequence : BadSequence → TrError

-- the checks of the operands; the sets that remain when they pass
unfoldable pub check_operands : Bool → Bool → List Bytes → Outcome TrError (Bytes × Option Bytes)
check_operands delete_flag squeeze_flag [] = err missing_operand
check_operands delete_flag squeeze_flag (set1 ∷ []) =
    if not (delete_flag || squeeze_flag)
    then err (missing_operand_translating set1)
    else if delete_flag && squeeze_flag
    then err (missing_operand_deleting_squeezing set1)
    else ok (set1, none)
check_operands delete_flag squeeze_flag (set1 ∷ set2 ∷ []) =
    if delete_flag && not squeeze_flag
    then err (extra_operand_deleting_without_squeezing set2)
    else ok (set1, some set2)
check_operands delete_flag squeeze_flag (set1 ∷ set2 ∷ set3 ∷ sets) =
    if delete_flag && not squeeze_flag
    then err (extra_operand_simple set2)
    else err (extra_operand_simple set3)

-- how many backslashes a set ends in, after n that have just been read
abbrev backslashes_from : ℕ → Bytes → ℕ
backslashes_from n [] = n
backslashes_from n (b ∷ bs) = backslashes_from (if b == 92 then suc n else 0) bs

-- when the warning about an unescaped backslash at the end of the first set is shown
unfoldable pub warns_of_backslash : Bytes → Bool
warns_of_backslash set1 = backslashes_from 0 set1 % 2 == 1

abbrev pub is_given : Option Bytes → Bool
is_given none = false
is_given (some set2) = true

abbrev pub or_empty : Option Bytes → Bytes
or_empty none = []
or_empty (some set2) = set2

-- What is written, and how the reading of standard input ended, for the solved sets.
unfoldable pub run_operation :
    Flags → Bool → Bytes × Bytes → List Read → Outcome TrError (Bytes × Ended)
unfolding set_to_bitmap delete_chunk translate_chunk new_translation process_input translate_input
run_operation flags two_sets (set1, set2) stdin =
    if flags.delete_flag
    then (if flags.squeeze_flag
        then ok (
            translate_input
              (chain (delete_operation (set_to_bitmap set1))
                (squeeze_operation (set_to_bitmap set2)))
              (_, none) stdin)
        else ok (process_input (delete_chunk (set_to_bitmap set1)) stdin))
    else if flags.squeeze_flag
    then (if not two_sets
        then ok (translate_input (squeeze_operation (set_to_bitmap set1)) none stdin)
        else (map_err bad_sequence (new_translation set1 set2) >>= λ table. ok (
            translate_input
              (chain (translate_operation table) (squeeze_operation (set_to_bitmap set2))) (_, none)
              stdin)))
    else (map_err bad_sequence (new_translation set1 set2) >>= λ table.
        ok (process_input (translate_chunk table) stdin))

unfoldable pub uumain : Flags → List Bytes → Bool → List Read → Outcome TrError (Bytes × Ended)
unfolding check_operands solve_set_characters run_operation
uumain flags sets is_stdin_directory stdin =
    check_operands flags.delete_flag flags.squeeze_flag sets >>= λ (set1, set2).
    let translating = not flags.delete_flag && is_given set2 in
    map_err bad_sequence (
      solve_set_characters set1 (or_empty set2) flags.complement_flag
        (flags.truncate_set1_flag && translating) translating)
    >>= λ solved.
        if is_stdin_directory
        then err read_directory
        else run_operation flags (is_given set2) solved stdin
