-- ===== src/Coreutils/Tr/Main/Refinement.antt =====
-- tr.rs and operation.rs: the program against what its options mean.
use reverse_rewrite.Common.{
  ℕ, ◌≡◌, refl, ap, ◌∙◌, Bool, true, false, not, ◌&&◌, none, List, [], ◌∷◌, map, All, if◌then◌else◌,
}
use reverse_rewrite.Common.Text.{Bytes}
use reverse_rewrite.Common.Outcome.{Outcome, ok, err, panic, out_of_fuel, map_err, ◌>>=◌}
use reverse_rewrite.Coreutils.Tr.Sets.{contains, solve_set_characters}
use reverse_rewrite.Coreutils.Tr.Operation.{
  set_to_bitmap, keep, new_translation, delete_operation, translate_operation, squeeze_operation,
  chain, Translator, Read, translate_buffer, translate_input,
}
use reverse_rewrite.Coreutils.Tr.Operation.Chunks.{IsByte}
use reverse_rewrite.Coreutils.Tr.Operation.Reads.{
  received, ending, process_input-translate_chunk, process_input-delete_chunk, translate_input_lem,
  translate_buffer-chain, deleting,
}
use reverse_rewrite.Coreutils.Tr.Operation.Tables.{set_to_bitmap_lem}
use reverse_rewrite.Coreutils.Tr.Operation.Squeezing.{without_repeats, squeeze-without_repeats}
use reverse_rewrite.Coreutils.Tr.Main.{
  Flags, TrError, bad_sequence, check_operands, is_given, or_empty, run_operation, uumain,
}

-- what the options make of the whole input, for the solved sets
unfoldable pub meaning : Flags → Bool → Bytes × Bytes → Outcome TrError (Bytes → Bytes)
meaning flags two_sets (set1, set2) =
    if flags.delete_flag
    then ok (λ input.
      let kept = keep (λ b. not (contains set1 b)) input in
      if flags.squeeze_flag then without_repeats (contains set2) kept else kept)
    else if flags.squeeze_flag && not two_sets
    then ok (without_repeats (contains set1))
    else map_err bad_sequence (new_translation set1 set2) >>= λ table. ok (λ input.
      if flags.squeeze_flag
      then without_repeats (contains set2) (map table input)
      else map table input)

bitmap_ext : (set : Bytes) → set_to_bitmap set ≡ contains set
bitmap_ext set = λ i b. set_to_bitmap_lem set b i

translating :
    (table : ℕ → ℕ) (s : Unit) (input : Bytes)
    → (translate_buffer (translate_operation table) s input).0 ≡ map table input
unfolding translate_buffer
translating table s [] = refl
translating table s (b ∷ bs) = ap (λ t. table b ∷ t) (translating table s bs)

-- a squeezing stage behind another translator
squeezed :
    (a : Translator) (s : a.State) (set input passed : Bytes)
    → (translate_buffer a s input).0 ≡ passed
    → (translate_buffer (chain a (squeeze_operation (set_to_bitmap set))) (s, none) input).0
      ≡ without_repeats (contains set) passed
squeezed a s set input passed h =
    ap (λ r. r.0) (translate_buffer-chain a (squeeze_operation (set_to_bitmap set)) s none input)
    ∙ (ap (λ p. (translate_buffer (squeeze_operation (set_to_bitmap set)) none p).0) h
        ∙ (squeeze-without_repeats (set_to_bitmap set) passed
            ∙ ap (λ t. without_repeats t passed) (bitmap_ext set)))

streamed :
    (t : Translator) (s : t.State) (reads : List Read) (output : Bytes)
    → (translate_buffer t s (received reads)).0 ≡ output
    → translate_input t s reads ≡ (output, ending reads)
streamed t s reads output h = translate_input_lem t s reads ∙ ap (λ o. (o, ending reads)) h

kept_lem :
    (set : Bytes) (s : Unit) (reads : List Read)
    → (translate_buffer (delete_operation (set_to_bitmap set)) s (received reads)).0
      ≡ keep (λ b. not (contains set b)) (received reads)
kept_lem set s reads =
    deleting (set_to_bitmap set) s (received reads)
    ∙ ap (λ t. keep (λ b. not (t b)) (received reads)) (bitmap_ext set)

bind_agree :
    {E A B C : Type 0} (r : Outcome E A) (g : A → B) (m : A → C) (k : C → B)
    → ((a : A) → g a ≡ k (m a))
    → (r >>= λ a. ok (g a)) ≡ ((r >>= λ a. ok (m a)) >>= λ c. ok (k c))
bind_agree (ok a) g m k h = ap ok (h a)
bind_agree (err e) g m k h = refl
bind_agree panic g m k h = refl
bind_agree out_of_fuel g m k h = refl

-- by the three options that matter
module _ (c t : Bool) (set1 set2 : Bytes) (reads : List Read)
    (h : All IsByte (received reads)) where
  by_cases :
      (d q two_sets : Bool)
      → (let flags : Flags = record {
        delete_flag = d;
        complement_flag = c;
        squeeze_flag = q;
        truncate_set1_flag = t;
      } in
          run_operation flags two_sets (set1, set2) reads
          ≡ (meaning flags two_sets (set1, set2) >>= λ f. ok (f (received reads), ending reads)))
  unfolding run_operation meaning
  by_cases true true two_sets = ap ok (
      streamed
        (chain (delete_operation (set_to_bitmap set1)) (squeeze_operation (set_to_bitmap set2)))
        (_, none) reads _
        (squeezed (delete_operation (set_to_bitmap set1)) _ set2 (received reads) _
          (kept_lem set1 _ reads)))
  by_cases true false two_sets = ap ok (
      process_input-delete_chunk (set_to_bitmap set1) _ reads h
      ∙ streamed (delete_operation (set_to_bitmap set1)) _ reads _ (kept_lem set1 _ reads))
  by_cases false true false = ap ok (
      streamed (squeeze_operation (set_to_bitmap set1)) none reads _ (
        squeeze-without_repeats (set_to_bitmap set1) (received reads)
        ∙ ap (λ t. without_repeats t (received reads)) (bitmap_ext set1)))
  by_cases false true true =
      bind_agree (map_err bad_sequence (new_translation set1 set2)) _ _ _ (λ table.
        streamed (chain (translate_operation table) (squeeze_operation (set_to_bitmap set2)))
          (_, none) reads _
          (squeezed (translate_operation table) _ set2 (received reads) _
            (translating table _ (received reads))))
  by_cases false false two_sets =
      bind_agree (map_err bad_sequence (new_translation set1 set2)) _ _ _
        (λ table. process_input-translate_chunk table reads h)

pub run_operation-meaning :
    (flags : Flags) (two_sets : Bool) (set1 set2 : Bytes) (reads : List Read)
    → All IsByte (received reads)
    → run_operation flags two_sets (set1, set2) reads
      ≡ (meaning flags two_sets (set1, set2) >>= λ f. ok (f (received reads), ending reads))
run_operation-meaning flags two_sets set1 set2 reads h =
    by_cases flags.complement_flag flags.truncate_set1_flag set1 set2 reads h flags.delete_flag
      flags.squeeze_flag two_sets

-- the function of the whole input that a command line stands for
unfoldable pub uumain_meaning : Flags → List Bytes → Outcome TrError (Bytes → Bytes)
uumain_meaning flags sets =
    check_operands flags.delete_flag flags.squeeze_flag sets >>= λ (set1, set2).
    let translating = not flags.delete_flag && is_given set2 in
    map_err bad_sequence (
      solve_set_characters set1 (or_empty set2) flags.complement_flag
        (flags.truncate_set1_flag && translating) translating)
    >>= λ solved. meaning flags (is_given set2) solved

bind_assoc :
    {E A B C : Type 0} (m : Outcome E A) (f : A → Outcome E B) (g : B → Outcome E C)
    (h : A → Outcome E C)
    → ((a : A) → h a ≡ (f a >>= g))
    → (m >>= h) ≡ ((m >>= f) >>= g)
bind_assoc (ok a) f g h e = e a
bind_assoc (err x) f g h e = refl
bind_assoc panic f g h e = refl
bind_assoc out_of_fuel f g h e = refl

-- For reads that give numbers below 256, and a standard input that is not a directory, the program
-- fails with the error of its command line, or writes what the command line stands for of all the
-- bytes that come before the end or an error, however the reads cut them.
pub uumain-uumain_meaning :
    (flags : Flags) (sets : List Bytes) (reads : List Read)
    → All IsByte (received reads)
    → uumain flags sets false reads
      ≡ (uumain_meaning flags sets >>= λ f. ok (f (received reads), ending reads))
unfolding uumain uumain_meaning
uumain-uumain_meaning flags sets reads h =
    bind_assoc (check_operands flags.delete_flag flags.squeeze_flag sets) _ _ _ λ (set1, set2).
      bind_assoc
        (map_err bad_sequence (
          solve_set_characters set1 (or_empty set2) flags.complement_flag
            (flags.truncate_set1_flag && (not flags.delete_flag && is_given set2))
            (not flags.delete_flag && is_given set2)))
        _ _ _ λ (xs, ys). run_operation-meaning flags (is_given set2) xs ys reads h
