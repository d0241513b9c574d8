-- ===== src/Coreutils/Tr/Operation.antt =====
-- operation.rs and simd.rs: the operations on bytes, a buffer at a time.
-- A table of 256 elements is a function; a buffer is what one read gives.
pub mod Chunks
pub mod Reads
pub mod Tables
pub mod Squeezing
use reverse_rewrite.Common.{
  ℕ, zero, suc, ◌+◌, ◌≡◌, Bool, true, false, not, Option, none, some, List, [], ◌∷◌, ◌++◌, map, ltb,
  ◌==◌, if◌then◌else◌, length,
}
use reverse_rewrite.Common.Text.{Bytes}
use reverse_rewrite.Common.Outcome.{Outcome, ok, err}
use reverse_rewrite.Coreutils.Tr.Sequence.{BadSequence, empty_set2_when_not_truncating_set1}

abbrev pub put : {A : Type 0} → (ℕ → A) → ℕ → A → ℕ → A
put table i v j = if i == j then v else table j

abbrev pub set_all : (ℕ → Bool) → Bytes → ℕ → Bool
set_all bitmap [] = bitmap
set_all bitmap (b ∷ set) = set_all (put bitmap b true) set

unfoldable pub set_to_bitmap : Bytes → ℕ → Bool
set_to_bitmap set = set_all (λ _. false) set

abbrev pub keep : (ℕ → Bool) → Bytes → Bytes
keep p [] = []
keep p (b ∷ bs) = let rest = keep p bs in if p b then b ∷ rest else rest

-- the indices from i on, n of them, that pass a test
abbrev pub passing : (ℕ → Bool) → ℕ → ℕ → Bytes
passing check i zero = []
passing check i (suc n) = let rest = passing check (suc i) n in if check i then i ∷ rest else rest

abbrev pub only : Bytes → Option ℕ
only [] = none
only (i ∷ []) = some i
only (i ∷ j ∷ rest) = none

-- The index that passes, when it is the only one of the table.
unfoldable pub find_single_change : (ℕ → Bool) → Option ℕ
find_single_change check = only (passing check 0 256)

-- `bytecount::count`
abbrev pub count : Bytes → ℕ → ℕ
count [] c = 0
count (b ∷ bs) c = let rest = count bs c in if b == c then suc rest else rest

abbrev pub resized : ℕ → ℕ → Bytes
resized zero c = []
resized (suc n) c = c ∷ resized n c

-- The three functions below give the bytes that are put behind the output.
unfoldable pub process_single_char_replace : Bytes → ℕ → ℕ → Bytes
process_single_char_replace input source target =
    if count input source == 0
    then input
    else if count input source == length input
    then resized (length input) target
    else map (λ b. if b == source then target else b) input

unfoldable pub process_single_delete : Bytes → ℕ → Bytes
process_single_delete input c =
    if count input c == 0
    then input
    else if ltb (count input c) (length input)
    then keep (λ b. not (b == c)) input
    else []

unfoldable pub delete_by : Option ℕ → (ℕ → Bool) → Bytes → Bytes
unfolding process_single_delete
delete_by (some c) table input = process_single_delete input c
delete_by none table input = keep (λ b. not (table b)) input

-- `DeleteOperation` is its table.
unfoldable pub delete_chunk : (ℕ → Bool) → Bytes → Bytes
unfolding find_single_change delete_by
delete_chunk table input = delete_by (find_single_change table) table input

unfoldable pub translate_by : Option ℕ → (ℕ → ℕ) → Bytes → Bytes
unfolding process_single_char_replace
translate_by (some source) table input = process_single_char_replace input source (table source)
translate_by none table input = map table input

abbrev pub is_changed : (ℕ → ℕ) → ℕ → Bool
is_changed table i = not (table i == i)

-- `TranslateOperation` is its table.
unfoldable pub translate_chunk : (ℕ → ℕ) → Bytes → Bytes
unfolding find_single_change translate_by
translate_chunk table input = translate_by (find_single_change (is_changed table)) table input

-- set 2 followed by its last byte for ever
abbrev pub assign : (ℕ → ℕ) → Bytes → Bytes → ℕ → ℕ → ℕ
assign table [] set2 fallback = table
assign table (from ∷ set1) [] fallback = assign (put table from fallback) set1 [] fallback
assign table (from ∷ set1) (to ∷ set2) fallback = assign (put table from to) set1 set2 fallback

abbrev pub last : Bytes → Option ℕ
last [] = none
last (b ∷ []) = some b
last (b ∷ c ∷ bs) = last (c ∷ bs)

-- `TranslateOperation::new`
unfoldable pub new_translation : Bytes → Bytes → Outcome BadSequence (ℕ → ℕ)
new_translation set1 set2 = elim (last set2) [
  | some fallback ↦ ok (assign (λ i. i) set1 set2 fallback)
  | none ↦ elim set1 [ [] ↦ ok (λ i. i) | _ ∷ _ ↦ err empty_set2_when_not_truncating_set1 ]
]

-- `SymbolTranslator`
pub record Translator : Type 1 where
  pub State : Type 0
  pub translate : State → ℕ → Option ℕ × State

abbrev pub delete_operation : (ℕ → Bool) → Translator
delete_operation table = record {
  State = Unit;
  translate = λ s b. (if table b then none else some b, s);
}

abbrev pub translate_operation : (ℕ → ℕ) → Translator
translate_operation table = record { State = Unit; translate = λ s b. (some (table b), s) }

abbrev pub is_previous : Option ℕ → ℕ → Bool
is_previous none b = false
is_previous (some v) b = v == b

-- The state is the previous byte.
abbrev pub squeeze_operation : (ℕ → Bool) → Translator
squeeze_operation table = record {
  State = Option ℕ;
  translate = λ previous b.
      (if table b then (if is_previous previous b then none else some b) else some b, some b);
}

abbrev pub then_translate : (b : Translator) → Option ℕ → b.State → Option ℕ × b.State
then_translate b none s = (none, s)
then_translate b (some c) s = b.translate s c

abbrev pub chain : Translator → Translator → Translator
chain a b = record {
  State = a.State × b.State;
  translate = λ (s, t) c.
      let (o, s') = a.translate s c in let (o', t') = then_translate b o t in (o', (s', t'));
}

-- What `Read::read` gives: bytes, none of them at the end of the input.
pub data Read : Type 0 where
  filled : Bytes → Read
  interrupted failing : Read

-- How the loop over the reads ended; `reading` is a loop that waits for more.
pub data Ended : Type 0 where
  at_end read_error reading : Ended

-- `process_input`, with what it wrote.
unfoldable pub process_input : (Bytes → Bytes) → List Read → Bytes × Ended
process_input process_chunk [] = ([], reading)
process_input process_chunk (interrupted ∷ reads) = process_input process_chunk reads
process_input process_chunk (failing ∷ reads) = ([], read_error)
process_input process_chunk (filled [] ∷ reads) = ([], at_end)
process_input process_chunk (filled (b ∷ bs) ∷ reads) =
    let (output, ended) = process_input process_chunk reads in
    (process_chunk (b ∷ bs) ++ output, ended)

module _ (t : Translator) where
  -- the inner loop, over a buffer
  unfoldable pub translate_buffer : t.State → Bytes → Bytes × t.State
  translate_buffer s [] = ([], s)
  translate_buffer s (b ∷ bs) =
      let (o, s') = t.translate s b in
      let (output, s'') = translate_buffer s' bs in
      elim o [ none ↦ (output, s'') | some c ↦ (c ∷ output, s'') ]

  unfoldable pub translate_input : t.State → List Read → Bytes × Ended
  unfolding translate_buffer
  translate_input s [] = ([], reading)
  translate_input s (interrupted ∷ reads) = translate_input s reads
  translate_input s (failing ∷ reads) = ([], read_error)
  translate_input s (filled [] ∷ reads) = ([], at_end)
  translate_input s (filled (b ∷ bs) ∷ reads) =
      let (written, s') = translate_buffer s (b ∷ bs) in
      let (output, ended) = translate_input s' reads in (written ++ output, ended)
