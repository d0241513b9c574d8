-- ===== src/Coreutils/Tr/Operation/Reads.antt =====
-- operation.rs and simd.rs: what is written, whatever the buffers the input comes in.
use reverse_rewrite.Common.{
  ℕ, ◌≡◌, refl, sym, ap, ◌∙◌, arith, Bool, not, Option-cases, inl, inr, List, [], ◌∷◌, ◌++◌, map,
  All,
}
use reverse_rewrite.Common.Text.{Bytes}
use reverse_rewrite.Coreutils.Tr.Operation.{
  chain, keep, delete_chunk, translate_chunk, Translator, delete_operation, Read, filled,
  interrupted, failing, Ended, at_end, read_error, reading, process_input, translate_buffer,
  translate_input,
}
use reverse_rewrite.Coreutils.Tr.Operation.Chunks.{IsByte, translate_chunk_lem, delete_chunk_lem}

-- the bytes that come before the end of the input or an error
unfoldable pub received : List Read → Bytes
received [] = []
received (interrupted ∷ reads) = received reads
received (failing ∷ reads) = []
received (filled [] ∷ reads) = []
received (filled (b ∷ bs) ∷ reads) = (b ∷ bs) ++ received reads

unfoldable pub ending : List Read → Ended
ending [] = reading
ending (interrupted ∷ reads) = ending reads
ending (failing ∷ reads) = read_error
ending (filled [] ∷ reads) = at_end
ending (filled (b ∷ bs) ∷ reads) = ending reads

All-append : (xs ys : Bytes) → All IsByte (xs ++ ys) → All IsByte xs × All IsByte ys
All-append [] ys h = (_, h)
All-append (x ∷ xs) ys (h, hs) = let (p, q) = All-append xs ys hs in ((h, p), q)

map-append : (f : ℕ → ℕ) (xs ys : Bytes) → map f (xs ++ ys) ≡ map f xs ++ map f ys
map-append f [] ys = refl
map-append f (x ∷ xs) ys = ap (λ t. f x ∷ t) (map-append f xs ys)

keep-append : (p : ℕ → Bool) (xs ys : Bytes) → keep p (xs ++ ys) ≡ keep p xs ++ keep p ys
keep-append p [] ys = refl
keep-append p (x ∷ xs) ys = ground (arith, keep-append p xs ys)

module _ (chunk whole : Bytes → Bytes) (nothing : whole [] ≡ [])
    (joined : (xs ys : Bytes) → whole (xs ++ ys) ≡ whole xs ++ whole ys)
    (same : (xs : Bytes) → All IsByte xs → chunk xs ≡ whole xs) where
  process_input_lem :
      (reads : List Read)
      → All IsByte (received reads)
      → process_input chunk reads ≡ (whole (received reads), ending reads)
  unfolding process_input received ending
  process_input_lem [] h = ap (λ t. (t, reading)) (sym nothing)
  process_input_lem (interrupted ∷ reads) h = process_input_lem reads h
  process_input_lem (failing ∷ reads) h = ap (λ t. (t, read_error)) (sym nothing)
  process_input_lem (filled [] ∷ reads) h = ap (λ t. (t, at_end)) (sym nothing)
  process_input_lem (filled (b ∷ bs) ∷ reads) h =
      let (p, q) = All-append (b ∷ bs) (received reads) h in
      let rest = process_input_lem reads q in
      let first = same (b ∷ bs) p in ground (arith, rest, first, joined (b ∷ bs) (received reads))

-- For reads that give numbers below 256, translating buffers whole, with the fast path for a single
-- byte, writes the image under the table of every byte that comes before the end or an error, and
-- ends as the reads do.
pub process_input-translate_chunk :
    (table : ℕ → ℕ) (reads : List Read)
    → All IsByte (received reads)
    → process_input (translate_chunk table) reads ≡ (map table (received reads), ending reads)
process_input-translate_chunk table =
    process_input_lem (translate_chunk table) (map table) refl (map-append table)
      (translate_chunk_lem table)

module _ (t : Translator) where
  translate_buffer-append :
      (s : t.State) (xs ys : Bytes)
      → translate_buffer t s (xs ++ ys) ≡ (
          let (output, s') = translate_buffer t s xs in
          let (more, s'') = translate_buffer t s' ys in (output ++ more, s''))
  unfolding translate_buffer
  translate_buffer-append s [] ys = refl
  translate_buffer-append s (x ∷ xs) ys =
      ground (arith, translate_buffer-append (t.translate s x).1 xs ys)

  -- The output depends on the bytes received, not on how the reads cut them.
  pub translate_input_lem :
      (s : t.State) (reads : List Read)
      → translate_input t s reads ≡ ((translate_buffer t s (received reads)).0, ending reads)
  unfolding translate_input received ending
  translate_input_lem s [] = refl
  translate_input_lem s (interrupted ∷ reads) = translate_input_lem s reads
  translate_input_lem s (failing ∷ reads) = refl
  translate_input_lem s (filled [] ∷ reads) = refl
  translate_input_lem s (filled (b ∷ bs) ∷ reads) = ground (
    arith,
    translate_input_lem (translate_buffer t s (b ∷ bs)).1 reads,
    translate_buffer-append s (b ∷ bs) (received reads),
  )

module _ (table : ℕ → Bool) where
  pub deleting :
      (s : Unit) (input : Bytes)
      → (translate_buffer (delete_operation table) s input).0 ≡ keep (λ b. not (table b)) input
  unfolding translate_buffer
  deleting s [] = refl
  deleting s (b ∷ bs) = ground (arith, deleting s bs)

-- Deleting from buffers whole, with the fast path for a single byte, writes and ends the same as the
-- deletion of one byte at a time, for reads that give numbers below 256.
pub process_input-delete_chunk :
    (table : ℕ → Bool) (s : Unit) (reads : List Read)
    → All IsByte (received reads)
    → process_input (delete_chunk table) reads ≡ translate_input (delete_operation table) s reads
process_input-delete_chunk table s reads h =
    process_input_lem (delete_chunk table) (keep (λ b. not (table b))) refl
      (keep-append (λ b. not (table b))) (delete_chunk_lem table) reads h
    ∙ (ap (λ t. (t, ending reads)) (sym (deleting table s (received reads)))
        ∙ sym (translate_input_lem (delete_operation table) s reads))

-- A chain of two translators gives what the second makes of all that the first gives, and leaves
-- each in the state that it then has.
pub translate_buffer-chain :
    (a b : Translator) (s : a.State) (t : b.State) (input : Bytes)
    → translate_buffer (chain a b) (s, t) input ≡ (
        let (passed, s') = translate_buffer a s input in
        let (output, t') = translate_buffer b t passed in (output, (s', t')))
unfolding translate_buffer
translate_buffer-chain a b s t [] = refl
translate_buffer-chain a b s t (c ∷ cs) = elim (Option-cases (a.translate s c).0) [
  | inl e ↦ ground (arith, e, translate_buffer-chain a b (a.translate s c).1 t cs)
  | inr (d, e) ↦
      ground (arith, e, translate_buffer-chain a b (a.translate s c).1 (b.translate t d).1 cs)
]
