-- ===== src/Coreutils/Tr/Operation/Chunks.antt =====
-- operation.rs and simd.rs: a buffer taken as a whole against its bytes one at a time.
use reverse_rewrite.Common.{
  ℕ, zero, suc, ◌+◌, ◌≤◌, ◌<◌, ◌≡◌, refl, ◌∙◌, arith, Bool, true, false, not, Option, none, some,
  [], ◌∷◌, map, ◌==◌, ltb, if◌then◌else◌, length, All, Bool-cases, inl, inr, ==→eq, ltb→le, le→ltb,
  ltb→le, le→ltb,
}
use reverse_rewrite.Common.Text.{Bytes}
use reverse_rewrite.Coreutils.Tr.Operation.{
  keep, passing, only, find_single_change, count, resized, process_single_char_replace,
  process_single_delete, is_changed, delete_by, translate_by, delete_chunk, translate_chunk,
}

abbrev pub IsByte : ℕ → Type 0
IsByte b = b < 256

count_le : (input : Bytes) (c : ℕ) → count input c ≤ length input
count_le [] c = omega arith
count_le (b ∷ bs) c = ground (arith, count_le bs c)

passing-none :
    (check : ℕ → Bool) (lo n b : ℕ)
    → passing check lo n ≡ []
    → lo ≤ b
    → b < lo + n
    → check b ≡ false
passing-none check lo zero b h p q = absurd (omega arith)
passing-none check lo (suc n) b h p q = elim (Bool-cases (lo == b)) [
  | inl t ↦ ground (arith, ==→eq lo b t)
  | inr f ↦ ground (arith, passing-none check (suc lo) n b)
]

passing-head :
    (check : ℕ → Bool) (lo n c : ℕ) (rest : Bytes) → passing check lo n ≡ c ∷ rest → check c ≡ true
passing-head check lo zero c rest h = cc
passing-head check lo (suc n) c rest h = elim (Bool-cases (check lo)) [
  | inl t ↦ ground arith
  | inr f ↦ ground (arith, passing-head check (suc lo) n c rest)
]

passing-only :
    (check : ℕ → Bool) (lo n c b : ℕ)
    → passing check lo n ≡ c ∷ []
    → lo ≤ b
    → b < lo + n
    → check b ≡ true
    → b ≡ c
passing-only check lo zero c b h p q k = absurd (omega arith)
passing-only check lo (suc n) c b h p q k = elim (Bool-cases (lo == b)) [
  | inl t ↦ ground (arith, ==→eq lo b t)
  | inr f ↦ ground (arith, passing-only check (suc lo) n c b, passing-none check (suc lo) n b)
]

count-none :
    (input : Bytes) (c t : ℕ)
    → (count input c == 0) ≡ true
    → map (λ b. if b == c then t else b) input ≡ input
count-none [] c t h = refl
count-none (b ∷ bs) c t h = ground (arith, count-none bs c t)

count-all :
    (input : Bytes) (c t : ℕ)
    → (count input c == length input) ≡ true
    → map (λ b. if b == c then t else b) input ≡ resized (length input) t
count-all [] c t h = refl
count-all (b ∷ bs) c t h = ground (arith, count-all bs c t, count_le bs c)

replace_lem :
    (input : Bytes) (s t : ℕ)
    → process_single_char_replace input s t ≡ map (λ b. if b == s then t else b) input
unfolding process_single_char_replace
replace_lem input s t = ground (arith, count-none input s t, count-all input s t)

delete-none :
    (input : Bytes) (c : ℕ) → (count input c == 0) ≡ true → keep (λ b. not (b == c)) input ≡ input
delete-none [] c h = refl
delete-none (b ∷ bs) c h = ground (arith, delete-none bs c)

delete-all :
    (input : Bytes) (c : ℕ)
    → ltb (count input c) (length input) ≡ false
    → keep (λ b. not (b == c)) input ≡ []
delete-all [] c h = refl
delete-all (b ∷ bs) c h = ground (
  arith,
  delete-all bs c,
  count_le bs c,
  ltb→le (count (b ∷ bs) c) (length (b ∷ bs)),
  le→ltb (count bs c) (length bs),
)

delete_lem :
    (input : Bytes) (c : ℕ) → process_single_delete input c ≡ keep (λ b. not (b == c)) input
unfolding process_single_delete
delete_lem input c = ground (arith, delete-none input c, delete-all input c)

only-eq-some : (found : Bytes) (c : ℕ) → only found ≡ some c → found ≡ c ∷ []
only-eq-some [] c h = cc
only-eq-some (i ∷ []) c h = cc
only-eq-some (i ∷ j ∷ rest) c h = cc

-- the single change, read back
module _ (check : ℕ → Bool) (c : ℕ) (found : find_single_change check ≡ some c) where
  passing-found : passing check 0 256 ≡ c ∷ []
  unfolding find_single_change
  passing-found = only-eq-some (passing check 0 256) c found

  single : (b : ℕ) → IsByte b → check b ≡ true → b ≡ c
  single b h k = passing-only check 0 256 c b passing-found (omega arith) h k

  chosen : check c ≡ true
  chosen = passing-head check 0 256 c [] passing-found

map-agree :
    (f g : ℕ → ℕ) (input : Bytes)
    → ((b : ℕ) → IsByte b → f b ≡ g b)
    → All IsByte input
    → map f input ≡ map g input
map-agree f g [] same h = refl
map-agree f g (b ∷ bs) same (h, hs) = ground (arith, same b h, map-agree f g bs same hs)

keep-agree :
    (f g : ℕ → Bool) (input : Bytes)
    → ((b : ℕ) → IsByte b → f b ≡ g b)
    → All IsByte input
    → keep f input ≡ keep g input
keep-agree f g [] same h = refl
keep-agree f g (b ∷ bs) same (h, hs) = ground (arith, same b h, keep-agree f g bs same hs)

translate_by_lem :
    (o : Option ℕ) (table : ℕ → ℕ) (input : Bytes)
    → find_single_change (is_changed table) ≡ o
    → All IsByte input
    → translate_by o table input ≡ map table input
unfolding translate_by
translate_by_lem none table input found h = refl
translate_by_lem (some c) table input found h =
    replace_lem input c (table c)
    ∙ map-agree (λ b. if b == c then table c else b) table input
        (λ b k. ground (arith, single (is_changed table) c found b k)) h

pub translate_chunk_lem :
    (table : ℕ → ℕ) (input : Bytes)
    → All IsByte input
    → translate_chunk table input ≡ map table input
unfolding translate_chunk
translate_chunk_lem table input h =
    translate_by_lem (find_single_change (is_changed table)) table input refl h

delete_by_lem :
    (o : Option ℕ) (table : ℕ → Bool) (input : Bytes)
    → find_single_change table ≡ o
    → All IsByte input
    → delete_by o table input ≡ keep (λ b. not (table b)) input
unfolding delete_by
delete_by_lem none table input found h = refl
delete_by_lem (some c) table input found h =
    delete_lem input c
    ∙ keep-agree (λ b. not (b == c)) (λ b. not (table b)) input
        (λ b k. ground (arith, single table c found b k, chosen table c found, ==→eq b c)) h

pub delete_chunk_lem :
    (table : ℕ → Bool) (input : Bytes)
    → All IsByte input
    → delete_chunk table input ≡ keep (λ b. not (table b)) input
unfolding delete_chunk
delete_chunk_lem table input h = delete_by_lem (find_single_change table) table input refl h
