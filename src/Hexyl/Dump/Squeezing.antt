-- ===== src/Hexyl/Dump/Squeezing.antt =====
-- lib.rs: the test of the squeezer, eight bytes at a time, finds lines of a single byte.
use reverse_rewrite.Common.{
  ℕ, zero, suc, ◌+◌, ◌*◌, ◌≤◌, ◌<◌, ◌≡◌, refl, sym, ap, ◌∙◌, subst, true, [], ◌∷◌, ◌++◌, arith,
  length, take, drop, length-take, length-drop, All,
}
use reverse_rewrite.Common.Text.{Bytes}
use reverse_rewrite.Hexyl.Line.Groups.{take-drop}
use reverse_rewrite.Hexyl.Printer.{Squeezer, print, delete, ignore, disabled}
use reverse_rewrite.Hexyl.Dump.{le_value, all_chunks, ones}

abbrev pub IsBytes : Bytes → Type 0
IsBytes bs = All (λ c. c < 256) bs

abbrev pub IsRun : ℕ → Bytes → Type 0
IsRun b bs = All (λ c. c ≡ b) bs

ones_of : ℕ → ℕ
ones_of zero = 0
ones_of (suc n) = 1 + 256 * ones_of n

le_value-IsRun :
    (b : ℕ) (bs : Bytes) → b < 256 → IsBytes bs → le_value bs ≡ b * ones_of (length bs) → IsRun b bs
unfolding ones_of
le_value-IsRun b [] small h e = tt
le_value-IsRun b (c ∷ bs) small (k, h) e =
    let o = ones_of (length bs) in
    let spread : b * (1 + 256 * o) ≡ b + 256 * (b * o) = grind arith in
    (omega (arith, e, spread), le_value-IsRun b bs small h (omega (arith, e, spread)))

IsBytes-take : (n : ℕ) (bs : Bytes) → IsBytes bs → IsBytes (take n bs) × IsBytes (drop n bs)
IsBytes-take zero bs h = (tt, h)
IsBytes-take (suc n) [] h = (tt, tt)
IsBytes-take (suc n) (b ∷ bs) (k, h) = let (f, g) = IsBytes-take n bs h in ((k, f), g)

IsRun-append : (b : ℕ) (xs ys : Bytes) → IsRun b xs → IsRun b ys → IsRun b (xs ++ ys)
IsRun-append b [] ys h k = k
IsRun-append b (x ∷ xs) ys (e, h) k = (e, IsRun-append b xs ys h k)

chunks_same :
    (k v : ℕ) (bs : Bytes)
    → 8 ≤ length bs
    → all_chunks (suc k) v bs ≡ true
    → (le_value (take 8 bs) ≡ v) × (all_chunks k v (drop 8 bs) ≡ true)
chunks_same k v bs h e = ground (arith, e)

pub all_chunks-IsRun :
    (k n b : ℕ) (bs : Bytes)
    → b < 256
    → IsBytes bs
    → length bs ≡ 8 * n
    → n ≤ k
    → all_chunks k (b * ones) bs ≡ true
    → IsRun b bs
unfolding ones_of
all_chunks-IsRun k zero b [] small h e enough same = tt
all_chunks-IsRun k zero b (c ∷ bs) small h e enough same = absurd (omega (arith, e))
all_chunks-IsRun zero (suc n) b bs small h e enough same = absurd (omega arith)
all_chunks-IsRun (suc k) (suc n) b bs small h e enough same =
    let (value, rest) = chunks_same k (b * ones) bs (omega (arith, e)) same in
    let (front, back) = IsBytes-take 8 bs h in
    let wide : length (take 8 bs) ≡ 8 = omega (arith, e, length-take 8 bs) in
    subst (IsRun b) (take-drop 8 bs) (
      IsRun-append b (take 8 bs) (drop 8 bs)
        (le_value-IsRun b (take 8 bs) small front (rw wide value))
        (all_chunks-IsRun k n b (drop 8 bs) small back (omega (arith, e, length-drop 8 bs))
          (omega arith) rest))

-- The line is of one byte, which the squeezer has noted.
abbrev pub Noted : Bytes → ℕ → Type 0
Noted bs v = (b : ℕ) × (b < 256) × IsRun b bs × (v ≡ b * ones)

-- What the squeezer knows of the line before.
abbrev pub Squeezes : Squeezer → Bytes → ℕ → Type 0
Squeezes print bs v = Noted bs v
Squeezes delete bs v = Noted bs v
Squeezes ignore bs v = Unit
Squeezes disabled bs v = Unit

pub IsRun-eq : (b : ℕ) (xs ys : Bytes) → IsRun b xs → IsRun b ys → length xs ≡ length ys → xs ≡ ys
IsRun-eq b [] [] h k e = refl
IsRun-eq b [] (y ∷ ys) h k e = absurd (omega (arith, e))
IsRun-eq b (x ∷ xs) [] h k e = absurd (omega (arith, e))
IsRun-eq b (x ∷ xs) (y ∷ ys) (f, h) (g, k) e =
    ap (λ z. z ∷ xs) (f ∙ sym g) ∙ ap (λ t. y ∷ t) (IsRun-eq b xs ys h k (omega (arith, e)))
