-- ===== src/Common/Decimal.antt =====
-- The digits that `{}` prints for a u64.
use Prim.Native.Nat.{ℕ, zero, suc, ◌+◌, ◌/◌, ◌%◌, ◌≤◌}
use mathlib.Core.Path.{◌≡◌, refl}
use mathlib.Core.Logic.{inl, inr}
use mathlib.Core.List.{List, [], ◌∷◌, ◌++◌}
use native.Mathlib.Omega.{arith}
use reverse_rewrite.Common.Tests.{ltb, Bool-cases}
use reverse_rewrite.Common.Lists.{All}
use reverse_rewrite.Common.Text.{Bytes, decimal, decimal_digits}

abbrev pub IsDigit : ℕ → Type 0
IsDigit b = (48 ≤ b) × (b ≤ 57)

All-append {ℓ κ} :
    {A : Type ℓ} (P : A → Type κ) (xs ys : List A) → All P xs → All P ys → All P (xs ++ ys)
All-append P [] ys h k = k
All-append P (x ∷ xs) ys (p, h) k = (p, All-append P xs ys h k)

pub decimal_digits-IsDigit : (k n : ℕ) → All IsDigit (decimal_digits k n)
unfolding decimal_digits
decimal_digits-IsDigit zero n = (omega arith, tt)
decimal_digits-IsDigit (suc k) n = elim (Bool-cases (ltb n 10)) [
  | inl small ↦ rw small (ground arith, tt)
  | inr large ↦
      rw large (All-append IsDigit _ _ (decimal_digits-IsDigit k (n / 10)) (omega arith, tt))
]

decimal_digits_head : (k n : ℕ) → (d : ℕ) × (s : Bytes) × (decimal_digits k n ≡ d ∷ s)
unfolding decimal_digits
decimal_digits_head zero n = (48 + n % 10, [], refl)
decimal_digits_head (suc k) n = elim (Bool-cases (ltb n 10)) [
  | inl small ↦ (48 + n, [], rw small)
  | inr large ↦
      let (d, s, e) = decimal_digits_head k (n / 10) in
      (d, s ++ ((48 + n % 10) ∷ []), rw (large, e))
]

pub decimal-IsDigit : (n : ℕ) → All IsDigit (decimal n)
unfolding decimal
decimal-IsDigit n = decimal_digits-IsDigit 19 n

pub decimal_head : (n : ℕ) → (d : ℕ) × (s : Bytes) × (decimal n ≡ d ∷ s)
unfolding decimal
decimal_head n = decimal_digits_head 19 n
