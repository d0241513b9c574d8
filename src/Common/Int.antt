-- ===== src/Common/Int.antt =====
-- The type i64, with what the Rust standard library does on it.
use Prim.Native.Nat.{ℕ, zero, suc, ◌+◌, ◌-◌, ◌*◌, ◌<◌}
use mathlib.Core.Path.{◌≡◌}
use mathlib.Core.Bool.{Bool, true, false, not, ◌&&◌, ◌||◌}
use mathlib.Core.Option.{Option, none, some}
use mathlib.Core.List.{[], ◌∷◌}
use native.Mathlib.Omega.{arith}
use reverse_rewrite.Common.Tests.{ltb, ◌==◌, if◌then◌else◌}
use reverse_rewrite.Common.Text.{Bytes, in_range}
use reverse_rewrite.Common.Outcome.{Outcome, ok, err, Gives, >>=-Gives, ◌>>=◌}

-- `negsuc n` is -(n + 1)
pub data ℤ : Type 0 where
  pos : ℕ → ℤ
  negsuc : ℕ → ℤ

-- 2 to the power 63
abbrev pub i64_limit : ℕ
i64_limit = 9223372036854775808

abbrev pub InI64 : ℤ → Type 0
InI64 (pos n) = n < i64_limit
InI64 (negsuc n) = n < i64_limit

abbrev pub fits_i64 : ℤ → Bool
fits_i64 (pos n) = ltb n i64_limit
fits_i64 (negsuc n) = ltb n i64_limit

abbrev neg_ℕ : ℕ → ℤ
neg_ℕ zero = pos 0
neg_ℕ (suc n) = negsuc n

abbrev pub neg : ℤ → ℤ
neg (pos n) = neg_ℕ n
neg (negsuc n) = pos (suc n)

infixl 70 ◌*ℤ◌
abbrev pub ◌*ℤ◌ : ℤ → ℤ → ℤ
pos a *ℤ pos b = pos (a * b)
pos a *ℤ negsuc b = neg_ℕ (a * suc b)
negsuc a *ℤ pos b = neg_ℕ (suc a * b)
negsuc a *ℤ negsuc b = pos (suc a * suc b)

abbrev checked : ℤ → Option ℤ
checked a = if fits_i64 a then some a else none

abbrev pub checked_mul : ℤ → ℤ → Option ℤ
checked_mul a b = checked (a *ℤ b)

abbrev pub checked_neg : ℤ → Option ℤ
checked_neg a = checked (neg a)

pub data IntErrorKind : Type 0 where
  empty invalid_digit pos_overflow neg_overflow : IntErrorKind

-- `char::to_digit`, for a radix up to 16
abbrev pub to_digit : ℕ → ℕ → Option ℕ
to_digit radix c =
    if in_range b'0' b'9' c && ltb (c - b'0') radix
    then some (c - b'0')
    else if in_range b'a' b'f' c && ltb (c - b'a' + 10) radix
    then some (c - b'a' + 10)
    else if in_range b'A' b'F' c && ltb (c - b'A' + 10) radix
    then some (c - b'A' + 10)
    else none

checked_digit : ℕ → IntErrorKind → ℕ → ℕ → ℕ → Outcome IntErrorKind ℕ
checked_digit limit overflow radix n c = elim (to_digit radix c) [
  | none ↦ err invalid_digit
  | some d ↦ if ltb (n * radix + d) limit then ok (n * radix + d) else err overflow
]

-- The digits read onto a magnitude that stays below the limit.
unfoldable pub from_digits : ℕ → IntErrorKind → ℕ → ℕ → Bytes → Outcome IntErrorKind ℕ
unfolding checked_digit
from_digits limit overflow radix n [] = ok n
from_digits limit overflow radix n (c ∷ cs) =
    checked_digit limit overflow radix n c >>= (λ m. from_digits limit overflow radix m cs)

abbrev is_sign : ℕ → Bool
is_sign c = c == b'+' || c == b'-'

abbrev signed_digits : ℕ → ℕ → Bytes → Outcome IntErrorKind ℤ
signed_digits radix c cs =
    if c == b'-'
    then (from_digits (suc i64_limit) neg_overflow radix 0 cs >>= (λ n. ok (neg_ℕ n)))
    else if c == b'+'
    then (from_digits i64_limit pos_overflow radix 0 cs >>= (λ n. ok (pos n)))
    else from_digits i64_limit pos_overflow radix 0 (c ∷ cs) >>= (λ n. ok (pos n))

-- `i64::from_str_radix`
unfoldable pub from_str_radix : ℕ → Bytes → Outcome IntErrorKind ℤ
from_str_radix radix [] = err empty
from_str_radix radix (c ∷ []) = if is_sign c then err invalid_digit else signed_digits radix c []
from_str_radix radix (c ∷ d ∷ s) = signed_digits radix c (d ∷ s)

checked_digit-Gives :
    (limit : ℕ) (overflow : IntErrorKind) (radix n c : ℕ)
    → Gives (λ m. m < limit) (checked_digit limit overflow radix n c)
unfolding checked_digit
checked_digit-Gives limit overflow radix n c = ground arith

pub from_digits-Gives :
    (limit : ℕ) (overflow : IntErrorKind) (radix n : ℕ) (s : Bytes)
    → n < limit
    → Gives (λ m. m < limit) (from_digits limit overflow radix n s)
unfolding from_digits
from_digits-Gives limit overflow radix n [] h = h
from_digits-Gives limit overflow radix n (c ∷ s) h =
    >>=-Gives _ _ _ _ (checked_digit-Gives limit overflow radix n c)
      (λ m small. from_digits-Gives limit overflow radix m s small)

abbrev pub IsNatural : ℤ → Type 0
IsNatural (pos n) = n < i64_limit
IsNatural (negsuc n) = ⊥

-- no sign in front
abbrev pub is_unsigned : Bytes → Bool
is_unsigned [] = true
is_unsigned (c ∷ s) = not (is_sign c)

signed_digits-IsNatural :
    (radix c : ℕ) (s : Bytes) → is_sign c ≡ false → Gives IsNatural (signed_digits radix c s)
signed_digits-IsNatural radix c s h =
    let other : signed_digits radix c s
        ≡ (from_digits i64_limit pos_overflow radix 0 (c ∷ s) >>= (λ n. ok (pos n))) =
      ground arith in
    rw other (
      >>=-Gives (λ m. m < i64_limit) IsNatural _ _
        (from_digits-Gives i64_limit pos_overflow radix 0 (c ∷ s) (omega arith)) (λ n small. small))

pub from_str_radix-IsNatural :
    (radix : ℕ) (s : Bytes) → is_unsigned s ≡ true → Gives IsNatural (from_str_radix radix s)
unfolding from_str_radix
from_str_radix-IsNatural radix [] h = tt
from_str_radix-IsNatural radix (c ∷ []) h =
    let plain : is_sign c ≡ false = ground arith in
    rw plain (signed_digits-IsNatural radix c [] plain)
from_str_radix-IsNatural radix (c ∷ d ∷ s) h =
    signed_digits-IsNatural radix c (d ∷ s) (ground arith)
