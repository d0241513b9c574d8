-- ===== src/Redis/Tests/Atoi.antt =====
-- A function that behaves as `atoi::<u64>` is documented to: the leading digits, if they fit.
use reverse_rewrite.Common.{
  ℕ, zero, suc, ◌+◌, ◌-◌, ◌*◌, ◌/◌, ◌%◌, ◌<◌, ◌≡◌, ◌∙◌, Bool, true, false, Option, none, some, [],
  ◌∷◌, ◌++◌, arith, ltb, leb, if◌then◌else◌, ◌&&◌, All, inl, inr, Bool-cases,
}
use reverse_rewrite.Common.Text.{Bytes, decimal, decimal_digits}
use reverse_rewrite.Common.Decimal.{IsDigit, decimal-IsDigit, decimal_digits-IsDigit, decimal_head}
use reverse_rewrite.Redis.Frame.{usize_mod}
use reverse_rewrite.Redis.Connection.Write.{ReadsDecimals}

abbrev is_digit : ℕ → Bool
is_digit b = leb 48 b && leb b 57

digits_value : ℕ → Bytes → ℕ
digits_value acc [] = acc
digits_value acc (b ∷ bs) = elim (is_digit b) [
  | true ↦ digits_value (acc * 10 + (b - 48)) bs
  | false ↦ acc
]

abbrev bounded : ℕ → Option ℕ
bounded v = if ltb v usize_mod then some v else none

unfoldable pub leading_digits : Bytes → Option ℕ
unfolding digits_value
leading_digits [] = none
leading_digits (b ∷ bs) = if is_digit b then bounded (digits_value 0 (b ∷ bs)) else none

digits_value-append :
    (xs : Bytes) (acc d : ℕ)
    → All IsDigit xs
    → IsDigit d
    → digits_value acc (xs ++ (d ∷ [])) ≡ digits_value acc xs * 10 + (d - 48)
unfolding digits_value
digits_value-append [] acc d h k = ground arith
digits_value-append (x ∷ xs) acc d (p, h) k =
    ground (arith, digits_value-append xs (acc * 10 + (x - 48)) d h k)

-- the numbers of at most k + 1 digits
abbrev digit_bound : ℕ → ℕ
digit_bound zero = 10
digit_bound (suc k) = 10 * digit_bound k

digits_value-decimal : (k n : ℕ) → n < digit_bound k → digits_value 0 (decimal_digits k n) ≡ n
unfolding decimal_digits
digits_value-decimal zero n h = unfold digits_value in ground arith
digits_value-decimal (suc k) n h = elim (Bool-cases (ltb n 10)) [
  | inl small ↦ rw small (unfold digits_value in ground (arith, small))
  | inr large ↦ rw large (
      digits_value-append (decimal_digits k (n / 10)) 0 (48 + n % 10)
        (decimal_digits-IsDigit k (n / 10)) (omega arith, omega arith)
      ∙ omega (arith, digits_value-decimal k (n / 10) (omega arith)))
]

pub leading_digits-decimal : ReadsDecimals leading_digits
leading_digits-decimal n h =
    let (d, s, e) = decimal_head n in
    let (digit, _) = rw e at (decimal-IsDigit n) in
    let v = digits_value-decimal 19 n (omega arith) in
    let e' : decimal_digits 19 n ≡ d ∷ s = unfold decimal in e in
    let whole : digits_value 0 (d ∷ s) ≡ n = rw e' at v in
    rw e (unfold leading_digits in ground (arith, whole))
