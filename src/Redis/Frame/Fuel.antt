-- ===== src/Redis/Frame/Fuel.antt =====
-- frame.rs: what the readers leave of their input, and the fuel that `check` and `parse` need.
use reverse_rewrite.Common.{
  ℕ, zero, suc, ◌+◌, ◌*◌, ◌≤◌, ◌<◌, ◌≡◌, ◌≢◌, inl, inr, Bool, true, false, Option, none, some, [],
  ◌∷◌, arith, ltb, ◌==◌, if◌then◌else◌, length, length-drop, Bool-cases, Option-cases,
}
use mathlib.Core.List.{tail}
use reverse_rewrite.Common.Text.{Bytes, is_utf8, bytes_eq, codes}
use reverse_rewrite.Common.Outcome.{ok, err, panic, out_of_fuel, ◌>>=◌}
use reverse_rewrite.Redis.Frame.{
  FrameResult, Error, Frame, simple, error, skip, find_line, get_line, utf8_line, check_scalar,
  check, check_items, parse_bulk, parse_scalar, parse, parse_items, get_u8, peek_u8, get_decimal,
  or_invalid,
}

-- The run did not want for fuel, and a value leaves fewer than `n` bytes.
pub data Leaves {A : Type 0} (n : ℕ) : FrameResult (A × Bytes) → Type 0 where
  value : {a : A} {r : Bytes} → length r < n → Leaves n (ok (a, r))
  failed : {e : Error} → Leaves n (err e)
  panicked : Leaves n panic

module _ {A : Type 0} where
  pub Leaves-ok :
      {n : ℕ} {o : FrameResult (A × Bytes)} {a : A} {r : Bytes}
      → Leaves n o
      → o ≡ ok (a, r)
      → length r < n
  Leaves-ok (value h) e = ground arith
  Leaves-ok failed e = cc
  Leaves-ok panicked e = cc

  pub Leaves-ne-out_of_fuel : {n : ℕ} {o : FrameResult (A × Bytes)} → Leaves n o → o ≢ out_of_fuel
  Leaves-ne-out_of_fuel (value h) = cc
  Leaves-ne-out_of_fuel failed = cc
  Leaves-ne-out_of_fuel panicked = cc

  pub Leaves-if :
      {n : ℕ} (b : Bool) {x y : FrameResult (A × Bytes)}
      → Leaves n x
      → Leaves n y
      → Leaves n (if b then x else y)
  Leaves-if true hx hy = hx
  Leaves-if false hx hy = hy

  Leaves-elim :
      {n : ℕ} (b : Bool) {x y : FrameResult (A × Bytes)}
      → Leaves n x
      → Leaves n y
      → Leaves n (elim b [ true ↦ x | false ↦ y ])
  Leaves-elim true hx hy = hx
  Leaves-elim false hx hy = hy

  pub Leaves-le : {n m : ℕ} {o : FrameResult (A × Bytes)} → Leaves n o → n ≤ m → Leaves m o
  Leaves-le (value h) k = value (omega arith)
  Leaves-le failed k = failed
  Leaves-le panicked k = panicked

module _ {A B : Type 0} where
  pub Leaves-bind :
      {n m : ℕ} {x : FrameResult (A × Bytes)} (f : A × Bytes → FrameResult (B × Bytes))
      → Leaves n x
      → ((a : A) (r : Bytes) → length r < n → Leaves m (f (a, r)))
      → Leaves m (x >>= f)
  Leaves-bind f (value {a = a} {r = r} h) k = k a r h
  Leaves-bind f failed k = failed
  Leaves-bind f panicked k = panicked

pub get_u8-Leaves : (src : Bytes) → Leaves (length src) (get_u8 src)
unfolding get_u8
get_u8-Leaves [] = failed
get_u8-Leaves (b ∷ r) = value (omega arith)

pub peek_u8-Leaves : (src : Bytes) → Leaves (suc (length src)) (peek_u8 src)
unfolding peek_u8
peek_u8-Leaves [] = failed
peek_u8-Leaves (b ∷ r) = value (omega arith)

pub skip-Leaves : (n : ℕ) (src : Bytes) → Leaves (suc (length src)) (skip n src)
unfolding skip
skip-Leaves n src = Leaves-if (ltb (length src) n) failed (value (omega (arith, length-drop n src)))

length-tail : (r : Bytes) → length (tail r) ≤ length r
length-tail [] = omega arith
length-tail (b ∷ r) = omega arith

length-find_line : (src line r : Bytes) → find_line src ≡ some (line, r) → length r ≤ length src
unfolding find_line
length-find_line [] line r h = cc
length-find_line (a ∷ s) line r h = elim (Option-cases (find_line s)) [
  | inl lost ↦ ground (arith, lost, length-tail s)
  | inr ((l, t), found) ↦ ground (arith, found, length-tail s, length-find_line s l t found)
]

pub get_line-Leaves : (src : Bytes) → Leaves (suc (length src)) (get_line src)
unfolding get_line
get_line-Leaves src = elim (Option-cases (find_line src)) [
  | inl lost ↦ rw lost failed
  | inr ((l, t), found) ↦ rw found (value (omega (arith, length-find_line src l t found)))
]

module _ (atoi : Bytes → Option ℕ) where
  or_invalid-Leaves : (n : Option ℕ) (r : Bytes) → Leaves (suc (length r)) (or_invalid atoi n r)
  or_invalid-Leaves none r = failed
  or_invalid-Leaves (some n) r = value (omega arith)

  pub get_decimal-Leaves : (src : Bytes) → Leaves (suc (length src)) (get_decimal atoi src)
  unfolding get_decimal
  get_decimal-Leaves src =
      Leaves-bind _ (get_line-Leaves src)
        (λ line r h. Leaves-le (or_invalid-Leaves (atoi line) r) h)

  check_scalar-Leaves : (b : ℕ) (src : Bytes) → Leaves (suc (length src)) (check_scalar atoi b src)
  unfolding check_scalar
  check_scalar-Leaves b src =
      Leaves-if (b == b'+') (Leaves-bind _ (get_line-Leaves src) (λ _ r h. value h)) (
        Leaves-if (b == b'-') (Leaves-bind _ (get_line-Leaves src) (λ _ r h. value h)) (
          Leaves-if (b == b':') (Leaves-bind _ (get_decimal-Leaves src) (λ _ r h. value h)) (
            Leaves-if (b == b'$')
              (Leaves-bind _ (peek_u8-Leaves src) (λ p s h.
                Leaves-le
                  (Leaves-if (p == b'-') (skip-Leaves 4 s) (
                    Leaves-bind _ (get_decimal-Leaves s)
                      (λ len r k. Leaves-le (skip-Leaves _ r) k)))
                  h))
              failed)))

  mutual
    unfolding check

    check-Leaves :
        (f : ℕ) (src : Bytes) → 2 * length src < f → Leaves (length src) (check atoi f src)
    check-Leaves zero src h = absurd (omega arith)
    check-Leaves (suc f) src h = Leaves-bind _ (get_u8-Leaves src) (λ b r hr.
        Leaves-le
          (Leaves-elim (b == b'*')
            (Leaves-bind _ (get_decimal-Leaves r)
              (λ n t k. Leaves-le (check_items-Leaves f n t (omega arith)) k))
            (check_scalar-Leaves b r))
          hr)

    check_items-Leaves :
        (f n : ℕ) (src : Bytes)
        → 2 * length src + 1 < f
        → Leaves (suc (length src)) (check_items atoi f n src)
    check_items-Leaves zero n src h = absurd (omega arith)
    check_items-Leaves (suc f) zero src h = value (omega arith)
    check_items-Leaves (suc f) (suc n) src h =
        Leaves-bind _ (check-Leaves f src (omega arith))
          (λ _ r k. Leaves-le (check_items-Leaves f n r (omega arith)) (omega arith))

  parse_bulk-Leaves : (len : ℕ) (src : Bytes) → Leaves (suc (length src)) (parse_bulk len src)
  unfolding parse_bulk
  parse_bulk-Leaves len src = Leaves-if (ltb (length src) _) failed (
      Leaves-if (ltb (length src) len) panicked
        (Leaves-bind _ (skip-Leaves _ src) (λ _ r h. value h)))

  utf8_line-Leaves :
      (line r : Bytes) (make : Bytes → Frame)
      → Leaves (suc (length r)) (utf8_line line >>= λ s. ok (make s, r))
  unfolding utf8_line
  utf8_line-Leaves line r make = elim (Bool-cases (is_utf8 line)) [
    | inl fine ↦ rw fine (value (omega arith))
    | inr bad ↦ rw bad failed
  ]

  parse_scalar-Leaves : (b : ℕ) (src : Bytes) → Leaves (suc (length src)) (parse_scalar atoi b src)
  unfolding parse_scalar
  parse_scalar-Leaves b src =
      Leaves-if (b == b'+')
        (Leaves-bind _ (get_line-Leaves src) (λ l r h. Leaves-le (utf8_line-Leaves l r simple) h))
        (Leaves-if (b == b'-')
          (Leaves-bind _ (get_line-Leaves src) (λ l r h. Leaves-le (utf8_line-Leaves l r error) h))
          (Leaves-if (b == b':') (Leaves-bind _ (get_decimal-Leaves src) (λ _ r h. value h)) (
            Leaves-if (b == b'$')
              (Leaves-bind _ (peek_u8-Leaves src) (λ p s h.
                Leaves-le
                  (Leaves-if (p == b'-')
                    (Leaves-bind _ (get_line-Leaves s)
                      (λ l r k. Leaves-if (bytes_eq l (codes "-1")) (value k) failed))
                    (Leaves-bind _ (get_decimal-Leaves s)
                      (λ len r k. Leaves-le (parse_bulk-Leaves len r) k)))
                  h))
              panicked)))

  mutual
    unfolding parse

    parse-Leaves :
        (f : ℕ) (src : Bytes) → 2 * length src < f → Leaves (length src) (parse atoi f src)
    parse-Leaves zero src h = absurd (omega arith)
    parse-Leaves (suc f) src h = Leaves-bind _ (get_u8-Leaves src) (λ b r hr.
        Leaves-le
          (Leaves-elim (b == b'*')
            (Leaves-bind _ (get_decimal-Leaves r) (λ n t k.
              Leaves-bind _ (Leaves-le (parse_items-Leaves f n t (omega arith)) k)
                (λ xs u z. value z)))
            (parse_scalar-Leaves b r))
          hr)

    parse_items-Leaves :
        (f n : ℕ) (src : Bytes)
        → 2 * length src + 1 < f
        → Leaves (suc (length src)) (parse_items atoi f n src)
    parse_items-Leaves zero n src h = absurd (omega arith)
    parse_items-Leaves (suc f) zero src h = value (omega arith)
    parse_items-Leaves (suc f) (suc n) src h =
        Leaves-bind _ (parse-Leaves f src (omega arith)) (λ x r k.
          Leaves-bind _ (Leaves-le (parse_items-Leaves f n r (omega arith)) (omega arith))
            (λ xs u z. value z))

  -- `check` terminates: fuel above twice the number of bytes is enough, and a frame that passes
  -- takes at least one byte.
  pub check_total :
      (f : ℕ) (src : Bytes) → 2 * length src < f → Leaves (length src) (check atoi f src)
  check_total = check-Leaves

  pub check_items_total :
      (f n : ℕ) (src : Bytes)
      → 2 * length src + 1 < f
      → Leaves (suc (length src)) (check_items atoi f n src)
  check_items_total = check_items-Leaves

  -- So does `parse`.
  pub parse_total :
      (f : ℕ) (src : Bytes) → 2 * length src < f → Leaves (length src) (parse atoi f src)
  parse_total = parse-Leaves
