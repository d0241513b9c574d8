-- ===== src/Redis/Frame/Stream.antt =====
-- frame.rs: what the readers answer when more bytes follow the ones that they were given.
use reverse_rewrite.Common.{
  ℕ, zero, suc, ◌≤◌, ◌≡◌, refl, inl, inr, Bool, true, false, ◌&&◌, Option, none, some, [], ◌∷◌,
  ◌++◌, arith, ltb, ◌==◌, if◌then◌else◌, length, drop-append, length-append, Bool-cases,
  Option-cases,
}
use reverse_rewrite.Common.Text.{Bytes}
use reverse_rewrite.Common.Outcome.{ok, err, out_of_fuel, ◌>>=◌}
use reverse_rewrite.Redis.Frame.{
  FrameResult, Message, incomplete, other, peek_u8, get_u8, skip, find_line, get_line, or_invalid,
  get_decimal, check_scalar, check, check_items, starts_lf,
}
use mathlib.Core.Option
use mathlib.Core.List.{tail}

-- The second outcome is the first one with `more` behind the bytes that were left; a reader that
-- waits for bytes promises nothing. No reader of `check` panics.
pub data Extends {A : Type 0} (more : Bytes)
    : FrameResult (A × Bytes) → FrameResult (A × Bytes) → Type 0 where
  value :
      {a : A} {r : Bytes} {o : FrameResult (A × Bytes)}
      → o ≡ ok (a, r ++ more)
      → Extends more (ok (a, r)) o
  failed :
      {m : Message} {o : FrameResult (A × Bytes)}
      → o ≡ err (other m)
      → Extends more (err (other m)) o
  waits : {o : FrameResult (A × Bytes)} → Extends more (err incomplete) o
  spent : {o : FrameResult (A × Bytes)} → Extends more out_of_fuel o

module _ {A B : Type 0} {more : Bytes} where
  pub Extends-bind :
      {x y : FrameResult (A × Bytes)} (f g : A × Bytes → FrameResult (B × Bytes))
      → Extends more x y
      → ((a : A) (r : Bytes) → Extends more (f (a, r)) (g (a, r ++ more)))
      → Extends more (x >>= f) (y >>= g)
  Extends-bind f g (value {a = a} {r = r} e) k = rw e (k a r)
  Extends-bind f g (failed e) k = rw e (failed refl)
  Extends-bind f g waits k = waits
  Extends-bind f g spent k = spent

module _ {A : Type 0} {more : Bytes} where
  pub Extends-if :
      (b : Bool) {x y x' y' : FrameResult (A × Bytes)}
      → Extends more x x'
      → Extends more y y'
      → Extends more (if b then x else y) (if b then x' else y')
  Extends-if true hx hy = hx
  Extends-if false hx hy = hy

module _ {A : Type 0} {more : Bytes} where
  pub Extends-elim :
      (b : Bool) {x y x' y' : FrameResult (A × Bytes)}
      → Extends more x x'
      → Extends more y y'
      → Extends more (elim b [ true ↦ x | false ↦ y ]) (elim b [ true ↦ x' | false ↦ y' ])
  Extends-elim true hx hy = hx
  Extends-elim false hx hy = hy

pub get_u8-Extends : (src more : Bytes) → Extends more (get_u8 src) (get_u8 (src ++ more))
unfolding get_u8
get_u8-Extends [] more = waits
get_u8-Extends (b ∷ r) more = value refl

pub peek_u8-Extends : (src more : Bytes) → Extends more (peek_u8 src) (peek_u8 (src ++ more))
unfolding peek_u8
peek_u8-Extends [] more = waits
peek_u8-Extends (b ∷ r) more = value refl

pub skip-Extends : (n : ℕ) (src more : Bytes) → Extends more (skip n src) (skip n (src ++ more))
unfolding skip
skip-Extends n src more = elim (Bool-cases (ltb (length src) n)) [
  | inl short ↦ rw short waits
  | inr enough ↦ rw enough (value (rw (longer enough, drop-append n src more (ground arith))))
]
  where
    longer : ltb (length src) n ≡ false → ltb (length (src ++ more)) n ≡ false
    longer h = ground (arith, length-append src more)

pub find_line-cons :
    (a : ℕ) (r : Bytes)
    → find_line (a ∷ r) ≡ (
        if a == 13 && starts_lf r
        then some ([], tail r)
        else Option.map (λ (found : Bytes × Bytes). (a ∷ found.0, found.1)) (find_line r))
unfolding find_line
find_line-cons a r = refl

-- A line that was found is the first one, whatever follows.
pub find_line-append :
    (src more line r : Bytes)
    → find_line src ≡ some (line, r)
    → find_line (src ++ more) ≡ some (line, r ++ more)
find_line-append [] more line r h = unfold find_line in cc
find_line-append (a ∷ []) more line r h = absurd (unfold find_line in ground arith)
find_line-append (a ∷ b ∷ s) more line r h = elim (Option-cases (find_line (b ∷ s))) [
  | inl lost ↦ ground (arith, lost, find_line-cons a (b ∷ s), find_line-cons a (b ∷ s ++ more))
  | inr ((l, t), found) ↦ ground (
    arith,
    found,
    find_line-cons a (b ∷ s),
    find_line-cons a (b ∷ s ++ more),
    find_line-append (b ∷ s) more l t found,
  )
]

pub get_line-Extends : (src more : Bytes) → Extends more (get_line src) (get_line (src ++ more))
unfolding get_line
get_line-Extends src more = elim (Option-cases (find_line src)) [
  | inl lost ↦ rw lost waits
  | inr ((l, t), found) ↦ rw (found, find_line-append src more l t found) (value refl)
]

module _ (atoi : Bytes → Option ℕ) where
  or_invalid-Extends :
      (n : Option ℕ) (r more : Bytes)
      → Extends more (or_invalid atoi n r) (or_invalid atoi n (r ++ more))
  or_invalid-Extends none r more = failed refl
  or_invalid-Extends (some n) r more = value refl

  pub get_decimal-Extends :
      (src more : Bytes) → Extends more (get_decimal atoi src) (get_decimal atoi (src ++ more))
  unfolding get_decimal
  get_decimal-Extends src more =
      Extends-bind _ _ (get_line-Extends src more) (λ line r. or_invalid-Extends (atoi line) r more)

  check_scalar-Extends :
      (b : ℕ) (src more : Bytes)
      → Extends more (check_scalar atoi b src) (check_scalar atoi b (src ++ more))
  unfolding check_scalar
  check_scalar-Extends b src more =
      Extends-if (b == b'+') (Extends-bind _ _ (get_line-Extends src more) (λ _ r. value refl)) (
        Extends-if (b == b'-') (Extends-bind _ _ (get_line-Extends src more) (λ _ r. value refl)) (
          Extends-if (b == b':')
            (Extends-bind _ _ (get_decimal-Extends src more) (λ _ r. value refl))
            (Extends-if (b == b'$')
              (Extends-bind _ _ (peek_u8-Extends src more) (λ p s.
                Extends-if (p == b'-') (skip-Extends 4 s more)
                  (Extends-bind _ _ (get_decimal-Extends s more) (λ len r. skip-Extends _ r more))))
              (failed refl))))

  -- With at least as much fuel, over more bytes.
  mutual
    unfolding check

    check-Extends :
        (f f' : ℕ) (src more : Bytes)
        → f ≤ f'
        → Extends more (check atoi f src) (check atoi f' (src ++ more))
    check-Extends zero f' src more h = spent
    check-Extends (suc f) zero src more h = absurd (omega arith)
    check-Extends (suc f) (suc f') src more h = Extends-bind _ _ (get_u8-Extends src more) (λ b r.
        Extends-elim (b == b'*')
          (Extends-bind _ _ (get_decimal-Extends r more)
            (λ n t. check_items-Extends f f' n t more (omega arith)))
          (check_scalar-Extends b r more))

    check_items-Extends :
        (f f' n : ℕ) (src more : Bytes)
        → f ≤ f'
        → Extends more (check_items atoi f n src) (check_items atoi f' n (src ++ more))
    check_items-Extends zero f' n src more h = spent
    check_items-Extends (suc f) zero n src more h = absurd (omega arith)
    check_items-Extends (suc f) (suc f') zero src more h = value refl
    check_items-Extends (suc f) (suc f') (suc n) src more h =
        Extends-bind _ _ (check-Extends f f' src more (omega arith))
          (λ _ r. check_items-Extends f f' n r more (omega arith))

  -- With no less fuel, bytes that arrive later change neither an answer of `check` that is not "incomplete" nor what
  -- it consumed.
  pub check-append :
      (f f' : ℕ) (src more : Bytes)
      → f ≤ f'
      → Extends more (check atoi f src) (check atoi f' (src ++ more))
  check-append = check-Extends
