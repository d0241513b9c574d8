-- ===== src/Redis/Frame/Suffices.antt =====
-- frame.rs: `Frame::check` passes only when `Frame::parse` has all the bytes that it will use.
use reverse_rewrite.Common.{
  ℕ, zero, suc, ◌+◌, ◌*◌, ◌%◌, ◌^◌, ◌≤◌, ◌<◌, ◌≡◌, refl, Bool, true, false, Option, ◌∷◌, ◌++◌,
  arith, ◌==◌, if◌then◌else◌, length, subst, drop-append, take-append, length-append,
}
use reverse_rewrite.Common.Text.{Bytes, bytes_eq, codes}
use reverse_rewrite.Common.Outcome.{ok, err, panic, out_of_fuel, ◌>>=◌}
use reverse_rewrite.Redis.Frame.{
  FrameResult, other, invalid_format, usize_mod, Frame, simple, error, integer, null, array, nil,
  cons, skip, find_line, get_line, utf8_line, check_scalar, check, check_items, parse_bulk,
  parse_scalar, parse, parse_items,
}
use reverse_rewrite.Redis.Frame.Fuel.{
  Leaves, get_u8-Leaves, peek_u8-Leaves, get_line-Leaves, get_decimal-Leaves, check_total,
}
use reverse_rewrite.Redis.Frame.Stream.{
  Extends, value, failed, waits, spent, get_u8-Extends, peek_u8-Extends, get_line-Extends,
  get_decimal-Extends,
}

-- `c` is a check and `p` a parse of the same bytes, `p'` the parse with `more` behind them.
pub record Suffices {A : Type 0} (more : Bytes) (c : FrameResult (Unit {0} × Bytes))
    (p p' : FrameResult (A × Bytes)) : Type 0 where
  pub at :
      (r : Bytes) (a : A) (r' : Bytes)
      → c ≡ ok (tt, r)
      → p' ≡ ok (a, r')
      → (p ≡ ok (a, r)) × (r' ≡ r ++ more)

module _ {A : Type 0} {more : Bytes} where
  Suffices-ok :
      (r : Bytes) (o : FrameResult A)
      → Suffices more (ok (tt, r)) (o >>= λ a. ok (a, r)) (o >>= λ a. ok (a, r ++ more))
  Suffices-ok r (ok b) = record { at = λ s a r' h k. (cc, cc) }
  Suffices-ok r (err e) = record { at = λ s a r' h k. (cc, cc) }
  Suffices-ok r panic = record { at = λ s a r' h k. (cc, cc) }
  Suffices-ok r out_of_fuel = record { at = λ s a r' h k. (cc, cc) }

  Suffices-if :
      (b : Bool) {c c₁ : FrameResult (Unit {0} × Bytes)} {p q p' q' : FrameResult (A × Bytes)}
      → Suffices more c p p'
      → Suffices more c₁ q q'
      → Suffices more (if b then c else c₁) (if b then p else q) (if b then p' else q')
  Suffices-if true hp hq = hp
  Suffices-if false hp hq = hq

  Suffices-elim :
      (b : Bool) {c c₁ : FrameResult (Unit {0} × Bytes)} {p q p' q' : FrameResult (A × Bytes)}
      → Suffices more c p p'
      → Suffices more c₁ q q'
      → Suffices more
          (elim b [ true ↦ c | false ↦ c₁ ])
          (elim b [ true ↦ p | false ↦ q ])
          (elim b [ true ↦ p' | false ↦ q' ])
  Suffices-elim true hp hq = hp
  Suffices-elim false hp hq = hq

module _ {A C : Type 0} {more : Bytes} where
  -- the check and the parse begin with one reader
  Suffices-reader :
      {n : ℕ} {x y : FrameResult (C × Bytes)} (k : C × Bytes → FrameResult (Unit {0} × Bytes))
      (f g : C × Bytes → FrameResult (A × Bytes))
      → Extends more x y
      → Leaves n x
      → ((a : C) (r : Bytes)
          → length r < n
          → Suffices more (k (a, r)) (f (a, r)) (g (a, r ++ more)))
      → Suffices more (x >>= k) (x >>= f) (y >>= g)
  Suffices-reader k f g (value {a = a} {r = r} e) (Leaves.value l) h = rw e (h a r l)
  Suffices-reader k f g (failed e) l h = record { at = λ s a r' u v. (cc, cc) }
  Suffices-reader k f g waits l h = record { at = λ s a r' u v. (cc, cc) }
  Suffices-reader k f g spent l h = record { at = λ s a r' u v. (cc, cc) }

  -- one check after another, one parse after another
  Suffices-bind :
      {n : ℕ} (c : FrameResult (Unit {0} × Bytes)) (p p' : FrameResult (C × Bytes))
      (k : Unit {0} × Bytes → FrameResult (Unit {0} × Bytes))
      (f g : C × Bytes → FrameResult (A × Bytes))
      → Suffices more c p p'
      → Leaves n c
      → ((a : C) (r : Bytes)
          → length r < n
          → Suffices more (k (tt, r)) (f (a, r)) (g (a, r ++ more)))
      → Suffices more (c >>= k) (p >>= f) (p' >>= g)
  Suffices-bind (ok (_, r₁)) p (ok (b, r₂)) k f g s (Leaves.value l) h =
      let (e, e₂) = s.at r₁ b r₂ refl refl in
      record {
        at = λ r a r' u v. rw e ((h b r₁ l).at r a r' u (subst (λ t. g (b, t) ≡ ok (a, r')) e₂ v));
      }
  Suffices-bind c p p' k f g s l h = record { at = λ r a r' u v. (cc, cc) }

  Suffices-map :
      (c : FrameResult (Unit {0} × Bytes)) (p p' : FrameResult (C × Bytes)) (m : C → A)
      → Suffices more c p p'
      → Suffices more c (p >>= λ (a, r). ok (m a, r)) (p' >>= λ (a, r). ok (m a, r))
  Suffices-map (ok (_, r₁)) p (ok (b, r₂)) m s =
      let (e, e₂) = s.at r₁ b r₂ refl refl in record { at = λ r a r' u v. (rw e (cc), cc) }
  Suffices-map c p p' m s = record { at = λ r a r' u v. (cc, cc) }

-- A byte sequence in memory is shorter than this.
abbrev pub isize_mod : ℕ
isize_mod = 2 ^ 63

-- a bulk string: the same bytes are skipped that are copied
parse_bulk-Suffices :
    (len : ℕ) (r more : Bytes)
    → length r + length more < isize_mod
    → Suffices more (skip ((len + 2) % usize_mod) r) (parse_bulk len r) (parse_bulk len (r ++ more))
unfolding parse_bulk skip
parse_bulk-Suffices len r more fits = record {
  at = λ s a r' u v. (
    ground (arith, length-append r more, take-append len r more),
    ground (arith, length-append r more, drop-append ((len + 2) % usize_mod) r more),
  );
}

-- "$-": four bytes are there, and the line that `parse` wants is one of those bytes
null-Suffices :
    (s more : Bytes)
    → Suffices more
        (skip 4 s)
        (get_line s >>= λ (line, r).
          if bytes_eq line (codes "-1") then ok (null, r) else err (other invalid_format))
        (get_line (s ++ more) >>= λ (line, r).
          if bytes_eq line (codes "-1") then ok (null, r) else err (other invalid_format))
unfolding skip get_line find_line
null-Suffices (a ∷ b ∷ c ∷ d ∷ s) more = record { at = λ r x r' u v. ground arith }
null-Suffices _ more = record { at = λ r x r' u v. (absurd (ground arith), absurd (ground arith)) }

utf8_line-Suffices :
    (line r more : Bytes) (make : Bytes → Frame)
    → Suffices more
        (ok (tt, r))
        (utf8_line line >>= λ s. ok (make s, r))
        (utf8_line line >>= λ s. ok (make s, r ++ more))
unfolding utf8_line
utf8_line-Suffices line r more make = record { at = λ s a r' u v. (ground arith, ground arith) }

value-Suffices :
    (a : Frame) (r more : Bytes) → Suffices more (ok (tt, r)) (ok (a, r)) (ok (a, r ++ more))
value-Suffices a r more = Suffices-ok r (ok a)

panic-Suffices :
    {more : Bytes} {c : FrameResult (Unit {0} × Bytes)} {p : FrameResult (Frame × Bytes)}
    → Suffices more c p panic
panic-Suffices = record { at = λ s a r' u v. (cc, cc) }

module _ (atoi : Bytes → Option ℕ) where
  check_scalar-Suffices :
      (b : ℕ) (src more : Bytes)
      → length src + length more < isize_mod
      → Suffices more
          (check_scalar atoi b src)
          (parse_scalar atoi b src)
          (parse_scalar atoi b (src ++ more))
  unfolding check_scalar parse_scalar
  check_scalar-Suffices b src more fits =
      Suffices-if (b == b'+')
        (Suffices-reader _ _ _ (get_line-Extends src more) (get_line-Leaves src)
          (λ l r _. utf8_line-Suffices l r more simple))
        (Suffices-if (b == b'-')
          (Suffices-reader _ _ _ (get_line-Extends src more) (get_line-Leaves src)
            (λ l r _. utf8_line-Suffices l r more error))
          (Suffices-if (b == b':')
            (Suffices-reader _ _ _ (get_decimal-Extends atoi src more) (get_decimal-Leaves atoi src)
              (λ n r _. value-Suffices (integer n) r more))
            (Suffices-if (b == b'$')
              (Suffices-reader _ _ _ (peek_u8-Extends src more) (peek_u8-Leaves src) (λ p s h.
                Suffices-if (p == b'-') (null-Suffices s more) (
                  Suffices-reader _ _ _ (get_decimal-Extends atoi s more)
                    (get_decimal-Leaves atoi s)
                    (λ len r k. parse_bulk-Suffices len r more (omega arith)))))
              panic-Suffices)))

  mutual
    unfolding check parse

    check_by_fuel :
        (f f' : ℕ) (src more : Bytes)
        → 2 * length src < f
        → f ≤ f'
        → length src + length more < isize_mod
        → Suffices more (check atoi f src) (parse atoi f src) (parse atoi f' (src ++ more))
    check_by_fuel zero f' src more enough le fits = absurd (omega arith)
    check_by_fuel (suc f) zero src more enough le fits = absurd (omega arith)
    check_by_fuel (suc f) (suc f') src more enough le fits =
        Suffices-reader _ _ _ (get_u8-Extends src more) (get_u8-Leaves src) (λ b r h.
          Suffices-elim (b == b'*')
            (Suffices-reader _ _ _ (get_decimal-Extends atoi r more) (get_decimal-Leaves atoi r)
              (λ n t k.
                Suffices-map _ _ _ array
                  (items_by_fuel f f' n t more (omega arith) (omega arith) (omega arith))))
            (check_scalar-Suffices b r more (omega arith)))

    items_by_fuel :
        (f f' n : ℕ) (src more : Bytes)
        → 2 * length src + 1 < f
        → f ≤ f'
        → length src + length more < isize_mod
        → Suffices more
            (check_items atoi f n src)
            (parse_items atoi f n src)
            (parse_items atoi f' n (src ++ more))
    items_by_fuel zero f' n src more enough le fits = absurd (omega arith)
    items_by_fuel (suc f) zero n src more enough le fits = absurd (omega arith)
    items_by_fuel (suc f) (suc f') zero src more enough le fits = Suffices-ok src (ok nil)
    items_by_fuel (suc f) (suc f') (suc n) src more enough le fits =
        Suffices-bind _ _ _ _ _ _
          (check_by_fuel f f' src more (omega arith) (omega arith) (omega arith))
          (check_total atoi f src (omega arith))
          (λ x r k.
            Suffices-map _ _ _ (cons x)
              (items_by_fuel f f' n r more (omega arith) (omega arith) (omega arith)))

  -- With enough fuel and fewer than 2^63 bytes, when `check` passes on the bytes at hand, and `parse` succeeds with any bytes `more` behind
  -- them, then `parse` succeeds on the bytes at hand alone, with the same frame, and it consumes
  -- exactly the bytes that `check` did.
  pub check-Suffices :
      (f f' : ℕ) (src more : Bytes)
      → 2 * length src < f
      → f ≤ f'
      → length src + length more < isize_mod
      → Suffices more (check atoi f src) (parse atoi f src) (parse atoi f' (src ++ more))
  check-Suffices = check_by_fuel
