-- ===== src/Hexyl/Dump/Hidden.antt =====
-- lib.rs: only a line that repeats the line before it is left out.
use reverse_rewrite.Common.{
  ℕ, ◌+◌, ◌*◌, ◌<◌, ◌≡◌, ◌≢◌, refl, sym, subst, inl, inr, Bool, true, false, ◌&&◌, ◌||◌, [], ◌∷◌,
  arith, if◌then◌else◌, Bool-cases, length,
}
use reverse_rewrite.Common.Text.{Bytes}
use reverse_rewrite.Hexyl.Line.{is_print, is_delete}
use reverse_rewrite.Hexyl.Printer.{Printer, Squeezer, print, delete, ignore, disabled}
use reverse_rewrite.Hexyl.Dump.{
  is_repeated, first, ones, squeezes, after_line, note_repeat, finish_line, print_line,
  checked_line, check_squeeze, take_line,
}
use reverse_rewrite.Hexyl.Dump.Keeps.{Keeps-print_line}
use reverse_rewrite.Hexyl.Dump.Reads.{check_squeeze-Sized}
use reverse_rewrite.Hexyl.Dump.Squeezing.{
  IsBytes, IsRun, IsRun-eq, Noted, Squeezes, all_chunks-IsRun,
}

module _ (line : Bytes) (n : ℕ) (h : IsBytes line) (e : length line ≡ 8 * n) where
  repeated-IsRun : (b v : ℕ) → b < 256 → v ≡ b * ones → is_repeated v line ≡ true → IsRun b line
  repeated-IsRun b v small is_v same =
      all_chunks-IsRun (length line) n b line small h e (omega (arith, e))
        (subst (λ v. is_repeated v line ≡ true) is_v same)

  repeated_again :
      (prev : Bytes) (v : ℕ)
      → length prev ≡ length line
      → Noted prev v
      → is_repeated v line ≡ true
      → Noted line v × (line ≡ prev)
  repeated_again prev v wide (b, small, run, is_v) same =
      let again = repeated-IsRun b v small is_v same in
      ((b, small, again, is_v), IsRun-eq b line prev again run (sym wide))

first-IsByte : (s : Bytes) → IsBytes s → first s < 256
first-IsByte [] h = omega arith
first-IsByte (b ∷ s) (k, h) = k

-- A line that is passed over is the line before; one that is printed is not printed as deleted, and
-- as a mark only if it has been noted.
Checked : Printer → Bytes → Bool × Printer → Type 0
Checked p prev (true, q) =
    Noted p.line_buf p.squeeze_byte
    × (p.line_buf ≡ prev)
    × (q.squeezer ≡ delete)
    × (q.written ≡ p.written)
    × (q.squeeze_byte ≡ p.squeeze_byte)
Checked p prev (false, q) =
    (q.line_buf ≡ p.line_buf)
    × (q.squeezer ≢ delete)
    × (q.squeezer ≡ print → Noted p.line_buf q.squeeze_byte)

check_as-Checked :
    (s : Squeezer) (p : Printer) (prev : Bytes)
    → p.squeezer ≡ s
    → IsBytes p.line_buf
    → length p.line_buf ≡ 8 * p.panels
    → length prev ≡ length p.line_buf
    → Squeezes s prev p.squeeze_byte
    → (b : Bool) → (b ≡ true → is_repeated p.squeeze_byte p.line_buf ≡ true)
    → Checked p prev (if is_print s || is_delete s then checked_line b s p else (false, p))
unfolding Checked
check_as-Checked print p prev is_s h e wide noted_prev true same =
    let again =
      repeated_again p.line_buf p.panels h e prev p.squeeze_byte wide noted_prev (same refl) in
    (refl, (λ k. cc), λ k. again.0)
check_as-Checked print p prev is_s h e wide noted_prev false same = (refl, (λ k. cc), λ k. cc)
check_as-Checked delete p prev is_s h e wide noted_prev true same =
    let again =
      repeated_again p.line_buf p.panels h e prev p.squeeze_byte wide noted_prev (same refl) in
    (again.0, again.1, is_s, refl, refl)
check_as-Checked delete p prev is_s h e wide noted_prev false same = (refl, (λ k. cc), λ k. cc)
check_as-Checked ignore p prev is_s h e wide noted_prev b same = (refl, (λ k. cc), λ k. cc)
check_as-Checked disabled p prev is_s h e wide noted_prev b same = (refl, (λ k. cc), λ k. cc)

-- The squeezer once a line is printed.
after_line-Squeezes :
    (s : Squeezer) (line : Bytes) (v : ℕ)
    → s ≢ delete
    → (s ≡ print → Noted line v)
    → Squeezes (after_line s) line v
after_line-Squeezes print line v h k = k refl
after_line-Squeezes delete line v h k = absurd (h refl)
after_line-Squeezes ignore line v h k = tt
after_line-Squeezes disabled line v h k = tt

and_second : (a b : Bool) → (a && b) ≡ true → b ≡ true
and_second true b h = h
and_second false b h = cc

note_repeat-Squeezes :
    (p : Printer)
    → IsBytes p.line_buf
    → length p.line_buf ≡ 8 * p.panels
    → Squeezes p.squeezer p.line_buf p.squeeze_byte
    → Squeezes (note_repeat p).squeezer p.line_buf (note_repeat p).squeeze_byte
unfolding note_repeat
note_repeat-Squeezes p h e k =
    let v = first p.line_buf * ones in
    elim (Bool-cases (squeezes p.squeezer && is_repeated v p.line_buf)) [
      | inl same ↦
          let b = first p.line_buf in
          let small = first-IsByte p.line_buf h in
          let repeated : is_repeated v p.line_buf ≡ true = and_second _ _ same in
          rw same (b, small, repeated-IsRun p.line_buf p.panels h e b v small refl repeated, refl)
      | inr other ↦ rw other k
    ]

finish_line-Squeezes :
    (p : Printer)
    → IsBytes p.line_buf
    → length p.line_buf ≡ 8 * p.panels
    → p.squeezer ≢ delete
    → (p.squeezer ≡ print → Noted p.line_buf p.squeeze_byte)
    → Squeezes
        (finish_line (print_line p)).squeezer
        p.line_buf
        (finish_line (print_line p)).squeeze_byte
unfolding finish_line
finish_line-Squeezes p h e shows known =
    let q = print_line p in
    let kept = Keeps-print_line p in
    let r : Printer = record q { idx = q.idx + 8 * q.panels; squeezer = after_line q.squeezer } in
    let squeezes : Squeezes (after_line q.squeezer) q.line_buf q.squeeze_byte =
      rw (kept.squeezer, kept.squeeze_byte, kept.line_buf)
        (after_line-Squeezes p.squeezer p.line_buf p.squeeze_byte shows known) in
    subst (λ s. Squeezes (note_repeat r).squeezer s (note_repeat r).squeeze_byte) kept.line_buf
      (note_repeat-Squeezes r (rw kept.line_buf h) (rw (kept.line_buf, kept.panels) e) squeezes)

-- the line taken, by what the check came to
Taken : Printer → Bytes → Bool × Printer → Type 0
Taken p prev (skipped, q) =
    let r = if skipped then q else finish_line (print_line q) in
    Squeezes r.squeezer p.line_buf r.squeeze_byte
    × (skipped ≡ true → (p.line_buf ≡ prev) × (r.written ≡ p.written))

Checked-Taken :
    (p : Printer) (prev : Bytes) (c : Bool × Printer)
    → IsBytes p.line_buf
    → length c.1.line_buf ≡ 8 * c.1.panels
    → Checked p prev c
    → Taken p prev c
unfolding Checked Taken
Checked-Taken p prev (true, q) h e (known, same, deletes, text, value) =
    (rw (deletes, value) known, λ skipped. (same, text))
Checked-Taken p prev (false, q) h e (line, shows, known) = (
  subst
      (λ s.
        Squeezes (finish_line (print_line q)).squeezer s (finish_line (print_line q)).squeeze_byte)
      line (finish_line-Squeezes q (rw line h) e shows (λ k. rw line (known k))),
  λ skipped. cc,
)

-- Once the squeezer knows the line before, it knows the line that the loop takes next, for lines of
-- bytes and of the same length; and if that line is passed over, it is the line before, byte for
-- byte, and nothing is written.
pub take_line-Squeezes :
    (p : Printer) (prev : Bytes)
    → IsBytes p.line_buf
    → length p.line_buf ≡ 8 * p.panels
    → length prev ≡ length p.line_buf
    → Squeezes p.squeezer prev p.squeeze_byte
    → Squeezes (take_line p).squeezer p.line_buf (take_line p).squeeze_byte
      × ((check_squeeze p).0 ≡ true → (p.line_buf ≡ prev) × ((take_line p).written ≡ p.written))
unfolding take_line check_squeeze Taken
take_line-Squeezes p prev h e wide known =
    let sizes = check_squeeze-Sized p in
    Checked-Taken p prev (check_squeeze p) h (rw (sizes.0, sizes.1) e) (
      check_as-Checked p.squeezer p prev refl h e wide known (is_repeated p.squeeze_byte p.line_buf)
        (λ same. same))
