-- ===== src/Hexyl/Dump/Fill.antt =====
-- lib.rs: the line buffer, filled by reads of any size, holds the bytes of the input in order.
use reverse_rewrite.Common.{
  ℕ, zero, suc, ◌+◌, ◌-◌, ◌*◌, ◌≤◌, ◌<◌, ◌≡◌, refl, sym, ap, ◌∙◌, inl, inr, Option, none, some,
  List, [], ◌∷◌, ◌++◌, append_assoc, append-nil, arith, leb, Bool-cases, length, take, drop,
  length-append, length-take, length-drop, take-append, drop-append,
}
use reverse_rewrite.Common.Text.{Bytes}
use reverse_rewrite.Hexyl.Line.Groups.{take_all, drop_all, take_front}
use reverse_rewrite.Hexyl.Printer.{Printer}
use reverse_rewrite.Hexyl.Dump.{Arrival, arrived, failed, fill}

abbrev pub gathered : List Arrival → Bytes
gathered [] = []
gathered (failed ∷ es) = gathered es
gathered (arrived bs ∷ es) = bs ++ gathered es

abbrev pub NoFailure : List Arrival → Type 0
NoFailure [] = Unit
NoFailure (failed ∷ es) = ⊥
NoFailure (arrived bs ∷ es) = NoFailure es

abbrev pub with_line : Bytes → Printer → Printer
with_line bs p = record p { line_buf = bs }

-- The rest of the line, taken from all the bytes that are left.
unfoldable pub Fills : ℕ → Printer → Bytes → Option ℕ × (Printer × List Arrival) → Type 0
Fills n p bs (some m, (q, es)) =
    (n + length bs < 8 * p.panels)
    × (m ≡ n + length bs)
    × (q ≡ with_line (take n p.line_buf ++ bs) p)
Fills n p bs (none, (q, es)) =
    (8 * p.panels ≤ n + length bs)
    × (q ≡ with_line (take n p.line_buf ++ take (8 * p.panels - n) bs) p)
    × (gathered es ≡ drop (8 * p.panels - n) bs)
    × NoFailure es

take_past :
    (n : ℕ) (xs ys : Bytes) → length xs ≤ n → take n (xs ++ ys) ≡ xs ++ take (n - length xs) ys
take_past n [] ys h = let e : n - 0 ≡ n = omega arith in rw e refl
take_past zero (x ∷ xs) ys h = absurd (omega arith)
take_past (suc n) (x ∷ xs) ys h =
    let e : suc n - suc (length xs) ≡ n - length xs = omega arith in
    rw e (ap (λ t. x ∷ t) (take_past n xs ys (omega arith)))

drop_past : (n : ℕ) (xs ys : Bytes) → length xs ≤ n → drop n (xs ++ ys) ≡ drop (n - length xs) ys
drop_past n [] ys h = let e : n - 0 ≡ n = omega arith in rw e refl
drop_past zero (x ∷ xs) ys h = absurd (omega arith)
drop_past (suc n) (x ∷ xs) ys h =
    let e : suc n - suc (length xs) ≡ n - length xs = omega arith in
    rw e (drop_past n xs ys (omega arith))

-- the buffer once a read has written into it from n on
abbrev overwritten : ℕ → Bytes → Bytes → Bytes
overwritten n buf bs =
    let space = length buf - n in
    take n buf ++ (take space bs ++ drop (n + length (take space bs)) buf)

overwritten_full :
    (n : ℕ) (buf bs : Bytes)
    → n < length buf
    → length buf ≤ n + length bs
    → overwritten n buf bs ≡ take n buf ++ take (length buf - n) bs
overwritten_full n buf bs h k =
    rw
      (
        drop_all (n + length (take (length buf - n) bs)) buf
            (omega (arith, length-take (length buf - n) bs)),
        append-nil (take (length buf - n) bs),
      )
      refl

module _ (n : ℕ) (buf bs : Bytes) (h : n + length bs < length buf) where
  overwritten_part : overwritten n buf bs ≡ (take n buf ++ bs) ++ drop (n + length bs) buf
  overwritten_part =
      rw (take_all (length buf - n) bs (omega arith))
        (sym (append_assoc (take n buf) bs (drop (n + length bs) buf)))

  part_length : length (take n buf ++ bs) ≡ n + length bs
  part_length = omega (arith, length-append (take n buf) bs, length-take n buf)

  take-overwritten : take (n + length bs) (overwritten n buf bs) ≡ take n buf ++ bs
  take-overwritten =
      rw overwritten_part (take_front (n + length bs) (take n buf ++ bs) _ part_length)

  length-overwritten : length (overwritten n buf bs) ≡ length buf
  length-overwritten = rw overwritten_part (
      omega (
        arith,
        part_length,
        length-append (take n buf ++ bs) (drop (n + length bs) buf),
        length-drop (n + length bs) buf,
      ))

Fills-more :
    (n : ℕ) (p : Printer) (bs rest : Bytes) (r : Option ℕ × (Printer × List Arrival))
    → n + length bs < length p.line_buf
    → length p.line_buf ≡ 8 * p.panels
    → Fills (n + length bs) (with_line (overwritten n p.line_buf bs) p) rest r
    → Fills n p (bs ++ rest) r
unfolding Fills
Fills-more n p bs rest (some m, (q, es)) h e (fits, count, line) = (
  omega (arith, length-append bs rest),
  omega (arith, length-append bs rest, count),
  line
      ∙ ap (λ t. with_line t p)
          (ap (λ t. t ++ rest) (take-overwritten n p.line_buf bs h)
            ∙ append_assoc (take n p.line_buf) bs rest),
)
Fills-more n p bs rest (none, (q, es)) h e (full, line, left, safe) =
    let room : length bs ≤ 8 * p.panels - n = omega (arith, e) in
    let same : 8 * p.panels - (n + length bs) ≡ 8 * p.panels - n - length bs = omega arith in
    (
      omega (arith, length-append bs rest),
      line
          ∙ ap (λ t. with_line t p)
              (rw
                (
                  take-overwritten n p.line_buf bs h,
                  same,
                  take_past (8 * p.panels - n) bs rest room,
                )
                (append_assoc (take n p.line_buf) bs _)),
      left ∙ rw (drop_past (8 * p.panels - n) bs rest room, same) refl,
      safe,
    )

pub fill-Fills :
    (n : ℕ) (p : Printer) (es : List Arrival)
    → NoFailure es
    → length p.line_buf ≡ 8 * p.panels
    → n < 8 * p.panels
    → Fills n p (gathered es) (fill n p es)
unfolding fill Fills
fill-Fills n p [] h e small =
    (omega arith, omega arith, ap (λ s. with_line s p) (sym (append-nil (take n p.line_buf))))
fill-Fills n p (failed ∷ es) h e small = absurd h
fill-Fills n p (arrived bs ∷ es) h e small =
    elim (Bool-cases (leb (8 * p.panels) (n + length bs))) [
      | inl full ↦
          let room : 8 * p.panels - n ≤ length bs = ground arith in
          let rest = gathered es in
          let line : take n p.line_buf ++ take (length p.line_buf - n) bs
              ≡ take n p.line_buf ++ take (8 * p.panels - n) (bs ++ rest) =
            rw (e, take-append (8 * p.panels - n) bs rest room) refl in
          let left : drop (length p.line_buf - n) bs ++ rest
              ≡ drop (8 * p.panels - n) (bs ++ rest) =
            rw (e, drop-append (8 * p.panels - n) bs rest room) refl in
          rw full (
            omega (arith, length-append bs rest, room),
            ap (λ t. with_line t p)
                (overwritten_full n p.line_buf bs (omega (arith, e)) (omega (arith, e, room))
                  ∙ line),
            left,
            h,
          )
      | inr more ↦
          let part : n + length bs < length p.line_buf = ground (arith, e) in
          rw more (
            Fills-more n p bs (gathered es) _ part e (
              fill-Fills (n + length bs) (with_line (overwritten n p.line_buf bs) p) es h
                (length-overwritten n p.line_buf bs part ∙ e) (omega (arith, e, part))))
    ]
