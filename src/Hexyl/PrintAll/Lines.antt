-- ===== src/Hexyl/PrintAll/Lines.antt =====
-- lib.rs: whole lines and incomplete lines are as wide as the border, when no colours are written.
use reverse_rewrite.Common.{
  ℕ, suc, ◌+◌, ◌-◌, ◌*◌, ◌%◌, ◌^◌, ◌≤◌, ◌<◌, ◌≡◌, refl, sym, subst, ap, inl, inr, Bool, true, false,
  [], ◌∷◌, arith, if◌then◌else◌, length,
}
use reverse_rewrite.Common.Text.{Bytes}
use reverse_rewrite.Hexyl.Printer.{Printer, Squeezer, print, ignore, write, repeat}
use reverse_rewrite.Hexyl.Line.{print_bytes, print_from, print_chars, in_order}
use reverse_rewrite.Hexyl.Line.Width.{
  IsPlain, IsPlain-write, Shows, Adds, Adds-write, Adds-none, Adds-trans, length-repeat,
}
use reverse_rewrite.Hexyl.Line.Panels.{
  Reaches, print_from-Reaches, print_chars-Reaches, byte_column,
}
use reverse_rewrite.Hexyl.Line.Groups.{length-in_order}
use reverse_rewrite.Hexyl.Dump.{print_line, print_chars_if}
use reverse_rewrite.Hexyl.PrintAll.{print_last_line, last_chars}
use reverse_rewrite.Hexyl.PrintAll.Width.{
  line_columns, position_panel_width, panel_columns, print_bytes-Adds, char_panel-Adds,
}

Adds-then :
    (m n : ℕ) (p q : Printer) (f : Printer → Printer)
    → Adds m p q
    → ((s : Bytes) → Adds n (write s p) (f (write s p)))
    → Adds (m + n) p (f q)
Adds-then m n p q f (s, e, wide) next =
    Adds-trans m n p q (f q) (s, e, wide) (subst (λ q. Adds n q (f q)) (sym e) (next s))

if_Adds :
    (b : Bool) (n : ℕ) (p q : Printer)
    → Adds n p q
    → Adds (if b then n else 0) p (if b then q else p)
if_Adds true n p q h = h
if_Adds false n p q h = Adds-none p

-- Without colours, a line of whole panels adds to what is written the columns of the border and the
-- end of the line, and changes nothing else of the printer, whether the line is shown or marked as
-- the first of those left out, if the position with the display offset, modulo 2^64, is below 2^32
-- and so fits eight digits.
pub print_line-Adds :
    (p : Printer)
    → IsPlain p
    → Shows p.squeezer
    → length p.line_buf ≡ 8 * p.panels
    → (p.idx + p.display_offset) % 2 ^ 64 < 2 ^ 32
    → Adds (suc (line_columns p)) p (print_line p)
unfolding print_line
print_line-Adds p h k full small =
    let more =
      Adds-then _ _ p _ print_bytes (position_panel_width p h small)
        (λ s. print_bytes-Adds (write s p) (IsPlain-write s p h) k full) in
    let chars = Adds-then _ _ p _ print_chars_if more (λ s.
      if_Adds p.show_char_panel _ (write s p) _
        (char_panel-Adds (write s p) (IsPlain-write s p h) k full)) in
    let line =
      Adds-then _ 1 p _ (write (10 ∷ [])) chars (λ s. Adds-write (10 ∷ []) (write s p) 1 refl) in
    subst (λ n. Adds n p (print_line p)) (omega arith) line

Reaches-Adds : (a b : ℕ) (p q : Printer) → Reaches a b p q → Adds (b - a) p q
Reaches-Adds a b p q (m, e, adds) = subst (λ n. Adds n p q) (omega (arith, e)) adds

abbrev pub with_squeezer : Squeezer → Printer → Printer
with_squeezer squeezer p = record p { squeezer = squeezer }

IsPlain-with_squeezer :
    (squeezer : Squeezer) (p : Printer) → IsPlain p → IsPlain (with_squeezer squeezer p)
IsPlain-with_squeezer squeezer p h = record {
  colorless = h.colorless;
  some_panels = h.some_panels;
  groups = h.groups;
  hex_width = h.hex_width;
  offset_width = h.offset_width;
  char_width = h.char_width;
}

-- The squeezer set once something is written, or before.
Adds-with_squeezer :
    (m : ℕ) (squeezer : Squeezer) (p q : Printer)
    → Adds m p q
    → Adds m (with_squeezer squeezer p) (with_squeezer squeezer q)
Adds-with_squeezer m squeezer p q (s, e, wide) = (s, ap (with_squeezer squeezer) e, wide)

last_chars-Adds :
    (n : ℕ) (p : Printer)
    → IsPlain p
    → length p.line_buf ≡ n
    → n ≤ 8 * p.panels
    → Adds (p.panels * 9) (with_squeezer print p) (last_chars n p)
last_chars-Adds n p h e fits =
    let shown = with_squeezer ignore p in
    let filled = with_squeezer print p in
    let first = Reaches-Adds _ _ shown _ (
      print_chars-Reaches shown (length p.line_buf) 0 (IsPlain-with_squeezer ignore p h)
        (λ j inside. inr ((λ e. cc), omega arith))) in
    let all =
      Adds-then _ _ filled _ (print_chars (8 * p.panels - n) n)
        (Adds-with_squeezer _ print shown _ first)
        (λ s. Reaches-Adds _ _ (write s filled) _ (
          print_chars-Reaches (write s filled) (8 * p.panels - n) n
            (IsPlain-write s filled (IsPlain-with_squeezer print p h)) (λ j inside. inl refl))) in
    subst (λ m. Adds m filled (last_chars n p)) (omega (arith, e, fits)) all

begun-Adds :
    (p : Printer)
    → IsPlain p
    → Shows p.squeezer
    → Adds (byte_column p (length p.line_buf) - byte_column p 0) p (print_bytes p)
unfolding print_bytes
begun-Adds p h k =
    let buf = in_order p.endianness p p.line_buf in
    subst (λ n. Adds (byte_column p n - byte_column p 0) p (print_bytes p))
      (omega (arith, length-in_order p.endianness p p.line_buf))
      (Reaches-Adds _ _ p _ (print_from-Reaches p 0 buf h k))

-- Without colours, an incomplete line adds the columns of the border and the end of the line as
-- well, if the position with the display offset, modulo 2^64, is below 2^32 and so fits eight
-- digits: what is missing is filled up, and only the squeezer changes besides.
pub print_last_line-Adds :
    (n : ℕ) (p : Printer)
    → IsPlain p
    → length p.line_buf ≡ n
    → n ≤ 8 * p.panels
    → (p.idx + p.display_offset) % 2 ^ 64 < 2 ^ 32
    → Adds (suc (line_columns p)) (with_squeezer print p) (print_last_line n p)
unfolding print_last_line
print_last_line-Adds n p h e fits small =
    let shown = with_squeezer ignore p in
    let plain = IsPlain-with_squeezer ignore p h in
    let filled = with_squeezer print p in
    let plain' = IsPlain-with_squeezer print p h in
    let zeros = repeat (8 * p.panels - n) (0 ∷ []) in
    let whole : n + length zeros ≡ 8 * p.panels =
      omega (arith, length-repeat (8 * p.panels - n) (0 ∷ []), fits) in
    let begun =
      Adds-then _ (byte_column p (length p.line_buf) - byte_column p 0) shown _ print_bytes
        (position_panel_width shown plain small)
        (λ s. begun-Adds (write s shown) (IsPlain-write s shown plain) (λ e. cc)) in
    let bytes =
      Adds-then _ (byte_column p (n + length zeros) - byte_column p n) filled _ (print_from n zeros)
        (Adds-with_squeezer _ print shown _ begun)
        (λ s. Reaches-Adds _ _ (write s filled) _ (
          print_from-Reaches (write s filled) n zeros (IsPlain-write s filled plain') (λ e. cc))) in
    let chars =
      Adds-then _ _ filled _ (λ q. if p.show_char_panel then last_chars n q else q) bytes
        (λ s.
          if_Adds p.show_char_panel _ (write s filled) _
            (last_chars-Adds n (write s filled) (IsPlain-write s filled plain') e fits)) in
    let line =
      Adds-then _ 1 filled _ (write (10 ∷ [])) chars
        (λ s. Adds-write (10 ∷ []) (write s filled) 1 refl) in
    subst (λ m. Adds m filled (print_last_line n p))
      (omega (
        arith,
        e,
        fits,
        (panel_columns p h).0,
        (panel_columns p h).1,
        ap (byte_column p) e,
        (print_from-Reaches filled n zeros plain' (λ e. cc)).1,
        ap (byte_column p) whole,
      ))
      line
