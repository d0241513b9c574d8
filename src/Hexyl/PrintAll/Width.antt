-- ===== src/Hexyl/PrintAll/Width.antt =====
-- lib.rs: every line is as wide as the border, when no colours are written.
use reverse_rewrite.Common.{
  ℕ, zero, suc, ◌+◌, ◌-◌, ◌*◌, ◌/◌, ◌%◌, ◌^◌, ◌≤◌, ◌<◌, ◌≡◌, refl, ◌∙◌, subst, ap, inl, inr, Bool,
  true, [], ◌∷◌, ◌++◌, arith, ◌==◌, if◌then◌else◌, Bool-cases, length, length-append,
}
use reverse_rewrite.Common.Text.{Bytes, codes}
use reverse_rewrite.Hexyl.Printer.{Printer, border, BorderElements, panel_sz, repeat, outer_sep}
use reverse_rewrite.Hexyl.Byte.{color_reset}
use reverse_rewrite.Hexyl.Line.{
  be_bytes, skip_zeros, concat_map, is_print, position, print_position_panel, print_bytes,
  print_from, print_char_panel, position_text, in_order,
}
use reverse_rewrite.Hexyl.Line.Width.{IsPlain, Shows, Adds, Adds-write, length-repeat, if_false}
use reverse_rewrite.Hexyl.Line.Panels.{print_from-Reaches, print_chars-Reaches, byte_column}
use reverse_rewrite.Hexyl.Line.Groups.{length-in_order}

-- The columns of a line: the position between separators, and the panels.
abbrev pub line_columns : Printer → ℕ
line_columns p =
    (if p.show_position_panel then 10 else 1)
    + (p.panels * (panel_sz p + 1) + (if p.show_char_panel then p.panels * 9 else 0))

panels_step : (n w : ℕ) → 1 ≤ n → n * w ≡ (n - 1) * w + w
panels_step zero w h = absurd (omega arith)
panels_step (suc n) w h = let e : suc n - 1 ≡ n = omega arith in rw e (omega arith)

border_parts :
    (position chars : Bool) (n w : ℕ) (h8 c wide panels more ending : Bytes)
    → 1 ≤ n
    → length h8 ≡ 8
    → length c ≡ 1
    → length wide ≡ w
    → length panels ≡ (n - 1) * (w + 1)
    → length more ≡ (n - 1) * 9
    → length ending ≡ 2
    → suc (
        length (
          (if position then h8 ++ c else [])
          ++ (panels
              ++ ((if chars then wide ++ c else wide)
                  ++ ((if chars then more ++ h8 else []) ++ ending)))))
      ≡ suc ((if position then 10 else 1) + (n * (w + 1) + (if chars then n * 9 else 0)))
border_parts position chars n w h8 c wide panels more ending h e1 e2 e3 e4 e5 e6 =
    let begin = if position then h8 ++ c else [] in
    let turn = if chars then wide ++ c else wide in
    let close = if chars then more ++ h8 else [] in
    grind (
      arith,
      h,
      e1,
      e2,
      e3,
      e4,
      e5,
      e6,
      length-append begin (panels ++ (turn ++ (close ++ ending))),
      length-append panels (turn ++ (close ++ ending)),
      length-append turn (close ++ ending),
      length-append close ending,
      length-append h8 c,
      length-append wide c,
      length-append more h8,
      panels_step n (w + 1) h,
    )

repeat_width : (n w : ℕ) (s : Bytes) → length s ≡ w → length (repeat n s) ≡ n * w
repeat_width n w s h = subst (λ v. length (repeat n s) ≡ n * v) h (length-repeat n s)

-- A border is as wide as the columns of a line, and ends its line.
pub length-border :
    (p : Printer) (e : BorderElements) → IsPlain p → length (border p e) ≡ suc (line_columns p)
unfolding border
length-border p e h =
    let c = e.column_separator ∷ [] in
    let h8 = repeat 8 (e.horizontal_line ∷ []) in
    let wide = repeat (panel_sz p) (e.horizontal_line ∷ []) in
    let width : length wide ≡ panel_sz p =
      repeat_width (panel_sz p) 1 (e.horizontal_line ∷ []) refl ∙ omega arith in
    let panels = repeat (p.panels - 1) (wide ++ c) in
    let chars = repeat (p.panels - 1) (h8 ++ c) in
    let ending = e.right_corner ∷ 10 ∷ [] in
    border_parts p.show_position_panel p.show_char_panel p.panels (panel_sz p) h8 c wide panels
      chars ending h.some_panels refl refl width
      (repeat_width (p.panels - 1) (panel_sz p + 1) (wide ++ c)
        (omega (arith, length-append wide c)))
      (repeat_width (p.panels - 1) 9 (h8 ++ c) refl) refl

skip_zeros-be_bytes : (n : ℕ) → n < 2 ^ 32 → skip_zeros 4 (be_bytes 8 n) ≡ be_bytes 4 n
skip_zeros-be_bytes n h =
    let a : (n / 256 / 256 / 256 / 256 / 256 / 256 / 256 % 256 == 0) ≡ true = ground arith in
    let b : (n / 256 / 256 / 256 / 256 / 256 / 256 % 256 == 0) ≡ true = ground arith in
    let c : (n / 256 / 256 / 256 / 256 / 256 % 256 == 0) ≡ true = ground arith in
    let d : (n / 256 / 256 / 256 / 256 % 256 == 0) ≡ true = ground arith in rw (a, b, c, d) refl

length-concat_map :
    (f : ℕ → Bytes) (w : ℕ) (s : Bytes)
    → ((b : ℕ) → length (f b) ≡ w)
    → length (concat_map f s) ≡ length s * w
length-concat_map f w [] h = omega arith
length-concat_map f w (b ∷ s) h =
    omega (arith, h b, length-append (f b) (concat_map f s), length-concat_map f w s h)

pub position_width :
    (p : Printer)
    → IsPlain p
    → (p.idx + p.display_offset) % 2 ^ 64 < 2 ^ 32
    → length (position p) ≡ 8
unfolding position
position_width p h small = rw (skip_zeros-be_bytes _ small) (
    length-concat_map p.byte_hex_panel_g 2 (be_bytes 4 ((p.idx + p.display_offset) % 2 ^ 64))
      h.offset_width)

abbrev reset_of : Printer → Bytes
reset_of p = if p.show_color then color_reset else []

no_reset : (p : Printer) → IsPlain p → reset_of p ≡ []
no_reset p h = if_false p.show_color color_reset [] h.colorless

position_text_width :
    (p : Printer)
    → IsPlain p
    → (p.idx + p.display_offset) % 2 ^ 64 < 2 ^ 32
    → length (position_text p) ≡ 8
position_text_width p h small = elim (Bool-cases (is_print p.squeezer)) [
  | inl squeezed ↦ rw squeezed (
      length-append (b'*' ∷ reset_of p) (codes "       ")
      ∙ ap (λ s. length (b'*' ∷ s) + 7) (no_reset p h))
  | inr shown ↦ rw shown (
      length-append (position p) (reset_of p)
      ∙ omega (arith, position_width p h small, ap length (no_reset p h)))
]

pub position_panel_width :
    (p : Printer)
    → IsPlain p
    → (p.idx + p.display_offset) % 2 ^ 64 < 2 ^ 32
    → Adds (if p.show_position_panel then 10 else 1) p (print_position_panel p)
unfolding print_position_panel
position_panel_width p h small =
    let sep = outer_sep p.border_style ∷ [] in
    rw (if_false p.show_color p.palette.color_offset [] h.colorless) (
      Adds-write _ p _
        (ground (arith, length-append (position_text p) sep, position_text_width p h small)))

-- the bytes of whole panels
pub panel_columns :
    (p : Printer)
    → IsPlain p
    → (byte_column p 0 ≡ 0) × (byte_column p (8 * p.panels) ≡ p.panels * (panel_sz p + 1))
panel_columns p h = elim h.groups [
  | inl one ↦ rw one (omega arith, grind arith)
  | inr (inl two) ↦ rw two (omega arith, grind arith)
  | inr (inr (inl four)) ↦ rw four (omega arith, grind arith)
  | inr (inr (inr eight)) ↦ rw eight (omega arith, grind arith)
]

pub print_bytes-Adds :
    (p : Printer)
    → IsPlain p
    → Shows p.squeezer
    → length p.line_buf ≡ 8 * p.panels
    → Adds (p.panels * (panel_sz p + 1)) p (print_bytes p)
unfolding print_bytes
print_bytes-Adds p h k full =
    let buf = in_order p.endianness p p.line_buf in
    let (m, e, adds) = print_from-Reaches p 0 buf h k in
    let (start, whole) = panel_columns p h in
    let length_buf : 0 + length buf ≡ 8 * p.panels =
      omega (arith, length-in_order p.endianness p p.line_buf, full) in
    let same : m ≡ p.panels * (panel_sz p + 1) =
      omega (arith, e, start, whole, ap (byte_column p) length_buf) in
    subst (λ n. Adds n p (print_from 0 buf p)) same adds

pub char_panel-Adds :
    (p : Printer)
    → IsPlain p
    → Shows p.squeezer
    → length p.line_buf ≡ 8 * p.panels
    → Adds (p.panels * 9) p (print_char_panel p)
char_panel-Adds p h k full =
    let (m, e, adds) =
      print_chars-Reaches p (length p.line_buf) 0 h (λ j inside. inr (k, omega arith)) in
    subst (λ n. Adds n p (print_char_panel p)) (omega (arith, e, full)) adds
