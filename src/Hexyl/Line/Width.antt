-- ===== src/Hexyl/Line/Width.antt =====
-- lib.rs: the columns that the parts of a line take when no colours are written.
use reverse_rewrite.Common.{
  ℕ, zero, suc, ◌+◌, ◌-◌, ◌*◌, ◌/◌, ◌%◌, ◌≤◌, ◌≡◌, refl, sym, subst, ap, ◌∙◌, ◌⊎◌, inl, inr, Bool,
  true, false, [], ◌++◌, arith, not, ◌&&◌, ◌==◌, if◌then◌else◌, Bool-cases, length, length-append,
  append_assoc, append-nil, ◌≢◌,
}
use reverse_rewrite.Common.Text.{Bytes, codes}
use reverse_rewrite.Hexyl.Printer.{
  Printer, Squeezer, print, delete, ignore, disabled, repeat, write,
}
use reverse_rewrite.Hexyl.Line.{
  print_byte, write_colored, byte_part, byte_end, end_color, needs_color, with_color, color_of,
  is_current, group_space, star,
}

-- A printer as the builder makes it for output without colours; 8 is a multiple of the size of a
-- group, and each text has the width of what it stands for.
pub record IsPlain (p : Printer) : Type 0 where
  pub colorless : p.show_color ≡ false
  pub some_panels : 1 ≤ p.panels
  pub groups : (p.group_size ≡ 1) ⊎ ((p.group_size ≡ 2) ⊎ ((p.group_size ≡ 4) ⊎ (p.group_size ≡ 8)))
  pub hex_width : (b : ℕ) → length (p.byte_hex_panel b) ≡ p.base_digits
  pub offset_width : (b : ℕ) → length (p.byte_hex_panel_g b) ≡ 2
  pub char_width : (b : ℕ) → length (p.byte_char_panel b) ≡ 1

-- The columns of the first n bytes of a line: the digits, a space before each group, and at the end
-- of a panel a space and a separator.
abbrev pub columns : ℕ → ℕ → ℕ → ℕ
columns group digits n = (n + group - 1) / group + n * digits + 2 * (n / 8)

pub columns_step :
    (group digits i : ℕ)
    → (group ≡ 1) ⊎ ((group ≡ 2) ⊎ ((group ≡ 4) ⊎ (group ≡ 8)))
    → columns group digits (suc i)
      ≡ columns group digits i
        + ((if i % group == 0 then 1 else 0) + (digits + (if i % 8 == 7 then 2 else 0)))
columns_step group digits i (inl one) = rw one (ground arith)
columns_step group digits i (inr (inl two)) = rw two (ground arith)
columns_step group digits i (inr (inr (inl four))) = rw four (ground arith)
columns_step group digits i (inr (inr (inr eight))) = rw eight (ground arith)

-- A step that writes n characters and does nothing else.
abbrev pub Adds : ℕ → Printer → Printer → Type 0
Adds n p q = (s : Bytes) × (q ≡ write s p) × (length s ≡ n)

pub Adds-write : (s : Bytes) (p : Printer) (n : ℕ) → length s ≡ n → Adds n p (write s p)
Adds-write s p n h = (s, refl, h)

pub Adds-none : (p : Printer) → Adds 0 p p
Adds-none p = ([], rw (append-nil p.written) refl, refl)

pub Adds-trans : (m n : ℕ) (p q r : Printer) → Adds m p q → Adds n q r → Adds (m + n) p r
Adds-trans m n p q r (s, e, h) (t, f, k) =
    (s ++ t, rw (f, e, append_assoc p.written s t) refl, rw (length-append s t, h, k) refl)

pub IsPlain-write : (s : Bytes) (p : Printer) → IsPlain p → IsPlain (write s p)
IsPlain-write s p h = record {
  colorless = h.colorless;
  some_panels = h.some_panels;
  groups = h.groups;
  hex_width = h.hex_width;
  offset_width = h.offset_width;
  char_width = h.char_width;
}

abbrev pub Shows : Squeezer → Type 0
Shows squeezer = squeezer ≢ delete

unfoldable pub byte_columns : Printer → ℕ → ℕ
byte_columns p i =
    (if i % p.group_size == 0 then 1 else 0) + (p.base_digits + (if i % 8 == 7 then 2 else 0))

pub if_false {ℓ} : {A : Type ℓ} (b : Bool) (x y : A) → b ≡ false → (if b then x else y) ≡ y
if_false true x y h = cc
if_false false x y h = refl

pub end_color-plain : (p : Printer) → IsPlain p → end_color p ≡ p
end_color-plain p h = if_false p.show_color _ p h.colorless

pub write_colored-plain :
    (b : ℕ) (s : Bytes) (p : Printer) → IsPlain p → write_colored b s p ≡ write s p
unfolding write_colored
write_colored-plain b s p h =
    if_false (needs_color b p) (with_color (color_of p b) s p) (write s p)
      (ap (λ x. x && not (is_current p.curr_color (color_of p b))) h.colorless)

pub length-repeat : (n : ℕ) (s : Bytes) → length (repeat n s) ≡ n * length s
length-repeat zero s = omega arith
length-repeat (suc n) s = omega (arith, length-append s (repeat n s), length-repeat n s)

length-group_space :
    (i : ℕ) (p : Printer) → length (group_space i p) ≡ (if i % p.group_size == 0 then 1 else 0)
length-group_space i p = ground arith

colored_part-Adds :
    (p : Printer) (i b : ℕ)
    → IsPlain p
    → Adds
        ((if i % p.group_size == 0 then 1 else 0) + p.base_digits)
        p
        (write_colored b (p.byte_hex_panel b) (write (group_space i p) p))
colored_part-Adds p i b h =
    let q = write (group_space i p) p in
    rw (write_colored-plain b (p.byte_hex_panel b) q (IsPlain-write _ p h)) (
      Adds-trans _ _ p q _ (Adds-write _ p _ (length-group_space i p))
        (Adds-write _ q _ (h.hex_width b)))

length-star : (p : Printer) → IsPlain p → length (star p) ≡ 1
length-star p h = ap length (if_false p.show_color _ _ h.colorless) ∙ h.char_width b'*'

abbrev squeezed_part : ℕ → Printer → Bytes
squeezed_part i p = if not p.show_position_panel && i == 0 then star p else group_space i p

first_of_group : (p : Printer) → IsPlain p → (0 % p.group_size == 0) ≡ true
first_of_group p h = ground (arith, h.groups)

length-squeezed_part :
    (i : ℕ) (p : Printer)
    → IsPlain p
    → length (squeezed_part i p) ≡ (if i % p.group_size == 0 then 1 else 0)
length-squeezed_part i p h = elim (Bool-cases (not p.show_position_panel && i == 0)) [
  | inl first ↦ let e : i ≡ 0 = ground arith in rw (first, e, first_of_group p h) (length-star p h)
  | inr other ↦ rw other (length-group_space i p)
]

byte_part-Adds :
    (p : Printer) (i b : ℕ) (squeezer : Squeezer)
    → IsPlain p
    → Shows squeezer
    → Adds ((if i % p.group_size == 0 then 1 else 0) + p.base_digits) p (byte_part i b squeezer p)
byte_part-Adds p i b print h k = Adds-write _ p _ (
    length-append (squeezed_part i p) (repeat p.base_digits (codes " "))
    ∙ omega (arith, length-squeezed_part i p h, length-repeat p.base_digits (codes " ")))
byte_part-Adds p i b delete h k = absurd (k refl)
byte_part-Adds p i b ignore h k = colored_part-Adds p i b h
byte_part-Adds p i b disabled h k = colored_part-Adds p i b h

byte_end-Adds :
    (p : Printer) (i : ℕ) → IsPlain p → Adds (if i % 8 == 7 then 2 else 0) p (byte_end i p)
byte_end-Adds p i h = elim (Bool-cases (i % 8 == 7)) [
  | inl last ↦ rw (last, end_color-plain p h) (Adds-write _ p 2 refl)
  | inr inner ↦ rw inner (Adds-none p)
]

pub print_byte-Adds :
    (p : Printer) (i b : ℕ)
    → IsPlain p
    → Shows p.squeezer
    → Adds (byte_columns p i) p (print_byte i b p)
unfolding print_byte byte_columns
print_byte-Adds p i b h k =
    let (s, e, wide) = byte_part-Adds p i b p.squeezer h k in
    let q = byte_part i b p.squeezer p in
    let all =
      Adds-trans _ _ p q _ (s, e, wide)
        (byte_end-Adds q i (subst IsPlain (sym e) (IsPlain-write s p h))) in
    subst (λ n. Adds n p (byte_end i q)) (omega arith) all
