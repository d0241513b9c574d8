-- ===== src/Hexyl/Line/Panels.antt =====
-- lib.rs: the columns of the panels of a line when no colours are written.
use reverse_rewrite.Common.{
  ℕ, zero, suc, ◌+◌, ◌-◌, ◌⊎◌, ◌*◌, ◌/◌, ◌%◌, ◌<◌, ◌≡◌, refl, sym, subst, inl, inr, true, some, [],
  ◌∷◌, arith, ◌==◌, if◌then◌else◌, Bool-cases, length, get_elem?,
}
use reverse_rewrite.Common.Text.{Bytes}
use reverse_rewrite.Hexyl.Printer.{Printer, Squeezer, print, delete, ignore, disabled, write}
use reverse_rewrite.Hexyl.Line.{
  print_byte, print_from, print_char, print_chars, char_part, char_or_end, char_end,
}
use reverse_rewrite.Hexyl.Line.Width.{
  IsPlain, IsPlain-write, Shows, Adds, Adds-none, Adds-trans, Adds-write, columns, columns_step,
  byte_columns, print_byte-Adds, end_color-plain, write_colored-plain,
}

-- A step from one column to another.
abbrev pub Reaches : ℕ → ℕ → Printer → Printer → Type 0
Reaches from to p q = (m : ℕ) × (from + m ≡ to) × Adds m p q

Reaches-trans : (a b c : ℕ) (p q r : Printer) → Reaches a b p q → Reaches b c q r → Reaches a c p r
Reaches-trans a b c p q r (m, e, first) (n, f, second) =
    (m + n, omega (arith, e, f), Adds-trans m n p q r first second)

abbrev pub byte_column : Printer → ℕ → ℕ
byte_column p i = columns p.group_size p.base_digits i

pub print_from-Reaches :
    (p : Printer) (i : ℕ) (bs : Bytes)
    → IsPlain p
    → Shows p.squeezer
    → Reaches (byte_column p i) (byte_column p (i + length bs)) p (print_from i bs p)
unfolding print_from byte_columns
print_from-Reaches p i [] h k =
    (0, (let e : i + 0 ≡ i = omega arith in rw e (omega arith)), Adds-none p)
print_from-Reaches p i (b ∷ bs) h k =
    let (s, e, wide) = print_byte-Adds p i b h k in
    let q = print_byte i b p in
    let first : Reaches (byte_column p i) (byte_column p (suc i)) p q =
      (byte_columns p i, sym (columns_step p.group_size p.base_digits i h.groups), (s, e, wide)) in
    let rest = print_from-Reaches (write s p) (suc i) bs (IsPlain-write s p h) k in
    let next : suc i + length bs ≡ i + suc (length bs) = omega arith in
    subst (λ c. Reaches (byte_column p i) (byte_column p c) p (print_from (suc i) bs q)) next
      (Reaches-trans _ _ _ p q _ first (
        subst
          (λ q.
            Reaches (byte_column p (suc i)) (byte_column p (suc i + length bs)) q
              (print_from (suc i) bs q))
          (sym e) rest))

-- The columns of the first n characters of the panel of characters: themselves and a separator
-- behind each eight.
abbrev pub char_column : ℕ → ℕ
char_column i = i + i / 8

-- a character that the line has, or a line that is squeezed or filled up
abbrev pub HasChar : ℕ → Printer → Type 0
HasChar i p = (p.squeezer ≡ print) ⊎ (Shows p.squeezer × (i < length p.line_buf))

get_elem?-inside : (xs : Bytes) (i : ℕ) → i < length xs → (x : ℕ) × (get_elem? xs i ≡ some x)
get_elem?-inside [] i h = absurd (omega arith)
get_elem?-inside (x ∷ xs) zero h = (x, refl)
get_elem?-inside (x ∷ xs) (suc i) h = get_elem?-inside xs i (omega arith)

known_char-Adds :
    (p : Printer) (i : ℕ)
    → IsPlain p
    → i < length p.line_buf
    → Adds 1 p (char_or_end i (get_elem? p.line_buf i) p)
known_char-Adds p i h inside =
    let (b, e) = get_elem?-inside p.line_buf i inside in
    rw (e, write_colored-plain b (p.byte_char_panel b) p h) (Adds-write _ p 1 (h.char_width b))

char_part-Adds :
    (p : Printer) (i : ℕ) (squeezer : Squeezer)
    → IsPlain p
    → (squeezer ≡ print) ⊎ (Shows squeezer × (i < length p.line_buf))
    → Adds 1 p (char_part i squeezer p)
char_part-Adds p i print h k = Adds-write _ p 1 refl
char_part-Adds p i delete h (inl e) = cc
char_part-Adds p i delete h (inr (k, inside)) = absurd (k refl)
char_part-Adds p i ignore h (inl e) = cc
char_part-Adds p i ignore h (inr (k, inside)) = known_char-Adds p i h inside
char_part-Adds p i disabled h (inl e) = cc
char_part-Adds p i disabled h (inr (k, inside)) = known_char-Adds p i h inside

char_end-Adds :
    (p : Printer) (i : ℕ) → IsPlain p → Adds (if i % 8 == 7 then 1 else 0) p (char_end i p)
char_end-Adds p i h = elim (Bool-cases (i == 8 * p.panels - 1)) [
  | inl last ↦
      let some_panels = h.some_panels in
      let seventh : (i % 8 == 7) ≡ true = ground arith in
      rw (last, seventh, end_color-plain p h) (Adds-write _ p 1 refl)
  | inr other ↦ elim (Bool-cases (i % 8 == 7)) [
    | inl seventh ↦ rw (other, seventh, end_color-plain p h) (Adds-write _ p 1 refl)
    | inr inner ↦ rw (other, inner) (Adds-none p)
  ]
]

pub print_char-Reaches :
    (p : Printer) (i : ℕ)
    → IsPlain p
    → HasChar i p
    → Reaches (char_column i) (char_column (suc i)) p (print_char i p)
unfolding print_char
print_char-Reaches p i h k =
    let (s, e, wide) = char_part-Adds p i p.squeezer h k in
    let q = char_part i p.squeezer p in
    (
      1 + (if i % 8 == 7 then 1 else 0),
      ground arith,
      Adds-trans _ _ p q _ (s, e, wide)
          (char_end-Adds q i (subst IsPlain (sym e) (IsPlain-write s p h))),
    )

pub print_chars-Reaches :
    (p : Printer) (n i : ℕ)
    → IsPlain p
    → ((j : ℕ) → j < i + n → HasChar j p)
    → Reaches (char_column i) (char_column (i + n)) p (print_chars n i p)
unfolding print_chars
print_chars-Reaches p zero i h k = (0, ground arith, Adds-none p)
print_chars-Reaches p (suc n) i h k =
    let (m, e, (s, f, wide)) = print_char-Reaches p i h (k i (omega arith)) in
    let q = print_char i p in
    let rest =
      print_chars-Reaches (write s p) n (suc i) (IsPlain-write s p h)
        (λ j small. k j (omega arith)) in
    let next : suc i + n ≡ i + suc n = omega arith in
    subst (λ c. Reaches (char_column i) (char_column c) p (print_chars n (suc i) q)) next
      (Reaches-trans _ _ _ p q _ (m, e, (s, f, wide))
        (subst
          (λ q. Reaches (char_column (suc i)) (char_column (suc i + n)) q (print_chars n (suc i) q))
          (sym f) rest))
