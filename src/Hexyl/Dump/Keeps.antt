-- ===== src/Hexyl/Dump/Keeps.antt =====
-- lib.rs: what the parts of a line leave of the printer: the buffer of the line, the panels, and
-- where the line stands.
use reverse_rewrite.Common.{
  ℕ, zero, suc, ◌+◌, ◌≤◌, ◌<◌, ◌≢◌, ap, arith, ◌-◌, ◌*◌, ◌%◌, ◌≡◌, refl, Bool, true, false, Option,
  none, some, [], ◌∷◌, ◌++◌, ◌==◌, if◌then◌else◌, length, get_elem?, ◌∙◌,
}
use reverse_rewrite.Common.Text.{Bytes}
use reverse_rewrite.Hexyl.Printer.{Printer, Squeezer, print, delete, ignore, disabled, write}
use reverse_rewrite.Hexyl.Byte.{color_reset}
use reverse_rewrite.Hexyl.Dump.{print_line}
use reverse_rewrite.Hexyl.Byte.Tables.{get_elem?-ne-none}
use reverse_rewrite.Hexyl.Line.{
  group_space, print_byte, print_from, print_char, print_chars, print_bytes, print_position_panel,
  write_colored, with_color, needs_color, char_part, char_or_end, char_end, byte_part, end_color,
  color_of, panel_end,
}

pub record Keeps (p q : Printer) : Type 0 where
  pub line_buf : q.line_buf ≡ p.line_buf
  pub panels : q.panels ≡ p.panels
  pub idx : q.idx ≡ p.idx
  pub squeeze_byte : q.squeeze_byte ≡ p.squeeze_byte
  pub squeezer : q.squeezer ≡ p.squeezer

pub Keeps-trans : (p q r : Printer) → Keeps p q → Keeps q r → Keeps p r
Keeps-trans p q r h k = record {
  line_buf = k.line_buf ∙ h.line_buf;
  panels = k.panels ∙ h.panels;
  idx = k.idx ∙ h.idx;
  squeeze_byte = k.squeeze_byte ∙ h.squeeze_byte;
  squeezer = k.squeezer ∙ h.squeezer;
}

-- nothing that is kept has changed
pub Keeps-self : (p : Printer) → Keeps p p
Keeps-self p = record {
  line_buf = refl;
  panels = refl;
  idx = refl;
  squeeze_byte = refl;
  squeezer = refl;
}

pub Keeps-write : (s : Bytes) (p : Printer) → Keeps p (write s p)
Keeps-write s p = record {
  line_buf = refl;
  panels = refl;
  idx = refl;
  squeeze_byte = refl;
  squeezer = refl;
}

pub Keeps-if : (b : Bool) (p q r : Printer) → Keeps p q → Keeps p r → Keeps p (if b then q else r)
Keeps-if true p q r h k = h
Keeps-if false p q r h k = k

Keeps-write_colored : (b : ℕ) (s : Bytes) (p : Printer) → Keeps p (write_colored b s p)
unfolding write_colored
Keeps-write_colored b s p =
    Keeps-if (needs_color b p) p (with_color (color_of p b) s p) (write s p)
      (record { line_buf = refl; panels = refl; idx = refl; squeeze_byte = refl; squeezer = refl })
      (Keeps-write s p)

Keeps-end_color : (p : Printer) → Keeps p (end_color p)
Keeps-end_color p =
    Keeps-if p.show_color p (record p { written = p.written ++ color_reset; curr_color = none }) p
      (record { line_buf = refl; panels = refl; idx = refl; squeeze_byte = refl; squeezer = refl })
      (Keeps-self p)

Keeps-ended : (s : Bytes) (p : Printer) → Keeps p (write s (end_color p))
Keeps-ended s p = Keeps-trans p (end_color p) _ (Keeps-end_color p) (Keeps-write s (end_color p))

Keeps-byte_part : (i b : ℕ) (s : Squeezer) (p : Printer) → Keeps p (byte_part i b s p)
Keeps-byte_part i b print p = Keeps-write _ p
Keeps-byte_part i b delete p = Keeps-write _ p
Keeps-byte_part i b ignore p =
    Keeps-trans p _ _ (Keeps-write (group_space i p) p) (Keeps-write_colored b _ _)
Keeps-byte_part i b disabled p =
    Keeps-trans p _ _ (Keeps-write (group_space i p) p) (Keeps-write_colored b _ _)

Keeps-print_byte : (i b : ℕ) (p : Printer) → Keeps p (print_byte i b p)
unfolding print_byte
Keeps-print_byte i b p =
    let q = byte_part i b p.squeezer p in
    Keeps-trans p q _ (Keeps-byte_part i b p.squeezer p)
      (Keeps-if (i % 8 == 7) q _ q (Keeps-ended (panel_end i q) q) (Keeps-self q))

Keeps-print_from : (i : ℕ) (bs : Bytes) (p : Printer) → Keeps p (print_from i bs p)
unfolding print_from
Keeps-print_from i [] p = Keeps-self p
Keeps-print_from i (b ∷ bs) p =
    Keeps-trans p (print_byte i b p) _ (Keeps-print_byte i b p) (Keeps-print_from (suc i) bs _)

Keeps-char_or_end : (i : ℕ) (o : Option ℕ) (p : Printer) → o ≢ none → Keeps p (char_or_end i o p)
Keeps-char_or_end i none p h = absurd (h refl)
Keeps-char_or_end i (some b) p h = Keeps-write_colored b _ p

Keeps-char_part :
    (i : ℕ) (s : Squeezer) (p : Printer) → get_elem? p.line_buf i ≢ none → Keeps p (char_part i s p)
Keeps-char_part i print p h = Keeps-write _ p
Keeps-char_part i delete p h = Keeps-write _ p
Keeps-char_part i ignore p h = Keeps-char_or_end i _ p h
Keeps-char_part i disabled p h = Keeps-char_or_end i _ p h

Keeps-char_end : (i : ℕ) (p : Printer) → Keeps p (char_end i p)
Keeps-char_end i p =
    Keeps-if (i == 8 * p.panels - 1) p _ _ (Keeps-ended _ p)
      (Keeps-if (i % 8 == 7) p _ p (Keeps-ended _ p) (Keeps-self p))

Keeps-print_char : (i : ℕ) (p : Printer) → i < length p.line_buf → Keeps p (print_char i p)
unfolding print_char
Keeps-print_char i p h =
    Keeps-trans p _ _ (Keeps-char_part i p.squeezer p (get_elem?-ne-none p.line_buf i h))
      (Keeps-char_end i _)

Keeps-print_chars :
    (n i : ℕ) (p : Printer) → i + n ≤ length p.line_buf → Keeps p (print_chars n i p)
unfolding print_chars
Keeps-print_chars zero i p h = Keeps-self p
Keeps-print_chars (suc n) i p h =
    let kept = Keeps-print_char i p (omega arith) in
    Keeps-trans p (print_char i p) _ kept
      (Keeps-print_chars n (suc i) _ (omega (arith, ap length kept.line_buf)))

-- A line that is printed whole leaves the buffer, the panels, the index and the squeezer alone.
pub Keeps-print_line : (p : Printer) → Keeps p (print_line p)
unfolding print_line print_position_panel print_bytes
Keeps-print_line p =
    let first = print_position_panel p in
    let bytes = print_bytes first in
    let kept = Keeps-trans p first bytes (Keeps-write _ p) (Keeps-print_from 0 _ first) in
    let chars =
      Keeps-if bytes.show_char_panel bytes _ bytes
        (Keeps-print_chars (length bytes.line_buf) 0 bytes (omega arith)) (Keeps-self bytes) in
    Keeps-trans p _ _ (Keeps-trans p bytes _ kept chars) (Keeps-write (10 ∷ []) _)
