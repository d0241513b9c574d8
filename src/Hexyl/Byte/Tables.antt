-- ===== src/Hexyl/Byte/Tables.antt =====
-- lib.rs: the colours are read inside their tables, and the braille characters tell bytes apart.
use reverse_rewrite.Common.{
  ℕ, zero, suc, ◌-◌, ◌<◌, ◌≡◌, ◌≢◌, refl, Bool, true, false, none, [], ◌∷◌, arith, ltb, ◌==◌,
  if◌then◌else◌, length, get_elem?, List,
}
use reverse_rewrite.Hexyl.Byte.{
  Palette, ColorScheme, plain, gradient, braille, color, as_char, place_bits,
}

pub get_elem?-ne-none : {A : Type 0} (xs : List A) (i : ℕ) → i < length xs → get_elem? xs i ≢ none
get_elem?-ne-none [] i h = absurd (omega arith)
get_elem?-ne-none (x ∷ xs) zero h = cc
get_elem?-ne-none (x ∷ xs) (suc i) h = get_elem?-ne-none xs i (omega arith)

-- With gradients of the lengths that the program gives them, 95, 31 and 128, every byte has a
-- colour in both schemes: no table is read beyond its end.
pub color-ne-none :
    (palette : Palette) (scheme : ColorScheme) (b : ℕ)
    → length palette.color_gradient_ascii_printable ≡ 95
    → length palette.color_gradient_ascii_nonprintable ≡ 31
    → length palette.color_gradient_nonascii ≡ 128
    → b < 256
    → color palette scheme b ≢ none
unfolding color
color-ne-none palette plain b h k l small = cc
color-ne-none palette gradient b h k l small =
    let read = get_elem?-ne-none palette.color_gradient_ascii_printable in
    λ missing. ground (
      arith,
      missing,
      read (b - 32),
      read 0,
      get_elem?-ne-none palette.color_gradient_ascii_nonprintable (b - 1),
      get_elem?-ne-none palette.color_gradient_nonascii (b - 128),
    )

-- The byte that a character of the braille table stands for.
abbrev pub from_braille : ℕ → ℕ
unfolding place_bits
from_braille c =
    if c == 0x22c4
    then 0
    else if c == 0x2192
    then 9
    else if c == 0x21b5
    then 10
    else if c == 0x2190
    then 13
    else if ltb c 0x2800
    then c
    else place_bits (c - 0x2800) 0 (0 ∷ 2 ∷ 4 ∷ 1 ∷ 3 ∷ 5 ∷ 6 ∷ 7 ∷ [])

-- a function that gives every number below a limit back
fixes : (ℕ → ℕ) → ℕ → Bool
fixes f zero = true
fixes f (suc b) = if f b == b then fixes f b else false

fixes_lem : (f : ℕ → ℕ) (limit b : ℕ) → b < limit → fixes f limit ≡ true → f b ≡ b
unfolding fixes
fixes_lem f zero b h all = absurd (omega arith)
fixes_lem f (suc limit) b h all = ground (arith, fixes_lem f limit b)

braille_fixes : fixes (λ b. from_braille (as_char braille b)) 256 ≡ true
unfolding fixes as_char
braille_fixes = refl

-- Every byte is read back from its character in the braille table, so that no two bytes look the
-- same.
pub from_braille-as_char : (b : ℕ) → b < 256 → from_braille (as_char braille b) ≡ b
from_braille-as_char b h = fixes_lem (λ b. from_braille (as_char braille b)) 256 b h braille_fixes
