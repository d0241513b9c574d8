-- ===== src/Fish/Tests.antt =====
-- fish: each theorem at a concrete input.
use reverse_rewrite.Common.{ℕ, Bool, ◌==◌, ◌%◌, ◌+◌, ◌<◌, ◌≡◌, some, [], ◌∷◌, arith}
use reverse_rewrite.Fish.Color.{from_rgb, try_parse_rgb}
use reverse_rewrite.Fish.Color.Palette.{
  Color24, convert_color, term16_colors, term256_colors, term16_color_for_rgb,
  term256_color_for_rgb,
}
use reverse_rewrite.Fish.Color.Nearest.{
  IsFirstNearest, convert_color-IsFirstNearest, term_colors-IsFirstNearest,
}
use reverse_rewrite.Fish.Color.Notation.{six_digits, three_digits, try_parse_rgb-digits}

abbrev orange : Color24
orange = record { r = 250; g = 128; b = 3 }

convert_color-IsFirstNearest_example :
    (i found : ℕ) × (convert_color orange (0 ∷ 16744448 ∷ []) ≡ some i)
    × IsFirstNearest orange (0 ∷ 16744448 ∷ []) i found
convert_color-IsFirstNearest_example =
    convert_color-IsFirstNearest orange (0 ∷ 16744448 ∷ []) (omega arith)
      (omega arith, (omega arith, tt))

term_colors-IsFirstNearest_example :
    ((i found : ℕ) × (term16_color_for_rgb orange ≡ some i)
      × (i < 16)
      × IsFirstNearest orange term16_colors i found)
    × ((i found : ℕ) × (term256_color_for_rgb orange ≡ some (16 + i))
        × (16 + i < 256)
        × IsFirstNearest orange term256_colors i found)
term_colors-IsFirstNearest_example = term_colors-IsFirstNearest orange

-- the even digits in upper case
abbrev mixed : ℕ → Bool
mixed i = i % 2 == 0

try_parse_rgb-digits_example :
    (try_parse_rgb (35 ∷ six_digits mixed 250 174 63) ≡ some (from_rgb 250 174 63))
    × (try_parse_rgb (six_digits mixed 250 174 63) ≡ some (from_rgb 250 174 63))
    × (try_parse_rgb (35 ∷ three_digits mixed 10 14 15) ≡ some (from_rgb 170 238 255))
    × (try_parse_rgb (three_digits mixed 10 14 15) ≡ some (from_rgb 170 238 255))
try_parse_rgb-digits_example =
    try_parse_rgb-digits mixed 250 174 63 (omega arith) (omega arith) (omega arith)
