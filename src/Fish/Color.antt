-- ===== src/Fish/Color.antt =====
-- color/color.rs: colours, their names and notations, and the nearest colours of a terminal.
-- A wide string is the list of its code points; a panic is none.
pub mod Palette
pub mod Distance
pub mod Nearest
pub mod Notation
use reverse_rewrite.Common.{
  ℕ, zero, suc, ◌+◌, ◌*◌, ◌≡◌, Bool, true, false, not, ◌&&◌, Option, none, some, List, [], ◌∷◌, leb,
  ◌==◌, if◌then◌else◌, ◌-◌, length, map,
}
use mathlib.Core.Option
use reverse_rewrite.Common.Text.{Bytes, codes, bytes_eq}
use Palette.{Color24, term16_color_for_rgb, term256_color_for_rgb, named_colors, NamedColor}

pub data ColorType : Type 0 where
  none_color normal reset : ColorType
  named : ℕ → ColorType
  rgb : Color24 → ColorType

-- `Flags`: a set of these bits.
pub record Flags : Type 0 where
  pub bold : Bool
  pub underline : Bool
  pub italics : Bool
  pub dim : Bool
  pub reverse : Bool

abbrev pub default_flags : Flags
default_flags = record {
  bold = false;
  underline = false;
  italics = false;
  dim = false;
  reverse = false;
}

pub record RgbColor : Type 0 where
  pub typ : ColorType
  pub flags : Flags

abbrev pub from_rgb : ℕ → ℕ → ℕ → RgbColor
from_rgb r g b = record { typ = rgb (record { r = r; g = g; b = b }); flags = default_flags }

unfoldable pub is_named : RgbColor → Bool
is_named c = elim (c.typ) [
  | named _ ↦ true
  | rgb _ ↦ false
  | none_color ↦ false
  | normal ↦ false
  | reset ↦ false
]

unfoldable pub is_rgb : RgbColor → Bool
is_rgb c = elim (c.typ) [
  | rgb _ ↦ true
  | named _ ↦ false
  | none_color ↦ false
  | normal ↦ false
  | reset ↦ false
]

unfoldable pub is_special : RgbColor → Bool
unfolding is_named is_rgb
is_special c = not (is_named c) && not (is_rgb c)

unfoldable pub to_name_index : RgbColor → Option ℕ
to_name_index c = elim (c.typ) [
  | named idx ↦ some idx
  | rgb x ↦ term16_color_for_rgb x
  | none_color ↦ none
  | normal ↦ none
  | reset ↦ none
]

unfoldable pub to_term256_index : RgbColor → Option ℕ
to_term256_index c = elim (c.typ) [
  | rgb x ↦ term256_color_for_rgb x
  | named _ ↦ none
  | none_color ↦ none
  | normal ↦ none
  | reset ↦ none
]

unfoldable pub to_color24 : RgbColor → Option Color24
to_color24 c = elim (c.typ) [
  | rgb x ↦ some x
  | named _ ↦ none
  | none_color ↦ none
  | normal ↦ none
  | reset ↦ none
]

abbrev pub to_ascii_lowercase : ℕ → ℕ
to_ascii_lowercase c = if leb 65 c && leb c 90 then c + 32 else c

-- `simple_icase_compare` gives `Equal`
abbrev pub icase_equal : Bytes → Bytes → Bool
icase_equal s t = bytes_eq (map to_ascii_lowercase s) (map to_ascii_lowercase t)

unfoldable pub try_parse_special : Bytes → Option RgbColor
try_parse_special special =
    if icase_equal special (codes "normal")
    then some (record { typ = normal; flags = default_flags })
    else if icase_equal special (codes "reset")
    then some (record { typ = reset; flags = default_flags })
    else none

-- A binary search of a table that is sorted by name finds the entry of the name, if there is one.
unfoldable pub find_named : Bytes → List NamedColor → Option ℕ
find_named name [] = none
find_named name (c ∷ cs) =
    let later = find_named name cs in if icase_equal c.name name then some c.idx else later

unfoldable pub try_parse_named : Bytes → Option RgbColor
unfolding find_named
try_parse_named name =
    Option.map (λ i. record { typ = named i; flags = default_flags }) (find_named name named_colors)

-- `to_digit(16)`
abbrev pub to_digit : ℕ → Option ℕ
to_digit c =
    if leb 48 c && leb c 57
    then some (c - 48)
    else if leb 97 c && leb c 102
    then some (c - 87)
    else if leb 65 c && leb c 70
    then some (c - 55)
    else none

abbrev pub pair_up : Option ℕ → Option ℕ → Option ℕ
pair_up (some x) (some y) = some (x * 16 + y)
pair_up (some x) none = none
pair_up none _ = none

abbrev pub three : Option ℕ → Option ℕ → Option ℕ → Option RgbColor
three (some r) (some g) (some b) = some (from_rgb r g b)
three (some r) (some g) none = none
three (some r) none _ = none
three none _ _ = none

-- the digits behind the "#", three or six of them
unfoldable pub parse_digits : Bytes → Option RgbColor
parse_digits (c₁ ∷ c₂ ∷ c₃ ∷ []) =
    three (pair_up (to_digit c₁) (to_digit c₁)) (pair_up (to_digit c₂) (to_digit c₂))
      (pair_up (to_digit c₃) (to_digit c₃))
parse_digits (c₁ ∷ c₂ ∷ c₃ ∷ c₄ ∷ c₅ ∷ c₆ ∷ []) =
    three (pair_up (to_digit c₁) (to_digit c₂)) (pair_up (to_digit c₃) (to_digit c₄))
      (pair_up (to_digit c₅) (to_digit c₆))
parse_digits _ = none

unfoldable pub try_parse_rgb : Bytes → Option RgbColor
unfolding parse_digits
try_parse_rgb [] = none
try_parse_rgb (c ∷ s) = if c == 35 then parse_digits s else parse_digits (c ∷ s)

abbrev pub or_else : Option RgbColor → Option RgbColor → Option RgbColor
or_else (some c) _ = some c
or_else none d = d

unfoldable pub from_wstr : Bytes → Option RgbColor
unfolding try_parse_special try_parse_named try_parse_rgb
from_wstr s = or_else (or_else (try_parse_special s) (try_parse_named s)) (try_parse_rgb s)
