-- ===== src/Fish/Color/Palette.antt =====
-- color/color.rs: the tables, and the nearest colour of a table.
use reverse_rewrite.Common.{
  ℕ, ◌+◌, ◌-◌, ◌*◌, ◌/◌, ◌%◌, Bool, true, false, Option, none, some, List, [], ◌∷◌, ltb,
  if◌then◌else◌,
}
use reverse_rewrite.Common.Text.{Bytes, codes}

pub record Color24 : Type 0 where
  pub r : ℕ
  pub g : ℕ
  pub b : ℕ

-- `Color24::from_bits` asserts that the high byte is zero.
unfoldable pub from_bits : ℕ → Option Color24
from_bits bits =
    if ltb bits 16777216
    then some (record { r = bits / 65536 % 256; g = bits / 256 % 256; b = bits % 256 })
    else none

abbrev pub abs_diff : ℕ → ℕ → ℕ
abs_diff a b = (a - b) + (b - a)

abbrev pub squared_difference : ℕ → ℕ → ℕ
squared_difference a b = abs_diff a b * abs_diff a b

unfoldable pub distance : Color24 → Color24 → ℕ
distance x y = squared_difference y.r x.r + squared_difference y.g x.g + squared_difference y.b x.b

-- The rest of `min_by_key`, from the index i on: the first of the least.
unfoldable pub nearest : Color24 → ℕ → ℕ → ℕ → List ℕ → Option ℕ
unfolding distance from_bits
nearest color i best key [] = some best
nearest color i best key (c ∷ cs) = elim (from_bits c) [
  | none ↦ none
  | some x ↦ elim (ltb (distance color x) key) [
    | true ↦ nearest color (i + 1) i (distance color x) cs
    | false ↦ nearest color (i + 1) best key cs
  ]
]

unfoldable pub convert_color : Color24 → List ℕ → Option ℕ
unfolding nearest
convert_color color [] = none
convert_color color (c ∷ cs) = elim (from_bits c) [
  | none ↦ none
  | some x ↦ nearest color 1 0 (distance color x) cs
]

abbrev pub term16_colors : List ℕ
term16_colors =
    0 ∷ 8388608 ∷ 32768 ∷ 8421376 ∷ 128 ∷ 8388736 ∷ 32896 ∷ 12632256 ∷ 8421504 ∷ 16711680 ∷ 65280
    ∷ 16776960 ∷ 255 ∷ 16711935 ∷ 65535 ∷ 16777215 ∷ []

abbrev pub term256_colors : List ℕ
term256_colors =
    0 ∷ 95 ∷ 135 ∷ 175 ∷ 215 ∷ 255 ∷ 24320 ∷ 24415 ∷ 24455 ∷ 24495 ∷ 24535 ∷ 24575 ∷ 34560 ∷ 34655
    ∷ 34695 ∷ 34735 ∷ 34775 ∷ 34815 ∷ 44800 ∷ 44895 ∷ 44935 ∷ 44975 ∷ 45015 ∷ 45055 ∷ 55040 ∷ 55135
    ∷ 55175 ∷ 55215 ∷ 55255 ∷ 55295 ∷ 65280 ∷ 65375 ∷ 65415 ∷ 65455 ∷ 65495 ∷ 65535 ∷ 6225920
    ∷ 6226015 ∷ 6226055 ∷ 6226095 ∷ 6226135 ∷ 6226175 ∷ 6250240 ∷ 6250335 ∷ 6250375 ∷ 6250415
    ∷ 6250455 ∷ 6250495 ∷ 6260480 ∷ 6260575 ∷ 6260615 ∷ 6260655 ∷ 6260695 ∷ 6260735 ∷ 6270720
    ∷ 6270815 ∷ 6270855 ∷ 6270895 ∷ 6270935 ∷ 6270975 ∷ 6280960 ∷ 6281055 ∷ 6281095 ∷ 6281135
    ∷ 6281175 ∷ 6281215 ∷ 6291200 ∷ 6291295 ∷ 6291335 ∷ 6291375 ∷ 6291415 ∷ 6291455 ∷ 8847360
    ∷ 8847455 ∷ 8847495 ∷ 8847535 ∷ 8847575 ∷ 8847615 ∷ 8871680 ∷ 8871775 ∷ 8871815 ∷ 8871855
    ∷ 8871895 ∷ 8871935 ∷ 8881920 ∷ 8882015 ∷ 8882055 ∷ 8882095 ∷ 8882135 ∷ 8882175 ∷ 8892160
    ∷ 8892255 ∷ 8892295 ∷ 8892335 ∷ 8892375 ∷ 8892415 ∷ 8902400 ∷ 8902495 ∷ 8902535 ∷ 8902575
    ∷ 8902615 ∷ 8902655 ∷ 8912640 ∷ 8912735 ∷ 8912775 ∷ 8912815 ∷ 8912855 ∷ 8912895 ∷ 11468800
    ∷ 11468895 ∷ 11468935 ∷ 11468975 ∷ 11469015 ∷ 11469055 ∷ 11493120 ∷ 11493215 ∷ 11493255
    ∷ 11493295 ∷ 11493335 ∷ 11493375 ∷ 11503360 ∷ 11503455 ∷ 11503495 ∷ 11503535 ∷ 11503575
    ∷ 11503615 ∷ 11513600 ∷ 11513695 ∷ 11513735 ∷ 11513775 ∷ 11513815 ∷ 11513855 ∷ 11523840
    ∷ 11523935 ∷ 11523975 ∷ 11524015 ∷ 11524055 ∷ 11524095 ∷ 11534080 ∷ 11534175 ∷ 11534215
    ∷ 11534255 ∷ 11534295 ∷ 11534335 ∷ 14090240 ∷ 14090335 ∷ 14090375 ∷ 14090415 ∷ 14090455
    ∷ 14090495 ∷ 14114560 ∷ 14114655 ∷ 14114695 ∷ 14114735 ∷ 14114775 ∷ 14114815 ∷ 14124800
    ∷ 14124895 ∷ 14124935 ∷ 14124975 ∷ 14125015 ∷ 14125055 ∷ 14135040 ∷ 14135135 ∷ 14135175
    ∷ 14135215 ∷ 14135255 ∷ 14135295 ∷ 14145280 ∷ 14145375 ∷ 14145415 ∷ 14145455 ∷ 14145495
    ∷ 14145535 ∷ 14155520 ∷ 14155615 ∷ 14155655 ∷ 14155695 ∷ 14155735 ∷ 14155775 ∷ 16711680
    ∷ 16711775 ∷ 16711815 ∷ 16711855 ∷ 16711895 ∷ 16711935 ∷ 16736000 ∷ 16736095 ∷ 16736135
    ∷ 16736175 ∷ 16736215 ∷ 16736255 ∷ 16746240 ∷ 16746335 ∷ 16746375 ∷ 16746415 ∷ 16746455
    ∷ 16746495 ∷ 16756480 ∷ 16756575 ∷ 16756615 ∷ 16756655 ∷ 16756695 ∷ 16756735 ∷ 16766720
    ∷ 16766815 ∷ 16766855 ∷ 16766895 ∷ 16766935 ∷ 16766975 ∷ 16776960 ∷ 16777055 ∷ 16777095
    ∷ 16777135 ∷ 16777175 ∷ 16777215 ∷ 526344 ∷ 1184274 ∷ 1842204 ∷ 2500134 ∷ 3158064 ∷ 3815994
    ∷ 4473924 ∷ 5131854 ∷ 5789784 ∷ 6447714 ∷ 7105644 ∷ 7763574 ∷ 8421504 ∷ 9079434 ∷ 9737364
    ∷ 10395294 ∷ 11053224 ∷ 11711154 ∷ 12369084 ∷ 13027014 ∷ 13684944 ∷ 14342874 ∷ 15000804
    ∷ 15658734 ∷ []

-- `try_into().unwrap()`, to a u8
abbrev pub into_u8 : ℕ → Option ℕ → Option ℕ
into_u8 offset none = none
into_u8 offset (some i) = if ltb (offset + i) 256 then some (offset + i) else none

unfoldable pub term16_color_for_rgb : Color24 → Option ℕ
unfolding convert_color
term16_color_for_rgb color = into_u8 0 (convert_color color term16_colors)

unfoldable pub term256_color_for_rgb : Color24 → Option ℕ
unfolding convert_color
term256_color_for_rgb color = into_u8 16 (convert_color color term256_colors)

pub record NamedColor : Type 0 where
  pub name : Bytes
  pub idx : ℕ
  pub hidden : Bool

abbrev row : Bytes → ℕ → Bool → NamedColor
row name idx hidden = record { name = name; idx = idx; hidden = hidden }

abbrev pub named_colors : List NamedColor
named_colors =
    row (codes "black") 0 false
    ∷ row (codes "blue") 4 false
    ∷ row (codes "brblack") 8 false
    ∷ row (codes "brblue") 12 false
    ∷ row (codes "brbrown") 11 true
    ∷ row (codes "brcyan") 14 false
    ∷ row (codes "brgreen") 10 false
    ∷ row (codes "brgrey") 8 true
    ∷ row (codes "brmagenta") 13 false
    ∷ row (codes "brown") 3 true
    ∷ row (codes "brpurple") 13 true
    ∷ row (codes "brred") 9 false
    ∷ row (codes "brwhite") 15 false
    ∷ row (codes "bryellow") 11 false
    ∷ row (codes "cyan") 6 false
    ∷ row (codes "green") 2 false
    ∷ row (codes "grey") 7 true
    ∷ row (codes "magenta") 5 false
    ∷ row (codes "purple") 5 true
    ∷ row (codes "red") 1 false
    ∷ row (codes "white") 7 false
    ∷ row (codes "yellow") 3 false
    ∷ []
