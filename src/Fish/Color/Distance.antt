-- ===== src/Fish/Color/Distance.antt =====
-- color/color.rs: the key of `convert_color` is the square of the Euclidean distance.
use reverse_rewrite.Common.{
  ℕ, ◌+◌, ◌-◌, ◌*◌, ◌/◌, ◌%◌, ◌<◌, ◌≡◌, subst, true, ap, inl, inr, none, some, arith, ltb, ltb→lt,
  ltb→le, if◌then◌else◌, Bool-cases,
}
use reverse_rewrite.Fish.Color.Palette.{Color24, from_bits, distance, squared_difference}

-- The square of the difference of two intensities.
abbrev pub apart : ℕ → ℕ → ℕ
apart x y = if ltb x y then (y - x) * (y - x) else (x - y) * (x - y)

-- The square of the Euclidean distance to the colour 0xRRGGBB of a table.
abbrev pub away : Color24 → ℕ → ℕ
away color c = apart color.r (c / 65536) + apart color.g (c / 256 % 256) + apart color.b (c % 256)

squared_difference-apart : (a b : ℕ) → squared_difference b a ≡ apart a b
squared_difference-apart a b = elim (Bool-cases (ltb a b)) [
  | inl less ↦
      let none_over : a - b ≡ 0 = omega (arith, ltb→lt _ _ less) in
      rw (less, none_over) (ap (λ d. d * d) (omega arith))
  | inr more ↦
      let none_over : b - a ≡ 0 = omega (arith, ltb→le _ _ more) in
      rw (more, none_over) (ap (λ d. d * d) (omega arith))
]

sum-ap : {a b c a' b' c' : ℕ} → a ≡ a' → b ≡ b' → c ≡ c' → a + b + c ≡ a' + b' + c'
sum-ap h k l = omega (arith, h, k, l)

distance-away :
    (color : Color24) (c : ℕ)
    → c < 16777216
    → squared_difference (c / 65536 % 256) color.r
        + squared_difference (c / 256 % 256) color.g
        + squared_difference (c % 256) color.b
      ≡ away color c
distance-away color c h =
    let high : c / 65536 % 256 ≡ c / 65536 = omega (arith, h) in
    let parts =
      sum-ap (squared_difference-apart color.r (c / 65536 % 256))
        (squared_difference-apart color.g (c / 256 % 256))
        (squared_difference-apart color.b (c % 256)) in
    subst
      (λ r.
        squared_difference (c / 65536 % 256) color.r
          + squared_difference (c / 256 % 256) color.g
          + squared_difference (c % 256) color.b
        ≡ apart color.r r + apart color.g (c / 256 % 256) + apart color.b (c % 256))
      high parts

-- The key of `min_by_key`.
unfoldable pub key_of : Color24 → ℕ → ℕ
unfolding from_bits distance
key_of color c = elim (from_bits c) [ none ↦ 0 | some x ↦ distance color x ]

pub key_of-away : (color : Color24) (c : ℕ) → c < 16777216 → key_of color c ≡ away color c
unfolding key_of from_bits distance
key_of-away color c h =
    let small : ltb c 16777216 ≡ true = ground (arith, h) in
    rw (key_of, small) (distance-away color c h)
