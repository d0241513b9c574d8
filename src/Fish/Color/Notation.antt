-- ===== src/Fish/Color/Notation.antt =====
-- color/color.rs: the notation "#RRGGBB" of every colour is read as that colour.
use reverse_rewrite.Common.{
  ℕ, ◌+◌, ◌*◌, ◌/◌, ◌%◌, ◌<◌, ◌≡◌, refl, ap, ◌==◌, Bool, true, false, some, [], ◌∷◌, arith, ltb,
  if◌then◌else◌,
}
use reverse_rewrite.Common.Text.{Bytes}
use reverse_rewrite.Fish.Color.{from_rgb, to_digit, pair_up, parse_digits, try_parse_rgb}

-- a hexadecimal digit, in upper or in lower case
abbrev pub digit_code : Bool → ℕ → ℕ
digit_code upper n = if ltb n 10 then 48 + n else if upper then 55 + n else 87 + n

-- The notation of a colour, without the "#": `upper i` says whether the digit i is in upper case.
abbrev pub six_digits : (ℕ → Bool) → ℕ → ℕ → ℕ → Bytes
six_digits upper r g b =
    digit_code (upper 0) (r / 16)
    ∷ digit_code (upper 1) (r % 16)
    ∷ digit_code (upper 2) (g / 16)
    ∷ digit_code (upper 3) (g % 16)
    ∷ digit_code (upper 4) (b / 16)
    ∷ digit_code (upper 5) (b % 16)
    ∷ []

abbrev pub three_digits : (ℕ → Bool) → ℕ → ℕ → ℕ → Bytes
three_digits upper r g b =
    digit_code (upper 0) r ∷ digit_code (upper 1) g ∷ digit_code (upper 2) b ∷ []

to_digit-digit_code : (upper : Bool) (n : ℕ) → n < 16 → to_digit (digit_code upper n) ≡ some n
to_digit-digit_code true n h = ground (arith, h)
to_digit-digit_code false n h = ground (arith, h)

digit_code-ne : (upper : Bool) (n : ℕ) → (digit_code upper n == 35) ≡ false
digit_code-ne true n = ground arith
digit_code-ne false n = ground arith

pair_up-digits :
    (u v : Bool) (n : ℕ)
    → n < 256
    → pair_up (to_digit (digit_code u (n / 16))) (to_digit (digit_code v (n % 16))) ≡ some n
pair_up-digits u v n h =
    rw (to_digit-digit_code u (n / 16) (omega arith), to_digit-digit_code v (n % 16) (omega arith))
      (ap some (omega arith))

parse_digits-six :
    (upper : ℕ → Bool) (r g b : ℕ)
    → r < 256
    → g < 256
    → b < 256
    → parse_digits (six_digits upper r g b) ≡ some (from_rgb r g b)
unfolding parse_digits
parse_digits-six upper r g b hr hg hb =
    rw
      (
        pair_up-digits (upper 0) (upper 1) r hr,
        pair_up-digits (upper 2) (upper 3) g hg,
        pair_up-digits (upper 4) (upper 5) b hb,
      )
      refl

pair_up-doubled :
    (u : Bool) (n : ℕ)
    → n < 16
    → pair_up (to_digit (digit_code u n)) (to_digit (digit_code u n)) ≡ some (n * 17)
pair_up-doubled u n h = rw (to_digit-digit_code u n h) (ap some (omega arith))

parse_digits-three :
    (upper : ℕ → Bool) (r g b : ℕ)
    → r < 16
    → g < 16
    → b < 16
    → parse_digits (three_digits upper r g b) ≡ some (from_rgb (r * 17) (g * 17) (b * 17))
unfolding parse_digits
parse_digits-three upper r g b hr hg hb =
    rw
      (
        pair_up-doubled (upper 0) r hr,
        pair_up-doubled (upper 1) g hg,
        pair_up-doubled (upper 2) b hb,
      )
      refl

-- Six hexadecimal digits, or three that stand for doubled ones, each in upper or in lower case, are
-- read as the colour that they spell, with a "#" in front of them or without.
pub try_parse_rgb-digits :
    (upper : ℕ → Bool) (r g b : ℕ)
    → r < 256
    → g < 256
    → b < 256
    → let doubled = from_rgb (r % 16 * 17) (g % 16 * 17) (b % 16 * 17) in
      let short = three_digits upper (r % 16) (g % 16) (b % 16) in
      (try_parse_rgb (35 ∷ six_digits upper r g b) ≡ some (from_rgb r g b))
      × (try_parse_rgb (six_digits upper r g b) ≡ some (from_rgb r g b))
      × (try_parse_rgb (35 ∷ short) ≡ some doubled)
      × (try_parse_rgb short ≡ some doubled)
unfolding try_parse_rgb
try_parse_rgb-digits upper r g b hr hg hb =
    let six = parse_digits-six upper r g b hr hg hb in
    let three =
      parse_digits-three upper (r % 16) (g % 16) (b % 16) (omega arith) (omega arith)
        (omega arith) in
    (
      six,
      rw (digit_code-ne (upper 0) (r / 16)) six,
      three,
      rw (digit_code-ne (upper 0) (r % 16)) three,
    )
