-- ===== src/Coreutils/Tr/Operation/Squeezing.antt =====
-- operation.rs: what `SqueezeOperation` leaves of an input.
use reverse_rewrite.Common.{
  ℕ, ◌≡◌, refl, arith, Bool, true, not, ◌&&◌, Option, none, some, [], ◌∷◌, if◌then◌else◌, ◌==◌,
  ==→eq,
}
use reverse_rewrite.Common.Text.{Bytes}
use reverse_rewrite.Coreutils.Tr.Operation.{keep, is_previous, squeeze_operation, translate_buffer}

module _ (table : ℕ → Bool) where
  -- no byte of the table stands behind an equal one
  abbrev pub apart : Option ℕ → Bytes → Bool
  apart previous [] = true
  apart previous (b ∷ bs) = not (table b && is_previous previous b) && apart (some b) bs

  abbrev pub squeeze : Option ℕ → Bytes → Bytes
  squeeze previous input = (translate_buffer (squeeze_operation table) previous input).0

  squeeze-apart :
      (previous : Option ℕ) (input : Bytes) → apart previous (squeeze previous input) ≡ true
  unfolding translate_buffer
  squeeze-apart previous [] = refl
  squeeze-apart none (b ∷ bs) = ground (arith, squeeze-apart (some b) bs)
  squeeze-apart (some v) (b ∷ bs) = ground (arith, squeeze-apart (some b) bs, ==→eq v b)

  squeeze-others :
      (previous : Option ℕ) (input : Bytes)
      → keep (λ b. not (table b)) (squeeze previous input) ≡ keep (λ b. not (table b)) input
  unfolding translate_buffer
  squeeze-others previous [] = refl
  squeeze-others none (b ∷ bs) = ground (arith, squeeze-others (some b) bs)
  squeeze-others (some v) (b ∷ bs) = ground (arith, squeeze-others (some b) bs)

  apart-squeeze :
      (previous : Option ℕ) (input : Bytes)
      → apart previous input ≡ true
      → squeeze previous input ≡ input
  unfolding translate_buffer
  apart-squeeze previous [] h = refl
  apart-squeeze none (b ∷ bs) h = ground (arith, apart-squeeze (some b) bs)
  apart-squeeze (some v) (b ∷ bs) h = ground (arith, apart-squeeze (some b) bs)

  -- a byte of the table goes when the same byte stands behind it
  abbrev pub without_repeats : Bytes → Bytes
  without_repeats [] = []
  without_repeats (b ∷ []) = b ∷ []
  without_repeats (b ∷ c ∷ bs) =
      let rest = without_repeats (c ∷ bs) in if table b && b == c then rest else b ∷ rest

  without_repeats-squeeze :
      (v : ℕ) (input : Bytes) → without_repeats (v ∷ input) ≡ v ∷ squeeze (some v) input
  unfolding translate_buffer
  without_repeats-squeeze v [] = refl
  without_repeats-squeeze v (c ∷ cs) = ground (arith, without_repeats-squeeze c cs, ==→eq v c)

  pub squeeze-without_repeats : (input : Bytes) → squeeze none input ≡ without_repeats input
  unfolding translate_buffer
  squeeze-without_repeats [] = refl
  squeeze-without_repeats (b ∷ bs) = ground (arith, without_repeats-squeeze b bs)

-- Squeezing leaves no byte of the table behind an equal one, takes no byte outside the table away, and
-- changes nothing when it is done a second time.
pub squeeze_lem :
    (table : ℕ → Bool) (input : Bytes)
    → (apart table none (squeeze table none input) ≡ true)
      × (keep (λ b. not (table b)) (squeeze table none input) ≡ keep (λ b. not (table b)) input)
      × (squeeze table none (squeeze table none input) ≡ squeeze table none input)
squeeze_lem table input =
    let h = squeeze-apart table none input in
    (h, squeeze-others table none input, apart-squeeze table none (squeeze table none input) h)
