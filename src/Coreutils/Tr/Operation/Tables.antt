-- ===== src/Coreutils/Tr/Operation/Tables.antt =====
-- operation.rs: what the tables hold for each byte.
use reverse_rewrite.Common.{
  ℕ, ◌≡◌, refl, ap, ◌∙◌, arith, Bool, true, false, ◌||◌, some, [], ◌∷◌, ◌++◌, ==_self, get_or,
  length,
}
use reverse_rewrite.Common.Text.{Bytes}
use reverse_rewrite.Common.Outcome.{ok}
use reverse_rewrite.Coreutils.Tr.Sets.{contains}
use reverse_rewrite.Coreutils.Tr.Operation.{
  put, set_all, set_to_bitmap, assign, last, new_translation,
}

set_all_lem :
    (bitmap : ℕ → Bool) (set : Bytes) (b : ℕ) → set_all bitmap set b ≡ (bitmap b || contains set b)
set_all_lem bitmap [] b = ground arith
set_all_lem bitmap (x ∷ xs) b = ground (arith, set_all_lem (put bitmap x true) xs b)

-- The table of a set holds true at exactly the bytes of the set.
pub set_to_bitmap_lem : (set : Bytes) (b : ℕ) → set_to_bitmap set b ≡ contains set b
unfolding set_to_bitmap
set_to_bitmap_lem set b = set_all_lem (λ _. false) set b

assign-other :
    (table : ℕ → ℕ) (set1 set2 : Bytes) (z b : ℕ)
    → contains set1 b ≡ false
    → assign table set1 set2 z b ≡ table b
assign-other table [] set2 z b h = refl
assign-other table (x ∷ xs) [] z b h = ground (arith, assign-other (put table x z) xs [] z b)
assign-other table (x ∷ xs) (y ∷ ys) z b h = ground (arith, assign-other (put table x y) xs ys z b)

assign-last :
    (table : ℕ → ℕ) (before after set2 : Bytes) (z b : ℕ)
    → contains after b ≡ false
    → assign table (before ++ b ∷ after) set2 z b ≡ get_or set2 (length before) z
assign-last table [] after [] z b h =
    ground (arith, assign-other (put table b z) after [] z b, ==_self b)
assign-last table [] after (y ∷ ys) z b h =
    ground (arith, assign-other (put table b y) after ys z b, ==_self b)
assign-last table (x ∷ xs) after [] z b h =
    ground (arith, assign-last (put table x z) xs after [] z b)
assign-last table (x ∷ xs) after (y ∷ ys) z b h =
    ground (arith, assign-last (put table x y) xs after ys z b)

-- how a table translates set 1 into a set 2 that ends in z
abbrev pub Translates : Bytes → Bytes → ℕ → (ℕ → ℕ) → Type 0
Translates set1 set2 z table =
    ((b : ℕ) → contains set1 b ≡ false → table b ≡ b)
    × ((before after : Bytes) (b : ℕ)
        → set1 ≡ before ++ b ∷ after
        → contains after b ≡ false
        → table b ≡ get_or set2 (length before) z)

-- When set 2 ends in a byte z, the table of a translation exists; it keeps the bytes outside set 1, and
-- takes a byte to the one that stands in set 2 where the byte stands last in set 1, or to z behind the
-- end of set 2.
pub new_translation_lem :
    (set1 set2 : Bytes) (z : ℕ)
    → last set2 ≡ some z
    → (table : ℕ → ℕ) × (new_translation set1 set2 ≡ ok table) × Translates set1 set2 z table
unfolding new_translation
new_translation_lem set1 set2 z h = (
  assign (λ i. i) set1 set2 z,
  ground (arith, h),
  (
    λ b k. assign-other (λ i. i) set1 set2 z b k,
    λ before after b e k.
        ap (λ s. assign (λ i. i) s set2 z b) e ∙ assign-last (λ i. i) before after set2 z b k,
  ),
)
