-- ===== src/Common/Order.antt =====
-- The lexicographic order of byte strings, `Ord` of the Rust standard library.
use Prim.Native.Nat.{compare, Ordering, lt, eq, gt}
use mathlib.Core.Path.{◌≡◌, refl}
use mathlib.Core.List.{[], ◌∷◌}
use mathlib.Core.Bool.{true}
use mathlib.Core.Logic.{◌↔◌}
use native.Mathlib.Omega.{arith}
use reverse_rewrite.Common.Text.{Bytes, bytes_eq}

abbrev pub compare_bytes : Bytes → Bytes → Ordering
compare_bytes [] [] = eq
compare_bytes [] (b ∷ t) = lt
compare_bytes (a ∷ s) [] = gt
compare_bytes (a ∷ s) (b ∷ t) = elim (compare a b) [ lt ↦ lt | eq ↦ compare_bytes s t | gt ↦ gt ]

pub compare_bytes-eq : (s t : Bytes) → compare_bytes s t ≡ eq → s ≡ t
compare_bytes-eq [] [] h = refl
compare_bytes-eq [] (b ∷ t) h = cc
compare_bytes-eq (a ∷ s) [] h = cc
compare_bytes-eq (a ∷ s) (b ∷ t) h = ground (arith, compare_bytes-eq s t)

pub compare_bytes_self : (s : Bytes) → compare_bytes s s ≡ eq
compare_bytes_self [] = refl
compare_bytes_self (a ∷ s) = ground (arith, compare_bytes_self s)

pub compare_bytes_trans :
    (s t u : Bytes) → compare_bytes s t ≡ lt → compare_bytes t u ≡ lt → compare_bytes s u ≡ lt
compare_bytes_trans [] [] u h k = cc
compare_bytes_trans [] (b ∷ t) [] h k = cc
compare_bytes_trans [] (b ∷ t) (c ∷ u) h k = refl
compare_bytes_trans (a ∷ s) [] u h k = cc
compare_bytes_trans (a ∷ s) (b ∷ t) [] h k = cc
compare_bytes_trans (a ∷ s) (b ∷ t) (c ∷ u) h k = ground (arith, compare_bytes_trans s t u)

pub compare_bytes-gt : (s t : Bytes) → compare_bytes s t ≡ gt → compare_bytes t s ≡ lt
compare_bytes-gt [] [] h = cc
compare_bytes-gt [] (b ∷ t) h = cc
compare_bytes-gt (a ∷ s) [] h = refl
compare_bytes-gt (a ∷ s) (b ∷ t) h = ground (arith, compare_bytes-gt s t)

pub bytes_eq_iff : (s t : Bytes) → (bytes_eq s t ≡ true) ↔ (s ≡ t)
bytes_eq_iff [] [] = (λ h. refl, λ h. refl)
bytes_eq_iff [] (b ∷ t) = (λ h. cc, λ h. cc)
bytes_eq_iff (a ∷ s) [] = (λ h. cc, λ h. cc)
bytes_eq_iff (a ∷ s) (b ∷ t) =
    let (f, g) = bytes_eq_iff s t in (λ h. ground (arith, f), λ h. ground (arith, g))

pub bytes_eq_self : (s : Bytes) → bytes_eq s s ≡ true
bytes_eq_self s = (bytes_eq_iff s s).1 refl
