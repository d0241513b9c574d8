-- ===== src/Hexyl/Line/Groups.antt =====
-- lib.rs: the reordering of groups for little-endian output.
use mathlib.Core.List.{reverse, reverse_aux, reverse-reverse}
use Prim.Native.Nat.{min}
use reverse_rewrite.Common.{
  ℕ, zero, suc, ◌+◌, ◌-◌, ◌≤◌, ◌<◌, ◌≡◌, refl, sym, ap, ◌∙◌, inl, inr, [], ◌∷◌, ◌++◌, arith, ltb,
  ltb→lt, ltb→le, Bool-cases, append-nil, length, take, drop, length-append, length-take,
  length-drop, take-length, drop-length,
}
use reverse_rewrite.Common.Text.{Bytes}
use reverse_rewrite.Hexyl.Printer.{Printer, Endianness, little, big}
use reverse_rewrite.Hexyl.Line.{reorder_groups, reorder_buffer_to_little_endian, in_order}

length-reverse_aux : (s t : Bytes) → length (reverse_aux s t) ≡ length s + length t
length-reverse_aux [] t = omega arith
length-reverse_aux (c ∷ s) t = omega (arith, length-reverse_aux s (c ∷ t))

length-reverse : (s : Bytes) → length (reverse s) ≡ length s
length-reverse s = omega (arith, length-reverse_aux s [])

pub take_all : (n : ℕ) (s : Bytes) → length s ≤ n → take n s ≡ s
take_all zero [] h = refl
take_all zero (c ∷ s) h = absurd (omega arith)
take_all (suc n) [] h = refl
take_all (suc n) (c ∷ s) h = ap (λ t. c ∷ t) (take_all n s (omega arith))

pub drop_all : (n : ℕ) (s : Bytes) → length s ≤ n → drop n s ≡ []
drop_all zero [] h = refl
drop_all zero (c ∷ s) h = absurd (omega arith)
drop_all (suc n) [] h = refl
drop_all (suc n) (c ∷ s) h = drop_all n s (omega arith)

pub take-drop : (n : ℕ) (s : Bytes) → take n s ++ drop n s ≡ s
take-drop zero s = refl
take-drop (suc n) [] = refl
take-drop (suc n) (c ∷ s) = ap (λ t. c ∷ t) (take-drop n s)

reorder_groups-nil : (k g : ℕ) → reorder_groups k (suc g) [] ≡ []
unfolding reorder_groups
reorder_groups-nil zero g = refl
reorder_groups-nil (suc k) g = reorder_groups-nil k g

length-reorder_groups : (k g : ℕ) (s : Bytes) → length (reorder_groups k g s) ≡ length s
unfolding reorder_groups
length-reorder_groups zero g s = refl
length-reorder_groups (suc k) g s = omega (
  arith,
  length-append (reverse (take g s)) (reorder_groups k g (drop g s)),
  length-reverse (take g s),
  length-reorder_groups k g (drop g s),
  length-append (take g s) (drop g s),
  ap length (take-drop g s),
)

pub length-in_order :
    (e : Endianness) (p : Printer) (s : Bytes) → length (in_order e p s) ≡ length s
unfolding reorder_buffer_to_little_endian
length-in_order big p s = refl
length-in_order little p s = length-reorder_groups (length s) p.group_size s

pub take_front : (n : ℕ) (r t : Bytes) → length r ≡ n → take n (r ++ t) ≡ r
take_front n r t h = ap (λ m. take m (r ++ t)) (sym h) ∙ take-length r t

pub drop_front : (n : ℕ) (r t : Bytes) → length r ≡ n → drop n (r ++ t) ≡ t
drop_front n r t h = ap (λ m. drop m (r ++ t)) (sym h) ∙ drop-length r t

reorder_groups_twice :
    (k g : ℕ) (s : Bytes) → length s ≤ k → reorder_groups k (suc g) (reorder_groups k (suc g) s) ≡ s
unfolding reorder_groups
reorder_groups_twice zero g s h = refl
reorder_groups_twice (suc k) g s h =
    let a = take (suc g) s in
    let b = drop (suc g) s in
    let long : length (reverse a) ≡ min (suc g) (length s) =
      length-reverse a ∙ length-take (suc g) s in
    elim (Bool-cases (ltb (length s) (suc g))) [
      | inl short ↦
          rw
            (
              take_all (suc g) s (ground arith),
              drop_all (suc g) s (ground arith),
              reorder_groups-nil k g,
              append-nil (reverse s),
              take_all (suc g) (reverse s) (omega (arith, length-reverse s, ltb→lt _ _ short)),
              drop_all (suc g) (reverse s) (omega (arith, length-reverse s, ltb→lt _ _ short)),
              reorder_groups-nil k g,
              append-nil (reverse (reverse s)),
            )
            (reverse-reverse s)
      | inr full ↦
          let wide : length (reverse a) ≡ suc g = omega (arith, ltb→le _ _ full) in
          rw
            (
              take_front (suc g) (reverse a) (reorder_groups k (suc g) b) wide,
              drop_front (suc g) (reverse a) (reorder_groups k (suc g) b) wide,
              reverse-reverse a,
              reorder_groups_twice k g b (omega (arith, length-drop (suc g) s)),
            )
            (take-drop (suc g) s)
    ]

-- With groups of at least one byte, the little-endian order of a line, put in the little-endian
-- order again, is the line itself, whatever its length: an incomplete last group is turned around
-- like the others.
pub reorder_buffer_twice :
    (p : Printer) (buf : Bytes)
    → 0 < p.group_size
    → reorder_buffer_to_little_endian p (reorder_buffer_to_little_endian p buf) ≡ buf
unfolding reorder_buffer_to_little_endian
reorder_buffer_twice p buf h =
    let size : p.group_size ≡ suc (p.group_size - 1) = omega arith in
    rw (length-reorder_groups (length buf) p.group_size buf, size)
      (reorder_groups_twice (length buf) (p.group_size - 1) buf (omega arith))
