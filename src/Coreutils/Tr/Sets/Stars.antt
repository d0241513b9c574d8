-- ===== src/Coreutils/Tr/Sets/Stars.antt =====
-- operation.rs: how long a star of set 2 becomes.
use reverse_rewrite.Common.{
  ℕ, zero, suc, ◌-◌, ◌≡◌, refl, sym, ap, ◌∙◌, arith, Bool, Option, none, some, List, [], ◌∷◌, ◌++◌,
  if◌then◌else◌, length, append_assoc,
}
use reverse_rewrite.Common.Text.{Bytes}
use reverse_rewrite.Common.Outcome.{ok}
use reverse_rewrite.Coreutils.Tr.Sequence.{
  Sequence, char, char_range, char_star, char_repeat, class_of,
}
use reverse_rewrite.Coreutils.Tr.Sets.{
  repeat_n, flatten, flatten_all, range_to, flatten_class, append_flat, is_char_star, count_if,
  complement_of, without_stars, replace_stars, solve,
}
use reverse_rewrite.Coreutils.Tr.Sets.Filled.{solve-Parts}

-- what a star becomes
abbrev pub filling : ℕ → ℕ → Bytes
filling zero n = []
filling (suc c) n = repeat_n (suc c) n

append_flat_assoc :
    (a b c : Option Bytes) → append_flat (append_flat a b) c ≡ append_flat a (append_flat b c)
append_flat_assoc none b c = refl
append_flat_assoc (some x) none c = refl
append_flat_assoc (some x) (some y) none = refl
append_flat_assoc (some x) (some y) (some z) = ap some (append_assoc x y z)

flat-append :
    (before after : List Sequence)
    → flatten_all (before ++ after) ≡ append_flat (flatten_all before) (flatten_all after)
unfolding flatten_all
flat-append [] after = nothing_before (flatten_all after)
  where
    nothing_before : (o : Option Bytes) → o ≡ append_flat (some []) o
    nothing_before none = refl
    nothing_before (some xs) = refl
flat-append (s ∷ before) after =
    ap (λ o. append_flat (flatten s) o) (flat-append before after)
    ∙ sym (append_flat_assoc (flatten s) (flatten_all before) (flatten_all after))

tail-some :
    (first : Option Bytes) (o : Option Bytes) {p : Bytes}
    → append_flat first o ≡ some p
    → (q : Bytes) × (o ≡ some q)
tail-some none o h = cc
tail-some (some x) none h = cc
tail-some (some x) (some y) h = (y, refl)

counted :
    (set : List Sequence) (p : Bytes) → flatten_all set ≡ some p → count_if is_char_star set ≡ 0
unfolding flatten_all
counted [] p h = refl
counted (char c ∷ ss) p h =
    let (q, k) = tail-some (some (c ∷ [])) (flatten_all ss) h in counted ss q k
counted (char_range l r ∷ ss) p h =
    let (q, k) = tail-some (some (range_to l r)) (flatten_all ss) h in counted ss q k
counted (char_star c ∷ ss) p h = cc
counted (char_repeat c n ∷ ss) p h =
    let (q, k) = tail-some (some (repeat_n c n)) (flatten_all ss) h in counted ss q k
counted (class_of c ∷ ss) p h =
    let (q, k) = tail-some (some (flatten_class c)) (flatten_all ss) h in counted ss q k

plain_replaced :
    (n : ℕ) (set : List Sequence) → count_if is_char_star set ≡ 0 → replace_stars n set ≡ set
plain_replaced n [] h = refl
plain_replaced n (char c ∷ ss) h = ap (λ t. char c ∷ t) (plain_replaced n ss h)
plain_replaced n (char_range l r ∷ ss) h = ap (λ t. char_range l r ∷ t) (plain_replaced n ss h)
plain_replaced n (char_star c ∷ ss) h = absurd (omega arith)
plain_replaced n (char_repeat c k ∷ ss) h = ap (λ t. char_repeat c k ∷ t) (plain_replaced n ss h)
plain_replaced n (class_of c ∷ ss) h = ap (λ t. class_of c ∷ t) (plain_replaced n ss h)

plain_without : (set : List Sequence) → count_if is_char_star set ≡ 0 → without_stars set ≡ set
plain_without [] h = refl
plain_without (s ∷ ss) h = ground (arith, plain_without ss)

replace-append :
    (n : ℕ) (s t : List Sequence)
    → replace_stars n (s ++ t) ≡ replace_stars n s ++ replace_stars n t
replace-append n [] t = refl
replace-append n (char c ∷ ss) t = ap (λ t. char c ∷ t) (replace-append n ss t)
replace-append n (char_range l r ∷ ss) t = ap (λ t. char_range l r ∷ t) (replace-append n ss t)
replace-append n (char_star zero ∷ ss) t = replace-append n ss t
replace-append n (char_star (suc c) ∷ ss) t =
    ap (λ t. char_repeat (suc c) n ∷ t) (replace-append n ss t)
replace-append n (char_repeat c k ∷ ss) t = ap (λ t. char_repeat c k ∷ t) (replace-append n ss t)
replace-append n (class_of c ∷ ss) t = ap (λ t. class_of c ∷ t) (replace-append n ss t)

without-append : (s t : List Sequence) → without_stars (s ++ t) ≡ without_stars s ++ without_stars t
without-append [] t = refl
without-append (s ∷ ss) t = ground (arith, without-append ss t)

-- the bytes of a set with its star replaced, and with its star left out
module _ (before after : List Sequence) (p q : Bytes) (h : flatten_all before ≡ some p)
    (k : flatten_all after ≡ some q) where
  flat_plain : (c : ℕ) → flatten_all (without_stars (before ++ char_star c ∷ after)) ≡ some (p ++ q)
  flat_plain c =
      ap flatten_all (
        without-append before (char_star c ∷ after)
        ∙ (ap (λ s. s ++ without_stars after) (plain_without before (counted before p h))
            ∙ ap (λ s. before ++ s) (plain_without after (counted after q k))))
      ∙ (flat-append before after
          ∙ (ap (λ o. append_flat o (flatten_all after)) h ∙ ap (append_flat (some p)) k))

  flat_star :
      (c n : ℕ) → flatten_all (replace_stars n (char_star c ∷ after)) ≡ some (filling c n ++ q)
  unfolding flatten_all
  flat_star zero n = ap flatten_all (plain_replaced n after (counted after q k)) ∙ k
  flat_star (suc c) n =
      ap (λ o. append_flat (some (repeat_n (suc c) n)) o)
        (ap flatten_all (plain_replaced n after (counted after q k)) ∙ k)

  flat_filled :
      (c n : ℕ)
      → flatten_all (replace_stars n (before ++ char_star c ∷ after))
        ≡ some (p ++ (filling c n ++ q))
  flat_filled c n =
      ap flatten_all (
        replace-append n before (char_star c ∷ after)
        ∙ ap (λ s. s ++ replace_stars n (char_star c ∷ after))
            (plain_replaced n before (counted before p h)))
      ∙ (flat-append before (replace_stars n (char_star c ∷ after))
          ∙ (ap (λ o. append_flat o (flatten_all (replace_stars n (char_star c ∷ after)))) h
              ∙ ap (append_flat (some p)) (flat_star c n)))

some-eq : {A : Type 0} {a b : A} → some a ≡ some b → a ≡ b
some-eq h = cc

-- When set 2 is one star of a byte c between sequences that flatten to p and q, and solving succeeds,
-- the solved set 2 is p, then c as often as set 1 (or its complement) is longer than p and q together,
-- then q; but no byte at all in place of the star when c is 0.
pub solve_star :
    (complement truncate translating : Bool) (set1 before after : List Sequence) (c : ℕ)
    (flat p q xs ys : Bytes)
    → flatten_all set1 ≡ some flat
    → flatten_all before ≡ some p
    → flatten_all after ≡ some q
    → solve complement truncate translating set1 (before ++ char_star c ∷ after) ≡ ok (xs, ys)
    → (let whole = if complement then complement_of flat else flat in
        ys ≡ p ++ (filling c (length whole - length (p ++ q)) ++ q))
solve_star complement truncate translating set1 before after c flat p q xs ys f h k came =
    let (flat', plain, f', l, (m, _)) =
      solve-Parts complement truncate translating set1 (before ++ char_star c ∷ after) xs ys came in
    let same = some-eq (sym f' ∙ f) in
    let rest = some-eq (sym l ∙ flat_plain before after p q h k c) in
    let n : Bytes → Bytes → ℕ =
      λ w u. length (if complement then complement_of w else w) - length u in
    some-eq (sym m ∙ flat_filled before after p q h k c (n flat' plain))
    ∙ ap (λ t. p ++ (filling c t ++ q)) (ap (λ w. n w plain) same ∙ ap (λ u. n flat u) rest)
