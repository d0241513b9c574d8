-- ===== src/Fish/Wgetopt/Exchange.antt =====
-- wgetopt.rs: `WGetopter::exchange`.
use mathlib.Core.List.{Perm}
use mathlib.Core.List.Perm
use mathlib.Core.List
use reverse_rewrite.Common.{
  ℕ, zero, suc, ◌+◌, ◌-◌, ◌≤◌, ◌≡◌, refl, sym, ap, subst, ◌∙◌, arith, ◌&&◌, none, some, List, [],
  ◌∷◌, ◌++◌, leb, if◌then◌else◌, length, take, drop, take-length, drop-length, length-append,
  append_assoc,
}
use reverse_rewrite.Fish.Wgetopt.{Text, Wgetopter, rotated, exchange}

module _ {ℓ} {A : Type ℓ} where
  take-drop : (n : ℕ) (xs : List A) → take n xs ++ drop n xs ≡ xs
  take-drop zero xs = refl
  take-drop (suc n) [] = refl
  take-drop (suc n) (x ∷ xs) = ap (λ t. x ∷ t) (take-drop n xs)

  drop-drop : (n m : ℕ) (xs : List A) → drop n (drop m xs) ≡ drop (m + n) xs
  drop-drop n zero xs = ap (λ k. drop k xs) (omega arith)
  drop-drop n (suc m) [] = drop-nil n ∙ sym (drop-nil (suc m + n))
    where
      drop-nil : (k : ℕ) → drop {A = A} k [] ≡ []
      drop-nil zero = refl
      drop-nil (suc k) = refl
  drop-drop n (suc m) (x ∷ xs) = drop-drop n m xs ∙ ap (λ k. drop k (x ∷ xs)) (suc-add m n)
    where
      suc-add : (m n : ℕ) → suc (m + n) ≡ suc m + n
      suc-add m n = omega arith

  swapped-Perm :
      (before first second after : List A)
      → Perm (before ++ (first ++ (second ++ after))) (before ++ (second ++ (first ++ after)))
  swapped-Perm before first second after = Perm.append_left before (
      subst (λ l. Perm l (second ++ (first ++ after))) (append_assoc first second after)
        (subst (λ l. Perm ((first ++ second) ++ after) l) (append_assoc second first after)
          (Perm.append_right after (List.perm_append_comm first second))))

  -- the four parts that the indices cut a list into
  parts :
      (left middle right : ℕ) (xs : List A)
      → left ≤ middle
      → middle ≤ right
      → take left xs
          ++ (take (middle - left) (drop left xs)
              ++ (take (right - middle) (drop middle xs) ++ drop right xs))
        ≡ xs
  parts left middle right xs h k =
      ap (λ t. take left xs ++ (take (middle - left) (drop left xs) ++ t))
        (ap (λ t. take (right - middle) (drop middle xs) ++ t) (sym (to middle right k))
          ∙ take-drop (right - middle) (drop middle xs))
      ∙ (ap (λ t. take left xs ++ t)
            (ap (λ t. take (middle - left) (drop left xs) ++ t) (sym (to left middle h))
              ∙ take-drop (middle - left) (drop left xs))
          ∙ take-drop left xs)
    where
      to : (m n : ℕ) → m ≤ n → drop (n - m) (drop m xs) ≡ drop n xs
      to m n le = drop-drop (n - m) m xs ∙ ap (λ j. drop j xs) (omega arith)

  pub rotated-Perm :
      (left middle right : ℕ) (xs : List A)
      → left ≤ middle
      → middle ≤ right
      → Perm xs (rotated left middle right xs)
  unfolding rotated
  rotated-Perm left middle right xs h k =
      subst (λ l. Perm l (rotated left middle right xs)) (parts left middle right xs h k)
        (swapped-Perm (take left xs) (take (middle - left) (drop left xs))
          (take (right - middle) (drop middle xs)) (drop right xs))

  part :
      (n : ℕ) (front middle rest : List A)
      → n ≡ length middle
      → take n (drop (length front) (front ++ (middle ++ rest))) ≡ middle
  part n front middle rest e =
      ap (λ t. take n t) (drop-length front (middle ++ rest))
      ∙ (ap (λ k. take k (middle ++ rest)) e ∙ take-length middle rest)

  -- two neighbouring parts of a list are exchanged
  rotated_lem :
      (before first second after : List A)
      → rotated
          (length before)
          (length (before ++ first))
          (length (before ++ (first ++ second)))
          (before ++ (first ++ (second ++ after)))
        ≡ before ++ (second ++ (first ++ after))
  unfolding rotated
  rotated_lem before first second after =
      let whole = before ++ (first ++ (second ++ after)) in
      let l = length before in
      let m = length (before ++ first) in
      let r = length (before ++ (first ++ second)) in
      let m_eq = length-append before first in
      let r_eq = length-append before (first ++ second) in
      let s_eq = length-append first second in
      let whole_eq : whole ≡ (before ++ first) ++ (second ++ after) =
        sym (append_assoc before first (second ++ after)) in
      let all_eq : whole ≡ (before ++ (first ++ second)) ++ after =
        ap (λ t. before ++ t) (sym (append_assoc first second after))
        ∙ sym (append_assoc before (first ++ second) after) in
      let e1 = take-length before (first ++ (second ++ after)) in
      let e2 : take (r - m) (drop m whole) ≡ second =
        ap (λ w. take (r - m) (drop m w)) whole_eq
        ∙ part (r - m) (before ++ first) second after (omega (arith, m_eq, r_eq, s_eq)) in
      let e3 : take (m - l) (drop l whole) ≡ first =
        part (m - l) before first (second ++ after) (omega (arith, m_eq)) in
      let e4 : drop r whole ≡ after =
        ap (drop r) all_eq ∙ drop-length (before ++ (first ++ second)) after in
      λ i. e1 i ++ (e2 i ++ (e3 i ++ e4 i))

-- indices in order pass the checks
pub taken :
    {A : Type 0} (x y z n : ℕ) {a : A} (b : A)
    → x ≤ y
    → y ≤ z
    → z ≤ n
    → (if leb x y && (leb y z && leb z n) then a else b) ≡ a
taken x y z n b h k l = ground arith

-- The exchange turns the non-options and the options behind them around, and says where they are then:
-- for arguments that are four parts, of which the indices mark the second as non-options and the third
-- as options.
pub exchange_lem :
    (g : Wgetopter) (before nons opts after : List Text)
    → g.argv ≡ before ++ (nons ++ (opts ++ after))
    → g.first_nonopt ≡ length before
    → g.last_nonopt ≡ length (before ++ nons)
    → g.wopt_index ≡ length (before ++ (nons ++ opts))
    → exchange g
      ≡ some (record g {
        argv = before ++ (opts ++ (nons ++ after));
        first_nonopt = length (before ++ opts);
        last_nonopt = length (before ++ (opts ++ nons));
      })
unfolding exchange
exchange_lem g before nons opts after e f l w =
    let b_eq = length-append before nons in
    let c_eq = length-append before (nons ++ opts) in
    let n_eq = length-append nons opts in
    let o_eq = length-append opts nons in
    let d_eq = length-append before opts in
    let d_eq' = length-append before (opts ++ nons) in
    let a_eq = length-append before (nons ++ (opts ++ after)) in
    let a_eq' = length-append nons (opts ++ after) in
    let a_eq'' = length-append opts after in
    let argc : length g.argv ≡ length (before ++ (nons ++ (opts ++ after))) = ap length e in
    let moved : rotated g.first_nonopt g.last_nonopt g.wopt_index g.argv
        ≡ before ++ (opts ++ (nons ++ after)) =
      (λ i. rotated (f i) (l i) (w i) (e i)) ∙ rotated_lem before nons opts after in
    let first_eq : g.first_nonopt + (g.wopt_index - g.last_nonopt) ≡ length (before ++ opts) =
      omega (arith, f, l, w, b_eq, c_eq, n_eq, d_eq) in
    let last_eq : g.wopt_index ≡ length (before ++ (opts ++ nons)) =
      omega (arith, w, c_eq, n_eq, d_eq', o_eq) in
    taken g.first_nonopt g.last_nonopt g.wopt_index (length g.argv) none (omega (arith, f, l, b_eq))
      (omega (arith, l, w, b_eq, c_eq, n_eq))
      (omega (arith, w, c_eq, n_eq, argc, a_eq, a_eq', a_eq''))
    ∙ λ i. some (record g { argv = moved i; first_nonopt = first_eq i; last_nonopt = last_eq i })
