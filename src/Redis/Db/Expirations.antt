-- ===== src/Redis/Db/Expirations.antt =====
-- db.rs: `BTreeSet<(Instant, String)>`, as its elements in ascending order.
use Prim.Native.Nat.{Ordering, lt, eq, gt}
use reverse_rewrite.Common.{
  ℕ, ◌≤◌, ◌≡◌, refl, Bool, true, false, not, ◌&&◌, ◌||◌, ◌==◌, List, [], ◌∷◌, arith, All,
}
use reverse_rewrite.Common.Text.{Bytes, bytes_eq}
use reverse_rewrite.Common.Order.{
  compare_bytes, compare_bytes-eq, compare_bytes_self, compare_bytes_trans, compare_bytes-gt,
  bytes_eq_iff,
}

abbrev pub Expiration : Type 0
Expiration = ℕ × Bytes

-- The order of pairs: by the instant, then by the key.
unfoldable pub compare_expiration : Expiration → Expiration → Ordering
compare_expiration e d = compare_bytes (e.0 ∷ e.1) (d.0 ∷ d.1)

abbrev pub same : Expiration → Expiration → Bool
same e d = elim (compare_expiration e d) [ eq ↦ true | _ ↦ false ]

unfoldable pub insert : Expiration → List Expiration → List Expiration
insert e [] = e ∷ []
insert e (x ∷ xs) = elim (compare_expiration e x) [
  | lt ↦ e ∷ x ∷ xs
  | eq ↦ x ∷ xs
  | gt ↦ x ∷ insert e xs
]

unfoldable pub remove : Expiration → List Expiration → List Expiration
remove e [] = []
remove e (x ∷ xs) = elim (compare_expiration e x) [ eq ↦ xs | _ ↦ x ∷ remove e xs ]

unfoldable pub has : Expiration → List Expiration → Bool
has e [] = false
has e (x ∷ xs) = same e x || has e xs

abbrev pub After : Expiration → List Expiration → Type 0
After e xs = All (λ x. compare_expiration e x ≡ lt) xs

abbrev pub IsSorted : List Expiration → Type 0
IsSorted [] = Unit
IsSorted (x ∷ xs) = After x xs × IsSorted xs

compare-eq : (e d : Expiration) → compare_expiration e d ≡ eq → e ≡ d
unfolding compare_expiration
compare-eq e d h = ground (arith, compare_bytes-eq e.1 d.1)

compare_self : (e : Expiration) → compare_expiration e e ≡ eq
unfolding compare_expiration
compare_self e = ground (arith, compare_bytes_self e.1)

compare_trans :
    (c d e : Expiration)
    → compare_expiration c d ≡ lt
    → compare_expiration d e ≡ lt
    → compare_expiration c e ≡ lt
unfolding compare_expiration
compare_trans c d e = compare_bytes_trans (c.0 ∷ c.1) (d.0 ∷ d.1) (e.0 ∷ e.1)

compare-gt : (c d : Expiration) → compare_expiration c d ≡ gt → compare_expiration d c ≡ lt
unfolding compare_expiration
compare-gt c d = compare_bytes-gt (c.0 ∷ c.1) (d.0 ∷ d.1)

pub compare-lt-le : (c d : Expiration) → compare_expiration c d ≡ lt → c.0 ≤ d.0
unfolding compare_expiration
compare-lt-le c d h = ground arith

pub same→eq : (e d : Expiration) → same e d ≡ true → e ≡ d
same→eq e d h = ground (arith, compare-eq e d)

pub same_self : (e : Expiration) → same e e ≡ true
same_self e = ground (arith, compare_self e)

pub has-insert :
    (e d : Expiration) (xs : List Expiration) → has d (insert e xs) ≡ (same d e || has d xs)
unfolding has insert
has-insert e d [] = ground arith
has-insert e d (x ∷ xs) = ground (arith, has-insert e d xs, compare-eq e x)

After-trans :
    (e x : Expiration) (xs : List Expiration)
    → compare_expiration e x ≡ lt
    → After x xs
    → After e xs
After-trans e x [] h a = tt
After-trans e x (y ∷ ys) h (a, as') = (compare_trans e x y h a, After-trans e x ys h as')

After-insert :
    (e x : Expiration) (xs : List Expiration)
    → compare_expiration x e ≡ lt
    → After x xs
    → After x (insert e xs)
unfolding insert
After-insert e x [] h a = (h, tt)
After-insert e x (y ∷ ys) h (a, as') = ground (arith, After-insert e x ys h as')

pub insert-IsSorted : (e : Expiration) (xs : List Expiration) → IsSorted xs → IsSorted (insert e xs)
unfolding insert
insert-IsSorted e [] h = (tt, tt)
insert-IsSorted e (x ∷ xs) (a, h) =
    ground (arith, After-trans e x xs, After-insert e x xs, compare-gt e x, insert-IsSorted e xs h)

After-has : (e : Expiration) (xs : List Expiration) → After e xs → has e xs ≡ false
unfolding has
After-has e [] a = refl
After-has e (x ∷ xs) (a, as') = ground (arith, After-has e xs as')

After-remove : (e x : Expiration) (xs : List Expiration) → After x xs → After x (remove e xs)
unfolding remove
After-remove e x [] a = tt
After-remove e x (y ∷ ys) (a, as') = ground (arith, After-remove e x ys as')

pub remove-IsSorted : (e : Expiration) (xs : List Expiration) → IsSorted xs → IsSorted (remove e xs)
unfolding remove
remove-IsSorted e [] h = tt
remove-IsSorted e (x ∷ xs) (a, h) = ground (arith, After-remove e x xs a, remove-IsSorted e xs h)

pub has-remove :
    (e d : Expiration) (xs : List Expiration)
    → IsSorted xs
    → has d (remove e xs) ≡ (not (same d e) && has d xs)
unfolding has remove
has-remove e d [] h = ground arith
has-remove e d (x ∷ xs) (a, h) = ground (
  arith,
  has-remove e d xs h,
  compare-eq e x,
  compare-eq d e,
  compare-eq d x,
  After-has x xs a,
  compare_self x,
)

-- the first of the set is removed by dropping it
pub remove_first : (e : Expiration) (xs : List Expiration) → remove e (e ∷ xs) ≡ xs
unfolding remove
remove_first e xs = ground (arith, compare_self e)

pub same_lem : (t u : ℕ) (j k : Bytes) → same (t, j) (u, k) ≡ (t == u && bytes_eq k j)
unfolding compare_expiration
same_lem t u j k =
    let (f, g) = bytes_eq_iff k j in
    ground (arith, f, g, compare_bytes-eq j k, compare_bytes_self k)

-- the first of a sorted set comes before all others
pub first-le :
    (e d : Expiration) (xs : List Expiration)
    → IsSorted (e ∷ xs)
    → has d (e ∷ xs) ≡ true
    → e.0 ≤ d.0
unfolding has
first-le e d [] (a, h) m = ground (arith, same→eq d e)
first-le e d (x ∷ xs) ((b, bs), h) m =
    ground (arith, same→eq d e, compare-lt-le e x b, first-le x d xs h)

pub has_first : (e : Expiration) (xs es : List Expiration) → xs ≡ e ∷ es → has e xs ≡ true
unfolding has
has_first e xs es h = rw h (ground (arith, same_self e))
