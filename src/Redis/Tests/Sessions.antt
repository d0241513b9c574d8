-- ===== src/Redis/Tests/Sessions.antt =====
-- cmd/subscribe.rs and `Subscriber` of clients/client.rs: each theorem at a concrete input.
use reverse_rewrite.Common.{
  ◌≡◌, ◌↔◌, refl, suc, length, Bool-cases, inl, inr, not, ◌&&◌, ◌||◌, List, [], ◌∷◌, arith,
  if◌then◌else◌,
}
use reverse_rewrite.Common.Text.{Bytes, codes, bytes_eq}
use reverse_rewrite.Common.Order.{bytes_eq_iff}
use reverse_rewrite.Redis.Frame.{nil, array, cons, bulk}
use reverse_rewrite.Redis.Session.{StreamMap, Session, is_key}
use reverse_rewrite.Redis.Session.Channels.{occurrences}
use reverse_rewrite.Redis.Client.{answered}
use reverse_rewrite.Redis.Subscriber.{leaves}
use reverse_rewrite.Redis.Subscriber.Unsubscribing.{leaves-occurrences}

without : Bytes → List Bytes → List Bytes
without c [] = []
without c (k ∷ ks) = let rest = without c ks in if bytes_eq c k then rest else k ∷ rest

is_key-without :
    (c j : Bytes) (ks : List Bytes) → is_key j (without c ks) ≡ (not (bytes_eq c j) && is_key j ks)
unfolding without
is_key-without c j [] = ground arith
is_key-without c j (k ∷ ks) =
    ground (arith, is_key-without c j ks, bytes_eq_iff c k, bytes_eq_iff c j, bytes_eq_iff j k)

is_key-insert :
    (c j : Bytes) (ks : List Bytes)
    → is_key j (if is_key c ks then ks else c ∷ ks) ≡ (bytes_eq c j || is_key j ks)
is_key-insert c j ks = ground (arith, bytes_eq_iff c j, bytes_eq_iff j c)

length-insert :
    (c : Bytes) (ks : List Bytes)
    → length (if is_key c ks then ks else c ∷ ks)
      ≡ (if is_key c ks then length ks else suc (length ks))
length-insert c ks = elim (Bool-cases (is_key c ks)) [
  | inl there ↦ rw there refl
  | inr absent ↦ rw absent refl
]

-- the keys in a list
abbrev listed : StreamMap
listed = record {
  Map = List Bytes;
  empty = [];
  insert = λ c ks. if is_key c ks then ks else c ∷ ks;
  remove = without;
  keys = λ ks. ks;
  keys-empty = refl;
  keys-insert = is_key-insert;
  length-insert = length-insert;
  keys-remove = is_key-without;
}

abbrev two_channels : Session (List Bytes)
two_channels = record { channels = []; subscriptions = codes "a" ∷ codes "b" ∷ []; written = [] }

leaves-occurrences_example :
    let left_with =
      leaves
        (λ s. s)
        (array (cons (bulk (codes "unsubscribe")) (cons (bulk (codes "a")) nil)))
        (codes "a" ∷ codes "b" ∷ codes "a" ∷ []) in
    ((left_with.0 ≡ answered tt)
      ↔ (occurrences (codes "a") (codes "a" ∷ codes "b" ∷ codes "a" ∷ []) ≡ 1))
    × ((j : Bytes)
        → occurrences j left_with.1 ≡ (
            if bytes_eq (codes "a") j
            then 0
            else occurrences j (codes "a" ∷ codes "b" ∷ codes "a" ∷ [])))
leaves-occurrences_example =
    leaves-occurrences (λ s. s) (codes "a") nil (codes "a" ∷ codes "b" ∷ codes "a" ∷ [])
