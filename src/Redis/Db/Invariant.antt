-- ===== src/Redis/Db/Invariant.antt =====
-- db.rs: the expirations are those of the entries, and every operation keeps them so.
use reverse_rewrite.Common.{
  ℕ, ◌≡◌, Bool, false, not, ◌&&◌, ◌||◌, Option, none, some, List, ◌∷◌, arith, ◌==◌, inl, inr,
  Option-cases,
}
use reverse_rewrite.Common.Text.{Bytes, bytes_eq}
use reverse_rewrite.Common.Order.{bytes_eq_iff}
use reverse_rewrite.Redis.Db.{Entry, State, update, clear_expiration, track_expiration, set_entry}
use reverse_rewrite.Redis.Db.Expirations.{
  Expiration, remove, has, same_lem, has_first, IsSorted, has-insert, has-remove, insert-IsSorted,
  remove-IsSorted,
}

abbrev pub expiry : Option Entry → Option ℕ
expiry none = none
expiry (some e) = e.expires_at

abbrev pub expires_then : ℕ → Option ℕ → Bool
expires_then t none = false
expires_then t (some u) = t == u

has-clear :
    (key : Bytes) (prev : Option Entry) (es : List Expiration) (t : ℕ) (j : Bytes)
    → IsSorted es
    → ((u : ℕ) → has (u, key) es ≡ expires_then u (expiry prev))
    → has (t, j) (clear_expiration key prev es) ≡ (not (bytes_eq key j) && has (t, j) es)
has-clear key none es t j sorted h = ground (arith, h t, (bytes_eq_iff key j).0)
has-clear key (some prev) es t j sorted h = elim (Option-cases (prev.expires_at)) [
  | inl never ↦ ground (arith, never, h t, (bytes_eq_iff key j).0)
  | inr (w, then_) ↦ ground (
    arith,
    then_,
    h t,
    (bytes_eq_iff key j).0,
    has-remove (w, key) (t, j) es sorted,
    same_lem t w j key,
  )
]

clear-IsSorted :
    (key : Bytes) (prev : Option Entry) (es : List Expiration)
    → IsSorted es
    → IsSorted (clear_expiration key prev es)
clear-IsSorted key none es h = h
clear-IsSorted key (some prev) es h = elim (Option-cases (prev.expires_at)) [
  | inl never ↦ rw never h
  | inr (w, then_) ↦ rw then_ (remove-IsSorted (w, key) es h)
]

has-track :
    (key : Bytes) (expires_at : Option ℕ) (es : List Expiration) (t : ℕ) (j : Bytes)
    → has (t, j) (track_expiration key expires_at es)
      ≡ (bytes_eq key j && expires_then t expires_at || has (t, j) es)
has-track key none es t j = ground arith
has-track key (some w) es t j = ground (arith, has-insert (w, key) (t, j) es, same_lem t w j key)

track-IsSorted :
    (key : Bytes) (expires_at : Option ℕ) (es : List Expiration)
    → IsSorted es
    → IsSorted (track_expiration key expires_at es)
track-IsSorted key none es h = h
track-IsSorted key (some w) es h = insert-IsSorted (w, key) es h

module _ {Sender : Type 0} where
  -- `(when, key)` is tracked exactly if the entry of `key` expires at `when`.
  pub record IsConsistent (s : State Sender) : Type 0 where
    pub sorted : IsSorted s.expirations
    pub tracked :
        (t : ℕ) (k : Bytes) → has (t, k) s.expirations ≡ expires_then t (expiry (s.entries k))

  pub set_entry-IsConsistent :
      (key value : Bytes) (expires_at : Option ℕ) (s : State Sender)
      → IsConsistent s
      → IsConsistent (set_entry key value expires_at s)
  unfolding set_entry
  set_entry-IsConsistent key value expires_at s c = record {
    sorted =
        track-IsSorted key expires_at _ (clear-IsSorted key (s.entries key) s.expirations c.sorted);
    tracked = λ t j. ground (
      arith,
      has-track key expires_at (clear_expiration key (s.entries key) s.expirations) t j,
      has-clear key (s.entries key) s.expirations t j c.sorted (λ u. c.tracked u key),
      c.tracked t j,
    );
  }

  -- the expirations after a `set`: that of the key is replaced
  pub has-set_entry :
      (key value : Bytes) (expires_at : Option ℕ) (s : State Sender) (t : ℕ) (j : Bytes)
      → IsConsistent s
      → has (t, j) (set_entry key value expires_at s).expirations ≡ (
          bytes_eq key j && expires_then t expires_at
          || not (bytes_eq key j) && has (t, j) s.expirations)
  unfolding set_entry
  has-set_entry key value expires_at s t j c = ground (
    arith,
    has-track key expires_at (clear_expiration key (s.entries key) s.expirations) t j,
    has-clear key (s.entries key) s.expirations t j c.sorted (λ u. c.tracked u key),
  )

  -- one round of the purge, on the first expiration
  pub purge_round-IsConsistent :
      (e : Expiration) (es : List Expiration) (s : State Sender)
      → s.expirations ≡ e ∷ es
      → IsConsistent s
      → IsConsistent
          (record s { entries = update s.entries e.1 none; expirations = remove e s.expirations })
  purge_round-IsConsistent e es s first c = record {
    sorted = remove-IsSorted e s.expirations c.sorted;
    tracked = λ t j. ground (
      arith,
      has-remove e (t, j) s.expirations c.sorted,
      same_lem t e.0 j e.1,
      c.tracked t j,
      c.tracked e.0 e.1,
      c.tracked t e.1,
      (bytes_eq_iff e.1 j).0,
      has_first e s.expirations es first,
    );
  }
