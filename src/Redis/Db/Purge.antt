-- ===== src/Redis/Db/Purge.antt =====
-- db.rs: `purge_expired_keys` removes the entries that are due, and no others.
use reverse_rewrite.Common.{
  ℕ, suc, zero, ◌<◌, ◌≤◌, ◌≡◌, refl, ◌⊎◌, ◌∙◌, ltb→lt, ltb→le, true, false, Option, none, some,
  List, [], ◌∷◌, arith, ltb, if◌then◌else◌, length, inl, inr, Option-cases, Bool-cases,
}
use reverse_rewrite.Common.Text.{Bytes}
use reverse_rewrite.Common.Order.{bytes_eq_iff}
use reverse_rewrite.Redis.Db.{Entry, State, update, purge_loop, purge, next_expiration}
use reverse_rewrite.Redis.Db.Expirations.{
  Expiration, remove, has, has_first, first-le, remove_first,
}
use reverse_rewrite.Redis.Db.Invariant.{
  expiry, expires_then, IsConsistent, purge_round-IsConsistent,
}

-- What is left of an entry at the instant `now`.
abbrev pub unexpired_then : ℕ → Option ℕ → Entry → Option Entry
unexpired_then now none e = some e
unexpired_then now (some t) e = if ltb now t then some e else none

abbrev pub unexpired : ℕ → Option Entry → Option Entry
unexpired now none = none
unexpired now (some e) = unexpired_then now e.expires_at e

-- an entry that is due later is kept
kept :
    (now : ℕ) (k : Bytes) (entry : Option Entry)
    → ((t : ℕ) → expires_then t (expiry entry) ≡ true → now < t)
    → entry ≡ unexpired now entry
kept now k none h = refl
kept now k (some e) h = elim (Option-cases (e.expires_at)) [
  | inl never ↦ ground (arith, never)
  | inr (t, then_) ↦ ground (arith, then_, h t)
]

pub List-cases {ℓ} :
    {A : Type ℓ} (xs : List A) → (xs ≡ []) ⊎ ((y : A) × (ys : List A) × (xs ≡ y ∷ ys))
List-cases [] = inl refl
List-cases (y ∷ ys) = inr (y, ys, refl)

module _ {Sender : Type 0} where
  -- `next` and `s'` are the answer of a purge of `s` at the instant `now`.
  pub record Purged (now : ℕ) (s : State Sender) (next : Option ℕ) (s' : State Sender)
      : Type 0 where
    pub consistent : IsConsistent s'
    pub left : (k : Bytes) → s'.entries k ≡ unexpired now (s.entries k)
    pub earliest : next ≡ next_expiration s'
    pub later : (t : ℕ) → next ≡ some t → now < t
    pub channels : s'.pub_sub ≡ s.pub_sub
    pub running : s'.shutdown ≡ s.shutdown

  round : Expiration → State Sender → State Sender
  round e s = record s { entries = update s.entries e.1 none; expirations = remove e s.expirations }

  purge_loop_empty :
      (f now : ℕ) (s : State Sender) → s.expirations ≡ [] → purge_loop (suc f) now s ≡ (none, s)
  unfolding purge_loop
  purge_loop_empty f now s h = ground (arith, h)

  purge_loop_later :
      (f now : ℕ) (s : State Sender) (e : Expiration) (es : List Expiration)
      → s.expirations ≡ e ∷ es
      → now < e.0
      → purge_loop (suc f) now s ≡ (some e.0, s)
  unfolding purge_loop
  purge_loop_later f now s e es h late = ground (arith, h)

  purge_loop_due :
      (f now : ℕ) (s : State Sender) (e : Expiration) (es : List Expiration)
      → s.expirations ≡ e ∷ es
      → e.0 ≤ now
      → purge_loop (suc f) now s ≡ purge_loop f now (round e s)
  unfolding purge_loop round
  purge_loop_due f now s e es h due = ground (arith, h)

  -- nothing is due
  stop :
      (now : ℕ) (s : State Sender) (next : Option ℕ)
      → IsConsistent s
      → next ≡ next_expiration s
      → ((t : ℕ) → next ≡ some t → now < t)
      → ((d : Expiration) → has d s.expirations ≡ true → now < d.0)
      → Purged now s next s
  stop now s next c e later all_later = record {
    consistent = c;
    left = λ k. kept now k (s.entries k) (λ t then_. all_later (t, k) (c.tracked t k ∙ then_));
    earliest = e;
    later = later;
    channels = refl;
    running = refl;
  }

  Purged-round :
      (now : ℕ) (s : State Sender) (e : Expiration) (es : List Expiration) (next : Option ℕ)
      (s' : State Sender)
      → s.expirations ≡ e ∷ es
      → e.0 ≤ now
      → IsConsistent s
      → Purged now (round e s) next s'
      → Purged now s next s'
  unfolding round
  Purged-round now s e es next s' h due c p = record {
    consistent = p.consistent;
    left = λ k. ground (
      arith,
      p.left k,
      c.tracked e.0 e.1,
      has_first e s.expirations es h,
      (bytes_eq_iff e.1 k).0,
    );
    earliest = p.earliest;
    later = p.later;
    channels = p.channels;
    running = p.running;
  }

  purge_loop-Purged :
      (f now : ℕ) (s : State Sender)
      → IsConsistent s
      → length s.expirations < f
      → Purged now s (purge_loop f now s).0 (purge_loop f now s).1
  purge_loop-Purged zero now s c enough = absurd (omega arith)
  purge_loop-Purged (suc f) now s c enough = elim (List-cases (s.expirations)) [
    | inl h ↦ rw (purge_loop_empty f now s h) (
        stop now s none c (unfold next_expiration in ground (arith, h)) (λ t e. cc)
          (λ d m. absurd (unfold has in ground (arith, h, m))))
    | inr (e, es, h) ↦ elim (Bool-cases (ltb now e.0)) [
      | inl late ↦ rw (purge_loop_later f now s e es h (ltb→lt _ _ late)) (
          stop now s (some e.0) c (unfold next_expiration in ground (arith, h))
            (λ t q. ground arith)
            (λ d m.
              omega (arith, first-le e d es (rw h at (c.sorted)) (rw h at m), ltb→lt _ _ late)))
      | inr due ↦ rw (purge_loop_due f now s e es h (ltb→le _ _ due)) (
          Purged-round now s e es _ _ h (ltb→le _ _ due) c (
            purge_loop-Purged f now (round e s)
              (unfold round in purge_round-IsConsistent e es s h c)
              (unfold round in ground (arith, h, remove_first e es))))
    ]
  ]

  -- A purge of a consistent state that is not shutting down removes exactly the entries whose
  -- expiration is not after `now`, leaves the state consistent, and returns the earliest expiration
  -- that is left, which is after `now`; the channels and the shutdown flag stay as they are.
  pub purge-Purged :
      (now : ℕ) (s : State Sender)
      → IsConsistent s
      → s.shutdown ≡ false
      → Purged now s (purge now s).0 (purge now s).1
  unfolding purge
  purge-Purged now s c running =
      simp running (purge_loop-Purged (suc (length s.expirations)) now s c (omega arith))
