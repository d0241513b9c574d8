-- ===== src/Redis/Db/Task/Awake.antt =====
-- db.rs: what holds while the task rests, and that the calls of clients keep it.
use reverse_rewrite.Common.{
  ℕ, ◌+◌, ◌<◌, ◌≤◌, ◌≡◌, ◌⊎◌, inl, inr, Bool, true, false, Option, none, some, arith, ltb,
  if◌then◌else◌, Bool-cases,
}
use reverse_rewrite.Common.Text.{Bytes}
use reverse_rewrite.Redis.Db.{
  State, Shared, Ran, next_expiration, set_entry, wakes, set_locked, set_for, set,
  shutdown_purge_task, instant_limit,
}
use reverse_rewrite.Redis.Db.Expirations.{Expiration, has, has_first}
use reverse_rewrite.Redis.Db.Invariant.{IsConsistent, set_entry-IsConsistent, has-set_entry}
use reverse_rewrite.Redis.Db.Purge.{List-cases}
use reverse_rewrite.Redis.Db.Task.{
  Phase, World, checking, purging, waiting, finished, crashed, sleeping,
}

module _ {Sender : Type 0} where
  -- Without a permit, nothing that the task waits for can come earlier than it knows.
  abbrev pub Rests : Phase → State Sender → Type 0
  Rests (sleeping when) s =
      (s.shutdown ≡ false) × ((d : Expiration) → has d s.expirations ≡ true → when ≤ d.0)
  Rests waiting s = (s.shutdown ≡ false) × ((d : Expiration) → has d s.expirations ≡ false)
  Rests checking s = Unit
  Rests purging s = s.shutdown ≡ false
  Rests finished s = Unit
  Rests crashed s = Unit

  pub record IsAwake (w : World Sender) : Type 0 where
    pub consistent : IsConsistent w.shared.state
    pub bounded : w.seen ≤ w.shared.notifications
    pub rests : (w.seen < w.shared.notifications) ⊎ Rests w.phase w.shared.state

  pub if-holds :
      {A : Type 0} (P : Ran A × Shared Sender → Type 0) (b : Bool) {x y : Ran A × Shared Sender}
      → P x
      → P y
      → P (if b then x else y)
  if-holds P true px py = px
  if-holds P false px py = py

  set_no_earlier :
      (key value : Bytes) (w : Option ℕ) (s : State Sender) (when : ℕ)
      → IsConsistent s
      → ((d : Expiration) → has d s.expirations ≡ true → when ≤ d.0)
      → (wakes w s ≡ true)
        ⊎ ((d : Expiration) → has d (set_entry key value w s).expirations ≡ true → when ≤ d.0)
  set_no_earlier key value none s when c h =
      inr (λ d m. ground (arith, has-set_entry key value none s d.0 d.1 c, h d))
  set_no_earlier key value (some w) s when c h = elim (List-cases s.expirations) [
    | inl empty ↦ inl (unfold wakes next_expiration in ground (arith, empty))
    | inr (e, es, first) ↦ elim (Bool-cases (ltb w e.0)) [
      | inl sooner ↦ inl (unfold wakes next_expiration in ground (arith, first, sooner))
      | inr later ↦ inr (λ d m. ground (
        arith,
        later,
        has-set_entry key value (some w) s d.0 d.1 c,
        h d,
        h e,
        has_first e s.expirations es first,
      ))
    ]
  ]

  set_not_first :
      (key value : Bytes) (w : Option ℕ) (s : State Sender)
      → IsConsistent s
      → ((d : Expiration) → has d s.expirations ≡ false)
      → (wakes w s ≡ true)
        ⊎ ((d : Expiration) → has d (set_entry key value w s).expirations ≡ false)
  set_not_first key value none s c h =
      inr (λ d. ground (arith, has-set_entry key value none s d.0 d.1 c, h d))
  set_not_first key value (some w) s c h = elim (List-cases s.expirations) [
    | inl empty ↦ inl (unfold wakes next_expiration in ground (arith, empty))
    | inr (e, es, first) ↦ absurd (ground (arith, h e, has_first e s.expirations es first))
  ]

  -- `set` keeps the task informed
  set-Rests :
      (key value : Bytes) (w : Option ℕ) (sh : Shared Sender) (phase : Phase) (seen : ℕ)
      → IsConsistent sh.state
      → seen ≤ sh.notifications
      → (seen < sh.notifications) ⊎ Rests phase sh.state
      → let sh' = (set_locked key value w sh).1 in
        (seen < sh'.notifications) ⊎ Rests phase sh'.state
  unfolding set_locked
  set-Rests key value w sh phase seen c le (inl permit) = inl (ground arith)
  set-Rests key value w sh (sleeping when) seen c le (inr (running, h)) =
      elim (set_no_earlier key value w sh.state when c h) [
        | inl woke ↦ inl (rw woke (omega arith))
        | inr later ↦ inr (unfold set_entry in running, later)
      ]
  set-Rests key value w sh waiting seen c le (inr (running, h)) =
      elim (set_not_first key value w sh.state c h) [
        | inl woke ↦ inl (rw woke (omega arith))
        | inr none_left ↦ inr (unfold set_entry in running, none_left)
      ]
  set-Rests key value w sh purging seen c le (inr running) = inr (unfold set_entry in running)
  set-Rests key value w sh checking seen c le (inr h) = inr tt
  set-Rests key value w sh finished seen c le (inr h) = inr tt
  set-Rests key value w sh crashed seen c le (inr h) = inr tt

  locked-IsAwake :
      (w : World Sender) (key value : Bytes) (when : Option ℕ)
      → IsAwake w
      → IsAwake (record w { shared = (set_locked key value when w.shared).1 })
  unfolding set_locked
  locked-IsAwake w key value when a = record {
    consistent = set_entry-IsConsistent key value when w.shared.state a.consistent;
    bounded = ground (arith, a.bounded);
    rests = set-Rests key value when w.shared w.phase w.seen a.consistent a.bounded a.rests;
  }

  set_for-IsAwake :
      (w : World Sender) (key value : Bytes) (expire : Option ℕ)
      → IsAwake w
      → IsAwake (record w { shared = (set_for w.now key value expire w.shared).1 })
  set_for-IsAwake w key value none a = locked-IsAwake w key value none a
  set_for-IsAwake w key value (some d) a =
      if-holds (λ r. IsAwake (record w { shared = r.1 })) (ltb (w.now + d) instant_limit)
        (locked-IsAwake w key value (some (w.now + d)) a)
        (record { consistent = a.consistent; bounded = a.bounded; rests = a.rests })

  pub set-IsAwake :
      (w : World Sender) (key value : Bytes) (expire : Option ℕ)
      → IsAwake w
      → IsAwake (record w { shared = (set w.now key value expire w.shared).1 })
  unfolding set
  set-IsAwake w key value expire a =
      if-holds (λ r. IsAwake (record w { shared = r.1 })) w.shared.poisoned a
        (set_for-IsAwake w key value expire a)

  pub shutdown-IsAwake :
      (w : World Sender)
      → IsAwake w
      → IsAwake (record w { shared = (shutdown_purge_task w.shared).1 })
  unfolding shutdown_purge_task
  shutdown-IsAwake w a =
      if-holds (λ r. IsAwake (record w { shared = r.1 })) w.shared.poisoned a
        (record {
          consistent = record { sorted = a.consistent.sorted; tracked = a.consistent.tracked };
          bounded = omega (arith, a.bounded);
          rests = inl (omega (arith, a.bounded));
        })
