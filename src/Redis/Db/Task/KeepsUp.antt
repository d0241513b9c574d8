-- ===== src/Redis/Db/Task/KeepsUp.antt =====
-- db.rs: the task never rests past an expiration.
use reverse_rewrite.Common.{
  ℕ, ◌<◌, ◌≤◌, ◌≡◌, refl, subst, ◌∙◌, ◌⊎◌, inl, inr, Bool, true, false, Option, none, some, arith,
  Bool-cases,
}
use reverse_rewrite.Common.Text.{Bytes}
use reverse_rewrite.Redis.Db.{State, returned, purge, next_expiration}
use reverse_rewrite.Redis.Db.Expirations.{has, first-le}
use reverse_rewrite.Redis.Db.Invariant.{IsConsistent, expiry}
use reverse_rewrite.Redis.Db.Purge.{Purged, purge-Purged, List-cases}
use reverse_rewrite.Redis.Db.Task.{
  Phase, World, checking, purging, waiting, finished, crashed, sleeping, after_check, after_purge,
  check_shutdown, run_purge, Step, tick, client_channels, client_set, drop_guard, check, purge_keys,
  timer, notified_sleeping, notified_waiting, Reach, here, next, start,
}
use reverse_rewrite.Redis.Db.Task.Awake.{Rests, IsAwake, if-holds, set-IsAwake, shutdown-IsAwake}

module _ {Sender : Type 0} where
  -- what the task does next, once `purge` has answered
  Purged-Rests :
      (next : Option ℕ) (now seen notifications : ℕ) (s s' : State Sender)
      → s.shutdown ≡ false
      → Purged now s next s'
      → (seen < notifications) ⊎ Rests (after_purge (returned next)) s'
  Purged-Rests none now seen notifications s s' running p = inr (
    p.running ∙ running,
    λ d. elim (List-cases s'.expirations) [
      | inl empty ↦ rw empty (unfold has in refl)
      | inr (e, es, first) ↦ absurd (unfold next_expiration in ground (arith, p.earliest, first))
    ],
  )
  Purged-Rests (some when) now seen notifications s s' running p = inr (
    p.running ∙ running,
    λ d m. elim (List-cases s'.expirations) [
      | inl empty ↦ absurd (unfold next_expiration in ground (arith, p.earliest, empty))
      | inr (e, es, first) ↦
          let le = first-le e d es (rw first at (p.consistent.sorted)) (rw first at m) in
          unfold next_expiration in ground (arith, p.earliest, first, le)
    ],
  )

  purge_shut_down : (now : ℕ) (s : State Sender) → s.shutdown ≡ true → purge now s ≡ (none, s)
  unfolding purge
  purge_shut_down now s h = simp h refl

  purge-Rests :
      (now seen notifications : ℕ) (s : State Sender)
      → IsConsistent s
      → (seen < notifications) ⊎ (s.shutdown ≡ false)
      → IsConsistent (purge now s).1
        × ((seen < notifications) ⊎ Rests (after_purge (returned (purge now s).0)) (purge now s).1)
  purge-Rests now seen notifications s c h = elim (Bool-cases s.shutdown) [
    | inr running ↦
        let p = purge-Purged now s c running in
        (
          p.consistent,
          Purged-Rests (purge now s).0 now seen notifications s (purge now s).1 running p,
        )
    | inl down ↦
        let permit : seen < notifications = ground arith in
        rw (purge_shut_down now s down) (c, inl permit)
  ]

  at_phase :
      (w : World Sender) (phase : Phase)
      → w.phase ≡ phase
      → IsAwake w
      → (w.seen < w.shared.notifications) ⊎ Rests phase w.shared.state
  at_phase w phase e a =
      subst (λ p. (w.seen < w.shared.notifications) ⊎ Rests p w.shared.state) e a.rests

  purge-IsAwake : (w : World Sender) → w.phase ≡ purging → IsAwake w → IsAwake (run_purge w)
  unfolding run_purge
  purge-IsAwake w at_purge a =
      let (c, r) =
        purge-Rests w.now w.seen w.shared.notifications w.shared.state a.consistent
          (at_phase w purging at_purge a) in
      if-holds (λ r. IsAwake (record w { shared = r.1; phase = after_purge r.0 })) w.shared.poisoned
        (record { consistent = a.consistent; bounded = a.bounded; rests = inr tt })
        (record { consistent = c; bounded = a.bounded; rests = r })

  after_check-Rests :
      (down : Bool) (s : State Sender) → s.shutdown ≡ down → Rests (after_check (returned down)) s
  after_check-Rests true s h = tt
  after_check-Rests false s h = h

  check-IsAwake : (w : World Sender) → IsAwake w → IsAwake (check_shutdown w)
  unfolding check_shutdown
  check-IsAwake w a =
      if-holds (λ r. IsAwake (record w { phase = after_check r.0 })) w.shared.poisoned
        (record { consistent = a.consistent; bounded = a.bounded; rests = inr tt })
        (record {
          consistent = a.consistent;
          bounded = a.bounded;
          rests = inr (after_check-Rests w.shared.state.shutdown w.shared.state refl);
        })

  woken :
      (w : World Sender) (seen : ℕ)
      → seen ≤ w.shared.notifications
      → IsAwake w
      → IsAwake (record w { phase = checking; seen = seen })
  woken w seen h a = record { consistent = a.consistent; bounded = h; rests = inr tt }

  Rests-channels :
      (phase : Phase) (s : State Sender) (channels : Bytes → Option Sender)
      → Rests phase s
      → Rests phase (record s { pub_sub = channels })
  Rests-channels (sleeping when) s channels h = h
  Rests-channels waiting s channels h = h
  Rests-channels checking s channels h = h
  Rests-channels purging s channels h = h
  Rests-channels finished s channels h = h
  Rests-channels crashed s channels h = h

  channels-IsAwake :
      (w : World Sender) (channels : Bytes → Option Sender)
      → IsAwake w
      → IsAwake (record w {
        shared = record w.shared { state = record w.shared.state { pub_sub = channels } };
      })
  channels-IsAwake w channels a = record {
    consistent = record { sorted = a.consistent.sorted; tracked = a.consistent.tracked };
    bounded = a.bounded;
    rests = elim (a.rests) [
      | inl permit ↦ inl permit
      | inr h ↦ inr (Rests-channels w.phase w.shared.state channels h)
    ];
  }

  Step-IsAwake : {w v : World Sender} → Step w v → IsAwake w → IsAwake v
  Step-IsAwake (tick w d) a = record {
    consistent = a.consistent;
    bounded = a.bounded;
    rests = a.rests;
  }
  Step-IsAwake (client_set w key value expire) a = set-IsAwake w key value expire a
  Step-IsAwake (client_channels w channels) a = channels-IsAwake w channels a
  Step-IsAwake (drop_guard w) a = shutdown-IsAwake w a
  Step-IsAwake (check w p) a = check-IsAwake w a
  Step-IsAwake (purge_keys w p) a = purge-IsAwake w p a
  Step-IsAwake (timer w when p h) a = woken w w.seen a.bounded a
  Step-IsAwake (notified_sleeping w when p h) a = woken w w.shared.notifications (omega arith) a
  Step-IsAwake (notified_waiting w p h) a = woken w w.shared.notifications (omega arith) a

  Reach-IsAwake : {w v : World Sender} → IsAwake w → Reach w v → IsAwake v
  Reach-IsAwake a here = a
  Reach-IsAwake a (next r s) = Step-IsAwake s (Reach-IsAwake a r)

  start-IsAwake : (now : ℕ) → IsAwake {Sender = Sender} (start now)
  unfolding start
  start-IsAwake now = record {
    consistent = record { sorted = tt; tracked = λ t k. unfold has in refl };
    bounded = omega arith;
    rests = inr tt;
  }

  -- In every world that is reached from a new database, whatever the clients do and whenever they do
  -- it, the expirations are those of the entries in order, and
  -- while the task rests with no permit left for it, the database is not shutting down and no entry
  -- expires before the instant at which the task wakes up, or none expires at all.
  pub task_keeps_up : (now : ℕ) (w : World Sender) → Reach (start now) w → IsAwake w
  task_keeps_up now w = Reach-IsAwake (start-IsAwake now)

  -- In a world that is reached from a new database, if the task sleeps until `when` and has taken every notification, then no entry
  -- of the database expires before `when`.
  pub sleeps_until_next :
      (now when : ℕ) (w : World Sender)
      → Reach (start now) w
      → w.phase ≡ sleeping when
      → w.seen ≡ w.shared.notifications
      → (key : Bytes) (t : ℕ) → expiry (w.shared.state.entries key) ≡ some t
      → when ≤ t
  sleeps_until_next now when w r p e key t h =
      let a = task_keeps_up now w r in
      elim (at_phase w (sleeping when) p a) [
        | inl permit ↦ absurd (omega arith)
        | inr (_, le) ↦ le (t, key) (ground (arith, a.consistent.tracked t key, h))
      ]
