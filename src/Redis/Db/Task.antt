-- ===== src/Redis/Db/Task.antt =====
-- db.rs: `purge_expired_tasks`, interleaved with the calls of clients and the passing of time.
-- `Notify` holds a permit while a call of `notify_one` has not been taken; a call of `set` is one step.
pub mod Awake
pub mod KeepsUp
use reverse_rewrite.Common.{
  ℕ, suc, zero, ◌+◌, ◌<◌, ◌≤◌, ◌≡◌, refl, ap, subst, ◌∙◌, ◌⊎◌, inl, inr, Bool, true, false, Option,
  none, some, List, [], ◌∷◌, arith, ltb, leb, ◌==◌, if◌then◌else◌, length, Option-cases, Bool-cases,
  ltb→lt, ltb→le,
}
use reverse_rewrite.Common.Text.{Bytes, bytes_eq}
use reverse_rewrite.Redis.Db.{
  Entry, State, Shared, Ran, returned, panicked, update, purge, next_expiration, set_entry, wakes,
  set_locked, set_for, set, purge_expired_keys, is_shutdown, shutdown_purge_task, new,
  instant_limit, clear_expiration, track_expiration,
}
use reverse_rewrite.Redis.Db.Expirations.{
  Expiration, remove, has, IsSorted, first-le, has_first, has-remove,
}
use reverse_rewrite.Redis.Db.Invariant.{
  IsConsistent, set_entry-IsConsistent, has-set_entry, expires_then, expiry,
}
use reverse_rewrite.Redis.Db.Purge.{Purged, purge-Purged, List-cases}

-- Where the task is: before `is_shutdown`, before `purge_expired_keys`, in one of its two waits, or
-- past its loop; `crashed` is a panic on a poisoned mutex.
pub data Phase : Type 0 where
  checking purging waiting finished crashed : Phase
  sleeping : ℕ → Phase

pub record World (Sender : Type 0) : Type 0 where
  pub shared : Shared Sender
  pub phase : Phase
  pub now : ℕ
  -- the calls of `notify_one` that the task has taken
  pub seen : ℕ

abbrev pub after_check : Ran Bool → Phase
after_check (returned true) = finished
after_check (returned false) = purging
after_check panicked = crashed

abbrev pub after_purge : Ran (Option ℕ) → Phase
after_purge (returned (some when)) = sleeping when
after_purge (returned none) = waiting
after_purge panicked = crashed

module _ {Sender : Type 0} where
  unfoldable pub check_shutdown : World Sender → World Sender
  unfolding is_shutdown
  check_shutdown w = record w { phase = after_check (is_shutdown w.shared).0 }

  unfoldable pub run_purge : World Sender → World Sender
  unfolding purge_expired_keys
  run_purge w = record w {
    shared = (purge_expired_keys w.now w.shared).1;
    phase = after_purge (purge_expired_keys w.now w.shared).0;
  }

  pub data Step : World Sender → World Sender → Type 0 where
    tick : (w : World Sender) (d : ℕ) → Step w (record w { now = w.now + d })
    client_set :
        (w : World Sender) (key value : Bytes) (expire : Option ℕ)
        → Step w (record w { shared = (set w.now key value expire w.shared).1 })
    -- `subscribe` and `publish` change the channels alone
    client_channels :
        (w : World Sender) (channels : Bytes → Option Sender)
        → Step w (record w {
          shared = record w.shared { state = record w.shared.state { pub_sub = channels } };
        })
    drop_guard :
        (w : World Sender) → Step w (record w { shared = (shutdown_purge_task w.shared).1 })
    check : (w : World Sender) → w.phase ≡ checking → Step w (check_shutdown w)
    purge_keys : (w : World Sender) → w.phase ≡ purging → Step w (run_purge w)
    timer :
        (w : World Sender) (when : ℕ)
        → w.phase ≡ sleeping when
        → when ≤ w.now
        → Step w (record w { phase = checking })
    notified_sleeping :
        (w : World Sender) (when : ℕ)
        → w.phase ≡ sleeping when
        → w.seen < w.shared.notifications
        → Step w (record w { phase = checking; seen = w.shared.notifications })
    notified_waiting :
        (w : World Sender)
        → w.phase ≡ waiting
        → w.seen < w.shared.notifications
        → Step w (record w { phase = checking; seen = w.shared.notifications })

  pub data Reach (w : World Sender) : World Sender → Type 0 where
    here : Reach w w
    next : {u v : World Sender} → Reach w u → Step u v → Reach w v

  -- `Db::new` at the instant `now`: the task is spawned, and has not run yet.
  unfoldable pub start : ℕ → World Sender
  unfolding new
  start now = record { shared = new; phase = checking; now = now; seen = 0 }
