-- ===== src/Redis/Tests/Task.antt =====
-- db.rs: the purge task at concrete inputs.
use reverse_rewrite.Common.{ℕ, ◌≡◌, refl, none, some, arith}
use reverse_rewrite.Common.Text.{codes}
use reverse_rewrite.Redis.Db.{
  State, new, purge, set, set_entry, is_shutdown, purge_expired_keys, set_locked, wakes,
}
use reverse_rewrite.Redis.Db.Expirations.{has, insert}
use reverse_rewrite.Redis.Db.Invariant.{IsConsistent, expiry, set_entry-IsConsistent}
use reverse_rewrite.Redis.Db.Purge.{Purged, purge-Purged}
use reverse_rewrite.Redis.Db.Task.{
  World, Reach, here, next, client_set, check, purge_keys, start, sleeping, checking,
  notified_sleeping, check_shutdown, run_purge,
}
use reverse_rewrite.Redis.Db.Task.Awake.{IsAwake}
use reverse_rewrite.Redis.Db.Task.KeepsUp.{task_keeps_up}

abbrev Senders : Type 0
Senders = ℕ

-- a key that expires at 40, and one that never does
abbrev two_keys : State Senders
two_keys =
    set_entry (codes "b") (codes "y") none
      (set_entry (codes "a") (codes "x") (some 40) (new {Sender = Senders}).state)

new-IsConsistent : IsConsistent {Sender = Senders} (new.state)
unfolding new
new-IsConsistent = record { sorted = tt; tracked = λ t k. unfold has in refl }

two_keys-IsConsistent : IsConsistent two_keys
two_keys-IsConsistent =
    set_entry-IsConsistent (codes "b") (codes "y") none _
      (set_entry-IsConsistent (codes "a") (codes "x") (some 40) _ new-IsConsistent)

purge-Purged_example : Purged 50 two_keys (purge 50 two_keys).0 (purge 50 two_keys).1
purge-Purged_example = purge-Purged 50 two_keys two_keys-IsConsistent (unfold new set_entry in refl)

-- at 5 a client sets a key for 100; the task, which has run no round yet, checks and purges
abbrev asked : World Senders
asked = record (start 5) {
  shared = (set 5 (codes "k") (codes "v") (some 100) (start {Sender = Senders} 5).shared).1;
}

abbrev checked : World Senders
checked = check_shutdown asked

abbrev asleep : World Senders
asleep = run_purge checked

-- the client had called `notify_one`, so the task goes round once more
abbrev woken : World Senders
woken = record asleep { phase = checking; seen = asleep.shared.notifications }

abbrev purging_again : World Senders
purging_again = check_shutdown woken

abbrev asleep_again : World Senders
asleep_again = run_purge purging_again

asleep_again-reached : Reach (start 5) asleep_again
unfolding start new set check_shutdown run_purge is_shutdown purge_expired_keys purge set_locked
    wakes insert
asleep_again-reached =
    next
      (next
        (next
          (next
            (next (next here (client_set (start 5) (codes "k") (codes "v") (some 100)))
              (check asked refl))
            (purge_keys checked refl))
          (notified_sleeping asleep 105 refl (omega arith)))
        (check woken refl))
      (purge_keys purging_again refl)

task_keeps_up_example : IsAwake asleep_again
task_keeps_up_example = task_keeps_up 5 asleep_again asleep_again-reached

asleep_again-sleeps : asleep_again.phase ≡ sleeping 105
unfolding start new set check_shutdown run_purge is_shutdown purge_expired_keys purge set_locked
    wakes insert
asleep_again-sleeps = refl

asleep_again-seen : asleep_again.seen ≡ asleep_again.shared.notifications
unfolding start new set check_shutdown run_purge is_shutdown purge_expired_keys purge set_locked
    wakes insert
asleep_again-seen = refl

asleep_again-expiry : expiry (asleep_again.shared.state.entries (codes "k")) ≡ some 105
unfolding start new set check_shutdown run_purge is_shutdown purge_expired_keys purge set_locked
    wakes insert
asleep_again-expiry = refl
