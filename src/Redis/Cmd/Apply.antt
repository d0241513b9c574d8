-- ===== src/Redis/Cmd/Apply.antt =====
-- cmd/*.rs: `Command::apply`, but for the session that SUBSCRIBE opens.
use reverse_rewrite.Common.{
  ℕ, ◌+◌, ◌≤◌, ◌<◌, ◌≡◌, refl, sym, subst, ap, ◌∙◌, true, false, [], ◌∷◌, Option, none, some, List,
  ◌++◌, arith, if◌then◌else◌, inl, inr, Option-cases,
}
use reverse_rewrite.Common.Text.{Bytes, codes, bytes_eq}
use reverse_rewrite.Common.Order.{bytes_eq_iff}
use reverse_rewrite.Redis.Frame.{Frame, simple, error, bulk, integer, null}
use reverse_rewrite.Redis.Db
use reverse_rewrite.Redis.Db.{
  Entry, State, Shared, Ran, returned, panicked, Broadcast, instant_limit, set_for, set_locked,
  set_entry, update,
}
use reverse_rewrite.Redis.Cmd.{Command, get, publish, set, subscribe, unsubscribe, ping, unknown}

-- The frame that is written, an error that closes the connection, a panic of the handler, or the
-- session of the channels.
pub data Applied : Type 0 where
  replied : Frame → Applied
  rejected : Applied
  crashed : Applied
  listens : List Bytes → Applied

abbrev pub get_response : Ran (Option Bytes) → Applied
get_response (returned (some value)) = replied (bulk value)
get_response (returned none) = replied null
get_response panicked = crashed

abbrev pub set_response : Ran (Unit {0}) → Applied
set_response (returned _) = replied (simple (codes "OK"))
set_response panicked = crashed

abbrev pub publish_response : Ran ℕ → Applied
publish_response (returned n) = replied (integer n)
publish_response panicked = crashed

abbrev pub ping_response : Option Bytes → Applied
ping_response none = replied (simple (codes "PONG"))
ping_response (some msg) = replied (bulk msg)

abbrev pub unknown_response : Bytes → Frame
unknown_response name = error (codes "ERR unknown command '" ++ (name ++ codes "'"))

module _ (bc : Broadcast) where
  unfoldable pub apply : ℕ → Command → Shared bc.Sender → Applied × Shared bc.Sender
  apply now (get key) sh = let (r, sh') = Db.get key sh in (get_response r, sh')
  apply now (publish channel message) sh =
      let (r, sh') = Db.publish bc channel message sh in (publish_response r, sh')
  apply now (set key value expire) sh =
      let (r, sh') = Db.set now key value expire sh in (set_response r, sh')
  apply now (subscribe channels) sh = (listens channels, sh)
  apply now (unsubscribe channels) sh = (rejected, sh)
  apply now (ping msg) sh = (ping_response msg, sh)
  apply now (unknown name) sh = (replied (unknown_response name), sh)

  -- The instant at which the entry would expire can be represented.
  abbrev pub Fits : ℕ → Option ℕ → Type 0
  Fits now none = Unit
  Fits now (some d) = now + d < instant_limit

  -- On a database that is not poisoned, GET after SET with an expiration that fits replies with the
  -- value for the key that was set, and for any other key what it would have replied before.
  pub get-set :
      (now later : ℕ) (key j value : Bytes) (expire : Option ℕ) (sh : Shared bc.Sender)
      → sh.poisoned ≡ false
      → Fits now expire
      → (apply later (get j) (apply now (set key value expire) sh).1).0
        ≡ (if bytes_eq key j then replied (bulk value) else (apply later (get j) sh).0)
  unfolding apply Db.get Db.set
  get-set now later key j value none sh fine fits = ground (arith, fine)
  get-set now later key j value (some d) sh fine fits = ground (arith, fine, fits)

  -- What uses the database: a command of a client, a session that subscribes, the purge task, and the
  -- guard that is dropped.
  pub data Use : Type 0 where
    applies : ℕ → Command → Use
    subscribes : Bytes → Use
    purges : ℕ → Use
    looks_for_shutdown shuts_down : Use

  abbrev pub used : Use → Shared bc.Sender → Shared bc.Sender
  used (applies now command) sh = (apply now command sh).1
  used (subscribes channel) sh = (Db.subscribe bc channel sh).1
  used (purges now) sh = (Db.purge_expired_keys now sh).1
  used looks_for_shutdown sh = (Db.is_shutdown sh).1
  used shuts_down sh = (Db.shutdown_purge_task sh).1

  abbrev pub used_all : List Use → Shared bc.Sender → Shared bc.Sender
  used_all [] sh = sh
  used_all (u ∷ us) sh = used_all us (used u sh)

  apply-poisoned :
      (now : ℕ) (command : Command) (sh : Shared bc.Sender)
      → sh.poisoned ≡ true
      → (apply now command sh).1 ≡ sh
  unfolding apply Db.get Db.set Db.publish
  apply-poisoned now (get key) sh h = ground (arith, h)
  apply-poisoned now (publish channel message) sh h = ground (arith, h)
  apply-poisoned now (set key value expire) sh h = ground (arith, h)
  apply-poisoned now (subscribe channels) sh h = refl
  apply-poisoned now (unsubscribe channels) sh h = refl
  apply-poisoned now (ping msg) sh h = refl
  apply-poisoned now (unknown name) sh h = refl

  used-poisoned : (u : Use) (sh : Shared bc.Sender) → sh.poisoned ≡ true → used u sh ≡ sh
  unfolding Db.subscribe Db.purge_expired_keys Db.is_shutdown Db.shutdown_purge_task
  used-poisoned (applies now command) sh h = apply-poisoned now command sh h
  used-poisoned (subscribes channel) sh h = ground (arith, h)
  used-poisoned (purges now) sh h = ground (arith, h)
  used-poisoned looks_for_shutdown sh h = ground (arith, h)
  used-poisoned shuts_down sh h = ground (arith, h)

  used_all-poisoned :
      (us : List Use) (sh : Shared bc.Sender) → sh.poisoned ≡ true → used_all us sh ≡ sh
  used_all-poisoned [] sh h = refl
  used_all-poisoned (u ∷ us) sh h =
      ap (used_all us) (used-poisoned u sh h) ∙ used_all-poisoned us sh h

  -- What every client meets on the database.
  pub record IsDead (sh : Shared bc.Sender) : Type 0 where
    pub gets : (now : ℕ) (key : Bytes) → (apply now (get key) sh).0 ≡ crashed
    pub sets :
        (now : ℕ) (key value : Bytes) (expire : Option ℕ)
        → (apply now (set key value expire) sh).0 ≡ crashed
    pub publishes :
        (now : ℕ) (channel message : Bytes) → (apply now (publish channel message) sh).0 ≡ crashed
    pub joins : (channel : Bytes) → (Db.subscribe bc channel sh).0 ≡ panicked

  poisoned-IsDead : (sh : Shared bc.Sender) → sh.poisoned ≡ true → IsDead sh
  unfolding apply Db.get Db.set Db.publish Db.subscribe
  poisoned-IsDead sh h = record {
    gets = λ now key. ground (arith, h);
    sets = λ now key value expire. ground (arith, h);
    publishes = λ now channel message. ground (arith, h);
    joins = λ channel. ground (arith, h);
  }

  overflow-poisons :
      (now d : ℕ) (key value : Bytes) (sh : Shared bc.Sender)
      → instant_limit ≤ now + d
      → let (response, after) = apply now (set key value (some d)) sh in
        (response ≡ crashed) × (after.state ≡ sh.state) × (after.poisoned ≡ true)
  unfolding apply Db.set
  overflow-poisons now d key value sh h = (ground (arith, h), ground (arith, h), ground (arith, h))

  -- An expiration past the last instant makes the handler panic with the lock held and leaves the
  -- state as it was. From then on, whatever clients, the purge task and the guard do in whatever
  -- order, the state stays the same, and every GET, SET, PUBLISH and subscription panics.
  pub set_overflow :
      (now d : ℕ) (key value : Bytes) (sh : Shared bc.Sender) (us : List Use)
      → instant_limit ≤ now + d
      → let (response, after) = apply now (set key value (some d)) sh in
        (response ≡ crashed) × ((used_all us after).state ≡ sh.state) × IsDead (used_all us after)
  set_overflow now d key value sh us h =
      let (response, same, poisoned) = overflow-poisons now d key value sh h in
      let after = (apply now (set key value (some d)) sh).1 in
      let stays = used_all-poisoned us after poisoned in
      (
        response,
        ap (λ (t : Shared bc.Sender). t.state) stays ∙ same,
        subst IsDead (sym stays) (poisoned-IsDead after poisoned),
      )

  unfoldable pub listeners : Bytes → Shared bc.Sender → ℕ
  listeners channel sh = elim (sh.state.pub_sub channel) [ none ↦ 0 | some tx ↦ bc.receivers tx ]

  publish_count :
      (channel message : Bytes) (sh : Shared bc.Sender)
      → sh.poisoned ≡ false
      → ((Db.publish bc channel message sh).0 ≡ returned (listeners channel sh))
        × ((j : Bytes) → listeners j (Db.publish bc channel message sh).1 ≡ listeners j sh)
  unfolding listeners Db.publish
  publish_count channel message sh fine = elim (Option-cases (sh.state.pub_sub channel)) [
    | inl absent ↦ (ground (arith, fine, absent), λ j. ground (arith, fine, absent))
    | inr (tx, there) ↦ (
      ground (arith, fine, there, bc.send_count tx message),
      λ j. ground (arith, fine, there, bc.receivers-send tx message, (bytes_eq_iff channel j).0),
    )
  ]

  pub subscribe_count :
      (channel : Bytes) (sh : Shared bc.Sender)
      → sh.poisoned ≡ false
      → ((Db.subscribe bc channel sh).1.poisoned ≡ false)
        × ((j : Bytes)
            → listeners j (Db.subscribe bc channel sh).1
              ≡ (if bytes_eq channel j then listeners channel sh + 1 else listeners j sh))
  unfolding listeners Db.subscribe
  subscribe_count channel sh fine = elim (Option-cases (sh.state.pub_sub channel)) [
    | inl absent ↦ (ground (arith, fine), λ j. ground (arith, fine, absent, bc.receivers-channel))
    | inr (tx, there) ↦
        (ground (arith, fine), λ j. ground (arith, fine, there, bc.receivers-subscribe tx))
  ]

  -- On a database that is not poisoned, a subscription adds one listener to its channel and to no
  -- other, and PUBLISH replies with the number of listeners of its channel, which stay.
  pub publish-subscribe :
      (now : ℕ) (channel other message : Bytes) (sh : Shared bc.Sender)
      → sh.poisoned ≡ false
      → let after = (Db.subscribe bc channel sh).1 in
        (listeners other after
          ≡ (if bytes_eq channel other then listeners channel sh + 1 else listeners other sh))
        × ((apply now (publish other message) after).0 ≡ replied (integer (listeners other after)))
        × (listeners other (apply now (publish other message) after).1 ≡ listeners other after)
  unfolding apply
  publish-subscribe now channel other message sh fine =
      let (fine', counts) = subscribe_count channel sh fine in
      let (reply, stay) = publish_count other message (Db.subscribe bc channel sh).1 fine' in
      (counts other, rw reply refl, stay other)
