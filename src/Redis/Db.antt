-- ===== src/Redis/Db.antt =====
-- db.rs: the key-value state with its expirations, and the channels.
-- An `Instant` and a `Duration` are numbers of nanoseconds. A `HashMap` is a function into `Option`.
pub mod Expirations
pub mod Invariant
pub mod Purge
pub mod Task
use Expirations.{Expiration, insert, remove}
use reverse_rewrite.Common.{
  ◌≡◌, ◌==◌, ℕ, zero, suc, ◌+◌, ◌*◌, ◌^◌, Bool, true, false, Option, none, some, List, [], ◌∷◌, ltb,
  if◌then◌else◌, length,
}
use reverse_rewrite.Common.Text.{Bytes, bytes_eq}
use mathlib.Core.Option

pub record Entry : Type 0 where
  pub content : Bytes
  pub expires_at : Option ℕ

-- `Sender` is `broadcast::Sender<Bytes>`.
pub record State (Sender : Type 0) : Type 0 where
  pub entries : Bytes → Option Entry
  pub pub_sub : Bytes → Option Sender
  pub expirations : List Expiration
  pub shutdown : Bool

-- The mutex is poisoned when a holder panicked; `notifications` counts the calls of `notify_one`.
pub record Shared (Sender : Type 0) : Type 0 where
  pub state : State Sender
  pub poisoned : Bool
  pub notifications : ℕ

pub data Ran (A : Type 0) : Type 0 where
  returned : A → Ran A
  panicked : Ran A

-- `HashMap::insert` and `HashMap::remove`
abbrev pub update {ℓ} : {A : Type ℓ} → (Bytes → Option A) → Bytes → Option A → Bytes → Option A
update m k v j = if bytes_eq k j then v else m j

-- `Instant + Duration` panics from here on: the seconds of an `Instant` are an i64.
abbrev pub instant_limit : ℕ
instant_limit = 2 ^ 63 * 1000000000

-- The expiration of the entry that was there is cleared.
abbrev pub clear_expiration : Bytes → Option Entry → List Expiration → List Expiration
clear_expiration key none es = es
clear_expiration key (some prev) es = elim (prev.expires_at) [
  | none ↦ es
  | some when ↦ remove (when, key) es
]

abbrev pub track_expiration : Bytes → Option ℕ → List Expiration → List Expiration
track_expiration key none es = es
track_expiration key (some when) es = insert (when, key) es

module _ {Sender : Type 0} where
  unfoldable pub next_expiration : State Sender → Option ℕ
  next_expiration s = elim (s.expirations) [ [] ↦ none | e ∷ _ ↦ some e.0 ]

  unfoldable pub get : Bytes → Shared Sender → Ran (Option Bytes) × Shared Sender
  get key sh =
      if sh.poisoned
      then (panicked, sh)
      else (returned (Option.map (λ (e : Entry). e.content) (sh.state.entries key)), sh)

  -- What `set` does to the state, once `expires_at` is known.
  unfoldable pub set_entry : Bytes → Bytes → Option ℕ → State Sender → State Sender
  set_entry key value expires_at s = record s {
    entries = update s.entries key (some (record { content = value; expires_at = expires_at }));
    expirations =
        track_expiration key expires_at (clear_expiration key (s.entries key) s.expirations);
  }

  -- Whether the new expiration comes before all others.
  unfoldable pub wakes : Option ℕ → State Sender → Bool
  unfolding next_expiration
  wakes none s = false
  wakes (some when) s = elim (next_expiration s) [ none ↦ true | some next ↦ ltb when next ]

  unfoldable pub set_locked :
      Bytes → Bytes → Option ℕ → Shared Sender → Ran (Unit {0}) × Shared Sender
  unfolding set_entry wakes
  set_locked key value expires_at sh = (
    returned tt,
    record sh {
      state = set_entry key value expires_at sh.state;
      notifications = if wakes expires_at sh.state then sh.notifications + 1 else sh.notifications;
    },
  )

  -- An `Instant` that overflows panics while the lock is held.
  abbrev pub set_for : ℕ → Bytes → Bytes → Option ℕ → Shared Sender → Ran (Unit {0}) × Shared Sender
  set_for now key value none sh = set_locked key value none sh
  set_for now key value (some duration) sh =
      if ltb (now + duration) instant_limit
      then set_locked key value (some (now + duration)) sh
      else (panicked, record sh { poisoned = true })

  unfoldable pub set : ℕ → Bytes → Bytes → Option ℕ → Shared Sender → Ran (Unit {0}) × Shared Sender
  unfolding set_locked
  set now key value expire sh =
      if sh.poisoned then (panicked, sh) else set_for now key value expire sh

  -- The `while let` loop: a round for each expiration that is due.
  unfoldable pub purge_loop : ℕ → ℕ → State Sender → Option ℕ × State Sender
  purge_loop zero now s = (none, s)
  purge_loop (suc f) now s = elim (s.expirations) [
    | [] ↦ (none, s)
    | e ∷ _ ↦ elim (ltb now e.0) [
      | true ↦ (some e.0, s)
      | false ↦
          purge_loop f now
            (record s { entries = update s.entries e.1 none; expirations = remove e s.expirations })
    ]
  ]

  -- One round for each expiration is enough.
  unfoldable pub purge : ℕ → State Sender → Option ℕ × State Sender
  unfolding purge_loop
  purge now s = if s.shutdown then (none, s) else purge_loop (suc (length s.expirations)) now s

  unfoldable pub purge_expired_keys : ℕ → Shared Sender → Ran (Option ℕ) × Shared Sender
  unfolding purge
  purge_expired_keys now sh =
      if sh.poisoned
      then (panicked, sh)
      else (returned (purge now sh.state).0, record sh { state = (purge now sh.state).1 })

  unfoldable pub is_shutdown : Shared Sender → Ran Bool × Shared Sender
  is_shutdown sh = if sh.poisoned then (panicked, sh) else (returned sh.state.shutdown, sh)

  unfoldable pub shutdown_purge_task : Shared Sender → Ran (Unit {0}) × Shared Sender
  shutdown_purge_task sh = if sh.poisoned then (panicked, sh) else (
    returned tt,
    record sh { state = record sh.state { shutdown = true }; notifications = sh.notifications + 1 },
  )

  -- `Db::new`, without the task that it spawns
  unfoldable pub new : Shared Sender
  new = record {
    state = record { entries = λ _. none; pub_sub = λ _. none; expirations = []; shutdown = false };
    poisoned = false;
    notifications = 0;
  }

-- `tokio::sync::broadcast`: a sender, which its receivers share, and what the program relies on.
pub record Broadcast : Type 1 where
  pub Sender : Type 0
  -- `broadcast::channel(1024)`, with the receiver that it returns
  pub channel : Sender
  -- `subscribe` attaches one more receiver
  pub subscribe : Sender → Sender
  -- `send` returns the number of receivers, or the error that there is none
  pub send : Sender → Bytes → Option ℕ × Sender
  pub receivers : Sender → ℕ
  pub receivers-channel : receivers channel ≡ 1
  pub receivers-subscribe : (s : Sender) → receivers (subscribe s) ≡ receivers s + 1
  pub send_count :
      (s : Sender) (m : Bytes)
      → (send s m).0 ≡ (if receivers s == 0 then none else some (receivers s))
  pub receivers-send : (s : Sender) (m : Bytes) → receivers (send s m).1 ≡ receivers s

module _ (bc : Broadcast) where
  abbrev subscribed : Option bc.Sender → bc.Sender
  subscribed none = bc.channel
  subscribed (some tx) = bc.subscribe tx

  -- The receiver that is returned is the one attached last.
  unfoldable pub subscribe : Bytes → Shared bc.Sender → Ran (Unit {0}) × Shared bc.Sender
  subscribe key sh = if sh.poisoned then (panicked, sh) else (
    returned tt,
    record sh {
      state = record sh.state {
        pub_sub = update sh.state.pub_sub key (some (subscribed (sh.state.pub_sub key)));
      };
    },
  )

  abbrev or_zero : Option ℕ → ℕ
  or_zero none = 0
  or_zero (some n) = n

  unfoldable pub publish : Bytes → Bytes → Shared bc.Sender → Ran ℕ × Shared bc.Sender
  publish key value sh = if sh.poisoned then (panicked, sh) else elim (sh.state.pub_sub key) [
    | none ↦ (returned 0, sh)
    | some tx ↦ (
      returned (or_zero (bc.send tx value).0),
      record sh {
        state = record sh.state {
          pub_sub = update sh.state.pub_sub key (some (bc.send tx value).1);
        };
      },
    )
  ]
