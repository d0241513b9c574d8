-- ===== src/Redis/Session.antt =====
-- cmd/subscribe.rs: the session of a subscribed client on the server.
-- `StreamMap` holds the channels with their streams of messages; what is kept here is its keys.
pub mod Channels
use reverse_rewrite.Common.{
  ℕ, suc, ◌+◌, ◌≡◌, Bool, true, false, not, ◌&&◌, ◌||◌, Option, none, some, List, [], ◌∷◌, ◌++◌,
  if◌then◌else◌, length,
}
use reverse_rewrite.Common.Text.{Bytes, codes, bytes_eq}
use reverse_rewrite.Common.Outcome.{Outcome, ok, err, panic, out_of_fuel, ◌>>=◌}
use reverse_rewrite.Redis.Frame.{Frame, Frames, array, bulk, integer, nil, cons}
use reverse_rewrite.Redis.Db
use reverse_rewrite.Redis.Db.{Shared, Ran, returned, panicked, Broadcast}
use reverse_rewrite.Redis.Cmd.{
  Command, CommandResult, Casing, from_frame, get_name, subscribe, unsubscribe, get, publish, set,
  ping, unknown,
}
use reverse_rewrite.Redis.Cmd.Apply.{unknown_response}

abbrev pub is_key : Bytes → List Bytes → Bool
is_key j [] = false
is_key j (k ∷ ks) = bytes_eq j k || is_key j ks

-- `tokio_stream::StreamMap`, by its keys: `insert` replaces a stream under the same key.
pub record StreamMap : Type 1 where
  pub Map : Type 0
  pub empty : Map
  pub insert : Bytes → Map → Map
  pub remove : Bytes → Map → Map
  pub keys : Map → List Bytes
  pub keys-empty : keys empty ≡ []
  pub keys-insert :
      (c j : Bytes) (m : Map) → is_key j (keys (insert c m)) ≡ (bytes_eq c j || is_key j (keys m))
  pub length-insert :
      (c : Bytes) (m : Map)
      → length (keys (insert c m))
        ≡ (if is_key c (keys m) then length (keys m) else suc (length (keys m)))
  pub keys-remove :
      (c j : Bytes) (m : Map)
      → is_key j (keys (remove c m)) ≡ (not (bytes_eq c j) && is_key j (keys m))

abbrev pub make_subscribe_frame : Bytes → ℕ → Frame
make_subscribe_frame channel_name num_subs =
    array (cons (bulk (codes "subscribe")) (cons (bulk channel_name) (cons (integer num_subs) nil)))

abbrev pub make_unsubscribe_frame : Bytes → ℕ → Frame
make_unsubscribe_frame channel_name num_subs =
    array
      (cons (bulk (codes "unsubscribe")) (cons (bulk channel_name) (cons (integer num_subs) nil)))

abbrev pub make_message_frame : Bytes → Bytes → Frame
make_message_frame channel_name msg =
    array (cons (bulk (codes "message")) (cons (bulk channel_name) (cons (bulk msg) nil)))

-- The channels still to subscribe to, the streams, and the frames written so far.
pub record Session (Map : Type 0) : Type 0 where
  pub channels : List Bytes
  pub subscriptions : Map
  pub written : List Frame

-- What a round waits for: a message, a frame or the end of the stream, or the signal to shut down.
pub data Arrival : Type 0 where
  message : Bytes → Bytes → Arrival
  arrived : Frame → Arrival
  disconnected signal : Arrival

pub data Turned (S : Type 0) : Type 0 where
  goes_on : S → Turned S
  returns : S → Turned S
  fails crashes : S → Turned S

module _ (bc : Broadcast) (sm : StreamMap) where
  abbrev pub respond : Frame → Session sm.Map → Session sm.Map
  respond x s = record s { written = s.written ++ (x ∷ []) }

  abbrev pub inserted : Bytes → Session sm.Map → Session sm.Map
  inserted channel s = record s { subscriptions = sm.insert channel s.subscriptions }

  -- `subscribe_to_channel`
  unfoldable pub subscribe_to_channel :
      Bytes → Session sm.Map → Shared bc.Sender → Ran (Session sm.Map) × Shared bc.Sender
  subscribe_to_channel channel s sh =
      let (ran, sh') = Db.subscribe bc channel sh in
      let s' = inserted channel s in
      elim ran [
        | returned _ ↦ (
          returned (respond (make_subscribe_frame channel (length (sm.keys s'.subscriptions))) s'),
          sh',
        )
        | panicked ↦ (panicked, sh')
      ]

  -- `for channel_name in self.channels.drain(..)`
  unfoldable pub subscribe_all :
      List Bytes → Session sm.Map → Shared bc.Sender → Ran (Session sm.Map) × Shared bc.Sender
  unfolding subscribe_to_channel
  subscribe_all [] s sh = (returned s, sh)
  subscribe_all (c ∷ cs) s sh =
      let (ran, sh') = subscribe_to_channel c s sh in
      elim ran [ returned s' ↦ subscribe_all cs s' sh' | panicked ↦ (panicked, sh') ]

  -- `for channel_name in unsubscribe.channels`
  unfoldable pub unsubscribe_all : List Bytes → Session sm.Map → Session sm.Map
  unsubscribe_all [] s = s
  unsubscribe_all (c ∷ cs) s =
      let left = sm.remove c s.subscriptions in
      unsubscribe_all cs (
        respond (make_unsubscribe_frame c (length (sm.keys left)))
          (record s { subscriptions = left }))

  -- No channels stand for all of them.
  abbrev pub channels_or_all : List Bytes → Session sm.Map → List Bytes
  channels_or_all [] s = sm.keys s.subscriptions
  channels_or_all (c ∷ cs) s = c ∷ cs

  -- the arms of `handle_command`
  unfoldable pub perform : Command → Session sm.Map → Session sm.Map
  unfolding unsubscribe_all get_name
  perform (subscribe channels) s = record s { channels = s.channels ++ channels }
  perform (unsubscribe channels) s = unsubscribe_all (channels_or_all channels s) s
  perform (get key) s = respond (unknown_response (get_name (get key))) s
  perform (publish channel msg) s = respond (unknown_response (get_name (publish channel msg))) s
  perform (set key value expire) s = respond (unknown_response (get_name (set key value expire))) s
  perform (ping msg) s = respond (unknown_response (get_name (ping msg))) s
  perform (unknown name) s = respond (unknown_response (get_name (unknown name))) s

  module _ (cs : Casing) (atoi : Bytes → Option ℕ) where
    unfoldable pub handle_command : Frame → Session sm.Map → Turned (Session sm.Map)
    unfolding perform
    handle_command x s = elim (from_frame cs atoi x) [
      | ok command ↦ goes_on (perform command s)
      | err e ↦ fails s
      | panic ↦ crashes s
      | out_of_fuel ↦ crashes s
    ]

    -- the `select!`
    abbrev pub select : Arrival → Session sm.Map → Turned (Session sm.Map)
    select (message channel msg) s = goes_on (respond (make_message_frame channel msg) s)
    select (arrived x) s = handle_command x s
    select disconnected s = returns s
    select signal s = returns s

    -- A round of the loop of `Subscribe::apply`.
    unfoldable pub session_round :
        Arrival → Session sm.Map → Shared bc.Sender → Turned (Session sm.Map) × Shared bc.Sender
    unfolding subscribe_all handle_command
    session_round a s sh =
        let (ran, sh') = subscribe_all s.channels (record s { channels = [] }) sh in
        elim ran [ returned s' ↦ (select a s', sh') | panicked ↦ (crashes s, sh') ]
