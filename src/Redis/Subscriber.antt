-- ===== src/Redis/Subscriber.antt =====
-- clients/client.rs: `subscribe_cmd` of `Client`, and `Subscriber`.
pub mod Unsubscribing
use reverse_rewrite.Common.{
  ℕ, zero, suc, ◌+◌, ◌-◌, ◌≡◌, Bool, true, false, Option, none, some, List, [], ◌∷◌, ◌++◌,
  if◌then◌else◌, ◌&&◌, ◌==◌, length,
}
use reverse_rewrite.Common.Text.{Bytes, codes, bytes_eq}
use reverse_rewrite.Common.Outcome.{Outcome, ok, err, panic, out_of_fuel, ◌>>=◌}
use reverse_rewrite.Redis.Frame.{Frame, Frames, array, nil, cons}
use reverse_rewrite.Redis.Connection.{Connection, ReadResult, read_frame}
use reverse_rewrite.Redis.Cmd.{subscribe, unsubscribe, into_frame}
use reverse_rewrite.Redis.Client.{
  Client, Answer, answered, failed, frame_eq, to_error, display, read_as, read_response, sent_frame,
}

pub record Subscriber : Type 0 where
  pub client : Client
  pub subscribed_channels : List Bytes

pub record PushedMessage : Type 0 where
  pub channel : Bytes
  pub content : Bytes

-- `retain(|c| *channel != &c[..])`
unfoldable pub retain : Frame → List Bytes → List Bytes
unfolding frame_eq
retain channel [] = []
retain channel (c ∷ cs) =
    let kept = retain channel cs in if frame_eq channel c then kept else c ∷ kept

module _ (debug : Bytes → Bytes) where
  -- the confirmation of one subscription
  unfoldable pub confirms : Bytes → Frame → Answer (Unit {0})
  unfolding frame_eq to_error
  confirms channel (array (cons s (cons name rest))) =
      if frame_eq s (codes "subscribe") && frame_eq name channel
      then answered tt
      else to_error debug (array (cons s (cons name rest)))
  confirms channel x = to_error debug x

  unfoldable pub message_of : Frame → Answer PushedMessage
  unfolding frame_eq to_error
  message_of (array (cons message (cons channel (cons content nil)))) =
      if frame_eq message (codes "message")
      then answered (record { channel = display debug channel; content = display debug content })
      else to_error debug (array (cons message (cons channel (cons content nil))))
  message_of x = to_error debug x

  -- The confirmation that a channel was left; the list changes even when it is refused.
  unfoldable pub leaves : Frame → List Bytes → Answer (Unit {0}) × List Bytes
  unfolding retain to_error
  leaves (array (cons u (cons channel rest))) subscribed =
      let x = array (cons u (cons channel rest)) in
      if frame_eq u (codes "unsubscribe")
      then (if length subscribed == 0 then (to_error debug x, subscribed) else (
        if length (retain channel subscribed) == length subscribed - 1
            then answered tt
            else to_error debug x,
        retain channel subscribed,
      ))
      else (to_error debug x, subscribed)
  leaves x subscribed = (to_error debug x, subscribed)

  module _ (atoi : Bytes → Option ℕ) where
    -- a confirmation for each channel
    unfoldable pub confirm_all :
        List Bytes → Connection → ReadResult (Answer (Unit {0}) × Connection)
    unfolding confirms read_response
    confirm_all [] c = ok (answered tt, c)
    confirm_all (channel ∷ channels) c = read_response atoi c >>= λ (reply, c').
        elim (read_as (confirms channel) reply) [
          | answered _ ↦ confirm_all channels c'
          | failed e ↦ ok (failed e, c')
        ]

    unfoldable pub subscribe_cmd : List Bytes → Client → ReadResult (Answer (Unit {0}) × Client)
    unfolding confirm_all
    subscribe_cmd channels c = sent_frame (into_frame (subscribe channels)) >>= λ w.
        confirm_all channels c.connection >>= λ (a, rest).
        ok (a, record { connection = rest; sent = c.sent ++ w })

    unfoldable pub client_subscribe : List Bytes → Client → ReadResult (Answer Subscriber)
    unfolding subscribe_cmd
    client_subscribe channels c = subscribe_cmd channels c >>= λ (a, c').
        ok (read_as (λ _. answered (record { client = c'; subscribed_channels = channels })) a)

    unfoldable pub subscribe_more :
        List Bytes → Subscriber → ReadResult (Answer (Unit {0}) × Subscriber)
    unfolding subscribe_cmd
    subscribe_more channels s = subscribe_cmd channels s.client >>= λ (a, c'). elim a [
      | answered _ ↦ ok (
        answered tt,
        record { client = c'; subscribed_channels = s.subscribed_channels ++ channels },
      )
      | failed e ↦ ok (failed e, record s { client = c' })
    ]

    unfoldable pub next_message :
        Subscriber → ReadResult (Answer (Option PushedMessage) × Subscriber)
    unfolding message_of
    next_message s = read_frame atoi s.client.connection >>= λ (found, c).
        let s' = record s { client = record s.client { connection = c } } in
        elim found [
          | none ↦ ok (answered none, s')
          | some x ↦ ok (read_as (λ m. answered (some m)) (message_of x), s')
        ]

    -- the loop of `unsubscribe`
    unfoldable pub leave_all :
        ℕ → List Bytes → Connection → ReadResult (Answer (Unit {0}) × List Bytes × Connection)
    unfolding leaves read_response
    leave_all zero subscribed c = ok (answered tt, subscribed, c)
    leave_all (suc n) subscribed c = read_response atoi c >>= λ (reply, c'). elim reply [
      | failed e ↦ ok (failed e, subscribed, c')
      | answered x ↦
          let (a, left) = leaves x subscribed in
          elim a [ answered _ ↦ leave_all n left c' | failed e ↦ ok (failed e, left, c') ]
    ]

    abbrev expected_replies : List Bytes → List Bytes → ℕ
    expected_replies [] subscribed = length subscribed
    expected_replies (c ∷ cs) subscribed = length (c ∷ cs)

    unfoldable pub unsubscribe_channels :
        List Bytes → Subscriber → ReadResult (Answer (Unit {0}) × Subscriber)
    unfolding leave_all
    unsubscribe_channels channels s = sent_frame (into_frame (unsubscribe channels)) >>= λ w.
        leave_all (expected_replies channels s.subscribed_channels) s.subscribed_channels
          s.client.connection
        >>= λ (a, left, c). ok (
          a,
          record {
            client = record { connection = c; sent = s.client.sent ++ w };
            subscribed_channels = left;
          },
        )
