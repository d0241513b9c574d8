-- ===== src/Redis/Client.antt =====
-- clients/client.rs: each request of `Client`, with the way that it reads the reply.
-- What a method returns as `Err` for a frame is `failed` with the text of the error.
pub mod Replies
use reverse_rewrite.Common.{
  ℕ, ◌≡◌, Bool, true, false, Option, none, some, List, [], ◌∷◌, ◌++◌, if◌then◌else◌, ◌&&◌,
}
use reverse_rewrite.Common.Text.{Bytes, codes, bytes_eq, is_utf8, decimal}
use reverse_rewrite.Common.Outcome.{Outcome, ok, err, panic, out_of_fuel, ◌>>=◌}
use reverse_rewrite.Redis.Frame.{
  Frame, Frames, simple, error, integer, bulk, null, array, nil, cons,
}
use reverse_rewrite.Redis.Connection.{Connection, ReadError, ReadResult, write_frame, read_frame}
use reverse_rewrite.Redis.Cmd.{Command, get, set, publish, ping, subscribe, into_frame}

-- `impl PartialEq<&str> for Frame`
unfoldable pub frame_eq : Frame → Bytes → Bool
frame_eq (simple s) text = bytes_eq s text
frame_eq (bulk s) text = bytes_eq s text
frame_eq (error s) text = false
frame_eq (integer n) text = false
frame_eq null text = false
frame_eq (array xs) text = false

pub data Answer (A : Type 0) : Type 0 where
  answered : A → Answer A
  failed : Bytes → Answer A

-- The socket is the connection that is read, and the bytes that were sent.
pub record Client : Type 0 where
  pub connection : Connection
  pub sent : Bytes

-- A text is printed as it is; bytes that are no text as `debug` prints them.
module _ (debug : Bytes → Bytes) where
  -- `impl fmt::Display for Frame`
  unfoldable mutual
    pub display : Frame → Bytes
    display (simple s) = s
    display (error s) = codes "error: " ++ s
    display (integer n) = decimal n
    display (bulk s) = if is_utf8 s then s else debug s
    display null = codes "(nil)"
    display (array xs) = display_items xs

    display_items : Frames → Bytes
    display_items nil = []
    display_items (cons x nil) = display x
    display_items (cons x (cons y ys)) = display x ++ (b' ' ∷ display_items (cons y ys))

  unfoldable pub to_error : {A : Type 0} → Frame → Answer A
  unfolding display
  to_error x = failed (codes "unexpected frame: " ++ display x)

  -- What is made of a reply, method by method.
  unfoldable pub ping_answer : Frame → Answer Bytes
  ping_answer (simple value) = answered value
  ping_answer (bulk value) = answered value
  ping_answer x = to_error x

  unfoldable pub get_answer : Frame → Answer (Option Bytes)
  get_answer (simple value) = answered (some value)
  get_answer (bulk value) = answered (some value)
  get_answer null = answered none
  get_answer x = to_error x

  unfoldable pub set_answer : Frame → Answer (Unit {0})
  set_answer (simple response) =
      if bytes_eq response (codes "OK") then answered tt else to_error (simple response)
  set_answer x = to_error x

  unfoldable pub publish_answer : Frame → Answer ℕ
  publish_answer (integer response) = answered response
  publish_answer x = to_error x

abbrev pub response_of : Option Frame → Answer Frame
response_of (some (error msg)) = failed msg
response_of (some x) = answered x
response_of none = failed (codes "connection reset by server")

abbrev pub read_as : {A B : Type 0} → (A → Answer B) → Answer A → Answer B
read_as f (answered a) = f a
read_as f (failed e) = failed e

abbrev pub sent_frame : Option Frame → Outcome ReadError Bytes
sent_frame none = panic
sent_frame (some x) = write_frame x

module _ (atoi : Bytes → Option ℕ) where
  unfoldable pub read_response : Connection → ReadResult (Answer Frame × Connection)
  read_response c = read_frame atoi c >>= λ (found, c'). ok (response_of found, c')

  -- The command is sent as a frame, and its reply is awaited.
  unfoldable pub request :
      {A : Type 0} → Command → (Frame → Answer A) → Client → ReadResult (Answer A × Client)
  unfolding read_response
  request cmd answer c = sent_frame (into_frame cmd) >>= λ w.
      read_response c.connection >>= λ (reply, rest).
      ok (read_as answer reply, record { connection = rest; sent = c.sent ++ w })

  module _ (debug : Bytes → Bytes) where
    unfoldable pub client_ping : Option Bytes → Client → ReadResult (Answer Bytes × Client)
    unfolding request
    client_ping msg = request (ping msg) (ping_answer debug)

    unfoldable pub client_get : Bytes → Client → ReadResult (Answer (Option Bytes) × Client)
    unfolding request
    client_get key = request (get key) (get_answer debug)

    unfoldable pub client_set : Bytes → Bytes → Client → ReadResult (Answer (Unit {0}) × Client)
    unfolding request
    client_set key value = request (set key value none) (set_answer debug)

    unfoldable pub client_set_expires :
        Bytes → Bytes → ℕ → Client → ReadResult (Answer (Unit {0}) × Client)
    unfolding request
    client_set_expires key value expiration =
        request (set key value (some expiration)) (set_answer debug)

    unfoldable pub client_publish : Bytes → Bytes → Client → ReadResult (Answer ℕ × Client)
    unfolding request
    client_publish channel message = request (publish channel message) (publish_answer debug)
