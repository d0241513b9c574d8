-- ===== src/Redis/Server.antt =====
-- server.rs and shutdown.rs: the back-off of `Listener::accept`, and the loop of `Handler::run`.
pub mod Rounds
pub mod Backoff
use reverse_rewrite.Common.{
  ℕ, ◌+◌, ◌*◌, ◌≡◌, Bool, true, false, Option, none, some, List, [], ◌∷◌, ◌++◌, ltb, if◌then◌else◌,
}
use reverse_rewrite.Common.Text.{Bytes}
use reverse_rewrite.Common.Outcome.{Outcome, ok, err, panic, out_of_fuel, ◌>>=◌, map_err}
use reverse_rewrite.Redis.Frame.{Frame}
use reverse_rewrite.Redis.Connection.{Connection, ReadError, write_frame, read_frame}
use reverse_rewrite.Redis.Db.{Shared, Broadcast}
use reverse_rewrite.Redis.Cmd.{CommandError, Casing, from_frame}
use reverse_rewrite.Redis.Cmd.Apply.{Applied, replied, rejected, crashed, listens, apply}

-- What became of the attempts to accept, with the seconds that were waited in between: a socket, an
-- error after too many of them, or no more attempts so far.
pub data Accept (Socket : Type 0) : Type 0 where
  accepted : Socket → ℕ → Accept Socket
  gave_up : ℕ → Accept Socket
  waits : ℕ → Accept Socket

module _ {Socket : Type 0} where
  -- The loop, from a back-off on; an attempt is none when it failed.
  unfoldable pub accept_loop : ℕ → ℕ → List (Option Socket) → Accept Socket
  accept_loop backoff waited [] = waits waited
  accept_loop backoff waited (some socket ∷ later) = accepted socket waited
  accept_loop backoff waited (none ∷ later) =
      let rest = accept_loop (backoff * 2) (waited + backoff) later in
      if ltb 64 backoff then gave_up waited else rest

  unfoldable pub accept : List (Option Socket) → Accept Socket
  unfolding accept_loop
  accept = accept_loop 1 0

pub data HandlerError : Type 0 where
  unread : ReadError → HandlerError
  unparsed : CommandError → HandlerError
  unwritten : ReadError → HandlerError
  command_unsupported : HandlerError

-- What a round of the loop wakes up to: the socket, at an instant, or the signal to shut down.
pub data Event : Type 0 where
  readable : ℕ → Event
  signal : Event

-- `Handler`: the connection, the flag of `Shutdown`, and the bytes written so far.
pub record Handler : Type 0 where
  pub connection : Connection
  pub is_shutdown : Bool
  pub written : Bytes

-- How a handler goes on: with the next round, returned, in the session of its channels, returned
-- with an error, or panicked; `starved` is a model run without the fuel that it needs.
pub data Progress : Type 0 where
  running finished aborted starved : Progress
  subscribed : List Bytes → Progress
  closed : HandlerError → Progress

module _ (bc : Broadcast) where
  abbrev pub Turn : Type 0
  Turn = Progress × Handler × Shared bc.Sender

  -- An error ends the task and leaves the database as it is.
  abbrev pub settle :
      {A : Type 0} → Outcome HandlerError A → Handler → Shared bc.Sender → (A → Turn) → Turn
  settle (ok a) h sh k = k a
  settle (err e) h sh k = (closed e, h, sh)
  settle panic h sh k = (aborted, h, sh)
  settle out_of_fuel h sh k = (starved, h, sh)

  -- What is done with what `apply` came to.
  abbrev pub respond : Handler → Applied × Shared bc.Sender → Turn
  respond h (replied x, sh) =
      settle (map_err unwritten (write_frame x)) h sh
        (λ w. (running, record h { written = h.written ++ w }, sh))
  respond h (rejected, sh) = (closed command_unsupported, h, sh)
  respond h (crashed, sh) = (aborted, h, sh)
  respond h (listens channels, sh) = (subscribed channels, h, sh)

  module _ (cs : Casing) (atoi : Bytes → Option ℕ) where
    -- A frame, its command, the effect of the command and the response to it.
    unfoldable pub serve : ℕ → Handler → Shared bc.Sender → Turn
    serve now h sh = settle (map_err unread (read_frame atoi h.connection)) h sh (λ (found, c).
        let h' = record h { connection = c } in
        elim found [
          | none ↦ (finished, h', sh)
          | some x ↦
              settle (map_err unparsed (from_frame cs atoi x)) h' sh
                (λ cmd. respond h' (apply bc now cmd sh))
        ])

    -- The body of the loop for an event, once the flag was tested.
    unfoldable pub handle : Event → Handler → Shared bc.Sender → Turn
    unfolding serve
    handle (readable now) h sh = serve now h sh
    handle signal h sh = (finished, record h { is_shutdown = true }, sh)

    unfoldable pub run : List Event → Handler → Shared bc.Sender → Turn
    unfolding handle
    run [] h sh = (if h.is_shutdown then finished else running, h, sh)
    run (e ∷ later) h sh = elim (h.is_shutdown) [
      | true ↦ (finished, h, sh)
      | false ↦
          let (p, h', sh') = handle e h sh in
          elim p [
            | running ↦ run later h' sh'
            | finished ↦ (finished, h', sh')
            | aborted ↦ (aborted, h', sh')
            | starved ↦ (starved, h', sh')
            | subscribed channels ↦ (subscribed channels, h', sh')
            | closed e' ↦ (closed e', h', sh')
          ]
    ]
