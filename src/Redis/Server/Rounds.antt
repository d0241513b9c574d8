-- ===== src/Redis/Server/Rounds.antt =====
-- server.rs: a round of `Handler::run` for a command that a client sent.
use reverse_rewrite.Common.{ℕ, ◌+◌, ◌<◌, ◌≡◌, refl, Option, some, ◌++◌, length, All}
use reverse_rewrite.Common.Text.{Bytes}
use reverse_rewrite.Common.Outcome.{ok}
use reverse_rewrite.Redis.Frame.{Frame}
use reverse_rewrite.Redis.Frame.Suffices.{isize_mod}
use reverse_rewrite.Redis.Connection.{Connection, write_frame}
use reverse_rewrite.Redis.Connection.Read.{delivered}
use reverse_rewrite.Redis.Connection.Write.{ReadsDecimals, IsWritableFrame}
use reverse_rewrite.Redis.Connection.RoundTrip.{read_frame-write_frame}
use reverse_rewrite.Redis.Db.{Shared, Broadcast}
use reverse_rewrite.Redis.Cmd.{Command, Casing, into_frame}
use reverse_rewrite.Redis.Cmd.Wire.{received, IsSendable, from_frame-into_frame}
use reverse_rewrite.Redis.Cmd.Apply.{apply}
use reverse_rewrite.Redis.Server.{Handler, respond, serve}

module _ (bc : Broadcast) (cs : Casing) (atoi : Bytes → Option ℕ) (reads : ReadsDecimals atoi) where
  -- A command that a client sent as the frame x, written as the bytes w, is served when its bytes
  -- arrive, in whatever chunks: the handler does what applying the command comes to, and keeps the
  -- bytes behind it.
  pub serve-into_frame :
      (now : ℕ) (cmd : Command) (x : Frame) (w rest : Bytes) (h : Handler) (sh : Shared bc.Sender)
      → IsSendable cmd
      → into_frame cmd ≡ some x
      → IsWritableFrame x
      → write_frame x ≡ ok w
      → h.connection.buffer ++ delivered h.connection.incoming ≡ w ++ rest
      → All (λ chunk. 0 < length chunk) h.connection.incoming
      → length h.connection.buffer + length (delivered h.connection.incoming) < isize_mod
      → (c : Connection) × (c.buffer ++ delivered c.incoming ≡ rest)
        × (serve bc cs atoi now h sh
            ≡ respond bc (record h { connection = c }) (apply bc now (received cmd) sh))
  unfolding serve
  serve-into_frame now cmd x w rest h sh sendable e writable written sent full fits =
      let (x', e', back) = from_frame-into_frame cs atoi cmd sendable in
      let same : x' ≡ x = cc in
      let back' = rw same at back in
      let (c, found, left) =
        read_frame-write_frame atoi reads x w rest h.connection writable written sent full fits in
      (c, left, rw (found, back') refl)
