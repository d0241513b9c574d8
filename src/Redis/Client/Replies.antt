-- ===== src/Redis/Client/Replies.antt =====
-- clients/client.rs against server.rs: what the client makes of the reply of the handler.
use reverse_rewrite.Common.{
  ℕ, ◌+◌, ◌<◌, ◌≡◌, refl, sym, append-nil, ◌∙◌, true, false, Option, none, some, [], ◌++◌, arith,
  length, All,
}
use reverse_rewrite.Common.Text.{Bytes, codes, is_utf8}
use reverse_rewrite.Common.Order.{bytes_eq_self}
use reverse_rewrite.Common.Outcome.{ok}
use reverse_rewrite.Redis.Frame.{Frame, simple, bulk, usize_mod, append_frame, find_line}
use reverse_rewrite.Redis.Frame.Suffices.{isize_mod}
use reverse_rewrite.Redis.Connection.{Connection, write_frame}
use reverse_rewrite.Redis.Connection.Read.{delivered}
use reverse_rewrite.Redis.Connection.Write.{ReadsDecimals, IsWritableFrame}
use reverse_rewrite.Redis.Connection.RoundTrip.{read_frame-write_frame, parse_frame-write_frame}
use reverse_rewrite.Redis.Db.{Shared, Broadcast}
use reverse_rewrite.Redis.Db
use reverse_rewrite.Redis.Cmd.{Command, Casing, get, set, into_frame}
use reverse_rewrite.Redis.Cmd.Wire.{received, IsSendable}
use reverse_rewrite.Redis.Cmd.Apply.{replied, apply}
use reverse_rewrite.Redis.Server.{Handler, running, serve}
use reverse_rewrite.Redis.Server.Rounds.{serve-into_frame}
use reverse_rewrite.Redis.Client.{
  Client, Answer, answered, read_as, response_of, sent_frame, read_response, request, client_get,
  client_set, set_answer, get_answer,
}

-- The connection delivers these bytes, in nonempty chunks.
pub record Delivers (c : Connection) (bytes : Bytes) : Type 0 where
  pub whole : c.buffer ++ delivered c.incoming ≡ bytes
  pub full : All (λ chunk. 0 < length chunk) c.incoming
  pub fits : length c.buffer + length (delivered c.incoming) < isize_mod

module _ (bc : Broadcast) (cs : Casing) (atoi : Bytes → Option ℕ) (reads : ReadsDecimals atoi) where
  -- When a command that was sent as the frame x is applied with the reply y, then the handler goes on
  -- with the database that the command left, and the client to which the bytes that it wrote are
  -- delivered makes its answer of y, having sent the command.
  pub request-serve :
      {A : Type 0} (answer : Frame → Answer A) (now : ℕ) (cmd : Command) (x y : Frame) (w : Bytes)
      (h : Handler) (sh sh' : Shared bc.Sender) (client : Client)
      → IsSendable cmd
      → into_frame cmd ≡ some x
      → IsWritableFrame x
      → write_frame x ≡ ok w
      → apply bc now (received cmd) sh ≡ (replied y, sh')
      → IsWritableFrame y
      → Delivers h.connection w
      → h.written ≡ []
      → Delivers client.connection (serve bc cs atoi now h sh).1.written
      → ((serve bc cs atoi now h sh).0 ≡ running)
        × ((serve bc cs atoi now h sh).2 ≡ sh')
        × ((c : Connection) × (request atoi cmd answer client
              ≡ ok (
                read_as answer (response_of (some y)),
                record { connection = c; sent = client.sent ++ w },
              )))
  unfolding request read_response
  request-serve answer now cmd x y w h sh sh' client sendable e xw written applied yw hd fresh cd =
      let (c, left, served) =
        serve-into_frame bc cs atoi reads now cmd x w [] h sh sendable e xw written
          (hd.whole ∙ sym (append-nil w)) hd.full hd.fits in
      let (r, replies, _) = parse_frame-write_frame atoi reads y yw in
      let turn : serve bc cs atoi now h sh
          ≡ (running, record h { connection = c; written = h.written ++ r }, sh') =
        rw (served, applied, replies) refl in
      let sent : (serve bc cs atoi now h sh).1.written ≡ r ++ [] =
        rw (turn, fresh) (sym (append-nil r)) in
      let (c', found, _) =
        read_frame-write_frame atoi reads y r [] client.connection yw replies (cd.whole ∙ sent)
          cd.full cd.fits in
      (rw turn refl, rw turn refl, (c', rw (e, written, found) refl))

  -- What one client sets for a key, without an expiration, another client gets next, when the handler
  -- of each has written nothing before and is delivered exactly the bytes of the request, and each
  -- client is delivered the bytes that its handler wrote, all in nonempty chunks of fewer than 2^63
  -- bytes together. The key is UTF-8, the value any bytes, their lengths are less than 2^64 - 2, `atoi`
  -- reads decimals back, and the database is not poisoned.
  pub get_after_set :
      (debug : Bytes → Bytes) (now later : ℕ) (key value w₁ w₂ : Bytes) (h₁ h₂ : Handler)
      (sh : Shared bc.Sender) (one two : Client)
      → is_utf8 key ≡ true
      → length key + 2 < usize_mod
      → length value + 2 < usize_mod
      → sh.poisoned ≡ false
      → sent_frame (into_frame (set key value none)) ≡ ok w₁
      → sent_frame (into_frame (get key)) ≡ ok w₂
      → Delivers h₁.connection w₁
      → h₁.written ≡ []
      → Delivers h₂.connection w₂
      → h₂.written ≡ []
      → Delivers one.connection (serve bc cs atoi now h₁ sh).1.written
      → Delivers two.connection (serve bc cs atoi later h₂ (serve bc cs atoi now h₁ sh).2).1.written
      → ((c : Connection) × (client_set atoi debug key value one
            ≡ ok (answered tt, record { connection = c; sent = one.sent ++ w₁ })))
        × ((c : Connection) × (client_get atoi debug key two
              ≡ ok (answered (some value), record { connection = c; sent = two.sent ++ w₂ })))
  unfolding client_set client_get into_frame apply Db.set Db.get find_line is_utf8 set_answer
      get_answer append_frame
  get_after_set debug now later key value w₁ w₂ h₁ h₂ sh one two utf8 k v fine e₁ e₂ d₁ f₁ d₂ f₂ r₁
        r₂ =
      let (_, left, (c, first)) =
        request-serve (set_answer debug) now (set key value none) _ (simple (codes "OK")) w₁ h₁ sh
          (apply bc now (set key value none) sh).1 one utf8 refl
          (omega arith, (omega arith, (k, (v, tt)))) e₁ (ground (arith, fine)) (refl, refl) d₁ f₁
          r₁ in
      let (_, _, (c', second)) =
        request-serve (get_answer debug) later (get key) _ (bulk value) w₂ h₂
          (serve bc cs atoi now h₁ sh).2 (serve bc cs atoi now h₁ sh).2 two utf8 refl
          (omega arith, (omega arith, (k, tt))) e₂
          (rw left (ground (arith, fine, bytes_eq_self key))) v d₂ f₂ r₂ in
      ((c, first), (c', second))
