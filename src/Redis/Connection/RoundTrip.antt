-- ===== src/Redis/Connection/RoundTrip.antt =====
-- connection.rs: `read_frame` returns the frame that `write_frame` wrote.
use reverse_rewrite.Common.{
  ℕ, suc, ◌+◌, ◌*◌, ◌<◌, ◌≡◌, refl, Option, some, [], ◌∷◌, ◌++◌, arith, length, All, drop-length,
  length-append,
}
use reverse_rewrite.Common.Text.{Bytes}
use reverse_rewrite.Common.Outcome.{ok}
use reverse_rewrite.Redis.Frame.{
  Frame, Frames, simple, error, integer, bulk, null, array, nil, cons, check, parse,
}
use reverse_rewrite.Redis.Frame.Suffices.{isize_mod}
use reverse_rewrite.Redis.Connection.{
  Connection, frame_fuel, write_value, write_values, write_frame, write_decimal, frames_length,
  parse_frame, read_frame, parse_checked,
}
use reverse_rewrite.Redis.Connection.Read.{delivered, read_frame-delivered}
use reverse_rewrite.Redis.Connection.Write.{
  ReadsDecimals, IsWritable, AllWritable, IsWritableFrame, write_value-ReadsBack, array-ReadsBack,
  frames_length-le,
}

write_value_ok : (x : Frame) → IsWritable x → (w : Bytes) × (write_value x ≡ ok w)
unfolding write_value
write_value_ok (array xs) h = absurd h
write_value_ok (simple s) h = (_, refl)
write_value_ok (error s) h = (_, refl)
write_value_ok (integer n) h = (_, refl)
write_value_ok (bulk b) h = (_, refl)
write_value_ok null h = (_, refl)

write_values_ok : (xs : Frames) → AllWritable xs → (ws : Bytes) × (write_values xs ≡ ok ws)
unfolding write_values
write_values_ok nil h = ([], refl)
write_values_ok (cons x xs) (h, hs) =
    let (w, e) = write_value_ok x h in
    let (ws, es) = write_values_ok xs hs in (w ++ ws, rw (e, es) refl)

module _ (atoi : Bytes → Option ℕ) (reads : ReadsDecimals atoi) where
  parse_frame_of :
      (x : Frame) (w rest : Bytes)
      → (check atoi (suc (2 * length (w ++ rest))) (w ++ rest) ≡ ok (tt, rest))
        × (parse atoi (suc (2 * length (w ++ rest))) (w ++ rest) ≡ ok (x, rest))
      → parse_frame atoi (w ++ rest) ≡ ok (some x, rest)
  unfolding parse_frame parse_checked
  parse_frame_of x w rest (c, p) =
      let fuel : suc (2 * length (w ++ rest)) ≡ frame_fuel (w ++ rest) = omega arith in
      let c' = rw fuel at c in
      let p' = rw fuel at p in ground (arith, c', p', length-append w rest, drop-length w rest)

  literal :
      (x : Frame)
      → IsWritable x
      → write_frame x ≡ write_value x
      → (w : Bytes) × (write_frame x ≡ ok w)
        × ((rest : Bytes) → parse_frame atoi (w ++ rest) ≡ ok (some x, rest))
  literal x h e =
      let (w, p) = write_value_ok x h in
      (w, rw e p, λ rest. parse_frame_of x w rest (write_value-ReadsBack atoi reads x w h p _ rest))

  -- A frame without nested arrays, whose texts are UTF-8 without "\r\n" and whose numbers and lengths
  -- are words, is written, and the bytes written are read back as that frame, whatever follows them, when
  -- `atoi` reads decimals back.
  pub parse_frame-write_frame :
      (x : Frame)
      → IsWritableFrame x
      → (w : Bytes) × (write_frame x ≡ ok w)
        × ((rest : Bytes) → parse_frame atoi (w ++ rest) ≡ ok (some x, rest))
  unfolding write_frame
  parse_frame-write_frame (array xs) (few, h) =
      let (ws, e) = write_values_ok xs h in
      let w = b'*' ∷ (write_decimal (frames_length xs) ++ ws) in
      (
        w,
        rw e refl,
        λ rest. parse_frame_of (array xs) w rest (
            array-ReadsBack atoi reads xs ws _ rest few h e (
              omega (
                arith,
                frames_length-le xs ws e,
                length-append (write_decimal (frames_length xs)) ws,
                length-append w rest,
              ))),
      )
  parse_frame-write_frame (simple s) h = literal (simple s) h refl
  parse_frame-write_frame (error s) h = literal (error s) h refl
  parse_frame-write_frame (integer n) h = literal (integer n) h refl
  parse_frame-write_frame (bulk b) h = literal (bulk b) h refl
  parse_frame-write_frame null h = literal null h refl

  -- What `write_frame` wrote for a frame without nested arrays, whose texts are UTF-8 without "\r\n"
  -- and whose numbers and lengths are words, `read_frame` returns, however the connection delivers it
  -- in nonempty chunks of fewer than 2^63 bytes together; what was sent behind it stays to be read.
  -- `atoi` reads decimals back.
  pub read_frame-write_frame :
      (x : Frame) (w rest : Bytes) (c : Connection)
      → IsWritableFrame x
      → write_frame x ≡ ok w
      → c.buffer ++ delivered c.incoming ≡ w ++ rest
      → All (λ chunk. 0 < length chunk) c.incoming
      → length c.buffer + length (delivered c.incoming) < isize_mod
      → (c' : Connection) × (read_frame atoi c ≡ ok (some x, c'))
        × (c'.buffer ++ delivered c'.incoming ≡ rest)
  read_frame-write_frame x w rest c h e sent full fits =
      let (w', e', back) = parse_frame-write_frame x h in
      let same : w' ≡ w = cc in
      read_frame-delivered atoi c x rest full fits (rw (sent, ← same) (back rest))
