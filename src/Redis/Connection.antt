-- ===== src/Redis/Connection.antt =====
-- connection.rs: frames read from and written to a byte stream.
-- What `read_buf` will deliver is a list of chunks; no chunk, or an empty one, is the end of the
-- stream. The bytes written are the value of a write; errors of the socket are not modelled.

pub mod Read
pub mod Write
pub mod RoundTrip
use reverse_rewrite.Common.{
  ℕ, zero, suc, ◌+◌, ◌-◌, ◌*◌, Option, none, some, List, [], ◌∷◌, ◌++◌, length, drop,
}
use reverse_rewrite.Common.Text.{Bytes, codes, decimal}
use reverse_rewrite.Common.Outcome.{Outcome, ok, err, panic, out_of_fuel, ◌>>=◌, map_err}
use reverse_rewrite.Redis.Frame.{
  Frame, Frames, Error, simple, error, integer, bulk, null, array, nil, cons, incomplete, check,
  parse,
}

-- `frame` is an error of `Frame::check` or `Frame::parse` that `?` passes on.
pub data ReadError : Type 0 where
  frame : Error → ReadError
  reset_by_peer : ReadError

pub record Connection : Type 0 where
  pub buffer : Bytes
  pub incoming : List Bytes

abbrev pub ReadResult : Type 0 → Type 0
ReadResult A = Outcome ReadError A

abbrev pub frame_fuel : Bytes → ℕ
frame_fuel buffer = 2 * length buffer + 1

abbrev pub crlf : Bytes
crlf = 13 ∷ 10 ∷ []

abbrev pub frames_length : Frames → ℕ
frames_length nil = 0
frames_length (cons x xs) = suc (frames_length xs)

unfoldable pub write_decimal : ℕ → Bytes
write_decimal n = decimal n ++ crlf

-- `unreachable!()` on an array is a panic.
unfoldable pub write_value : Frame → Outcome ReadError Bytes
unfolding write_decimal
write_value (simple s) = ok (b'+' ∷ (s ++ crlf))
write_value (error s) = ok (b'-' ∷ (s ++ crlf))
write_value (integer n) = ok (b':' ∷ write_decimal n)
write_value null = ok (codes "$-1" ++ crlf)
write_value (bulk b) = ok (b'$' ∷ (write_decimal (length b) ++ (b ++ crlf)))
write_value (array xs) = panic

-- `for entry in &**val { self.write_value(entry).await?; }`
unfoldable pub write_values : Frames → Outcome ReadError Bytes
unfolding write_value
write_values nil = ok []
write_values (cons x xs) = write_value x >>= λ w. write_values xs >>= λ ws. ok (w ++ ws)

unfoldable pub write_frame : Frame → Outcome ReadError Bytes
unfolding write_values
write_frame (array xs) =
    write_values xs >>= λ ws. ok (b'*' ∷ (write_decimal (frames_length xs) ++ ws))
write_frame x = write_value x

-- No bytes came.
unfoldable pub end_of_stream : Bytes → ReadResult (Option Frame × Connection)
end_of_stream [] = ok (none, record { buffer = []; incoming = [] })
end_of_stream (b ∷ r) = err reset_by_peer

module _ (atoi : Bytes → Option ℕ) where
  -- the arms of the `match` on what `check` returned
  unfoldable pub parse_checked :
      Bytes → Outcome Error (Unit {0} × Bytes) → ReadResult (Option Frame × Bytes)
  parse_checked buffer (ok (_, rest)) =
      let len = length buffer - length rest in
      map_err frame (parse atoi (frame_fuel buffer) buffer) >>= λ (x, _).
      ok (some x, drop len buffer)
  parse_checked buffer (err incomplete) = ok (none, buffer)
  parse_checked buffer (err e) = err (frame e)
  parse_checked buffer panic = panic
  parse_checked buffer out_of_fuel = out_of_fuel

  -- The frame, and what is left in the buffer.
  unfoldable pub parse_frame : Bytes → ReadResult (Option Frame × Bytes)
  unfolding parse_checked
  parse_frame buffer = parse_checked buffer (check atoi (frame_fuel buffer) buffer)

  -- The loop of `read_frame`: a round for each chunk.
  unfoldable pub read_loop : Bytes → List Bytes → ReadResult (Option Frame × Connection)
  unfolding parse_frame end_of_stream
  read_loop buffer [] = parse_frame buffer >>= λ (found, left). elim found [
    | some x ↦ ok (some x, record { buffer = left; incoming = [] })
    | none ↦ end_of_stream left
  ]
  read_loop buffer (chunk ∷ later) = parse_frame buffer >>= λ (found, left). elim found [
    | some x ↦ ok (some x, record { buffer = left; incoming = chunk ∷ later })
    | none ↦ elim chunk [ [] ↦ end_of_stream left | b ∷ r ↦ read_loop (left ++ (b ∷ r)) later ]
  ]

  unfoldable pub read_frame : Connection → ReadResult (Option Frame × Connection)
  unfolding read_loop
  read_frame c = read_loop c.buffer c.incoming
