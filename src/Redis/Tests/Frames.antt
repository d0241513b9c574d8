-- ===== src/Redis/Tests/Frames.antt =====
-- frame.rs and connection.rs: each theorem at a concrete input.
use reverse_rewrite.Common.{◌≡◌, ◌≢◌, refl, none, some, [], ◌∷◌, ◌++◌, arith}
use reverse_rewrite.Common.Text.{Bytes, codes, decimal, is_utf8}
use reverse_rewrite.Common.Outcome.{err, ok, out_of_fuel}
use reverse_rewrite.Redis.Frame.{
  Frame, simple, bulk, array, nil, cons, check, parse, get_u8, check_scalar, get_line, find_line,
  parse_scalar, utf8_line,
}
use reverse_rewrite.Redis.Frame.Suffices.{Suffices, check-Suffices}
use reverse_rewrite.Redis.Connection.{
  Connection, write_frame, parse_frame, read_frame, reset_by_peer,
}
use reverse_rewrite.Redis.Connection.Read.{
  delivered, read_frame-delivered, read_frame-end, read_frame_total,
}
use reverse_rewrite.Redis.Connection.RoundTrip.{read_frame-write_frame}
use reverse_rewrite.Redis.Tests.Atoi.{leading_digits, leading_digits-decimal}

-- the array ["get", "k"], and the bytes of its frame
abbrev get_k : Frame
get_k = array (cons (bulk (codes "get")) (cons (bulk (codes "k")) nil))

abbrev get_k_bytes : Bytes
get_k_bytes =
    42 ∷ 50 ∷ 13 ∷ 10 ∷ 36 ∷ 51 ∷ 13 ∷ 10 ∷ 103 ∷ 101 ∷ 116 ∷ 13 ∷ 10 ∷ 36 ∷ 49 ∷ 13 ∷ 10 ∷ 107 ∷ 13
    ∷ 10 ∷ []

get_k_written : write_frame get_k ≡ ok get_k_bytes
unfolding write_frame decimal
get_k_written = refl

-- two chunks, the second with the beginning of the next frame
abbrev in_pieces : Connection
in_pieces = record {
  buffer = 42 ∷ 50 ∷ [];
  incoming =
      (13 ∷ 10 ∷ 36 ∷ 51 ∷ 13 ∷ 10 ∷ 103 ∷ [])
      ∷ (101 ∷ 116 ∷ 13 ∷ 10 ∷ 36 ∷ 49 ∷ 13 ∷ 10 ∷ 107 ∷ 13 ∷ 10 ∷ 43 ∷ [])
      ∷ [];
}

read_frame-write_frame_example :
    (c' : Connection) × (read_frame leading_digits in_pieces ≡ ok (some get_k, c'))
    × (c'.buffer ++ delivered c'.incoming ≡ 43 ∷ [])
read_frame-write_frame_example =
    read_frame-write_frame leading_digits leading_digits-decimal get_k get_k_bytes (43 ∷ [])
      in_pieces (omega arith, (omega arith, (omega arith, tt))) get_k_written refl
      (omega arith, (omega arith, tt)) (omega arith)

-- "+OK", cut in two
abbrev status_in_pieces : Connection
status_in_pieces = record { buffer = []; incoming = (43 ∷ 79 ∷ []) ∷ (75 ∷ 13 ∷ 10 ∷ 58 ∷ []) ∷ [] }

status_parses :
    parse_frame leading_digits (43 ∷ 79 ∷ 75 ∷ 13 ∷ 10 ∷ 58 ∷ [])
    ≡ ok (some (simple (codes "OK")), 58 ∷ [])
unfolding parse_frame check get_u8 check_scalar get_line find_line parse parse_scalar utf8_line
    is_utf8
status_parses = refl

read_frame-delivered_example :
    (c' : Connection) × (read_frame leading_digits status_in_pieces
      ≡ ok (some (simple (codes "OK")), c'))
    × (c'.buffer ++ delivered c'.incoming ≡ 58 ∷ [])
read_frame-delivered_example =
    read_frame-delivered leading_digits status_in_pieces (simple (codes "OK")) (58 ∷ [])
      (omega arith, (omega arith, tt)) (omega arith) status_parses

abbrev cut_short : Connection
cut_short = record { buffer = 43 ∷ []; incoming = (79 ∷ []) ∷ [] }

cut_short_waits : parse_frame leading_digits (43 ∷ 79 ∷ []) ≡ ok (none, 43 ∷ 79 ∷ [])
unfolding parse_frame check get_u8 check_scalar get_line find_line parse parse_scalar utf8_line
    is_utf8
cut_short_waits = refl

read_frame-end_example : read_frame leading_digits cut_short ≡ err reset_by_peer
read_frame-end_example = read_frame-end leading_digits cut_short (omega arith, tt) cut_short_waits

read_frame_total_example : read_frame leading_digits in_pieces ≢ out_of_fuel
read_frame_total_example = read_frame_total leading_digits in_pieces

check-Suffices_example :
    Suffices
      (43 ∷ [])
      (check leading_digits 41 get_k_bytes)
      (parse leading_digits 41 get_k_bytes)
      (parse leading_digits 43 (get_k_bytes ++ (43 ∷ [])))
check-Suffices_example =
    check-Suffices leading_digits 41 43 get_k_bytes (43 ∷ []) (omega arith) (omega arith)
      (omega arith)
