-- ===== src/Redis/Tests/Exchange.antt =====
-- server.rs and clients/client.rs: each theorem at a concrete input.
use reverse_rewrite.Common.{
  ℕ, ◌<◌, ◌≡◌, refl, ap, append-nil, false, none, some, [], ◌∷◌, ◌++◌, arith, length,
}
use reverse_rewrite.Common.Text.{Bytes, codes, is_utf8, decimal}
use reverse_rewrite.Common.Outcome.{ok}
use reverse_rewrite.Redis.Connection.{Connection, write_frame, read_frame}
use reverse_rewrite.Redis.Frame.{
  append_frame, check, parse, check_scalar, parse_scalar, get_u8, peek_u8, skip, get_line,
  find_line, get_decimal, utf8_line, parse_bulk,
}
use reverse_rewrite.Redis.Parse.{entries, next_string, next_bytes, next_int, finish}
use reverse_rewrite.Redis.Db
use reverse_rewrite.Redis.Db.{new}
use reverse_rewrite.Redis.Cmd.{
  get, set, into_frame, from_frame, dispatch, parse_set, parse_get, set_option,
}
use reverse_rewrite.Redis.Cmd.Apply.{apply}
use reverse_rewrite.Redis.Server.{Handler, accept, accepted, gave_up, waits, serve}
use reverse_rewrite.Redis.Server.Backoff.{failures, accept-failures}
use reverse_rewrite.Redis.Client.{Client, answered, sent_frame, client_get, client_set}
use reverse_rewrite.Redis.Client.Replies.{Delivers, get_after_set}
use reverse_rewrite.Redis.Tests.Params.{ascii_casing, counted}
use reverse_rewrite.Redis.Tests.Atoi.{leading_digits, leading_digits-decimal}

accept-failures_example :
    (accept {Socket = ℕ} (failures 3 (some 80 ∷ [])) ≡ accepted 80 7)
    × (accept {Socket = ℕ} (failures 3 []) ≡ waits 7)
    × (accept {Socket = ℕ} (failures 8 []) ≡ gave_up 127)
accept-failures_example = accept-failures 3 80 [] (omega arith)

abbrev set_k_bytes : Bytes
set_k_bytes =
    42 ∷ 51 ∷ 13 ∷ 10 ∷ 36 ∷ 51 ∷ 13 ∷ 10 ∷ 115 ∷ 101 ∷ 116 ∷ 13 ∷ 10 ∷ 36 ∷ 49 ∷ 13 ∷ 10 ∷ 107 ∷ 13
    ∷ 10 ∷ 36 ∷ 49 ∷ 13 ∷ 10 ∷ 118 ∷ 13 ∷ 10 ∷ []

abbrev get_k_bytes : Bytes
get_k_bytes =
    42 ∷ 50 ∷ 13 ∷ 10 ∷ 36 ∷ 51 ∷ 13 ∷ 10 ∷ 103 ∷ 101 ∷ 116 ∷ 13 ∷ 10 ∷ 36 ∷ 49 ∷ 13 ∷ 10 ∷ 107 ∷ 13
    ∷ 10 ∷ []

set_k_sent : sent_frame (into_frame (set (codes "k") (codes "v") none)) ≡ ok set_k_bytes
unfolding into_frame write_frame append_frame decimal
set_k_sent = refl

get_k_sent : sent_frame (into_frame (get (codes "k"))) ≡ ok get_k_bytes
unfolding into_frame write_frame append_frame decimal
get_k_sent = refl

abbrev handles : Bytes → Handler
handles bytes = record {
  connection = record { buffer = []; incoming = bytes ∷ [] };
  is_shutdown = false;
  written = [];
}

abbrev hears : Bytes → Client
hears bytes = record { connection = record { buffer = []; incoming = bytes ∷ [] }; sent = [] }

set_k_reply :
    (serve counted ascii_casing leading_digits 5 (handles set_k_bytes) new).1.written
    ≡ codes "+OK" ++ (13 ∷ 10 ∷ [])
unfolding serve check parse check_scalar parse_scalar get_u8 peek_u8 skip get_line find_line
    get_decimal utf8_line parse_bulk read_frame from_frame entries dispatch next_string next_bytes
    next_int parse_set parse_get set_option finish apply Db.set Db.get new write_frame decimal
    is_utf8 leading_digits
set_k_reply = refl

get_k_reply :
    (serve counted ascii_casing leading_digits 6
      (handles get_k_bytes)
      (serve counted ascii_casing leading_digits 5 (handles set_k_bytes) new).2).1.written
    ≡ 36 ∷ 49 ∷ 13 ∷ 10 ∷ 118 ∷ 13 ∷ 10 ∷ []
unfolding serve check parse check_scalar parse_scalar get_u8 peek_u8 skip get_line find_line
    get_decimal utf8_line parse_bulk read_frame from_frame entries dispatch next_string next_bytes
    next_int parse_set parse_get set_option finish apply Db.set Db.get new write_frame decimal
    is_utf8 leading_digits
get_k_reply = refl

delivered_at_once :
    (bytes : Bytes)
    → 0 < length bytes
    → length bytes < 1000
    → Delivers (handles bytes).connection bytes
delivered_at_once bytes some_byte few = record {
  whole = append-nil bytes;
  full = (some_byte, tt);
  fits =
      let same : length (bytes ++ []) ≡ length bytes = ap (length {A = ℕ}) (append-nil bytes) in
      omega (arith, same, few);
}

heard :
    (reply bytes : Bytes)
    → 0 < length bytes
    → length bytes < 1000
    → reply ≡ bytes
    → Delivers (hears bytes).connection reply
heard reply bytes some_byte few e = rw e (delivered_at_once bytes some_byte few)

abbrev ok_bytes : Bytes
ok_bytes = codes "+OK" ++ (13 ∷ 10 ∷ [])

abbrev v_bytes : Bytes
v_bytes = 36 ∷ 49 ∷ 13 ∷ 10 ∷ 118 ∷ 13 ∷ 10 ∷ []

get_after_set_example :
    ((c : Connection) × (client_set leading_digits (λ s. s) (codes "k") (codes "v") (hears ok_bytes)
        ≡ ok (answered tt, record { connection = c; sent = set_k_bytes })))
    × ((c : Connection) × (client_get leading_digits (λ s. s) (codes "k") (hears v_bytes)
          ≡ ok (answered (some (codes "v")), record { connection = c; sent = get_k_bytes })))
get_after_set_example =
    get_after_set counted ascii_casing leading_digits leading_digits-decimal (λ s. s) 5 6
      (codes "k") (codes "v") set_k_bytes get_k_bytes (handles set_k_bytes) (handles get_k_bytes)
      new (hears ok_bytes) (hears v_bytes) (unfold is_utf8 in refl) (omega arith) (omega arith)
      (unfold new in refl) set_k_sent get_k_sent
      (delivered_at_once set_k_bytes (omega arith) (omega arith)) refl
      (delivered_at_once get_k_bytes (omega arith) (omega arith)) refl
      (heard _ ok_bytes (omega arith) (omega arith) set_k_reply)
      (heard _ v_bytes (omega arith) (omega arith) get_k_reply)
