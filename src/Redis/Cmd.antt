-- ===== src/Redis/Cmd.antt =====
-- cmd/*.rs: the commands, read from frames and turned into frames.
-- A `Duration` is a number of nanoseconds.
pub mod Wire
pub mod Apply
use reverse_rewrite.Common.{
  ℕ, ◌+◌, ◌-◌, ◌*◌, ◌/◌, ◌%◌, ◌≤◌, ◌<◌, ◌≡◌, Bool, true, false, Option, none, some, List, [], ◌∷◌,
  map, leb, if◌then◌else◌, ◌&&◌, All,
}
use mathlib.Core.Option
use reverse_rewrite.Common.Text.{Bytes, codes, bytes_eq}
use reverse_rewrite.Common.Outcome.{Outcome, ok, err, panic, out_of_fuel, ◌>>=◌, map_err}
use reverse_rewrite.Redis.Frame.{
  Frame, Frames, nil, cons, array, empty_array, push_bulk, push_int, usize_mod,
}
use reverse_rewrite.Redis.Parse.{
  ParseError, end_of_stream, ParseResult, Parser, entries, next_string, next_bytes, next_int,
  string_of, finish,
}

pub data Command : Type 0 where
  get : Bytes → Command
  publish : Bytes → Bytes → Command
  set : Bytes → Bytes → Option ℕ → Command
  subscribe : List Bytes → Command
  unsubscribe : List Bytes → Command
  ping : Option Bytes → Command
  unknown : Bytes → Command

-- `crate::Error`: a parse error, or the text about the options of SET.
pub data CommandError : Type 0 where
  parse : ParseError → CommandError
  unsupported_option : CommandError

abbrev pub CommandResult : Type 0 → Type 0
CommandResult A = Outcome CommandError A

abbrev pub ascii_lower : ℕ → ℕ
ascii_lower b = if leb b'A' b && leb b b'Z' then b + 32 else b

abbrev pub ascii_upper : ℕ → ℕ
ascii_upper b = if leb b'a' b && leb b b'z' then b - 32 else b

-- `str::to_lowercase` and `str::to_uppercase`, which go by the tables of Unicode.
pub record Casing : Type 0 where
  pub lower : Bytes → Bytes
  pub upper : Bytes → Bytes
  pub lower_ascii : (s : Bytes) → All (λ b. b < 128) s → lower s ≡ map ascii_lower s
  pub upper_ascii : (s : Bytes) → All (λ b. b < 128) s → upper s ≡ map ascii_upper s

abbrev pub from_secs : ℕ → ℕ
from_secs n = n * 1000000000

abbrev pub from_millis : ℕ → ℕ
from_millis n = n * 1000000

-- `ms.as_millis() as u64`
abbrev pub as_millis : ℕ → ℕ
as_millis d = d / 1000000 % usize_mod

-- The loop of `Subscribe::parse_frames` and of `Unsubscribe::parse_frames`, up to the end.
unfoldable pub read_strings : Frames → ParseResult (List Bytes × Frames)
unfolding string_of
read_strings nil = ok ([], nil)
read_strings (cons x xs) = string_of x >>= λ s. read_strings xs >>= λ (ss, rest). ok (s ∷ ss, rest)

unfoldable pub parse_get : Parser Command
parse_get xs = next_string xs >>= λ (key, rest). ok (get key, rest)

unfoldable pub parse_publish : Parser Command
parse_publish xs = next_string xs >>= λ (channel, r).
    next_bytes r >>= λ (message, rest). ok (publish channel message, rest)

unfoldable pub parse_subscribe : Parser Command
unfolding read_strings
parse_subscribe xs = next_string xs >>= λ (first, r).
    read_strings r >>= λ (more, rest). ok (subscribe (first ∷ more), rest)

unfoldable pub parse_unsubscribe : Parser Command
unfolding read_strings
parse_unsubscribe xs = read_strings xs >>= λ (channels, rest). ok (unsubscribe channels, rest)

abbrev pub ping_message : Frames → ParseResult (Bytes × Frames) → ParseResult (Command × Frames)
ping_message xs (ok (msg, rest)) = ok (ping (some msg), rest)
ping_message xs (err end_of_stream) = ok (ping none, xs)
ping_message xs (err e) = err e
ping_message xs panic = panic
ping_message xs out_of_fuel = out_of_fuel

unfoldable pub parse_ping : Parser Command
parse_ping xs = ping_message xs (next_bytes xs)

module _ (cs : Casing) (atoi : Bytes → Option ℕ) where
  -- the `match` on the option of SET; `xs` are the entries before it
  unfoldable pub set_option :
      Bytes → Bytes → Frames → ParseResult (Bytes × Frames) → CommandResult (Command × Frames)
  set_option key value xs (ok (s, rest)) =
      if bytes_eq (cs.upper s) (codes "EX")
      then (map_err parse (next_int atoi rest) >>= λ (n, r).
          ok (set key value (some (from_secs n)), r))
      else if bytes_eq (cs.upper s) (codes "PX")
      then (map_err parse (next_int atoi rest) >>= λ (n, r).
          ok (set key value (some (from_millis n)), r))
      else err unsupported_option
  set_option key value xs (err end_of_stream) = ok (set key value none, xs)
  set_option key value xs (err e) = err (parse e)
  set_option key value xs panic = panic
  set_option key value xs out_of_fuel = out_of_fuel

  unfoldable pub parse_set : Frames → CommandResult (Command × Frames)
  unfolding set_option
  parse_set xs = map_err parse (next_string xs) >>= λ (key, r).
      map_err parse (next_bytes r) >>= λ (value, rest). set_option key value rest (next_string rest)

  abbrev pub finished : CommandResult (Command × Frames) → CommandResult Command
  finished r = r >>= λ (command, rest). map_err parse (finish rest) >>= λ _. ok command

  -- The name is in lower case; an unknown command leaves its other entries unread.
  unfoldable pub dispatch : Bytes → Frames → CommandResult Command
  unfolding parse_set
  dispatch name rest =
      if bytes_eq name (codes "get")
      then finished (map_err parse (parse_get rest))
      else if bytes_eq name (codes "publish")
      then finished (map_err parse (parse_publish rest))
      else if bytes_eq name (codes "set")
      then finished (parse_set rest)
      else if bytes_eq name (codes "subscribe")
      then finished (map_err parse (parse_subscribe rest))
      else if bytes_eq name (codes "unsubscribe")
      then finished (map_err parse (parse_unsubscribe rest))
      else if bytes_eq name (codes "ping")
      then finished (map_err parse (parse_ping rest))
      else ok (unknown name)

  unfoldable pub from_frame : Frame → CommandResult Command
  unfolding dispatch
  from_frame x = map_err parse (entries x) >>= λ xs.
      map_err parse (next_string xs) >>= λ (name, rest). dispatch (cs.lower name) rest

-- A chain of pushes; `none` is the panic of a push on a frame that is no array.
infixl 6 ◌⊳◌
abbrev pub ◌⊳◌ : Option Frame → (Frame → Option Frame) → Option Frame
none ⊳ f = none
some x ⊳ f = f x

abbrev pub bulk_of : Bytes → Frame → Option Frame
bulk_of b x = push_bulk x b

abbrev pub int_entry : ℕ → Frame → Option Frame
int_entry n x = push_int x n

-- `for channel in self.channels { frame.push_bulk(..) }`
unfoldable pub push_all : List Bytes → Frame → Option Frame
push_all [] x = some x
push_all (b ∷ bs) x = push_bulk x b ⊳ push_all bs

abbrev pub push_expire : Option ℕ → Frame → Option Frame
push_expire none x = some x
push_expire (some ms) x = push_bulk x (codes "px") ⊳ int_entry (as_millis ms)

abbrev pub push_message : Option Bytes → Frame → Option Frame
push_message none x = some x
push_message (some msg) x = push_bulk x msg

-- The `into_frame` of each command; `Unknown` has none.
unfoldable pub into_frame : Command → Option Frame
unfolding push_bulk push_int push_all empty_array
into_frame (get key) = some empty_array ⊳ bulk_of (codes "get") ⊳ bulk_of key
into_frame (publish channel message) =
    some empty_array ⊳ bulk_of (codes "publish") ⊳ bulk_of channel ⊳ bulk_of message
into_frame (set key value expire) =
    some empty_array ⊳ bulk_of (codes "set") ⊳ bulk_of key ⊳ bulk_of value ⊳ push_expire expire
into_frame (subscribe channels) = some empty_array ⊳ bulk_of (codes "subscribe") ⊳ push_all channels
into_frame (unsubscribe channels) =
    some empty_array ⊳ bulk_of (codes "unsubscribe") ⊳ push_all channels
into_frame (ping msg) = some empty_array ⊳ bulk_of (codes "ping") ⊳ push_message msg
into_frame (unknown name) = none

-- `Command::get_name`
unfoldable pub get_name : Command → Bytes
get_name (get _) = codes "get"
get_name (publish _ _) = codes "pub"
get_name (set _ _ _) = codes "set"
get_name (subscribe _) = codes "subscribe"
get_name (unsubscribe _) = codes "unsubscribe"
get_name (ping _) = codes "ping"
get_name (unknown name) = name
