-- ===== src/Redis/Cmd/Wire.antt =====
-- cmd/*.rs: `Command::from_frame` reads back what `into_frame` makes.
use reverse_rewrite.Common.{
  ℕ, ◌<◌, ◌≡◌, refl, true, Option, none, some, List, [], ◌∷◌, map, arith, All, ◌∙◌,
}
use reverse_rewrite.Common.Text.{Bytes, codes, is_utf8}
use reverse_rewrite.Common.Outcome.{ok}
use reverse_rewrite.Redis.Frame.{
  Frame, Frames, bulk, integer, nil, cons, array, append_frame, push_bulk,
}
use reverse_rewrite.Redis.Parse.{next_string, next_bytes, next_int, int_of, entries, finish, next}
use reverse_rewrite.Redis.Cmd.{
  Command, get, publish, set, subscribe, unsubscribe, ping, unknown, Casing, ascii_lower,
  from_millis, as_millis, read_strings, parse_get, parse_publish, parse_set, parse_subscribe,
  parse_unsubscribe, parse_ping, dispatch, from_frame, into_frame, push_all, set_option,
}

-- An expiration travels in whole milliseconds.
abbrev pub received : Command → Command
received (set key value (some d)) = set key value (some (from_millis (as_millis d)))
received (set key value none) = set key value none
received (get key) = get key
received (publish channel message) = publish channel message
received (subscribe channels) = subscribe channels
received (unsubscribe channels) = unsubscribe channels
received (ping msg) = ping msg
received (unknown name) = unknown name

-- The names are text, and SUBSCRIBE names a channel.
abbrev pub IsSendable : Command → Type 0
IsSendable (get key) = is_utf8 key ≡ true
IsSendable (publish channel message) = is_utf8 channel ≡ true
IsSendable (set key value expire) = is_utf8 key ≡ true
IsSendable (subscribe []) = ⊥
IsSendable (subscribe (c ∷ cs)) = All (λ s. is_utf8 s ≡ true) (c ∷ cs)
IsSendable (unsubscribe cs) = All (λ s. is_utf8 s ≡ true) cs
IsSendable (ping msg) = Unit
IsSendable (unknown name) = ⊥

next_string-bulk :
    (s : Bytes) (rest : Frames) → is_utf8 s ≡ true → next_string (cons (bulk s) rest) ≡ ok (s, rest)
unfolding next_string
next_string-bulk s rest h = rw h refl

next_bytes-bulk : (s : Bytes) (rest : Frames) → next_bytes (cons (bulk s) rest) ≡ ok (s, rest)
unfolding next_bytes
next_bytes-bulk s rest = refl

-- the bulk entries that `push_all` appends
abbrev bulks : List Bytes → Frames
bulks [] = nil
bulks (s ∷ ss) = cons (bulk s) (bulks ss)

abbrev then_frames : Frames → Frames → Frames
then_frames nil ys = ys
then_frames (cons x xs) ys = cons x (then_frames xs ys)

append-then :
    (xs : Frames) (x : Frame) (ys : Frames)
    → then_frames (append_frame xs x) ys ≡ then_frames xs (cons x ys)
unfolding append_frame
append-then nil x ys = refl
append-then (cons y xs) x ys = rw (append-then xs x ys) refl

then-nil : (xs : Frames) → then_frames xs nil ≡ xs
then-nil nil = refl
then-nil (cons x xs) = rw (then-nil xs) refl

push_all-bulks :
    (ss : List Bytes) (xs : Frames)
    → push_all ss (array xs) ≡ some (array (then_frames xs (bulks ss)))
unfolding push_all push_bulk
push_all-bulks [] xs = rw (then-nil xs) refl
push_all-bulks (s ∷ ss) xs =
    push_all-bulks ss (append_frame xs (bulk s)) ∙ rw (append-then xs (bulk s) (bulks ss)) refl

read_strings-bulks :
    (ss : List Bytes) → All (λ s. is_utf8 s ≡ true) ss → read_strings (bulks ss) ≡ ok (ss, nil)
unfolding read_strings
read_strings-bulks [] h = refl
read_strings-bulks (s ∷ ss) (h, hs) = rw (h, read_strings-bulks ss hs) refl

module _ (cs : Casing) (atoi : Bytes → Option ℕ) where
  from_frame_named :
      (name : Bytes) (rest : Frames)
      → is_utf8 name ≡ true
      → All (λ b. b < 128) name
      → map ascii_lower name ≡ name
      → from_frame cs atoi (array (cons (bulk name) rest)) ≡ dispatch cs atoi name rest
  unfolding from_frame entries
  from_frame_named name rest u a e =
      rw (next_string-bulk name rest u, cs.lower_ascii name a, e) refl

  abbrev px_entries : ℕ → Frames
  px_entries d = cons (bulk (codes "px")) (cons (integer (as_millis d)) nil)

  -- A command whose names are text (and a SUBSCRIBE of at least one channel), which a client turns into
  -- a frame, is the command that the server makes of the frame, but that an expiration is
  -- cut down to whole milliseconds (and those to a u64).
  pub from_frame-into_frame :
      (c : Command)
      → IsSendable c
      → (x : Frame) × (into_frame c ≡ some x) × (from_frame cs atoi x ≡ ok (received c))
  unfolding into_frame dispatch finish append_frame is_utf8
  from_frame-into_frame (get key) h = (
    _,
    refl,
    from_frame_named (codes "get") _ refl (omega arith) refl
        ∙ (unfold parse_get in rw (next_string-bulk key nil h) refl),
  )
  from_frame-into_frame (publish channel message) h = (
    _,
    refl,
    from_frame_named (codes "publish") _ refl (omega arith) refl
        ∙ (unfold parse_publish in
            rw (next_string-bulk channel (cons (bulk message) nil) h, next_bytes-bulk) refl),
  )
  from_frame-into_frame (set key value none) h = (
    _,
    refl,
    from_frame_named (codes "set") _ refl (omega arith) refl
        ∙ (unfold parse_set set_option in
            rw (next_string-bulk key (cons (bulk value) nil) h, next_bytes-bulk)
              (unfold next_string next in refl)),
  )
  from_frame-into_frame (set key value (some d)) h = (
    _,
    refl,
    from_frame_named (codes "set") _ refl (omega arith) refl
        ∙ (unfold parse_set set_option in
            rw
              (
                next_string-bulk key (cons (bulk value) (px_entries d)) h,
                next_bytes-bulk,
                next_string-bulk (codes "px") (cons (integer (as_millis d)) nil) refl,
                cs.upper_ascii (codes "px") (omega arith),
              )
              (unfold next_int int_of next in refl)),
  )
  from_frame-into_frame (subscribe []) h = absurd h
  from_frame-into_frame (subscribe (c ∷ rest)) (h, hs) = (
    _,
    push_all-bulks (c ∷ rest) (cons (bulk (codes "subscribe")) nil),
    from_frame_named (codes "subscribe") _ refl (omega arith) refl
        ∙ (unfold parse_subscribe in
            rw (next_string-bulk c (bulks rest) h, read_strings-bulks rest hs) refl),
  )
  from_frame-into_frame (unsubscribe channels) hs = (
    _,
    push_all-bulks channels (cons (bulk (codes "unsubscribe")) nil),
    from_frame_named (codes "unsubscribe") _ refl (omega arith) refl
        ∙ (unfold parse_unsubscribe in rw (read_strings-bulks channels hs) refl),
  )
  from_frame-into_frame (ping none) h = (
    _,
    refl,
    from_frame_named (codes "ping") _ refl (omega arith) refl
        ∙ (unfold parse_ping next_bytes next in refl),
  )
  from_frame-into_frame (ping (some msg)) h = (
    _,
    refl,
    from_frame_named (codes "ping") _ refl (omega arith) refl
        ∙ (unfold parse_ping in rw next_bytes-bulk refl),
  )
  from_frame-into_frame (unknown name) h = absurd h
