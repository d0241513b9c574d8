-- ===== src/Redis/Tests/Params.antt =====
-- Concrete parameters: casing of ASCII, and a broadcast sender that is its number of receivers.
use reverse_rewrite.Common.{ℕ, ◌+◌, refl, none, some, map, if◌then◌else◌, ◌==◌}
use reverse_rewrite.Redis.Db.{Broadcast}
use reverse_rewrite.Redis.Cmd.{Casing, ascii_lower, ascii_upper}

abbrev pub ascii_casing : Casing
ascii_casing = record {
  lower = map ascii_lower;
  upper = map ascii_upper;
  lower_ascii = λ s h. refl;
  upper_ascii = λ s h. refl;
}

abbrev pub counted : Broadcast
counted = record {
  Sender = ℕ;
  channel = 1;
  subscribe = λ s. s + 1;
  send = λ s m. (if s == 0 then none else some s, s);
  receivers = λ s. s;
  receivers-channel = refl;
  receivers-subscribe = λ s. refl;
  send_count = λ s m. refl;
  receivers-send = λ s m. refl;
}
