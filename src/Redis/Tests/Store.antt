-- ===== src/Redis/Tests/Store.antt =====
-- db.rs and cmd/*.rs: each theorem at a concrete input.
use reverse_rewrite.Common.{ℕ, ◌≡◌, refl, none, some, List, [], ◌∷◌, arith}
use reverse_rewrite.Common.Text.{codes, is_utf8}
use reverse_rewrite.Common.Outcome.{ok}
use reverse_rewrite.Redis.Frame.{Frame}
use reverse_rewrite.Redis.Db.{new, instant_limit}
use reverse_rewrite.Redis.Cmd.{get, set, from_frame, into_frame}
use reverse_rewrite.Redis.Cmd.Wire.{received, from_frame-into_frame}
use reverse_rewrite.Redis.Cmd.Apply.{
  crashed, apply, set_overflow, Use, used_all, IsDead, applies, purges, subscribes, shuts_down,
}
use reverse_rewrite.Redis.Tests.Params.{ascii_casing, counted}
use reverse_rewrite.Redis.Tests.Atoi.{leading_digits}

from_frame-into_frame_example :
    (x : Frame) × (into_frame (set (codes "k") (codes "v") (some 1500000)) ≡ some x)
    × (from_frame ascii_casing leading_digits x
        ≡ ok (received (set (codes "k") (codes "v") (some 1500000))))
from_frame-into_frame_example =
    from_frame-into_frame ascii_casing leading_digits (set (codes "k") (codes "v") (some 1500000))
      (unfold is_utf8 in refl)

abbrev far : ℕ
far = instant_limit

-- a client tries again, the purge task comes by, and a client asks for the key
abbrev later_uses : List (Use counted)
later_uses =
    applies 6 (set (codes "k") (codes "w") none)
    ∷ purges 7
    ∷ applies 8 (get (codes "k"))
    ∷ subscribes (codes "c")
    ∷ shuts_down
    ∷ []

set_overflow_example :
    let (response, after) = apply counted 5 (set (codes "k") (codes "v") (some far)) new in
    (response ≡ crashed)
    × ((used_all counted later_uses after).state ≡ new.state)
    × IsDead counted (used_all counted later_uses after)
set_overflow_example =
    set_overflow counted 5 far (codes "k") (codes "v") new later_uses (omega arith)
