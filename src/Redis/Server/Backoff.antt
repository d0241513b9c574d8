-- ===== src/Redis/Server/Backoff.antt =====
-- server.rs: when `Listener::accept` gives up.
use reverse_rewrite.Common.{
  ℕ, zero, suc, ◌-◌, ◌<◌, ◌^◌, ◌≡◌, refl, Option, none, some, List, [], ◌∷◌, arith,
}
use reverse_rewrite.Redis.Server.{accepted, gave_up, waits, accept}

-- n attempts that fail, and then those of `later`
abbrev pub failures : {Socket : Type 0} → ℕ → List (Option Socket) → List (Option Socket)
failures zero later = later
failures (suc n) later = none ∷ failures n later

module _ {Socket : Type 0} where
  -- Up to seven failures are waited out, two to the power of their number less one seconds in all,
  -- and a success or the end of the attempts is the result; the eighth failure is the last, after 127
  -- seconds.
  pub accept-failures :
      (n : ℕ) (socket : Socket) (later : List (Option Socket))
      → n < 8
      → (accept (failures n (some socket ∷ later)) ≡ accepted socket (2 ^ n - 1))
        × (accept {Socket = Socket} (failures n []) ≡ waits (2 ^ n - 1))
        × (accept (failures 8 later) ≡ gave_up 127)
  unfolding accept
  accept-failures zero socket later h = (refl, refl, refl)
  accept-failures (suc zero) socket later h = (refl, refl, refl)
  accept-failures (suc (suc zero)) socket later h = (refl, refl, refl)
  accept-failures (suc (suc (suc zero))) socket later h = (refl, refl, refl)
  accept-failures (suc (suc (suc (suc zero)))) socket later h = (refl, refl, refl)
  accept-failures (suc (suc (suc (suc (suc zero))))) socket later h = (refl, refl, refl)
  accept-failures (suc (suc (suc (suc (suc (suc zero)))))) socket later h = (refl, refl, refl)
  accept-failures (suc (suc (suc (suc (suc (suc (suc zero))))))) socket later h = (refl, refl, refl)
  accept-failures (suc (suc (suc (suc (suc (suc (suc (suc n)))))))) socket later h =
      absurd (omega arith)
