-- ===== src/Common/Text.antt =====
-- Text as the bytes that it stands in: what the Rust standard library does with it.
use Prim.Native.Char.{code}
use Prim.Native.Nat.{ℕ, zero, suc, ◌+◌, ◌/◌, ◌%◌}
use Prim.Native.String.{String}
use mathlib.Core.Path.{◌≡◌, refl}
use mathlib.Core.Bool.{Bool, true, false, ◌&&◌}
use mathlib.Core.List.{List, [], ◌∷◌, ◌++◌}
use reverse_rewrite.Common.Tests.{leb, ltb, ◌==◌, if◌then◌else◌}

abbrev pub Bytes : Type 0
Bytes = List ℕ

-- The code points of a literal: its bytes, since the literals of the programs are ASCII.
abbrev pub codes : String → Bytes
codes String.[] = []
codes (String.◌∷◌ c s) = code c ∷ codes s

abbrev pub bytes_eq : Bytes → Bytes → Bool
bytes_eq [] [] = true
bytes_eq (a ∷ s) (b ∷ t) = a == b && bytes_eq s t
bytes_eq _ _ = false

abbrev pub in_range : ℕ → ℕ → ℕ → Bool
in_range lo hi b = leb lo b && leb b hi

-- What a leading byte of UTF-8 asks for: how many bytes follow, and the range of the first of them.
record Lead : Type 0 where
  valid : Bool
  follow : ℕ
  lo : ℕ
  hi : ℕ

lead_byte : ℕ → Lead
lead_byte b =
    if ltb b 0x80
    then record { valid = true; follow = 0; lo = 0; hi = 0 }
    else if in_range 0xc2 0xdf b
    then record { valid = true; follow = 1; lo = 0x80; hi = 0xbf }
    else if b == 0xe0
    then record { valid = true; follow = 2; lo = 0xa0; hi = 0xbf }
    else if b == 0xed
    then record { valid = true; follow = 2; lo = 0x80; hi = 0x9f }
    else if in_range 0xe1 0xef b
    then record { valid = true; follow = 2; lo = 0x80; hi = 0xbf }
    else if b == 0xf0
    then record { valid = true; follow = 3; lo = 0x90; hi = 0xbf }
    else if in_range 0xf1 0xf3 b
    then record { valid = true; follow = 3; lo = 0x80; hi = 0xbf }
    else if b == 0xf4
    then record { valid = true; follow = 3; lo = 0x80; hi = 0x8f }
    else record { valid = false; follow = 0; lo = 0; hi = 0 }

utf8_scan : ℕ → ℕ → ℕ → Bytes → Bool
utf8_scan zero lo hi [] = true
utf8_scan (suc n) lo hi [] = false
utf8_scan zero lo hi (b ∷ bs) = let w = lead_byte b in w.valid && utf8_scan w.follow w.lo w.hi bs
utf8_scan (suc n) lo hi (b ∷ bs) = in_range lo hi b && utf8_scan n 0x80 0xbf bs

-- `str::from_utf8(bytes).is_ok()`
unfoldable pub is_utf8 : Bytes → Bool
unfolding utf8_scan lead_byte
is_utf8 bs = utf8_scan 0 0 0 bs

-- `{}` of a u64: twenty digits are enough.
unfoldable pub decimal_digits : ℕ → ℕ → Bytes
decimal_digits zero n = (48 + n % 10) ∷ []
decimal_digits (suc k) n =
    let front = decimal_digits k (n / 10) in
    if ltb n 10 then (48 + n) ∷ [] else front ++ ((48 + n % 10) ∷ [])

unfoldable pub decimal : ℕ → Bytes
unfolding decimal_digits
decimal n = decimal_digits 19 n

utf8_accepts : is_utf8 (0xe2 ∷ 0x82 ∷ 0xac ∷ b'a' ∷ []) ≡ true
unfolding is_utf8
utf8_accepts = refl

utf8_rejects : is_utf8 (0xed ∷ 0xa0 ∷ 0x80 ∷ []) ≡ false
unfolding is_utf8
utf8_rejects = refl

decimal_example : decimal 18446744073709551615 ≡ codes "18446744073709551615"
unfolding decimal
decimal_example = refl
