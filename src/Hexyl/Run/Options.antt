-- ===== src/Hexyl/Run/Options.antt =====
-- main.rs: no option that `run` reads makes it panic.
use reverse_rewrite.Common.{ℕ, zero, suc, ◌≡◌, refl, false, Option, none, some, arith, ltb}
use reverse_rewrite.Common.Text.{Bytes}
use reverse_rewrite.Common.Outcome.{
  Outcome, ok, err, panic, out_of_fuel, Gives, >>=-Gives, map_err-Gives, map_err, ◌>>=◌,
}
use reverse_rewrite.Common.Int.{ℤ, pos, negsuc, IsNatural, checked_neg}
use reverse_rewrite.Hexyl.Offset.{
  block, ByteOffsetKind, forward_from_beginning, forward_from_last_offset, backward_from_end,
  ByteOffset, ByteOffsetParseError, ByteUnit, positive, into_u64, assume_forward_offset_from_start,
  parse_byte_offset,
}
use reverse_rewrite.Hexyl.Offset.Bounds.{
  IsPositive, IsCount, IsHex, parse_byte_offset-IsNatural, extract_num_and_unit_from-IsCount,
  checked_mul-IsNatural,
}
use reverse_rewrite.Hexyl.Main.{
  from_current, or_panic, System, RunError, sized, or_overflow, or_not_positive, block_size_of,
  seek_from, or_seek_failed, skip_offset, parse_byte_count, limit_of, base_of, parse_error,
}

-- an outcome that is no panic
abbrev pub Safe : {E A : Type 0} → Outcome E A → Type 0
Safe m = Gives (λ a. Unit) m

map-Safe : {E A B : Type 0} (m : Outcome E A) (f : A → B) → Safe m → Safe (m >>= (λ a. ok (f a)))
map-Safe (ok a) f h = tt
map-Safe (err e) f h = tt
map-Safe panic f h = absurd h
map-Safe out_of_fuel f h = absurd h

pub then-Gives :
    {E A B : Type 0} (P : B → Type 0) (m : Outcome E A) (f : A → Outcome E B)
    → Safe m
    → ((a : A) → Gives P (f a))
    → Gives P (m >>= f)
then-Gives P m f h k = >>=-Gives (λ a. Unit) P m f h (λ a done. k a)

or_not_positive-Gives : (x : ℤ) → IsNatural x → Gives IsPositive (or_not_positive (positive x))
unfolding positive
or_not_positive-Gives (negsuc n) h = absurd h
or_not_positive-Gives (pos zero) h = tt
or_not_positive-Gives (pos (suc n)) h =
    let at_least : ltb (suc n) 1 ≡ false = ground arith in rw at_least (n, refl, h)

or_overflow-Gives :
    (o : Option ℤ) → ((v : ℤ) → o ≡ some v → IsNatural v) → Gives IsNatural (or_overflow o)
or_overflow-Gives none h = tt
or_overflow-Gives (some v) h = h v refl

sized-Gives : (c : ℤ × ByteUnit) → IsCount c → Gives IsPositive (sized c)
sized-Gives (num, block own) h = tt
sized-Gives (num, _) (natural, multiplier) =
    >>=-Gives IsNatural IsPositive _ _
      (or_overflow-Gives _ (λ v e. checked_mul-IsNatural num _ v natural multiplier e))
      or_not_positive-Gives

unfoldable pub IsSize : Option ℤ → Type 0
IsSize none = Unit
IsSize (some size) = IsPositive size

pub block_size_of-Gives :
    (to_lowercase : Bytes → Bytes) (text : Bytes) (o : Option (Outcome ByteOffsetParseError ℤ))
    → IsHex o
    → Gives IsSize (block_size_of to_lowercase text o)
unfolding IsSize
block_size_of-Gives to_lowercase text (some hex) h =
    >>=-Gives IsPositive IsSize _ _
      (>>=-Gives IsNatural IsPositive _ _ (map_err-Gives IsNatural parse_error hex h)
        or_not_positive-Gives)
      (λ size positive. tt)
block_size_of-Gives to_lowercase text none h =
    >>=-Gives IsPositive IsSize _ _
      (>>=-Gives IsCount IsPositive _ _
        (map_err-Gives IsCount parse_error _ (extract_num_and_unit_from-IsCount to_lowercase text))
        sized-Gives)
      (λ size positive. positive)

or_panic-Safe : (v : ℤ) → IsNatural v → Safe (or_panic (checked_neg v))
or_panic-Safe (negsuc n) h = absurd h
or_panic-Safe (pos zero) h = tt
or_panic-Safe (pos (suc n)) h = ground arith

seek_from-Safe : (o : ByteOffset) → IsNatural o.value → Safe (seek_from o)
seek_from-Safe o h = kinds o.kind o.value h
  where
    kinds :
        (kind : ByteOffsetKind) (v : ℤ)
        → IsNatural v
        → Safe (elim kind [
          | forward_from_beginning ↦ ok (from_current v)
          | forward_from_last_offset ↦ ok (from_current v)
          | backward_from_end ↦ or_panic (checked_neg v)
        ])
    kinds forward_from_beginning v h = tt
    kinds forward_from_last_offset v h = tt
    kinds backward_from_end v h = or_panic-Safe v h

or_seek_failed-Safe : (o : Option ℕ) → Safe (or_seek_failed o)
or_seek_failed-Safe none = tt
or_seek_failed-Safe (some n) = tt

forward-Gives :
    (kind : ByteOffsetKind) (v : ℤ)
    → IsNatural v
    → Gives IsNatural (assume_forward_offset_from_start (record { value = v; kind = kind }))
unfolding assume_forward_offset_from_start
forward-Gives forward_from_beginning v h = h
forward-Gives forward_from_last_offset v h = h
forward-Gives backward_from_end v h = tt

into_u64-Safe : (v : ℤ) → IsNatural v → Safe (into_u64 {E = RunError} v)
unfolding into_u64
into_u64-Safe (pos n) h = tt
into_u64-Safe (negsuc n) h = absurd h

module _ (system : System) (size : ℤ) (positive_size : IsPositive size) where
  parsed :
      (text : Bytes)
      → Gives
          (λ (o : ByteOffset). IsNatural o.value)
          (map_err parse_error (parse_byte_offset system.to_lowercase size text))
  parsed text =
      map_err-Gives (λ (o : ByteOffset). IsNatural o.value) parse_error _
        (parse_byte_offset-IsNatural system.to_lowercase size positive_size text)

  pub skip_offset-Safe : (o : Option Bytes) → Safe (skip_offset system size o)
  skip_offset-Safe none = tt
  skip_offset-Safe (some text) =
      >>=-Gives (λ w. Unit) (λ n. Unit) _ _
        (>>=-Gives (λ (o : ByteOffset). IsNatural o.value) (λ w. Unit) _ _ (parsed text)
          seek_from-Safe)
        (λ w done. or_seek_failed-Safe (system.seek_to w))

  pub parse_byte_count-Safe : (text : Bytes) → Safe (parse_byte_count system size text)
  parse_byte_count-Safe text =
      >>=-Gives IsNatural (λ n. Unit) _ _
        (>>=-Gives (λ (o : ByteOffset). IsNatural o.value) IsNatural _ _ (parsed text)
          (λ o natural. map_err-Gives IsNatural _ _ (forward-Gives o.kind o.value natural)))
        into_u64-Safe

  pub limit_of-Safe : (o : Option Bytes) → Safe (limit_of system size o)
  limit_of-Safe none = tt
  limit_of-Safe (some text) = map-Safe _ (λ n. some n) (parse_byte_count-Safe text)

pub base_of-Safe : (s : Bytes) → Safe (base_of s)
unfolding base_of
base_of-Safe s = ground arith
