-- ===== src/Common/Outcome.antt =====
-- What a call of the Rust code comes to: a value, an error value, a panic, or a model run that was
-- given too little fuel (which has no counterpart in the program).
use mathlib.Core.Path.{◌≡◌, refl}
use mathlib.Core.Logic.{◌≢◌}
use mathlib.Core.Option.{Option, none, some}

pub data Outcome (E A : Type 0) : Type 0 where
  ok : A → Outcome E A
  err : E → Outcome E A
  panic out_of_fuel : Outcome E A

infixl 5 ◌>>=◌
abbrev pub ◌>>=◌ : {E A B : Type 0} → Outcome E A → (A → Outcome E B) → Outcome E B
ok a >>= f = f a
err e >>= f = err e
panic >>= f = panic
out_of_fuel >>= f = out_of_fuel

infixl 5 ◌>>?◌
abbrev pub ◌>>?◌ : {A B : Type 0} → Option A → (A → Option B) → Option B
none >>? f = none
some a >>? f = f a

-- `map_err`, and the conversion that `?` makes
abbrev pub map_err : {E F A : Type 0} → (E → F) → Outcome E A → Outcome F A
map_err g (ok a) = ok a
map_err g (err e) = err (g e)
map_err g panic = panic
map_err g out_of_fuel = out_of_fuel

-- a sequence that came to a value: so did its parts
pub >>=-eq-ok :
    {E A B : Type 0} (first : Outcome E A) (later : A → Outcome E B) {b : B}
    → (first >>= later) ≡ ok b
    → (a : A) × (first ≡ ok a) × (later a ≡ ok b)
>>=-eq-ok panic later = cc
>>=-eq-ok out_of_fuel later = cc
>>=-eq-ok (err e) later = cc
>>=-eq-ok (ok a) later = λ came. (a, refl, came)

pub >>=-ne-out_of_fuel :
    {E A B : Type 0} (m : Outcome E A) (f : A → Outcome E B)
    → m ≢ out_of_fuel
    → ((a : A) → f a ≢ out_of_fuel)
    → (m >>= f) ≢ out_of_fuel
>>=-ne-out_of_fuel (ok a) f h k = k a
>>=-ne-out_of_fuel (err e) f h k = cc
>>=-ne-out_of_fuel panic f h k = cc
>>=-ne-out_of_fuel out_of_fuel f h k = absurd (h refl)

pub map_err-ne-out_of_fuel :
    {E F A : Type 0} (g : E → F) (m : Outcome E A) → m ≢ out_of_fuel → map_err g m ≢ out_of_fuel
map_err-ne-out_of_fuel g (ok a) h = cc
map_err-ne-out_of_fuel g (err e) h = cc
map_err-ne-out_of_fuel g panic h = cc
map_err-ne-out_of_fuel g out_of_fuel h = absurd (h refl)

-- a value that is as stated, or an error value
abbrev pub Gives : {E A : Type 0} → (A → Type 0) → Outcome E A → Type 0
Gives P (ok a) = P a
Gives P (err e) = Unit
Gives P panic = ⊥
Gives P out_of_fuel = ⊥

pub >>=-Gives :
    {E A B : Type 0} (P : A → Type 0) (Q : B → Type 0) (m : Outcome E A) (f : A → Outcome E B)
    → Gives P m
    → ((a : A) → P a → Gives Q (f a))
    → Gives Q (m >>= f)
>>=-Gives P Q (ok a) f h k = k a h
>>=-Gives P Q (err e) f h k = tt
>>=-Gives P Q panic f h k = absurd h
>>=-Gives P Q out_of_fuel f h k = absurd h

pub map_err-Gives :
    {E F A : Type 0} (P : A → Type 0) (g : E → F) (m : Outcome E A)
    → Gives P m
    → Gives P (map_err g m)
map_err-Gives P g (ok a) h = h
map_err-Gives P g (err e) h = tt
map_err-Gives P g panic h = absurd h
map_err-Gives P g out_of_fuel h = absurd h
