-- ===== src/Coreutils/Echo/Flags.antt =====
-- echo.rs: which arguments are flags, and what they set.
use reverse_rewrite.Common.{
  ℕ, ◌≡◌, refl, sym, ap, ◌∙◌, Bool, true, false, ◌&&◌, ◌||◌, none, some, List, [], ◌∷◌, ◌++◌, arith,
  ◌==◌, if◌then◌else◌, All, Bool-cases, inl, inr,
}
use reverse_rewrite.Common.Text.{Bytes}
use reverse_rewrite.Coreutils.Echo.{
  Options, default_options, flag_chars, is_flag, filter_from, filter_flags,
}

-- A flag is "-" with at least one of the characters e, E and n, and no other.
abbrev pub is_flag_char : ℕ → Bool
is_flag_char c = c == 101 || (c == 69 || c == 110)

abbrev pub all_flag_chars : Bytes → Bool
all_flag_chars [] = true
all_flag_chars (c ∷ cs) = is_flag_char c && all_flag_chars cs

abbrev pub looks_like_flag : Bytes → Bool
looks_like_flag [] = false
looks_like_flag (c ∷ []) = false
looks_like_flag (c ∷ d ∷ cs) = c == 45 && all_flag_chars (d ∷ cs)

-- the last of e and E decides, and any n
abbrev pub last_escape : Bytes → Bool → Bool
last_escape [] b = b
last_escape (c ∷ cs) b = last_escape cs (if c == 101 then true else if c == 69 then false else b)

abbrev pub keeps_newline : Bytes → Bool → Bool
keeps_newline [] b = b
keeps_newline (c ∷ cs) b = keeps_newline cs (if c == 110 then false else b)

abbrev pub set_by : Bytes → Options → Options
set_by cs o = record {
  trailing_newline = keeps_newline cs o.trailing_newline;
  escape = last_escape cs o.escape;
}

flag_chars_lem :
    (cs : Bytes) (o : Options)
    → flag_chars cs o ≡ (if all_flag_chars cs then some (set_by cs o) else none)
unfolding flag_chars
flag_chars_lem [] o = refl
flag_chars_lem (c ∷ cs) o = ground (
  arith,
  flag_chars_lem cs (record o { escape = true }),
  flag_chars_lem cs (record o { escape = false }),
  flag_chars_lem cs (record o { trailing_newline = false }),
)

is_flag_lem :
    (arg : Bytes) (o : Options)
    → is_flag arg o ≡ (if looks_like_flag arg then some (set_by arg o) else none)
unfolding is_flag
is_flag_lem [] o = refl
is_flag_lem (c ∷ []) o = refl
is_flag_lem (c ∷ d ∷ cs) o = ground (arith, flag_chars_lem (d ∷ cs) o)

-- the flags one after another
abbrev pub joined : List Bytes → Bytes
joined [] = []
joined (arg ∷ args) = arg ++ joined args

last_escape-append :
    (xs ys : Bytes) (b : Bool) → last_escape (xs ++ ys) b ≡ last_escape ys (last_escape xs b)
last_escape-append [] ys b = refl
last_escape-append (x ∷ xs) ys b = last_escape-append xs ys _

keeps_newline-append :
    (xs ys : Bytes) (b : Bool) → keeps_newline (xs ++ ys) b ≡ keeps_newline ys (keeps_newline xs b)
keeps_newline-append [] ys b = refl
keeps_newline-append (x ∷ xs) ys b = keeps_newline-append xs ys _

set_by-append : (xs ys : Bytes) (o : Options) → set_by (xs ++ ys) o ≡ set_by ys (set_by xs o)
set_by-append xs ys o =
    rw (last_escape-append xs ys o.escape, keeps_newline-append xs ys o.trailing_newline) refl

abbrev pub BeginsWithNoFlag : List Bytes → Type 0
BeginsWithNoFlag [] = Unit
BeginsWithNoFlag (arg ∷ args) = looks_like_flag arg ≡ false

-- The flags that the arguments begin with, and the rest.
pub record IsFiltered (o : Options) (args : List Bytes) (r : List Bytes × Options) : Type 0 where
  pub flags : List Bytes
  pub parts : args ≡ flags ++ r.0
  pub are_flags : All (λ arg. looks_like_flag arg ≡ true) flags
  pub stops : BeginsWithNoFlag r.0
  pub set : r.1 ≡ set_by (joined flags) o

filter_from-IsFiltered : (args : List Bytes) (o : Options) → IsFiltered o args (filter_from o args)
filter_from-IsFiltered [] o =
    unfold filter_from in
    record { flags = []; parts = refl; are_flags = tt; stops = tt; set = refl }
filter_from-IsFiltered (arg ∷ args) o = elim (Bool-cases (looks_like_flag arg)) [
  | inl flag ↦
      let p = filter_from-IsFiltered args (set_by arg o) in
      let step : filter_from o (arg ∷ args) ≡ filter_from (set_by arg o) args =
        unfold filter_from in ground (arith, is_flag_lem arg o, flag) in
      rw step (record {
        flags = arg ∷ p.flags;
        parts = ap (λ t. arg ∷ t) p.parts;
        are_flags = (flag, p.are_flags);
        stops = p.stops;
        set = p.set ∙ sym (set_by-append arg (joined p.flags) o);
      })
  | inr no_flag ↦
      let step : filter_from o (arg ∷ args) ≡ (arg ∷ args, o) =
        unfold filter_from in ground (arith, is_flag_lem arg o, no_flag) in
      rw step (record { flags = []; parts = refl; are_flags = tt; stops = no_flag; set = refl })
]

-- Exactly the flags that the arguments begin with are taken away, a flag being "-" with at least one
-- of e, E and n and nothing else; the last e or E of them all decides on the escapes, and any n takes
-- the newline away.
pub filter_flags-IsFiltered :
    (args : List Bytes) → IsFiltered default_options args (filter_flags args)
unfolding filter_flags
filter_flags-IsFiltered args = filter_from-IsFiltered args default_options
