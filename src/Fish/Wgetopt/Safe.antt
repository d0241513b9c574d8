-- ===== src/Fish/Wgetopt/Safe.antt =====
-- wgetopt.rs: the indices stay in order, and no call panics while they do.
pub mod Arguments
pub mod Options
pub mod Calls
use reverse_rewrite.Common.{
  ℕ, zero, suc, ◌+◌, ◌-◌, ◌≤◌, ◌<◌, ◌≡◌, ◌≢◌, ◌⊎◌, inl, inr, refl, sym, ap, subst, ◌∙◌, arith, Bool,
  true, false, not, ◌&&◌, ◌||◌, Option, none, some, List, [], ◌∷◌, ◌++◌, leb, ltb, ◌==◌, ==→eq,
  if◌then◌else◌, length, take, drop, get_elem?, Bool-cases, Option-cases, ltb→lt, ltb→le,
  length-append, length-take, length-drop,
}
use mathlib.Core.Bool.{true≢false}
use reverse_rewrite.Common.Text.{bytes_eq, codes}
use reverse_rewrite.Common.Outcome.{◌>>?◌}
use reverse_rewrite.Fish.Wgetopt.{
  Text, Wide, WOption, LongOptMatch, exact, non_exact, ambiguous, no_match, NextArgv, finished,
  unpermuted_non_option, found_option, Wgetopter, slice_from, exchange, rotated, is_permuting,
  is_requiring, is_empty, has_char, from_char, name_length, find_matching_long_opt, non_option_char,
}
use reverse_rewrite.Fish.Wgetopt.Exchange.{taken}
use reverse_rewrite.Fish.Wgetopt.Scan.{
  Returned, stripped, initialize, is_non_option, skip_non_options, move_non_options, permute_args,
  behind_terminator, skip_terminator, classify, next_argv, is_no_argument, is_required,
  take_argument, handle_short_opt, update_long_opt, not_found, found_long, handle_match, as_short,
  or_short, after_argv, handle_long_opt, try_long, handle_option, wgetopt_inner, next_opt,
}

-- a call that does not panic, and what holds of its value
abbrev pub Returns : {A : Type 0} → (A → Type 0) → Option A → Type 0
Returns P none = ⊥
Returns P (some a) = P a

pub bind-Returns :
    {A B : Type 0} (P : A → Type 0) (Q : B → Type 0) (o : Option A) (f : A → Option B)
    → Returns P o
    → ((a : A) → o ≡ some a → P a → Returns Q (f a))
    → Returns Q (o >>? f)
bind-Returns P Q none f h k = absurd h
bind-Returns P Q (some a) f h k = k a refl h

pub if-Returns :
    {A : Type 0} (Q : A → Type 0) (b : Bool) (x y : Option A)
    → (b ≡ true → Returns Q x)
    → (b ≡ false → Returns Q y)
    → Returns Q (if b then x else y)
if-Returns Q true x y h k = h refl
if-Returns Q false x y h k = k refl

-- an element inside a list
pub element :
    {A : Type 0} (i : ℕ) (xs : List A) → i < length xs → (x : A) × (get_elem? xs i ≡ some x)
element i [] h = absurd (omega arith)
element zero (x ∷ xs) h = (x, refl)
element (suc i) (x ∷ xs) h = element i xs (omega arith)

pub inside : {A : Type 0} (i : ℕ) (xs : List A) {x : A} → get_elem? xs i ≡ some x → i < length xs
inside i [] h = cc
inside zero (x ∷ xs) h = omega arith
inside (suc i) (x ∷ xs) h = omega (arith, inside i xs h)

pub some-eq : {A : Type 0} {a b : A} → some a ≡ some b → a ≡ b
some-eq h = cc

pub slice-Returns :
    {A : Type 0} (n : ℕ) (xs : List A) → n ≤ length xs → slice_from n xs ≡ some (drop n xs)
slice-Returns n xs h = ground arith

pub length-rotated :
    {A : Type 0} (l m r : ℕ) (xs : List A)
    → l ≤ m
    → m ≤ r
    → r ≤ length xs
    → length (rotated l m r xs) ≡ length xs
unfolding rotated
length-rotated l m r xs h k j =
    let a = take l xs in
    let b = take (r - m) (drop m xs) in
    let c = take (m - l) (drop l xs) in
    let d = drop r xs in
    omega (
      arith,
      length-append a (b ++ (c ++ d)),
      length-append b (c ++ d),
      length-append c d,
      length-take l xs,
      length-take (r - m) (drop m xs),
      length-take (m - l) (drop l xs),
      length-drop m xs,
      length-drop l xs,
      length-drop r xs,
    )

pub strict : (a b : ℕ) → a ≤ b → (a == b) ≡ false → a < b
strict a b h k = ground arith

-- some argument that is an option with text stands at the index
abbrev pub AtOption : Wgetopter → Type 0
AtOption g = (arg : Text) × (get_elem? g.argv g.wopt_index ≡ some arg) × (2 ≤ length arg)

abbrev pub Ordered : Wgetopter → Type 0
Ordered g =
    (g.first_nonopt ≤ g.last_nonopt)
    × (g.last_nonopt ≤ g.wopt_index)
    × (g.wopt_index ≤ length g.argv)

-- no text remains of an element
abbrev pub Blank : Wgetopter → Type 0
Blank g = (g.remaining_text ≡ []) × (g.initialized ≡ true)

-- the exchange, when the indices are in order
abbrev pub Exchanged : Wgetopter → Wgetopter → Type 0
Exchanged g h =
    Ordered h
    × (h.wopt_index ≡ g.wopt_index)
    × (length h.argv ≡ length g.argv)
    × (Blank g → Blank h)

-- between two elements of the arguments
abbrev pub Between : Wgetopter → Type 0
Between g = Ordered g × Blank g

abbrev pub Halfway : Wgetopter → Type 0
Halfway g = (g.first_nonopt ≤ g.wopt_index) × (g.wopt_index ≤ length g.argv) × Blank g

-- what stands at the index is not the terminator, if anything does
abbrev pub NotTerminator : Wgetopter → Type 0
NotTerminator g =
    (arg : Text) → get_elem? g.argv g.wopt_index ≡ some arg → bytes_eq arg (codes "--") ≡ false

abbrev pub Clear : Wgetopter → Type 0
Clear g = Between g × NotTerminator g

-- before an option is handled
abbrev pub AtText : Wgetopter → Type 0
AtText g = Ordered g × AtOption g × (1 ≤ length g.remaining_text) × (g.initialized ≡ true)

-- after a step over the arguments
abbrev pub Stepped : NextArgv × Wgetopter → Type 0
Stepped (finished, g) = Unit
Stepped (unpermuted_non_option, g) = Between g
Stepped (found_option, g) = AtText g

-- between two calls
abbrev pub Ready : Wgetopter → Type 0
Ready g = Ordered g × ((is_empty g.remaining_text ≡ true) ⊎ AtOption g) × (g.initialized ≡ true)

abbrev pub ShortDone : ℕ × Wgetopter → Type 0
ShortDone (c, g) = Ready g ⊎ (c ≡ b'?')

abbrev pub LongDone : ℕ × (Wgetopter × ℕ) → Type 0
LongDone (c, (g, i)) = Ready g

-- a long option, or the text as it was
abbrev pub MatchDone : Option ℕ × (Wgetopter × ℕ) → Type 0
MatchDone (some c, (g, i)) = Ready g
MatchDone (none, (g, i)) = AtText g

-- ready again, or an answer after which the scan is not to go on
abbrev pub Answered : Option ℕ → Wgetopter → Type 0
Answered o g = Ready g ⊎ ((o ≡ some b'?') ⊎ (o ≡ none))

abbrev pub Done : Option ℕ × (Wgetopter × ℕ) → Type 0
Done (o, (g, i)) = Answered o g

-- a new scanner over at least the name of the program, or one between two calls
abbrev pub CanScan : Wgetopter → Type 0
CanScan g = (g.initialized ≡ false) × (1 ≤ length g.argv) × (g.wopt_index ≤ length g.argv) ⊎ Ready g

module _ (wide : Wide) where
  pub char_at-Returns : (s : Text) (i : ℕ) → i ≤ length s → (c : ℕ) × (wide.char_at s i ≡ some c)
  char_at-Returns s i h = elim (Bool-cases (ltb i (length s))) [
    | inl t ↦ let (c, e) = element i s (ltb→lt i (length s) t) in (c, wide.char_at-inside s i c e)
    | inr f ↦
        (0, ap (wide.char_at s) (omega (arith, ltb→le i (length s) f)) ∙ wide.char_at-length s)
  ]

  -- at the end there is the NUL character
  pub char-inside :
      (s : Text) (i c : ℕ) → i ≤ length s → wide.char_at s i ≡ some c → c ≢ 0 → i < length s
  char-inside s i c h e k = elim (Bool-cases (ltb i (length s))) [
    | inl t ↦ ltb→lt i (length s) t
    | inr f ↦
        let at_end : i ≡ length s = omega (arith, ltb→le i (length s) f) in
        absurd (k (some-eq (sym e ∙ (ap (wide.char_at s) at_end ∙ wide.char_at-length s))))
  ]

  pub at-Returns :
      {B : Type 0} (Q : B → Type 0) (s : Text) (i : ℕ) (f : ℕ → Option B)
      → i ≤ length s
      → ((c : ℕ) → wide.char_at s i ≡ some c → Returns Q (f c))
      → Returns Q (wide.char_at s i >>? f)
  at-Returns Q s i f h k =
      let (c, e) = char_at-Returns s i h in subst (λ o. Returns Q (o >>? f)) (sym e) (k c e)

  pub get-Returns :
      {B : Type 0} (Q : B → Type 0) (g : Wgetopter) (f : Text → Option B)
      → g.wopt_index < length g.argv
      → ((arg : Text) → get_elem? g.argv g.wopt_index ≡ some arg → Returns Q (f arg))
      → Returns Q (get_elem? g.argv g.wopt_index >>? f)
  get-Returns Q g f h k =
      let (arg, e) = element g.wopt_index g.argv h in
      subst (λ o. Returns Q (o >>? f)) (sym e) (k arg e)

  pub slice-bind :
      {A B : Type 0} (Q : B → Type 0) (n : ℕ) (xs : List A) (f : List A → Option B)
      → n ≤ length xs
      → Returns Q (f (drop n xs))
      → Returns Q (slice_from n xs >>? f)
  slice-bind Q n xs f h k = subst (λ o. Returns Q (o >>? f)) (sym (slice-Returns n xs h)) k
