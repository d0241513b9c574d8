-- ===== src/Fish/Wgetopt.antt =====
-- wgetopt.rs: options out of the arguments of a command.
-- A `wstr` is the list of its code points. A call that panics is none.
mod Tests
pub mod Exchange
pub mod Matching
pub mod Scan
pub mod Safe
use reverse_rewrite.Common.{
  ℕ, zero, suc, ◌+◌, ◌-◌, ◌≡◌, Bool, true, false, not, ◌&&◌, ◌||◌, Option, none, some, List, [],
  ◌∷◌, ◌++◌, ltb, leb, ◌==◌, if◌then◌else◌, length, take, drop, get_elem?,
}
use reverse_rewrite.Common.Text.{Bytes, bytes_eq, codes}
use reverse_rewrite.Common.Outcome.{◌>>?◌}

abbrev pub Text : Type 0
Text = Bytes

-- The character at an index: the one that stands there, or the NUL character at the end.
pub record Wide : Type 0 where
  pub char_at : Text → ℕ → Option ℕ
  pub char_at-inside : (s : Text) (i c : ℕ) → get_elem? s i ≡ some c → char_at s i ≡ some c
  pub char_at-length : (s : Text) → char_at s (length s) ≡ some 0

pub data Ordering : Type 0 where
  require_order permute return_in_order : Ordering

pub data ArgType : Type 0 where
  no_argument required_argument optional_argument : ArgType

pub record WOption : Type 0 where
  pub name : Text
  pub arg_type : ArgType
  pub val : ℕ

pub data LongOptMatch : Type 0 where
  exact non_exact : WOption → ℕ → LongOptMatch
  ambiguous no_match : LongOptMatch

pub data NextArgv : Type 0 where
  finished unpermuted_non_option found_option : NextArgv

pub record Wgetopter : Type 0 where
  pub argv : List Text
  pub woptarg : Option Text
  pub shortopts : Text
  pub longopts : List WOption
  pub remaining_text : Text
  pub wopt_index : ℕ
  pub unrecognized_opt : ℕ
  pub ordering : Ordering
  pub first_nonopt : ℕ
  pub last_nonopt : ℕ
  pub return_colon : Bool
  pub initialized : Bool

abbrev pub non_option_char : ℕ
non_option_char = 1

unfoldable pub new : Text → List WOption → List Text → Wgetopter
new shortopts longopts argv = record {
  argv = argv;
  woptarg = none;
  shortopts = shortopts;
  longopts = longopts;
  remaining_text = [];
  wopt_index = 0;
  unrecognized_opt = b'?';
  ordering = permute;
  first_nonopt = 0;
  last_nonopt = 0;
  return_colon = false;
  initialized = false;
}

-- `s[n..]`
abbrev pub slice_from {ℓ} : {A : Type ℓ} → ℕ → List A → Option (List A)
slice_from n s = if leb n (length s) then some (drop n s) else none

-- `argv[left..right].rotate_left(middle - left)`
unfoldable pub rotated {ℓ} : {A : Type ℓ} → ℕ → ℕ → ℕ → List A → List A
rotated left middle right argv =
    take left argv
    ++ (take (right - middle) (drop middle argv)
        ++ (take (middle - left) (drop left argv) ++ drop right argv))

unfoldable pub exchange : Wgetopter → Option Wgetopter
unfolding rotated
exchange g =
    let left = g.first_nonopt in
    let middle = g.last_nonopt in
    let right = g.wopt_index in
    if leb left middle && (leb middle right && leb right (length g.argv))
    then some (record g {
      argv = rotated left middle right g.argv;
      first_nonopt = left + (right - middle);
      last_nonopt = right;
    })
    else none

abbrev pub is_permuting : Ordering → Bool
is_permuting permute = true
is_permuting require_order = false
is_permuting return_in_order = false

abbrev pub is_requiring : Ordering → Bool
is_requiring require_order = true
is_requiring permute = false
is_requiring return_in_order = false

abbrev pub is_empty {ℓ} : {A : Type ℓ} → List A → Bool
is_empty [] = true
is_empty (x ∷ xs) = false

-- `shortopts.as_char_slice().contains(c)`
abbrev pub has_char : Text → ℕ → Bool
has_char [] c = false
has_char (x ∷ xs) c = x == c || has_char xs c

-- `position(|sc| sc == c)` with the text from there, or the empty text
abbrev pub from_char : Text → ℕ → Text
from_char [] c = []
from_char (x ∷ xs) c = let later = from_char xs c in if x == c then x ∷ xs else later

-- `find(['='])`, or the length
abbrev pub name_length : Text → ℕ
name_length [] = 0
name_length (c ∷ cs) = let later = name_length cs in if c == b'=' then 0 else suc later

abbrev pub starts_with : Text → Text → Bool
starts_with s [] = true
starts_with [] (c ∷ cs) = false
starts_with (x ∷ xs) (c ∷ cs) = x == c && starts_with xs cs

-- `find_matching_long_opt`, from an index on, with the first match that is not exact and whether there
-- were more
unfoldable pub match_from : Text → ℕ → List WOption → Option (WOption × ℕ) → Bool → LongOptMatch
match_from text i [] none more = no_match
match_from text i [] (some (opt, index)) more = if more then ambiguous else non_exact opt index
match_from text i (o ∷ os) first more =
    let later = match_from text (suc i) os first more in
    let as_first = match_from text (suc i) os (some (o, i)) more in
    let as_more = match_from text (suc i) os first true in
    if starts_with o.name text
    then (if length text == length o.name
        then exact o i
        else elim first [ none ↦ as_first | some _ ↦ as_more ])
    else later

-- The slice is whole at each call, where `name_end` is the length of the name in the text; beyond the
-- text, where the source would panic, it is the text.
unfoldable pub find_matching_long_opt : Wgetopter → ℕ → LongOptMatch
unfolding match_from
find_matching_long_opt g name_end =
    match_from (take name_end g.remaining_text) 0 g.longopts none false
