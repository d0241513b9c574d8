-- ===== src/Fish/Wgetopt/Tests.antt =====
-- wgetopt: each theorem at a concrete input, and runs of the scan.
use reverse_rewrite.Common.{
  ℕ, inl, arith, ◌≡◌, refl, true, false, Option, none, some, List, [], ◌∷◌, length, get_elem?, zero,
  suc,
}
use reverse_rewrite.Common.Text.{codes}
use reverse_rewrite.Common.Outcome.{◌>>?◌}
use reverse_rewrite.Fish.Wgetopt.{
  Text, Wide, WOption, permute, no_argument, required_argument, Wgetopter, new, exchange,
  find_matching_long_opt,
}
use reverse_rewrite.Fish.Wgetopt.Exchange.{exchange_lem}
use reverse_rewrite.Fish.Wgetopt.Matching.{
  decided, indexed, is_exact, matches, find_matching_long_opt-decided,
}
use reverse_rewrite.Fish.Wgetopt.Scan.{next_opt}
use reverse_rewrite.Fish.Wgetopt.Safe.{Returns, Answered, CanScan}
use reverse_rewrite.Fish.Wgetopt.Safe.Calls.{next_opt-Returns}
use reverse_rewrite.Fish.Wgetopt.Scan.Reorders.{Gives, ReorderedBy, next_opt-Perm}

abbrev char_or_nul : Text → ℕ → Option ℕ
char_or_nul [] zero = some 0
char_or_nul [] (suc i) = none
char_or_nul (c ∷ cs) zero = some c
char_or_nul (c ∷ cs) (suc i) = char_or_nul cs i

char_or_nul-inside : (s : Text) (i c : ℕ) → get_elem? s i ≡ some c → char_or_nul s i ≡ some c
char_or_nul-inside [] i c h = cc
char_or_nul-inside (x ∷ xs) zero c h = h
char_or_nul-inside (x ∷ xs) (suc i) c h = char_or_nul-inside xs i c h

char_or_nul-length : (s : Text) → char_or_nul s (length s) ≡ some 0
char_or_nul-length [] = refl
char_or_nul-length (x ∷ xs) = char_or_nul-length xs

abbrev wide : Wide
wide = record {
  char_at = char_or_nul;
  char_at-inside = char_or_nul-inside;
  char_at-length = char_or_nul-length;
}

abbrev long_options : List WOption
long_options =
    record { name = codes "help"; arg_type = no_argument; val = b'h' }
    ∷ record { name = codes "help-all"; arg_type = no_argument; val = b'a' }
    ∷ record { name = codes "output"; arg_type = required_argument; val = b'o' }
    ∷ []

abbrev arguments : List Text
arguments = codes "program" ∷ codes "file" ∷ codes "--out=x" ∷ codes "-v" ∷ []

abbrev getopter : Wgetopter
getopter = new (codes "v") long_options arguments

first_option : (next_opt wide getopter >>? λ (o, g). o) ≡ some b'o'
unfolding next_opt new
first_option = refl

next_opt-Perm_example : Gives (ReorderedBy wide getopter.argv) (next_opt wide getopter)
next_opt-Perm_example = next_opt-Perm wide getopter

abbrev scanned : Wgetopter
scanned = record {
  argv = arguments;
  woptarg = none;
  shortopts = codes "v";
  longopts = long_options;
  remaining_text = codes "hel";
  wopt_index = 3;
  unrecognized_opt = b'?';
  ordering = permute;
  first_nonopt = 1;
  last_nonopt = 2;
  return_colon = false;
  initialized = true;
}

exchange_lem_example :
    exchange scanned
    ≡ some (record scanned {
      argv = codes "program" ∷ codes "--out=x" ∷ codes "file" ∷ codes "-v" ∷ [];
      first_nonopt = 2;
      last_nonopt = 3;
    })
exchange_lem_example =
    exchange_lem scanned (codes "program" ∷ []) (codes "file" ∷ []) (codes "--out=x" ∷ [])
      (codes "-v" ∷ []) refl refl refl refl

find_matching_long_opt-decided_example :
    find_matching_long_opt scanned 3
    ≡ decided
        (codes "hel")
        (indexed (codes "hel") (is_exact (codes "hel")) 0 long_options)
        (indexed (codes "hel") (matches (codes "hel")) 0 long_options)
find_matching_long_opt-decided_example = find_matching_long_opt-decided scanned 3

getopter_new : CanScan getopter
unfolding new
getopter_new = inl (refl, omega arith, omega arith)

next_opt-Returns_example : Returns (λ (o, h). Answered o h) (next_opt wide getopter)
next_opt-Returns_example = next_opt-Returns wide getopter getopter_new
