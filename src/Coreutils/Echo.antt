-- ===== src/Coreutils/Echo.antt =====
-- echo/rust-rewrite/echo.rs: the flags, the choice by POSIXLY_CORRECT, and the output.
-- An argument is its encoded bytes.
pub mod Flags
use reverse_rewrite.Common.{
  ℕ, ◌≡◌, Bool, true, false, Option, none, some, List, [], ◌∷◌, ◌++◌, ◌==◌, if◌then◌else◌, ◌&&◌,
}
use reverse_rewrite.Common.Text.{Bytes, codes, bytes_eq}

pub record Options : Type 0 where
  pub trailing_newline : Bool
  pub escape : Bool

abbrev pub default_options : Options
default_options = record { trailing_newline = true; escape = false }

abbrev pub posixly_correct_default : Options
posixly_correct_default = record { trailing_newline = true; escape = true }

-- The characters of a flag, behind the "-"; none for a character that is no flag.
unfoldable pub flag_chars : Bytes → Options → Option Options
flag_chars [] o = some o
flag_chars (c ∷ cs) o =
    let with_e = flag_chars cs (record o { escape = true }) in
    let without_e = flag_chars cs (record o { escape = false }) in
    let with_n = flag_chars cs (record o { trailing_newline = false }) in
    if c == 101 then with_e else if c == 69 then without_e else if c == 110 then with_n else none

-- `is_flag`: the options that a flag leaves, or none when the argument is no flag.
unfoldable pub is_flag : Bytes → Options → Option Options
unfolding flag_chars
is_flag [] o = none
is_flag (c ∷ []) o = none
is_flag (c ∷ d ∷ cs) o = if c == 45 then flag_chars (d ∷ cs) o else none

unfoldable pub filter_from : Options → List Bytes → List Bytes × Options
unfolding is_flag
filter_from o [] = ([], o)
filter_from o (arg ∷ args) = elim (is_flag arg o) [
  | some o' ↦ filter_from o' args
  | none ↦ (arg ∷ args, o)
]

unfoldable pub filter_flags : List Bytes → List Bytes × Options
unfolding filter_from
filter_flags = filter_from default_options

-- What is done with the arguments behind the name of the program.
pub data Plan : Type 0 where
  prints_help prints_version : Plan
  prints : List Bytes → Options → Plan

abbrev filtered : List Bytes × Options → Plan
filtered (args, o) = prints args o

abbrev without_newline : List Bytes × Options → Plan
without_newline (args, _) =
    prints args (record posixly_correct_default { trailing_newline = false })

unfoldable pub plan : Bool → List Bytes → Plan
unfolding filter_flags
plan true [] = prints [] posixly_correct_default
plan true (first ∷ rest) =
    if bytes_eq first (codes "-n")
    then without_newline (filter_flags (first ∷ rest))
    else prints (first ∷ rest) posixly_correct_default
plan false [] = prints [] default_options
plan false (first ∷ []) =
    if bytes_eq first (codes "--help")
    then prints_help
    else if bytes_eq first (codes "--version")
    then prints_version
    else filtered (filter_flags (first ∷ []))
plan false (first ∷ second ∷ rest) = filtered (filter_flags (first ∷ second ∷ rest))

-- `escaped` is `parse_escape_only`, written out: the bytes, and whether they end the output ("\\c").
module _ (escaped : Bytes → Bytes × Bool) where
  abbrev newline : Options → Bytes
  newline o = if o.trailing_newline then 10 ∷ [] else []

  -- the arguments from the second on, a space before each
  unfoldable pub execute_more : Options → List Bytes → Bytes
  execute_more o [] = newline o
  execute_more o (arg ∷ args) =
      let more = execute_more o args in
      let (bytes, stops) = escaped arg in
      32 ∷ (if o.escape then (if stops then bytes else bytes ++ more) else arg ++ more)

  unfoldable pub execute : Options → List Bytes → Bytes
  unfolding execute_more
  execute o [] = newline o
  execute o (arg ∷ args) =
      let more = execute_more o args in
      let (bytes, stops) = escaped arg in
      if o.escape then (if stops then bytes else bytes ++ more) else arg ++ more
