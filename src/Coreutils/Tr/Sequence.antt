-- ===== src/Coreutils/Tr/Sequence.antt =====
-- operation.rs: the sequences that a set is written with, and their parser.
-- A nom parser gives what it read with the rest, or none; the warnings that it shows are left out.
pub mod Progress
pub mod Escapes
use reverse_rewrite.Common.{
  ℕ, zero, suc, ◌+◌, ◌-◌, ◌*◌, ◌≤◌, ◌⊎◌, inl, inr, ◌≡◌, Bool, true, false, ◌&&◌, ◌||◌, Option, none,
  some, List, [], ◌∷◌, ◌++◌, ltb, leb, ◌==◌, if◌then◌else◌, length,
}
use reverse_rewrite.Common.Text.{Bytes, codes}
pub use reverse_rewrite.Common.Outcome.{◌>>?◌}
use reverse_rewrite.Common.Outcome.{Outcome, ok, err, ◌>>=◌}

pub data BadSequence : Type 0 where
  missing_char_class_name missing_equivalent_class_char multiple_char_repeat_in_set2 : BadSequence
  char_repeat_in_set1 empty_set2_when_not_truncating_set1 : BadSequence
  class_except_lower_upper_in_set2 class_in_set2_not_matched_by_set1 : BadSequence
  set1_longer_set2_ends_in_class complement_more_than_one_unique_in_set2 : BadSequence
  invalid_repeat_count multiple_char_in_equivalence : Bytes → BadSequence
  backwards_range : ℕ → ℕ → BadSequence

pub data Class : Type 0 where
  alnum alpha blank control digit graph lower print punct space upper xdigit : Class

pub data Sequence : Type 0 where
  char char_star : ℕ → Sequence
  char_range char_repeat : ℕ → ℕ → Sequence
  class_of : Class → Sequence

-- the outcome of a parser, `IResult`
abbrev pub Parsed : Type 0 → Type 0
Parsed A = Option (A × Bytes)

-- `alt`
infixr 4 ◌<|>◌
abbrev pub ◌<|>◌ : {A : Type 0} → Option A → Option A → Option A
none <|> o = o
some a <|> o = some a

-- `tag`: the input behind the text that it begins with
abbrev pub tag : Bytes → Bytes → Option Bytes
tag [] input = some input
tag (t ∷ ts) [] = none
tag (t ∷ ts) (c ∷ cs) = if t == c then tag ts cs else none

abbrev pub is_octal : ℕ → Bool
is_octal c = leb 48 c && leb c 55

-- `recognize(many_m_n(min, max, one_of("01234567")))`, the digits and the rest, for the max
abbrev pub octal_digits : ℕ → Bytes → Bytes × Bytes
octal_digits zero input = ([], input)
octal_digits (suc n) [] = ([], [])
octal_digits (suc n) (c ∷ cs) =
    let (digits, rest) = octal_digits n cs in
    if is_octal c then (c ∷ digits, rest) else ([], c ∷ cs)

abbrev pub octal_value : ℕ → Bytes → ℕ
octal_value acc [] = acc
octal_value acc (c ∷ cs) = octal_value (acc * 8 + (c - 48)) cs

-- `u8::from_str_radix(digits, 8).ok()`
abbrev pub octal_byte : Bytes → Bytes → Parsed ℕ
octal_byte digits rest =
    if ltb (octal_value 0 digits) 256 then some (octal_value 0 digits, rest) else none

abbrev pub octal_at_least : ℕ → Bytes × Bytes → Parsed ℕ
octal_at_least min (digits, rest) = if ltb (length digits) min then none else octal_byte digits rest

unfoldable pub parse_octal_up_to_three_digits : Bytes → Parsed ℕ
parse_octal_up_to_three_digits input = octal_at_least 1 (octal_digits 3 input)

unfoldable pub parse_octal_two_digits : Bytes → Parsed ℕ
parse_octal_two_digits input = octal_at_least 2 (octal_digits 2 input)

unfoldable pub parse_octal : Bytes → Parsed ℕ
unfolding parse_octal_up_to_three_digits
parse_octal input = tag (codes "\\") input >>? parse_octal_up_to_three_digits

unfoldable pub parse_octal_with_warning : Bytes → Parsed ℕ
unfolding parse_octal_up_to_three_digits parse_octal_two_digits
parse_octal_with_warning input = tag (codes "\\") input >>? λ rest.
    parse_octal_up_to_three_digits rest <|> parse_octal_two_digits rest

unfoldable pub single_char : Bytes → Parsed ℕ
single_char [] = none
single_char (c ∷ cs) = some (c, cs)

abbrev pub escaped_char : ℕ → ℕ
escaped_char c =
    if c == b'a'
    then 0x7
    else if c == b'b'
    then 0x8
    else if c == b'f'
    then 0xc
    else if c == b'n'
    then 0xa
    else if c == b'r'
    then 0xd
    else if c == b't'
    then 0x9
    else if c == b'v'
    then 0xb
    else c

unfoldable pub parse_backslash : Bytes → Parsed ℕ
unfolding single_char
parse_backslash input =
    tag (codes "\\") input >>? λ rest. single_char rest >>? λ (a, l). some (escaped_char a, l)

unfoldable pub parse_backslash_or_char : Bytes → Parsed ℕ
unfolding parse_octal parse_backslash single_char
parse_backslash_or_char input = parse_octal input <|> parse_backslash input <|> single_char input

unfoldable pub parse_backslash_or_char_with_warning : Bytes → Parsed ℕ
unfolding parse_octal_with_warning parse_backslash single_char
parse_backslash_or_char_with_warning input =
    parse_octal_with_warning input <|> parse_backslash input <|> single_char input

-- what a parser of sequences gives: a sequence, or the error that is reported in the end
abbrev pub Item : Type 0
Item = BadSequence ⊎ Sequence

abbrev pub range_item : ℕ → ℕ → Item
range_item start last =
    if ltb last start then inl (backwards_range last start) else inr (char_range start last)

-- what follows the dash of a range from a
abbrev pub range_end : ℕ → Bytes → Parsed Item
range_end a r' = parse_backslash_or_char r' >>? λ (b, l). some (range_item a b, l)

abbrev pub range_from_char : ℕ × Bytes → Parsed Item
range_from_char (a, r) = tag (codes "-") r >>? range_end a

unfoldable pub parse_char_range : Bytes → Parsed Item
unfolding parse_backslash_or_char
parse_char_range input = parse_backslash_or_char input >>? range_from_char

unfoldable pub parse_char_star : Bytes → Parsed Item
unfolding parse_backslash_or_char
parse_char_star input = tag (codes "[") input >>? λ r. parse_backslash_or_char r >>? λ (a, r').
    tag (codes "*]") r' >>? λ l. some (inr (char_star a), l)

-- `take_till(|ue| matches!(ue, b']' | b'\\'))`
abbrev pub take_till_bracket : Bytes → Bytes × Bytes
take_till_bracket [] = ([], [])
take_till_bracket (c ∷ cs) =
    let (taken, rest) = take_till_bracket cs in
    if c == b']' || c == b'\\' then ([], c ∷ cs) else (c ∷ taken, rest)

abbrev pub usize_mod : ℕ
usize_mod = 18446744073709551616

-- `usize::from_str_radix`, behind a sign, for a radix of 8 or 10
abbrev pub radix_digits : ℕ → ℕ → Bytes → Option ℕ
radix_digits radix acc [] = if ltb acc usize_mod then some acc else none
radix_digits radix acc (c ∷ cs) =
    let later = radix_digits radix (acc * radix + (c - 48)) cs in
    if leb 48 c && ltb (c - 48) radix then later else none

unfoldable pub parse_usize : ℕ → Bytes → Option ℕ
parse_usize radix [] = none
parse_usize radix (c ∷ []) = radix_digits radix 0 (c ∷ [])
parse_usize radix (c ∷ d ∷ cs) =
    if c == b'+' then radix_digits radix 0 (d ∷ cs) else radix_digits radix 0 (c ∷ d ∷ cs)

abbrev pub starts_with_zero : Bytes → Bool
starts_with_zero [] = false
starts_with_zero (c ∷ cs) = c == b'0'

-- The text of the error is the bytes of the count.
abbrev pub repeat_item : ℕ → Bytes → Option ℕ → Item
repeat_item c text none = inl (invalid_repeat_count text)
repeat_item c text (some zero) = inr (char_star c)
repeat_item c text (some (suc n)) = inr (char_repeat c (suc n))

unfoldable pub parse_char_repeat : Bytes → Parsed Item
unfolding parse_backslash_or_char parse_usize
parse_char_repeat input = tag (codes "[") input >>? λ r. parse_backslash_or_char r >>? λ (c, r').
    tag (codes "*") r' >>? λ r''.
    let (text, tail) = take_till_bracket r'' in
    tag (codes "]") tail >>? λ l.
    some (repeat_item c text (parse_usize (if starts_with_zero text then 8 else 10) text), l)

abbrev pub named : Class → Bytes → Bytes → Parsed Item
named c name input = tag name input >>? λ l. some (inr (class_of c), l)

unfoldable pub parse_class_name : Bytes → Parsed Item
parse_class_name input =
    named alnum (codes "alnum") input
    <|> named alpha (codes "alpha") input
    <|> named blank (codes "blank") input
    <|> named control (codes "cntrl") input
    <|> named digit (codes "digit") input
    <|> named graph (codes "graph") input
    <|> named lower (codes "lower") input
    <|> named print (codes "print") input
    <|> named punct (codes "punct") input
    <|> named space (codes "space") input
    <|> named upper (codes "upper") input
    <|> named xdigit (codes "xdigit") input
    <|> some (inl missing_char_class_name, input)

unfoldable pub parse_class : Bytes → Parsed Item
unfolding parse_class_name
parse_class input = tag (codes "[:") input >>? λ r.
    parse_class_name r >>? λ (item, r'). tag (codes ":]") r' >>? λ l. some (item, l)

-- `take_until("=]")`, with that text taken away as well
abbrev pub until_equal : Bytes → Parsed Bytes
until_equal [] = none
until_equal (c ∷ cs) =
    let later = until_equal cs >>? λ (v, l). some (c ∷ v, l) in
    tag (codes "=]") (c ∷ cs) >>? (λ l. some ([], l)) <|> later

-- `peek(tag("=]"))`, or a character
abbrev pub equivalent : Bytes → Parsed (Option ℕ)
equivalent input =
    (tag (codes "=]") input >>? λ _. some (none, input))
    <|> (parse_backslash_or_char input >>? λ (c, l). some (some c, l))

abbrev pub equal_item : Option ℕ → Bytes → Item
equal_item none v = inl missing_equivalent_class_char
equal_item (some c) [] = inr (char c)
equal_item (some c) (x ∷ v) = inl (multiple_char_in_equivalence (c ∷ x ∷ v))

unfoldable pub parse_char_equal : Bytes → Parsed Item
unfolding parse_backslash_or_char
parse_char_equal input = tag (codes "[=") input >>? λ r.
    equivalent r >>? λ (a, r'). until_equal r' >>? λ (v, l). some (equal_item a v, l)

unfoldable pub parse_item : Bytes → Parsed Item
unfolding parse_char_range parse_char_star parse_char_repeat parse_class parse_char_equal
    parse_backslash_or_char_with_warning
parse_item input =
    parse_char_range input
    <|> parse_char_star input
    <|> parse_char_repeat input
    <|> parse_class input
    <|> parse_char_equal input
    <|> (parse_backslash_or_char_with_warning input >>? λ (s, l). some (inr (char s), l))

abbrev pub next_round : (Bytes → List Item × Bytes) → Bytes → Parsed Item → List Item × Bytes
next_round later input none = ([], input)
next_round later input (some (item, l)) = let (items, rest) = later l in (item ∷ items, rest)

-- `many0`: items until none can be read, with what is left then; a round for each of them.
unfoldable pub many0 : ℕ → Bytes → List Item × Bytes
unfolding parse_item
many0 zero input = ([], input)
many0 (suc f) input = next_round (λ l. many0 f l) input (parse_item input)

-- `collect::<Result<Vec<_>, _>>()`
abbrev pub collect : List Item → Outcome BadSequence (List Sequence)
collect [] = ok []
collect (inr s ∷ items) = collect items >>= λ ss. ok (s ∷ ss)
collect (inl e ∷ items) = err e

-- Every item takes a byte, so as many rounds as bytes are enough.
unfoldable pub from_str : Bytes → Outcome BadSequence (List Sequence)
unfolding many0
from_str input = collect (many0 (length input) input).0
