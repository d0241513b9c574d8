-- ===== src/Coreutils/Tr/Sequence/Escapes.antt =====
-- operation.rs: a set written with an octal escape for each byte.
use reverse_rewrite.Common.{
  ℕ, zero, suc, ◌+◌, ◌*◌, ◌/◌, ◌%◌, ◌≤◌, ◌<◌, ◌≡◌, refl, ap, ◌∙◌, arith, none, some, [], inr, ◌∷◌,
  map, length, All, lt→ltb,
}
use reverse_rewrite.Common.Text.{Bytes, codes}
use reverse_rewrite.Common.Outcome.{ok, ◌>>=◌}
use reverse_rewrite.Coreutils.Tr.Sequence.{
  Item, Parsed, char, ◌>>?◌, ◌<|>◌, tag, octal_digits, octal_value, octal_byte, octal_at_least,
  parse_octal_up_to_three_digits, parse_octal_two_digits, parse_backslash, parse_backslash_or_char,
  single_char, parse_backslash_or_char_with_warning, parse_char_range, range_from_char, range_end,
  parse_item, next_round, many0, collect, from_str,
}
use reverse_rewrite.Coreutils.Tr.Operation.Chunks.{IsByte}

-- a backslash and three octal digits for each byte
unfoldable pub escape_all : Bytes → Bytes
escape_all [] = []
escape_all (b ∷ bs) = 92 ∷ (48 + b / 64) ∷ (48 + b / 8 % 8) ∷ (48 + b % 8) ∷ escape_all bs

three_digits :
    (x y z : ℕ) (rest : Bytes)
    → x < 8
    → y < 8
    → z < 8
    → octal_digits 3 ((48 + x) ∷ (48 + y) ∷ (48 + z) ∷ rest)
      ≡ ((48 + x) ∷ (48 + y) ∷ (48 + z) ∷ [], rest)
three_digits x y z rest h k l = ground arith

value : (x y z : ℕ) → octal_value 0 ((48 + x) ∷ (48 + y) ∷ (48 + z) ∷ []) ≡ x * 64 + (y * 8 + z)
value x y z = omega arith

digits-sum : (b : ℕ) → b / 64 * 64 + (b / 8 % 8 * 8 + b % 8) ≡ b
digits-sum b = omega arith

byte :
    (ds rest : Bytes) (b : ℕ)
    → octal_value 0 ds ≡ b
    → IsByte b
    → octal_byte ds rest ≡ some (b, rest)
byte ds rest b e h = ground (arith, e, lt→ltb b 256)

escaped :
    (b : ℕ) (rest : Bytes)
    → IsByte b
    → parse_octal_up_to_three_digits ((48 + b / 64) ∷ (48 + b / 8 % 8) ∷ (48 + b % 8) ∷ rest)
      ≡ some (b, rest)
unfolding parse_octal_up_to_three_digits
escaped b rest h =
    ap (octal_at_least 1)
      (three_digits (b / 64) (b / 8 % 8) (b % 8) rest (omega arith) (omega arith) (omega arith))
    ∙ byte ((48 + b / 64) ∷ (48 + b / 8 % 8) ∷ (48 + b % 8) ∷ []) rest b
        (value (b / 64) (b / 8 % 8) (b % 8) ∙ digits-sum b) h

no_dash : (bs : Bytes) → tag (codes "-") (escape_all bs) ≡ none
unfolding escape_all
no_dash [] = refl
no_dash (b ∷ bs) = refl

as_char :
    (b : ℕ) (bs : Bytes)
    → IsByte b
    → parse_backslash_or_char (escape_all (b ∷ bs)) ≡ some (b, escape_all bs)
unfolding parse_backslash_or_char escape_all
as_char b bs h =
    ap (λ o. o <|> (parse_backslash (escape_all (b ∷ bs)) <|> single_char (escape_all (b ∷ bs))))
      (escaped b (escape_all bs) h)

no_range : (b : ℕ) (bs : Bytes) → IsByte b → parse_char_range (escape_all (b ∷ bs)) ≡ none
unfolding parse_char_range
no_range b bs h =
    ap (λ o. o >>? range_from_char) (as_char b bs h) ∙ ap (λ o. o >>? range_end b) (no_dash bs)

as_item :
    (b : ℕ) (bs : Bytes)
    → IsByte b
    → parse_item (escape_all (b ∷ bs)) ≡ some (inr (char b), escape_all bs)
unfolding parse_item escape_all
as_item b bs h =
    let input = escape_all (b ∷ bs) in
    let digits = (48 + b / 64) ∷ (48 + b / 8 % 8) ∷ (48 + b % 8) ∷ escape_all bs in
    let as_sequence : ℕ × Bytes → Parsed Item = λ (s, l). some (inr (char s), l) in
    ap (λ o. o <|> (parse_backslash_or_char_with_warning input >>? as_sequence)) (no_range b bs h)
    ∙ ap
        (λ o.
          ((o <|> parse_octal_two_digits digits) <|> (parse_backslash input <|> single_char input))
          >>? as_sequence)
        (escaped b (escape_all bs) h)

length_escape : (bs : Bytes) → length bs ≤ length (escape_all bs)
unfolding escape_all
length_escape [] = omega arith
length_escape (b ∷ bs) = omega (arith, length_escape bs)

many :
    (f : ℕ) (bs : Bytes)
    → length bs ≤ f
    → All IsByte bs
    → (many0 f (escape_all bs)).0 ≡ map (λ b. inr (char b)) bs
unfolding many0 escape_all
many f [] h k = no_more f
  where
    no_more : (f : ℕ) → (many0 f []).0 ≡ []
    no_more zero = refl
    no_more (suc f) = refl
many zero (b ∷ bs) h k = absurd (omega arith)
many (suc f) (b ∷ bs) h (k, ks) =
    ap (λ o. (next_round (λ l. many0 f l) (escape_all (b ∷ bs)) o).0) (as_item b bs k)
    ∙ ap (λ items. inr (char b) ∷ items) (many f bs (omega arith) ks)

-- A set that writes each of its bytes as a backslash and three octal digits is read as just these
-- bytes, for numbers below 256.
pub from_str-escape_all : (bs : Bytes) → All IsByte bs → from_str (escape_all bs) ≡ ok (map char bs)
unfolding from_str
from_str-escape_all bs h =
    ap collect (many (length (escape_all bs)) bs (length_escape bs) h) ∙ collected bs
  where
    collected : (bs : Bytes) → collect (map (λ b. inr (char b)) bs) ≡ ok (map char bs)
    collected [] = refl
    collected (b ∷ bs) = ap (λ o. o >>= λ ss. ok (char b ∷ ss)) (collected bs)
