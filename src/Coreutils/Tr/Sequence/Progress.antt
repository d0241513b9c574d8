-- ===== src/Coreutils/Tr/Sequence/Progress.antt =====
-- operation.rs: every parser of a set takes at least a byte, and some item can always be read.
use reverse_rewrite.Common.{
  ℕ, zero, suc, ◌+◌, ◌≤◌, ◌<◌, ◌≡◌, ◌≢◌, subst, refl, ap, ◌∙◌, arith, Bool, true, false, Option,
  none, some, [], ◌∷◌, ltb, ◌==◌, if◌then◌else◌, length, ltb→le, Option-cases, inl, inr,
}
use reverse_rewrite.Common.Text.{Bytes, codes}
use reverse_rewrite.Coreutils.Tr.Sequence.{
  Parsed, ◌>>?◌, ◌<|>◌, tag, octal_digits, octal_value, octal_byte, octal_at_least, parse_octal,
  parse_octal_with_warning, single_char, parse_backslash, parse_backslash_or_char,
  parse_backslash_or_char_with_warning, Item, parse_char_range, parse_char_star, take_till_bracket,
  parse_char_repeat, missing_char_class_name, Class, alnum, alpha, blank, control, digit, graph,
  lower, print, punct, space, upper, xdigit, named, parse_class_name, parse_class, until_equal,
  equivalent, parse_char_equal, parse_item, many0, next_round,
}

module _ {A : Type 0} where
  -- what a parser leaves has fewer than n bytes
  abbrev pub Leaves : ℕ → Parsed A → Type 0
  Leaves n none = Unit
  Leaves n (some (a, l)) = length l < n

  or-Leaves : (n : ℕ) (p q : Parsed A) → Leaves n p → Leaves n q → Leaves n (p <|> q)
  or-Leaves n none q h k = k
  or-Leaves n (some a) q h k = h

  Leaves-more : (n m : ℕ) (p : Parsed A) → n ≤ m → Leaves n p → Leaves m p
  Leaves-more n m none h k = k
  Leaves-more n m (some (a, l)) h k = omega arith

  if-Leaves :
      (n : ℕ) (b : Bool) (p q : Parsed A)
      → (b ≡ true → Leaves n p)
      → (b ≡ false → Leaves n q)
      → Leaves n (if b then p else q)
  if-Leaves n true p q h k = h refl
  if-Leaves n false p q h k = k refl

  tag-Leaves :
      (n : ℕ) (t input : Bytes) (f : Bytes → Parsed A)
      → ((l : Bytes) → length l + length t ≡ length input → Leaves n (f l))
      → Leaves n (tag t input >>? f)
  tag-Leaves n [] input f k = k input (omega arith)
  tag-Leaves n (t ∷ ts) [] f k = _
  tag-Leaves n (t ∷ ts) (c ∷ cs) f k =
      let rest = tag-Leaves n ts cs f (λ l h. k l (omega arith)) in
      elim (t == c) as (λ b. Leaves n ((if b then tag ts cs else none) >>? f)) [
        | true ↦ rest
        | false ↦ _
      ]

bind-Leaves :
    {A B : Type 0} (n m : ℕ) (p : Parsed A) (f : A × Bytes → Parsed B)
    → Leaves m p
    → ((a : A) (l : Bytes) → length l < m → Leaves n (f (a, l)))
    → Leaves n (p >>? f)
bind-Leaves n m none f h k = _
bind-Leaves n m (some (a, l)) f h k = k a l h

digits-split :
    (n : ℕ) (input : Bytes)
    → (let (digits, rest) = octal_digits n input in length digits + length rest ≡ length input)
digits-split zero input = omega arith
digits-split (suc n) [] = refl
digits-split (suc n) (c ∷ cs) = ground (arith, digits-split n cs)

octal-Leaves :
    (min n : ℕ) (input : Bytes)
    → 0 < min
    → Leaves (length input) (octal_at_least min (octal_digits n input))
octal-Leaves min n input h =
    let (digits, rest) = octal_digits n input in
    if-Leaves (length input) (ltb (length digits) min) none (octal_byte digits rest) (λ _. _)
      (λ long.
        if-Leaves (length input) (ltb (octal_value 0 digits) 256)
          (some (octal_value 0 digits, rest)) none
          (λ _. omega (arith, digits-split n input, ltb→le (length digits) min long)) (λ _. _))

single-Leaves : (input : Bytes) → Leaves (length input) (single_char input)
unfolding single_char
single-Leaves [] = _
single-Leaves (c ∷ cs) = omega arith

backslash-Leaves : (input : Bytes) → Leaves (length input) (parse_backslash input)
unfolding parse_backslash
backslash-Leaves input = tag-Leaves (length input) (codes "\\") input _ λ l h.
    bind-Leaves (length input) (length l) (single_char l) _ (single-Leaves l)
      (λ a l' k. omega arith)

parse_octal-Leaves : (input : Bytes) → Leaves (length input) (parse_octal input)
unfolding parse_octal
parse_octal-Leaves input =
    tag-Leaves (length input) (codes "\\") input _ λ l h.
      Leaves-more (length l) (length input) _ (omega arith) (octal-Leaves 1 3 l (omega arith))

octal_with_warning-Leaves : (input : Bytes) → Leaves (length input) (parse_octal_with_warning input)
unfolding parse_octal_with_warning
octal_with_warning-Leaves input = tag-Leaves (length input) (codes "\\") input _ λ l h.
    Leaves-more (length l) (length input) _ (omega arith) (
      or-Leaves (length l) _ _ (octal-Leaves 1 3 l (omega arith))
        (octal-Leaves 2 2 l (omega arith)))

char-Leaves : (input : Bytes) → Leaves (length input) (parse_backslash_or_char input)
unfolding parse_backslash_or_char
char-Leaves input =
    or-Leaves (length input) _ _ (parse_octal-Leaves input)
      (or-Leaves (length input) _ _ (backslash-Leaves input) (single-Leaves input))

char_with_warning-Leaves :
    (input : Bytes) → Leaves (length input) (parse_backslash_or_char_with_warning input)
unfolding parse_backslash_or_char_with_warning
char_with_warning-Leaves input =
    or-Leaves (length input) _ _ (octal_with_warning-Leaves input)
      (or-Leaves (length input) _ _ (backslash-Leaves input) (single-Leaves input))

range-Leaves : (input : Bytes) → Leaves (length input) (parse_char_range input)
unfolding parse_char_range
range-Leaves input =
    bind-Leaves (length input) (length input) (parse_backslash_or_char input) _ (char-Leaves input)
      λ a r h. tag-Leaves (length input) (codes "-") r _ λ r' h'.
        bind-Leaves (length input) (length r') (parse_backslash_or_char r') _ (char-Leaves r')
          λ b l k. omega arith

star-Leaves : (input : Bytes) → Leaves (length input) (parse_char_star input)
unfolding parse_char_star
star-Leaves input = tag-Leaves (length input) (codes "[") input _ λ r h.
    bind-Leaves (length input) (length r) (parse_backslash_or_char r) _ (char-Leaves r)
      λ a r' h'. tag-Leaves (length input) (codes "*]") r' _ λ l k. omega arith

bracket-split :
    (input : Bytes)
    → (let (taken, rest) = take_till_bracket input in length taken + length rest ≡ length input)
bracket-split [] = refl
bracket-split (c ∷ cs) = ground (arith, bracket-split cs)

repeat-Leaves : (input : Bytes) → Leaves (length input) (parse_char_repeat input)
unfolding parse_char_repeat
repeat-Leaves input = tag-Leaves (length input) (codes "[") input _ λ r h.
    bind-Leaves (length input) (length r) (parse_backslash_or_char r) _ (char-Leaves r) λ a r' h'.
      tag-Leaves (length input) (codes "*") r' _ λ r'' k.
        tag-Leaves (length input) (codes "]") (take_till_bracket r'').1 _
          λ l m. omega (arith, bracket-split r'')

named-Leaves : (c : Class) (name input : Bytes) → Leaves (suc (length input)) (named c name input)
named-Leaves c name input = tag-Leaves (suc (length input)) name input _ λ l h. omega arith

class_name-Leaves : (input : Bytes) → Leaves (suc (length input)) (parse_class_name input)
unfolding parse_class_name
class_name-Leaves input =
    let n = suc (length input) in
    let same : length input < n = omega arith in
    let one = λ (c : Class) (name : Bytes) (later : Parsed Item) (h : Leaves n later).
      or-Leaves n (named c name input) later (named-Leaves c name input) h in
    one alnum (codes "alnum") _ (
      one alpha (codes "alpha") _ (
        one blank (codes "blank") _ (
          one control (codes "cntrl") _ (
            one digit (codes "digit") _ (
              one graph (codes "graph") _ (
                one lower (codes "lower") _ (
                  one print (codes "print") _ (
                    one punct (codes "punct") _ (
                      one space (codes "space") _ (
                        one upper (codes "upper") _ (
                          one xdigit (codes "xdigit") (some (inl missing_char_class_name, input))
                            same)))))))))))

class-Leaves : (input : Bytes) → Leaves (length input) (parse_class input)
unfolding parse_class
class-Leaves input = tag-Leaves (length input) (codes "[:") input _ λ r h.
    bind-Leaves (length input) (suc (length r)) (parse_class_name r) _ (class_name-Leaves r)
      λ item r' h'. tag-Leaves (length input) (codes ":]") r' _ λ l k. omega arith

until-Leaves : (input : Bytes) → Leaves (suc (length input)) (until_equal input)
until-Leaves [] = _
until-Leaves (c ∷ cs) =
    or-Leaves (suc (length (c ∷ cs))) _ _
      (tag-Leaves (suc (length (c ∷ cs))) (codes "=]") (c ∷ cs) _ λ l h. omega arith)
      (bind-Leaves (suc (length (c ∷ cs))) (suc (length cs)) (until_equal cs) _ (until-Leaves cs)
        λ v l h. omega arith)

equivalent-Leaves : (input : Bytes) → Leaves (suc (length input)) (equivalent input)
equivalent-Leaves input =
    or-Leaves (suc (length input)) _ _
      (tag-Leaves (suc (length input)) (codes "=]") input _ λ l h. omega arith)
      (bind-Leaves (suc (length input)) (length input) (parse_backslash_or_char input) _
        (char-Leaves input) λ c l h. omega arith)

equal-Leaves : (input : Bytes) → Leaves (length input) (parse_char_equal input)
unfolding parse_char_equal
equal-Leaves input = tag-Leaves (length input) (codes "[=") input _ λ r h.
    bind-Leaves (length input) (suc (length r)) (equivalent r) _ (equivalent-Leaves r) λ a r' h'.
      bind-Leaves (length input) (suc (length r')) (until_equal r') _ (until-Leaves r')
        λ v l k. omega arith

item-Leaves : (input : Bytes) → Leaves (length input) (parse_item input)
unfolding parse_item
item-Leaves input =
    let n = length input in
    or-Leaves n _ _ (range-Leaves input) (
      or-Leaves n _ _ (star-Leaves input) (
        or-Leaves n _ _ (repeat-Leaves input) (
          or-Leaves n _ _ (class-Leaves input) (
            or-Leaves n _ _ (equal-Leaves input)
              (bind-Leaves n n _ _ (char_with_warning-Leaves input) λ s l h. h)))))

or-ne-none : {A : Type 0} (p q : Option A) → q ≢ none → (p <|> q) ≢ none
or-ne-none none q h = h
or-ne-none (some a) q h = cc

bind-ne-none :
    {A B : Type 0} (p : Option A) (f : A → Option B)
    → p ≢ none
    → ((a : A) → f a ≢ none)
    → (p >>? f) ≢ none
bind-ne-none none f h k = absurd (h refl)
bind-ne-none (some a) f h k = k a

some_char : (c : ℕ) (cs : Bytes) → parse_backslash_or_char_with_warning (c ∷ cs) ≢ none
unfolding parse_backslash_or_char_with_warning
some_char c cs =
    or-ne-none (parse_octal_with_warning (c ∷ cs)) _
      (or-ne-none (parse_backslash (c ∷ cs)) (some (c, cs)) cc)

some_item : (c : ℕ) (cs : Bytes) → parse_item (c ∷ cs) ≢ none
unfolding parse_item
some_item c cs =
    let input = c ∷ cs in
    or-ne-none (parse_char_range input) _ (
      or-ne-none (parse_char_star input) _ (
        or-ne-none (parse_char_repeat input) _ (
          or-ne-none (parse_class input) _ (
            or-ne-none (parse_char_equal input) _ (
              bind-ne-none (parse_backslash_or_char_with_warning input) _ (some_char c cs)
                λ a. cc)))))

-- Whenever the rounds are as many as the bytes, `many0` stops because nothing is left of its input.
pub many0-Finishes : (f : ℕ) (input : Bytes) → length input ≤ f → (many0 f input).1 ≡ []
unfolding many0
many0-Finishes zero [] h = refl
many0-Finishes zero (c ∷ cs) h = absurd (omega arith)
many0-Finishes (suc f) [] h = refl
many0-Finishes (suc f) (c ∷ cs) h = elim (Option-cases (parse_item (c ∷ cs))) [
  | inl e ↦ absurd (some_item c cs e)
  | inr ((item, l), e) ↦
      let shorter : length l < suc (length cs) =
        subst (λ o. Leaves (suc (length cs)) o) e (item-Leaves (c ∷ cs)) in
      ap (λ o. (next_round (λ l. many0 f l) (c ∷ cs) o).1) e ∙ many0-Finishes f l (omega arith)
]
