-- ===== src/Redis/Parse.antt =====
-- parse.rs: the cursor over the entries of an array frame. A `Parse` is the entries not yet read.
use reverse_rewrite.Common.{ℕ, Option, none, some, if◌then◌else◌}
use reverse_rewrite.Common.Text.{Bytes, is_utf8}
use reverse_rewrite.Common.Outcome.{Outcome, ok, err, ◌>>=◌}
use reverse_rewrite.Redis.Frame.{Frame, Frames, simple, integer, bulk, array, nil, cons}

-- The texts of `ParseError::Other`; the source prints the frame into the first three.
pub data ParseMessage : Type 0 where
  expected_array expected_string expected_int : Frame → ParseMessage
  invalid_string invalid_number expected_end : ParseMessage

pub data ParseError : Type 0 where
  end_of_stream : ParseError
  other : ParseMessage → ParseError

abbrev pub ParseResult : Type 0 → Type 0
ParseResult A = Outcome ParseError A

-- A method on `&mut Parse`: its value, and the entries left.
abbrev pub Parser : Type 0 → Type 0
Parser A = Frames → ParseResult (A × Frames)

-- `Parse::new`
unfoldable pub entries : Frame → ParseResult Frames
entries (array xs) = ok xs
entries x = err (other (expected_array x))

unfoldable pub next : Parser Frame
next nil = err end_of_stream
next (cons x xs) = ok (x, xs)

-- the arms of `next_string`
unfoldable pub string_of : Frame → ParseResult Bytes
string_of (simple s) = ok s
string_of (bulk b) = if is_utf8 b then ok b else err (other invalid_string)
string_of x = err (other (expected_string x))

unfoldable pub next_string : Parser Bytes
unfolding next string_of
next_string xs = next xs >>= λ (x, rest). string_of x >>= λ s. ok (s, rest)

unfoldable pub bytes_of : Frame → ParseResult Bytes
bytes_of (simple s) = ok s
bytes_of (bulk b) = ok b
bytes_of x = err (other (expected_string x))

unfoldable pub next_bytes : Parser Bytes
unfolding next bytes_of
next_bytes xs = next xs >>= λ (x, rest). bytes_of x >>= λ s. ok (s, rest)

abbrev pub or_invalid_number : Option ℕ → ParseResult ℕ
or_invalid_number none = err (other invalid_number)
or_invalid_number (some n) = ok n

module _ (atoi : Bytes → Option ℕ) where
  unfoldable pub int_of : Frame → ParseResult ℕ
  int_of (integer n) = ok n
  int_of (simple s) = or_invalid_number (atoi s)
  int_of (bulk b) = or_invalid_number (atoi b)
  int_of x = err (other (expected_int x))

  unfoldable pub next_int : Parser ℕ
  unfolding next int_of
  next_int xs = next xs >>= λ (x, rest). int_of x >>= λ n. ok (n, rest)

unfoldable pub finish : Frames → ParseResult (Unit {0})
finish nil = ok tt
finish (cons x xs) = err (other expected_end)
