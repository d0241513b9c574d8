-- ===== src/Redis/Frame.antt =====
-- frame.rs: the frames of the Redis protocol, `Frame::check` and `Frame::parse`.
-- A `Cursor<&[u8]>` is the list of the bytes after its position.
pub mod Fuel
pub mod Stream
pub mod Suffices
use reverse_rewrite.Common.{
  ℕ, zero, suc, ◌+◌, ◌%◌, ◌^◌, Bool, true, false, ◌&&◌, Option, none, some, [], ◌∷◌, ltb, ◌==◌,
  if◌then◌else◌, length, take, drop,
}
use reverse_rewrite.Common.Text.{Bytes, codes, bytes_eq, is_utf8}
use reverse_rewrite.Common.Outcome.{Outcome, ok, err, panic, out_of_fuel, ◌>>=◌}
use mathlib.Core.Option
use mathlib.Core.List.{tail}

-- `Frames` is the `Vec<Frame>` of an array. A `String` is its UTF-8 bytes.
mutual
  pub data Frame : Type 0 where
    simple : Bytes → Frame
    error : Bytes → Frame
    integer : ℕ → Frame
    bulk : Bytes → Frame
    null : Frame
    array : Frames → Frame

  pub data Frames : Type 0 where
    nil : Frames
    cons : Frame → Frames → Frames

-- The texts of `Error::Other`; the source formats the byte into the first.
pub data Message : Type 0 where
  invalid_type_byte : ℕ → Message
  invalid_format : Message

pub data Error : Type 0 where
  incomplete : Error
  other : Message → Error

abbrev pub FrameResult : Type 0 → Type 0
FrameResult A = Outcome Error A

-- A function that takes `src: &mut Cursor<&[u8]>`: it returns its value and the bytes left.
abbrev pub Reader : Type 0 → Type 0
Reader A = Bytes → FrameResult (A × Bytes)

abbrev pub usize_mod : ℕ
usize_mod = 2 ^ 64

unfoldable pub append_frame : Frames → Frame → Frames
append_frame nil x = cons x nil
append_frame (cons y ys) x = cons y (append_frame ys x)

-- `Frame::array`
unfoldable pub empty_array : Frame
empty_array = array nil

-- `none` is the panic "not an array frame".
unfoldable pub push_bulk : Frame → Bytes → Option Frame
push_bulk (array xs) b = some (array (append_frame xs (bulk b)))
push_bulk _ b = none

unfoldable pub push_int : Frame → ℕ → Option Frame
push_int (array xs) n = some (array (append_frame xs (integer n)))
push_int _ n = none

unfoldable pub peek_u8 : Reader ℕ
peek_u8 [] = err incomplete
peek_u8 (b ∷ r) = ok (b, b ∷ r)

unfoldable pub get_u8 : Reader ℕ
get_u8 [] = err incomplete
get_u8 (b ∷ r) = ok (b, r)

unfoldable pub skip : ℕ → Reader (Unit {0})
skip n src = if ltb (length src) n then err incomplete else ok (tt, drop n src)

abbrev pub starts_lf : Bytes → Bool
starts_lf [] = false
starts_lf (b ∷ r) = b == 10

-- The scan of `get_line` for the first "\r\n": the line before it, and what follows it.
unfoldable pub find_line : Bytes → Option (Bytes × Bytes)
find_line [] = none
find_line (a ∷ r) =
    if a == 13 && starts_lf r
    then some ([], tail r)
    else Option.map (λ found. (a ∷ found.0, found.1)) (find_line r)

abbrev pub or_incomplete : Option (Bytes × Bytes) → FrameResult (Bytes × Bytes)
or_incomplete none = err incomplete
or_incomplete (some found) = ok found

unfoldable pub get_line : Reader Bytes
get_line src = or_incomplete (find_line src)

-- `String::from_utf8(line)?`
unfoldable pub utf8_line : Bytes → FrameResult Bytes
utf8_line line = if is_utf8 line then ok line else err (other invalid_format)

-- The bytes of a bulk string: `&src.chunk()[..len]` panics beyond the end.
unfoldable pub parse_bulk : ℕ → Reader Frame
parse_bulk len src =
    let n = (len + 2) % usize_mod in
    if ltb (length src) n
    then err incomplete
    else if ltb (length src) len
    then panic
    else (skip n src >>= λ (_, r). ok (bulk (take len src), r))

-- `atoi::<u64>` of the crate `atoi`
module _ (atoi : Bytes → Option ℕ) where
  abbrev pub or_invalid : Option ℕ → Bytes → FrameResult (ℕ × Bytes)
  or_invalid none r = err (other invalid_format)
  or_invalid (some n) r = ok (n, r)

  unfoldable pub get_decimal : Reader ℕ
  get_decimal src = get_line src >>= λ (line, r). or_invalid (atoi line) r

  -- The arms of `check` but that of arrays. `len + 2` wraps as in a release build.
  unfoldable pub check_scalar : ℕ → Reader (Unit {0})
  check_scalar b src =
      if b == b'+'
      then (get_line src >>= λ (_, r). ok (tt, r))
      else if b == b'-'
      then (get_line src >>= λ (_, r). ok (tt, r))
      else if b == b':'
      then (get_decimal src >>= λ (_, r). ok (tt, r))
      else if b == b'$'
      then (peek_u8 src >>= λ (p, s).
          if p == b'-'
          then skip 4 s
          else (get_decimal s >>= λ (len, r). skip ((len + 2) % usize_mod) r))
      else err (other (invalid_type_byte b))

  unfoldable mutual
    pub check : ℕ → Reader (Unit {0})
    check zero src = out_of_fuel
    check (suc f) src = get_u8 src >>= λ (b, r). elim (b == b'*') [
      | true ↦ get_decimal r >>= λ (len, rest). check_items f len rest
      | false ↦ check_scalar b r
    ]

    -- `for _ in 0..len { Frame::check(src)?; }`
    pub check_items : ℕ → ℕ → Reader (Unit {0})
    check_items zero n src = out_of_fuel
    check_items (suc f) zero src = ok (tt, src)
    check_items (suc f) (suc n) src = check f src >>= λ (_, r). check_items f n r

  -- The arms of `parse` but that of arrays; `unimplemented!()` is a panic.
  unfoldable pub parse_scalar : ℕ → Reader Frame
  unfolding parse_bulk
  parse_scalar b src =
      if b == b'+'
      then (get_line src >>= λ (line, r). utf8_line line >>= λ s. ok (simple s, r))
      else if b == b'-'
      then (get_line src >>= λ (line, r). utf8_line line >>= λ s. ok (error s, r))
      else if b == b':'
      then (get_decimal src >>= λ (n, r). ok (integer n, r))
      else if b == b'$'
      then (peek_u8 src >>= λ (p, s).
          if p == b'-'
          then (get_line s >>= λ (line, r).
              if bytes_eq line (codes "-1") then ok (null, r) else err (other invalid_format))
          else (get_decimal s >>= λ (len, r). parse_bulk len r))
      else panic

  unfoldable mutual
    pub parse : ℕ → Reader Frame
    parse zero src = out_of_fuel
    parse (suc f) src = get_u8 src >>= λ (b, r). elim (b == b'*') [
      | true ↦ get_decimal r >>= λ (len, rest).
          parse_items f len rest >>= λ (xs, rest'). ok (array xs, rest')
      | false ↦ parse_scalar b r
    ]

    -- `for _ in 0..len { out.push(Frame::parse(src)?); }`
    pub parse_items : ℕ → ℕ → Reader Frames
    parse_items zero n src = out_of_fuel
    parse_items (suc f) zero src = ok (nil, src)
    parse_items (suc f) (suc n) src =
        parse f src >>= λ (x, r). parse_items f n r >>= λ (xs, rest). ok (cons x xs, rest)
