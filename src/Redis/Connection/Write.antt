-- ===== src/Redis/Connection/Write.antt =====
-- connection.rs: what `write_frame` writes, `Frame::check` and `Frame::parse` read back.
use reverse_rewrite.Common.{
  ℕ, zero, suc, ◌+◌, ◌≤◌, ◌<◌, ◌≡◌, refl, true, false, Option, none, some, [], ◌∷◌, ◌++◌, arith,
  length, append_assoc, All, length-append, take-length, drop-length, ◌==◌,
}
use reverse_rewrite.Common.Text.{Bytes, is_utf8, decimal}
use reverse_rewrite.Common.Decimal.{IsDigit, decimal-IsDigit, decimal_head}
use reverse_rewrite.Common.Outcome.{ok, >>=-eq-ok}
use reverse_rewrite.Redis.Frame.{
  Frame, Frames, simple, error, integer, bulk, null, array, nil, cons, check, check_items,
  check_scalar, parse, parse_items, parse_scalar, parse_bulk, get_u8, peek_u8, skip, utf8_line,
  find_line, get_line, get_decimal, usize_mod,
}
use reverse_rewrite.Redis.Frame.Stream.{find_line-cons}
use reverse_rewrite.Redis.Connection.{crlf, frames_length, write_decimal, write_value, write_values}

-- a text without "\r\n" is the line that its writer ended
find_line-crlf :
    (s rest : Bytes) → find_line s ≡ none → find_line (s ++ (13 ∷ 10 ∷ rest)) ≡ some (s, rest)
find_line-crlf [] rest h = unfold find_line in refl
find_line-crlf (a ∷ []) rest h = unfold find_line in ground arith
find_line-crlf (a ∷ b ∷ s) rest h = ground (
  arith,
  find_line-cons a (b ∷ s),
  find_line-cons a (b ∷ s ++ (13 ∷ 10 ∷ rest)),
  find_line-crlf (b ∷ s) rest,
)

digits_one_line : (s : Bytes) → All IsDigit s → find_line s ≡ none
unfolding find_line
digits_one_line [] h = refl
digits_one_line (a ∷ s) (d, h) = ground (arith, digits_one_line s h)

-- `atoi` reads back what `{}` prints.
abbrev pub ReadsDecimals : (Bytes → Option ℕ) → Type 0
ReadsDecimals atoi = (n : ℕ) → n < usize_mod → atoi (decimal n) ≡ some n

get_line-crlf :
    (s rest : Bytes) → find_line s ≡ none → get_line ((s ++ crlf) ++ rest) ≡ ok (s, rest)
unfolding get_line
get_line-crlf s rest h = rw (append_assoc, find_line-crlf s rest h) refl

utf8_line-ok : (s : Bytes) → is_utf8 s ≡ true → utf8_line s ≡ ok s
unfolding utf8_line
utf8_line-ok s h = rw h refl

-- A literal that can be written so that it can be read: no "\r\n" within a text.
abbrev pub IsWritable : Frame → Type 0
IsWritable (simple s) = (find_line s ≡ none) × (is_utf8 s ≡ true)
IsWritable (error s) = (find_line s ≡ none) × (is_utf8 s ≡ true)
IsWritable (integer n) = n < usize_mod
IsWritable (bulk b) = length b + 2 < usize_mod
IsWritable null = Unit
IsWritable (array xs) = ⊥

abbrev pub AllWritable : Frames → Type 0
AllWritable nil = Unit
AllWritable (cons x xs) = IsWritable x × AllWritable xs

abbrev pub IsWritableFrame : Frame → Type 0
IsWritableFrame (array xs) = (frames_length xs < usize_mod) × AllWritable xs
IsWritableFrame (simple s) = IsWritable (simple s)
IsWritableFrame (error s) = IsWritable (error s)
IsWritableFrame (integer n) = IsWritable (integer n)
IsWritableFrame (bulk b) = IsWritable (bulk b)
IsWritableFrame null = Unit

write_values-cons :
    (x : Frame) (xs : Frames) (ws : Bytes)
    → write_values (cons x xs) ≡ ok ws
    → (w ws' : Bytes) × (write_value x ≡ ok w) × (write_values xs ≡ ok ws') × (ws ≡ w ++ ws')
unfolding write_values
write_values-cons x xs ws e =
    let (w, p, e') = >>=-eq-ok (write_value x) _ e in
    let (ws', q, e'') = >>=-eq-ok (write_values xs) _ e' in (w, ws', p, q, cc)

-- `write_values` takes at least a byte for each entry
write_value_pos : (x : Frame) (w : Bytes) → write_value x ≡ ok w → 0 < length w
unfolding write_value
write_value_pos null w e = ground arith
write_value_pos (array xs) w e = cc
write_value_pos _ w e = ground arith

pub frames_length-le :
    (xs : Frames) (ws : Bytes) → write_values xs ≡ ok ws → frames_length xs ≤ length ws
frames_length-le nil ws e = omega arith
frames_length-le (cons x xs) ws e =
    let (w, ws', p, q, r) = write_values-cons x xs ws e in
    rw r (omega (arith, length-append w ws', write_value_pos x w p, frames_length-le xs ws' q))

module _ (atoi : Bytes → Option ℕ) where
  items_step :
      (f n : ℕ) (src : Bytes) (x : Frame) (xs : Frames) (r rest : Bytes)
      → (check atoi f src ≡ ok (tt, r)) × (parse atoi f src ≡ ok (x, r))
      → (check_items atoi f n r ≡ ok (tt, rest)) × (parse_items atoi f n r ≡ ok (xs, rest))
      → (check_items atoi (suc f) (suc n) src ≡ ok (tt, rest))
        × (parse_items atoi (suc f) (suc n) src ≡ ok (cons x xs, rest))
  unfolding check parse
  items_step f n src x xs r rest (c, p) (cs, ps) = (rw c cs, rw (p, ps) refl)

module _ (atoi : Bytes → Option ℕ) (reads : ReadsDecimals atoi) where
  get_decimal-write_decimal :
      (n : ℕ) (rest : Bytes)
      → n < usize_mod
      → get_decimal atoi (write_decimal n ++ rest) ≡ ok (n, rest)
  unfolding get_decimal write_decimal
  get_decimal-write_decimal n rest h =
      rw (get_line-crlf (decimal n) rest (digits_one_line _ (decimal-IsDigit n)), reads n h) refl

  -- the length of a bulk string never looks like the sign of "$-1"
  peek_u8-write_decimal :
      (n : ℕ) (rest : Bytes)
      → (d : ℕ) × (peek_u8 (write_decimal n ++ rest) ≡ ok (d, write_decimal n ++ rest))
        × ((d == b'-') ≡ false)
  unfolding peek_u8 write_decimal
  peek_u8-write_decimal n rest =
      let (d, s, e) = decimal_head n in
      let digits = rw e at (decimal-IsDigit n) in (d, rw e refl, ground arith)

  length-crlf : (b : Bytes) → length (b ++ crlf) ≡ length b + 2
  length-crlf b = omega (arith, length-append b crlf)

  skip-bulk : (b rest : Bytes) → skip (length b + 2) ((b ++ crlf) ++ rest) ≡ ok (tt, rest)
  unfolding skip
  skip-bulk b rest =
      rw (← length-crlf b)
        (ground (arith, drop-length (b ++ crlf) rest, length-append (b ++ crlf) rest))

  parse_bulk-bulk :
      (b rest : Bytes)
      → length b + 2 < usize_mod
      → parse_bulk (length b) ((b ++ crlf) ++ rest) ≡ ok (bulk b, rest)
  unfolding parse_bulk
  parse_bulk-bulk b rest h = ground (
    arith,
    skip-bulk b rest,
    append_assoc b crlf rest,
    take-length b (crlf ++ rest),
    length-append (b ++ crlf) rest,
    length-append b crlf,
  )

  -- one literal, behind its type byte
  abbrev pub ReadsBack : Frame → Bytes → Type 0
  ReadsBack x w =
      (f : ℕ) (rest : Bytes)
      → (check atoi (suc f) (w ++ rest) ≡ ok (tt, rest))
        × (parse atoi (suc f) (w ++ rest) ≡ ok (x, rest))

  pub write_value-ReadsBack :
      (x : Frame) (w : Bytes) → IsWritable x → write_value x ≡ ok w → ReadsBack x w
  unfolding write_value check parse check_scalar parse_scalar get_u8
  write_value-ReadsBack (simple s) w (h, u) e f rest = (
    ground (arith, get_line-crlf s rest h),
    ground (arith, get_line-crlf s rest h, utf8_line-ok s u),
  )
  write_value-ReadsBack (error s) w (h, u) e f rest = (
    ground (arith, get_line-crlf s rest h),
    ground (arith, get_line-crlf s rest h, utf8_line-ok s u),
  )
  write_value-ReadsBack (integer n) w h e f rest = (
    ground (arith, get_decimal-write_decimal n rest h),
    ground (arith, get_decimal-write_decimal n rest h),
  )
  write_value-ReadsBack (bulk b) w h e f rest =
      let tail_bytes : Bytes = (b ++ crlf) ++ rest in
      let (d, p, q) = peek_u8-write_decimal (length b) tail_bytes in
      let whole = append_assoc (write_decimal (length b)) (b ++ crlf) rest in
      let n = get_decimal-write_decimal (length b) tail_bytes (omega arith) in
      (
        ground (arith, p, q, whole, n, skip-bulk b rest),
        ground (arith, p, q, whole, n, parse_bulk-bulk b rest h),
      )
  write_value-ReadsBack null w h e f rest =
      unfold peek_u8 skip get_line find_line in (ground arith, ground arith)
  write_value-ReadsBack (array xs) w h e f rest = absurd h

  write_values-ReadsBack :
      (xs : Frames) (ws : Bytes) (f : ℕ) (rest : Bytes)
      → AllWritable xs
      → write_values xs ≡ ok ws
      → frames_length xs < f
      → (check_items atoi f (frames_length xs) (ws ++ rest) ≡ ok (tt, rest))
        × (parse_items atoi f (frames_length xs) (ws ++ rest) ≡ ok (xs, rest))
  write_values-ReadsBack nil ws zero rest h e enough = absurd (omega arith)
  write_values-ReadsBack nil ws (suc f) rest h e enough =
      unfold check parse write_values in (ground arith, ground arith)
  write_values-ReadsBack (cons x xs) ws zero rest (h, hs) e enough = absurd (omega arith)
  write_values-ReadsBack (cons x xs) ws (suc zero) rest (h, hs) e enough = absurd (omega arith)
  write_values-ReadsBack (cons x xs) ws (suc (suc f)) rest (h, hs) e enough =
      let (w, ws', p, q, r) = write_values-cons x xs ws e in
      rw (r, append_assoc)
        (items_step atoi (suc f) (frames_length xs) _ x xs (ws' ++ rest) rest
          (write_value-ReadsBack x w h p f (ws' ++ rest))
          (write_values-ReadsBack xs ws' (suc f) rest hs q (omega arith)))

  pub array-ReadsBack :
      (xs : Frames) (ws : Bytes) (f : ℕ) (rest : Bytes)
      → frames_length xs < usize_mod
      → AllWritable xs
      → write_values xs ≡ ok ws
      → frames_length xs < f
      → let w = b'*' ∷ (write_decimal (frames_length xs) ++ ws) in
        (check atoi (suc f) (w ++ rest) ≡ ok (tt, rest))
        × (parse atoi (suc f) (w ++ rest) ≡ ok (array xs, rest))
  unfolding check parse get_u8
  array-ReadsBack xs ws f rest few hs e enough =
      let (c, p) = write_values-ReadsBack xs ws f rest hs e enough in
      let n = get_decimal-write_decimal (frames_length xs) (ws ++ rest) few in
      (rw (append_assoc, n) c, rw (append_assoc, n, p) refl)
