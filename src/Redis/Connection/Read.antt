-- ===== src/Redis/Connection/Read.antt =====
-- connection.rs: `read_frame` on a stream that arrives in pieces.
use reverse_rewrite.Common.{
  if◌then◌else◌, ◌==◌, ℕ, ◌+◌, ◌-◌, ◌≤◌, ◌<◌, ◌≡◌, ◌≢◌, refl, ◌∙◌, sym, ◌⊎◌, inl, inr, Option, none,
  some, List, [], ◌∷◌, ◌++◌, arith, length, drop, append-nil, append_assoc, All, drop-append,
  length-append,
}
use reverse_rewrite.Common.Text.{Bytes}
use reverse_rewrite.Common.Outcome.{
  ok, err, panic, out_of_fuel, ◌>>=◌, map_err, >>=-ne-out_of_fuel, map_err-ne-out_of_fuel,
}
use reverse_rewrite.Redis.Frame.{FrameResult, other, incomplete, Frame, parse}
use reverse_rewrite.Redis.Frame.Stream.{Extends, value, failed, waits, spent, check-append}
use reverse_rewrite.Redis.Frame.Fuel.{Leaves, Leaves-ne-out_of_fuel, check_total, parse_total}
use reverse_rewrite.Redis.Frame.Suffices.{Suffices, isize_mod, check-Suffices}
use reverse_rewrite.Redis.Connection.{
  Connection, ReadResult, frame, frame_fuel, parse_checked, parse_frame, end_of_stream, read_loop,
  read_frame, reset_by_peer,
}

-- the bytes that a list of chunks delivers
abbrev pub delivered : List Bytes → Bytes
delivered [] = []
delivered (chunk ∷ later) = chunk ++ delivered later

-- what `parse_checked` does with the parse after a check that passed
abbrev advanced : Bytes → Bytes → FrameResult (Frame × Bytes) → ReadResult (Option Frame × Bytes)
advanced buffer r p =
    map_err frame p >>= λ (x, _). ok (some x, drop (length buffer - length r) buffer)

advanced-Suffices :
    (buffer more r : Bytes) (p p' : FrameResult (Frame × Bytes)) (x : Frame) (rest : Bytes)
    → Suffices more (ok (tt, r)) p p'
    → length r < length buffer
    → advanced (buffer ++ more) (r ++ more) p' ≡ ok (some x, rest)
    → (left : Bytes) × (advanced buffer r p ≡ ok (some x, left)) × (rest ≡ left ++ more)
advanced-Suffices buffer more r p (ok (y, r')) x rest s l h =
    let (e, _) = s.at r y r' refl refl in
    (
      drop (length buffer - length r) buffer,
      ground (arith, e),
      ground (
        arith,
        length-append buffer more,
        length-append r more,
        drop-append (length buffer - length r) buffer more,
      ),
    )
advanced-Suffices buffer more r p (err e) x rest s l h = cc
advanced-Suffices buffer more r p panic x rest s l h = cc
advanced-Suffices buffer more r p out_of_fuel x rest s l h = cc

module _ (atoi : Bytes → Option ℕ) where
  parse_checked-whole :
      (buffer more : Bytes) (c c' : FrameResult (Unit {0} × Bytes)) (x : Frame) (rest : Bytes)
      → Extends more c c'
      → Leaves (length buffer) c
      → Suffices more c
          (parse atoi (frame_fuel buffer) buffer)
          (parse atoi (frame_fuel (buffer ++ more)) (buffer ++ more))
      → parse_checked atoi (buffer ++ more) c' ≡ ok (some x, rest)
      → (parse_checked atoi buffer c ≡ ok (none, buffer))
        ⊎ ((left : Bytes) × (parse_checked atoi buffer c ≡ ok (some x, left))
            × (rest ≡ left ++ more))
  unfolding parse_checked
  parse_checked-whole buffer more (ok (_, r)) c' x rest (value e) (Leaves.value l) s h =
      inr (advanced-Suffices buffer more r _ _ x rest s l (rw e at h))
  parse_checked-whole buffer more (err incomplete) c' x rest waits l s h = inl refl
  parse_checked-whole buffer more (err (other m)) c' x rest (failed e) l s h = cc
  parse_checked-whole buffer more panic c' x rest e l s h = elim e [ ]
  parse_checked-whole buffer more out_of_fuel c' x rest spent l s h = elim l [ ]

  -- If a frame can be read from the bytes with `more` behind them, then the bytes alone give that
  -- frame, or wait.
  pub parse_frame-prefix :
      (buffer more : Bytes) (x : Frame) (rest : Bytes)
      → length buffer + length more < isize_mod
      → parse_frame atoi (buffer ++ more) ≡ ok (some x, rest)
      → (parse_frame atoi buffer ≡ ok (none, buffer))
        ⊎ ((left : Bytes) × (parse_frame atoi buffer ≡ ok (some x, left)) × (rest ≡ left ++ more))
  unfolding parse_frame
  parse_frame-prefix buffer more x rest fits h =
      parse_checked-whole buffer more _ _ x rest
        (check-append atoi (frame_fuel buffer) (frame_fuel (buffer ++ more)) buffer more longer)
        (check_total atoi (frame_fuel buffer) buffer (omega arith))
        (check-Suffices atoi (frame_fuel buffer) (frame_fuel (buffer ++ more)) buffer more
          (omega arith) longer fits)
        h
    where
      longer : frame_fuel buffer ≤ frame_fuel (buffer ++ more)
      longer = omega (arith, length-append buffer more)

  pub read_loop-delivered :
      (chunks : List Bytes) (buffer : Bytes) (x : Frame) (rest : Bytes)
      → All (λ chunk. 0 < length chunk) chunks
      → length buffer + length (delivered chunks) < isize_mod
      → parse_frame atoi (buffer ++ delivered chunks) ≡ ok (some x, rest)
      → (c : Connection) × (read_loop atoi buffer chunks ≡ ok (some x, c))
        × (c.buffer ++ delivered c.incoming ≡ rest)
  unfolding read_loop
  read_loop-delivered [] buffer x rest full fits h =
      let whole = rw append-nil at h in
      (record { buffer = rest; incoming = [] }, rw whole refl, append-nil rest)
  read_loop-delivered ([] ∷ later) buffer x rest (some_byte, full) fits h = absurd (omega arith)
  read_loop-delivered ((b ∷ r) ∷ later) buffer x rest (some_byte, full) fits h =
      elim (parse_frame-prefix buffer ((b ∷ r) ++ delivered later) x rest
        (omega (arith, length-append r (delivered later))) h) [
          | inr (left, e, e') ↦
              (record { buffer = left; incoming = (b ∷ r) ∷ later }, rw e refl, sym e')
          | inl waiting ↦
              let (c, e, e') =
                read_loop-delivered later (buffer ++ (b ∷ r)) x rest full
                  (omega (arith, length-append r (delivered later), length-append buffer (b ∷ r)))
                  (rw append_assoc h) in
              (c, rw waiting e, e')
        ]

  -- A frame that the delivered bytes begin with is what `read_frame` returns, however the bytes are
  -- cut into nonempty chunks, of fewer than 2^63 bytes together, and the bytes behind the frame are
  -- kept for the next call.
  pub read_frame-delivered :
      (c : Connection) (x : Frame) (rest : Bytes)
      → All (λ chunk. 0 < length chunk) c.incoming
      → length c.buffer + length (delivered c.incoming) < isize_mod
      → parse_frame atoi (c.buffer ++ delivered c.incoming) ≡ ok (some x, rest)
      → (c' : Connection) × (read_frame atoi c ≡ ok (some x, c'))
        × (c'.buffer ++ delivered c'.incoming ≡ rest)
  unfolding read_frame
  read_frame-delivered c = read_loop-delivered c.incoming c.buffer

  parse_checked_total :
      (buffer : Bytes) (c : FrameResult (Unit {0} × Bytes))
      → c ≢ out_of_fuel
      → parse_checked atoi buffer c ≢ out_of_fuel
  unfolding parse_checked
  parse_checked_total buffer (ok (_, r)) h =
      let fine =
        Leaves-ne-out_of_fuel (parse_total atoi (frame_fuel buffer) buffer (omega arith)) in
      >>=-ne-out_of_fuel _ _ (map_err-ne-out_of_fuel frame _ fine) (λ a. cc)
  parse_checked_total buffer (err incomplete) h = cc
  parse_checked_total buffer (err (other m)) h = cc
  parse_checked_total buffer panic h = cc
  parse_checked_total buffer out_of_fuel h = absurd (h refl)

  parse_frame_total : (buffer : Bytes) → parse_frame atoi buffer ≢ out_of_fuel
  unfolding parse_frame
  parse_frame_total buffer =
      parse_checked_total buffer _
        (Leaves-ne-out_of_fuel (check_total atoi (frame_fuel buffer) buffer (omega arith)))

  end_of_stream_total : (left : Bytes) → end_of_stream left ≢ out_of_fuel
  unfolding end_of_stream
  end_of_stream_total [] = cc
  end_of_stream_total (b ∷ r) = cc

  found_total :
      (found : Option Frame) (c : Connection) (more : ReadResult (Option Frame × Connection))
      → more ≢ out_of_fuel
      → elim found [ some x ↦ ok (some x, c) | none ↦ more ] ≢ out_of_fuel
  found_total none c more h = h
  found_total (some x) c more h = cc

  read_loop_total :
      (chunks : List Bytes) (buffer : Bytes) → read_loop atoi buffer chunks ≢ out_of_fuel
  unfolding read_loop
  read_loop_total [] buffer =
      >>=-ne-out_of_fuel _ _ (parse_frame_total buffer)
        (λ (found, left). found_total found _ _ (end_of_stream_total left))
  read_loop_total ([] ∷ later) buffer =
      >>=-ne-out_of_fuel _ _ (parse_frame_total buffer)
        (λ (found, left). found_total found _ _ (end_of_stream_total left))
  read_loop_total ((b ∷ r) ∷ later) buffer =
      >>=-ne-out_of_fuel _ _ (parse_frame_total buffer)
        (λ (found, left). found_total found _ _ (read_loop_total later (left ++ (b ∷ r))))

  advanced-ne-none :
      (buffer r left : Bytes) (p : FrameResult (Frame × Bytes))
      → advanced buffer r p ≢ ok (none, left)
  advanced-ne-none buffer r left (ok a) = cc
  advanced-ne-none buffer r left (err e) = cc
  advanced-ne-none buffer r left panic = cc
  advanced-ne-none buffer r left out_of_fuel = cc

  parse_checked-waits :
      (buffer more left : Bytes) (c c' : FrameResult (Unit {0} × Bytes))
      → Extends more c c'
      → c ≢ out_of_fuel
      → parse_checked atoi (buffer ++ more) c' ≡ ok (none, left)
      → parse_checked atoi buffer c ≡ ok (none, buffer)
  unfolding parse_checked
  parse_checked-waits buffer more left (ok (_, r)) c' (value e) s h =
      absurd (advanced-ne-none (buffer ++ more) (r ++ more) left _ (rw e at h))
  parse_checked-waits buffer more left (err incomplete) c' waits s h = refl
  parse_checked-waits buffer more left (err (other m)) c' (failed e) s h = cc
  parse_checked-waits buffer more left panic c' e s h = elim e [ ]
  parse_checked-waits buffer more left out_of_fuel c' spent s h = absurd (s refl)

  parse_frame-waits :
      (buffer more left : Bytes)
      → parse_frame atoi (buffer ++ more) ≡ ok (none, left)
      → parse_frame atoi buffer ≡ ok (none, buffer)
  unfolding parse_frame
  parse_frame-waits buffer more left h =
      parse_checked-waits buffer more left _ _
        (check-append atoi (frame_fuel buffer) (frame_fuel (buffer ++ more)) buffer more
          (omega (arith, length-append buffer more)))
        (Leaves-ne-out_of_fuel (check_total atoi (frame_fuel buffer) buffer (omega arith))) h

  end_of_stream_lem :
      (left : Bytes)
      → end_of_stream left ≡ (
          if length left == 0
          then ok (none, record { buffer = []; incoming = [] })
          else err reset_by_peer)
  unfolding end_of_stream
  end_of_stream_lem [] = refl
  end_of_stream_lem (b ∷ r) = ground arith

  read_loop-end :
      (chunks : List Bytes) (buffer : Bytes)
      → All (λ chunk. 0 < length chunk) chunks
      → parse_frame atoi (buffer ++ delivered chunks) ≡ ok (none, buffer ++ delivered chunks)
      → read_loop atoi buffer chunks ≡ end_of_stream (buffer ++ delivered chunks)
  unfolding read_loop
  read_loop-end [] buffer full h = let h' = rw append-nil at h in rw (append-nil, h')
  read_loop-end ([] ∷ later) buffer (some_byte, full) h = absurd (omega arith)
  read_loop-end ((b ∷ r) ∷ later) buffer (some_byte, full) h =
      rw (parse_frame-waits buffer _ _ h)
        (read_loop-end later (buffer ++ (b ∷ r)) full (rw append_assoc h) ∙ rw append_assoc)

  -- When bytes that are delivered in nonempty chunks hold no complete frame, `read_frame` reads them
  -- all: it returns no frame, on an empty connection, if there were no bytes, and the error that the
  -- connection was reset by the peer if there were some.
  pub read_frame-end :
      (c : Connection)
      → All (λ chunk. 0 < length chunk) c.incoming
      → parse_frame atoi (c.buffer ++ delivered c.incoming)
        ≡ ok (none, c.buffer ++ delivered c.incoming)
      → read_frame atoi c ≡ (
          if length (c.buffer ++ delivered c.incoming) == 0
          then ok (none, record { buffer = []; incoming = [] })
          else err reset_by_peer)
  unfolding read_frame
  read_frame-end c full h =
      read_loop-end c.incoming c.buffer full h
      ∙ end_of_stream_lem (c.buffer ++ delivered c.incoming)

  -- The fuel of the model is always enough: `read_frame` comes to a value, an error or a panic.
  pub read_frame_total : (c : Connection) → read_frame atoi c ≢ out_of_fuel
  unfolding read_frame
  read_frame_total c = read_loop_total c.incoming c.buffer
