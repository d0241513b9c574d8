-- ===== src/Hexyl/Dump/Reads.antt =====
-- lib.rs: what is printed depends on the bytes of the input alone, not on how the reads deliver them.
use reverse_rewrite.Common.{
  ℕ, zero, suc, ◌-◌, ◌*◌, ◌≤◌, ◌<◌, ◌≡◌, ◌≢◌, refl, ap, ◌∙◌, inl, inr, Bool, true, false, Option,
  none, some, List, [], ◌∷◌, ◌++◌, arith, ltb, ◌||◌, if◌then◌else◌, Bool-cases, lt→ltb, le→ltb,
  ltb→le, length, take, drop, length-append, length-take, length-drop, take-append, drop-append,
}
use reverse_rewrite.Common.Text.{Bytes}
use reverse_rewrite.Hexyl.Line.{is_print, is_delete}
use reverse_rewrite.Hexyl.Printer.{
  Squeezer, delete, BorderElements, border_text, header_elems, write, Printer, border,
}
use reverse_rewrite.Hexyl.Dump.{
  Arrival, arrived, failed, Round, stops, goes_on, filled, at_end, header_if, take_line, read_line,
  print_loop, check_squeeze, print_line, finish_line, checked_line,
}
use reverse_rewrite.Hexyl.Dump.Fill.{gathered, NoFailure, with_line, Fills, fill-Fills}
use reverse_rewrite.Hexyl.Dump.Keeps.{Keeps-print_line}

-- The printer that the rest of the line is printed with.
abbrev last_line : Bool → Printer → Bytes → Printer
last_line is_empty p bs = with_line bs (header_if is_empty p)

abbrev next_line : Bool → Printer → Bytes → Printer
next_line is_empty p bs = take_line (with_line (take (8 * p.panels) bs) (header_if is_empty p))

-- The same loop over the bytes of the input, cut into lines: what `print_all` is meant to do.
unfoldable pub dump_loop : ℕ → Bool → Printer → Bytes → Option (Bool × (Option ℕ × Printer))
dump_loop zero is_empty p bs = none
dump_loop (suc k) is_empty p [] =
    if is_delete p.squeezer
    then some (is_empty, (some 0, with_line [] p))
    else some (is_empty, (none, p))
dump_loop (suc k) is_empty p (b ∷ bs) =
    let rest = dump_loop k false (next_line is_empty p (b ∷ bs)) (drop (8 * p.panels) (b ∷ bs)) in
    if ltb (length (b ∷ bs)) (8 * p.panels)
    then some (false, (some (length (b ∷ bs)), last_line is_empty p (b ∷ bs)))
    else rest

-- What a round of the loop makes of the bytes that are left.
Reads : Bool → Printer → Bytes → Round → Type 0
Reads is_empty p [] r = r ≡ at_end is_empty p
Reads is_empty p (b ∷ bs) (stops still_empty leftover q) =
    (length (b ∷ bs) < 8 * p.panels)
    × (still_empty ≡ false)
    × (leftover ≡ some (length (b ∷ bs)))
    × (q ≡ last_line is_empty p (b ∷ bs))
Reads is_empty p (b ∷ bs) (goes_on q later) =
    (8 * p.panels ≤ length (b ∷ bs))
    × (q ≡ next_line is_empty p (b ∷ bs))
    × (gathered later ≡ drop (8 * p.panels) (b ∷ bs))
    × NoFailure later

filled-Reads :
    (is_empty : Bool) (p : Printer) (b : ℕ) (bs : Bytes) (r : Option ℕ × (Printer × List Arrival))
    → Fills 0 (header_if is_empty p) (b ∷ bs) r
    → Reads is_empty p (b ∷ bs) (filled r)
unfolding Fills Reads
filled-Reads is_empty p b bs (some m, (q, es)) (fits, count, line) =
    (omega (arith, fits), refl, ap some (omega (arith, count)), line)
filled-Reads is_empty p b bs (none, (q, es)) (full, line, left, safe) =
    let room : 8 * p.panels - 0 ≡ 8 * p.panels = omega arith in
    (omega (arith, full), ap take_line line ∙ rw room refl, left ∙ rw room refl, safe)

border_text-with_line :
    (o : Option BorderElements) (t : Bytes) (p : Printer)
    → border_text o (with_line t p) ≡ border_text o p
unfolding border
border_text-with_line none t p = refl
border_text-with_line (some e) t p = refl

header_if-with_line :
    (is_empty : Bool) (t : Bytes) (p : Printer)
    → header_if is_empty (with_line t p) ≡ with_line t (header_if is_empty p)
header_if-with_line false t p = refl
header_if-with_line true t p =
    ap (λ s. write s (with_line t p)) (border_text-with_line (header_elems p.border_style) t p)

read_line-Reads :
    (is_empty : Bool) (p : Printer) (es : List Arrival)
    → NoFailure es
    → length p.line_buf ≡ 8 * p.panels
    → 1 ≤ p.panels
    → Reads is_empty p (gathered es) (read_line is_empty p es)
unfolding Reads read_line
read_line-Reads is_empty p [] h e some_panels = refl
read_line-Reads is_empty p (failed ∷ es) h e some_panels = absurd h
read_line-Reads is_empty p (arrived [] ∷ es) h e some_panels =
    read_line-Reads is_empty p es h e some_panels
read_line-Reads is_empty p (arrived (b ∷ bs) ∷ es) h e some_panels =
    elim (Bool-cases (ltb (length (b ∷ bs)) (8 * p.panels))) [
      | inl short ↦ rw short (
          filled-Reads is_empty p b (bs ++ gathered es) _
            (fill-Fills 0 (header_if is_empty p) (arrived (b ∷ bs) ∷ es) h e (omega arith)))
      | inr long ↦
          let rest = gathered es in
          let room = ltb→le _ _ long in
          let line : take (length p.line_buf) (b ∷ bs) ≡ take (8 * p.panels) ((b ∷ bs) ++ rest) =
            rw (e, take-append (8 * p.panels) (b ∷ bs) rest room) refl in
          let left : drop (length p.line_buf) (b ∷ bs) ++ rest
              ≡ drop (8 * p.panels) ((b ∷ bs) ++ rest) =
            rw (e, drop-append (8 * p.panels) (b ∷ bs) rest room) refl in
          rw long (
            omega (arith, room, length-append bs rest),
            ap take_line (
                header_if-with_line is_empty _ p
                ∙ ap (λ t. with_line t (header_if is_empty p)) line),
            left,
            h,
          )
    ]

abbrev pub Sized : Printer → Printer → Type 0
Sized p q = (q.line_buf ≡ p.line_buf) × (q.panels ≡ p.panels)

Sized-if : (b : Bool) (p q r : Printer) → Sized p q → Sized p r → Sized p (if b then q else r)
Sized-if true p q r h k = h
Sized-if false p q r h k = k

finished-Sized : (p : Printer) → Sized p (finish_line (print_line p))
unfolding finish_line
finished-Sized p =
    let q = print_line p in
    let kept = Keeps-print_line p in
    Sized-if _ p _ _ (kept.line_buf, kept.panels) (kept.line_buf, kept.panels)

checked_line-Sized : (b : Bool) (s : Squeezer) (p : Printer) → Sized p (checked_line b s p).1
checked_line-Sized true delete p = (refl, refl)
checked_line-Sized true _ p = (refl, refl)
checked_line-Sized false _ p = (refl, refl)

pub check_squeeze-Sized : (p : Printer) → Sized p (check_squeeze p).1
unfolding check_squeeze
check_squeeze-Sized p = elim (Bool-cases (is_print p.squeezer || is_delete p.squeezer)) [
  | inl squeezed ↦ rw squeezed (checked_line-Sized _ p.squeezer p)
  | inr shown ↦ rw shown (refl, refl)
]

pub take_line-Sized : (p : Printer) → Sized p (take_line p)
unfolding take_line
take_line-Sized p =
    let (skipped, q) = check_squeeze p in
    let checked = check_squeeze-Sized p in
    let printed = finished-Sized q in
    Sized-if skipped p q _ checked (printed.0 ∙ checked.0, printed.1 ∙ checked.1)

-- A round of both loops, by what a round of the first makes of the bytes.
round_lem :
    (k : ℕ) (loop : Printer → List Arrival → Option (Bool × (Option ℕ × Printer))) (is_empty : Bool)
    (p : Printer) (bs : Bytes) (r : Round)
    → 1 ≤ p.panels
    → Reads is_empty p bs r
    → ((q : Printer) (later : List Arrival)
        → NoFailure later
        → length q.line_buf ≡ 8 * q.panels
        → 1 ≤ q.panels
        → loop q later ≡ dump_loop k false q (gathered later))
    → (elim r [
      | stops still_empty leftover q ↦ some (still_empty, (leftover, q))
      | goes_on q later ↦ loop q later
    ])
      ≡ dump_loop (suc k) is_empty p bs
unfolding Reads dump_loop
round_lem k loop is_empty p [] r some_panels h later = elim (Bool-cases (is_delete p.squeezer)) [
  | inl squeezed ↦ rw (h, squeezed) refl
  | inr shown ↦ rw (h, shown) refl
]
round_lem k loop is_empty p (b ∷ bs) (stops s l q) some_panels (short, f, g, i) later =
    rw (lt→ltb _ _ short, f, g, i) refl
round_lem k loop is_empty p (b ∷ bs) (goes_on q es) some_panels (long, line, left, safe) later =
    let sizes = take_line-Sized (with_line (take (8 * p.panels) (b ∷ bs)) (header_if is_empty p)) in
    let same : length q.line_buf ≡ 8 * q.panels =
      rw (line, sizes.0, sizes.1) (length-take (8 * p.panels) (b ∷ bs) ∙ omega (arith, long)) in
    rw (le→ltb _ _ long)
      (later q es safe same (rw (line, sizes.1) some_panels) ∙ rw (line, left) refl)

-- Where no read fails, and the printer has a panel at least and a line buffer of eight bytes a panel,
-- the loop over the reads does what the loop over the lines of the input does, however the reads
-- deliver the bytes: the same text, the same end, the same state of the printer.
pub print_loop-dump_loop :
    (k : ℕ) (is_empty : Bool) (p : Printer) (es : List Arrival)
    → NoFailure es
    → length p.line_buf ≡ 8 * p.panels
    → 1 ≤ p.panels
    → print_loop k is_empty p es ≡ dump_loop k is_empty p (gathered es)
unfolding print_loop dump_loop
print_loop-dump_loop zero is_empty p es h e some_panels = refl
print_loop-dump_loop (suc k) is_empty p es h e some_panels =
    round_lem k (print_loop k false) is_empty p (gathered es) (read_line is_empty p es) some_panels
      (read_line-Reads is_empty p es h e some_panels)
      (λ q later. print_loop-dump_loop k false q later)

-- More rounds than there are bytes are enough for the loop to end.
pub dump_loop-ne-none :
    (k : ℕ) (is_empty : Bool) (p : Printer) (bs : Bytes)
    → 1 ≤ p.panels
    → length bs < k
    → dump_loop k is_empty p bs ≢ none
unfolding dump_loop
dump_loop-ne-none zero is_empty p bs some_panels h = absurd (omega arith)
dump_loop-ne-none (suc k) is_empty p [] some_panels h = ground arith
dump_loop-ne-none (suc k) is_empty p (b ∷ bs) some_panels h =
    let sizes = take_line-Sized (with_line (take (8 * p.panels) (b ∷ bs)) (header_if is_empty p)) in
    elim (Bool-cases (ltb (length (b ∷ bs)) (8 * p.panels))) [
      | inl short ↦ rw short cc
      | inr long ↦ rw long (
          dump_loop-ne-none k false (next_line is_empty p (b ∷ bs)) (drop (8 * p.panels) (b ∷ bs))
            (rw sizes.1 some_panels) (omega (arith, length-drop (8 * p.panels) (b ∷ bs))))
    ]
