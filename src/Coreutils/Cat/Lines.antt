-- ===== src/Coreutils/Cat/Lines.antt =====
-- cat.rs: what the writers make of the text of a line, and that the loop over a buffer finishes.
use reverse_rewrite.Common.{
  ℕ, zero, suc, ◌+◌, ◌≤◌, ◌<◌, ◌≡◌, refl, sym, ap, subst, ◌∙◌, arith, Bool, true, false, not, ◌&&◌,
  ◌||◌, Option, some, List, [], ◌∷◌, ◌++◌, ◌==◌, ==→eq, if◌then◌else◌, length, drop, Bool-cases,
  inl, inr, length-drop,
}
use reverse_rewrite.Common.Text.{Bytes, codes}
use reverse_rewrite.Common.Outcome.{◌>>?◌}
use reverse_rewrite.Coreutils.Tr.Operation.{Read, Ended, filled, interrupted, failing}
use reverse_rewrite.Coreutils.Cat.{
  NumberingMode, OutputOptions, OutputState, tab, end_of_line, break_at, is_line_end, stops_tabs,
  tab_round, write_to_end, write_tab_from, write_tab_to_end, shown_byte, write_nonprint_to_end,
  write_end, end_text, write_buffer, write_lines,
}

-- how a byte of a line is written
unfoldable pub shown : OutputOptions → ℕ → Bytes
unfolding shown_byte
shown options b =
    if options.show_nonprint
    then shown_byte (tab options) b
    else if options.show_tabs && b == 9
    then codes "^I"
    else b ∷ []

abbrev pub each : (ℕ → Bytes) → Bytes → Bytes
each f [] = []
each f (b ∷ bs) = f b ++ each f bs

-- where the text of a line stops: at a carriage return too, unless it is shown
abbrev pub stops : OutputOptions → ℕ → Bool
stops options b = b == 10 || (not options.show_nonprint && b == 13)

abbrev pub line_text : OutputOptions → Bytes → Bytes
line_text options in_buf = (break_at (stops options) in_buf).0

abbrev tabbed : ℕ → Bytes
tabbed b = if b == 9 then codes "^I" else b ∷ []

-- a byte before the tab or the end only comes first
tab_round-cons :
    (later : ℕ → Bytes → Bytes × ℕ) (count total b : ℕ) (before rest : Bytes)
    → tab_round later count (suc total) (b ∷ before) rest
      ≡ (let (output, n) = tab_round later (suc count) total before rest in (b ∷ output, n))
tab_round-cons later count total b before [] =
    let same : suc total + count ≡ total + suc count = omega arith in λ i. (b ∷ before, same i)
tab_round-cons later count total b before (c ∷ cs) =
    let same : count + (suc (length before) + 1) ≡ suc count + (length before + 1) = omega arith in
    let same' : count + suc (length before) ≡ suc count + length before = omega arith in
    let later_same = ap (λ k. later k cs) same in
    elim (Bool-cases (c == 9)) [
      | inl t ↦ ground (arith, t, later_same)
      | inr t ↦ ground (arith, t, same')
    ]

abbrev with_tabs : ℕ → Bytes → Bytes × ℕ
with_tabs count in_buf =
    let text = (break_at is_line_end in_buf).0 in (each tabbed text, count + length text)

tabs_lem :
    (in_buf : Bytes) (f count : ℕ)
    → length in_buf < f
    → write_tab_from f count in_buf ≡ with_tabs count in_buf
unfolding write_tab_from
tabs_lem in_buf zero count h = absurd (omega arith)
tabs_lem [] (suc f) count h = let same : 0 + count ≡ count + 0 = omega arith in λ i. ([], same i)
tabs_lem (b ∷ bs) (suc f) count h = elim (Bool-cases (b == 9)) [
  | inl t ↦ ground (arith, ==→eq b 9 t, tabs_lem bs f (count + 1) (omega arith))
  | inr t ↦ elim (Bool-cases (is_line_end b)) [
    | inl e ↦ ground (arith, t, e)
    | inr e ↦ ground (
      arith,
      t,
      e,
      tab_round-cons (λ n xs. write_tab_from f n xs) count (length bs) b (break_at stops_tabs bs).0
          (break_at stops_tabs bs).1,
      tabs_lem bs (suc f) (suc count) (omega arith),
    )
  ]
]

nonprint_lem :
    (t in_buf : Bytes)
    → write_nonprint_to_end in_buf t ≡ (
      each (shown_byte t) (break_at (λ b. b == 10) in_buf).0,
      length (break_at (λ b. b == 10) in_buf).0,
    )
unfolding write_nonprint_to_end
nonprint_lem t [] = refl
nonprint_lem t (b ∷ bs) = ground (arith, nonprint_lem t bs)

plain_lem : (bs : Bytes) → each (λ b. b ∷ []) bs ≡ bs
plain_lem [] = refl
plain_lem (b ∷ bs) = ap (λ t. b ∷ t) (plain_lem bs)

breaks_agree : (p q : ℕ → Bool) (bs : Bytes) → ((b : ℕ) → p b ≡ q b) → break_at p bs ≡ break_at q bs
breaks_agree p q bs h = ap (λ f. break_at f bs) (λ i b. h b i)

each-agree : (f g : ℕ → Bytes) (bs : Bytes) → ((b : ℕ) → f b ≡ g b) → each f bs ≡ each g bs
each-agree f g bs h = ap (λ k. each k bs) (λ i b. h b i)

write_cases :
    (number : NumberingMode) (squeeze_blank show_ends show_nonprint show_tabs : Bool)
    (in_buf : Bytes)
    → (let options : OutputOptions = record {
      number = number;
      squeeze_blank = squeeze_blank;
      show_tabs = show_tabs;
      show_ends = show_ends;
      show_nonprint = show_nonprint;
    } in
        write_end in_buf options
        ≡ (each (shown options) (line_text options in_buf), length (line_text options in_buf)))
unfolding write_end shown write_tab_to_end write_to_end
write_cases number squeeze_blank show_ends true show_tabs in_buf =
    nonprint_lem (if show_tabs then codes "^I" else 9 ∷ []) in_buf
    ∙ ap
        (λ p. (
          each (shown_byte (if show_tabs then codes "^I" else 9 ∷ [])) (break_at p in_buf).0,
          length (break_at p in_buf).0,
        ))
        (λ i b. or_false (b == 10) i)
  where
    or_false : (t : Bool) → t ≡ (t || false)
    or_false true = refl
    or_false false = refl
write_cases number squeeze_blank show_ends false true in_buf =
    tabs_lem in_buf (suc (length in_buf)) 0 (omega arith)
    ∙ ap (λ n. (each tabbed (break_at is_line_end in_buf).0, n)) (omega arith)
write_cases number squeeze_blank show_ends false false in_buf =
    ap (λ t. (t, length (break_at is_line_end in_buf).0))
      (sym (plain_lem (break_at is_line_end in_buf).0))

-- Each writer of the text of a line writes its bytes one after the other, as the options show them, up
-- to the byte where the text stops, and counts just these.
pub write_end_lem :
    (options : OutputOptions) (in_buf : Bytes)
    → write_end in_buf options
      ≡ (each (shown options) (line_text options in_buf), length (line_text options in_buf))
write_end_lem options in_buf =
    write_cases options.number options.squeeze_blank options.show_ends options.show_nonprint
      options.show_tabs in_buf

-- what is left behind the text of a line begins with a line feed or a carriage return
behind_text :
    (options : OutputOptions) (p : ℕ → Bool) (in_buf : Bytes)
    → ((b : ℕ) → p b ≡ true → (b == 10 || b == 13) ≡ true)
    → drop (length (break_at p in_buf).0) in_buf ≡ (break_at p in_buf).1
behind_text options p [] h = refl
behind_text options p (b ∷ bs) h = ground (arith, behind_text options p bs h)

-- the rest of a buffer, when it begins with the end of a line
abbrev EndsLine : Bytes → Type 0
EndsLine [] = Unit
EndsLine (b ∷ bs) = (b == 10 || b == 13) ≡ true

rest-EndsLine :
    (p : ℕ → Bool) (in_buf : Bytes)
    → ((b : ℕ) → p b ≡ true → (b == 10 || b == 13) ≡ true)
    → EndsLine (break_at p in_buf).1
rest-EndsLine p [] h = _
rest-EndsLine p (b ∷ bs) h = elim (Bool-cases (p b)) [
  | inl t ↦
      subst
        (λ x.
          EndsLine
            (if◌then◌else◌ {A = Bytes × Bytes} x ([], b ∷ bs)
              (b ∷ (break_at p bs).0, (break_at p bs).1)).1)
        (sym t) (h b t)
  | inr f ↦
      subst
        (λ x.
          EndsLine
            (if◌then◌else◌ {A = Bytes × Bytes} x ([], b ∷ bs)
              (b ∷ (break_at p bs).0, (break_at p bs).1)).1)
        (sym f) (rest-EndsLine p bs h)
]

stops-end : (options : OutputOptions) (b : ℕ) → stops options b ≡ true → (b == 10 || b == 13) ≡ true
stops-end options b h = ground (arith, h)

-- a call that gives a value
abbrev Gives : {A : Type 0} → Option A → Type 0
Gives {A} o = (a : A) × (o ≡ some a)

bind-Gives :
    {A B : Type 0} (o : Option A) (f : A → Option B)
    → Gives o
    → ((a : A) → Gives (f a))
    → Gives (o >>? f)
bind-Gives o f (a, e) k = let (b, e') = k a in (b, ap (λ x. x >>? f) e ∙ e')

if-Gives : {A : Type 0} (t : Bool) (x y : Option A) → Gives x → Gives y → Gives (if t then x else y)
if-Gives true x y h k = h
if-Gives false x y h k = k

left-EndsLine :
    (options : OutputOptions) (in_buf : Bytes) → EndsLine (drop (write_end in_buf options).1 in_buf)
left-EndsLine options in_buf =
    subst EndsLine
      (sym (
        ap (λ r. drop r.1 in_buf) (write_end_lem options in_buf)
        ∙ behind_text options (stops options) in_buf (stops-end options)))
      (rest-EndsLine (stops options) in_buf (stops-end options))

module _ (inc : Bytes → ℕ → ℕ → Bytes × ℕ) where
  end_text-some :
      (options : OutputOptions) (state : OutputState) (left : Bytes)
      → EndsLine left
      → (r : Bytes × OutputState) × (end_text inc options state left ≡ some r)
  end_text-some options state [] h = (_, refl)
  end_text-some options state (b ∷ bs) h = elim (Bool-cases (b == 13)) [
    | inl t ↦ (([], record state { skipped_carriage_return = true }), ground (arith, t))
    | inr f ↦ ((end_of_line options, record state { at_line_start = true }), ground (arith, f, h))
  ]

  shorter : (n : ℕ) (b : ℕ) (bs : Bytes) → length (drop 1 (drop n (b ∷ bs))) ≤ length bs
  shorter n b bs = omega (arith, length-drop 1 (drop n (b ∷ bs)), length-drop n (b ∷ bs))

  write_buffer-some :
      (f : ℕ) (options : OutputOptions) (state : OutputState) (rest : Bytes)
      → length rest ≤ f
      → Gives (write_buffer inc f options state rest)
  unfolding write_buffer
  write_buffer-some zero options state rest h = (_, refl)
  write_buffer-some (suc f) options state [] h = (_, refl)
  write_buffer-some (suc f) options state (b ∷ bs) h =
      let n = (write_end (b ∷ bs) options).1 in
      if-Gives (b == 10) _ _
        (bind-Gives _ _ (write_buffer-some f options _ bs (omega arith)) λ r. (_, refl))
        (bind-Gives _ _ (end_text-some options _ (drop n (b ∷ bs)) (left-EndsLine options (b ∷ bs)))
          λ r.
            bind-Gives _ _
              (write_buffer-some f options r.1 (drop 1 (drop n (b ∷ bs)))
                (omega (arith, shorter n b bs)))
              λ r'. (_, refl))

-- For every way to count the lines up, the writing of what the reads give comes to an end with an
-- output: the assertion that a line stops at a line feed never fails.
pub write_lines-some :
    (inc : Bytes → ℕ → ℕ → Bytes × ℕ) (options : OutputOptions) (state : OutputState)
    (reads : List Read)
    → (r : Bytes × (OutputState × Ended)) × (write_lines inc options state reads ≡ some r)
unfolding write_lines
write_lines-some inc options state [] = (_, refl)
write_lines-some inc options state (interrupted ∷ reads) = write_lines-some inc options state reads
write_lines-some inc options state (failing ∷ reads) = (_, refl)
write_lines-some inc options state (filled [] ∷ reads) = (_, refl)
write_lines-some inc options state (filled (b ∷ bs) ∷ reads) =
    bind-Gives (write_buffer inc (length (b ∷ bs)) options state (b ∷ bs)) _
      (write_buffer-some inc (length (b ∷ bs)) options state (b ∷ bs) (omega arith))
      λ r.
        bind-Gives (write_lines inc options r.1 reads) _ (write_lines-some inc options r.1 reads)
          λ r'. (_, refl)
