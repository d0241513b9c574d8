-- ===== src/Hexyl/PrintAll/Reads.antt =====
-- lib.rs: `print_all` as a whole depends on the bytes of the input alone, and it ends.
use reverse_rewrite.Common.{
  ℕ, ◌+◌, ◌*◌, ◌%◌, ◌≤◌, ◌<◌, ◌≡◌, ◌≢◌, refl, sym, ap, ◌∙◌, inl, inr, Bool, true, Option, none,
  some, List, [], ◌∷◌, ◌++◌, arith, ◌==◌, Bool-cases, length, length-append,
}
use reverse_rewrite.Common.Text.{Bytes}
use reverse_rewrite.Common.Outcome.{ok, out_of_fuel, >>=-ne-out_of_fuel}
use reverse_rewrite.Hexyl.Byte.{Palette}
use reverse_rewrite.Hexyl.Printer.{
  IncludeMode, Printer, PrinterBuilder, build, file, stdin, slice, off,
}
use reverse_rewrite.Hexyl.Line.Width.{length-repeat}
use reverse_rewrite.Hexyl.Dump.{Arrival, arrived, failed, print_loop}
use reverse_rewrite.Hexyl.Dump.Fill.{gathered, NoFailure}
use reverse_rewrite.Hexyl.Dump.Reads.{print_loop-dump_loop, dump_loop-ne-none}
use reverse_rewrite.Hexyl.PrintAll.{
  Include, include_byte, include_bytes, include_loop, include_start, print_bytes_in_include_style,
  print_all, print_mode, finished,
}

abbrev counted : ℕ → Include → Include
counted n s = record s { total_bytes = s.total_bytes + n }

include_byte-counted :
    (b n : ℕ) (s : Include) → include_byte b (counted n s) ≡ counted n (include_byte b s)
unfolding include_byte
include_byte-counted b n s = elim (Bool-cases (s.line_counter % 12 == 0)) [
  | inl first ↦ rw first refl
  | inr later ↦ rw later refl
]

include_bytes-counted :
    (bs : Bytes) (n : ℕ) (s : Include)
    → include_bytes bs (counted n s) ≡ counted n (include_bytes bs s)
unfolding include_bytes
include_bytes-counted [] n s = refl
include_bytes-counted (b ∷ bs) n s =
    ap (include_bytes bs) (include_byte-counted b n s)
    ∙ include_bytes-counted bs n (include_byte b s)

include_bytes-append :
    (xs ys : Bytes) (s : Include)
    → include_bytes (xs ++ ys) s ≡ include_bytes ys (include_bytes xs s)
unfolding include_bytes
include_bytes-append [] ys s = refl
include_bytes-append (x ∷ xs) ys s = include_bytes-append xs ys (include_byte x s)

counted_twice : (m n k : ℕ) (s : Include) → n + m ≡ k → counted m (counted n s) ≡ counted k s
counted_twice m n k s h = ap (λ t. record s { total_bytes = t }) (omega (arith, h))

include_loop-gathered :
    (es : List Arrival) (s : Include)
    → NoFailure es
    → include_loop es s ≡ ok (counted (length (gathered es)) (include_bytes (gathered es) s))
unfolding include_loop
include_loop-gathered [] s h = ap (λ n. ok (record s { total_bytes = n })) (omega arith)
include_loop-gathered (failed ∷ es) s h = absurd h
include_loop-gathered (arrived bs ∷ es) s h =
    let rest = gathered es in
    let begun = include_bytes bs s in
    let first = include_bytes-counted bs (length bs) s in
    include_loop-gathered es _ h
    ∙ rw (first, include_bytes-counted rest (length bs) begun, include_bytes-append bs rest s)
        (ap ok (
          counted_twice (length rest) (length bs) _ (include_bytes rest begun)
            (omega (arith, length-append bs rest))))

include_byte-total : (b : ℕ) (s : Include) → (include_byte b s).total_bytes ≡ s.total_bytes
unfolding include_byte
include_byte-total b s = elim (Bool-cases (s.line_counter % 12 == 0)) [
  | inl first ↦ rw first refl
  | inr later ↦ rw later refl
]

include_bytes-total : (bs : Bytes) (s : Include) → (include_bytes bs s).total_bytes ≡ s.total_bytes
unfolding include_bytes
include_bytes-total [] s = refl
include_bytes-total (b ∷ bs) s = include_bytes-total bs (include_byte b s) ∙ include_byte-total b s

-- In the C include style, where no read fails, the text is that of all the bytes in a row, however
-- the reads deliver them, and the number is that of the bytes.
pub print_bytes_in_include_style-gathered :
    (es : List Arrival)
    → NoFailure es
    → print_bytes_in_include_style es
      ≡ ok ((include_bytes (gathered es) include_start).text ++ (10 ∷ []), length (gathered es))
unfolding print_bytes_in_include_style
print_bytes_in_include_style-gathered es h =
    let text = (include_bytes (gathered es) include_start).text ++ (10 ∷ []) in
    rw (include_loop-gathered es include_start h)
      (ap (λ n. ok (text, n)) (omega (arith, include_bytes-total (gathered es) include_start)))

pub build_sizes :
    (palette : Palette) (b : PrinterBuilder)
    → length (build palette b).line_buf ≡ 8 * (build palette b).panels
unfolding build
build_sizes palette b = omega (arith, length-repeat (8 * b.panels) (0 ∷ []))

build_panels :
    (palette : Palette) (b : PrinterBuilder) → 1 ≤ b.panels → 1 ≤ (build palette b).panels
unfolding build
build_panels palette b h = h

print_mode_same :
    (mode : IncludeMode) (is_alphanumeric : ℕ → Bool) (k : ℕ) (p : Printer) (es fs : List Arrival)
    → print_bytes_in_include_style es ≡ print_bytes_in_include_style fs
    → print_loop k true p es ≡ print_loop k true p fs
    → print_mode mode is_alphanumeric k p es ≡ print_mode mode is_alphanumeric k p fs
print_mode_same (file name) is_alphanumeric k p es fs style loop = rw style refl
print_mode_same stdin is_alphanumeric k p es fs style loop = rw style refl
print_mode_same slice is_alphanumeric k p es fs style loop = rw style refl
print_mode_same off is_alphanumeric k p es fs style loop = ap finished loop

-- A printer of at least one panel, just built, prints the same of two inputs of the same bytes that
-- no read fails on, whatever the sizes of the reads, in every mode.
pub print_all-gathered :
    (is_alphanumeric : ℕ → Bool) (k : ℕ) (palette : Palette) (b : PrinterBuilder)
    (es fs : List Arrival)
    → 1 ≤ b.panels
    → NoFailure es
    → NoFailure fs
    → gathered es ≡ gathered fs
    → print_all is_alphanumeric k (build palette b) es
      ≡ print_all is_alphanumeric k (build palette b) fs
unfolding print_all
print_all-gathered is_alphanumeric k palette b es fs h safe safe' same =
    let p = build palette b in
    print_mode_same p.include_mode is_alphanumeric k p es fs
      (print_bytes_in_include_style-gathered es safe
        ∙ rw same (sym (print_bytes_in_include_style-gathered fs safe')))
      (print_loop-dump_loop k true p es safe (build_sizes palette b) (build_panels palette b h)
        ∙ rw same (
            sym (
              print_loop-dump_loop k true p fs safe' (build_sizes palette b)
                (build_panels palette b h))))

finished-ne-out_of_fuel :
    (o : Option (Bool × (Option ℕ × Printer))) → o ≢ none → finished o ≢ out_of_fuel
finished-ne-out_of_fuel none h = absurd (h refl)
finished-ne-out_of_fuel (some (is_empty, (leftover, p))) h = cc

print_mode-ne-out_of_fuel :
    (mode : IncludeMode) (is_alphanumeric : ℕ → Bool) (k : ℕ) (p : Printer) (es : List Arrival)
    → print_bytes_in_include_style es ≢ out_of_fuel
    → print_loop k true p es ≢ none
    → print_mode mode is_alphanumeric k p es ≢ out_of_fuel
print_mode-ne-out_of_fuel (file name) is_alphanumeric k p es style loop =
    >>=-ne-out_of_fuel _ _ style (λ a. cc)
print_mode-ne-out_of_fuel stdin is_alphanumeric k p es style loop =
    >>=-ne-out_of_fuel _ _ style (λ a. cc)
print_mode-ne-out_of_fuel slice is_alphanumeric k p es style loop =
    >>=-ne-out_of_fuel _ _ style (λ a. cc)
print_mode-ne-out_of_fuel off is_alphanumeric k p es style loop =
    finished-ne-out_of_fuel (print_loop k true p es) loop

-- A printer of at least one panel, just built, ends on every input that no read fails on, with a
-- round for each byte and one more.
pub print_all-ne-out_of_fuel :
    (is_alphanumeric : ℕ → Bool) (k : ℕ) (palette : Palette) (b : PrinterBuilder)
    (es : List Arrival)
    → 1 ≤ b.panels
    → NoFailure es
    → length (gathered es) < k
    → print_all is_alphanumeric k (build palette b) es ≢ out_of_fuel
unfolding print_all
print_all-ne-out_of_fuel is_alphanumeric k palette b es h safe enough =
    let p = build palette b in
    let panels = build_panels palette b h in
    print_mode-ne-out_of_fuel p.include_mode is_alphanumeric k p es
      (rw (print_bytes_in_include_style-gathered es safe) cc)
      (rw (print_loop-dump_loop k true p es safe (build_sizes palette b) panels)
        (dump_loop-ne-none k true p (gathered es) panels enough))
