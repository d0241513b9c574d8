-- ===== src/Hexyl/Run/Safe.antt =====
-- main.rs: `run` does not panic, and ends, if the buffer of the printer can be allocated.
use reverse_rewrite.Common.{
  ◌≢◌, true, Bool, take, ◌-◌, ◌*◌, length-take, ◌%◌, length-append, append-nil, [], ◌∷◌, length,
  List, suc,
}
use reverse_rewrite.Hexyl.Run.Options.{
  Safe, then-Gives, IsSize, block_size_of-Gives, skip_offset-Safe, parse_byte_count-Safe,
  limit_of-Safe, base_of-Safe,
}
use reverse_rewrite.Hexyl.Line.Width.{length-repeat}
use reverse_rewrite.Hexyl.Byte.{Palette}
use reverse_rewrite.Hexyl.Printer.{repeat, IncludeMode, Printer, build, file, stdin, slice, off}
use reverse_rewrite.Hexyl.Dump.{Arrival, arrived, failed, print_loop}
use reverse_rewrite.Hexyl.Dump.Fill.{gathered, NoFailure}
use reverse_rewrite.Hexyl.Dump.Reads.{print_loop-dump_loop, dump_loop-ne-none}
use reverse_rewrite.Hexyl.PrintAll.{print_all, print_mode, finished}
use reverse_rewrite.Hexyl.PrintAll.Reads.{print_bytes_in_include_style-gathered}
use reverse_rewrite.Hexyl.Run.{
  run, print_job, print_prepared, try_build, display_offset, limited, take_reads,
}
use reverse_rewrite.Hexyl.Main.{read_error}
use reverse_rewrite.Hexyl.Run.Panels.{max_panels-positive}
use reverse_rewrite.Common.{
  ◌≤◌, ◌<◌, ◌^◌, ◌==◌, Bool-cases, inl, inr, ℕ, zero, suc, ◌≡◌, refl, false, Option, none, some,
  arith, ltb,
}
use reverse_rewrite.Common.Text.{Bytes, bytes_eq, codes}
use reverse_rewrite.Common.Outcome.{
  Outcome, ok, err, panic, out_of_fuel, Gives, >>=-Gives, map_err-Gives,
}
use reverse_rewrite.Common.Int.{ℤ}
use reverse_rewrite.Hexyl.Offset.Bounds.{try_parse_as_hex_number-IsHex}
use reverse_rewrite.Hexyl.Printer.{Base}
use reverse_rewrite.Hexyl.Main.{Job, parse_unsigned, System, Opt, RunError}
use reverse_rewrite.Hexyl.Run.{
  fitting_panels, number_of_panels, or_columns, panels_of, prepared, with_block_size, job_of,
}

-- An outcome that gives both.
both-Gives :
    {E A : Type 0} (P Q : A → Type 0) (m : Outcome E A)
    → Gives P m
    → Gives Q m
    → Gives (λ a. P a × Q a) m
both-Gives P Q (ok a) h k = (h, k)
both-Gives P Q (err e) h k = tt
both-Gives P Q panic h k = absurd h
both-Gives P Q out_of_fuel h k = absurd h

-- The panels that `run` chooses for a base.
abbrev pub chosen_panels : System → Opt → Base → Outcome RunError ℕ
chosen_panels system opt base =
    panels_of (fitting_panels opt base) (or_columns system.terminal_columns) opt.panels
      opt.terminal_width

number_of_panels-positive : (o : Option ℕ) → Gives (λ n. 1 ≤ n) (number_of_panels o)
number_of_panels-positive none = tt
number_of_panels-positive (some zero) = tt
number_of_panels-positive (some (suc n)) =
    let given : (suc n == 0) ≡ false = ground arith in rw given (omega arith)

panels_of-positive :
    (fitting : ℕ → ℕ)
    → ((columns : ℕ) → 1 ≤ fitting columns)
    → (columns : ℕ) (text : Option Bytes) (width : Option ℕ)
    → Gives (λ n. 1 ≤ n) (panels_of fitting columns text width)
unfolding panels_of
panels_of-positive fitting h columns none none = omega (arith, h columns)
panels_of-positive fitting h columns none (some width) = h width
panels_of-positive fitting h columns (some text) width =
    elim (Bool-cases (bytes_eq text (codes "auto"))) [
      | inl auto ↦ rw auto (h columns)
      | inr given ↦ rw given (number_of_panels-positive (parse_unsigned (2 ^ 64) text))
    ]

-- The buffer of the printer can be allocated, and is not empty.
unfoldable pub HasPanels : Job → Type 0
HasPanels job = (1 ≤ job.builder.panels) × (job.builder.panels < 2 ^ 60)

unfoldable pub IsPrintable : Option Job → Type 0
IsPrintable none = Unit
IsPrintable (some job) = HasPanels job

module _ (system : System) (opt : Opt)
    (few : (base : Base) → Gives (λ n. n < 2 ^ 60) (chosen_panels system opt base)) where
  job_of-HasPanels :
      (skipped : ℕ) (limit : Option ℕ) (shown : ℕ) (base : Base)
      → Gives HasPanels (job_of system opt skipped limit shown base)
  unfolding job_of HasPanels
  job_of-HasPanels skipped limit shown base =
      let positive =
        panels_of-positive (fitting_panels opt base)
          (λ columns. max_panels-positive _ _ columns _ _) (or_columns system.terminal_columns)
          opt.panels opt.terminal_width in
      >>=-Gives (λ n. (1 ≤ n) × (n < 2 ^ 60)) HasPanels _ _
        (both-Gives (λ n. 1 ≤ n) (λ n. n < 2 ^ 60) (chosen_panels system opt base) positive
          (few base))
        (λ panels fits. fits)

  with_block_size-IsPrintable :
      (o : Option ℤ) → IsSize o → Gives IsPrintable (with_block_size system opt o)
  unfolding IsSize IsPrintable
  with_block_size-IsPrintable none h = tt
  with_block_size-IsPrintable (some size) h =
      then-Gives IsPrintable _ _ (skip_offset-Safe system size h opt.skip) (λ skipped.
        then-Gives IsPrintable _ _ (limit_of-Safe system size h opt.length) (λ limit.
          then-Gives IsPrintable _ _ (parse_byte_count-Safe system size h opt.display_offset)
            (λ shown. then-Gives IsPrintable _ _ (base_of-Safe opt.base) (λ base.
              >>=-Gives HasPanels IsPrintable _ _ (job_of-HasPanels skipped limit shown base)
                (λ job fits. fits)))))

  pub prepared-IsPrintable : Gives IsPrintable (prepared system opt)
  unfolding prepared
  prepared-IsPrintable =
      >>=-Gives IsSize IsPrintable _ _
        (block_size_of-Gives system.to_lowercase opt.block_size _
          (try_parse_as_hex_number-IsHex opt.block_size))
        with_block_size-IsPrintable

take_reads-NoFailure : (n : ℕ) (es : List Arrival) → NoFailure es → NoFailure (take_reads n es)
unfolding take_reads
take_reads-NoFailure n [] h = tt
take_reads-NoFailure n (failed ∷ es) h = absurd h
take_reads-NoFailure n (arrived bs ∷ es) h = elim (Bool-cases (n == 0)) [
  | inl done ↦ rw done tt
  | inr more ↦ elim (Bool-cases (ltb n (length bs))) [
    | inl cut ↦ rw (more, cut) tt
    | inr whole ↦ rw (more, whole) (take_reads-NoFailure (n - length bs) es h)
  ]
]

gathered-take_reads :
    (n : ℕ) (es : List Arrival)
    → NoFailure es
    → length (gathered (take_reads n es)) ≤ length (gathered es)
unfolding take_reads
gathered-take_reads n [] h = omega arith
gathered-take_reads n (failed ∷ es) h = absurd h
gathered-take_reads n (arrived bs ∷ es) h =
    let whole = length-append bs (gathered es) in
    elim (Bool-cases (n == 0)) [
      | inl done ↦ rw done (omega arith)
      | inr more ↦ elim (Bool-cases (ltb n (length bs))) [
        | inl cut ↦ rw (more, cut, append-nil (take n bs)) (omega (arith, length-take n bs, whole))
        | inr all ↦
            let rest = take_reads (n - length bs) es in
            rw (more, all)
              (omega (
                arith,
                gathered-take_reads (n - length bs) es h,
                length-append bs (gathered rest),
                whole,
              ))
      ]
    ]

limited-lem :
    (limit : Option ℕ) (es : List Arrival)
    → NoFailure es
    → NoFailure (limited limit es) × (length (gathered (limited limit es)) ≤ length (gathered es))
limited-lem none es h = (h, omega arith)
limited-lem (some n) es h = (take_reads-NoFailure n es h, gathered-take_reads n es h)

finished-Safe : (o : Option (Bool × (Option ℕ × Printer))) → o ≢ none → Safe (finished o)
finished-Safe none h = absurd (h refl)
finished-Safe (some (is_empty, (leftover, p))) h = tt

print_mode-Safe :
    (mode : IncludeMode) (is_alphanumeric : ℕ → Bool) (k : ℕ) (p : Printer) (es : List Arrival)
    → NoFailure es
    → print_loop k true p es ≢ none
    → Safe (print_mode mode is_alphanumeric k p es)
print_mode-Safe (file name) is_alphanumeric k p es h loop =
    rw (print_bytes_in_include_style-gathered es h) tt
print_mode-Safe stdin is_alphanumeric k p es h loop =
    rw (print_bytes_in_include_style-gathered es h) tt
print_mode-Safe slice is_alphanumeric k p es h loop =
    rw (print_bytes_in_include_style-gathered es h) tt
print_mode-Safe off is_alphanumeric k p es h loop = finished-Safe (print_loop k true p es) loop

print_all-Safe :
    (is_alphanumeric : ℕ → Bool) (k : ℕ) (p : Printer) (es : List Arrival)
    → NoFailure es
    → length (gathered es) < k
    → length p.line_buf ≡ 8 * p.panels
    → 1 ≤ p.panels
    → Safe (print_all is_alphanumeric k p es)
unfolding print_all
print_all-Safe is_alphanumeric k p es h enough size panels =
    print_mode-Safe p.include_mode is_alphanumeric k p es h (
      rw (print_loop-dump_loop k true p es h size panels)
        (dump_loop-ne-none k true p (gathered es) panels enough))

module _ (is_alphanumeric : ℕ → Bool) (palette : Palette) (k : ℕ) (es : List Arrival)
    (safe : NoFailure es) (enough : length (gathered es) < k) where
  print_job-Safe : (job : Job) → HasPanels job → Safe (print_job is_alphanumeric palette k es job)
  unfolding print_job try_build HasPanels build
  print_job-Safe job (some_panels, few) =
      let b = job.builder in
      let size = 8 * b.panels % 2 ^ 64 in
      let whole : size ≡ 8 * b.panels = omega (arith, few) in
      let fits : ltb size (2 ^ 63) ≡ true = ground (arith, few) in
      let (safe', fewer) = limited-lem job.limit es safe in
      let p : Printer = record (display_offset job.offset (build palette b)) {
        line_buf = repeat size (0 ∷ []);
      } in
      rw fits (
        map_err-Gives (λ q. Unit) (λ e. read_error) _
          (print_all-Safe is_alphanumeric k p (limited job.limit es) safe'
            (omega (arith, fewer, enough)) (omega (arith, length-repeat size (0 ∷ []), whole))
            some_panels))

  print_prepared-Safe :
      (o : Option Job) → IsPrintable o → Safe (print_prepared is_alphanumeric palette k es o)
  unfolding IsPrintable
  print_prepared-Safe none h = tt
  print_prepared-Safe (some job) h =
      then-Gives (λ printed. Unit) _ _ (print_job-Safe job h) (λ printer. tt)

-- Whatever the options and whatever the system answers, if the panels that `run` chooses for each base
-- are fewer than 2^60 and no read fails, `run` comes to an error or to a result, printing included:
-- the values that it unwraps and the integers that it takes for non-negative are never out of range,
-- the buffer of the printer is not too large for a vector, and the loop that prints ends within one
-- round more than there are bytes. Sums wrap, as in a release build.
pub run-Gives :
    (is_alphanumeric : ℕ → Bool) (palette : Palette) (k : ℕ) (es : List Arrival) (system : System)
    (opt : Opt)
    → NoFailure es
    → length (gathered es) < k
    → ((base : Base) → Gives (λ n. n < 2 ^ 60) (chosen_panels system opt base))
    → Gives (λ printed. Unit) (run is_alphanumeric palette k es system opt)
unfolding run
run-Gives is_alphanumeric palette k es system opt safe enough few =
    >>=-Gives IsPrintable (λ printed. Unit) _ _ (prepared-IsPrintable system opt few)
      (print_prepared-Safe is_alphanumeric palette k es safe enough)
