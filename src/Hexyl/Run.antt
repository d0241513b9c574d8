-- ===== src/Hexyl/Run.antt =====
-- main.rs: `run` as a whole, and the number of panels that it chooses, with `build` of lib.rs.
-- The reports of a colour table and of shell completions, which `run` may give instead, and the
-- opening of the file are not modelled.
pub mod Options
pub mod Safe
pub mod Panels
use Prim.Native.Nat.{min}
use reverse_rewrite.Common.{
  take, length, List, [], ◌∷◌, ltb, ◌-◌, ◌*◌, Bool, ℕ, ◌+◌, ◌%◌, ◌^◌, not, ◌&&◌, Option, none, some,
  ◌==◌, if◌then◌else◌,
}
use reverse_rewrite.Common.Text.{Bytes, bytes_eq, codes}
use reverse_rewrite.Common.Outcome.{panic, map_err, Outcome, ok, err, ◌>>=◌}
use reverse_rewrite.Common.Int.{ℤ}
use reverse_rewrite.Hexyl.Offset.{try_parse_as_hex_number}
use reverse_rewrite.Hexyl.Printer.{
  Base, digits_of, little, IncludeMode, file, stdin, off, PrinterBuilder, Printer, build, repeat,
}
use reverse_rewrite.Hexyl.Byte.{Palette}
use reverse_rewrite.Hexyl.Dump.{Arrival, arrived, failed}
use reverse_rewrite.Hexyl.PrintAll.{print_all}
use reverse_rewrite.Hexyl.Builder
use reverse_rewrite.Hexyl.Builder.{new_builder}
use reverse_rewrite.Hexyl.Main.{
  Opt, System, Job, RunError, invalid_panels, read_error, block_size_of, skip_offset, limit_of,
  parse_byte_count, uses_color, max_panels, parse_unsigned, base_of, group_octets,
}

abbrev pub or_columns : Option ℕ → ℕ
or_columns none = 80
or_columns (some columns) = columns

abbrev pub number_of_panels : Option ℕ → Outcome RunError ℕ
number_of_panels none = err invalid_panels
number_of_panels (some n) = if n == 0 then err invalid_panels else ok n

abbrev given_panels : (ℕ → ℕ) → ℕ → Bytes → Outcome RunError ℕ
given_panels fitting columns text =
    if bytes_eq text (codes "auto")
    then ok (fitting columns)
    else number_of_panels (parse_unsigned (2 ^ 64) text)

unfoldable pub panels_of : (ℕ → ℕ) → ℕ → Option Bytes → Option ℕ → Outcome RunError ℕ
panels_of fitting columns (some text) width = given_panels fitting columns text
panels_of fitting columns none (some width) = ok (fitting width)
panels_of fitting columns none none = ok (min 2 (fitting columns))

abbrev or_file : Option Bytes → Bytes
or_file none = codes "file"
or_file (some name) = name

abbrev included : System → Option Bytes → IncludeMode
included system none = stdin
included system (some path) =
    if bytes_eq path (codes "-")
    then file (codes "stdin")
    else file (or_file (system.file_name path))

abbrev pub shows_chars : Opt → Bool
shows_chars opt = not opt.no_characters && not opt.plain

abbrev pub shows_position : Opt → Bool
shows_position opt = not opt.no_position && not opt.plain

abbrev pub fitting_panels : Opt → Base → ℕ → ℕ
fitting_panels opt base columns =
    max_panels (shows_position opt) (shows_chars opt) columns (digits_of base)
      (group_octets opt.group_size)

abbrev pub builder_of : System → Opt → Base → ℕ → PrinterBuilder
builder_of system opt base panels =
    let b = new_builder in
    let b = Builder.show_color (uses_color opt.color system) b in
    let b = Builder.show_char_panel (shows_chars opt) b in
    let b = Builder.show_position_panel (shows_position opt) b in
    let b = Builder.with_border_style opt.border b in
    let b = Builder.enable_squeezing (not opt.no_squeezing) b in
    let b = Builder.num_panels panels b in
    let b = Builder.group_size (group_octets opt.group_size) b in
    let b = Builder.with_base base b in
    let b = Builder.endianness (if opt.little_endian_format then little else opt.endianness) b in
    let b = Builder.character_table opt.character_table b in
    let b = Builder.include_mode (if opt.include_mode then included system opt.file else off) b in
    let b = Builder.color_scheme opt.color_scheme b in b

abbrev pub job_with : System → Opt → ℕ → Option ℕ → ℕ → Base → ℕ → Job
job_with system opt skipped limit shown base panels = record {
  builder = builder_of system opt base panels;
  offset = (skipped + shown) % 2 ^ 64;
  limit = limit;
}

unfoldable pub job_of : System → Opt → ℕ → Option ℕ → ℕ → Base → Outcome RunError Job
job_of system opt skipped limit shown base =
    panels_of (fitting_panels opt base) (or_columns system.terminal_columns) opt.panels
      opt.terminal_width
    >>= (λ panels. ok (job_with system opt skipped limit shown base panels))

abbrev pub with_block_size : System → Opt → Option ℤ → Outcome RunError (Option Job)
with_block_size system opt none = ok none
with_block_size system opt (some size) = skip_offset system size opt.skip >>= (λ skipped.
    limit_of system size opt.length >>= (λ limit.
      parse_byte_count system size opt.display_offset >>= (λ shown.
        base_of opt.base
        >>= (λ base. job_of system opt skipped limit shown base >>= (λ job. ok (some job))))))

-- `run` up to the printer; none is a run that ends well without printing.
unfoldable pub prepared : System → Opt → Outcome RunError (Option Job)
prepared system opt =
    block_size_of system.to_lowercase opt.block_size (try_parse_as_hex_number opt.block_size)
    >>= with_block_size system opt

-- `build` with its vector, which panics on more bytes than an `isize` counts; the product wraps, as in
-- a release build.
unfoldable pub try_build : Palette → PrinterBuilder → Outcome RunError Printer
try_build palette b =
    let size = 8 * b.panels % 2 ^ 64 in
    let printer : Printer = record (build palette b) { line_buf = repeat size (0 ∷ []) } in
    if ltb size (2 ^ 63) then ok printer else panic

abbrev pub display_offset : ℕ → Printer → Printer
display_offset value p = record p { display_offset = value }

-- The reads through `Read::take`.
unfoldable pub take_reads : ℕ → List Arrival → List Arrival
take_reads n [] = []
take_reads n (failed ∷ es) = let more = take_reads n es in if n == 0 then [] else failed ∷ more
take_reads n (arrived bs ∷ es) =
    let more = take_reads (n - length bs) es in
    if n == 0 then [] else if ltb n (length bs) then arrived (take n bs) ∷ [] else arrived bs ∷ more

abbrev pub limited : Option ℕ → List Arrival → List Arrival
limited none es = es
limited (some n) es = take_reads n es

-- The arguments are those of `print_all`: what the reader gives from the position that was sought, and
-- its fuel.
module _ (is_alphanumeric : ℕ → Bool) (palette : Palette) (k : ℕ) (es : List Arrival) where
  unfoldable pub print_job : Job → Outcome RunError Printer
  unfolding try_build
  print_job job = try_build palette job.builder >>= (λ printer.
      map_err (λ e. read_error)
        (print_all is_alphanumeric k (display_offset job.offset printer) (limited job.limit es)))

  abbrev pub print_prepared : Option Job → Outcome RunError (Option Printer)
  print_prepared none = ok none
  print_prepared (some job) = print_job job >>= (λ printer. ok (some printer))

  -- What is printed stands in the printer.
  unfoldable pub run : System → Opt → Outcome RunError (Option Printer)
  unfolding prepared print_job
  run system opt = prepared system opt >>= print_prepared
