-- ===== src/Hexyl/Run/Panels.antt =====
-- main.rs: the panels that are chosen, against the width of the lines that the printer writes.
use native.Mathlib.Nat.{div-mul-le_self}
use reverse_rewrite.Common.{
  ℕ, zero, suc, ◌+◌, ◌-◌, ◌*◌, ◌/◌, ◌≤◌, ◌≡◌, refl, ◌∙◌, ◌⊎◌, inl, inr, Bool, true, false, arith,
  ltb, if◌then◌else◌, Bool-cases, length, length-append,
}
use reverse_rewrite.Hexyl.Byte.{Palette}
use reverse_rewrite.Hexyl.Printer.{
  PrinterBuilder, Base, binary, octal, decimal, hexadecimal, build, border, BorderElements,
  digits_of, formatted, zero_padded,
}
use reverse_rewrite.Hexyl.Line.Width.{IsPlain}
use reverse_rewrite.Hexyl.PrintAll.Width.{length-border}
use reverse_rewrite.Hexyl.Main.{
  uses_color, max_panels, System, Opt, GroupSize, group_octets, one, two, four, eight,
}
use reverse_rewrite.Hexyl.Run.{shows_position, shows_chars, fitting_panels, builder_of}

length-zero_padded : (radix places n : ℕ) → length (zero_padded radix places n) ≡ places
length-zero_padded radix zero n = refl
length-zero_padded radix (suc places) n =
    length-append (zero_padded radix places (n / radix)) _
    ∙ omega (arith, length-zero_padded radix places (n / radix))

length-formatted : (base : Base) (n : ℕ) → length (formatted base n) ≡ digits_of base
length-formatted binary n = length-zero_padded 2 8 n
length-formatted octal n = length-zero_padded 8 3 n
length-formatted decimal n = length-zero_padded 10 3 n
length-formatted hexadecimal n = length-zero_padded 16 2 n

group_octets-IsGroup :
    (g : GroupSize)
    → (group_octets g ≡ 1) ⊎ ((group_octets g ≡ 2) ⊎ ((group_octets g ≡ 4) ⊎ (group_octets g ≡ 8)))
group_octets-IsGroup one = inl refl
group_octets-IsGroup two = inr (inl refl)
group_octets-IsGroup four = inr (inr (inl refl))
group_octets-IsGroup eight = inr (inr (inr refl))

pub build-IsPlain :
    (palette : Palette) (b : PrinterBuilder) (g : GroupSize)
    → b.show_color ≡ false
    → 1 ≤ b.panels
    → b.group_size ≡ group_octets g
    → IsPlain (build palette b)
unfolding build
build-IsPlain palette b g colorless panels size = record {
  colorless = colorless;
  some_panels = panels;
  groups = rw size (group_octets-IsGroup g);
  hex_width = length-formatted b.base;
  offset_width = length-formatted hexadecimal;
  char_width = λ c. refl;
}

pub max_panels-positive :
    (position chars : Bool) (columns digits group : ℕ)
    → 1 ≤ max_panels position chars columns digits group
unfolding max_panels
max_panels-positive position chars columns digits group = ground arith

-- What `run` counts for a panel.
abbrev pub counted_width : Bool → ℕ → ℕ → ℕ
counted_width chars digits group =
    if chars then 8 / group * (digits * group + 1) + 2 + 8 else 8 / group * (digits * group + 1) + 2

abbrev pub margin : Bool → ℕ
margin position = if position then 10 else 1

chosen_fits :
    (m w columns : ℕ)
    → m + w ≤ columns
    → m + (if ltb ((columns - m) / w) 1 then 1 else (columns - m) / w) * w ≤ columns
chosen_fits m w columns h = elim (Bool-cases (ltb ((columns - m) / w) 1)) [
  | inl at_least ↦ rw at_least (omega arith)
  | inr many ↦ rw many (omega (arith, div-mul-le_self (columns - m) w))
]

max_panels-fits :
    (position chars : Bool) (columns digits group : ℕ)
    → margin position + counted_width chars digits group ≤ columns
    → margin position
        + max_panels position chars columns digits group * counted_width chars digits group
      ≤ columns
unfolding max_panels
max_panels-fits position chars columns digits group h =
    chosen_fits (margin position) (counted_width chars digits group) columns h

-- the columns of n panels, by the width that is counted
panels_width :
    (chars : Bool) (n digits group : ℕ)
    → n * (1 + (digits * group + 1) * (8 / group) + 1) + (if chars then n * 9 else 0)
      ≡ n * counted_width chars digits group + (if chars then n else 0)
panels_width true n digits group = grind arith
panels_width false n digits group = grind arith

-- Where one panel fits the terminal by the count of the program, the border of a printer without
-- colours that is built for the panels chosen takes at most the columns of the terminal and, where
-- characters are shown, one more for each panel, besides the end of the line.
pub length-border-fits :
    (system : System) (opt : Opt) (base : Base) (columns : ℕ) (palette : Palette)
    (e : BorderElements)
    → uses_color opt.color system ≡ false
    → margin (shows_position opt)
        + counted_width (shows_chars opt) (digits_of base) (group_octets opt.group_size)
      ≤ columns
    → length
        (border (build palette (builder_of system opt base (fitting_panels opt base columns))) e)
      ≤ suc (columns + (if shows_chars opt then fitting_panels opt base columns else 0))
unfolding build
length-border-fits system opt base columns palette e colorless h =
    let n = fitting_panels opt base columns in
    let b = builder_of system opt base n in
    let position = shows_position opt in
    let chars = shows_chars opt in
    let group = group_octets opt.group_size in
    let digits = digits_of base in
    let some_panels = max_panels-positive position chars columns digits group in
    let wide =
      length-border (build palette b) e
        (build-IsPlain palette b opt.group_size colorless some_panels refl) in
    let fits = max_panels-fits position chars columns digits group h in
    rw wide (omega (arith, fits, panels_width chars n digits group))
