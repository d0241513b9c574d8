-- ===== src/Fish/Color/Nearest.antt =====
-- color/color.rs: `convert_color` finds the first of the nearest colours.
use reverse_rewrite.Common.{
  ℕ, suc, ◌+◌, ◌≤◌, ◌<◌, ◌≡◌, refl, subst, ap, ◌∙◌, ◌⊎◌, inl, inr, some, List, [], ◌∷◌, ◌++◌, arith,
  ltb, ltb→lt, ltb→le, if◌then◌else◌, length, All, Bool-cases, length-append,
}
use reverse_rewrite.Fish.Color.Distance.{away, key_of, key_of-away}
use reverse_rewrite.Fish.Color.Palette.{
  Color24, nearest, convert_color, into_u8, term16_colors, term256_colors, term16_color_for_rgb,
  term256_color_for_rgb,
}

abbrev pub AreColors : List ℕ → Type 0
AreColors cs = All (λ c. c < 16777216) cs

-- The colour `found` at the index i is nearer than all before it, and as near as all after it.
pub record IsFirstNearest (color : Color24) (cs : List ℕ) (i found : ℕ) : Type 0 where
  pub before : List ℕ
  pub after : List ℕ
  pub parts : cs ≡ before ++ (found ∷ after)
  pub index : i ≡ length before
  pub nearer : All (λ c. away color found < away color c) before
  pub as_near : All (λ c. away color found ≤ away color c) after

nearest-cons :
    (color : Color24) (i best key c : ℕ) (cs : List ℕ)
    → c < 16777216
    → nearest color i best key (c ∷ cs) ≡ (
        if ltb (key_of color c) key
        then nearest color (i + 1) i (key_of color c) cs
        else nearest color (i + 1) best key cs)
unfolding nearest key_of
nearest-cons color i best key c cs h = ground (arith, h)

nearest-step :
    (color : Color24) (i best key c : ℕ) (cs : List ℕ)
    → c < 16777216
    → nearest color i best key (c ∷ cs) ≡ (
        if ltb (away color c) key
        then nearest color (i + 1) i (away color c) cs
        else nearest color (i + 1) best key cs)
nearest-step color i best key c cs h =
    subst
      (λ k.
        nearest color i best key (c ∷ cs)
        ≡ (if ltb k key then nearest color (i + 1) i k cs else nearest color (i + 1) best key cs))
      (key_of-away color c h) (nearest-cons color i best key c cs h)

convert_color-cons :
    (color : Color24) (c : ℕ) (cs : List ℕ)
    → c < 16777216
    → convert_color color (c ∷ cs) ≡ nearest color 1 0 (key_of color c) cs
unfolding convert_color key_of
convert_color-cons color c cs h = ground (arith, h)

behind-IsFirstNearest :
    (color : Color24) (c k found : ℕ) (cs : List ℕ)
    → IsFirstNearest color cs k found
    → away color found < away color c
    → IsFirstNearest color (c ∷ cs) (suc k) found
behind-IsFirstNearest color c k found cs p h = record {
  before = c ∷ p.before;
  after = p.after;
  parts = ap (λ t. c ∷ t) p.parts;
  index = omega (arith, p.index);
  nearer = (h, p.nearer);
  as_near = p.as_near;
}

first-IsFirstNearest :
    (color : Color24) (c : ℕ) (cs : List ℕ)
    → All (λ x. away color c ≤ away color x) cs
    → IsFirstNearest color (c ∷ cs) 0 c
first-IsFirstNearest color c cs h = record {
  before = [];
  after = cs;
  parts = refl;
  index = refl;
  nearer = tt;
  as_near = h;
}

-- a colour of the rest is nearer than the key
record Closer (color : Color24) (cs : List ℕ) (key k : ℕ) : Type 0 where
  pub found : ℕ
  pub place : IsFirstNearest color cs k found
  pub closer : away color found < key

nearest_lem :
    (color : Color24) (i best key : ℕ) (cs : List ℕ)
    → AreColors cs
    → (r : ℕ) × (nearest color i best key cs ≡ some r)
      × (((r ≡ best) × All (λ c. key ≤ away color c) cs)
          ⊎ ((k : ℕ) × (r ≡ i + k) × Closer color cs key k))
nearest_lem color i best key [] h = (best, unfold nearest in refl, inl (refl, tt))
nearest_lem color i best key (c ∷ cs) (h, hs) =
    let step = nearest-step color i best key c cs h in
    elim (Bool-cases (ltb (away color c) key)) [
      | inl near ↦
          let (r, e, place) = nearest_lem color (i + 1) i (away color c) cs hs in
          (
            r,
            step ∙ rw near e,
            inr (elim place [
              | inl (here, rest) ↦ (
                0,
                omega (arith, here),
                record {
                  found = c;
                  place = first-IsFirstNearest color c cs rest;
                  closer = ltb→lt _ _ near;
                },
              )
              | inr (k, there, p) ↦ (
                suc k,
                omega (arith, there),
                record {
                  found = p.found;
                  place = behind-IsFirstNearest color c k p.found cs p.place p.closer;
                  closer = omega (arith, p.closer, ltb→lt _ _ near);
                },
              )
            ]),
          )
      | inr far ↦
          let (r, e, place) = nearest_lem color (i + 1) best key cs hs in
          (
            r,
            step ∙ rw far e,
            elim place [
              | inl (here, rest) ↦ inl (here, (ltb→le _ _ far, rest))
              | inr (k, there, p) ↦ inr (
                suc k,
                omega (arith, there),
                record {
                  found = p.found;
                  place =
                      behind-IsFirstNearest color c k p.found cs p.place
                        (omega (arith, p.closer, ltb→le _ _ far));
                  closer = p.closer;
                },
              )
            ],
          )
    ]

-- For a table of colours 0xRRGGBB of 24 bits that is not empty, `convert_color` gives the index of
-- the first of those at the least Euclidean distance from the colour: every colour before it is
-- farther, and none after it is nearer.
pub convert_color-IsFirstNearest :
    (color : Color24) (cs : List ℕ)
    → 0 < length cs
    → AreColors cs
    → (i found : ℕ) × (convert_color color cs ≡ some i) × IsFirstNearest color cs i found
convert_color-IsFirstNearest color [] some_color h = absurd (omega arith)
convert_color-IsFirstNearest color (c ∷ cs) some_color (h, hs) =
    let (r, e, place) = nearest_lem color 1 0 (away color c) cs hs in
    let start : convert_color color (c ∷ cs) ≡ nearest color 1 0 (away color c) cs =
      convert_color-cons color c cs h ∙ ap (λ k. nearest color 1 0 k cs) (key_of-away color c h) in
    elim place [
      | inl (here, rest) ↦ (0, c, start ∙ rw here at e, first-IsFirstNearest color c cs rest)
      | inr (k, there, p) ↦
          let there' : r ≡ suc k = omega (arith, there) in
          (
            suc k,
            p.found,
            start ∙ rw there' at e,
            behind-IsFirstNearest color c k p.found cs p.place p.closer,
          )
    ]

IsFirstNearest-lt-length :
    (color : Color24) (cs : List ℕ) (i found : ℕ) → IsFirstNearest color cs i found → i < length cs
IsFirstNearest-lt-length color cs i found p =
    let whole = ap (length {A = ℕ}) p.parts in
    omega (arith, whole, p.index, length-append p.before (found ∷ p.after))

into_u8-some : (offset i n : ℕ) → offset + i ≡ n → n < 256 → into_u8 offset (some i) ≡ some n
into_u8-some offset i n e h = ground (arith, e, h)

term16-AreColors : AreColors term16_colors
term16-AreColors = omega arith

term256-AreColors : AreColors term256_colors
term256-AreColors = omega arith

-- The table of 16 colours, and that of 240 which follows those 16: neither conversion panics, and
-- each gives the index of the first of the nearest colours of its table.
pub term_colors-IsFirstNearest :
    (color : Color24)
    → ((i found : ℕ) × (term16_color_for_rgb color ≡ some i)
        × (i < 16)
        × IsFirstNearest color term16_colors i found)
      × ((i found : ℕ) × (term256_color_for_rgb color ≡ some (16 + i))
          × (16 + i < 256)
          × IsFirstNearest color term256_colors i found)
term_colors-IsFirstNearest color =
    let (i, f, e, p) =
      convert_color-IsFirstNearest color term16_colors (omega arith) term16-AreColors in
    let (j, g, e', q) =
      convert_color-IsFirstNearest color term256_colors (omega arith) term256-AreColors in
    let small = IsFirstNearest-lt-length color term16_colors i f p in
    let few = IsFirstNearest-lt-length color term256_colors j g q in
    (
      (
        i,
        f,
        (unfold term16_color_for_rgb in
            ap (into_u8 0) e ∙ into_u8-some 0 i i (omega arith) (omega (arith, small))),
        small,
        p,
      ),
      (
        j,
        g,
        (unfold term256_color_for_rgb in
            ap (into_u8 16) e' ∙ into_u8-some 16 j (16 + j) refl (omega (arith, few))),
        omega (arith, few),
        q,
      ),
    )
