-- ===== src/Resample/Upsample.antt =====
-- `resample_l16_advanced` in the upsampling direction: the polyphase path returns, and what it
-- leaves.
use mach_audio.Prelude.{
  ltb, leb, Bool-cases, length, get_elem?, take, drop, length-take, ℤ, pos, negsuc, pos_part,
  neg_part, ◌+ℤ◌, ◌-ℤ◌, floor_div, +ℤ_parts, -ℤ_parts, eq_of_parts, i16, IsI16, ℕ, zero, suc, ◌+◌,
  ◌-◌, ◌*◌, ◌^◌, ◌≤◌, ◌<◌, ◌≡◌, refl, ap, inl, inr, true, false, some, List, [], ◌∷◌, arith,
  if_cases,
}
use mach_audio.Codec.{int_of_size}
use mach_audio.Mix.Saturate.{AreI16}
use mach_audio.Resample.{Doubles, resampler_max_taps}
use mach_audio.Resample.Bounds.{sign_cases}
use mach_audio.Resample.Sinc.{
  at_int, center_off, clamp_to_int16, i64?, is_inside, is_int, last_of, low_word, mac, number,
  output, outputs, pad_buf, padded_sample, phase_of, polyphase, sinc_phases, sinc_taps, window,
}

-- A fraction with 32 bits has a phase that is not negative.
pub record IsDoubles (f : Doubles) : Type 0 where
  pub phase_fits :
      (n : ℕ)
      → n < 2 ^ 32
      → (p : ℕ) × (f.to_int (
            f.mul (f.div (f.of_int (pos n)) (f.of_int (pos (2 ^ 32)))) (f.of_int (pos sinc_phases)))
          ≡ pos p)

-- Every row has SINC_TAPS coefficients.
abbrev pub HaveTaps : List (List ℤ) → Type 0
HaveTaps [] = Unit {0}
HaveTaps (row ∷ rows) = (length row ≡ sinc_taps) × HaveTaps rows

-- A table of SINC_PHASES rows of SINC_TAPS coefficients.
pub record IsSincTable (table : List (List ℤ)) : Type 0 where
  pub rows : length table ≡ sinc_phases
  pub taps : HaveTaps table

row-some :
    (table : List (List ℤ)) (i : ℕ)
    → HaveTaps table
    → i < length table
    → (cs : List ℤ) × (get_elem? table i ≡ some cs) × (length cs ≡ sinc_taps)
row-some [] i taps h = absurd (omega arith)
row-some (row ∷ rows) zero taps h = (row, refl, taps.0)
row-some (row ∷ rows) (suc i) taps h = row-some rows i taps.1 (omega arith)

mac-some :
    (f : Doubles) (table : List (List ℤ)) (acc : f.Double) (xs cs : List ℤ)
    → length xs ≤ length cs
    → (y : f.Double) × (mac f table acc xs cs ≡ some y)
unfolding mac
mac-some f table acc [] cs h = (acc, refl)
mac-some f table acc (x ∷ xs) [] h = absurd (omega arith)
mac-some f table acc (x ∷ xs) (c ∷ cs) h =
    mac-some f table (f.add acc (f.mul (f.of_int x) (f.of_int c))) xs cs (omega arith)

get_elem?-some :
    {A : Type 0} (xs : List A) (i : ℕ) → i < length xs → (x : A) × (get_elem? xs i ≡ some x)
get_elem?-some [] i h = absurd (omega arith)
get_elem?-some (x ∷ xs) zero h = (x, refl)
get_elem?-some (x ∷ xs) (suc i) h = get_elem?-some xs i (omega arith)

i16-IsI16 : (z : ℤ) → IsI16 (i16 z)
i16-IsI16 (pos n) = ground arith
i16-IsI16 (negsuc n) = ground arith

clamp-IsI16 :
    (f : Doubles) (table : List (List ℤ)) (x : f.Double) → IsI16 (clamp_to_int16 f table x)
unfolding clamp_to_int16
clamp-IsI16 f table x =
    if_cases IsI16 (f.less (number f table 32767) (f.round x)) (pos 32767) _ (λ _. omega arith)
      (λ _.
        if_cases IsI16 (f.less (f.round x) (f.of_int (negsuc 32767))) (negsuc 32767) _
          (λ _. omega arith) (λ _. i16-IsI16 (f.to_int (f.round x))))

low_word-fits : (p : ℤ) → low_word p < 2 ^ 32
unfolding low_word
low_word-fits (pos n) = omega arith
low_word-fits (negsuc n) = omega arith

floor_div-above :
    (p : ℤ) (bound : ℕ)
    → pos_part p < bound * 2 ^ 32
    → 0 < bound
    → pos_part (floor_div p (2 ^ 32)) < bound
unfolding floor_div
floor_div-above (pos n) bound h some_bound = omega arith
floor_div-above (negsuc n) bound h some_bound = omega arith

floor_div-below :
    (p : ℤ) (bound : ℕ) → neg_part p ≤ bound * 2 ^ 32 → neg_part (floor_div p (2 ^ 32)) ≤ bound
unfolding floor_div
floor_div-below (pos n) bound h = omega arith
floor_div-below (negsuc n) bound h = omega arith

pub i64?-some : (z : ℤ) → pos_part z < 2 ^ 63 → neg_part z ≤ 2 ^ 63 → i64? z ≡ some z
unfolding i64?
i64?-some (pos n) h k = ground arith
i64?-some (negsuc n) h k = ground arith

pub add_twice : (p : ℤ) (a b c : ℕ) → a + b ≡ c → (p +ℤ pos a) +ℤ pos b ≡ p +ℤ pos c
add_twice p a b c e =
    eq_of_parts (p +ℤ pos a +ℤ pos b) (p +ℤ pos c)
      (omega (arith, +ℤ_parts p (pos a), +ℤ_parts (p +ℤ pos a) (pos b), +ℤ_parts p (pos c), e))

-- The loop's arrays: a full delay buffer, and an input that is not empty.
module _ (delay_buf in_data : List ℤ) (in_samples : ℕ)
    (full : length delay_buf ≡ resampler_max_taps) (some_input : 0 < in_samples)
    (fits : in_samples ≤ length in_data) (short : in_samples < 2 ^ 31) where
  pub size_exact : int_of_size in_samples ≡ pos in_samples
  size_exact = ground arith

  last-some : (n : ℕ) → 0 < n → n ≤ length in_data → (x : ℤ) × (last_of in_data n ≡ some x)
  unfolding last_of
  last-some zero h fit = absurd (omega arith)
  last-some (suc last) h fit = get_elem?-some in_data last (omega arith)

  padded-some :
      (k : ℤ)
      → neg_part k ≤ resampler_max_taps
      → pos_part k < 2 ^ 31
      → (x : ℤ) × (padded_sample delay_buf in_data in_samples k ≡ some x)
  unfolding padded_sample is_int at_int
  padded-some (negsuc n) h k =
      let fits_int : ltb n (2 ^ 31) ≡ true = ground arith in
      let at : pos resampler_max_taps +ℤ negsuc n ≡ pos (resampler_max_taps - suc n) =
        eq_of_parts (pos resampler_max_taps +ℤ negsuc n) (pos (resampler_max_taps - suc n))
          (omega (arith, +ℤ_parts (pos resampler_max_taps) (negsuc n))) in
      let before : ltb 0 (0 + suc n) ≡ true = ground arith in
      let x = get_elem?-some delay_buf (resampler_max_taps - suc n) (omega (arith, full)) in
      (x.0, rw (fits_int, before, at) x.1)
  padded-some (pos n) h k = elim (Bool-cases (ltb n in_samples)) [
    | inl inside ↦
        let x = get_elem?-some in_data n (ground arith) in
        let fits_int : ltb n (2 ^ 31) ≡ true = ground arith in
        let after : ltb (n + 0) 0 ≡ false = ground arith in
        let test : ltb (n + 0) (in_samples + 0) ≡ true = ground arith in
        (x.0, rw (fits_int, after, size_exact, test) x.1)
    | inr outside ↦
        let x = last-some in_samples some_input fits in
        let fits_int : ltb n (2 ^ 31) ≡ true = ground arith in
        let after : ltb (n + 0) 0 ≡ false = ground arith in
        let test : ltb (n + 0) (in_samples + 0) ≡ false = ground arith in
        (x.0, rw (fits_int, after, size_exact, test) x.1)
  ]

  next :
      (k : ℤ) (bound : ℕ)
      → neg_part k ≤ resampler_max_taps
      → pos_part k < bound
      → (neg_part (k +ℤ pos 1) ≤ resampler_max_taps) × (pos_part (k +ℤ pos 1) < suc bound)
  next k bound low high =
      let parts = +ℤ_parts k (pos 1) in
      elim (sign_cases (k +ℤ pos 1)) [
        | inl e ↦ (omega (arith, e), omega (arith, parts, e))
        | inr e ↦ (omega (arith, parts, e), omega (arith, e))
      ]

  pad_buf-some :
      (k : ℤ) (count bound : ℕ)
      → neg_part k ≤ resampler_max_taps
      → pos_part k < bound
      → bound + count ≤ 2 ^ 31 + 1
      → (xs : List ℤ) × (pad_buf delay_buf in_data in_samples k count ≡ some xs)
        × (length xs ≡ count)
  unfolding pad_buf
  pad_buf-some k zero bound low high room = ([], refl, refl)
  pad_buf-some k (suc count) bound low high room =
      let first = padded-some k low (omega arith) in
      let more = next k bound low high in
      let rest = pad_buf-some (k +ℤ pos 1) count (suc bound) more.0 more.1 (omega arith) in
      (first.0 ∷ rest.0, rw (first.1, rest.1) refl, ap suc rest.2)

  window-some :
      (idx : ℤ)
      → is_inside idx in_samples ≡ true
      → (xs : List ℤ) × (window in_data (idx -ℤ pos center_off) sinc_taps ≡ some xs)
        × (length xs ≤ sinc_taps)
  unfolding is_inside window
  window-some (negsuc n) inside = absurd (ground arith)
  window-some (pos i) inside =
      let start : pos i -ℤ pos center_off ≡ pos (i - center_off) =
        eq_of_parts (pos i -ℤ pos center_off) (pos (i - center_off))
          (omega (arith, -ℤ_parts (pos i) (pos center_off), bounds.0)) in
      let room : leb (i - center_off + sinc_taps) (length in_data) ≡ true =
        ground (arith, bounds) in
      (
        take sinc_taps (drop (i - center_off) in_data),
        rw (start, room) refl,
        omega (arith, length-take sinc_taps (drop (i - center_off) in_data)),
      )
    where
      bounds : (center_off ≤ i) × (i + (sinc_taps - center_off) ≤ in_samples)
      bounds =
          let exact = rw size_exact at inside in
          let limit = -ℤ_parts (pos in_samples) (pos (sinc_taps - center_off)) in
          (ground arith, ground arith)

  -- The next positions stay behind the delay buffer's start, and so far below 2 ^ 63 that all taps
  -- around them have an `int` for their index.
  abbrev pub InRange : ℤ → ℕ → ℕ → Type 0
  InRange p step count =
      (neg_part p ≤ (resampler_max_taps - center_off) * 2 ^ 32)
      × (pos_part p + count * step < (2 ^ 31 - 64) * 2 ^ 32)

  next_position :
      (p : ℤ) (step count : ℕ)
      → InRange p step (suc count)
      → (i64? (p +ℤ pos step) ≡ some (p +ℤ pos step)) × InRange (p +ℤ pos step) step count
  next_position p step count range = elim (sign_cases (p +ℤ pos step)) [
    | inl e ↦
        let parts = +ℤ_parts p (pos step) in
        (
          i64?-some (p +ℤ pos step) (omega (arith, range, parts, e)) (omega (arith, e)),
          (omega (arith, e), omega (arith, range, parts, e)),
        )
    | inr e ↦
        let parts = +ℤ_parts p (pos step) in
        (
          i64?-some (p +ℤ pos step) (omega (arith, e)) (omega (arith, range, parts, e)),
          (omega (arith, range, parts, e), omega (arith, range, parts, e)),
        )
  ]

  module _ (f : Doubles) (ieee : IsDoubles f) (table : List (List ℤ))
      (full_table : IsSincTable table) where
    row_at :
        (n : ℕ)
        → n < 2 ^ 32
        → (cs : List ℤ) × (at_int table
              (phase_of f table (f.div (number f table n) (number f table (2 ^ 32))))
            ≡ some cs)
          × (length cs ≡ sinc_taps)
    unfolding phase_of at_int
    row_at n small =
        let m = ieee.phase_fits n small in
        elim (Bool-cases (ltb (m.0 + 0) (sinc_phases + 0))) [
          | inl below ↦
              let rows = full_table.rows in
              let cs = row-some table m.0 full_table.taps (ground (arith, rows)) in
              (cs.0, rw (m.1, below) cs.1, cs.2)
          | inr above ↦
              let cs =
                row-some table (sinc_phases - 1) full_table.taps (omega (arith, full_table.rows)) in
              (cs.0, rw (m.1, above) cs.1, cs.2)
        ]

    output-some :
        (ratio : f.Double) (p : ℤ)
        → f.less ratio (number f table 1) ≡ false
        → neg_part p ≤ (resampler_max_taps - center_off) * 2 ^ 32
        → pos_part p < (2 ^ 31 - 64) * 2 ^ 32
        → (y : ℤ) × (output f table delay_buf in_data in_samples ratio p ≡ some y) × IsI16 y
    unfolding output polyphase
    output-some ratio p up low high = elim (Bool-cases (is_inside idx in_samples)) [
      | inl inside ↦
          let xs = window-some idx inside in
          let y = sum xs.0 xs.2 in
          (
            clamp_to_int16 f table (f.div y.0 (number f table 32767)),
            rw (up, cs.1, inside, xs.1, y.1) refl,
            clamp-IsI16 f table (f.div y.0 (number f table 32767)),
          )
      | inr near_end ↦
          let xs =
            pad_buf-some (idx -ℤ pos center_off) sinc_taps (2 ^ 31 - 127) before behind
              (omega arith) in
          let y = sum xs.0 (omega (arith, xs.2)) in
          (
            clamp_to_int16 f table (f.div y.0 (number f table 32767)),
            rw (up, cs.1, near_end, xs.1, y.1) refl,
            clamp-IsI16 f table (f.div y.0 (number f table 32767)),
          )
    ]
      where
        idx : ℤ
        idx = floor_div p (2 ^ 32)

        before : neg_part (idx -ℤ pos center_off) ≤ resampler_max_taps
        before =
            let whole = floor_div-below p (resampler_max_taps - center_off) low in
            elim (sign_cases (idx -ℤ pos center_off)) [
              | inl e ↦ omega arith
              | inr e ↦ omega (arith, whole, -ℤ_parts idx (pos center_off))
            ]

        behind : pos_part (idx -ℤ pos center_off) < 2 ^ 31 - 127
        behind =
            let whole = floor_div-above p (2 ^ 31 - 64) high (omega arith) in
            elim (sign_cases (idx -ℤ pos center_off)) [
              | inl e ↦ omega (arith, whole, -ℤ_parts idx (pos center_off), e)
              | inr e ↦ omega (arith, e)
            ]

        cs :
            (cs : List ℤ) × (at_int table
                (phase_of f table (f.div (number f table (low_word p)) (number f table (2 ^ 32))))
              ≡ some cs)
            × (length cs ≡ sinc_taps)
        cs = row_at (low_word p) (low_word-fits p)

        sum :
            (xs : List ℤ)
            → length xs ≤ sinc_taps
            → (y : f.Double) × (mac f table (number f table 0) xs cs.0 ≡ some y)
        sum xs short = mac-some f table (number f table 0) xs cs.0 (omega (arith, short, cs.2))

    pub outputs-some :
        (ratio : f.Double) (step : ℕ) (p : ℤ) (count : ℕ)
        → f.less ratio (number f table 1) ≡ false
        → InRange p step count
        → (ys : List ℤ) × (outputs f table delay_buf in_data in_samples ratio (pos step) p count
            ≡ some (ys, p +ℤ pos (count * step)))
          × (length ys ≡ count)
          × AreI16 ys
    unfolding outputs
    outputs-some ratio step p zero up range = (
      [],
      ap (λ z. some ([], z))
          (eq_of_parts p (p +ℤ pos (0 * step)) (omega (arith, +ℤ_parts p (pos (0 * step))))),
      refl,
      tt,
    )
    outputs-some ratio step p (suc count) up range =
        let y = output-some ratio p up range.0 (omega (arith, range)) in
        let moved = next_position p step count range in
        let rest = outputs-some ratio step (p +ℤ pos step) count up moved.1 in
        (
          y.0 ∷ rest.0,
          rw (y.1, moved.0, rest.1)
              (ap (λ z. some (y.0 ∷ rest.0, z))
                (add_twice p step (count * step) (suc count * step) (omega arith))),
          ap suc rest.2,
          (y.2, rest.3),
        )
