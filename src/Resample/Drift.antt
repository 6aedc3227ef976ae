-- ===== src/Resample/Drift.antt =====
-- Calls of `resample_l16_advanced` one after the other, on one block of samples.
use mach_audio.Prelude.{
  ltb, Bool-cases, length, take, length-append, length-drop, ℤ, pos, negsuc, pos_part, neg_part,
  ◌+ℤ◌, ◌-ℤ◌, floor_div, +ℤ_parts, -ℤ_parts, eq_of_parts, ℕ, zero, suc, ◌+◌, ◌-◌, ◌*◌, ◌/◌, ◌^◌,
  ◌≤◌, ◌<◌, ◌≡◌, refl, ap, ◌⊎◌, inl, inr, true, false, Option, none, some, List, [], ◌∷◌, ◌++◌,
  arith, ◌==◌,
}
use mach_audio.Prelude.Options.{◌>>=◌}
use mach_audio.Resample.{Doubles, Resampler, resampler_max_taps}
use mach_audio.Resample.Advanced.{IsUpsampling, advance}
use mach_audio.Resample.Bounds.{sign_cases}
use mach_audio.Resample.History.{last_elements, update_history-eq-last_elements}
use mach_audio.Resample.Sinc.{
  at_int, center_off, clamp_to_int16, i64?, is_inside, is_int, low_word, out_samples_of, output,
  outputs, pad_buf, padded_sample, phase_of, polyphase, ratio_of, resample_l16_advanced,
  update_history,
}
use mach_audio.Resample.Upsample.{IsDoubles, IsSincTable, add_twice, i64?-some}

-- A position from which the first tap lies before the delay buffer.
abbrev pub IsBefore : ℤ → Type 0
IsBefore p = (resampler_max_taps - center_off) * 2 ^ 32 < neg_part p

pad_buf-none :
    (delay_buf in_data : List ℤ) (in_samples : ℕ) (k : ℤ) (count : ℕ)
    → resampler_max_taps < neg_part k
    → pad_buf delay_buf in_data in_samples k (suc count) ≡ none
unfolding pad_buf padded_sample is_int at_int
pad_buf-none delay_buf in_data in_samples (pos n) count h = absurd (omega arith)
pad_buf-none delay_buf in_data in_samples (negsuc n) count h =
    let at : pos resampler_max_taps +ℤ negsuc n ≡ negsuc (n - resampler_max_taps) =
      eq_of_parts (pos resampler_max_taps +ℤ negsuc n) (negsuc (n - resampler_max_taps))
        (omega (arith, h, +ℤ_parts (pos resampler_max_taps) (negsuc n))) in
    let before : ltb 0 (0 + suc n) ≡ true = ground arith in
    elim (Bool-cases (ltb n (2 ^ 31))) [ inl e ↦ rw (e, before, at) refl | inr e ↦ rw e refl ]

abbrev absent : {B : Type 0} → Option B
absent = none

nothing_left :
    {A B C : Type 0} (m : Option A) (g : B → Option C) → ((m >>= λ _. absent) >>= g) ≡ none
nothing_left none g = refl
nothing_left (some a) g = refl

module _ (f : Doubles) (table : List (List ℤ)) where
  output-none :
      (delay_buf in_data : List ℤ) (in_samples : ℕ) (ratio : f.Double) (p : ℤ)
      → f.less ratio (f.of_int (pos 1)) ≡ false
      → IsBefore p
      → output f table delay_buf in_data in_samples ratio p ≡ none
  unfolding output polyphase
  output-none delay_buf in_data in_samples ratio (pos n) up low = absurd (omega arith)
  output-none delay_buf in_data in_samples ratio (negsuc n) up low =
      rw (up, outside, pad_buf-none delay_buf in_data in_samples start 127 before)
        (nothing_left (at_int table phase) (λ dacc. some (clamp_to_int16 f table dacc)))
    where
      phase : ℤ
      phase =
          phase_of f table (f.div (f.of_int (pos (low_word (negsuc n)))) (f.of_int (pos (2 ^ 32))))

      start : ℤ
      start = floor_div (negsuc n) (2 ^ 32) -ℤ pos center_off

      outside : is_inside (floor_div (negsuc n) (2 ^ 32)) in_samples ≡ false
      outside = unfold is_inside floor_div in ground arith

      before : resampler_max_taps < neg_part start
      before =
          unfold floor_div in
          elim (sign_cases (negsuc (n / 2 ^ 32) -ℤ pos center_off)) [
            | inl e ↦ omega (arith, e, -ℤ_parts (negsuc (n / 2 ^ 32)) (pos center_off))
            | inr e ↦ omega (arith, e, low, -ℤ_parts (negsuc (n / 2 ^ 32)) (pos center_off))
          ]

  -- `count` calls, one after the other.
  unfoldable pub calls : ℕ → ℕ → List ℤ → ℕ → ℕ → Resampler → ℕ → Option Resampler
  calls in_rate out_rate in_data in_samples out_capacity r zero = some r
  calls in_rate out_rate in_data in_samples out_capacity r (suc count) =
      resample_l16_advanced f table r in_rate out_rate in_data in_samples out_capacity >>= λ result.
      calls in_rate out_rate in_data in_samples out_capacity result.2 count

some_or_none : {A : Type 0} (o : Option A) → (o ≡ none) ⊎ ((a : A) × (o ≡ some a))
some_or_none none = inl refl
some_or_none (some a) = inr (a, refl)

i64?-or : (z : ℤ) → (i64? z ≡ none) ⊎ (i64? z ≡ some z)
unfolding i64?
i64?-or (pos n) = elim (Bool-cases (ltb n (2 ^ 63))) [
  | inl e ↦ inr (rw e refl)
  | inr e ↦ inl (rw e refl)
]
i64?-or (negsuc n) = elim (Bool-cases (ltb n (2 ^ 63))) [
  | inl e ↦ inr (rw e refl)
  | inr e ↦ inl (rw e refl)
]

-- Outputs that fault nowhere move the position on by their steps.
outputs-or :
    (f : Doubles) (table : List (List ℤ)) (delay_buf in_data : List ℤ) (in_samples : ℕ)
    (ratio : f.Double) (step : ℕ) (p : ℤ) (count : ℕ)
    → let got = outputs f table delay_buf in_data in_samples ratio (pos step) p count in
      (got ≡ none) ⊎ ((ys : List ℤ) × (got ≡ some (ys, p +ℤ pos (count * step))))
unfolding outputs
outputs-or f table delay_buf in_data in_samples ratio step p zero = inr (
  [],
  ap (λ z. some ([], z))
      (eq_of_parts p (p +ℤ pos (0 * step)) (omega (arith, +ℤ_parts p (pos (0 * step))))),
)
outputs-or f table delay_buf in_data in_samples ratio step p (suc count) =
    elim (some_or_none (output f table delay_buf in_data in_samples ratio p)) [
      | inl e ↦ inl (rw e refl)
      | inr (y, e) ↦ elim (i64?-or (p +ℤ pos step)) [
        | inl m ↦ inl (rw (e, m) refl)
        | inr m ↦
            elim (outputs-or f table delay_buf in_data in_samples ratio step (p +ℤ pos step)
              count) [
                | inl g ↦ inl (rw (e, m, g) refl)
                | inr (ys, g) ↦ inr (
                  y ∷ ys,
                  rw (e, m, g)
                      (ap (λ z. some (y ∷ ys, z))
                        (add_twice p step (count * step) (suc count * step) (omega arith))),
                )
              ]
      ]
    ]

advance-back :
    (p : ℤ) (a b : ℕ)
    → a < b
    → (pos_part (p +ℤ pos a -ℤ pos b) + neg_part p < pos_part p + neg_part (p +ℤ pos a -ℤ pos b))
      × (pos_part (p +ℤ pos a -ℤ pos b) ≤ pos_part p)
advance-back p a b h =
    let one = +ℤ_parts p (pos a) in
    let two = -ℤ_parts (p +ℤ pos a) (pos b) in
    (
      omega (arith, one, two),
      elim (sign_cases (p +ℤ pos a -ℤ pos b)) [
        | inl e ↦ omega (arith, one, two, e)
        | inr e ↦ omega (arith, e)
      ],
    )

module _ (f : Doubles) (ieee : IsDoubles f) (table : List (List ℤ)) (full_table : IsSincTable table)
    (in_rate out_rate : ℕ) (in_data : List ℤ) (in_samples out_capacity step : ℕ)
    (h : IsUpsampling f in_rate out_rate in_data in_samples out_capacity step) where
  abbrev pub block_out : ℕ
  block_out = out_samples_of f (ratio_of f in_rate out_rate) in_samples

  abbrev repeat : Resampler → ℕ → Option Resampler
  repeat = calls f table in_rate out_rate in_data in_samples out_capacity

  faults_now : (r : Resampler) → 0 < block_out → IsBefore r.pos_fp → repeat r 1 ≡ none
  unfolding calls resample_l16_advanced outputs
  faults_now r some_out low = go block_out refl
    where
      apart : (in_rate == out_rate) ≡ false
      apart = let differ = h.differ in ground arith

      room : ltb out_capacity block_out ≡ false
      room = let fit = h.room in ground arith

      go : (n : ℕ) → block_out ≡ n → repeat r 1 ≡ none
      go zero e = absurd (omega arith)
      go (suc n) e =
          let full = rw e at room in
          rw
            (
              apart,
              e,
              full,
              h.steps,
              output-none f table r.delay_buf in_data in_samples (ratio_of f in_rate out_rate)
                  r.pos_fp h.up low,
            )
            refl

  -- A call faults, or moves the position on and keeps the history.
  call-or :
      (r : Resampler)
      → length r.delay_buf ≡ resampler_max_taps
      → let got =
          resample_l16_advanced f table r in_rate out_rate in_data in_samples out_capacity in
        (got ≡ none)
        ⊎ ((ys : List ℤ) × (got
              ≡ some (
                block_out,
                ys,
                record r {
                  pos_fp = advance r.pos_fp step block_out in_samples;
                  delay_buf =
                      last_elements resampler_max_taps (r.delay_buf ++ take in_samples in_data);
                },
              )))
  unfolding resample_l16_advanced
  call-or r full =
      elim (outputs-or f table r.delay_buf in_data in_samples (ratio_of f in_rate out_rate) step
        r.pos_fp block_out) [
          | inl e ↦ inl (rw (apart, room, h.steps, e) refl)
          | inr (ys, e) ↦ elim (i64?-or (advance r.pos_fp step block_out in_samples)) [
            | inl m ↦ inl (rw (apart, room, h.steps, e, history, consumed, m) refl)
            | inr m ↦ inr (ys, rw (apart, room, h.steps, e, history, consumed, m) refl)
          ]
        ]
    where
      apart : (in_rate == out_rate) ≡ false
      apart = let differ = h.differ in ground arith

      room : ltb out_capacity block_out ≡ false
      room = let fit = h.room in ground arith

      history :
          update_history r.delay_buf in_data in_samples
          ≡ some (last_elements resampler_max_taps (r.delay_buf ++ take in_samples in_data))
      history = update_history-eq-last_elements r.delay_buf in_data in_samples full h.fits

      consumed : i64? (pos (in_samples * 2 ^ 32)) ≡ some (pos (in_samples * 2 ^ 32))
      consumed = i64?-some (pos (in_samples * 2 ^ 32)) (omega (arith, h.short)) (omega arith)

  drift :
      (fuel : ℕ) (r : Resampler)
      → length r.delay_buf ≡ resampler_max_taps
      → 0 < block_out
      → block_out * step < in_samples * 2 ^ 32
      → pos_part r.pos_fp + (resampler_max_taps - center_off) * 2 ^ 32 < fuel + neg_part r.pos_fp
      → (m : ℕ) × (repeat r m ≡ none)
  unfolding calls
  drift zero r full some_out loses enough = (1, faults_now r some_out (omega arith))
  drift (suc fuel) r full some_out loses enough = elim (call-or r full) [
    | inl faulted ↦ (1, rw faulted refl)
    | inr (ys, one) ↦
        let rest = drift fuel after after_full some_out loses (omega (arith, enough, back.0)) in
        (suc rest.0, rw one rest.1)
  ]
    where
      after : Resampler
      after = record r {
        pos_fp = advance r.pos_fp step block_out in_samples;
        delay_buf = last_elements resampler_max_taps (r.delay_buf ++ take in_samples in_data);
      }

      back :
          (pos_part after.pos_fp + neg_part r.pos_fp < pos_part r.pos_fp + neg_part after.pos_fp)
          × (pos_part after.pos_fp ≤ pos_part r.pos_fp)
      back = advance-back r.pos_fp (block_out * step) (in_samples * 2 ^ 32) loses

      after_full : length after.delay_buf ≡ resampler_max_taps
      after_full = omega (
        arith,
        full,
        length-drop (length (r.delay_buf ++ take in_samples in_data) - resampler_max_taps)
            (r.delay_buf ++ take in_samples in_data),
        length-append r.delay_buf (take in_samples in_data),
      )

  -- Let the table have SINC_PHASES rows of SINC_TAPS coefficients, and let calls upsample one and
  -- the same block: `IsUpsampling`, at least one output sample, and a full delay buffer with a
  -- position that the steps of one call leave below 2 ^ 63. If the block's output covers less than
  -- the block (out_samples * step_fp < in_samples << 32), then some number of such calls, one after
  -- the other, reads before the start of the delay buffer or overflows a signed number.
  pub resample_l16_advanced-drifts :
      (r : Resampler)
      → length r.delay_buf ≡ resampler_max_taps
      → pos_part r.pos_fp + block_out * step < 2 ^ 63
      → 0 < block_out
      → block_out * step < in_samples * 2 ^ 32
      → (count : ℕ) × (calls f table in_rate out_rate in_data in_samples out_capacity r count
          ≡ none)
  resample_l16_advanced-drifts r full high some_out loses =
      drift (pos_part r.pos_fp + (resampler_max_taps - center_off) * 2 ^ 32 + 1) r full some_out
        loses (omega arith)
