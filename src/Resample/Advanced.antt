-- ===== src/Resample/Advanced.antt =====
-- A whole call of `resample_l16_advanced` that upsamples.
use mach_audio.Prelude.{
  ltb, length, take, ℤ, pos, pos_part, neg_part, ◌+ℤ◌, ◌-ℤ◌, +ℤ_parts, -ℤ_parts, ℕ, ◌+◌, ◌-◌, ◌*◌,
  ◌^◌, ◌≤◌, ◌<◌, ◌≡◌, refl, ◌≢◌, inl, inr, false, some, List, ◌++◌, arith, ◌==◌,
}
use mach_audio.Mix.Saturate.{AreI16}
use mach_audio.Resample.{Doubles, Resampler, resampler_max_taps}
use mach_audio.Resample.Bounds.{sign_cases}
use mach_audio.Resample.History.{last_elements, update_history-eq-last_elements}
use mach_audio.Resample.Sinc.{
  center_off, i64?, out_samples_of, ratio_of, resample_l16_advanced, step_of, update_history,
}
use mach_audio.Resample.Upsample.{IsDoubles, IsSincTable, i64?-some, outputs-some}

-- The position after a call.
abbrev pub advance : ℤ → ℕ → ℕ → ℕ → ℤ
advance p step out_samples in_samples = p +ℤ pos (out_samples * step) -ℤ pos (in_samples * 2 ^ 32)

-- What a call that upsamples is handed: rates that differ and whose ratio is not below 1, a step
-- that is not negative, room for the output, and an input that is not empty and shorter than 2 ^ 30.
pub record IsUpsampling (f : Doubles) (in_rate out_rate : ℕ) (in_data : List ℤ)
    (in_samples out_capacity step : ℕ) : Type 0 where
  pub differ : in_rate ≢ out_rate
  pub up : f.less (ratio_of f in_rate out_rate) (f.of_int (pos 1)) ≡ false
  pub steps : step_of f (ratio_of f in_rate out_rate) ≡ pos step
  pub room : out_samples_of f (ratio_of f in_rate out_rate) in_samples ≤ out_capacity
  pub some_input : 0 < in_samples
  pub fits : in_samples ≤ length in_data
  pub short : in_samples < 2 ^ 30

module _ (f : Doubles) (ieee : IsDoubles f) (table : List (List ℤ))
    (full_table : IsSincTable table) where
  -- Let the table have SINC_PHASES rows of SINC_TAPS coefficients, and let the doubles give each
  -- fraction a phase that is not negative. Let the delay buffer be full, and the position one from
  -- which no tap lies before that buffer, and that after the steps of all output samples is below
  -- 2 ^ 31 - 64 samples. Then a call that upsamples (`IsUpsampling`: an input that is not empty and
  -- shorter than 2 ^ 30, a step that is not negative, and room for the output) returns. It stores
  -- 16-bit samples, as many as it returns; the position moves on by the steps of these and back by
  -- the input's length, and the delay buffer holds the last 1024 samples of the one before and the
  -- input.
  pub resample_l16_advanced-returns :
      (r : Resampler) (in_rate out_rate : ℕ) (in_data : List ℤ) (in_samples out_capacity step : ℕ)
      → let out_samples = out_samples_of f (ratio_of f in_rate out_rate) in_samples in
        IsUpsampling f in_rate out_rate in_data in_samples out_capacity step
        → length r.delay_buf ≡ resampler_max_taps
        → neg_part r.pos_fp ≤ (resampler_max_taps - center_off) * 2 ^ 32
        → pos_part r.pos_fp + out_samples * step < (2 ^ 31 - 64) * 2 ^ 32
        → (ys : List ℤ) × (resample_l16_advanced f table r in_rate out_rate in_data in_samples
              out_capacity
            ≡ some (
              out_samples,
              ys,
              record r {
                pos_fp = advance r.pos_fp step out_samples in_samples;
                delay_buf =
                    last_elements resampler_max_taps (r.delay_buf ++ take in_samples in_data);
              },
            ))
          × (length ys ≡ out_samples)
          × AreI16 ys
  unfolding resample_l16_advanced
  resample_l16_advanced-returns r in_rate out_rate in_data in_samples out_capacity step h full low
        high =
      let run =
        outputs-some r.delay_buf in_data in_samples full h.some_input h.fits
          (omega (arith, h.short)) f ieee table full_table (ratio_of f in_rate out_rate) step
          r.pos_fp out_samples h.up (low, high) in
      (run.0, rw (apart, room, h.steps, run.1, history, consumed, after) refl, run.2, run.3)
    where
      out_samples : ℕ
      out_samples = out_samples_of f (ratio_of f in_rate out_rate) in_samples

      apart : (in_rate == out_rate) ≡ false
      apart = let differ = h.differ in ground arith

      room : ltb out_capacity out_samples ≡ false
      room = let fit = h.room in ground arith

      history :
          update_history r.delay_buf in_data in_samples
          ≡ some (last_elements resampler_max_taps (r.delay_buf ++ take in_samples in_data))
      history = update_history-eq-last_elements r.delay_buf in_data in_samples full h.fits

      consumed : i64? (pos (in_samples * 2 ^ 32)) ≡ some (pos (in_samples * 2 ^ 32))
      consumed = i64?-some (pos (in_samples * 2 ^ 32)) (omega (arith, h.short)) (omega arith)

      after :
          i64? (advance r.pos_fp step out_samples in_samples)
          ≡ some (advance r.pos_fp step out_samples in_samples)
      after =
          let p = r.pos_fp in
          let q = p +ℤ pos (out_samples * step) in
          let total = pos (in_samples * 2 ^ 32) in
          elim (sign_cases (q -ℤ total)) [
            | inl e ↦ elim (sign_cases q) [
              | inl d ↦
                  i64?-some (q -ℤ total)
                    (omega
                      (arith, high, +ℤ_parts p (pos (out_samples * step)), -ℤ_parts q total, d, e))
                    (omega (arith, e))
              | inr d ↦
                  i64?-some (q -ℤ total) (omega (arith, -ℤ_parts q total, d, e)) (omega (arith, e))
            ]
            | inr e ↦ i64?-some (q -ℤ total) (omega (arith, e)) (
                omega (
                  arith,
                  h.short,
                  low,
                  high,
                  +ℤ_parts p (pos (out_samples * step)),
                  -ℤ_parts q total,
                  e,
                ))
          ]
