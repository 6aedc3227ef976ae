-- ===== src/Resample.antt =====
-- The resamplers' shared part: the Resampler of include/machaudio/transcode.h, and the rates, the
-- coefficients and the initialisation of processing/resample.c.
pub mod Linear
pub mod Bounds
pub mod Table
pub mod Whole
pub mod Sinc
pub mod History
pub mod Upsample
pub mod Advanced
pub mod Drift
pub mod Window
pub mod Exact
mod Tests
use mach_audio.Prelude.{
  if◌then◌else◌, replicate, ℤ, pos, ◌-ℤ◌, ◌*ℤ◌, ℕ, ◌^◌, Bool, not, ◌&&◌, ◌||◌, Option, none, some,
  List, ◌∷◌, ◌++◌, ◌==◌, replicate,
}

-- The double operations that the resamplers use; to_int drops the fraction, as a C cast does.
pub record Doubles : Type 1 where
  pub Double : Type 0
  pub of_int : ℤ → Double
  pub add : Double → Double → Double
  pub sub : Double → Double → Double
  pub mul : Double → Double → Double
  pub div : Double → Double → Double
  pub less : Double → Double → Bool
  pub floor : Double → Double
  pub ceil : Double → Double
  pub round : Double → Double
  pub to_int : Double → ℤ

-- RESAMPLER_MAX_TAPS
abbrev pub resampler_max_taps : ℕ
resampler_max_taps = 1024

pub record Resampler : Type 0 where
  pub coeffs : Option (List ℤ)
  pub taps : ℕ
  pub phases : ℕ
  pub pos_fp : ℤ
  pub delay_buf : List ℤ

-- A row of a coefficient table: two taps, and six of padding.
abbrev pub row : ℕ → ℕ → List ℤ
row c0 c1 = pos c0 ∷ pos c1 ∷ replicate 6 (pos 0)

abbrev pub coeffs_8_48 : List ℤ
coeffs_8_48 =
    row 32767 0
    ++ (row 27306 5461
        ++ (row 21845 10922 ++ (row 16384 16384 ++ (row 10922 21845 ++ row 5461 27306))))

abbrev pub coeffs_16_48 : List ℤ
coeffs_16_48 = row 32767 0 ++ (row 21845 10922 ++ row 10922 21845)

abbrev pub coeffs_24_48 : List ℤ
coeffs_24_48 = row 32767 0 ++ row 16384 16384

unfoldable pub is_rate_supported : ℕ → Bool
is_rate_supported rate =
    (rate == 8000)
    || (rate == 16000)
    || (rate == 24000)
    || (rate == 32000)
    || (rate == 44100)
    || (rate == 48000)

-- The table for three pairs of rates, and its number of phases.
unfoldable pub with_table : ℕ → ℕ → Resampler → Resampler
with_table in_rate out_rate r =
    if (in_rate == 8000) && (out_rate == 48000)
    then record r { phases = 6; coeffs = some coeffs_8_48 }
    else if (in_rate == 16000) && (out_rate == 48000)
    then record r { phases = 3; coeffs = some coeffs_16_48 }
    else if (in_rate == 24000) && (out_rate == 48000)
    then record r { phases = 2; coeffs = some coeffs_24_48 }
    else r

module _ (f : Doubles) where
  -- The delay before the first sample, from the ratio of the rates.
  unfoldable pub initial_delay : ℕ → ℕ → ℤ
  initial_delay in_rate out_rate =
      let ratio = f.div (f.of_int (pos in_rate)) (f.of_int (pos out_rate)) in
      let s = if f.less ratio (f.of_int (pos 1)) then f.of_int (pos 1) else ratio in
      f.to_int (f.ceil (f.mul s (f.of_int (pos 64))))

  -- The resampler before a table is chosen.
  abbrev pub initial : ℕ → ℕ → Resampler
  initial in_rate out_rate = record {
    coeffs = none;
    taps = 2;
    phases = 0;
    pos_fp = pos 0 -ℤ (initial_delay in_rate out_rate *ℤ pos (2 ^ 32));
    delay_buf = replicate resampler_max_taps (pos 0);
  }

  -- `none` is the return value -1, which leaves the resampler as it is.
  unfoldable pub resampler_init : ℕ → ℕ → Option Resampler
  resampler_init in_rate out_rate =
      if not (is_rate_supported in_rate) || not (is_rate_supported out_rate)
      then none
      else some (with_table in_rate out_rate (initial in_rate out_rate))
