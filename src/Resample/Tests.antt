-- ===== src/Resample/Tests.antt =====
-- The resamplers' theorems at concrete rates, samples and states.
use mach_audio.Prelude.{
  length, take, replicate, length-replicate, ℤ, pos, negsuc, ◌-ℤ◌, ◌*ℤ◌, floor_div, ℕ, zero, suc,
  ◌-◌, ◌*◌, ◌/◌, ◌^◌, ◌≤◌, ◌≡◌, refl, ◌≢◌, none, some, List, [], ◌∷◌, ◌++◌, arith,
}
use mach_audio.Mix.Saturate.{AreI16}
use mach_audio.Prelude.Options.{◌>>=◌}
use mach_audio.Resample.{
  Resampler, coeffs_8_48, initial, initial_delay, is_rate_supported, resampler_init,
  resampler_max_taps, with_table,
}
use mach_audio.Resample.Advanced.{IsUpsampling, advance, resample_l16_advanced-returns}
use mach_audio.Resample.Bounds.{AreNear}
use mach_audio.Resample.Drift.{calls, resample_l16_advanced-drifts}
use mach_audio.Resample.Exact.{exact, exact-IsDoubles}
use mach_audio.Resample.History.{last_elements, update_history-append}
use mach_audio.Resample.Linear.{resample_l16}
use mach_audio.Resample.Sinc.{resample_l16_advanced, update_history}
use mach_audio.Resample.Upsample.{HaveTaps, IsSincTable}
use mach_audio.Resample.Whole.{resample_l16-AreI16}

abbrev rate_8 : ℕ
rate_8 = 8000

abbrev rate_48 : ℕ
rate_48 = 48000

abbrev ramp : List ℤ
ramp = pos 0 ∷ pos 3000 ∷ negsuc 999 ∷ []

abbrev fresh_8_48 : Resampler
fresh_8_48 = record (initial exact 8000 48000) { phases = 6; coeffs = some coeffs_8_48 }

init_8_48 : resampler_init exact 8000 48000 ≡ some fresh_8_48
unfolding resampler_init is_rate_supported with_table
init_8_48 = refl

ramp-AreNear : AreNear ramp
unfolding ◌-ℤ◌
ramp-AreNear = omega arith

resample_l16-AreI16_example :
    (n : ℕ) × (ys : List ℤ) × (resample_l16 fresh_8_48 8000 48000 ramp 3 20 ≡ some (n, ys))
    × (length ys ≡ n)
    × (n ≤ 20)
    × AreI16 ys
    × (rate_8 ≢ rate_48 → 3 * 48000 / 8000 ≤ 20 → n ≡ 3 * 48000 / 8000)
resample_l16-AreI16_example =
    resample_l16-AreI16 exact 8000 48000 fresh_8_48 ramp 3 20 init_8_48 (omega arith) ramp-AreNear
      (omega arith) (omega arith)

abbrev silence : List ℤ
silence = replicate 160 (pos 0)

abbrev silent_table : List (List ℤ)
silent_table = replicate 1024 (replicate 128 (pos 0))

abbrev fresh_44_48 : Resampler
fresh_44_48 = initial exact 44100 48000

start_44_48 : fresh_44_48.pos_fp ≡ negsuc (64 * 2 ^ 32 - 1)
unfolding initial_delay floor_div ◌-ℤ◌ ◌*ℤ◌
start_44_48 = refl

abbrev step_44_48 : ℕ
step_44_48 = 44100 * 2 ^ 32 / 48000

block : IsUpsampling exact 44100 48000 silence 160 200 (step_44_48)
unfolding floor_div
block = record {
  differ = omega arith;
  up = refl;
  steps = refl;
  room = omega arith;
  some_input = omega arith;
  fits = omega arith;
  short = omega arith;
}

silent-HaveTaps : (n : ℕ) → HaveTaps (replicate n (replicate 128 (pos 0)))
silent-HaveTaps zero = tt
silent-HaveTaps (suc n) = (length-replicate 128 (pos 0), silent-HaveTaps n)

silent_table-IsSincTable : IsSincTable silent_table
silent_table-IsSincTable = record {
  rows = length-replicate 1024 (replicate 128 (pos 0));
  taps = silent-HaveTaps 1024;
}

resample_l16_advanced-returns_example :
    (ys : List ℤ) × (resample_l16_advanced exact silent_table fresh_44_48 44100 48000 silence 160
        200
      ≡ some (
        174,
        ys,
        record fresh_44_48 {
          pos_fp = advance fresh_44_48.pos_fp step_44_48 174 160;
          delay_buf = last_elements resampler_max_taps (fresh_44_48.delay_buf ++ take 160 silence);
        },
      ))
    × (length ys ≡ 174)
    × AreI16 ys
unfolding initial_delay
resample_l16_advanced-returns_example =
    resample_l16_advanced-returns exact exact-IsDoubles silent_table silent_table-IsSincTable
      fresh_44_48 44100 48000 silence 160 200 step_44_48 block (length-replicate 1024 (pos 0))
      (rw start_44_48 (omega arith)) (rw start_44_48 (omega arith))

resample_l16_advanced-drifts_example :
    (count : ℕ) × (calls exact silent_table 44100 48000 silence 160 200 fresh_44_48 count ≡ none)
resample_l16_advanced-drifts_example =
    resample_l16_advanced-drifts exact exact-IsDoubles silent_table silent_table-IsSincTable 44100
      48000 silence 160 200 step_44_48 block fresh_44_48 (length-replicate 1024 (pos 0))
      (rw start_44_48 (omega arith)) (omega arith) (omega arith)

update_history-append_example :
    (update_history fresh_44_48.delay_buf ramp 3 >>= λ history. update_history history ramp 3)
    ≡ update_history fresh_44_48.delay_buf (ramp ++ ramp) 6
update_history-append_example =
    update_history-append fresh_44_48.delay_buf ramp ramp (length-replicate 1024 (pos 0))
