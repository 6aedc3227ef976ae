-- ===== src/Transcode/Silent.antt =====
-- Signal processing that meets the interface: a resampler that refuses every pair of rates and
-- stores nothing, and a detector that counts its calls.
use mach_audio.Prelude.{ℕ, suc, none, [], arith}
use mach_audio.Transcode.{Dsp, IsDsp}

abbrev pub silent : Dsp
silent = record {
  Resampler = ℕ;
  cleared = 0;
  resampler_init = λ r in_rate out_rate. none;
  resample = λ r in_rate out_rate xs capacity. ([], r);
  Vad = ℕ;
  vad_reset = 0;
  vad_process_pcm = λ calls pcm samples rate channels. (0, suc calls);
}

pub silent-IsDsp : IsDsp silent
silent-IsDsp = record { resample_fits = λ r in_rate out_rate xs capacity. omega arith }
