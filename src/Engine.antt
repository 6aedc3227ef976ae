-- ===== src/Engine.antt =====
-- processing/engine.c: the audio engine, a stub that keeps two numbers. A null pointer is `none`.
use mach_audio.Prelude.{ℤ, pos, negsuc, ℕ, Option, none, some, List}

pub record MachAudioEngine : Type 0 where
  pub channels : ℤ
  pub sample_rate : ℤ

unfoldable pub audio_engine_init : Option MachAudioEngine → ℤ → ℤ → ℤ × Option MachAudioEngine
audio_engine_init none sample_rate channels = (negsuc 0, none)
audio_engine_init (some engine) sample_rate channels =
    (pos 0, some (record { channels = channels; sample_rate = sample_rate }))

unfoldable pub audio_engine_process : Option MachAudioEngine → Option (List ℕ) → ℕ → ℤ
audio_engine_process (some engine) (some bytes) len = pos 0
audio_engine_process engine bytes len = negsuc 0

unfoldable pub audio_engine_destroy : Option MachAudioEngine → Option MachAudioEngine
audio_engine_destroy engine = engine
