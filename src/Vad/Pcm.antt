-- ===== src/Vad/Pcm.antt =====
-- `vad_gru_process_pcm` of processing/vad_gru.c: the features of each 20 ms frame of the input, and
-- the greatest probability of the frames. The network, `vad_gru_process_frame`, is a parameter.
use mach_audio.Prelude.{
  ltb, if◌then◌else◌, get_elem?, ℤ, pos, negsuc, ℕ, zero, suc, ◌+◌, ◌*◌, Bool, false, not, ◌||◌,
  Option, none, some, List, [], ◌∷◌, ◌==◌,
}
use mach_audio.Client.Read.Account.{sum}
use mach_audio.Prelude.Options.{◌>>=◌}
use mach_audio.Transcode.{vad_sample_rate}
use mach_audio.Vad.Gru.{Floats, Weights, feature_dim, vad_gru_process_frame_c}

-- 20 ms at the only rate that is accepted, and a frame's twentieth part.
abbrev pub frame_size : ℕ
frame_size = 320

abbrev pub seg_size : ℕ
seg_size = 16

abbrev pub is_rate : ℤ → Bool
is_rate (pos n) = n == vad_sample_rate
is_rate (negsuc n) = false

module _ (fl : Floats) where
  abbrev pub FrameStep : Type 0
  FrameStep = List fl.Float → List fl.Float → Option (fl.Float × List fl.Float)

  -- The sum of a sample over the next `n` channels.
  unfoldable pub channel_sum : List ℤ → ℕ → ℕ → fl.Float → Option fl.Float
  channel_sum pcm i zero acc = some acc
  channel_sum pcm i (suc n) acc = do
    x ← get_elem? pcm i
    channel_sum pcm (i + 1) n (fl.add acc (fl.of_int x))

  -- The energy of the next `n` samples, from sample `at`.
  unfoldable pub segment_energy : List ℤ → ℕ → ℕ → ℕ → fl.Float → Option fl.Float
  unfolding channel_sum
  segment_energy pcm channels at zero energy = some energy
  segment_energy pcm channels at (suc n) energy = do
    sum ← channel_sum pcm (at * channels) channels fl.zero_float
    let val = fl.div sum (fl.of_int (pos channels))
    segment_energy pcm channels (at + 1) n
        (fl.add energy (fl.div (fl.absolute val) (fl.of_int (pos 32768))))

  -- The features of the next `n` segments.
  unfoldable pub features_of : List ℤ → ℕ → ℕ → ℕ → Option (List fl.Float)
  unfolding segment_energy
  features_of pcm channels at zero = some []
  features_of pcm channels at (suc n) = do
    total ← segment_energy pcm channels at seg_size fl.zero_float
    let energy = fl.div total (fl.of_int (pos seg_size))
    rest ← features_of pcm channels (at + seg_size) n
    some (fl.logf (fl.add fl.one_float (fl.mul energy (fl.of_int (pos 10)))) ∷ rest)

  -- The loop over the frames, with the greatest probability so far.
  unfoldable pub frames :
      FrameStep
      → List ℤ
      → ℕ
      → ℕ
      → ℕ
      → ℕ
      → fl.Float
      → List fl.Float
      → Option (fl.Float × List fl.Float)
  unfolding features_of
  frames step pcm samples channels zero offset max_prob h = some (max_prob, h)
  frames step pcm samples channels (suc fuel) offset max_prob h =
      if ltb samples (offset + frame_size) then some (max_prob, h) else do
        features ← features_of pcm channels offset feature_dim
        (prob, next) ← step h features
        frames step pcm samples channels fuel (offset + frame_size)
            (if fl.less max_prob prob then prob else max_prob) next

  -- The call: the result, and the state behind it. A round of the loop takes a frame, so as much
  -- fuel as there are samples is enough.
  unfoldable pub vad_gru_process_pcm :
      FrameStep
      → Option (List fl.Float)
      → Option (List ℤ)
      → ℕ
      → ℤ
      → ℤ
      → Option (fl.Float × Option (List fl.Float))
  unfolding frames
  vad_gru_process_pcm step (some h) (some pcm) samples sample_rate (pos channels) =
      if samples == 0 || (channels == 0 || not (is_rate sample_rate))
      then some (fl.neg fl.one_float, some h)
      else do
        (prob, next) ← frames step pcm samples channels samples 0 fl.zero_float h
        some (prob, some next)
  vad_gru_process_pcm step state pcm samples sample_rate channels =
      some (fl.neg fl.one_float, state)

  -- `vad_gru_process_frame` of the build without AVX2, on the features of `vad_gru_process_pcm`.
  unfoldable pub vad_gru_process_frame : Weights fl → FrameStep
  unfolding vad_gru_process_frame_c
  vad_gru_process_frame w h features =
      elim (vad_gru_process_frame_c fl w (some h) (some features) feature_dim) [
        | some (prob, some next) ↦ some (prob, next)
        | _ ↦ none
      ]
