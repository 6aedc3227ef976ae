-- ===== src/Vad/Bounds.antt =====
-- The accesses of `vad_gru_process_pcm` in its input, and the fuel of its loop.
use mach_audio.Prelude.{
  ltb, if◌then◌else◌, lt→ltb, ltb→le, Bool-cases, Option-cases, length, get_elem?, ℤ, pos, ℕ, zero,
  suc, ◌+◌, ◌*◌, ◌≤◌, ◌<◌, ◌≡◌, refl, ap, inl, inr, not, ◌||◌, some, List, [], ◌∷◌, arith, ◌==◌,
}
use mach_audio.Vad.Gru.{AreWeights, Floats, Weights, feature_dim}
use mach_audio.Vad.Inside.{process_frame_inside}
use mach_audio.Vad.Pcm.{
  FrameStep, channel_sum, features_of, frame_size, frames, is_rate, seg_size, segment_energy,
  vad_gru_process_frame, vad_gru_process_pcm,
}
use native.Mathlib.Nat.{mul-le-mul, le_refl, suc-mul}

-- Sample `at` of all channels lies in front of sample `at + 1`.
place :
    (at n channels size : ℕ)
    → (at + suc n) * channels ≤ size
    → (at * channels + channels ≤ size) × ((at + 1 + n) * channels ≤ size)
place at n channels size h =
    let next : suc at * channels ≤ (at + suc n) * channels =
      mul-le-mul (after at n) (le_refl channels) in
    (
      omega (arith, suc-mul at channels, next),
      omega (arith, ap (λ (t : ℕ). t * channels) (shift at n)),
    )
  where
    after : (at n : ℕ) → suc at ≤ at + suc n
    after at n = omega arith

    shift : (at n : ℕ) → at + 1 + n ≡ at + suc n
    shift at n = omega arith

ahead : (a b channels size : ℕ) → b * channels ≤ size → a ≤ b → a * channels ≤ size
ahead a b channels size h k = omega (arith, mul-le-mul k (le_refl channels))

module _ (fl : Floats) (pcm : List ℤ) (channels : ℕ) where
  sample_inside : (xs : List ℤ) (i : ℕ) → i < length xs → (x : ℤ) × (get_elem? xs i ≡ some x)
  sample_inside [] i h = absurd (omega arith)
  sample_inside (x ∷ xs) zero h = (x, refl)
  sample_inside (x ∷ xs) (suc i) h = sample_inside xs i (omega arith)

  channel_sum_inside :
      (i n : ℕ) (acc : fl.Float)
      → i + n ≤ length pcm
      → (r : fl.Float) × (channel_sum fl pcm i n acc ≡ some r)
  unfolding channel_sum
  channel_sum_inside i zero acc h = (acc, refl)
  channel_sum_inside i (suc n) acc h =
      let x = sample_inside pcm i (omega arith) in
      let rest = channel_sum_inside (i + 1) n (fl.add acc (fl.of_int x.0)) (omega arith) in
      (rest.0, rw x.1 rest.1)

  energy_inside :
      (at n : ℕ) (energy : fl.Float)
      → (at + n) * channels ≤ length pcm
      → (r : fl.Float) × (segment_energy fl pcm channels at n energy ≡ some r)
  unfolding segment_energy
  energy_inside at zero energy h = (energy, refl)
  energy_inside at (suc n) energy h =
      let here = place at n channels (length pcm) h in
      let sum = channel_sum_inside (at * channels) channels fl.zero_float here.0 in
      let val = fl.div sum.0 (fl.of_int (pos channels)) in
      let rest =
        energy_inside (at + 1) n (fl.add energy (fl.div (fl.absolute val) (fl.of_int (pos 32768))))
          here.1 in
      (rest.0, rw sum.1 rest.1)

  features_inside :
      (at n : ℕ)
      → (at + n * seg_size) * channels ≤ length pcm
      → (r : List fl.Float) × (features_of fl pcm channels at n ≡ some r) × (length r ≡ n)
  unfolding features_of
  features_inside at zero h = ([], refl, refl)
  features_inside at (suc n) h =
      let total =
        energy_inside at seg_size fl.zero_float
          (ahead (at + seg_size) (at + suc n * seg_size) channels (length pcm) h (omega arith)) in
      let rest = features_inside (at + seg_size) n (
        ahead (at + seg_size + n * seg_size) (at + suc n * seg_size) channels (length pcm) h
          (omega arith)) in
      let energy = fl.div total.0 (fl.of_int (pos seg_size)) in
      (
        fl.logf (fl.add fl.one_float (fl.mul energy (fl.of_int (pos 10)))) ∷ rest.0,
        rw total.1 (rw rest.1),
        ap suc rest.2,
      )

  -- A step of the network on a state and features of their sizes.
  abbrev pub StepsInside : FrameStep fl → Type 0
  StepsInside step =
      (h features : List fl.Float)
      → length h ≡ 24
      → length features ≡ 20
      → (p : fl.Float) × (next : List fl.Float) × (step h features ≡ some (p, next))
        × (length next ≡ 24)

  frames_inside :
      (step : FrameStep fl) (samples fuel offset : ℕ) (max_prob : fl.Float) (h : List fl.Float)
      → StepsInside step
      → samples * channels ≤ length pcm
      → length h ≡ 24
      → (p : fl.Float) × (next : List fl.Float) × (frames fl step pcm samples channels fuel offset
            max_prob h
          ≡ some (p, next))
        × (length next ≡ 24)
  unfolding frames
  frames_inside step samples zero offset max_prob h steps big hidden = (max_prob, h, refl, hidden)
  frames_inside step samples (suc fuel) offset max_prob h steps big hidden =
      elim (Bool-cases (ltb samples (offset + frame_size))) [
        | inl over ↦ (max_prob, h, rw over, hidden)
        | inr whole ↦
            (let room = ltb→le samples (offset + frame_size) whole in
              let features = features_inside offset feature_dim (
                ahead (offset + feature_dim * seg_size) samples channels (length pcm) big
                  (omega (arith, room))) in
              let got = steps h features.0 hidden features.2 in
              let rest =
                frames_inside step samples fuel (offset + frame_size)
                  (if fl.less max_prob got.0 then got.0 else max_prob) got.1 steps big got.3 in
              (rest.0, rest.1, rw whole (rw features.1 (rw got.2 rest.2)), rest.3))
      ]

  -- With a network that keeps to its arrays, a state of 24 floats and an input of at least
  -- `samples` times `channels` values, the detector reads inside of the input for every number of
  -- samples, rate and number of channels, and leaves a state of 24 floats.
  pub process_pcm_inside :
      (step : FrameStep fl) (samples : ℕ) (sample_rate : ℤ) (h : List fl.Float)
      → StepsInside step
      → samples * channels ≤ length pcm
      → length h ≡ 24
      → (p : fl.Float) × (next : List fl.Float) × (vad_gru_process_pcm fl step
            (some h)
            (some pcm)
            samples
            sample_rate
            (pos channels)
          ≡ some (p, some next))
        × (length next ≡ 24)
  unfolding vad_gru_process_pcm
  process_pcm_inside step samples sample_rate h steps big hidden =
      elim (Bool-cases (samples == 0 || (channels == 0 || not (is_rate sample_rate)))) [
        | inl refused ↦ (fl.neg fl.one_float, h, rw refused, hidden)
        | inr fits ↦
            (let got = frames_inside step samples samples 0 fl.zero_float h steps big hidden in
              (got.0, got.1, rw fits (rw got.2), got.3))
      ]

  -- More fuel than one round for each whole frame left changes nothing.
  frames_fuel :
      (step : FrameStep fl) (samples n m offset : ℕ) (max_prob : fl.Float) (h : List fl.Float)
      → samples < offset + frame_size + n * frame_size
      → samples < offset + frame_size + m * frame_size
      → frames fl step pcm samples channels n offset max_prob h
        ≡ frames fl step pcm samples channels m offset max_prob h
  unfolding frames
  frames_fuel step samples zero zero offset max_prob h a b = refl
  frames_fuel step samples zero (suc m) offset max_prob h a b =
      rw (lt→ltb samples (offset + frame_size) (omega arith))
  frames_fuel step samples (suc n) zero offset max_prob h a b =
      rw (lt→ltb samples (offset + frame_size) (omega arith))
  frames_fuel step samples (suc n) (suc m) offset max_prob h a b =
      elim (Bool-cases (ltb samples (offset + frame_size))) [
        | inl over ↦ rw over
        | inr whole ↦
            rw whole (elim (Option-cases (features_of fl pcm channels offset feature_dim)) [
              | inl lost ↦ rw lost
              | inr features ↦ rw features.1 (elim (Option-cases (step h features.0)) [
                | inl stuck ↦ rw stuck
                | inr got ↦ rw got.1 (
                    frames_fuel step samples n m (offset + frame_size)
                      (if fl.less max_prob (got.0).0 then (got.0).0 else max_prob) (got.0).1
                      (omega arith) (omega arith))
              ])
            ])
      ]

  -- The network in plain C is such a step.
  pub process_frame-StepsInside :
      (w : Weights fl) → AreWeights fl w → StepsInside (vad_gru_process_frame fl w)
  unfolding vad_gru_process_frame
  process_frame-StepsInside w sizes h features hidden given =
      let got = process_frame_inside fl w h features sizes hidden given in
      (got.0, got.1, rw (got.2, vad_gru_process_frame), got.3)
