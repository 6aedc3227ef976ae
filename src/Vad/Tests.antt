-- ===== src/Vad/Tests.antt =====
-- The detector's theorems, with numbers in place of floats.
use mach_audio.Prelude.{
  ltb, length, replicate, length-replicate, pos, pos_part, ℕ, ◌+◌, ◌-◌, ◌*◌, ◌/◌, ◌≡◌, refl, some,
  List, [], ◌∷◌, arith,
}
use mach_audio.Vad.Bounds.{process_frame-StepsInside, process_pcm_inside}
use mach_audio.Vad.Gru.{AreWeights, Floats, Weights, vad_gru_process_frame_c}
use mach_audio.Vad.Inside.{process_frame_inside}
use mach_audio.Vad.Pcm.{vad_gru_process_frame, vad_gru_process_pcm}

abbrev numbers : Floats
numbers = record {
  Float = ℕ;
  zero_float = 0;
  one_float = 1;
  add = λ a b. a + b;
  sub = λ a b. a - b;
  mul = λ a b. a * b;
  div = λ a b. a / b;
  neg = λ a. a;
  absolute = λ a. a;
  expf = λ a. a + 1;
  tanhf = λ a. a;
  logf = λ a. a;
  of_int = pos_part;
  less = ltb;
}

abbrev weights : Weights numbers
weights = record {
  w_input = replicate 1440 1;
  w_recurrent = replicate 1728 2;
  b_input = replicate 72 3;
  b_recurrent = replicate 72 0;
  fc_weight = replicate 24 1;
  fc_bias = 5 ∷ [];
}

weights-AreWeights : AreWeights numbers weights
weights-AreWeights = record {
  input_size = length-replicate {A = ℕ} 1440 1;
  recurrent_size = length-replicate {A = ℕ} 1728 2;
  input_bias_size = length-replicate {A = ℕ} 72 3;
  recurrent_bias_size = length-replicate {A = ℕ} 72 0;
  fc_size = length-replicate {A = ℕ} 24 1;
  fc_bias_size = refl;
}

process_frame_inside_example :
    (p : ℕ) × (next : List ℕ) × (vad_gru_process_frame_c numbers weights
        (some (replicate 24 0))
        (some (replicate 20 7))
        20
      ≡ some (p, some next))
    × (length next ≡ 24)
process_frame_inside_example =
    process_frame_inside numbers weights (replicate 24 0) (replicate 20 7) weights-AreWeights
      (length-replicate {A = ℕ} 24 0) (length-replicate {A = ℕ} 20 7)

process_pcm_inside_example :
    (p : ℕ) × (next : List ℕ) × (vad_gru_process_pcm numbers
        (vad_gru_process_frame numbers weights)
        (some (replicate 24 0))
        (some (replicate 640 (pos 9)))
        320
        (pos 16000)
        (pos 2)
      ≡ some (p, some next))
    × (length next ≡ 24)
process_pcm_inside_example =
    process_pcm_inside numbers (replicate 640 (pos 9)) 2 (vad_gru_process_frame numbers weights) 320
      (pos 16000) (replicate 24 0)
      (process_frame-StepsInside numbers (replicate 640 (pos 9)) 2 weights weights-AreWeights)
      (omega (arith, length-replicate 640 (pos 9))) (length-replicate {A = ℕ} 24 0)
