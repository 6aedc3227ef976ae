-- ===== src/Mix.antt =====
-- processing/mix.c: saturating mixing of 16-bit samples. An array is the list of its samples.
pub mod Saturate
mod Tests
use mach_audio.Prelude.{
  if◌then◌else◌, take, drop, ℤ, pos, negsuc, ◌+ℤ◌, ltb_ℤ, round_down, i16, ℕ, zero, suc, ◌-◌, ◌/◌,
  List, [], ◌∷◌, ◌++◌,
}
use mach_audio.Simd.{Avx2}

unfoldable pub clamp_add_int16 : ℤ → ℤ → ℤ
clamp_add_int16 a b =
    let sum = a +ℤ b in
    if ltb_ℤ (pos 32767) sum
    then pos 32767
    else if ltb_ℤ sum (negsuc 32767)
    then negsuc 32767
    else i16 sum

-- The vector loop: 16 samples a round, for `rounds` rounds.
unfoldable pub simd_loop : Avx2 → ℕ → List ℤ → List ℤ → List ℤ
simd_loop m zero in_a in_b = []
simd_loop m (suc rounds) in_a in_b =
    m.adds_epi16 (take 16 in_a) (take 16 in_b) ++ simd_loop m rounds (drop 16 in_a) (drop 16 in_b)

-- The scalar loop over `left` samples; it stops where an array ends.
unfoldable pub scalar_loop : ℕ → List ℤ → List ℤ → List ℤ
scalar_loop zero in_a in_b = []
scalar_loop (suc left) [] in_b = []
scalar_loop (suc left) (a ∷ in_a) [] = []
scalar_loop (suc left) (a ∷ in_a) (b ∷ in_b) = clamp_add_int16 a b ∷ scalar_loop left in_a in_b

-- What `mix_l16_avx2` stores into `out[0..samples)`. Each round reads its samples before it
-- writes them, so `out` may be `in_a`.
unfoldable pub mix_l16_avx2 : Avx2 → List ℤ → List ℤ → ℕ → List ℤ
mix_l16_avx2 m in_a in_b samples =
    let simd_samples = round_down samples 16 in
    simd_loop m (simd_samples / 16) in_a in_b
    ++ scalar_loop (samples - simd_samples) (drop simd_samples in_a) (drop simd_samples in_b)
