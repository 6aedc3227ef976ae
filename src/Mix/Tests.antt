-- ===== src/Mix/Tests.antt =====
-- The mixer on 18 samples: one vector round and two scalar ones.
use mach_audio.Prelude.{
  take, replicate, ℤ, pos, negsuc, ◌+ℤ◌, ◌≡◌, refl, List, [], ◌∷◌, ◌++◌, arith,
}
use mach_audio.Simd.{saturated_sums}
use mach_audio.Simd.Lanes.{lanes, lanes-IsAvx2}
use mach_audio.Mix.{mix_l16_avx2, clamp_add_int16}
use mach_audio.Mix.Saturate.{mix_l16_avx2-eq-saturated_sums}

abbrev loud : List ℤ
loud = replicate 17 (pos 30000) ++ (negsuc 20000 ∷ [])

clamps :
    (clamp_add_int16 (pos 30000) (pos 30000) ≡ pos 32767)
    × (clamp_add_int16 (negsuc 20000) (negsuc 20000) ≡ negsuc 32767)
    × (clamp_add_int16 (pos 5) (negsuc 8) ≡ negsuc 3)
unfolding clamp_add_int16 ◌+ℤ◌
clamps = (refl, refl, refl)

mix_l16_avx2-eq-saturated_sums_example :
    mix_l16_avx2 lanes loud loud 18 ≡ saturated_sums (take 18 loud) (take 18 loud)
mix_l16_avx2-eq-saturated_sums_example =
    mix_l16_avx2-eq-saturated_sums lanes loud loud 18 lanes-IsAvx2 (omega arith) (omega arith)
