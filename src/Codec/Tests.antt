-- ===== src/Codec/Tests.antt =====
-- The codecs on 16 codes, on both builds.
use mach_audio.Prelude.{
  replicate, ℤ, pos, negsuc, ℕ, ◌≡◌, refl, none, some, List, [], ◌∷◌, ◌++◌, map, arith,
}
use mach_audio.Simd.Lanes.{lanes, lanes-IsAvx2}
use mach_audio.G711.Ulaw.{decode_ulaw}
use mach_audio.G711.Alaw.{decode_alaw}
use mach_audio.Codec.{
  transcode_pcmu_to_l16, transcode_pcma_to_l16, transcode_l16_to_pcma, transcode_l16_to_pcmu,
  int_of_size,
}
use mach_audio.Codec.Decode.{transcode_to_l16_lem, transcode_to_l16_refuses}
use mach_audio.Codec.Encode.{pcma_roundtrip, pcmu_roundtrip}

abbrev codes : List ℕ
codes = 0 ∷ 1 ∷ 0xD5 ∷ 3 ∷ 4 ∷ 5 ∷ 6 ∷ 7 ∷ 8 ∷ 9 ∷ 10 ∷ 11 ∷ 0xFF ∷ 13 ∷ 14 ∷ 15 ∷ []

transcode_to_l16_lem_example :
    (transcode_pcmu_to_l16 (some lanes) (some codes) 16 (some (replicate 18 (pos 5)))
      ≡ (int_of_size 16, some (map decode_ulaw codes ++ (pos 5 ∷ pos 5 ∷ []))))
    × (transcode_pcma_to_l16 (some lanes) (some codes) 16 (some (replicate 18 (pos 5)))
        ≡ (int_of_size 16, some (map decode_alaw codes ++ (pos 5 ∷ pos 5 ∷ []))))
transcode_to_l16_lem_example =
    transcode_to_l16_lem (some lanes) codes 16 (replicate 18 (pos 5)) lanes-IsAvx2 (omega arith)
      refl (omega arith)

transcode_to_l16_refuses_example :
    (transcode_pcmu_to_l16 none (some codes) 15 (some []) ≡ (negsuc 0, some []))
    × (transcode_pcma_to_l16 none (some codes) 15 (some []) ≡ (negsuc 0, some []))
transcode_to_l16_refuses_example = transcode_to_l16_refuses none codes 15 [] (omega arith)

pcma_roundtrip_example :
    (samples : List ℤ) × (transcode_pcma_to_l16
        (some lanes)
        (some codes)
        16
        (some (replicate 16 (pos 0)))
      ≡ (int_of_size 16, some samples))
    × (transcode_l16_to_pcma (some samples) 16 (some (replicate 16 0))
        ≡ (int_of_size 16, some codes))
pcma_roundtrip_example =
    pcma_roundtrip (some lanes) 16 codes (replicate 16 0) (replicate 16 (pos 0)) lanes-IsAvx2
      (omega arith) refl refl refl refl

pcmu_roundtrip_example :
    (samples : List ℤ) × (transcode_pcmu_to_l16 none (some codes) 16 (some (replicate 16 (pos 0)))
      ≡ (int_of_size 16, some samples))
    × (transcode_l16_to_pcmu (some samples) 16 (some (replicate 16 0))
        ≡ (int_of_size 16, some codes))
pcmu_roundtrip_example =
    pcmu_roundtrip none 16 codes (replicate 16 0) (replicate 16 (pos 0)) tt (omega arith)
      (omega arith) refl refl refl refl
