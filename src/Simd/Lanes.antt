-- ===== src/Simd/Lanes.antt =====
-- Intrinsics that behave as documented, so that the assumption can be met.
use mach_audio.Prelude.{get_or, take, drop, pos, ◌/◌, ◌%◌, refl, ◌++◌, map}
use mach_audio.Simd.{Avx2, IsAvx2, saturate_i16, saturated_sums, quad}

abbrev pub lanes : Avx2
lanes = record {
  adds_epi16 = saturated_sums;
  cvtepu8_epi32 = take 8;
  unpackhi_epi64 = λ a b. take 8 (drop 8 a) ++ take 8 (drop 8 b);
  i32gather_epi32 = λ table v. map (λ i. get_or table i (pos 0)) v;
  packs_epi32 =
      λ a b. map saturate_i16 (take 4 a ++ (take 4 b ++ (take 4 (drop 4 a) ++ take 4 (drop 4 b))));
  permute4x64_epi64 = λ v imm.
      quad v (imm % 4)
      ++ (quad v (imm / 4 % 4) ++ (quad v (imm / 16 % 4) ++ quad v (imm / 64 % 4)));
}

pub lanes-IsAvx2 : IsAvx2 lanes
lanes-IsAvx2 = record {
  adds = λ a b h k. refl;
  cvtepu8 = λ v h. refl;
  unpackhi = λ a b h k. refl;
  gather = λ t v h. refl;
  packs = λ a b h k. refl;
  permute = λ v imm h. refl;
}
