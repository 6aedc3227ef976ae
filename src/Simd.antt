-- ===== src/Simd.antt =====
-- The AVX2 intrinsics that the source calls, as a parameter: a record of the operations, and
-- their documented behaviour. A vector is the list of its lanes, lowest first; a lane of signed
-- integers is a ℤ, a lane of bytes a number. The loads and stores are unaligned copies.
pub mod Lanes
use mach_audio.Prelude.{
  ltb, if◌then◌else◌, length, get_or, take, drop, ℤ, pos, negsuc, ◌+ℤ◌, ℕ, ◌*◌, ◌/◌, ◌%◌, ◌≡◌, List,
  [], ◌∷◌, ◌++◌, map,
}

pub record Avx2 : Type 0 where
  -- _mm256_adds_epi16
  pub adds_epi16 : List ℤ → List ℤ → List ℤ
  -- _mm256_cvtepu8_epi32
  pub cvtepu8_epi32 : List ℕ → List ℕ
  -- _mm_unpackhi_epi64
  pub unpackhi_epi64 : List ℕ → List ℕ → List ℕ
  -- _mm256_i32gather_epi32 at scale 4
  pub i32gather_epi32 : List ℤ → List ℕ → List ℤ
  -- _mm256_packs_epi32
  pub packs_epi32 : List ℤ → List ℤ → List ℤ
  -- _mm256_permute4x64_epi64 on 16 lanes of 16 bits
  pub permute4x64_epi64 : List ℤ → ℕ → List ℤ

-- Signed saturation to 16 bits.
unfoldable pub saturate_i16 : ℤ → ℤ
saturate_i16 (pos n) = if ltb n 32768 then pos n else pos 32767
saturate_i16 (negsuc n) = if ltb n 32768 then negsuc n else negsuc 32767

unfoldable pub saturated_sums : List ℤ → List ℤ → List ℤ
saturated_sums [] ys = []
saturated_sums (a ∷ xs) [] = []
saturated_sums (a ∷ xs) (b ∷ ys) = saturate_i16 (a +ℤ b) ∷ saturated_sums xs ys

-- Lane group `i` of four 16-bit lanes.
abbrev pub quad : List ℤ → ℕ → List ℤ
quad v i = take 4 (drop (4 * i) v)

-- The behaviour that the intrinsics guide documents, for vectors of the full width.
pub record IsAvx2 (m : Avx2) : Type 0 where
  pub adds : (a b : List ℤ) → length a ≡ 16 → length b ≡ 16 → m.adds_epi16 a b ≡ saturated_sums a b
  pub cvtepu8 : (v : List ℕ) → length v ≡ 16 → m.cvtepu8_epi32 v ≡ take 8 v
  pub unpackhi :
      (a b : List ℕ)
      → length a ≡ 16
      → length b ≡ 16
      → m.unpackhi_epi64 a b ≡ take 8 (drop 8 a) ++ take 8 (drop 8 b)
  pub gather :
      (table : List ℤ) (v : List ℕ)
      → length v ≡ 8
      → m.i32gather_epi32 table v ≡ map (λ i. get_or table i (pos 0)) v
  pub packs :
      (a b : List ℤ)
      → length a ≡ 8
      → length b ≡ 8
      → m.packs_epi32 a b
        ≡ map saturate_i16 (take 4 a ++ (take 4 b ++ (take 4 (drop 4 a) ++ take 4 (drop 4 b))))
  pub permute :
      (v : List ℤ) (imm : ℕ)
      → length v ≡ 16
      → m.permute4x64_epi64 v imm
        ≡ quad v (imm % 4)
          ++ (quad v (imm / 4 % 4) ++ (quad v (imm / 16 % 4) ++ quad v (imm / 64 % 4)))
