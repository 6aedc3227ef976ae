-- ===== src/Codec.antt =====
-- The sample loops of processing/transcode_pcmu_to_l16.c, transcode_pcma_to_l16.c,
-- transcode_l16_to_pcmu.c and transcode_l16_to_pcma.c. An array is the list of its elements, a
-- null pointer `none`; a function gives its return value and the output array after it. The
-- `session` argument is unused. `target` is the build: AVX2 intrinsics, or `none` for the
-- scalar loop behind `#else`.
pub mod Decode
pub mod Encode
mod Tests
use mach_audio.Prelude.{
  ltb, if◌then◌else◌, length, get_or, take, drop, ℤ, pos, negsuc, u32, ℕ, zero, suc, ◌+◌, ◌-◌, ◌*◌,
  ◌/◌, ◌%◌, ◌^◌, not, Option, none, some, List, [], ◌++◌, map, ◌==◌,
}
use mach_audio.Simd.{Avx2}
use mach_audio.G711.{linear_to_ulaw, linear_to_alaw}
use mach_audio.G711.Tables.{
  pcmu_to_l16_lut, pcmu_to_l16_lut_32, pcma_to_l16_lut, pcma_to_l16_lut_32,
}

-- `(int)n` of a `size_t`.
abbrev pub int_of_size : ℕ → ℤ
int_of_size n = if ltb (u32 n) (2 ^ 31) then pos (u32 n) else negsuc (2 ^ 32 - 1 - u32 n)

-- Elements written over the front of an array.
unfoldable pub overwrite {ℓ} : {A : Type ℓ} → List A → List A → List A
overwrite written out = written ++ drop (length written) out

-- One round of the vector loop on 16 codes.
unfoldable pub decode_block : Avx2 → List ℤ → List ℕ → List ℤ
decode_block m lut_32 indices_16 =
    let indices_lo_32 = m.cvtepu8_epi32 indices_16 in
    let indices_hi_8 = m.unpackhi_epi64 indices_16 indices_16 in
    let indices_hi_32 = m.cvtepu8_epi32 indices_hi_8 in
    let samples_lo_32 = m.i32gather_epi32 lut_32 indices_lo_32 in
    let samples_hi_32 = m.i32gather_epi32 lut_32 indices_hi_32 in
    let packed = m.packs_epi32 samples_lo_32 samples_hi_32 in
    m.permute4x64_epi64 packed (3 * 64 + 1 * 16 + 2 * 4 + 0)

unfoldable pub decode_rounds : Avx2 → List ℤ → ℕ → List ℕ → List ℤ
decode_rounds m lut_32 zero codes = []
decode_rounds m lut_32 (suc rounds) codes =
    decode_block m lut_32 (take 16 codes) ++ decode_rounds m lut_32 rounds (drop 16 codes)

-- The samples that the loop stores for `in_len` codes.
unfoldable pub decode_loop : Option Avx2 → List ℤ → List ℤ → List ℕ → ℕ → List ℤ
decode_loop (some m) lut lut_32 in_data in_len = decode_rounds m lut_32 (in_len / 16) in_data
decode_loop none lut lut_32 in_data in_len = map (λ u. get_or lut u (pos 0)) (take in_len in_data)

-- The common text of the two decoders, at their tables.
unfoldable pub decode_with :
    Option Avx2 → List ℤ → List ℤ → Option (List ℕ) → ℕ → Option (List ℤ) → ℤ × Option (List ℤ)
decode_with target lut lut_32 none in_len out_data = (negsuc 0, out_data)
decode_with target lut lut_32 (some in_data) in_len none = (negsuc 0, none)
decode_with target lut lut_32 (some in_data) in_len (some out_data) =
    if not (in_len % 16 == 0) then (negsuc 0, some out_data) else (
      int_of_size in_len,
      some (overwrite (decode_loop target lut lut_32 in_data in_len) out_data),
    )

unfoldable pub transcode_pcmu_to_l16 :
    Option Avx2 → Option (List ℕ) → ℕ → Option (List ℤ) → ℤ × Option (List ℤ)
unfolding pcmu_to_l16_lut pcmu_to_l16_lut_32
transcode_pcmu_to_l16 target = decode_with target pcmu_to_l16_lut pcmu_to_l16_lut_32

unfoldable pub transcode_pcma_to_l16 :
    Option Avx2 → Option (List ℕ) → ℕ → Option (List ℤ) → ℤ × Option (List ℤ)
unfolding pcma_to_l16_lut pcma_to_l16_lut_32
transcode_pcma_to_l16 target = decode_with target pcma_to_l16_lut pcma_to_l16_lut_32

unfoldable pub encode_with : (ℤ → ℕ) → Option (List ℤ) → ℕ → Option (List ℕ) → ℤ × Option (List ℕ)
encode_with encode none in_len out_data = (negsuc 0, out_data)
encode_with encode (some in_data) in_len none = (negsuc 0, none)
encode_with encode (some in_data) in_len (some out_data) =
    (int_of_size in_len, some (overwrite (map encode (take in_len in_data)) out_data))

unfoldable pub transcode_l16_to_pcmu : Option (List ℤ) → ℕ → Option (List ℕ) → ℤ × Option (List ℕ)
transcode_l16_to_pcmu = encode_with linear_to_ulaw

unfoldable pub transcode_l16_to_pcma : Option (List ℤ) → ℕ → Option (List ℕ) → ℤ × Option (List ℕ)
transcode_l16_to_pcma = encode_with linear_to_alaw
