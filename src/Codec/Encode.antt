-- ===== src/Codec/Encode.antt =====
-- The encoders' loops, and the way from codes to samples and back.
use mach_audio.Prelude.{
  length, take, drop, length-map, ℤ, ℕ, ◌%◌, ◌≡◌, refl, ap, ◌∙◌, ◌≢◌, Option, some, List, [], ◌∷◌,
  ◌++◌, map, append-nil, arith, take_all, drop_all,
}
use mach_audio.Protocol.Bytes.{AreBytes}
use mach_audio.Simd.{Avx2}
use mach_audio.G711.{linear_to_ulaw, linear_to_alaw}
use mach_audio.G711.Alaw.{decode_alaw, linear_to_alaw-decode_alaw}
use mach_audio.G711.Ulaw.{decode_ulaw, linear_to_ulaw-decode_ulaw}
use mach_audio.Codec.{
  transcode_pcmu_to_l16, transcode_pcma_to_l16, transcode_l16_to_pcmu, transcode_l16_to_pcma,
  encode_with, overwrite, int_of_size,
}
use mach_audio.Codec.Decode.{IsTarget, transcode_to_l16_lem}

-- No code of a list is the u-law negative zero.
abbrev pub HaveNoMinusZero : List ℕ → Type 0
HaveNoMinusZero [] = Unit {0}
HaveNoMinusZero (c ∷ cs) = (c ≢ 0x7F) × HaveNoMinusZero cs

alaw_codes : (codes : List ℕ) → AreBytes codes → map linear_to_alaw (map decode_alaw codes) ≡ codes
alaw_codes [] h = refl
alaw_codes (c ∷ cs) h = λ i. linear_to_alaw-decode_alaw c h.0 i ∷ alaw_codes cs h.1 i

ulaw_codes :
    (codes : List ℕ)
    → AreBytes codes
    → HaveNoMinusZero codes
    → map linear_to_ulaw (map decode_ulaw codes) ≡ codes
ulaw_codes [] h k = refl
ulaw_codes (c ∷ cs) h k = λ i. linear_to_ulaw-decode_ulaw c h.0 k.0 i ∷ ulaw_codes cs h.1 k.1 i

-- An encoder fills an array of as many elements as there are samples.
pub encode_all :
    (encode : ℤ → ℕ) (samples : List ℤ) (n : ℕ) (back : List ℕ)
    → length samples ≡ n
    → length back ≡ n
    → encode_with encode (some samples) n (some back) ≡ (int_of_size n, some (map encode samples))
unfolding encode_with overwrite
encode_all encode samples n back e h = rw (
  take_all n samples (omega arith),
  drop_all (length (map encode samples)) back (omega (arith, length-map samples encode)),
  append-nil (map encode samples),
)

module _ (n : ℕ) (codes : List ℕ) (out : List ℤ) (decode : ℕ → ℤ) (len : length codes ≡ n)
    (room : length out ≡ n) where
  decoded_all : map decode (take n codes) ++ drop n out ≡ map decode codes
  decoded_all =
      rw (take_all n codes (omega arith), drop_all n out (omega arith))
        (append-nil (map decode codes))

  length-decoded : length (map decode codes) ≡ n
  length-decoded = length-map codes decode ∙ len

-- On every build, a multiple of 16 A-law codes that are decoded into an array of their number and
-- encoded again give the same codes.
pub pcma_roundtrip :
    (target : Option Avx2) (n : ℕ) (codes back : List ℕ) (out : List ℤ)
    → IsTarget target
    → AreBytes codes
    → n % 16 ≡ 0
    → length codes ≡ n
    → length out ≡ n
    → length back ≡ n
    → (samples : List ℤ) × (transcode_pcma_to_l16 target (some codes) n (some out)
        ≡ (int_of_size n, some samples))
      × (transcode_l16_to_pcma (some samples) n (some back) ≡ (int_of_size n, some codes))
pcma_roundtrip target n codes back out t bytes h len room room' = (
  map decode_alaw codes,
  (transcode_to_l16_lem target codes n out t bytes h (omega arith)).1
      ∙ ap (λ s. (int_of_size n, some s)) (decoded_all n codes out decode_alaw len room),
  unfold transcode_l16_to_pcma in
      (encode_all linear_to_alaw (map decode_alaw codes) n back
          (length-decoded n codes out decode_alaw len room) room'
        ∙ ap (λ s. (int_of_size n, some s)) (alaw_codes codes bytes)),
)

-- On every build, a multiple of 16 u-law codes, none of them 0x7F (the negative zero), that are
-- decoded into an array of their number and encoded again give the same codes.
pub pcmu_roundtrip :
    (target : Option Avx2) (n : ℕ) (codes back : List ℕ) (out : List ℤ)
    → IsTarget target
    → AreBytes codes
    → HaveNoMinusZero codes
    → n % 16 ≡ 0
    → length codes ≡ n
    → length out ≡ n
    → length back ≡ n
    → (samples : List ℤ) × (transcode_pcmu_to_l16 target (some codes) n (some out)
        ≡ (int_of_size n, some samples))
      × (transcode_l16_to_pcmu (some samples) n (some back) ≡ (int_of_size n, some codes))
pcmu_roundtrip target n codes back out t bytes plain h len room room' = (
  map decode_ulaw codes,
  (transcode_to_l16_lem target codes n out t bytes h (omega arith)).0
      ∙ ap (λ s. (int_of_size n, some s)) (decoded_all n codes out decode_ulaw len room),
  unfold transcode_l16_to_pcmu in
      (encode_all linear_to_ulaw (map decode_ulaw codes) n back
          (length-decoded n codes out decode_ulaw len room) room'
        ∙ ap (λ s. (int_of_size n, some s)) (ulaw_codes codes bytes plain)),
)
