-- ===== src/Codec/Decode.antt =====
-- The AVX2 kernels of the decoders against their scalar loops.
use mathlib.Core.List.{map-append}
use mach_audio.Prelude.{
  ltb, holds_below, holds_at, length, get_or, take, drop, length-take, length-drop, length-map, ℤ,
  pos, negsuc, pos_part, neg_part, ℕ, zero, suc, ◌+◌, ◌-◌, ◌*◌, ◌/◌, ◌%◌, ◌≤◌, ◌<◌, ◌≡◌, refl, sym,
  ap, ◌∙◌, ◌≢◌, Bool, true, ◌&&◌, Option, none, some, List, [], ◌∷◌, ◌++◌, map, arith, take-add,
}
use mach_audio.Protocol.Bytes.{AreBytes}
use mach_audio.Simd.{Avx2, IsAvx2, saturate_i16}
use mach_audio.G711.Tables.{
  pcmu_to_l16_lut, pcmu_to_l16_lut_32, pcma_to_l16_lut, pcma_to_l16_lut_32,
}
use mach_audio.G711.Ulaw.{decode_ulaw}
use mach_audio.G711.Alaw.{decode_alaw}
use mach_audio.Codec.{
  decode_block, decode_rounds, decode_loop, decode_with, transcode_pcmu_to_l16,
  transcode_pcma_to_l16, int_of_size, overwrite,
}

-- To use a list of at least four elements by its first four.
four :
    (P : List ℕ → Type 0) (n : ℕ) (v : List ℕ)
    → length v ≡ n + 4
    → ((a b c d : ℕ) (r : List ℕ) → length r ≡ n → P (a ∷ b ∷ c ∷ d ∷ r))
    → P v
four P n [] h k = absurd (omega arith)
four P n (a ∷ []) h k = absurd (omega arith)
four P n (a ∷ b ∷ []) h k = absurd (omega arith)
four P n (a ∷ b ∷ c ∷ []) h k = absurd (omega arith)
four P n (a ∷ b ∷ c ∷ d ∷ r) h k = k a b c d r (omega arith)

nothing_left : (P : List ℕ → Type 0) (v : List ℕ) → length v ≡ 0 → P [] → P v
nothing_left P [] h k = k
nothing_left P (x ∷ v) h k = absurd (omega arith)

sixteen :
    (P : List ℕ → Type 0) (v : List ℕ)
    → length v ≡ 16
    → ((a b c d e f g h i j k l m n o p : ℕ)
        → P (a ∷ b ∷ c ∷ d ∷ e ∷ f ∷ g ∷ h ∷ i ∷ j ∷ k ∷ l ∷ m ∷ n ∷ o ∷ p ∷ []))
    → P v
sixteen P v len use16 = four P 12 v len λ a b c d r1 h1.
    four (λ r. P (a ∷ b ∷ c ∷ d ∷ r)) 8 r1 h1
      λ e f g h r2 h2.
        four (λ r. P (a ∷ b ∷ c ∷ d ∷ e ∷ f ∷ g ∷ h ∷ r)) 4 r2 h2
          λ i j k l r3 h3.
            four (λ r. P (a ∷ b ∷ c ∷ d ∷ e ∷ f ∷ g ∷ h ∷ i ∷ j ∷ k ∷ l ∷ r)) 0 r3 h3
              λ m n o p r4 h4.
                nothing_left
                  (λ r. P (a ∷ b ∷ c ∷ d ∷ e ∷ f ∷ g ∷ h ∷ i ∷ j ∷ k ∷ l ∷ m ∷ n ∷ o ∷ p ∷ r)) r4 h4
                  (use16 a b c d e f g h i j k l m n o p)

-- The round, by the value of each intrinsic.
decode_block_by :
    (m : Avx2) (lut_32 : List ℤ) (v lo high hi : List ℕ) (samples_lo samples_hi packed out : List ℤ)
    → m.cvtepu8_epi32 v ≡ lo
    → m.unpackhi_epi64 v v ≡ high
    → m.cvtepu8_epi32 high ≡ hi
    → m.i32gather_epi32 lut_32 lo ≡ samples_lo
    → m.i32gather_epi32 lut_32 hi ≡ samples_hi
    → m.packs_epi32 samples_lo samples_hi ≡ packed
    → m.permute4x64_epi64 packed 216 ≡ out
    → decode_block m lut_32 v ≡ out
unfolding decode_block
decode_block_by m lut_32 v lo high hi samples_lo samples_hi packed out e1 e2 e3 e4 e5 e6 e7 = cc

module _ (m : Avx2) (avx : IsAvx2 m) (lut_32 : List ℤ) where
  abbrev looked_up : ℕ → ℤ
  looked_up u = saturate_i16 (get_or lut_32 u (pos 0))

  decode_block_lem : (v : List ℕ) → length v ≡ 16 → decode_block m lut_32 v ≡ map looked_up v
  decode_block_lem v len =
      sixteen (λ v. decode_block m lut_32 v ≡ map looked_up v) v len
        λ a b c d e f g h i j k l n o p q.
          decode_block_by m lut_32 _ _ _ _ _ _ _ _ (avx.cvtepu8 _ refl) (avx.unpackhi _ _ refl refl)
            (avx.cvtepu8 _ refl) (avx.gather lut_32 _ refl) (avx.gather lut_32 _ refl)
            (avx.packs _ _ refl refl) (avx.permute _ 216 refl)

  decode_rounds_lem :
      (rounds n : ℕ) (codes : List ℕ)
      → n ≡ rounds * 16
      → n ≤ length codes
      → decode_rounds m lut_32 rounds codes ≡ map looked_up (take n codes)
  unfolding decode_rounds
  decode_rounds_lem zero n codes e h = let same : n ≡ 0 = omega arith in rw same
  decode_rounds_lem (suc rounds) n codes e h =
      rw
        (
          decode_block_lem (take 16 codes) (omega (arith, length-take 16 codes)),
          decode_rounds_lem rounds (n - 16) (drop 16 codes) (omega arith)
              (omega (arith, length-drop 16 codes)),
          take-add 16 (n - 16) n codes (omega arith),
        )
        (sym (map-append looked_up (take 16 codes) (take (n - 16) (drop 16 codes))))

-- The build's vector operations, if it has any, behave as documented.
abbrev pub IsTarget : Option Avx2 → Type 0
IsTarget none = Unit {0}
IsTarget (some m) = IsAvx2 m

map-bytes :
    (f g : ℕ → ℤ) (codes : List ℕ) (n : ℕ)
    → ((u : ℕ) → u < 256 → f u ≡ g u)
    → AreBytes codes
    → map f (take n codes) ≡ map g (take n codes)
map-bytes f g codes zero same h = refl
map-bytes f g [] (suc n) same h = refl
map-bytes f g (c ∷ codes) (suc n) same h = λ i. same c h.0 i ∷ map-bytes f g codes n same h.1 i

-- Tables of which the wide one holds the samples of the other, all of 16 bits.
abbrev AreTables : List ℤ → List ℤ → Type 0
AreTables lut lut_32 =
    (u : ℕ) → u < 256 → saturate_i16 (get_or lut_32 u (pos 0)) ≡ get_or lut u (pos 0)

module _ (lut lut_32 : List ℤ) (tables : AreTables lut lut_32) where
  decode_loop_lem :
      (target : Option Avx2) (codes : List ℕ) (n : ℕ)
      → IsTarget target
      → AreBytes codes
      → n % 16 ≡ 0
      → n ≤ length codes
      → decode_loop target lut lut_32 codes n ≡ map (λ u. get_or lut u (pos 0)) (take n codes)
  unfolding decode_loop
  decode_loop_lem none codes n t bytes h k = refl
  decode_loop_lem (some m) codes n t bytes h k =
      decode_rounds_lem m t lut_32 (n / 16) n codes (omega arith) k
      ∙ map-bytes _ _ codes n tables bytes

  decode_with_lem :
      (target : Option Avx2) (codes : List ℕ) (n : ℕ) (out : List ℤ)
      → IsTarget target
      → AreBytes codes
      → n % 16 ≡ 0
      → n ≤ length codes
      → decode_with target lut lut_32 (some codes) n (some out)
        ≡ (int_of_size n, some (map (λ u. get_or lut u (pos 0)) (take n codes) ++ drop n out))
  unfolding decode_with overwrite
  decode_with_lem target codes n out t bytes h k =
      rw (h, decode_with, decode_loop_lem target codes n t bytes h k)
        (ap
          (λ k.
            (int_of_size n, some (map (λ u. get_or lut u (pos 0)) (take n codes) ++ drop k out)))
          (omega
            (arith, length-map (take n codes) (λ u. get_or lut u (pos 0)), length-take n codes)))

sample_test : List ℤ → ℕ → Bool
sample_test lut u =
    ltb (pos_part (get_or lut u (pos 0))) 32768 && ltb (neg_part (get_or lut u (pos 0))) 32769

saturate-sample : (z : ℤ) → pos_part z < 32768 → neg_part z < 32769 → saturate_i16 z ≡ z
unfolding saturate_i16
saturate-sample (pos n) h k = ground arith
saturate-sample (negsuc n) h k = ground arith

pcmu_test : holds_below 256 (sample_test pcmu_to_l16_lut) ≡ true
unfolding holds_below sample_test pcmu_to_l16_lut
pcmu_test = refl

pcma_test : holds_below 256 (sample_test pcma_to_l16_lut) ≡ true
unfolding holds_below sample_test pcma_to_l16_lut
pcma_test = refl

sample_of_test :
    (lut : List ℤ) (u : ℕ)
    → holds_below 256 (sample_test lut) ≡ true
    → u < 256
    → saturate_i16 (get_or lut u (pos 0)) ≡ get_or lut u (pos 0)
unfolding sample_test
sample_of_test lut u h k =
    ground (arith, holds_at 256 (sample_test lut) u h k, saturate-sample (get_or lut u (pos 0)))

pcmu_tables : AreTables pcmu_to_l16_lut pcmu_to_l16_lut_32
pcmu_tables u h = rw same (sample_of_test pcmu_to_l16_lut u pcmu_test h)
  where
    same : pcmu_to_l16_lut_32 ≡ pcmu_to_l16_lut
    same = unfold pcmu_to_l16_lut pcmu_to_l16_lut_32 in refl

pcma_tables : AreTables pcma_to_l16_lut pcma_to_l16_lut_32
pcma_tables u h = rw same (sample_of_test pcma_to_l16_lut u pcma_test h)
  where
    same : pcma_to_l16_lut_32 ≡ pcma_to_l16_lut
    same = unfold pcma_to_l16_lut pcma_to_l16_lut_32 in refl

-- On every build, a multiple of 16 codes are decoded by the table, code by code, over the front
-- of the output array, and their number is returned; the rest of the array stays. For both laws.
pub transcode_to_l16_lem :
    (target : Option Avx2) (codes : List ℕ) (n : ℕ) (out : List ℤ)
    → IsTarget target
    → AreBytes codes
    → n % 16 ≡ 0
    → n ≤ length codes
    → (transcode_pcmu_to_l16 target (some codes) n (some out)
        ≡ (int_of_size n, some (map decode_ulaw (take n codes) ++ drop n out)))
      × (transcode_pcma_to_l16 target (some codes) n (some out)
          ≡ (int_of_size n, some (map decode_alaw (take n codes) ++ drop n out)))
unfolding transcode_pcmu_to_l16 transcode_pcma_to_l16 decode_ulaw decode_alaw
transcode_to_l16_lem target codes n out t bytes h k = (
  decode_with_lem pcmu_to_l16_lut pcmu_to_l16_lut_32 pcmu_tables target codes n out t bytes h k,
  decode_with_lem pcma_to_l16_lut pcma_to_l16_lut_32 pcma_tables target codes n out t bytes h k,
)

-- Any other number of codes is refused with -1, and the output array keeps what it held.
pub transcode_to_l16_refuses :
    (target : Option Avx2) (codes : List ℕ) (n : ℕ) (out : List ℤ)
    → n % 16 ≢ 0
    → (transcode_pcmu_to_l16 target (some codes) n (some out) ≡ (negsuc 0, some out))
      × (transcode_pcma_to_l16 target (some codes) n (some out) ≡ (negsuc 0, some out))
unfolding transcode_pcmu_to_l16 transcode_pcma_to_l16 decode_with
transcode_to_l16_refuses target codes n out h = (ground arith, ground arith)
