-- ===== src/Mix/Saturate.antt =====
-- The mixer is the lanewise saturated sum, whatever the number of samples.
use mach_audio.Prelude.{
  if◌then◌else◌, length, take, drop, length-take, length-drop, ℤ, pos, negsuc, ◌+ℤ◌, ltb_ℤ,
  round_down, i16, IsI16, ℕ, zero, suc, ◌+◌, ◌-◌, ◌*◌, ◌/◌, ◌≤◌, ◌≡◌, refl, sym, ap, ◌∙◌, List, [],
  ◌∷◌, ◌++◌, arith,
}
use mach_audio.Simd.{Avx2, IsAvx2, saturate_i16, saturated_sums}
use mach_audio.Mix.{clamp_add_int16, simd_loop, scalar_loop, mix_l16_avx2}

-- Samples that fit 16 bits.
abbrev pub AreI16 : List ℤ → Type 0
AreI16 [] = Unit {0}
AreI16 (x ∷ xs) = IsI16 x × AreI16 xs

-- The scalar sum is the exact sum, saturated to 16 bits.
pub clamp_add_int16-eq-saturate_i16 : (a b : ℤ) → clamp_add_int16 a b ≡ saturate_i16 (a +ℤ b)
unfolding clamp_add_int16 saturate_i16
clamp_add_int16-eq-saturate_i16 a b =
    elim (a +ℤ b)
      as (λ s.
        (if ltb_ℤ (pos 32767) s
          then pos 32767
          else if ltb_ℤ s (negsuc 32767)
          then negsuc 32767
          else i16 s)
        ≡ saturate_i16 s) [ pos n ↦ ground arith | negsuc n ↦ ground arith ]

scalar_loop_lem :
    (n : ℕ) (xs ys : List ℤ) → scalar_loop n xs ys ≡ saturated_sums (take n xs) (take n ys)
unfolding scalar_loop saturated_sums
scalar_loop_lem zero xs ys = refl
scalar_loop_lem (suc n) [] ys = refl
scalar_loop_lem (suc n) (a ∷ xs) [] = refl
scalar_loop_lem (suc n) (a ∷ xs) (b ∷ ys) =
    ground (arith, scalar_loop_lem n xs ys, clamp_add_int16-eq-saturate_i16 a b)

saturated_sums-nil : (xs : List ℤ) → saturated_sums xs [] ≡ []
unfolding saturated_sums
saturated_sums-nil [] = refl
saturated_sums-nil (x ∷ xs) = refl

-- A prefix of `k + n` samples is mixed as `k` and then `n`.
saturated_sums-split :
    (k n m : ℕ) (xs ys : List ℤ)
    → m ≡ k + n
    → k ≤ length xs
    → k ≤ length ys
    → saturated_sums (take m xs) (take m ys)
      ≡ saturated_sums (take k xs) (take k ys)
        ++ saturated_sums (take n (drop k xs)) (take n (drop k ys))
unfolding saturated_sums
saturated_sums-split zero n m xs ys e h h' = let same : m ≡ n = omega arith in rw same
saturated_sums-split (suc k) n m [] ys e h h' = absurd (omega arith)
saturated_sums-split (suc k) n m (a ∷ xs) [] e h h' = absurd (omega arith)
saturated_sums-split (suc k) n zero (a ∷ xs) (b ∷ ys) e h h' = absurd (omega arith)
saturated_sums-split (suc k) n (suc m) (a ∷ xs) (b ∷ ys) e h h' =
    ap (λ r. saturate_i16 (a +ℤ b) ∷ r)
      (saturated_sums-split k n m xs ys (omega arith) (omega arith) (omega arith))

module _ (m : Avx2) (avx : IsAvx2 m) where
  simd_loop_lem :
      (rounds n : ℕ) (xs ys : List ℤ)
      → n ≡ rounds * 16
      → n ≤ length xs
      → n ≤ length ys
      → simd_loop m rounds xs ys ≡ saturated_sums (take n xs) (take n ys)
  unfolding simd_loop saturated_sums
  simd_loop_lem zero n xs ys e h h' = let same : n ≡ 0 = omega arith in rw (same, saturated_sums)
  simd_loop_lem (suc rounds) n xs ys e h h' =
      rw
        (avx.adds (take 16 xs) (take 16 ys) (omega (arith, length-take 16 xs))
          (omega (arith, length-take 16 ys)))
        (ap (λ r. saturated_sums (take 16 xs) (take 16 ys) ++ r)
            (simd_loop_lem rounds (n - 16) (drop 16 xs) (drop 16 ys) (omega arith)
              (omega (arith, length-drop 16 xs)) (omega (arith, length-drop 16 ys)))
          ∙ sym
              (saturated_sums-split 16 (n - 16) n xs ys (omega arith) (omega arith) (omega arith)))

-- With intrinsics that behave as documented the mixer stores, for every number of samples up to
-- the lengths of the two arrays, the sums of their first samples, each saturated to 16 bits.
pub mix_l16_avx2-eq-saturated_sums :
    (m : Avx2) (xs ys : List ℤ) (samples : ℕ)
    → IsAvx2 m
    → samples ≤ length xs
    → samples ≤ length ys
    → mix_l16_avx2 m xs ys samples ≡ saturated_sums (take samples xs) (take samples ys)
unfolding mix_l16_avx2
mix_l16_avx2-eq-saturated_sums m xs ys samples avx h h' =
    rw
      (
        simd_loop_lem m avx (round_down samples 16 / 16) (round_down samples 16) xs ys (omega arith)
            (omega arith) (omega arith),
        scalar_loop_lem (samples - round_down samples 16) (drop (round_down samples 16) xs)
            (drop (round_down samples 16) ys),
      )
      (sym (
        saturated_sums-split (round_down samples 16) (samples - round_down samples 16) samples xs ys
          (omega arith) (omega arith) (omega arith)))
