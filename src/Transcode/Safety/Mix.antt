-- ===== src/Transcode/Safety/Mix.antt =====
-- Mixing a buffer into the first one does not fault.
use native.Mathlib.Nat.{mul-le-mul_right}
use mach_audio.Prelude.{
  ltb, leb, if◌then◌else◌, length, take, length-take, ℤ, ℕ, zero, suc, ◌+◌, ◌*◌, ◌≤◌, ◌≡◌, ap, ◌∙◌,
  Bool, Option, none, some, List, [], ◌∷◌, arith,
}
use mach_audio.Mix.{mix_l16_avx2}
use mach_audio.Mix.Saturate.{mix_l16_avx2-eq-saturated_sums}
use mach_audio.Simd.{Avx2, IsAvx2, saturated_sums}
use mach_audio.Transcode.{Dsp}
use mach_audio.Transcode.Decode.{keep_or_mix, mix_into}
use mach_audio.Transcode.Hoare.{
  Done, Done-bind, Done-if, Done-read, Keeps, load_samples-Done, store_samples-Done,
}
use mach_audio.Transcode.Memory.{State, crash, load_samples}
use mach_audio.Transcode.Safety.{IsDecoded, IsHeld, IsKept}

length-saturated_sums :
    (n : ℕ) (xs ys : List ℤ) → length xs ≡ n → length ys ≡ n → length (saturated_sums xs ys) ≡ n
unfolding saturated_sums
length-saturated_sums n [] ys e f = e
length-saturated_sums n (x ∷ xs) [] e f = absurd (omega arith)
length-saturated_sums zero (x ∷ xs) (y ∷ ys) e f = absurd (omega arith)
length-saturated_sums (suc n) (x ∷ xs) (y ∷ ys) e f = omega (arith, length-saturated_sums n xs ys)

module _ (d : Dsp) (m : Avx2) (avx : IsAvx2 m) (le : Bool) (payload : List ℕ) (c0 : ℕ) where
  mix_into-Done :
      (first block : ℕ × ℕ) (s : State d)
      → IsHeld d c0 first s
      → IsHeld d c0 block s
      → first.0 + 2 * (first.1 * s.session.in_channels) ≤ block.0
      → Done d c0 (λ _ s'. Keeps d c0 s s') (mix_into d m le payload first block s)
  unfolding mix_into Done
  mix_into-Done (p, n) (q, k) s first block apart =
      Done-if d c0 (λ _ s'. Keeps d c0 s s') (leb (p + 2 * total) q) _ crash s
        (λ _.
          Done-read d c0 (λ zs. length zs ≡ total) (λ _ s'. Keeps d c0 s s')
            (load_samples d le p total) _ s
            (load_samples-Done d c0 le p total s (omega (arith, first.until, in_first)) first.ready)
            (λ a q1.
              Done-read d c0 (λ zs. length zs ≡ total) (λ _ s'. Keeps d c0 s s')
                (load_samples d le q total) _ s
                (load_samples-Done d c0 le q total s (omega (arith, block.until, in_block))
                  first.ready)
                (λ b q2.
                  store_samples-Done d c0 le p (mix_l16_avx2 m a b total) s
                    (omega (arith, first.until, in_first, mixed a b q1 q2)) first.ready)))
        (λ e. absurd (ground (arith, in_first)))
    where
      mixed_samples : ℕ
      mixed_samples = if ltb k n then k else n

      total : ℕ
      total = mixed_samples * s.session.in_channels

      in_first : total ≤ n * s.session.in_channels
      in_first = mul-le-mul_right s.session.in_channels (ground arith)

      in_block : total ≤ k * s.session.in_channels
      in_block = mul-le-mul_right s.session.in_channels (ground arith)

      mixed :
          (a b : List ℤ)
          → length a ≡ total
          → length b ≡ total
          → length (mix_l16_avx2 m a b total) ≡ total
      mixed a b e f =
          ap (λ zs. length zs)
            (mix_l16_avx2-eq-saturated_sums m a b total avx (omega arith) (omega arith))
          ∙ length-saturated_sums total (take total a) (take total b)
              (omega (arith, length-take total a)) (omega (arith, length-take total b))

  abbrev IsRound : Option (ℕ × ℕ) → State d → Type 0
  IsRound acc s' = IsKept d c0 s' acc

  pub keep_or_mix-Done :
      (acc : Option (ℕ × ℕ)) (block : ℕ × ℕ) (s s1 : State d)
      → IsKept d c0 s acc
      → IsDecoded d c0 s block s1
      → Done d c0 (λ first s'. IsHeld d c0 first s') (keep_or_mix d m le payload acc block s1)
  unfolding keep_or_mix Done
  keep_or_mix-Done none block s s1 h q = q.0
  keep_or_mix-Done (some first) block s s1 h q =
      Done-bind d c0 (λ _ s'. Keeps d c0 s1 s') (λ first s'. IsHeld d c0 first s')
        (mix_into d m le payload first block) _ s1 (mix_into-Done first block s1 kept q.0 apart)
        (λ _ s2 q2. record { ready = q2.0; from = kept.from; until = rw (q2.1, q2.2) kept.until })
    where
      apart : first.0 + 2 * (first.1 * s1.session.in_channels) ≤ block.0
      apart = rw (q.2) (omega (arith, h.until, q.1))

      kept : IsHeld d c0 first s1
      kept = record { ready = q.0.ready; from = h.from; until = omega (arith, apart, q.0.until) }
