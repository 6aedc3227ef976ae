-- ===== src/Resample/Table.antt =====
-- The table-driven upsampler of processing/resample.c stays inside of its tables and of 16 bits.
use native.Mathlib.Nat.{mul-le-mul_right}
use mach_audio.Prelude.{
  length, get_elem?, length-append, ℤ, pos, negsuc, pos_part, neg_part, ◌+ℤ◌, ◌*ℤ◌, floor_div,
  +ℤ_parts, IsI16, ℕ, zero, suc, ◌+◌, ◌*◌, ◌≤◌, ◌<◌, ◌≡◌, refl, ap, inl, inr, some, List, [], ◌∷◌,
  ◌++◌, arith,
}
use mach_audio.Mix.Saturate.{AreI16}
use mach_audio.Resample.Bounds.{*ℤ_parts, AreLinked, ends_at, i16_self, i32?-some, sign_cases}
use mach_audio.Resample.Linear.{fir, upsample, upsample_one}

-- A table with two taps for each phase, which are not negative and add up to at most 2 ^ 15.
abbrev pub IsTable : List ℤ → ℕ → Type 0
IsTable coeffs phases =
    (p : ℕ)
    → p < phases
    → (c0 : ℕ) × (c1 : ℕ) × (get_elem? coeffs (p * 8) ≡ some (pos c0))
      × (get_elem? coeffs (p * 8 + 1) ≡ some (pos c1))
      × (c0 + c1 ≤ 32768)

abbrev HasParts : ℤ → ℕ → ℕ → Type 0
HasParts z a b = (pos_part z ≤ a) × (neg_part z ≤ b)

parts_of_IsI16 : (x : ℤ) → IsI16 x → HasParts x 32767 32768
parts_of_IsI16 (pos n) h = (omega arith, omega arith)
parts_of_IsI16 (negsuc n) h = (omega arith, omega arith)

IsI16_of_parts : (x : ℤ) → HasParts x 32767 32768 → IsI16 x
IsI16_of_parts (pos n) h = omega arith
IsI16_of_parts (negsuc n) h = omega arith

times : (x : ℤ) (c : ℕ) → IsI16 x → HasParts (x *ℤ pos c) (32767 * c) (32768 * c)
times x c h =
    let parts = *ℤ_parts x c in
    let both = parts_of_IsI16 x h in
    let up : pos_part x * c ≤ 32767 * c = mul-le-mul_right c both.0 in
    let down : neg_part x * c ≤ 32768 * c = mul-le-mul_right c both.1 in
    (omega (arith, parts.0, up), omega (arith, parts.1, down))

plus : (a b : ℤ) (p n q k : ℕ) → HasParts a p n → HasParts b q k → HasParts (a +ℤ b) (p + q) (n + k)
plus a b p n q k h g = elim (sign_cases (a +ℤ b)) [
  | inl e ↦ (omega (arith, e, h, g, +ℤ_parts a b), omega (arith, e, h, g, +ℤ_parts a b))
  | inr e ↦ (omega (arith, e, h, g, +ℤ_parts a b), omega (arith, e, h, g, +ℤ_parts a b))
]

quotient : (p : ℤ) → HasParts p (32767 * 32768) (32768 * 32768) → IsI16 (floor_div p 32768)
unfolding floor_div
quotient (pos n) h = omega arith
quotient (negsuc n) h = omega arith

fir-IsI16 :
    (coeffs : List ℤ) (phases : ℕ) (x0 x1 : ℤ) (p : ℕ)
    → IsTable coeffs phases
    → IsI16 x0
    → IsI16 x1
    → p < phases
    → (y : ℤ) × (fir coeffs x0 x1 p ≡ some y) × IsI16 y
unfolding fir
fir-IsI16 coeffs phases x0 x1 p table h0 h1 small =
    let t = table p small in
    let a = times x0 t.0 h0 in
    let b = times x1 t.1 h1 in
    let c =
      plus (x0 *ℤ pos t.0) (x1 *ℤ pos t.1) (32767 * t.0) (32768 * t.0) (32767 * t.1) (32768 * t.1) a
        b in
    let inside = quotient (x0 *ℤ pos t.0 +ℤ x1 *ℤ pos t.1) (omega arith, omega arith) in
    (
      floor_div (x0 *ℤ pos t.0 +ℤ x1 *ℤ pos t.1) 32768,
      rw
          (
            t.2,
            t.3,
            i32?-some (x0 *ℤ pos t.0) (omega (arith, a.0, t.4)) (omega (arith, a.1, t.4)),
            i32?-some (x1 *ℤ pos t.1) (omega (arith, b.0, t.4)) (omega (arith, b.1, t.4)),
            i32?-some (x0 *ℤ pos t.0 +ℤ x1 *ℤ pos t.1) (omega (arith, c.0, t.4))
                (omega (arith, c.1, t.4)),
          )
          (ap (λ z. some z) (i16_self _ inside)),
      inside,
    )

upsample_one-AreI16 :
    (coeffs : List ℤ) (phases : ℕ) (x0 x1 : ℤ) (p count : ℕ)
    → IsTable coeffs phases
    → IsI16 x0
    → IsI16 x1
    → p + count ≤ phases
    → (ys : List ℤ) × (upsample_one coeffs x0 x1 p count ≡ some ys)
      × (length ys ≡ count)
      × AreI16 ys
unfolding upsample_one
upsample_one-AreI16 coeffs phases x0 x1 p zero table h0 h1 fits = ([], refl, refl, tt)
upsample_one-AreI16 coeffs phases x0 x1 p (suc count) table h0 h1 fits =
    let first = fir-IsI16 coeffs phases x0 x1 p table h0 h1 (omega arith) in
    let rest = upsample_one-AreI16 coeffs phases x0 x1 (p + 1) count table h0 h1 (omega arith) in
    (first.0 ∷ rest.0, rw (first.1, rest.1) refl, ap suc rest.2, (first.2, rest.3))

AreI16-append : (xs ys : List ℤ) → AreI16 xs → AreI16 ys → AreI16 (xs ++ ys)
AreI16-append [] ys h g = g
AreI16-append (x ∷ xs) ys h g = (h.0, AreI16-append xs ys h.1 g)

unlinked : (xs : List ℤ) → AreLinked (λ _ _. Unit {0}) xs
unlinked [] = tt
unlinked (x ∷ []) = tt
unlinked (x ∷ y ∷ xs) = (tt, unlinked (y ∷ xs))

pub upsample-AreI16 :
    (coeffs : List ℤ) (phases : ℕ) (in_data : List ℤ) (in_samples i count : ℕ)
    → IsTable coeffs phases
    → AreI16 in_data
    → in_samples ≤ length in_data
    → i + count ≤ in_samples
    → (ys : List ℤ) × (upsample coeffs phases in_data in_samples i count ≡ some ys)
      × (length ys ≡ count * phases)
      × AreI16 ys
unfolding upsample
upsample-AreI16 coeffs phases in_data in_samples i zero table h fits inside =
    ([], refl, omega arith, tt)
upsample-AreI16 coeffs phases in_data in_samples i (suc count) table h fits inside =
    let r =
      ends_at (λ _ _. Unit {0}) (λ _. tt) in_data in_samples i h (unlinked in_data) fits
        (omega arith) in
    let first = upsample_one-AreI16 coeffs phases r.0 r.1 0 phases table r.4 r.5 (omega arith) in
    let rest =
      upsample-AreI16 coeffs phases in_data in_samples (i + 1) count table h fits (omega arith) in
    (
      first.0 ++ rest.0,
      rw (r.2, r.3, first.1, rest.1) refl,
      omega (arith, length-append first.0 rest.0, first.2, rest.2),
      AreI16-append first.0 rest.0 first.3 rest.3,
    )
