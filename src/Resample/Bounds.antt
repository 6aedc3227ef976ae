-- ===== src/Resample/Bounds.antt =====
-- Linear interpolation stays inside of the input and of 16 bits: `resample_l16` of
-- processing/resample.c.
use native.Mathlib.Nat.{mul-le-mul_left}
use mach_audio.Prelude.{
  ltb, if◌then◌else◌, Bool-cases, length, get_elem?, ℤ, pos, negsuc, pos_part, neg_part, ◌+ℤ◌, ◌-ℤ◌,
  ◌*ℤ◌, ◌≤ℤ◌, floor_div, +ℤ_parts, -ℤ_parts, u64, i16, IsI16, ℕ, zero, suc, ◌+◌, ◌*◌, ◌/◌, ◌%◌, ◌^◌,
  ◌≤◌, ◌<◌, ◌≡◌, refl, ap, ◌∙◌, ◌⊎◌, inl, inr, some, List, [], ◌∷◌, arith,
}
use mach_audio.Mix.Saturate.{AreI16}
use mach_audio.Prelude.Options.{>>=-some}
use mach_audio.Resample.Linear.{i32?, interpolate, lerp, next_or}

-- The product with a number that is not negative, through its parts.
pub *ℤ_parts :
    (z : ℤ) (n : ℕ)
    → (pos_part (z *ℤ pos n) ≡ pos_part z * n) × (neg_part (z *ℤ pos n) ≡ neg_part z * n)
unfolding ◌*ℤ◌
*ℤ_parts (pos k) n = ground arith
*ℤ_parts (negsuc k) n = ground arith

-- Neighbours no further apart than half of the range of an int16_t.
abbrev pub IsNear : ℤ → ℤ → Type 0
IsNear x y = (pos_part (y -ℤ x) ≤ 32768) × (neg_part (y -ℤ x) ≤ 32768)

abbrev pub IsBetween : ℤ → ℤ → ℤ → Type 0
IsBetween x y z = ((x ≤ℤ z) × (z ≤ℤ y)) ⊎ ((y ≤ℤ z) × (z ≤ℤ x))

-- A number that has parts within bounds has a quotient that does.
pub floor_div_parts :
    (p : ℤ) (a b : ℕ)
    → pos_part p ≤ a * 65536
    → neg_part p ≤ b * 65536
    → (pos_part (floor_div p 65536) ≤ a) × (neg_part (floor_div p 65536) ≤ b)
unfolding floor_div
floor_div_parts (pos n) a b h k = omega arith
floor_div_parts (negsuc n) a b h k = omega arith

pub sign_cases : (z : ℤ) → (neg_part z ≡ 0) ⊎ (pos_part z ≡ 0)
sign_cases (pos n) = inl refl
sign_cases (negsuc n) = inr refl

pub i32?-some : (z : ℤ) → pos_part z < 2 ^ 31 → neg_part z ≤ 2 ^ 31 → i32? z ≡ some z
unfolding i32?
i32?-some (pos n) h k = ground arith
i32?-some (negsuc n) h k = ground arith

pub i16_self : (z : ℤ) → IsI16 z → i16 z ≡ z
i16_self (pos n) h = ground arith
i16_self (negsuc n) h = ground arith

pub IsI16_of_IsBetween : (x y z : ℤ) → IsI16 x → IsI16 y → IsBetween x y z → IsI16 z
IsI16_of_IsBetween (pos a) (pos b) (pos c) h k between = ground arith
IsI16_of_IsBetween (pos a) (pos b) (negsuc c) h k between = ground arith
IsI16_of_IsBetween (pos a) (negsuc b) (pos c) h k between = ground arith
IsI16_of_IsBetween (pos a) (negsuc b) (negsuc c) h k between = ground arith
IsI16_of_IsBetween (negsuc a) (pos b) (pos c) h k between = ground arith
IsI16_of_IsBetween (negsuc a) (pos b) (negsuc c) h k between = ground arith
IsI16_of_IsBetween (negsuc a) (negsuc b) (pos c) h k between = ground arith
IsI16_of_IsBetween (negsuc a) (negsuc b) (negsuc c) h k between = ground arith

-- Between 16-bit samples that are near each other, the interpolated sample is one between them.
pub lerp-IsBetween :
    (x0 x1 : ℤ) (frac : ℕ)
    → IsI16 x0
    → IsI16 x1
    → IsNear x0 x1
    → frac < 2 ^ 16
    → (y : ℤ) × (lerp x0 x1 frac ≡ some y) × IsBetween x0 x1 y
unfolding lerp
lerp-IsBetween x0 x1 frac h0 h1 near small = (
  x0 +ℤ q,
  >>=-some (λ product. some (i16 (x0 +ℤ floor_div product 65536))) whole
      ∙ ap (λ y. some y) (i16_self (x0 +ℤ q) (IsI16_of_IsBetween x0 x1 (x0 +ℤ q) h0 h1 between)),
  between,
)
  where
    z : ℤ
    z = x1 -ℤ x0

    up : pos_part z * frac ≤ pos_part z * 65535
    up = mul-le-mul_left (pos_part z) (omega arith)

    down : neg_part z * frac ≤ neg_part z * 65535
    down = mul-le-mul_left (neg_part z) (omega arith)

    whole : i32? (z *ℤ pos frac) ≡ some (z *ℤ pos frac)
    whole =
        let parts = *ℤ_parts z frac in
        i32?-some (z *ℤ pos frac) (omega (arith, parts.0, up, near.0))
          (omega (arith, parts.1, down, near.1))

    q : ℤ
    q = floor_div (z *ℤ pos frac) 65536

    between : IsBetween x0 x1 (x0 +ℤ q)
    between =
        let parts = *ℤ_parts z frac in
        let step =
          floor_div_parts (z *ℤ pos frac) (pos_part z) (neg_part z) (omega (arith, parts.0, up))
            (omega (arith, parts.1, down)) in
        elim (sign_cases z) [
          | inl up ↦ inl (
            omega (arith, up, step, +ℤ_parts x0 q, -ℤ_parts x1 x0),
            omega (arith, up, step, +ℤ_parts x0 q, -ℤ_parts x1 x0),
          )
          | inr down ↦ inr (
            omega (arith, down, step, +ℤ_parts x0 q, -ℤ_parts x1 x0),
            omega (arith, down, step, +ℤ_parts x0 q, -ℤ_parts x1 x0),
          )
        ]

-- A relation between every sample and the next one.
abbrev pub AreLinked : (ℤ → ℤ → Type 0) → List ℤ → Type 0
AreLinked R [] = Unit {0}
AreLinked R (x ∷ []) = Unit {0}
AreLinked R (x ∷ y ∷ xs) = R x y × AreLinked R (y ∷ xs)

-- Neighbouring samples are no further apart than half of the range of an int16_t.
abbrev pub AreNear : List ℤ → Type 0
AreNear = AreLinked IsNear

IsNear-self : (x : ℤ) → IsNear x x
IsNear-self x = elim (sign_cases (x -ℤ x)) [
  | inl e ↦ (omega (arith, e, -ℤ_parts x x), omega (arith, e, -ℤ_parts x x))
  | inr e ↦ (omega (arith, e, -ℤ_parts x x), omega (arith, e, -ℤ_parts x x))
]

next_or-suc :
    (x : ℤ) (xs : List ℤ) (n i : ℕ) (x0 : ℤ)
    → next_or (x ∷ xs) (suc n) (suc i) x0 ≡ next_or xs n i x0
unfolding next_or
next_or-suc x xs n i x0 =
    let behind : suc i + 1 ≡ suc (i + 1) = omega arith in
    let test : ltb (suc (i + 1)) (suc n) ≡ ltb (i + 1) n = ground arith in
    ap (λ k. if ltb k (suc n) then get_elem? (x ∷ xs) k else some x0) behind ∙ rw test refl

-- A sample of the input and the one behind it, as the loops read them.
pub ends_at :
    (R : ℤ → ℤ → Type 0) (self : (x : ℤ) → R x x) (xs : List ℤ) (n i : ℕ)
    → AreI16 xs
    → AreLinked R xs
    → n ≤ length xs
    → i < n
    → (x0 : ℤ) × (x1 : ℤ) × (get_elem? xs i ≡ some x0)
      × (next_or xs n i x0 ≡ some x1)
      × IsI16 x0
      × IsI16 x1
      × R x0 x1
unfolding next_or
ends_at R self [] n i h near fits inside = absurd (omega arith)
ends_at R self (x ∷ []) n zero h near fits inside = (x, x, refl, ground arith, h.0, h.0, self x)
ends_at R self (x ∷ []) n (suc i) h near fits inside = absurd (omega arith)
ends_at R self (x ∷ y ∷ xs) n zero h near fits inside = elim (Bool-cases (ltb 1 n)) [
  | inl more ↦ (x, y, refl, rw more refl, h.0, h.1.0, near.0)
  | inr last ↦ (x, x, refl, rw last refl, h.0, h.0, self x)
]
ends_at R self (x ∷ y ∷ xs) zero (suc i) h near fits inside = absurd (omega arith)
ends_at R self (x ∷ y ∷ xs) (suc n) (suc i) h near fits inside =
    let r = ends_at R self (y ∷ xs) n i h.1 near.1 (omega arith) (omega arith) in
    (r.0, r.1, r.2, next_or-suc x (y ∷ xs) n i r.0 ∙ r.3, r.4, r.5, r.6)

-- The position of the last of `count` output samples lies in the input.
abbrev pub Reaches : ℕ → ℕ → ℕ → ℕ → Type 0
Reaches in_samples step_fp pos_fp zero = Unit {0}
Reaches in_samples step_fp pos_fp (suc count) = pos_fp + count * step_fp < in_samples * 2 ^ 32

pub interpolate-AreI16 :
    (in_data : List ℤ) (in_samples step_fp pos_fp count : ℕ)
    → AreI16 in_data
    → AreNear in_data
    → in_samples ≤ length in_data
    → in_samples < 2 ^ 32
    → Reaches in_samples step_fp pos_fp count
    → (ys : List ℤ) × (interpolate in_data in_samples step_fp pos_fp count ≡ some ys)
      × (length ys ≡ count)
      × AreI16 ys
unfolding interpolate
interpolate-AreI16 in_data in_samples step_fp pos_fp zero h near fits short reach =
    ([], refl, refl, tt)
interpolate-AreI16 in_data in_samples step_fp pos_fp (suc count) h near fits short reach =
    let r =
      ends_at IsNear IsNear-self in_data in_samples (pos_fp / 2 ^ 32) h near fits (omega arith) in
    let mid = lerp-IsBetween r.0 r.1 (pos_fp / 2 ^ 16 % 2 ^ 16) r.4 r.5 r.6 (omega arith) in
    let rest =
      interpolate-AreI16 in_data in_samples step_fp (u64 (pos_fp + step_fp)) count h near fits short
        (next count reach) in
    (
      mid.0 ∷ rest.0,
      rw (r.2, r.3, mid.1, rest.1) refl,
      ap suc rest.2,
      (IsI16_of_IsBetween r.0 r.1 mid.0 r.4 r.5 mid.2, rest.3),
    )
  where
    next :
        (count : ℕ)
        → Reaches in_samples step_fp pos_fp (suc count)
        → Reaches in_samples step_fp (u64 (pos_fp + step_fp)) count
    next zero reach = tt
    next (suc count) reach =
        let exact : u64 (pos_fp + step_fp) ≡ pos_fp + step_fp = omega (arith, reach, short) in
        rw exact (omega (arith, reach))
