-- ===== src/Resample/Linear.antt =====
-- `resample_l16` of processing/resample.c: the table-driven upsampler and linear interpolation.
-- `none` is what C leaves undefined: an access outside of an array, a division by zero, an
-- overflow of a signed 32-bit number.
use mach_audio.Prelude.{
  ltb, leb, if◌then◌else◌, length, get_elem?, take, ℤ, pos, negsuc, ◌+ℤ◌, ◌-ℤ◌, ◌*ℤ◌, floor_div,
  u64, i16, ℕ, zero, suc, ◌+◌, ◌*◌, ◌/◌, ◌%◌, ◌^◌, Option, none, some, List, [], ◌∷◌, ◌++◌, ◌==◌,
}
use mach_audio.Prelude.Options.{◌>>=◌}
use mach_audio.Resample.{Resampler}

-- A signed 32-bit result, if it has one.
unfoldable pub i32? : ℤ → Option ℤ
i32? (pos n) = if ltb n (2 ^ 31) then some (pos n) else none
i32? (negsuc n) = if ltb n (2 ^ 31) then some (negsuc n) else none

-- The sample behind `x0`, or `x0` at the end.
unfoldable pub next_or : List ℤ → ℕ → ℕ → ℤ → Option ℤ
next_or in_data in_samples i x0 =
    if ltb (i + 1) in_samples then get_elem? in_data (i + 1) else some x0

-- One output sample of the table-driven path.
unfoldable pub fir : List ℤ → ℤ → ℤ → ℕ → Option ℤ
fir coeffs x0 x1 p = do
  c0 ← get_elem? coeffs (p * 8)
  c1 ← get_elem? coeffs (p * 8 + 1)
  a ← i32? (x0 *ℤ c0)
  b ← i32? (x1 *ℤ c1)
  acc ← i32? (a +ℤ b)
  some (i16 (floor_div acc (2 ^ 15)))

-- The phases `p`, `p + 1`, ... of one input sample, `count` of them.
unfoldable pub upsample_one : List ℤ → ℤ → ℤ → ℕ → ℕ → Option (List ℤ)
upsample_one coeffs x0 x1 p zero = some []
upsample_one coeffs x0 x1 p (suc count) = do
  y ← fir coeffs x0 x1 p
  ys ← upsample_one coeffs x0 x1 (p + 1) count
  some (y ∷ ys)

-- The input samples `i`, `i + 1`, ..., `count` of them.
unfoldable pub upsample : List ℤ → ℕ → List ℤ → ℕ → ℕ → ℕ → Option (List ℤ)
upsample coeffs phases in_data in_samples i zero = some []
upsample coeffs phases in_data in_samples i (suc count) = do
  x0 ← get_elem? in_data i
  x1 ← next_or in_data in_samples i x0
  ys ← upsample_one coeffs x0 x1 0 phases
  rest ← upsample coeffs phases in_data in_samples (i + 1) count
  some (ys ++ rest)

-- x0 + (((x1 - x0) * frac) >> 16), as an int16_t.
unfoldable pub lerp : ℤ → ℤ → ℕ → Option ℤ
lerp x0 x1 frac = do
  product ← i32? ((x1 -ℤ x0) *ℤ pos frac)
  some (i16 (x0 +ℤ floor_div product (2 ^ 16)))

-- `count` output samples from the 32.32 fixed-point position `pos_fp` on.
unfoldable pub interpolate : List ℤ → ℕ → ℕ → ℕ → ℕ → Option (List ℤ)
interpolate in_data in_samples step_fp pos_fp zero = some []
interpolate in_data in_samples step_fp pos_fp (suc count) = do
  let idx = pos_fp / 2 ^ 32
  x0 ← get_elem? in_data idx
  x1 ← next_or in_data in_samples idx x0
  y ← lerp x0 x1 (pos_fp / 2 ^ 16 % 2 ^ 16)
  ys ← interpolate in_data in_samples step_fp (u64 (pos_fp + step_fp)) count
  some (y ∷ ys)

-- The value that is returned, and the samples that are stored from the start of `out_data` on.
unfoldable pub resample_l16 : Resampler → ℕ → ℕ → List ℤ → ℕ → ℕ → Option (ℕ × List ℤ)
resample_l16 r in_rate out_rate in_data in_samples out_capacity =
    if in_rate == out_rate
    then (let samples = if ltb in_samples out_capacity then in_samples else out_capacity in
        if leb samples (length in_data) then some (samples, take samples in_data) else none)
    else if in_rate == 0
    then none
    else (let out_samples = u64 (in_samples * out_rate) / in_rate in
        if ltb out_capacity out_samples
        then some (0, [])
        else elim (if out_rate % in_rate == 0 then r.coeffs else none) [
          | some coeffs ↦ (do
            ys ← upsample coeffs r.phases in_data in_samples 0 in_samples
            some (out_samples, ys))
          | none ↦ if out_rate == 0 then none else (do
            ys ← interpolate in_data in_samples (in_rate * 2 ^ 32 / out_rate) 0 out_samples
            some (out_samples, ys))
        ])
