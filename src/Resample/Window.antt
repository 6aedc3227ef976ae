-- ===== src/Resample/Window.antt =====
-- The two ways in which `resample_l16_advanced` reads the taps around a position.
use mach_audio.Prelude.{
  ltb, leb, length, get_elem?, take, drop, ℤ, pos, negsuc, ◌+ℤ◌, ◌-ℤ◌, +ℤ_parts, -ℤ_parts,
  eq_of_parts, ℕ, zero, suc, ◌+◌, ◌-◌, ◌^◌, ◌≤◌, ◌<◌, ◌≡◌, refl, sym, ◌∙◌, true, false, some, List,
  [], ◌∷◌, arith,
}
use mach_audio.Codec.{int_of_size}
use mach_audio.Resample.Sinc.{
  at_int, center_off, is_inside, is_int, pad_buf, padded_sample, sinc_taps, window,
}

take-drop-suc :
    (xs : List ℤ) (i count : ℕ)
    → i < length xs
    → (x : ℤ) × (get_elem? xs i ≡ some x)
      × (take (suc count) (drop i xs) ≡ x ∷ take count (drop (suc i) xs))
take-drop-suc [] i count h = absurd (omega arith)
take-drop-suc (x ∷ xs) zero count h = (x, refl, refl)
take-drop-suc (x ∷ xs) (suc i) count h = take-drop-suc xs i count (omega arith)

pad_buf-inside :
    (delay_buf in_data : List ℤ) (in_samples : ℕ)
    → int_of_size in_samples ≡ pos in_samples
    → in_samples < 2 ^ 31
    → in_samples ≤ length in_data
    → (k count : ℕ) → k + count ≤ in_samples
    → pad_buf delay_buf in_data in_samples (pos k) count ≡ some (take count (drop k in_data))
unfolding pad_buf padded_sample is_int at_int
pad_buf-inside delay_buf in_data in_samples exact short fits k zero h = refl
pad_buf-inside delay_buf in_data in_samples exact short fits k (suc count) h =
    let x = take-drop-suc in_data k count (omega arith) in
    let next : pos k +ℤ pos 1 ≡ pos (suc k) =
      eq_of_parts (pos k +ℤ pos 1) (pos (suc k)) (omega (arith, +ℤ_parts (pos k) (pos 1))) in
    let after : ltb (k + 0) 0 ≡ false = ground arith in
    let test : ltb (k + 0) (in_samples + 0) ≡ true = ground arith in
    let fits_int : ltb k (2 ^ 31) ≡ true = ground arith in
    let rest =
      pad_buf-inside delay_buf in_data in_samples exact short fits (suc k) count (omega arith) in
    rw (fits_int, after, exact, test, x.1, next, rest, x.2) refl

-- Where all taps lie in an input shorter than 2 ^ 31, reading them in place and reading them one by
-- one, with the delay buffer before the input and the last sample behind it, give the same taps.
pub window-eq-pad_buf :
    (delay_buf in_data : List ℤ) (in_samples : ℕ) (idx : ℤ)
    → in_samples ≤ length in_data
    → in_samples < 2 ^ 31
    → is_inside idx in_samples ≡ true
    → window in_data (idx -ℤ pos center_off) sinc_taps
      ≡ pad_buf delay_buf in_data in_samples (idx -ℤ pos center_off) sinc_taps
unfolding is_inside
window-eq-pad_buf delay_buf in_data in_samples (negsuc n) fits short inside = absurd (ground arith)
window-eq-pad_buf delay_buf in_data in_samples (pos i) fits short inside = rw start (
    whole
    ∙ sym (
        pad_buf-inside delay_buf in_data in_samples exact short fits (i - center_off) sinc_taps
          (omega (arith, bounds))))
  where
    exact : int_of_size in_samples ≡ pos in_samples
    exact = ground arith

    bounds : (center_off ≤ i) × (i + (sinc_taps - center_off) ≤ in_samples)
    bounds =
        let test = rw exact at inside in
        let limit = -ℤ_parts (pos in_samples) (pos (sinc_taps - center_off)) in
        (ground arith, ground arith)

    start : pos i -ℤ pos center_off ≡ pos (i - center_off)
    start =
        eq_of_parts (pos i -ℤ pos center_off) (pos (i - center_off))
          (omega (arith, -ℤ_parts (pos i) (pos center_off), bounds.0))

    whole :
        window in_data (pos (i - center_off)) sinc_taps
        ≡ some (take sinc_taps (drop (i - center_off) in_data))
    whole =
        let room : leb (i - center_off + sinc_taps) (length in_data) ≡ true =
          ground (arith, bounds) in
        unfold window in rw room refl
