-- ===== src/Resample/Sinc.antt =====
-- `resample_l16_advanced` of processing/resample_adv.c, in the build without AVX2. The table of
-- resample_sinc_table.h is a parameter. `none` is what C leaves undefined: an access outside of an
-- array, an overflow of a signed 64-bit number or of the index of a tap read near the ends.
use mach_audio.Prelude.{
  ltb, leb, if◌then◌else◌, length, get_elem?, take, drop, ℤ, pos, negsuc, pos_part, ◌+ℤ◌, ◌-ℤ◌,
  ltb_ℤ, floor_div, i16, ℕ, zero, suc, ◌+◌, ◌-◌, ◌*◌, ◌%◌, ◌^◌, Bool, not, ◌&&◌, Option, none, some,
  List, [], ◌∷◌, ◌++◌, ◌==◌,
}
use mach_audio.Codec.{int_of_size}
use mach_audio.Prelude.Options.{◌>>=◌}
use mach_audio.Resample.{Doubles, Resampler, resampler_max_taps}

-- SINC_TAPS, SINC_PHASES and center_off
abbrev pub sinc_taps : ℕ
sinc_taps = 128

abbrev pub sinc_phases : ℕ
sinc_phases = 1024

abbrev pub center_off : ℕ
center_off = 63

-- A signed 64-bit result, if it has one.
unfoldable pub i64? : ℤ → Option ℤ
i64? (pos n) = if ltb n (2 ^ 63) then some (pos n) else none
i64? (negsuc n) = if ltb n (2 ^ 63) then some (negsuc n) else none

-- `xs[i]` at a signed index.
unfoldable pub at_int : {A : Type 0} → List A → ℤ → Option A
at_int xs (pos n) = get_elem? xs n
at_int xs (negsuc n) = none

-- `x & 0xFFFFFFFF` of an int64_t.
unfoldable pub low_word : ℤ → ℕ
low_word (pos n) = n % 2 ^ 32
low_word (negsuc n) = 2 ^ 32 - 1 - n % 2 ^ 32

-- `in_data[in_samples - 1]`.
unfoldable pub last_of : List ℤ → ℕ → Option ℤ
last_of in_data zero = none
last_of in_data (suc last) = get_elem? in_data last

-- Whether a number is one of an `int`.
unfoldable pub is_int : ℤ → Bool
is_int (pos n) = ltb n (2 ^ 31)
is_int (negsuc n) = ltb n (2 ^ 31)

-- The input sample `k` as the windows near the ends read it: from the delay buffer before the
-- start, the last sample behind the end. `k` is an `int`, in which idx - center_off + j is computed.
unfoldable pub padded_sample : List ℤ → List ℤ → ℕ → ℤ → Option ℤ
unfolding is_int
padded_sample delay_buf in_data in_samples k =
    if not (is_int k)
    then none
    else if ltb_ℤ k (pos 0)
    then at_int delay_buf (pos resampler_max_taps +ℤ k)
    else if not (ltb_ℤ k (int_of_size in_samples))
    then last_of in_data in_samples
    else at_int in_data k

-- The samples `k`, `k + 1`, ..., `count` of them: `pad_buf`.
unfoldable pub pad_buf : List ℤ → List ℤ → ℕ → ℤ → ℕ → Option (List ℤ)
pad_buf delay_buf in_data in_samples k zero = some []
pad_buf delay_buf in_data in_samples k (suc count) = do
  x ← padded_sample delay_buf in_data in_samples k
  xs ← pad_buf delay_buf in_data in_samples (k +ℤ pos 1) count
  some (x ∷ xs)

-- `&in_data[start]`, of which `count` samples are read.
unfoldable pub window : List ℤ → ℤ → ℕ → Option (List ℤ)
window in_data (pos start) count =
    if leb (start + count) (length in_data) then some (take count (drop start in_data)) else none
window in_data (negsuc start) count = none

-- Whether all the taps around `idx` lie in the input.
unfoldable pub is_inside : ℤ → ℕ → Bool
is_inside idx in_samples =
    not (ltb_ℤ idx (pos center_off))
    && ltb_ℤ idx (int_of_size in_samples -ℤ pos (sinc_taps - center_off))

-- The sample `k` as the stretched kernel reads it.
unfoldable pub clamped_sample : List ℤ → List ℤ → ℕ → ℤ → Option ℤ
clamped_sample delay_buf in_data in_samples k =
    if ltb_ℤ k (pos 0)
    then (if ltb_ℤ (pos resampler_max_taps +ℤ k) (pos 0)
        then at_int delay_buf (pos 0)
        else at_int delay_buf (pos resampler_max_taps +ℤ k))
    else if not (ltb_ℤ k (int_of_size in_samples))
    then last_of in_data in_samples
    else at_int in_data k

module _ (f : Doubles) (sinc_coeffs : List (List ℤ)) where
  abbrev pub number : ℕ → f.Double
  number n = f.of_int (pos n)

  unfoldable pub clamp_to_int16 : f.Double → ℤ
  clamp_to_int16 val =
      let r = f.round val in
      if f.less (number 32767) r
      then pos 32767
      else if f.less r (f.of_int (negsuc 32767))
      then negsuc 32767
      else i16 (f.to_int r)

  -- `p >= SINC_PHASES ? SINC_PHASES - 1 : p` of the fraction's phase.
  unfoldable pub phase_of : f.Double → ℤ
  phase_of frac =
      let phase = f.to_int (f.mul frac (number sinc_phases)) in
      if ltb_ℤ phase (pos sinc_phases) then phase else pos (sinc_phases - 1)

  -- One coefficient is read for each sample.
  unfoldable pub mac : f.Double → List ℤ → List ℤ → Option f.Double
  mac dacc [] cs = some dacc
  mac dacc (x ∷ xs) [] = none
  mac dacc (x ∷ xs) (c ∷ cs) = mac (f.add dacc (f.mul (f.of_int x) (f.of_int c))) xs cs

  -- The upsampling path: the taps of one phase.
  unfoldable pub polyphase : List ℤ → List ℤ → ℕ → ℤ → f.Double → Option f.Double
  polyphase delay_buf in_data in_samples idx frac = do
    coeffs ← at_int sinc_coeffs (phase_of frac)
    xs ←
        (if is_inside idx in_samples
          then window in_data (idx -ℤ pos center_off) sinc_taps
          else pad_buf delay_buf in_data in_samples (idx -ℤ pos center_off) sinc_taps)
    acc ← mac (number 0) xs coeffs
    some (f.div acc (number 32767))

  -- The taps `k`, `k + 1`, ..., `count` of them, of the stretched kernel around `t`.
  unfoldable pub convolve :
      List ℤ → List ℤ → ℕ → f.Double → f.Double → f.Double → ℤ → ℕ → Option f.Double
  convolve delay_buf in_data in_samples t inv_s dacc k zero = some dacc
  convolve delay_buf in_data in_samples t inv_s dacc k (suc count) = do
    let val_idx = f.add (f.mul (f.sub t (f.of_int k)) inv_s) (number center_off)
    let j = f.to_int (f.floor val_idx)
    let alpha = f.sub val_idx (f.of_int j)
    next ←
        (if not (ltb_ℤ j (pos 0)) && ltb_ℤ j (pos sinc_taps)
          then (do
            coeffs ← at_int sinc_coeffs (phase_of alpha)
            c ← at_int coeffs j
            sample ← clamped_sample delay_buf in_data in_samples k
            some (f.add dacc (f.mul (f.of_int sample) (f.of_int c))))
          else some dacc)
    convolve delay_buf in_data in_samples t inv_s next (k +ℤ pos 1) count

  -- The downsampling path.
  unfoldable pub stretched : List ℤ → List ℤ → ℕ → f.Double → ℤ → f.Double → Option f.Double
  stretched delay_buf in_data in_samples ratio idx frac = do
    let s = if f.less ratio (number 1) then f.div (number 1) ratio else number 1
    let inv_s = f.div (number 1) s
    let t = f.add (f.of_int idx) frac
    let k_min = f.to_int (f.ceil (f.sub t (f.mul s (number center_off))))
    let k_max = f.to_int (f.floor (f.add t (f.mul s (number (sinc_taps - 1 - center_off)))))
    dacc ←
        convolve delay_buf in_data in_samples t inv_s (number 0) k_min
          (pos_part ((k_max +ℤ pos 1) -ℤ k_min))
    some (f.mul (f.div dacc (number 32767)) ratio)

  -- One output sample at the position `pos_fp`.
  unfoldable pub output : List ℤ → List ℤ → ℕ → f.Double → ℤ → Option ℤ
  output delay_buf in_data in_samples ratio pos_fp = do
    let idx = floor_div pos_fp (2 ^ 32)
    let frac = f.div (number (low_word pos_fp)) (number (2 ^ 32))
    dacc ←
        (if not (f.less ratio (number 1))
          then polyphase delay_buf in_data in_samples idx frac
          else stretched delay_buf in_data in_samples ratio idx frac)
    some (clamp_to_int16 dacc)

  -- `count` output samples, and the position after them.
  unfoldable pub outputs : List ℤ → List ℤ → ℕ → f.Double → ℤ → ℤ → ℕ → Option (List ℤ × ℤ)
  outputs delay_buf in_data in_samples ratio step_fp pos_fp zero = some ([], pos_fp)
  outputs delay_buf in_data in_samples ratio step_fp pos_fp (suc count) = do
    y ← output delay_buf in_data in_samples ratio pos_fp
    next ← i64? (pos_fp +ℤ step_fp)
    rest ← outputs delay_buf in_data in_samples ratio step_fp next count
    some (y ∷ rest.0, rest.1)

-- The last input samples, kept for the next call: `memcpy` from the end of a long input, and a
-- `memmove` before the `memcpy` of a short one.
unfoldable pub update_history : List ℤ → List ℤ → ℕ → Option (List ℤ)
update_history delay_buf in_data in_samples =
    if leb resampler_max_taps in_samples
    then window in_data (pos (in_samples - resampler_max_taps)) resampler_max_taps
    else (let kept = resampler_max_taps - in_samples in
        let moved = take kept (drop in_samples delay_buf) ++ drop kept delay_buf in
        window in_data (pos 0) in_samples >>= λ xs.
        some (take kept moved ++ (xs ++ drop resampler_max_taps moved)))

module _ (f : Doubles) where
  abbrev pub ratio_of : ℕ → ℕ → f.Double
  ratio_of in_rate out_rate = f.div (f.of_int (pos out_rate)) (f.of_int (pos in_rate))

  abbrev pub step_of : f.Double → ℤ
  step_of ratio = f.to_int (f.mul (f.div (f.of_int (pos 1)) ratio) (f.of_int (pos (2 ^ 32))))

  abbrev pub out_samples_of : f.Double → ℕ → ℕ
  out_samples_of ratio in_samples = pos_part (f.to_int (f.mul (f.of_int (pos in_samples)) ratio))

module _ (f : Doubles) (sinc_coeffs : List (List ℤ)) where
  -- The value that is returned, the samples stored, and the resampler after the call.
  unfoldable pub resample_l16_advanced :
      Resampler → ℕ → ℕ → List ℤ → ℕ → ℕ → Option (ℕ × List ℤ × Resampler)
  resample_l16_advanced r in_rate out_rate in_data in_samples out_capacity =
      if in_rate == out_rate
      then (let samples = if ltb in_samples out_capacity then in_samples else out_capacity in
          if leb samples (length in_data) then some (samples, take samples in_data, r) else none)
      else (let ratio = ratio_of f in_rate out_rate in
          let out_samples = out_samples_of f ratio in_samples in
          if ltb out_capacity out_samples then some (0, [], r) else (do
            (ys, end) ←
                outputs f sinc_coeffs r.delay_buf in_data in_samples ratio (step_of f ratio)
                  r.pos_fp out_samples
            history ← update_history r.delay_buf in_data in_samples
            consumed ← i64? (pos (in_samples * 2 ^ 32))
            after ← i64? (end -ℤ consumed)
            some (out_samples, ys, record r { pos_fp = after; delay_buf = history })))
