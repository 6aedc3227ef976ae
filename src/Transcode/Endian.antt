-- ===== src/Transcode/Endian.antt =====
-- The byte order of L16 samples, on either kind of host.
pub mod Stored
pub mod Samples
use native.Mathlib.Nat.{mul-div-le}
use mach_audio.Prelude.{
  if◌then◌else◌, length, ℤ, pos, negsuc, u16, host_u16, store_u16, to_i16, of_i16, IsI16, ℕ, suc,
  ◌+◌, ◌*◌, ◌/◌, ◌<◌, ◌≡◌, refl, ap, ◌∙◌, Bool, true, false, not, List, [], ◌∷◌, ◌++◌, arith,
}
use mach_audio.Arena.{Arena, alloc}
use mach_audio.Mix.Saturate.{AreI16}
use mach_audio.Protocol.{AudioStartPayload}
use mach_audio.Protocol.Bytes.{AreBytes}
use mach_audio.Simd.{Avx2}
use mach_audio.Transcode.{
  Dsp, TranscodeSession, codec_l16, configured, endian_big, endian_little, is_host_little_endian,
  needs_swap,
}
use mach_audio.Transcode.Decode.{decode_l16, in_data, swap_endian_l16, swap_sample}
use mach_audio.Transcode.Hoare.{length-bytes_of, length-samples_of}
use mach_audio.Transcode.Memory.{
  Run, ◌>>=◌, ◌>>◌, >>=-ok, AreBytes-take, M, State, alloc_or_fail, bytes_of, bytes_of-samples_of,
  load, load_samples, ok, patch, pure, samples_of, set_curr, slice, store, store_samples,
}
use mach_audio.Transcode.Pipeline.{deliver, encode_l16}

-- What the session does with samples that a codec's flag says to swap.
abbrev pub swapped_if : Bool → List ℤ → List ℤ
swapped_if swap zs = if swap then swap_endian_l16 zs else zs

swap_read :
    (le : Bool) (bs : List ℕ)
    → AreBytes bs
    → swap_endian_l16 (samples_of le bs) ≡ samples_of (not le) bs
unfolding swap_endian_l16 samples_of
swap_read le [] h = refl
swap_read le (b ∷ []) h = refl
swap_read true (b ∷ c ∷ bs) h = λ i. one i ∷ swap_read true bs h.1.1 i
  where
    one : swap_sample (to_i16 (host_u16 true b c)) ≡ to_i16 (host_u16 false b c)
    one = unfold host_u16 in ground arith
swap_read false (b ∷ c ∷ bs) h = λ i. one i ∷ swap_read false bs h.1.1 i
  where
    one : swap_sample (to_i16 (host_u16 false b c)) ≡ to_i16 (host_u16 true b c)
    one = unfold host_u16 in ground arith

swap_sample_bytes :
    (le : Bool) (z : ℤ)
    → IsI16 z
    → store_u16 le (of_i16 (swap_sample z)) ≡ store_u16 (not le) (of_i16 z)
unfolding swap_sample store_u16
swap_sample_bytes true (pos n) h = ground arith
swap_sample_bytes true (negsuc n) h = ground arith
swap_sample_bytes false (pos n) h = ground arith
swap_sample_bytes false (negsuc n) h = ground arith

swap_write :
    (le : Bool) (zs : List ℤ) → AreI16 zs → bytes_of le (swap_endian_l16 zs) ≡ bytes_of (not le) zs
unfolding swap_endian_l16 bytes_of
swap_write le [] h = refl
swap_write le (z ∷ zs) h = λ i. swap_sample_bytes le z h.0 i ++ swap_write le zs h.1 i

of_i16-lt : (z : ℤ) → IsI16 z → of_i16 z < 65536
of_i16-lt (pos n) h = ground arith
of_i16-lt (negsuc n) h = ground arith

same_word : (z : ℤ) → IsI16 z → to_i16 (of_i16 z) ≡ z
same_word (pos n) h = ground arith
same_word (negsuc n) h = ground arith

one_back :
    (le : Bool) (z : ℤ) (rest : List ℕ)
    → IsI16 z
    → samples_of le (store_u16 le (of_i16 z) ++ rest) ≡ z ∷ samples_of le rest
unfolding samples_of store_u16 host_u16
one_back true z rest h =
    ap (λ w. w ∷ samples_of true rest) (ap to_i16 (omega (arith, of_i16-lt z h)) ∙ same_word z h)
one_back false z rest h =
    ap (λ w. w ∷ samples_of false rest) (ap to_i16 (omega (arith, of_i16-lt z h)) ∙ same_word z h)

pub samples_of-bytes_of :
    (le : Bool) (zs : List ℤ) → AreI16 zs → samples_of le (bytes_of le zs) ≡ zs
unfolding samples_of bytes_of
samples_of-bytes_of le [] h = refl
samples_of-bytes_of le (z ∷ zs) h =
    one_back le z (bytes_of le zs) h.0 ∙ ap (λ r. z ∷ r) (samples_of-bytes_of le zs h.1)

to_i16-IsI16 : (w : ℕ) → w < 65536 → IsI16 (to_i16 w)
to_i16-IsI16 w h = ground arith

swap-IsI16 : (z : ℤ) → IsI16 (swap_sample z)
unfolding swap_sample
swap-IsI16 z = to_i16-IsI16 (u16 (of_i16 z * 256 + of_i16 z / 256)) (omega arith)

pub swap-AreI16 : (zs : List ℤ) → AreI16 (swap_endian_l16 zs)
unfolding swap_endian_l16
swap-AreI16 [] = tt
swap-AreI16 (z ∷ zs) = (swap-IsI16 z, swap-AreI16 zs)

pub length-swap : (zs : List ℤ) → length (swap_endian_l16 zs) ≡ length zs
unfolding swap_endian_l16
length-swap [] = refl
length-swap (z ∷ zs) = ap suc (length-swap zs)

-- Whether samples of an L16 session of a declared order are swapped.
pub swap_of :
    (le little : Bool)
    → needs_swap (is_host_little_endian le) codec_l16 (if little then endian_little else endian_big)
      ≡ not (if le then little else not little)
unfolding needs_swap is_host_little_endian
swap_of true true = refl
swap_of true false = refl
swap_of false true = refl
swap_of false false = refl

pub read_in_order :
    (le low_first : Bool) (bs : List ℕ)
    → AreBytes bs
    → swapped_if (not (if le then low_first else not low_first)) (samples_of le bs)
      ≡ samples_of low_first bs
read_in_order true true bs h = refl
read_in_order true false bs h = swap_read true bs h
read_in_order false true bs h = swap_read false bs h
read_in_order false false bs h = refl

pub samples_of-AreI16 : (le : Bool) (bs : List ℕ) → AreBytes bs → AreI16 (samples_of le bs)
unfolding samples_of host_u16
samples_of-AreI16 le [] h = tt
samples_of-AreI16 le (b ∷ []) h = tt
samples_of-AreI16 true (b ∷ c ∷ bs) h =
    (to_i16-IsI16 (b + c * 256) (omega arith), samples_of-AreI16 true bs h.1.1)
samples_of-AreI16 false (b ∷ c ∷ bs) h =
    (to_i16-IsI16 (b * 256 + c) (omega arith), samples_of-AreI16 false bs h.1.1)

pub write_in_order :
    (le low_first : Bool) (zs : List ℤ)
    → AreI16 zs
    → bytes_of le (swapped_if (not (if le then low_first else not low_first)) zs)
      ≡ bytes_of low_first zs
write_in_order true true zs h = refl
write_in_order true false zs h = swap_write true zs h
write_in_order false true zs h = swap_write false zs h
write_in_order false false zs h = refl
