-- ===== src/G711/Ulaw.antt =====
-- The u-law encoder against the decoding table.
use mach_audio.Prelude.{
  if◌then◌else◌, holds_below, holds_at, get_or, ℤ, pos, negsuc, pos_part, neg_part, ◌+ℤ◌, ◌-ℤ◌,
  ltb_ℤ, floor_div, u8, IsI16, ℕ, suc, ◌+◌, ◌-◌, ◌*◌, ◌/◌, ◌%◌, ◌≤◌, ◌<◌, min, bit_or, bit_xor, ◌≡◌,
  refl, ap, ◌≢◌, Bool, true, ◌&&◌, ◌||◌, arith, ◌==◌,
}
use mach_audio.G711.{segment, nibble, ulaw_biased, linear_to_ulaw}
use mach_audio.G711.Ladder.{
  segment-lt, nibble-lt, bit_or-fields, bit_xor-masks, step_middle, step_bounds, middle_of_code,
}
use mach_audio.G711.Tables.{pcmu_to_l16_lut}

-- The sample that the table gives for a code.
unfoldable pub decode_ulaw : ℕ → ℤ
unfolding pcmu_to_l16_lut
decode_ulaw u = get_or pcmu_to_l16_lut u (pos 0)

roundtrip_table : holds_below 256 (λ u. (linear_to_ulaw (decode_ulaw u) == u) || (u == 0x7F)) ≡ true
unfolding holds_below decode_ulaw linear_to_ulaw ulaw_biased segment nibble floor_div ◌+ℤ◌ ◌-ℤ◌
roundtrip_table = refl

-- Encoding the decoded sample gives the code back, for each of the 256 codes but 0x7F (the
-- negative zero, which comes back as 0xFF).
pub linear_to_ulaw-decode_ulaw : (u : ℕ) → u < 256 → u ≢ 0x7F → linear_to_ulaw (decode_ulaw u) ≡ u
linear_to_ulaw-decode_ulaw u h ne = ground (
  arith,
  holds_at 256 (λ u. (linear_to_ulaw (decode_ulaw u) == u) || (u == 0x7F)) u roundtrip_table h,
)

-- The magnitude that the table gives for the code of segment `c / 16` and step `c % 16`.
abbrev ulaw_magnitude : ℕ → ℕ
unfolding step_middle
ulaw_magnitude c = step_middle (c / 16) (c % 16) - 132

magnitude_test : ℕ → Bool
magnitude_test c =
    (pos_part (decode_ulaw (255 - c)) == ulaw_magnitude c)
    && ((neg_part (decode_ulaw (127 - c)) == ulaw_magnitude c)
        && ((neg_part (decode_ulaw (255 - c)) == 0) && (pos_part (decode_ulaw (127 - c)) == 0)))

magnitude_table : holds_below 128 magnitude_test ≡ true
unfolding holds_below decode_ulaw magnitude_test step_middle
magnitude_table = refl

decode_ulaw_parts :
    (c : ℕ)
    → c < 128
    → (pos_part (decode_ulaw (255 - c)) ≡ ulaw_magnitude c)
      × (neg_part (decode_ulaw (127 - c)) ≡ ulaw_magnitude c)
      × (neg_part (decode_ulaw (255 - c)) ≡ 0)
      × (pos_part (decode_ulaw (127 - c)) ≡ 0)
unfolding magnitude_test
decode_ulaw_parts c h = ground (arith, holds_at 128 magnitude_test c magnitude_table h)

-- The biased magnitude, and the code of a magnitude before the mask.
abbrev biased : ℕ → ℕ
biased n = min n 32635 + 128

abbrev plain_code : ℕ → ℕ
plain_code n = let s = segment (pos (biased n)) in s * 16 + nibble (pos (biased n)) (s + 3)

plain_code-lt : (n : ℕ) → plain_code n < 128
plain_code-lt n =
    omega (
      arith,
      segment-lt (pos (biased n)),
      nibble-lt (pos (biased n)) (segment (pos (biased n)) + 3),
    )

bias_pos : (n : ℕ) → n < 32768 → ulaw_biased (pos n) ≡ pos (biased n)
unfolding ulaw_biased ◌+ℤ◌
bias_pos n h = ground arith

bias_neg : (k : ℕ) → k < 32767 → ulaw_biased (negsuc k) ≡ pos (biased (suc k))
unfolding ulaw_biased ◌+ℤ◌ ◌-ℤ◌
bias_neg k h = ground arith

masked_pos :
    (n c : ℕ)
    → c < 128
    → u8 (bit_xor (u8 c) (if ltb_ℤ (pos n) (pos 0) then 0x7F else 0xFF)) ≡ 255 - c
masked_pos n c h = ground (arith, bit_xor-masks c h)

masked_neg :
    (k c : ℕ)
    → c < 128
    → u8 (bit_xor (u8 c) (if ltb_ℤ (negsuc k) (pos 0) then 0x7F else 0xFF)) ≡ 127 - c
masked_neg k c h = ground (arith, bit_xor-masks c h)

fields :
    (n : ℕ)
    → bit_or
        (segment (pos (biased n)) * 16)
        (nibble (pos (biased n)) (segment (pos (biased n)) + 3))
      ≡ plain_code n
fields n = bit_or-fields _ _ (segment-lt _) (nibble-lt _ _)

encode_pos : (n : ℕ) → n < 32768 → linear_to_ulaw (pos n) ≡ 255 - plain_code n
unfolding linear_to_ulaw
encode_pos n h = rw (bias_pos n h, fields n) (masked_pos n (plain_code n) (plain_code-lt n))

encode_neg : (k : ℕ) → k < 32767 → linear_to_ulaw (negsuc k) ≡ 127 - plain_code (suc k)
unfolding linear_to_ulaw
encode_neg k h =
    rw (bias_neg k h, fields (suc k)) (masked_neg k (plain_code (suc k)) (plain_code-lt (suc k)))

-- A decoded magnitude exceeds the clipped one by at most 1/32, and falls short of it by at most
-- 1/32 and 8.
abbrev pub IsNear : ℕ → ℕ → Type 0
IsNear clipped decoded = (32 * decoded ≤ 33 * clipped) × (31 * clipped ≤ 32 * decoded + 256)

near : (n : ℕ) → n < 32768 → IsNear (min n 32635) (ulaw_magnitude (plain_code n))
unfolding step_middle
near n h =
    let v : ℕ = biased n in
    let s : ℕ = segment (pos v) in
    rw (middle_of_code s (nibble (pos v) (s + 3)) (nibble-lt (pos v) (s + 3)))
      (omega (arith, step_bounds v (omega arith) (omega arith)))

-- The quantisation error: for every 16-bit sample but -32768 the table's value of its code has the
-- sample's sign, or is 0, and its magnitude exceeds the sample's, clipped at 32635, by at most 1/32
-- and falls short of it by at most 1/32 and 8.
pub decode_ulaw-linear_to_ulaw :
    (z : ℤ)
    → IsI16 z
    → z ≢ negsuc 32767
    → let decoded = decode_ulaw (linear_to_ulaw z) in
      IsNear (min (pos_part z) 32635) (pos_part decoded)
      × IsNear (min (neg_part z) 32635) (neg_part decoded)
decode_ulaw-linear_to_ulaw (pos n) h ne =
    let d = decode_ulaw_parts (plain_code n) (plain_code-lt n) in
    rw (encode_pos n h, d.0, d.2) (near n h, omega arith)
decode_ulaw-linear_to_ulaw (negsuc k) h ne =
    let d = decode_ulaw_parts (plain_code (suc k)) (plain_code-lt (suc k)) in
    let below : k < 32767 = ground (arith, λ (e : k ≡ 32767). ne (ap negsuc e)) in
    rw (encode_neg k below, d.1, d.3) (omega arith, near (suc k) (omega arith))
