-- ===== src/G711/Alaw.antt =====
-- The A-law encoder against the decoding table.
use mach_audio.Prelude.{
  ltb, if◌then◌else◌, ==_iff, Bool-cases, holds_below, holds_at, get_or, ℤ, pos, negsuc, pos_part,
  neg_part, ◌-ℤ◌, floor_div, u8, ℕ, ◌+◌, ◌*◌, ◌/◌, ◌%◌, ◌≤◌, ◌<◌, bit_xor, ◌≡◌, refl, inl, inr,
  Bool, true, ◌&&◌, arith, ◌==◌,
}
use mach_audio.G711.{segment, nibble, alaw_magnitude, linear_to_alaw}
use mach_audio.G711.Ladder.{
  segment-lt, nibble-lt, bit_or-fields, step_middle, step_bounds, middle_of_code,
}
use mach_audio.G711.Tables.{pcma_to_l16_lut}

-- The sample that the table gives for a code.
unfoldable pub decode_alaw : ℕ → ℤ
unfolding pcma_to_l16_lut
decode_alaw u = get_or pcma_to_l16_lut u (pos 0)

roundtrip_table : holds_below 256 (λ u. linear_to_alaw (decode_alaw u) == u) ≡ true
unfolding holds_below decode_alaw linear_to_alaw alaw_magnitude segment nibble floor_div ◌-ℤ◌
roundtrip_table = refl

-- Encoding the decoded sample gives the code back, for each of the 256 codes.
pub linear_to_alaw-decode_alaw : (u : ℕ) → u < 256 → linear_to_alaw (decode_alaw u) ≡ u
linear_to_alaw-decode_alaw u h =
    (==_iff _ _).0 (holds_at 256 (λ u. linear_to_alaw (decode_alaw u) == u) u roundtrip_table h)

-- The magnitude that the table gives for the code of segment `c / 16` and step `c % 16`: the
-- lowest segment has steps of 16, as the next one.
abbrev table_magnitude : ℕ → ℕ
table_magnitude c = if ltb c 16 then 16 * c + 8 else step_middle (c / 16) (c % 16)

magnitude_test : ℕ → Bool
magnitude_test c =
    (pos_part (decode_alaw (u8 (bit_xor c 0xD5))) == table_magnitude c)
    && ((neg_part (decode_alaw (u8 (bit_xor c 0x55))) == table_magnitude c)
        && ((neg_part (decode_alaw (u8 (bit_xor c 0xD5))) == 0)
            && (pos_part (decode_alaw (u8 (bit_xor c 0x55))) == 0)))

magnitude_table : holds_below 128 magnitude_test ≡ true
unfolding holds_below decode_alaw magnitude_test step_middle
magnitude_table = refl

decode_alaw_parts :
    (c : ℕ)
    → c < 128
    → (pos_part (decode_alaw (u8 (bit_xor c 0xD5))) ≡ table_magnitude c)
      × (neg_part (decode_alaw (u8 (bit_xor c 0x55))) ≡ table_magnitude c)
      × (neg_part (decode_alaw (u8 (bit_xor c 0xD5))) ≡ 0)
      × (pos_part (decode_alaw (u8 (bit_xor c 0x55))) ≡ 0)
unfolding magnitude_test
decode_alaw_parts c h = ground (arith, holds_at 128 magnitude_test c magnitude_table h)

-- The code of a magnitude before the mask.
plain_code : ℕ → ℕ
plain_code n =
    let s = segment (pos n) in if s == 0 then nibble (pos n) 4 else s * 16 + nibble (pos n) (s + 3)

plain_code-lt : (n : ℕ) → plain_code n < 128
unfolding plain_code
plain_code-lt n =
    ground (arith, segment-lt (pos n), nibble-lt (pos n) 4, nibble-lt (pos n) (segment (pos n) + 3))

magnitude_pos : (n : ℕ) → n < 32768 → alaw_magnitude (pos n) ≡ pos n
unfolding alaw_magnitude
magnitude_pos n h = ground arith

magnitude_neg : (k : ℕ) → k < 32768 → alaw_magnitude (negsuc k) ≡ pos k
unfolding alaw_magnitude ◌-ℤ◌
magnitude_neg k h = ground arith

encode_pos : (n : ℕ) → n < 32768 → linear_to_alaw (pos n) ≡ u8 (bit_xor (plain_code n) 0xD5)
unfolding linear_to_alaw plain_code
encode_pos n h = rw (magnitude_pos n h) (
    ground (
      arith,
      nibble-lt (pos n) 4,
      nibble-lt (pos n) (segment (pos n) + 3),
      segment-lt (pos n),
      bit_or-fields (segment (pos n)) (nibble (pos n) (segment (pos n) + 3)),
    ))

encode_neg : (k : ℕ) → k < 32768 → linear_to_alaw (negsuc k) ≡ u8 (bit_xor (plain_code k) 0x55)
unfolding linear_to_alaw plain_code
encode_neg k h = rw (magnitude_neg k h) (
    ground (
      arith,
      nibble-lt (pos k) 4,
      nibble-lt (pos k) (segment (pos k) + 3),
      segment-lt (pos k),
      bit_or-fields (segment (pos k)) (nibble (pos k) (segment (pos k) + 3)),
    ))

-- A decoded magnitude is within 1/32 and 8 of the encoded one.
abbrev pub IsNear : ℕ → ℕ → Type 0
IsNear n decoded = (32 * decoded ≤ 33 * n + 256) × (31 * n ≤ 32 * decoded + 256)

near_low : (n : ℕ) → n < 256 → plain_code n ≡ n / 16
unfolding plain_code segment nibble floor_div
near_low n h = ground arith

near_high :
    (n : ℕ)
    → 256 ≤ n
    → n < 32768
    → (plain_code n ≡ segment (pos n) * 16 + nibble (pos n) (segment (pos n) + 3))
      × (0 < segment (pos n))
unfolding plain_code segment
near_high n h k = ground arith

near : (n : ℕ) → n < 32768 → IsNear n (table_magnitude (plain_code n))
near n h = elim (Bool-cases (ltb n 256)) [
  | inl low ↦ ground (arith, near_low n)
  | inr high ↦
      let s : ℕ = segment (pos n) in
      let m : ℕ = nibble (pos n) (s + 3) in
      ground (arith, near_high n, nibble-lt (pos n) (s + 3), middle_of_code s m, step_bounds n)
]

-- The quantisation error: for every magnitude `n` below 32768 the table's value of the code of the
-- sample `n` is not negative and that of the code of the sample `-n - 1` is not positive, and for
-- the magnitude `m` of either, 32 m is at most 33 n + 256 and 31 n at most 32 m + 256.
pub decode_alaw-linear_to_alaw :
    (n : ℕ)
    → n < 32768
    → let up = decode_alaw (linear_to_alaw (pos n)) in
      let down = decode_alaw (linear_to_alaw (negsuc n)) in
      IsNear n (pos_part up) × (neg_part up ≡ 0) × IsNear n (neg_part down) × (pos_part down ≡ 0)
decode_alaw-linear_to_alaw n h =
    let d = decode_alaw_parts (plain_code n) (plain_code-lt n) in
    rw (encode_pos n h, encode_neg n h, d.0, d.1, d.2, d.3) (near n h, refl, near n h, refl)
