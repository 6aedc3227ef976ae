-- ===== src/G711.antt =====
-- processing/g711.c: G.711 encoders. `>>` on a negative number is the arithmetic shift, and
-- `& 0xF` takes the low four bits of the two's complement pattern.
pub mod Tables
pub mod Ladder
pub mod Ulaw
pub mod Alaw
mod Tests
use mach_audio.Prelude.{
  if◌then◌else◌, ℤ, pos, ◌+ℤ◌, ◌-ℤ◌, ltb_ℤ, floor_div, u8, of_i16, i16, ℕ, ◌+◌, ◌*◌, ◌%◌, ◌^◌,
  bit_or, bit_xor, ◌==◌,
}

-- The segment of a biased magnitude: the ladder of both encoders.
unfoldable pub segment : ℤ → ℕ
segment v =
    if ltb_ℤ v (pos 256)
    then 0
    else if ltb_ℤ v (pos 512)
    then 1
    else if ltb_ℤ v (pos 1024)
    then 2
    else if ltb_ℤ v (pos 2048)
    then 3
    else if ltb_ℤ v (pos 4096)
    then 4
    else if ltb_ℤ v (pos 8192)
    then 5
    else if ltb_ℤ v (pos 16384)
    then 6
    else 7

-- `(v >> k) & 0xF`.
unfoldable pub nibble : ℤ → ℕ → ℕ
nibble v k = of_i16 (floor_div v (2 ^ k)) % 16

-- The clipped magnitude with the bias of 128: the first half of `linear_to_ulaw`.
unfoldable pub ulaw_biased : ℤ → ℤ
ulaw_biased pcm_val =
    let magnitude = if ltb_ℤ pcm_val (pos 0) then i16 (pos 0 -ℤ pcm_val) else pcm_val in
    let clipped = if ltb_ℤ (pos 32635) magnitude then pos 32635 else magnitude in
    i16 (clipped +ℤ pos 128)

unfoldable pub linear_to_ulaw : ℤ → ℕ
linear_to_ulaw pcm_val =
    let mask = if ltb_ℤ pcm_val (pos 0) then 0x7F else 0xFF in
    let biased = ulaw_biased pcm_val in
    let seg = segment biased in
    let uval = u8 (bit_or (seg * 16) (nibble biased (seg + 3))) in u8 (bit_xor uval mask)

-- The magnitude that `linear_to_alaw` encodes.
unfoldable pub alaw_magnitude : ℤ → ℤ
alaw_magnitude pcm_val =
    let magnitude = if ltb_ℤ pcm_val (pos 0) then i16 (pos 0 -ℤ pcm_val -ℤ pos 1) else pcm_val in
    if ltb_ℤ magnitude (pos 0) then pos 0 else magnitude

unfoldable pub linear_to_alaw : ℤ → ℕ
linear_to_alaw pcm_val =
    let mask = if ltb_ℤ pcm_val (pos 0) then 0x55 else 0xD5 in
    let magnitude = alaw_magnitude pcm_val in
    let seg = segment magnitude in
    let aval =
      if seg == 0
      then u8 (nibble magnitude 4)
      else u8 (bit_or (seg * 16) (nibble magnitude (seg + 3))) in
    u8 (bit_xor aval mask)
