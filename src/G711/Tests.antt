-- ===== src/G711/Tests.antt =====
-- The encoders at samples, and the theorems on them.
use mach_audio.Prelude.{pos, negsuc, pos_part, neg_part, ◌+ℤ◌, ◌-ℤ◌, floor_div, ◌≡◌, refl, arith}
use mach_audio.G711.{segment, nibble, ulaw_biased, linear_to_ulaw, linear_to_alaw}
use mach_audio.G711.Ulaw
use mach_audio.G711.Ulaw.{decode_ulaw, linear_to_ulaw-decode_ulaw, decode_ulaw-linear_to_ulaw}
use mach_audio.G711.Alaw
use mach_audio.G711.Alaw.{decode_alaw, linear_to_alaw-decode_alaw, decode_alaw-linear_to_alaw}

-- The lowest sample has no positive counterpart in 16 bits: its u-law code is the negative zero.
lowest_sample_is_silent : (linear_to_ulaw (negsuc 32767) ≡ 0x7F) × (decode_ulaw 0x7F ≡ pos 0)
unfolding linear_to_ulaw ulaw_biased segment nibble floor_div ◌+ℤ◌ ◌-ℤ◌ decode_ulaw
lowest_sample_is_silent = (refl, refl)

next_sample_is_loud : (linear_to_ulaw (negsuc 32766) ≡ 0) × (decode_ulaw 0 ≡ negsuc 32123)
unfolding linear_to_ulaw ulaw_biased segment nibble floor_div ◌+ℤ◌ ◌-ℤ◌ decode_ulaw
next_sample_is_loud = (refl, refl)

decode_ulaw-linear_to_ulaw_example :
    Ulaw.IsNear 0 (pos_part (decode_ulaw (linear_to_ulaw (negsuc 999))))
    × Ulaw.IsNear 1000 (neg_part (decode_ulaw (linear_to_ulaw (negsuc 999))))
decode_ulaw-linear_to_ulaw_example =
    decode_ulaw-linear_to_ulaw (negsuc 999) (omega arith) (λ e. ground arith)

decode_alaw-linear_to_alaw_example :
    let up = decode_alaw (linear_to_alaw (pos 1000)) in
    let down = decode_alaw (linear_to_alaw (negsuc 1000)) in
    Alaw.IsNear 1000 (pos_part up)
    × (neg_part up ≡ 0)
    × Alaw.IsNear 1000 (neg_part down)
    × (pos_part down ≡ 0)
decode_alaw-linear_to_alaw_example = decode_alaw-linear_to_alaw 1000 (omega arith)
