-- ===== src/Vad.antt =====
-- The allocation of the detector's state: `vad_gru_init` of processing/vad_gru.c. The state's
-- contents come through the interface `Dsp`.
pub mod Gru
pub mod Inside
pub mod Pcm
pub mod Bounds
mod Tests
use mach_audio.Prelude.{if◌then◌else◌, u64, ℕ, ◌+◌, ◌-◌, ◌%◌, Option, ◌==◌}
use mach_audio.Arena.{Arena, alloc}

-- sizeof(VadGruState): 24 floats, aligned to 32 bytes.
abbrev pub vad_gru_state_size : ℕ
vad_gru_state_size = 96

-- The place of the state in the arena, whose storage starts at the address `base`; the padding
-- is taken also where the allocation then fails.
unfoldable pub vad_gru_init : ℕ → Arena → Option ℕ × Arena
vad_gru_init base arena =
    let offset = u64 (base + arena.curr) % 32 in
    let pad = if offset == 0 then 0 else 32 - offset in
    alloc (record arena { curr = u64 (arena.curr + pad) }) vad_gru_state_size
