-- ===== src/Client/Send/Bugs.antt =====
-- Configurations that `send_input_chunk` does not guard against.
use mach_audio.Prelude.{
  if◌then◌else◌, length, ℕ, zero, suc, ◌*◌, ◌/◌, ◌^◌, ◌≤◌, ◌<◌, ◌≡◌, refl, sym, ◌∙◌, Bool, true,
  none, some, arith, ◌==◌, subst,
}
use mach_audio.Client.{ClientConfig, ClientConnection, Inputs}
use mach_audio.Client.Send.{chunk_size, read_chunk, send_input_chunk, write_chunk}
use mach_audio.Client.Send.Layout.{HasChunk, with_message}
use mach_audio.Client.Send.Ticks.{send_within, tick_step, ticks}
use native.Mathlib.Nat.{mul-le-mul, zero-mul, mod-eq_of_lt}

-- With `loop`, a first file that is shorter than a chunk is read beyond its end: the offset goes
-- back to 0 without another test.
pub send_short_file :
    (le : Bool) (config : ClientConfig) (inputs : Inputs) (conn : ClientConnection)
    → config.loop ≡ true
    → inputs.input_data_2 ≡ none
    → length inputs.input_data < chunk_size config
    → send_input_chunk le config inputs conn ≡ none
unfolding send_input_chunk write_chunk read_chunk
send_short_file le config inputs conn again single short = ground arith

-- At a rate below 1000 Hz a chunk is empty.
pub chunk_size_slow : (config : ClientConfig) → config.rate < 1000 → chunk_size config ≡ 0
unfolding chunk_size
chunk_size_slow config h =
    let none_per_ms : config.rate / 1000 ≡ 0 = omega arith in
    rw (none_per_ms, zero-mul, zero-mul, zero-mul)

-- At a rate below 1000 Hz, with a single file, the timer armed and the offset in the file, no
-- number of ticks stops the timer or moves the offset, with `loop` or without.
pub ticks_slow :
    (le : Bool) (config : ClientConfig) (inputs : Inputs) (n : ℕ) (conn : ClientConnection)
    → config.rate < 1000
    → inputs.input_data_2 ≡ none
    → conn.timer_active ≡ true
    → conn.offset ≤ length inputs.input_data
    → (r : ClientConnection) × (ticks le config inputs n conn ≡ some r)
      × (r.timer_active ≡ true)
      × (r.offset ≡ conn.offset)
unfolding ticks
ticks_slow le config inputs zero conn slow single active inside = (conn, refl, active, refl)
ticks_slow le config inputs (suc n) conn slow single active inside =
    let size = chunk_size_slow config slow in
    let next = with_message le inputs (chunk_size config) conn in
    let sent : send_input_chunk le config inputs conn ≡ some next =
      send_within le config inputs conn (omega (arith, size)) (omega (arith, size))
        (subst (HasChunk (chunk_size config) conn.offset_2) (sym single) tt) in
    let later = ticks_slow le config inputs n next slow single active (omega (arith, size)) in
    (
      later.0,
      tick_step le config inputs n conn next active sent ∙ later.1,
      later.2,
      later.3 ∙ omega (arith, size),
    )

-- The size of a chunk does not wrap.
pub chunk_size_exact :
    (config : ClientConfig)
    → config.rate < 2 ^ 32
    → config.ptime < 2 ^ 32
    → config.channels < 256
    → chunk_size config
      ≡ config.rate / 1000 * config.ptime * (if config.format == 96 then 2 else 1) * config.channels
unfolding chunk_size
chunk_size_exact config r p c =
    let width : ℕ = if config.format == 96 then 2 else 1 in
    let per_ms : config.rate / 1000 ≤ 4294967 = omega arith in
    let time : config.ptime ≤ 4294967295 = omega arith in
    let wide : width ≤ 2 = ground arith in
    let many : config.channels ≤ 255 = omega arith in
    let bound = mul-le-mul (mul-le-mul (mul-le-mul per_ms time) wide) many in
    mod-eq_of_lt (omega (arith, bound))
