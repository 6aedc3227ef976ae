-- ===== src/Client/Send/Safety.antt =====
-- Ticks on files that hold a chunk each: where the client reads.
use mach_audio.Prelude.{
  if◌then◌else◌, ltb→lt, ltb→le, Bool-cases, length, ℕ, zero, suc, ◌+◌, ◌^◌, ◌≤◌, ◌≡◌, refl, ap,
  ◌∙◌, inl, inr, Bool, true, false, not, ◌&&◌, Option, none, some, List, arith, if_cases,
}
use mach_audio.Client.{ClientConfig, ClientConnection, Inputs}
use mach_audio.Client.Send.{
  chunk_size, runs_out, runs_out_2, send_input_chunk, stopped, write_chunk,
}
use mach_audio.Client.Send.Layout.{HasChunk, after_2, with_message, write_chunk_lem}
use mach_audio.Client.Send.Ticks.{send_over, send_over_2, send_within, tick_step, ticks}

-- An offset in a file that may be missing.
abbrev pub Within : ℕ → Option (List ℕ) → Type 0
Within offset none = Unit {0}
Within offset (some input) = offset ≤ length input

-- The offsets of a connection lie in its files.
pub record InFiles (inputs : Inputs) (conn : ClientConnection) : Type 0 where
  pub first : conn.offset ≤ length inputs.input_data
  pub second : Within conn.offset_2 inputs.input_data_2

-- Every file holds a chunk.
abbrev pub HoldChunk : ℕ → Inputs → Type 0
HoldChunk size inputs = (size ≤ length inputs.input_data) × HasChunk size 0 inputs.input_data_2

-- The offset at which the next chunk is read.
abbrev rewind : Bool → ℕ → ℕ
rewind true offset = 0
rewind false offset = offset

module _ (le : Bool) (config : ClientConfig) (inputs : Inputs) (small : chunk_size config ≤ 2 ^ 29)
    (hold : HoldChunk (chunk_size config) inputs) where
  abbrev size : ℕ
  size = chunk_size config

  rewind_fits :
      (offset : ℕ) (input : List ℕ)
      → size ≤ length input
      → rewind (runs_out offset size input) offset + size ≤ length input
  rewind_fits offset input h = elim (Bool-cases (runs_out offset size input)) [
    | inl over ↦ rw over (omega arith)
    | inr within ↦ rw within (ltb→le (length input) (offset + size) within)
  ]

  rewind_fits_2 :
      (offset : ℕ) (input_2 : Option (List ℕ))
      → HasChunk size 0 input_2
      → HasChunk size (rewind (runs_out_2 offset size input_2) offset) input_2
  rewind_fits_2 offset none h = tt
  rewind_fits_2 offset (some input) h = rewind_fits offset input (omega arith)

  -- The branches of the call, at any outcome of its tests.
  abbrev tail : Bool → Bool → Bool → ClientConnection → Option ClientConnection
  tail over over_2 again conn =
      if over && not again
      then some (stopped conn)
      else let conn' = if over then record conn { offset = 0 } else conn in
        if over_2 && not again
        then some (stopped conn')
        else write_chunk le inputs size (if over_2 then record conn' { offset_2 = 0 } else conn')

  abbrev rewound_if : Bool → Bool → ClientConnection → ClientConnection
  rewound_if over over_2 conn = record conn {
    offset = rewind over conn.offset;
    offset_2 = rewind over_2 conn.offset_2;
  }

  tail_looping :
      (over over_2 : Bool) (conn : ClientConnection)
      → tail over over_2 true conn ≡ write_chunk le inputs size (rewound_if over over_2 conn)
  tail_looping true true conn = refl
  tail_looping true false conn = refl
  tail_looping false true conn = refl
  tail_looping false false conn = refl

  room_left :
      (offset : ℕ) (input_2 : Option (List ℕ))
      → runs_out_2 offset size input_2 ≡ false
      → HasChunk size offset input_2
  room_left offset none h = tt
  room_left offset (some input) h = ltb→le (length input) (offset + size) h

  next_fits :
      (offset : ℕ) (input_2 : Option (List ℕ))
      → HasChunk size offset input_2
      → Within (after_2 size offset input_2) input_2
  next_fits offset none h = tt
  next_fits offset (some input) h = h

  looping_safe :
      (conn : ClientConnection)
      → config.loop ≡ true
      → InFiles inputs conn
      → (r : ClientConnection) × (send_input_chunk le config inputs conn ≡ some r)
        × InFiles inputs r
  unfolding send_input_chunk
  looping_safe conn again inside =
      let over = runs_out conn.offset size inputs.input_data in
      let over_2 = runs_out_2 conn.offset_2 size inputs.input_data_2 in
      let before = rewound_if over over_2 conn in
      let first = rewind_fits conn.offset inputs.input_data hold.0 in
      let second = rewind_fits_2 conn.offset_2 inputs.input_data_2 hold.1 in
      (
        with_message le inputs size before,
        ap (λ b. tail over over_2 b conn) again
            ∙ tail_looping over over_2 conn
            ∙ write_chunk_lem le inputs size before small second first,
        record { first = first; second = next_fits before.offset_2 inputs.input_data_2 second },
      )

  once_safe :
      (conn : ClientConnection)
      → config.loop ≡ false
      → InFiles inputs conn
      → (r : ClientConnection) × (send_input_chunk le config inputs conn ≡ some r)
        × InFiles inputs r
  once_safe conn once inside = elim (Bool-cases (runs_out conn.offset size inputs.input_data)) [
    | inl over ↦ (
      stopped conn,
      send_over le config inputs conn once (ltb→lt _ _ over),
      record { first = inside.first; second = inside.second },
    )
    | inr room ↦ elim (Bool-cases (runs_out_2 conn.offset_2 size inputs.input_data_2)) [
      | inl over ↦ (
        stopped conn,
        send_over_2 le config inputs conn once over,
        record { first = inside.first; second = inside.second },
      )
      | inr room_2 ↦
          (let first = ltb→le (length inputs.input_data) (conn.offset + size) room in
            let second = room_left conn.offset_2 inputs.input_data_2 room_2 in
            (
              with_message le inputs size conn,
              send_within le config inputs conn small first second,
              record { first = first; second = next_fits conn.offset_2 inputs.input_data_2 second },
            ))
    ]
  ]

  send_safe :
      (conn : ClientConnection)
      → InFiles inputs conn
      → (r : ClientConnection) × (send_input_chunk le config inputs conn ≡ some r)
        × InFiles inputs r
  send_safe conn inside = elim (Bool-cases config.loop) [
    | inl again ↦ looping_safe conn again inside
    | inr once ↦ once_safe conn once inside
  ]

  -- If every file holds a chunk, of at most 2 ^ 29 bytes, then no number of ticks from offsets in
  -- the files faults, with `loop` or without, and the offsets stay in the files.
  pub ticks_safe :
      (n : ℕ) (conn : ClientConnection)
      → InFiles inputs conn
      → (r : ClientConnection) × (ticks le config inputs n conn ≡ some r) × InFiles inputs r
  unfolding ticks
  ticks_safe zero conn inside = (conn, refl, inside)
  ticks_safe (suc n) conn inside = elim (Bool-cases conn.timer_active) [
    | inl active ↦
        (let step = send_safe conn inside in
          let later = ticks_safe n step.0 step.2 in
          (later.0, tick_step le config inputs n conn step.0 active step.1 ∙ later.1, later.2))
    | inr idle ↦ (
      conn,
      if_cases (λ r. r ≡ some conn) conn.timer_active _ _ (λ active. absurd (cc)) (λ _. refl),
      inside,
    )
  ]
