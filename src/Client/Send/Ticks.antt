-- ===== src/Client/Send/Ticks.antt =====
-- The calls of the timer's callback, one after the other.
use mach_audio.Prelude.{
  ltb, if◌then◌else◌, lt→ltb, le→ltb, Bool-cases, length, ℕ, zero, suc, ◌+◌, ◌^◌, ◌≤◌, ◌<◌, ◌≡◌,
  refl, inl, inr, Bool, true, false, Option, none, some, List, if_cases,
}
use mach_audio.Client.{ClientConfig, ClientConnection, Inputs}
use mach_audio.Client.Send.{chunk_size, runs_out_2, send_input_chunk, stopped}
use mach_audio.Client.Send.Layout.{HasChunk, with_message, write_chunk_lem}

-- Several ticks; a stopped timer calls no more.
unfoldable pub ticks : Bool → ClientConfig → Inputs → ℕ → ClientConnection → Option ClientConnection
ticks le config inputs zero conn = some conn
ticks le config inputs (suc n) conn =
    if conn.timer_active
    then (elim (send_input_chunk le config inputs conn) [
      | none ↦ none
      | some next ↦ ticks le config inputs n next
    ])
    else some conn

module _ (le : Bool) (config : ClientConfig) (inputs : Inputs) (conn : ClientConnection) where
  abbrev size : ℕ
  size = chunk_size config

  -- A chunk is left in every file: the tick writes it.
  pub send_within :
      size ≤ 2 ^ 29
      → conn.offset + size ≤ length inputs.input_data
      → HasChunk size conn.offset_2 inputs.input_data_2
      → send_input_chunk le config inputs conn ≡ some (with_message le inputs size conn)
  unfolding send_input_chunk
  send_within small first second =
      rw (le→ltb (length inputs.input_data) (conn.offset + size) first) (
        rw (not_over inputs.input_data_2 second)
          (write_chunk_lem le inputs size conn small second first))
    where
      not_over :
          (input_2 : Option (List ℕ))
          → HasChunk size conn.offset_2 input_2
          → runs_out_2 conn.offset_2 size input_2 ≡ false
      not_over none h = refl
      not_over (some input) h = le→ltb (length input) (conn.offset_2 + size) h

  -- At the end of a file without `loop`, the tick stops the timer and writes nothing.
  pub send_over :
      config.loop ≡ false
      → length inputs.input_data < conn.offset + size
      → send_input_chunk le config inputs conn ≡ some (stopped conn)
  unfolding send_input_chunk
  send_over once over = rw (lt→ltb (length inputs.input_data) (conn.offset + size) over) (rw once)

  pub send_over_2 :
      config.loop ≡ false
      → runs_out_2 conn.offset_2 size inputs.input_data_2 ≡ true
      → send_input_chunk le config inputs conn ≡ some (stopped conn)
  unfolding send_input_chunk
  send_over_2 once over = elim (Bool-cases (ltb (length inputs.input_data) (conn.offset + size))) [
    | inl first ↦ rw first (rw once)
    | inr within ↦ rw within (rw over (rw once))
  ]

pub tick_step :
    (le : Bool) (config : ClientConfig) (inputs : Inputs) (n : ℕ) (conn next : ClientConnection)
    → conn.timer_active ≡ true
    → send_input_chunk le config inputs conn ≡ some next
    → ticks le config inputs (suc n) conn ≡ ticks le config inputs n next
unfolding ticks
tick_step le config inputs n conn next active sent =
    if_cases (λ r. r ≡ ticks le config inputs n next) conn.timer_active _ _ (λ _. rw sent)
      (λ idle. absurd (cc))
