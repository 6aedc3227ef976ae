-- ===== src/Client/Send/Run.antt =====
-- A connection's whole run over its files without `loop`.
use mach_audio.Prelude.{
  lt→ltb, length, take, drop, u32, ℕ, zero, suc, ◌+◌, ◌*◌, ◌^◌, ◌≤◌, ◌<◌, ◌≡◌, refl, sym, ap, ◌∙◌,
  ◌⊎◌, inl, inr, Bool, true, false, Option, none, some, List, [], ◌∷◌, ◌++◌, append_assoc,
  append-nil, arith, take-add, drop-add,
}
use mach_audio.Client.{ClientConfig, ClientConnection, Inputs}
use mach_audio.Client.Send.{chunk_size, runs_out_2, stopped}
use mach_audio.Client.Send.Layout.{
  HasChunk, after_2, buffers, input_message, next_buffers, with_message,
}
use mach_audio.Client.Send.Ticks.{send_over, send_over_2, send_within, tick_step, ticks}
use mach_audio.Protocol.Container.{Buffer}
use mach_audio.Server.Messages.{Message, header_bytes, wire}
use native.Mathlib.Nat.{suc-mul}

-- The buffers of the next `n` messages.
abbrev pub chunk_list : Inputs → ℕ → ℕ → ℕ → ℕ → List (List Buffer)
chunk_list inputs size zero offset offset_2 = []
chunk_list inputs size (suc n) offset offset_2 =
    next_buffers inputs size offset offset_2
    ∷ chunk_list inputs size n (offset + size) (after_2 size offset_2 inputs.input_data_2)

-- Their messages, numbered from a sequence number.
abbrev pub numbered : ℕ → List (List Buffer) → List Message
numbered seq [] = []
numbered seq (bs ∷ rest) = input_message seq bs ∷ numbered (u32 (seq + 1)) rest

-- The samples of the first buffers.
abbrev pub first_stream : List (List Buffer) → List ℕ
first_stream [] = []
first_stream ([] ∷ rest) = first_stream rest
first_stream ((b ∷ bs) ∷ rest) = b.samples ++ first_stream rest

-- The second file has `n` chunks left at an offset, and no further one.
abbrev pub HasChunks : ℕ → ℕ → ℕ → Option (List ℕ) → Type 0
HasChunks size n offset none = Unit {0}
HasChunks size n offset (some input) = offset + n * size ≤ length input

abbrev pub Ends : ℕ → ℕ → ℕ → Option (List ℕ) → Type 0
Ends size n offset none = ⊥
Ends size n offset (some input) = length input < offset + n * size + size

first_stream_lem :
    (inputs : Inputs) (size n offset offset_2 : ℕ)
    → first_stream (chunk_list inputs size n offset offset_2)
      ≡ take (n * size) (drop offset inputs.input_data)
first_stream_lem inputs size zero offset offset_2 =
    let none_left : 0 ≡ 0 * size = omega (arith, suc-mul 0 size) in
    ap (λ k. take k (drop offset inputs.input_data)) none_left
first_stream_lem inputs size (suc n) offset offset_2 =
    let input = inputs.input_data in
    let next = after_2 size offset_2 inputs.input_data_2 in
    ap (λ r. take size (drop offset input) ++ r)
      (first_stream_lem inputs size n (offset + size) next
        ∙ ap (take (n * size)) (drop-add offset size (offset + size) input refl))
    ∙ sym
        (take-add size (n * size) (suc n * size) (drop offset input) (suc-mul n size ∙ omega arith))

pub wire_cons :
    (le : Bool) (m : Message) (ms : List Message)
    → wire le (m ∷ []) ++ wire le ms ≡ wire le (m ∷ ms)
wire_cons le m ms =
    append_assoc (header_bytes le m) (m.payload ++ []) (wire le ms)
    ∙ ap (λ r. header_bytes le m ++ (r ++ wire le ms)) (append-nil m.payload)

module _ (le : Bool) (inputs : Inputs) (size : ℕ) where
  -- The connection behind `n` messages.
  abbrev pub with_messages : ℕ → ClientConnection → ClientConnection
  with_messages zero conn = conn
  with_messages (suc n) conn = with_messages n (with_message le inputs size conn)

  written_lem :
      (n : ℕ) (conn : ClientConnection)
      → (with_messages n conn).written
        ≡ conn.written
          ++ wire le
              (numbered conn.sequence_id (chunk_list inputs size n conn.offset conn.offset_2))
  written_lem zero conn = sym (append-nil conn.written)
  written_lem (suc n) conn =
      let first = input_message conn.sequence_id (buffers inputs size conn) in
      let later = numbered (u32 (conn.sequence_id + 1)) (
        chunk_list inputs size n (conn.offset + size)
          (after_2 size conn.offset_2 inputs.input_data_2)) in
      written_lem n (with_message le inputs size conn)
      ∙ append_assoc conn.written (wire le (first ∷ [])) (wire le later)
      ∙ ap (λ r. conn.written ++ r) (wire_cons le first later)

  pub step_2 :
      (n offset : ℕ) (input_2 : Option (List ℕ))
      → HasChunks size (suc n) offset input_2
      → HasChunks size n (after_2 size offset input_2) input_2 × HasChunk size offset input_2
  step_2 n offset none h = (tt, tt)
  step_2 n offset (some input) h = (omega (arith, suc-mul n size), omega (arith, suc-mul n size))

  last_step :
      (n offset : ℕ) (input_2 : Option (List ℕ))
      → Ends size (suc n) offset input_2
      → Ends size n (after_2 size offset input_2) input_2
  last_step n offset none h = h
  last_step n offset (some input) h = omega (arith, suc-mul n size)

  last_tick :
      (offset : ℕ) (input_2 : Option (List ℕ))
      → Ends size 0 offset input_2
      → runs_out_2 offset size input_2 ≡ true
  last_tick offset none h = absurd h
  last_tick offset (some input) h = lt→ltb (length input) (offset + size) (omega arith)

module _ (le : Bool) (config : ClientConfig) (inputs : Inputs) (once : config.loop ≡ false)
    (small : chunk_size config ≤ 2 ^ 29) where
  abbrev size : ℕ
  size = chunk_size config

  stop_lem :
      (n : ℕ) (conn : ClientConnection)
      → conn.timer_active ≡ true
      → conn.offset + n * size ≤ length inputs.input_data
      → HasChunks size n conn.offset_2 inputs.input_data_2
      → (length inputs.input_data < conn.offset + n * size + size)
        ⊎ Ends size n conn.offset_2 inputs.input_data_2
      → ticks le config inputs (suc n) conn ≡ some (stopped (with_messages le inputs size n conn))
  unfolding ticks
  stop_lem zero conn active first second (inl over) =
      tick_step le config inputs 0 conn (stopped conn) active
        (send_over le config inputs conn once (omega arith))
  stop_lem zero conn active first second (inr over) =
      tick_step le config inputs 0 conn (stopped conn) active (
        send_over_2 le config inputs conn once
          (last_tick le inputs size conn.offset_2 inputs.input_data_2 over))
  stop_lem (suc n) conn active first second over =
      let more = step_2 le inputs size n conn.offset_2 inputs.input_data_2 second in
      let next = with_message le inputs size conn in
      tick_step le config inputs (suc n) conn next active
        (send_within le config inputs conn small (omega (arith, suc-mul n size)) more.1)
      ∙ stop_lem n next active (omega (arith, suc-mul n size)) more.0 (later over)
    where
      later :
          (length inputs.input_data < conn.offset + suc n * size + size)
            ⊎ Ends size (suc n) conn.offset_2 inputs.input_data_2
          → (length inputs.input_data < conn.offset + size + n * size + size)
            ⊎ Ends size n (after_2 size conn.offset_2 inputs.input_data_2) inputs.input_data_2
      later (inl h) = inl (omega (arith, suc-mul n size))
      later (inr h) = inr (last_step le inputs size n conn.offset_2 inputs.input_data_2 h)

  -- Without `loop`, a connection with `n` chunks of at most 2 ^ 29 bytes left in every file, and no
  -- further one in some file, stops its timer at tick `n + 1`. Until then it has written `n`
  -- messages, numbered from its sequence number, whose first buffers hold the next `n` chunks of
  -- the first file, in order and with nothing between them.
  pub send_all :
      (n : ℕ) (conn : ClientConnection)
      → conn.timer_active ≡ true
      → conn.offset + n * size ≤ length inputs.input_data
      → HasChunks size n conn.offset_2 inputs.input_data_2
      → (length inputs.input_data < conn.offset + n * size + size)
        ⊎ Ends size n conn.offset_2 inputs.input_data_2
      → (r : ClientConnection) × (ticks le config inputs (suc n) conn ≡ some r)
        × (r.timer_active ≡ false)
        × (r.written
            ≡ conn.written
              ++ wire le
                  (numbered conn.sequence_id (chunk_list inputs size n conn.offset conn.offset_2)))
        × (first_stream (chunk_list inputs size n conn.offset conn.offset_2)
            ≡ take (n * size) (drop conn.offset inputs.input_data))
  send_all n conn active first second over = (
    stopped (with_messages le inputs size n conn),
    stop_lem n conn active first second over,
    refl,
    written_lem le inputs size n conn,
    first_stream_lem inputs size n conn.offset conn.offset_2,
  )
