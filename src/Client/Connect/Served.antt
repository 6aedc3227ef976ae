-- ===== src/Client/Connect/Served.antt =====
-- A whole run of a connection, read by the server: the session that `on_connect` announces, and
-- then the input messages, on hosts of any byte order.
use native.Mathlib.Nat.{suc-mul}
use mach_audio.Prelude.{
  length, take, drop, pos, u32, ℕ, zero, suc, ◌+◌, ◌*◌, ◌^◌, ◌≤◌, ◌<◌, ◌≡◌, refl, sym, ap, ◌∙◌, ◌⊎◌,
  Bool, true, false, some, List, [], ◌∷◌, ◌++◌, arith,
}
use mach_audio.Client.{ClientConfig, ClientConnection, Inputs}
use mach_audio.Client.Connect.{on_connect}
use mach_audio.Client.Connect.Session.{
  length-start_payload, on_connect_lem, start-IsHeader, start_message, started,
}
use mach_audio.Client.Send.{chunk_size}
use mach_audio.Client.Send.Layout.{container_short, container_small, with_message}
use mach_audio.Client.Send.Run.{
  Ends, HasChunks, chunk_list, first_stream, numbered, send_all, step_2, wire_cons,
}
use mach_audio.Client.Send.Ticks.{ticks}
use mach_audio.Protocol.Header.{store-encoded_host}
use mach_audio.Server.{Env, MachSession}
use mach_audio.Server.Chunks.{concat, read_all}
use mach_audio.Server.Messages.{AreMessages, Message, front-nil, header_of, serve, wire}
use mach_audio.Server.Reads.{AreBelow, AreReads, buf_size, drained, read_all-wire}

-- The bytes of messages do not depend on the byte order of the host that writes them.
pub wire_host :
    (le server_le : Bool) (ms : List Message) → AreMessages ms → wire le ms ≡ wire server_le ms
wire_host true true ms h = refl
wire_host false false ms h = refl
wire_host true false [] h = refl
wire_host true false (m ∷ ms) h =
    λ i. store-encoded_host (header_of m) h.0 i ++ (m.payload ++ wire_host true false ms h.1 i)
wire_host false true [] h = refl
wire_host false true (m ∷ ms) h = λ i.
    sym (store-encoded_host (header_of m) h.0) i ++ (m.payload ++ wire_host false true ms h.1 i)

module _ (le : Bool) (inputs : Inputs) (size : ℕ) (small : size ≤ 2 ^ 29) where
  numbered-AreMessages :
      (n : ℕ) (conn : ClientConnection)
      → conn.sequence_id < 2 ^ 32
      → conn.offset + n * size ≤ length inputs.input_data
      → HasChunks size n conn.offset_2 inputs.input_data_2
      → AreMessages (numbered conn.sequence_id (chunk_list inputs size n conn.offset conn.offset_2))
  numbered-AreMessages zero conn seq first second = tt
  numbered-AreMessages (suc n) conn seq first second =
      let more = step_2 le inputs size n conn.offset_2 inputs.input_data_2 second in
      let here : conn.offset + size ≤ length inputs.input_data = omega (arith, suc-mul n size) in
      let bound = container_small le inputs size conn small more.1 here in
      (
        record {
          magic_fits = omega arith;
          version_fits = omega arith;
          command_fits = omega arith;
          sequence_fits = seq;
          payload_fits = omega (arith, bound);
        },
        numbered-AreMessages n (with_message le inputs size conn) (omega arith)
            (omega (arith, suc-mul n size)) more.0,
      )

module _ (le : Bool) (inputs : Inputs) (size : ℕ) (few : size ≤ 8000) where
  numbered-AreBelow :
      (n : ℕ) (conn : ClientConnection)
      → conn.offset + n * size ≤ length inputs.input_data
      → HasChunks size n conn.offset_2 inputs.input_data_2
      → AreBelow buf_size
          (numbered conn.sequence_id (chunk_list inputs size n conn.offset conn.offset_2))
  numbered-AreBelow zero conn first second = tt
  numbered-AreBelow (suc n) conn first second =
      let more = step_2 le inputs size n conn.offset_2 inputs.input_data_2 second in
      let here : conn.offset + size ≤ length inputs.input_data = omega (arith, suc-mul n size) in
      let bound = container_short le inputs size conn (omega arith) few more.1 here in
      (
        omega (arith, bound),
        numbered-AreBelow n (with_message le inputs size conn) (omega (arith, suc-mul n size))
            more.0,
      )

-- The messages of a whole run: the session, and then the inputs.
abbrev pub run_messages : Bool → ClientConfig → Inputs → ℕ → ClientConnection → List Message
run_messages le config inputs n conn =
    start_message le conn.sequence_id config
    ∷ numbered (u32 (conn.sequence_id + 1))
        (chunk_list inputs (chunk_size config) n conn.offset conn.offset_2)

-- A run of a connection against a session of the server, on hosts of any byte order, whose
-- connection has written nothing before. The configuration is without `loop`; the files have `n`
-- chunks of at most 8000 bytes left from the connection's offsets, and no further one. `on_connect`
-- and `n + 1` ticks write the messages of the run, and the timer is off. In whatever reads of at most
-- BUF_SIZE bytes each, the size of its read buffers, these bytes reach the server, on a connection
-- whose assemble buffer is empty: `process_client_read` carries out one CMD_START and then `n`
-- CMD_INPUT commands, with the chunks in their containers, and its assemble buffer is empty in the
-- end.
pub session-served :
    (le : Bool) (env : Env) (session : MachSession env) (config : ClientConfig) (inputs : Inputs)
    (n status : ℕ) (conn : ClientConnection) (chunks : List (List ℕ))
    → config.loop ≡ false
    → chunk_size config ≤ 8000
    → conn.written ≡ []
    → conn.sequence_id < 2 ^ 32
    → conn.offset + n * chunk_size config ≤ length inputs.input_data
    → HasChunks (chunk_size config) n conn.offset_2 inputs.input_data_2
    → (length inputs.input_data < conn.offset + n * chunk_size config + chunk_size config)
      ⊎ Ends (chunk_size config) n conn.offset_2 inputs.input_data_2
    → AreReads buf_size chunks
    → concat env chunks ≡ wire le (run_messages le config inputs n conn)
    → (r : ClientConnection) × (ticks le config inputs
          (suc n)
          (on_connect le config (pos status) conn)
        ≡ some r)
      × (r.timer_active ≡ false)
      × (r.written ≡ concat env chunks)
      × (read_all env (record { session = session; assemble_buf = [] }) chunks
          ≡ drained env (serve env session (run_messages le config inputs n conn)))
session-served le env session config inputs n status conn chunks once small fresh seq first second
      over sizes e =
    (
      run.0,
      ap (ticks le config inputs (suc n)) (on_connect_lem le config status conn) ∙ run.1,
      run.2,
      bytes ∙ sym e,
      read_all-wire env (record { session = session; assemble_buf = [] }) chunks messages are below
          sizes (omega arith) (front-nil env.host_le) (e ∙ wire_host le env.host_le messages are),
    )
  where
    limit : chunk_size config ≤ 2 ^ 29
    limit = omega arith

    run :
        (r : ClientConnection) × (ticks le config inputs (suc n) (started le config conn) ≡ some r)
        × (r.timer_active ≡ false)
        × (r.written
            ≡ (conn.written ++ wire le (start_message le conn.sequence_id config ∷ []))
              ++ wire le (
                  numbered
                    (u32 (conn.sequence_id + 1))
                    (chunk_list inputs (chunk_size config) n conn.offset conn.offset_2)))
        × (first_stream (chunk_list inputs (chunk_size config) n conn.offset conn.offset_2)
            ≡ take (n * chunk_size config) (drop conn.offset inputs.input_data))
    run = send_all le config inputs once limit n (started le config conn) refl first second over

    later : List Message
    later =
        numbered (u32 (conn.sequence_id + 1))
          (chunk_list inputs (chunk_size config) n conn.offset conn.offset_2)

    messages : List Message
    messages = run_messages le config inputs n conn

    are : AreMessages messages
    are = (
      start-IsHeader le conn.sequence_id config seq,
      numbered-AreMessages le inputs (chunk_size config) limit n (started le config conn)
          (omega arith) first second,
    )

    below : AreBelow buf_size messages
    below = (
      omega (arith, length-start_payload le config),
      numbered-AreBelow le inputs (chunk_size config) small n (started le config conn) first second,
    )

    bytes : (run.0).written ≡ wire le messages
    bytes =
        run.3
        ∙ ap (λ r. (r ++ wire le (start_message le conn.sequence_id config ∷ [])) ++ wire le later)
            fresh
        ∙ wire_cons le (start_message le conn.sequence_id config) later
