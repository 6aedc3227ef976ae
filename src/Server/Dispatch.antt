-- ===== src/Server/Dispatch.antt =====
-- The commands of `process_client_read`: the cases of its switch. `none` is a fault of the
-- program: a division by zero or an access outside of the payload or the arena.
use mach_audio.Prelude.{
  ltb, if◌then◌else◌, take, drop, ℤ, pos, negsuc, u64, byte_of, store_u32, ntohl, ℕ, ◌+◌, ◌-◌, ◌^◌,
  Option, none, some, List, [], ◌∷◌, ◌++◌, ◌==◌,
}
use mach_audio.Arena.{reset, arena_used}
use mach_audio.Engine.{MachAudioEngine, audio_engine_init, audio_engine_destroy}
use mach_audio.Vad.{vad_gru_init}
use mach_audio.Protocol.{
  AudioCommand, command_code, AudioErrorCode, AudioMsgHeader, start_payload_size,
  input_payload_size,
}
use mach_audio.Protocol.Bytes.{load_start}
use mach_audio.Protocol.Header.{float_to_net}
use mach_audio.Transcode.{transcode_session_stop, session_init}
use mach_audio.Transcode.Memory.{ok, error, fault, State, storage}
use mach_audio.Transcode.Pipeline.{process}
use mach_audio.Server.{Env, MachSession}
use mach_audio.Server.Reply.{reply, send_error}

-- The cast `(int)` of a uint32_t.
abbrev pub int_of_u32 : ℕ → ℤ
int_of_u32 w = if ltb w (2 ^ 31) then pos w else negsuc (2 ^ 32 - 1 - w)

-- `htobe64` and the store: the bytes of a 64-bit word, highest first.
unfoldable pub store_be64 : ℕ → List ℕ
store_be64 x =
    byte_of x 7
    ∷ byte_of x 6
    ∷ byte_of x 5
    ∷ byte_of x 4
    ∷ byte_of x 3
    ∷ byte_of x 2
    ∷ byte_of x 1
    ∷ byte_of x 0
    ∷ []

module _ (env : Env) where
  -- `audio_engine_destroy` and `audio_engine_init` of the session's engine.
  unfoldable pub restart_engine : MachAudioEngine → ℕ → ℕ → MachAudioEngine
  unfolding audio_engine_init audio_engine_destroy
  restart_engine engine rate channels =
      elim (audio_engine_init (audio_engine_destroy (some engine)) (int_of_u32 rate)
        (pos channels)).1 [ none ↦ engine | some e ↦ e ]

  -- The allocations of a CMD_START: the arena starts again, with the detector's state in it if
  -- the session asked for one.
  unfoldable pub set_up_arena : MachSession env → MachSession env
  set_up_arena session =
      if session.transcode_session.vad_enabled
      then (let got = vad_gru_init env.arena_base (reset session.arena) in
          record session {
            arena = got.1;
            transcode_session = record session.transcode_session {
              vad_state = elim got.0 [ none ↦ none | some place ↦ some env.dsp.vad_reset ];
            };
            arena_curr_start = got.1.curr;
          })
      else record session { arena = reset session.arena; arena_curr_start = 0 }

  -- The return value of `transcode_session_init` is ignored.
  unfoldable pub handle_start : MachSession env → AudioMsgHeader → List ℕ → MachSession env
  handle_start session header payload =
      if ltb header.payload_len start_payload_size
      then send_error env session header.sequence_id AudioErrorCode.invalid_payload
      else let config = load_start env.host_le payload in
        set_up_arena (record session {
          transcode_session = (session_init env.dsp env.host_le config).1;
          audio_engine =
              restart_engine session.audio_engine (ntohl env.host_le config.in_sample_rate)
                config.in_channels;
        })

  -- The payload of an output message in front of its data.
  unfoldable pub output_payload : MachSession env → ℕ → List ℕ → List ℕ
  unfolding store_be64
  output_payload session duration body =
      store_be64 duration
      ++ (store_u32 env.host_le (float_to_net env.host_le session.transcode_session.last_vad_prob)
          ++ (0 ∷ 0 ∷ 0 ∷ 0 ∷ body))

  -- The answer to an input that was processed. A closing session gets none, and its arena is left
  -- as it is.
  unfoldable pub answer_input : MachSession env → ℕ → ℕ → MachSession env
  answer_input session sequence_id duration =
      if session.closing
      then session
      else let start = session.arena_curr_start in
        let out_data_len = u64 (arena_used (some session.arena) + (2 ^ 64 - start)) in
        let body = take out_data_len (drop start (storage env.dsp session.arena)) in
        let replied =
          reply env session AudioCommand.output sequence_id
            (output_payload session duration body) in
        record replied { arena = record replied.arena { curr = start } }

  -- The clock is read before and after the call.
  unfoldable pub handle_input : MachSession env → AudioMsgHeader → List ℕ → Option (MachSession env)
  handle_input session header payload =
      if ltb header.payload_len input_payload_size
      then some (send_error env session header.sequence_id AudioErrorCode.invalid_payload)
      else let start_ns = env.hrtime session.clock_reads in
        let end_ns = env.hrtime (session.clock_reads + 1) in
        let duration_ns = u64 (end_ns + (2 ^ 64 - start_ns)) in
        let before : State env.dsp = record {
          session = session.transcode_session;
          arena = record session.arena { curr = session.arena_curr_start };
        } in
        elim (process env.dsp env.avx env.host_le payload header.payload_len before) [
          | ok _ after ↦ some (
              answer_input
                (record session {
                  transcode_session = after.session;
                  arena = after.arena;
                  clock_reads = session.clock_reads + 2;
                })
                header.sequence_id duration_ns)
          | error after ↦ some (
              send_error env
                (record session {
                  transcode_session = after.session;
                  arena = after.arena;
                  clock_reads = session.clock_reads + 2;
                })
                header.sequence_id AudioErrorCode.processing_failed)
          | fault ↦ none
        ]

  unfoldable pub handle_stop : MachSession env → MachSession env
  unfolding transcode_session_stop audio_engine_destroy
  handle_stop session = record session {
    transcode_session = elim (transcode_session_stop env.dsp (some session.transcode_session)) [
      | none ↦ session.transcode_session
      | some t ↦ t
    ];
    audio_engine = elim (audio_engine_destroy (some session.audio_engine)) [
      | none ↦ session.audio_engine
      | some e ↦ e
    ];
  }

  unfoldable pub handle_ping : MachSession env → AudioMsgHeader → MachSession env
  handle_ping session header =
      if session.closing then session else reply env session AudioCommand.pong header.sequence_id []

  unfoldable pub handle_discover : MachSession env → AudioMsgHeader → MachSession env
  handle_discover session header =
      if session.closing
      then session
      else reply env session AudioCommand.discover_reply header.sequence_id
          (store_u32 env.host_le (ntohl env.host_le env.num_workers) ++ store_u32 env.host_le 0)

  -- `switch (decoded.command)`.
  unfoldable pub dispatch : MachSession env → AudioMsgHeader → List ℕ → Option (MachSession env)
  unfolding command_code
  dispatch session header payload =
      if header.command == command_code AudioCommand.start
      then some (handle_start session header payload)
      else if header.command == command_code AudioCommand.input
      then handle_input session header payload
      else if header.command == command_code AudioCommand.stop
      then some (handle_stop session)
      else if header.command == command_code AudioCommand.ping
      then some (handle_ping session header)
      else if header.command == command_code AudioCommand.discover
      then some (handle_discover session header)
      else some (send_error env session header.sequence_id AudioErrorCode.invalid_command)
