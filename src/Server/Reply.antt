-- ===== src/Server/Reply.antt =====
-- Write buffers and replies: `get_write_response`, `free_write_response`, `send_error_uring`, and
-- the part that the replies of `process_client_read` share. `safe_get_sqe` waits until the ring
-- has a free entry, so every reply is submitted.
use mach_audio.Prelude.{
  ltb, if◌then◌else◌, length, set, u32, store_u32, ntohl, ℕ, suc, ◌+◌, Bool, true, false, Option,
  none, some, List, [], ◌∷◌, ◌++◌,
}
use mach_audio.Protocol.{
  AudioCommand, command_code, AudioErrorCode, error_code, audio_magic, audio_version, header_size,
}
use mach_audio.Protocol.Bytes.{store_header}
use mach_audio.Protocol.Header.{encoded_header}
use mach_audio.Server.{Env, MachSession, WriteResponse, max_write_payload}

-- The first slot of the pool that is not in use.
unfoldable pub first_free : List Bool → Option ℕ
first_free [] = none
first_free (false ∷ slots) = some 0
first_free (true ∷ slots) = elim (first_free slots) [ none ↦ none | some i ↦ some (suc i) ]

module _ (env : Env) where
  -- `some slot` is a buffer: of the pool, or one that `malloc` gave; `none` is the null pointer.
  unfoldable pub get_write_response : MachSession env → ℕ → Option (Option ℕ) × MachSession env
  unfolding first_free
  get_write_response session resp_len =
      if ltb max_write_payload resp_len
      then (none, session)
      else elim (first_free session.write_pool) [
        | some i ↦ (some (some i), record session { write_pool = set session.write_pool i true })
        | none ↦ (
          if env.malloc_ok session.mallocs then some none else none,
          record session { mallocs = session.mallocs + 1 },
        )
      ]

  unfoldable pub free_write_response : MachSession env → Option ℕ → MachSession env
  free_write_response session none = session
  free_write_response session (some i) = record session {
    write_pool = set session.write_pool i false;
  }

  -- `io_uring_prep_send` of a filled buffer, `pending_writes++` and `io_uring_submit`.
  unfoldable pub submit : MachSession env → Option ℕ → List ℕ → MachSession env
  submit session slot bytes =
      let wr : WriteResponse = record { slot = slot; fd = session.client_fd; bytes = bytes } in
      record session {
        pending_writes = session.pending_writes + 1;
        in_flight = wr ∷ session.in_flight;
        sent = wr ∷ session.sent;
      }

  -- The bytes of a reply.
  unfoldable pub message : AudioCommand → ℕ → List ℕ → List ℕ
  unfolding store_header encoded_header command_code
  message command sequence_id payload =
      store_header env.host_le (
        encoded_header env.host_le (record {
          magic = audio_magic;
          version = audio_version;
          command = command_code command;
          sequence_id = sequence_id;
          payload_len = u32 (length payload);
        }))
      ++ payload

  -- A reply, if there is a buffer for it; otherwise nothing is sent.
  unfoldable pub reply : MachSession env → AudioCommand → ℕ → List ℕ → MachSession env
  reply session command sequence_id payload =
      let got = get_write_response session (header_size + length payload) in
      elim got.0 [
        | none ↦ got.1
        | some slot ↦ submit got.1 slot (message command sequence_id payload)
      ]

  unfoldable pub send_error : MachSession env → ℕ → AudioErrorCode → MachSession env
  send_error session sequence_id code =
      if session.closing
      then session
      else reply session AudioCommand.error sequence_id
          (store_u32 env.host_le (ntohl env.host_le (error_code code)))
