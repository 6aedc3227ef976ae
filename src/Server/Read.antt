-- ===== src/Server/Read.antt =====
-- `process_client_read` of core/server.c: the bytes of a read join the assemble buffer, and every
-- complete message in it is handled.
use mach_audio.Prelude.{
  ltb, if◌then◌else◌, length, take, drop, ℕ, zero, suc, ◌+◌, Bool, true, not, Option, none, some,
  List, ◌++◌,
}
use mach_audio.Protocol.{AudioErrorCode, AudioMsgHeader, header_size}
use mach_audio.Protocol.Bytes.{load_header}
use mach_audio.Protocol.Header.{decoded_header, validate_header}
use mach_audio.Server.{Env, MachSession, Connection, assemble_size}
use mach_audio.Server.Reply.{send_error}
use mach_audio.Server.Dispatch.{dispatch}

-- What a round of the loop finds at the front of the bytes.
pub data Front : Type 0 where
  partial : Front
  invalid : AudioMsgHeader → Front
  complete : AudioMsgHeader → Front

-- The decoded header at the front.
unfoldable pub front_header : Bool → List ℕ → AudioMsgHeader
front_header le bs = decoded_header le (load_header le bs)

-- The conditions of a round: fewer bytes than a header, a header that is not valid, fewer bytes
-- than the message that it announces.
unfoldable pub front : Bool → List ℕ → Front
unfolding validate_header
front le bs =
    if ltb (length bs) header_size
    then partial
    else let h = front_header le bs in
      if not (validate_header (some h))
      then invalid h
      else if ltb (length bs) (header_size + h.payload_len)
      then partial
      else complete h

module _ (env : Env) where
  -- An invalid header is answered with ERR_INVALID_MAGIC, and the session closes.
  unfoldable pub reject : MachSession env → AudioMsgHeader → MachSession env
  reject session h = record (send_error env session h.sequence_id AudioErrorCode.invalid_magic) {
    closing = true;
  }

  -- The loop: the session after, and the bytes that stay in the assemble buffer. A round takes
  -- 16 bytes or more.
  unfoldable pub drain : ℕ → MachSession env → List ℕ → Option (MachSession env × List ℕ)
  drain zero session bs = some (session, bs)
  drain (suc fuel) session bs = elim (front env.host_le bs) [
    | partial ↦ some (session, bs)
    | invalid h ↦ some (reject session h, bs)
    | complete h ↦ elim (dispatch env session h (take h.payload_len (drop header_size bs))) [
      | none ↦ none
      | some next ↦ drain fuel next (drop (header_size + h.payload_len) bs)
    ]
  ]

  -- What the loop leaves.
  unfoldable pub settle : MachSession env × List ℕ → Connection env
  settle (session, rest) = record { session = session; assemble_buf = rest }

  -- The handling of the bytes that a read gave. The kernel's buffer goes back to the ring on every
  -- path, and is not modelled.
  unfoldable pub process_client_read : Connection env → List ℕ → Option (Connection env)
  process_client_read c chunk =
      if ltb assemble_size (length c.assemble_buf + length chunk)
      then some (record c { session = record c.session { closing = true } })
      else let bs = c.assemble_buf ++ chunk in
        elim (drain (suc (length bs)) c.session bs) [ none ↦ none | some r ↦ some (settle r) ]
