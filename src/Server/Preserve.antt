-- ===== src/Server/Preserve.antt =====
-- What holds of a session's writes, and is kept by every reply and by closing, is kept by
-- `process_client_read`.
use mach_audio.Prelude.{
  ltb, if◌then◌else◌, length, ℤ, u64, ℕ, zero, suc, ◌+◌, ◌-◌, ◌^◌, ◌≡◌, refl, sym, inl, inr, Bool,
  true, false, Option, none, some, List, [], ◌++◌, ◌==◌, subst,
}
use mach_audio.Protocol.{
  AudioCommand, command_code, AudioErrorCode, AudioMsgHeader, start_payload_size,
  input_payload_size,
}
use mach_audio.Transcode.Memory.{Run, ok, error, fault, State}
use mach_audio.Transcode.Pipeline.{process}
use mach_audio.Server.{Env, WriteResponse, MachSession, Connection, assemble_size}
use mach_audio.Server.Reply.{reply, send_error}
use mach_audio.Server.Dispatch.{
  set_up_arena, handle_start, answer_input, handle_input, handle_stop, handle_ping, handle_discover,
  dispatch,
}
use mach_audio.Server.Read.{front_header, reject, drain, settle, process_client_read}
use mach_audio.Server.Framing.{
  front-cases, payload_of, rest_of, drain-partial, drain-invalid, drain-complete, go_on,
}

-- The fields of a session that its writes are about.
pub record Io : Type 0 where
  pub client_fd : ℤ
  pub write_pool : List Bool
  pub pending_writes : ℕ
  pub closing : Bool
  pub recv_active : Bool
  pub in_flight : List WriteResponse

abbrev pub io : (env : Env) → MachSession env → Io
io env s = record {
  client_fd = s.client_fd;
  write_pool = s.write_pool;
  pending_writes = s.pending_writes;
  closing = s.closing;
  recv_active = s.recv_active;
  in_flight = s.in_flight;
}

-- A predicate that replies and closing keep.
pub record IsKept (env : Env) (P : Io → Type 0) : Type 0 where
  pub replied :
      (s : MachSession env) (command : AudioCommand) (n : ℕ) (payload : List ℕ)
      → s.closing ≡ false
      → P (io env s)
      → P (io env (reply env s command n payload))
  pub closed : (s : MachSession env) → P (io env s) → P (io env (record s { closing = true }))

module _ (env : Env) (P : Io → Type 0) (kept : IsKept env P) where
  -- The predicate at a session.
  unfoldable pub On : MachSession env → Type 0
  On s = P (io env s)

  On-same : (s t : MachSession env) → io env s ≡ io env t → On s → On t
  unfolding On
  On-same s t e h = subst P e h

  On-replied :
      (s : MachSession env) (command : AudioCommand) (n : ℕ) (payload : List ℕ)
      → s.closing ≡ false
      → On s
      → On (reply env s command n payload)
  unfolding On
  On-replied s command n payload e h = kept.replied s command n payload e h

  On-closed : (s : MachSession env) → On s → On (record s { closing = true })
  unfolding On
  On-closed s h = kept.closed s h

  if-On :
      (b : Bool) (x y : MachSession env)
      → (b ≡ true → On x)
      → (b ≡ false → On y)
      → On (if b then x else y)
  if-On true x y h k = h refl
  if-On false x y h k = k refl

  send_error-On :
      (s : MachSession env) (n : ℕ) (code : AudioErrorCode) → On s → On (send_error env s n code)
  unfolding send_error
  send_error-On s n code h =
      if-On s.closing s _ (λ _. h) (λ e. On-replied s AudioCommand.error n _ e h)

  set_up_arena-On : (s : MachSession env) → On s → On (set_up_arena env s)
  unfolding set_up_arena
  set_up_arena-On s h =
      if-On s.transcode_session.vad_enabled _ _ (λ _. On-same s _ refl h) (λ _. On-same s _ refl h)

  handle_start-On :
      (s : MachSession env) (h : AudioMsgHeader) (p : List ℕ) → On s → On (handle_start env s h p)
  unfolding handle_start
  handle_start-On s h p k =
      if-On (ltb h.payload_len start_payload_size) _ _
        (λ _. send_error-On s h.sequence_id AudioErrorCode.invalid_payload k)
        (λ _. set_up_arena-On _ (On-same s _ refl k))

  answer_input-On :
      (s : MachSession env) (n duration : ℕ) → On s → On (answer_input env s n duration)
  unfolding answer_input
  answer_input-On s n duration k =
      if-On s.closing s _ (λ _. k)
        (λ e. On-same _ _ refl (On-replied s AudioCommand.output n _ e k))

  abbrev OnResult : Option (MachSession env) → Type 0
  OnResult none = Unit {0}
  OnResult (some s) = On s

  if-OnResult :
      (b : Bool) (x y : Option (MachSession env))
      → OnResult x
      → OnResult y
      → OnResult (if b then x else y)
  if-OnResult true x y h k = h
  if-OnResult false x y h k = k

  handle_input-On :
      (s : MachSession env) (h : AudioMsgHeader) (p : List ℕ)
      → On s
      → OnResult (handle_input env s h p)
  unfolding handle_input
  handle_input-On s h p k =
      if-OnResult (ltb h.payload_len input_payload_size)
        (some (send_error env s h.sequence_id AudioErrorCode.invalid_payload)) _
        (send_error-On s h.sequence_id AudioErrorCode.invalid_payload k)
        (processed (
          process env.dsp env.avx env.host_le p h.payload_len (record {
            session = s.transcode_session;
            arena = record s.arena { curr = s.arena_curr_start };
          })))
    where
      processed :
          (r : Run (State env.dsp) (Unit {0}))
          → OnResult (elim r [
            | ok _ after ↦ some (
                answer_input env
                  (record s {
                    transcode_session = after.session;
                    arena = after.arena;
                    clock_reads = s.clock_reads + 2;
                  })
                  h.sequence_id
                  (u64 (env.hrtime (s.clock_reads + 1) + (2 ^ 64 - env.hrtime s.clock_reads))))
            | error after ↦ some (
                send_error env
                  (record s {
                    transcode_session = after.session;
                    arena = after.arena;
                    clock_reads = s.clock_reads + 2;
                  })
                  h.sequence_id
                  AudioErrorCode.processing_failed)
            | fault ↦ none
          ])
      processed (ok _ after) = answer_input-On _ h.sequence_id _ (On-same s _ refl k)
      processed (error after) =
          send_error-On _ h.sequence_id AudioErrorCode.processing_failed (On-same s _ refl k)
      processed fault = tt

  handle_ping-On : (s : MachSession env) (h : AudioMsgHeader) → On s → On (handle_ping env s h)
  unfolding handle_ping
  handle_ping-On s h k =
      if-On s.closing s _ (λ _. k) (λ e. On-replied s AudioCommand.pong h.sequence_id [] e k)

  handle_discover-On :
      (s : MachSession env) (h : AudioMsgHeader) → On s → On (handle_discover env s h)
  unfolding handle_discover
  handle_discover-On s h k =
      if-On s.closing s _ (λ _. k)
        (λ e. On-replied s AudioCommand.discover_reply h.sequence_id _ e k)

  dispatch-On :
      (s : MachSession env) (h : AudioMsgHeader) (p : List ℕ) → On s → OnResult (dispatch env s h p)
  unfolding dispatch handle_stop
  dispatch-On s h p k =
      if-OnResult (is AudioCommand.start) (some (handle_start env s h p)) _
        (handle_start-On s h p k)
        (if-OnResult (is AudioCommand.input) (handle_input env s h p) _ (handle_input-On s h p k) (
          if-OnResult (is AudioCommand.stop) (some (handle_stop env s)) _ (On-same s _ refl k) (
            if-OnResult (is AudioCommand.ping) (some (handle_ping env s h)) _ (handle_ping-On s h k)
              (if-OnResult (is AudioCommand.discover) (some (handle_discover env s h))
                (some (send_error env s h.sequence_id AudioErrorCode.invalid_command))
                (handle_discover-On s h k)
                (send_error-On s h.sequence_id AudioErrorCode.invalid_command k)))))
    where
      is : AudioCommand → Bool
      is c = h.command == command_code c

  abbrev OnDrained : Option (MachSession env × List ℕ) → Type 0
  OnDrained none = Unit {0}
  OnDrained (some r) = On r.0

  go_on-On :
      (n : ℕ) (h : AudioMsgHeader) (bs : List ℕ) (got : Option (MachSession env))
      → OnResult got
      → ((next : MachSession env) → On next → OnDrained (drain env n next (rest_of env h bs)))
      → OnDrained (go_on env n h bs got)
  go_on-On n h bs none k rest = tt
  go_on-On n h bs (some next) k rest = rest next k

  drain-On : (n : ℕ) (s : MachSession env) (bs : List ℕ) → On s → OnDrained (drain env n s bs)
  unfolding reject
  drain-On zero s bs k = unfold drain in k
  drain-On (suc n) s bs k = elim (front-cases env.host_le bs) [
    | inl e ↦ subst OnDrained (sym (drain-partial env n s bs e)) k
    | inr (inl e) ↦
        subst OnDrained (sym (drain-invalid env n s bs _ e))
          (On-closed _ (send_error-On s _ AudioErrorCode.invalid_magic k))
    | inr (inr e) ↦
        let hd = front_header env.host_le bs in
        subst OnDrained (sym (drain-complete env n s bs hd e)) (
          go_on-On n hd bs (dispatch env s hd (payload_of env hd bs)) (dispatch-On s hd _ k)
            (λ next m. drain-On n next (rest_of env hd bs) m))
  ]

  abbrev pub OnRead : Option (Connection env) → Type 0
  OnRead none = Unit {0}
  OnRead (some c) = On c.session

  OnDrained-settled :
      (got : Option (MachSession env × List ℕ))
      → OnDrained got
      → OnRead (elim got [ none ↦ none | some r ↦ some (settle env r) ])
  unfolding settle
  OnDrained-settled none k = tt
  OnDrained-settled (some r) k = k

  if-OnRead :
      (b : Bool) (x y : Option (Connection env)) → OnRead x → OnRead y → OnRead (if b then x else y)
  if-OnRead true x y h k = h
  if-OnRead false x y h k = k

  pub process_client_read-On :
      (c : Connection env) (chunk : List ℕ)
      → On c.session
      → OnRead (process_client_read env c chunk)
  unfolding process_client_read
  process_client_read-On c chunk k =
      if-OnRead (ltb assemble_size (length c.assemble_buf + length chunk))
        (some (record c { session = record c.session { closing = true } })) _
        (On-closed c.session k)
        (OnDrained-settled _
          (drain-On (suc (length (c.assemble_buf ++ chunk))) c.session (c.assemble_buf ++ chunk) k))
