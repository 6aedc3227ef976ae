-- ===== src/Server/Events.antt =====
-- A client's events in `mach_server_start`: the accept of a connection, a completed receive and a
-- completed send, and `cleanup_session_if_needed`.
use mach_audio.Prelude.{
  ltb, if◌then◌else◌, take, replicate, ℤ, pos, negsuc, pos_part, ℕ, zero, suc, ◌-◌, Bool, true,
  false, not, ◌&&◌, ◌||◌, Option, none, some, List, [], ◌∷◌, ◌==◌, replicate,
}
use mach_audio.Arena.{Arena, arena_init}
use mach_audio.Transcode.{zeroed}
use mach_audio.Server.{Env, WriteResponse, Connection, session_arena_size, max_concurrent_writes}
use mach_audio.Server.Reply.{free_write_response}
use mach_audio.Server.Read.{process_client_read}

-- `-ENOBUFS`.
abbrev pub minus_enobufs : ℤ
minus_enobufs = negsuc 104

abbrev pub is_minus_enobufs : ℤ → Bool
is_minus_enobufs (pos n) = false
is_minus_enobufs (negsuc n) = n == 104

abbrev pub is_positive : ℤ → Bool
is_positive (pos n) = ltb 0 n
is_positive (negsuc n) = false

abbrev pub is_negative : ℤ → Bool
is_negative (pos n) = false
is_negative (negsuc n) = true

-- The descriptor -1.
abbrev pub closed_fd : ℤ
closed_fd = negsuc 0

abbrev pub session_name : List ℕ
session_name = b's' ∷ b'e' ∷ b's' ∷ b's' ∷ b'i' ∷ b'o' ∷ b'n' ∷ []

-- A list without the element at an index.
abbrev pub remove {ℓ} : {A : Type ℓ} → List A → ℕ → List A
remove [] i = []
remove (x ∷ xs) zero = xs
remove (x ∷ xs) (suc i) = x ∷ remove xs i

module _ (env : Env) where
  -- The memory of a session; a freed one as it was when it was freed.
  pub data Cell : Type 0 where
    live : Connection env → Cell
    freed : Connection env → Cell

  -- The arena of a session that `memset` has cleared.
  unfoldable pub session_arena : Arena
  unfolding arena_init
  session_arena =
      let cleared : Arena = record { name = []; buf = none; size = 0; curr = 0 } in
      elim (arena_init (some cleared) (some (replicate session_arena_size 0)) session_arena_size
        (some session_name)) [ none ↦ cleared | some a ↦ a ]

  -- An accepted descriptor: a cleared session with its first receive submitted. If there is no
  -- memory for it, `none`, and the descriptor is closed.
  unfoldable pub accept : Bool → ℤ → Option (Connection env)
  accept memory client_fd =
      if not memory
      then none
      else some (record {
        session = record {
          client_fd = client_fd;
          arena = session_arena;
          audio_engine = record { channels = pos 0; sample_rate = pos 0 };
          transcode_session = zeroed env.dsp;
          write_pool = replicate max_concurrent_writes false;
          arena_curr_start = 0;
          pending_writes = 0;
          closing = false;
          recv_active = true;
          in_flight = [];
          sent = [];
          mallocs = 0;
          clock_reads = 0;
        };
        assemble_buf = [];
      })

  -- `cleanup_session_if_needed`.
  unfoldable pub cleanup_session_if_needed : Connection env → Cell
  cleanup_session_if_needed c =
      if c.session.closing && c.session.pending_writes == 0
      then (let shut = record c { session = record c.session { client_fd = closed_fd } } in
          if c.session.recv_active then live shut else freed shut)
      else live c

  abbrev set_recv_active : Connection env → Bool → Connection env
  set_recv_active c active = record c { session = record c.session { recv_active = active } }

  abbrev set_closing : Connection env → Connection env
  set_closing c = record c { session = record c.session { closing = true } }

  -- The part of IO_OP_READ behind the reading: a multishot receive that ended is submitted again,
  -- and a closing session is cleaned up.
  unfoldable pub after_read : Bool → Connection env → Cell
  after_read more c =
      let armed = if not c.session.closing && not more then set_recv_active c true else c in
      if armed.session.closing then cleanup_session_if_needed armed else live armed

  -- IO_OP_READ: the completion's result, its IORING_CQE_F_MORE flag, and the bytes of the selected
  -- buffer, if there is one. `none` is a fault in a command.
  unfoldable pub on_read : Connection env → ℤ → Bool → Option (List ℕ) → Option Cell
  on_read before res more buffer =
      let c = if more then before else set_recv_active before false in
      if not (is_positive res)
      then (if is_minus_enobufs res
          then some (live (set_recv_active c true))
          else some (cleanup_session_if_needed (set_closing c)))
      else elim buffer [
        | none ↦ some (after_read more c)
        | some bytes ↦ elim (process_client_read env c (take (pos_part res) bytes)) [
          | none ↦ none
          | some next ↦ some (after_read more next)
        ]
      ]

  -- IO_OP_WRITE of the write at an index of those in flight: `pending_writes--`, and a failed write
  -- closes the session. A result that is positive but short of the length is not looked at.
  unfoldable pub on_write : Connection env → ℕ → WriteResponse → ℤ → Cell
  on_write before i wr res =
      let counted = record before.session {
        pending_writes = before.session.pending_writes - 1;
        in_flight = remove before.session.in_flight i;
        closing = before.session.closing || is_negative res;
      } in
      cleanup_session_if_needed
        (record before { session = free_write_response env counted wr.slot })
