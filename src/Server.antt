-- ===== src/Server.antt =====
-- A client session of the server: include/machaudio/server.h and core/server.c.
pub mod Reply
pub mod Dispatch
pub mod Read
pub mod Framing
pub mod Rest
pub mod Stream
pub mod Chunks
pub mod Messages
pub mod Reads
pub mod Setup
pub mod Events
pub mod Preserve
pub mod Pool
pub mod Completion
pub mod Lifecycle
mod Tests
use mach_audio.Prelude.{ℤ, ℕ, Bool, Option, List}
use mach_audio.Arena.{Arena}
use mach_audio.Engine.{MachAudioEngine}
use mach_audio.Simd.{Avx2}
use mach_audio.Transcode.{Dsp, TranscodeSession}

abbrev pub session_arena_size : ℕ
session_arena_size = 262144

abbrev pub max_concurrent_writes : ℕ
max_concurrent_writes = 32

abbrev pub max_write_payload : ℕ
max_write_payload = 8192

abbrev pub assemble_size : ℕ
assemble_size = 32768

-- A `WriteResponse` handed to the kernel: its slot of the session's pool, or `none` for one from
-- `malloc`, the descriptor, and its bytes.
pub record WriteResponse : Type 0 where
  pub slot : Option ℕ
  pub fd : ℤ
  pub bytes : List ℕ

-- What the session does not compute: the host's byte order, the intrinsics, the signal
-- processing, the address of a session's arena, the answers of `malloc` and of the monotonic
-- clock by the number of the call, and the number of workers.
pub record Env : Type 1 where
  pub host_le : Bool
  pub avx : Avx2
  pub dsp : Dsp
  pub arena_base : ℕ
  pub malloc_ok : ℕ → Bool
  pub hrtime : ℕ → ℕ
  pub num_workers : ℕ

module _ (env : Env) where
  -- `MachSession` without the assemble buffer, which no command sees. The pool is its `in_use`
  -- flags. `in_flight` are the writes that the kernel has not completed, `sent` all that were
  -- submitted, both newest first; `mallocs` and `clock_reads` count the calls.
  pub record MachSession : Type 0 where
    pub client_fd : ℤ
    pub arena : Arena
    pub audio_engine : MachAudioEngine
    pub transcode_session : TranscodeSession env.dsp
    pub write_pool : List Bool
    pub arena_curr_start : ℕ
    pub pending_writes : ℕ
    pub closing : Bool
    pub recv_active : Bool
    pub in_flight : List WriteResponse
    pub sent : List WriteResponse
    pub mallocs : ℕ
    pub clock_reads : ℕ

  -- A session with the first `assemble_len` bytes of its assemble buffer.
  pub record Connection : Type 0 where
    pub session : MachSession
    pub assemble_buf : List ℕ
