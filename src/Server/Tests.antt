-- ===== src/Server/Tests.antt =====
-- The server's theorems at a concrete server and client.
use mach_audio.Prelude.{
  if◌then◌else◌, length, take, drop, replicate, pos, negsuc, store_u16, store_u32, ntohs, ntohl, ℕ,
  ◌≤◌, ◌≡◌, refl, true, false, Option, none, some, List, [], ◌∷◌, ◌++◌, arith,
}
use mach_audio.Protocol.Bytes.{store_header}
use mach_audio.Protocol.Header.{encoded_header}
use mach_audio.Server.{Connection, Env, MachSession, max_concurrent_writes}
use mach_audio.Server.Chunks.{concat, read_all, read_all-concat}
use mach_audio.Server.Events.{
  accept, cleanup_session_if_needed, closed_fd, freed, live, on_read, session_arena,
}
use mach_audio.Server.Framing.{drain_all}
use mach_audio.Server.Lifecycle.{IsReachable, IsSafe, accepted, reachable-IsSafe, read, stepped}
use mach_audio.Server.Messages.{AreMessages, Message, drain_all-wire, serve, wire, with_rest}
use mach_audio.Server.Read.{drain, front, process_client_read}
use mach_audio.Server.Reads.{drained, read_all-wire}
use mach_audio.Server.Rest.{IsDrained, drain_all-leaves}
use mach_audio.Server.Setup.{
  Calls, cleared_server, init_registered_buffer_ring, nothing_held, queue_result, server_init,
  set_up_queue, shut_down, shut_down-server_init, uds_socket, with_sessions,
}
use mach_audio.Simd.Lanes.{lanes}
use mach_audio.Transcode.{zeroed}
use mach_audio.Transcode.Silent.{silent}

abbrev env : Env
env = record {
  host_le = true;
  avx = lanes;
  dsp = silent;
  arena_base = 4096;
  malloc_ok = λ call. true;
  hrtime = λ call. call;
  num_workers = 4;
}

abbrev session : MachSession env
session = record {
  client_fd = pos 5;
  arena = session_arena env;
  audio_engine = record { channels = pos 0; sample_rate = pos 0 };
  transcode_session = zeroed silent;
  write_pool = replicate max_concurrent_writes false;
  arena_curr_start = 0;
  pending_writes = 0;
  closing = false;
  recv_active = true;
  in_flight = [];
  sent = [];
  mallocs = 0;
  clock_reads = 0;
}

abbrev client : Connection env
client = record { session = session; assemble_buf = [] }

-- A CMD_PING, then a CMD_DISCOVER of which the last byte is still to come.
abbrev ping : Message
ping = record { command = 6; sequence_id = 7; payload = [] }

abbrev ping_bytes : List ℕ
ping_bytes = 0x4D ∷ 0x41 ∷ 0x43 ∷ 0x48 ∷ 0 ∷ 1 ∷ 0 ∷ 6 ∷ 0 ∷ 0 ∷ 0 ∷ 7 ∷ 0 ∷ 0 ∷ 0 ∷ 0 ∷ []

abbrev cut_bytes : List ℕ
cut_bytes = 0x4D ∷ 0x41 ∷ 0x43 ∷ 0x48 ∷ 0 ∷ 1 ∷ 0 ∷ 8 ∷ 0 ∷ 0 ∷ 0 ∷ 8 ∷ 0 ∷ 0 ∷ 0 ∷ []

drain_all-leaves_example : (length cut_bytes ≤ length cut_bytes) × IsDrained env session cut_bytes
unfolding drain front
drain_all-leaves_example = drain_all-leaves env session session cut_bytes cut_bytes refl

read_all-concat_example :
    read_all env client (ping_bytes ∷ cut_bytes ∷ (0 ∷ []) ∷ [])
    ≡ process_client_read env client (concat env (ping_bytes ∷ cut_bytes ∷ (0 ∷ []) ∷ []))
read_all-concat_example =
    read_all-concat env client ping_bytes (cut_bytes ∷ (0 ∷ []) ∷ []) (omega arith)

ping-AreMessages : AreMessages (ping ∷ ping ∷ [])
ping-AreMessages = omega arith

drain_all-wire_example :
    drain_all env session (wire true (ping ∷ ping ∷ []) ++ cut_bytes)
    ≡ with_rest env cut_bytes (serve env session (ping ∷ ping ∷ []))
unfolding front
drain_all-wire_example =
    drain_all-wire env session (ping ∷ ping ∷ []) cut_bytes ping-AreMessages refl

-- Two CMD_PING messages, of which the first read gives one and a part of the other.
abbrev two_reads : List (List ℕ)
two_reads = (ping_bytes ++ take 4 ping_bytes) ∷ drop 4 ping_bytes ∷ []

read_all-wire_example :
    read_all env client two_reads ≡ drained env (serve env client.session (ping ∷ ping ∷ []))
unfolding front store_header store_u32 store_u16 encoded_header ntohl ntohs
read_all-wire_example =
    read_all-wire env client two_reads (ping ∷ ping ∷ []) ping-AreMessages (omega arith)
      (omega arith) (omega arith) refl refl

-- The client goes away: the receive ends with 0 bytes.
abbrev gone : Connection env
gone = record client {
  session = record session { client_fd = closed_fd; recv_active = false; closing = true };
}

gone-IsReachable : IsReachable env (pos 5) (freed gone)
unfolding accept on_read cleanup_session_if_needed
gone-IsReachable =
    stepped (live client) (freed gone) (accepted client refl)
      (read client (pos 0) false none (freed gone) refl refl)

reachable-IsSafe_example : IsSafe env (pos 5) (freed gone)
reachable-IsSafe_example = reachable-IsSafe env (pos 5) (freed gone) gone-IsReachable

-- Every call succeeds, at the descriptors 3 and 4; the polling thread is refused as invalid.
abbrev calls : Calls
calls = record {
  socket = pos 3;
  set_reuseaddr = pos 0;
  set_nodelay = pos 0;
  inet_pton = pos 1;
  bind = pos 0;
  chmod = pos 0;
  queue_init = λ polling cpu. if polling then negsuc 21 else pos 0;
  calloc_context = true;
  memalign_buffers = true;
  memalign_ring = true;
  register_buf_ring = pos 0;
  sigprocmask = pos 0;
  signalfd = pos 4;
}

abbrev socket_path : Option (List ℕ)
socket_path = some (b'/' ∷ b's' ∷ [])

shut_down-server_init_example :
    let r = server_init calls socket_path none (pos 0) 4 (negsuc 0) in
    shut_down r.server (with_sessions (pos 9 ∷ []) r.world)
    ≡ (with_sessions (pos 9 ∷ []) nothing_held, socket_path)
unfolding server_init set_up_queue uds_socket cleared_server init_registered_buffer_ring
    queue_result
shut_down-server_init_example =
    shut_down-server_init calls socket_path none (pos 0) 4 (negsuc 0) (pos 9 ∷ []) refl

abbrev no_signals : Calls
no_signals = record calls { signalfd = negsuc 0 }
