-- ===== src/Server/Setup.antt =====
-- Starting and ending a server: `init_registered_buffer_ring`, `mach_server_init`, and the end of
-- `mach_server_start` and `mach_server_stop` of core/server.c. The answers of the system calls
-- are parameters, and the resources that the process holds are explicit. A context that is
-- allocated is `some` list of its blocks, and a path or host is its characters.
use mach_audio.Prelude.{
  if◌then◌else◌, ℤ, pos, negsuc, ltb_ℤ, ℕ, ◌≡◌, ◌⊎◌, Bool, true, false, not, ◌&&◌, ◌||◌, Option,
  none, some, List, [], ◌∷◌, ◌++◌, arith, ◌==◌,
}
use mach_audio.Server.Events.{is_positive, is_negative}

-- What the system calls answer. `inet_pton` and `bind` are for the one address that is asked;
-- `queue_init` gets whether the queue has a polling thread, and the processor that it is bound to.
pub record Calls : Type 0 where
  pub socket : ℤ
  pub set_reuseaddr : ℤ
  pub set_nodelay : ℤ
  pub inet_pton : ℤ
  pub bind : ℤ
  pub chmod : ℤ
  pub queue_init : Bool → Option ℤ → ℤ
  pub calloc_context : Bool
  pub memalign_buffers : Bool
  pub memalign_ring : Bool
  pub register_buf_ring : ℤ
  pub sigprocmask : ℤ
  pub signalfd : ℤ

-- A block of memory: those of the buffer ring, and what belongs to the client session of a
-- descriptor.
pub data Block : Type 0 where
  context buf_mem br : Block
  client : ℤ → Block

-- The descriptors that are open, whether the queue is set up, and the blocks of memory held.
pub record World : Type 0 where
  pub open_fds : List ℤ
  pub queue_up : Bool
  pub held : List Block

-- `MachServer`, with the descriptors of its two request tokens.
pub record MachServer : Type 0 where
  pub listen_fd : ℤ
  pub signal_fd : ℤ
  pub accept_req_fd : ℤ
  pub signal_req_fd : ℤ
  pub socket_path : Option (List ℕ)
  pub host : Option (List ℕ)
  pub port : ℤ
  pub is_tcp : Bool
  pub num_workers : ℕ
  pub running : Bool
  pub buf_ring : Bool

-- The return value, and what is behind the pointer after the call.
pub record Started : Type 0 where
  pub code : ℤ
  pub server : MachServer
  pub world : World

abbrev pub nothing_held : World
nothing_held = record { open_fds = []; queue_up = false; held = [] }

-- `init_registered_buffer_ring`: the blocks of the context, or `none` with all of them freed.
unfoldable pub init_registered_buffer_ring : Calls → Option (List Block)
init_registered_buffer_ring c =
    if not c.calloc_context
    then none
    else if not c.memalign_buffers || not c.memalign_ring
    then none
    else if is_negative c.register_buf_ring
    then none
    else some (Block.context ∷ Block.buf_mem ∷ Block.br ∷ [])

-- The listening socket over TCP: the descriptor, or `none` with none left open. A failure to set
-- TCP_NODELAY is only logged.
unfoldable pub tcp_socket : Calls → Option ℤ
tcp_socket c =
    if is_negative c.socket
    then none
    else if is_negative c.set_reuseaddr
    then none
    else if not (is_positive c.inet_pton)
    then none
    else if is_negative c.bind
    then none
    else some c.socket

-- The same over a Unix domain socket, which is not bound without a path.
unfoldable pub uds_socket : Calls → Option (List ℕ) → Option ℤ
uds_socket c none = if is_negative c.socket then none else some c.socket
uds_socket c (some path) =
    if is_negative c.socket
    then none
    else if is_negative c.bind
    then none
    else if is_negative c.chmod
    then none
    else some c.socket

abbrev pub is_minus_einval : ℤ → Bool
is_minus_einval (pos n) = false
is_minus_einval (negsuc n) = n == 21

abbrev pub is_minus_one : ℤ → Bool
is_minus_one (pos n) = false
is_minus_one (negsuc n) = n == 0

-- `io_uring_queue_init_params` with a polling thread, and without one where that is refused as
-- invalid.
unfoldable pub queue_result : Calls → ℤ → ℤ
queue_result c sq_thread_cpu =
    let r = c.queue_init true (if is_minus_one sq_thread_cpu then none else some sq_thread_cpu) in
    if is_minus_einval r then c.queue_init false none else r

-- The fields that are set before the first system call.
unfoldable pub cleared_server : Option (List ℕ) → Option (List ℕ) → ℤ → ℕ → MachServer
cleared_server socket_path host port num_workers = record {
  listen_fd = pos 0;
  signal_fd = pos 0;
  accept_req_fd = pos 0;
  signal_req_fd = pos 0;
  socket_path = socket_path;
  host = host;
  port = port;
  is_tcp = elim host [ none ↦ false | some h ↦ true ];
  num_workers = num_workers;
  running = false;
  buf_ring = false;
}

-- The part of `mach_server_init` behind the socket. The buffer ring is not freed where the signals
-- fail.
unfoldable pub set_up_queue : Calls → ℤ → MachServer → ℤ → Started
set_up_queue c sq_thread_cpu server fd =
    if is_negative (queue_result c sq_thread_cpu)
    then record { code = negsuc 0; server = server; world = nothing_held }
    else elim (init_registered_buffer_ring c) [
      | none ↦ record { code = negsuc 0; server = server; world = nothing_held }
      | some blocks ↦
          (let ready = record server { buf_ring = true } in
            if is_negative c.sigprocmask || is_negative c.signalfd
            then record {
              code = negsuc 0;
              server = ready;
              world = record nothing_held { held = blocks };
            }
            else record {
              code = pos 0;
              server = record ready {
                signal_fd = c.signalfd;
                accept_req_fd = ready.listen_fd;
                signal_req_fd = c.signalfd;
              };
              world = record { open_fds = c.signalfd ∷ fd ∷ []; queue_up = true; held = blocks };
            })
    ]

-- `mach_server_init` on a server that is not null.
unfoldable pub server_init : Calls → Option (List ℕ) → Option (List ℕ) → ℤ → ℕ → ℤ → Started
server_init c socket_path host port num_workers sq_thread_cpu =
    let server = cleared_server socket_path host port num_workers in
    elim (if server.is_tcp then tcp_socket c else uds_socket c socket_path) [
      | none ↦ record { code = negsuc 0; server = server; world = nothing_held }
      | some fd ↦ set_up_queue c sq_thread_cpu (record server { listen_fd = fd }) fd
    ]

unfoldable pub mach_server_stop : Option MachServer → Option MachServer
mach_server_stop none = none
mach_server_stop (some server) = some (record server { running = false })

-- `close`.
unfoldable pub close_fd : ℤ → List ℤ → List ℤ
close_fd fd [] = []
close_fd fd (x ∷ xs) = if not (ltb_ℤ x fd) && not (ltb_ℤ fd x) then xs else x ∷ close_fd fd xs

unfoldable pub is_same_block : Block → Block → Bool
is_same_block context context = true
is_same_block buf_mem buf_mem = true
is_same_block br br = true
is_same_block (client a) (client b) = not (ltb_ℤ a b) && not (ltb_ℤ b a)
is_same_block a b = false

-- `free`.
unfoldable pub free_block : Block → List Block → List Block
unfolding is_same_block
free_block b [] = []
free_block b (x ∷ xs) = if is_same_block x b then xs else x ∷ free_block b xs

abbrev with_closed : ℤ → World → World
with_closed fd w = record w { open_fds = close_fd fd w.open_fds }

abbrev with_freed : Block → World → World
with_freed b w = record w { held = free_block b w.held }

-- The end of `mach_server_start`, behind its loop: the world after, and the path that is unlinked.
unfoldable pub shut_down : MachServer → World → World × Option (List ℕ)
unfolding close_fd free_block
shut_down server w =
    let closed = with_closed server.listen_fd (with_closed server.signal_fd w) in
    let down = record closed { queue_up = false } in
    let freed =
      if server.buf_ring
      then with_freed Block.context (with_freed Block.br (with_freed Block.buf_mem down))
      else down in
    (freed, if not server.is_tcp then server.socket_path else none)

-- A server that was started (the call returned 0) listens on the descriptor of its socket, which
-- its accept request names, and its signal request names that of its signals; these two are open,
-- and nothing else, and the queue is up. One that was not started holds no descriptor and no
-- queue.
pub server_init-world :
    (c : Calls) (socket_path host : Option (List ℕ)) (port : ℤ) (num_workers : ℕ) (cpu : ℤ)
    → let r = server_init c socket_path host port num_workers cpu in
      ((r.code ≡ pos 0)
        × (r.world.open_fds ≡ r.server.signal_fd ∷ r.server.listen_fd ∷ [])
        × (r.world.queue_up ≡ true)
        × (r.server.listen_fd ≡ c.socket)
        × (r.server.accept_req_fd ≡ r.server.listen_fd)
        × (r.server.signal_req_fd ≡ r.server.signal_fd))
      ⊎ ((r.code ≡ negsuc 0) × (r.world.open_fds ≡ []) × (r.world.queue_up ≡ false))
unfolding server_init set_up_queue tcp_socket uds_socket cleared_server
server_init-world c socket_path host port num_workers cpu = ground arith

abbrev blocks_of : List ℤ → List Block
blocks_of [] = []
blocks_of (fd ∷ fds) = Block.client fd ∷ blocks_of fds

-- The sessions of these descriptors, beside what there is already.
abbrev pub with_sessions : List ℤ → World → World
with_sessions fds w = record w { open_fds = w.open_fds ++ fds; held = w.held ++ blocks_of fds }

-- A server that was started (`mach_server_init` returned 0) and shuts down, while any sessions are
-- still connected, gives back all that the initialisation took: its two descriptors, its queue and
-- the three blocks of its buffer ring. It unlinks the path of its socket exactly if it is not a TCP
-- server. The descriptors and the memory of the sessions stay: nothing at the end of the loop closes
-- or frees them.
pub shut_down-server_init :
    (c : Calls) (socket_path host : Option (List ℕ)) (port : ℤ) (num_workers : ℕ) (cpu : ℤ)
    (fds : List ℤ)
    → let r = server_init c socket_path host port num_workers cpu in
      r.code ≡ pos 0
      → shut_down r.server (with_sessions fds r.world)
        ≡ (with_sessions fds nothing_held, elim host [ none ↦ socket_path | some h ↦ none ])
unfolding server_init set_up_queue tcp_socket uds_socket cleared_server init_registered_buffer_ring
    shut_down close_fd free_block is_same_block
shut_down-server_init c socket_path none port num_workers cpu fds e = ground arith
shut_down-server_init c socket_path (some h) port num_workers cpu fds e = ground arith

-- Where the signals cannot be set up, behind the set-up of the rest, the call returns -1 and the
-- three blocks of the buffer ring stay allocated.
pub server_init_leaks :
    (c : Calls) (socket_path host : Option (List ℕ)) (port : ℤ) (num_workers : ℕ) (cpu : ℤ)
    → is_negative c.socket ≡ false
    → is_negative c.set_reuseaddr ≡ false
    → is_positive c.inet_pton ≡ true
    → is_negative c.bind ≡ false
    → is_negative c.chmod ≡ false
    → is_negative (queue_result c cpu) ≡ false
    → c.calloc_context ≡ true
    → c.memalign_buffers ≡ true
    → c.memalign_ring ≡ true
    → is_negative c.register_buf_ring ≡ false
    → is_negative c.signalfd ≡ true
    → let r = server_init c socket_path host port num_workers cpu in
      (r.code ≡ negsuc 0) × (r.world.held ≡ Block.context ∷ Block.buf_mem ∷ Block.br ∷ [])
unfolding server_init set_up_queue tcp_socket uds_socket cleared_server init_registered_buffer_ring
server_init_leaks c socket_path host port num_workers cpu h1 h2 h3 h4 h5 h6 h7 h8 h9 ha hb =
    ground arith
