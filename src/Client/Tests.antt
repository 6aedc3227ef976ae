-- ===== src/Client/Tests.antt =====
-- The client's theorems at a concrete configuration, small files and a big-endian server.
use mach_audio.Prelude.{
  take, drop, replicate, pos, host_u16, host_u32, store_u16, store_u32, ntohs, ntohl, ℕ, ◌*◌, ◌≡◌,
  refl, inl, true, false, none, some, List, [], ◌∷◌, ◌++◌, arith,
}
use mach_audio.Client.{ClientConfig, ClientConnection, Inputs, bytes}
use mach_audio.Client.Args.{ClientOption, default_uds_name, initial, parse_args}
use mach_audio.Client.Args.Laws.{IsUsable, parse_args-IsUsable}
use mach_audio.Client.Connect.{DiscoveryClient, on_connect, on_discover_read, start_payload}
use mach_audio.Client.Connect.Discovery.{on_discover_read-handle_discover}
use mach_audio.Client.Connect.Served.{run_messages, session-served}
use mach_audio.Client.Connect.Session.{IsConfigured, session_init-start_payload}
use mach_audio.Client.Read.{consume, count_output, on_read, record_latency, save_output}
use mach_audio.Client.Read.Account.{Accounts, recorded_all-Accounts}
use mach_audio.Client.Read.Answer.{answer, consume-message}
use mach_audio.Client.Read.Frames.{consume_all}
use mach_audio.Client.Read.Outputs.{Output, recorded}
use mach_audio.Client.Read.Reads.{plain, reads_cut}
use mach_audio.Client.Read.Recorded.{recorded_all}
use mach_audio.Client.Send.{chunk_size}
use mach_audio.Client.Send.Bugs.{ticks_slow}
use mach_audio.Client.Send.Run.{chunk_list, first_stream, numbered, send_all}
use mach_audio.Client.Send.Safety.{InFiles, ticks_safe}
use mach_audio.Client.Send.Ticks.{ticks}
use mach_audio.Client.Stats.{Summary, no_summary, summary, total_latency_pool, uint64_max}
use mach_audio.Client.Stats.Totals.{AddsUp, summary-AddsUp}
use mach_audio.Protocol.{AudioCommand, AudioMsgHeader, audio_magic, audio_version}
use mach_audio.Protocol.Bytes.{load_header, load_start, store_header}
use mach_audio.Protocol.Container.{encode_buffer, encode_buffers}
use mach_audio.Protocol.Header.{decoded_header}
use mach_audio.Server.{Env, MachSession, WriteResponse, max_concurrent_writes}
use mach_audio.Server.Chunks.{concat, read_all}
use mach_audio.Server.Dispatch.{handle_discover, output_payload}
use mach_audio.Server.Events.{session_arena}
use mach_audio.Server.Messages.{serve, wire}
use mach_audio.Server.Reads.{drained}
use mach_audio.Server.Reply.{first_free, message}
use mach_audio.Simd.Lanes.{lanes}
use mach_audio.Transcode.{session_init, zeroed}
use mach_audio.Transcode.Silent.{silent}

abbrev env : Env
env = record {
  host_le = false;
  avx = lanes;
  dsp = silent;
  arena_base = 4096;
  malloc_ok = λ call. true;
  hrtime = λ call. call;
  num_workers = 3;
}

abbrev session : MachSession env
session = record {
  client_fd = pos 5;
  arena = session_arena env;
  audio_engine = record { channels = pos 0; sample_rate = pos 0 };
  transcode_session = zeroed silent;
  write_pool = replicate max_concurrent_writes false;
  arena_curr_start = 0;
  pending_writes = 0;
  closing = false;
  recv_active = true;
  in_flight = [];
  sent = [];
  mallocs = 0;
  clock_reads = 0;
}

-- Chunks of two bytes: 1000 Hz, 2 ms, u-law.
abbrev config : ClientConfig
config = record initial { rate = 1000; ptime = 2; input_file = some "in.raw" }

abbrev looping : ClientConfig
looping = record config { loop = true }

abbrev conn : ClientConnection
conn = record {
  id = 0;
  offset = 0;
  offset_2 = 0;
  sequence_id = 0;
  timer_active = true;
  closing = false;
  written = [];
  output_file = some [];
  output_vad_file = none;
  read_buf = [];
  read_buf_cap = 0;
  total_sent = 0;
  total_received = 0;
  min_duration_ns = uint64_max;
  max_duration_ns = 0;
  sum_duration_ns = 0;
  count_received = 0;
  latencies = [];
  latencies_cap = 0;
}

-- Two files of five and of four bytes: two chunks each.
abbrev inputs : Inputs
inputs = record { input_data = 1 ∷ 2 ∷ 3 ∷ 4 ∷ 5 ∷ []; input_data_2 = some (6 ∷ 7 ∷ 8 ∷ 9 ∷ []) }

abbrev one_file : Inputs
one_file = record { input_data = 1 ∷ 2 ∷ 3 ∷ []; input_data_2 = none }

-- What a run of two chunks writes, in reads of 20 bytes and of the rest.
abbrev reads_of_run : List (List ℕ)
reads_of_run =
    let bytes = wire true (run_messages true config inputs 2 conn) in
    take 20 bytes ∷ drop 20 bytes ∷ []

session-served_example :
    (r : ClientConnection) × (ticks true config inputs 3 (on_connect true config (pos 0) conn)
      ≡ some r)
    × (r.timer_active ≡ false)
    × (r.written ≡ concat env reads_of_run)
    × (read_all env (record { session = session; assemble_buf = [] }) reads_of_run
        ≡ drained env (serve env session (run_messages true config inputs 2 conn)))
unfolding chunk_size store_header store_u32 store_u16 encode_buffers encode_buffer start_payload
session-served_example =
    session-served true env session config inputs 2 0 conn reads_of_run refl (omega arith) refl
      (omega arith) (omega arith) (omega arith) (inl (omega arith)) (omega arith, (omega arith, tt))
      refl

send_all_example :
    (r : ClientConnection) × (ticks true config inputs 3 conn ≡ some r)
    × (r.timer_active ≡ false)
    × (r.written ≡ [] ++ wire true (numbered 0 (chunk_list inputs (chunk_size config) 2 0 0)))
    × (first_stream (chunk_list inputs (chunk_size config) 2 0 0)
        ≡ take (2 * chunk_size config) (1 ∷ 2 ∷ 3 ∷ 4 ∷ 5 ∷ []))
unfolding chunk_size
send_all_example =
    send_all true config inputs refl (omega arith) 2 conn refl (omega arith) (omega arith)
      (inl (omega arith))

ticks_safe_example :
    (r : ClientConnection) × (ticks true looping inputs 9 conn ≡ some r) × InFiles inputs r
unfolding chunk_size
ticks_safe_example =
    ticks_safe true looping inputs (omega arith) (omega arith) 9 conn
      (record { first = omega arith; second = omega arith })

abbrev slow : ClientConfig
slow = record config { rate = 800 }

ticks_slow_example :
    (r : ClientConnection) × (ticks true slow one_file 1000 conn ≡ some r)
    × (r.timer_active ≡ true)
    × (r.offset ≡ 0)
ticks_slow_example = ticks_slow true slow one_file 1000 conn (omega arith) refl refl (omega arith)

session_init-start_payload_example :
    IsConfigured false config
      (session_init silent false (load_start false (start_payload true config))).1
session_init-start_payload_example =
    session_init-start_payload silent true false config
      (record { rate_fits = omega arith; out_rate_fits = omega arith })

abbrev asked : DiscoveryClient
asked = record { num_workers = 0; completed = false; closing = false; written = [] }

abbrev discover_header : AudioMsgHeader
discover_header = record {
  magic = audio_magic;
  version = audio_version;
  command = 8;
  sequence_id = 0;
  payload_len = 0;
}

on_discover_read-handle_discover_example :
    (wr : WriteResponse) × ((handle_discover env session discover_header).sent ≡ wr ∷ [])
    × (on_discover_read true (bytes (wr.bytes ++ 7 ∷ [])) asked
        ≡ some (record asked { num_workers = 3; completed = true; closing = true }))
on_discover_read-handle_discover_example =
    on_discover_read-handle_discover true env session discover_header 0 (7 ∷ []) asked refl
      (unfold first_free in refl) (omega arith) (omega arith)

abbrev reply : Output
reply = answer env session 258 (4 ∷ 5 ∷ 6 ∷ [])

consume-message_example :
    consume_all
      (λ n. true)
      true
      conn
      (message env AudioCommand.output 9 (output_payload env session 258 (4 ∷ 5 ∷ 6 ∷ [])) ++ [])
    ≡ consume_all (λ n. true) true (recorded (λ n. true) true reply conn) []
consume-message_example =
    consume-message (λ n. true) true env session 9 258 (4 ∷ 5 ∷ 6 ∷ []) [] conn
      (record { duration_fits = omega arith; vad_fits = omega arith; samples_fit = omega arith })
      (omega arith)

recorded_all-Accounts_example :
    Accounts conn
      (recorded_all (λ n. true) true ((9, reply) ∷ (10, reply) ∷ []) conn)
      ((9, reply) ∷ (10, reply) ∷ [])
recorded_all-Accounts_example =
    recorded_all-Accounts (λ n. true) true (λ n. refl) ((9, reply) ∷ (10, reply) ∷ []) conn
      (record { fits = omega arith; bounded = omega arith })
      (record { count_fits = omega arith; total_fits = omega arith; sum_fits = omega arith })
      (omega arith)

-- A CMD_PONG in two ways, the second with a byte of the next message in the first read.
abbrev pong : List ℕ
pong = 0x4D ∷ 0x41 ∷ 0x43 ∷ 0x48 ∷ 0 ∷ 1 ∷ 0 ∷ 7 ∷ 0 ∷ 0 ∷ 0 ∷ 7 ∷ 0 ∷ 0 ∷ 0 ∷ 0 ∷ []

abbrev after_pong : ℕ → ClientConnection
after_pong room = record conn { read_buf = 0x4D ∷ []; read_buf_cap = room }

reads_cut_example :
    (plain (after_pong 8192) ≡ plain (after_pong 8192))
    × ((after_pong 8192).read_buf ≡ (after_pong 8192).read_buf)
unfolding on_read consume decoded_header ntohl load_header host_u32 ntohs host_u16
reads_cut_example =
    reads_cut (λ n. true) true (λ n. refl) (pong ∷ (0x4D ∷ []) ∷ []) ((pong ++ 0x4D ∷ []) ∷ []) conn
      (after_pong 8192) (after_pong 8192) refl refl refl refl

abbrev shouted : List ClientOption
shouted = ClientOption.host "::1" ∷ ClientOption.port "8000" ∷ ClientOption.input "in.raw" ∷ []

abbrev tcp_config : ClientConfig
tcp_config = record initial {
  host = some "::1";
  port = pos 8000;
  input_file = some "in.raw";
  uds_name = some default_uds_name;
}

parse_args-IsUsable_example : IsUsable tcp_config
unfolding parse_args
parse_args-IsUsable_example = parse_args-IsUsable (λ text. pos 8000) shouted tcp_config refl

summary-AddsUp_example :
    (r : Summary) × (avg_ns : ℕ) × (p95_ns : ℕ) × (summary
        (λ xs. xs)
        true
        (recorded (λ n. true) true reply conn ∷ conn ∷ [])
      ≡ some (r, avg_ns, p95_ns))
    × AddsUp no_summary r (recorded (λ n. true) true reply conn ∷ conn ∷ [])
unfolding total_latency_pool record_latency save_output count_output
summary-AddsUp_example =
    summary-AddsUp (λ xs. xs) (λ xs. refl) true (recorded (λ n. true) true reply conn ∷ conn ∷ [])
      (omega arith)
