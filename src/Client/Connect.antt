-- ===== src/Client/Connect.antt =====
-- `on_connect`, `on_discover_connect` and `on_discover_read` of client/main.c: the first messages
-- of a connection, and the discovery that asks the server for its number of workers.
pub mod Session
pub mod Served
pub mod Discovery
use mach_audio.Prelude.{
  ltb, leb, if◌then◌else◌, length, ℤ, pos, negsuc, ◌+ℤ◌, u32, u64, store_u16, store_u32, ntohs,
  ntohl, ℕ, zero, suc, ◌+◌, ◌-◌, ◌*◌, ◌/◌, ◌%◌, ◌^◌, Bool, true, false, ◌&&◌, Option, none, some,
  List, [], ◌∷◌, ◌++◌, ◌==◌,
}
use mach_audio.Client.{ClientConfig, ClientConnection, Received, bytes, failed}
use mach_audio.Client.Send.{client_message}
use mach_audio.Protocol.{
  AudioCommand, command_code, discover_reply_payload_size, header_size, start_payload_size,
}
use mach_audio.Protocol.Bytes.{load_header, word32_at}
use mach_audio.Protocol.Header.{decoded_header}
use mach_audio.Server.Dispatch.{int_of_u32}
use mach_audio.Transcode.{flags_vad_enabled}

-- `struct audio_start_payload` as the client fills it.
unfoldable pub start_payload : Bool → ClientConfig → List ℕ
start_payload le config =
    config.format
    ∷ config.channels
    ∷ (store_u16 le (ntohs le (if config.vad_enabled then flags_vad_enabled else 0))
        ++ (store_u32 le (ntohl le config.rate)
            ++ (config.in_endian
                ∷ config.out_format
                ∷ config.out_channels
                ∷ config.out_endian
                ∷ store_u32 le (ntohl le config.out_rate))))

-- A refused connection is only logged; an established one announces its session and arms the
-- timer.
unfoldable pub on_connect : Bool → ClientConfig → ℤ → ClientConnection → ClientConnection
unfolding client_message start_payload
on_connect le config (negsuc status) conn = conn
on_connect le config (pos status) conn = record conn {
  sequence_id = u32 (conn.sequence_id + 1);
  timer_active = true;
  written =
      conn.written
      ++ client_message le AudioCommand.start conn.sequence_id start_payload_size
          (start_payload le config);
}

-- The discovery: the number of workers once it is known, whether the answer came, whether the
-- connection is being closed, and what was written.
pub record DiscoveryClient : Type 0 where
  pub num_workers : ℕ
  pub completed : Bool
  pub closing : Bool
  pub written : List ℕ

unfoldable pub on_discover_connect : Bool → ℤ → DiscoveryClient → DiscoveryClient
unfolding client_message
on_discover_connect le (negsuc status) dc = record dc { closing = true }
on_discover_connect le (pos status) dc = record dc {
  written = dc.written ++ client_message le AudioCommand.discover 0 0 [];
}

-- The answer in the bytes of one read; `none` is a read behind the received bytes, since only the
-- length field is tested against the payload.
unfoldable pub discover_reply : Bool → List ℕ → DiscoveryClient → Option DiscoveryClient
unfolding command_code
discover_reply le bs dc =
    if ltb (length bs) header_size
    then some dc
    else let header = decoded_header le (load_header le bs) in
      if (header.command == command_code AudioCommand.discover_reply)
        && leb discover_reply_payload_size header.payload_len
      then (if leb (header_size + discover_reply_payload_size) (length bs)
          then some
              (record dc { num_workers = ntohl le (word32_at le bs header_size); completed = true })
          else none)
      else some dc

unfoldable pub on_discover_read : Bool → Received → DiscoveryClient → Option DiscoveryClient
unfolding discover_reply
on_discover_read le failed dc = some (record dc { closing = true })
on_discover_read le (bytes []) dc = some dc
on_discover_read le (bytes (b ∷ bs)) dc = elim (discover_reply le (b ∷ bs) dc) [
  | none ↦ none
  | some next ↦ some (record next { closing = true })
]

-- The worker of a connection: `i % num_workers`, which is a division by zero without workers.
unfoldable pub worker_of : ℕ → ℕ → Option ℕ
worker_of zero i = none
worker_of (suc workers) i = some (i % suc workers)

-- The port that a connection to a worker uses, in an `int`.
abbrev pub worker_port : ℤ → ℕ → ℤ
worker_port port worker = port +ℤ int_of_u32 worker

-- When a connection starts, in milliseconds after the client: at once, or after its share of the
-- ramp-up.
unfoldable pub start_delay : ClientConfig → ℕ → ℕ
start_delay config i =
    if ltb 0 config.ramp_up_sec && ltb 1 config.concurrent
    then u64 (u64 (i * config.ramp_up_sec) * 1000) / config.concurrent
    else 0

-- A connection as `main` sets it up. The files are there with `write_output`, if `fopen` gave them.
unfoldable pub new_connection : ClientConfig → Bool → Bool → ℕ → ClientConnection
new_connection config audio_opened vad_opened i = record {
  id = i;
  offset = 0;
  offset_2 = 0;
  sequence_id = 0;
  timer_active = false;
  closing = false;
  written = [];
  output_file = if config.write_output && audio_opened then some [] else none;
  output_vad_file = if config.write_output && vad_opened then some [] else none;
  read_buf = [];
  read_buf_cap = 0;
  total_sent = 0;
  total_received = 0;
  min_duration_ns = 2 ^ 64 - 1;
  max_duration_ns = 0;
  sum_duration_ns = 0;
  count_received = 0;
  latencies = [];
  latencies_cap = 0;
}

-- After how many milliseconds the whole test is stopped, if ever; the product is a `uint32_t`.
unfoldable pub stop_after : ClientConfig → Option ℕ
stop_after config =
    if ltb 0 config.duration_sec then some (u32 (config.duration_sec * 1000)) else none
