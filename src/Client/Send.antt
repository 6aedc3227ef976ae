-- ===== src/Client/Send.antt =====
-- `send_input_chunk` of client/main.c: what a connection hands to `uv_write` at a tick.
-- `none` is a fault of the program: a read behind the mapped file, or a write behind the message.
-- `calloc` and `malloc` are not tested by the code, and are taken to succeed.
pub mod Layout
pub mod Arrival
pub mod Ticks
pub mod Run
pub mod Safety
pub mod Bugs
use mach_audio.Prelude.{
  ltb, leb, if◌then◌else◌, length, take, drop, replicate, u32, u64, round_down, store_u32, ntohl, ℕ,
  ◌+◌, ◌-◌, ◌*◌, ◌/◌, Bool, false, not, ◌&&◌, Option, none, some, List, [], ◌++◌, ◌==◌, replicate,
}
use mach_audio.Client.{ClientConfig, ClientConnection, Inputs}
use mach_audio.Prelude.Options.{◌>>=◌}
use mach_audio.Protocol.{
  AudioCommand, audio_magic, audio_version, buffer_header_size, command_code, input_payload_size,
}
use mach_audio.Protocol.Bytes.{store_header}
use mach_audio.Protocol.Header.{encoded_header, float_to_net}

-- 1.0f.
abbrev pub full_volume : ℕ
full_volume = 0x3F800000

-- The bytes of a message: its header, and its payload behind it.
unfoldable pub client_message : Bool → AudioCommand → ℕ → ℕ → List ℕ → List ℕ
unfolding command_code
client_message le command sequence_id payload_len payload =
    store_header le (
      encoded_header le (record {
        magic = audio_magic;
        version = audio_version;
        command = command_code command;
        sequence_id = sequence_id;
        payload_len = u32 payload_len;
      }))
    ++ payload

-- Bytes of a chunk, in a `size_t`.
unfoldable pub chunk_size : ClientConfig → ℕ
chunk_size config =
    let samples_per_ms = config.rate / 1000 in
    let bytes_per_sample = if config.format == 96 then 2 else 1 in
    u64 (samples_per_ms * config.ptime * bytes_per_sample * config.channels)

-- `(chunk_size + 3) & ~3U`: the mask has 32 bits.
unfoldable pub padded_chunk_size : ℕ → ℕ
padded_chunk_size size = round_down (u32 (size + 3)) 4

-- `memcpy(ptr, input + offset, size)` out of a mapped file.
unfoldable pub read_chunk : List ℕ → ℕ → ℕ → Option (List ℕ)
read_chunk input offset size =
    if leb (offset + size) (length input) then some (take size (drop offset input)) else none

-- A buffer of the message: its header, the chunk, and the zero bytes that `calloc` left behind it.
-- A chunk that is longer than its place would be written behind the message.
unfoldable pub buffer_bytes : Bool → ℕ → List ℕ → Option (List ℕ)
buffer_bytes le padded chunk =
    if ltb padded (length chunk)
    then none
    else some (
        store_u32 le (ntohl le (u32 (length chunk)))
        ++ (store_u32 le (float_to_net le full_volume)
            ++ (chunk ++ replicate (padded - length chunk) 0)))

abbrev pub num_buffers : Option (List ℕ) → ℕ
num_buffers none = 1
num_buffers (some input) = 2

-- The second buffer, and the offset in its file after it.
unfoldable pub second_buffer : Bool → Option (List ℕ) → ℕ → ℕ → Option (List ℕ × ℕ × ℕ)
unfolding read_chunk buffer_bytes padded_chunk_size
second_buffer le none offset size = some ([], offset, 0)
second_buffer le (some input) offset size = do
  chunk ← read_chunk input offset size
  bytes ← buffer_bytes le (padded_chunk_size size) chunk
  some (bytes, offset + size, size)

-- The chunk at the offsets of the connection: the part of `send_input_chunk` behind its tests.
unfoldable pub write_chunk : Bool → Inputs → ℕ → ClientConnection → Option ClientConnection
unfolding second_buffer client_message read_chunk buffer_bytes padded_chunk_size
write_chunk le inputs size conn = do
  chunk ← read_chunk inputs.input_data conn.offset size
  first ← buffer_bytes le (padded_chunk_size size) chunk
  (second, offset_2, more) ← second_buffer le inputs.input_data_2 conn.offset_2 size
  let count = num_buffers inputs.input_data_2
  let payload_len = input_payload_size + count * (buffer_header_size + padded_chunk_size size)
  let payload = store_u32 le (ntohl le count) ++ (store_u32 le 0 ++ (first ++ second))
  some (record conn {
    offset = conn.offset + size;
    offset_2 = offset_2;
    sequence_id = u32 (conn.sequence_id + 1);
    total_sent = u64 (conn.total_sent + size + more);
    written =
        conn.written ++ client_message le AudioCommand.input conn.sequence_id payload_len payload;
  })

-- Whether a chunk at an offset goes beyond a file.
abbrev pub runs_out : ℕ → ℕ → List ℕ → Bool
runs_out offset size input = ltb (length input) (offset + size)

abbrev pub runs_out_2 : ℕ → ℕ → Option (List ℕ) → Bool
runs_out_2 offset size none = false
runs_out_2 offset size (some input) = runs_out offset size input

-- `uv_timer_stop`.
abbrev pub stopped : ClientConnection → ClientConnection
stopped conn = record conn { timer_active = false }

-- A call of the timer's callback. At the end of a file it starts again with `loop`, and stops the
-- timer without.
unfoldable pub send_input_chunk :
    Bool → ClientConfig → Inputs → ClientConnection → Option ClientConnection
unfolding write_chunk chunk_size second_buffer client_message read_chunk buffer_bytes
    padded_chunk_size
send_input_chunk le config inputs conn =
    let size = chunk_size config in
    let over = runs_out conn.offset size inputs.input_data in
    let over_2 = runs_out_2 conn.offset_2 size inputs.input_data_2 in
    if over && not config.loop
    then some (stopped conn)
    else let conn' = if over then record conn { offset = 0 } else conn in
      if over_2 && not config.loop
      then some (stopped conn')
      else write_chunk le inputs size (if over_2 then record conn' { offset_2 = 0 } else conn')
