-- ===== src/Client/Read.antt =====
-- `on_read` of client/main.c: the messages of the server, and the statistics of a connection.
-- `none` is a fault of the program: a read behind the bytes that were received. `realloc_ok` says
-- whether `realloc` gives memory of a size.
pub mod Frames
pub mod Stream
pub mod Chunks
pub mod Reads
pub mod Outputs
pub mod Recorded
pub mod Account
pub mod Answer
pub mod Growth
use mach_audio.Prelude.{
  ltb, leb, if◌then◌else◌, length, take, drop, u64, store_u32, ℕ, zero, suc, ◌+◌, ◌-◌, ◌*◌, ◌^◌,
  Bool, true, false, not, ◌&&◌, ◌||◌, Option, none, some, List, [], ◌∷◌, ◌++◌, ◌==◌,
}
use mach_audio.Client.{ClientConnection, Received, bytes, failed}
use mach_audio.Protocol.{
  AudioCommand, AudioMsgHeader, audio_magic, command_code, header_size, output_payload_size,
}
use mach_audio.Protocol.Bytes.{load_header, word32_at}
use mach_audio.Protocol.Header.{be32_at, decoded_header, net_to_float}
use mach_audio.Resample.Sinc.{output}

-- `be64toh` of the eight bytes at an offset.
abbrev pub be64_at : List ℕ → ℕ → ℕ
be64_at bs i = be32_at bs i * 2 ^ 32 + be32_at bs (i + 4)

-- `fwrite` on a file that may not be open.
abbrev pub fwrite : List ℕ → Option (List ℕ) → Option (List ℕ)
fwrite more none = none
fwrite more (some file) = some (file ++ more)

abbrev pub is_open : Option (List ℕ) → Bool
is_open none = false
is_open (some file) = true

-- `new_cap` of the read buffer: doubled until `need` bytes fit. The fuel is `need` in `on_read`.
unfoldable pub double_until : ℕ → ℕ → ℕ → ℕ
double_until zero need cap = cap
double_until (suc fuel) need cap =
    let more = double_until fuel need (u64 (cap * 2)) in if ltb cap need then more else cap

module _ (realloc_ok : ℕ → Bool) where
  -- A latency is recorded if there is room for it; the room doubles, from 1024 places.
  unfoldable pub record_latency : ℕ → ClientConnection → ClientConnection
  record_latency duration_ns conn =
      let count = length conn.latencies in
      let new_cap = if conn.latencies_cap == 0 then 1024 else u64 (conn.latencies_cap * 2) in
      let cap =
        if leb conn.latencies_cap count && realloc_ok (u64 (new_cap * 8))
        then new_cap
        else conn.latencies_cap in
      record conn {
        latencies_cap = cap;
        latencies = if ltb count cap then conn.latencies ++ (duration_ns ∷ []) else conn.latencies;
      }

  -- The counters of an output of so many bytes of data.
  unfoldable pub count_output : ℕ → ℕ → ClientConnection → ClientConnection
  count_output duration_ns body_len conn = record conn {
    count_received = u64 (conn.count_received + 1);
    total_received = u64 (conn.total_received + body_len);
    sum_duration_ns = u64 (conn.sum_duration_ns + duration_ns);
    min_duration_ns =
        if ltb duration_ns conn.min_duration_ns then duration_ns else conn.min_duration_ns;
    max_duration_ns =
        if ltb conn.max_duration_ns duration_ns then duration_ns else conn.max_duration_ns;
  }

  -- The files behind an output.
  unfoldable pub save_output : Bool → ℕ → List ℕ → ClientConnection → ClientConnection
  save_output le vad_prob body conn = record conn {
    output_file = fwrite body conn.output_file;
    output_vad_file = fwrite (store_u32 le vad_prob) conn.output_vad_file;
  }

  -- The length of an output's data, `payload_len - sizeof`, is a `size_t` and wraps for a payload
  -- that is shorter than its structure.
  abbrev pub body_len : AudioMsgHeader → ℕ
  body_len header = u64 (header.payload_len + (2 ^ 64 - output_payload_size))

  -- Where the data stands in the message.
  abbrev pub data_at : ℕ
  data_at = 32

  -- Whether the structure, or the data that a file gets, goes beyond the received bytes.
  abbrev pub runs_short : AudioMsgHeader → List ℕ → ClientConnection → Bool
  runs_short header bs conn =
      ltb (length bs) data_at
      || (is_open conn.output_file && ltb (length bs) (data_at + body_len header))

  unfoldable pub with_output : Bool → AudioMsgHeader → List ℕ → ClientConnection → ClientConnection
  unfolding record_latency count_output save_output
  with_output le header bs conn =
      let duration_ns = be64_at bs header_size in
      let vad_prob = net_to_float le (word32_at le bs (header_size + 8)) in
      save_output le vad_prob (take (body_len header) (drop data_at bs))
        (record_latency duration_ns (count_output duration_ns (body_len header) conn))

  -- A CMD_OUTPUT at the front of the bytes.
  unfoldable pub take_output :
      Bool → AudioMsgHeader → List ℕ → ClientConnection → Option ClientConnection
  unfolding with_output
  take_output le header bs conn =
      if runs_short header bs conn then none else some (with_output le header bs conn)

  -- A message at the front; other commands are passed over.
  unfoldable pub take_message :
      Bool → AudioMsgHeader → List ℕ → ClientConnection → Option ClientConnection
  unfolding command_code take_output
  take_message le header bs conn =
      if header.command == command_code AudioCommand.output
      then take_output le header bs conn
      else some conn

  -- The loop over the bytes of the read buffer: what is left of them behind it. It ends at an
  -- incomplete message and at a foreign one.
  unfoldable pub consume : Bool → ℕ → ClientConnection → List ℕ → Option (ClientConnection × List ℕ)
  unfolding take_message
  consume le zero conn bs = some (conn, bs)
  consume le (suc fuel) conn bs =
      let header = decoded_header le (load_header le bs) in
      if ltb (length bs) header_size
        || (not (header.magic == audio_magic) || ltb (length bs) (header_size + header.payload_len))
      then some (conn, bs)
      else elim (take_message le header bs conn) [
        | none ↦ none
        | some next ↦ consume le fuel next (drop (header_size + header.payload_len) bs)
      ]

  -- The room that the read buffer gets for so many bytes.
  unfoldable pub room_for : ℕ → ClientConnection → ℕ
  unfolding double_until
  room_for need conn =
      if ltb conn.read_buf_cap need
      then double_until need need
          (if conn.read_buf_cap == 0 then 8192 else u64 (conn.read_buf_cap * 2))
      else conn.read_buf_cap

  -- The callback. Bytes that no memory was found for are dropped.
  unfoldable pub on_read : Bool → Received → ClientConnection → Option ClientConnection
  unfolding consume room_for
  on_read le failed conn = some (record conn { closing = true })
  on_read le (bytes []) conn = some conn
  on_read le (bytes (b ∷ bs)) conn =
      let need = length conn.read_buf + length (b ∷ bs) in
      if ltb conn.read_buf_cap need && not (realloc_ok (room_for need conn))
      then some conn
      else elim (consume le (suc need) (record conn { read_buf_cap = room_for need conn })
          (conn.read_buf ++ (b ∷ bs))) [
            | none ↦ none
            | some (next, rest) ↦ some (record next { read_buf = rest })
          ]
