-- ===== src/Client/Send/Layout.antt =====
-- The layout of the messages that `send_input_chunk` writes, against the container of
-- docs/protocol.md.
use mach_audio.Prelude.{
  ltb, le→ltb, length, take, drop, replicate, length-append, length-take, length-drop, u32, u64,
  store_u32, ntohl, ℕ, ◌+◌, ◌-◌, ◌*◌, ◌^◌, ◌≤◌, ◌<◌, ◌≡◌, refl, sym, ap, ◌∙◌, Bool, true, false,
  Option, none, some, List, [], ◌∷◌, ◌++◌, append-nil, arith, subst, le→leb,
}
use mach_audio.Client.{ClientConnection, Inputs}
use mach_audio.Client.Send.{
  buffer_bytes, client_message, full_volume, num_buffers, padded_chunk_size, read_chunk,
  second_buffer, write_chunk,
}
use mach_audio.Protocol.{AudioCommand, buffer_header_size, input_payload_size}
use mach_audio.Protocol.Container.{
  Buffer, be32_bytes, encode_buffer, encode_buffers, length-encode_buffer, padding,
}
use mach_audio.Protocol.Header.{float_to_net}
use mach_audio.Server.Messages.{Message, header_bytes, wire}

pub store-ntohl : (le : Bool) (x : ℕ) → x < 2 ^ 32 → store_u32 le (ntohl le x) ≡ be32_bytes x
unfolding store_u32 ntohl
store-ntohl true x h = ground arith
store-ntohl false x h = refl

pub store_zero : (le : Bool) → store_u32 le 0 ≡ be32_bytes 0
unfolding store_u32
store_zero true = refl
store_zero false = refl

-- The chunk at an offset, at full volume.
abbrev pub chunk_buffer : List ℕ → ℕ → ℕ → Buffer
chunk_buffer input offset size = record {
  samples = take size (drop offset input);
  volume = full_volume;
}

-- The buffers of the next message.
abbrev pub second_buffers : Option (List ℕ) → ℕ → ℕ → List Buffer
second_buffers none size offset = []
second_buffers (some input) size offset = chunk_buffer input offset size ∷ []

abbrev pub next_buffers : Inputs → ℕ → ℕ → ℕ → List Buffer
next_buffers inputs size offset offset_2 =
    chunk_buffer inputs.input_data offset size ∷ second_buffers inputs.input_data_2 size offset_2

-- The payload: the number of buffers, a reserved word, and the buffers.
abbrev pub container : List Buffer → List ℕ
container bs = (be32_bytes (length bs) ++ be32_bytes 0) ++ encode_buffers bs

abbrev pub input_message : ℕ → List Buffer → Message
input_message sequence_id bs = record {
  command = 2;
  sequence_id = sequence_id;
  payload = container bs;
}

pub length-chunk :
    (input : List ℕ) (offset size : ℕ)
    → offset + size ≤ length input
    → length (take size (drop offset input)) ≡ size
length-chunk input offset size h =
    omega (arith, length-take size (drop offset input), length-drop offset input)

padding_lem : (size : ℕ) → size ≤ 2 ^ 29 → padded_chunk_size size ≡ size + padding size
unfolding padded_chunk_size
padding_lem size h = omega arith

pub buffer_bytes-encode :
    (le : Bool) (b : Buffer)
    → b.volume ≡ full_volume
    → length b.samples ≤ 2 ^ 29
    → buffer_bytes le (padded_chunk_size (length b.samples)) b.samples ≡ some (encode_buffer b)
unfolding buffer_bytes encode_buffer float_to_net
buffer_bytes-encode le b v h =
    let n = length b.samples in
    let room : ltb (padded_chunk_size n) n ≡ false =
      le→ltb (padded_chunk_size n) n (omega (arith, padding_lem n h)) in
    let filled : padded_chunk_size n - n ≡ padding n = omega (arith, padding_lem n h) in
    let same : u32 n ≡ n = omega arith in
    let words = store-ntohl le n (omega arith) in
    let volume = store-ntohl le full_volume (omega arith) in
    rw (room, buffer_bytes)
      (λ i. some (
        (ap (λ k. store_u32 le (ntohl le k)) same ∙ words) i
        ++ ((volume ∙ ap be32_bytes (sym v)) i ++ (b.samples ++ replicate (filled i) 0))))

-- The second file has a chunk left at an offset.
abbrev pub HasChunk : ℕ → ℕ → Option (List ℕ) → Type 0
HasChunk size offset none = Unit {0}
HasChunk size offset (some input) = offset + size ≤ length input

-- The offset of the second file behind a message, and the bytes that the file adds to it.
abbrev pub after_2 : ℕ → ℕ → Option (List ℕ) → ℕ
after_2 size offset none = offset
after_2 size offset (some input) = offset + size

abbrev pub more_2 : ℕ → Option (List ℕ) → ℕ
more_2 size none = 0
more_2 size (some input) = size

abbrev second_bytes : ℕ → ℕ → Option (List ℕ) → List ℕ
second_bytes size offset none = []
second_bytes size offset (some input) = encode_buffer (chunk_buffer input offset size)

-- The buffers of the connection's next message, and the connection behind it.
abbrev pub buffers : Inputs → ℕ → ClientConnection → List Buffer
buffers inputs size conn = next_buffers inputs size conn.offset conn.offset_2

abbrev pub with_message : Bool → Inputs → ℕ → ClientConnection → ClientConnection
with_message le inputs size conn = record conn {
  offset = conn.offset + size;
  offset_2 = after_2 size conn.offset_2 inputs.input_data_2;
  sequence_id = u32 (conn.sequence_id + 1);
  total_sent = u64 (conn.total_sent + size + more_2 size inputs.input_data_2);
  written =
      conn.written ++ wire le (input_message conn.sequence_id (buffers inputs size conn) ∷ []);
}

module _ (le : Bool) (inputs : Inputs) (size : ℕ) (conn : ClientConnection)
    (small : size ≤ 2 ^ 29) where
  read_lem :
      (input : List ℕ) (offset : ℕ)
      → offset + size ≤ length input
      → read_chunk input offset size ≡ some (take size (drop offset input))
  unfolding read_chunk
  read_lem input offset h = rw (le→leb (offset + size) (length input) h)

  chunk_bytes :
      (input : List ℕ) (offset : ℕ)
      → offset + size ≤ length input
      → buffer_bytes le (padded_chunk_size size) (take size (drop offset input))
        ≡ some (encode_buffer (chunk_buffer input offset size))
  chunk_bytes input offset h =
      let n = length-chunk input offset size h in
      subst
        (λ k.
          buffer_bytes le (padded_chunk_size k) (take size (drop offset input))
          ≡ some (encode_buffer (chunk_buffer input offset size)))
        n (buffer_bytes-encode le (chunk_buffer input offset size) refl (omega (arith, n)))

  second_lem :
      (input_2 : Option (List ℕ))
      → HasChunk size conn.offset_2 input_2
      → second_buffer le input_2 conn.offset_2 size
        ≡ some (
          second_bytes size conn.offset_2 input_2,
          after_2 size conn.offset_2 input_2,
          more_2 size input_2,
        )
  unfolding second_buffer
  second_lem none h = refl
  second_lem (some input) h =
      rw (read_lem input conn.offset_2 h) (rw (chunk_bytes input conn.offset_2 h))

  sizes :
      (input : List ℕ) (offset : ℕ)
      → offset + size ≤ length input
      → length (encode_buffer (chunk_buffer input offset size))
        ≡ buffer_header_size + padded_chunk_size size
  sizes input offset h =
      let n = length-chunk input offset size h in
      length-encode_buffer (chunk_buffer input offset size)
      ∙ ap (λ k. 8 + k + padding k) n
      ∙ omega (arith, padding_lem size small)

  payload_lem :
      (input_2 : Option (List ℕ))
      → HasChunk size conn.offset_2 input_2
      → conn.offset + size ≤ length inputs.input_data
      → u32
          (input_payload_size + num_buffers input_2 * (buffer_header_size + padded_chunk_size size))
        ≡ length (
            container (
              chunk_buffer inputs.input_data conn.offset size
              ∷ second_buffers input_2 size conn.offset_2))
  unfolding encode_buffers
  payload_lem none h k =
      let first = chunk_buffer inputs.input_data conn.offset size in
      omega (
        arith,
        sizes inputs.input_data conn.offset k,
        padding_lem size small,
        length-append (encode_buffer first) [],
      )
  payload_lem (some input) h k =
      let first = chunk_buffer inputs.input_data conn.offset size in
      let second = chunk_buffer input conn.offset_2 size in
      omega (
        arith,
        sizes inputs.input_data conn.offset k,
        sizes input conn.offset_2 h,
        padding_lem size small,
        length-append (encode_buffer first) (encode_buffer second ++ []),
        length-append (encode_buffer second) [],
      )

  content_lem :
      (input_2 : Option (List ℕ))
      → store_u32 le (ntohl le (num_buffers input_2))
          ++ (store_u32 le 0
              ++ (encode_buffer (chunk_buffer inputs.input_data conn.offset size)
                  ++ second_bytes size conn.offset_2 input_2))
        ≡ container (
            chunk_buffer inputs.input_data conn.offset size
            ∷ second_buffers input_2 size conn.offset_2)
          ++ []
  unfolding encode_buffers
  content_lem none = rw (store-ntohl le 1 (omega arith), store_zero le) (simp append-nil)
  content_lem (some input) = rw (store-ntohl le 2 (omega arith), store_zero le) (simp append-nil)

  message_lem :
      HasChunk size conn.offset_2 inputs.input_data_2
      → conn.offset + size ≤ length inputs.input_data
      → client_message le AudioCommand.input conn.sequence_id
          (input_payload_size
            + num_buffers inputs.input_data_2 * (buffer_header_size + padded_chunk_size size))
          (store_u32 le (ntohl le (num_buffers inputs.input_data_2))
            ++ (store_u32 le 0
                ++ (encode_buffer (chunk_buffer inputs.input_data conn.offset size)
                    ++ second_bytes size conn.offset_2 inputs.input_data_2)))
        ≡ wire le (input_message conn.sequence_id (buffers inputs size conn) ∷ [])
  unfolding client_message
  message_lem h k = rw (payload_lem inputs.input_data_2 h k) (
      ap (λ r. header_bytes le (input_message conn.sequence_id (buffers inputs size conn)) ++ r)
        (content_lem inputs.input_data_2))

  -- If the files have a chunk of at most 2 ^ 29 bytes left at the connection's offsets, the call
  -- writes one message, whose container holds these chunks.
  pub write_chunk_lem :
      HasChunk size conn.offset_2 inputs.input_data_2
      → conn.offset + size ≤ length inputs.input_data
      → write_chunk le inputs size conn ≡ some (with_message le inputs size conn)
  unfolding write_chunk
  write_chunk_lem h k = rw (read_lem inputs.input_data conn.offset k) (
      rw (chunk_bytes inputs.input_data conn.offset k) (
        rw (second_lem inputs.input_data_2 h) (
          ap (λ r. some (record (with_message le inputs size conn) { written = conn.written ++ r }))
            (message_lem h k))))

  pub container_small :
      HasChunk size conn.offset_2 inputs.input_data_2
      → conn.offset + size ≤ length inputs.input_data
      → length (container (buffers inputs size conn)) < 2 ^ 31
  container_small h k = bounded inputs.input_data_2 (payload_lem inputs.input_data_2 h k)
    where
      bounded :
          (input_2 : Option (List ℕ))
          → u32 (
              input_payload_size
              + num_buffers input_2 * (buffer_header_size + padded_chunk_size size))
            ≡ length (container (buffers inputs size conn))
          → length (container (buffers inputs size conn)) < 2 ^ 31
      bounded none e = omega (arith, padding_lem size small)
      bounded (some input) e = omega (arith, padding_lem size small)

  pub container_short :
      size ≤ 8000
      → HasChunk size conn.offset_2 inputs.input_data_2
      → conn.offset + size ≤ length inputs.input_data
      → length (container (buffers inputs size conn)) ≤ 16100
  container_short few h k = bounded inputs.input_data_2 (payload_lem inputs.input_data_2 h k)
    where
      bounded :
          (input_2 : Option (List ℕ))
          → u32 (
              input_payload_size
              + num_buffers input_2 * (buffer_header_size + padded_chunk_size size))
            ≡ length (container (buffers inputs size conn))
          → length (container (buffers inputs size conn)) ≤ 16100
      bounded none e = omega (arith, padding_lem size small)
      bounded (some input) e = omega (arith, padding_lem size small)
