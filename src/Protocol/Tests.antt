-- ===== src/Protocol/Tests.antt =====
-- The protocol's theorems at concrete messages, and runs.
use mach_audio.Prelude.{
  length, host_u16, host_u32, ntohs, ntohl, ℕ, ◌<◌, ◌≡◌, refl, true, some, List, [], ◌∷◌, ◌++◌,
  arith,
}
use mach_audio.Protocol.{AudioMsgHeader, AudioBufferHeader, audio_magic}
use mach_audio.Protocol.Bytes.{load_header, word32_at}
use mach_audio.Protocol.Header.{decoded_header, IsHeader, validate_header}
use mach_audio.Protocol.Parse.{
  IsInside, parse_next_buffer, parse_next_buffer-IsInside, parse_next_buffer_wraps,
}
use mach_audio.Protocol.Container.{
  Buffer, encode_buffer, encode_buffers, parse_all, parse_all-encode_buffers,
}

-- A CMD_PING with sequence number 7.
abbrev ping_bytes : List ℕ
ping_bytes = 0x4D ∷ 0x41 ∷ 0x43 ∷ 0x48 ∷ 0 ∷ 1 ∷ 0 ∷ 6 ∷ 0 ∷ 0 ∷ 0 ∷ 7 ∷ 0 ∷ 0 ∷ 0 ∷ 0 ∷ []

abbrev ping : AudioMsgHeader
ping = record { magic = audio_magic; version = 1; command = 6; sequence_id = 7; payload_len = 0 }

ping_decodes :
    (decoded_header true (load_header true ping_bytes) ≡ ping)
    × (validate_header (some ping) ≡ true)
unfolding decoded_header load_header ntohl ntohs host_u16 host_u32 validate_header
ping_decodes = (refl, refl)

ping-IsHeader : IsHeader ping
ping-IsHeader = omega arith

-- Two buffers of 3 and of 4 bytes; the first is padded to 4.
abbrev two_buffers : List Buffer
two_buffers =
    record { samples = 1 ∷ 2 ∷ 3 ∷ []; volume = 0x3F800000 }
    ∷ record { samples = 9 ∷ 8 ∷ 7 ∷ 6 ∷ []; volume = 0 }
    ∷ []

abbrev container_head : List ℕ
container_head = 0 ∷ 0 ∷ 0 ∷ 2 ∷ 0 ∷ 0 ∷ 0 ∷ 0 ∷ []

abbrev no_header : AudioBufferHeader
no_header = record { length = 0; volume = 0 }

parse_all-encode_buffers_example :
    parse_all true
      (container_head ++ (encode_buffers two_buffers ++ []))
      (length (container_head ++ (encode_buffers two_buffers ++ [])))
      2
      8
      no_header
    ≡ two_buffers
unfolding encode_buffers encode_buffer
parse_all-encode_buffers_example =
    parse_all-encode_buffers true container_head [] two_buffers no_header (omega arith)
      (omega arith) (omega arith)

-- A 12-byte payload whose buffer announces 2 ^ 32 - 16 bytes.
abbrev overlong : List ℕ
overlong = 0 ∷ 0 ∷ 0 ∷ 1 ∷ 0 ∷ 0 ∷ 0 ∷ 0 ∷ 0xFF ∷ 0xFF ∷ 0xFF ∷ 0xF0 ∷ 0 ∷ 0 ∷ 0 ∷ 0 ∷ []

parse_next_buffer_wraps_example :
    let r = parse_next_buffer true overlong 16 8 no_header in
    (r.data_ptr ≡ some 16)
    × (r.out_header.length ≡ ntohl true (word32_at true overlong 8))
    × (16 < ntohl true (word32_at true overlong 8))
unfolding ntohl host_u32
parse_next_buffer_wraps_example =
    parse_next_buffer_wraps true overlong 16 8 no_header (omega arith) (omega arith) (omega arith)
      (omega arith)

-- The first buffer of the container above.
abbrev first_buffer : List ℕ
first_buffer =
    0 ∷ 0 ∷ 0 ∷ 2 ∷ 0 ∷ 0 ∷ 0 ∷ 0 ∷ 0 ∷ 0 ∷ 0 ∷ 3 ∷ 0x3F ∷ 0x80 ∷ 0 ∷ 0 ∷ 1 ∷ 2 ∷ 3 ∷ 0 ∷ []

parse_next_buffer-IsInside_example :
    IsInside 20 8 16 (parse_next_buffer true first_buffer 20 8 no_header)
unfolding parse_next_buffer ntohl host_u32
parse_next_buffer-IsInside_example =
    parse_next_buffer-IsInside true first_buffer 20 8 16 no_header (omega arith) (omega arith) refl
      (omega arith)
