-- ===== src/Protocol/Parse.antt =====
-- `protocol_parse_next_buffer` of protocol/parser.c: the next buffer of a CMD_INPUT payload.
use mach_audio.Prelude.{
  ltb, if◌then◌else◌, u32, u64, round_down, ntohl, ℕ, ◌+◌, ◌%◌, ◌^◌, ◌≤◌, ◌<◌, ◌≡◌, Bool, Option,
  none, some, List, arith,
}
use mach_audio.Protocol.{AudioBufferHeader, buffer_header_size}
use mach_audio.Protocol.Bytes.{word32_at}
use mach_audio.Protocol.Header.{net_to_float}

-- The returned pointer, as an offset of the payload, and what stands in `*offset` and
-- `*out_header` after the call.
pub record Parsed : Type 0 where
  pub data_ptr : Option ℕ
  pub offset : ℕ
  pub out_header : AudioBufferHeader

-- The function behind its null tests. `*offset + sizeof` is a `size_t`; the other sums are
-- `uint32_t` and wrap.
unfoldable pub parse_next_buffer : Bool → List ℕ → ℕ → ℕ → AudioBufferHeader → Parsed
parse_next_buffer le payload payload_len offset bh =
    if ltb payload_len (u64 (offset + buffer_header_size))
    then record { data_ptr = none; offset = offset; out_header = bh }
    else let len = ntohl le (word32_at le payload offset) in
      let volume = net_to_float le (word32_at le payload (offset + 4)) in
      let start = u32 (offset + buffer_header_size) in
      let read : AudioBufferHeader = record { length = len; volume = volume } in
      if ltb payload_len (u32 (start + len))
      then record { data_ptr = none; offset = start; out_header = read }
      else record {
        data_ptr = some start;
        offset = u32 (start + round_down (u32 (len + 3)) 4);
        out_header = read;
      }

-- With the null tests: the returned pointer, and the values behind the two others.
unfoldable pub protocol_parse_next_buffer :
    Bool
    → Option (List ℕ)
    → ℕ
    → Option ℕ
    → Option AudioBufferHeader
    → Option ℕ × Option ℕ × Option AudioBufferHeader
protocol_parse_next_buffer le (some payload) n (some offset) (some bh) =
    let r = parse_next_buffer le payload n offset bh in
    (r.data_ptr, some r.offset, some r.out_header)
protocol_parse_next_buffer le payload n offset bh = (none, offset, bh)

-- What a returned buffer keeps to.
pub record IsInside (payload_len offset p : ℕ) (r : Parsed) : Type 0 where
  pub starts : p ≡ offset + buffer_header_size
  pub ends : p + r.out_header.length ≤ payload_len
  pub progress : p + r.out_header.length ≤ r.offset
  pub padded : r.offset < p + r.out_header.length + 4
  pub keeps_alignment : r.offset % 4 ≡ offset % 4

-- A buffer of a payload of less than 2 ^ 32 - 4 bytes that is returned for an offset below 2 ^ 32,
-- and whose end does not wrap at 2 ^ 32, starts behind its header and ends inside the payload; the
-- offset advances past it by less than 4 bytes of padding and keeps its remainder modulo 4.
pub parse_next_buffer-IsInside :
    (le : Bool) (payload : List ℕ) (n offset p : ℕ) (bh : AudioBufferHeader)
    → n + 4 < 2 ^ 32
    → offset < 2 ^ 32
    → let r = parse_next_buffer le payload n offset bh in
      r.data_ptr ≡ some p → p + r.out_header.length < 2 ^ 32 → IsInside n offset p r
unfolding parse_next_buffer
parse_next_buffer-IsInside le payload n offset p bh small fits e nowrap = ground arith

-- The bound on the data is tested on a sum that wraps: in a payload of less than 2 ^ 31 bytes with
-- room for the buffer's header, a length field that carries the end past 2 ^ 32, to an offset
-- inside the payload, is accepted, though the buffer it announces is longer than the payload.
pub parse_next_buffer_wraps :
    (le : Bool) (payload : List ℕ) (n offset : ℕ) (bh : AudioBufferHeader)
    → n < 2 ^ 31
    → offset + 8 ≤ n
    → let len = ntohl le (word32_at le payload offset) in
      2 ^ 32 ≤ offset + 8 + len
      → offset + 8 + len ≤ 2 ^ 32 + n
      → let r = parse_next_buffer le payload n offset bh in
        (r.data_ptr ≡ some (offset + 8)) × (r.out_header.length ≡ len) × (n < len)
unfolding parse_next_buffer
parse_next_buffer_wraps le payload n offset bh small inside wraps lands =
    (ground arith, ground arith, ground arith)

-- Without room for a buffer header the call returns null and changes nothing.
pub parse_next_buffer_short :
    (le : Bool) (payload : List ℕ) (n offset : ℕ) (bh : AudioBufferHeader)
    → n < offset + buffer_header_size
    → offset < 2 ^ 32
    → parse_next_buffer le payload n offset bh
      ≡ record { data_ptr = none; offset = offset; out_header = bh }
unfolding parse_next_buffer
parse_next_buffer_short le payload n offset bh h fits = ground arith
