-- ===== src/Protocol/Header.antt =====
-- `protocol_decode_header` and `protocol_validate_header` of protocol/parser.c, and the float
-- conversions of protocol.h.
use mach_audio.Prelude.{
  if◌then◌else◌, host_u16, host_u32, store_u16, store_u32, ntohs, ntohl, ntohs-host_u16,
  ntohl-host_u32, ℕ, ◌+◌, ◌*◌, ◌^◌, ◌<◌, ◌≡◌, refl, ◌↔◌, Bool, true, false, not, Option, none, some,
  List, arith, ◌==◌,
}
use mach_audio.Protocol.{AudioMsgHeader, audio_magic, audio_version}
use mach_audio.Protocol.Bytes.{byte_at, AreBytes, byte_at-lt, load_header, store_header}

unfoldable pub validate_header : Option AudioMsgHeader → Bool
validate_header none = false
validate_header (some h) =
    if not (h.magic == audio_magic)
    then false
    else if not (h.version == audio_version)
    then false
    else true

-- `protocol_decode_header` behind its null test.
unfoldable pub decoded_header : Bool → AudioMsgHeader → AudioMsgHeader
decoded_header le h = record {
  magic = ntohl le h.magic;
  version = ntohs le h.version;
  command = ntohs le h.command;
  sequence_id = ntohl le h.sequence_id;
  payload_len = ntohl le h.payload_len;
}

unfoldable pub decode_header : Bool → Option AudioMsgHeader → Option AudioMsgHeader
decode_header le none = none
decode_header le (some h) = some (decoded_header le h)

-- The argument and the result of the float conversions are bit patterns.
unfoldable pub float_to_net : Bool → ℕ → ℕ
float_to_net le bits = ntohl le bits

unfoldable pub net_to_float : Bool → ℕ → ℕ
net_to_float le bits = ntohl le bits

-- A header with its words in network order, as a response fills it.
unfoldable pub encoded_header : Bool → AudioMsgHeader → AudioMsgHeader
unfolding decoded_header
encoded_header le h = decoded_header le h

-- The fields of a header fit their types.
pub record IsHeader (h : AudioMsgHeader) : Type 0 where
  pub magic_fits : h.magic < 2 ^ 32
  pub version_fits : h.version < 2 ^ 16
  pub command_fits : h.command < 2 ^ 16
  pub sequence_fits : h.sequence_id < 2 ^ 32
  pub payload_fits : h.payload_len < 2 ^ 32

-- The big-endian value of two and of four bytes at an offset.
abbrev pub be16_at : List ℕ → ℕ → ℕ
be16_at bs i = byte_at bs i * 256 + byte_at bs (i + 1)

abbrev pub be32_at : List ℕ → ℕ → ℕ
be32_at bs i =
    byte_at bs i * 16777216
    + byte_at bs (i + 1) * 65536
    + byte_at bs (i + 2) * 256
    + byte_at bs (i + 3)

pub word32-be :
    (le : Bool) (bs : List ℕ) (i : ℕ)
    → AreBytes bs
    → ntohl le
        (host_u32 le (byte_at bs i) (byte_at bs (i + 1)) (byte_at bs (i + 2)) (byte_at bs (i + 3)))
      ≡ be32_at bs i
word32-be le bs i h =
    ntohl-host_u32 le _ _ _ _ (byte_at-lt bs i h) (byte_at-lt bs (i + 1) h)
      (byte_at-lt bs (i + 2) h) (byte_at-lt bs (i + 3) h)

-- On either kind of host the decoded header of the bytes in memory holds their big-endian values at
-- the offsets 0, 4, 6, 8 and 12.
pub decoded_header-load_header :
    (le : Bool) (bs : List ℕ)
    → AreBytes bs
    → decoded_header le (load_header le bs) ≡ record {
      magic = be32_at bs 0;
      version = be16_at bs 4;
      command = be16_at bs 6;
      sequence_id = be32_at bs 8;
      payload_len = be32_at bs 12;
    }
unfolding decoded_header load_header
decoded_header-load_header le bs h = λ i. record {
  magic = word32-be le bs 0 h i;
  version = ntohs-host_u16 le _ _ (byte_at-lt bs 4 h) (byte_at-lt bs 5 h) i;
  command = ntohs-host_u16 le _ _ (byte_at-lt bs 6 h) (byte_at-lt bs 7 h) i;
  sequence_id = word32-be le bs 8 h i;
  payload_len = word32-be le bs 12 h i;
}

-- A header whose fields fit their types is read back from the bytes that a response stores for
-- it, on either kind of host.
pub decode-encode :
    (le : Bool) (h : AudioMsgHeader)
    → IsHeader h
    → decoded_header le (load_header le (store_header le (encoded_header le h))) ≡ h
unfolding decoded_header load_header store_header encoded_header store_u16 store_u32 ntohl ntohs
    host_u16 host_u32
decode-encode true h v = ground arith
decode-encode false h v = ground arith

-- The bytes that a response stores for such a header are the same on both kinds of host.
pub store-encoded_host :
    (h : AudioMsgHeader)
    → IsHeader h
    → store_header true (encoded_header true h) ≡ store_header false (encoded_header false h)
unfolding store_header encoded_header store_u16 store_u32 ntohl ntohs host_u16 host_u32
    decoded_header
store-encoded_host h v = ground arith

-- A header is valid exactly when its magic and its version are the protocol's.
pub validate_header_iff :
    (h : AudioMsgHeader)
    → (validate_header (some h) ≡ true) ↔ ((h.magic ≡ audio_magic) × (h.version ≡ audio_version))
unfolding validate_header
validate_header_iff h = ground arith

-- A float pattern survives the way to the wire and back.
pub net_to_float-float_to_net :
    (le : Bool) (bits : ℕ) → bits < 2 ^ 32 → net_to_float le (float_to_net le bits) ≡ bits
unfolding net_to_float float_to_net ntohl
net_to_float-float_to_net true bits h = omega arith
net_to_float-float_to_net false bits h = refl
