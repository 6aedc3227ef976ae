-- ===== src/Protocol/Bytes.antt =====
-- Reading the structures of protocol.h out of memory, and the words that a response stores.
use mach_audio.Prelude.{
  length, get_or, host_u16, host_u32, store_u16, store_u32, ℕ, zero, suc, ◌+◌, ◌<◌, ◌≡◌, ap, Bool,
  List, [], ◌∷◌, ◌++◌, arith,
}
use mach_audio.Protocol.{AudioMsgHeader, AudioStartPayload}

-- The byte at an offset; the callers test that the offset is inside.
abbrev pub byte_at : List ℕ → ℕ → ℕ
byte_at bs i = get_or bs i 0

abbrev pub word16_at : Bool → List ℕ → ℕ → ℕ
word16_at le bs i = host_u16 le (byte_at bs i) (byte_at bs (i + 1))

abbrev pub word32_at : Bool → List ℕ → ℕ → ℕ
word32_at le bs i =
    host_u32 le (byte_at bs i) (byte_at bs (i + 1)) (byte_at bs (i + 2)) (byte_at bs (i + 3))

-- `*(AudioMsgHeader *)bs`, its fields still in network order.
unfoldable pub load_header : Bool → List ℕ → AudioMsgHeader
load_header le bs = record {
  magic = word32_at le bs 0;
  version = word16_at le bs 4;
  command = word16_at le bs 6;
  sequence_id = word32_at le bs 8;
  payload_len = word32_at le bs 12;
}

-- `*(struct audio_start_payload *)bs`.
unfoldable pub load_start : Bool → List ℕ → AudioStartPayload
load_start le bs = record {
  in_payload_type = byte_at bs 0;
  in_channels = byte_at bs 1;
  flags = word16_at le bs 2;
  in_sample_rate = word32_at le bs 4;
  in_endian = byte_at bs 8;
  out_payload_type = byte_at bs 9;
  out_channels = byte_at bs 10;
  out_endian = byte_at bs 11;
  out_sample_rate = word32_at le bs 12;
}

-- The bytes of a header in memory.
unfoldable pub store_header : Bool → AudioMsgHeader → List ℕ
store_header le h =
    store_u32 le h.magic
    ++ (store_u16 le h.version
        ++ (store_u16 le h.command ++ (store_u32 le h.sequence_id ++ store_u32 le h.payload_len)))

-- Every byte of a list is below 256.
abbrev pub AreBytes : List ℕ → Type 0
AreBytes [] = Unit {0}
AreBytes (b ∷ bs) = (b < 256) × AreBytes bs

pub byte_at-lt : (bs : List ℕ) (i : ℕ) → AreBytes bs → byte_at bs i < 256
byte_at-lt [] i h = omega arith
byte_at-lt (b ∷ bs) zero h = h.0
byte_at-lt (b ∷ bs) (suc i) h = byte_at-lt bs i h.1

pub byte_at-append :
    (xs ys : List ℕ) (i j : ℕ) → i ≡ length xs + j → byte_at (xs ++ ys) i ≡ byte_at ys j
byte_at-append [] ys i j e = ap (byte_at ys) (omega arith)
byte_at-append (x ∷ xs) ys zero j e = absurd (omega arith)
byte_at-append (x ∷ xs) ys (suc i) j e = byte_at-append xs ys i j (omega arith)

pub AreBytes-append : (xs ys : List ℕ) → AreBytes xs → AreBytes ys → AreBytes (xs ++ ys)
AreBytes-append [] ys h k = k
AreBytes-append (x ∷ xs) ys h k = (h.0, AreBytes-append xs ys h.1 k)
