-- ===== src/Protocol/Container.antt =====
-- A CMD_INPUT container as docs/protocol.md lays it out, and the parser on it.
use mach_audio.Prelude.{
  length, take, drop, replicate, length-append, length-replicate, take-length_append,
  drop-length_append, byte_of, ntohl, ℕ, zero, suc, ◌+◌, ◌-◌, ◌%◌, ◌^◌, ◌<◌, ◌≡◌, refl, sym, ap,
  ◌∙◌, Bool, none, some, List, [], ◌∷◌, ◌++◌, append_assoc, arith,
}
use mach_audio.Protocol.{AudioBufferHeader}
use mach_audio.Protocol.Bytes.{word32_at, AreBytes, byte_at-append}
use mach_audio.Protocol.Header.{be32_at, word32-be, net_to_float}
use mach_audio.Protocol.Parse.{parse_next_buffer}

-- One buffer: its samples as bytes, and its volume as a bit pattern.
pub record Buffer : Type 0 where
  pub samples : List ℕ
  pub volume : ℕ

abbrev pub be32_bytes : ℕ → List ℕ
be32_bytes x = byte_of x 3 ∷ byte_of x 2 ∷ byte_of x 1 ∷ byte_of x 0 ∷ []

-- The number of null bytes behind data of a length.
abbrev pub padding : ℕ → ℕ
padding n = (4 - n % 4) % 4

-- The layout: length and volume big-endian, the data, null bytes to the next 4-byte boundary.
unfoldable pub encode_buffer : Buffer → List ℕ
encode_buffer b =
    be32_bytes (length b.samples)
    ++ (be32_bytes b.volume ++ (b.samples ++ replicate (padding (length b.samples)) 0))

unfoldable pub encode_buffers : List Buffer → List ℕ
encode_buffers [] = []
encode_buffers (b ∷ bs) = encode_buffer b ++ encode_buffers bs

-- The buffers that repeated calls of the parser give, at most `count`, with the loop of
-- `audio_process_transcode`: it ends at the first null.
unfoldable pub parse_all : Bool → List ℕ → ℕ → ℕ → ℕ → AudioBufferHeader → List Buffer
parse_all le payload n zero offset bh = []
parse_all le payload n (suc count) offset bh =
    let r = parse_next_buffer le payload n offset bh in
    let rest = parse_all le payload n count r.offset r.out_header in
    elim r.data_ptr [
      | none ↦ []
      | some p ↦
          record {
            samples = take r.out_header.length (drop p payload);
            volume = r.out_header.volume;
          }
          ∷ rest
    ]

abbrev pub AreBuffers : List Buffer → Type 0
AreBuffers [] = Unit {0}
AreBuffers (b ∷ bs) = (b.volume < 2 ^ 32) × AreBuffers bs

be32_at-bytes :
    (xs ys : List ℕ) (v i : ℕ)
    → v < 2 ^ 32
    → i ≡ length xs
    → be32_at (xs ++ (be32_bytes v ++ ys)) i ≡ v
be32_at-bytes xs ys v i h e = omega (
  arith,
  byte_at-append xs (be32_bytes v ++ ys) i 0 (omega arith),
  byte_at-append xs (be32_bytes v ++ ys) (i + 1) 1 (omega arith),
  byte_at-append xs (be32_bytes v ++ ys) (i + 2) 2 (omega arith),
  byte_at-append xs (be32_bytes v ++ ys) (i + 3) 3 (omega arith),
)

pub length-encode_buffer :
    (b : Buffer) → length (encode_buffer b) ≡ 8 + length b.samples + padding (length b.samples)
unfolding encode_buffer
length-encode_buffer b = omega (
  arith,
  length-append b.samples (replicate (padding (length b.samples)) 0),
  length-replicate (padding (length b.samples)) (zero),
)

-- The payload around one buffer, with its words in view.
around :
    (xs ys : List ℕ) (b : Buffer)
    → xs ++ (encode_buffer b ++ ys)
      ≡ xs
        ++ (be32_bytes (length b.samples)
            ++ (be32_bytes b.volume
                ++ (b.samples ++ (replicate (padding (length b.samples)) 0 ++ ys))))
unfolding encode_buffer
around xs ys b = simp append_assoc

around_volume :
    (xs ys : List ℕ) (b : Buffer)
    → xs ++ (encode_buffer b ++ ys)
      ≡ (xs ++ be32_bytes (length b.samples))
        ++ (be32_bytes b.volume ++ (b.samples ++ (replicate (padding (length b.samples)) 0 ++ ys)))
unfolding encode_buffer
around_volume xs ys b = simp append_assoc

module _ (le : Bool) (xs ys : List ℕ) (b : Buffer) (bh : AudioBufferHeader)
    (bytes : AreBytes (xs ++ (encode_buffer b ++ ys)))
    (small : length (xs ++ (encode_buffer b ++ ys)) < 2 ^ 31)
    (volume_fits : b.volume < 2 ^ 32) where
  abbrev payload : List ℕ
  payload = xs ++ (encode_buffer b ++ ys)

  abbrev size : ℕ
  size = length b.samples

  lengths : length payload ≡ length xs + (8 + size + padding size) + length ys
  lengths = omega (
    arith,
    length-append xs (encode_buffer b ++ ys),
    length-append (encode_buffer b) ys,
    length-encode_buffer b,
  )

  read_length : ntohl le (word32_at le payload (length xs)) ≡ size
  read_length =
      word32-be le payload (length xs) bytes
      ∙ (rw (around xs ys b) (be32_at-bytes xs _ size (length xs) (omega (arith, lengths)) refl))

  read_volume : ntohl le (word32_at le payload (length xs + 4)) ≡ b.volume
  read_volume =
      word32-be le payload (length xs + 4) bytes
      ∙ (rw (around_volume xs ys b) (
          be32_at-bytes (xs ++ be32_bytes size) _ b.volume (length xs + 4) volume_fits
            (omega (arith, length-append xs (be32_bytes size)))))

  parse_one : parse_next_buffer le payload (length payload) (length xs) bh ≡ record {
    data_ptr = some (length xs + 8);
    offset = length (xs ++ encode_buffer b);
    out_header = record { length = size; volume = b.volume };
  }
  unfolding parse_next_buffer net_to_float
  parse_one = ground (
    arith,
    lengths,
    read_length,
    read_volume,
    length-append xs (encode_buffer b),
    length-encode_buffer b,
  )

  around_data :
      payload
      ≡ (xs ++ (be32_bytes size ++ be32_bytes b.volume))
        ++ (b.samples ++ (replicate (padding size) 0 ++ ys))
  unfolding encode_buffer
  around_data = simp append_assoc

  slice : take size (drop (length xs + 8) payload) ≡ b.samples
  slice =
      let front : List ℕ = xs ++ (be32_bytes size ++ be32_bytes b.volume) in
      let back : List ℕ = b.samples ++ (replicate (padding size) 0 ++ ys) in
      let here : length xs + 8 ≡ length front =
        omega (arith, length-append xs (be32_bytes size ++ be32_bytes b.volume)) in
      rw (here, around_data)
        (rw (drop-length_append front back)
          (take-length_append b.samples (replicate (padding size) 0 ++ ys)))

parse_all-some :
    (le : Bool) (message : List ℕ) (n count offset start next : ℕ) (bh read : AudioBufferHeader)
    → parse_next_buffer le message n offset bh
      ≡ record { data_ptr = some start; offset = next; out_header = read }
    → parse_all le message n (suc count) offset bh
      ≡ record { samples = take read.length (drop start message); volume = read.volume }
        ∷ parse_all le message n count next read
unfolding parse_all
parse_all-some le message n count offset start next bh read e = ground arith

regroup :
    (xs ys : List ℕ) (b : Buffer) (bs : List Buffer)
    → xs ++ (encode_buffers (b ∷ bs) ++ ys) ≡ xs ++ (encode_buffer b ++ (encode_buffers bs ++ ys))
unfolding encode_buffers
regroup xs ys b bs = ap (λ r. xs ++ r) (append_assoc (encode_buffer b) (encode_buffers bs) ys)

parse_all_step :
    (le : Bool) (message xs tail : List ℕ) (b : Buffer) (bs : List Buffer) (bh : AudioBufferHeader)
    → message ≡ xs ++ (encode_buffer b ++ tail)
    → b.volume < 2 ^ 32
    → AreBytes message
    → length message < 2 ^ 31
    → parse_all le message
        (length message)
        (length bs)
        (length (xs ++ encode_buffer b))
        (record { length = length b.samples; volume = b.volume })
      ≡ bs
    → parse_all le message (length message) (suc (length bs)) (length xs) bh ≡ b ∷ bs
parse_all_step le message xs tail b bs bh split v bytes small rest =
    parse_all-some le message (length message) (length bs) (length xs) (length xs + 8)
      (length (xs ++ encode_buffer b)) bh read here
    ∙ (λ i. record { samples = samples i; volume = b.volume } ∷ rest i)
  where
    read : AudioBufferHeader
    read = record { length = length b.samples; volume = b.volume }

    here : parse_next_buffer le message (length message) (length xs) bh ≡ record {
      data_ptr = some (length xs + 8);
      offset = length (xs ++ encode_buffer b);
      out_header = read;
    }
    here = rw split (parse_one le xs tail b bh (rw split at bytes) (rw split at small) v)

    samples : take (length b.samples) (drop (length xs + 8) message) ≡ b.samples
    samples = rw split (slice le xs tail b bh (rw split at bytes) (rw split at small) v)

parse_all_at :
    (le : Bool) (message xs ys : List ℕ) (bs : List Buffer) (bh : AudioBufferHeader)
    → message ≡ xs ++ (encode_buffers bs ++ ys)
    → AreBuffers bs
    → AreBytes message
    → length message < 2 ^ 31
    → parse_all le message (length message) (length bs) (length xs) bh ≡ bs
parse_all_at le message xs ys [] bh e v bytes small = unfold parse_all in refl
parse_all_at le message xs ys (b ∷ bs) bh e v bytes small =
    let split = e ∙ regroup xs ys b bs in
    parse_all_step le message xs (encode_buffers bs ++ ys) b bs bh split v.0 bytes small (
      parse_all_at le message (xs ++ encode_buffer b) ys bs
        (record { length = length b.samples; volume = b.volume })
        (split ∙ sym (append_assoc xs (encode_buffer b) (encode_buffers bs ++ ys))) v.1 bytes small)

-- The parser gives back every buffer of a container, in order, with its data and its volume: for
-- bytes `xs` (the container's head), the encoding of `bs` and bytes `ys` behind it, of less than
-- 2 ^ 31 bytes together, the calls that start at the end of `xs` return `bs`.
pub parse_all-encode_buffers :
    (le : Bool) (xs ys : List ℕ) (bs : List Buffer) (bh : AudioBufferHeader)
    → AreBuffers bs
    → AreBytes (xs ++ (encode_buffers bs ++ ys))
    → length (xs ++ (encode_buffers bs ++ ys)) < 2 ^ 31
    → parse_all le
        (xs ++ (encode_buffers bs ++ ys))
        (length (xs ++ (encode_buffers bs ++ ys)))
        (length bs)
        (length xs)
        bh
      ≡ bs
parse_all-encode_buffers le xs ys bs bh v bytes small =
    parse_all_at le _ xs ys bs bh refl v bytes small
