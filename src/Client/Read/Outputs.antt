-- ===== src/Client/Read/Outputs.antt =====
-- The client on the output messages of the server.
use mach_audio.Prelude.{
  if◌then◌else◌, le→ltb, length, take, drop, length-append, take-length_append, drop-length_append,
  byte_of, host_u32, ntohl, ntohl-host_u32, ℕ, suc, ◌+◌, ◌/◌, ◌%◌, ◌^◌, ◌<◌, ◌≡◌, refl, sym, ap,
  ◌∙◌, Bool, true, false, ◌&&◌, none, some, List, ◌++◌, append_assoc, arith,
}
use mach_audio.Client.{ClientConnection}
use mach_audio.Client.Read.{
  be64_at, body_len, consume, count_output, is_open, record_latency, runs_short, save_output,
  take_message, take_output, with_output,
}
use mach_audio.Client.Read.Frames.{consume-goes, consume_all, go_on, rest_of, stops}
use mach_audio.Client.Read.Stream.{consume_fuel}
use mach_audio.Protocol.{AudioMsgHeader, header_size}
use mach_audio.Protocol.Bytes.{byte_at-append, load_header, word32_at}
use mach_audio.Protocol.Container.{be32_bytes}
use mach_audio.Protocol.Header.{IsHeader, be32_at, decoded_header, net_to_float}
use mach_audio.Server.Messages.{Message, header_bytes, header_of, length-header, read_back}
use mach_audio.Server.Read.{front_header}

-- What an output message tells: the time that the server took, the voice probability as a bit
-- pattern, and the samples.
pub record Output : Type 0 where
  pub duration_ns : ℕ
  pub vad_prob : ℕ
  pub samples : List ℕ

-- docs/protocol.md: the duration and the probability big-endian, four reserved bytes, the samples.
unfoldable pub output_body : Output → List ℕ
output_body o =
    (be32_bytes (o.duration_ns / 2 ^ 32) ++ be32_bytes (o.duration_ns % 2 ^ 32))
    ++ (be32_bytes o.vad_prob ++ (be32_bytes 0 ++ o.samples))

abbrev pub output_message : ℕ → Output → Message
output_message sequence_id o = record {
  command = 3;
  sequence_id = sequence_id;
  payload = output_body o;
}

pub record IsOutput (o : Output) : Type 0 where
  pub duration_fits : o.duration_ns < 2 ^ 64
  pub vad_fits : o.vad_prob < 2 ^ 32
  pub samples_fit : length o.samples + 16 < 2 ^ 32

pub length-output_body : (o : Output) → length (output_body o) ≡ 16 + length o.samples
unfolding output_body
length-output_body o = omega arith

module _ (realloc_ok : ℕ → Bool) (le : Bool) where
  -- What the client makes of an output.
  abbrev pub recorded : Output → ClientConnection → ClientConnection
  recorded o conn = save_output realloc_ok le o.vad_prob o.samples (
      record_latency realloc_ok o.duration_ns
        (count_output realloc_ok o.duration_ns (length o.samples) conn))

  module _ (sequence_id : ℕ) (o : Output) (tail : List ℕ) (valid : IsOutput o)
      (seq : sequence_id < 2 ^ 32) where
    abbrev head : List ℕ
    head = header_bytes le (output_message sequence_id o)

    abbrev bs : List ℕ
    bs = head ++ (output_body o ++ tail)

    abbrev header : AudioMsgHeader
    header = header_of (output_message sequence_id o)

    fits : IsHeader header
    fits =
        let n = length-output_body o in
        let small = valid.samples_fit in
        record {
          magic_fits = omega arith;
          version_fits = omega arith;
          command_fits = omega arith;
          sequence_fits = seq;
          payload_fits = omega (arith, n, small);
        }

    size : length bs ≡ 32 + length o.samples + length tail
    size = omega (
      arith,
      length-header le (output_message sequence_id o),
      length-output_body o,
      length-append head (output_body o ++ tail),
      length-append (output_body o) tail,
    )

    decoded : decoded_header le (load_header le bs) ≡ header
    unfolding front_header
    decoded = read_back le (output_message sequence_id o) (output_body o ++ tail) fits

    word :
        (i : ℕ) (xs : List ℕ) (w : ℕ) (ys : List ℕ)
        → bs ≡ xs ++ (be32_bytes w ++ ys)
        → length xs ≡ i
        → w < 2 ^ 32
        → be32_at bs i ≡ w
    word i xs w ys e n small = rw e (
        omega (
          arith,
          byte_at-append xs (be32_bytes w ++ ys) i 0 (omega (arith, n)),
          byte_at-append xs (be32_bytes w ++ ys) (i + 1) 1 (omega (arith, n)),
          byte_at-append xs (be32_bytes w ++ ys) (i + 2) 2 (omega (arith, n)),
          byte_at-append xs (be32_bytes w ++ ys) (i + 3) 3 (omega (arith, n)),
        ))

    duration : be64_at bs 16 ≡ o.duration_ns
    unfolding output_body
    duration =
        let high = o.duration_ns / 2 ^ 32 in
        let low = o.duration_ns % 2 ^ 32 in
        let rest = be32_bytes o.vad_prob ++ (be32_bytes 0 ++ o.samples) in
        let n = length-header le (output_message sequence_id o) in
        let big = valid.duration_fits in
        let first : be32_at bs 16 ≡ high =
          word 16 head high (be32_bytes low ++ (rest ++ tail)) refl n (omega arith) in
        let second : be32_at bs 20 ≡ low =
          word 20 (head ++ be32_bytes high) low (rest ++ tail)
            (sym (append_assoc head (be32_bytes high) (be32_bytes low ++ (rest ++ tail))))
            (omega (arith, n, length-append head (be32_bytes high))) (omega arith) in
        omega (arith, first, second)

    probability : net_to_float le (word32_at le bs 24) ≡ o.vad_prob
    unfolding output_body net_to_float
    probability =
        let times = be32_bytes (o.duration_ns / 2 ^ 32) ++ be32_bytes (o.duration_ns % 2 ^ 32) in
        let ys = be32_bytes o.vad_prob ++ ((be32_bytes 0 ++ o.samples) ++ tail) in
        let n = length-header le (output_message sequence_id o) in
        let long : length (head ++ times) ≡ 24 = omega (arith, n, length-append head times) in
        let small = valid.vad_fits in
        let w = o.vad_prob in
        ap (λ r. ntohl le (word32_at le r 24)) (sym (append_assoc head times ys))
        ∙ (λ i. ntohl le (
            host_u32 le (byte_at-append (head ++ times) ys 24 0 (omega (arith, long)) i)
              (byte_at-append (head ++ times) ys 25 1 (omega (arith, long)) i)
              (byte_at-append (head ++ times) ys 26 2 (omega (arith, long)) i)
              (byte_at-append (head ++ times) ys 27 3 (omega (arith, long)) i)))
        ∙ ntohl-host_u32 le (byte_of w 3) (byte_of w 2) (byte_of w 1) (byte_of w 0) (omega arith)
            (omega arith) (omega arith) (omega arith)
        ∙ omega (arith, small)

    data_length : body_len realloc_ok header ≡ length o.samples
    data_length =
        let n = length-output_body o in let small = valid.samples_fit in omega (arith, n, small)

    samples : take (body_len realloc_ok header) (drop 32 bs) ≡ o.samples
    unfolding output_body
    samples =
        let front =
          head
          ++ ((be32_bytes (o.duration_ns / 2 ^ 32) ++ be32_bytes (o.duration_ns % 2 ^ 32))
              ++ (be32_bytes o.vad_prob ++ be32_bytes 0)) in
        let n = length-header le (output_message sequence_id o) in
        let here : 32 ≡ length front = omega (
          arith,
          n,
          length-append head (
              (be32_bytes (o.duration_ns / 2 ^ 32) ++ be32_bytes (o.duration_ns % 2 ^ 32))
              ++ (be32_bytes o.vad_prob ++ be32_bytes 0)),
        ) in
        let split : bs ≡ front ++ (o.samples ++ tail) =
          sym (append_assoc head _ (o.samples ++ tail)) in
        ap (λ k. take k (drop 32 bs)) data_length
        ∙ ap (λ k. take (length o.samples) (drop k bs)) here
        ∙ ap (λ r. take (length o.samples) (drop (length front) r)) split
        ∙ ap (take (length o.samples)) (drop-length_append front (o.samples ++ tail))
        ∙ take-length_append o.samples tail

    goes_on : stops le bs ≡ false
    goes_on = let n = size in let m = length-output_body o in rw decoded (ground arith)

    same_output :
        (conn : ClientConnection) → with_output realloc_ok le header bs conn ≡ recorded o conn
    unfolding with_output
    same_output conn = λ i. save_output realloc_ok le (probability i) (samples i) (
        record_latency realloc_ok (duration i)
          (count_output realloc_ok (duration i) (data_length i) conn))

    long_enough : (conn : ClientConnection) → runs_short realloc_ok header bs conn ≡ false
    long_enough conn = rw (le→ltb (length bs) 32 (omega (arith, size))) (
        rw (le→ltb (length bs) (32 + body_len realloc_ok header) (omega (arith, size, data_length)))
          (and_false (is_open conn.output_file)))
      where
        and_false : (b : Bool) → (b && false) ≡ false
        and_false true = refl
        and_false false = refl

    taken :
        (conn : ClientConnection)
        → take_message realloc_ok le (decoded_header le (load_header le bs)) bs conn
          ≡ some (recorded o conn)
    unfolding take_message take_output
    taken conn =
        ap (λ h. take_message realloc_ok le h bs conn) decoded
        ∙ ap (λ b. if b then none else some (with_output realloc_ok le header bs conn))
            (long_enough conn)
        ∙ ap some (same_output conn)

    behind : rest_of realloc_ok le bs ≡ tail
    behind =
        let n = length-header le (output_message sequence_id o) in
        ap (λ h. drop (header_size + h.payload_len) bs) decoded
        ∙ ap (λ k. drop k bs) (omega (arith, n, length-append head (output_body o)))
        ∙ ap (drop (length (head ++ output_body o))) (sym (append_assoc head (output_body o) tail))
        ∙ drop-length_append (head ++ output_body o) tail

    -- An output message at the front of the bytes.
    pub consume_one :
        (conn : ClientConnection)
        → consume_all realloc_ok le conn bs ≡ consume_all realloc_ok le (recorded o conn) tail
    consume_one conn =
        consume-goes realloc_ok le (length bs) conn bs goes_on
        ∙ ap (go_on realloc_ok le (length bs) bs) (taken conn)
        ∙ ap (consume realloc_ok le (length bs) (recorded o conn)) behind
        ∙ consume_fuel realloc_ok le (length bs) (suc (length tail)) (recorded o conn) tail
            (omega (arith, size)) (omega arith)
