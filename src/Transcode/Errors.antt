-- ===== src/Transcode/Errors.antt =====
-- Runs of `audio_process_transcode` that end early, and buffers that are not decoded.
use mach_audio.Prelude.{
  length, take, drop, length-take, length-drop, ℤ, negsuc, u32, u64, ntohl, ℕ, zero, suc, ◌+◌, ◌*◌,
  ◌%◌, ◌≤◌, ◌<◌, ◌≡◌, refl, ap, ◌∙◌, ◌≢◌, Bool, Option, none, some, List, arith,
}
use mach_audio.Arena.{Arena, alloc}
use mach_audio.Simd.{Avx2}
use mach_audio.Codec.{transcode_pcmu_to_l16, transcode_pcma_to_l16}
use mach_audio.Codec.Decode.{transcode_to_l16_refuses}
use mach_audio.Protocol.{input_payload_size, AudioBufferHeader}
use mach_audio.Protocol.Bytes.{word32_at, AreBytes}
use mach_audio.Protocol.Parse.{parse_next_buffer}
use mach_audio.Transcode.{Dsp, codec_l16}
use mach_audio.Transcode.Memory.{
  store_samples, store, bytes_of-samples_of, patch_self, AreBytes-take, AreBytes-drop, ok, error,
  fault, >>=-ok, samples_of, load, slice, State, storage, alloc_or_fail, load_samples,
}
use mach_audio.Transcode.Decode.{in_data, decode_g711, decode_l16, decode_buffer, decode_buffers}
use mach_audio.Transcode.Pipeline.{process, finish}

module _ (d : Dsp) (m : Avx2) (le : Bool) (payload : List ℕ) (payload_len : ℕ) (s : State d) where
  abbrev fresh_header : AudioBufferHeader
  fresh_header = record { length = 0; volume = 0 }

  -- The buffer that the first call of the parser gives.
  abbrev first_offset : Option ℕ
  first_offset =
      (parse_next_buffer le payload (u32 payload_len) input_payload_size fresh_header).data_ptr

  -- A message of 4 bytes or more that announces no buffers is answered with 0 and leaves the session and the arena
  -- alone.
  pub process_empty :
      4 ≤ length payload
      → ntohl le (word32_at le payload 0) ≡ 0
      → process d m le payload payload_len s ≡ ok tt s
  unfolding process
  process_empty counted h = ground arith

  unparsed :
      (count : ℕ)
      → first_offset ≡ none
      → decode_buffers d m le payload payload_len count input_payload_size none s ≡ ok none s
  unfolding decode_buffers
  unparsed zero e = refl
  unparsed (suc count) e = rw (e, decode_buffers)

  -- A message of 4 bytes or more that announces a buffer, and whose first buffer does not parse, is refused with -1
  -- and leaves the session and the arena alone.
  pub process_unparsed :
      4 ≤ length payload
      → ntohl le (word32_at le payload 0) ≢ 0
      → first_offset ≡ none
      → process d m le payload payload_len s ≡ error s
  unfolding process finish
  process_unparsed counted ne e = ground (arith, unparsed (ntohl le (word32_at le payload 0)) e)

  zero_channels :
      (count p : ℕ)
      → s.session.in_payload_type ≡ codec_l16
      → s.session.in_channels ≡ 0
      → 0 < count
      → first_offset ≡ some p
      → decode_buffers d m le payload payload_len count input_payload_size none s ≡ fault
  unfolding decode_buffers decode_buffer decode_l16
  zero_channels zero p pt ch h e = absurd (omega arith)
  zero_channels (suc count) p pt ch h e = ground arith

  -- A session whose input is L16 with 0 channels divides by zero on every message of 4 bytes or
  -- more that announces a buffer and whose first buffer parses.
  pub process_zero_channels :
      (p : ℕ)
      → s.session.in_payload_type ≡ codec_l16
      → s.session.in_channels ≡ 0
      → 4 ≤ length payload
      → ntohl le (word32_at le payload 0) ≢ 0
      → first_offset ≡ some p
      → process d m le payload payload_len s ≡ fault
  unfolding process
  process_zero_channels p pt ch counted ne e =
      ground (arith, zero_channels (ntohl le (word32_at le payload 0)) p pt ch)

  loaded :
      (start len : ℕ)
      → start + 2 * len ≤ length (storage d s.arena)
      → load_samples d le start len s
        ≡ ok (samples_of le (take (2 * len) (drop start (storage d s.arena)))) s
  unfolding load_samples load slice
  loaded start len room = ground arith

  -- Storing samples that were just read leaves the state as it was.
  stored_back :
      (start len : ℕ) (bs : List ℕ)
      → s.arena.buf ≡ some bs
      → AreBytes bs
      → start + 2 * len ≤ length bs
      → store_samples d le start (samples_of le (take (2 * len) (drop start bs))) s ≡ ok tt s
  unfolding store_samples store
  stored_back start len bs e bytes room =
      let same =
        bytes_of-samples_of le len (take (2 * len) (drop start bs))
          (omega (arith, length-take (2 * len) (drop start bs), length-drop start bs))
          (AreBytes-take (2 * len) (drop start bs) (AreBytes-drop start bs bytes)) in
      rw same (ground (arith, patch_self bs start (2 * len)))

  allocated :
      (n start : ℕ) (a : Arena)
      → alloc s.arena (u64 n) ≡ (some start, a)
      → alloc_or_fail d n s ≡ ok start (record s { arena = a })
  unfolding alloc_or_fail
  allocated n start a e = ground arith

  read_in :
      (p len : ℕ) (bytes : List ℕ)
      → slice payload p len ≡ some bytes
      → in_data d m le payload p len s ≡ ok bytes s
  unfolding in_data
  read_in p len bytes e = ground arith

-- A G.711 buffer inside the payload, whose length is no multiple of 16 and for which there is room
-- in the arena, counts as decoded, for both laws, but the storage, of bytes, is what it was: the
-- samples are what stood there before.
pub decode_g711_stale :
    (d : Dsp) (m : Avx2) (le : Bool) (payload : List ℕ) (s : State d) (p len start : ℕ) (a : Arena)
    (bytes memory : List ℕ)
    → len % 16 ≢ 0
    → alloc s.arena (u64 (len * 2)) ≡ (some start, a)
    → slice payload p len ≡ some bytes
    → a.buf ≡ some memory
    → AreBytes memory
    → start + 2 * len ≤ length memory
    → (decode_g711 d m le payload (transcode_pcmu_to_l16 (some m)) p len s
        ≡ ok (start, len) (record s { arena = a }))
      × (decode_g711 d m le payload (transcode_pcma_to_l16 (some m)) p len s
          ≡ ok (start, len) (record s { arena = a }))
decode_g711_stale d m le payload s p len start a bytes memory h e b held are room = (
  stale (transcode_pcmu_to_l16 (some m))
      (λ out. (transcode_to_l16_refuses (some m) bytes len out h).0),
  stale (transcode_pcma_to_l16 (some m))
      (λ out. (transcode_to_l16_refuses (some m) bytes len out h).1),
)
  where
    t : State d
    t = record s { arena = a }

    held_storage : storage d a ≡ memory
    held_storage = rw held

    old : List ℤ
    old = samples_of le (take (2 * len) (drop start memory))

    read_old : load_samples d le start len t ≡ ok old t
    read_old =
        (loaded d m le payload len t start len (rw (held_storage) room))
        ∙ ap (λ bs. ok (samples_of le (take (2 * len) (drop start bs))) t) held_storage

    stale :
        (codec : Option (List ℕ) → ℕ → Option (List ℤ) → ℤ × Option (List ℤ))
        → ((out : List ℤ) → codec (some bytes) len (some out) ≡ (negsuc 0, some out))
        → decode_g711 d m le payload codec p len s ≡ ok (start, len) t
    stale codec refuses =
        unfold decode_g711 in
        >>=-ok (alloc_or_fail d (len * 2)) _ s t start
          (allocated d m le payload len s (len * 2) start a e)
        ∙ >>=-ok (in_data d m le payload p len) _ t t bytes
            (read_in d m le payload len t p len bytes b)
        ∙ >>=-ok (load_samples d le start len) _ t t old read_old
        ∙ rw (refuses old) (
            >>=-ok (store_samples d le start old) _ t t tt
              (stored_back d m le payload len t start len memory held are room))
