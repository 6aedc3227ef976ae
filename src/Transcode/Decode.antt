-- ===== src/Transcode/Decode.antt =====
-- The first part of `audio_process_transcode`: decoding the buffers of a CMD_INPUT payload into
-- the arena and mixing them into the first. A block of samples is its offset in the arena and
-- its number of samples per channel.
use mach_audio.Prelude.{
  ltb, leb, if◌then◌else◌, ℤ, u16, u32, to_i16, of_i16, ℕ, zero, suc, ◌+◌, ◌*◌, ◌/◌, Bool, Option,
  none, some, List, [], ◌∷◌, ◌==◌,
}
use mach_audio.Simd.{Avx2}
use mach_audio.Mix.{mix_l16_avx2}
use mach_audio.Codec.{transcode_pcmu_to_l16, transcode_pcma_to_l16}
use mach_audio.Protocol.{AudioBufferHeader}
use mach_audio.Protocol.Parse.{parse_next_buffer}
use mach_audio.Transcode.{Dsp, TranscodeSession, codec_pcmu, codec_pcma, codec_l16}
use mach_audio.Transcode.Memory.{
  ok, fault, M, pure, fail, crash, ◌>>=◌, ◌>>◌, slice, State, get_session, alloc_or_fail, store,
  load_samples, store_samples,
}

-- `swap_endian_l16`: the bytes of each sample change places.
unfoldable pub swap_sample : ℤ → ℤ
swap_sample z = let val = of_i16 z in to_i16 (u16 (val * 256 + val / 256))

unfoldable pub swap_endian_l16 : List ℤ → List ℤ
unfolding swap_sample
swap_endian_l16 [] = []
swap_endian_l16 (z ∷ zs) = swap_sample z ∷ swap_endian_l16 zs

module _ (d : Dsp) (m : Avx2) (le : Bool) (payload : List ℕ) where
  -- `len` bytes of the payload.
  unfoldable pub in_data : ℕ → ℕ → M (State d) (List ℕ)
  in_data p len s = elim (slice payload p len) [ none ↦ fault | some bs ↦ ok bs s ]

  -- A call of a codec whose return value is ignored.
  unfoldable pub decode_g711 :
      (Option (List ℕ) → ℕ → Option (List ℤ) → ℤ × Option (List ℤ)) → ℕ → ℕ → M (State d) (ℕ × ℕ)
  decode_g711 codec p len = do
    decode_buf ← alloc_or_fail d (len * 2)
    bytes ← in_data p len
    old ← load_samples d le decode_buf len
    elim (codec (some bytes) len (some old)).1 [
      | none ↦ pure (decode_buf, len)
      | some new ↦ store_samples d le decode_buf new >> pure (decode_buf, len)
    ]

  unfoldable pub decode_l16 : TranscodeSession d → ℕ → ℕ → M (State d) (ℕ × ℕ)
  decode_l16 session p len =
      if session.in_channels == 0
      then crash
      else let decode_samples = len / (2 * session.in_channels) in
        let count = decode_samples * session.in_channels in
        do
          decode_buf ← alloc_or_fail d len
          bytes ← in_data p len
          store d decode_buf bytes
          if session.swap_in
              then (do
                samples ← load_samples d le decode_buf count
                store_samples d le decode_buf (swap_endian_l16 samples)
                pure (decode_buf, decode_samples))
              else pure (decode_buf, decode_samples)

  -- One buffer, by the session's codec.
  unfoldable pub decode_buffer : ℕ → ℕ → M (State d) (ℕ × ℕ)
  decode_buffer p len = do
    session ← get_session d
    if session.in_payload_type == codec_pcmu
        then decode_g711 (transcode_pcmu_to_l16 (some m)) p len
        else if session.in_payload_type == codec_pcma
        then decode_g711 (transcode_pcma_to_l16 (some m)) p len
        else if session.in_payload_type == codec_l16
        then decode_l16 session p len
        else fail

  -- Mixing one more block into the first, in place. The second input is `restrict`, so it may not
  -- overlap what is written.
  unfoldable pub mix_into : ℕ × ℕ → ℕ × ℕ → M (State d) (Unit {0})
  mix_into (l16_buf, l16_samples) (decode_buf, decode_samples) = do
    session ← get_session d
    let mix_samples = if ltb decode_samples l16_samples then decode_samples else l16_samples
    let total_elements = mix_samples * session.in_channels
    if leb (l16_buf + 2 * total_elements) decode_buf
        then (do
          a ← load_samples d le l16_buf total_elements
          b ← load_samples d le decode_buf total_elements
          store_samples d le l16_buf (mix_l16_avx2 m a b total_elements))
        else crash

  -- The first block is kept, a later one is mixed into it: `none` stands for `b == 0`.
  unfoldable pub keep_or_mix : Option (ℕ × ℕ) → ℕ × ℕ → M (State d) (ℕ × ℕ)
  keep_or_mix none block = pure block
  keep_or_mix (some first) block = mix_into first block >> pure first

  -- The loop over at most `count` buffers; it ends at the first that does not parse. The buffer
  -- header is a local of a round, which the parser fills before it is read.
  unfoldable pub decode_buffers : ℕ → ℕ → ℕ → Option (ℕ × ℕ) → M (State d) (Option (ℕ × ℕ))
  decode_buffers payload_len zero offset acc = pure acc
  decode_buffers payload_len (suc count) offset acc =
      let bh : AudioBufferHeader = record { length = 0; volume = 0 } in
      let r = parse_next_buffer le payload (u32 payload_len) offset bh in
      elim r.data_ptr [
        | none ↦ pure acc
        | some p ↦ decode_buffer p r.out_header.length >>= λ block.
            keep_or_mix acc block >>= λ first.
            decode_buffers payload_len count r.offset (some first)
      ]
