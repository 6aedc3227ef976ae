-- ===== src/Transcode/Pipeline.antt =====
-- The rest of `audio_process_transcode`: voice activity, resampling, encoding, and the whole.
use mach_audio.Prelude.{
  ltb, if◌then◌else◌, length, ℤ, u64, ntohl, ℕ, ◌+◌, ◌*◌, ◌/◌, Bool, not, ◌&&◌, Option, none, some,
  List, ◌==◌,
}
use mach_audio.Arena.{Arena}
use mach_audio.Simd.{Avx2}
use mach_audio.Codec.{transcode_l16_to_pcmu, transcode_l16_to_pcma}
use mach_audio.Protocol.{input_payload_size}
use mach_audio.Protocol.Bytes.{word32_at}
use mach_audio.Transcode.{
  Dsp, TranscodeSession, codec_pcmu, codec_pcma, codec_l16, vad_sample_rate, float_minus_one,
}
use mach_audio.Transcode.Memory.{
  Run, ok, error, fault, M, pure, fail, crash, ◌>>=◌, ◌>>◌, State, get_session, put_session,
  alloc_or_fail, load, store, load_samples, store_samples, set_curr,
}
use mach_audio.Transcode.Decode.{swap_endian_l16, decode_buffers}

module _ (d : Dsp) (m : Avx2) (le : Bool) where
  -- A call of the detector on `samples` samples of `channels` channels, if the session has one.
  unfoldable pub run_vad : ℕ → ℕ → ℕ → M (State d) (Unit {0})
  run_vad buf samples channels = do
    session ← get_session d
    elim session.vad_state [
      | none ↦ pure tt
      | some vad ↦ (do
        pcm ← load_samples d le buf (samples * channels)
        let result = d.vad_process_pcm vad pcm samples vad_sample_rate channels
        put_session d (record session { last_vad_prob = result.0; vad_state = some result.1 }))
    ]

  unfoldable pub vad_on_input : ℕ × ℕ → M (State d) (Unit {0})
  vad_on_input (l16_buf, l16_samples) = do
    session ← get_session d
    put_session d (record session { last_vad_prob = float_minus_one })
    if session.vad_enabled && session.in_sample_rate == vad_sample_rate
        then run_vad l16_buf l16_samples session.in_channels
        else pure tt

  unfoldable pub resample_block : ℕ × ℕ → M (State d) (ℕ × ℕ)
  resample_block (l16_buf, l16_samples) = do
    session ← get_session d
    if not session.needs_resample
        then pure (l16_buf, l16_samples)
        else if session.in_sample_rate == 0
        then crash
        else (do
          let out_cap =
              u64 (u64 (l16_samples * session.out_sample_rate) / session.in_sample_rate + 128)
          resampled_buf ← alloc_or_fail d (out_cap * session.out_channels * 2)
          samples ← load_samples d le l16_buf l16_samples
          let result =
              d.resample session.resampler session.in_sample_rate session.out_sample_rate samples
                out_cap
          store_samples d le resampled_buf result.0
          put_session d (record session { resampler = result.1 })
          pure (resampled_buf, length result.0))

  unfoldable pub vad_on_output : ℕ × ℕ → M (State d) (Unit {0})
  vad_on_output (resampled_buf, resampled_samples) = do
    session ← get_session d
    if session.vad_enabled
          && (session.last_vad_prob == float_minus_one
              && session.out_sample_rate == vad_sample_rate)
        then run_vad resampled_buf resampled_samples session.out_channels
        else pure tt

  -- `memmove` to the start of the output, and the end of the output as the arena's offset.
  unfoldable pub deliver : ℕ → ℕ → ℕ → M (State d) (Unit {0})
  deliver initial_curr from out_len = do
    bytes ← load d from out_len
    store d initial_curr bytes
    set_curr d (initial_curr + out_len)

  unfoldable pub encode_g711 :
      (Option (List ℤ) → ℕ → Option (List ℕ) → ℤ × Option (List ℕ))
      → ℕ
      → ℕ × ℕ
      → M (State d) (Unit {0})
  encode_g711 codec initial_curr (resampled_buf, resampled_samples) = do
    out ← alloc_or_fail d resampled_samples
    samples ← load_samples d le resampled_buf resampled_samples
    old ← load d out resampled_samples
    elim (codec (some samples) resampled_samples (some old)).1 [
      | none ↦ deliver initial_curr out resampled_samples
      | some new ↦ store d out new >> deliver initial_curr out resampled_samples
    ]

  unfoldable pub encode_l16 : ℕ → ℕ × ℕ → M (State d) (Unit {0})
  encode_l16 initial_curr (resampled_buf, resampled_samples) = do
    session ← get_session d
    let elements = resampled_samples * session.out_channels
    if session.swap_out
        then (do
          samples ← load_samples d le resampled_buf elements
          store_samples d le resampled_buf (swap_endian_l16 samples)
          deliver initial_curr resampled_buf (elements * 2))
        else deliver initial_curr resampled_buf (elements * 2)

  -- An unknown output codec encodes nothing and leaves the arena's offset where it is.
  unfoldable pub encode : ℕ → ℕ × ℕ → M (State d) (Unit {0})
  encode initial_curr block = do
    session ← get_session d
    if session.out_payload_type == codec_pcmu
        then encode_g711 transcode_l16_to_pcmu initial_curr block
        else if session.out_payload_type == codec_pcma
        then encode_g711 transcode_l16_to_pcma initial_curr block
        else if session.out_payload_type == codec_l16
        then encode_l16 initial_curr block
        else pure tt

  -- The stages behind the decoder.
  unfoldable pub process_block : ℕ → ℕ × ℕ → M (State d) (Unit {0})
  process_block initial_curr block = do
    vad_on_input block
    resampled ← resample_block block
    vad_on_output resampled
    encode initial_curr resampled

  unfoldable pub finish : ℕ → Option (ℕ × ℕ) → M (State d) (Unit {0})
  finish initial_curr none = fail
  finish initial_curr (some (l16_buf, l16_samples)) =
      if l16_samples == 0 then fail else process_block initial_curr (l16_buf, l16_samples)

  -- `audio_process_transcode` on a session, a payload and an arena that are not null: `ok` is the
  -- return value 0, `error` -1. The number of buffers is read before anything is tested.
  unfoldable pub process : List ℕ → ℕ → M (State d) (Unit {0})
  process payload payload_len s =
      let initial_curr = s.arena.curr in
      let num_buffers = ntohl le (word32_at le payload 0) in
      if ltb (length payload) 4
      then fault
      else if num_buffers == 0
      then ok tt s
      else (decode_buffers d m le payload payload_len num_buffers input_payload_size none
            >>= finish initial_curr)
          s

  -- With the null tests; the arena's offset is read before it is tested for null.
  unfoldable pub audio_process_transcode :
      Option (TranscodeSession d)
      → Option (List ℕ)
      → ℕ
      → Option Arena
      → Run (Option (State d)) (Unit {0})
  audio_process_transcode session payload payload_len none = fault
  audio_process_transcode (some session) (some payload) payload_len (some arena) =
      elim (process payload payload_len (record { session = session; arena = arena })) [
        | ok a s ↦ ok a (some s)
        | error s ↦ error (some s)
        | fault ↦ fault
      ]
  audio_process_transcode session payload payload_len (some arena) = error none
