-- ===== src/Transcode/Safety/Whole.antt =====
-- The whole of `audio_process_transcode` does not fault on sessions and messages that it can serve.
use mach_audio.Prelude.{
  ltb, Bool-cases, length, ntohl, ℕ, ◌^◌, ◌≤◌, ◌<◌, ◌≡◌, inl, inr, Bool, false, Option, none, some,
  List, arith, ◌==◌,
}
use mach_audio.Protocol.{input_payload_size}
use mach_audio.Protocol.Bytes.{AreBytes, word32_at}
use mach_audio.Simd.{Avx2, IsAvx2}
use mach_audio.Transcode.{Dsp, IsDsp}
use mach_audio.Transcode.Decode.{decode_buffers}
use mach_audio.Transcode.Hoare.{Done, Done-bind, Done-if, IsReady}
use mach_audio.Transcode.Memory.{State, fail}
use mach_audio.Transcode.Pipeline.{
  finish, process, process_block, resample_block, vad_on_input, vad_on_output,
}
use mach_audio.Transcode.Safety.{IsHeld, IsKept}
use mach_audio.Transcode.Safety.Output.{AfterEncode, encode-Done}
use mach_audio.Transcode.Safety.Resample.{AfterResample, resample_block-Done}
use mach_audio.Transcode.Safety.Rounds.{AfterLoop, LengthsFit, decode_buffers-Done}
use mach_audio.Transcode.Safety.Stages.{AfterSame, vad_on_input-Done, vad_on_output-Done}

module _ (d : Dsp) (dsp : IsDsp d) (m : Avx2) (avx : IsAvx2 m) (le : Bool) where
  process_block-Done :
      (c0 : ℕ) (block : ℕ × ℕ) (s : State d)
      → IsHeld d c0 block s
      → Done d c0 (AfterEncode d c0 m le) (process_block d m le c0 block s)
  unfolding process_block
  process_block-Done c0 (p, n) s h =
      Done-bind d c0 (AfterSame d c0 s) (AfterEncode d c0 m le) (vad_on_input d m le (p, n)) _ s
        (vad_on_input-Done d c0 m le p n s h)
        (λ _ s1 q1.
          Done-bind d c0 (AfterResample d dsp c0 m le) (AfterEncode d c0 m le)
            (resample_block d m le (p, n)) _ s1
            (resample_block-Done d dsp c0 m le p n s1 (record {
              ready = q1.ready;
              from = h.from;
              until = rw (q1.used, q1.same_inputs) h.until;
            }))
            (λ block s2 q2.
              Done-bind d c0 (AfterSame d c0 s2) (AfterEncode d c0 m le)
                (vad_on_output d m le block) _ s2 (vad_on_output-Done d c0 m le block s2 q2)
                (λ _ s3 q3. encode-Done d c0 m le block s3 (record {
                  ready = q3.ready;
                  from = q2.from;
                  as_mono = rw q3.used q2.as_mono;
                  as_output = rw (q3.used, q3.same_outputs) q2.as_output;
                }))))

  -- Take an arena that is valid and smaller than 2 ^ 32, and a session with: an input channel; one
  -- input channel for G.711; fewer than 256 channels either way; an output rate below 2 ^ 16; an
  -- input rate and an output channel, if it resamples, and else no more channels out than in. Take
  -- a payload of bytes of the length stated or more, which is 4 or more and below 2 ^ 31, and in
  -- which no length field reaches past 2 ^ 32. Let the resampler and the detector, which are any
  -- functions here and not the repository's own, return, the resampler no more samples than its
  -- capacity. Then the rest of the call reads and writes inside the payload and the arena and
  -- divides by no 0. It returns, and the arena is valid still, with its offset not below the one
  -- before.
  pub process-Done :
      (payload : List ℕ) (payload_len : ℕ) (s : State d)
      → AreBytes payload
      → payload_len ≤ length payload
      → 4 ≤ payload_len
      → payload_len < 2 ^ 31
      → LengthsFit le payload payload_len (ntohl le (word32_at le payload 0)) input_payload_size
      → IsReady d s.arena.curr s
      → Done d s.arena.curr
          (λ _ s'. IsReady d s.arena.curr s')
          (process d m le payload payload_len s)
  unfolding process finish Done
  process-Done payload payload_len s bytes within counted short fit h =
      elim (Bool-cases (count == 0)) [
        | inl none_sent ↦ rw (has_count, none_sent) h
        | inr some_sent ↦
            rw (has_count, some_sent)
              (Done-bind d c0 (AfterLoop d m avx le payload bytes c0 payload_len within short) After
                (decode_buffers d m le payload payload_len count input_payload_size none)
                (finish d m le c0) s
                (decode_buffers-Done d m avx le payload bytes c0 payload_len within short count
                  input_payload_size none s (omega arith) fit h)
                (λ first s1 q. finished first s1 q))
      ]
    where
      has_count : ltb (length payload) 4 ≡ false
      has_count = ground arith

      c0 : ℕ
      c0 = s.arena.curr

      count : ℕ
      count = ntohl le (word32_at le payload 0)

      After : Unit {0} → State d → Type 0
      After _ s' = IsReady d c0 s'

      finished :
          (first : Option (ℕ × ℕ)) (s1 : State d)
          → IsKept d c0 s1 first
          → Done d c0 After (finish d m le c0 first s1)
      finished none s1 q = q
      finished (some (p, n)) s1 q =
          Done-if d c0 After (n == 0) fail (process_block d m le c0 (p, n)) s1 (λ _. q.ready)
            (λ _. process_block-Done c0 (p, n) s1 q)
