-- ===== src/Transcode/Tests.antt =====
-- The session's theorems at concrete sessions, messages and arenas.
use mach_audio.Prelude.{
  replicate, ℤ, pos, negsuc, host_u32, ntohl, ℕ, ◌≡◌, refl, true, false, some, List, [], ◌∷◌, ◌++◌,
  arith,
}
use mach_audio.Arena.{Arena, align_up, alloc}
use mach_audio.Mix.Saturate.{AreI16}
use mach_audio.Protocol.{AudioStartPayload, input_payload_size}
use mach_audio.Protocol.Bytes.{word32_at}
use mach_audio.Protocol.Parse.{parse_next_buffer}
use mach_audio.Simd.Lanes.{lanes, lanes-IsAvx2}
use mach_audio.Transcode.{TranscodeSession, configured, session_init, zeroed}
use mach_audio.Transcode.Decode.{decode_l16}
use mach_audio.Transcode.Endian.Samples.{decode_l16-samples_of, encode_l16-bytes_of}
use mach_audio.Transcode.Hoare.{Done, IsReady}
use mach_audio.Transcode.Memory.{State, bytes_of, load, load_samples, ok, samples_of, slice}
use mach_audio.Transcode.Pipeline.{encode_l16, process}
use mach_audio.Transcode.Safety.Rounds.{LengthsFit}
use mach_audio.Transcode.Safety.Whole.{process-Done}
use mach_audio.Transcode.Silent.{silent, silent-IsDsp}

-- 8 kHz L16 to 16 kHz PCMA, its words as a big-endian host reads them.
abbrev start_l16 : AudioStartPayload
start_l16 = record {
  in_payload_type = 96;
  in_channels = 1;
  flags = 1;
  in_sample_rate = 8000;
  in_endian = 2;
  out_payload_type = 8;
  out_channels = 1;
  out_endian = 0;
  out_sample_rate = 16000;
}

start_refused : (session_init silent false start_l16).0 ≡ negsuc 0
unfolding session_init configured ntohl
start_refused = refl

abbrev two_samples : List ℤ
two_samples = pos 258 ∷ negsuc 0 ∷ []

two_samples-AreI16 : AreI16 two_samples
two_samples-AreI16 = omega arith

abbrev small_arena : Arena
small_arena = record { name = []; buf = some (replicate 64 7); size = 64; curr = 0 }

abbrev l16_no_channels : TranscodeSession silent
l16_no_channels = record (zeroed silent) { in_payload_type = 96 }

abbrev before : State silent
before = record { session = l16_no_channels; arena = small_arena }

abbrev no_buffers : List ℕ
no_buffers = replicate 8 0

-- One buffer is announced, and there is none.
abbrev cut_short : List ℕ
cut_short = 0 ∷ 0 ∷ 0 ∷ 1 ∷ 0 ∷ 0 ∷ 0 ∷ 0 ∷ []

-- One buffer of 2 bytes.
abbrev one_sample : List ℕ
one_sample = cut_short ++ (0 ∷ 0 ∷ 0 ∷ 2 ∷ 0 ∷ 0 ∷ 0 ∷ 0 ∷ 1 ∷ 2 ∷ [])

abbrev l16_mono : TranscodeSession silent
l16_mono = record (zeroed silent) {
  in_payload_type = 96;
  in_channels = 1;
  out_payload_type = 96;
  out_channels = 1;
}

abbrev mono_before : State silent
mono_before = record { session = l16_mono; arena = small_arena }

mono_before-IsReady : IsReady silent 0 mono_before
mono_before-IsReady = record {
  valid = record {
    storage = replicate 64 7;
    backed = refl;
    fits = omega arith;
    positive = omega arith;
    small = omega arith;
    used = omega arith;
  };
  below = omega arith;
  above = omega arith;
  servable = record {
    mono = λ h. refl;
    has_channel = omega arith;
    in_fits = omega arith;
    out_fits = omega arith;
    rate_fits = omega arith;
    has_rate = λ e. absurd (ground arith);
    no_wider = λ e. omega arith;
  };
}

one_sample-LengthsFit :
    LengthsFit true one_sample 18 (ntohl true (word32_at true one_sample 0)) input_payload_size
unfolding ntohl host_u32 LengthsFit parse_next_buffer
one_sample-LengthsFit = ((λ p e. ground arith), tt)

process-Done_example :
    Done silent 0
      (λ _ s'. IsReady silent 0 s')
      (process silent lanes true one_sample 18 mono_before)
process-Done_example =
    process-Done silent silent-IsDsp lanes lanes-IsAvx2 true one_sample 18 mono_before (omega arith)
      (omega arith) (omega arith) (omega arith) one_sample-LengthsFit mono_before-IsReady

-- Big-endian L16 in and out.
abbrev l16_big : AudioStartPayload
l16_big = record start_l16 { out_payload_type = 96; out_endian = 2 }

abbrev big_session : TranscodeSession silent
big_session = configured silent true l16_big

abbrev big_before : State silent
big_before = record { session = big_session; arena = small_arena }

decode_l16-samples_of_example :
    (after : State silent) × (decode_l16 silent lanes true one_sample big_session 16 2 big_before
      ≡ ok (0, 1) after)
    × (load_samples silent true 0 1 after ≡ ok (samples_of false (1 ∷ 2 ∷ [])) after)
unfolding configured alloc slice align_up
decode_l16-samples_of_example =
    decode_l16-samples_of silent lanes true false l16_big big_session one_sample big_before 16 2 0
      (record small_arena { curr = 2 }) (1 ∷ 2 ∷ []) (replicate 64 7) refl refl refl (omega arith)
      refl refl (omega arith) refl (omega arith)

encode_l16-bytes_of_example :
    (after : State silent) × (encode_l16 silent lanes true 0 (8, 2) big_before ≡ ok tt after)
    × (after.arena.curr ≡ 4)
    × (load silent 0 4 after ≡ ok (bytes_of false (samples_of true (7 ∷ 7 ∷ 7 ∷ 7 ∷ []))) after)
unfolding configured slice
encode_l16-bytes_of_example =
    encode_l16-bytes_of silent lanes true false l16_big big_before 0 8 2 (replicate 64 7)
      (7 ∷ 7 ∷ 7 ∷ 7 ∷ []) refl refl refl refl refl (omega arith) (omega arith) (omega arith)
