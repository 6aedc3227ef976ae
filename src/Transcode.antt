-- ===== src/Transcode.antt =====
-- The transcoding session: include/machaudio/transcode.h and processing/transcode.c.
-- The resampler and the voice activity detector come in through the interface `Dsp`.
pub mod Memory
pub mod Decode
pub mod Pipeline
pub mod Session
pub mod Endian
pub mod Errors
pub mod Silent
pub mod Hoare
pub mod Safety
mod Tests
use mach_audio.Prelude.{
  if◌then◌else◌, length, get_or, ℤ, pos, negsuc, store_u16, ntohs, ntohl, ℕ, ◌%◌, ◌≤◌, Bool, false,
  not, ◌&&◌, ◌||◌, Option, none, some, List, ◌==◌,
}
use mach_audio.Protocol.{AudioStartPayload}

abbrev pub codec_pcmu : ℕ
codec_pcmu = 0

abbrev pub codec_pcma : ℕ
codec_pcma = 8

abbrev pub codec_l16 : ℕ
codec_l16 = 96

abbrev pub endian_little : ℕ
endian_little = 1

abbrev pub endian_big : ℕ
endian_big = 2

abbrev pub flags_vad_enabled : ℕ
flags_vad_enabled = 1

abbrev pub vad_sample_rate : ℕ
vad_sample_rate = 16000

-- The bit patterns of the floats -1.0f and 0.0f. A float equals -1.0f exactly if it has this
-- pattern.
abbrev pub float_minus_one : ℕ
float_minus_one = 0xBF800000

abbrev pub float_zero : ℕ
float_zero = 0

-- What the session asks of resample.c, resample_adv.c and vad_gru.c: their states, and their
-- functions on the samples that they are handed. `init` is `none` where it returns -1; `resample`
-- gives the samples that it stores and the state after; `vad_process_pcm` a probability's bit
-- pattern and the state after.
pub record Dsp : Type 1 where
  pub Resampler : Type 0
  pub cleared : Resampler
  pub resampler_init : Resampler → ℕ → ℕ → Option Resampler
  pub resample : Resampler → ℕ → ℕ → List ℤ → ℕ → List ℤ × Resampler
  pub Vad : Type 0
  pub vad_reset : Vad
  pub vad_process_pcm : Vad → List ℤ → ℕ → ℕ → ℕ → ℕ × Vad

-- The resampler stores no more samples than the capacity that it is given.
pub record IsDsp (d : Dsp) : Type 0 where
  pub resample_fits :
      (r : d.Resampler) (in_rate out_rate : ℕ) (xs : List ℤ) (capacity : ℕ)
      → length (d.resample r in_rate out_rate xs capacity).0 ≤ capacity

module _ (d : Dsp) where
  pub record TranscodeSession : Type 0 where
    pub in_payload_type : ℕ
    pub in_channels : ℕ
    pub in_endian : ℕ
    pub in_sample_rate : ℕ
    pub out_payload_type : ℕ
    pub out_channels : ℕ
    pub out_endian : ℕ
    pub out_sample_rate : ℕ
    pub swap_in : Bool
    pub swap_out : Bool
    pub needs_resample : Bool
    pub resampler : d.Resampler
    pub vad_state : Option d.Vad
    pub vad_enabled : Bool
    pub last_vad_prob : ℕ

  -- `memset(session, 0, sizeof(TranscodeSession))`.
  abbrev pub zeroed : TranscodeSession
  zeroed = record {
    in_payload_type = 0;
    in_channels = 0;
    in_endian = 0;
    in_sample_rate = 0;
    out_payload_type = 0;
    out_channels = 0;
    out_endian = 0;
    out_sample_rate = 0;
    swap_in = false;
    swap_out = false;
    needs_resample = false;
    resampler = d.cleared;
    vad_state = none;
    vad_enabled = false;
    last_vad_prob = float_zero;
  }

  -- `transcode_session_stop`.
  unfoldable pub transcode_session_stop : Option TranscodeSession → Option TranscodeSession
  transcode_session_stop none = none
  transcode_session_stop (some session) = some zeroed

-- `*((uint8_t *)&x) == 1` of the uint16_t 1: the first byte in memory.
unfoldable pub is_host_little_endian : Bool → Bool
unfolding store_u16
is_host_little_endian le = get_or (store_u16 le 1) 0 0 == 1

-- Whether samples of a codec and a declared endianness are swapped on this host.
unfoldable pub needs_swap : Bool → ℕ → ℕ → Bool
needs_swap host_le payload_type endian =
    (payload_type == codec_l16)
    && (((endian == endian_little) && not host_le) || ((endian == endian_big) && host_le))

module _ (d : Dsp) (le : Bool) where
  -- The session's fields but the resampler, from the CMD_START payload.
  unfoldable pub configured : AudioStartPayload → TranscodeSession d
  configured config =
      let host_le = is_host_little_endian le in
      let in_rate = ntohl le config.in_sample_rate in
      let out_rate = ntohl le config.out_sample_rate in
      let vad = not (ntohs le config.flags % 2 == 0) in
      record {
        in_payload_type = config.in_payload_type;
        in_channels = config.in_channels;
        in_endian = config.in_endian;
        in_sample_rate = in_rate;
        out_payload_type = config.out_payload_type;
        out_channels = config.out_channels;
        out_endian = config.out_endian;
        out_sample_rate = out_rate;
        swap_in = needs_swap host_le config.in_payload_type config.in_endian;
        swap_out = needs_swap host_le config.out_payload_type config.out_endian;
        needs_resample = not (in_rate == out_rate);
        resampler = d.cleared;
        vad_state = none;
        vad_enabled = vad;
        last_vad_prob = if vad then float_zero else float_minus_one;
      }

  -- `transcode_session_init` behind its null tests: the return value and the session after.
  unfoldable pub session_init : AudioStartPayload → ℤ × TranscodeSession d
  session_init config =
      let session = configured config in
      if session.needs_resample
      then elim (d.resampler_init session.resampler session.in_sample_rate
          session.out_sample_rate) [
            | none ↦ (negsuc 0, session)
            | some r ↦ (pos 0, record session { resampler = r })
          ]
      else (pos 0, session)

  unfoldable pub transcode_session_init :
      Option (TranscodeSession d) → Option AudioStartPayload → ℤ × Option (TranscodeSession d)
  transcode_session_init none config = (negsuc 0, none)
  transcode_session_init (some session) none = (negsuc 0, some session)
  transcode_session_init (some session) (some config) =
      let (r, after) = session_init config in (r, some after)
