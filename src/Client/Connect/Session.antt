-- ===== src/Client/Connect/Session.antt =====
-- The session that `on_connect` announces, as the server reads it.
use mach_audio.Prelude.{
  if◌then◌else◌, length, ℤ, pos, negsuc, u32, host_u16, host_u32, store_u16, store_u32, ntohs,
  ntohl, ℕ, ◌+◌, ◌%◌, ◌^◌, ◌<◌, ◌≡◌, refl, sym, ap, ◌∙◌, Bool, true, false, not, ◌&&◌, Option, none,
  some, [], ◌∷◌, ◌++◌, append-nil, arith, ◌==◌,
}
use mach_audio.Client.{ClientConfig, ClientConnection}
use mach_audio.Client.Connect.{on_connect, start_payload}
use mach_audio.Client.Send.{client_message}
use mach_audio.Protocol.{audio_magic, audio_version, start_payload_size}
use mach_audio.Protocol.Bytes.{load_start, store_header}
use mach_audio.Protocol.Header.{IsHeader, encoded_header}
use mach_audio.Server.Messages.{Message, header_of, wire}
use mach_audio.Transcode.{
  Dsp, TranscodeSession, codec_l16, configured, endian_big, endian_little, flags_vad_enabled,
  is_host_little_endian, needs_swap, session_init,
}

abbrev pub start_message : Bool → ℕ → ClientConfig → Message
start_message le sequence_id config = record {
  command = 1;
  sequence_id = sequence_id;
  payload = start_payload le config;
}

-- The fields of a configuration fit their types.
pub record IsConfig (config : ClientConfig) : Type 0 where
  pub rate_fits : config.rate < 2 ^ 32
  pub out_rate_fits : config.out_rate < 2 ^ 32

pub length-start_payload :
    (le : Bool) (config : ClientConfig) → length (start_payload le config) ≡ start_payload_size
unfolding start_payload store_u16 store_u32
length-start_payload true config = refl
length-start_payload false config = refl

-- A connection that is established and has announced its session.
abbrev pub started : Bool → ClientConfig → ClientConnection → ClientConnection
started le config conn = record conn {
  sequence_id = u32 (conn.sequence_id + 1);
  timer_active = true;
  written = conn.written ++ wire le (start_message le conn.sequence_id config ∷ []);
}

pub on_connect_lem :
    (le : Bool) (config : ClientConfig) (status : ℕ) (conn : ClientConnection)
    → on_connect le config (pos status) conn ≡ started le config conn
unfolding on_connect client_message
on_connect_lem le config status conn =
    let length_field : u32 start_payload_size ≡ length (start_payload le config) =
      sym (length-start_payload le config) in
    λ i. record (started le config conn) {
      written =
          conn.written
          ++ (store_header le (
                encoded_header le (record {
                  magic = audio_magic;
                  version = audio_version;
                  command = 1;
                  sequence_id = conn.sequence_id;
                  payload_len = length_field i;
                }))
              ++ sym (append-nil (start_payload le config)) i);
    }

-- A CMD_START payload as the server loads it, before it is taken from network order, with its
-- words taken from there.
start_payload_words :
    (le server_le : Bool) (config : ClientConfig)
    → IsConfig config
    → let c = load_start server_le (start_payload le config) in
      (ntohs server_le c.flags ≡ (if config.vad_enabled then flags_vad_enabled else 0))
      × (ntohl server_le c.in_sample_rate ≡ config.rate)
      × (ntohl server_le c.out_sample_rate ≡ config.out_rate)
unfolding start_payload load_start store_u16 store_u32 ntohs ntohl host_u16 host_u32
start_payload_words true true config h = ground arith
start_payload_words true false config h = ground arith
start_payload_words false true config h = ground arith
start_payload_words false false config h = ground arith

start_payload_bytes :
    (le server_le : Bool) (config : ClientConfig)
    → let c = load_start server_le (start_payload le config) in
      (c.in_payload_type ≡ config.format)
      × (c.in_channels ≡ config.channels)
      × (c.in_endian ≡ config.in_endian)
      × (c.out_payload_type ≡ config.out_format)
      × (c.out_channels ≡ config.out_channels)
      × (c.out_endian ≡ config.out_endian)
unfolding start_payload load_start store_u16 store_u32
start_payload_bytes true true config = (refl, refl, refl, refl, refl, refl)
start_payload_bytes true false config = (refl, refl, refl, refl, refl, refl)
start_payload_bytes false true config = (refl, refl, refl, refl, refl, refl)
start_payload_bytes false false config = (refl, refl, refl, refl, refl, refl)

-- What a session has of a client's configuration, on a server of the byte order `server_le`.
pub record IsConfigured {d : Dsp} (server_le : Bool) (config : ClientConfig)
    (t : TranscodeSession d) : Type 0 where
  pub in_codec : t.in_payload_type ≡ config.format
  pub in_width : t.in_channels ≡ config.channels
  pub in_order : t.in_endian ≡ config.in_endian
  pub in_rate : t.in_sample_rate ≡ config.rate
  pub out_codec : t.out_payload_type ≡ config.out_format
  pub out_width : t.out_channels ≡ config.out_channels
  pub out_order : t.out_endian ≡ config.out_endian
  pub out_rate : t.out_sample_rate ≡ config.out_rate
  pub detects : t.vad_enabled ≡ config.vad_enabled
  pub resamples : t.needs_resample ≡ not (config.rate == config.out_rate)
  pub swaps_in :
      t.swap_in
      ≡ (config.format == codec_l16)
        && (if server_le then config.in_endian == endian_big else config.in_endian == endian_little)
  pub swaps_out :
      t.swap_out
      ≡ (config.out_format == codec_l16)
        && (if server_le
            then config.out_endian == endian_big
            else config.out_endian == endian_little)

swap_lem :
    (server_le : Bool) (codec endian : ℕ)
    → needs_swap (is_host_little_endian server_le) codec endian
      ≡ (codec == codec_l16)
        && (if server_le then endian == endian_big else endian == endian_little)
unfolding needs_swap is_host_little_endian
swap_lem true codec endian = ground arith
swap_lem false codec endian = ground arith

flag_lem : (enabled : Bool) → not ((if enabled then flags_vad_enabled else 0) % 2 == 0) ≡ enabled
flag_lem true = refl
flag_lem false = refl

configured-start_payload :
    (d : Dsp) (le server_le : Bool) (config : ClientConfig)
    → IsConfig config
    → IsConfigured server_le config
        (configured d server_le (load_start server_le (start_payload le config)))
unfolding configured
configured-start_payload d le server_le config h =
    let w = start_payload_words le server_le config h in
    let b = start_payload_bytes le server_le config in
    record {
      in_codec = b.0;
      in_width = b.1;
      in_order = b.2;
      in_rate = w.1;
      out_codec = b.3;
      out_width = b.4;
      out_order = b.5;
      out_rate = w.2;
      detects = ap (λ flags. not (flags % 2 == 0)) w.0 ∙ flag_lem config.vad_enabled;
      resamples = ground (arith, w);
      swaps_in =
          (λ i. needs_swap (is_host_little_endian server_le) (b.0 i) (b.2 i))
          ∙ swap_lem server_le config.format config.in_endian;
      swaps_out =
          (λ i. needs_swap (is_host_little_endian server_le) (b.3 i) (b.5 i))
          ∙ swap_lem server_le config.out_format config.out_endian;
    }

-- A server of any byte order that sets up a session from a client's CMD_START payload, by
-- `transcode_session_init`, has the formats, channels, byte orders and rates of the client's
-- configuration, if both rates fit 32 bits, whatever its resampler answers. It runs the voice
-- detector exactly if the client asks for it, resamples exactly if the rates differ, and swaps the
-- input's or the output's samples exactly if their format is L16 and their declared byte order is the
-- one that the server does not have.
pub session_init-start_payload :
    (d : Dsp) (le server_le : Bool) (config : ClientConfig)
    → IsConfig config
    → IsConfigured server_le config
        (session_init d server_le (load_start server_le (start_payload le config))).1
unfolding session_init
session_init-start_payload d le server_le config h =
    set_up t.needs_resample (d.resampler_init t.resampler t.in_sample_rate t.out_sample_rate)
  where
    t : TranscodeSession d
    t = configured d server_le (load_start server_le (start_payload le config))

    fields : IsConfigured server_le config t
    fields = configured-start_payload d le server_le config h

    set_up :
        (resamples : Bool) (got : Option d.Resampler)
        → (let r : ℤ × TranscodeSession d =
              if resamples
              then elim got [ none ↦ (negsuc 0, t) | some r ↦ (pos 0, record t { resampler = r }) ]
              else (pos 0, t) in
            IsConfigured server_le config r.1)
    set_up false got = fields
    set_up true none = fields
    set_up true (some r) = record {
      in_codec = fields.in_codec;
      in_width = fields.in_width;
      in_order = fields.in_order;
      in_rate = fields.in_rate;
      out_codec = fields.out_codec;
      out_width = fields.out_width;
      out_order = fields.out_order;
      out_rate = fields.out_rate;
      detects = fields.detects;
      resamples = fields.resamples;
      swaps_in = fields.swaps_in;
      swaps_out = fields.swaps_out;
    }

pub start-IsHeader :
    (le : Bool) (seq : ℕ) (config : ClientConfig)
    → seq < 2 ^ 32
    → IsHeader (header_of (start_message le seq config))
start-IsHeader le seq config h =
    let n = length-start_payload le config in
    record {
      magic_fits = omega arith;
      version_fits = omega arith;
      command_fits = omega arith;
      sequence_fits = h;
      payload_fits = omega (arith, n);
    }
