-- ===== src/Client/Args.antt =====
-- `parse_args` and `get_codec_extension` of client/main.c. `getopt_long` and `atoi` belong to the C
-- library: the loop takes the options in the order in which `getopt_long` returns them, and `atoi`
-- is a parameter.
pub mod Laws
use Prim.Native.String.{String}
use mach_audio.Prelude.{
  if◌then◌else◌, ℤ, pos, negsuc, ltb_ℤ, ℕ, zero, ◌-◌, ◌%◌, ◌^◌, Bool, true, false, not, ◌&&◌, ◌||◌,
  Option, none, some, List, [], ◌∷◌, ◌==◌,
}
use mach_audio.Client.{
  ClientConfig, default_rate, default_channels, default_format, default_concurrent,
  default_ptime_ms,
}

-- The casts `(uint8_t)` and `(uint32_t)` of an int.
abbrev pub u8_of_int : ℤ → ℕ
u8_of_int (pos n) = n % 256
u8_of_int (negsuc n) = 255 - n % 256

abbrev pub u32_of_int : ℤ → ℕ
u32_of_int (pos n) = n % 2 ^ 32
u32_of_int (negsuc n) = 2 ^ 32 - 1 - n % 2 ^ 32

abbrev pub is_some {ℓ} : {A : Type ℓ} → Option A → Bool
is_some none = false
is_some (some a) = true

abbrev pub is_zero : ℤ → Bool
is_zero (pos zero) = true
is_zero _ = false

unfoldable pub get_codec_extension : ℕ → String
get_codec_extension format =
    if format == 0
    then "mulaw"
    else if format == 8
    then "alaw"
    else if format == 96
    then "l16"
    else "raw"

-- What `getopt_long` returns, with `optarg` where the option takes one. `other` is any letter
-- without a case of its own, such as `?`.
pub data ClientOption : Type 0 where
  uds_dir uds_name host port input input2 : String → ClientOption
  format rate channels in_endian out_format : String → ClientOption
  out_rate out_channels out_endian concurrent ptime duration ramp_up : String → ClientOption
  write_output loop vad help other : ClientOption

-- The configuration, or the status of `exit`.
pub data Parsed : Type 0 where
  accepted : ClientConfig → Parsed
  exited : ℕ → Parsed

abbrev pub default_uds_dir : String
default_uds_dir = "/tmp"

-- The configuration before the loop; what `parse_args` does not set is zero.
abbrev pub initial : ClientConfig
initial = record {
  uds_dir = none;
  uds_name = none;
  host = none;
  port = pos 0;
  input_file = none;
  input_file_2 = none;
  write_output = false;
  rate = default_rate;
  channels = default_channels;
  format = default_format;
  in_endian = 1;
  out_rate = 16000;
  out_channels = 1;
  out_format = 96;
  out_endian = 1;
  concurrent = default_concurrent;
  ptime = default_ptime_ms;
  loop = false;
  duration_sec = 0;
  vad_enabled = false;
  ramp_up_sec = 0;
}

abbrev pub default_uds_name : String
default_uds_name = "machaudio"

-- The tests behind the loop, in their order; the message and the usage are printed in front of
-- each exit.
unfoldable pub check_config : ClientConfig → Parsed
check_config c =
    if is_some c.uds_dir && (is_some c.host || not (is_zero c.port))
    then exited 1
    else if is_some c.host && is_zero c.port
    then exited 1
    else if is_some c.host && (ltb_ℤ c.port (pos 1024) || ltb_ℤ (pos 65535) c.port)
    then exited 1
    else if not (is_some c.input_file)
    then exited 1
    else accepted c

-- The defaults of the socket's directory and name.
unfoldable pub with_defaults : ClientConfig → ClientConfig
with_defaults c = record c {
  uds_dir =
      if not (is_some c.uds_dir) && not (is_some c.host) then some default_uds_dir else c.uds_dir;
  uds_name = if not (is_some c.uds_name) then some default_uds_name else c.uds_name;
}

module _ (atoi : String → ℤ) where
  -- A case of the switch.
  unfoldable pub set_option : ClientConfig → ClientOption → Parsed
  set_option c (ClientOption.uds_dir arg) = accepted (record c { uds_dir = some arg })
  set_option c (ClientOption.uds_name arg) = accepted (record c { uds_name = some arg })
  set_option c (ClientOption.host arg) = accepted (record c { host = some arg })
  set_option c (ClientOption.port arg) = accepted (record c { port = atoi arg })
  set_option c (ClientOption.input arg) = accepted (record c { input_file = some arg })
  set_option c (ClientOption.input2 arg) = accepted (record c { input_file_2 = some arg })
  set_option c ClientOption.write_output = accepted (record c { write_output = true })
  set_option c (ClientOption.format arg) = accepted (record c { format = u8_of_int (atoi arg) })
  set_option c (ClientOption.rate arg) = accepted (record c { rate = u32_of_int (atoi arg) })
  set_option c (ClientOption.channels arg) = accepted (record c { channels = u8_of_int (atoi arg) })
  set_option c (ClientOption.in_endian arg) =
      accepted (record c { in_endian = u8_of_int (atoi arg) })
  set_option c (ClientOption.out_format arg) =
      accepted (record c { out_format = u8_of_int (atoi arg) })
  set_option c (ClientOption.out_rate arg) =
      accepted (record c { out_rate = u32_of_int (atoi arg) })
  set_option c (ClientOption.out_channels arg) =
      accepted (record c { out_channels = u8_of_int (atoi arg) })
  set_option c (ClientOption.out_endian arg) =
      accepted (record c { out_endian = u8_of_int (atoi arg) })
  set_option c (ClientOption.concurrent arg) =
      accepted (record c { concurrent = u32_of_int (atoi arg) })
  set_option c (ClientOption.ptime arg) = accepted (record c { ptime = u32_of_int (atoi arg) })
  set_option c ClientOption.loop = accepted (record c { loop = true })
  set_option c (ClientOption.duration arg) =
      accepted (record c { duration_sec = u32_of_int (atoi arg) })
  set_option c ClientOption.vad = accepted (record c { vad_enabled = true })
  set_option c (ClientOption.ramp_up arg) =
      accepted (record c { ramp_up_sec = u32_of_int (atoi arg) })
  set_option c ClientOption.help = exited 0
  set_option c ClientOption.other = exited 1

  -- The loop over the options, and the tests behind it.
  unfoldable pub parse_loop : ClientConfig → List ClientOption → Parsed
  parse_loop c [] = check_config (with_defaults c)
  parse_loop c (option ∷ options) = elim (set_option c option) [
    | accepted next ↦ parse_loop next options
    | exited status ↦ exited status
  ]

  unfoldable pub parse_args : List ClientOption → Parsed
  unfolding parse_loop set_option check_config with_defaults
  parse_args options = parse_loop initial options
