-- ===== src/Protocol.antt =====
-- The wire protocol: include/machaudio/protocol.h and protocol/parser.c.
-- A payload in memory is its list of bytes, and a pointer into it is an offset; a null pointer
-- is `none`. `le` says whether the host is little-endian. A float is its 32-bit pattern.
pub mod Bytes
pub mod Header
pub mod Parse
pub mod Container
mod Tests
use mach_audio.Prelude.{ℕ}

abbrev pub audio_magic : ℕ
audio_magic = 0x4D414348

abbrev pub audio_version : ℕ
audio_version = 1

-- `AudioCommand`; any other number is `unknown`.
pub data AudioCommand : Type 0 where
  start input output stop error ping pong discover discover_reply : AudioCommand
  unknown : ℕ → AudioCommand

unfoldable pub command_code : AudioCommand → ℕ
command_code AudioCommand.start = 0x01
command_code AudioCommand.input = 0x02
command_code AudioCommand.output = 0x03
command_code AudioCommand.stop = 0x04
command_code AudioCommand.error = 0x05
command_code AudioCommand.ping = 0x06
command_code AudioCommand.pong = 0x07
command_code AudioCommand.discover = 0x08
command_code AudioCommand.discover_reply = 0x09
command_code (AudioCommand.unknown n) = n

pub data AudioErrorCode : Type 0 where
  no_error invalid_magic unsupported_version invalid_command : AudioErrorCode
  invalid_payload processing_failed internal_error : AudioErrorCode

unfoldable pub error_code : AudioErrorCode → ℕ
error_code AudioErrorCode.no_error = 0
error_code AudioErrorCode.invalid_magic = 1
error_code AudioErrorCode.unsupported_version = 2
error_code AudioErrorCode.invalid_command = 3
error_code AudioErrorCode.invalid_payload = 4
error_code AudioErrorCode.processing_failed = 5
error_code AudioErrorCode.internal_error = 6

pub record AudioMsgHeader : Type 0 where
  pub magic : ℕ
  pub version : ℕ
  pub command : ℕ
  pub sequence_id : ℕ
  pub payload_len : ℕ

-- `struct audio_start_payload`, its words as the host reads them from the wire's bytes.
pub record AudioStartPayload : Type 0 where
  pub in_payload_type : ℕ
  pub in_channels : ℕ
  pub flags : ℕ
  pub in_sample_rate : ℕ
  pub in_endian : ℕ
  pub out_payload_type : ℕ
  pub out_channels : ℕ
  pub out_endian : ℕ
  pub out_sample_rate : ℕ

pub record AudioBufferHeader : Type 0 where
  pub length : ℕ
  pub volume : ℕ

abbrev pub header_size : ℕ
header_size = 16

abbrev pub start_payload_size : ℕ
start_payload_size = 16

abbrev pub input_payload_size : ℕ
input_payload_size = 8

abbrev pub buffer_header_size : ℕ
buffer_header_size = 8

-- sizeof(struct audio_output_payload), without the flexible array member.
abbrev pub output_payload_size : ℕ
output_payload_size = 16

abbrev pub error_payload_size : ℕ
error_payload_size = 4

abbrev pub discover_reply_payload_size : ℕ
discover_reply_payload_size = 8
