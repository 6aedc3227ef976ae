-- ===== src/Client.antt =====
-- The test client: client/main.c. The library libuv is not part of the repository: a callback is a
-- function of the connection that it is called with, and what it hands to libuv (bytes to write,
-- the state of its timer) stands in the connection.
pub mod Args
pub mod Send
pub mod Connect
pub mod Read
pub mod Stats
mod Tests
use Prim.Native.String.{String}
use mach_audio.Prelude.{ℤ, ℕ, Bool, Option, List}

abbrev pub default_ptime_ms : ℕ
default_ptime_ms = 20

abbrev pub default_concurrent : ℕ
default_concurrent = 1

abbrev pub default_rate : ℕ
default_rate = 8000

abbrev pub default_channels : ℕ
default_channels = 1

abbrev pub default_format : ℕ
default_format = 0

-- A null pointer is `none`.
pub record ClientConfig : Type 0 where
  pub uds_dir : Option String
  pub uds_name : Option String
  pub host : Option String
  pub port : ℤ
  pub input_file : Option String
  pub input_file_2 : Option String
  pub write_output : Bool
  pub rate : ℕ
  pub channels : ℕ
  pub format : ℕ
  pub in_endian : ℕ
  pub out_rate : ℕ
  pub out_channels : ℕ
  pub out_format : ℕ
  pub out_endian : ℕ
  pub concurrent : ℕ
  pub ptime : ℕ
  pub loop : Bool
  pub duration_sec : ℕ
  pub vad_enabled : Bool
  pub ramp_up_sec : ℕ

-- A connection. `timer_active` says whether its timer is armed, `closing` whether
-- libuv was told to close it, and `written` holds the bytes that
-- it handed to `uv_write`, in order. An open file is the list of the bytes in it. The read buffer
-- is its first `read_buf_len` bytes, and the latencies are the `latencies_count` recorded ones.
pub record ClientConnection : Type 0 where
  pub id : ℕ
  pub offset : ℕ
  pub offset_2 : ℕ
  pub sequence_id : ℕ
  pub timer_active : Bool
  pub closing : Bool
  pub written : List ℕ
  pub output_file : Option (List ℕ)
  pub output_vad_file : Option (List ℕ)
  pub read_buf : List ℕ
  pub read_buf_cap : ℕ
  pub total_sent : ℕ
  pub total_received : ℕ
  pub min_duration_ns : ℕ
  pub max_duration_ns : ℕ
  pub sum_duration_ns : ℕ
  pub count_received : ℕ
  pub latencies : List ℕ
  pub latencies_cap : ℕ

-- The two mapped input files; the second is there only if it was named.
pub record Inputs : Type 0 where
  pub input_data : List ℕ
  pub input_data_2 : Option (List ℕ)

-- What libuv hands to a read callback: bytes, or with a negative count an error or the end of the
-- stream. With a count of zero there is nothing to do.
pub data Received : Type 0 where
  bytes : List ℕ → Received
  failed : Received
