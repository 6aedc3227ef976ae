-- ===== src/Lib.antt =====
-- MachAudio: a server that transcodes, mixes and resamples audio streams of clients over a
-- binary protocol, on io_uring.
--
-- The program. A client sends messages (include/machaudio/protocol.h) over a socket. The event
-- loop of src/core/server.c receives bytes into a session's assemble buffer, takes complete
-- messages from it and carries out their commands; CMD_START configures a session
-- (src/processing/transcode.c), CMD_INPUT hands its payload to audio_process_transcode, which
-- parses the buffers (src/protocol/parser.c), decodes them into the session's arena
-- (src/util/arena.c) by the codecs (src/processing/transcode_*.c over src/processing/g711.c and
-- g711_tables.h), mixes them (src/processing/mix.c), runs the voice detector and the resampler,
-- and encodes the result, which the server sends back out of a pool of write buffers.
--
-- The files.
--   Prelude: Boolean tests, lists, integers and machine words over the native numbers; byte
--   order is a parameter, as a host is little-endian or big-endian.
--   Arena (src/util/arena.c): the arena as a record with its storage as a list of bytes, `alloc`
--   with the size_t sums wrapping; Arena/Alloc one allocation, Arena/Blocks sequences of them.
--   Protocol (include/machaudio/protocol.h, src/protocol/parser.c): Bytes reads and stores the
--   structures, Header the header functions, Parse `protocol_parse_next_buffer`, Container the
--   buffers of a CMD_INPUT payload as an encoder lays them out.
--   Simd: the AVX2 intrinsics that the mixer and the decoders call, as a record of functions,
--   and their documented behaviour as the hypothesis `IsAvx2`; Simd/Lanes shows that it can
--   hold.
--   Mix (src/processing/mix.c), G711 (src/processing/g711.c, g711_tables.h), Codec (the four
--   src/processing/transcode_*_to_*.c).
--   Engine (src/processing/engine.c) and Vad (src/processing/vad_gru.c: `vad_gru_init`; Gru the
--   network of one frame in plain C and Inside about it; Pcm `vad_gru_process_pcm` and Bounds
--   about it).
--   Transcode (include/machaudio/transcode.h, src/processing/transcode.c): Memory is the state
--   of the session and the arena, with an error and a fault; Decode and Pipeline are
--   audio_process_transcode, stage by stage; Session and Errors hold theorems, and Endian is
--   about the order of the bytes of samples (Stored their way through the arena, Samples the
--   decoder and the encoder); Hoare has the rules for runs that do not fault, and Safety and its
--   modules apply them stage by stage; Silent is signal processing for the tests.
--   Resample (include/machaudio/transcode.h, src/processing/resample.c, resample_adv.c): the
--   rates and `resampler_init`; Linear is resample_l16 and Bounds, Table and Whole are about it;
--   Sinc is resample_l16_advanced, History its delay buffer, Window its two ways to read the
--   taps, Upsample and Advanced one call that upsamples, Drift a sequence of calls; Exact has
--   fractions for doubles.
--   Training (src/processing/vad_training_loader.c): the loader of training data; Load is about
--   what it gives and holds.
--   Supervisor (src/main.c): parse_core_mask (Mask) the loop on the workers (Workers), and
--   `run_worker` (Run). OsTune (src/util/os_tune.c): a core's scaling governor, and Governor
--   about it.
--   Server (include/machaudio/server.h, src/core/server.c): Reply the write buffers and replies,
--   Dispatch the commands, Read `process_client_read`, Events the completions of the event loop
--   for a client; Framing, Rest, Stream, Chunks, Messages and Reads are about the reading of
--   messages, Preserve, Pool, Completion and Lifecycle about the writes of a session and its
--   end. Setup is `mach_server_init` with the system calls' answers as parameters, and the end
--   of `mach_server_start`, where the sessions still connected are a list of descriptors beside
--   what the initialisation took.
--   Client (src/client/main.c): the test client, as callbacks on a connection. Args is its
--   command line; Send the pacing of its input and the layout of its messages (Layout, Arrival,
--   Ticks, Run, Safety, Bugs); Connect the start of a session and the discovery (Session,
--   Served, Discovery); Read its reading of the server's messages (Frames, Stream, Chunks and
--   Reads on how a stream is cut, Outputs, Recorded, Account and Answer on what is recorded,
--   Growth on its buffers); Stats the summary, and Totals about it.
--
-- What the definitions fix. A pointer is an offset and a null pointer `none`; a fault is a
-- division by zero or an access outside of the payload, the arena or a `restrict` region, and
-- ends the model's run. A float is its bit pattern, and is only compared and byte-swapped; in
-- Vad floats and their operations are the parameter `Floats`, without laws. The assemble buffer
-- stands beside the rest of MachSession, as no command sees it. `in_flight` and `sent` record
-- what the program leaves to the kernel. `safe_get_sqe` never gives a null pointer. In Resample,
-- `none` is what C leaves undefined, an overflow of a signed 64-bit number or of the index of a
-- tap as an int, and an access outside of an array, the rows of the coefficient table included;
-- doubles are the record `Doubles` of operations, without laws but for the one of `IsDoubles`,
-- and the sinc table is a parameter. In Transcode the resampler and the detector are the
-- interface `Dsp`, any functions that return; its law is that the resampler stores no more than
-- there is room for. A payload of fewer than 4 bytes is a fault, as its number of buffers is
-- read first; the server answers one of fewer than 8 with an error. In Supervisor only the
-- descriptor of the latency lock is counted, not those of the server that the worker runs.
--
-- Fuel. The loop of `process_client_read` has one unit of fuel more than there are bytes, which
-- is enough, as each round takes 16 bytes or more. The loop over the buffers of a payload
-- recurses on their announced number, the resamplers' loops on the number of output samples or
-- taps, and the loader's on the number of records. The client's loop over its read buffer has
-- the same fuel as the server's; the doubling of its buffer as much fuel as there are bytes to
-- hold, which is enough, as each round at least adds one; the detector's loop over frames one
-- unit for each sample, which is enough, as a round takes 320.
--
-- Not modelled: the AVX2 kernels of src/processing/resample_adv.c, as the model is of the build
-- without AVX2, and the coefficients of resample_sinc_table.h, which a script generates; the
-- detector's AVX2 variant of a frame (src/processing/vad_gru.c), and the detector as an instance
-- of the interface `Dsp` that a session uses; the entries of the registered buffer ring; the
-- batches of the event loop; several clients at once (they share no state but the ring); the
-- options of src/main.c; the other calls of src/util/os_tune.c; of src/client the opening and
-- mapping of files, the printing and the unmapping at its end; logging. libuv, getopt_long,
-- atoi, qsort, realloc and <math.h> are not in the repository: what the code takes from them is
-- a parameter.
pub mod Prelude
pub mod Arena
pub mod Protocol
pub mod Simd
pub mod Mix
pub mod G711
pub mod Codec
pub mod Resample
pub mod Transcode
pub mod Engine
pub mod Vad
pub mod Server
pub mod Client
pub mod Supervisor
pub mod OsTune
pub mod Training
