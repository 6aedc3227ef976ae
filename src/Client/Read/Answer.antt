-- ===== src/Client/Read/Answer.antt =====
-- The server's answer to an input, read by the client.
use mach_audio.Prelude.{
  length, u32, ℕ, ◌/◌, ◌%◌, ◌^◌, ◌<◌, ◌≡◌, sym, ap, ◌∙◌, Bool, List, [], ◌∷◌, ◌++◌, append_assoc,
  append-nil, arith,
}
use mach_audio.Client.{ClientConnection}
use mach_audio.Client.Connect.Served.{wire_host}
use mach_audio.Client.Read.Frames.{consume_all}
use mach_audio.Client.Read.Outputs.{
  IsOutput, Output, consume_one, length-output_body, output_body, output_message, recorded,
}
use mach_audio.Client.Send.Layout.{store-ntohl}
use mach_audio.Protocol.{AudioCommand, audio_magic, audio_version}
use mach_audio.Protocol.Bytes.{store_header}
use mach_audio.Protocol.Container.{be32_bytes}
use mach_audio.Protocol.Header.{IsHeader, encoded_header, float_to_net}
use mach_audio.Server.{Env, MachSession}
use mach_audio.Server.Dispatch.{output_payload, store_be64}
use mach_audio.Server.Messages.{header_bytes, header_of, wire}
use mach_audio.Server.Reply.{message}

store_be64_lem : (x : ℕ) → store_be64 x ≡ be32_bytes (x / 2 ^ 32) ++ be32_bytes (x % 2 ^ 32)
unfolding store_be64
store_be64_lem x = ground arith

-- What the server tells of an input: the time that it took, the probability that its session holds,
-- and the samples.
abbrev pub answer : (env : Env) → MachSession env → ℕ → List ℕ → Output
answer env session duration_ns body = record {
  duration_ns = duration_ns;
  vad_prob = session.transcode_session.last_vad_prob;
  samples = body;
}

payload_lem :
    (env : Env) (session : MachSession env) (duration_ns : ℕ) (body : List ℕ)
    → session.transcode_session.last_vad_prob < 2 ^ 32
    → output_payload env session duration_ns body
      ≡ output_body (answer env session duration_ns body)
unfolding output_payload output_body float_to_net
payload_lem env session duration_ns body h =
    let vad = store-ntohl env.host_le session.transcode_session.last_vad_prob h in
    λ i. store_be64_lem duration_ns i ++ (vad i ++ (0 ∷ 0 ∷ 0 ∷ 0 ∷ body))

answer_IsHeader :
    (seq : ℕ) (o : Output) → IsOutput o → seq < 2 ^ 32 → IsHeader (header_of (output_message seq o))
answer_IsHeader seq o valid small =
    let n = length-output_body o in
    let fits = valid.samples_fit in
    record {
      magic_fits = omega arith;
      version_fits = omega arith;
      command_fits = omega arith;
      sequence_fits = small;
      payload_fits = omega (arith, n, fits);
    }

answer_bytes :
    (le : Bool) (env : Env) (session : MachSession env) (seq duration_ns : ℕ) (body : List ℕ)
    → IsOutput (answer env session duration_ns body)
    → seq < 2 ^ 32
    → message env AudioCommand.output seq (output_payload env session duration_ns body)
      ≡ wire le (output_message seq (answer env session duration_ns body) ∷ [])
unfolding message
answer_bytes le env session seq duration_ns body valid small =
    let o = answer env session duration_ns body in
    let m = output_message seq o in
    let n = length-output_body o in
    let fits = valid.samples_fit in
    let same_length : u32 (length (output_body o)) ≡ length (output_body o) =
      omega (arith, n, fits) in
    ap
      (λ p.
        store_header env.host_le (
          encoded_header env.host_le (record {
            magic = audio_magic;
            version = audio_version;
            command = 3;
            sequence_id = seq;
            payload_len = u32 (length p);
          }))
        ++ p)
      (payload_lem env session duration_ns body valid.vad_fits)
    ∙ (λ i.
        store_header env.host_le (
          encoded_header env.host_le (record {
            magic = audio_magic;
            version = audio_version;
            command = 3;
            sequence_id = seq;
            payload_len = same_length i;
          }))
        ++ sym (append-nil (output_body o)) i)
    ∙ wire_host env.host_le le (m ∷ []) (answer_IsHeader seq o valid small, tt)

-- The output message that the server sends, read by a client on a host of any byte order with any
-- bytes behind it, is recorded with the time that the server took, the probability of its session
-- and all its samples, and the loop goes on with the bytes behind it, if the fields fit their types.
pub consume-message :
    (realloc_ok : ℕ → Bool) (le : Bool) (env : Env) (session : MachSession env)
    (seq duration_ns : ℕ) (body rest : List ℕ) (conn : ClientConnection)
    → IsOutput (answer env session duration_ns body)
    → seq < 2 ^ 32
    → consume_all realloc_ok le conn
        (message env AudioCommand.output seq (output_payload env session duration_ns body) ++ rest)
      ≡ consume_all realloc_ok le
          (recorded realloc_ok le (answer env session duration_ns body) conn)
          rest
consume-message realloc_ok le env session seq duration_ns body rest conn valid small =
    let o = answer env session duration_ns body in
    let head = header_bytes le (output_message seq o) in
    ap (λ r. consume_all realloc_ok le conn (r ++ rest))
      (answer_bytes le env session seq duration_ns body valid small)
    ∙ ap (consume_all realloc_ok le conn) (
        append_assoc head (output_body o ++ []) rest
        ∙ ap (λ r. head ++ (r ++ rest)) (append-nil (output_body o)))
    ∙ consume_one realloc_ok le seq o rest valid small conn
