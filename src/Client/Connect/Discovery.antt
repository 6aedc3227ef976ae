-- ===== src/Client/Connect/Discovery.antt =====
-- The discovery against the server's reply, and the spreading of the connections.
use mach_audio.Prelude.{
  ltb, if◌then◌else◌, le→ltb, length, set, length-append, u64, byte_of, host_u32, store_u32, ntohl,
  ntohl-host_u32, ℕ, zero, suc, ◌+◌, ◌*◌, ◌/◌, ◌%◌, ◌^◌, ◌≤◌, ◌<◌, ◌≡◌, refl, sym, ap, ◌∙◌, Bool,
  true, false, ◌&&◌, Option, none, some, List, [], ◌∷◌, ◌++◌, append_assoc, arith,
}
use mach_audio.Client.{ClientConfig, bytes}
use mach_audio.Client.Connect.{
  DiscoveryClient, discover_reply, on_discover_read, start_delay, worker_of,
}
use mach_audio.Client.Send.Layout.{store-ntohl, store_zero}
use mach_audio.Protocol.{AudioCommand, AudioMsgHeader, header_size}
use mach_audio.Protocol.Bytes.{byte_at-append, load_header, word32_at}
use mach_audio.Protocol.Container.{be32_bytes}
use mach_audio.Protocol.Header.{IsHeader, decoded_header, store-encoded_host}
use mach_audio.Server.{Env, MachSession, WriteResponse, max_write_payload}
use mach_audio.Server.Dispatch.{handle_discover}
use mach_audio.Server.Messages.{Message, header_bytes, header_of, length-header, read_back}
use mach_audio.Server.Read.{front_header}
use mach_audio.Server.Reply.{first_free, get_write_response, message, reply, submit}
use mach_audio.Vad.Inside.{inside}
use native.Mathlib.Nat.{
  mul-le-mul, mod-lt, div-lt_iff_lt-mul, le-div_iff_mul-le, mul-div-le, suc-mul, mul_comm,
  mul_assoc, le_refl,
}

reply_message : ℕ → List ℕ → Message
reply_message sequence_id payload = record {
  command = 9;
  sequence_id = sequence_id;
  payload = payload;
}

-- The server's answer to a CMD_DISCOVER, behind its header.
abbrev workers_payload : Env → List ℕ
workers_payload env =
    store_u32 env.host_le (ntohl env.host_le env.num_workers) ++ store_u32 env.host_le 0

closed : Option DiscoveryClient → Option DiscoveryClient
closed none = none
closed (some dc) = some (record dc { closing = true })

read_lem :
    (le : Bool) (bs : List ℕ) (dc : DiscoveryClient)
    → 0 < length bs
    → on_discover_read le (bytes bs) dc ≡ closed (discover_reply le bs dc)
unfolding on_discover_read closed
read_lem le [] dc h = absurd (omega arith)
read_lem le (b ∷ bs) dc h = same (discover_reply le (b ∷ bs) dc)
  where
    same :
        (got : Option DiscoveryClient)
        → elim got [ none ↦ none | some next ↦ some (record next { closing = true }) ] ≡ closed got
    same none = refl
    same (some next) = refl

workers_message : ℕ → ℕ → Message
unfolding reply_message
workers_message sequence_id workers = reply_message sequence_id (be32_bytes workers ++ be32_bytes 0)

workers-IsHeader :
    (sequence_id workers : ℕ)
    → sequence_id < 2 ^ 32
    → IsHeader (header_of (workers_message sequence_id workers))
unfolding workers_message
workers-IsHeader sequence_id workers h = record {
  magic_fits = omega arith;
  version_fits = omega arith;
  command_fits = omega arith;
  sequence_fits = h;
  payload_fits = omega arith;
}

header_lem :
    (le server_le : Bool) (sequence_id workers : ℕ)
    → sequence_id < 2 ^ 32
    → header_bytes server_le (workers_message sequence_id workers)
      ≡ header_bytes le (workers_message sequence_id workers)
header_lem true true sequence_id workers h = refl
header_lem false false sequence_id workers h = refl
header_lem true false sequence_id workers h =
    sym (store-encoded_host _ (workers-IsHeader sequence_id workers h))
header_lem false true sequence_id workers h =
    store-encoded_host _ (workers-IsHeader sequence_id workers h)

-- The server's reply, with its words in view.
reply_bytes :
    (le : Bool) (env : Env) (sequence_id : ℕ) (rest : List ℕ)
    → env.num_workers < 2 ^ 32
    → sequence_id < 2 ^ 32
    → message env AudioCommand.discover_reply sequence_id (workers_payload env) ++ rest
      ≡ header_bytes le (workers_message sequence_id env.num_workers)
        ++ ((be32_bytes env.num_workers ++ be32_bytes 0) ++ rest)
unfolding message workers_message reply_message
reply_bytes le env sequence_id rest h k =
    rw (store-ntohl env.host_le env.num_workers h, store_zero env.host_le)
      (append_assoc (header_bytes env.host_le (workers_message sequence_id env.num_workers))
          (be32_bytes env.num_workers ++ be32_bytes 0) rest
        ∙ ap (λ r. r ++ ((be32_bytes env.num_workers ++ be32_bytes 0) ++ rest))
            (header_lem le env.host_le sequence_id env.num_workers k))

reply_lem :
    (le : Bool) (bs : List ℕ) (dc : DiscoveryClient) (h : AudioMsgHeader)
    → decoded_header le (load_header le bs) ≡ h
    → h.command ≡ 9
    → 8 ≤ h.payload_len
    → 24 ≤ length bs
    → discover_reply le bs dc
      ≡ some (record dc { num_workers = ntohl le (word32_at le bs 16); completed = true })
unfolding discover_reply
reply_lem le bs dc h e command payload long =
    rw (le→ltb (length bs) 16 (omega arith), e) (ground arith)

word_lem :
    (le : Bool) (xs rest : List ℕ) (workers : ℕ)
    → length xs ≡ 16
    → workers < 2 ^ 32
    → ntohl le (word32_at le (xs ++ ((be32_bytes workers ++ be32_bytes 0) ++ rest)) 16) ≡ workers
word_lem le xs rest workers e h =
    let ys = (be32_bytes workers ++ be32_bytes 0) ++ rest in
    (λ i. ntohl le (
      host_u32 le (byte_at-append xs ys 16 0 (omega arith) i)
        (byte_at-append xs ys 17 1 (omega arith) i) (byte_at-append xs ys 18 2 (omega arith) i)
        (byte_at-append xs ys 19 3 (omega arith) i)))
    ∙ ntohl-host_u32 le (byte_of workers 3) (byte_of workers 2) (byte_of workers 1)
        (byte_of workers 0) (omega arith) (omega arith) (omega arith) (omega arith)
    ∙ omega arith

workers_lem :
    (le : Bool) (sequence_id workers : ℕ) (rest : List ℕ) (dc : DiscoveryClient)
    → workers < 2 ^ 32
    → sequence_id < 2 ^ 32
    → discover_reply le
        (header_bytes le (workers_message sequence_id workers)
          ++ ((be32_bytes workers ++ be32_bytes 0) ++ rest))
        dc
      ≡ some (record dc { num_workers = workers; completed = true })
unfolding front_header workers_message reply_message
workers_lem le sequence_id workers rest dc h k =
    let m = workers_message sequence_id workers in
    let ys = (be32_bytes workers ++ be32_bytes 0) ++ rest in
    let head = length-header le m in
    reply_lem le (header_bytes le m ++ ys) dc (header_of m)
      (read_back le m ys (workers-IsHeader sequence_id workers k)) refl (omega arith)
      (omega (arith, head, length-append (header_bytes le m) ys))
    ∙ ap (λ n. some (record dc { num_workers = n; completed = true }))
        (word_lem le (header_bytes le m) rest workers head h)

length-workers_payload : (env : Env) → length (workers_payload env) ≡ 8
unfolding store_u32
length-workers_payload env = sized env.host_le
  where
    sized : (le : Bool) → length (store_u32 le (ntohl le env.num_workers) ++ store_u32 le 0) ≡ 8
    sized true = refl
    sized false = refl

-- A reply that fits is submitted, if there is a free write buffer.
pooled :
    (env : Env) (s : MachSession env) (n slot : ℕ)
    → n ≤ max_write_payload
    → first_free s.write_pool ≡ some slot
    → get_write_response env s n
      ≡ (some (some slot), record s { write_pool = set s.write_pool slot true })
unfolding get_write_response
pooled env s n slot small free = rw (le→ltb max_write_payload n small, free) refl

reply-sent :
    (env : Env) (s : MachSession env) (c : AudioCommand) (n : ℕ) (p : List ℕ) (slot : ℕ)
    → header_size + length p ≤ max_write_payload
    → first_free s.write_pool ≡ some slot
    → (reply env s c n p).sent
      ≡ record { slot = some slot; fd = s.client_fd; bytes = message env c n p } ∷ s.sent
unfolding reply submit
reply-sent env s c n p slot small free =
    ap
      (λ (got : Option (Option ℕ) × MachSession env).
        (let next : MachSession env = elim got.0 [
          | none ↦ got.1
          | some place ↦ submit env got.1 place (message env c n p)
        ] in
          next).sent)
      (pooled env s (header_size + length p) slot small free)

-- A running session with a free write buffer submits one message for a CMD_DISCOVER.
handle_discover-sent :
    (env : Env) (session : MachSession env) (header : AudioMsgHeader) (slot : ℕ)
    → session.closing ≡ false
    → first_free session.write_pool ≡ some slot
    → (handle_discover env session header).sent
      ≡ record {
        slot = some slot;
        fd = session.client_fd;
        bytes = message env AudioCommand.discover_reply header.sequence_id (workers_payload env);
      }
        ∷ session.sent
unfolding handle_discover
handle_discover-sent env session header slot running free =
    ap (λ b. (let next : MachSession env = if b then session else replied in next).sent) running
    ∙ reply-sent env session AudioCommand.discover_reply header.sequence_id (workers_payload env)
        slot (omega (arith, length-workers_payload env)) free
  where
    replied : MachSession env
    replied = reply env session AudioCommand.discover_reply header.sequence_id (workers_payload env)

reply_read :
    (le : Bool) (env : Env) (sequence_id : ℕ) (rest : List ℕ) (dc : DiscoveryClient)
    → env.num_workers < 2 ^ 32
    → sequence_id < 2 ^ 32
    → on_discover_read le
        (bytes (message env AudioCommand.discover_reply sequence_id (workers_payload env) ++ rest))
        dc
      ≡ some (record dc { num_workers = env.num_workers; completed = true; closing = true })
unfolding closed
reply_read le env sequence_id rest dc h k =
    let bs =
      header_bytes le (workers_message sequence_id env.num_workers)
      ++ ((be32_bytes env.num_workers ++ be32_bytes 0) ++ rest) in
    ap (λ r. on_discover_read le (bytes r) dc) (reply_bytes le env sequence_id rest h k)
    ∙ read_lem le bs dc (
        omega (
          arith,
          length-header le (workers_message sequence_id env.num_workers),
          length-append (header_bytes le (workers_message sequence_id env.num_workers))
              ((be32_bytes env.num_workers ++ be32_bytes 0) ++ rest),
        ))
    ∙ ap closed (workers_lem le sequence_id env.num_workers rest dc h k)

-- Let a session of the server that is not closing, and has a free write buffer in its pool, handle a
-- CMD_DISCOVER, with a number of workers and a number of the message below 2 ^ 32. It submits one
-- message. Read by a client of any byte order, in one piece and with any bytes behind it, this
-- completes the discovery with the server's number of workers, and closes the connection.
pub on_discover_read-handle_discover :
    (le : Bool) (env : Env) (session : MachSession env) (header : AudioMsgHeader) (slot : ℕ)
    (rest : List ℕ) (dc : DiscoveryClient)
    → session.closing ≡ false
    → first_free session.write_pool ≡ some slot
    → env.num_workers < 2 ^ 32
    → header.sequence_id < 2 ^ 32
    → (wr : WriteResponse) × ((handle_discover env session header).sent ≡ wr ∷ session.sent)
      × (on_discover_read le (bytes (wr.bytes ++ rest)) dc
          ≡ some (record dc { num_workers = env.num_workers; completed = true; closing = true }))
on_discover_read-handle_discover le env session header slot rest dc running free h k = (
  _,
  handle_discover-sent env session header slot running free,
  reply_read le env header.sequence_id rest dc h k,
)

-- The first worker of a connection lies among the workers, if there is one.
pub worker_of-lt :
    (workers i : ℕ) → 0 < workers → (w : ℕ) × (worker_of workers i ≡ some w) × (w < workers)
unfolding worker_of
worker_of-lt zero i h = absurd (omega arith)
worker_of-lt (suc workers) i h = (i % suc workers, refl, mod-lt i (omega arith))

div_mono : (a b n : ℕ) → 0 < n → a ≤ b → a / n ≤ b / n
div_mono a b n h k = (le-div_iff_mul-le h).1 (omega (arith, mul-div-le a n, mul_comm n (a / n)))

-- A connection starts before the ramp-up ends, and not before the one in front of it, if the
-- ramp-up of all connections fits 64 bits.
pub start_delay_ordered :
    (config : ClientConfig) (i : ℕ)
    → suc i < config.concurrent
    → config.concurrent * config.ramp_up_sec * 1000 < 2 ^ 64
    → 0 < config.ramp_up_sec
    → (start_delay config i ≤ start_delay config (suc i))
      × (start_delay config (suc i) < config.ramp_up_sec * 1000)
unfolding start_delay
start_delay_ordered config i inside fits ramp =
    let n = config.concurrent in
    let r = config.ramp_up_sec in
    let some_connections : 0 < n = omega arith in
    let step : suc i * r ≡ i * r + r = suc-mul i r in
    let bound : suc i * r + r ≤ n * r =
      omega (arith, suc-mul (suc i) r, mul-le-mul inside (le_refl r)) in
    let small : u64 (u64 (i * r) * 1000) ≡ i * r * 1000 = omega arith in
    let small_next : u64 (u64 (suc i * r) * 1000) ≡ suc i * r * 1000 = omega arith in
    let on : (ltb 0 r && ltb 1 n) ≡ true = ground arith in
    let below : suc i * r * 1000 < r * 1000 * n =
      omega (arith, mul_comm (r * 1000) n, mul_assoc n r 1000) in
    rw (on, small, small_next)
      (
        div_mono (i * r * 1000) (suc i * r * 1000) n some_connections (omega arith),
        (div-lt_iff_lt-mul some_connections).1 below,
      )
