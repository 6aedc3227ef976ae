-- ===== src/Server/Messages.antt =====
-- The loop of `process_client_read` on the bytes of whole messages.
use mach_audio.Prelude.{
  length, take, drop, length-append, take-length_append, drop-length_append, store_u16, store_u32,
  ℕ, suc, ◌+◌, ◌≡◌, refl, sym, ap, ◌∙◌, Bool, true, false, Option, none, some, List, [], ◌∷◌, ◌++◌,
  append_assoc, arith, drop-add,
}
use mach_audio.Protocol.{AudioMsgHeader, audio_magic, audio_version, header_size}
use mach_audio.Protocol.Bytes.{store_header}
use mach_audio.Protocol.Header.{IsHeader, decode-encode, encoded_header}
use mach_audio.Server.{Env, MachSession}
use mach_audio.Server.Dispatch.{dispatch}
use mach_audio.Server.Framing.{
  drain-complete, drain-partial, drain_all, drain_fuel, go_on, header_of_front, payload_of, rest_of,
}
use mach_audio.Server.Read.{complete, drain, front_header, partial, front}

-- A message of a client: a command and a sequence number, with a payload.
pub record Message : Type 0 where
  pub command : ℕ
  pub sequence_id : ℕ
  pub payload : List ℕ

abbrev pub header_of : Message → AudioMsgHeader
header_of m = record {
  magic = audio_magic;
  version = audio_version;
  command = m.command;
  sequence_id = m.sequence_id;
  payload_len = length m.payload;
}

abbrev pub AreMessages : List Message → Type 0
AreMessages [] = Unit {0}
AreMessages (m ∷ ms) = IsHeader (header_of m) × AreMessages ms

abbrev pub header_bytes : Bool → Message → List ℕ
header_bytes le m = store_header le (encoded_header le (header_of m))

-- The bytes of messages, one behind the other.
abbrev pub wire : Bool → List Message → List ℕ
wire le [] = []
wire le (m ∷ ms) = header_bytes le m ++ (m.payload ++ wire le ms)

pub length-header : (le : Bool) (m : Message) → length (header_bytes le m) ≡ header_size
unfolding store_header store_u32 store_u16
length-header true m = refl
length-header false m = refl

pub read_back :
    (le : Bool) (m : Message) (bs : List ℕ)
    → IsHeader (header_of m)
    → front_header le (header_bytes le m ++ bs) ≡ header_of m
unfolding front_header
read_back le m bs h =
    header_of_front le (header_bytes le m) bs (omega (arith, length-header le m))
    ∙ decode-encode le (header_of m) h

-- A message at the front is complete.
pub front-message :
    (le : Bool) (m : Message) (bs : List ℕ)
    → IsHeader (header_of m)
    → front le (header_bytes le m ++ (m.payload ++ bs)) ≡ complete (header_of m)
unfolding front
front-message le m bs h =
    let size : length (header_bytes le m ++ (m.payload ++ bs))
        ≡ header_size + (length m.payload + length bs) =
      omega (
        arith,
        length-header le m,
        length-append (header_bytes le m) (m.payload ++ bs),
        length-append m.payload bs,
      ) in
    rw (size, read_back le m (m.payload ++ bs) h) (ground arith)

pub front-nil : (le : Bool) → front le [] ≡ partial
unfolding front
front-nil le = refl

pub drop_exact : (n : ℕ) (xs ys : List ℕ) → length xs ≡ n → drop n (xs ++ ys) ≡ ys
drop_exact n xs ys e = ap (λ k. drop k (xs ++ ys)) (sym e) ∙ drop-length_append xs ys

module _ (env : Env) where
  -- The commands of the messages, one after the other; a fault ends them.
  unfoldable pub serve : MachSession env → List Message → Option (MachSession env)
  serve session [] = some session
  serve session (m ∷ ms) = elim (dispatch env session (header_of m) m.payload) [
    | none ↦ none
    | some next ↦ serve next ms
  ]

  abbrev pub with_rest : List ℕ → Option (MachSession env) → Option (MachSession env × List ℕ)
  with_rest rest none = none
  with_rest rest (some session) = some (session, rest)

  payload_behind :
      (m : Message) (tail : List ℕ)
      → payload_of env (header_of m) (header_bytes env.host_le m ++ (m.payload ++ tail)) ≡ m.payload
  payload_behind m tail =
      ap (λ r. take (length m.payload) r)
        (drop_exact header_size (header_bytes env.host_le m) (m.payload ++ tail)
          (length-header env.host_le m))
      ∙ take-length_append m.payload tail

  rest_behind :
      (m : Message) (tail : List ℕ)
      → rest_of env (header_of m) (header_bytes env.host_le m ++ (m.payload ++ tail)) ≡ tail
  rest_behind m tail =
      drop-add header_size (length m.payload) _ (header_bytes env.host_le m ++ (m.payload ++ tail))
        refl
      ∙ ap (λ r. drop (length m.payload) r)
          (drop_exact header_size (header_bytes env.host_le m) (m.payload ++ tail)
            (length-header env.host_le m))
      ∙ drop-length_append m.payload tail

  served :
      (m : Message) (ms : List Message) (rest : List ℕ) (got : Option (MachSession env))
      → ((next : MachSession env)
          → drain_all env next (wire env.host_le ms ++ rest) ≡ with_rest rest (serve next ms))
      → (let bs = header_bytes env.host_le m ++ (m.payload ++ (wire env.host_le ms ++ rest)) in
          go_on env (length bs) (header_of m) bs got)
        ≡ with_rest rest (elim got [ none ↦ none | some next ↦ serve next ms ])
  served m ms rest none same = refl
  served m ms rest (some next) same =
      let tail = wire env.host_le ms ++ rest in
      let bs = header_bytes env.host_le m ++ (m.payload ++ tail) in
      ap (λ r. drain env (length bs) next r) (rest_behind m tail)
      ∙ drain_fuel env (length bs) (suc (length tail)) next tail
          (omega (
            arith,
            length-header env.host_le m,
            length-append (header_bytes env.host_le m) (m.payload ++ tail),
            length-append m.payload tail,
          ))
          (omega arith)
      ∙ same next

  -- The loop on the bytes of messages whose header fields fit their types, with the bytes of an
  -- incomplete message behind them, carries out their commands in order, each with its payload, and
  -- leaves the bytes of the incomplete one.
  pub drain_all-wire :
      (session : MachSession env) (ms : List Message) (rest : List ℕ)
      → AreMessages ms
      → front env.host_le rest ≡ partial
      → drain_all env session (wire env.host_le ms ++ rest) ≡ with_rest rest (serve session ms)
  unfolding serve
  drain_all-wire session [] rest v e = drain-partial env (length rest) session rest e
  drain_all-wire session (m ∷ ms) rest v e =
      let head = header_bytes env.host_le m in
      let tail = wire env.host_le ms ++ rest in
      let bs = head ++ (m.payload ++ tail) in
      let split : wire env.host_le (m ∷ ms) ++ rest ≡ bs =
        append_assoc head (m.payload ++ wire env.host_le ms) rest
        ∙ ap (λ r. head ++ r) (append_assoc m.payload (wire env.host_le ms) rest) in
      ap (λ r. drain_all env session r) split
      ∙ drain-complete env (length bs) session bs (header_of m)
          (front-message env.host_le m tail v.0)
      ∙ ap (λ p. go_on env (length bs) (header_of m) bs (dispatch env session (header_of m) p))
          (payload_behind m tail)
      ∙ served m ms rest (dispatch env session (header_of m) m.payload)
          (λ next. drain_all-wire next ms rest v.1 e)
