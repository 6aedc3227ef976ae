-- ===== src/Server/Reads.antt =====
-- A client's messages that reach `process_client_read` in reads of any size up to a bound.
use mach_audio.Prelude.{
  ltb, ltb→le, Bool-cases, length, take, drop, length-append, take-append-drop, take-append,
  drop-append, take-length_append, ℕ, ◌+◌, ◌≤◌, ◌<◌, ◌≡◌, refl, sym, ap, ◌∙◌, inl, inr, Bool,
  Option, none, some, List, [], ◌∷◌, ◌++◌, append_assoc, append-nil, arith, subst,
}
use mach_audio.Client.Read.Reads.{reads}
use mach_audio.Protocol.{header_size}
use mach_audio.Protocol.Header.{IsHeader}
use mach_audio.Server.{Connection, Env, MachSession}
use mach_audio.Server.Chunks.{concat, fitting, read_all, settled}
use mach_audio.Server.Dispatch.{dispatch}
use mach_audio.Server.Framing.{drain_all, header_of_front}
use mach_audio.Server.Messages.{
  AreMessages, Message, drain_all-wire, drop_exact, front-message, header_bytes, header_of,
  length-header, read_back, serve, wire, with_rest,
}
use mach_audio.Server.Read.{complete, front_header, partial, process_client_read, settle, front}

-- The size of a buffer that a read fills: BUF_SIZE.
abbrev pub buf_size : ℕ
buf_size = 16384

-- Messages whose bytes are at most `bound`.
abbrev pub AreBelow : ℕ → List Message → Type 0
AreBelow bound [] = Unit {0}
AreBelow bound (m ∷ ms) = (header_size + length m.payload ≤ bound) × AreBelow bound ms

-- Reads of at most `bound` bytes.
abbrev pub AreReads : ℕ → List (List ℕ) → Type 0
AreReads bound [] = Unit {0}
AreReads bound (chunk ∷ chunks) = (length chunk ≤ bound) × AreReads bound chunks

-- The first bytes of a message are not complete.
front-begun :
    (le : Bool) (m : Message) (bs ys tail : List ℕ)
    → IsHeader (header_of m)
    → bs ++ ys ≡ header_bytes le m ++ (m.payload ++ tail)
    → length bs < header_size + length m.payload
    → front le bs ≡ partial
unfolding front
front-begun le m bs ys tail h e short = elim (Bool-cases (ltb (length bs) header_size)) [
  | inl few ↦ rw few refl
  | inr enough ↦
      let long : header_size ≤ length bs = ltb→le (length bs) header_size enough in
      let same : front_header le bs ≡ header_of m =
        sym (header_of_front le bs ys long)
        ∙ ap (front_header le) e
        ∙ read_back le m (m.payload ++ tail) h in
      rw same (ground arith)
]

front-none : (le : Bool) (bs : List ℕ) → length bs ≡ 0 → front le bs ≡ partial
unfolding front
front-none le bs e = rw e refl

-- Bytes that begin those of messages: whole messages, and a part of the next one.
record Cut (le : Bool) (bound : ℕ) (bs ys : List ℕ) (ms : List Message) : Type 0 where
  done : List Message
  left : List Message
  rest : List ℕ
  all : done ++ left ≡ ms
  split : bs ≡ wire le done ++ rest
  next : rest ++ ys ≡ wire le left
  part : front le rest ≡ partial
  short : length rest ≤ bound

with_first :
    (le : Bool) (bound : ℕ) (m : Message) (bs ys : List ℕ) (ms : List Message)
    → header_size + length m.payload ≤ length bs
    → bs ++ ys ≡ wire le (m ∷ ms)
    → (drop (header_size + length m.payload) bs ++ ys ≡ wire le ms
        → Cut le bound (drop (header_size + length m.payload) bs) ys ms)
    → Cut le bound bs ys (m ∷ ms)
with_first le bound m bs ys ms long e cut_rest = record {
  done = m ∷ c.done;
  left = c.left;
  rest = c.rest;
  all = ap (λ r. m ∷ r) c.all;
  split =
      sym (take-append-drop n bs)
      ∙ (λ i. front_part i ++ c.split i)
      ∙ append_assoc (header_bytes le m) m.payload (wire le c.done ++ c.rest)
      ∙ ap (λ r. header_bytes le m ++ r) (sym (append_assoc m.payload (wire le c.done) c.rest))
      ∙ sym (append_assoc (header_bytes le m) (m.payload ++ wire le c.done) c.rest);
  next = c.next;
  part = c.part;
  short = c.short;
}
  where
    n : ℕ
    n = header_size + length m.payload

    whole : List ℕ
    whole = header_bytes le m ++ m.payload

    size : length whole ≡ n
    size = omega (arith, length-header le m, length-append (header_bytes le m) m.payload)

    same : bs ++ ys ≡ whole ++ wire le ms
    same = e ∙ sym (append_assoc (header_bytes le m) m.payload (wire le ms))

    front_part : take n bs ≡ whole
    front_part =
        sym (take-append n bs ys long)
        ∙ ap (take n) same
        ∙ ap (λ k. take k (whole ++ wire le ms)) (sym size)
        ∙ take-length_append whole (wire le ms)

    behind : drop n bs ++ ys ≡ wire le ms
    behind =
        sym (drop-append n bs ys long) ∙ ap (drop n) same ∙ drop_exact n whole (wire le ms) size

    c : Cut le bound (drop n bs) ys ms
    c = cut_rest behind

cut :
    (le : Bool) (bound : ℕ) (bs ys : List ℕ) (ms : List Message)
    → AreMessages ms
    → AreBelow bound ms
    → bs ++ ys ≡ wire le ms
    → Cut le bound bs ys ms
cut le bound bs ys [] are below e =
    let size : length bs ≡ 0 = omega (arith, length-append bs ys, ap length e) in
    record {
      done = [];
      left = [];
      rest = bs;
      all = refl;
      split = refl;
      next = e;
      part = front-none le bs size;
      short = omega arith;
    }
cut le bound bs ys (m ∷ ms) are below e =
    elim (Bool-cases (ltb (length bs) (header_size + length m.payload))) [
      | inl few ↦
          let short : length bs < header_size + length m.payload = ground arith in
          record {
            done = [];
            left = m ∷ ms;
            rest = bs;
            all = refl;
            split = refl;
            next = e;
            part = front-begun le m bs ys (wire le ms) are.0 e short;
            short = omega (arith, short, below.0);
          }
      | inr enough ↦
          with_first le bound m bs ys ms (ground arith) e
            (cut le bound (drop (header_size + length m.payload) bs) ys ms are.1 below.1)
    ]

AreMessages-left : (xs ys : List Message) → AreMessages (xs ++ ys) → AreMessages xs × AreMessages ys
AreMessages-left [] ys h = (tt, h)
AreMessages-left (x ∷ xs) ys h = let rest = AreMessages-left xs ys h.1 in ((h.0, rest.0), rest.1)

AreBelow-left : (bound : ℕ) (xs ys : List Message) → AreBelow bound (xs ++ ys) → AreBelow bound ys
AreBelow-left bound [] ys h = h
AreBelow-left bound (x ∷ xs) ys h = AreBelow-left bound xs ys h.1

module _ (env : Env) where
  serve_rest : List Message → Option (MachSession env) → Option (MachSession env)
  serve_rest ms none = none
  serve_rest ms (some next) = serve env next ms

  serve-append :
      (session : MachSession env) (xs ys : List Message)
      → serve env session (xs ++ ys) ≡ serve_rest ys (serve env session xs)
  unfolding serve serve_rest
  serve-append session [] ys = refl
  serve-append session (x ∷ xs) ys =
      next (dispatch env session (header_of x) x.payload) (λ after. serve-append after xs ys)
    where
      next :
          (got : Option (MachSession env))
          → ((after : MachSession env)
              → serve env after (xs ++ ys) ≡ serve_rest ys (serve env after xs))
          → elim got [ none ↦ none | some after ↦ serve env after (xs ++ ys) ]
            ≡ serve_rest ys (elim got [ none ↦ none | some after ↦ serve env after xs ])
      next none rest = refl
      next (some after) rest = rest after

  -- A connection with this session and nothing in its assemble buffer.
  abbrev pub drained : Option (MachSession env) → Option (Connection env)
  drained none = none
  drained (some session) = some (record { session = session; assemble_buf = [] })

  -- Bytes that begin with no complete message are those of no messages only if there are none.
  nothing_left :
      (c : Connection env) (ms : List Message)
      → AreMessages ms
      → front env.host_le c.assemble_buf ≡ partial
      → c.assemble_buf ++ [] ≡ wire env.host_le ms
      → some c ≡ drained (serve env c.session ms)
  unfolding serve
  nothing_left c [] are part e =
      ap (λ bs. some (record c { assemble_buf = bs })) (sym (append-nil c.assemble_buf) ∙ e)
  nothing_left c (m ∷ ms) are part e =
      let whole = front-message env.host_le m (wire env.host_le ms) are.0 in
      let same = sym (append-nil c.assemble_buf) ∙ e in
      let clash : partial ≡ complete (header_of m) =
        sym part ∙ ap (front env.host_le) same ∙ whole in
      absurd (ground arith)

  -- Let a connection's assemble buffer hold the first part of a message, and let the bytes of further
  -- reads complete it and go on with whole messages, whose header fields fit their types. If each read
  -- fills at most a buffer of BUF_SIZE bytes, and each message has at most as many bytes, however the
  -- reads cut them: `process_client_read` carries out the commands of all messages in order, each with
  -- its payload, refuses no read, and leaves its assemble buffer empty.
  pub read_all-wire :
      (c : Connection env) (chunks : List (List ℕ)) (ms : List Message)
      → AreMessages ms
      → AreBelow buf_size ms
      → AreReads buf_size chunks
      → length c.assemble_buf ≤ buf_size
      → front env.host_le c.assemble_buf ≡ partial
      → c.assemble_buf ++ concat env chunks ≡ wire env.host_le ms
      → read_all env c chunks ≡ drained (serve env c.session ms)
  unfolding settle serve_rest
  read_all-wire c [] ms are below reads held part e = nothing_left c ms are part e
  read_all-wire c (chunk ∷ chunks) ms are below reads held part e =
      ap read_on one
      ∙ after (serve env c.session k.done) (λ next.
        read_all-wire (record { session = next; assemble_buf = k.rest }) chunks k.left parts.1
          (AreBelow-left buf_size k.done k.left (subst (AreBelow buf_size) (sym k.all) below))
          reads.1 k.short k.part k.next)
      ∙ ap drained (sym (serve-append c.session k.done k.left) ∙ ap (serve env c.session) k.all)
    where
      read_on : Option (Connection env) → Option (Connection env)
      read_on got = elim got [ none ↦ none | some next ↦ read_all env next chunks ]

      k : Cut env.host_le buf_size (c.assemble_buf ++ chunk) (concat env chunks) ms
      k =
          cut env.host_le buf_size (c.assemble_buf ++ chunk) (concat env chunks) ms are below
            (append_assoc c.assemble_buf chunk (concat env chunks) ∙ e)

      parts : AreMessages k.done × AreMessages k.left
      parts = AreMessages-left k.done k.left (subst AreMessages (sym k.all) are)

      one :
          process_client_read env c chunk
          ≡ settled env (with_rest env k.rest (serve env c.session k.done))
      one =
          fitting env c chunk (omega (arith, held, reads.0))
          ∙ ap (λ bs. settled env (drain_all env c.session bs)) k.split
          ∙ ap (settled env) (drain_all-wire env c.session k.done k.rest parts.0 k.part)

      after :
          (got : Option (MachSession env))
          → ((next : MachSession env)
              → read_all env (record { session = next; assemble_buf = k.rest }) chunks
                ≡ drained (serve env next k.left))
          → read_on (settled env (with_rest env k.rest got)) ≡ drained (serve_rest k.left got)
      after none rest = refl
      after (some next) rest = rest next
