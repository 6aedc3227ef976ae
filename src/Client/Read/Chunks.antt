-- ===== src/Client/Read/Chunks.antt =====
-- The calls of `on_read` on a stream that arrives in parts.
use mach_audio.Prelude.{
  if◌then◌else◌, Bool-cases, length, ℕ, zero, suc, ◌<◌, ◌≡◌, refl, sym, ap, ◌∙◌, inl, inr, Bool,
  true, false, Option, none, some, List, arith, ◌==◌, subst,
}
use mach_audio.Client.{ClientConnection}
use mach_audio.Client.Read.{
  consume, count_output, record_latency, runs_short, save_output, take_message, take_output,
  with_output,
}
use mach_audio.Client.Read.Frames.{consume-goes, consume-stops, go_on, rest_of, shorter, stops}
use mach_audio.Protocol.{AudioCommand, AudioMsgHeader, command_code}
use mach_audio.Protocol.Bytes.{load_header}
use mach_audio.Protocol.Header.{decoded_header}

-- The same connection with another read buffer.
abbrev pub framed : List ℕ → ℕ → ClientConnection → ClientConnection
framed buf cap conn = record conn { read_buf = buf; read_buf_cap = cap }

abbrev framed_option : List ℕ → ℕ → Option ClientConnection → Option ClientConnection
framed_option buf cap none = none
framed_option buf cap (some conn) = some (framed buf cap conn)

abbrev pub framed_result :
    List ℕ → ℕ → Option (ClientConnection × List ℕ) → Option (ClientConnection × List ℕ)
framed_result buf cap none = none
framed_result buf cap (some r) = some (framed buf cap r.0, r.1)

framed_if :
    (buf : List ℕ) (cap : ℕ) (b : Bool) (c : ClientConnection)
    → (if b then none else some (framed buf cap c))
      ≡ framed_option buf cap (if b then none else some c)
framed_if buf cap true c = refl
framed_if buf cap false c = refl

framed_either :
    (buf : List ℕ) (cap : ℕ) (b : Bool) (x y : Option ClientConnection) (c : ClientConnection)
    → x ≡ framed_option buf cap y
    → (if b then x else some (framed buf cap c)) ≡ framed_option buf cap (if b then y else some c)
framed_either buf cap true x y c e = e
framed_either buf cap false x y c e = refl

module _ (realloc_ok : ℕ → Bool) (le : Bool) (buf : List ℕ) (cap : ℕ) where
  take_output-framed :
      (header : AudioMsgHeader) (bs : List ℕ) (conn : ClientConnection)
      → take_output realloc_ok le header bs (framed buf cap conn)
        ≡ framed_option buf cap (take_output realloc_ok le header bs conn)
  unfolding take_output with_output record_latency count_output save_output
  take_output-framed header bs conn =
      framed_if buf cap (runs_short realloc_ok header bs conn)
        (with_output realloc_ok le header bs conn)

  take_message-framed :
      (header : AudioMsgHeader) (bs : List ℕ) (conn : ClientConnection)
      → take_message realloc_ok le header bs (framed buf cap conn)
        ≡ framed_option buf cap (take_message realloc_ok le header bs conn)
  unfolding take_message
  take_message-framed header bs conn =
      framed_either buf cap (header.command == command_code AudioCommand.output) _
        (take_output realloc_ok le header bs conn) conn (take_output-framed header bs conn)

  pub consume-framed :
      (n : ℕ) (conn : ClientConnection) (bs : List ℕ)
      → consume realloc_ok le n (framed buf cap conn) bs
        ≡ framed_result buf cap (consume realloc_ok le n conn bs)
  consume-framed zero conn bs = unfold consume in refl
  consume-framed (suc n) conn bs = elim (Bool-cases (stops le bs)) [
    | inl stop ↦
        consume-stops realloc_ok le n (framed buf cap conn) bs stop
        ∙ ap (framed_result buf cap) (sym (consume-stops realloc_ok le n conn bs stop))
    | inr more ↦
        (let header = decoded_header le (load_header le bs) in
          consume-goes realloc_ok le n (framed buf cap conn) bs more
          ∙ ap (go_on realloc_ok le n bs) (take_message-framed header bs conn)
          ∙ later (take_message realloc_ok le header bs conn)
              (λ next. consume-framed n next (rest_of realloc_ok le bs))
          ∙ ap (framed_result buf cap) (sym (consume-goes realloc_ok le n conn bs more)))
  ]
    where
      later :
          (got : Option ClientConnection)
          → ((next : ClientConnection)
              → consume realloc_ok le n (framed buf cap next) (rest_of realloc_ok le bs)
                ≡ framed_result buf cap (consume realloc_ok le n next (rest_of realloc_ok le bs)))
          → go_on realloc_ok le n bs (framed_option buf cap got)
            ≡ framed_result buf cap (go_on realloc_ok le n bs got)
      later none go = refl
      later (some next) go = go next

-- What the loop leaves ends it at once.
module _ (realloc_ok : ℕ → Bool) (le : Bool) where
  pub consume-leaves :
      (n : ℕ) (conn : ClientConnection) (bs : List ℕ) (r : ClientConnection × List ℕ)
      → length bs < n
      → consume realloc_ok le n conn bs ≡ some r
      → stops le r.1 ≡ true
  consume-leaves zero conn bs r h e = absurd (omega arith)
  consume-leaves (suc n) conn bs r h e = elim (Bool-cases (stops le bs)) [
    | inl stop ↦
        subst (λ (o : Option (ClientConnection × List ℕ)). LeftOf o)
          (sym (consume-stops realloc_ok le n conn bs stop) ∙ e) stop
    | inr more ↦
        (let less = shorter realloc_ok le bs more in
          later (take_message realloc_ok le (decoded_header le (load_header le bs)) bs conn)
            (sym (consume-goes realloc_ok le n conn bs more) ∙ e)
            (λ next. consume-leaves n next (rest_of realloc_ok le bs) r (omega (arith, less))))
  ]
    where
      LeftOf : Option (ClientConnection × List ℕ) → Type 0
      LeftOf none = Unit {0}
      LeftOf (some r) = stops le r.1 ≡ true

      later :
          (got : Option ClientConnection)
          → go_on realloc_ok le n bs got ≡ some r
          → ((next : ClientConnection)
              → consume realloc_ok le n next (rest_of realloc_ok le bs) ≡ some r
              → stops le r.1 ≡ true)
          → stops le r.1 ≡ true
      later none e go = absurd (cc)
      later (some next) e go = go next e
