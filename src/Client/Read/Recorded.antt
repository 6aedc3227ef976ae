-- ===== src/Client/Read/Recorded.antt =====
-- A list of output messages: what the client records of it.
use mach_audio.Prelude.{
  length, ℕ, ◌^◌, ◌<◌, ◌≡◌, ap, ◌∙◌, Bool, true, some, List, [], ◌∷◌, ◌++◌, append_assoc,
}
use mach_audio.Client.{ClientConnection}
use mach_audio.Client.Read.Frames.{consume-stops, consume_all, stops}
use mach_audio.Client.Read.Outputs.{
  IsOutput, Output, consume_one, output_body, output_message, recorded,
}
use mach_audio.Server.Messages.{Message, header_bytes, wire}

module _ (realloc_ok : ℕ → Bool) (le : Bool) where
  -- The outputs with their sequence numbers, as messages, and what the client makes of all.
  abbrev pub messages : List (ℕ × Output) → List Message
  messages [] = []
  messages ((seq, o) ∷ os) = output_message seq o ∷ messages os

  abbrev pub recorded_all : List (ℕ × Output) → ClientConnection → ClientConnection
  recorded_all [] conn = conn
  recorded_all ((seq, o) ∷ os) conn = recorded_all os (recorded realloc_ok le o conn)

  abbrev pub AreOutputs : List (ℕ × Output) → Type 0
  AreOutputs [] = Unit {0}
  AreOutputs ((seq, o) ∷ os) = (seq < 2 ^ 32) × IsOutput o × AreOutputs os

  -- On the bytes of output messages, with bytes behind them that the loop does not go on with, the
  -- client records each output in order, with its duration, probability and samples, and leaves the
  -- bytes behind them, if the fields fit their types.
  pub consume-messages :
      (os : List (ℕ × Output)) (conn : ClientConnection) (rest : List ℕ)
      → AreOutputs os
      → stops le rest ≡ true
      → consume_all realloc_ok le conn (wire le (messages os) ++ rest)
        ≡ some (recorded_all os conn, rest)
  consume-messages [] conn rest valid stop =
      consume-stops realloc_ok le (length rest) conn rest stop
  consume-messages ((seq, o) ∷ os) conn rest valid stop =
      let head = header_bytes le (output_message seq o) in
      let tail = wire le (messages os) ++ rest in
      ap (consume_all realloc_ok le conn) (
        append_assoc head (output_body o ++ wire le (messages os)) rest
        ∙ ap (λ r. head ++ r) (append_assoc (output_body o) (wire le (messages os)) rest))
      ∙ consume_one realloc_ok le seq o tail valid.1 valid.0 conn
      ∙ consume-messages os (recorded realloc_ok le o conn) rest valid.2 stop
