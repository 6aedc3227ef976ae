-- ===== src/Client/Read/Stream.antt =====
-- A stream of server messages that `on_read` gets in parts.
use mach_audio.Prelude.{
  Bool-cases, length, length-append, ℕ, zero, suc, ◌<◌, ◌≡◌, refl, sym, ap, ◌∙◌, ◌≢◌, inl, inr,
  Bool, false, Option, none, some, List, ◌++◌, arith, subst,
}
use mach_audio.Client.{ClientConnection}
use mach_audio.Client.Read.{consume, take_message}
use mach_audio.Client.Read.Frames.{
  consume-goes, consume-stops, consume_all, go_on, header_lem, rest_of, rest_of-append, shorter,
  stops, stops-append, stops_long, take_message-append,
}
use mach_audio.Protocol.Bytes.{load_header}
use mach_audio.Protocol.Header.{decoded_header}

module _ (realloc_ok : ℕ → Bool) (le : Bool) where
  go_on_cong :
      (n m : ℕ) (bs : List ℕ) (got : Option ClientConnection)
      → ((next : ClientConnection)
          → consume realloc_ok le n next (rest_of realloc_ok le bs)
            ≡ consume realloc_ok le m next (rest_of realloc_ok le bs))
      → go_on realloc_ok le n bs got ≡ go_on realloc_ok le m bs got
  go_on_cong n m bs none same = refl
  go_on_cong n m bs (some next) same = same next

  -- More fuel than the loop needs changes nothing.
  pub consume_fuel :
      (n m : ℕ) (conn : ClientConnection) (bs : List ℕ)
      → length bs < n
      → length bs < m
      → consume realloc_ok le n conn bs ≡ consume realloc_ok le m conn bs
  consume_fuel zero m conn bs h k = absurd (omega arith)
  consume_fuel (suc n) zero conn bs h k = absurd (omega arith)
  consume_fuel (suc n) (suc m) conn bs h k = elim (Bool-cases (stops le bs)) [
    | inl stop ↦
        consume-stops realloc_ok le n conn bs stop
        ∙ sym (consume-stops realloc_ok le m conn bs stop)
    | inr more ↦
        (let less = shorter realloc_ok le bs more in
          consume-goes realloc_ok le n conn bs more
          ∙ go_on_cong n m bs
              (take_message realloc_ok le (decoded_header le (load_header le bs)) bs conn)
              (λ next.
                consume_fuel n m next (rest_of realloc_ok le bs) (omega (arith, less))
                  (omega (arith, less)))
          ∙ sym (consume-goes realloc_ok le m conn bs more))
  ]

  -- What the loop does with more bytes, once it is done with the first ones.
  abbrev pub with_more :
      List ℕ → Option (ClientConnection × List ℕ) → Option (ClientConnection × List ℕ)
  with_more ys none = none
  with_more ys (some r) = consume_all realloc_ok le r.0 (r.1 ++ ys)

  -- If the loop does not fault on some bytes, then on these with more behind them it does what it
  -- does on the bytes that it left, with the others behind them.
  pub consume-append :
      (n : ℕ) (conn : ClientConnection) (xs ys : List ℕ)
      → length xs < n
      → consume realloc_ok le n conn xs ≢ none
      → consume_all realloc_ok le conn (xs ++ ys) ≡ with_more ys (consume realloc_ok le n conn xs)
  consume-append zero conn xs ys h sound = absurd (omega arith)
  consume-append (suc n) conn xs ys h sound = elim (Bool-cases (stops le xs)) [
    | inl stop ↦ rw (consume-stops realloc_ok le n conn xs stop)
    | inr more ↦
        (let less = shorter realloc_ok le xs more in
          let header = decoded_header le (load_header le xs) in
          let bs = xs ++ ys in
          consume-goes realloc_ok le (length bs) conn bs (stops-append realloc_ok le xs ys more)
          ∙ ap (λ hd. go_on realloc_ok le (length bs) bs (take_message realloc_ok le hd bs conn))
              (header_lem le xs ys (stops_long realloc_ok le xs more))
          ∙ later more (take_message realloc_ok le header xs conn) refl
              (subst (λ o. o ≢ none) (consume-goes realloc_ok le n conn xs more) sound)
              (λ next. consume-append n next (rest_of realloc_ok le xs) ys (omega (arith, less)))
          ∙ ap (with_more ys) (sym (consume-goes realloc_ok le n conn xs more)))
  ]
    where
      later :
          (more : stops le xs ≡ false) (got : Option ClientConnection)
          → take_message realloc_ok le (decoded_header le (load_header le xs)) xs conn ≡ got
          → go_on realloc_ok le n xs got ≢ none
          → ((next : ClientConnection)
              → consume realloc_ok le n next (rest_of realloc_ok le xs) ≢ none
              → consume_all realloc_ok le next (rest_of realloc_ok le xs ++ ys)
                ≡ with_more ys (consume realloc_ok le n next (rest_of realloc_ok le xs)))
          → go_on realloc_ok le
              (length (xs ++ ys))
              (xs ++ ys)
              (take_message realloc_ok le (decoded_header le (load_header le xs)) (xs ++ ys) conn)
            ≡ with_more ys (go_on realloc_ok le n xs got)
      later more none e sound go = absurd (sound refl)
      later more (some next) e sound go =
          ap (go_on realloc_ok le (length (xs ++ ys)) (xs ++ ys)) (
            take_message-append realloc_ok le (decoded_header le (load_header le xs)) xs ys conn
              next e)
          ∙ ap (consume realloc_ok le (length (xs ++ ys)) next)
              (rest_of-append realloc_ok le xs ys more)
          ∙ consume_fuel (length (xs ++ ys)) (suc (length (rest_of realloc_ok le xs ++ ys))) next
              (rest_of realloc_ok le xs ++ ys)
              (omega (
                arith,
                shorter realloc_ok le xs more,
                length-append xs ys,
                length-append (rest_of realloc_ok le xs) ys,
              ))
              (omega arith)
          ∙ go next sound
