-- ===== src/Client/Read/Reads.antt =====
-- Several calls of `on_read`, against one loop over all their bytes.
use mach_audio.Prelude.{
  ltb, length, length-append, ℕ, suc, ◌+◌, ◌<◌, ◌≡◌, refl, sym, ap, ◌∙◌, Bool, true, false, not,
  ◌&&◌, Option, none, some, List, [], ◌∷◌, ◌++◌, append_assoc, append-nil, arith,
}
use mach_audio.Client.{ClientConnection, bytes}
use mach_audio.Client.Read.{consume, on_read, room_for}
use mach_audio.Client.Read.Chunks.{consume-framed, consume-leaves, framed, framed_result}
use mach_audio.Client.Read.Frames.{consume-stops, consume_all, stops}
use mach_audio.Client.Read.Stream.{consume-append, with_more}

-- A connection without its read buffer: the statistics, the files and what was sent.
abbrev pub plain : ClientConnection → ClientConnection
plain conn = framed [] 0 conn

abbrev pub concat : List (List ℕ) → List ℕ
concat [] = []
concat (chunk ∷ chunks) = chunk ++ concat chunks

no_guard : (b c : Bool) → c ≡ true → (b && not c) ≡ false
no_guard true true e = refl
no_guard false true e = refl
no_guard b false e = absurd (cc)

module _ (realloc_ok : ℕ → Bool) (le : Bool) (memory : (n : ℕ) → realloc_ok n ≡ true) where
  -- The calls, one after the other.
  abbrev pub reads : ClientConnection → List (List ℕ) → Option ClientConnection
  reads conn [] = some conn
  reads conn (chunk ∷ chunks) = elim (on_read realloc_ok le (bytes chunk) conn) [
    | none ↦ none
    | some next ↦ reads next chunks
  ]

  abbrev finish : Option (ClientConnection × List ℕ) → Option ClientConnection
  finish none = none
  finish (some r) = some (record r.0 { read_buf = r.1 })

  on_read-consume :
      (b : ℕ) (bs : List ℕ) (conn : ClientConnection)
      → let chunk = b ∷ bs in
        let cap = room_for realloc_ok (length conn.read_buf + length chunk) conn in
        on_read realloc_ok le (bytes chunk) conn
        ≡ finish (
            consume realloc_ok le
              (suc (length conn.read_buf + length chunk))
              (framed conn.read_buf cap conn)
              (conn.read_buf ++ chunk))
  unfolding on_read
  on_read-consume b bs conn =
      let chunk = b ∷ bs in
      let need = length conn.read_buf + length chunk in
      let cap = room_for realloc_ok need conn in
      rw (on_read, no_guard (ltb conn.read_buf_cap need) (realloc_ok cap) (memory cap))
        (same (
          consume realloc_ok le (suc need) (framed conn.read_buf cap conn)
            (conn.read_buf ++ chunk)))
    where
      same :
          (got : Option (ClientConnection × List ℕ))
          → elim got [ none ↦ none | some (next, rest) ↦ some (record next { read_buf = rest }) ]
            ≡ finish got
      same none = refl
      same (some r) = refl

  plain_result :
      (buf : List ℕ) (cap : ℕ) (conn next : ClientConnection) (bs : List ℕ)
      (got : Option (ClientConnection × List ℕ))
      → length bs < suc (length bs)
      → consume_all realloc_ok le conn bs ≡ got
      → finish (framed_result buf cap got) ≡ some next
      → (consume_all realloc_ok le (plain conn) bs ≡ some (plain next, next.read_buf))
        × (stops le next.read_buf ≡ true)
  plain_result buf cap conn next bs none h e f = absurd (cc)
  plain_result buf cap conn next bs (some r) h e f =
      let same : record (framed buf cap r.0) { read_buf = r.1 } ≡ next = ground arith in
      rw⁻¹ same (
        consume-framed realloc_ok le [] 0 (suc (length bs)) conn bs ∙ ap (framed_result [] 0) e,
        consume-leaves realloc_ok le (suc (length bs)) conn bs r (omega arith) e,
      )

  on_read-nil : (conn : ClientConnection) → on_read realloc_ok le (bytes []) conn ≡ some conn
  unfolding on_read
  on_read-nil conn = refl

  read_one :
      (chunk : List ℕ) (conn next : ClientConnection)
      → stops le conn.read_buf ≡ true
      → on_read realloc_ok le (bytes chunk) conn ≡ some next
      → (consume_all realloc_ok le (plain conn) (conn.read_buf ++ chunk)
          ≡ some (plain next, next.read_buf))
        × (stops le next.read_buf ≡ true)
  read_one [] conn next stop e =
      let unread : some conn ≡ some next = sym (on_read-nil conn) ∙ e in
      let same : conn ≡ next = ground arith in
      rw⁻¹ same (
        ap (consume_all realloc_ok le (plain conn)) (append-nil conn.read_buf)
            ∙ consume-stops realloc_ok le (length conn.read_buf) (plain conn) conn.read_buf stop,
        stop,
      )
  read_one (b ∷ bs) conn next stop e =
      let chunk = b ∷ bs in
      let cap = room_for realloc_ok (length conn.read_buf + length chunk) conn in
      let all = conn.read_buf ++ chunk in
      plain_result conn.read_buf cap conn next all (consume_all realloc_ok le conn all)
        (omega arith) refl
        (ap finish (
            sym (
              ap (λ n. consume realloc_ok le (suc n) (framed conn.read_buf cap conn) all)
                (sym (length-append conn.read_buf chunk))
              ∙ consume-framed realloc_ok le conn.read_buf cap (suc (length all)) conn all))
          ∙ sym (on_read-consume b bs conn)
          ∙ e)

  -- Reads that find memory and do not fault have the effect of one loop over all their bytes, behind
  -- those that the buffer held: the same statistics, files and bytes left over. At the start the
  -- buffer is empty, or holds bytes that the loop does not go on with.
  pub reads-consume :
      (chunks : List (List ℕ)) (conn r : ClientConnection)
      → stops le conn.read_buf ≡ true
      → reads conn chunks ≡ some r
      → consume_all realloc_ok le (plain conn) (conn.read_buf ++ concat chunks)
        ≡ some (plain r, r.read_buf)
  reads-consume [] conn r stop e =
      let same : conn ≡ r = ground arith in
      rw⁻¹ same (
        ap (consume_all realloc_ok le (plain conn)) (append-nil conn.read_buf)
        ∙ consume-stops realloc_ok le (length conn.read_buf) (plain conn) conn.read_buf stop)
  reads-consume (chunk ∷ chunks) conn r stop e =
      later (on_read realloc_ok le (bytes chunk) conn) refl e (λ next. reads-consume chunks next r)
    where
      later :
          (got : Option ClientConnection)
          → on_read realloc_ok le (bytes chunk) conn ≡ got
          → elim got [ none ↦ none | some next ↦ reads next chunks ] ≡ some r
          → ((next : ClientConnection)
              → stops le next.read_buf ≡ true
              → reads next chunks ≡ some r
              → consume_all realloc_ok le (plain next) (next.read_buf ++ concat chunks)
                ≡ some (plain r, r.read_buf))
          → consume_all realloc_ok le (plain conn) (conn.read_buf ++ (chunk ++ concat chunks))
            ≡ some (plain r, r.read_buf)
      later none e1 e2 go = absurd (cc)
      later (some next) e1 e2 go =
          let one = read_one chunk conn next stop e1 in
          let first = conn.read_buf ++ chunk in
          ap (consume_all realloc_ok le (plain conn))
            (sym (append_assoc conn.read_buf chunk (concat chunks)))
          ∙ consume-append realloc_ok le (suc (length first)) (plain conn) first (concat chunks)
              (omega arith) (λ lost. absurd (cc (one.0)))
          ∙ ap (with_more realloc_ok le (concat chunks)) one.0
          ∙ go next one.1 e2

  -- Two ways of cutting the same bytes into reads lead to the same statistics, the same files and
  -- the same bytes in the buffer, if memory is found and neither faults.
  pub reads_cut :
      (chunks chunks' : List (List ℕ)) (conn r r' : ClientConnection)
      → stops le conn.read_buf ≡ true
      → concat chunks ≡ concat chunks'
      → reads conn chunks ≡ some r
      → reads conn chunks' ≡ some r'
      → (plain r ≡ plain r') × (r.read_buf ≡ r'.read_buf)
  reads_cut chunks chunks' conn r r' stop same e e' =
      let both : some (plain r, r.read_buf) ≡ some (plain r', r'.read_buf) =
        sym (reads-consume chunks conn r stop e)
        ∙ ap (λ bs. consume_all realloc_ok le (plain conn) (conn.read_buf ++ bs)) same
        ∙ reads-consume chunks' conn r' stop e' in
      (ap (λ o. fst_or (plain r) o) both, ap (λ o. rest_or r.read_buf o) both)
    where
      fst_or : ClientConnection → Option (ClientConnection × List ℕ) → ClientConnection
      fst_or c none = c
      fst_or c (some p) = p.0

      rest_or : List ℕ → Option (ClientConnection × List ℕ) → List ℕ
      rest_or c none = c
      rest_or c (some p) = p.1
