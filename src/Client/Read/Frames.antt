-- ===== src/Client/Read/Frames.antt =====
-- The loop of `on_read` on a stream that arrives in parts.
use mach_audio.Prelude.{
  ltb, if◌then◌else◌, ltb→le, length, take, drop, length-append, length-drop, take-append,
  drop-append, store_u32, ℕ, zero, suc, ◌+◌, ◌≤◌, ◌<◌, ◌≡◌, refl, ap, ◌∙◌, Bool, true, false, not,
  ◌&&◌, ◌||◌, Option, none, some, List, [], ◌∷◌, ◌++◌, arith, ◌==◌,
}
use mach_audio.Client.{ClientConnection}
use mach_audio.Client.Read.{
  be64_at, body_len, consume, count_output, fwrite, is_open, record_latency, runs_short,
  save_output, take_message, take_output, with_output,
}
use mach_audio.Protocol.{AudioCommand, AudioMsgHeader, audio_magic, command_code, header_size}
use mach_audio.Protocol.Bytes.{byte_at, load_header, word32_at}
use mach_audio.Protocol.Header.{decoded_header, net_to_float}
use mach_audio.Server.Framing.{header_of_front}
use mach_audio.Server.Read.{front_header}

-- The test that ends the loop.
abbrev pub stops : Bool → List ℕ → Bool
stops le bs =
    let header = decoded_header le (load_header le bs) in
    ltb (length bs) header_size
    || (not (header.magic == audio_magic) || ltb (length bs) (header_size + header.payload_len))

pub byte_at-front : (xs ys : List ℕ) (i : ℕ) → i < length xs → byte_at (xs ++ ys) i ≡ byte_at xs i
byte_at-front [] ys i h = absurd (omega arith)
byte_at-front (x ∷ xs) ys zero h = refl
byte_at-front (x ∷ xs) ys (suc i) h = byte_at-front xs ys i (omega arith)

take-drop_append :
    (k n : ℕ) (xs ys : List ℕ) → k + n ≤ length xs → take n (drop k (xs ++ ys)) ≡ take n (drop k xs)
take-drop_append k n xs ys h =
    ap (take n) (drop-append k xs ys (omega arith))
    ∙ take-append n (drop k xs) ys (omega (arith, length-drop k xs))

pub header_lem :
    (le : Bool) (xs ys : List ℕ)
    → header_size ≤ length xs
    → decoded_header le (load_header le (xs ++ ys)) ≡ decoded_header le (load_header le xs)
header_lem le xs ys h = unfold front_header in header_of_front le xs ys h

if-some :
    (b : Bool) (c next : ClientConnection)
    → (if b then none else some c) ≡ some next
    → (b ≡ false) × (c ≡ next)
if-some true c next e = absurd (cc)
if-some false c next e = (refl, ground arith)

if_false : (b : Bool) (c : ClientConnection) → b ≡ false → (if b then none else some c) ≡ some c
if_false true c h = absurd (cc)
if_false false c h = refl

same_then :
    (b : Bool) (x x' y : Option ClientConnection) (next : ClientConnection)
    → (x ≡ some next → x' ≡ some next)
    → (if b then x else y) ≡ some next
    → (if b then x' else y) ≡ some next
same_then true x x' y next h e = h e
same_then false x x' y next h e = e

module _ (realloc_ok : ℕ → Bool) (le : Bool) where
  be64-front : (xs ys : List ℕ) (i : ℕ) → i + 7 < length xs → be64_at (xs ++ ys) i ≡ be64_at xs i
  be64-front xs ys i h = rw (
    byte_at-front xs ys i (omega arith),
    byte_at-front xs ys (i + 1) (omega arith),
    byte_at-front xs ys (i + 2) (omega arith),
    byte_at-front xs ys (i + 3) (omega arith),
    byte_at-front xs ys (i + 4) (omega arith),
    byte_at-front xs ys (i + 4 + 1) (omega arith),
    byte_at-front xs ys (i + 4 + 2) (omega arith),
    byte_at-front xs ys (i + 4 + 3) (omega arith),
  )

  word32-front :
      (xs ys : List ℕ) (i : ℕ) → i + 3 < length xs → word32_at le (xs ++ ys) i ≡ word32_at le xs i
  word32-front xs ys i h = rw (
    byte_at-front xs ys i (omega arith),
    byte_at-front xs ys (i + 1) (omega arith),
    byte_at-front xs ys (i + 2) (omega arith),
    byte_at-front xs ys (i + 3) (omega arith),
  )

  -- Data that is saved; without a file the bytes do not matter.
  save_lem :
      (vad n : ℕ) (xs ys : List ℕ) (conn : ClientConnection)
      → (is_open conn.output_file && ltb (length xs) (32 + n)) ≡ false
      → save_output realloc_ok le vad (take n (drop 32 (xs ++ ys))) conn
        ≡ save_output realloc_ok le vad (take n (drop 32 xs)) conn
  unfolding save_output
  save_lem vad n xs ys conn h = λ i. record conn {
    output_file = same conn.output_file h i;
    output_vad_file = fwrite (store_u32 le vad) conn.output_vad_file;
  }
    where
      same :
          (file : Option (List ℕ))
          → (is_open file && ltb (length xs) (32 + n)) ≡ false
          → fwrite (take n (drop 32 (xs ++ ys))) file ≡ fwrite (take n (drop 32 xs)) file
      same none h = refl
      same (some file) h =
          ap (λ r. some (file ++ r)) (take-drop_append 32 n xs ys (ltb→le (length xs) (32 + n) h))

  with_output-append :
      (header : AudioMsgHeader) (xs ys : List ℕ) (conn : ClientConnection)
      → runs_short realloc_ok header xs conn ≡ false
      → with_output realloc_ok le header (xs ++ ys) conn ≡ with_output realloc_ok le header xs conn
  unfolding with_output
  with_output-append header xs ys conn h =
      let long : 32 ≤ length xs = ground arith in
      let duration = be64-front xs ys 16 (omega arith) in
      let vad = word32-front xs ys 24 (omega arith) in
      let n = body_len realloc_ok header in
      (λ i.
        save_output realloc_ok le (net_to_float le (vad i)) (take n (drop 32 (xs ++ ys)))
          (record_latency realloc_ok (duration i) (count_output realloc_ok (duration i) n conn)))
      ∙ save_lem _ n xs ys
          (record_latency realloc_ok (be64_at xs 16)
            (count_output realloc_ok (be64_at xs 16) n conn))
          (file_short conn.output_file n h)
    where
      file_short :
          (file : Option (List ℕ)) (n : ℕ)
          → (ltb (length xs) 32 || (is_open file && ltb (length xs) (32 + n))) ≡ false
          → (is_open file && ltb (length xs) (32 + n)) ≡ false
      file_short file n h = ground arith

  runs_short-append :
      (header : AudioMsgHeader) (xs ys : List ℕ) (conn : ClientConnection)
      → runs_short realloc_ok header xs conn ≡ false
      → runs_short realloc_ok header (xs ++ ys) conn ≡ false
  runs_short-append header xs ys conn h = ground (arith, length-append xs ys)

  take_output-append :
      (header : AudioMsgHeader) (xs ys : List ℕ) (conn next : ClientConnection)
      → take_output realloc_ok le header xs conn ≡ some next
      → take_output realloc_ok le header (xs ++ ys) conn ≡ some next
  unfolding take_output
  take_output-append header xs ys conn next e =
      let got = if-some (runs_short realloc_ok header xs conn) _ next e in
      if_false (runs_short realloc_ok header (xs ++ ys) conn)
        (with_output realloc_ok le header (xs ++ ys) conn)
        (runs_short-append header xs ys conn got.0)
      ∙ ap some (with_output-append header xs ys conn got.0 ∙ got.1)

  pub take_message-append :
      (header : AudioMsgHeader) (xs ys : List ℕ) (conn next : ClientConnection)
      → take_message realloc_ok le header xs conn ≡ some next
      → take_message realloc_ok le header (xs ++ ys) conn ≡ some next
  unfolding take_message
  take_message-append header xs ys conn next e =
      same_then (header.command == command_code AudioCommand.output) _ _ (some conn) next
        (take_output-append header xs ys conn next) e

  -- The loop with the fuel that it needs.
  abbrev pub consume_all : ClientConnection → List ℕ → Option (ClientConnection × List ℕ)
  consume_all conn bs = consume realloc_ok le (suc (length bs)) conn bs

  abbrev pub rest_of : List ℕ → List ℕ
  rest_of bs = drop (header_size + (decoded_header le (load_header le bs)).payload_len) bs

  abbrev pub go_on : ℕ → List ℕ → Option ClientConnection → Option (ClientConnection × List ℕ)
  go_on n bs none = none
  go_on n bs (some next) = consume realloc_ok le n next (rest_of bs)

  pub consume-stops :
      (n : ℕ) (conn : ClientConnection) (bs : List ℕ)
      → stops le bs ≡ true
      → consume realloc_ok le (suc n) conn bs ≡ some (conn, bs)
  unfolding consume
  consume-stops n conn bs h = rw (h, consume)

  pub consume-goes :
      (n : ℕ) (conn : ClientConnection) (bs : List ℕ)
      → stops le bs ≡ false
      → consume realloc_ok le (suc n) conn bs
        ≡ go_on n bs (take_message realloc_ok le (decoded_header le (load_header le bs)) bs conn)
  unfolding consume
  consume-goes n conn bs h =
      rw (h, consume)
        (same (take_message realloc_ok le (decoded_header le (load_header le bs)) bs conn))
    where
      same :
          (got : Option ClientConnection)
          → elim got [ none ↦ none | some next ↦ consume realloc_ok le n next (rest_of bs) ]
            ≡ go_on n bs got
      same none = refl
      same (some next) = refl

  pub shorter : (bs : List ℕ) → stops le bs ≡ false → length (rest_of bs) < length bs
  shorter bs h =
      let n = (decoded_header le (load_header le bs)).payload_len in inside n (stops_false bs h)
    where
      inside : (n : ℕ) → 16 + n ≤ length bs → length (drop (16 + n) bs) < length bs
      inside n h = omega (arith, length-drop (16 + n) bs)

      stops_false :
          (bs : List ℕ)
          → stops le bs ≡ false
          → 16 + (decoded_header le (load_header le bs)).payload_len ≤ length bs
      stops_false bs h = ground arith

  pub stops-append : (xs ys : List ℕ) → stops le xs ≡ false → stops le (xs ++ ys) ≡ false
  stops-append xs ys h =
      rw (header_lem le xs ys (long h)) (longer (decoded_header le (load_header le xs)) h)
    where
      long : stops le xs ≡ false → 16 ≤ length xs
      long h = ground arith

      longer :
          (header : AudioMsgHeader)
          → (ltb (length xs) 16
              || (not (header.magic == audio_magic)
                  || ltb (length xs) (header_size + header.payload_len)))
            ≡ false
          → (ltb (length (xs ++ ys)) 16
              || (not (header.magic == audio_magic)
                  || ltb (length (xs ++ ys)) (header_size + header.payload_len)))
            ≡ false
      longer header h = ground (arith, length-append xs ys)

  pub stops_long : (bs : List ℕ) → stops le bs ≡ false → header_size ≤ length bs
  stops_long bs h = ground arith

  pub rest_of-append :
      (xs ys : List ℕ) → stops le xs ≡ false → rest_of (xs ++ ys) ≡ rest_of xs ++ ys
  rest_of-append xs ys h =
      ap (λ r. drop (header_size + r.payload_len) (xs ++ ys)) (header_lem le xs ys (long h))
      ∙ drop-append (header_size + (decoded_header le (load_header le xs)).payload_len) xs ys
          (inside h)
    where
      long : stops le xs ≡ false → 16 ≤ length xs
      long h = ground arith

      inside :
          stops le xs ≡ false
          → header_size + (decoded_header le (load_header le xs)).payload_len ≤ length xs
      inside h = ground arith
