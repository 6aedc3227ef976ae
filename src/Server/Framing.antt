-- ===== src/Server/Framing.antt =====
-- The loop of `process_client_read`: the fuel, what it leaves, and bytes that arrive in parts.
use mach_audio.Prelude.{
  length, take, drop, length-append, length-drop, ℕ, zero, suc, ◌+◌, ◌≤◌, ◌<◌, ◌≡◌, refl, sym, ◌∙◌,
  ◌⊎◌, inl, inr, Bool, Option, none, some, List, [], ◌∷◌, ◌++◌, arith,
}
use mach_audio.Protocol.{AudioMsgHeader, header_size}
use mach_audio.Protocol.Bytes.{load_header, byte_at}
use mach_audio.Server.{Env, MachSession}
use mach_audio.Server.Dispatch.{dispatch}
use mach_audio.Server.Read.{partial, invalid, complete, front, front_header, reject, drain}

pub front-cases :
    (le : Bool) (bs : List ℕ)
    → (front le bs ≡ partial)
      ⊎ ((front le bs ≡ invalid (front_header le bs))
          ⊎ (front le bs ≡ complete (front_header le bs)))
unfolding front
front-cases le bs = ground arith

-- A complete message takes the bytes of a header, and is inside.
pub complete-inside :
    (le : Bool) (bs : List ℕ)
    → front le bs ≡ complete (front_header le bs)
    → header_size + (front_header le bs).payload_len ≤ length bs
unfolding front
complete-inside le bs e = ground arith

byte_at_front : (xs ys : List ℕ) (i : ℕ) → i < length xs → byte_at (xs ++ ys) i ≡ byte_at xs i
byte_at_front [] ys i h = absurd (omega arith)
byte_at_front (x ∷ xs) ys zero h = refl
byte_at_front (x ∷ xs) ys (suc i) h = byte_at_front xs ys i (omega arith)

-- The header is read from the first 16 bytes.
pub header_of_front :
    (le : Bool) (xs ys : List ℕ)
    → header_size ≤ length xs
    → front_header le (xs ++ ys) ≡ front_header le xs
unfolding front_header load_header
header_of_front le xs ys h = rw (
  at 0 (omega arith),
  at 1 (omega arith),
  at 2 (omega arith),
  at 3 (omega arith),
  at 4 (omega arith),
  at 5 (omega arith),
  at 6 (omega arith),
  at 7 (omega arith),
  at 8 (omega arith),
  at 9 (omega arith),
  at 10 (omega arith),
  at 11 (omega arith),
  at 12 (omega arith),
  at 13 (omega arith),
  at 14 (omega arith),
  at 15 (omega arith),
)
  where
    at : (i : ℕ) → i < 16 → byte_at (xs ++ ys) i ≡ byte_at xs i
    at i k = byte_at_front xs ys i (omega arith)

-- More bytes behind a message do not change it.
pub front-complete_append :
    (le : Bool) (xs ys : List ℕ)
    → front le xs ≡ complete (front_header le xs)
    → front le (xs ++ ys) ≡ complete (front_header le xs)
unfolding front
front-complete_append le xs ys e =
    let inside = complete-inside le xs e in
    rw (header_of_front le xs ys (omega arith)) (ground (arith, length-append xs ys))

pub front-invalid_append :
    (le : Bool) (xs ys : List ℕ)
    → front le xs ≡ invalid (front_header le xs)
    → front le (xs ++ ys) ≡ invalid (front_header le xs)
unfolding front
front-invalid_append le xs ys e =
    let long : header_size ≤ length xs = ground arith in
    rw (header_of_front le xs ys long) (ground (arith, length-append xs ys))

module _ (env : Env) where
  -- The loop with the fuel that it needs.
  abbrev pub drain_all : MachSession env → List ℕ → Option (MachSession env × List ℕ)
  drain_all session bs = drain env (suc (length bs)) session bs

  -- The payload and the rest behind a complete message.
  abbrev pub payload_of : AudioMsgHeader → List ℕ → List ℕ
  payload_of h bs = take h.payload_len (drop header_size bs)

  abbrev pub rest_of : AudioMsgHeader → List ℕ → List ℕ
  rest_of h bs = drop (header_size + h.payload_len) bs

  -- A round.
  pub drain-partial :
      (n : ℕ) (session : MachSession env) (bs : List ℕ)
      → front env.host_le bs ≡ partial
      → drain env (suc n) session bs ≡ some (session, bs)
  unfolding drain
  drain-partial n session bs e = rw (e, drain)

  pub drain-invalid :
      (n : ℕ) (session : MachSession env) (bs : List ℕ) (h : AudioMsgHeader)
      → front env.host_le bs ≡ invalid h
      → drain env (suc n) session bs ≡ some (reject env session h, bs)
  unfolding drain
  drain-invalid n session bs h e = rw (e, drain)

  abbrev pub go_on :
      ℕ → AudioMsgHeader → List ℕ → Option (MachSession env) → Option (MachSession env × List ℕ)
  go_on n h bs none = none
  go_on n h bs (some next) = drain env n next (rest_of h bs)

  pub drain-complete :
      (n : ℕ) (session : MachSession env) (bs : List ℕ) (h : AudioMsgHeader)
      → front env.host_le bs ≡ complete h
      → drain env (suc n) session bs ≡ go_on n h bs (dispatch env session h (payload_of h bs))
  unfolding drain
  drain-complete n session bs h e = rw (e, drain) (ground arith)

  go_on_cong :
      (n m : ℕ) (h : AudioMsgHeader) (bs : List ℕ) (got : Option (MachSession env))
      → ((next : MachSession env)
          → drain env n next (rest_of h bs) ≡ drain env m next (rest_of h bs))
      → go_on n h bs got ≡ go_on m h bs got
  go_on_cong n m h bs none same = refl
  go_on_cong n m h bs (some next) same = same next

  pub shorter :
      (h : AudioMsgHeader) (bs : List ℕ)
      → header_size + h.payload_len ≤ length bs
      → length (rest_of h bs) < length bs
  shorter h bs inside = omega (arith, length-drop (header_size + h.payload_len) bs)

  pub drain_fuel :
      (n m : ℕ) (session : MachSession env) (bs : List ℕ)
      → length bs < n
      → length bs < m
      → drain env n session bs ≡ drain env m session bs
  drain_fuel zero m session bs h k = absurd (omega arith)
  drain_fuel (suc n) zero session bs h k = absurd (omega arith)
  drain_fuel (suc n) (suc m) session bs h k = elim (front-cases env.host_le bs) [
    | inl e ↦ drain-partial n session bs e ∙ sym (drain-partial m session bs e)
    | inr (inl e) ↦ drain-invalid n session bs _ e ∙ sym (drain-invalid m session bs _ e)
    | inr (inr e) ↦
        let hd = front_header env.host_le bs in
        let less = shorter hd bs (complete-inside env.host_le bs e) in
        drain-complete n session bs _ e
        ∙ go_on_cong n m hd bs (dispatch env session hd (payload_of hd bs))
            (λ next. drain_fuel n m next (rest_of hd bs) (omega arith) (omega arith))
        ∙ sym (drain-complete m session bs _ e)
  ]
