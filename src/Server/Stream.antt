-- ===== src/Server/Stream.antt =====
-- Bytes that reach the loop of `process_client_read` in two parts.
use mach_audio.Prelude.{
  length, drop, length-append, length-drop, take-append, drop-append, ℕ, zero, suc, ◌+◌, ◌≤◌, ◌<◌,
  ◌≡◌, refl, sym, ap, ◌∙◌, inl, inr, true, Option, none, some, List, ◌++◌, arith,
}
use mach_audio.Protocol.{AudioErrorCode, AudioMsgHeader, header_size}
use mach_audio.Server.{Env, MachSession}
use mach_audio.Server.Reply.{send_error}
use mach_audio.Server.Dispatch.{dispatch}
use mach_audio.Server.Read.{front_header, reject, drain}
use mach_audio.Server.Framing.{
  front-cases, complete-inside, front-complete_append, front-invalid_append, drain_all, payload_of,
  rest_of, drain-partial, drain-invalid, drain-complete, go_on, drain_fuel, shorter,
}

module _ (env : Env) where
  send_error-closing :
      (session : MachSession env) (sequence_id : ℕ) (code : AudioErrorCode)
      → session.closing ≡ true
      → send_error env session sequence_id code ≡ session
  unfolding send_error
  send_error-closing session sequence_id code e = rw (e, send_error)

  -- Rejecting twice is rejecting once: a closing session is not answered.
  reject_twice :
      (session : MachSession env) (h : AudioMsgHeader)
      → reject env (reject env session h) h ≡ reject env session h
  unfolding reject
  reject_twice session h =
      let closed =
        send_error-closing (reject env session h) h.sequence_id AudioErrorCode.invalid_magic refl in
      λ i. record (closed i) { closing = true }

  -- The loop goes on with more bytes where the first part ended.
  abbrev pub with_more :
      List ℕ → Option (MachSession env × List ℕ) → Option (MachSession env × List ℕ)
  with_more ys none = none
  with_more ys (some r) = drain_all env r.0 (r.1 ++ ys)

  -- The message at the front is the same, and so is what is behind it.
  same_payload :
      (h : AudioMsgHeader) (xs ys : List ℕ)
      → header_size + h.payload_len ≤ length xs
      → payload_of env h (xs ++ ys) ≡ payload_of env h xs
  same_payload h xs ys inside = rw (drop-append header_size xs ys (omega arith)) (
      take-append h.payload_len (drop header_size xs) ys
        (omega (arith, length-drop header_size xs)))

  next_more :
      (n : ℕ) (session : MachSession env) (h : AudioMsgHeader) (xs ys : List ℕ)
      → header_size + h.payload_len ≤ length xs
      → (got : Option (MachSession env))
      → ((next : MachSession env)
          → drain_all env next (rest_of env h xs ++ ys)
            ≡ with_more ys (drain env n next (rest_of env h xs)))
      → go_on env (length (xs ++ ys)) h (xs ++ ys) got ≡ with_more ys (go_on env n h xs got)
  next_more n session h xs ys inside none same = refl
  next_more n session h xs ys inside (some next) same =
      rw (drop-append (header_size + h.payload_len) xs ys inside) (
        drain_fuel env (length (xs ++ ys)) (suc (length (rest_of env h xs ++ ys))) next
          (rest_of env h xs ++ ys)
          (omega (
            arith,
            length-append xs ys,
            length-append (rest_of env h xs) ys,
            length-drop (header_size + h.payload_len) xs,
          ))
          (omega arith)
        ∙ same next)

  drain_more :
      (n : ℕ) (session : MachSession env) (xs ys : List ℕ)
      → length xs < n
      → drain_all env session (xs ++ ys) ≡ with_more ys (drain env n session xs)
  drain_more zero session xs ys h = absurd (omega arith)
  drain_more (suc n) session xs ys h = elim (front-cases env.host_le xs) [
    | inl e ↦ ap (with_more ys) (sym (drain-partial env n session xs e))
    | inr (inl e) ↦
        let hd = front_header env.host_le xs in
        let both = front-invalid_append env.host_le xs ys e in
        drain-invalid env (length (xs ++ ys)) session (xs ++ ys) hd both
        ∙ (λ i. some (sym (reject_twice session hd) i, xs ++ ys))
        ∙ sym (drain-invalid env (length (xs ++ ys)) (reject env session hd) (xs ++ ys) hd both)
        ∙ ap (with_more ys) (sym (drain-invalid env n session xs hd e))
    | inr (inr e) ↦
        let hd = front_header env.host_le xs in
        let inside = complete-inside env.host_le xs e in
        drain-complete env (length (xs ++ ys)) session (xs ++ ys) hd
          (front-complete_append env.host_le xs ys e)
        ∙ ap (λ p. go_on env (length (xs ++ ys)) hd (xs ++ ys) (dispatch env session hd p))
            (same_payload hd xs ys inside)
        ∙ next_more n session hd xs ys inside (dispatch env session hd (payload_of env hd xs))
            (λ next.
              drain_more n next (rest_of env hd xs) ys (omega (arith, shorter env hd xs inside)))
        ∙ ap (with_more ys) (sym (drain-complete env n session xs hd e))
  ]

  -- The loop over bytes in two parts is the loop over the first, and then over what it left and
  -- the second.
  pub drain_all-append :
      (session : MachSession env) (xs ys : List ℕ)
      → drain_all env session (xs ++ ys) ≡ with_more ys (drain_all env session xs)
  drain_all-append session xs ys = drain_more (suc (length xs)) session xs ys (omega arith)
