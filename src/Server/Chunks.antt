-- ===== src/Server/Chunks.antt =====
-- A client's bytes that arrive in parts, by several calls of `process_client_read`.
use mach_audio.Prelude.{
  le→ltb, length, length-append, ℕ, ◌+◌, ◌≤◌, ◌≡◌, refl, sym, ap, ◌∙◌, Option, none, some, List, [],
  ◌∷◌, ◌++◌, append_assoc, append-nil, arith,
}
use mach_audio.Server.{Connection, Env, MachSession, assemble_size}
use mach_audio.Server.Framing.{drain_all}
use mach_audio.Server.Read.{process_client_read, settle}
use mach_audio.Server.Rest.{drain_all-leaves}
use mach_audio.Server.Stream.{drain_all-append, with_more}

module _ (env : Env) where
  -- Several reads, one after the other.
  abbrev pub read_all : Connection env → List (List ℕ) → Option (Connection env)
  read_all c [] = some c
  read_all c (chunk ∷ chunks) = elim (process_client_read env c chunk) [
    | none ↦ none
    | some next ↦ read_all next chunks
  ]

  abbrev pub concat : List (List ℕ) → List ℕ
  concat [] = []
  concat (chunk ∷ chunks) = chunk ++ concat chunks

  abbrev pub settled : Option (MachSession env × List ℕ) → Option (Connection env)
  settled none = none
  settled (some r) = some (settle env r)

  pub fitting :
      (c : Connection env) (chunk : List ℕ)
      → length c.assemble_buf + length chunk ≤ assemble_size
      → process_client_read env c chunk
        ≡ settled (drain_all env c.session (c.assemble_buf ++ chunk))
  unfolding process_client_read
  fitting c chunk h =
      rw (process_client_read, le→ltb assemble_size (length c.assemble_buf + length chunk) h)
        (drained (drain_all env c.session (c.assemble_buf ++ chunk)))
    where
      drained :
          (got : Option (MachSession env × List ℕ))
          → elim got [ none ↦ none | some r ↦ some (settle env r) ] ≡ settled got
      drained none = refl
      drained (some r) = refl

  -- What a read leaves is no longer than what it had.
  no_longer :
      (c next : Connection env) (chunk : List ℕ)
      → length c.assemble_buf + length chunk ≤ assemble_size
      → process_client_read env c chunk ≡ some next
      → length next.assemble_buf ≤ length c.assemble_buf + length chunk
  unfolding settle
  no_longer c next chunk h e =
      left (drain_all env c.session (c.assemble_buf ++ chunk)) refl (sym (fitting c chunk h) ∙ e)
    where
      left :
          (got : Option (MachSession env × List ℕ))
          → drain_all env c.session (c.assemble_buf ++ chunk) ≡ got
          → settled got ≡ some next
          → length next.assemble_buf ≤ length c.assemble_buf + length chunk
      left none e1 e2 = ground arith
      left (some r) e1 e2 =
          let less = (drain_all-leaves env c.session r.0 (c.assemble_buf ++ chunk) r.1 e1).0 in
          let same : r.1 ≡ next.assemble_buf = ground arith in
          rw⁻¹ same (omega (arith, length-append c.assemble_buf chunk))

  abbrev read_next : List ℕ → Option (Connection env) → Option (Connection env)
  read_next chunk none = none
  read_next chunk (some next) = process_client_read env next chunk

  -- A read of more bytes is a read of the first and then one of the second.
  read_two :
      (c : Connection env) (xs ys : List ℕ)
      → length c.assemble_buf + length (xs ++ ys) ≤ assemble_size
      → process_client_read env c (xs ++ ys) ≡ read_next ys (process_client_read env c xs)
  unfolding settle
  read_two c xs ys h =
      fitting c (xs ++ ys) h
      ∙ ap (λ bs. settled (drain_all env c.session bs)) (sym (append_assoc c.assemble_buf xs ys))
      ∙ ap settled (drain_all-append env c.session (c.assemble_buf ++ xs) ys)
      ∙ split (drain_all env c.session (c.assemble_buf ++ xs)) refl
      ∙ ap (read_next ys) (sym (fitting c xs (omega (arith, length-append xs ys))))
    where
      room :
          (r : MachSession env × List ℕ)
          → drain_all env c.session (c.assemble_buf ++ xs) ≡ some r
          → length r.1 + length ys ≤ assemble_size
      room r e =
          let less = (drain_all-leaves env c.session r.0 (c.assemble_buf ++ xs) r.1 e).0 in
          omega (arith, length-append c.assemble_buf xs, length-append xs ys)

      split :
          (got : Option (MachSession env × List ℕ))
          → drain_all env c.session (c.assemble_buf ++ xs) ≡ got
          → settled (with_more env ys got) ≡ read_next ys (settled got)
      split none e = refl
      split (some r) e = sym (fitting (settle env r) ys (room r e))

  -- Bytes that arrive in any number of reads, and that fit in the assemble buffer behind what it
  -- holds, have the effect of one read of all of them: the same session, replies included, the same
  -- bytes left, and a fault in the one case exactly when in the other.
  pub read_all-concat :
      (c : Connection env) (chunk : List ℕ) (chunks : List (List ℕ))
      → length c.assemble_buf + length (concat (chunk ∷ chunks)) ≤ assemble_size
      → read_all c (chunk ∷ chunks) ≡ process_client_read env c (concat (chunk ∷ chunks))
  read_all-concat c chunk [] h = rw (append-nil chunk) (same (process_client_read env c chunk))
    where
      same :
          (got : Option (Connection env)) → elim got [ none ↦ none | some next ↦ some next ] ≡ got
      same none = refl
      same (some next) = refl
  read_all-concat c chunk (next ∷ chunks) h =
      later (process_client_read env c chunk) refl
        (λ after room. read_all-concat after next chunks room)
      ∙ sym (read_two c chunk (concat (next ∷ chunks)) h)
    where
      later :
          (got : Option (Connection env))
          → process_client_read env c chunk ≡ got
          → ((after : Connection env)
              → length after.assemble_buf + length (concat (next ∷ chunks)) ≤ assemble_size
              → read_all after (next ∷ chunks)
                ≡ process_client_read env after (concat (next ∷ chunks)))
          → elim got [ none ↦ none | some after ↦ read_all after (next ∷ chunks) ]
            ≡ read_next (concat (next ∷ chunks)) got
      later none e go = refl
      later (some after) e go =
          let less =
            no_longer c after chunk (omega (arith, length-append chunk (concat (next ∷ chunks))))
              e in
          go after (omega (arith, length-append chunk (concat (next ∷ chunks))))
