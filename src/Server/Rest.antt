-- ===== src/Server/Rest.antt =====
-- What the loop of `process_client_read` leaves in the assemble buffer.
use mach_audio.Prelude.{
  length, ℕ, zero, suc, ◌≤◌, ◌<◌, ◌≡◌, refl, ◌⊎◌, inl, inr, true, Option, none, some, List, arith,
  subst,
}
use mach_audio.Server.{Env, MachSession}
use mach_audio.Server.Dispatch.{dispatch}
use mach_audio.Server.Read.{partial, invalid, front, front_header, drain, reject}
use mach_audio.Server.Framing.{
  front-cases, complete-inside, drain_all, payload_of, rest_of, drain-partial, drain-invalid,
  drain-complete, go_on, shorter,
}

module _ (env : Env) where
  -- No complete message is left: the bytes are too few, or the session closes over an invalid
  -- header.
  abbrev pub IsDrained : MachSession env → List ℕ → Type 0
  IsDrained session rest =
      (front env.host_le rest ≡ partial)
      ⊎ ((session.closing ≡ true)
          × (front env.host_le rest ≡ invalid (front_header env.host_le rest)))

  abbrev Leaves : ℕ → Option (MachSession env × List ℕ) → Type 0
  Leaves n none = Unit {0}
  Leaves n (some r) = (length r.1 ≤ n) × IsDrained r.0 r.1

  go_on-Leaves :
      (n : ℕ) (bs : List ℕ) (got : Option (MachSession env))
      → length (rest_of env (front_header env.host_le bs) bs) ≤ length bs
      → ((next : MachSession env)
          → Leaves
              (length (rest_of env (front_header env.host_le bs) bs))
              (drain env n next (rest_of env (front_header env.host_le bs) bs)))
      → Leaves (length bs) (go_on env n (front_header env.host_le bs) bs got)
  go_on-Leaves n bs none less leaves = tt
  go_on-Leaves n bs (some next) less leaves =
      weaken (drain env n next (rest_of env (front_header env.host_le bs) bs)) (leaves next)
    where
      weaken :
          (got : Option (MachSession env × List ℕ))
          → Leaves (length (rest_of env (front_header env.host_le bs) bs)) got
          → Leaves (length bs) got
      weaken none h = tt
      weaken (some r) h = (omega (arith, h.0), h.1)

  drain-Leaves :
      (n : ℕ) (session : MachSession env) (bs : List ℕ)
      → length bs < n
      → Leaves (length bs) (drain env n session bs)
  drain-Leaves zero session bs h = absurd (omega arith)
  drain-Leaves (suc n) session bs h = elim (front-cases env.host_le bs) [
    | inl e ↦ rw (drain-partial env n session bs e) (omega arith, inl e)
    | inr (inl e) ↦
        rw (drain-invalid env n session bs _ e) (omega arith, inr (unfold reject in refl, e))
    | inr (inr e) ↦
        let hd = front_header env.host_le bs in
        let less = shorter env hd bs (complete-inside env.host_le bs e) in
        rw (drain-complete env n session bs hd e) (
          go_on-Leaves n bs (dispatch env session hd (payload_of env hd bs)) (omega arith)
            (λ next. drain-Leaves n next (rest_of env hd bs) (omega arith)))
  ]

  -- A loop that ends without a fault has had fuel enough: the bytes that it leaves, no more than it
  -- was given, begin with no complete message, or with an invalid header over which the session is
  -- closing.
  pub drain_all-leaves :
      (session after : MachSession env) (bs rest : List ℕ)
      → drain_all env session bs ≡ some (after, rest)
      → (length rest ≤ length bs) × IsDrained after rest
  drain_all-leaves session after bs rest e =
      subst (Leaves (length bs)) e (drain-Leaves (suc (length bs)) session bs (omega arith))
