-- ===== src/Server/Pool.antt =====
-- The write buffers of a session: its pool, and those that are with the kernel.
use mach_audio.Prelude.{
  ltb, if◌then◌else◌, ltb→le, Bool-cases, length, get_or, set, length-set, ℤ, store_u16, store_u32,
  ℕ, zero, suc, ◌+◌, ◌≤◌, ◌<◌, ◌≡◌, refl, sym, ◌∙◌, ◌⊎◌, inl, inr, Bool, true, false, Option, none,
  some, List, [], ◌∷◌, ◌++◌, arith, ◌==◌, subst,
}
use mach_audio.Protocol.{AudioCommand, AudioMsgHeader, header_size}
use mach_audio.Protocol.Bytes.{store_header}
use mach_audio.Server.{Env, WriteResponse, MachSession, max_concurrent_writes, max_write_payload}
use mach_audio.Server.Reply.{first_free, get_write_response, submit, message, reply}
use mach_audio.Server.Preserve.{Io, io, IsKept}

-- Whether a write has its bytes in slot `i` of the pool.
abbrev pub is_slot : Option ℕ → ℕ → Bool
is_slot none i = false
is_slot (some j) i = j == i

abbrev pub counts : Option ℕ → ℕ → ℕ
counts slot i = if is_slot slot i then 1 else 0

-- How many writes have their bytes in slot `i`.
abbrev pub uses : ℕ → List WriteResponse → ℕ
uses i [] = 0
uses i (wr ∷ wrs) = counts wr.slot i + uses i wrs

abbrev pub used : List Bool → ℕ → ℕ
used pool i = if get_or pool i false then 1 else 0

-- Each write fits in a buffer, and goes to one descriptor.
abbrev pub AreSends : ℤ → List WriteResponse → Type 0
AreSends fd [] = Unit {0}
AreSends fd (wr ∷ wrs) = (length wr.bytes ≤ max_write_payload) × (wr.fd ≡ fd) × AreSends fd wrs

-- The writes of the session of a descriptor: they are counted; a slot is in use exactly while one
-- of them, and no second one, has its bytes there; each fits in its buffer and goes to the
-- descriptor, which stays open until the session is closing and none of them is left.
pub record IsSound (fd : ℤ) (s : Io) : Type 0 where
  pub counted : s.pending_writes ≡ length s.in_flight
  pub pool_size : length s.write_pool ≡ max_concurrent_writes
  pub marked : (i : ℕ) → uses i s.in_flight ≡ used s.write_pool i
  pub sends : AreSends fd s.in_flight
  pub descriptor : (s.client_fd ≡ fd) ⊎ ((s.closing ≡ true) × (s.in_flight ≡ []))

first_free-unused :
    (pool : List Bool) (i : ℕ) → first_free pool ≡ some i → (i < length pool) × (used pool i ≡ 0)
unfolding first_free
first_free-unused [] i e = ground arith
first_free-unused (false ∷ pool) i e = ground arith
first_free-unused (true ∷ pool) i e =
    tail (first_free pool) refl e (λ j f. first_free-unused pool j f)
  where
    tail :
        (got : Option ℕ)
        → first_free pool ≡ got
        → elim got [ none ↦ none | some j ↦ some (suc j) ] ≡ some i
        → ((j : ℕ) → first_free pool ≡ some j → (j < length pool) × (used pool j ≡ 0))
        → (i < suc (length pool)) × (used (true ∷ pool) i ≡ 0)
    tail none f e rest = ground arith
    tail (some j) f e rest =
        let both = rest j f in
        let same : suc j ≡ i = ground arith in rw⁻¹ same (omega (arith, both.0), both.1)

pub used-set :
    (pool : List Bool) (i j : ℕ) (b : Bool)
    → i < length pool
    → used (set pool i b) j ≡ (if i == j then (if b then 1 else 0) else used pool j)
used-set [] i j b h = absurd (omega arith)
used-set (x ∷ pool) zero zero b h = refl
used-set (x ∷ pool) zero (suc j) b h = ground arith
used-set (x ∷ pool) (suc i) zero b h = ground arith
used-set (x ∷ pool) (suc i) (suc j) b h = ground (arith, used-set pool i j b)

length-message :
    (env : Env) (c : AudioCommand) (n : ℕ) (p : List ℕ)
    → length (message env c n p) ≡ header_size + length p
unfolding message store_header store_u32 store_u16
length-message env c n p = sized env.host_le _
  where
    sized :
        (le : Bool) (h : AudioMsgHeader) → length (store_header le h ++ p) ≡ header_size + length p
    sized true h = omega arith
    sized false h = omega arith

-- The fields after a submission.
abbrev submitted : Io → List Bool → Option ℕ → List ℕ → Io
submitted s pool slot bytes =
    let wr : WriteResponse = record { slot = slot; fd = s.client_fd; bytes = bytes } in
    record s {
      write_pool = pool;
      pending_writes = s.pending_writes + 1;
      in_flight = wr ∷ s.in_flight;
    }

submitted-IsSound :
    (fd : ℤ) (s : Io) (pool : List Bool) (slot : Option ℕ) (bytes : List ℕ)
    → s.closing ≡ false
    → IsSound fd s
    → length bytes ≤ max_write_payload
    → length pool ≡ max_concurrent_writes
    → ((i : ℕ) → used pool i ≡ counts slot i + used s.write_pool i)
    → IsSound fd (submitted s pool slot bytes)
submitted-IsSound fd s pool slot bytes running h small size marks = record {
  counted = omega (arith, h.counted);
  pool_size = size;
  marked = λ i. omega (arith, marks i, h.marked i);
  sends = (small, same, h.sends);
  descriptor = inl same;
}
  where
    same : s.client_fd ≡ fd
    same = elim h.descriptor [ inl e ↦ e | inr (e, f) ↦ absurd (ground arith) ]

-- Taking the first free slot marks that slot, and no other.
taken :
    (pool : List Bool) (i j : ℕ)
    → first_free pool ≡ some i
    → used (set pool i true) j ≡ (if i == j then 1 else 0) + used pool j
taken pool i j e =
    let free = first_free-unused pool i e in
    let marks = used-set pool i j true free.0 in
    elim (Bool-cases (i == j)) [
      | inl same ↦
          let at : i ≡ j = ground arith in
          let none_yet : used pool j ≡ 0 = subst (λ k. used pool k ≡ 0) at free.1 in ground arith
      | inr other ↦ ground arith
    ]

module _ (env : Env) (fd : ℤ) (s : MachSession env) (n : ℕ) where
  -- What `get_write_response` gives.
  IsGot : Option (Option ℕ) × MachSession env → Type 0
  IsGot (none, t) = io env t ≡ io env s
  IsGot (some none, t) = (n ≤ max_write_payload) × (io env t ≡ io env s)
  IsGot (some (some i), t) =
      (n ≤ max_write_payload)
      × (first_free s.write_pool ≡ some i)
      × (io env t ≡ record (io env s) { write_pool = set s.write_pool i true })

  if-IsGot :
      (b : Bool) (x y : Option (Option ℕ) × MachSession env)
      → (b ≡ true → IsGot x)
      → (b ≡ false → IsGot y)
      → IsGot (if b then x else y)
  if-IsGot true x y h k = h refl
  if-IsGot false x y h k = k refl

  get-IsGot : IsGot (get_write_response env s n)
  unfolding get_write_response IsGot
  get-IsGot =
      if-IsGot (ltb max_write_payload n) (none, s) _ (λ _. refl)
        (λ e. pooled (ltb→le max_write_payload n e) (first_free s.write_pool) refl)
    where
      malloced :
          (b : Bool)
          → n ≤ max_write_payload
          → IsGot (if b then some none else none, record s { mallocs = s.mallocs + 1 })
      malloced true small = (small, refl)
      malloced false small = refl

      pooled :
          n ≤ max_write_payload
          → (free : Option ℕ) → first_free s.write_pool ≡ free
          → IsGot (elim free [
            | some i ↦ (some (some i), record s { write_pool = set s.write_pool i true })
            | none ↦ (
              if env.malloc_ok s.mallocs then some none else none,
              record s { mallocs = s.mallocs + 1 },
            )
          ])
      pooled small (some i) e = (small, e, refl)
      pooled small none e = malloced (env.malloc_ok s.mallocs) small

reply-IsSound :
    (env : Env) (fd : ℤ) (s : MachSession env) (c : AudioCommand) (n : ℕ) (p : List ℕ)
    → s.closing ≡ false
    → IsSound fd (io env s)
    → IsSound fd (io env (reply env s c n p))
unfolding reply submit IsGot
reply-IsSound env fd s c n p running h =
    replied (get_write_response env s size) (get-IsGot env fd s size)
  where
    size : ℕ
    size = header_size + length p

    small : size ≤ max_write_payload → length (message env c n p) ≤ max_write_payload
    small k = omega (arith, length-message env c n p)

    replied :
        (got : Option (Option ℕ) × MachSession env)
        → IsGot env fd s size got
        → IsSound fd (
            io env
              (elim got.0 [ none ↦ got.1 | some slot ↦ submit env got.1 slot (message env c n p) ]))
    replied (none, t) e = rw e h
    replied (some none, t) (k, e) =
        subst (λ x. IsSound fd (submitted x x.write_pool none (message env c n p))) (sym e)
          (submitted-IsSound fd (io env s) s.write_pool none (message env c n p) running h (small k)
            h.pool_size (λ i. omega arith))
    replied (some (some i), t) (k, f, e) =
        subst (λ x. IsSound fd (submitted x x.write_pool (some i) (message env c n p))) (sym e)
          (submitted-IsSound fd (io env s) (set s.write_pool i true) (some i) (message env c n p)
            running h (small k) (length-set s.write_pool i true ∙ h.pool_size)
            (λ j. taken s.write_pool i j f))

pub closing-IsSound :
    (env : Env) (fd : ℤ) (s : MachSession env)
    → IsSound fd (io env s)
    → IsSound fd (io env (record s { closing = true }))
closing-IsSound env fd s h = record {
  counted = h.counted;
  pool_size = h.pool_size;
  marked = h.marked;
  sends = h.sends;
  descriptor = elim h.descriptor [ inl e ↦ inl e | inr (c, e) ↦ inr (refl, e) ];
}

pub IsSound-IsKept : (env : Env) (fd : ℤ) → IsKept env (IsSound fd)
IsSound-IsKept env fd = record { replied = reply-IsSound env fd; closed = closing-IsSound env fd }

-- A reply that is longer than 8192 bytes, its header included, is not sent, and nothing is sent in
-- its place: the session is as it was.
pub reply_too_long :
    (env : Env) (s : MachSession env) (c : AudioCommand) (n : ℕ) (p : List ℕ)
    → max_write_payload < header_size + length p
    → reply env s c n p ≡ s
unfolding reply get_write_response
reply_too_long env s c n p long =
    let e : ltb max_write_payload (header_size + length p) ≡ true = ground arith in
    cut (ltb max_write_payload (header_size + length p)) e
  where
    cut :
        (b : Bool)
        → b ≡ true
        → (let got : Option (Option ℕ) × MachSession env =
              if b then (none, s) else elim (first_free s.write_pool) [
                | some i ↦ (some (some i), record s { write_pool = set s.write_pool i true })
                | none ↦ (
                  if env.malloc_ok s.mallocs then some none else none,
                  record s { mallocs = s.mallocs + 1 },
                )
              ] in
            elim got.0 [ none ↦ got.1 | some slot ↦ submit env got.1 slot (message env c n p) ])
          ≡ s
    cut true e = refl
    cut false e = absurd (ground arith)
