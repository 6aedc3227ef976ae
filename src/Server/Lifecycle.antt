-- ===== src/Server/Lifecycle.antt =====
-- The life of a client's session, as the steps of the event loop.
use mach_audio.Prelude.{
  if◌then◌else◌, length, get_elem?, take, replicate, length-replicate, ℤ, pos_part, ℕ, zero, suc,
  ◌≡◌, refl, sym, inl, inr, Bool, true, false, not, ◌&&◌, Option, none, some, List, [], ◌∷◌, arith,
  ◌==◌, subst, length-replicate, replicate,
}
use mach_audio.Server.{Env, WriteResponse, Connection, max_concurrent_writes}
use mach_audio.Server.Read.{process_client_read}
use mach_audio.Server.Events.{
  Cell, live, freed, accept, cleanup_session_if_needed, after_read, on_read, on_write, closed_fd,
  is_positive, is_negative, is_minus_enobufs,
}
use mach_audio.Server.Preserve.{io, On, OnRead, process_client_read-On}
use mach_audio.Server.Pool.{IsSound, used, IsSound-IsKept, closing-IsSound}
use mach_audio.Server.Completion.{completed, completed-IsSound}

module _ (env : Env) where
  -- The kernel completes a receive that is active, or one of the writes in flight.
  pub data Step : Cell env → Cell env → Type 0 where
    read :
        (c : Connection env) (res : ℤ) (more : Bool) (buffer : Option (List ℕ)) (next : Cell env)
        → c.session.recv_active ≡ true
        → on_read env c res more buffer ≡ some next
        → Step (live c) next
    write :
        (c : Connection env) (i : ℕ) (wr : WriteResponse) (res : ℤ) (next : Cell env)
        → get_elem? c.session.in_flight i ≡ some wr
        → on_write env c i wr res ≡ next
        → Step (live c) next

  -- What a session accepted on a descriptor comes to.
  pub data IsReachable (fd : ℤ) : Cell env → Type 0 where
    accepted : (c : Connection env) → accept env true fd ≡ some c → IsReachable fd (live c)
    stepped : (a b : Cell env) → IsReachable fd a → Step a b → IsReachable fd b

  -- A live session's writes are sound. A freed one was freed with its descriptor closed, no write
  -- in flight and no active receive, so the kernel completes nothing that refers to it.
  pub IsSafe : ℤ → Cell env → Type 0
  IsSafe fd (live c) = IsSound fd (io env c.session)
  IsSafe fd (freed c) =
      (c.session.client_fd ≡ closed_fd)
      × (c.session.in_flight ≡ [])
      × (c.session.recv_active ≡ false)

  if-IsSafe :
      (fd : ℤ) (b : Bool) (x y : Cell env)
      → (b ≡ true → IsSafe fd x)
      → (b ≡ false → IsSafe fd y)
      → IsSafe fd (if b then x else y)
  if-IsSafe fd true x y h k = h refl
  if-IsSafe fd false x y h k = k refl

  empty : {A : Type 0} (xs : List A) → length xs ≡ 0 → xs ≡ []
  empty [] e = refl
  empty (x ∷ xs) e = absurd (omega arith)

  cleanup-IsSafe :
      (fd : ℤ) (c : Connection env)
      → IsSound fd (io env c.session)
      → IsSafe fd (cleanup_session_if_needed env c)
  unfolding IsSafe cleanup_session_if_needed
  cleanup-IsSafe fd c h =
      if-IsSafe fd (c.session.closing && c.session.pending_writes == 0) _ (live c)
        (λ e.
          if-IsSafe fd c.session.recv_active (live shut) (freed shut)
            (λ _. record {
              counted = h.counted;
              pool_size = h.pool_size;
              marked = h.marked;
              sends = h.sends;
              descriptor = inr (closes e, none_left e);
            })
            (λ idle. (refl, none_left e, idle)))
        (λ _. h)
    where
      shut : Connection env
      shut = record c { session = record c.session { client_fd = closed_fd } }

      closes :
          (c.session.closing && c.session.pending_writes == 0) ≡ true → c.session.closing ≡ true
      closes e = ground arith

      none_left :
          (c.session.closing && c.session.pending_writes == 0) ≡ true → c.session.in_flight ≡ []
      none_left e =
          let zero_left : c.session.pending_writes ≡ 0 = ground arith in
          empty c.session.in_flight (omega (arith, h.counted))

  armed-IsSound :
      (fd : ℤ) (c : Connection env) (active : Bool)
      → IsSound fd (io env c.session)
      → IsSound fd (io env (record c.session { recv_active = active }))
  armed-IsSound fd c active h = record {
    counted = h.counted;
    pool_size = h.pool_size;
    marked = h.marked;
    sends = h.sends;
    descriptor = h.descriptor;
  }

  after_read-IsSafe :
      (fd : ℤ) (more : Bool) (c : Connection env)
      → IsSound fd (io env c.session)
      → IsSafe fd (after_read env more c)
  unfolding after_read IsSafe
  after_read-IsSafe fd more c h =
      settled (if not c.session.closing && not more then armed else c)
        (if-sound (not c.session.closing && not more) armed c (armed-IsSound fd c true h) h)
    where
      armed : Connection env
      armed = record c { session = record c.session { recv_active = true } }

      if-sound :
          (b : Bool) (x y : Connection env)
          → IsSound fd (io env x.session)
          → IsSound fd (io env y.session)
          → IsSound fd (io env (if b then x else y).session)
      if-sound true x y k l = k
      if-sound false x y k l = l

      settled :
          (x : Connection env)
          → IsSound fd (io env x.session)
          → IsSafe fd (if x.session.closing then cleanup_session_if_needed env x else live x)
      settled x k = if-IsSafe fd x.session.closing _ (live x) (λ _. cleanup-IsSafe fd x k) (λ _. k)

  IsSafeResult : ℤ → Option (Cell env) → Type 0
  IsSafeResult fd none = Unit {0}
  IsSafeResult fd (some next) = IsSafe fd next

  if-IsSafeResult :
      (fd : ℤ) (b : Bool) (x y : Option (Cell env))
      → IsSafeResult fd x
      → IsSafeResult fd y
      → IsSafeResult fd (if b then x else y)
  if-IsSafeResult fd true x y h k = h
  if-IsSafeResult fd false x y h k = k

  -- The receive of the bytes of a buffer.
  read-IsSafe :
      (fd : ℤ) (more : Bool) (got : Option (Connection env))
      → OnRead env (IsSound fd) (IsSound-IsKept env fd) got
      → IsSafeResult fd (elim got [ none ↦ none | some next ↦ some (after_read env more next) ])
  unfolding IsSafeResult On
  read-IsSafe fd more none h = tt
  read-IsSafe fd more (some next) h = after_read-IsSafe fd more next h

  on_read-IsSafe :
      (fd : ℤ) (c : Connection env) (res : ℤ) (more : Bool) (buffer : Option (List ℕ))
      → IsSound fd (io env c.session)
      → IsSafeResult fd (on_read env c res more buffer)
  unfolding on_read IsSafe IsSafeResult On
  on_read-IsSafe fd c res more buffer h = from (if more then c else idle) (start more)
    where
      idle : Connection env
      idle = record c { session = record c.session { recv_active = false } }

      start : (more : Bool) → IsSound fd (io env (if more then c else idle).session)
      start true = h
      start false = armed-IsSound fd c false h

      used_buffer :
          (x : Connection env)
          → IsSound fd (io env x.session)
          → (buffer : Option (List ℕ))
          → IsSafeResult fd (elim buffer [
            | none ↦ some (after_read env more x)
            | some bytes ↦ elim (process_client_read env x (take (pos_part res) bytes)) [
              | none ↦ none
              | some next ↦ some (after_read env more next)
            ]
          ])
      used_buffer x k none = after_read-IsSafe fd more x k
      used_buffer x k (some bytes) =
          read-IsSafe fd more (process_client_read env x (take (pos_part res) bytes)) (
            process_client_read-On env (IsSound fd) (IsSound-IsKept env fd) x
              (take (pos_part res) bytes) k)

      from :
          (x : Connection env)
          → IsSound fd (io env x.session)
          → IsSafeResult fd (
              if not (is_positive res)
              then (if is_minus_enobufs res
                  then some (live (record x { session = record x.session { recv_active = true } }))
                  else some (
                      cleanup_session_if_needed env
                        (record x { session = record x.session { closing = true } })))
              else elim buffer [
                | none ↦ some (after_read env more x)
                | some bytes ↦ elim (process_client_read env x (take (pos_part res) bytes)) [
                  | none ↦ none
                  | some next ↦ some (after_read env more next)
                ]
              ])
      from x k =
          if-IsSafeResult fd (not (is_positive res)) _ _
            (if-IsSafeResult fd (is_minus_enobufs res) (some (live _)) (some _)
              (armed-IsSound fd x true k)
              (cleanup-IsSafe fd (record x { session = record x.session { closing = true } })
                (closing-IsSound env fd x.session k)))
            (used_buffer x k buffer)

  on_write-IsSafe :
      (fd : ℤ) (c : Connection env) (i : ℕ) (wr : WriteResponse) (res : ℤ)
      → IsSound fd (io env c.session)
      → get_elem? c.session.in_flight i ≡ some wr
      → IsSafe fd (on_write env c i wr res)
  unfolding on_write
  on_write-IsSafe fd c i wr res h e =
      cleanup-IsSafe fd (record c { session = completed env c.session i wr (is_negative res) })
        (completed-IsSound env fd c.session i wr (is_negative res) e h)

  accept-IsSafe :
      (fd : ℤ) (c : Connection env) → accept env true fd ≡ some c → IsSound fd (io env c.session)
  unfolding accept
  accept-IsSafe fd c e =
      subst (λ got. elim got [ none ↦ Unit {0} | some x ↦ IsSound fd (io env x.session) ]) e
        (record {
          counted = refl;
          pool_size = length-replicate max_concurrent_writes false;
          marked = λ i. sym (unused max_concurrent_writes i);
          sends = tt;
          descriptor = inl refl;
        })
    where
      unused : (n i : ℕ) → used (replicate n false) i ≡ 0
      unused zero i = refl
      unused (suc n) zero = refl
      unused (suc n) (suc i) = unused n i

  Step-IsSafe : (fd : ℤ) (a b : Cell env) → IsSafe fd a → Step a b → IsSafe fd b
  unfolding IsSafe IsSafeResult
  Step-IsSafe fd a b h (read c res more buffer next active e) =
      subst (IsSafeResult fd) e (on_read-IsSafe fd c res more buffer h)
  Step-IsSafe fd a b h (write c i wr res next e f) =
      subst (IsSafe fd) f (on_write-IsSafe fd c i wr res h e)

  -- In every state that a session accepted on a descriptor reaches by completed receives and sends,
  -- its writes are sound while it is live: they are counted, each is at most 8192 bytes and goes to
  -- that descriptor, which stays open while any is in flight, and a slot of the pool is in use
  -- exactly while one of them, and no second one, has its bytes there. When it is freed its
  -- descriptor is closed, no write is in flight and no receive is active.
  pub reachable-IsSafe : (fd : ℤ) (cell : Cell env) → IsReachable fd cell → IsSafe fd cell
  unfolding IsSafe
  reachable-IsSafe fd cell (accepted c e) = accept-IsSafe fd c e
  reachable-IsSafe fd cell (stepped a b r step) = Step-IsSafe fd a b (reachable-IsSafe fd a r) step
