-- ===== src/Transcode/Hoare.antt =====
-- Runs that do not fault: rules for the steps on the session and the arena.
use mach_audio.Prelude.{
  if◌then◌else◌, length, take, drop, length-append, length-take, length-drop, ℤ, u64, store_u16, ℕ,
  zero, suc, ◌+◌, ◌*◌, ◌^◌, ◌≤◌, ◌<◌, ◌≡◌, refl, sym, ◌≢◌, Bool, true, false, Option, none, some,
  List, [], ◌∷◌, ◌++◌, arith, subst,
}
use mach_audio.Arena.{Arena, alloc}
use mach_audio.Arena.Alloc.{IsValid, alloc-IsBlock}
use mach_audio.Transcode.{Dsp, TranscodeSession, codec_l16}
use mach_audio.Transcode.Memory.{
  Run, ok, error, fault, M, ◌>>=◌, slice, patch, samples_of, bytes_of, State, alloc_or_fail, load,
  store, load_samples, store_samples,
}

pub length-samples_of :
    (le : Bool) (n : ℕ) (bs : List ℕ) → length bs ≡ 2 * n → length (samples_of le bs) ≡ n
unfolding samples_of
length-samples_of le n [] e = omega arith
length-samples_of le n (b ∷ []) e = absurd (omega arith)
length-samples_of le zero (b ∷ c ∷ bs) e = absurd (omega arith)
length-samples_of le (suc n) (b ∷ c ∷ bs) e = omega (arith, length-samples_of le n bs)

pub length-bytes_of : (le : Bool) (zs : List ℤ) → length (bytes_of le zs) ≡ 2 * length zs
unfolding bytes_of store_u16
length-bytes_of le [] = omega arith
length-bytes_of true (z ∷ zs) = omega (arith, length-bytes_of true zs)
length-bytes_of false (z ∷ zs) = omega (arith, length-bytes_of false zs)

-- What a configuration asks of its session: the fields fit their types, G.711 input is mono, L16
-- input has a channel, the resampler has an input rate and an output channel, and without it there
-- are no more channels out than in.
pub record IsServable {d : Dsp} (t : TranscodeSession d) : Type 0 where
  pub mono : t.in_payload_type ≢ codec_l16 → t.in_channels ≡ 1
  pub has_channel : 0 < t.in_channels
  pub in_fits : t.in_channels < 256
  pub out_fits : t.out_channels < 256
  pub rate_fits : t.out_sample_rate < 2 ^ 16
  pub has_rate : t.needs_resample ≡ true → (0 < t.in_sample_rate) × (0 < t.out_channels)
  pub no_wider : t.needs_resample ≡ false → t.out_channels ≤ t.in_channels

module _ (d : Dsp) (c0 : ℕ) where
  -- A state in which the session can be served: its arena is valid and in use up to `c0` or more.
  pub record IsReady (s : State d) : Type 0 where
    pub valid : IsValid s.arena
    pub below : s.arena.size < 2 ^ 32
    pub above : c0 ≤ s.arena.curr
    pub servable : IsServable s.session

  -- The run does not fault; an error leaves a ready state, and an end what `R` says.
  unfoldable pub Done : {A : Type 0} → (A → State d → Type 0) → Run (State d) A → Type 0
  Done R (ok a s) = R a s
  Done R (error s) = IsReady s
  Done R fault = ⊥

  pub Done-bind :
      {A B : Type 0} (Q : A → State d → Type 0) (R : B → State d → Type 0) (m : M (State d) A)
      (f : A → M (State d) B) (s : State d)
      → Done Q (m s)
      → ((a : A) (s' : State d) → Q a s' → Done R (f a s'))
      → Done R ((m >>= f) s)
  unfolding Done
  Done-bind Q R m f s h k = go (m s) h
    where
      go :
          (r : Run (State d) _)
          → Done Q r
          → Done R (elim r [ ok a s' ↦ f a s' | error s' ↦ error s' | fault ↦ fault ])
      go (ok a s') h = k a s' h
      go (error s') h = h
      go fault h = h

  pub Done-if :
      {A : Type 0} (R : A → State d → Type 0) (b : Bool) (x y : M (State d) A) (s : State d)
      → (b ≡ true → Done R (x s))
      → (b ≡ false → Done R (y s))
      → Done R ((if b then x else y) s)
  Done-if R true x y s h k = h refl
  Done-if R false x y s h k = k refl

  -- The rule for a step that only reads.
  pub Done-read :
      {A B : Type 0} (Q : A → Type 0) (R : B → State d → Type 0) (m : M (State d) A)
      (f : A → M (State d) B) (s : State d)
      → Done (λ a s'. Q a × (s' ≡ s)) (m s)
      → ((a : A) → Q a → Done R (f a s))
      → Done R ((m >>= f) s)
  Done-read Q R m f s h k =
      Done-bind (λ a s'. Q a × (s' ≡ s)) R m f s h
        (λ a s' q. subst (λ t. Done R (f a t)) (sym q.1) (k a q.0))

  abbrev pub IsBlockOf : ℕ → State d → ℕ → State d → Type 0
  IsBlockOf n s p s' =
      IsReady s' × (s.arena.curr ≤ p) × (p + n ≡ s'.arena.curr) × (s'.session ≡ s.session)

  pub alloc_or_fail-Done :
      (n : ℕ) (s : State d) → n < 2 ^ 63 → IsReady s → Done (IsBlockOf n s) (alloc_or_fail d n s)
  unfolding Done alloc_or_fail
  alloc_or_fail-Done n s small h = go (alloc s.arena (u64 n)).0 (alloc s.arena (u64 n)).1 refl
    where
      go :
          (p : Option ℕ) (a : Arena)
          → alloc s.arena (u64 n) ≡ (p, a)
          → Done
              (IsBlockOf n s)
              (elim p [ none ↦ error s | some start ↦ ok start (record s { arena = a }) ])
      go none a e = h
      go (some p) a e =
          let both = alloc-IsBlock s.arena (u64 n) p a h.valid (omega arith) e in
          let same : u64 n ≡ n = omega arith in
          let ends : p + n ≡ a.curr = omega (arith, both.0.ends) in
          (
            record {
              valid = both.1;
              below = omega (arith, h.below, both.0.same_size);
              above = omega (arith, h.above, both.0.above);
              servable = h.servable;
            },
            both.0.above,
            ends,
            refl,
          )

  abbrev pub Keeps : State d → State d → Type 0
  Keeps s s' = IsReady s' × (s'.arena.curr ≡ s.arena.curr) × (s'.session ≡ s.session)

  pub load-Done :
      (off n : ℕ) (s : State d)
      → off + n ≤ s.arena.curr
      → IsReady s
      → Done (λ bs s'. (length bs ≡ n) × (s' ≡ s)) (load d off n s)
  unfolding Done load slice
  load-Done off n s inside h = subst (Done λ bs s'. (length bs ≡ n) × (s' ≡ s)) (sym run) (
    omega (arith, length-take n (drop off h.valid.storage), length-drop off h.valid.storage),
    refl,
  )
    where
      fits : off + n ≤ length h.valid.storage
      fits = omega (arith, inside, h.valid.fits, h.valid.used)

      run : load d off n s ≡ ok (take n (drop off h.valid.storage)) s
      run = let backed = h.valid.backed in ground arith

  pub store-Done :
      (off : ℕ) (bs : List ℕ) (s : State d)
      → off + length bs ≤ s.arena.curr
      → IsReady s
      → Done (λ _ s'. Keeps s s') (store d off bs s)
  unfolding Done store patch
  store-Done off bs s inside h = subst (Done λ _ s'. Keeps s s') (sym run) (ready, refl, refl)
    where
      old : List ℕ
      old = h.valid.storage

      new : List ℕ
      new = take off old ++ (bs ++ drop (off + length bs) old)

      after : State d
      after = record s { arena = record s.arena { buf = some new } }

      fits : off + length bs ≤ length old
      fits = omega (arith, inside, h.valid.fits, h.valid.used)

      patched : length new ≡ length old
      patched = omega (
        arith,
        length-append (take off old) (bs ++ drop (off + length bs) old),
        length-append bs (drop (off + length bs) old),
        length-take off old,
        length-drop (off + length bs) old,
        fits,
      )

      run : store d off bs s ≡ ok tt after
      run = let backed = h.valid.backed in ground arith

      ready : IsReady after
      ready = record {
        valid = record {
          storage = new;
          backed = refl;
          fits = omega (arith, h.valid.fits, patched);
          positive = h.valid.positive;
          small = h.valid.small;
          used = h.valid.used;
        };
        below = h.below;
        above = h.above;
        servable = h.servable;
      }

  pub load_samples-Done :
      (le : Bool) (off n : ℕ) (s : State d)
      → off + 2 * n ≤ s.arena.curr
      → IsReady s
      → Done (λ zs s'. (length zs ≡ n) × (s' ≡ s)) (load_samples d le off n s)
  unfolding Done load_samples
  load_samples-Done le off n s inside h =
      Done-bind (λ bs s'. (length bs ≡ 2 * n) × (s' ≡ s)) (λ zs s'. (length zs ≡ n) × (s' ≡ s))
        (load d off (2 * n)) _ s (load-Done off (2 * n) s inside h)
        (λ bs s' q. (length-samples_of le n bs q.0, q.1))

  pub store_samples-Done :
      (le : Bool) (off : ℕ) (zs : List ℤ) (s : State d)
      → off + 2 * length zs ≤ s.arena.curr
      → IsReady s
      → Done (λ _ s'. Keeps s s') (store_samples d le off zs s)
  unfolding store_samples
  store_samples-Done le off zs s inside h =
      store-Done off (bytes_of le zs) s (omega (arith, length-bytes_of le zs)) h
