-- ===== src/Transcode/Memory.antt =====
-- The pipeline's state and its accesses to memory. A run ends with a value, with the return
-- value -1, or in a fault: what C leaves undefined (an access outside of the storage or the
-- payload, a division by zero, overlapping `restrict` arrays).
use mach_audio.Prelude.{
  leb, if◌then◌else◌, length, take, drop, length-take, length-drop, take-append-drop, ℤ, u64,
  host_u16, store_u16, to_i16, of_i16, ℕ, zero, suc, ◌+◌, ◌*◌, ◌≤◌, ◌≡◌, refl, Bool, true, false,
  Option, none, some, List, [], ◌∷◌, ◌++◌, arith, drop-add,
}
use mach_audio.Protocol.Bytes.{AreBytes}
use mach_audio.Arena.{Arena, alloc}
use mach_audio.Transcode.{Dsp, TranscodeSession}

pub data Run (S A : Type 0) : Type 0 where
  ok : A → S → Run S A
  error : S → Run S A
  fault : Run S A

abbrev pub M : Type 0 → Type 0 → Type 0
M S A = S → Run S A

abbrev pub pure : {S A : Type 0} → A → M S A
pure a s = ok a s

-- `return -1`.
abbrev pub fail : {S A : Type 0} → M S A
fail s = error s

abbrev pub crash : {S A : Type 0} → M S A
crash s = fault

infixl 5 ◌>>=◌ ◌>>◌
abbrev pub ◌>>=◌ : {S A B : Type 0} → M S A → (A → M S B) → M S B
◌>>=◌ m f s = elim (m s) [ ok a s' ↦ f a s' | error s' ↦ error s' | fault ↦ fault ]

abbrev pub ◌>>◌ : {S B : Type 0} → M S (Unit {0}) → M S B → M S B
m >> k = m >>= λ _. k

-- A step that ends with a value hands it on.
pub >>=-ok :
    {S A B : Type 0} (m : M S A) (f : A → M S B) (s s' : S) (a : A)
    → m s ≡ ok a s'
    → (m >>= f) s ≡ f a s'
>>=-ok m f s s' a e = rw (e, ◌>>=◌)

-- Samples in memory, two bytes each in the host's order; an odd last byte is no sample.
unfoldable pub samples_of : Bool → List ℕ → List ℤ
samples_of le [] = []
samples_of le (b ∷ []) = []
samples_of le (b ∷ c ∷ bs) = to_i16 (host_u16 le b c) ∷ samples_of le bs

unfoldable pub bytes_of : Bool → List ℤ → List ℕ
bytes_of le [] = []
bytes_of le (z ∷ zs) = store_u16 le (of_i16 z) ++ bytes_of le zs

-- `n` bytes from an offset, if they lie inside.
unfoldable pub slice : List ℕ → ℕ → ℕ → Option (List ℕ)
slice bs off n = if leb (off + n) (length bs) then some (take n (drop off bs)) else none

-- Bytes written over a part of the storage, if they lie inside.
unfoldable pub patch : List ℕ → ℕ → List ℕ → Option (List ℕ)
patch bs off new =
    if leb (off + length new) (length bs)
    then some (take off bs ++ (new ++ drop (off + length new) bs))
    else none

-- Reading samples and storing them again keeps the bytes.
pub bytes_of-samples_of :
    (le : Bool) (n : ℕ) (bs : List ℕ)
    → length bs ≡ 2 * n
    → AreBytes bs
    → bytes_of le (samples_of le bs) ≡ bs
unfolding bytes_of samples_of
bytes_of-samples_of le n [] e h = refl
bytes_of-samples_of le n (b ∷ []) e h = absurd (omega arith)
bytes_of-samples_of le zero (b ∷ c ∷ bs) e h = absurd (omega arith)
bytes_of-samples_of le (suc n) (b ∷ c ∷ bs) e h =
    λ i. word le i ++ bytes_of-samples_of le n bs (omega arith) h.1.1 i
  where
    word : (le : Bool) → store_u16 le (of_i16 (to_i16 (host_u16 le b c))) ≡ b ∷ c ∷ []
    word true = unfold store_u16 host_u16 in ground arith
    word false = unfold store_u16 host_u16 in ground arith

-- Writing back what was read changes nothing.
pub patch_self :
    (bs : List ℕ) (off n : ℕ) → off + n ≤ length bs → patch bs off (take n (drop off bs)) ≡ some bs
unfolding patch
patch_self bs off n h =
    let len : length (take n (drop off bs)) ≡ n =
      omega (arith, length-take n (drop off bs), length-drop off bs) in
    rw
      (
        len,
        drop-add off n (off + n) bs refl,
        take-append-drop n (drop off bs),
        take-append-drop off bs,
      )
      (ground arith)

pub AreBytes-take : (n : ℕ) (bs : List ℕ) → AreBytes bs → AreBytes (take n bs)
AreBytes-take zero bs h = tt
AreBytes-take (suc n) [] h = tt
AreBytes-take (suc n) (b ∷ bs) h = (h.0, AreBytes-take n bs h.1)

pub AreBytes-drop : (n : ℕ) (bs : List ℕ) → AreBytes bs → AreBytes (drop n bs)
AreBytes-drop zero bs h = h
AreBytes-drop (suc n) [] h = tt
AreBytes-drop (suc n) (b ∷ bs) h = AreBytes-drop n bs h.1

module _ (d : Dsp) where
  -- The session and the arena that `audio_process_transcode` is handed.
  pub record State : Type 0 where
    pub session : TranscodeSession d
    pub arena : Arena

  abbrev pub get_session : M State (TranscodeSession d)
  get_session s = ok s.session s

  abbrev pub put_session : TranscodeSession d → M State (Unit {0})
  put_session t s = ok tt (record s { session = t })

  abbrev pub storage : Arena → List ℕ
  storage a = elim a.buf [ none ↦ [] | some bs ↦ bs ]

  -- `buf = arena_alloc(out_arena, n); if (!buf) return -1;`
  unfoldable pub alloc_or_fail : ℕ → M State ℕ
  alloc_or_fail n s =
      let (p, a) = alloc s.arena (u64 n) in
      elim p [ none ↦ error s | some start ↦ ok start (record s { arena = a }) ]

  unfoldable pub load : ℕ → ℕ → M State (List ℕ)
  load off n s = elim (slice (storage s.arena) off n) [ none ↦ fault | some bs ↦ ok bs s ]

  unfoldable pub store : ℕ → List ℕ → M State (Unit {0})
  store off bs s = elim (patch (storage s.arena) off bs) [
    | none ↦ fault
    | some new ↦ ok tt (record s { arena = record s.arena { buf = some new } })
  ]

  unfoldable pub load_samples : Bool → ℕ → ℕ → M State (List ℤ)
  load_samples le off n = do bs ← load off (2 * n); pure (samples_of le bs)

  unfoldable pub store_samples : Bool → ℕ → List ℤ → M State (Unit {0})
  store_samples le off zs = store off (bytes_of le zs)

  -- `out_arena->curr = n`.
  unfoldable pub set_curr : ℕ → M State (Unit {0})
  set_curr n s = ok tt (record s { arena = record s.arena { curr = n } })
