-- ===== src/Server/Completion.antt =====
-- A completed send: its buffer goes back, and it is no longer in flight.
use mach_audio.Prelude.{
  Bool-cases, length, get_elem?, set, length-set, ℤ, ℕ, zero, suc, ◌+◌, ◌-◌, ◌≤◌, ◌<◌, ◌≡◌, refl,
  ◌∙◌, ◌≢◌, inl, inr, Bool, true, false, ◌||◌, Option, none, some, List, [], ◌∷◌, arith, ◌==◌,
  subst,
}
use mach_audio.Server.{Env, WriteResponse, MachSession}
use mach_audio.Server.Reply.{free_write_response}
use mach_audio.Server.Events.{remove}
use mach_audio.Server.Preserve.{io}
use mach_audio.Server.Pool.{IsSound, uses, used, is_slot, counts, AreSends, used-set}

length-remove :
    (wrs : List WriteResponse) (i : ℕ) (wr : WriteResponse)
    → get_elem? wrs i ≡ some wr
    → length (remove wrs i) + 1 ≡ length wrs
length-remove [] i wr e = ground arith
length-remove (w ∷ wrs) zero wr e = omega arith
length-remove (w ∷ wrs) (suc i) wr e = omega (arith, length-remove wrs i wr e)

uses-remove :
    (wrs : List WriteResponse) (i j : ℕ) (wr : WriteResponse)
    → get_elem? wrs i ≡ some wr
    → counts wr.slot j + uses j (remove wrs i) ≡ uses j wrs
uses-remove [] i j wr e = ground arith
uses-remove (w ∷ wrs) zero j wr e = let same : w ≡ wr = ground arith in rw⁻¹ same refl
uses-remove (w ∷ wrs) (suc i) j wr e = omega (arith, uses-remove wrs i j wr e)

AreSends-remove :
    (fd : ℤ) (wrs : List WriteResponse) (i : ℕ) → AreSends fd wrs → AreSends fd (remove wrs i)
AreSends-remove fd [] i h = tt
AreSends-remove fd (w ∷ wrs) zero h = h.2
AreSends-remove fd (w ∷ wrs) (suc i) h = (h.0, h.1, AreSends-remove fd wrs i h.2)

used-lt : (pool : List Bool) (k : ℕ) → used pool k ≡ 1 → k < length pool
used-lt [] k e = ground arith
used-lt (b ∷ pool) zero e = omega arith
used-lt (b ∷ pool) (suc k) e = omega (arith, used-lt pool k e)

used-le : (pool : List Bool) (k : ℕ) → used pool k ≤ 1
used-le pool k = ground arith

is_slot_self : (k : ℕ) → is_slot (some k) k ≡ true
is_slot_self k = ground arith

-- The pool after the write at `i` has freed its slot.
freed_marks :
    (pool : List Bool) (wrs : List WriteResponse) (i k : ℕ) (wr : WriteResponse)
    → get_elem? wrs i ≡ some wr
    → wr.slot ≡ some k
    → ((j : ℕ) → uses j wrs ≡ used pool j)
    → (j : ℕ) → uses j (remove wrs i) ≡ used (set pool k false) j
freed_marks pool wrs i k wr e slot marks j = elim (Bool-cases (k == j)) [
  | inl same ↦
      let here : used (set pool k false) j ≡ 0 = rw (used-set pool k j false inside, same) refl in
      omega (arith, here, at_j, used-le pool j, marks j, mark_of j same)
  | inr other ↦
      let there : used (set pool k false) j ≡ used pool j =
        rw (used-set pool k j false inside, other) refl in
      omega (arith, there, at_j, marks j, no_mark j other)
]
  where
    at_j : counts wr.slot j + uses j (remove wrs i) ≡ uses j wrs
    at_j = uses-remove wrs i j wr e

    mark_of : (j : ℕ) → (k == j) ≡ true → counts wr.slot j ≡ 1
    mark_of j same = rw (slot, same) refl

    no_mark : (j : ℕ) → (k == j) ≡ false → counts wr.slot j ≡ 0
    no_mark j other = rw (slot, other) refl

    inside : k < length pool
    inside =
        used-lt pool k (
          omega
            (arith, uses-remove wrs i k wr e, mark_of k (ground arith), marks k, used-le pool k))

-- The session after the completion of the write at `i`, before it is cleaned up.
abbrev pub completed : (env : Env) → MachSession env → ℕ → WriteResponse → Bool → MachSession env
completed env s i wr failed =
    free_write_response env
      (record s {
        pending_writes = s.pending_writes - 1;
        in_flight = remove s.in_flight i;
        closing = s.closing || failed;
      })
      wr.slot

pub completed-IsSound :
    (env : Env) (fd : ℤ) (s : MachSession env) (i : ℕ) (wr : WriteResponse) (failed : Bool)
    → get_elem? s.in_flight i ≡ some wr
    → IsSound fd (io env s)
    → IsSound fd (io env (completed env s i wr failed))
unfolding free_write_response
completed-IsSound env fd s i wr failed e h = by_slot wr.slot refl
  where
    none_there : none ≢ some wr
    none_there f = ground arith

    open_fd : s.client_fd ≡ fd
    open_fd = elim h.descriptor [
      | inl f ↦ f
      | inr (c, none_left) ↦
          absurd (none_there (subst (λ wrs. get_elem? wrs i ≡ some wr) none_left e))
    ]

    by_slot :
        (slot : Option ℕ)
        → wr.slot ≡ slot
        → IsSound fd (
            io env (
              free_write_response env
                (record s {
                  pending_writes = s.pending_writes - 1;
                  in_flight = remove s.in_flight i;
                  closing = s.closing || failed;
                })
                slot))
    by_slot none f =
        let unmarked : (j : ℕ) → counts wr.slot j ≡ 0 = λ j. rw f refl in
        record {
          counted = omega (arith, h.counted, length-remove s.in_flight i wr e);
          pool_size = h.pool_size;
          marked = λ j. omega (arith, h.marked j, uses-remove s.in_flight i j wr e, unmarked j);
          sends = AreSends-remove fd s.in_flight i h.sends;
          descriptor = inl open_fd;
        }
    by_slot (some k) f = record {
      counted = omega (arith, h.counted, length-remove s.in_flight i wr e);
      pool_size = length-set s.write_pool k false ∙ h.pool_size;
      marked = freed_marks s.write_pool s.in_flight i k wr e f h.marked;
      sends = AreSends-remove fd s.in_flight i h.sends;
      descriptor = inl open_fd;
    }
