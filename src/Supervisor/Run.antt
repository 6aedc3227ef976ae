-- ===== src/Supervisor/Run.antt =====
-- `run_worker` of src/main.c. The server's two calls come in by what they return; pinning the thread
-- and its priority leave nothing behind and are left out. What the server itself opens is not counted.
use mach_audio.Prelude.{
  if◌then◌else◌, Bool-cases, ℤ, pos, negsuc, ℕ, zero, suc, ◌<◌, ◌≡◌, refl, inl, inr, Bool, true,
  false, not, List, [], ◌∷◌, ◌++◌, ◌==◌,
}
use mach_audio.OsTune.{
  Answers, Saved, max_cores, newline, os_restore_cpu_governor, os_tune_cpu_governor,
}
use mach_audio.OsTune.Governor.{IsName, all_well, os_restore-os_tune}

-- What `run_worker` itself changes of the system and of its globals: how many descriptors of the
-- latency lock are open, the saved governor, and the governor's file.
pub record Machine : Type 0 where
  pub latency_fds : ℕ
  pub saved : Saved
  pub governor : List ℕ

-- What the calls of one worker answer.
pub record Outcome : Type 0 where
  pub latency_opens : Bool
  pub init_returns : ℤ
  pub start_returns : ℤ

unfoldable pub tune_core : Answers → ℤ → Machine → Machine
tune_core answers core m =
    let (r, saved, file) = os_tune_cpu_governor answers core m.saved m.governor in
    record m { saved = saved; governor = file }

unfoldable pub restore_core : Answers → ℤ → Machine → Machine
restore_core answers core m =
    let (r, saved, file) = os_restore_cpu_governor answers core m.saved m.governor in
    record m { saved = saved; governor = file }

abbrev is_pinned : ℤ → Bool
is_pinned (pos n) = true
is_pinned (negsuc n) = not (n == 0)

abbrev is_zero : ℤ → Bool
is_zero (pos n) = n == 0
is_zero (negsuc n) = false

-- One less, of a number that is not 0.
abbrev one_less : ℕ → ℕ
one_less zero = zero
one_less (suc n) = n

-- `os_lock_dma_latency`, and `close` where it gave a descriptor.
abbrev lock_latency : Bool → Machine → Machine
lock_latency opens m = if opens then record m { latency_fds = suc m.latency_fds } else m

abbrev unlock_latency : Bool → Machine → Machine
unlock_latency opens m = if opens then record m { latency_fds = one_less m.latency_fds } else m

-- The return value, and the machine after the worker. What was taken is given back at two places,
-- behind the server's set-up where that fails and behind its run.
unfoldable pub run_worker : Answers → Outcome → ℤ → Machine → ℤ × Machine
run_worker answers outcome core m =
    let tuned = if is_pinned core then tune_core answers core m else m in
    let locked = lock_latency outcome.latency_opens tuned in
    if not (is_zero outcome.init_returns)
    then (let closed = unlock_latency outcome.latency_opens locked in
        let restored = if is_pinned core then restore_core answers core closed else closed in
        (pos 1, restored))
    else (let closed = unlock_latency outcome.latency_opens locked in
        let restored = if is_pinned core then restore_core answers core closed else closed in
        (outcome.start_returns, restored))

-- A worker on a core below 256 whose governor's file holds a name of at most 31 bytes and a newline
-- gives back what `run_worker` itself took, where opening and writing that file never fails, whether
-- the latency lock can be taken, the server is set up or fails, and whatever it returns: the name is
-- in the file, as many descriptors of the latency lock are open as before, and the value is 1 after
-- a failed set-up and the server's otherwise. The descriptors of the server are not counted.
pub run_worker-releases :
    (outcome : Outcome) (k : ℕ) (name : List ℕ) (latency_fds : ℕ) (saved : Saved)
    → k < max_cores
    → IsName name
    → let end =
        run_worker all_well outcome (pos k) (record {
          latency_fds = latency_fds;
          saved = saved;
          governor = name ++ (newline ∷ []);
        }) in
      (end.1.governor ≡ name)
      × (end.1.latency_fds ≡ latency_fds)
      × (end.0 ≡ (if is_zero outcome.init_returns then outcome.start_returns else pos 1))
unfolding run_worker tune_core restore_core
run_worker-releases outcome k name latency_fds saved h named =
    ended outcome.latency_opens outcome.init_returns outcome.start_returns
  where
    back :
        (os_restore_cpu_governor all_well
          (pos k)
          (os_tune_cpu_governor all_well (pos k) saved (name ++ (newline ∷ []))).1
          (os_tune_cpu_governor all_well (pos k) saved (name ++ (newline ∷ []))).2).2
        ≡ name
    back = (os_restore-os_tune k name saved h named).3

    ended :
        (opens : Bool) (init start : ℤ)
        → let end =
            run_worker all_well
              (record { latency_opens = opens; init_returns = init; start_returns = start })
              (pos k)
              (record {
                latency_fds = latency_fds;
                saved = saved;
                governor = name ++ (newline ∷ []);
              }) in
          (end.1.governor ≡ name)
          × (end.1.latency_fds ≡ latency_fds)
          × (end.0 ≡ (if is_zero init then start else pos 1))
    ended true init start = elim (Bool-cases (is_zero init)) [
      | inl e ↦ rw e (back, refl, refl)
      | inr e ↦ rw e (back, refl, refl)
    ]
    ended false init start = elim (Bool-cases (is_zero init)) [
      | inl e ↦ rw e (back, refl, refl)
      | inr e ↦ rw e (back, refl, refl)
    ]
