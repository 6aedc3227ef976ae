-- ===== src/Supervisor/Workers.antt =====
-- The supervisor's loop on `wait`, in `main` of src/main.c.
use mach_audio.Prelude.{
  if◌then◌else◌, length, ℤ, pos, ltb_ℤ, ℕ, zero, suc, ◌-◌, ◌≤◌, ◌≡◌, ◌↔◌, true, false, Option, none,
  some, List, [], ◌∷◌, arith,
}
use mach_audio.Supervisor.{active_workers, started}

-- The number of calls that report a process that exited.
unfoldable pub count_exits : List ℤ → ℕ
count_exits [] = 0
count_exits (pid ∷ pids) =
    let rest = count_exits pids in if ltb_ℤ (pos 0) pid then suc rest else rest

active_workers_lem :
    (active : ℕ) (pids : List ℤ) → active_workers active pids ≡ active - count_exits pids
unfolding active_workers count_exits
active_workers_lem zero pids = omega arith
active_workers_lem (suc active) [] = omega arith
active_workers_lem (suc active) (pid ∷ pids) =
    elim (ltb_ℤ (pos 0) pid)
      as (λ b.
        active_workers (if b then active else suc active) pids
        ≡ suc active - (if b then suc (count_exits pids) else count_exits pids)) [
          | true ↦ omega (arith, active_workers_lem active pids)
          | false ↦ active_workers_lem (suc active) pids
        ]

started-le : (forks : List (Option ℕ)) → started forks ≤ length forks
unfolding started
started-le [] = omega arith
started-le (none ∷ forks) = omega (arith, started-le forks)
started-le (some pid ∷ forks) = omega (arith, started-le forks)

-- When `wait` reports no more exits than processes were started, the supervisor's loop has ended
-- exactly if no `fork` failed and every process has been reported.
pub active_workers_iff :
    (forks : List (Option ℕ)) (pids : List ℤ)
    → count_exits pids ≤ started forks
    → (active_workers (length forks) pids ≡ 0)
      ↔ ((started forks ≡ length forks) × (count_exits pids ≡ started forks))
active_workers_iff forks pids h = (
  (λ ended. (
    omega (arith, ended, h, started-le forks, active_workers_lem (length forks) pids),
    omega (arith, ended, h, started-le forks, active_workers_lem (length forks) pids),
  )),
  (λ all. omega (arith, all, active_workers_lem (length forks) pids)),
)
