-- ===== src/Supervisor/Tests.antt =====
-- The supervisor's theorems at concrete masks and workers.
use mach_audio.Prelude.{
  length, pos, negsuc, ℕ, ◌≤◌, ◌<◌, ◌≡◌, refl, ◌↔◌, ◌⊎◌, true, false, Option, none, some, List, [],
  ◌∷◌, arith,
}
use mach_audio.OsTune.{Saved}
use mach_audio.OsTune.Governor.{IsName, all_well}
use mach_audio.Supervisor.{
  Cores, active_workers, atoi, core_of, count_commas, count_cores, decimal, has_hex_prefix,
  hex_value, is_core_set, is_same, parse_core_mask, parse_hex, parse_list, started, store_core,
  store_cores, store_tokens, strtoull, tokens,
}
use mach_audio.Supervisor.Mask.{parse_core_mask-fits}
use mach_audio.Supervisor.Run.{Outcome, run_worker, run_worker-releases}
use mach_audio.Supervisor.Workers.{active_workers_iff, count_exits}

-- "0,2,4"
abbrev three_cores : List ℕ
three_cores = 48 ∷ 44 ∷ 50 ∷ 44 ∷ 52 ∷ []

parse_core_mask-fits_example :
    (c : Cores) × (parse_core_mask (some three_cores) ≡ some c)
    × (length c.stored ≤ c.capacity)
    × ((0 < length c.stored) ⊎ (tokens [] three_cores ≡ []))
parse_core_mask-fits_example = parse_core_mask-fits (some three_cores)

three_cores_read :
    parse_core_mask (some three_cores)
    ≡ some (record { capacity = 3; stored = pos 0 ∷ pos 2 ∷ pos 4 ∷ [] })
unfolding parse_core_mask has_hex_prefix is_same parse_list tokens count_commas store_tokens
    store_core core_of atoi decimal
three_cores_read = refl

-- "0x15"
mask_read :
    parse_core_mask (some (48 ∷ 120 ∷ 49 ∷ 53 ∷ []))
    ≡ some (record { capacity = 3; stored = pos 0 ∷ pos 2 ∷ pos 4 ∷ [] })
unfolding parse_core_mask has_hex_prefix is_same parse_hex strtoull hex_value count_cores
    store_cores is_core_set store_core
mask_read = refl

-- ","
no_cores : parse_core_mask (some (44 ∷ [])) ≡ some (record { capacity = 2; stored = [] })
unfolding parse_core_mask has_hex_prefix is_same parse_list tokens count_commas store_tokens
no_cores = refl

abbrev one_failed : List (Option ℕ)
one_failed = some 7 ∷ none ∷ []

one_exit : count_exits (pos 7 ∷ negsuc 0 ∷ []) ≤ started one_failed
unfolding count_exits started
one_exit = omega arith

active_workers_iff_example :
    (active_workers 2 (pos 7 ∷ negsuc 0 ∷ []) ≡ 0)
    ↔ ((started one_failed ≡ 2) × (count_exits (pos 7 ∷ negsuc 0 ∷ []) ≡ started one_failed))
active_workers_iff_example = active_workers_iff one_failed (pos 7 ∷ negsuc 0 ∷ []) one_exit

-- A worker whose server cannot be set up.
abbrev failed_setup : Outcome
failed_setup = record { latency_opens = true; init_returns = negsuc 0; start_returns = pos 0 }

-- "ab"
abbrev governor_name : List ℕ
governor_name = 97 ∷ 98 ∷ []

abbrev unset : Saved
unset = record { original = []; modified = false }

governor_name-IsName : IsName governor_name
governor_name-IsName = (omega arith, omega arith, (omega arith, (omega arith, tt)))

run_worker-releases_example :
    let end =
      run_worker all_well failed_setup
        (pos 2)
        (record { latency_fds = 5; saved = unset; governor = 97 ∷ 98 ∷ 10 ∷ [] }) in
    (end.1.governor ≡ governor_name) × (end.1.latency_fds ≡ 5) × (end.0 ≡ pos 1)
run_worker-releases_example =
    run_worker-releases failed_setup 2 governor_name 5 unset (omega arith) governor_name-IsName
