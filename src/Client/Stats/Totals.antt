-- ===== src/Client/Stats/Totals.antt =====
-- The summary against the counters of the connections.
use mathlib.Core.Bool.{and-false}
use mach_audio.Prelude.{
  ltb, if◌then◌else◌, le→ltb, Bool-cases, length, get_elem?, length-append, u64, ℕ, ◌+◌, ◌/◌, ◌^◌,
  ◌≤◌, ◌<◌, ◌≡◌, refl, ap, ◌∙◌, inl, inr, Bool, true, false, ◌&&◌, none, some, List, [], ◌∷◌, ◌++◌,
  arith, ◌==◌,
}
use mach_audio.Client.{ClientConnection}
use mach_audio.Client.Stats.{
  ConnectionSummary, Summary, add_connection, get_elem?-inside, global_latency, no_summary, p95_idx,
  p95_idx-lt, summarise, summarise_all, summary, total_latency_pool,
}

abbrev pub sum_sent : List ClientConnection → ℕ
sum_sent [] = 0
sum_sent (conn ∷ conns) = conn.total_sent + sum_sent conns

abbrev pub sum_received : List ClientConnection → ℕ
sum_received [] = 0
sum_received (conn ∷ conns) = conn.total_received + sum_received conns

-- The extremes of every connection lie between two numbers.
abbrev pub AllBetween : ℕ → ℕ → List ClientConnection → Type 0
AllBetween low high [] = Unit {0}
AllBetween low high (conn ∷ conns) =
    (low ≤ conn.min_duration_ns) × (conn.max_duration_ns ≤ high) × AllBetween low high conns

-- What the second loop makes of the totals before it.
pub record AddsUp (before after : Summary) (conns : List ClientConnection) : Type 0 where
  pub sent : after.total_sent ≡ u64 (before.total_sent + sum_sent conns)
  pub received : after.total_received ≡ u64 (before.total_received + sum_received conns)
  pub extremes : AllBetween after.global_min after.global_max conns
  pub falls : after.global_min ≤ before.global_min
  pub rises : before.global_max ≤ after.global_max

module _ (qsort : List ℕ → List ℕ) (keeps : (xs : List ℕ) → length (qsort xs) ≡ length xs) where
  summarise_lem :
      (conn : ClientConnection)
      → length conn.latencies < 2 ^ 64
      → (c : ConnectionSummary) × (summarise qsort conn ≡ some c)
        × (length c.sorted ≡ length conn.latencies)
  unfolding summarise
  summarise_lem conn small = elim (Bool-cases (length conn.latencies == 0)) [
    | inl empty ↦ (record { avg_val = 0; p95_val = 0; sorted = conn.latencies }, rw empty, refl)
    | inr some_left ↦
        (let count = length conn.latencies in
          let n = keeps conn.latencies in
          let got =
            get_elem?-inside (qsort conn.latencies) (p95_idx count)
              (omega (arith, n, p95_idx-lt count (ground arith) small)) in
          (
            record {
              avg_val = conn.sum_duration_ns / count;
              p95_val = got.0;
              sorted = qsort conn.latencies;
            },
            rw some_left (rw got.1),
            n,
          ))
  ]

  add_lem :
      (conn : ClientConnection) (pool : List ℕ) (s : Summary)
      → AddsUp s (add_connection qsort conn pool s) (conn ∷ [])
        × ((add_connection qsort conn pool s).all_latencies ≡ pool)
  unfolding add_connection
  add_lem conn pool s = (
    record {
      sent = omega arith;
      received = omega arith;
      extremes = (ground arith, ground arith, tt);
      falls = ground arith;
      rises = ground arith;
    },
    refl,
  )

  latency_lem :
      (memory : Bool) (pool_size : ℕ) (s : Summary)
      → (memory ≡ true
          → (0 < pool_size) × (pool_size < 2 ^ 64) × (length s.all_latencies ≡ pool_size))
      → (l : ℕ × ℕ) × (global_latency qsort memory pool_size s ≡ some l)
  unfolding global_latency
  latency_lem memory pool_size s pool = elim (Bool-cases (s.count_received == 0)) [
    | inl none_received ↦ ((0, 0), rw none_received)
    | inr received ↦ rw received (over memory pool)
  ]
    where
      over :
          (memory : Bool)
          → (memory ≡ true
              → (0 < pool_size) × (pool_size < 2 ^ 64) × (length s.all_latencies ≡ pool_size))
          → (l : ℕ × ℕ) × ((if memory
                then (elim (get_elem? (qsort s.all_latencies) (p95_idx pool_size)) [
                  | none ↦ none
                  | some p95 ↦ some (s.sum_duration_ns / s.count_received, p95)
                ])
                else some (s.sum_duration_ns / s.count_received, 0))
              ≡ some l)
      over false pool = ((s.sum_duration_ns / s.count_received, 0), refl)
      over true pool =
          let sizes = pool refl in
          let got = get_elem?-inside (qsort s.all_latencies) (p95_idx pool_size) (
            omega
              (arith, keeps s.all_latencies, p95_idx-lt pool_size (sizes.0) (sizes.1), sizes.2)) in
          ((s.sum_duration_ns / s.count_received, got.0), rw got.1)

  abbrev pool_of : Bool → List ℕ → List ℕ → List ℕ
  pool_of memory xs ys = if memory then xs ++ ys else xs

  pool_fits :
      (memory : Bool) (xs ys : List ℕ)
      → (length (pool_of memory xs ys) ≤ length xs + length ys)
        × (memory ≡ true → length (pool_of memory xs ys) ≡ length xs + length ys)
  pool_fits true xs ys = (omega (arith, length-append xs ys), λ _. length-append xs ys)
  pool_fits false xs ys = (omega arith, λ h. absurd (cc))

  all_step :
      (memory : Bool) (pool_size : ℕ) (conn : ClientConnection) (conns : List ClientConnection)
      (s : Summary) (c : ConnectionSummary)
      → summarise qsort conn ≡ some c
      → length (pool_of memory s.all_latencies c.sorted) ≤ pool_size
      → summarise_all qsort memory pool_size (conn ∷ conns) s
        ≡ summarise_all qsort memory pool_size conns
            (add_connection qsort conn (pool_of memory s.all_latencies c.sorted) s)
  unfolding summarise_all
  all_step memory pool_size conn conns s c e fits =
      rw (e, summarise_all)
        (rw (le→ltb pool_size (length (pool_of memory s.all_latencies c.sorted)) fits)
          (rw (and-false memory)))

  summary_step :
      (allocated : Bool) (conns : List ClientConnection) (s : Summary) (l : ℕ × ℕ)
      → let memory = ltb 0 (total_latency_pool conns) && allocated in
        summarise_all qsort memory (total_latency_pool conns) conns no_summary ≡ some s
        → global_latency qsort memory (total_latency_pool conns) s ≡ some l
        → summary qsort allocated conns ≡ some (s, l.0, l.1)
  unfolding summary
  summary_step allocated conns s l e f = rw (e, summary) (rw f refl)

  summarise_all_lem :
      (memory : Bool) (pool_size : ℕ) (conns : List ClientConnection) (s : Summary)
      → s.total_sent < 2 ^ 64
      → s.total_received < 2 ^ 64
      → pool_size < 2 ^ 64
      → length s.all_latencies + total_latency_pool conns ≤ pool_size
      → (r : Summary) × (summarise_all qsort memory pool_size conns s ≡ some r)
        × AddsUp s r conns
        × (memory ≡ true
            → length r.all_latencies ≡ length s.all_latencies + total_latency_pool conns)
  unfolding total_latency_pool
  summarise_all_lem memory pool_size [] s sent received small room = (
    s,
    unfold summarise_all in refl,
    record {
      sent = omega arith;
      received = omega arith;
      extremes = tt;
      falls = omega arith;
      rises = omega arith;
    },
    λ _. omega arith,
  )
  summarise_all_lem memory pool_size (conn ∷ conns) s sent received small room =
      let first = summarise_lem conn (omega arith) in
      let c = first.0 in
      let pool = pool_of memory s.all_latencies c.sorted in
      let added = add_lem conn pool s in
      let fits = pool_fits memory s.all_latencies c.sorted in
      let later =
        summarise_all_lem memory pool_size conns (add_connection qsort conn pool s)
          (omega (arith, (added.0).sent)) (omega (arith, (added.0).received)) small
          (omega (arith, ap length (added.1), fits.0, first.2)) in
      (
        later.0,
        all_step memory pool_size conn conns s c (first.1) (omega (arith, fits.0, first.2))
            ∙ later.1,
        record {
          sent = omega (arith, (later.2).sent, (added.0).sent);
          received = omega (arith, (later.2).received, (added.0).received);
          extremes = (
            omega (arith, (later.2).falls, ((added.0).extremes).0),
            omega (arith, (later.2).rises, ((added.0).extremes).1),
            (later.2).extremes,
          );
          falls = omega (arith, (later.2).falls, (added.0).falls);
          rises = omega (arith, (later.2).rises, (added.0).rises);
        },
        λ allocated.
            omega (arith, later.3 allocated, ap length (added.1), fits.1 allocated, first.2),
      )

  -- With a `qsort` that keeps the number of its elements, and fewer than 2 ^ 64 latencies, the
  -- summary of any connections is made without a fault, whether or not the pool is allocated. Its
  -- totals are the sums of the bytes sent and received, modulo 2 ^ 64, and the extremes of every
  -- connection lie between the global ones.
  pub summary-AddsUp :
      (allocated : Bool) (conns : List ClientConnection)
      → total_latency_pool conns < 2 ^ 64
      → (r : Summary) × (avg_ns : ℕ) × (p95_ns : ℕ) × (summary qsort allocated conns
          ≡ some (r, avg_ns, p95_ns))
        × AddsUp no_summary r conns
  summary-AddsUp allocated conns small =
      let size = total_latency_pool conns in
      let memory = ltb 0 size && allocated in
      let all =
        summarise_all_lem memory size conns no_summary (omega arith) (omega arith) small
          (omega arith) in
      let latency =
        latency_lem memory size all.0
          (λ held. filled size (length (all.0).all_latencies) small held (all.3 held)) in
      (
        all.0,
        (latency.0).0,
        (latency.0).1,
        summary_step allocated conns all.0 latency.0 all.1 latency.1,
        all.2,
      )
    where
      filled :
          (size n : ℕ)
          → size < 2 ^ 64
          → (ltb 0 size && allocated) ≡ true
          → n ≡ 0 + size
          → (0 < size) × (size < 2 ^ 64) × (n ≡ size)
      filled size n small held e = (ground arith, small, omega arith)
