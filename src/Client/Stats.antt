-- ===== src/Client/Stats.antt =====
-- The summary at the end of `main` of client/main.c, without its printing. `qsort` belongs to the C
-- library and is a parameter, `memory` says whether the pool of all latencies was allocated, and
-- `none` is a fault: a read or a write outside of an array.
pub mod Totals
use mach_audio.Prelude.{
  ltb, if◌then◌else◌, length, get_elem?, ℤ, pos, negsuc, ◌-ℤ◌, u64, ℕ, zero, suc, ◌+◌, ◌-◌, ◌*◌,
  ◌/◌, ◌^◌, ◌<◌, ◌≡◌, refl, Bool, ◌&&◌, Option, none, some, List, [], ◌∷◌, ◌++◌, arith, ◌==◌,
}
use mach_audio.Client.{ClientConnection}

-- `(va > vb) - (va < vb)`.
unfoldable pub compare_uint64 : ℕ → ℕ → ℤ
compare_uint64 va vb = pos (if ltb vb va then 1 else 0) -ℤ pos (if ltb va vb then 1 else 0)

-- The place of the 95th percentile.
unfoldable pub p95_idx : ℕ → ℕ
p95_idx count = u64 (count * 95) / 100

-- The average and the 95th percentile of a connection, and its latencies as they are then.
pub record ConnectionSummary : Type 0 where
  pub avg_val : ℕ
  pub p95_val : ℕ
  pub sorted : List ℕ

-- The totals over all connections.
pub record Summary : Type 0 where
  pub total_sent : ℕ
  pub total_received : ℕ
  pub sum_duration_ns : ℕ
  pub count_received : ℕ
  pub global_min : ℕ
  pub global_max : ℕ
  pub all_latencies : List ℕ

abbrev pub uint64_max : ℕ
uint64_max = 2 ^ 64 - 1

abbrev pub no_summary : Summary
no_summary = record {
  total_sent = 0;
  total_received = 0;
  sum_duration_ns = 0;
  count_received = 0;
  global_min = uint64_max;
  global_max = 0;
  all_latencies = [];
}

-- The first loop: how many latencies there are.
unfoldable pub total_latency_pool : List ClientConnection → ℕ
total_latency_pool [] = 0
total_latency_pool (conn ∷ conns) = length conn.latencies + total_latency_pool conns

module _ (qsort : List ℕ → List ℕ) where
  unfoldable pub summarise : ClientConnection → Option ConnectionSummary
  unfolding p95_idx
  summarise conn =
      let count = length conn.latencies in
      if count == 0
      then some (record { avg_val = 0; p95_val = 0; sorted = conn.latencies })
      else let sorted = qsort conn.latencies in
        elim (get_elem? sorted (p95_idx count)) [
          | none ↦ none
          | some p95 ↦
              some
                (record { avg_val = conn.sum_duration_ns / count; p95_val = p95; sorted = sorted })
        ]

  -- A connection added to the totals.
  unfoldable pub add_connection : ClientConnection → List ℕ → Summary → Summary
  add_connection conn pool s = record {
    total_sent = u64 (s.total_sent + conn.total_sent);
    total_received = u64 (s.total_received + conn.total_received);
    sum_duration_ns = u64 (s.sum_duration_ns + conn.sum_duration_ns);
    count_received = u64 (s.count_received + conn.count_received);
    global_min =
        if ltb conn.min_duration_ns s.global_min then conn.min_duration_ns else s.global_min;
    global_max =
        if ltb s.global_max conn.max_duration_ns then conn.max_duration_ns else s.global_max;
    all_latencies = pool;
  }

  -- The second loop. The pool is filled in order; its size was computed before.
  unfoldable pub summarise_all : Bool → ℕ → List ClientConnection → Summary → Option Summary
  summarise_all memory pool_size [] s = some s
  summarise_all memory pool_size (conn ∷ conns) s = elim (summarise conn) [
    | none ↦ none
    | some c ↦
        (let pool = if memory then s.all_latencies ++ c.sorted else s.all_latencies in
          let rest = summarise_all memory pool_size conns (add_connection conn pool s) in
          if memory && ltb pool_size (length pool) then none else rest)
  ]

  -- The average and the 95th percentile over all connections.
  unfoldable pub global_latency : Bool → ℕ → Summary → Option (ℕ × ℕ)
  unfolding p95_idx
  global_latency memory pool_size s =
      let avg_ns = s.sum_duration_ns / s.count_received in
      if s.count_received == 0
      then some (0, 0)
      else if memory
      then (elim (get_elem? (qsort s.all_latencies) (p95_idx pool_size)) [
        | none ↦ none
        | some p95 ↦ some (avg_ns, p95)
      ])
      else some (avg_ns, 0)

  -- The whole summary. An empty pool is not allocated.
  unfoldable pub summary : Bool → List ClientConnection → Option (Summary × ℕ × ℕ)
  summary allocated conns =
      let pool_size = total_latency_pool conns in
      let memory = ltb 0 pool_size && allocated in
      elim (summarise_all memory pool_size conns no_summary) [
        | none ↦ none
        | some s ↦ elim (global_latency memory pool_size s) [
          | none ↦ none
          | some latency ↦ some (s, latency.0, latency.1)
        ]
      ]

-- The comparison of `qsort` is negative, zero or positive as the first number is less than the
-- second, equal to it or greater.
pub compare_uint64_sign :
    (va vb : ℕ)
    → (va < vb → compare_uint64 va vb ≡ negsuc 0)
      × (va ≡ vb → compare_uint64 va vb ≡ pos 0)
      × (vb < va → compare_uint64 va vb ≡ pos 1)
unfolding compare_uint64 ◌-ℤ◌
compare_uint64_sign va vb = (λ h. ground arith, λ h. ground arith, λ h. ground arith)

-- The percentile's place lies inside the latencies, also where the product wraps.
pub p95_idx-lt : (count : ℕ) → 0 < count → count < 2 ^ 64 → p95_idx count < count
unfolding p95_idx
p95_idx-lt count h k = omega arith

pub get_elem?-inside : (xs : List ℕ) (i : ℕ) → i < length xs → (x : ℕ) × (get_elem? xs i ≡ some x)
get_elem?-inside [] i h = absurd (omega arith)
get_elem?-inside (x ∷ xs) zero h = (x, refl)
get_elem?-inside (x ∷ xs) (suc i) h = get_elem?-inside xs i (omega arith)
