-- ===== src/Client/Read/Account.antt =====
-- What the counters, the latencies and the output file say after a list of outputs.
use mach_audio.Prelude.{
  length, length-append, u64, ℕ, ◌+◌, ◌^◌, ◌≤◌, ◌<◌, ◌≡◌, refl, sym, ap, ◌∙◌, Bool, true, Option,
  none, some, List, [], ◌∷◌, ◌++◌, append_assoc, append-nil, arith,
}
use mach_audio.Client.{ClientConnection}
use mach_audio.Client.Read.{count_output, fwrite, record_latency, save_output}
use mach_audio.Client.Read.Growth.{HasRoom, record_latency_lem}
use mach_audio.Client.Read.Outputs.{Output, recorded}
use mach_audio.Client.Read.Recorded.{recorded_all}

abbrev pub durations : List (ℕ × Output) → List ℕ
durations [] = []
durations ((seq, o) ∷ os) = o.duration_ns ∷ durations os

abbrev pub all_samples : List (ℕ × Output) → List ℕ
all_samples [] = []
all_samples ((seq, o) ∷ os) = o.samples ++ all_samples os

abbrev pub sum : List ℕ → ℕ
sum [] = 0
sum (x ∷ xs) = x + sum xs

-- A bound of all numbers of a list.
abbrev pub AllFrom : ℕ → List ℕ → Type 0
AllFrom low [] = Unit {0}
AllFrom low (x ∷ xs) = (low ≤ x) × AllFrom low xs

abbrev pub AllTo : ℕ → List ℕ → Type 0
AllTo high [] = Unit {0}
AllTo high (x ∷ xs) = (x ≤ high) × AllTo high xs

-- What a connection says of the outputs since it was another.
pub record Accounts (before after : ClientConnection) (os : List (ℕ × Output)) : Type 0 where
  pub counted : after.count_received ≡ u64 (before.count_received + length os)
  pub received : after.total_received ≡ u64 (before.total_received + length (all_samples os))
  pub summed : after.sum_duration_ns ≡ u64 (before.sum_duration_ns + sum (durations os))
  pub lowest : AllFrom after.min_duration_ns (durations os)
  pub highest : AllTo after.max_duration_ns (durations os)
  pub recorded_in_order : after.latencies ≡ before.latencies ++ durations os
  pub saved : after.output_file ≡ fwrite (all_samples os) before.output_file
  pub falls : after.min_duration_ns ≤ before.min_duration_ns
  pub rises : before.max_duration_ns ≤ after.max_duration_ns

-- The counters fit 64 bits.
pub record IsCounting (conn : ClientConnection) : Type 0 where
  pub count_fits : conn.count_received < 2 ^ 64
  pub total_fits : conn.total_received < 2 ^ 64
  pub sum_fits : conn.sum_duration_ns < 2 ^ 64

module _ (realloc_ok : ℕ → Bool) (le : Bool) (memory : (n : ℕ) → realloc_ok n ≡ true) where
  -- One output.
  one :
      (o : Output) (conn : ClientConnection)
      → let next = recorded realloc_ok le o conn in
        (next.count_received ≡ u64 (conn.count_received + 1))
        × (next.total_received ≡ u64 (conn.total_received + length o.samples))
        × (next.sum_duration_ns ≡ u64 (conn.sum_duration_ns + o.duration_ns))
        × (next.min_duration_ns ≤ o.duration_ns)
        × (next.min_duration_ns ≤ conn.min_duration_ns)
        × (o.duration_ns ≤ next.max_duration_ns)
        × (conn.max_duration_ns ≤ next.max_duration_ns)
        × (next.output_file ≡ fwrite o.samples conn.output_file)
  unfolding record_latency count_output save_output
  one o conn = (refl, refl, refl, ground arith, ground arith, ground arith, ground arith, refl)

  next-HasRoom :
      (o : Output) (conn : ClientConnection)
      → HasRoom conn
      → length conn.latencies < 2 ^ 61
      → ((recorded realloc_ok le o conn).latencies ≡ conn.latencies ++ o.duration_ns ∷ [])
        × HasRoom (recorded realloc_ok le o conn)
  unfolding count_output save_output
  next-HasRoom o conn room few =
      let counted = count_output realloc_ok o.duration_ns (length o.samples) conn in
      let got =
        record_latency_lem realloc_ok o.duration_ns counted memory
          (record { fits = room.fits; bounded = room.bounded }) few in
      (got.0, record { fits = (got.1).fits; bounded = (got.1).bounded })

  -- If memory is found, the latencies so far and the new ones are fewer than 2 ^ 61, and the
  -- counters fit 64 bits, then after a list of outputs the counters have grown by the outputs, their
  -- bytes and their durations, modulo 2 ^ 64; every duration lies between the least and the greatest,
  -- which only fall and rise; the latencies are the durations behind the old ones, in order; and an
  -- open output file has got the samples of all outputs, in order.
  pub recorded_all-Accounts :
      (os : List (ℕ × Output)) (conn : ClientConnection)
      → HasRoom conn
      → IsCounting conn
      → length conn.latencies + length os < 2 ^ 61
      → Accounts conn (recorded_all realloc_ok le os conn) os
  recorded_all-Accounts [] conn room small few = record {
    counted = omega (arith, small.count_fits);
    received = omega (arith, small.total_fits);
    summed = omega (arith, small.sum_fits);
    lowest = tt;
    highest = tt;
    recorded_in_order = sym (append-nil conn.latencies);
    saved = no_more conn.output_file;
    falls = omega arith;
    rises = omega arith;
  }
    where
      no_more : (file : Option (List ℕ)) → file ≡ fwrite [] file
      no_more none = refl
      no_more (some bytes') = ap some (sym (append-nil bytes'))
  recorded_all-Accounts ((seq, o) ∷ os) conn room small few =
      let next = recorded realloc_ok le o conn in
      let step = one o conn in
      let grown = next-HasRoom o conn room (omega arith) in
      let more = length-append conn.latencies (o.duration_ns ∷ []) in
      let later =
        recorded_all-Accounts os next grown.1
          (record {
            count_fits = omega (arith, step.0);
            total_fits = omega (arith, step.1);
            sum_fits = omega (arith, step.2);
          })
          (omega (arith, ap length (grown.0), more)) in
      record {
        counted = omega (arith, later.counted, step.0);
        received = omega (arith, later.received, step.1, length-append o.samples (all_samples os));
        summed = omega (arith, later.summed, step.2);
        lowest = (omega (arith, later.falls, step.3), later.lowest);
        highest = (omega (arith, later.rises, step.5), later.highest);
        recorded_in_order =
            later.recorded_in_order
            ∙ ap (λ r. r ++ durations os) grown.0
            ∙ append_assoc conn.latencies (o.duration_ns ∷ []) (durations os);
        saved = later.saved ∙ ap (fwrite (all_samples os)) step.7 ∙ twice conn.output_file;
        falls = omega (arith, later.falls, step.4);
        rises = omega (arith, later.rises, step.6);
      }
    where
      twice :
          (file : Option (List ℕ))
          → fwrite (all_samples os) (fwrite o.samples file)
            ≡ fwrite (o.samples ++ all_samples os) file
      twice none = refl
      twice (some before) = ap some (append_assoc before o.samples (all_samples os))
