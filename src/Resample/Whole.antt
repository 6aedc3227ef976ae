-- ===== src/Resample/Whole.antt =====
-- `resampler_init` and `resample_l16` together.
use native.Mathlib.Nat.{mul-le-mul_left, mul-div-le, mul-div_cancel, lt_of_mul-lt-mul_left}
use mathlib.Core.Option.{some-injective}
use mach_audio.Prelude.{
  ltb, leb, if◌then◌else◌, Bool-cases, length, take, length-take, ℤ, u64, ℕ, zero, suc, ◌*◌, ◌/◌,
  ◌%◌, ◌^◌, ◌≤◌, ◌<◌, ◌≡◌, refl, sym, ap, ◌∙◌, ◌≢◌, inl, inr, true, false, ◌&&◌, Option, none, some,
  List, [], ◌∷◌, arith, ◌==◌, subst, if_cases,
}
use mach_audio.Mix.Saturate.{AreI16}
use mach_audio.Prelude.Options.{◌>>=◌}
use mach_audio.Resample.{
  Doubles, Resampler, coeffs_16_48, coeffs_24_48, coeffs_8_48, initial, is_rate_supported,
  resampler_init, with_table,
}
use mach_audio.Resample.Bounds.{AreNear, Reaches, interpolate-AreI16}
use mach_audio.Resample.Linear.{interpolate, resample_l16, upsample}
use mach_audio.Resample.Table.{IsTable, upsample-AreI16}

IsTable-8_48 : IsTable coeffs_8_48 6
IsTable-8_48 zero h = (32767, 0, refl, refl, omega arith)
IsTable-8_48 (suc zero) h = (27306, 5461, refl, refl, omega arith)
IsTable-8_48 (suc (suc zero)) h = (21845, 10922, refl, refl, omega arith)
IsTable-8_48 (suc (suc (suc zero))) h = (16384, 16384, refl, refl, omega arith)
IsTable-8_48 (suc (suc (suc (suc zero)))) h = (10922, 21845, refl, refl, omega arith)
IsTable-8_48 (suc (suc (suc (suc (suc zero))))) h = (5461, 27306, refl, refl, omega arith)
IsTable-8_48 (suc (suc (suc (suc (suc (suc p)))))) h = absurd (omega arith)

IsTable-16_48 : IsTable coeffs_16_48 3
IsTable-16_48 zero h = (32767, 0, refl, refl, omega arith)
IsTable-16_48 (suc zero) h = (21845, 10922, refl, refl, omega arith)
IsTable-16_48 (suc (suc zero)) h = (10922, 21845, refl, refl, omega arith)
IsTable-16_48 (suc (suc (suc p))) h = absurd (omega arith)

IsTable-24_48 : IsTable coeffs_24_48 2
IsTable-24_48 zero h = (32767, 0, refl, refl, omega arith)
IsTable-24_48 (suc zero) h = (16384, 16384, refl, refl, omega arith)
IsTable-24_48 (suc (suc p)) h = absurd (omega arith)

-- A resampler that has a table has one for its rates: as many phases as there are output samples
-- for each input sample.
pub IsFitted : Resampler → ℕ → ℕ → Type 0
IsFitted r in_rate out_rate =
    (coeffs : List ℤ)
    → r.coeffs ≡ some coeffs
    → IsTable coeffs r.phases × (out_rate ≡ r.phases * in_rate)

fitted :
    (r : Resampler) (table : List ℤ) (in_rate out_rate : ℕ)
    → r.coeffs ≡ some table
    → IsTable table r.phases
    → out_rate ≡ r.phases * in_rate
    → IsFitted r in_rate out_rate
unfolding IsFitted
fitted r table in_rate out_rate has good ratio coeffs e =
    (subst (λ c. IsTable c r.phases) (some-injective table coeffs (sym has ∙ e)) good, ratio)

with_table-IsFitted :
    (in_rate out_rate : ℕ) (r : Resampler)
    → r.coeffs ≡ none
    → IsFitted (with_table in_rate out_rate r) in_rate out_rate
unfolding with_table
with_table-IsFitted in_rate out_rate r bare =
    if_cases (λ t. IsFitted t in_rate out_rate) ((in_rate == 8000) && (out_rate == 48000)) _ _
      (λ e. fitted _ coeffs_8_48 in_rate out_rate refl IsTable-8_48 (ground arith))
      (λ _.
        if_cases (λ t. IsFitted t in_rate out_rate) ((in_rate == 16000) && (out_rate == 48000)) _ _
          (λ e. fitted _ coeffs_16_48 in_rate out_rate refl IsTable-16_48 (ground arith))
          (λ _.
            if_cases (λ t. IsFitted t in_rate out_rate) ((in_rate == 24000) && (out_rate == 48000))
              (record r { phases = 2; coeffs = some coeffs_24_48 }) r
              (λ e. fitted _ coeffs_24_48 in_rate out_rate refl IsTable-24_48 (ground arith))
              (λ _. unfold IsFitted in λ coeffs e. absurd (ground (arith, bare, e)))))

supported-bounds : (rate : ℕ) → is_rate_supported rate ≡ true → (0 < rate) × (rate ≤ 48000)
unfolding is_rate_supported
supported-bounds rate e = ground arith

init-IsFitted :
    (f : Doubles) (in_rate out_rate : ℕ) (r : Resampler)
    → resampler_init f in_rate out_rate ≡ some r
    → IsFitted r in_rate out_rate
      × (is_rate_supported in_rate ≡ true)
      × (is_rate_supported out_rate ≡ true)
unfolding resampler_init
init-IsFitted f in_rate out_rate r e = elim (Bool-cases (is_rate_supported in_rate)) [
  | inl a ↦ elim (Bool-cases (is_rate_supported out_rate)) [
    | inl b ↦ (
      subst (λ t. IsFitted t in_rate out_rate)
          (some-injective (with_table in_rate out_rate (initial f in_rate out_rate)) r
            (sym (runs a b) ∙ e))
          (with_table-IsFitted in_rate out_rate (initial f in_rate out_rate) refl),
      a,
      b,
    )
    | inr b ↦ absurd (ground arith)
  ]
  | inr a ↦ absurd (ground arith)
]
  where
    runs :
        is_rate_supported in_rate ≡ true
        → is_rate_supported out_rate ≡ true
        → resampler_init f in_rate out_rate
          ≡ some (with_table in_rate out_rate (initial f in_rate out_rate))
    runs a b = rw (a, b) refl

-- Every position that the loop reads lies in the input.
last_position :
    (in_rate out_rate in_samples count : ℕ)
    → 0 < out_rate
    → count < in_samples * out_rate / in_rate
    → count * (in_rate * 2 ^ 32 / out_rate) < in_samples * 2 ^ 32
last_position in_rate out_rate in_samples count out_pos inside =
    let step = in_rate * 2 ^ 32 / out_rate in
    let one : out_rate * step ≤ in_rate * 2 ^ 32 = mul-div-le (in_rate * 2 ^ 32) out_rate in
    let many : count * (out_rate * step) ≤ count * (in_rate * 2 ^ 32) = mul-le-mul_left count one in
    let whole : in_rate * (in_samples * out_rate / in_rate) ≤ in_samples * out_rate =
      mul-div-le (in_samples * out_rate) in_rate in
    let before : in_rate * suc count ≤ in_rate * (in_samples * out_rate / in_rate) =
      mul-le-mul_left in_rate inside in
    lt_of_mul-lt-mul_left out_rate (omega arith)

AreI16-take : (n : ℕ) (xs : List ℤ) → AreI16 xs → AreI16 (take n xs)
AreI16-take zero xs h = tt
AreI16-take (suc n) [] h = tt
AreI16-take (suc n) (x ∷ xs) h = (h.0, AreI16-take n xs h.1)

-- What is stored when the rates differ and there is room.
module _ (in_rate out_rate : ℕ) (r : Resampler) (in_data : List ℤ) (in_samples : ℕ)
    (fit : IsFitted r in_rate out_rate) (in_pos : 0 < in_rate) (out_pos : 0 < out_rate)
    (h : AreI16 in_data) (near : AreNear in_data) (fits : in_samples ≤ length in_data)
    (short : in_samples < 2 ^ 32) (n : ℕ) (whole : n ≡ in_samples * out_rate / in_rate) where
  abbrev stored : Option (List ℤ) → Option (List ℤ)
  stored (some coeffs) = upsample coeffs r.phases in_data in_samples 0 in_samples
  stored none = interpolate in_data in_samples (in_rate * 2 ^ 32 / out_rate) 0 n

  stored-AreI16 :
      (choice : Option (List ℤ))
      → ((coeffs : List ℤ) → choice ≡ some coeffs → r.coeffs ≡ some coeffs)
      → (ys : List ℤ) × (stored choice ≡ some ys) × (length ys ≡ n) × AreI16 ys
  unfolding IsFitted
  stored-AreI16 (some coeffs) from =
      let t = fit coeffs (from coeffs refl) in
      let r =
        upsample-AreI16 coeffs r.phases in_data in_samples 0 in_samples t.0 h fits (omega arith) in
      (r.0, r.1, r.2 ∙ count t.1, r.3)
    where
      count : out_rate ≡ r.phases * in_rate → in_samples * r.phases ≡ n
      count e =
          let same : in_samples * (r.phases * in_rate) ≡ in_samples * r.phases * in_rate =
            omega arith in
          rw (whole, e, same) (sym (mul-div_cancel (in_samples * r.phases) in_pos))
  stored-AreI16 none from =
      interpolate-AreI16 in_data in_samples (in_rate * 2 ^ 32 / out_rate) 0 n h near fits short
        (reach n refl)
    where
      reach : (count : ℕ) → count ≡ n → Reaches in_samples (in_rate * 2 ^ 32 / out_rate) 0 count
      reach zero e = tt
      reach (suc count) e =
          omega (
            arith,
            last_position in_rate out_rate in_samples count out_pos (omega (arith, e, whole)),
          )

  stored-runs :
      (choice : Option (List ℤ)) (ys : List ℤ)
      → stored choice ≡ some ys
      → elim choice as (λ _. Option (ℕ × List ℤ)) [
        | some coeffs ↦
            (upsample coeffs r.phases in_data in_samples 0 in_samples >>= λ ys. some (n, ys))
        | none ↦
            if out_rate == 0
            then none
            else (interpolate in_data in_samples (in_rate * 2 ^ 32 / out_rate) 0 n >>= λ ys.
                some (n, ys))
      ]
        ≡ some (n, ys)
  stored-runs (some coeffs) ys e = rw e refl
  stored-runs none ys e =
      let positive : (out_rate == 0) ≡ false = ground arith in rw (positive, e) refl

-- With a resampler that is initialised for the session's rates, on at least as many 16-bit samples
-- as the call is told of, fewer than 2 ^ 32, whose neighbours are at most 32768 apart,
-- `resample_l16` returns and does nothing that C leaves undefined. It stores 16-bit samples, as
-- many as it returns and no more than the capacity; with different rates and enough room these are
-- the rounded down in_samples * out_rate / in_rate.
pub resample_l16-AreI16 :
    (f : Doubles) (in_rate out_rate : ℕ) (r : Resampler) (in_data : List ℤ)
    (in_samples out_capacity : ℕ)
    → resampler_init f in_rate out_rate ≡ some r
    → AreI16 in_data
    → AreNear in_data
    → in_samples ≤ length in_data
    → in_samples < 2 ^ 32
    → (n : ℕ) × (ys : List ℤ) × (resample_l16 r in_rate out_rate in_data in_samples out_capacity
        ≡ some (n, ys))
      × (length ys ≡ n)
      × (n ≤ out_capacity)
      × AreI16 ys
      × (in_rate ≢ out_rate
          → in_samples * out_rate / in_rate ≤ out_capacity
          → n ≡ in_samples * out_rate / in_rate)
unfolding resample_l16
resample_l16-AreI16 f in_rate out_rate r in_data in_samples out_capacity e h near fits short =
    elim (Bool-cases (in_rate == out_rate)) [
      | inl same ↦ (
        copied,
        take copied in_data,
        rw (same, inside) refl,
        omega (arith, length-take copied in_data, copied-le.0),
        copied-le.1,
        AreI16-take copied in_data h,
        λ differ _. absurd (ground arith),
      )
      | inr other ↦ elim (Bool-cases (ltb out_capacity n)) [
        | inl full ↦ (
          0,
          [],
          rw (other, positive, full) refl,
          refl,
          omega arith,
          tt,
          λ _ room. absurd (ground (arith, whole, full, room)),
        )
        | inr room ↦ (
          n,
          kept.0,
          rw (other, positive, room)
              (stored-runs in_rate out_rate r in_data in_samples init.0 in_pos out_pos h near fits
                short n whole choice kept.0 kept.1),
          kept.2,
          ground arith,
          kept.3,
          λ _ _. whole,
        )
      ]
    ]
  where
    init :
        IsFitted r in_rate out_rate
        × (is_rate_supported in_rate ≡ true)
        × (is_rate_supported out_rate ≡ true)
    init = init-IsFitted f in_rate out_rate r e

    in_pos : 0 < in_rate
    in_pos = (supported-bounds in_rate init.1).0

    out_pos : 0 < out_rate
    out_pos = (supported-bounds out_rate init.2).0

    exact : u64 (in_samples * out_rate) ≡ in_samples * out_rate
    exact =
        let bound : in_samples * out_rate ≤ in_samples * 48000 =
          mul-le-mul_left in_samples (supported-bounds out_rate init.2).1 in
        omega (arith, bound, short)

    n : ℕ
    n = u64 (in_samples * out_rate) / in_rate

    whole : n ≡ in_samples * out_rate / in_rate
    whole = ap (λ x. x / in_rate) exact

    positive : (in_rate == 0) ≡ false
    positive = let rate = in_pos in ground arith

    copied : ℕ
    copied = if ltb in_samples out_capacity then in_samples else out_capacity

    copied-le : (copied ≤ length in_data) × (copied ≤ out_capacity)
    copied-le = (ground arith, ground arith)

    inside : leb copied (length in_data) ≡ true
    inside = let fit = copied-le.0 in ground arith

    choice : Option (List ℤ)
    choice = if out_rate % in_rate == 0 then r.coeffs else none

    from : (coeffs : List ℤ) → choice ≡ some coeffs → r.coeffs ≡ some coeffs
    from coeffs q = ground (arith, q)

    kept :
        (ys : List ℤ) × (stored in_rate out_rate r in_data in_samples init.0 in_pos out_pos h near
            fits short n whole choice
          ≡ some ys)
        × (length ys ≡ n)
        × AreI16 ys
    kept =
        stored-AreI16 in_rate out_rate r in_data in_samples init.0 in_pos out_pos h near fits short
          n whole choice from
