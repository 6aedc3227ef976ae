-- ===== src/Supervisor/Mask.antt =====
-- `parse_core_mask` of src/main.c stores inside of its allocation.
use mach_audio.Prelude.{
  ltb, if◌then◌else◌, Bool-cases, length, drop, length-append, ℤ, pos, negsuc, ℕ, zero, suc, ◌+◌,
  ◌≤◌, ◌<◌, ◌≡◌, refl, ◌∙◌, ◌⊎◌, inl, inr, Bool, true, false, Option, none, some, List, [], ◌∷◌,
  ◌++◌, arith, ◌==◌,
}
use mach_audio.Supervisor.{
  Cores, core_of, count_commas, count_cores, has_hex_prefix, is_core_set, is_same, none_word,
  parse_core_mask, parse_hex, parse_list, store_core, store_cores, store_tokens, strtoull, tokens,
}

store_core-some :
    (c : Cores) (v : ℤ)
    → length c.stored < c.capacity
    → (c' : Cores) × (store_core c v ≡ some c')
      × (c'.capacity ≡ c.capacity)
      × (length c'.stored ≡ length c.stored + 1)
unfolding store_core
store_core-some c v room =
    let test : ltb (length c.stored) c.capacity ≡ true = ground arith in
    (
      record c { stored = c.stored ++ (v ∷ []) },
      rw test refl,
      refl,
      omega (arith, length-append c.stored (v ∷ [])),
    )

store_cores-some :
    (mask i count : ℕ) (c : Cores)
    → length c.stored + count_cores mask i count ≤ c.capacity
    → (c' : Cores) × (store_cores mask i count c ≡ some c')
      × (c'.capacity ≡ c.capacity)
      × (length c'.stored ≡ length c.stored + (count_cores mask i count))
unfolding store_cores count_cores
store_cores-some mask i zero c room = (c, refl, refl, omega arith)
store_cores-some mask i (suc count) c room =
    split (is_core_set mask i) refl (λ c1 h. store_cores-some mask (i + 1) count c1 h)
  where
    split :
        (b : Bool)
        → is_core_set mask i ≡ b
        → ((c1 : Cores)
            → length c1.stored + count_cores mask (i + 1) count ≤ c1.capacity
            → (c' : Cores) × (store_cores mask (i + 1) count c1 ≡ some c')
              × (c'.capacity ≡ c1.capacity)
              × (length c'.stored ≡ length c1.stored + (count_cores mask (i + 1) count)))
        → (c' : Cores) × (store_cores mask i (suc count) c ≡ some c')
          × (c'.capacity ≡ c.capacity)
          × (length c'.stored ≡ length c.stored + (count_cores mask i (suc count)))
    split true e next =
        let one = store_core-some c (pos i) (ground (arith, room, e)) in
        let rest = next one.0 (ground (arith, room, e, one.2, one.3)) in
        (rest.0, rw (e, one.1) rest.1, rest.2 ∙ one.2, ground (arith, e, rest.3, one.3))
    split false e next =
        let rest = next c (ground (arith, room, e)) in
        (rest.0, rw e rest.1, rest.2, ground (arith, e, rest.3))

store_tokens-some :
    (ts : List (List ℕ)) (c : Cores)
    → length c.stored + length ts ≤ c.capacity
    → (c' : Cores) × (store_tokens ts c ≡ some c')
      × (c'.capacity ≡ c.capacity)
      × (length c'.stored ≡ length c.stored + (length ts))
unfolding store_tokens
store_tokens-some [] c room = (c, refl, refl, omega arith)
store_tokens-some (t ∷ ts) c room =
    let one = store_core-some c (core_of t) (omega arith) in
    let rest = store_tokens-some ts one.0 (omega (arith, one.2, one.3)) in
    (rest.0, rw one.1 rest.1, rest.2 ∙ one.2, omega (arith, rest.3, one.3))

at_comma :
    (run : List ℕ) (ts : List (List ℕ))
    → length (elim run as (λ _. List (List ℕ)) [ [] ↦ ts | d ∷ ds ↦ (d ∷ ds) ∷ ts ]) ≤ length ts + 1
at_comma [] ts = omega arith
at_comma (d ∷ ds) ts = omega arith

-- There is at most one token more than there are commas.
length-tokens : (run str : List ℕ) → length (tokens run str) ≤ count_commas str + 1
unfolding tokens count_commas
length-tokens [] [] = omega arith
length-tokens (d ∷ ds) [] = omega arith
length-tokens run (c ∷ cs) =
    elim (c == 44)
      as (λ b.
        length (elim b as (λ _. List (List ℕ)) [
          | true ↦ elim run as (λ _. List (List ℕ)) [
            | [] ↦ tokens [] cs
            | d ∷ ds ↦ (d ∷ ds) ∷ tokens [] cs
          ]
          | false ↦ tokens (run ++ (c ∷ [])) cs
        ])
        ≤ (if b then suc (count_commas cs) else count_commas cs) + 1) [
          | true ↦ omega (arith, at_comma run (tokens [] cs), length-tokens [] cs)
          | false ↦ length-tokens (run ++ (c ∷ [])) cs
        ]

hex-fits :
    (digits : List ℕ)
    → (c : Cores) × (parse_hex digits ≡ some c)
      × (length c.stored ≤ c.capacity)
      × (0 < length c.stored)
unfolding parse_hex
hex-fits digits = elim (Bool-cases (count == 0)) [
  | inl bare ↦
      (record { capacity = 1; stored = pos 0 ∷ [] }, rw bare refl, omega arith, omega arith)
  | inr some_core ↦
      let r = store_cores-some mask 0 64 (record { capacity = count; stored = [] }) (omega arith) in
      (r.0, rw some_core r.1, omega (arith, r.2, r.3), ground (arith, r.3))
]
  where
    mask : ℕ
    mask = strtoull 0 digits

    count : ℕ
    count = count_cores mask 0 64

-- A list of cores that names none: commas alone, or nothing.
abbrev pub IsEmptyList : Option (List ℕ) → Type 0
IsEmptyList none = ⊥
IsEmptyList (some str) = tokens [] str ≡ []

-- Whatever the mask, no store goes past the allocation. There is at least one core, unless the mask
-- is a list that names none.
pub parse_core_mask-fits :
    (mask : Option (List ℕ))
    → (c : Cores) × (parse_core_mask mask ≡ some c)
      × (length c.stored ≤ c.capacity)
      × ((0 < length c.stored) ⊎ IsEmptyList mask)
unfolding parse_core_mask
parse_core_mask-fits none =
    (record { capacity = 1; stored = pos 0 ∷ [] }, refl, omega arith, inl (omega arith))
parse_core_mask-fits (some str) = elim (Bool-cases (has_hex_prefix str)) [
  | inl hex ↦ let r = hex-fits (drop 2 str) in (r.0, rw hex r.1, r.2, inl r.3)
  | inr other ↦ let r = list-fits in (r.0, rw other r.1, r.2, r.3)
]
  where
    some_token : (ts : List (List ℕ)) (n : ℕ) → n ≡ 0 + length ts → (0 < n) ⊎ (ts ≡ [])
    some_token [] n e = inr refl
    some_token (t ∷ ts) n e = inl (omega arith)

    list-fits :
        (c : Cores) × (parse_list str ≡ some c)
        × (length c.stored ≤ c.capacity)
        × ((0 < length c.stored) ⊎ (tokens [] str ≡ []))
    list-fits = elim (Bool-cases (is_same str none_word)) [
      | inl bare ↦ (
        record { capacity = 1; stored = negsuc 0 ∷ [] },
        unfold parse_list in rw bare refl,
        omega arith,
        inl (omega arith),
      )
      | inr listed ↦
          let bound = length-tokens [] str in
          let r =
            store_tokens-some (tokens [] str)
              (record { capacity = count_commas str + 1; stored = [] }) (omega arith) in
          (
            r.0,
            unfold parse_list in rw listed r.1,
            omega (arith, r.2, r.3, bound),
            some_token (tokens [] str) (length r.0.stored) r.3,
          )
    ]
