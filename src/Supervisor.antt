-- ===== src/Supervisor.antt =====
-- The supervisor of src/main.c: the cores that it is told to use, and its workers.
pub mod Mask
pub mod Workers
pub mod Run
mod Tests
use mach_audio.Prelude.{
  ltb, leb, if◌then◌else◌, length, take, drop, ℤ, pos, negsuc, ◌-ℤ◌, ltb_ℤ, ℕ, zero, suc, ◌+◌, ◌-◌,
  ◌*◌, ◌/◌, ◌%◌, ◌^◌, min, Bool, true, false, not, ◌&&◌, ◌||◌, Option, none, some, List, [], ◌∷◌,
  ◌++◌, ◌==◌,
}
use mach_audio.Prelude.Options.{◌>>=◌}

-- The array of cores: the number of elements that are allocated, and those stored so far. The
-- number of cores is the number stored.
pub record Cores : Type 0 where
  pub capacity : ℕ
  pub stored : List ℤ

-- `cores[idx++] = v`; `none` is a store past the allocation.
unfoldable pub store_core : Cores → ℤ → Option Cores
store_core c v =
    if ltb (length c.stored) c.capacity
    then some (record c { stored = c.stored ++ (v ∷ []) })
    else none

-- The value of a hexadecimal digit.
unfoldable pub hex_value : ℕ → Option ℕ
hex_value c =
    if leb 48 c && leb c 57
    then some (c - 48)
    else if leb 97 c && leb c 102
    then some (c - 87)
    else if leb 65 c && leb c 70
    then some (c - 55)
    else none

-- `strtoull` at base 16 behind the prefix 0x: the digits up to the first other character, and
-- ULLONG_MAX for a number that is too large.
unfoldable pub strtoull : ℕ → List ℕ → ℕ
strtoull value [] = value
strtoull value (c ∷ cs) = elim (hex_value c) [
  | none ↦ value
  | some digit ↦ strtoull (min (value * 16 + digit) (2 ^ 64 - 1)) cs
]

-- `(mask & (1ULL << i)) != 0`
unfoldable pub is_core_set : ℕ → ℕ → Bool
is_core_set mask i = not (mask / 2 ^ i % 2 == 0)

-- The set bits among `count` bits from `i` on: how many there are, and their stores.
unfoldable pub count_cores : ℕ → ℕ → ℕ → ℕ
count_cores mask i zero = 0
count_cores mask i (suc count) =
    let rest = count_cores mask (i + 1) count in if is_core_set mask i then suc rest else rest

unfoldable pub store_cores : ℕ → ℕ → ℕ → Cores → Option Cores
store_cores mask i zero c = some c
store_cores mask i (suc count) c =
    (if is_core_set mask i then store_core c (pos i) else some c) >>= store_cores mask (i + 1) count

unfoldable pub is_same : List ℕ → List ℕ → Bool
is_same [] [] = true
is_same (a ∷ xs) (b ∷ ys) = (a == b) && is_same xs ys
is_same xs ys = false

-- "none"
abbrev pub none_word : List ℕ
none_word = 110 ∷ 111 ∷ 110 ∷ 101 ∷ []

unfoldable pub count_commas : List ℕ → ℕ
count_commas [] = 0
count_commas (c ∷ cs) = let rest = count_commas cs in if c == 44 then suc rest else rest

-- The tokens that `strtok` finds: the runs without a comma that are not empty.
unfoldable pub tokens : List ℕ → List ℕ → List (List ℕ)
tokens run [] = elim run [ [] ↦ [] | c ∷ cs ↦ (c ∷ cs) ∷ [] ]
tokens run (c ∷ cs) = elim (c == 44) [
  | true ↦ elim run [ [] ↦ tokens [] cs | d ∷ ds ↦ (d ∷ ds) ∷ tokens [] cs ]
  | false ↦ tokens (run ++ (c ∷ [])) cs
]

-- The decimal digits up to the first other character.
unfoldable pub decimal : ℕ → List ℕ → ℕ
decimal value [] = value
decimal value (c ∷ cs) = elim (leb 48 c && leb c 57) [
  | true ↦ decimal (value * 10 + (c - 48)) cs
  | false ↦ value
]

-- `atoi`: white space, a sign, and digits. A number that is no int is left as it is.
unfoldable pub atoi : List ℕ → ℤ
atoi [] = pos 0
atoi (c ∷ cs) = elim ((c == 32) || (leb 9 c && leb c 13)) [
  | true ↦ atoi cs
  | false ↦
      if c == 45
      then pos 0 -ℤ pos (decimal 0 cs)
      else if c == 43
      then pos (decimal 0 cs)
      else pos (decimal 0 (c ∷ cs))
]

unfoldable pub core_of : List ℕ → ℤ
core_of token = if is_same token none_word then negsuc 0 else atoi token

unfoldable pub store_tokens : List (List ℕ) → Cores → Option Cores
store_tokens [] c = some c
store_tokens (t ∷ ts) c = store_core c (core_of t) >>= store_tokens ts

-- A mask in hexadecimal, from what follows its 0x.
unfoldable pub parse_hex : List ℕ → Option Cores
parse_hex digits =
    let mask = strtoull 0 digits in
    let count = count_cores mask 0 64 in
    if count == 0
    then some (record { capacity = 1; stored = pos 0 ∷ [] })
    else store_cores mask 0 64 (record { capacity = count; stored = [] })

unfoldable pub parse_list : List ℕ → Option Cores
parse_list str =
    if is_same str none_word
    then some (record { capacity = 1; stored = negsuc 0 ∷ [] })
    else store_tokens (tokens [] str) (record { capacity = count_commas str + 1; stored = [] })

unfoldable pub has_hex_prefix : List ℕ → Bool
has_hex_prefix str = is_same (take 2 str) (48 ∷ 120 ∷ [])

-- `none` is a store past the allocation.
unfoldable pub parse_core_mask : Option (List ℕ) → Option Cores
parse_core_mask none = some (record { capacity = 1; stored = pos 0 ∷ [] })
parse_core_mask (some str) = if has_hex_prefix str then parse_hex (drop 2 str) else parse_list str

-- The supervisor's loop, from what each call of `wait` returns: the number of workers that it still
-- waits for. With 0 it has ended, and makes no further call.
unfoldable pub active_workers : ℕ → List ℤ → ℕ
active_workers zero pids = 0
active_workers (suc active) [] = suc active
active_workers (suc active) (pid ∷ pids) =
    active_workers (if ltb_ℤ (pos 0) pid then active else suc active) pids

-- The number of workers that run, from what each `fork` returns.
unfoldable pub started : List (Option ℕ) → ℕ
started [] = 0
started (none ∷ forks) = started forks
started (some pid ∷ forks) = suc (started forks)
