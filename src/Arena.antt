-- ===== src/Arena.antt =====
-- The bump allocator of util/arena.c and include/machaudio/arena.h. A pointer into the arena's
-- storage is an index of `buf`; a null pointer is `none`. The file and line arguments only
-- serve the log.
pub mod Alloc
pub mod Blocks
mod Tests
use mach_audio.Prelude.{
  ltb, if◌then◌else◌, take, u64, round_down, ℕ, ◌+◌, ◌-◌, Bool, true, false, ◌||◌, Option, none,
  some, List, [], ◌∷◌, ◌==◌,
}

-- `struct Arena`. The name is held without its terminating zero.
pub record Arena : Type 0 where
  pub name : List ℕ
  pub buf : Option (List ℕ)
  pub size : ℕ
  pub curr : ℕ

abbrev pub default_arena_name : List ℕ
default_arena_name = b'u' ∷ b'n' ∷ b'n' ∷ b'a' ∷ b'm' ∷ b'e' ∷ b'd' ∷ []

unfoldable pub align_up : ℕ → ℕ → ℕ
align_up n align = round_down (u64 (n + align - 1)) align

-- What `strncpy` into the 32 bytes of `name` keeps of a string.
abbrev stored_name : Option (List ℕ) → List ℕ
stored_name none = take 31 default_arena_name
stored_name (some []) = take 31 default_arena_name
stored_name (some (c ∷ cs)) = take 31 (c ∷ cs)

unfoldable pub arena_init : Option Arena → Option (List ℕ) → ℕ → Option (List ℕ) → Option Arena
arena_init none buf size name = none
arena_init (some a) buf size name =
    some (record { name = stored_name name; buf = buf; size = size; curr = 0 })

abbrev is_null {ℓ} : {A : Type ℓ} → Option A → Bool
is_null none = true
is_null (some x) = false

-- `arena_alloc_impl` behind its null test: the index of the block, and the arena after.
unfoldable pub alloc : Arena → ℕ → Option ℕ × Arena
unfolding align_up
alloc a size =
    if is_null a.buf || a.size == 0
    then (none, a)
    else let aligned_curr = align_up a.curr 8 in
      if ltb a.size (u64 (aligned_curr + size))
      then (none, a)
      else (some aligned_curr, record a { curr = u64 (aligned_curr + size) })

unfoldable pub arena_alloc : Option Arena → ℕ → Option ℕ × Option Arena
arena_alloc none size = (none, none)
arena_alloc (some a) size = let (p, a') = alloc a size in (p, some a')

unfoldable pub reset : Arena → Arena
reset a = record a { curr = 0 }

unfoldable pub arena_reset : Option Arena → Option Arena
arena_reset none = none
arena_reset (some a) = some (reset a)

unfoldable pub arena_used : Option Arena → ℕ
arena_used none = 0
arena_used (some a) = a.curr
