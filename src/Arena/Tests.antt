-- ===== src/Arena/Tests.antt =====
-- The theorems on the arena at a session's arena of 64 bytes, and runs.
use mach_audio.Prelude.{replicate, ℕ, ◌≡◌, refl, some, List, [], ◌∷◌, arith}
use mach_audio.Arena.{Arena, arena_init, alloc}
use mach_audio.Arena.Alloc.{IsValid}
use mach_audio.Arena.Blocks.{alloc_all, AreStacked, alloc_all-AreStacked}

abbrev storage : List ℕ
storage = replicate 64 0

-- 13 bytes are taken.
abbrev used : Arena
used = record { name = b's' ∷ []; buf = some storage; size = 64; curr = 13 }

used-IsValid : IsValid used
used-IsValid = record {
  storage = storage;
  backed = refl;
  fits = omega arith;
  positive = omega arith;
  small = omega arith;
  used = omega arith;
}

init_starts_empty :
    arena_init (some used) (some storage) 64 (some [])
    ≡ some (record {
      name = b'u' ∷ b'n' ∷ b'n' ∷ b'a' ∷ b'm' ∷ b'e' ∷ b'd' ∷ [];
      buf = some storage;
      size = 64;
      curr = 0;
    })
unfolding arena_init
init_starts_empty = refl

alloc_rounds_up : (alloc used 20).0 ≡ some 16
unfolding alloc
alloc_rounds_up = refl

alloc_all-AreStacked_example :
    AreStacked 13 (alloc_all used (5 ∷ 100 ∷ 9 ∷ [])).1.curr (alloc_all used (5 ∷ 100 ∷ 9 ∷ [])).0
    × IsValid (alloc_all used (5 ∷ 100 ∷ 9 ∷ [])).1
alloc_all-AreStacked_example =
    alloc_all-AreStacked used (5 ∷ 100 ∷ 9 ∷ []) used-IsValid (omega arith)
