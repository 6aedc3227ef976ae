-- ===== src/Arena/Alloc.antt =====
-- One allocation of util/arena.c.
use mach_audio.Prelude.{length, ℕ, ◌+◌, ◌-◌, ◌%◌, ◌^◌, ◌≤◌, ◌<◌, ◌≡◌, ◌↔◌, none, some, List, arith}
use mach_audio.Arena.{Arena, align_up, alloc}

-- An arena over storage that holds its size, below half of the address space.
pub record IsValid (a : Arena) : Type 0 where
  pub storage : List ℕ
  pub backed : a.buf ≡ some storage
  pub fits : a.size ≤ length storage
  pub positive : 0 < a.size
  pub small : a.size < 2 ^ 63
  pub used : a.curr ≤ a.size

-- What an allocation of `n` bytes that gave the block `p` and the arena `b` has done.
pub record IsBlock (a : Arena) (n p : ℕ) (b : Arena) : Type 0 where
  pub aligned : p % 8 ≡ 0
  pub above : a.curr ≤ p
  pub close : p < a.curr + 8
  pub ends : p + n ≡ b.curr
  pub inside : b.curr ≤ b.size
  pub same_size : b.size ≡ a.size
  pub same_buf : b.buf ≡ a.buf

pub align_up_bounds :
    (n : ℕ) → n < 2 ^ 63 → (n ≤ align_up n 8) × (align_up n 8 < n + 8) × (align_up n 8 % 8 ≡ 0)
unfolding align_up
align_up_bounds n h = (omega arith, omega arith, omega arith)

-- On a valid arena an allocation of less than 2 ^ 63 bytes that succeeds gives a block that is
-- 8-aligned, starts at most 7 bytes above all earlier blocks and lies inside the storage; the
-- arena stays valid and its storage and size do not change.
pub alloc-IsBlock :
    (a : Arena) (n p : ℕ) (b : Arena)
    → IsValid a
    → n < 2 ^ 63
    → alloc a n ≡ (some p, b)
    → IsBlock a n p b × IsValid b
unfolding alloc
alloc-IsBlock a n p b v small e = (block, valid)
  where
    block : IsBlock a n p b
    block = ground (arith, align_up_bounds a.curr)

    valid : IsValid b
    valid = ground (arith, align_up_bounds a.curr)

-- An allocation of less than 2 ^ 63 bytes on a valid arena is refused exactly when the rounded
-- offset and the request together exceed the size.
pub alloc-none_iff :
    (a : Arena) (n : ℕ)
    → IsValid a
    → n < 2 ^ 63
    → ((alloc a n).0 ≡ none) ↔ (a.size < align_up a.curr 8 + n)
unfolding alloc
alloc-none_iff a n v small = ground (arith, align_up_bounds a.curr)

-- A refused allocation leaves the arena as it was.
pub alloc_refused : (a : Arena) (n : ℕ) → (alloc a n).0 ≡ none → (alloc a n).1 ≡ a
unfolding alloc
alloc_refused a n e = ground arith

-- The sum of the bounds test is a `size_t` and wraps: on every valid arena that is in use, the
-- request of 2 ^ 64 bytes less the rounded offset is granted, though it exceeds the size, and
-- rewinds the arena to its start.
pub alloc_wraps :
    (a : Arena)
    → IsValid a
    → 0 < a.curr
    → let n = 2 ^ 64 - align_up a.curr 8 in
      (a.size < n) × (alloc a n ≡ (some (align_up a.curr 8), record a { curr = 0 }))
unfolding alloc
alloc_wraps a v inuse =
    (ground (arith, align_up_bounds a.curr), ground (arith, align_up_bounds a.curr))
