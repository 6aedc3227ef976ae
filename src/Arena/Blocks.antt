-- ===== src/Arena/Blocks.antt =====
-- Sequences of allocations on one arena.
use mach_audio.Prelude.{
  Option-cases, ℕ, ◌+◌, ◌%◌, ◌^◌, ◌≤◌, ◌<◌, ◌≡◌, ◌⊎◌, inl, inr, none, some, List, [], ◌∷◌, arith,
}
use mach_audio.Arena.{Arena, alloc}
use mach_audio.Arena.Alloc.{IsValid, IsBlock, alloc-IsBlock, alloc_refused}

-- The blocks `(start, bytes)` that a sequence of requests is granted, oldest first.
pub alloc_all : Arena → List ℕ → List (ℕ × ℕ) × Arena
alloc_all a [] = ([], a)
alloc_all a (n ∷ ns) =
    let (p, b) = alloc a n in
    let (blocks, c) = alloc_all b ns in
    (elim p [ none ↦ blocks | some start ↦ (start, n) ∷ blocks ], c)

-- Each block is 8-aligned, starts at or above `lo` and ends at or below the next; the last ends
-- at or below `hi`.
abbrev pub AreStacked : ℕ → ℕ → List (ℕ × ℕ) → Type 0
AreStacked lo hi [] = lo ≤ hi
AreStacked lo hi ((p, n) ∷ blocks) =
    (p % 8 ≡ 0) × (lo ≤ p) × (p + n ≤ hi) × AreStacked (p + n) hi blocks

abbrev pub AreSmall : List ℕ → Type 0
AreSmall [] = Unit {0}
AreSmall (n ∷ ns) = (n < 2 ^ 63) × AreSmall ns

AreStacked-mono :
    (lo lo' hi : ℕ) (bs : List (ℕ × ℕ)) → lo ≤ lo' → AreStacked lo' hi bs → AreStacked lo hi bs
AreStacked-mono lo lo' hi [] h s = omega arith
AreStacked-mono lo lo' hi ((p, n) ∷ bs) h s = (s.0, omega arith, s.2, s.3)

alloc_all-cons :
    (a : Arena) (n : ℕ) (ns : List ℕ)
    → ((alloc a n).0 ≡ none) × (alloc_all a (n ∷ ns) ≡ alloc_all a ns)
      ⊎ ((p : ℕ) × (b : Arena) × (alloc a n ≡ (some p, b))
          × (alloc_all a (n ∷ ns) ≡ ((p, n) ∷ (alloc_all b ns).0, (alloc_all b ns).1)))
unfolding alloc_all
alloc_all-cons a n ns = elim (Option-cases (alloc a n).0) [
  | inl e ↦ inl (e, ground (arith, alloc_refused a n))
  | inr (p, e) ↦ inr (p, (alloc a n).1, ground arith, ground arith)
]

step-AreStacked :
    (a : Arena) (n p : ℕ) (b : Arena) (blocks : List (ℕ × ℕ)) (hi : ℕ)
    → IsBlock a n p b
    → b.curr ≤ hi
    → AreStacked b.curr hi blocks
    → AreStacked a.curr hi ((p, n) ∷ blocks)
step-AreStacked a n p b blocks hi k le rest =
    (k.aligned, k.above, omega arith, AreStacked-mono (p + n) b.curr hi blocks (omega arith) rest)

AreStacked-le : (lo hi : ℕ) (bs : List (ℕ × ℕ)) → AreStacked lo hi bs → lo ≤ hi
AreStacked-le lo hi [] s = s
AreStacked-le lo hi ((p, n) ∷ bs) s = omega arith

-- On a valid arena the requests of any sequence, each below 2 ^ 63 bytes, that are granted get
-- blocks that are 8-aligned and lie one above the other, from the old offset to the new one, so no
-- two of them overlap; the arena is valid after the sequence.
pub alloc_all-AreStacked :
    (a : Arena) (ns : List ℕ)
    → IsValid a
    → AreSmall ns
    → AreStacked a.curr (alloc_all a ns).1.curr (alloc_all a ns).0 × IsValid (alloc_all a ns).1
alloc_all-AreStacked a [] v s = unfold alloc_all in (omega arith, v)
alloc_all-AreStacked a (n ∷ ns) v s = elim (alloc_all-cons a n ns) [
  | inl (e, eq) ↦ rw eq (alloc_all-AreStacked a ns v s.1)
  | inr (p, b, e, eq) ↦
      let step = alloc-IsBlock a n p b v s.0 e in
      let rest = alloc_all-AreStacked b ns step.1 s.1 in
      rw eq (step-AreStacked a n p b _ _ step.0 (AreStacked-le b.curr _ _ rest.0) rest.0, rest.1)
]
