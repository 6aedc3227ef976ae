-- ===== src/Transcode/Endian/Stored.antt =====
-- Samples that are stored in the arena, swapped there and moved.

use mach_audio.Prelude.{
  leb, if◌then◌else◌, Bool-cases, length, take, drop, length-append, length-take, length-drop,
  take-append, take-length_append, drop-length_append, ℕ, ◌+◌, ◌*◌, ◌≤◌, ◌≡◌, refl, sym, ap, ◌∙◌,
  inl, inr, Bool, true, false, some, List, [], ◌++◌, append-nil, arith,
}
use mach_audio.Simd.{Avx2}
use mach_audio.Transcode.{Dsp}
use mach_audio.Transcode.Decode.{swap_endian_l16}
use mach_audio.Transcode.Hoare.{length-bytes_of, length-samples_of}
use mach_audio.Transcode.Memory.{
  ◌>>=◌, ◌>>◌, >>=-ok, M, State, bytes_of, load, load_samples, ok, patch, pure, samples_of,
  set_curr, slice, store, store_samples,
}
use mach_audio.Transcode.Pipeline.{deliver}
use mach_audio.Transcode.Endian.{swapped_if, length-swap, samples_of-bytes_of, swap-AreI16}

-- What is stored at an offset can be read back there.
pub patched :
    (memory new : List ℕ) (start n : ℕ)
    → start + length new ≤ length memory
    → n ≤ length new
    → (after : List ℕ) × (patch memory start new ≡ some after)
      × (slice after start n ≡ some (take n new))
      × (length after ≡ length memory)
unfolding patch slice
patched memory new start n inside few =
    let after = take start memory ++ (new ++ drop (start + length new) memory) in
    let front : length (take start memory) ≡ start = omega (arith, length-take start memory) in
    let size : length after ≡ length memory = omega (
      arith,
      front,
      length-append (take start memory) (new ++ drop (start + length new) memory),
      length-append new (drop (start + length new) memory),
      length-drop (start + length new) memory,
    ) in
    let behind : drop start after ≡ new ++ drop (start + length new) memory =
      ap (λ k. drop k after) (sym front)
      ∙ drop-length_append (take start memory) (new ++ drop (start + length new) memory) in
    let room : leb (start + length new) (length memory) ≡ true = ground arith in
    let room_after : leb (start + n) (length after) ≡ true = ground (arith, size) in
    (
      after,
      rw room refl,
      rw room_after (
          ap (λ r. some (take n r)) behind
          ∙ ap some (take-append n new (drop (start + length new) memory) few)),
      size,
    )

pub length-slice :
    (bs : List ℕ) (off n : ℕ) (part : List ℕ) → slice bs off n ≡ some part → length part ≡ n
unfolding slice
length-slice bs off n part e = elim (Bool-cases (leb (off + n) (length bs))) [
  | inl fits ↦
      let same : take n (drop off bs) ≡ part = ground arith in
      let room : off + n ≤ length bs = ground arith in
      rw⁻¹ same (omega (arith, length-take n (drop off bs), length-drop off bs, room))
  | inr outside ↦ absurd (ground arith)
]

pub take-whole : (n : ℕ) (xs : List ℕ) → length xs ≡ n → take n xs ≡ xs
take-whole n xs e =
    ap (λ k. take k xs) (sym e)
    ∙ ap (take (length xs)) (sym (append-nil xs))
    ∙ take-length_append xs []

module _ (d : Dsp) (le : Bool) where
  abbrev pub with_storage : State d → List ℕ → State d
  with_storage s memory = record s { arena = record s.arena { buf = some memory } }

  pub stored :
      (s : State d) (start : ℕ) (new memory after : List ℕ)
      → s.arena.buf ≡ some memory
      → patch memory start new ≡ some after
      → store d start new s ≡ ok tt (with_storage s after)
  unfolding store
  stored s start new memory after held e = ground arith

  loaded :
      (s : State d) (start n : ℕ) (memory got : List ℕ)
      → slice memory start (2 * n) ≡ some got
      → load_samples d le start n (with_storage s memory)
        ≡ ok (samples_of le got) (with_storage s memory)
  unfolding load_samples load
  loaded s start n memory got e = ground arith

  pub store_load :
      (s : State d) (start n : ℕ) (new memory : List ℕ)
      → s.arena.buf ≡ some memory
      → start + length new ≤ length memory
      → 2 * n ≤ length new
      → (after : List ℕ) × (store d start new s ≡ ok tt (with_storage s after))
        × (load_samples d le start n (with_storage s after)
            ≡ ok (samples_of le (take (2 * n) new)) (with_storage s after))
        × (length after ≡ length memory)
  store_load s start n new memory held fits few =
      let p = patched memory new start (2 * n) fits few in
      (
        p.0,
        stored s start new memory p.0 held p.1,
        loaded s start n p.0 (take (2 * n) new) p.2,
        p.3,
      )

  abbrev pub swapped_block : Bool → ℕ → ℕ → ℕ × ℕ → M (State d) (ℕ × ℕ)
  swapped_block swap start n block =
      if swap
      then (do
        samples ← load_samples d le start n
        store_samples d le start (swap_endian_l16 samples)
        pure block)
      else pure block

  -- The samples that a block holds after the swap, if there is one.
  pub swap_or_not :
      (swap : Bool) (s : State d) (start n : ℕ) (block : ℕ × ℕ) (memory raw : List ℕ)
      → s.arena.buf ≡ some memory
      → start + 2 * n ≤ length memory
      → length raw ≡ 2 * n
      → load_samples d le start n s ≡ ok (samples_of le raw) s
      → (after : State d) × (swapped_block swap start n block s ≡ ok block after)
        × (load_samples d le start n after ≡ ok (swapped_if swap (samples_of le raw)) after)
  unfolding store_samples
  swap_or_not false s start n block memory raw held fits size e = (s, refl, e)
  swap_or_not true s start n block memory raw held fits size e =
      let zs = swap_endian_l16 (samples_of le raw) in
      let long : length (bytes_of le zs) ≡ 2 * n = omega (
        arith,
        length-bytes_of le zs,
        length-swap (samples_of le raw),
        length-samples_of le n raw size,
      ) in
      let p =
        store_load s start n (bytes_of le zs) memory held (omega (arith, long))
          (omega (arith, long)) in
      let back : samples_of le (take (2 * n) (bytes_of le zs)) ≡ zs =
        ap (samples_of le) (take-whole (2 * n) (bytes_of le zs) long)
        ∙ samples_of-bytes_of le zs (swap-AreI16 (samples_of le raw)) in
      (
        with_storage s p.0,
        >>=-ok (load_samples d le start n) _ s s (samples_of le raw) e
            ∙ >>=-ok (store_samples d le start zs) _ s (with_storage s p.0) tt p.1,
        p.2 ∙ ap (λ r. ok r (with_storage s p.0)) back,
      )

-- `memmove` of a block to the start of the output.
pub deliver_lem :
    (d : Dsp) (m : Avx2) (le : Bool) (c0 from k : ℕ) (s : State d) (memory part : List ℕ)
    → s.arena.buf ≡ some memory
    → slice memory from k ≡ some part
    → c0 + k ≤ length memory
    → (after : State d) × (deliver d m le c0 from k s ≡ ok tt after)
      × (after.arena.curr ≡ c0 + k)
      × (load d c0 k after ≡ ok part after)
unfolding deliver set_curr
deliver_lem d m le c0 from k s memory part held e fits =
    let size = length-slice memory from k part e in
    let p = patched memory part c0 k (omega (arith, size, fits)) (omega (arith, size)) in
    (
      record (with_storage d le s p.0) { arena = record s.arena { buf = some p.0; curr = c0 + k } },
      >>=-ok (load d from k) (λ raw. store d c0 raw >> set_curr d (c0 + k)) s s part loaded_part
          ∙ >>=-ok (store d c0 part) (λ _. set_curr d (c0 + k)) s (with_storage d le s p.0) tt
              (stored d le s c0 part memory p.0 held p.1),
      refl,
      load_again p.0 (p.2 ∙ ap some (take-whole k part size)),
    )
  where
    loaded_part : load d from k s ≡ ok part s
    loaded_part = unfold load in ground arith

    load_again :
        (now : List ℕ)
        → slice now c0 k ≡ some part
        → let after : State d = record s {
          arena = record s.arena { buf = some now; curr = c0 + k };
        } in
          load d c0 k after ≡ ok part after
    load_again now g = unfold load in ground arith
