-- ===== src/OsTune/Governor.antt =====
-- Tuning a core's governor and restoring it.
use mach_audio.Prelude.{
  ltb, length, pos, ℕ, zero, suc, ◌+◌, ◌≤◌, ◌<◌, ◌≡◌, refl, ap, ◌∙◌, ◌≢◌, true, false, none, List,
  [], ◌∷◌, ◌++◌, arith, ◌==◌,
}
use mach_audio.OsTune.{
  Answers, Saved, first_line, max_cores, name_size, newline, os_restore_cpu_governor,
  os_tune_cpu_governor, performance, write_name,
}

-- The answers where nothing fails.
abbrev pub all_well : Answers
all_well = record { opens_read = true; opens_write = true; left = none }

-- A governor's name: not empty, of at most 31 bytes, none of them a newline.
abbrev AreNoNewline : List ℕ → Type 0
AreNoNewline [] = Unit {0}
AreNoNewline (b ∷ bs) = (b ≢ newline) × AreNoNewline bs

abbrev pub IsName : List ℕ → Type 0
IsName name = (0 < length name) × (length name ≤ name_size) × AreNoNewline name

first_line-name :
    (n : ℕ) (name : List ℕ)
    → length name ≤ n
    → AreNoNewline name
    → first_line n (name ++ (newline ∷ [])) ≡ name
unfolding first_line
first_line-name zero [] h plain = refl
first_line-name (suc n) [] h plain = refl
first_line-name zero (b ∷ bs) h plain = absurd (omega arith)
first_line-name (suc n) (b ∷ bs) h plain =
    let test : (b == newline) ≡ false = ground (arith, plain.0) in
    rw (first_line, test) (ap (λ r. b ∷ r) (first_line-name n bs (omega arith) plain.1))

pub tune_lem :
    (k : ℕ) (name : List ℕ) (saved : Saved)
    → k < max_cores
    → IsName name
    → os_tune_cpu_governor all_well (pos k) saved (name ++ (newline ∷ []))
      ≡ (pos 0, record { original = name; modified = true }, performance)
unfolding os_tune_cpu_governor write_name
tune_lem k [] saved h named = absurd (omega arith)
tune_lem k (b ∷ bs) saved h named =
    let low : ltb (k + 0) 0 ≡ false = ground arith in
    let high : ltb (k + 0) (max_cores + 0) ≡ true = ground arith in
    rw (low, high)
      (ap (λ line. (pos 0, record { original = line; modified = true }, performance))
        (first_line-name name_size (b ∷ bs) named.1 named.2))

pub restore_lem :
    (k : ℕ) (name file : List ℕ)
    → k < max_cores
    → os_restore_cpu_governor all_well (pos k) (record { original = name; modified = true }) file
      ≡ (pos 0, record { original = name; modified = false }, name)
unfolding os_restore_cpu_governor write_name
restore_lem k name file h =
    let low : ltb (k + 0) 0 ≡ false = ground arith in
    let high : ltb (k + 0) (max_cores + 0) ≡ true = ground arith in rw (low, high) refl

-- Where nothing fails, tuning a core below 256 and restoring it returns 0 twice and leaves the
-- governor's name of at most 31 bytes in the file that had that name and a newline; in between the
-- file says performance, and afterwards the core counts as not modified.
pub os_restore-os_tune :
    (k : ℕ) (name : List ℕ) (saved : Saved)
    → k < max_cores
    → IsName name
    → let tuned = os_tune_cpu_governor all_well (pos k) saved (name ++ (newline ∷ [])) in
      let restored = os_restore_cpu_governor all_well (pos k) tuned.1 tuned.2 in
      (tuned.0 ≡ pos 0)
      × (tuned.2 ≡ performance)
      × (restored.0 ≡ pos 0)
      × (restored.2 ≡ name)
      × (restored.1.modified ≡ false)
os_restore-os_tune k name saved h named =
    let tuned = tune_lem k name saved h named in
    let back =
      ap (λ t. os_restore_cpu_governor all_well (pos k) t.1 t.2) tuned
      ∙ restore_lem k name performance h in
    (
      ap (λ t. t.0) tuned,
      ap (λ t. t.2) tuned,
      ap (λ t. t.0) back,
      ap (λ t. t.2) back,
      ap (λ t. t.1.modified) back,
    )

retune_lem :
    (k : ℕ) (saved : Saved)
    → k < max_cores
    → os_tune_cpu_governor all_well (pos k) saved performance
      ≡ (pos 0, record { original = performance; modified = true }, performance)
unfolding os_tune_cpu_governor write_name first_line
retune_lem k saved h =
    let low : ltb (k + 0) 0 ≡ false = ground arith in
    let high : ltb (k + 0) (max_cores + 0) ≡ true = ground arith in rw (low, high) refl

-- Two workers, processes with globals of their own, on one core below 256: where nothing fails, and
-- both tune it, one after the other, and restore it in the same order, the file of a governor with
-- a name of at most 31 bytes and a newline says performance in the end.
pub os_tune_twice :
    (k : ℕ) (name : List ℕ) (first second : Saved)
    → k < max_cores
    → IsName name
    → let a = os_tune_cpu_governor all_well (pos k) first (name ++ (newline ∷ [])) in
      let b = os_tune_cpu_governor all_well (pos k) second a.2 in
      let c = os_restore_cpu_governor all_well (pos k) a.1 b.2 in
      (os_restore_cpu_governor all_well (pos k) b.1 c.2).2 ≡ performance
os_tune_twice k name first second h named =
    let a = tune_lem k name first h named in
    let b = ap (λ t. os_tune_cpu_governor all_well (pos k) second t.2) a ∙ retune_lem k second h in
    (λ i.
      (os_restore_cpu_governor all_well (pos k) (b i).1
        (os_restore_cpu_governor all_well (pos k) (a i).1 (b i).2).2).2)
    ∙ ap (λ t. t.2)
        (restore_lem k performance
          (os_restore_cpu_governor all_well (pos k) (record { original = name; modified = true })
            performance).2
          h)
