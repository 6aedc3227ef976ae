-- ===== src/OsTune.antt =====
-- The scaling governor of a CPU: os_tune_cpu_governor and os_restore_cpu_governor of
-- src/util/os_tune.c. The governor's file is its bytes, without the terminating null.
pub mod Governor
mod Tests
use mach_audio.Prelude.{
  if◌then◌else◌, ℤ, pos, negsuc, ltb_ℤ, ℕ, zero, suc, Bool, true, false, not, ◌||◌, Option, none,
  some, List, [], ◌∷◌, ◌==◌,
}
use mach_audio.Server.Lifecycle.{read}

-- MAX_CORES, and the bytes that `fgets` reads at most.
abbrev pub max_cores : ℕ
max_cores = 256

abbrev pub name_size : ℕ
name_size = 31

abbrev pub newline : ℕ
newline = 10

-- "performance"
abbrev pub performance : List ℕ
performance = 112 ∷ 101 ∷ 114 ∷ 102 ∷ 111 ∷ 114 ∷ 109 ∷ 97 ∷ 110 ∷ 99 ∷ 101 ∷ []

-- The globals for one core in one process: g_original_governors and g_governor_modified.
pub record Saved : Type 0 where
  pub original : List ℕ
  pub modified : Bool

-- What the system answers: whether the file opens for reading and for writing, and what a `fprintf`
-- that fails leaves in it (`none` where it does not fail).
pub record Answers : Type 0 where
  pub opens_read : Bool
  pub opens_write : Bool
  pub left : Option (List ℕ)

-- The bytes up to the first newline, or `n` of them, without the newline: `fgets`, and the newline
-- taken off.
unfoldable pub first_line : ℕ → List ℕ → List ℕ
first_line zero bs = []
first_line (suc n) [] = []
first_line (suc n) (b ∷ bs) = elim (b == newline) [ true ↦ [] | false ↦ b ∷ first_line n bs ]

-- The write of a name: the return value, the file, and whether it was written.
unfoldable pub write_name : Answers → List ℕ → List ℕ → Bool × List ℕ
write_name answers file text =
    if answers.opens_write
    then elim answers.left [ none ↦ (true, text) | some rest ↦ (false, rest) ]
    else (false, file)

-- The return value, the globals and the file after the call. An empty file is what `fgets` cannot
-- read.
unfoldable pub os_tune_cpu_governor : Answers → ℤ → Saved → List ℕ → ℤ × Saved × List ℕ
os_tune_cpu_governor answers core_id saved file =
    if ltb_ℤ core_id (pos 0) || not (ltb_ℤ core_id (pos max_cores))
    then (negsuc 0, saved, file)
    else if not answers.opens_read
    then (negsuc 0, saved, file)
    else elim file [
      | [] ↦ (negsuc 0, saved, [])
      | b ∷ bs ↦
          let read = record saved { original = first_line name_size (b ∷ bs) } in
          let (written, after) = write_name answers (b ∷ bs) performance in
          if written
          then (pos 0, record read { modified = true }, after)
          else (negsuc 0, read, after)
    ]

unfoldable pub os_restore_cpu_governor : Answers → ℤ → Saved → List ℕ → ℤ × Saved × List ℕ
os_restore_cpu_governor answers core_id saved file =
    if ltb_ℤ core_id (pos 0) || not (ltb_ℤ core_id (pos max_cores)) || not saved.modified
    then (pos 0, saved, file)
    else (let (written, after) = write_name answers file saved.original in
        if written
        then (pos 0, record saved { modified = false }, after)
        else (negsuc 0, saved, after))
