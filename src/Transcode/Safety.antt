-- ===== src/Transcode/Safety.antt =====
-- What the stages of `audio_process_transcode` leave of the session and the arena, when they do
-- not fault.
pub mod Decode
pub mod Mix
pub mod Rounds
pub mod Stages
pub mod Resample
pub mod Output
pub mod Whole
use mach_audio.Prelude.{ℕ, ◌+◌, ◌*◌, ◌≤◌, ◌≡◌, Option, none, some}
use mach_audio.Transcode.{Dsp}
use mach_audio.Transcode.Hoare.{IsReady}
use mach_audio.Transcode.Memory.{State}

module _ (d : Dsp) (c0 : ℕ) where
  -- A decoded block lies in the used part of the arena.
  pub record IsHeld (block : ℕ × ℕ) (s : State d) : Type 0 where
    pub ready : IsReady d c0 s
    pub from : c0 ≤ block.0
    pub until : block.0 + 2 * (block.1 * s.session.in_channels) ≤ s.arena.curr

  -- What decoding leaves: a held block above what was in use, and the same session.
  abbrev pub IsDecoded : State d → ℕ × ℕ → State d → Type 0
  IsDecoded s block s' = IsHeld block s' × (s.arena.curr ≤ block.0) × (s'.session ≡ s.session)

  -- The first block after a round; `none` before the first one.
  abbrev pub IsKept : State d → Option (ℕ × ℕ) → Type 0
  IsKept s none = IsReady d c0 s
  IsKept s (some block) = IsHeld block s

  -- A resampled block lies in the used part of the arena, in each of the ways that it is read.
  pub record IsOutput (block : ℕ × ℕ) (s : State d) : Type 0 where
    pub ready : IsReady d c0 s
    pub from : c0 ≤ block.0
    pub as_mono : block.0 + 2 * block.1 ≤ s.arena.curr
    pub as_output : block.0 + 2 * (block.1 * s.session.out_channels) ≤ s.arena.curr

  -- A step that changes no field of the configuration and takes nothing of the arena.
  pub record IsSame (curr inputs outputs : ℕ) (s' : State d) : Type 0 where
    pub ready : IsReady d c0 s'
    pub used : s'.arena.curr ≡ curr
    pub same_inputs : s'.session.in_channels ≡ inputs
    pub same_outputs : s'.session.out_channels ≡ outputs
