-- ===== src/Training.antt =====
-- The loader of the detector's training data: src/processing/vad_training_loader.c. A float is its
-- bit pattern. The built-in tables of vad_training_data.h are parameters.
pub mod Load
mod Tests
use mach_audio.Prelude.{
  ltb, if◌then◌else◌, length, take, drop, ℤ, pos, pos_part, ltb_ℤ, round_down, ℕ, zero, suc, ◌+◌,
  ◌*◌, ◌/◌, ◌%◌, Bool, true, false, not, ◌||◌, Option, none, some, List, [], ◌∷◌, ◌++◌, ◌==◌,
}

-- VAD_NUM_FRAMES, VAD_MEL_BANDS and VAD_RECORD_SIZE
abbrev pub vad_num_frames : ℕ
vad_num_frames = 200

abbrev pub vad_mel_bands : ℕ
vad_mel_bands = 20

abbrev pub vad_record_size : ℕ
vad_record_size = 84

-- The arrays are null pointers after `vad_training_data_free`.
pub record VadTrainingData : Type 0 where
  pub num_frames : ℕ
  pub features : Option (List ℕ)
  pub labels : Option (List ℕ)
  pub is_allocated : Bool

-- What the program holds of the system: allocated blocks and open files.
pub record Held : Type 0 where
  pub blocks : ℕ
  pub files : ℕ

-- A file as its calls answer: what `ftell` says at the end, and the floats that `fread` delivers.
pub record File : Type 0 where
  pub total_size : ℤ
  pub floats : List ℕ

-- The answers to one load: the file, if it opens, and whether each `aligned_alloc` succeeds.
pub record Answers : Type 0 where
  pub file : Option File
  pub gives_features : Bool
  pub gives_labels : Bool

-- The loop over the records: it stores all of them, or a `fread` is short, or a store goes past a
-- block.
pub data Scattered : Type 0 where
  stored : List ℕ → List ℕ → Scattered
  short_read : Scattered
  overrun : Scattered

-- One less, of a number that is not 0.
abbrev one_less : ℕ → ℕ
one_less zero = zero
one_less (suc n) = n

-- `aligned_alloc`, which may fail; `free` of a pointer that is not null; `fclose`.
abbrev pub aligned_alloc : Bool → Held → Held
aligned_alloc given held = if given then record held { blocks = suc held.blocks } else held

abbrev pub free_if : Bool → Held → Held
free_if given held = if given then record held { blocks = one_less held.blocks } else held

abbrev pub fclose : Held → Held
fclose held = record held { files = one_less held.files }

-- The floats that fit into a block of `size` bytes, padded to a multiple of 32.
unfoldable pub room_for : ℕ → ℕ
room_for size = round_down (size + 31) 32 / 4

-- `count` records, behind the features and labels stored so far.
unfoldable pub scatter : ℕ → ℕ → ℕ → List ℕ → List ℕ → List ℕ → Scattered
scatter features_room labels_room zero floats features labels = stored features labels
scatter features_room labels_room (suc count) floats features labels =
    let more = features ++ take vad_mel_bands floats in
    let label = labels ++ take 1 (drop vad_mel_bands floats) in
    let rest =
      scatter features_room labels_room count (drop (vad_mel_bands + 1) floats) more label in
    if ltb (length floats) (vad_mel_bands + 1)
    then short_read
    else if ltb features_room (length more) || ltb labels_room (length label)
    then overrun
    else rest

module _ (train_features train_labels : List ℕ) where
  -- The built-in data.
  abbrev pub built_in : VadTrainingData
  built_in = record {
    num_frames = vad_num_frames;
    features = some train_features;
    labels = some train_labels;
    is_allocated = false;
  }

  -- The blocks and the records, of an open file that has `num_frames` of them; `none` is a store
  -- past a block.
  unfoldable pub load_frames : Answers → File → ℕ → Held → Option (VadTrainingData × Held)
  load_frames answers file num_frames held =
      let with_features = aligned_alloc answers.gives_features held in
      let with_both = aligned_alloc answers.gives_labels with_features in
      if not answers.gives_features || not answers.gives_labels
      then some (
        built_in,
        fclose (free_if answers.gives_labels (free_if answers.gives_features with_both)),
      )
      else elim (scatter (room_for (num_frames * vad_mel_bands * 4)) (room_for (num_frames * 4))
          num_frames file.floats [] []) [
            | stored features labels ↦ some (
              record {
                num_frames = num_frames;
                features = some features;
                labels = some labels;
                is_allocated = true;
              },
              fclose with_both,
            )
            | short_read ↦ some (built_in, fclose (free_if true (free_if true with_both)))
            | overrun ↦ none
          ]

  -- The data, and what is held after the call. The path is its bytes.
  unfoldable pub vad_training_data_load :
      Answers → Option (List ℕ) → Held → Option (VadTrainingData × Held)
  vad_training_data_load answers none held = some (built_in, held)
  vad_training_data_load answers (some []) held = some (built_in, held)
  vad_training_data_load answers (some (c ∷ cs)) held = elim answers.file [
    | none ↦ some (built_in, held)
    | some file ↦
        let opened = record held { files = suc held.files } in
        let size = pos_part file.total_size in
        if not (ltb_ℤ (pos 0) file.total_size) || not (size % vad_record_size == 0)
        then some (built_in, fclose opened)
        else load_frames answers file (size / vad_record_size) opened
  ]

-- The data and what is held after the call.
unfoldable pub vad_training_data_free :
    Option VadTrainingData → Held → Option VadTrainingData × Held
vad_training_data_free none held = (none, held)
vad_training_data_free (some data_) held =
    if data_.is_allocated
    then (
      some (record { num_frames = 0; features = none; labels = none; is_allocated = false }),
      free_if true (free_if true held),
    )
    else (some data_, held)
