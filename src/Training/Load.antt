-- ===== src/Training/Load.antt =====
-- What loading training data gives, and what it leaves allocated.
use mach_audio.Prelude.{
  ltb, Bool-cases, length, take, drop, length-append, length-take, take-length_append,
  drop-length_append, ℤ, pos, pos_part, ltb_ℤ, ℕ, zero, suc, ◌+◌, ◌*◌, ◌/◌, ◌%◌, ◌≤◌, ◌<◌, ◌≡◌,
  refl, sym, ap, ◌∙◌, ◌⊎◌, inl, inr, Bool, true, false, Option, none, some, List, [], ◌∷◌, ◌++◌,
  append_assoc, append-nil, arith, ◌==◌, drop-add,
}
use mach_audio.Training.{
  Answers, File, Held, VadTrainingData, built_in, load_frames, room_for, scatter, short_read,
  stored, vad_mel_bands, vad_record_size, vad_training_data_free, vad_training_data_load,
}

module _ (features_room labels_room : ℕ) where
  -- Neither block is overrun where there is room for all the records.
  scatter-safe :
      (count : ℕ) (floats features labels : List ℕ)
      → length features + count * vad_mel_bands ≤ features_room
      → length labels + count ≤ labels_room
      → ((fs : List ℕ) × (ls : List ℕ) × (scatter features_room labels_room count floats features
              labels
            ≡ stored fs ls))
        ⊎ (scatter features_room labels_room count floats features labels ≡ short_read)
  unfolding scatter
  scatter-safe zero floats features labels h k = inl (features, labels, refl)
  scatter-safe (suc count) floats features labels h k =
      elim (Bool-cases (ltb (length floats) (vad_mel_bands + 1))) [
        | inl short ↦ inr (rw short refl)
        | inr enough ↦
            let r =
              scatter-safe count (drop (vad_mel_bands + 1) floats) more label
                (omega (arith, h, more_len)) (omega (arith, k, label_len)) in
            elim r [
              | inl all ↦ inl (all.0, all.1, rw (enough, features_fit, labels_fit) all.2)
              | inr short ↦ inr (rw (enough, features_fit, labels_fit) short)
            ]
      ]
    where
      more : List ℕ
      more = features ++ take vad_mel_bands floats

      label : List ℕ
      label = labels ++ take 1 (drop vad_mel_bands floats)

      more_len : length more ≤ length features + vad_mel_bands
      more_len = omega (
        arith,
        length-append features (take vad_mel_bands floats),
        length-take vad_mel_bands floats,
      )

      label_len : length label ≤ length labels + 1
      label_len = omega (
        arith,
        length-append labels (take 1 (drop vad_mel_bands floats)),
        length-take 1 (drop vad_mel_bands floats),
      )

      features_fit : ltb features_room (length more) ≡ false
      features_fit =
          let fit : length more ≤ features_room = omega (arith, h, more_len) in ground arith

      labels_fit : ltb labels_room (length label) ≡ false
      labels_fit =
          let fit : length label ≤ labels_room = omega (arith, k, label_len) in ground arith

-- A record of the file: the features and a label.
pub record Frame : Type 0 where
  pub bands : List ℕ
  pub label : ℕ

abbrev pub AreFrames : List Frame → Type 0
AreFrames [] = Unit {0}
AreFrames (x ∷ xs) = (length x.bands ≡ vad_mel_bands) × AreFrames xs

abbrev pub floats_of : List Frame → List ℕ
floats_of [] = []
floats_of (x ∷ xs) = x.bands ++ (x.label ∷ floats_of xs)

abbrev pub bands_of : List Frame → List ℕ
bands_of [] = []
bands_of (x ∷ xs) = x.bands ++ bands_of xs

abbrev pub labels_of : List Frame → List ℕ
labels_of [] = []
labels_of (x ∷ xs) = x.label ∷ labels_of xs

-- A record at the front of the floats.
first_frame :
    (x : Frame) (rest : List ℕ)
    → length x.bands ≡ vad_mel_bands
    → (take vad_mel_bands (x.bands ++ (x.label ∷ rest)) ≡ x.bands)
      × (drop vad_mel_bands (x.bands ++ (x.label ∷ rest)) ≡ x.label ∷ rest)
first_frame x rest e = (
  ap (λ k. take k (x.bands ++ (x.label ∷ rest))) (sym e)
      ∙ take-length_append x.bands (x.label ∷ rest),
  ap (λ k. drop k (x.bands ++ (x.label ∷ rest))) (sym e)
      ∙ drop-length_append x.bands (x.label ∷ rest),
)

scatter-floats_of :
    (features_room labels_room : ℕ) (frames : List Frame) (features labels : List ℕ)
    → AreFrames frames
    → length features + length frames * vad_mel_bands ≤ features_room
    → length labels + length frames ≤ labels_room
    → scatter features_room labels_room (length frames) (floats_of frames) features labels
      ≡ stored (features ++ bands_of frames) (labels ++ labels_of frames)
unfolding scatter
scatter-floats_of fr lr [] features labels good h k =
    rw (append-nil features, append-nil labels) refl
scatter-floats_of fr lr (x ∷ xs) features labels good h k =
    let front = first_frame x (floats_of xs) good.0 in
    let behind : drop 21 (x.bands ++ (x.label ∷ floats_of xs)) ≡ floats_of xs =
      drop-add 20 1 21 (x.bands ++ (x.label ∷ floats_of xs)) refl ∙ ap (λ r. drop 1 r) front.1 in
    let enough : ltb (length (x.bands ++ (x.label ∷ floats_of xs))) 21 ≡ false =
      let len = length-append x.bands (x.label ∷ floats_of xs) in
      let many : 21 ≤ length (x.bands ++ (x.label ∷ floats_of xs)) = omega (arith, len, good.0) in
      ground arith in
    let features_len : length (features ++ x.bands) ≡ length features + vad_mel_bands =
      omega (arith, length-append features x.bands, good.0) in
    let labels_len : length (labels ++ (x.label ∷ [])) ≡ length labels + 1 =
      omega (arith, length-append labels (x.label ∷ [])) in
    let features_fit : ltb fr (length (features ++ x.bands)) ≡ false =
      let fit : length (features ++ x.bands) ≤ fr = omega (arith, features_len, h) in
      ground arith in
    let labels_fit : ltb lr (length (labels ++ (x.label ∷ []))) ≡ false =
      let fit : length (labels ++ (x.label ∷ [])) ≤ lr = omega (arith, labels_len, k) in
      ground arith in
    let rest =
      scatter-floats_of fr lr xs (features ++ x.bands) (labels ++ (x.label ∷ [])) good.1
        (omega (arith, features_len, h)) (omega (arith, labels_len, k)) in
    rw (enough, front.0, front.1, behind, features_fit, labels_fit)
      (rest ∙ (λ i.
        stored (append_assoc features x.bands (bands_of xs) i)
          (append_assoc labels (x.label ∷ []) (labels_of xs) i)))

room_fits : (n size : ℕ) → size ≡ n * 4 → n ≤ room_for size
unfolding room_for
room_fits n size e = omega arith

-- Whether the records can be loaded.
module _ (train_features train_labels : List ℕ) where
  load_frames-floats_of :
      (file : Option File) (size : ℤ) (frames : List Frame) (held : Held)
      → AreFrames frames
      → load_frames train_features train_labels
          (record { file = file; gives_features = true; gives_labels = true })
          (record { total_size = size; floats = floats_of frames })
          (length frames)
          (record held { files = suc held.files })
        ≡ some (
          record {
            num_frames = length frames;
            features = some (bands_of frames);
            labels = some (labels_of frames);
            is_allocated = true;
          },
          record held { blocks = suc (suc held.blocks) },
        )
  unfolding load_frames
  load_frames-floats_of file size frames held good =
      let all =
        scatter-floats_of (room_for (length frames * vad_mel_bands * 4))
          (room_for (length frames * 4)) frames [] [] good
          (omega (arith, room_fits (length frames * vad_mel_bands) _ refl))
          (omega (arith, room_fits (length frames) _ refl)) in
      rw all refl

  -- Loading a file of frames with 20 features each, at least one, whose size is 84 bytes for each,
  -- gives their features and labels, where both allocations succeed; two blocks are held that were
  -- not before, and as many files.
  pub load-floats_of :
      (path : ℕ) (more : List ℕ) (frames : List Frame) (held : Held)
      → AreFrames frames
      → 0 < length frames
      → vad_training_data_load train_features train_labels
          (record {
            file = some (record {
              total_size = pos (length frames * vad_record_size);
              floats = floats_of frames;
            });
            gives_features = true;
            gives_labels = true;
          })
          (some (path ∷ more))
          held
        ≡ some (
          record {
            num_frames = length frames;
            features = some (bands_of frames);
            labels = some (labels_of frames);
            is_allocated = true;
          },
          record held { blocks = suc (suc held.blocks) },
        )
  unfolding vad_training_data_load
  load-floats_of path more frames held good some_frame =
      let positive : ltb 0 (length frames * vad_record_size + 0) ≡ true = ground arith in
      let whole : (length frames * vad_record_size % vad_record_size == 0) ≡ true = ground arith in
      let count : length frames * vad_record_size / vad_record_size ≡ length frames = omega arith in
      rw (positive, whole, count) (load_frames-floats_of _ _ frames held good)

  free_frames :
      (answer : Option File) (a b : Bool) (file : File) (n : ℕ) (held : Held)
      → (result : VadTrainingData × Held) × (load_frames train_features train_labels
            (record { file = answer; gives_features = a; gives_labels = b })
            file
            n
            (record held { files = suc held.files })
          ≡ some result)
        × ((vad_training_data_free (some result.0) result.1).1 ≡ held)
  unfolding load_frames vad_training_data_free
  free_frames answer false false file n held =
      ((built_in train_features train_labels, held), refl, refl)
  free_frames answer false true file n held =
      ((built_in train_features train_labels, held), refl, refl)
  free_frames answer true false file n held =
      ((built_in train_features train_labels, held), refl, refl)
  free_frames answer true true file n held =
      elim (scatter-safe (room_for (n * vad_mel_bands * 4)) (room_for (n * 4)) n file.floats [] []
        (omega (arith, room_fits (n * vad_mel_bands) _ refl)) (omega (arith, room_fits n _ refl))) [
          | inl all ↦ (
            (
              record {
                num_frames = n;
                features = some all.0;
                labels = some all.1;
                is_allocated = true;
              },
              record held { blocks = suc (suc held.blocks) },
            ),
            rw all.2 refl,
            refl,
          )
          | inr short ↦ ((built_in train_features train_labels, held), rw short refl, refl)
        ]

  -- Whatever the path, the file and the allocator answer, no block is overrun, and what is held
  -- after loading and freeing is what was held before.
  pub free-load :
      (answers : Answers) (path : Option (List ℕ)) (held : Held)
      → (result : VadTrainingData × Held) × (vad_training_data_load train_features train_labels
            answers path held
          ≡ some result)
        × ((vad_training_data_free (some result.0) result.1).1 ≡ held)
  unfolding vad_training_data_load vad_training_data_free
  free-load answers none held = ((built_in train_features train_labels, held), refl, refl)
  free-load answers (some []) held = ((built_in train_features train_labels, held), refl, refl)
  free-load answers (some (c ∷ cs)) held = opened answers.file refl
    where
      opened :
          (f : Option File)
          → answers.file ≡ f
          → (result : VadTrainingData × Held) × (vad_training_data_load train_features train_labels
                answers
                (some (c ∷ cs))
                held
              ≡ some result)
            × ((vad_training_data_free (some result.0) result.1).1 ≡ held)
      opened none e = ((built_in train_features train_labels, held), rw e refl, refl)
      opened (some file) e = elim (Bool-cases (ltb_ℤ (pos 0) file.total_size)) [
        | inr negative ↦ ((built_in train_features train_labels, held), rw (e, negative) refl, refl)
        | inl positive ↦ elim (Bool-cases (pos_part file.total_size % vad_record_size == 0)) [
          | inr part ↦
              ((built_in train_features train_labels, held), rw (e, positive, part) refl, refl)
          | inl whole ↦
              let r =
                free_frames (some file) answers.gives_features answers.gives_labels file
                  (pos_part file.total_size / vad_record_size) held in
              (r.0, rw (e, positive, whole) r.1, r.2)
        ]
      ]
