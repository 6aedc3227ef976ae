-- ===== src/Training/Tests.antt =====
-- The loader's theorems at a concrete file.
use mach_audio.Prelude.{
  replicate, pos, ◌≡◌, refl, true, some, List, [], ◌∷◌, ◌++◌, arith, replicate,
}
use mach_audio.Training.{Answers, Held, vad_training_data_load}
use mach_audio.Training.Load.{Frame, floats_of, load-floats_of}

abbrev two_frames : List Frame
two_frames =
    record { bands = replicate 20 7; label = 1 } ∷ record { bands = replicate 20 8; label = 0 } ∷ []

abbrev nothing_held : Held
nothing_held = record { blocks = 0; files = 3 }

abbrev two_frames_answers : Answers
two_frames_answers = record {
  file = some (record { total_size = pos 168; floats = floats_of two_frames });
  gives_features = true;
  gives_labels = true;
}

load-floats_of_example :
    vad_training_data_load [] [] two_frames_answers (some (47 ∷ [])) nothing_held
    ≡ some (
      record {
        num_frames = 2;
        features = some (replicate 20 7 ++ (replicate 20 8 ++ []));
        labels = some (1 ∷ 0 ∷ []);
        is_allocated = true;
      },
      record { blocks = 2; files = 3 },
    )
load-floats_of_example =
    load-floats_of [] [] 47 [] two_frames nothing_held (refl, (refl, tt)) (omega arith)
