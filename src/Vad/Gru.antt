-- ===== src/Vad/Gru.antt =====
-- The recurrent network of processing/vad_gru.c in plain C: `vad_gru_reset` and
-- `vad_gru_process_frame_c`. Floats and the functions of <math.h> are the parameter `Floats`; the
-- tables of vad_gru_weights.h, which a script generates, are the parameter `Weights`. An array is a
-- list, and `none` is an access outside of one.
use mach_audio.Prelude.{
  if◌then◌else◌, length, get_elem?, replicate, ℤ, ℕ, zero, suc, ◌+◌, ◌*◌, ◌≡◌, Bool, Option, none,
  some, List, [], ◌∷◌, ◌==◌,
}
use mach_audio.Client.Read.Account.{sum}
use mach_audio.Prelude.Options.{◌>>=◌}
use mach_audio.Resample.{row}

pub record Floats : Type 1 where
  pub Float : Type 0
  pub zero_float : Float
  pub one_float : Float
  pub add : Float → Float → Float
  pub sub : Float → Float → Float
  pub mul : Float → Float → Float
  pub div : Float → Float → Float
  pub neg : Float → Float
  pub absolute : Float → Float
  pub expf : Float → Float
  pub tanhf : Float → Float
  pub logf : Float → Float
  pub of_int : ℤ → Float
  pub less : Float → Float → Bool

abbrev pub feature_dim : ℕ
feature_dim = 20

abbrev pub hidden_dim : ℕ
hidden_dim = 24

abbrev pub gate_rows : ℕ
gate_rows = 72

module _ (fl : Floats) where
  pub record Weights : Type 0 where
    pub w_input : List fl.Float
    pub w_recurrent : List fl.Float
    pub b_input : List fl.Float
    pub b_recurrent : List fl.Float
    pub fc_weight : List fl.Float
    pub fc_bias : List fl.Float

  -- `memset` of the hidden state.
  unfoldable pub vad_gru_reset : List fl.Float
  vad_gru_reset = replicate hidden_dim fl.zero_float

  -- `sum += row[base + j] * xs[j]` for the next `n` places.
  unfoldable pub dot : List fl.Float → List fl.Float → ℕ → ℕ → ℕ → fl.Float → Option fl.Float
  dot row xs base zero j acc = some acc
  dot row xs base (suc n) j acc = do
    w ← get_elem? row (base + j)
    x ← get_elem? xs j
    dot row xs base n (j + 1) (fl.add acc (fl.mul w x))

  -- The next `n` rows of a projection: a row's sum, and its bias.
  unfoldable pub project :
      List fl.Float → List fl.Float → List fl.Float → ℕ → ℕ → ℕ → Option (List fl.Float)
  unfolding dot
  project table bias xs width zero i = some []
  project table bias xs width (suc n) i = do
    sum ← dot table xs (i * width) width 0 fl.zero_float
    b ← get_elem? bias i
    rest ← project table bias xs width n (i + 1)
    some (fl.add sum b ∷ rest)

  unfoldable pub sigmoid : fl.Float → fl.Float
  sigmoid x = fl.div fl.one_float (fl.add fl.one_float (fl.expf (fl.neg x)))

  -- The next `n` units of the new hidden state.
  unfoldable pub update_units :
      List fl.Float → List fl.Float → List fl.Float → ℕ → ℕ → Option (List fl.Float)
  unfolding sigmoid
  update_units input_proj rec_proj h_prev zero k = some []
  update_units input_proj rec_proj h_prev (suc n) k = do
    input_r ← get_elem? input_proj k
    rec_r ← get_elem? rec_proj k
    input_z ← get_elem? input_proj (24 + k)
    rec_z ← get_elem? rec_proj (24 + k)
    input_n ← get_elem? input_proj (48 + k)
    rec_n ← get_elem? rec_proj (48 + k)
    h ← get_elem? h_prev k
    let r = sigmoid (fl.add input_r rec_r)
    let z = sigmoid (fl.add input_z rec_z)
    let new = fl.tanhf (fl.add input_n (fl.mul r rec_n))
    rest ← update_units input_proj rec_proj h_prev n (k + 1)
    some (fl.add (fl.mul (fl.sub fl.one_float z) new) (fl.mul z h) ∷ rest)

  -- A frame's probability and the new hidden state. Without a state or features, or with another
  -- number of features, the result is 0 and the state stays.
  unfoldable pub vad_gru_process_frame_c :
      Weights
      → Option (List fl.Float)
      → Option (List fl.Float)
      → ℕ
      → Option (fl.Float × Option (List fl.Float))
  unfolding project update_units dot sigmoid
  vad_gru_process_frame_c w none features num_features = some (fl.zero_float, none)
  vad_gru_process_frame_c w (some h) none num_features = some (fl.zero_float, some h)
  vad_gru_process_frame_c w (some h) (some features) num_features =
      if num_features == feature_dim
      then (do
        input_proj ← project w.w_input w.b_input features feature_dim gate_rows 0
        rec_proj ← project w.w_recurrent w.b_recurrent h hidden_dim gate_rows 0
        h_new ← update_units input_proj rec_proj h hidden_dim 0
        fc_sum ← dot h_new w.fc_weight 0 hidden_dim 0 fl.zero_float
        bias ← get_elem? w.fc_bias 0
        some (sigmoid (fl.add fc_sum bias), some h_new))
      else some (fl.zero_float, some h)

  -- The sizes of the tables.
  pub record AreWeights (w : Weights) : Type 0 where
    pub input_size : length w.w_input ≡ 1440
    pub recurrent_size : length w.w_recurrent ≡ 1728
    pub input_bias_size : length w.b_input ≡ 72
    pub recurrent_bias_size : length w.b_recurrent ≡ 72
    pub fc_size : length w.fc_weight ≡ 24
    pub fc_bias_size : length w.fc_bias ≡ 1
