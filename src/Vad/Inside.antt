-- ===== src/Vad/Inside.antt =====
-- The accesses of the network in its arrays, and the size of its state.
use mach_audio.Prelude.{
  length, get_elem?, ℕ, zero, suc, ◌+◌, ◌*◌, ◌≤◌, ◌<◌, ◌≡◌, refl, ap, some, List, [], ◌∷◌, arith,
}
use mach_audio.Resample.{row}
use mach_audio.Vad.Gru.{
  AreWeights, Floats, Weights, dot, project, sigmoid, update_units, vad_gru_process_frame_c,
}
use native.Mathlib.Nat.{mul-le-mul, le_refl, suc-mul}

module _ (fl : Floats) where
  pub inside :
      (xs : List fl.Float) (i : ℕ) → i < length xs → (x : fl.Float) × (get_elem? xs i ≡ some x)
  inside [] i h = absurd (omega arith)
  inside (x ∷ xs) zero h = (x, refl)
  inside (x ∷ xs) (suc i) h = inside xs i (omega arith)

  dot_inside :
      (row xs : List fl.Float) (base n j : ℕ) (acc : fl.Float)
      → base + j + n ≤ length row
      → j + n ≤ length xs
      → (r : fl.Float) × (dot fl row xs base n j acc ≡ some r)
  unfolding dot
  dot_inside row xs base zero j acc h k = (acc, refl)
  dot_inside row xs base (suc n) j acc h k =
      let w = inside row (base + j) (omega arith) in
      let x = inside xs j (omega arith) in
      let rest =
        dot_inside row xs base n (j + 1) (fl.add acc (fl.mul w.0 x.0)) (omega arith)
          (omega arith) in
      (rest.0, rw w.1 (rw x.1 rest.1))

  project_inside :
      (table bias xs : List fl.Float) (width n i : ℕ)
      → (i + n) * width ≤ length table
      → i + n ≤ length bias
      → width ≤ length xs
      → (r : List fl.Float) × (project fl table bias xs width n i ≡ some r) × (length r ≡ n)
  unfolding project
  project_inside table bias xs width zero i h k m = ([], refl, refl)
  project_inside table bias xs width (suc n) i h k m =
      let row : i * width + width ≤ length table =
        omega (arith, suc-mul i width, mul-le-mul (next_row i n) (le_refl width)) in
      let sum =
        dot_inside table xs (i * width) width 0 fl.zero_float (omega (arith, row)) (omega arith) in
      let b = inside bias i (omega arith) in
      let rest =
        project_inside table bias xs width n (i + 1)
          (omega (arith, ap (λ (t : ℕ). t * width) (shift i n))) (omega arith) m in
      (fl.add sum.0 b.0 ∷ rest.0, rw sum.1 (rw b.1 (rw rest.1)), ap suc rest.2)
    where
      next_row : (i n : ℕ) → suc i ≤ i + suc n
      next_row i n = omega arith

      shift : (i n : ℕ) → i + 1 + n ≡ i + suc n
      shift i n = omega arith

  update_inside :
      (input_proj rec_proj h_prev : List fl.Float) (n k : ℕ)
      → 48 + k + n ≤ length input_proj
      → 48 + k + n ≤ length rec_proj
      → k + n ≤ length h_prev
      → (r : List fl.Float) × (update_units fl input_proj rec_proj h_prev n k ≡ some r)
        × (length r ≡ n)
  unfolding update_units
  update_inside input_proj rec_proj h_prev zero k a b c = ([], refl, refl)
  update_inside input_proj rec_proj h_prev (suc n) k a b c =
      let i0 = inside input_proj k (omega arith) in
      let r0 = inside rec_proj k (omega arith) in
      let i1 = inside input_proj (24 + k) (omega arith) in
      let r1 = inside rec_proj (24 + k) (omega arith) in
      let i2 = inside input_proj (48 + k) (omega arith) in
      let r2 = inside rec_proj (48 + k) (omega arith) in
      let h = inside h_prev k (omega arith) in
      let rest =
        update_inside input_proj rec_proj h_prev n (k + 1) (omega arith) (omega arith)
          (omega arith) in
      let r = sigmoid fl (fl.add i0.0 r0.0) in
      let z = sigmoid fl (fl.add i1.0 r1.0) in
      let new = fl.tanhf (fl.add i2.0 (fl.mul r r2.0)) in
      (
        fl.add (fl.mul (fl.sub fl.one_float z) new) (fl.mul z h.0) ∷ rest.0,
        rw i0.1 (rw r0.1 (rw i1.1 (rw r1.1 (rw i2.1 (rw r2.1 (rw h.1 (rw rest.1))))))),
        ap suc rest.2,
      )

  -- On tables of their sizes, a state of 24 floats and 20 features, a frame of the network reads
  -- and writes inside of its arrays, and leaves a state of 24 floats.
  pub process_frame_inside :
      (w : Weights fl) (h features : List fl.Float)
      → AreWeights fl w
      → length h ≡ 24
      → length features ≡ 20
      → (p : fl.Float) × (next : List fl.Float) × (vad_gru_process_frame_c fl w
            (some h)
            (some features)
            20
          ≡ some (p, some next))
        × (length next ≡ 24)
  unfolding vad_gru_process_frame_c
  process_frame_inside w h features sizes hidden given =
      let bi = sizes.input_bias_size in
      let br = sizes.recurrent_bias_size in
      let wi = sizes.input_size in
      let wr = sizes.recurrent_size in
      let fs = sizes.fc_size in
      let fb = sizes.fc_bias_size in
      let ip =
        project_inside w.w_input w.b_input features 20 72 0 (omega (arith, wi)) (omega (arith, bi))
          (omega arith) in
      let rp =
        project_inside w.w_recurrent w.b_recurrent h 24 72 0 (omega (arith, wr)) (omega (arith, br))
          (omega arith) in
      let hn =
        update_inside ip.0 rp.0 h 24 0 (omega (arith, ip.2)) (omega (arith, rp.2)) (omega arith) in
      let fc =
        dot_inside hn.0 w.fc_weight 0 24 0 fl.zero_float (omega (arith, hn.2))
          (omega (arith, fs)) in
      let bias = inside w.fc_bias 0 (omega (arith, fb)) in
      (
        sigmoid fl (fl.add fc.0 bias.0),
        hn.0,
        rw ip.1 (rw rp.1 (rw hn.1 (rw fc.1 (rw bias.1)))),
        hn.2,
      )
