-- ===== src/Resample/History.antt =====
-- The delay buffer of `resample_l16_advanced`: `update_history` of Resample/Sinc.antt.
use mach_audio.Prelude.{
  leb, Bool-cases, length, take, drop, length-append, length-take, length-drop, take-append,
  drop-append, drop-length_append, ℤ, ℕ, zero, suc, ◌+◌, ◌-◌, ◌≤◌, ◌≡◌, refl, sym, ap, ◌∙◌, inl,
  inr, true, some, List, [], ◌∷◌, ◌++◌, append_assoc, append-nil, arith, drop-add, take_all,
  drop_all,
}
use mach_audio.Prelude.Options.{>>=-some, ◌>>=◌}
use mach_audio.Resample.{resampler_max_taps}
use mach_audio.Resample.Sinc.{update_history, window}

-- The last `k` elements, or all of fewer.
abbrev pub last_elements : ℕ → List ℤ → List ℤ
last_elements k xs = drop (length xs - k) xs

abbrev nothing : List ℤ
nothing = []

take-nil : (n : ℕ) → take n nothing ≡ nothing
take-nil zero = refl
take-nil (suc n) = refl

drop-take : (k n : ℕ) (xs : List ℤ) → k ≤ n → drop k (take n xs) ≡ take (n - k) (drop k xs)
drop-take zero n xs h = let same : n - 0 ≡ n = omega arith in rw same refl
drop-take (suc k) zero xs h = absurd (omega arith)
drop-take (suc k) (suc n) [] h = sym (take-nil (suc n - suc k))
drop-take (suc k) (suc n) (x ∷ xs) h =
    let same : suc n - suc k ≡ n - k = omega arith in rw same (drop-take k n xs (omega arith))

-- With a full delay buffer and as many input samples as the call is told of, the delay buffer
-- after the call holds the last 1024 samples of the one before it and the input.
pub update_history-eq-last_elements :
    (delay_buf in_data : List ℤ) (in_samples : ℕ)
    → length delay_buf ≡ resampler_max_taps
    → in_samples ≤ length in_data
    → update_history delay_buf in_data in_samples
      ≡ some (last_elements resampler_max_taps (delay_buf ++ take in_samples in_data))
unfolding update_history window
update_history-eq-last_elements delay_buf in_data n full fits =
    elim (Bool-cases (leb resampler_max_taps n)) [
      | inl long ↦
          let split : n ≡ resampler_max_taps + (n - resampler_max_taps) = ground arith in
          let some_room : leb (n - resampler_max_taps + resampler_max_taps) (length in_data)
              ≡ true =
            ground arith in
          let count : n - (n - resampler_max_taps) ≡ resampler_max_taps = ground arith in
          rw (long, some_room)
            (ap (λ xs. some xs)
              (sym (
                ap (λ k. drop k (delay_buf ++ take n in_data)) total
                ∙ drop-add resampler_max_taps (n - resampler_max_taps) n
                    (delay_buf ++ take n in_data) split
                ∙ ap (λ xs. drop (n - resampler_max_taps) xs) whole
                ∙ drop-take (n - resampler_max_taps) n in_data (omega arith)
                ∙ ap (λ k. take k (drop (n - resampler_max_taps) in_data)) count)))
      | inr short ↦
          let small : n ≤ resampler_max_taps = ground arith in
          let rest_len : length (drop n delay_buf) ≡ resampler_max_taps - n =
            omega (arith, length-drop n delay_buf, full) in
          let all_rest = take_all (resampler_max_taps - n) (drop n delay_buf) (omega arith) in
          let front =
            take-append (resampler_max_taps - n) (drop n delay_buf)
              (drop (resampler_max_taps - n) delay_buf) (omega arith)
            ∙ all_rest in
          let behind =
            drop_all resampler_max_taps
              (drop n delay_buf ++ drop (resampler_max_taps - n) delay_buf)
              (omega (
                arith,
                small,
                rest_len,
                full,
                length-append (drop n delay_buf) (drop (resampler_max_taps - n) delay_buf),
                length-drop (resampler_max_taps - n) delay_buf,
              )) in
          rw
            (
              short,
              room,
              all_rest,
              front,
              behind,
              append-nil (take n in_data),
              total,
              drop-append n delay_buf (take n in_data) (omega (arith, full, small)),
            )
            refl
    ]
  where
    whole : drop resampler_max_taps (delay_buf ++ take n in_data) ≡ take n in_data
    whole =
        ap (λ k. drop k (delay_buf ++ take n in_data)) (sym full)
        ∙ drop-length_append delay_buf (take n in_data)

    total : length (delay_buf ++ take n in_data) - resampler_max_taps ≡ n
    total = omega (arith, full, length-append delay_buf (take n in_data), length-take n in_data)

    room : leb (0 + n) (length in_data) ≡ true
    room = ground arith

last_elements-append :
    (k : ℕ) (xs ys : List ℤ)
    → k ≤ length xs
    → last_elements k (last_elements k xs ++ ys) ≡ last_elements k (xs ++ ys)
last_elements-append k xs ys h =
    ap (λ zs. drop (length zs - k) zs) (sym (drop-append (length xs - k) xs ys (omega arith)))
    ∙ ap (λ m. drop m (drop (length xs - k) (xs ++ ys))) count
    ∙ sym (
        drop-add (length xs - k) (length ys) (length (xs ++ ys) - k) (xs ++ ys)
          (omega (arith, length-append xs ys)))
  where
    count : length (drop (length xs - k) (xs ++ ys)) - k ≡ length ys
    count = omega (arith, length-drop (length xs - k) (xs ++ ys), length-append xs ys, h)

-- With a full delay buffer, two calls one after the other leave the delay buffer that one call with
-- the first input and the second behind it leaves.
pub update_history-append :
    (delay_buf a b : List ℤ)
    → length delay_buf ≡ resampler_max_taps
    → (update_history delay_buf a (length a) >>= λ history. update_history history b (length b))
      ≡ update_history delay_buf (a ++ b) (length (a ++ b))
update_history-append delay_buf a b full =
    >>=-some (λ history. update_history history b (length b)) (kept delay_buf a full)
    ∙ kept (last_elements resampler_max_taps (delay_buf ++ a)) b (
        omega (
          arith,
          full,
          length-drop (length (delay_buf ++ a) - resampler_max_taps) (delay_buf ++ a),
          length-append delay_buf a,
        ))
    ∙ ap (λ xs. some xs)
        (last_elements-append resampler_max_taps (delay_buf ++ a) b
            (omega (arith, full, length-append delay_buf a))
          ∙ ap (λ xs. last_elements resampler_max_taps xs) (append_assoc delay_buf a b))
    ∙ sym (kept delay_buf (a ++ b) full)
  where
    kept :
        (old xs : List ℤ)
        → length old ≡ resampler_max_taps
        → update_history old xs (length xs) ≡ some (last_elements resampler_max_taps (old ++ xs))
    kept old xs e =
        update_history-eq-last_elements old xs (length xs) e (omega arith)
        ∙ ap (λ ys. some (last_elements resampler_max_taps (old ++ ys)))
            (take_all (length xs) xs (omega arith))
