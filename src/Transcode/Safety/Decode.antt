-- ===== src/Transcode/Safety/Decode.antt =====
-- Decoding one buffer does not fault: the branches of `audio_process_transcode` on the input codec.
use native.Mathlib.Nat.{mul-div-le}
use mach_audio.Prelude.{
  if◌then◌else◌, Bool-cases, length, take, drop, length-append, length-take, length-drop,
  length-map, ℤ, ℕ, suc, ◌+◌, ◌*◌, ◌/◌, ◌%◌, ◌^◌, ◌≤◌, ◌<◌, ◌≡◌, refl, sym, ap, ◌∙◌, inl, inr, Bool,
  false, Option, some, List, [], ◌∷◌, ◌++◌, map, arith, ◌==◌, subst,
}
use mach_audio.Codec.{transcode_pcma_to_l16, transcode_pcmu_to_l16}
use mach_audio.Codec.Decode.{transcode_to_l16_lem, transcode_to_l16_refuses}
use mach_audio.G711.Alaw.{decode_alaw}
use mach_audio.G711.Ulaw.{decode_ulaw}
use mach_audio.Protocol.Bytes.{AreBytes}
use mach_audio.Simd.{Avx2, IsAvx2}
use mach_audio.Transcode.{Dsp, codec_l16, codec_pcma, codec_pcmu}
use mach_audio.Transcode.Decode.{decode_buffer, decode_g711, decode_l16, in_data, swap_endian_l16}
use mach_audio.Transcode.Hoare.{
  Done, Done-bind, Done-if, Done-read, IsBlockOf, IsReady, Keeps, alloc_or_fail-Done,
  load_samples-Done, store-Done, store_samples-Done,
}
use mach_audio.Transcode.Memory.{
  AreBytes-drop, AreBytes-take, State, alloc_or_fail, fail, load_samples, ok, pure, slice, store,
  store_samples, ◌>>=◌, ◌>>◌,
}
use mach_audio.Transcode.Safety.{IsDecoded}

pub length-swap_endian_l16 : (zs : List ℤ) → length (swap_endian_l16 zs) ≡ length zs
unfolding swap_endian_l16
length-swap_endian_l16 [] = refl
length-swap_endian_l16 (z ∷ zs) = ap suc (length-swap_endian_l16 zs)

-- A decoder that keeps the number of elements of an array of the length that it is given.
abbrev KeepsLength : (Option (List ℕ) → ℕ → Option (List ℤ) → ℤ × Option (List ℤ)) → Type 0
KeepsLength codec =
    (codes : List ℕ) (out : List ℤ)
    → AreBytes codes
    → length out ≡ length codes
    → (new : List ℤ) × ((codec (some codes) (length codes) (some out)).1 ≡ some new)
      × (length new ≡ length codes)

length-decoded :
    (f : ℕ → ℤ) (codes : List ℕ) (out : List ℤ)
    → length out ≡ length codes
    → length (map f (take (length codes) codes) ++ drop (length codes) out) ≡ length codes
length-decoded f codes out e = omega (
  arith,
  length-append (map f (take (length codes) codes)) (drop (length codes) out),
  length-map (take (length codes) codes) f,
  length-take (length codes) codes,
  length-drop (length codes) out,
)

module _ (m : Avx2) (avx : IsAvx2 m) where
  pcmu-KeepsLength : KeepsLength (transcode_pcmu_to_l16 (some m))
  pcmu-KeepsLength codes out bytes e = elim (Bool-cases (length codes % 16 == 0)) [
    | inl whole ↦
        let r =
          (transcode_to_l16_lem (some m) codes (length codes) out avx bytes (ground arith)
            (omega arith)).0 in
        (
          map decode_ulaw (take (length codes) codes) ++ drop (length codes) out,
          ap (λ p. p.1) r,
          length-decoded decode_ulaw codes out e,
        )
    | inr part ↦
        let r = (transcode_to_l16_refuses (some m) codes (length codes) out (ground arith)).0 in
        (out, ap (λ p. p.1) r, e)
  ]

  pcma-KeepsLength : KeepsLength (transcode_pcma_to_l16 (some m))
  pcma-KeepsLength codes out bytes e = elim (Bool-cases (length codes % 16 == 0)) [
    | inl whole ↦
        let r =
          (transcode_to_l16_lem (some m) codes (length codes) out avx bytes (ground arith)
            (omega arith)).1 in
        (
          map decode_alaw (take (length codes) codes) ++ drop (length codes) out,
          ap (λ p. p.1) r,
          length-decoded decode_alaw codes out e,
        )
    | inr part ↦
        let r = (transcode_to_l16_refuses (some m) codes (length codes) out (ground arith)).1 in
        (out, ap (λ p. p.1) r, e)
  ]

module _ (d : Dsp) (m : Avx2) (avx : IsAvx2 m) (le : Bool) (payload : List ℕ)
    (bytes : AreBytes payload) (c0 : ℕ) where
  abbrev IsData : ℕ → List ℕ → Type 0
  IsData len bs = (length bs ≡ len) × AreBytes bs

  in_data-Done :
      (p len : ℕ) (s : State d)
      → p + len ≤ length payload
      → Done d c0 (λ bs s'. IsData len bs × (s' ≡ s)) (in_data d m le payload p len s)
  unfolding Done
  in_data-Done p len s inside =
      subst (Done d c0 λ bs s'. IsData len bs × (s' ≡ s)) (sym run) (data_in, refl)
    where
      data_in : IsData len (take len (drop p payload))
      data_in = (
        omega (arith, length-take len (drop p payload), length-drop p payload),
        AreBytes-take len (drop p payload) (AreBytes-drop p payload bytes),
      )

      run : in_data d m le payload p len s ≡ ok (take len (drop p payload)) s
      run = unfold in_data slice in ground arith

  decode_g711-Done :
      (codec : Option (List ℕ) → ℕ → Option (List ℤ) → ℤ × Option (List ℤ)) (p len : ℕ)
      (s : State d)
      → KeepsLength codec
      → p + len ≤ length payload
      → len < 2 ^ 32
      → s.session.in_channels ≡ 1
      → IsReady d c0 s
      → Done d c0 (IsDecoded d c0 s) (decode_g711 d m le payload codec p len s)
  unfolding decode_g711 Done
  decode_g711-Done codec p len s keeps inside small mono h =
      Done-bind d c0 (IsBlockOf d c0 (len * 2) s) (IsDecoded d c0 s) (alloc_or_fail d (len * 2)) _ s
        (alloc_or_fail-Done d c0 (len * 2) s (omega arith) h)
        (λ buf s1 q1.
          Done-read d c0 (IsData len) (IsDecoded d c0 s) (in_data d m le payload p len) _ s1
            (in_data-Done p len s1 inside)
            (λ bs q2.
              Done-read d c0 (λ zs. length zs ≡ len) (IsDecoded d c0 s) (load_samples d le buf len)
                _ s1 (load_samples-Done d c0 le buf len s1 (omega (arith, q1.2)) q1.0)
                (λ old q3.
                  let k = keeps bs old q2.1 (q3 ∙ sym q2.0) in
                  let e : (codec (some bs) len (some old)).1 ≡ some k.0 =
                    subst (λ n. (codec (some bs) n (some old)).1 ≡ some k.0) q2.0 k.1 in
                  rw e (
                    Done-bind d c0 (λ _ s'. Keeps d c0 s1 s') (IsDecoded d c0 s)
                      (store_samples d le buf k.0) _ s1
                      (store_samples-Done d c0 le buf k.0 s1 (omega (arith, k.2, q2.0, q1.2)) q1.0)
                      (λ _ s2 q4. decoded_in buf s1 s2 q1 q4)))))
    where
      decoded_in :
          (buf : ℕ) (s1 s2 : State d)
          → IsBlockOf d c0 (len * 2) s buf s1
          → Keeps d c0 s1 s2
          → IsDecoded d c0 s (buf, len) s2
      decoded_in buf s1 s2 q1 q4 =
          let same = q4.2 ∙ q1.3 in
          let one : s2.session.in_channels ≡ 1 = ap (λ t. t.in_channels) same ∙ mono in
          (
            record {
              ready = q4.0;
              from = omega (arith, h.above, q1.1);
              until = rw one (omega (arith, q1.2, q4.1));
            },
            q1.1,
            same,
          )

  decode_l16-Done :
      (p len : ℕ) (s : State d)
      → p + len ≤ length payload
      → len < 2 ^ 32
      → IsReady d c0 s
      → Done d c0 (IsDecoded d c0 s) (decode_l16 d m le payload s.session p len s)
  unfolding decode_l16 Done
  decode_l16-Done p len s inside small h =
      rw (zero_test s.session.in_channels h.servable.has_channel) (
        Done-bind d c0 (IsBlockOf d c0 len s) (IsDecoded d c0 s) (alloc_or_fail d len) _ s
          (alloc_or_fail-Done d c0 len s (omega arith) h)
          (λ buf s1 q1.
            Done-read d c0 (IsData len) (IsDecoded d c0 s) (in_data d m le payload p len) _ s1
              (in_data-Done p len s1 inside)
              (λ bs q2.
                Done-bind d c0 (λ _ s'. Keeps d c0 s1 s') (IsDecoded d c0 s) (store d buf bs) _ s1
                  (store-Done d c0 buf bs s1 (omega (arith, q2.0, q1.2)) q1.0)
                  (λ _ s2 q3. swapped buf s1 s2 q1 q3))))
    where
      zero_test : (n : ℕ) → 0 < n → (n == 0) ≡ false
      zero_test n k = ground arith

      samples : ℕ
      samples = len / (2 * s.session.in_channels)

      whole : 2 * (samples * s.session.in_channels) ≤ len
      whole = omega (arith, mul-div-le len (2 * s.session.in_channels))

      held :
          (buf : ℕ) (s1 s2 : State d)
          → IsBlockOf d c0 len s buf s1
          → Keeps d c0 s1 s2
          → IsDecoded d c0 s (buf, samples) s2
      held buf s1 s2 q1 q3 = (
        record {
          ready = q3.0;
          from = omega (arith, h.above, q1.1);
          until = rw (q3.2 ∙ q1.3) (omega (arith, q1.2, q3.1, whole));
        },
        q1.1,
        q3.2 ∙ q1.3,
      )

      swapped :
          (buf : ℕ) (s1 s2 : State d)
          → IsBlockOf d c0 len s buf s1
          → Keeps d c0 s1 s2
          → Done d c0 (IsDecoded d c0 s) (
              (if s.session.swap_in
                  then (load_samples d le buf (samples * s.session.in_channels) >>= λ zs.
                      store_samples d le buf (swap_endian_l16 zs) >> pure (buf, samples))
                  else pure (buf, samples))
                s2)
      swapped buf s1 s2 q1 q3 =
          Done-if d c0 (IsDecoded d c0 s) s.session.swap_in _ (pure (buf, samples)) s2
            (λ _.
              Done-read d c0 (λ zs. length zs ≡ samples * s.session.in_channels) (IsDecoded d c0 s)
                (load_samples d le buf (samples * s.session.in_channels)) _ s2
                (load_samples-Done d c0 le buf (samples * s.session.in_channels) s2
                  (omega (arith, q1.2, q3.1, whole)) q3.0)
                (λ zs q4.
                  Done-bind d c0 (λ _ s'. Keeps d c0 s2 s') (IsDecoded d c0 s)
                    (store_samples d le buf (swap_endian_l16 zs)) _ s2
                    (store_samples-Done d c0 le buf (swap_endian_l16 zs) s2
                      (omega (arith, q1.2, q3.1, whole, q4, length-swap_endian_l16 zs)) q3.0)
                    (λ _ s3 q5. held buf s1 s3 q1 (q5.0, q5.1 ∙ q3.1, q5.2 ∙ q3.2))))
            (λ _. held buf s1 s2 q1 q3)

  pub decode_buffer-Done :
      (p len : ℕ) (s : State d)
      → p + len ≤ length payload
      → len < 2 ^ 32
      → IsReady d c0 s
      → Done d c0 (IsDecoded d c0 s) (decode_buffer d m le payload p len s)
  unfolding decode_buffer Done
  decode_buffer-Done p len s inside small h =
      Done-if d c0 (IsDecoded d c0 s) (s.session.in_payload_type == codec_pcmu) _ _ s
        (λ e.
          decode_g711-Done (transcode_pcmu_to_l16 (some m)) p len s (pcmu-KeepsLength m avx) inside
            small (h.servable.mono (ground arith)) h)
        (λ _.
          Done-if d c0 (IsDecoded d c0 s) (s.session.in_payload_type == codec_pcma) _ _ s
            (λ e.
              decode_g711-Done (transcode_pcma_to_l16 (some m)) p len s (pcma-KeepsLength m avx)
                inside small (h.servable.mono (ground arith)) h)
            (λ _.
              Done-if d c0 (IsDecoded d c0 s) (s.session.in_payload_type == codec_l16) _ fail s
                (λ _. decode_l16-Done p len s inside small h) (λ _. h)))
