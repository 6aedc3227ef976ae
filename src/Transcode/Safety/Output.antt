-- ===== src/Transcode/Safety/Output.antt =====
-- Encoding and the delivery to the start of the output do not fault.
use mach_audio.Prelude.{length, length-map, ℤ, ℕ, ◌+◌, ◌*◌, ◌≤◌, ◌≡◌, Bool, map, arith, ◌==◌}
use mach_audio.Codec.{encode_with, transcode_l16_to_pcma, transcode_l16_to_pcmu}
use mach_audio.Codec.Encode.{encode_all}
use mach_audio.G711.{linear_to_alaw, linear_to_ulaw}
use mach_audio.Simd.{Avx2}
use mach_audio.Transcode.{Dsp, codec_l16, codec_pcma, codec_pcmu}
use mach_audio.Transcode.Decode.{swap_endian_l16}
use mach_audio.Transcode.Hoare.{
  Done, Done-bind, Done-if, Done-read, IsBlockOf, IsReady, Keeps, alloc_or_fail-Done, load-Done,
  load_samples-Done, store-Done, store_samples-Done,
}
use mach_audio.Transcode.Memory.{
  State, alloc_or_fail, load, load_samples, pure, set_curr, store, store_samples,
}
use mach_audio.Transcode.Pipeline.{deliver, encode, encode_g711, encode_l16}
use mach_audio.Transcode.Safety.{IsOutput}
use mach_audio.Transcode.Safety.Decode.{length-swap_endian_l16}

module _ (d : Dsp) (c0 : ℕ) (m : Avx2) (le : Bool) where
  abbrev pub AfterEncode : Unit {0} → State d → Type 0
  AfterEncode _ s' = IsReady d c0 s'

  deliver-Done :
      (from len : ℕ) (s : State d)
      → IsReady d c0 s
      → c0 ≤ from
      → from + len ≤ s.arena.curr
      → Done d c0 AfterEncode (deliver d m le c0 from len s)
  unfolding deliver Done set_curr
  deliver-Done from len s h low inside =
      Done-read d c0 (λ bs. length bs ≡ len) AfterEncode (load d from len) _ s
        (load-Done d c0 from len s inside h)
        (λ bs q1.
          Done-bind d c0 (λ _ s'. Keeps d c0 s s') AfterEncode (store d c0 bs) _ s
            (store-Done d c0 c0 bs s (omega (arith, q1)) h)
            (λ _ s1 q2. record {
              valid = record {
                storage = q2.0.valid.storage;
                backed = q2.0.valid.backed;
                fits = q2.0.valid.fits;
                positive = q2.0.valid.positive;
                small = q2.0.valid.small;
                used = omega (arith, q2.0.valid.used, q2.1);
              };
              below = q2.0.below;
              above = omega arith;
              servable = q2.0.servable;
            }))

  encode_g711-Done :
      (code : ℤ → ℕ) (p n : ℕ) (s : State d)
      → IsOutput d c0 (p, n) s
      → Done d c0 AfterEncode (encode_g711 d m le (encode_with code) c0 (p, n) s)
  unfolding encode_g711 Done
  encode_g711-Done code p n s h =
      Done-bind d c0 (IsBlockOf d c0 n s) AfterEncode (alloc_or_fail d n) _ s
        (alloc_or_fail-Done d c0 n s (omega (arith, h.as_mono, h.ready.below, h.ready.valid.used))
          h.ready)
        (λ out s1 q1.
          Done-read d c0 (λ zs. length zs ≡ n) AfterEncode (load_samples d le p n) _ s1
            (load_samples-Done d c0 le p n s1 (omega (arith, h.as_mono, q1.1, q1.2)) q1.0)
            (λ samples q2.
              Done-read d c0 (λ bs. length bs ≡ n) AfterEncode (load d out n) _ s1
                (load-Done d c0 out n s1 (omega (arith, q1.2)) q1.0)
                (λ old q3. rw (encode_all code samples n old q2 q3) (
                  Done-bind d c0 (λ _ s'. Keeps d c0 s1 s') AfterEncode
                    (store d out (map code samples)) _ s1
                    (store-Done d c0 out (map code samples) s1
                      (omega (arith, q1.2, q2, length-map samples code)) q1.0)
                    (λ _ s2 q4.
                      deliver-Done out n s2 q4.0 (omega (arith, h.ready.above, q1.1))
                        (omega (arith, q1.2, q4.1)))))))

  encode_l16-Done :
      (p n : ℕ) (s : State d)
      → IsOutput d c0 (p, n) s
      → Done d c0 AfterEncode (encode_l16 d m le c0 (p, n) s)
  unfolding encode_l16 Done
  encode_l16-Done p n s h =
      Done-if d c0 AfterEncode s.session.swap_out _ (deliver d m le c0 p (elements * 2)) s
        (λ _.
          Done-read d c0 (λ zs. length zs ≡ elements) AfterEncode (load_samples d le p elements) _ s
            (load_samples-Done d c0 le p elements s h.as_output h.ready)
            (λ zs q1.
              Done-bind d c0 (λ _ s'. Keeps d c0 s s') AfterEncode
                (store_samples d le p (swap_endian_l16 zs)) _ s
                (store_samples-Done d c0 le p (swap_endian_l16 zs) s
                  (omega (arith, h.as_output, q1, length-swap_endian_l16 zs)) h.ready)
                (λ _ s1 q2.
                  deliver-Done p (elements * 2) s1 q2.0 h.from (omega (arith, h.as_output, q2.1)))))
        (λ _. deliver-Done p (elements * 2) s h.ready h.from (omega (arith, h.as_output)))
    where
      elements : ℕ
      elements = n * s.session.out_channels

  pub encode-Done :
      (block : ℕ × ℕ) (s : State d)
      → IsOutput d c0 block s
      → Done d c0 AfterEncode (encode d m le c0 block s)
  unfolding encode Done transcode_l16_to_pcmu transcode_l16_to_pcma
  encode-Done (p, n) s h =
      Done-if d c0 AfterEncode (s.session.out_payload_type == codec_pcmu) _ _ s
        (λ _. encode_g711-Done linear_to_ulaw p n s h)
        (λ _.
          Done-if d c0 AfterEncode (s.session.out_payload_type == codec_pcma) _ _ s
            (λ _. encode_g711-Done linear_to_alaw p n s h)
            (λ _.
              Done-if d c0 AfterEncode (s.session.out_payload_type == codec_l16) _ (pure tt) s
                (λ _. encode_l16-Done p n s h) (λ _. h.ready)))
