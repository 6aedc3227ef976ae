-- ===== src/Transcode/Safety/Resample.antt =====
-- The resampling stage of `audio_process_transcode` does not fault.
use native.Mathlib.Nat.{div-le_self, mul-le-mul_right, mul-le-mul_left}
use mach_audio.Prelude.{
  length, ℤ, u64, ℕ, ◌+◌, ◌*◌, ◌/◌, ◌^◌, ◌≤◌, ◌<◌, ◌≡◌, Bool, true, false, not, List, arith, ◌==◌,
}
use mach_audio.Simd.{Avx2}
use mach_audio.Transcode.{Dsp, IsDsp, TranscodeSession}
use mach_audio.Transcode.Hoare.{
  Done, Done-bind, Done-if, Done-read, IsBlockOf, IsServable, Keeps, alloc_or_fail-Done,
  load_samples-Done, store_samples-Done,
}
use mach_audio.Transcode.Memory.{
  State, alloc_or_fail, crash, load_samples, pure, put_session, store_samples, ◌>>=◌,
}
use mach_audio.Transcode.Pipeline.{resample_block}
use mach_audio.Transcode.Safety.{IsHeld, IsOutput}
use mach_audio.Transcode.Safety.Stages.{IsServable-kept}

module _ (d : Dsp) (dsp : IsDsp d) (c0 : ℕ) (m : Avx2) (le : Bool) where
  abbrev pub AfterResample : ℕ × ℕ → State d → Type 0
  AfterResample block s' = IsOutput d c0 block s'

  -- The number of samples that the stage makes room for.
  abbrev capacity : TranscodeSession d → ℕ → ℕ
  capacity t n = u64 (u64 (n * t.out_sample_rate) / t.in_sample_rate + 128)

  capacity_fits :
      (t : TranscodeSession d) (n : ℕ)
      → n < 2 ^ 31
      → IsServable t
      → capacity t n * t.out_channels * 2 < 2 ^ 63
  capacity_fits t n short h =
      let product : n * t.out_sample_rate ≤ 2 ^ 31 * t.out_sample_rate =
        mul-le-mul_right t.out_sample_rate (omega arith) in
      let quotient = div-le_self (n * t.out_sample_rate) t.in_sample_rate in
      let exact : u64 (n * t.out_sample_rate) ≡ n * t.out_sample_rate =
        omega (arith, h.rate_fits) in
      let small : capacity t n ≤ 2 ^ 48 = rw exact (omega (arith, h.rate_fits)) in
      let wide : capacity t n * t.out_channels ≤ capacity t n * 256 =
        mul-le-mul_left (capacity t n) (omega (arith, h.out_fits)) in
      omega arith

  unchanged :
      (p n : ℕ) (s : State d)
      → IsHeld d c0 (p, n) s
      → s.session.needs_resample ≡ false
      → IsOutput d c0 (p, n) s
  unchanged p n s h e = record {
    ready = h.ready;
    from = h.from;
    as_mono =
        let one : n * 1 ≤ n * s.session.in_channels =
          mul-le-mul_left n h.ready.servable.has_channel in
        omega (arith, h.until);
    as_output =
        let fewer : n * s.session.out_channels ≤ n * s.session.in_channels =
          mul-le-mul_left n (h.ready.servable.no_wider e) in
        omega (arith, h.until);
  }

  abbrev out_of : TranscodeSession d → ℕ → List ℤ → List ℤ × d.Resampler
  out_of t n samples =
      d.resample t.resampler t.in_sample_rate t.out_sample_rate samples (capacity t n)

  resampled :
      (p n : ℕ) (s : State d)
      → IsHeld d c0 (p, n) s
      → s.session.needs_resample ≡ true
      → Done d c0 AfterResample (
          (alloc_or_fail d (capacity s.session n * s.session.out_channels * 2) >>= λ resampled_buf.
          load_samples d le p n >>= λ samples.
          store_samples d le resampled_buf (out_of s.session n samples).0 >>= λ _.
          put_session d (record s.session { resampler = (out_of s.session n samples).1 }) >>= λ _.
          pure (resampled_buf, length (out_of s.session n samples).0))
            s)
  unfolding Done
  resampled p n s h e =
      Done-bind d c0 (IsBlockOf d c0 room s) AfterResample (alloc_or_fail d room) _ s
        (alloc_or_fail-Done d c0 room s (capacity_fits s.session n short h.ready.servable) h.ready)
        (λ buf s1 q1.
          Done-read d c0 (λ zs. length zs ≡ n) AfterResample (load_samples d le p n) _ s1
            (load_samples-Done d c0 le p n s1 (omega (arith, mono, q1.1, q1.2)) q1.0)
            (λ samples q2.
              let fits =
                dsp.resample_fits s.session.resampler s.session.in_sample_rate
                  s.session.out_sample_rate samples (capacity s.session n) in
              Done-bind d c0 (λ _ s'. Keeps d c0 s1 s') AfterResample
                (store_samples d le buf (out_of s.session n samples).0) _ s1
                (store_samples-Done d c0 le buf (out_of s.session n samples).0 s1
                  (omega (arith, q1.2, fits, enough)) q1.0)
                (λ _ s2 q3.
                  let most : length (out_of s.session n samples).0 * s.session.out_channels
                      ≤ capacity s.session n * s.session.out_channels =
                    mul-le-mul_right s.session.out_channels fits in
                  record {
                    ready = record {
                      valid = q3.0.valid;
                      below = q3.0.below;
                      above = q3.0.above;
                      servable =
                          IsServable-kept d c0 s.session s.session.vad_state s.session.last_vad_prob
                            (out_of s.session n samples).1 h.ready.servable;
                    };
                    from = omega (arith, h.ready.above, q1.1);
                    as_mono = omega (arith, q1.2, q3.1, fits, enough);
                    as_output = omega (arith, q1.2, q3.1, most);
                  })))
    where
      room : ℕ
      room = capacity s.session n * s.session.out_channels * 2

      enough : capacity s.session n * 1 ≤ capacity s.session n * s.session.out_channels
      enough = mul-le-mul_left (capacity s.session n) (h.ready.servable.has_rate e).1

      mono : p + 2 * n ≤ s.arena.curr
      mono =
          let one : n * 1 ≤ n * s.session.in_channels =
            mul-le-mul_left n h.ready.servable.has_channel in
          omega (arith, h.until)

      short : n < 2 ^ 31
      short = omega (arith, mono, h.ready.below, h.ready.valid.used)

  pub resample_block-Done :
      (p n : ℕ) (s : State d)
      → IsHeld d c0 (p, n) s
      → Done d c0 AfterResample (resample_block d m le (p, n) s)
  unfolding resample_block Done
  resample_block-Done p n s h =
      Done-if d c0 AfterResample (not s.session.needs_resample) (pure (p, n)) _ s
        (λ e. unchanged p n s h (ground arith))
        (λ e.
          Done-if d c0 AfterResample (s.session.in_sample_rate == 0) crash _ s
            (λ z. absurd (let rate = h.ready.servable.has_rate (ground arith) in ground arith))
            (λ z. resampled p n s h (ground arith)))
