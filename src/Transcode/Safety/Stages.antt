-- ===== src/Transcode/Safety/Stages.antt =====
-- The stages behind the decoder do not fault.

use mach_audio.Prelude.{length, ℕ, ◌+◌, ◌*◌, ◌≤◌, ◌≡◌, refl, Bool, ◌&&◌, Option, none, some, ◌==◌}
use mach_audio.Simd.{Avx2}
use mach_audio.Transcode.{Dsp, TranscodeSession, float_minus_one, vad_sample_rate}
use mach_audio.Transcode.Hoare.{Done, Done-if, Done-read, IsReady, IsServable, load_samples-Done}
use mach_audio.Transcode.Memory.{M, State, load_samples, pure, put_session, ◌>>=◌}
use mach_audio.Transcode.Pipeline.{run_vad, vad_on_input, vad_on_output}
use mach_audio.Transcode.Safety.{IsHeld, IsOutput, IsSame}

module _ (d : Dsp) (c0 : ℕ) where
  abbrev pub Same : State d → State d → Type 0
  Same s s' = IsSame d c0 s.arena.curr s.session.in_channels s.session.out_channels s'

  abbrev pub AfterSame : State d → Unit {0} → State d → Type 0
  AfterSame s _ s' = Same s s'

  -- The fields that the detector and the resampler change are none of the configuration's.
  pub IsServable-kept :
      (t : TranscodeSession d) (v : Option d.Vad) (prob : ℕ) (r : d.Resampler)
      → IsServable t
      → IsServable (record t { vad_state = v; last_vad_prob = prob; resampler = r })
  IsServable-kept t v prob r h = record {
    mono = h.mono;
    has_channel = h.has_channel;
    in_fits = h.in_fits;
    out_fits = h.out_fits;
    rate_fits = h.rate_fits;
    has_rate = h.has_rate;
    no_wider = h.no_wider;
  }

  pub IsReady-kept :
      (s : State d) (v : Option d.Vad) (prob : ℕ) (r : d.Resampler)
      → IsReady d c0 s
      → Same s (record s {
        session = record s.session { vad_state = v; last_vad_prob = prob; resampler = r };
      })
  IsReady-kept s v prob r h = record {
    ready = record {
      valid = h.valid;
      below = h.below;
      above = h.above;
      servable = IsServable-kept s.session v prob r h.servable;
    };
    used = refl;
    same_inputs = refl;
    same_outputs = refl;
  }

  module _ (m : Avx2) (le : Bool) where
    run_vad-Done :
        (buf samples channels : ℕ) (s : State d)
        → buf + 2 * (samples * channels) ≤ s.arena.curr
        → IsReady d c0 s
        → Done d c0 (AfterSame s) (run_vad d m le buf samples channels s)
    unfolding run_vad Done
    run_vad-Done buf samples channels s inside h = with_state s.session.vad_state
      where
        with_state :
            (vad : Option d.Vad)
            → Done d c0 (AfterSame s) (
                elim vad as (λ _. M (State d) (Unit {0})) [
                  | none ↦ pure tt
                  | some v ↦ load_samples d le buf (samples * channels) >>= λ pcm.
                      put_session d (record s.session {
                        last_vad_prob =
                            (d.vad_process_pcm v pcm samples vad_sample_rate channels).0;
                        vad_state =
                            some (d.vad_process_pcm v pcm samples vad_sample_rate channels).1;
                      })
                ]
                  s)
        with_state none =
            IsReady-kept s s.session.vad_state s.session.last_vad_prob s.session.resampler h
        with_state (some v) =
            Done-read d c0 (λ zs. length zs ≡ samples * channels) (AfterSame s)
              (load_samples d le buf (samples * channels)) _ s
              (load_samples-Done d c0 le buf (samples * channels) s inside h)
              (λ pcm q. IsReady-kept s _ _ s.session.resampler h)

    AfterStage : State d → Type 0
    AfterStage s = IsReady d c0 s

    pub vad_on_input-Done :
        (p n : ℕ) (s : State d)
        → IsHeld d c0 (p, n) s
        → Done d c0 (AfterSame s) (vad_on_input d m le (p, n) s)
    unfolding vad_on_input Done
    vad_on_input-Done p n s h =
        let marked =
          IsReady-kept s s.session.vad_state float_minus_one s.session.resampler h.ready in
        Done-if d c0 (AfterSame s)
          (s.session.vad_enabled && s.session.in_sample_rate == vad_sample_rate)
          (run_vad d m le p n s.session.in_channels) (pure tt) _
          (λ _. run_vad-Done p n s.session.in_channels _ h.until marked.ready) (λ _. marked)

    pub vad_on_output-Done :
        (block : ℕ × ℕ) (s : State d)
        → IsOutput d c0 block s
        → Done d c0 (AfterSame s) (vad_on_output d m le block s)
    unfolding vad_on_output Done
    vad_on_output-Done (p, n) s h =
        Done-if d c0 (AfterSame s)
          (s.session.vad_enabled
            && (s.session.last_vad_prob == float_minus_one
                && s.session.out_sample_rate == vad_sample_rate))
          (run_vad d m le p n s.session.out_channels) (pure tt) s
          (λ _. run_vad-Done p n s.session.out_channels s h.as_output h.ready)
          (λ _.
            IsReady-kept s s.session.vad_state s.session.last_vad_prob s.session.resampler h.ready)
