-- ===== src/Transcode/Session.antt =====
-- What `transcode_session_init` returns and keeps.
use mach_audio.Prelude.{negsuc, ntohl, ◌≡◌, ◌≢◌, ◌↔◌, Bool, true, none, arith}
use mach_audio.Protocol.{AudioStartPayload}
use mach_audio.Transcode.{Dsp, configured, session_init}

-- The call returns -1 exactly when the two sample rates differ and the resampler refuses them.
pub session_init_iff :
    (d : Dsp) (le : Bool) (config : AudioStartPayload)
    → let in_rate = ntohl le config.in_sample_rate in
      let out_rate = ntohl le config.out_sample_rate in
      ((session_init d le config).0 ≡ negsuc 0)
      ↔ ((in_rate ≢ out_rate) × (d.resampler_init d.cleared in_rate out_rate ≡ none))
unfolding session_init configured
session_init_iff d le config = ground arith

-- A session whose resampler was refused (the call returned -1) is configured all the same: it has
-- the rates of the request and is marked for resampling, with the resampler's state cleared.
pub session_init_refused :
    (d : Dsp) (le : Bool) (config : AudioStartPayload)
    → (session_init d le config).0 ≡ negsuc 0
    → let t = (session_init d le config).1 in
      (t.needs_resample ≡ true)
      × (t.resampler ≡ d.cleared)
      × (t.in_sample_rate ≡ ntohl le config.in_sample_rate)
      × (t.out_sample_rate ≡ ntohl le config.out_sample_rate)
unfolding session_init configured
session_init_refused d le config h = ground arith
