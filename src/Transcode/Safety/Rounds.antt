-- ===== src/Transcode/Safety/Rounds.antt =====
-- The loop of `audio_process_transcode` over the buffers does not fault.
use mach_audio.Prelude.{
  length, u32, ℕ, zero, suc, ◌+◌, ◌^◌, ◌≤◌, ◌<◌, ◌≡◌, refl, Bool, Option, none, some, List, arith,
}
use mach_audio.Protocol.Bytes.{AreBytes}
use mach_audio.Protocol.Parse.{Parsed, parse_next_buffer, parse_next_buffer-IsInside}
use mach_audio.Simd.{Avx2, IsAvx2}
use mach_audio.Transcode.{Dsp}
use mach_audio.Transcode.Decode.{decode_buffer, decode_buffers, keep_or_mix}
use mach_audio.Transcode.Hoare.{Done, Done-bind, IsReady}
use mach_audio.Transcode.Memory.{M, State, pure, ◌>>=◌}
use mach_audio.Transcode.Safety.{IsDecoded, IsHeld, IsKept}
use mach_audio.Transcode.Safety.Decode.{decode_buffer-Done}
use mach_audio.Transcode.Safety.Mix.{keep_or_mix-Done}

module _ (le : Bool) (payload : List ℕ) (payload_len : ℕ) where
  abbrev parsed_at : ℕ → Parsed
  parsed_at offset =
      parse_next_buffer le payload (u32 payload_len) offset (record { length = 0; volume = 0 })

  -- No length field that the loop reads carries the end of its buffer past 2 ^ 32.
  unfoldable pub LengthsFit : ℕ → ℕ → Type 0
  LengthsFit zero offset = Unit {0}
  LengthsFit (suc count) offset =
      ((p : ℕ)
        → (parsed_at offset).data_ptr ≡ some p
        → p + (parsed_at offset).out_header.length < 2 ^ 32)
      × LengthsFit count (parsed_at offset).offset

module _ (d : Dsp) (m : Avx2) (avx : IsAvx2 m) (le : Bool) (payload : List ℕ)
    (bytes : AreBytes payload) (c0 : ℕ) (payload_len : ℕ) (within : payload_len ≤ length payload)
    (short : payload_len < 2 ^ 31) where
  abbrev pub Kept : State d → Option (ℕ × ℕ) → Type 0
  Kept s acc = IsKept d c0 s acc

  abbrev pub AfterLoop : Option (ℕ × ℕ) → State d → Type 0
  AfterLoop first s' = Kept s' first

  Kept-IsReady : (acc : Option (ℕ × ℕ)) (s : State d) → Kept s acc → IsReady d c0 s
  Kept-IsReady none s h = h
  Kept-IsReady (some block) s h = h.ready

  -- A round, with the rounds behind it.
  round-Done :
      (p len : ℕ) (acc : Option (ℕ × ℕ)) (s : State d) (rest : ℕ × ℕ → M (State d) (Option (ℕ × ℕ)))
      → p + len ≤ payload_len
      → Kept s acc
      → ((first : ℕ × ℕ) (s' : State d)
          → IsHeld d c0 first s'
          → Done d c0 AfterLoop (rest first s'))
      → Done d c0 AfterLoop (
          (decode_buffer d m le payload p len >>= λ block.
          keep_or_mix d m le payload acc block >>= rest)
            s)
  round-Done p len acc s rest inside h next =
      Done-bind d c0 (IsDecoded d c0 s) AfterLoop (decode_buffer d m le payload p len) _ s
        (decode_buffer-Done d m avx le payload bytes c0 p len s (omega arith) (omega arith)
          (Kept-IsReady acc s h))
        (λ block s1 q1.
          Done-bind d c0 (λ first s'. IsHeld d c0 first s') AfterLoop
            (keep_or_mix d m le payload acc block) rest s1
            (keep_or_mix-Done d m avx le payload c0 acc block s s1 h q1)
            (λ first s2 q2. next first s2 q2))

  abbrev round : ℕ → ℕ → Option (ℕ × ℕ) → Option ℕ → M (State d) (Option (ℕ × ℕ))
  round count offset acc none = pure acc
  round count offset acc (some p) =
      decode_buffer d m le payload p (parsed_at le payload payload_len offset).out_header.length
      >>= λ block. keep_or_mix d m le payload acc block >>= λ first.
          decode_buffers d m le payload payload_len count
            (parsed_at le payload payload_len offset).offset (some first)

  pub decode_buffers-Done :
      (count offset : ℕ) (acc : Option (ℕ × ℕ)) (s : State d)
      → offset < 2 ^ 32
      → LengthsFit le payload payload_len count offset
      → Kept s acc
      → Done d c0 AfterLoop (decode_buffers d m le payload payload_len count offset acc s)
  unfolding decode_buffers Done LengthsFit
  decode_buffers-Done zero offset acc s small fit h = h
  decode_buffers-Done (suc count) offset acc s small fit h =
      parsed (parsed_at le payload payload_len offset).data_ptr refl (λ first s' end k.
        decode_buffers-Done count (parsed_at le payload payload_len offset).offset (some first) s'
          end fit.1 k)
    where
      parsed :
          (q : Option ℕ)
          → (parsed_at le payload payload_len offset).data_ptr ≡ q
          → ((first : ℕ × ℕ) (s' : State d)
              → (parsed_at le payload payload_len offset).offset < 2 ^ 32
              → IsHeld d c0 first s'
              → Done d c0 AfterLoop (
                  decode_buffers d m le payload payload_len count
                    (parsed_at le payload payload_len offset).offset
                    (some first)
                    s'))
          → Done d c0 AfterLoop (round count offset acc q s)
      parsed none e next = h
      parsed (some p) e next =
          let inside =
            parse_next_buffer-IsInside le payload (u32 payload_len) offset p
              (record { length = 0; volume = 0 }) (omega arith) small e (fit.0 p e) in
          let same : u32 payload_len ≡ payload_len = omega arith in
          round-Done p (parsed_at le payload payload_len offset).out_header.length acc s _
            (omega (arith, inside.ends)) h
            (λ first s' k. next first s' (omega (arith, inside.padded, inside.ends)) k)
