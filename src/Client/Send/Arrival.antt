-- ===== src/Client/Send/Arrival.antt =====
-- What the server's parser reads out of the messages of `send_input_chunk`.
use mach_audio.Prelude.{
  length, take, drop, replicate, ℕ, zero, suc, ◌^◌, ◌<◌, ◌≡◌, sym, ap, ◌∙◌, Bool, Option, none,
  some, List, [], ◌∷◌, ◌++◌, append-nil, arith, subst, replicate,
}
use mach_audio.Client.{Inputs}
use mach_audio.Client.Send.Layout.{container, next_buffers, second_buffers}
use mach_audio.Protocol.{AudioBufferHeader, input_payload_size}
use mach_audio.Protocol.Bytes.{AreBytes, AreBytes-append}
use mach_audio.Protocol.Container.{
  AreBuffers, Buffer, be32_bytes, encode_buffer, encode_buffers, padding, parse_all,
  parse_all-encode_buffers,
}

pub AreBytes-drop : (n : ℕ) (bs : List ℕ) → AreBytes bs → AreBytes (drop n bs)
AreBytes-drop zero bs h = h
AreBytes-drop (suc n) [] h = h
AreBytes-drop (suc n) (b ∷ bs) h = AreBytes-drop n bs h.1

pub AreBytes-take : (n : ℕ) (bs : List ℕ) → AreBytes bs → AreBytes (take n bs)
AreBytes-take zero bs h = tt
AreBytes-take (suc n) [] h = h
AreBytes-take (suc n) (b ∷ bs) h = (h.0, AreBytes-take n bs h.1)

AreBytes-zeros : (n : ℕ) → AreBytes (replicate n 0)
AreBytes-zeros zero = tt
AreBytes-zeros (suc n) = (omega arith, AreBytes-zeros n)

AreBytes-be32 : (x : ℕ) → AreBytes (be32_bytes x)
AreBytes-be32 x = (omega arith, (omega arith, (omega arith, (omega arith, tt))))

-- Buffers of samples that are bytes.
abbrev pub HoldBytes : List Buffer → Type 0
HoldBytes [] = Unit {0}
HoldBytes (b ∷ bs) = AreBytes b.samples × HoldBytes bs

AreBytes-encode : (b : Buffer) → AreBytes b.samples → AreBytes (encode_buffer b)
unfolding encode_buffer
AreBytes-encode b h =
    let pad = replicate (padding (length b.samples)) 0 in
    AreBytes-append (be32_bytes (length b.samples)) (be32_bytes b.volume ++ (b.samples ++ pad))
      (AreBytes-be32 (length b.samples))
      (AreBytes-append (be32_bytes b.volume) (b.samples ++ pad) (AreBytes-be32 b.volume)
        (AreBytes-append b.samples pad h (AreBytes-zeros (padding (length b.samples)))))

AreBytes-buffers : (bs : List Buffer) → HoldBytes bs → AreBytes (encode_buffers bs)
unfolding encode_buffers
AreBytes-buffers [] h = tt
AreBytes-buffers (b ∷ bs) h =
    AreBytes-append (encode_buffer b) (encode_buffers bs) (AreBytes-encode b h.0)
      (AreBytes-buffers bs h.1)

AreBytes-container : (bs : List Buffer) → HoldBytes bs → AreBytes (container bs)
AreBytes-container bs h =
    AreBytes-append (be32_bytes (length bs) ++ be32_bytes 0) (encode_buffers bs)
      (AreBytes-append (be32_bytes (length bs)) (be32_bytes 0) (AreBytes-be32 (length bs))
        (AreBytes-be32 0))
      (AreBytes-buffers bs h)

-- The parser gives back the buffers of a container of less than 2 ^ 31 bytes.
pub parse_all-container :
    (le : Bool) (bs : List Buffer) (bh : AudioBufferHeader)
    → AreBuffers bs
    → HoldBytes bs
    → length (container bs) < 2 ^ 31
    → parse_all le (container bs) (length (container bs)) (length bs) input_payload_size bh ≡ bs
parse_all-container le bs bh volumes bytes small =
    let head = be32_bytes (length bs) ++ be32_bytes 0 in
    let whole : container bs ≡ head ++ (encode_buffers bs ++ []) =
      ap (λ r. head ++ r) (sym (append-nil (encode_buffers bs))) in
    ap (λ r. parse_all le r (length r) (length bs) input_payload_size bh) whole
    ∙ parse_all-encode_buffers le head [] bs bh volumes
        (subst AreBytes whole (AreBytes-container bs bytes))
        (subst (λ r. length r < 2 ^ 31) whole small)

-- The files hold bytes.
abbrev pub AreBytes? : Option (List ℕ) → Type 0
AreBytes? none = Unit {0}
AreBytes? (some input) = AreBytes input

module _ (inputs : Inputs) (size offset offset_2 : ℕ) (bytes : AreBytes inputs.input_data)
    (bytes_2 : AreBytes? inputs.input_data_2) where
  pub next-AreBuffers : AreBuffers (next_buffers inputs size offset offset_2)
  next-AreBuffers = (omega arith, second inputs.input_data_2)
    where
      second : (input_2 : Option (List ℕ)) → AreBuffers (second_buffers input_2 size offset_2)
      second none = tt
      second (some input) = (omega arith, tt)

  pub next-HoldBytes : HoldBytes (next_buffers inputs size offset offset_2)
  next-HoldBytes = (
    AreBytes-take size (drop offset inputs.input_data)
        (AreBytes-drop offset inputs.input_data bytes),
    second inputs.input_data_2 bytes_2,
  )
    where
      second :
          (input_2 : Option (List ℕ))
          → AreBytes? input_2
          → HoldBytes (second_buffers input_2 size offset_2)
      second none h = tt
      second (some input) h =
          (AreBytes-take size (drop offset_2 input) (AreBytes-drop offset_2 input h), tt)
