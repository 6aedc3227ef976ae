-- ===== src/Transcode/Endian/Samples.antt =====
-- What `decode_l16` and `encode_l16` make of the order of the bytes of samples.
use native.Mathlib.Nat.{mul-div-le}
use mach_audio.Prelude.{
  if◌then◌else◌, length, take, length-take, ℤ, u64, ℕ, ◌+◌, ◌*◌, ◌/◌, ◌≤◌, ◌<◌, ◌≡◌, refl, sym, ap,
  ◌∙◌, Bool, true, false, not, some, List, arith, ◌==◌,
}
use mach_audio.Arena.{Arena, alloc}
use mach_audio.Protocol.{AudioStartPayload}
use mach_audio.Protocol.Bytes.{AreBytes}
use mach_audio.Simd.{Avx2}
use mach_audio.Transcode.{
  Dsp, TranscodeSession, codec_l16, configured, endian_big, endian_little, is_host_little_endian,
  needs_swap,
}
use mach_audio.Transcode.Decode.{decode_l16, in_data, swap_endian_l16}
use mach_audio.Transcode.Hoare.{length-bytes_of, length-samples_of}
use mach_audio.Transcode.Memory.{
  Run, ◌>>=◌, ◌>>◌, >>=-ok, AreBytes-take, M, State, alloc_or_fail, bytes_of, bytes_of-samples_of,
  load, load_samples, ok, samples_of, slice, store, store_samples,
}
use mach_audio.Transcode.Pipeline.{deliver, encode_l16}
use mach_audio.Transcode.Endian.{
  swapped_if, length-swap, swap_of, read_in_order, write_in_order, samples_of-AreI16,
}
use mach_audio.Transcode.Endian.Stored.{
  patched, length-slice, take-whole, with_storage, stored, store_load, swapped_block, swap_or_not,
  deliver_lem,
}

-- Let a configuration ask for L16 input in a byte order. Let a session have an input channel and the
-- flag of that configuration for swapping its input, and let a buffer lie in the payload and consist
-- of bytes, with room for it in the arena. Then the decoder, on either kind of host, gives a block with
-- as many samples for each channel as the buffer has whole ones. The samples that it leaves there are
-- the buffer's, read in the order that the configuration declares: lowest byte first for
-- ENDIAN_LITTLE and highest byte first for ENDIAN_BIG.
pub decode_l16-samples_of :
    (d : Dsp) (m : Avx2) (le low_first : Bool) (config : AudioStartPayload) (t : TranscodeSession d)
    (payload : List ℕ) (s : State d) (p len start : ℕ) (a : Arena) (raw memory : List ℕ)
    → config.in_payload_type ≡ codec_l16
    → config.in_endian ≡ (if low_first then endian_little else endian_big)
    → t.swap_in ≡ (configured d le config).swap_in
    → 0 < t.in_channels
    → alloc s.arena (u64 len) ≡ (some start, a)
    → slice payload p len ≡ some raw
    → AreBytes raw
    → a.buf ≡ some memory
    → start + len ≤ length memory
    → let n = len / (2 * t.in_channels) in
      (after : State d) × (decode_l16 d m le payload t p len s ≡ ok (start, n) after)
      × (load_samples d le start (n * t.in_channels) after
          ≡ ok (samples_of low_first (take (2 * (n * t.in_channels)) raw)) after)
unfolding decode_l16 configured
decode_l16-samples_of d m le low_first config t payload s p len start a raw memory codec order
      flagged some_in e b are held room =
    let one =
      store_load d le s1 start count raw memory held (omega (arith, size, room))
        (omega (arith, size, few)) in
    let two =
      swap_or_not d le flag (with_storage d le s1 one.0) start count (start, n) one.0
        (take (2 * count) raw) refl (omega (arith, one.3, few, room))
        (omega (arith, length-take (2 * count) raw, size, few)) one.2 in
    (
      two.0,
      rw zero_test (
          >>=-ok (alloc_or_fail d len) stored_in s s1 start granted
          ∙ >>=-ok (in_data d m le payload p len) (written start) s1 s1 raw read_in
          ∙ >>=-ok (store d start raw) (λ _. swapped_block d le swap_in start count (start, n)) s1
              (with_storage d le s1 one.0) tt one.1
          ∙ ap (λ b. swapped_block d le b start count (start, n) (with_storage d le s1 one.0)) swaps
          ∙ two.1),
      two.2 ∙ ap (λ zs. ok zs two.0) ordered,
    )
  where
    n : ℕ
    n = len / (2 * t.in_channels)

    count : ℕ
    count = n * t.in_channels

    s1 : State d
    s1 = record s { arena = a }

    swap_in : Bool
    swap_in = t.swap_in

    written : ℕ → List ℕ → M (State d) (ℕ × ℕ)
    written buf bs = store d buf bs >> swapped_block d le swap_in buf count (buf, n)

    stored_in : ℕ → M (State d) (ℕ × ℕ)
    stored_in buf = in_data d m le payload p len >>= written buf

    flag : Bool
    flag = not (if le then low_first else not low_first)

    size : length raw ≡ len
    size = length-slice payload p len raw b

    few : 2 * count ≤ len
    few = omega (arith, mul-div-le len (2 * t.in_channels))

    zero_test : (t.in_channels == 0) ≡ false
    zero_test = ground arith

    granted : alloc_or_fail d len s ≡ ok start s1
    granted = unfold alloc_or_fail in ground arith

    read_in : in_data d m le payload p len s1 ≡ ok raw s1
    read_in = unfold in_data in ground arith

    swaps : t.swap_in ≡ flag
    swaps =
        flagged
        ∙ (λ i. needs_swap (is_host_little_endian le) (codec i) (order i))
        ∙ swap_of le low_first

    ordered :
        swapped_if flag (samples_of le (take (2 * count) raw))
        ≡ samples_of low_first (take (2 * count) raw)
    ordered = read_in_order le low_first (take (2 * count) raw) (AreBytes-take (2 * count) raw are)

-- Let a configuration ask for L16 output in a byte order, and let a session have the flag of that
-- configuration for swapping its output. Let a block of samples for each of its output channels lie in
-- the arena and consist of bytes, with room for as many at the start of the output. Then the encoder,
-- on either kind of host, leaves the block's samples, as the host reads them, at the start of the
-- output and the arena's offset behind them, in the order that the configuration declares: lowest byte
-- first for ENDIAN_LITTLE and highest byte first for ENDIAN_BIG.
pub encode_l16-bytes_of :
    (d : Dsp) (m : Avx2) (le low_first : Bool) (config : AudioStartPayload) (s : State d)
    (c0 from n : ℕ) (memory raw : List ℕ)
    → config.out_payload_type ≡ codec_l16
    → config.out_endian ≡ (if low_first then endian_little else endian_big)
    → s.session.swap_out ≡ (configured d le config).swap_out
    → s.arena.buf ≡ some memory
    → slice memory from (2 * (n * s.session.out_channels)) ≡ some raw
    → AreBytes raw
    → from + 2 * (n * s.session.out_channels) ≤ length memory
    → c0 + 2 * (n * s.session.out_channels) ≤ length memory
    → (after : State d) × (encode_l16 d m le c0 (from, n) s ≡ ok tt after)
      × (after.arena.curr ≡ c0 + 2 * (n * s.session.out_channels))
      × (load d c0 (2 * (n * s.session.out_channels)) after
          ≡ ok (bytes_of low_first (samples_of le raw)) after)
unfolding encode_l16 configured store_samples
encode_l16-bytes_of d m le low_first config s c0 from n memory raw codec order flagged held e are
      from_fits fits =
    written flag swaps (write_in_order le low_first zs (samples_of-AreI16 le raw are))
  where
    count : ℕ
    count = n * s.session.out_channels

    size : length raw ≡ 2 * count
    size = length-slice memory from (2 * count) raw e

    zs : List ℤ
    zs = samples_of le raw

    read : load_samples d le from count s ≡ ok (samples_of le raw) s
    read = unfold load_samples load in ground arith

    flag : Bool
    flag = not (if le then low_first else not low_first)

    swaps : s.session.swap_out ≡ flag
    swaps =
        flagged
        ∙ (λ i. needs_swap (is_host_little_endian le) (codec i) (order i))
        ∙ swap_of le low_first

    doubled : count * 2 ≡ 2 * count
    doubled = omega arith

    rest : M (State d) (Unit {0})
    rest = deliver d m le c0 from (count * 2)

    put : List ℤ → M (State d) (Unit {0})
    put samples = store_samples d le from (swap_endian_l16 samples) >> rest

    whole : Bool → Run (State d) (Unit {0})
    whole swap = (if swap then load_samples d le from count >>= put else rest) s

    written :
        (swap : Bool)
        → s.session.swap_out ≡ swap
        → bytes_of le (swapped_if swap zs) ≡ bytes_of low_first zs
        → (after : State d) × (encode_l16 d m le c0 (from, n) s ≡ ok tt after)
          × (after.arena.curr ≡ c0 + 2 * count)
          × (load d c0 (2 * count) after ≡ ok (bytes_of low_first zs) after)
    written false unswapped same =
        let r = deliver_lem d m le c0 from (2 * count) s memory raw held e fits in
        let kept : raw ≡ bytes_of low_first zs =
          sym (bytes_of-samples_of le count raw size are) ∙ same in
        (
          r.0,
          ap whole unswapped ∙ ap (λ k. deliver d m le c0 from k s) doubled ∙ r.1,
          r.2,
          r.3 ∙ ap (λ bs. ok bs r.0) kept,
        )
    written true swapped same =
        let new = bytes_of le (swap_endian_l16 zs) in
        let long : length new ≡ 2 * count = omega (
          arith,
          length-bytes_of le (swap_endian_l16 zs),
          length-swap zs,
          length-samples_of le count raw size,
        ) in
        let p =
          patched memory new from (2 * count) (omega (arith, long, from_fits))
            (omega (arith, long)) in
        let s1 : State d = with_storage d le s p.0 in
        let r =
          deliver_lem d m le c0 from (2 * count) s1 p.0 new refl
            (p.2 ∙ ap some (take-whole (2 * count) new long)) (omega (arith, p.3, fits)) in
        (
          r.0,
          ap whole swapped
              ∙ >>=-ok (load_samples d le from count) put s s zs read
              ∙ >>=-ok (store d from new) (λ _. rest) s s1 tt
                  (stored d le s from new memory p.0 held p.1)
              ∙ ap (λ k. deliver d m le c0 from k s1) doubled
              ∙ r.1,
          r.2,
          r.3 ∙ ap (λ bs. ok bs r.0) same,
        )
