-- ===== src/Client/Read/Growth.antt =====
-- The growth of the client's read buffer and of its latencies.
use mach_audio.Prelude.{
  ltb, leb, if◌then◌else◌, ltb→lt, lt→ltb, ltb→le, Bool-cases, length, length-append, u64, ℕ, zero,
  suc, ◌+◌, ◌*◌, ◌^◌, ◌≤◌, ◌<◌, ◌≡◌, refl, ap, inl, inr, Bool, true, false, ◌&&◌, List, [], ◌∷◌,
  ◌++◌, arith, ◌==◌,
}
use mach_audio.Client.{ClientConnection}
use mach_audio.Client.Read.{double_until, record_latency, room_for}

-- The recorded latencies fit their memory, which is at most twice as large, or 1024 places more.
pub record HasRoom (conn : ClientConnection) : Type 0 where
  pub fits : length conn.latencies ≤ conn.latencies_cap
  pub bounded : conn.latencies_cap ≤ 1024 + 2 * length conn.latencies

-- The doubling ends with room for all bytes, if it starts above 0 and below them, and twice their
-- number fits 64 bits.
pub double_until_fits :
    (fuel need size : ℕ)
    → need < 2 ^ 63
    → 0 < size
    → size < 2 ^ 64
    → need ≤ size + fuel
    → need ≤ double_until fuel need size
unfolding double_until
double_until_fits zero need size small positive bound enough = omega arith
double_until_fits (suc fuel) need size small positive bound enough =
    elim (Bool-cases (ltb size need)) [
      | inl short ↦
          (let below = ltb→lt size need short in
            let twice : u64 (size * 2) ≡ size * 2 = omega (arith, below) in
            rw short (
              double_until_fits fuel need (u64 (size * 2)) small (omega (arith, below, twice))
                (omega arith) (omega (arith, below, twice))))
      | inr enough_room ↦ rw enough_room (ltb→le size need enough_room)
    ]

abbrev new_places : ℕ → ℕ
new_places places = if places == 0 then 1024 else u64 (places * 2)

new_room :
    (count places : ℕ) (b : Bool)
    → b ≡ true
    → count ≤ places
    → places ≤ 1024 + 2 * count
    → count < 2 ^ 61
    → let grown = if leb places count && b then new_places places else places in
      (count < grown) × (grown ≤ 1024 + 2 * suc count)
new_room count places false e fits bounded few = absurd (cc)
new_room count places true e fits bounded few = ground arith

module _ (realloc_ok : ℕ → Bool) where
  -- The read buffer gets room for all bytes.
  pub room_for_fits :
      (need : ℕ) (conn : ClientConnection)
      → need < 2 ^ 63
      → conn.read_buf_cap < 2 ^ 64
      → need ≤ room_for realloc_ok need conn
  unfolding room_for
  room_for_fits need conn small fits = elim (Bool-cases (ltb conn.read_buf_cap need)) [
    | inl short ↦
        (let below = ltb→lt conn.read_buf_cap need short in
          rw short (
            double_until_fits need need _ small (start conn.read_buf_cap below)
              (size conn.read_buf_cap below) (omega arith)))
    | inr room ↦ rw room (ltb→le conn.read_buf_cap need room)
  ]
    where
      start : (cap : ℕ) → cap < need → 0 < (if cap == 0 then 8192 else u64 (cap * 2))
      start cap h = ground arith

      size : (cap : ℕ) → cap < need → (if cap == 0 then 8192 else u64 (cap * 2)) < 2 ^ 64
      size cap h = ground arith

  pub record_latency_lem :
      (duration_ns : ℕ) (conn : ClientConnection)
      → ((n : ℕ) → realloc_ok n ≡ true)
      → HasRoom conn
      → length conn.latencies < 2 ^ 61
      → ((record_latency realloc_ok duration_ns conn).latencies
          ≡ conn.latencies ++ duration_ns ∷ [])
        × HasRoom (record_latency realloc_ok duration_ns conn)
  unfolding record_latency
  record_latency_lem duration_ns conn memory room few =
      let count = length conn.latencies in
      let places = conn.latencies_cap in
      let answer = memory (u64 (new_places places * 8)) in
      let grown = new_room count places _ answer room.fits room.bounded few in
      let added : (record_latency realloc_ok duration_ns conn).latencies
          ≡ conn.latencies ++ duration_ns ∷ [] =
        if_true _ conn.latencies (ltb count _) (lt→ltb count _ grown.0) in
      let longer = length-append conn.latencies (duration_ns ∷ []) in
      (
        added,
        record {
          fits = omega (arith, ap length added, longer, grown.0);
          bounded = omega (arith, ap length added, longer, grown.1);
        },
      )
    where
      if_true : (x y : List ℕ) (b : Bool) → b ≡ true → (if b then x else y) ≡ x
      if_true x y true e = refl
      if_true x y false e = absurd (cc)
