-- ===== src/Prelude/Words.antt =====
-- Machine words: casts by remainders, byte order, two's complement. A host is little-endian
-- (`true`) or big-endian (`false`); the network order of <arpa/inet.h> is big-endian.
use Prim.Native.Nat.{ℕ, ◌+◌, ◌-◌, ◌*◌, ◌/◌, ◌%◌, ◌^◌, ◌<◌}
use mathlib.Core.Path.{◌≡◌}
use mathlib.Core.Bool.{Bool, true, false}
use mathlib.Core.List.{List, [], ◌∷◌}
use native.Mathlib.Omega.{arith}
use mach_audio.Prelude.Tests.{ltb, if◌then◌else◌}
use mach_audio.Prelude.Int.{ℤ, pos, negsuc}

abbrev pub u8 : ℕ → ℕ
u8 x = x % 2 ^ 8

abbrev pub u16 : ℕ → ℕ
u16 x = x % 2 ^ 16

abbrev pub u32 : ℕ → ℕ
u32 x = x % 2 ^ 32

abbrev pub u64 : ℕ → ℕ
u64 x = x % 2 ^ 64

-- `x & ~(a - 1)` at a power of two `a`.
abbrev pub round_down : ℕ → ℕ → ℕ
round_down x a = x - x % a

-- Byte `i` of a word, counted from the low end.
abbrev pub byte_of : ℕ → ℕ → ℕ
byte_of x i = x / 256 ^ i % 256

-- The value of bytes in memory, read in the host's order.
unfoldable pub host_u16 : Bool → ℕ → ℕ → ℕ
host_u16 true b0 b1 = b0 + b1 * 256
host_u16 false b0 b1 = b0 * 256 + b1

unfoldable pub host_u32 : Bool → ℕ → ℕ → ℕ → ℕ → ℕ
host_u32 true b0 b1 b2 b3 = b0 + b1 * 256 + b2 * 65536 + b3 * 16777216
host_u32 false b0 b1 b2 b3 = b0 * 16777216 + b1 * 65536 + b2 * 256 + b3

-- The bytes of a word in memory, in the host's order.
unfoldable pub store_u16 : Bool → ℕ → List ℕ
store_u16 true x = byte_of x 0 ∷ byte_of x 1 ∷ []
store_u16 false x = byte_of x 1 ∷ byte_of x 0 ∷ []

unfoldable pub store_u32 : Bool → ℕ → List ℕ
store_u32 true x = byte_of x 0 ∷ byte_of x 1 ∷ byte_of x 2 ∷ byte_of x 3 ∷ []
store_u32 false x = byte_of x 3 ∷ byte_of x 2 ∷ byte_of x 1 ∷ byte_of x 0 ∷ []

-- `htons` and `ntohs` are one function, and so are `htonl` and `ntohl`.
unfoldable pub ntohs : Bool → ℕ → ℕ
ntohs true x = byte_of x 0 * 256 + byte_of x 1
ntohs false x = x

unfoldable pub ntohl : Bool → ℕ → ℕ
ntohl true x = byte_of x 0 * 16777216 + byte_of x 1 * 65536 + byte_of x 2 * 256 + byte_of x 3
ntohl false x = x

-- An int16_t by its bit pattern, and back; the second wraps.
abbrev pub to_i16 : ℕ → ℤ
to_i16 w = if ltb w 32768 then pos w else negsuc (65535 - w)

abbrev pub of_i16 : ℤ → ℕ
of_i16 (pos n) = n % 65536
of_i16 (negsuc n) = 65535 - n % 65536

-- The cast `(int16_t)`.
abbrev pub i16 : ℤ → ℤ
i16 z = to_i16 (of_i16 z)

abbrev pub IsI16 : ℤ → Type 0
IsI16 (pos n) = n < 32768
IsI16 (negsuc n) = n < 32768

-- Bytes in network order, read through the host's memory and `ntohs`, have their wire value.
pub ntohs-host_u16 :
    (le : Bool) (b0 b1 : ℕ) → b0 < 256 → b1 < 256 → ntohs le (host_u16 le b0 b1) ≡ b0 * 256 + b1
unfolding ntohs host_u16
ntohs-host_u16 true b0 b1 h0 h1 = omega arith
ntohs-host_u16 false b0 b1 h0 h1 = omega arith

pub ntohl-host_u32 :
    (le : Bool) (b0 b1 b2 b3 : ℕ)
    → b0 < 256
    → b1 < 256
    → b2 < 256
    → b3 < 256
    → ntohl le (host_u32 le b0 b1 b2 b3) ≡ b0 * 16777216 + b1 * 65536 + b2 * 256 + b3
unfolding ntohl host_u32
ntohl-host_u32 true b0 b1 b2 b3 h0 h1 h2 h3 = omega arith
ntohl-host_u32 false b0 b1 b2 b3 h0 h1 h2 h3 = omega arith
