-- ===== src/G711/Ladder.antt =====
-- Facts about the segment ladder and the bit fields that both encoders share.
use mathlib.Core.Path.{ap₂}
use mach_audio.Prelude.{
  ==_iff, holds_below, holds_at, ℤ, pos, floor_div, ℕ, ◌+◌, ◌-◌, ◌*◌, ◌/◌, ◌%◌, ◌^◌, ◌≤◌, ◌<◌,
  bit_or, bit_xor, ◌≡◌, refl, true, ◌&&◌, arith, ◌==◌,
}
use mach_audio.G711.{segment, nibble}

pub segment-lt : (v : ℤ) → segment v < 8
unfolding segment
segment-lt v = ground arith

pub nibble-lt : (v : ℤ) (k : ℕ) → nibble v k < 16
unfolding nibble
nibble-lt v k = omega arith

or_table : holds_below 8 (λ s. holds_below 16 (λ m. bit_or (s * 16) m == s * 16 + m)) ≡ true
unfolding holds_below
or_table = refl

pub bit_or-fields : (s m : ℕ) → s < 8 → m < 16 → bit_or (s * 16) m ≡ s * 16 + m
bit_or-fields s m hs hm = (==_iff _ _).0 (
    holds_at 16 (λ m. bit_or (s * 16) m == s * 16 + m) m
      (holds_at 8 (λ s. holds_below 16 (λ m. bit_or (s * 16) m == s * 16 + m)) s or_table hs) hm)

xor_table : holds_below 128 (λ c. (bit_xor c 0xFF == 255 - c) && (bit_xor c 0x7F == 127 - c)) ≡ true
unfolding holds_below
xor_table = refl

pub bit_xor-masks : (c : ℕ) → c < 128 → (bit_xor c 0xFF ≡ 255 - c) × (bit_xor c 0x7F ≡ 127 - c)
bit_xor-masks c h = ground (
  arith,
  holds_at 128 (λ c. (bit_xor c 0xFF == 255 - c) && (bit_xor c 0x7F == 127 - c)) c xor_table h,
)

-- The middle of the quantisation step of a biased magnitude `v`, and the step's width.
unfoldable pub step_middle : ℕ → ℕ → ℕ
step_middle s m = (2 * m + 33) * 2 ^ s * 4

-- A magnitude lies in its step: it differs from the middle by at most half of the step, which is
-- at most 1/32 of it.
pub step_bounds :
    (v : ℕ)
    → 128 ≤ v
    → v < 32768
    → let s = segment (pos v) in
      let mid = step_middle s (nibble (pos v) (s + 3)) in (32 * mid ≤ 33 * v) × (31 * v ≤ 32 * mid)
unfolding segment nibble floor_div step_middle
step_bounds v lo hi = ground arith

pub middle_of_code :
    (s m : ℕ) → m < 16 → step_middle ((s * 16 + m) / 16) ((s * 16 + m) % 16) ≡ step_middle s m
middle_of_code s m h = ap₂ step_middle (omega arith) (omega arith)
