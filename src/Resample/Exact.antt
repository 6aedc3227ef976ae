-- ===== src/Resample/Exact.antt =====
-- Fractions in the place of doubles: the operations of `Doubles`, without rounding.
use mach_audio.Prelude.{
  ℤ, pos, negsuc, ◌+ℤ◌, ◌-ℤ◌, ◌*ℤ◌, ltb_ℤ, floor_div, ℕ, suc, ◌*◌, ◌/◌, ◌^◌, refl,
}
use mach_audio.Resample.{Doubles}
use mach_audio.Resample.Upsample.{IsDoubles}

pub record Fraction : Type 0 where
  pub num : ℤ
  pub den : ℕ

abbrev times : ℤ → ℤ → ℤ
times (pos a) (pos b) = pos (a * b)
times a b = a *ℤ b

abbrev pub fraction : ℤ → Fraction
fraction z = record { num = z; den = 1 }

abbrev quotient : Fraction → Fraction → Fraction
quotient x y = over x y.num y.den
  where
    over : Fraction → ℤ → ℕ → Fraction
    over x (pos n) d = record { num = times x.num (pos d); den = x.den * n }
    over x (negsuc n) d = record { num = pos 0 -ℤ times x.num (pos d); den = x.den * suc n }

-- The number without its fraction.
abbrev whole : ℤ → ℕ → ℤ
whole (pos n) d = pos (n / d)
whole (negsuc n) d = pos 0 -ℤ pos (suc n / d)

abbrev pub exact : Doubles
exact = record {
  Double = Fraction;
  of_int = fraction;
  add = λ x y. record {
    num = times x.num (pos y.den) +ℤ times y.num (pos x.den);
    den = x.den * y.den;
  };
  sub = λ x y. record {
    num = times x.num (pos y.den) -ℤ times y.num (pos x.den);
    den = x.den * y.den;
  };
  mul = λ x y. record { num = times x.num y.num; den = x.den * y.den };
  div = quotient;
  less = λ x y. ltb_ℤ (times x.num (pos y.den)) (times y.num (pos x.den));
  floor = λ x. fraction (floor_div x.num x.den);
  ceil = λ x. fraction (pos 0 -ℤ floor_div (pos 0 -ℤ x.num) x.den);
  round = λ x. fraction (floor_div (times (pos 2) x.num +ℤ pos x.den) (2 * x.den));
  to_int = λ x. whole x.num x.den;
}

pub exact-IsDoubles : IsDoubles exact
exact-IsDoubles = record { phase_fits = λ n h. (n * 1 * 1024 / (1 * 2 ^ 32 * 1), refl) }
