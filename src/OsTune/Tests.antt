-- ===== src/OsTune/Tests.antt =====
-- The governor's theorems at a concrete core.
use mach_audio.Prelude.{ℕ, false, List, [], ◌∷◌, arith}
use mach_audio.OsTune.{Saved}
use mach_audio.OsTune.Governor.{IsName}

-- "ab"
abbrev short_name : List ℕ
short_name = 97 ∷ 98 ∷ []

abbrev unset : Saved
unset = record { original = []; modified = false }

short_name-IsName : IsName short_name
short_name-IsName = (omega arith, omega arith, (omega arith, (omega arith, tt)))
