-- ===== src/Prelude/Tables.antt =====
-- Facts about Booleans by their truth tables.
use mathlib.Core.Path.{◌≡◌}
use mathlib.Core.Bool.{Bool, true, false, ◌&&◌}
use native.Mathlib.Omega.{arith}

abbrev pub every : (Bool → Bool) → Bool
every p = p true && p false

pub every_sound : (p : Bool → Bool) → every p ≡ true → (b : Bool) → p b ≡ true
every_sound p h true = ground arith
every_sound p h false = ground arith
