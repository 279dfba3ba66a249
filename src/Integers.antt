-- ===== src/Integers.antt =====
-- The integer functions of src/common/functions.cpp and include/common/qrack_functions.hpp that the
-- arithmetic of the engine uses, on 64-bit words.
pub mod Laws
use Prim.Native.Nat.{bit_and}
use qrack.Prelude.{ℕ, zero, suc, ◌+◌, ◌-◌, ◌*◌, ◌/◌, ◌%◌, ◌==◌, Bool, not, ◌&&◌, if◌then◌else◌}
use qrack.BigInteger.Words.{word_power}

-- `intPowOcl` of src/common/functions.cpp, with fuel for its depth.
unfoldable pub int_pow : ℕ → ℕ → ℕ → ℕ
int_pow zero base power = 1
int_pow (suc fuel) base power =
    let tmp = int_pow fuel base (power / 2) in
    let square = tmp * tmp % word_power in
    if power == 0
    then 1
    else if power == 1
    then base
    else if power % 2 == 1
    then square * base % word_power
    else square

-- The loop of `log2Ocl`, with fuel.
unfoldable pub log2_from : ℕ → ℕ → ℕ → ℕ
log2_from zero p pow = pow
log2_from (suc fuel) p pow =
    let rest = log2_from fuel (p / 2) (pow + 1) in if p == 0 then pow else rest

unfoldable pub log2_ocl : ℕ → ℕ
log2_ocl n = log2_from 64 (n / 2) 0

unfoldable pub is_power_of_two : ℕ → Bool
is_power_of_two x = not (x == 0) && bit_and x (x - 1) == 0
