-- ===== src/BigInteger.antt =====
-- `BigInteger` (include/common/big_integer.hpp, src/common/big_integer.cpp): integers of a fixed
-- number of 64-bit words.
pub mod Words
pub mod Bitwise
pub mod Value
pub mod Addition
pub mod Compare
pub mod Shift
pub mod Digits
pub mod ShiftValue
pub mod Multiply
pub mod MultiplyValue
pub mod WordShift
pub mod Log
mod Tests
