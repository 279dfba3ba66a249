-- ===== src/Engine.antt =====
-- `QEngineCPU` (include/qengine_cpu.hpp, src/qengine/arithmetic.cpp): the dense state vector and the
-- arithmetic on its indices.
pub mod State
pub mod Scatter
pub mod Targets
pub mod Two
pub mod Arithmetic
pub mod Index
pub mod Moves
pub mod Registers
pub mod Adding
pub mod Multiply
pub mod Modular
pub mod Memory
pub mod Bcd
pub mod FullAdd
pub mod Alu
pub mod Pair
pub mod Carry
pub mod Product
pub mod Flip
mod Tests
