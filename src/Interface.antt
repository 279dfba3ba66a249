-- ===== src/Interface.antt =====
-- The defaults of `QInterface` (include/qinterface.hpp, src/qinterface) that are sequences of gates.
pub mod Gates
pub mod Sums
pub mod Modular
pub mod Adders
pub mod Logic
pub mod Shifts
pub mod Basis
pub mod Masks
pub mod Lists
pub mod Ripple
pub mod Counting
pub mod Adding
pub mod Tests
pub mod Toggle
pub mod Controlled
pub mod Agree
pub mod Undo
pub mod Parts
pub mod Product
pub mod Multiplying
pub mod Adder
pub mod AdderBack
