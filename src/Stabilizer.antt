-- ===== src/Stabilizer.antt =====
-- `QStabilizer`, the CHP tableau (include/qstabilizer.hpp, src/qstabilizer.cpp).
pub mod Row
pub mod RowGates
pub mod Pauli
pub mod Product
pub mod Local
pub mod Acts
pub mod GateActs
pub mod Tableau
pub mod Gaussian
pub mod Amplitude
pub mod Gates
pub mod Measure
pub mod Valid
pub mod Eliminate
pub mod GaussianKeeps
pub mod Observable
pub mod GateKeeps
pub mod Collapse
pub mod MeasureKeeps
pub mod MeasureAgain
pub mod Separable
pub mod ScratchKeeps
pub mod CircuitKeeps
mod Tests
