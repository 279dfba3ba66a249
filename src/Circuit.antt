-- ===== src/Circuit.antt =====
-- One gate of a `QCircuit` (include/qcircuit.hpp): a target, controls, and a matrix for some values of them.
pub mod Matrix
pub mod Gate
pub mod Passing
pub mod Keys
pub mod Controls
pub mod MatrixAt
pub mod Tests
pub mod Cone
pub mod LightCone
