-- ===== src/Bits.antt =====
-- Machine words as native numbers: the binary digits of `&`, `|`, `^`, shifts and masks.
pub mod Step
pub mod Power
pub mod Test
pub mod Word
pub mod Field
