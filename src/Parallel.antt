-- ===== src/Parallel.antt =====
-- The loops of `ParallelFor` (include/common/parallel_for.hpp, src/common/parallel_for.cpp).
pub mod Order
pub mod Threads
pub mod Coverage
pub mod Schedule
pub mod Expand
pub mod Skip
mod Tests
