-- ===== src/Prelude.antt =====
-- The names that every module shares: the libraries', passed on, and those of the children.
mod Tests
mod Lists
mod Loops
mod Sums
mod Tables
mod Results
pub use Tests.*
pub use Lists.*
unfoldable pub use Loops.{for_upto}
pub use Loops.{for_upto-inv, for_upto-steps}
unfoldable pub use Sums.{sum, xor_sum}
pub use Sums.{sum_congr, xor_sum_congr, sum_two, xor_sum_two, sum_one, xor_sum_one, xor_sum_single}
pub use Sums.{xor_sum-xor, xor_sum-false, sum-add, sum_mod_congr, sum_double, sum-parity}
pub use Tables.*
pub use Results.*
pub use Prim.Native.Nat.{ℕ, zero, suc, ◌+◌, ◌-◌, ◌*◌, ◌/◌, ◌%◌, ◌^◌, ◌≤◌, ◌<◌}
pub use mathlib.Core.Path.{◌≡◌, refl, sym, ap, ap₂, ◌∙◌, fun_ext}
pub use mathlib.Core.Logic.{◌≢◌, ◌↔◌, ◌⊎◌, inl, inr}
pub use mathlib.Core.Bool.{Bool, true, false, not, ◌&&◌, ◌||◌}
pub use mathlib.Core.Option.{Option, none, some}
pub use mathlib.Core.List.{List, [], ◌∷◌, ◌++◌, map}
pub use native.Mathlib.Omega.{arith}
