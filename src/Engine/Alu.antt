-- ===== src/Engine/Alu.antt =====
-- The defaults of `QAlu` (src/qalu.cpp), which call the engine's operations.
use qrack.Prelude.{ℕ, ◌+◌, ◌-◌, ◌/◌, ◌%◌, ◌==◌, List, if◌then◌else◌, Result, ok, ◌>>=◌}
use qrack.BigInteger.Words.{word_power}
use qrack.Integers.{int_pow}
use qrack.Engine.State.{Engine, Runtime, Calls}
use qrack.Engine.Arithmetic.{less, cinc, incs, incdecc, incdecsc, incdecsc_overflow}
use qrack.Engine.Bcd.{incbcd, incdecbcdc}

module _ {A : Type 0} (rt : Runtime A) (calls : Calls A) where
  unfoldable pub cdec : ℕ → ℕ → ℕ → List ℕ → Engine A → Result (Engine A)
  cdec to_sub start length controls e = cinc rt (less length to_sub) start length controls e

  unfoldable pub decs : ℕ → ℕ → ℕ → ℕ → Engine A → Result (Engine A)
  decs to_sub start length overflow e = incs rt (less length to_sub) start length overflow e

  -- The carry in is measured, taken away, and added to the number.
  unfoldable pub with_carry :
      ℕ → ℕ → (ℕ → Engine A → Result (Engine A)) → Engine A → Result (Engine A)
  with_carry to_add carry op e = calls.m carry e >>= λ (has_carry, e1).
      if has_carry then calls.x carry e1 >>= op ((to_add + 1) % word_power) else op to_add e1

  -- The borrow in is the carry's complement.
  unfoldable pub with_borrow :
      ℕ → ℕ → (ℕ → Engine A → Result (Engine A)) → Engine A → Result (Engine A)
  with_borrow to_sub carry op e = calls.m carry e >>= λ (has_carry, e1).
      if has_carry then calls.x carry e1 >>= op to_sub else op ((to_sub + 1) % word_power) e1

  unfoldable pub incc : ℕ → ℕ → ℕ → ℕ → Engine A → Result (Engine A)
  incc to_add start length carry e =
      if length == 0 then ok e else with_carry to_add carry (λ a. incdecc rt a start length carry) e

  unfoldable pub decc : ℕ → ℕ → ℕ → ℕ → Engine A → Result (Engine A)
  decc to_sub start length carry e =
      with_borrow to_sub carry (λ b. incdecc rt (less length b) start length carry) e

  unfoldable pub incsc : ℕ → ℕ → ℕ → ℕ → Engine A → Result (Engine A)
  incsc to_add start length carry e =
      with_carry to_add carry (λ a. incdecsc rt a start length carry) e

  unfoldable pub decsc : ℕ → ℕ → ℕ → ℕ → Engine A → Result (Engine A)
  decsc to_sub start length carry e =
      with_borrow to_sub carry (λ b. incdecsc rt (less length b) start length carry) e

  unfoldable pub incsc_overflow : ℕ → ℕ → ℕ → ℕ → ℕ → Engine A → Result (Engine A)
  incsc_overflow to_add start length overflow carry e =
      with_carry to_add carry (λ a. incdecsc_overflow rt a start length overflow carry) e

  unfoldable pub decsc_overflow : ℕ → ℕ → ℕ → ℕ → ℕ → Engine A → Result (Engine A)
  decsc_overflow to_sub start length overflow carry e =
      with_borrow to_sub carry
        (λ b. incdecsc_overflow rt (less length b) start length overflow carry) e

  unfoldable pub decbcd : ℕ → ℕ → ℕ → Engine A → Result (Engine A)
  decbcd to_sub start length e =
      incbcd rt ((int_pow 64 10 (length / 4) + word_power - to_sub) % word_power) start length e

  unfoldable pub incbcdc : ℕ → ℕ → ℕ → ℕ → Engine A → Result (Engine A)
  incbcdc to_add start length carry e =
      with_carry to_add carry (λ a. incdecbcdc rt a start length carry) e

  unfoldable pub decbcdc : ℕ → ℕ → ℕ → ℕ → Engine A → Result (Engine A)
  decbcdc to_sub start length carry e =
      with_borrow to_sub carry
        (λ b.
          let max_val = int_pow 64 10 (length / 4) in
          incdecbcdc rt (max_val - b % max_val) start length carry)
        e
