-- ===== src/Engine/State.antt =====
-- The state of the engine, and what its operations are run with.
use qrack.Prelude.{ℕ, ◌≡◌, Bool, List, Option, none, some, length, get_or, replicate, Result, ok}
use qrack.Bits.Word.{pow2}
use qrack.Parallel.Order.{IsOrder}

-- The amplitudes are of any type `A`: the source's are complex numbers in floating point. The state
-- vector is `none` where the source's pointer is null, which stands for a vector of zeros.
pub record Engine (A : Type 0) : Type 0 where
  pub qubit_count : ℕ
  pub state_vec : Option (List A)

-- What an operation's run depends on besides the engine: the amplitude 0 and the change of sign, the
-- order in which the threads run a loop, and what an allocated vector holds.
pub record Runtime (A : Type 0) : Type 0 where
  pub zero_amp : A
  pub negate : A → A
  pub order : ℕ → List ℕ
  pub alloc : ℕ → List A

-- A loop runs every iteration once, and a vector has the length asked for.
pub record IsRuntime {A : Type 0} (rt : Runtime A) : Type 0 where
  pub ordered : (n : ℕ) → IsOrder n (rt.order n)
  pub allocated : (n : ℕ) → length (rt.alloc n) ≡ n

module _ {A : Type 0} (rt : Runtime A) where
  -- `stateVec->read(i)`.
  abbrev pub read : List A → ℕ → A
  read v i = get_or v i rt.zero_amp

  -- `nStateVec->clear()`.
  abbrev pub cleared : ℕ → List A
  cleared n = replicate n rt.zero_amp

-- `maxQPowerOcl`.
abbrev pub max_power : {A : Type 0} → Engine A → ℕ
max_power e = pow2 e.qubit_count

-- `CHECK_ZERO_SKIP()`, and the rest of the operation.
abbrev pub zero_skip : {A : Type 0} → Engine A → (List A → Engine A) → Engine A
zero_skip e f = elim e.state_vec [ none ↦ e | some v ↦ f v ]

-- `ResetStateVec(nStateVec)`.
abbrev pub reset_state_vec : {A : Type 0} → Engine A → List A → Engine A
reset_state_vec e v = record e { state_vec = some v }

-- The same for a check before others that throw.
abbrev pub zero_skip_result :
    {A : Type 0} → Engine A → (List A → Result (Engine A)) → Result (Engine A)
zero_skip_result e f = elim e.state_vec [ none ↦ ok e | some v ↦ f v ]

-- The operations of the same engine that measure, or work on single qubits, as the arithmetic calls
-- them.
pub record Calls (A : Type 0) : Type 0 where
  pub set_reg : ℕ → ℕ → ℕ → Engine A → Result (Engine A)
  pub m : ℕ → Engine A → Result (Bool × Engine A)
  pub x : ℕ → Engine A → Result (Engine A)
