-- ===== src/Engine/Tests.antt =====
-- The theorems on the dense engine at concrete state vectors.
use qrack.Prelude.{
  ◌+◌, ltb, get_or-replicate, ℕ, zero, suc, ◌%◌, ◌^◌, ◌<◌, ◌≡◌, ◌≢◌, refl, arith, false, List, [],
  ◌∷◌, length-replicate, replicate, ok, ◌>>=◌, inl,
}
use qrack.Bits.Word.{field}
use qrack.Parallel.Threads.{from_to}
use qrack.Parallel.Schedule.{from_to-IsOrder}
use qrack.Engine.State.{Runtime, IsRuntime, Calls, read}
use qrack.Engine.Moves.{Moves, dense}
use qrack.Engine.Registers.{on_register, rotated, rol-Moves}
use qrack.Engine.Adding.{added, inc-Moves, inc-dec}
use qrack.Engine.Pair.{Pairs, on_pair}
use qrack.Engine.Carry.{carried, incdecc-Pairs}
use qrack.Engine.Product.{low_product, high_product, mul-Pairs, mul-div}
use qrack.Engine.Arithmetic.{rol, inc, dec, incdecc}
use qrack.Engine.Flip.{IsFlipped, phase_flip_if_less-IsFlipped}
use qrack.Engine.FullAdd.{phase_flip_if_less}
use qrack.Engine.Multiply.{mul, div}

-- Amplitudes that are numbers, loops in order, and vectors that hold 9 when they are allocated.
abbrev plain : Runtime ℕ
plain = record { zero_amp = 0; negate = λ a. a; order = from_to 0; alloc = λ n. replicate n 9 }

plain-IsRuntime : IsRuntime plain
plain-IsRuntime = record { ordered = from_to-IsOrder; allocated = λ n. length-replicate n 9 }

-- The same with a change of sign that shows.
abbrev doubling : Runtime ℕ
doubling = record plain { negate = λ a. a + a }

doubling-IsRuntime : IsRuntime doubling
doubling-IsRuntime = record { ordered = from_to-IsOrder; allocated = λ n. length-replicate n 9 }

-- Calls that leave the engine as it is.
abbrev still : Calls ℕ
still = record { set_reg = λ s l v e. ok e; m = λ q e. ok (false, e); x = λ q e. ok e }

abbrev eight : List ℕ
eight = 1 ∷ 2 ∷ 3 ∷ 4 ∷ 5 ∷ 6 ∷ 7 ∷ 8 ∷ []

-- Two registers of two bits, the second of them 0.
abbrev sixteen : List ℕ
sixteen = 1 ∷ 2 ∷ 3 ∷ 4 ∷ replicate 12 0

rol-Moves_example :
    Moves plain 3 (on_register 1 2 (rotated 2 (1 % 2))) eight (rol plain 1 1 2 (dense 3 eight))
rol-Moves_example = rol-Moves plain-IsRuntime 3 1 1 2 eight (omega arith) refl (omega arith)

inc-Moves_example :
    Moves plain 3 (on_register 1 2 (added 2 3)) eight (inc plain 3 1 2 (dense 3 eight))
inc-Moves_example = inc-Moves plain-IsRuntime 3 3 1 2 eight (omega arith) refl (omega arith)

inc-dec_example : (inc plain 3 1 2 (dense 3 eight) >>= dec plain 3 1 2) ≡ ok (dense 3 eight)
inc-dec_example =
    inc-dec plain-IsRuntime 3 3 1 2 eight (omega arith) refl (omega arith) (omega arith)

incdecc-Pairs_example :
    Pairs plain 3 2 1
      (on_pair 0 2 2 1 (added 2 (3 % 2 ^ 2)) (carried 2 (3 % 2 ^ 2)))
      eight
      (incdecc plain 3 0 2 2 (dense 3 eight))
incdecc-Pairs_example =
    incdecc-Pairs plain-IsRuntime 3 3 0 2 2 eight (omega arith) (omega arith) (omega arith)
      (inl (omega arith)) (omega arith)

mul-Pairs_example :
    Pairs plain 4 2 2
      (on_pair 0 2 2 2 (low_product 2 3) (high_product 2 3))
      sixteen
      (mul plain still 3 0 2 2 (dense 4 sixteen))
mul-Pairs_example =
    mul-Pairs still plain-IsRuntime 4 3 0 2 2 (omega arith) (omega arith) (omega arith)
      (inl (omega arith)) (omega arith) (omega arith) sixteen sixteen refl

sixteen-clear : (i : ℕ) → i < 2 ^ 4 → field 2 2 i ≢ 0 → read plain sixteen i ≡ 0
sixteen-clear zero b h = absurd (h refl)
sixteen-clear (suc zero) b h = absurd (h refl)
sixteen-clear (suc (suc zero)) b h = absurd (h refl)
sixteen-clear (suc (suc (suc zero))) b h = absurd (h refl)
sixteen-clear (suc (suc (suc (suc i)))) b h = get_or-replicate 12 i 0

mul-div_example :
    (mul plain still 3 0 2 2 (dense 4 sixteen) >>= div plain still 3 0 2 2) ≡ ok (dense 4 sixteen)
mul-div_example =
    mul-div still plain-IsRuntime 4 3 0 2 2 sixteen sixteen (omega arith) (omega arith)
      (omega arith) (inl (omega arith)) (omega arith) (omega arith) refl sixteen-clear refl

phase_flip_if_less-IsFlipped_example :
    (w : List ℕ) × (phase_flip_if_less doubling 2 1 2 (dense 3 eight) ≡ ok (dense 3 w))
    × IsFlipped doubling 3 (λ i. ltb (field 1 2 i) 2) eight w
phase_flip_if_less-IsFlipped_example =
    phase_flip_if_less-IsFlipped doubling-IsRuntime 3 2 1 2 eight (omega arith) refl (omega arith)
      (omega arith)
