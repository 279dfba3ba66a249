-- ===== src/Interface/Agree.antt =====
-- The default `INC` and `QEngineCPU::INC`, and `DEC` after `INC`.
use native.Mathlib.Nat.{mod-lt, mod-eq_of_lt, add-mod-mod, mod-add-mod, mod_self}
use qrack.Prelude.{ℕ, ◌+◌, ◌-◌, ◌%◌, ◌^◌, ◌<◌, ◌≤◌, ◌≡◌, sym, ap, ◌∙◌, arith, List, length, ok}
use qrack.Bits.Power.{power_pos}
use qrack.Bits.Field.{field_bound, with_field-bound}
use qrack.Bits.Word.{field}
use qrack.Engine.State.{Runtime, IsRuntime, read}
use qrack.Engine.Moves.{dense}
use qrack.Engine.Registers.{on_register, on_register_back}
use qrack.Engine.Adding.{added, inc-Moves}
use qrack.Engine.Arithmetic
use qrack.Interface.Gates.{Gates}
use qrack.Interface.Basis.{IsLawful}
use qrack.Interface.Sums.{inc}
use qrack.Interface.Adding.{inc-adds}

-- Adding `a` and the rest of 2^length gives the value back.
pub added-added :
    (s l a b i : ℕ)
    → (a + b) % 2 ^ l ≡ 0
    → on_register s l (added l b) (on_register s l (added l a) i) ≡ i
added-added s l a b i e =
    let x = field s l i in
    on_register_back s l (added l a) (added l b) i (mod-lt _ (power_pos l)) (
      mod-add-mod (x + a) (2 ^ l) b
      ∙ ap (λ y. y % 2 ^ l) (omega arith)
      ∙ sym (add-mod-mod x (a + b) (2 ^ l))
      ∙ ap (λ y. (x + y) % 2 ^ l) e
      ∙ ap (λ y. y % 2 ^ l) (omega arith)
      ∙ mod-eq_of_lt (field_bound s l i))

-- The number whose addition takes back that of `a`.
abbrev pub opposite : ℕ → ℕ → ℕ
opposite l a = 2 ^ l - a % 2 ^ l

pub opposite-sum : (l a : ℕ) → (opposite l a + a) % 2 ^ l ≡ 0
opposite-sum l a =
    sym (add-mod-mod (opposite l a) a (2 ^ l))
    ∙ ap (λ y. y % 2 ^ l) {y = 2 ^ l} (omega (arith, mod-lt a (power_pos l)))
    ∙ mod_self (2 ^ l)

-- The default `INC`, on any simulator whose `X` and `MCInvert` are lawful, and `QEngineCPU::INC` agree:
-- from the same amplitudes they go to the same amplitudes, and the engine does not fail. Both have the
-- same number of qubits, fewer than 64, and the register is within them.
pub inc-inc :
    {n : ℕ} {S A : Type 0} (g : Gates S) (amp : S → ℕ → A) {rt : Runtime A}
    → IsLawful n g amp
    → IsRuntime rt
    → (a start l : ℕ) (v : List A) (s : S) → n < 64
    → length v ≡ 2 ^ n
    → start + l ≤ n
    → ((i : ℕ) → i < 2 ^ n → amp s i ≡ read rt v i)
    → (w : List A) × (Arithmetic.inc rt a start l (dense n v) ≡ ok (dense n w))
      × ((i : ℕ) → i < 2 ^ n → amp (inc g a start l s) i ≡ read rt w i)
inc-inc {n = n} g amp {rt = rt} law r a start l v s small e fits same =
    let (w, q, m) = inc-Moves r n a start l v small e fits in
    (
      w,
      q,
      λ i b.
          let j = on_register start l (added l (opposite l a)) i in
          let c : j < 2 ^ n = with_field-bound start l i n _ fits (mod-lt _ (power_pos l)) b in
          let back : on_register start l (added l a) j ≡ i =
            added-added start l (opposite l a) a i (opposite-sum l a) in
          ap (amp (inc g a start l s)) (sym back)
          ∙ (inc-adds g amp law a start l fits j s c).1
          ∙ same j c
          ∙ sym (m.moved j c)
          ∙ ap (read rt w) back,
    )
