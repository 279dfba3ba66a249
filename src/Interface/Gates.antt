-- ===== src/Interface/Gates.antt =====
-- The gates that a simulator has, and the defaults for the others (include/qinterface.hpp,
-- src/qinterface/gates.cpp).
use Prim.Native.Nat.{bit_and, bit_or, bit_xor}
use qrack.Prelude.{ℕ, zero, suc, ◌-◌, ◌==◌, Bool, List, [], ◌∷◌, ◌++◌, if◌then◌else◌}
use qrack.Integers.{log2_ocl}
use qrack.Bits.Word.{pow2}

-- The calls that a simulator of states `S` answers itself: `X`, `MCInvert` with both factors 1, and `M`
-- with its outcome.
pub record Gates (S : Type 0) : Type 0 where
  pub x : ℕ → S → S
  pub mc_invert : List ℕ → ℕ → S → S
  pub m : ℕ → S → Bool × S

-- `|` of the powers of the controls.
unfoldable pub mask_of : List ℕ → ℕ
mask_of [] = 0
mask_of (c ∷ cs) = bit_or (pow2 c) (mask_of cs)

module _ {S : Type 0} (g : Gates S) where
  -- The loop of `XMask`, with fuel.
  unfoldable pub x_mask_from : ℕ → ℕ → S → S
  x_mask_from zero mask s = s
  x_mask_from (suc fuel) mask s =
      let v = bit_and mask (mask - 1) in
      let rest = x_mask_from fuel v (g.x (log2_ocl (bit_xor mask v)) s) in
      if mask == 0 then s else rest

  unfoldable pub x_mask : ℕ → S → S
  x_mask mask s = x_mask_from 64 mask s

  unfoldable pub mac_wrapper : List ℕ → (List ℕ → S → S) → S → S
  mac_wrapper controls fn s =
      let mask = mask_of controls in x_mask mask (fn controls (x_mask mask s))

  unfoldable pub mac_invert : List ℕ → ℕ → S → S
  mac_invert controls target s = mac_wrapper controls (λ lc. g.mc_invert lc target) s

  unfoldable pub cnot : ℕ → ℕ → S → S
  cnot control target s = g.mc_invert (control ∷ []) target s

  unfoldable pub anti_cnot : ℕ → ℕ → S → S
  anti_cnot control target s = mac_invert (control ∷ []) target s

  unfoldable pub ccnot : ℕ → ℕ → ℕ → S → S
  ccnot control1 control2 target s = g.mc_invert (control1 ∷ control2 ∷ []) target s

  unfoldable pub anti_ccnot : ℕ → ℕ → ℕ → S → S
  anti_ccnot control1 control2 target s = mac_invert (control1 ∷ control2 ∷ []) target s

  unfoldable pub swap : ℕ → ℕ → S → S
  swap q1 q2 s = if q1 == q2 then s else cnot q1 q2 (cnot q2 q1 (cnot q1 q2 s))

  unfoldable pub cswap : List ℕ → ℕ → ℕ → S → S
  cswap [] q1 q2 s = swap q1 q2 s
  cswap (c ∷ cs) q1 q2 s =
      let controls = c ∷ cs in
      if q1 == q2
      then s
      else g.mc_invert (controls ++ q1 ∷ []) q2
          (g.mc_invert (controls ++ q2 ∷ []) q1 (g.mc_invert (controls ++ q1 ∷ []) q2 s))

  unfoldable pub anti_cswap : List ℕ → ℕ → ℕ → S → S
  anti_cswap controls q1 q2 s =
      let mask = mask_of controls in x_mask mask (cswap controls q1 q2 (x_mask mask s))

  unfoldable pub set_bit : ℕ → Bool → S → S
  set_bit qubit value s =
      let r = g.m qubit s in
      if value then (if r.0 then r.1 else g.x qubit r.1) else (if r.0 then g.x qubit r.1 else r.1)
