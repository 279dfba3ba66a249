-- ===== src/Interface/Shifts.antt =====
-- Reversals, rotations and shifts of a register, and the setting and measuring of registers
-- (include/qinterface.hpp, src/qinterface/qinterface.cpp).
use Prim.Native.Nat.{bit_and, bit_or, bit_xor}
use qrack.Prelude.{
  ℕ, zero, suc, ◌+◌, ◌-◌, ◌/◌, ◌%◌, ◌^◌, ◌==◌, ◌&&◌, ◌||◌, leb, ltb, xor, for_upto, if◌then◌else◌,
}
use qrack.Bits.Word.{pow2}
use qrack.Interface.Gates.{Gates, swap, set_bit}

module _ {S : Type 0} (g : Gates S) where
  -- The loop of `Reverse`, with fuel.
  unfoldable pub reverse_from : ℕ → ℕ → ℕ → S → S
  reverse_from zero first last s = s
  reverse_from (suc fuel) first last s =
      let rest = reverse_from fuel (first + 1) (last - 1) (swap g first (last - 1) s) in
      if ltb 0 last && ltb first (last - 1) then rest else s

  unfoldable pub reverse : ℕ → ℕ → S → S
  reverse first last s = reverse_from last first last s

  unfoldable pub rol : ℕ → ℕ → ℕ → S → S
  rol shift start length s =
      let by = shift % length in
      let end = start + length in
      if ltb length 2
      then s
      else if by == 0
      then s
      else reverse (start + by) end (reverse start (start + by) (reverse start end s))

  unfoldable pub ror : ℕ → ℕ → ℕ → S → S
  ror shift start length s =
      let by = shift % length in
      let end = start + length in
      if ltb length 2
      then s
      else if by == 0
      then s
      else reverse start end (reverse start (start + by) (reverse (start + by) end s))

  -- `MReg`, with the register's value.
  unfoldable pub m_reg : ℕ → ℕ → S → ℕ × S
  m_reg start length s =
      for_upto length
        (λ bit (res, s).
          let r = g.m (start + bit) s in (if r.0 then bit_or res (pow2 bit) else res, r.1))
        (0, s)

  unfoldable pub set_permutation : ℕ → ℕ → S → S
  set_permutation qubit_count perm s =
      let r = m_reg 0 qubit_count s in
      for_upto qubit_count (λ i s. if bit_xor perm r.0 / 2 ^ i % 2 == 0 then s else g.x i s) r.1

  unfoldable pub set_reg : ℕ → ℕ → ℕ → ℕ → S → S
  set_reg qubit_count start length value s =
      let r = m_reg start length s in
      if length == 1
      then set_bit g start (value % 2 == 1) s
      else if start == 0 && length == qubit_count
      then set_permutation qubit_count value s
      else for_upto length
          (λ i s.
            if xor (bit_and (pow2 i) r.0 == 0) (bit_and (pow2 i) value == 0)
            then g.x (start + i) s
            else s)
          r.1

  unfoldable pub asl : ℕ → ℕ → ℕ → ℕ → S → S
  asl qubit_count shift start length s =
      let end = start + length in
      if length == 0 || shift == 0
      then s
      else if leb length shift
      then set_reg qubit_count start length 0 s
      else swap g (end - 1) (end - 2) (
          set_reg qubit_count start shift 0 (rol shift start length (swap g (end - 1) (end - 2) s)))

  unfoldable pub asr : ℕ → ℕ → ℕ → ℕ → S → S
  asr qubit_count shift start length s =
      let end = start + length in
      if length == 0 || shift == 0
      then s
      else if leb length shift
      then set_reg qubit_count start length 0 s
      else swap g (end - 1) (end - 2) (
          set_reg qubit_count (end - shift - 1) shift 0
            (ror shift start length (swap g (end - 1) (end - 2) s)))

  unfoldable pub lsl : ℕ → ℕ → ℕ → ℕ → S → S
  lsl qubit_count shift start length s =
      if length == 0 || shift == 0
      then s
      else if leb length shift
      then set_reg qubit_count start length 0 s
      else set_reg qubit_count start shift 0 (rol shift start length s)

  unfoldable pub lsr : ℕ → ℕ → ℕ → ℕ → S → S
  lsr qubit_count shift start length s =
      if length == 0 || shift == 0
      then s
      else if leb length shift
      then set_reg qubit_count start length 0 s
      else ror shift start length (set_reg qubit_count start shift 0 s)
