-- ===== src/Interface/Logic.antt =====
-- The logic gates of src/qinterface/logic.cpp.
use qrack.Prelude.{
  ℕ, ◌==◌, Bool, false, not, ◌&&◌, ◌||◌, if◌then◌else◌, Result, ok, err, invalid_argument, ◌>>=◌,
}
use qrack.Interface.Gates.{Gates, cnot, anti_cnot, ccnot, anti_ccnot, set_bit}

module _ {S : Type 0} (g : Gates S) where
  unfoldable pub and_gate : ℕ → ℕ → ℕ → S → Result S
  and_gate input1 input2 output s =
      if input1 == input2 && input2 == output
      then ok s
      else if input1 == output || input2 == output
      then err invalid_argument
      else if input1 == input2
      then ok (cnot g input1 output s)
      else ok (ccnot g input1 input2 output s)

  unfoldable pub or_gate : ℕ → ℕ → ℕ → S → Result S
  or_gate input1 input2 output s =
      if input1 == input2 && input2 == output
      then ok s
      else if input1 == output || input2 == output
      then err invalid_argument
      else if input1 == input2
      then ok (anti_cnot g input1 output (g.x output s))
      else ok (anti_ccnot g input1 input2 output (g.x output s))

  unfoldable pub xor_gate : ℕ → ℕ → ℕ → S → S
  xor_gate input1 input2 output s =
      if input1 == input2 && input2 == output
      then set_bit g output false s
      else if input1 == output
      then cnot g input2 output s
      else if input2 == output
      then cnot g input1 output s
      else cnot g input2 output (cnot g input1 output s)

  unfoldable pub nand_gate : ℕ → ℕ → ℕ → S → Result S
  nand_gate input1 input2 output s = and_gate input1 input2 output s >>= λ s. ok (g.x output s)

  unfoldable pub nor_gate : ℕ → ℕ → ℕ → S → Result S
  nor_gate input1 input2 output s = or_gate input1 input2 output s >>= λ s. ok (g.x output s)

  unfoldable pub xnor_gate : ℕ → ℕ → ℕ → S → S
  xnor_gate input1 input2 output s = g.x output (xor_gate input1 input2 output s)

  unfoldable pub cland : ℕ → Bool → ℕ → S → S
  cland input classical output s =
      if classical && not (input == output) then cnot g input output s else s

  unfoldable pub clor : ℕ → Bool → ℕ → S → S
  clor input classical output s =
      if classical then g.x output s else if not (input == output) then cnot g input output s else s

  unfoldable pub clxor : ℕ → Bool → ℕ → S → S
  clxor input classical output s =
      if not (input == output)
      then cnot g input output (if classical then g.x output s else s)
      else if classical
      then g.x output s
      else s

  unfoldable pub clnand : ℕ → Bool → ℕ → S → S
  clnand input classical output s = g.x output (cland input classical output s)

  unfoldable pub clnor : ℕ → Bool → ℕ → S → S
  clnor input classical output s = g.x output (clor input classical output s)

  unfoldable pub clxnor : ℕ → Bool → ℕ → S → S
  clxnor input classical output s = g.x output (clxor input classical output s)
