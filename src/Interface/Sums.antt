-- ===== src/Interface/Sums.antt =====
-- `INC`, `INCDECC` and `CINC` of src/qinterface/arithmetic.cpp, which ripple the carries.
use qrack.Prelude.{
  ℕ, zero, suc, ◌+◌, ◌-◌, ◌/◌, ◌%◌, ◌^◌, ◌==◌, List, [], ◌∷◌, ◌++◌, take, drop, length, for_upto,
  if◌then◌else◌,
}
use qrack.BigInteger.Words.{word_power}
use qrack.Bits.Word.{pow2}
use qrack.Interface.Gates.{Gates, mac_invert}

-- The qubits of a register.
abbrev pub qubits : ℕ → ℕ → List ℕ
qubits start zero = []
qubits start (suc length) = start ∷ qubits (start + 1) length

-- The elements from index `a` up to index `b`.
abbrev pub slice : List ℕ → ℕ → ℕ → List ℕ
slice bits a b = take (b - a) (drop a bits)

-- The gates of a vector in turn.
unfoldable pub each : {S : Type 0} → (ℕ → S → S) → List ℕ → S → S
each gate [] s = s
each gate (q ∷ qs) s = each gate qs (gate q s)

module _ {S : Type 0} (g : Gates S) where
  unfoldable pub inc : ℕ → ℕ → ℕ → S → S
  inc to_add start length s =
      if length == 0
      then s
      else if length == 1
      then (if to_add % 2 == 0 then s else g.x start s)
      else for_upto length
          (λ i s.
            if to_add / 2 ^ i % 2 == 0
            then s
            else for_upto (length - 1 - i)
                (λ j s.
                  mac_invert g (slice (qubits start length) i (i + j + 1))
                    (start + (i + j + 1) % length) s)
                (g.x (start + i) s))
          s

  unfoldable pub incdecc : ℕ → ℕ → ℕ → ℕ → S → S
  incdecc to_add start length carry s =
      if length == 0
      then s
      else for_upto length
          (λ i s.
            if to_add / 2 ^ i % 2 == 0
            then s
            else for_upto (length - i)
                (λ j s.
                  mac_invert g (slice (qubits start length ++ carry ∷ []) i (i + j + 1))
                    (start + (if i + j + 1 == length then carry else (i + j + 1) % length)) s)
                (g.x (start + i) s))
          s

  unfoldable pub cinc : ℕ → ℕ → ℕ → List ℕ → S → S
  cinc to_add start len [] s = inc to_add start len s
  cinc to_add start len (c ∷ cs) s =
      let controls = c ∷ cs in
      if len == 0
      then s
      else if len == 1
      then (if to_add % 2 == 0 then s else g.mc_invert controls start s)
      else each g.x controls (
          for_upto len
            (λ i s.
              if to_add / 2 ^ i % 2 == 0
              then s
              else for_upto (len - 1 - i)
                  (λ j s.
                    mac_invert g (controls ++ qubits (start + i) (j + 1))
                      (start + (i + j + 1) % len) s)
                  (mac_invert g controls (start + i) s))
            (each g.x controls s))

  -- `DEC` and `CDEC`, QAlu's defaults.
  unfoldable pub dec : ℕ → ℕ → ℕ → S → S
  dec to_sub start length s = inc ((pow2 length + word_power - to_sub) % word_power) start length s

  unfoldable pub cdec : ℕ → ℕ → ℕ → List ℕ → S → S
  cdec to_sub start length controls s =
      cinc ((pow2 length + word_power - to_sub) % word_power) start length controls s
