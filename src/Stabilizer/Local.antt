-- ===== src/Stabilizer/Local.antt =====
-- Gates on one and on two qubits as functions of the bits there, and what such a function must
-- satisfy for the gate to respect products and commutation (to be Clifford).
use qrack.Prelude.{
  ℕ, ◌+◌, ◌*◌, ◌%◌, ◌≡◌, arith, Bool, true, ◌&&◌, ◌==◌, ==_iff, xor, same, bit, bool_val, every,
  every_sound,
}
use qrack.Stabilizer.Row.{Row}
use qrack.Stabilizer.Pauli.{phase_at, clash}

-- The bits of a row at two qubits.
pub record Bits : Type 0 where
  pub xc : Bool
  pub zc : Bool
  pub xt : Bool
  pub zt : Bool

abbrev pub bits_at : ℕ → ℕ → Row → Bits
bits_at c t a = record { xc = bit a.x c; zc = bit a.z c; xt = bit a.x t; zt = bit a.z t }

abbrev pub xor_bits : Bits → Bits → Bits
xor_bits p q = record {
  xc = xor p.xc q.xc;
  zc = xor p.zc q.zc;
  xt = xor p.xt q.xt;
  zt = xor p.zt q.zt;
}

abbrev pub clash_bits : Bits → Bits → Bool
clash_bits p q = xor (clash p.xt p.zt q.xt q.zt) (clash p.xc p.zc q.xc q.zc)

abbrev pub phase_bits : Bits → Bits → ℕ
phase_bits p q = phase_at p.xt p.zt q.xt q.zt + phase_at p.xc p.zc q.xc q.zc

abbrev same_bits : Bits → Bits → Bool
same_bits p q = same p.xc q.xc && same p.zc q.zc && same p.xt q.xt && same p.zt q.zt

-- The new bits, and whether the sign changes.
pub record Local : Type 0 where
  pub bits : Bits → Bits
  pub flips : Bits → Bool

pub record IsClifford (g : Local) : Type 0 where
  pub clash_kept : (p q : Bits) → clash_bits (g.bits p) (g.bits q) ≡ clash_bits p q
  pub product_kept : (p q : Bits) → g.bits (xor_bits p q) ≡ xor_bits (g.bits p) (g.bits q)
  pub phase_kept :
      (p q : Bits)
      → (phase_bits (g.bits p) (g.bits q) + 2 * bool_val (g.flips p) + 2 * bool_val (g.flips q)) % 4
        ≡ (phase_bits p q + 2 * bool_val (g.flips (xor_bits p q))) % 4

every_bits : (Bits → Bool) → Bool
every_bits f =
    every λ a. every λ b. every λ c. every λ d. f (record { xc = a; zc = b; xt = c; zt = d })

every_bits_sound : (f : Bits → Bool) → every_bits f ≡ true → (p : Bits) → f p ≡ true
unfolding every_bits
every_bits_sound f h p =
    every_sound (λ d. f (record { xc = p.xc; zc = p.zc; xt = p.xt; zt = d }))
      (every_sound (λ c. every λ d. f (record { xc = p.xc; zc = p.zc; xt = c; zt = d }))
        (every_sound (λ b. every λ c. every λ d. f (record { xc = p.xc; zc = b; xt = c; zt = d }))
          (every_sound
            (λ a. every λ b. every λ c. every λ d. f (record { xc = a; zc = b; xt = c; zt = d })) h
            p.xc)
          p.zc)
        p.xt)
      p.zt

clifford_test : Local → Bits → Bits → Bool
clifford_test g p q =
    same (clash_bits (g.bits p) (g.bits q)) (clash_bits p q)
    && same_bits (g.bits (xor_bits p q)) (xor_bits (g.bits p) (g.bits q))
    && ((phase_bits (g.bits p) (g.bits q) + 2 * bool_val (g.flips p) + 2 * bool_val (g.flips q)) % 4
        == (phase_bits p q + 2 * bool_val (g.flips (xor_bits p q))) % 4)

-- All 256 pairs of bits pass the test.
unfoldable pub is_clifford : Local → Bool
unfolding clifford_test every_bits
is_clifford g = every_bits λ p. every_bits λ q. clifford_test g p q

and_true : (a b c : Bool) → (a && b && c) ≡ true → (a ≡ true) × (b ≡ true) × (c ≡ true)
and_true a b c h = ground arith

same→≡ : (a b : Bool) → same a b ≡ true → a ≡ b
same→≡ a b h = ground arith

same_bits→≡ : (p q : Bits) → same_bits p q ≡ true → p ≡ q
same_bits→≡ p q h = ground arith

pub is_clifford-IsClifford : (g : Local) → is_clifford g ≡ true → IsClifford g
is_clifford-IsClifford g h = record {
  clash_kept = λ p q. same→≡ _ _ (tests p q).0;
  product_kept = λ p q. same_bits→≡ _ _ (tests p q).1;
  phase_kept = λ p q. (==_iff _ _).0 (tests p q).2;
}
  where
    tests :
        (p q : Bits)
        → (same (clash_bits (g.bits p) (g.bits q)) (clash_bits p q) ≡ true)
          × (same_bits (g.bits (xor_bits p q)) (xor_bits (g.bits p) (g.bits q)) ≡ true)
          × (((phase_bits (g.bits p) (g.bits q)
                    + 2 * bool_val (g.flips p)
                    + 2 * bool_val (g.flips q))
                  % 4
                == (phase_bits p q + 2 * bool_val (g.flips (xor_bits p q))) % 4)
              ≡ true)
    tests p q = and_true _ _ _ (
        unfold clifford_test in
        (every_bits_sound (clifford_test g p)
          (every_bits_sound (λ p. every_bits (clifford_test g p)) (unfold is_clifford in h) p) q))
