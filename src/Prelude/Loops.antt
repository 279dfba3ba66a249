-- ===== src/Prelude/Loops.antt =====
-- Counted loops.
use Prim.Native.Nat.{ℕ, zero, suc, ◌<◌}
use native.Mathlib.Omega.{arith}
use native.Mathlib.Nat.{le_refl}

-- `for (j = 0; j < n; ++j) s = body j s`.
unfoldable pub for_upto {ℓ} : {S : Type ℓ} → ℕ → (ℕ → S → S) → S → S
for_upto zero body s = s
for_upto (suc n) body s = body n (for_upto n body s)

-- What every round keeps holds at the end.
pub for_upto-inv {ℓ κ} :
    {S : Type ℓ} (P : S → Type κ) (n : ℕ) (body : ℕ → S → S) (s : S)
    → ((j : ℕ) (t : S) → j < n → P t → P (body j t))
    → P s
    → P (for_upto n body s)
unfolding for_upto
for_upto-inv P zero body s keep h = h
for_upto-inv P (suc n) body s keep h =
    keep n (for_upto n body s) (le_refl _)
      (for_upto-inv P n body s (λ j t p. keep j t (omega arith)) h)

-- The same for what a round takes from its index to the next.
pub for_upto-steps {ℓ κ} :
    {S : Type ℓ} (P : ℕ → S → Type κ) (n : ℕ) (body : ℕ → S → S) (s : S)
    → ((j : ℕ) (t : S) → j < n → P j t → P (suc j) (body j t))
    → P 0 s
    → P n (for_upto n body s)
unfolding for_upto
for_upto-steps P zero body s keep h = h
for_upto-steps P (suc n) body s keep h =
    keep n (for_upto n body s) (le_refl _)
      (for_upto-steps P n body s (λ j t p. keep j t (omega arith)) h)
