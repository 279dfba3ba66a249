-- ===== src/Stabilizer/Eliminate.antt =====
-- The swaps and products of `gaussian` keep the invariant.
use qrack.Prelude.{
  ℕ, ◌+◌, ◌*◌, ◌-◌, ◌%◌, ◌<◌, ◌≤◌, ◌≡◌, ◌≢◌, ◌∙◌, arith, Bool, true, false, ◌&&◌, ◌==◌,
  if◌then◌else◌, xor,
}
use qrack.Stabilizer.Row.{Row, mult_row}
use qrack.Stabilizer.Pauli.{anticommute, IsRow}
use qrack.Stabilizer.Product.{anticommute_comm, clifford-parity}
use qrack.Stabilizer.Tableau.{Tableau, row, set_row, row_swap, row_mult}
use qrack.Stabilizer.Gaussian.{eliminate}
use qrack.Stabilizer.Valid.{
  partners, IsTableau, IsValid, Keeps, make-Keeps, Keeps-symplectic, Keeps-real, row-set_row_in,
  set_row-IsTableau, row_mult-IsTableau, mult_if, mult_if-IsRow, anticommute-mult_if,
  anticommute-mult_if_both,
}

-- The pairs of two rows that are both multiplied by `p` and by `q` under tests.
gram_both :
    (n : ℕ) (b1 b2 d1 d2 : Bool) {a c p q : Row}
    → IsRow n a
    → IsRow n c
    → IsRow n p
    → IsRow n q
    → anticommute n (mult_if b1 n (mult_if b2 n a p) q) (mult_if d1 n (mult_if d2 n c p) q)
      ≡ xor
          (xor
            (xor
              (xor (anticommute n a c) (d2 && anticommute n a p))
              (b2 && xor (anticommute n p c) (d2 && anticommute n p p)))
            (d1 && xor (anticommute n a q) (b2 && anticommute n p q)))
          (b1 && xor (xor (anticommute n q c) (d2 && anticommute n q p)) (d1 && anticommute n q q))
gram_both n b1 b2 d1 d2 {a} {c} {p} {q} ha hc hp hq =
    anticommute-mult_if_both n b1 d1 (mult_if-IsRow n b2 ha hp) hq (mult_if-IsRow n d2 hc hp) hq
    ∙ ground (
      arith,
      anticommute-mult_if_both n b2 d2 ha hp hc hp,
      anticommute-mult_if n b2 ha hp q,
      anticommute_comm n q (mult_if d2 n c p),
      anticommute-mult_if n d2 hc hp q,
      anticommute_comm n q c,
      anticommute_comm n q p,
    )

module _ (n i k : ℕ) (hi : n ≤ i) (hk : n ≤ k) (ne : i ≢ k) (li : i < 2 * n) (lk : k < 2 * n) where
  elimination_partners :
      (j l : ℕ)
      → j < 2 * n
      → l < 2 * n
      → let P = partners n in
        let b1 = j == k in
        let b2 = j == i - n in
        let d1 = l == k in
        let d2 = l == i - n in
        let p = k - n in
        xor
          (xor
            (xor (xor (P j l) (d2 && P j p)) (b2 && xor (P p l) (d2 && P p p)))
            (d1 && xor (P j i) (b2 && P p i)))
          (b1 && xor (xor (P i l) (d2 && P i p)) (d1 && P i i))
        ≡ P j l
  elimination_partners j l hj hl = ground arith

module _ {s : Tableau} (v : IsValid s) (i k : ℕ) (hi : s.qubit_count ≤ i) (hk : s.qubit_count ≤ k)
    (ne : i ≢ k) (li : i < 2 * s.qubit_count) (lk : k < 2 * s.qubit_count) where
  abbrev n : ℕ
  n = s.qubit_count

  is_row_at : (j : ℕ) → j < 2 * n → IsRow n (row s j)
  is_row_at j h = v.shape.is_row j (omega arith)

  abbrev eliminated : ℕ → Row
  eliminated j = mult_if (j == k) n (mult_if (j == i - n) n (row s j) (row s (k - n))) (row s i)

  row-row_mult_both : (j : ℕ) → row (row_mult (i - n) (k - n) (row_mult k i s)) j ≡ eliminated j
  unfolding row_mult
  row-row_mult_both j = ground (
    arith,
    row-set_row_in (row_mult-IsTableau v.shape k i (omega arith)) (i - n) j
        (mult_row n (row (row_mult k i s) (i - n)) (row (row_mult k i s) (k - n))) (omega arith),
    row-set_row_in v.shape k j (mult_row n (row s k) (row s i)) (omega arith),
    row-set_row_in v.shape k (i - n) (mult_row n (row s k) (row s i)) (omega arith),
    row-set_row_in v.shape k (k - n) (mult_row n (row s k) (row s i)) (omega arith),
  )

  eliminated-symplectic :
      (j l : ℕ)
      → j < 2 * n
      → l < 2 * n
      → anticommute n (eliminated j) (eliminated l) ≡ partners n j l
  eliminated-symplectic j l hj hl =
      gram_both n (j == k) (j == i - n) (l == k) (l == i - n) (is_row_at j hj) (is_row_at l hl)
        (is_row_at (k - n) (omega arith)) (is_row_at i li)
      ∙ rw
          (
            v.symplectic j l hj hl,
            v.symplectic j (k - n) hj (omega arith),
            v.symplectic (k - n) l (omega arith) hl,
            v.symplectic (k - n) (k - n) (omega arith) (omega arith),
            v.symplectic j i hj li,
            v.symplectic (k - n) i (omega arith) li,
            v.symplectic i l li hl,
            v.symplectic i (k - n) li (omega arith),
            v.symplectic i i li li,
          )
          (elimination_partners n i k hi hk ne li lk j l hj hl)

  -- A product of two commuting rows with real signs has a real sign.
  eliminated-real : (j : ℕ) → j < 2 * n → (eliminated j).r % 2 ≡ 0
  unfolding mult_row
  eliminated-real j hj = ground (
    arith,
    v.real j hj,
    v.real k lk,
    v.real i li,
    v.real (i - n) (omega arith),
    v.real (k - n) (omega arith),
    v.symplectic k i lk li,
    v.symplectic (i - n) (k - n) (omega arith) (omega arith),
    clifford-parity n (row s k) (row s i),
    clifford-parity n (row s (i - n)) (row s (k - n)),
  )

  -- The two products of an elimination step keep the invariant.
  row_mult_both-IsValid : IsValid (row_mult (i - n) (k - n) (row_mult k i s))
  unfolding row_mult
  row_mult_both-IsValid = record {
    shape =
        row_mult-IsTableau (row_mult-IsTableau v.shape k i (omega arith)) (i - n) (k - n)
          (omega arith);
    symplectic = λ j l hj hl.
        rw (row-row_mult_both j, row-row_mult_both l) (eliminated-symplectic j l hj hl);
    real = λ j hj. rw (row-row_mult_both j) (eliminated-real j hj);
  }

pub eliminate-Keeps :
    (has : Row → Bool) (n i k : ℕ) {s : Tableau}
    → Keeps n s
    → n ≤ i
    → i < k
    → k < 2 * n
    → Keeps n (eliminate has i k s)
unfolding eliminate
eliminate-Keeps has n i k {s} h hi lt hk =
    elim (has (row s k))
      as (λ b.
        Keeps n
          (if b then row_mult (i - s.qubit_count) (k - s.qubit_count) (row_mult k i s) else s)) [
            | true ↦ record {
              valid =
                  row_mult_both-IsValid h.valid i k (omega arith) (omega arith) (omega arith)
                    (omega arith) (omega arith);
              count = unfold row_mult in h.count;
            }
            | false ↦ h
          ]

-- Where row `j` of the tableau comes from when two rows are swapped.
abbrev swapped : ℕ → ℕ → ℕ → ℕ
swapped i k j = if j == i then k else if j == k then i else j

row-row_swap :
    {s : Tableau} (v : IsTableau s) (i k j : ℕ)
    → i < 2 * s.qubit_count + 1
    → k < 2 * s.qubit_count + 1
    → row (row_swap i k s) j ≡ row s (swapped i k j)
unfolding row_swap
row-row_swap {s} v i k j hi hk = ground (
  arith,
  row-set_row_in (set_row-IsTableau v k hk (v.is_row i hi)) i j (row s k) hi,
  row-set_row_in v k j (row s i) hk,
)

pub row_swap-IsTableau :
    {s : Tableau} (v : IsTableau s) (i k : ℕ)
    → i < 2 * s.qubit_count + 1
    → k < 2 * s.qubit_count + 1
    → IsTableau (row_swap i k s)
unfolding row_swap
row_swap-IsTableau {s} v i k hi hk =
    elim (i == k)
      as (λ b. IsTableau (if b then s else set_row (set_row s k (row s i)) i (row s k))) [
        | true ↦ v
        | false ↦ set_row-IsTableau (set_row-IsTableau v k hk (v.is_row i hi)) i hi (v.is_row k hk)
      ]

row_swap-count : (i k : ℕ) (s : Tableau) → (row_swap i k s).qubit_count ≡ s.qubit_count
unfolding row_swap
row_swap-count i k s = ground arith

partners-swapped :
    (n i k j l : ℕ)
    → n ≤ i
    → n ≤ k
    → i < 2 * n
    → k < 2 * n
    → j < 2 * n
    → l < 2 * n
    → partners n (swapped i k (swapped (i - n) (k - n) j)) (swapped i k (swapped (i - n) (k - n) l))
      ≡ partners n j l
partners-swapped n i k j l hi hk li lk hj hl = ground arith

module _ {n : ℕ} {s : Tableau} (h : Keeps n s) (i k : ℕ) (hi : n ≤ i) (hk : n ≤ k) (li : i < 2 * n)
    (lk : k < 2 * n) where
  row-row_swap_both :
      (j : ℕ)
      → row (row_swap (i - n) (k - n) (row_swap i k s)) j
        ≡ row s (swapped i k (swapped (i - n) (k - n) j))
  row-row_swap_both j =
      let e = row_swap-count i k s in
      let c = h.count in
      row-row_swap (row_swap-IsTableau h.valid.shape i k (omega arith) (omega arith)) (i - n)
        (k - n) j (omega arith) (omega arith)
      ∙ row-row_swap h.valid.shape i k (swapped (i - n) (k - n) j) (omega arith) (omega arith)

  -- Swapping two stabilizers together with their destabilizers keeps the invariant.
  pub row_swap_both-Keeps : Keeps n (row_swap (i - n) (k - n) (row_swap i k s))
  row_swap_both-Keeps =
      let e = row_swap-count i k s in
      let c = h.count in
      make-Keeps (row_swap-count (i - n) (k - n) (row_swap i k s) ∙ e ∙ c)
        (row_swap-IsTableau (row_swap-IsTableau h.valid.shape i k (omega arith) (omega arith))
          (i - n) (k - n) (omega arith) (omega arith))
        (λ j l hj hl.
          rw (row-row_swap_both j, row-row_swap_both l)
            (Keeps-symplectic h (swapped i k (swapped (i - n) (k - n) j))
                (swapped i k (swapped (i - n) (k - n) l)) (ground arith) (ground arith)
              ∙ partners-swapped n i k j l hi hk li lk hj hl))
        (λ j hj.
          rw (row-row_swap_both j)
            (Keeps-real h (swapped i k (swapped (i - n) (k - n) j)) (ground arith)))
