-- ===== src/Stabilizer/Valid.antt =====
-- The invariant of the tableau, and the row operations against it.
use qrack.Prelude.{
  ℕ, ◌+◌, ◌*◌, ◌%◌, ◌<◌, ◌≡◌, ◌∙◌, arith, Bool, true, false, ◌&&◌, ◌||◌, length, ltb, ◌==◌,
  if◌then◌else◌, xor, length-set, get_or-set,
}
use qrack.Stabilizer.Row.{Row, blank_row, mult_row}
use qrack.Stabilizer.Pauli.{anticommute, IsRow}
use qrack.Stabilizer.Product.{mult_row-IsRow, anticommute-mult_row, anticommute_comm}
use qrack.Stabilizer.Tableau.{Tableau, row, set_row, row_mult}

-- The partner of a destabilizer is the stabilizer `n` rows below it.
abbrev pub partners : ℕ → ℕ → ℕ → Bool
partners n i j = i + n == j || j + n == i

-- 2n + 1 rows of n qubits.
pub record IsTableau (s : Tableau) : Type 0 where
  pub row_count : length s.rows ≡ 2 * s.qubit_count + 1
  pub is_row : (i : ℕ) → i < 2 * s.qubit_count + 1 → IsRow s.qubit_count (row s i)

-- A row anticommutes with its partner and commutes with every other, and all signs are real.
pub record IsValid (s : Tableau) : Type 0 where
  pub shape : IsTableau s
  pub symplectic :
      (i j : ℕ)
      → i < 2 * s.qubit_count
      → j < 2 * s.qubit_count
      → anticommute s.qubit_count (row s i) (row s j) ≡ partners s.qubit_count i j
  pub real : (i : ℕ) → i < 2 * s.qubit_count → (row s i).r % 2 ≡ 0

-- The invariant at a given number of qubits, as the loops carry it.
pub record Keeps (n : ℕ) (s : Tableau) : Type 0 where
  pub valid : IsValid s
  pub count : s.qubit_count ≡ n

pub Keeps-symplectic :
    {n : ℕ} {s : Tableau}
    → Keeps n s
    → (i j : ℕ) → i < 2 * n
    → j < 2 * n
    → anticommute n (row s i) (row s j) ≡ partners n i j
Keeps-symplectic {n} {s} h i j hi hj =
    let c = h.count in (simp c at (h.valid.symplectic i j (omega arith) (omega arith)))

pub Keeps-real : {n : ℕ} {s : Tableau} → Keeps n s → (i : ℕ) → i < 2 * n → (row s i).r % 2 ≡ 0
Keeps-real h i hi = let c = h.count in h.valid.real i (omega arith)

pub keeps_row : {n : ℕ} {s : Tableau} → Keeps n s → (i : ℕ) → i < 2 * n + 1 → IsRow n (row s i)
keeps_row {n} {s} h i hi = let c = h.count in (simp c at (h.valid.shape.is_row i (omega arith)))

pub make-Keeps :
    {n : ℕ} {s : Tableau}
    → s.qubit_count ≡ n
    → IsTableau s
    → ((i j : ℕ) → i < 2 * n → j < 2 * n → anticommute n (row s i) (row s j) ≡ partners n i j)
    → ((i : ℕ) → i < 2 * n → (row s i).r % 2 ≡ 0)
    → Keeps n s
make-Keeps {n} {s} c t p r = record {
  valid = record {
    shape = t;
    symplectic = λ i j hi hj. simp c (p i j (omega arith) (omega arith));
    real = λ i hi. r i (omega arith);
  };
  count = c;
}

pub row-set_row :
    (s : Tableau) (i j : ℕ) (a : Row)
    → row (set_row s i a) j ≡ (if i == j && ltb i (length s.rows) then a else row s j)
row-set_row s i j a = get_or-set s.rows i j a (blank_row 0)

module _ {s : Tableau} (v : IsTableau s) where
  pub row-set_row_in :
      (i j : ℕ) (a : Row)
      → i < 2 * s.qubit_count + 1
      → row (set_row s i a) j ≡ (if i == j then a else row s j)
  row-set_row_in i j a h = ground (arith, row-set_row s i j a, v.row_count)

  pub set_row-IsTableau :
      (i : ℕ) {a : Row}
      → i < 2 * s.qubit_count + 1
      → IsRow s.qubit_count a
      → IsTableau (set_row s i a)
  set_row-IsTableau i {a} h ha = record {
    row_count = length-set s.rows i a ∙ v.row_count;
    is_row = λ j q. rw (row-set_row_in i j a h) (choose (i == j) ha (v.is_row j q));
  }
    where
      choose :
          (b : Bool) {c : Row}
          → IsRow s.qubit_count a
          → IsRow s.qubit_count c
          → IsRow s.qubit_count (if b then a else c)
      choose true p q = p
      choose false p q = q

  pub row_mult-IsTableau : (i k : ℕ) → i < 2 * s.qubit_count + 1 → IsTableau (row_mult i k s)
  unfolding row_mult
  row_mult-IsTableau i k h =
      set_row-IsTableau i h (mult_row-IsRow s.qubit_count (row s k) (v.is_row i h))

-- The product with row `k`, under a test.
abbrev pub mult_if : Bool → ℕ → Row → Row → Row
mult_if b n a k = if b then mult_row n a k else a

module _ (n : ℕ) (b : Bool) {a k : Row} (ha : IsRow n a) (hk : IsRow n k) where
  pub mult_if-IsRow : IsRow n (mult_if b n a k)
  mult_if-IsRow = elim b as (λ c. IsRow n (mult_if c n a k)) [
    | true ↦ mult_row-IsRow n k ha
    | false ↦ ha
  ]

  pub anticommute-mult_if :
      (c : Row)
      → anticommute n (mult_if b n a k) c ≡ xor (anticommute n a c) (b && anticommute n k c)
  anticommute-mult_if c =
      elim b
        as (λ d.
          anticommute n (mult_if d n a k) c ≡ xor (anticommute n a c) (d && anticommute n k c)) [
            | true ↦ anticommute-mult_row n ha hk c
            | false ↦ ground arith
          ]

-- Two rows, each multiplied by another under a test: the pairs that then anticommute.
pub anticommute-mult_if_both :
    (n : ℕ) (b d : Bool) {a k c l : Row}
    → IsRow n a
    → IsRow n k
    → IsRow n c
    → IsRow n l
    → anticommute n (mult_if b n a k) (mult_if d n c l)
      ≡ xor
          (xor (anticommute n a c) (d && anticommute n a l))
          (b && xor (anticommute n k c) (d && anticommute n k l))
anticommute-mult_if_both n b d {a} {k} {c} {l} ha hk hc hl = ground (
  arith,
  anticommute-mult_if n b ha hk (mult_if d n c l),
  anticommute_comm n a (mult_if d n c l),
  anticommute_comm n k (mult_if d n c l),
  anticommute-mult_if n d hc hl a,
  anticommute-mult_if n d hc hl k,
  anticommute_comm n a c,
  anticommute_comm n a l,
  anticommute_comm n k c,
  anticommute_comm n k l,
)
