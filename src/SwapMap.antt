-- ===== src/SwapMap.antt =====
-- `QubitSwapMap` (include/qubitswapmap.hpp): a map of qubits that is kept in place of swaps. A
-- permutation, which the code has as an integer, is the list of its bits, the lowest first.
mod Tests
use qrack.Prelude.{
  ℕ, zero, suc, ◌<◌, ◌≤◌, ◌≡◌, ◌==◌, refl, ap, sym, ◌∙◌, arith, Bool, true, false, ◌&&◌, List, [],
  ◌∷◌, ltb, if◌then◌else◌, get_or, set, bit, length, replicate, length-set, length-replicate,
  get_or-set, get_or-replicate, get_or_ext, for_upto, for_upto-steps,
}

pub record QubitSwapMap : Type 0 where
  pub swap_map : List ℕ

-- `swapMap[i]`.
abbrev pub entry : QubitSwapMap → ℕ → ℕ
entry m i = get_or m.swap_map i 0

abbrev pub size : QubitSwapMap → ℕ
size m = length m.swap_map

-- The constructor for `n` qubits.
unfoldable pub identity : ℕ → QubitSwapMap
identity n = record { swap_map = for_upto n (λ i m. set m i i) (replicate n 0) }

unfoldable pub swap_qubits : ℕ → ℕ → QubitSwapMap → QubitSwapMap
swap_qubits q1 q2 m = record { swap_map = set (set m.swap_map q1 (entry m q2)) q2 (entry m q1) }

-- `map`: bit `i` goes to bit `swapMap[i]`.
unfoldable pub map_bits : QubitSwapMap → List Bool → List Bool
map_bits m perm =
    for_upto (size m) (λ i r. if bit perm i then set r (entry m i) true else r)
      (replicate (size m) false)

-- `inverseMap`: bit `swapMap[i]` goes to bit `i`.
unfoldable pub inverse_map_bits : QubitSwapMap → List Bool → List Bool
inverse_map_bits m perm =
    for_upto (size m) (λ i r. if bit perm (entry m i) then set r i true else r)
      (replicate (size m) false)

-- The map is a permutation of the `n` qubits.
pub record IsPermutation (n : ℕ) (m : QubitSwapMap) : Type 0 where
  pub sized : size m ≡ n
  pub within : (i : ℕ) → i < n → entry m i < n
  pub distinct : (i j : ℕ) → i < n → j < n → entry m i ≡ entry m j → i ≡ j

identity_round :
    (n j : ℕ) (m : List ℕ)
    → j < n
    → (length m ≡ n) × ((i : ℕ) → i < j → get_or m i 0 ≡ i)
    → (length (set m j j) ≡ n) × ((i : ℕ) → i < suc j → get_or (set m j j) i 0 ≡ i)
identity_round n j m h p =
    (length-set m j j ∙ p.0, λ i k. ground (arith, get_or-set m j i j 0, p.0, p.1 i))

identity_steps : (n : ℕ) → (size (identity n) ≡ n) × ((i : ℕ) → i < n → entry (identity n) i ≡ i)
unfolding identity
identity_steps n =
    for_upto-steps (λ j m. (length m ≡ n) × ((i : ℕ) → i < j → get_or m i 0 ≡ i)) n
      (λ i m. set m i i) (replicate n 0) (identity_round n)
      (length-replicate n 0, λ i h. absurd (omega arith))

-- The map of the constructor is a permutation that leaves every qubit where it is.
pub identity-IsPermutation :
    (n : ℕ) → IsPermutation n (identity n) × ((i : ℕ) → i < n → entry (identity n) i ≡ i)
identity-IsPermutation n =
    let steps = identity_steps n in
    (
      record {
        sized = steps.0;
        within = λ i h. omega (arith, steps.1 i h);
        distinct = λ i j h k e. omega (arith, steps.1 i h, steps.1 j k);
      },
      steps.1,
    )

swap_entry :
    {n : ℕ} {m : QubitSwapMap}
    → IsPermutation n m
    → (q1 q2 i : ℕ) → q1 < n
    → q2 < n
    → entry (swap_qubits q1 q2 m) i
      ≡ (if q2 == i then entry m q1 else if q1 == i then entry m q2 else entry m i)
unfolding swap_qubits
swap_entry {n = n} {m = m} p q1 q2 i h k = ground (
  arith,
  p.sized,
  get_or-set (set m.swap_map q1 (entry m q2)) q2 i (entry m q1) 0,
  get_or-set m.swap_map q1 i (entry m q2) 0,
  length-set m.swap_map q1 (entry m q2),
)

swap_sized : (m : QubitSwapMap) (q1 q2 : ℕ) → size (swap_qubits q1 q2 m) ≡ size m
unfolding swap_qubits
swap_sized m q1 q2 =
    length-set (set m.swap_map q1 (entry m q2)) q2 (entry m q1)
    ∙ length-set m.swap_map q1 (entry m q2)

-- `swap` of two of the `n` qubits keeps the map a permutation.
pub swap_qubits-IsPermutation :
    {n : ℕ} {m : QubitSwapMap}
    → IsPermutation n m
    → (q1 q2 : ℕ) → q1 < n
    → q2 < n
    → IsPermutation n (swap_qubits q1 q2 m)
swap_qubits-IsPermutation {n = n} {m = m} p q1 q2 h k = record {
  sized = swap_sized m q1 q2 ∙ p.sized;
  within =
      λ i l. ground (arith, swap_entry p q1 q2 i h k, p.within q1 h, p.within q2 k, p.within i l);
  distinct = λ i j l r e. ground (
    arith,
    e,
    swap_entry p q1 q2 i h k,
    swap_entry p q1 q2 j h k,
    p.distinct q1 q2 h k,
    p.distinct i j l r,
    p.distinct q1 j h r,
    p.distinct q2 j k r,
    p.distinct i q1 l h,
    p.distinct i q2 l k,
  );
}

map_round :
    {n : ℕ} {m : QubitSwapMap}
    → IsPermutation n m
    → (perm : List Bool) (j : ℕ) (r : List Bool) → j < n
    → (length r ≡ n) × ((i : ℕ) → i < n → bit r (entry m i) ≡ (ltb i j && bit perm i))
    → (length (if bit perm j then set r (entry m j) true else r) ≡ n)
      × ((i : ℕ)
          → i < n
          → bit (if bit perm j then set r (entry m j) true else r) (entry m i)
            ≡ (ltb i (suc j) && bit perm i))
map_round {m = m} p perm j r h s = (
  ground (arith, s.0, length-set r (entry m j) true),
  λ i k. ground (
    arith,
    get_or-set r (entry m j) (entry m i) true false,
    p.distinct j i h k,
    p.within i k,
    s.0,
    s.1 i k,
  ),
)

map_steps :
    {n : ℕ} {m : QubitSwapMap}
    → IsPermutation n m
    → (perm : List Bool)
    → (length (map_bits m perm) ≡ n)
      × ((i : ℕ) → i < n → bit (map_bits m perm) (entry m i) ≡ (ltb i n && bit perm i))
unfolding map_bits
map_steps {n = n} {m = m} p perm =
    let steps =
      for_upto-steps
        (λ j r. (length r ≡ n) × ((i : ℕ) → i < n → bit r (entry m i) ≡ (ltb i j && bit perm i)))
        (size m) (λ i r. if bit perm i then set r (entry m i) true else r)
        (replicate (size m) false) (λ j r h s. map_round p perm j r (omega (arith, p.sized)) s)
        (
          length-replicate (size m) false ∙ p.sized,
          λ i h. ground (arith, get_or-replicate (size m) (entry m i) false),
        ) in
    (steps.0, λ i h. steps.1 i h ∙ ap (λ k. ltb i k && bit perm i) p.sized)

inverse_steps :
    {n : ℕ} {m : QubitSwapMap}
    → IsPermutation n m
    → (perm : List Bool)
    → (length (inverse_map_bits m perm) ≡ n)
      × ((i : ℕ) → bit (inverse_map_bits m perm) i ≡ (ltb i n && bit perm (entry m i)))
unfolding inverse_map_bits
inverse_steps {n = n} {m = m} p perm =
    let steps =
      for_upto-steps
        (λ j r. (length r ≡ n) × ((i : ℕ) → bit r i ≡ (ltb i j && bit perm (entry m i)))) (size m)
        (λ i r. if bit perm (entry m i) then set r i true else r) (replicate (size m) false)
        (λ j r h s. (
          ground (arith, s.0, length-set r j true),
          λ i. ground (arith, get_or-set r j i true false, s.0, s.1 i, p.sized, h),
        ))
        (
          length-replicate (size m) false ∙ p.sized,
          λ i. ground (arith, get_or-replicate (size m) i false),
        ) in
    (steps.0, λ i. steps.1 i ∙ ap (λ k. ltb i k && bit perm (entry m i)) p.sized)

bit_beyond : (xs : List Bool) (i : ℕ) → length xs ≤ i → bit xs i ≡ false
bit_beyond [] i h = refl
bit_beyond (x ∷ xs) zero h = absurd (omega arith)
bit_beyond (x ∷ xs) (suc i) h = bit_beyond xs i (omega arith)

-- `inverseMap` of a permutation's `map` is the permutation, for as many bits as there are qubits.
pub inverse_map_bits-map_bits :
    {n : ℕ} {m : QubitSwapMap}
    → IsPermutation n m
    → (perm : List Bool) → length perm ≡ n
    → inverse_map_bits m (map_bits m perm) ≡ perm
inverse_map_bits-map_bits {n = n} {m = m} p perm e =
    let there = map_steps p perm in
    let back = inverse_steps p (map_bits m perm) in
    get_or_ext false (inverse_map_bits m (map_bits m perm)) perm (back.0 ∙ sym e)
      (λ i. ground (arith, back.1 i, there.1 i, bit_beyond perm i, e))
