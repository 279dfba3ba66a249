-- ===== src/Stabilizer/Amplitude.antt =====
-- `getBasisAmp`, and the walk over the basis states that `GetAmplitude` makes.
--
-- An amplitude is `nrm * i^power * e^(i phaseOffset)`: `nrm` is the same for all basis states and
-- the global phase is not modelled, so an amplitude is its power of `i`; `none` is zero.
use qrack.Prelude.{
  ℕ, zero, suc, ◌+◌, ◌-◌, ◌%◌, ◌^◌, ◌&&◌, Option, none, some, if◌then◌else◌, bit, for_upto, ◌==◌,
}
use Prim.Native.Nat.{bit_xor}
use qrack.Stabilizer.Row.{Row}
use qrack.Stabilizer.Tableau.{Tableau, elem_count, row, row_mult, bit_of}
use qrack.Stabilizer.Gaussian.{gaussian, seed}

pub record AmplitudeEntry : Type 0 where
  pub permutation : ℕ
  pub power : ℕ

-- The power of `i`: the scratch row's phase and one for each Y.
unfoldable pub amp_power : ℕ → Row → ℕ
amp_power n a = for_upto n (λ j e. if bit a.x j && bit a.z j then (e + 1) % 4 else e) a.r

-- `perm |= pow2(j)` for each X or Y, in increasing order of `j`.
unfoldable pub amp_permutation : ℕ → Row → ℕ
amp_permutation n a = for_upto n (λ j p. if bit a.x j then p + 2 ^ j else p) 0

unfoldable pub get_basis_amp : Tableau → AmplitudeEntry
get_basis_amp s =
    let a = row s (elem_count s.qubit_count) in
    record { permutation = amp_permutation s.qubit_count a; power = amp_power s.qubit_count a }

-- The body of the loop over `t`: generators n + i with bit `i` of `t ^ (t + 1)` are multiplied
-- into the scratch row.
unfoldable pub next_basis_state : ℕ → ℕ → Tableau → Tableau
next_basis_state g t s =
    let t2 = bit_xor t (t + 1) in
    for_upto g
      (λ i s. if bit_of t2 i then row_mult (elem_count s.qubit_count) (s.qubit_count + i) s else s)
      s

-- The loop from `t` on, with `rounds` rounds left.
unfoldable pub search_amplitude : ℕ → ℕ → ℕ → ℕ → Tableau → Option ℕ × Tableau
search_amplitude perm g zero t s = (none, s)
search_amplitude perm g (suc rounds) t s =
    let s1 = next_basis_state g t s in
    let entry = get_basis_amp s1 in
    let rest = search_amplitude perm g rounds (t + 1) s1 in
    if entry.permutation == perm then (some entry.power, s1) else rest

-- `GetAmplitude(perm)`. It runs `gaussian` and `seed` on the tableau.
unfoldable pub get_amplitude : ℕ → Tableau → Option ℕ × Tableau
get_amplitude perm s =
    let (g, s1) = gaussian s in
    let s2 = seed g s1 in
    let entry = get_basis_amp s2 in
    if entry.permutation == perm
    then (some entry.power, s2)
    else search_amplitude perm g (2 ^ g - 1) 0 s2
