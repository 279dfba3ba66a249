-- ===== src/Parallel/Order.antt =====
-- The loops `par_for`, `par_for_skip` and `par_for_mask`, for any order in which the threads run the
-- iterations.
use Prim.Native.Nat.{bit_and, bit_or}
use qrack.Prelude.{
  ℕ, zero, suc, ◌+◌, ◌-◌, ◌≡◌, ◌==◌, Bool, true, ◌&&◌, List, [], ◌∷◌, length, leb, ltb,
  if◌then◌else◌, get_or,
}
use qrack.Bits.Word.{shl, shr, complement}

-- How often `j` is in a list.
abbrev pub count : ℕ → List ℕ → ℕ
count j [] = 0
count j (k ∷ ks) = (if k == j then 1 else 0) + count j ks

-- The order in which the threads run the `n` iterations of a loop: each of them once.
abbrev pub IsOrder : ℕ → List ℕ → Type 0
IsOrder n js = (j : ℕ) → count j js ≡ (if ltb j n then 1 else 0)

-- The body at each iteration in turn.
unfoldable pub visit {ℓ} : {S : Type ℓ} → List ℕ → (ℕ → S → S) → S → S
visit [] body s = s
visit (j ∷ js) body s = visit js body (body j s)

-- The increment function of `par_for_skip`.
unfoldable pub skip_inc : ℕ → ℕ → ℕ → ℕ
skip_inc skip_mask mask_width i =
    let low_mask = skip_mask - 1 in
    if low_mask == 0
    then shl i mask_width
    else bit_or (bit_and i low_mask) (shl (bit_and i (complement low_mask)) mask_width)

-- `i` is pushed apart, one mask at a time.
unfoldable pub mask_inc : List ℕ → ℕ → ℕ
mask_inc [] i = i
mask_inc (mask ∷ masks) i =
    let low_mask = mask - 1 in
    let high_mask = complement (low_mask + mask) in
    mask_inc masks (bit_or (bit_and (shl i 1) high_mask) (bit_and i low_mask))

-- The test that every mask is one of the highest bits below `end`.
unfoldable pub only_low : ℕ → ℕ → List ℕ → ℕ → Bool
only_low end len masks zero = true
only_low end len masks (suc i) =
    get_or masks (len - i - 1) 0 == shr end (i + 1) && only_low end len masks i

-- `order n` is the order of the run of a loop of `n` iterations. A `begin` for which `begin + itemCount` wraps
-- is left out; the callers' loops begin at 0.
module _ {ℓ} {S : Type ℓ} (order : ℕ → List ℕ) where
  unfoldable pub par_for_inc : ℕ → ℕ → (ℕ → ℕ) → (ℕ → S → S) → S → S
  par_for_inc begin item_count inc fn s = visit (order item_count) (λ j s. fn (inc (begin + j)) s) s

  unfoldable pub par_for : ℕ → ℕ → (ℕ → S → S) → S → S
  par_for begin end fn s = par_for_inc begin (end - begin) (λ i. i) fn s

  unfoldable pub par_for_skip : ℕ → ℕ → ℕ → ℕ → (ℕ → S → S) → S → S
  par_for_skip begin end skip_mask mask_width fn s =
      if leb end (shl skip_mask mask_width)
      then par_for begin skip_mask fn s
      else par_for_inc begin (shr (end - begin) mask_width) (skip_inc skip_mask mask_width) fn s

  unfoldable pub par_for_mask : ℕ → ℕ → List ℕ → (ℕ → S → S) → S → S
  par_for_mask begin end mask_array fn s =
      let mask_len = length mask_array in
      if only_low end mask_len mask_array mask_len
      then par_for begin (shr end mask_len) fn s
      else par_for_inc begin (shr (end - begin) mask_len) (mask_inc mask_array) fn s
