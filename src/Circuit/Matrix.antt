-- ===== src/Circuit/Matrix.antt =====
-- The amplitudes that a circuit's matrices have, and the tests of a matrix (include/qcircuit.hpp).
use qrack.Prelude.{Bool, ◌&&◌, ◌||◌}

-- The complex numbers of the build: `is_small` is the test of the norm against the code's tolerance.
pub record Numbers (A : Type 0) : Type 0 where
  pub nil : A
  pub one : A
  pub add : A → A → A
  pub sub : A → A → A
  pub times : A → A → A
  pub neg : A → A
  pub times_i : A → A
  pub is_small : A → Bool

pub record Matrix (A : Type 0) : Type 0 where
  pub p0 : A
  pub p1 : A
  pub p2 : A
  pub p3 : A

module _ {A : Type 0} (num : Numbers A) where
  unfoldable pub identity_matrix : Matrix A
  identity_matrix = record { p0 = num.one; p1 = num.nil; p2 = num.nil; p3 = num.one }

  unfoldable pub mul2x2 : Matrix A → Matrix A → Matrix A
  mul2x2 l r = record {
    p0 = num.add (num.times l.p0 r.p0) (num.times l.p1 r.p2);
    p1 = num.add (num.times l.p0 r.p1) (num.times l.p1 r.p3);
    p2 = num.add (num.times l.p2 r.p0) (num.times l.p3 r.p2);
    p3 = num.add (num.times l.p2 r.p1) (num.times l.p3 r.p3);
  }

  unfoldable pub is_same : A → A → Bool
  is_same a b = num.is_small (num.sub a b)

  unfoldable pub same_matrix : Matrix A → Matrix A → Bool
  same_matrix l h =
      is_same l.p0 h.p0 && (is_same l.p1 h.p1 && (is_same l.p2 h.p2 && is_same l.p3 h.p3))

  unfoldable pub is_identity_matrix : Matrix A → Bool
  is_identity_matrix p =
      num.is_small p.p1 && (num.is_small p.p2 && (is_same num.one p.p0 && is_same num.one p.p3))

  unfoldable pub is_phase_matrix : Matrix A → Bool
  is_phase_matrix p = num.is_small p.p1 && num.is_small p.p2

  unfoldable pub is_invert_matrix : Matrix A → Bool
  is_invert_matrix p = num.is_small p.p0 && num.is_small p.p3

  -- Whether two numbers differ by a power of i.
  unfoldable pub is_clifford_phase_invert : A → A → Bool
  is_clifford_phase_invert a b =
      is_same a b
      || (is_same a (num.neg b)
          || (is_same a (num.times_i b) || is_same a (num.neg (num.times_i b))))

  unfoldable pub is_clifford_matrix : Matrix A → Bool
  is_clifford_matrix p =
      is_phase_matrix p && is_clifford_phase_invert p.p0 p.p3
      || (is_invert_matrix p && is_clifford_phase_invert p.p1 p.p2
          || (is_clifford_phase_invert p.p0 p.p1
              && (is_clifford_phase_invert p.p0 p.p2 && is_clifford_phase_invert p.p0 p.p3)))
