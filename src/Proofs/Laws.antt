-- ===== src/Proofs/Laws.antt =====
-- What the proof scheme relies on in the SM9BLS layer: a bilinear pairing.
use dhtdynamic_audit_strateg.Base.{◌≡◌, true, false, some}
use dhtdynamic_audit_strateg.CoreLib.Crypto.{Sm9}

module _ ⦃sm9 : Sm9⦄ where
  open sm9 use {
    Scalar, G1, G2, Gt, scalar_zero, scalar_mul, scalar_sum, g1_infinity, g1_is_infinity, g1_add,
    g1_mul, g2_is_infinity, g2_mul, gt_one, pairing, gt_pow, gt_mul, gt_eq,
  }

  -- The pairing `e` and the total operations behind those that report a failure. The pairing is
  -- known to be computed only away from the points at infinity.
  pub record Bilinear : Type 0 where
    pub e : G1 → G2 → Gt
    pub pow : Gt → Scalar → Gt
    pub mul : Gt → Gt → Gt
    pub times : Scalar → Scalar → Scalar
    pub pairing_some :
        (p : G1) (q : G2)
        → g1_is_infinity p ≡ false
        → g2_is_infinity q ≡ false
        → pairing p q ≡ some (e p q)
    pub pow_some : (x : Gt) (s : Scalar) → gt_pow x s ≡ some (pow x s)
    pub mul_some : (x y : Gt) → gt_mul x y ≡ some (mul x y)
    pub times_some : (s t : Scalar) → scalar_mul s t ≡ some (times s t)
    pub gt_eq_refl : (x : Gt) → gt_eq x x ≡ true
    -- The pairing.
    pub e_infinity : (q : G2) → e g1_infinity q ≡ gt_one
    pub e_add : (p p' : G1) (q : G2) → e (g1_add p p') q ≡ mul (e p q) (e p' q)
    pub e_mul_left : (p : G1) (q : G2) (s : Scalar) → e (g1_mul p s) q ≡ pow (e p q) s
    pub e_mul_right : (p : G1) (q : G2) (s : Scalar) → e p (g2_mul q s) ≡ pow (e p q) s
    -- The group of points, on which the scalars act.
    pub add_assoc : (p q r : G1) → g1_add (g1_add p q) r ≡ g1_add p (g1_add q r)
    pub add_comm : (p q : G1) → g1_add p q ≡ g1_add q p
    pub add_infinity : (p : G1) → g1_add p g1_infinity ≡ p
    pub mul_zero : (p : G1) → g1_mul p scalar_zero ≡ g1_infinity
    pub mul_sum :
        (p : G1) (s t : Scalar) → g1_mul p (scalar_sum s t) ≡ g1_add (g1_mul p s) (g1_mul p t)
    pub mul_add : (p q : G1) (s : Scalar) → g1_mul (g1_add p q) s ≡ g1_add (g1_mul p s) (g1_mul q s)
    pub mul_times : (p : G1) (s t : Scalar) → g1_mul p (times s t) ≡ g1_mul (g1_mul p t) s
    -- The target group.
    pub product_comm : (x y : Gt) → mul x y ≡ mul y x
