-- ===== src/CoreLib/Crypto.antt =====
-- The interface of the SM9BLS layer (`ChordAuditMatrixLib/implementations/crypto/sm9_bls`): scalars
-- (`SM9CryptoData`, 32 bytes), points of G₁ and G₂, elements of the target group. An operation that
-- returns a pointer which the plugin tests for null, or a `bool` for success, is an `Option`.
use dhtdynamic_audit_strateg.Base.{ℕ, Bool, Option, List}

pub record Sm9 : Type 1 where
  pub Scalar : Type 0
  pub G1 : Type 0
  pub G2 : Type 0
  pub Gt : Type 0
  -- What the default constructors make, `SM9CryptoData(uint64_t(0))`, and 32 bytes.
  pub scalar_default : Scalar
  pub g1_default : G1
  pub g2_default : G2
  pub gt_default : Gt
  pub scalar_zero : Scalar
  pub scalar_of_bytes : List ℕ → Scalar
  pub is_zero : Scalar → Bool
  pub scalar_add : Scalar → Scalar → Option Scalar
  pub scalar_mul : Scalar → Scalar → Option Scalar
  -- `*(a + b)`: the pointer is followed with no test.
  pub scalar_sum : Scalar → Scalar → Scalar
  pub g1_generator : G1
  pub g1_infinity : G1
  pub g1_is_infinity : G1 → Bool
  pub g1_add : G1 → G1 → G1
  pub g1_sub : G1 → G1 → G1
  pub g1_mul : G1 → Scalar → G1
  pub g1_eq : G1 → G1 → Bool
  pub g2_is_infinity : G2 → Bool
  pub g2_mul : G2 → Scalar → G2
  pub g2_from_scalar : Scalar → G2
  pub gt_one : Gt
  pub pairing : G1 → G2 → Option Gt
  pub gt_pow : Gt → Scalar → Option Gt
  pub gt_mul : Gt → Gt → Option Gt
  pub gt_eq : Gt → Gt → Bool
  pub hash_to_curve : List ℕ → G1
  pub hash_to_scalar : List ℕ → Scalar
  pub hash_challenge : List ℕ → Scalar
