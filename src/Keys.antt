-- ===== src/Keys.antt =====
-- generate_keys.cpp: the parameters of a user.
pub mod Laws
use dhtdynamic_audit_strateg.Base.{
  ℕ, zero, suc, Bool, true, false, Option, none, some, length, ◌==◌, if◌then◌else◌,
}
use dhtdynamic_audit_strateg.Exec.{random_failed, or_return}
use dhtdynamic_audit_strateg.Run.{Run, ended, thrown, out_of_fuel}
use dhtdynamic_audit_strateg.CoreLib.Crypto.{Sm9}
use dhtdynamic_audit_strateg.CoreLib.Random.{Randomness}
use dhtdynamic_audit_strateg.CoreLib.TagSet.{TagSets}
use dhtdynamic_audit_strateg.Messages.{
  Tag, PublicParams, PrivateParams, KeyGenExt, StageExt, key_gen_ext,
}

module _ ⦃sm9 : Sm9⦄ ⦃randomness : Randomness⦄ where
  open sm9 use {Scalar, is_zero, scalar_of_bytes}
  open randomness use {random_bytes}

  -- `do ... while (v.isZero())` from the k-th call of `generateRandom` on: the scalar, and the
  -- number of the next call. A piece of another size throws.
  unfoldable pub nonzero_scalar : ℕ → ℕ → Run (Scalar × ℕ)
  nonzero_scalar zero k = out_of_fuel
  nonzero_scalar (suc fuel) k =
      let v = scalar_of_bytes (random_bytes k) in
      let again = nonzero_scalar fuel (suc k) in
      if length (random_bytes k) == 32
      then (if is_zero v then again else ended (v, suc k))
      else thrown random_failed

-- The reasons of the result, one for each text.
pub data KeyReason : Type 0 where
  ext_required no_key_pair wrong_pair_type wrong_key_type : KeyReason
  no_scalar_a no_scalar_r no_scalar_r_prime keys_generated : KeyReason

module _ ⦃sm9 : Sm9⦄ where
  open sm9 use {Scalar, G1, G2, g1_generator, g1_mul, g2_from_scalar, g2_mul}

  -- What `generateKey` of the algorithm returns: a null pointer, a pair of another class, or a pair
  -- of SM9BLS, each of whose keys may be of another class.
  pub data KeyPair : Type 0 where
    null_pair other_pair : KeyPair
    sm9bls_pair : Option Scalar → Option G2 → KeyPair

  pub record GenerateKeysResult : Type 0 where
    pub ok : Bool
    pub reason : KeyReason
    pub public_params : Option PublicParams
    pub private_params : Option PrivateParams

  abbrev pub refuse_keys : KeyReason → GenerateKeysResult
  refuse_keys reason = record {
    ok = false;
    reason = reason;
    public_params = none;
    private_params = none;
  }

  -- The loops of this stage return a refusal where a random piece has another size.
  abbrev pub or_refuse :
      {A : Type 0} → KeyReason → Run A → (A → Run GenerateKeysResult) → Run GenerateKeysResult
  or_refuse reason (ended a) f = f a
  or_refuse reason (thrown e) f = ended (refuse_keys reason)
  or_refuse reason out_of_fuel f = out_of_fuel

  abbrev pub user_params : Scalar → G2 → Scalar → Scalar → Scalar → GenerateKeysResult
  user_params sk pk a r r_prime = record {
    ok = true;
    reason = keys_generated;
    public_params = some (record {
      pk = pk;
      g = g2_from_scalar r;
      y = g2_mul (g2_from_scalar r) a;
      u = g1_mul g1_generator r_prime;
    });
    private_params = some (record { sk = sk; a = a });
  }

  abbrev pub as_key_gen : ⦃tag_sets : TagSets (Tag G1)⦄ → Option StageExt → Option KeyGenExt
  as_key_gen (some (key_gen_ext e)) = some e
  as_key_gen _ = none

  module _ ⦃randomness : Randomness⦄ where
    -- Part B.
    unfoldable pub generate_params : ℕ → Scalar → G2 → Run GenerateKeysResult
    generate_params fuel sk pk = or_refuse no_scalar_a (nonzero_scalar fuel 0) λ a.
        or_refuse no_scalar_r (nonzero_scalar fuel a.1) λ r.
          or_refuse no_scalar_r_prime (nonzero_scalar fuel r.1)
            λ r_prime. ended (user_params sk pk a.0 r.0 r_prime.0)

    abbrev pub params_for : ℕ → KeyPair → Run GenerateKeysResult
    params_for fuel null_pair = ended (refuse_keys no_key_pair)
    params_for fuel other_pair = ended (refuse_keys wrong_pair_type)
    params_for fuel (sm9bls_pair private_key public_key) =
        or_return private_key (ended (refuse_keys wrong_key_type)) λ sk.
          or_return public_key (ended (refuse_keys wrong_key_type)) λ pk. generate_params fuel sk pk

    unfoldable pub generate_keys :
        ⦃tag_sets : TagSets (Tag G1)⦄ → ℕ → KeyPair → Option StageExt → Run GenerateKeysResult
    generate_keys fuel pair input_ext =
        or_return (as_key_gen input_ext) (ended (refuse_keys ext_required))
          λ ext. params_for fuel pair
