-- ===== src/Keys/Laws.antt =====
-- The keys of a user, and the loop that draws a scalar.
use dhtdynamic_audit_strateg.Base.{
  ℕ, zero, suc, ◌+◌, ◌≤◌, ◌<◌, ◌≡◌, refl, ◌⊎◌, inl, inr, true, false, Option, none, some, length,
  arith, ◌==◌, if◌then◌else◌,
}
use dhtdynamic_audit_strateg.Exec.{random_failed, or_return}
use dhtdynamic_audit_strateg.Run.{Run, ended, thrown, out_of_fuel, Holds, Holds-if}
use dhtdynamic_audit_strateg.CoreLib.Crypto.{Sm9}
use dhtdynamic_audit_strateg.CoreLib.Random.{Randomness}
use dhtdynamic_audit_strateg.CoreLib.TagSet.{TagSets}
use dhtdynamic_audit_strateg.Messages.{Tag, PublicParams, PrivateParams, StageExt, KeyGenExt}
use dhtdynamic_audit_strateg.Keys.{
  nonzero_scalar, KeyPair, null_pair, other_pair, sm9bls_pair, KeyReason, GenerateKeysResult,
  refuse_keys, or_refuse, as_key_gen, generate_params, params_for, generate_keys, keys_generated,
  ext_required,
}

shift : (k i : ℕ) → k + suc i ≡ suc k + i
shift k i = omega arith

module _ ⦃sm9 : Sm9⦄ ⦃randomness : Randomness⦄ where
  open sm9 use {
    Scalar, G1, G2, is_zero, scalar_of_bytes, g1_generator, g1_mul, g2_from_scalar, g2_mul,
  }
  open randomness use {random_bytes}

  -- Where the pieces of random bytes from the k-th on have 32 bytes, the first `j` of them are the
  -- scalar zero and the next is not, the loop ends on any fuel above `j`, with that next scalar.
  pub nonzero_scalar_enough :
      (fuel k j : ℕ)
      → j < fuel
      → ((i : ℕ) → i ≤ j → length (random_bytes (k + i)) ≡ 32)
      → ((i : ℕ) → i < j → is_zero (scalar_of_bytes (random_bytes (k + i))) ≡ true)
      → is_zero (scalar_of_bytes (random_bytes (k + j))) ≡ false
      → nonzero_scalar fuel k ≡ ended (scalar_of_bytes (random_bytes (k + j)), suc (k + j))
  unfolding nonzero_scalar
  nonzero_scalar_enough zero k j lt sizes zeros last = absurd (omega arith)
  nonzero_scalar_enough (suc fuel) k zero lt sizes zeros last =
      let e : k + 0 ≡ k = omega arith in
      let size = rw e at (sizes 0 (omega arith)) in
      let last' = rw e at last in rw (e, size, last') refl
  nonzero_scalar_enough (suc fuel) k (suc j) lt sizes zeros last =
      let e : k + 0 ≡ k = omega arith in
      let size = rw e at (sizes 0 (omega arith)) in
      let first = rw e at (zeros 0 (omega arith)) in
      let rest =
        nonzero_scalar_enough fuel (suc k) j (omega arith)
          (λ i le. rw (← shift k i) (sizes (suc i) (omega arith)))
          (λ i less. rw (← shift k i) (zeros (suc i) (omega arith))) (rw (← shift k j) last) in
      rw (size, first, shift k j) rest

  abbrev pub IsNonzero : Scalar × ℕ → Type 0
  IsNonzero p = is_zero p.0 ≡ false

  pub nonzero_scalar_lem : (fuel k : ℕ) → Holds IsNonzero (nonzero_scalar fuel k)
  unfolding nonzero_scalar
  nonzero_scalar_lem zero k = tt
  nonzero_scalar_lem (suc fuel) k =
      Holds-if IsNonzero (length (random_bytes k) == 32)
        (if is_zero (scalar_of_bytes (random_bytes k))
          then nonzero_scalar fuel (suc k)
          else ended (scalar_of_bytes (random_bytes k), suc k))
        (thrown random_failed)
        (λ e.
          Holds-if IsNonzero (is_zero (scalar_of_bytes (random_bytes k)))
            (nonzero_scalar fuel (suc k)) (ended (scalar_of_bytes (random_bytes k), suc k))
            (λ z. nonzero_scalar_lem fuel (suc k)) (λ z. z))
        (λ e. tt)

  -- The keys of a user: y = [a]·g for a scalar a that is not zero, and g and u are multiples of the
  -- generators by scalars that are not zero.
  pub record IsKeys (result : GenerateKeysResult) : Type 0 where
    pub public_params : PublicParams
    pub private_params : PrivateParams
    pub r : Scalar
    pub r_prime : Scalar
    pub made : result ≡ record {
      ok = true;
      reason = keys_generated;
      public_params = some public_params;
      private_params = some private_params;
    }
    pub a_nonzero : is_zero private_params.a ≡ false
    pub r_nonzero : is_zero r ≡ false
    pub r_prime_nonzero : is_zero r_prime ≡ false
    pub g_random : public_params.g ≡ g2_from_scalar r
    pub y_commits : public_params.y ≡ g2_mul public_params.g private_params.a
    pub u_random : public_params.u ≡ g1_mul g1_generator r_prime

  abbrev pub IsKeysResult : GenerateKeysResult → Type 0
  IsKeysResult result = IsKeys result ⊎ ((reason : KeyReason) × (result ≡ refuse_keys reason))

  or_refuse-Holds :
      {A : Type 0} (P : A → Type 0) (reason : KeyReason) (m : Run A)
      (f : A → Run GenerateKeysResult)
      → Holds P m
      → ((a : A) → P a → Holds IsKeysResult (f a))
      → Holds IsKeysResult (or_refuse reason m f)
  or_refuse-Holds P reason (ended a) f h k = k a h
  or_refuse-Holds P reason (thrown e) f h k = inr (reason, refl)
  or_refuse-Holds P reason out_of_fuel f h k = tt

  generate_params-IsKeysResult :
      (fuel : ℕ) (sk : Scalar) (pk : G2) → Holds IsKeysResult (generate_params fuel sk pk)
  unfolding generate_params
  generate_params-IsKeysResult fuel sk pk =
      or_refuse-Holds IsNonzero _ (nonzero_scalar fuel 0) _ (nonzero_scalar_lem fuel 0) (λ a ha.
        or_refuse-Holds IsNonzero _ (nonzero_scalar fuel a.1) _ (nonzero_scalar_lem fuel a.1)
          (λ r hr.
            or_refuse-Holds IsNonzero _ (nonzero_scalar fuel r.1) _ (nonzero_scalar_lem fuel r.1)
              (λ r' hr'. inl (record {
                public_params = record {
                  pk = pk;
                  g = g2_from_scalar r.0;
                  y = g2_mul (g2_from_scalar r.0) a.0;
                  u = g1_mul g1_generator r'.0;
                };
                private_params = record { sk = sk; a = a.0 };
                r = r.0;
                r_prime = r'.0;
                made = refl;
                a_nonzero = ha;
                r_nonzero = hr;
                r_prime_nonzero = hr';
                g_random = refl;
                y_commits = refl;
                u_random = refl;
              }))))

  params_for-IsKeysResult : (fuel : ℕ) (pair : KeyPair) → Holds IsKeysResult (params_for fuel pair)
  params_for-IsKeysResult fuel null_pair = inr (_, refl)
  params_for-IsKeysResult fuel other_pair = inr (_, refl)
  params_for-IsKeysResult fuel (sm9bls_pair none public_key) = inr (_, refl)
  params_for-IsKeysResult fuel (sm9bls_pair (some sk) none) = inr (_, refl)
  params_for-IsKeysResult fuel (sm9bls_pair (some sk) (some pk)) =
      generate_params-IsKeysResult fuel sk pk

  keys_for :
      (fuel : ℕ) (pair : KeyPair) (o : Option KeyGenExt)
      → Holds IsKeysResult
          (or_return o (ended (refuse_keys ext_required)) (λ ext. params_for fuel pair))
  keys_for fuel pair none = inr (_, refl)
  keys_for fuel pair (some ext) = params_for-IsKeysResult fuel pair

  module _ ⦃tag_sets : TagSets (Tag G1)⦄ where
    -- Whenever the key stage returns, it returns a refusal with no parameters, or the keys of a user:
    -- y = [a]·g, and a and the scalars behind g and u are not zero.
    pub generate_keys-IsKeysResult :
        (fuel : ℕ) (pair : KeyPair) (ext : Option StageExt)
        → Holds IsKeysResult (generate_keys fuel pair ext)
    unfolding generate_keys
    generate_keys-IsKeysResult fuel pair ext = keys_for fuel pair (as_key_gen ext)
