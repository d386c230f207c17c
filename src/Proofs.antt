-- ===== src/Proofs.antt =====
-- generate_proofs.cpp: the proof that a server gives, and the verifier's check of it.
pub mod Laws
pub mod Derivation
pub mod Completeness
pub mod Audit
pub mod Cycle
use dhtdynamic_audit_strateg.Base.{
  ℕ, ◌-◌, Bool, true, false, Option, none, some, List, [], ◌∷◌, String, str_eq, ◌==◌, if◌then◌else◌,
}
use dhtdynamic_audit_strateg.Exec.{or_return}
use dhtdynamic_audit_strateg.CoreLib.Crypto.{Sm9}
use dhtdynamic_audit_strateg.CoreLib.TagSet.{TagSets}
use dhtdynamic_audit_strateg.CoreLib.Serializer.{Serializer}
use dhtdynamic_audit_strateg.Common.{compute_block_hash, accumulate_block_segments_scalar}
use dhtdynamic_audit_strateg.Messages.{
  Tag, dht_tag, other_tag, AuditBlockSource, PublicParams, ChallengeItem, DhtChallenges, Challenges,
  dht_challenges, other_challenges, DhtProves, Proves, dht_proves, other_proves, ProveExt,
  VerifyExt, StageExt, prove_ext, verify_ext,
}

-- `std::dynamic_pointer_cast<DHTDynamicTag>`, and the tag's point.
abbrev pub sigma_in : {G : Type 0} → Tag G → Option G
sigma_in (dht_tag sigma) = some sigma
sigma_in other_tag = none

-- `if (newTheta) Theta.assign(*newTheta);`
abbrev pub assigned : {A : Type 0} → A → Option A → A
assigned old none = old
assigned old (some new) = new

-- The reasons that a verification gives, one for each text.
pub data Reason : Type 0 where
  no_challenges_or_proves wrong_types no_file_id no_public_params no_items : Reason
  pk_at_infinity theta_power_failed pairing_failed product_failed : Reason
  verified mismatch : Reason

module _ ⦃sm9 : Sm9⦄ ⦃tag_sets : TagSets (Tag sm9.G1)⦄ where
  open sm9 use {
    Scalar, G1, G2, Gt, scalar_zero, scalar_mul, scalar_sum, g1_is_infinity, gt_one, pairing,
    gt_pow, gt_mul,
  }
  open tag_sets use {Tags, tag_at}

  abbrev pub as_dht_challenges : Option Challenges → Option DhtChallenges
  as_dht_challenges (some (dht_challenges c)) = some c
  as_dht_challenges _ = none

  abbrev pub as_dht_proves : Option Proves → Option DhtProves
  as_dht_proves (some (dht_proves p)) = some p
  as_dht_proves _ = none

  abbrev pub as_prove_ext : Option StageExt → Option ProveExt
  as_prove_ext (some (prove_ext e)) = some e
  as_prove_ext _ = none

  abbrev pub as_verify_ext : Option StageExt → Option VerifyExt
  as_verify_ext (some (verify_ext e)) = some e
  as_verify_ext _ = none

  -- Θ, M and the flag that an item was accumulated.
  pub record Sums : Type 0 where
    pub theta : Gt
    pub m : Scalar
    pub accumulated : Bool

  abbrev pub add_weighted : Scalar → Option Scalar → Scalar
  add_weighted m none = m
  add_weighted m (some nu_m) = scalar_sum m nu_m

  -- The body of the loop. `idx` is not used where `blockIndex` is 0.
  unfoldable pub add_item : G2 → Tags → AuditBlockSource → Sums → ChallengeItem → Sums
  add_item g tags blocks sums item =
      let idx = item.block_index - 1 in
      if item.block_index == 0
      then sums
      else or_return (tag_at tags idx) sums λ tag. or_return (sigma_in tag) sums λ sigma.
        if g1_is_infinity sigma
        then sums
        else or_return (pairing sigma g) sums λ theta_ij.
          or_return (gt_pow theta_ij item.nu) sums λ theta_nu. record {
            theta = assigned sums.theta (gt_mul sums.theta theta_nu);
            m =
                add_weighted sums.m
                  (scalar_mul item.nu (accumulate_block_segments_scalar (blocks.block idx)));
            accumulated = true;
          }

  unfoldable pub add_items : G2 → Tags → AuditBlockSource → Sums → List ChallengeItem → Sums
  add_items g tags blocks sums [] = sums
  add_items g tags blocks sums (item ∷ items) =
      add_items g tags blocks (add_item g tags blocks sums item) items

  abbrev pub no_sums : Sums
  no_sums = record { theta = gt_one; m = scalar_zero; accumulated = false }

  pub record GenerateProofsRequest : Type 0 where
    pub ext : Option StageExt
    pub challenges : Option Challenges

  pub record GenerateProofsResult : Type 0 where
    pub proves : Option Proves
    pub ext : Option StageExt

  abbrev pub no_proofs : GenerateProofsResult
  no_proofs = record { proves = none; ext = none }

  -- Step 3 and the assembly.
  unfoldable pub assemble : G1 → G2 → Option StageExt → Sums → GenerateProofsResult
  assemble u r ext sums =
      if sums.accumulated
      then (or_return (pairing u r) no_proofs λ lambda. record {
        proves = some (
            dht_proves
              (record { theta = sums.theta; lambda = assigned lambda (gt_pow lambda sums.m) }));
        ext = ext;
      })
      else no_proofs

  abbrev pub prove_items :
      PublicParams
      → Tags
      → AuditBlockSource
      → G2
      → Option StageExt
      → List ChallengeItem
      → GenerateProofsResult
  prove_items params tags blocks r ext [] = no_proofs
  prove_items params tags blocks r ext (item ∷ items) =
      assemble params.u r ext (add_items params.g tags blocks no_sums (item ∷ items))

  unfoldable pub generate_proofs : GenerateProofsRequest → GenerateProofsResult
  generate_proofs input = or_return (as_prove_ext input.ext) no_proofs λ ext.
      or_return (as_dht_challenges input.challenges) no_proofs λ challenges.
        or_return ext.blocks no_proofs λ blocks. or_return ext.tags no_proofs λ tags.
          or_return ext.user_public_params no_proofs λ params.
            prove_items params tags blocks challenges.blind_point input.ext challenges.items

  pub record VerifyProofsRequest : Type 0 where
    pub ext : Option StageExt
    pub challenges : List (Option Challenges)
    pub proves : List (Option Proves)

  pub record VerifyProofsResult : Type 0 where
    pub ok : Bool
    pub reason : Reason
    pub ext : Option StageExt

  abbrev pub refused : Reason → VerifyProofsResult
  refused reason = record { ok = false; reason = reason; ext = none }

module _ ⦃sm9 : Sm9⦄ ⦃tag_sets : TagSets (Tag sm9.G1)⦄ ⦃serializer : Serializer⦄ where
  open sm9 use {
    Scalar, G1, G2, Gt, g1_infinity, g1_add, g1_mul, g2_is_infinity, pairing, gt_pow, gt_mul, gt_eq,
  }

  -- H = Σ [ν]·H₁, from the sum so far.
  unfoldable pub add_hashes : String → G1 → List ChallengeItem → G1
  add_hashes id h [] = h
  add_hashes id h (item ∷ items) =
      add_hashes id
        (g1_add h (g1_mul (compute_block_hash id item.block_index item.metadata) item.nu)) items

  unfoldable pub aggregate_hash : String → List ChallengeItem → G1
  unfolding add_hashes
  aggregate_hash id items = add_hashes id g1_infinity items

  -- Step 4.
  abbrev pub judged : Option StageExt → Bool → VerifyProofsResult
  judged ext equal = record { ok = equal; reason = if equal then verified else mismatch; ext = ext }

  -- Steps 1 to 4: `hAccumulated` is set, since there is an item.
  unfoldable pub check_equation :
      String → Option StageExt → DhtChallenges → DhtProves → VerifyProofsResult
  check_equation id ext challenges proves =
      or_return (gt_pow proves.theta challenges.blind_scalar) (refused theta_power_failed)
        λ theta_r.
          or_return (pairing (aggregate_hash id challenges.items) challenges.blind_point)
            (refused pairing_failed)
            λ e_h_r.
              or_return (gt_mul proves.lambda e_h_r) (refused product_failed)
                λ rhs. judged ext (gt_eq theta_r rhs)

  abbrev pub check_items :
      String
      → G2
      → Option StageExt
      → DhtChallenges
      → DhtProves
      → List ChallengeItem
      → VerifyProofsResult
  check_items id pk ext challenges proves [] = refused no_items
  check_items id pk ext challenges proves (item ∷ items) =
      if g2_is_infinity pk then refused pk_at_infinity else check_equation id ext challenges proves

  -- What follows when neither vector is empty.
  unfoldable pub verify_first :
      Option StageExt → Option Challenges → Option Proves → VerifyProofsResult
  verify_first input_ext c p = or_return (as_verify_ext input_ext) (refused wrong_types) λ ext.
      or_return (as_dht_challenges c) (refused wrong_types) λ challenges.
        or_return (as_dht_proves p) (refused wrong_types) λ proves.
          if str_eq ext.file_id ""
          then refused no_file_id
          else or_return ext.user_public_params (refused no_public_params) λ params.
            check_items ext.file_id params.pk input_ext challenges proves challenges.items

  unfoldable pub verify_proofs : VerifyProofsRequest → VerifyProofsResult
  verify_proofs input = elim input.challenges [
    | [] ↦ refused no_challenges_or_proves
    | c ∷ cs ↦ elim input.proves [
      | [] ↦ refused no_challenges_or_proves
      | p ∷ ps ↦ verify_first input.ext c p
    ]
  ]
