-- ===== src/Proofs/Completeness.antt =====
-- The verifier on proofs of an honest prover, and on proofs of public values.
use dhtdynamic_audit_strateg.Base.{
  ◌≡◌, refl, ap, ◌∙◌, true, false, Option, some, List, [], ◌∷◌, String, str_eq,
}
use dhtdynamic_audit_strateg.CoreLib.Crypto.{Sm9}
use dhtdynamic_audit_strateg.CoreLib.TagSet.{TagSets}
use dhtdynamic_audit_strateg.CoreLib.Serializer.{Serializer}
use dhtdynamic_audit_strateg.Messages.{
  Tag, AuditBlockSource, PublicParams, ChallengeItem, DhtChallenges, dht_challenges, DhtProves,
  dht_proves, ProveExt, VerifyExt, StageExt, prove_ext, verify_ext,
}
use dhtdynamic_audit_strateg.Proofs.{
  Sums, no_sums, add_items, generate_proofs, assemble, aggregate_hash, check_equation, verify_first,
  verify_proofs, judged, GenerateProofsResult, VerifyProofsResult,
}
use dhtdynamic_audit_strateg.Proofs.Laws.{Bilinear}
use dhtdynamic_audit_strateg.Proofs.Derivation.{
  AllItemsTagged, next, add_items_cons, add_items-theta, add_items-accumulated, no_sums-theta,
  equation,
}

module _ ⦃sm9 : Sm9⦄ ⦃tag_sets : TagSets (Tag sm9.G1)⦄ ⦃serializer : Serializer⦄ where
  open sm9 use {
    Scalar, G1, G2, Gt, g1_infinity, g1_add, g1_mul, g1_is_infinity, g2_is_infinity, g2_mul, gt_one,
    pairing, gt_pow, gt_mul, gt_eq, scalar_zero,
  }
  open tag_sets use {Tags, tag_at}

  -- What the verifier is given: its extension is complete, there is an item, R = [r]·y, and no
  -- point that it pairs is at infinity.
  pub record IsVerifiable (ext : VerifyExt) (params : PublicParams) (c : DhtChallenges)
      : Type 0 where
    pub named : str_eq ext.file_id "" ≡ false
    pub with_params : ext.user_public_params ≡ some params
    pub pk_finite : g2_is_infinity params.pk ≡ false
    pub first : ChallengeItem
    pub others : List ChallengeItem
    pub items : c.items ≡ first ∷ others
    pub blind : c.blind_point ≡ g2_mul params.y c.blind_scalar
    pub blind_finite : g2_is_infinity c.blind_point ≡ false
    pub hash_finite : g1_is_infinity (aggregate_hash ext.file_id c.items) ≡ false

  abbrev pub verify_one : VerifyExt → DhtChallenges → DhtProves → VerifyProofsResult
  verify_one ext c p = verify_proofs (record {
    ext = some (verify_ext ext);
    challenges = some (dht_challenges c) ∷ [];
    proves = some (dht_proves p) ∷ [];
  })

  -- What the prover is given.
  pub record IsProvable (ext : ProveExt) (params : PublicParams) (a : Scalar) (id : String)
      (tags : Tags) (blocks : AuditBlockSource) (items : List ChallengeItem) : Type 0 where
    pub with_tags : ext.tags ≡ some tags
    pub with_blocks : ext.blocks ≡ some blocks
    pub with_params : ext.user_public_params ≡ some params
    pub key : params.y ≡ g2_mul params.g a
    pub g_finite : g2_is_infinity params.g ≡ false
    pub u_finite : g1_is_infinity params.u ≡ false
    pub tagged : AllItemsTagged params.u a id tags blocks items

  -- The prover returns a proof, and the verifier accepts it.
  pub record Accepted (prove : ProveExt) (verify : VerifyExt) (c : DhtChallenges) : Type 0 where
    pub proof : DhtProves
    pub proves :
        generate_proofs
          (record { ext = some (prove_ext prove); challenges = some (dht_challenges c) })
        ≡ record { proves = some (dht_proves proof); ext = some (prove_ext prove) }
    pub verifies : verify_one verify c proof ≡ judged (some (verify_ext verify)) true

module _ ⦃sm9 : Sm9⦄ ⦃tag_sets : TagSets (Tag sm9.G1)⦄ ⦃serializer : Serializer⦄
    (laws : Bilinear) where
  open sm9 use {
    Scalar, G1, G2, Gt, g1_infinity, g1_add, g1_mul, g1_is_infinity, g2_is_infinity, g2_mul, gt_one,
    pairing, gt_pow, gt_mul, gt_eq, scalar_zero,
  }
  open tag_sets use {Tags, tag_at}
  open laws use {e, pow, mul, times}

  verify_one-check_equation :
      (ext : VerifyExt) (params : PublicParams) (c : DhtChallenges) (proof : DhtProves)
      → IsVerifiable ext params c
      → verify_one ext c proof ≡ check_equation ext.file_id (some (verify_ext ext)) c proof
  unfolding verify_proofs verify_first
  verify_one-check_equation ext params c proof v =
      simp (v.named, v.with_params, v.items, v.pk_finite) refl

  -- The proof that anybody can make of public values and a scalar of their choice.
  abbrev pub public_proof : String → PublicParams → DhtChallenges → Scalar → DhtProves
  public_proof id params c m = record {
    theta = e (g1_add (aggregate_hash id c.items) (g1_mul params.u m)) params.y;
    lambda = pow (e params.u c.blind_point) m;
  }

  check_equation-public_proof :
      (id : String) (ext : Option StageExt) (params : PublicParams) (c : DhtChallenges) (m : Scalar)
      → c.blind_point ≡ g2_mul params.y c.blind_scalar
      → g2_is_infinity c.blind_point ≡ false
      → g1_is_infinity (aggregate_hash id c.items) ≡ false
      → check_equation id ext c (public_proof id params c m) ≡ judged ext true
  unfolding check_equation
  check_equation-public_proof id ext params c m blind finite h_finite =
      let same = equation laws (aggregate_hash id c.items) params.u params.y c.blind_scalar m in
      let agrees = rw (← blind) at same in
      simp
        (
          laws.pow_some,
          laws.mul_some,
          laws.pairing_some (aggregate_hash id c.items) c.blind_point h_finite finite,
          agrees,
          laws.gt_eq_refl,
        )
        refl

  -- The verifier accepts a proof made, with no block, no tag and no secret, of the public
  -- parameters, the challenge and any scalar `m`: Θ = e(H + [m]·u, y) and Λ = e(u, R)^m. The request is
  -- complete, R = [r]·y, and no point that the verifier pairs is at infinity.
  pub public_proof_accepted :
      (ext : VerifyExt) (params : PublicParams) (c : DhtChallenges) (m : Scalar)
      → IsVerifiable ext params c
      → verify_one ext c (public_proof ext.file_id params c m) ≡ judged (some (verify_ext ext)) true
  public_proof_accepted ext params c m v =
      verify_one-check_equation ext params c (public_proof ext.file_id params c m) v
      ∙ check_equation-public_proof ext.file_id (some (verify_ext ext)) params c m v.blind
          v.blind_finite v.hash_finite

  abbrev final : PublicParams → Tags → AuditBlockSource → List ChallengeItem → Sums
  final params tags blocks items = add_items params.g tags blocks no_sums items

  -- The prover's result, with Λ written out.
  generate_proofs-final :
      (prove : ProveExt) (params : PublicParams) (a : Scalar) (id : String) (tags : Tags)
      (blocks : AuditBlockSource) (c : DhtChallenges) (item : ChallengeItem)
      (items : List ChallengeItem)
      → IsProvable prove params a id tags blocks c.items
      → c.items ≡ item ∷ items
      → g2_is_infinity c.blind_point ≡ false
      → (final params tags blocks c.items).accumulated ≡ true
      → generate_proofs
          (record { ext = some (prove_ext prove); challenges = some (dht_challenges c) })
        ≡ record {
          proves = some (
              dht_proves (record {
                theta = (final params tags blocks c.items).theta;
                lambda = pow (e params.u c.blind_point) (final params tags blocks c.items).m;
              }));
          ext = some (prove_ext prove);
        }
  unfolding generate_proofs assemble
  generate_proofs-final prove params a id tags blocks c item items p here finite accumulated =
      let accumulated' = rw here at accumulated in
      simp
        (
          p.with_tags,
          p.with_blocks,
          p.with_params,
          here,
          accumulated',
          laws.pairing_some params.u c.blind_point p.u_finite finite,
          laws.pow_some,
        )
        refl

  final-accumulated :
      (params : PublicParams) (a : Scalar) (id : String) (tags : Tags) (blocks : AuditBlockSource)
      (all_items : List ChallengeItem) (item : ChallengeItem) (items : List ChallengeItem)
      → all_items ≡ item ∷ items
      → g2_is_infinity params.g ≡ false
      → AllItemsTagged params.u a id tags blocks all_items
      → (final params tags blocks all_items).accumulated ≡ true
  final-accumulated params a id tags blocks [] item items here finite all = cc
  final-accumulated params a id tags blocks (i ∷ is) item items here finite all =
      rw (add_items_cons laws params a id tags blocks no_sums i is finite all.0) (
        add_items-accumulated laws params a id tags blocks is
          (next laws params a id blocks no_sums i) finite all.1 refl)

  abbrev proved : ProveExt → Gt → Gt → GenerateProofsResult
  proved prove theta lambda = record {
    proves = some (dht_proves (record { theta = theta; lambda = lambda }));
    ext = some (prove_ext prove);
  }

  -- For complete requests, and challenges with an item whose items all have the true tag of their block under their metadata, with
  -- y = [a]·g, R = [r]·y and no pairing of a point at infinity, the prover returns a proof and the
  -- verifier answers `true` with the reason "OK".
  pub honest_proof-Accepted :
      (prove : ProveExt) (verify : VerifyExt) (params : PublicParams) (a : Scalar) (tags : Tags)
      (blocks : AuditBlockSource) (c : DhtChallenges)
      → IsProvable prove params a verify.file_id tags blocks c.items
      → IsVerifiable verify params c
      → Accepted prove verify c
  unfolding aggregate_hash
  honest_proof-Accepted prove verify params a tags blocks c p v =
      let id = verify.file_id in
      let sums = final params tags blocks c.items in
      let theta =
        add_items-theta laws params a id tags blocks c.items no_sums g1_infinity p.g_finite p.key
          p.tagged (no_sums-theta laws params.u params.y) in
      record {
        proof = public_proof id params c sums.m;
        proves =
            generate_proofs-final prove params a id tags blocks c v.first v.others p v.items
              v.blind_finite
              (final-accumulated params a id tags blocks c.items v.first v.others v.items p.g_finite
                p.tagged)
            ∙ ap (λ t. proved prove t (pow (e params.u c.blind_point) sums.m)) theta;
        verifies = public_proof_accepted verify params c sums.m v;
      }
