-- ===== src/Requests/Engine.antt =====
-- An audit as an engine runs it: a request for a proof, the proof, a request to verify it, and the
-- verification.
use dhtdynamic_audit_strateg.Base.{◌≡◌, refl, true, false, some, String, str_eq}
use dhtdynamic_audit_strateg.Fallible.{Fallible, returned, ◌>>=◌}
use dhtdynamic_audit_strateg.CoreLib.Crypto.{Sm9}
use dhtdynamic_audit_strateg.CoreLib.TagSet.{TagSets}
use dhtdynamic_audit_strateg.CoreLib.Serializer.{Serializer}
use dhtdynamic_audit_strateg.CoreLib.Input.{Inputs, proof_gen, proof_verify}
use dhtdynamic_audit_strateg.Messages.{
  Tag, AuditBlockSource, PublicParams, DhtChallenges, dht_challenges, ProveExt, VerifyExt,
  verify_ext,
}
use dhtdynamic_audit_strateg.Proofs.{
  GenerateProofsResult, VerifyProofsResult, generate_proofs, verify_proofs, no_proofs, refused,
  wrong_types, judged,
}
use dhtdynamic_audit_strateg.Proofs.Laws.{Bilinear}
use dhtdynamic_audit_strateg.Proofs.Completeness.{
  IsProvable, IsVerifiable, Accepted, honest_proof-Accepted,
}
use dhtdynamic_audit_strateg.Requests.{create_request, create_proofs_request, create_verify_request}
use dhtdynamic_audit_strateg.Requests.Reading.{blocks_key, tags_key, file_id_key}
use dhtdynamic_audit_strateg.Requests.Carried.{
  Context, AuditRequest, proofs_request, verify_request, RequestError, public_params_of,
  fill_file_id,
}

module _ ⦃sm9 : Sm9⦄ ⦃tag_sets : TagSets (Tag sm9.G1)⦄ ⦃inputs : Inputs tag_sets.Tags⦄ where
  open tag_sets use {Tags}
  open sm9 use {Scalar}
  open inputs use {
    RawInput, Json, DataMap, require_json, require_custom, member, value_to_string, required_blocks,
    required_tags,
  }

  abbrev pub proof_for : AuditRequest → GenerateProofsResult
  proof_for (proofs_request request) = generate_proofs request
  proof_for _ = no_proofs

  -- What the two inputs hold, and the context.
  pub record IsAuditInput (context : Context) (proving verifying : RawInput) (params : PublicParams)
      (tags : Tags) (blocks : AuditBlockSource) (c : DhtChallenges) (id : String) : Type 0 where
    pub with_params : public_params_of context.keys_result ≡ some params
    pub with_challenges :
        context.challenges_result ≡ some (record { challenges = some (dht_challenges c) })
    pub map : DataMap
    pub is_map : require_custom proof_gen proving ≡ returned map
    pub with_blocks : required_blocks blocks_key map ≡ returned (some blocks)
    pub with_tags : required_tags tags_key map ≡ returned (some tags)
    pub root : Json
    pub is_json : require_json proof_verify verifying ≡ returned root
    pub file : Json
    pub with_file : member file_id_key root ≡ some file
    pub is_file : value_to_string file ≡ some id

  module _ ⦃serializer : Serializer⦄ where
    abbrev pub verdict_for : AuditRequest → VerifyProofsResult
    verdict_for (verify_request request) = verify_proofs request
    verdict_for _ = refused wrong_types

    -- The proof goes from the first stage to the second in the context.
    unfoldable pub prove_and_verify :
        Context → RawInput → RawInput → Fallible RequestError VerifyProofsResult
    prove_and_verify context proving verifying = do
      request ← create_request proof_gen context proving
      request' ←
          create_request proof_verify (record context { proofs_result = some (proof_for request) })
            verifying
      returned (verdict_for request')

    -- Where the prover and the verifier accept, the two requests are made and end in the acceptance.
    pub prove_and_verify-Accepted :
        (context : Context) (proving verifying : RawInput) (params : PublicParams) (tags : Tags)
        (blocks : AuditBlockSource) (c : DhtChallenges) (id : String)
        → IsAuditInput context proving verifying params tags blocks c id
        → str_eq id "" ≡ false
        → Accepted
            (record { tags = some tags; blocks = some blocks; user_public_params = some params })
            (record { file_id = id; user_public_params = some params })
            c
        → prove_and_verify context proving verifying
          ≡ returned (
              judged
                (some (verify_ext (record { file_id = id; user_public_params = some params })))
                true)
    unfolding prove_and_verify create_request create_proofs_request create_verify_request
        fill_file_id
    prove_and_verify-Accepted context proving verifying params tags blocks c id h named accepted =
        simp
          (
            h.with_params, h.with_challenges, h.is_map, h.with_blocks, h.with_tags, h.is_json,
            h.with_file, h.is_file, named, accepted.proves, accepted.verifies,
          )
          refl

    module _ (laws : Bilinear) where
      -- An audit of an honest prover through the requests is accepted: the context has the
      -- parameters and the challenges, the inputs the blocks, the tags and the file; every item of
      -- the challenge has the true tag of its block under its metadata, y = [a]·g, R = [r]·y, and no
      -- point that is paired is at infinity, with a bilinear pairing. No request is refused on the way.
      pub prove_and_verify_accepted :
          (context : Context) (proving verifying : RawInput) (params : PublicParams) (a : Scalar)
          (tags : Tags) (blocks : AuditBlockSource) (c : DhtChallenges) (id : String)
          → IsAuditInput context proving verifying params tags blocks c id
          → let prove : ProveExt = record {
            tags = some tags;
            blocks = some blocks;
            user_public_params = some params;
          } in
            IsProvable prove params a id tags blocks c.items
            → let verify : VerifyExt = record { file_id = id; user_public_params = some params } in
              IsVerifiable verify params c
              → prove_and_verify context proving verifying
                ≡ returned (judged (some (verify_ext verify)) true)
      prove_and_verify_accepted context proving verifying params a tags blocks c id h p v =
          let prove : ProveExt = record {
            tags = some tags;
            blocks = some blocks;
            user_public_params = some params;
          } in
          let verify : VerifyExt = record { file_id = id; user_public_params = some params } in
          prove_and_verify-Accepted context proving verifying params tags blocks c id h v.named
            (honest_proof-Accepted laws prove verify params a tags blocks c p v)
