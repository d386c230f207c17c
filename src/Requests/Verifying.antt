-- ===== src/Requests/Verifying.antt =====
-- The requests that `createRequest` makes for the proof and verification stages, and what the stages
-- do with them.
use dhtdynamic_audit_strateg.Base.{◌≡◌, false, some, [], ◌∷◌, String, str_eq}
use dhtdynamic_audit_strateg.Exec.{or_return}
use dhtdynamic_audit_strateg.CoreLib.Crypto.{Sm9}
use dhtdynamic_audit_strateg.CoreLib.TagSet.{TagSets}
use dhtdynamic_audit_strateg.CoreLib.Serializer.{Serializer}
use dhtdynamic_audit_strateg.CoreLib.Input.{Inputs}
use dhtdynamic_audit_strateg.Messages.{Tag, PublicParams, verify_ext}
use dhtdynamic_audit_strateg.Challenges.{GenerateChallengesResult}
use dhtdynamic_audit_strateg.Proofs.{
  GenerateProofsResult, VerifyProofsRequest, verify_proofs, check_items, refused, wrong_types,
  as_dht_challenges, as_dht_proves,
}
use dhtdynamic_audit_strateg.Requests.Carried.{
  Context, AuditRequest, verify_request, public_params_of,
}

module _ ⦃sm9 : Sm9⦄ ⦃tag_sets : TagSets (Tag sm9.G1)⦄ ⦃inputs : Inputs tag_sets.Tags⦄ where
  open tag_sets use {Tags}
  open inputs use {RawInput, require_json, require_custom, member, required_blocks, required_tags}

  -- A request to verify the results of the context, for a file that has a name.
  pub record IsVerifyRequest (context : Context) (req : AuditRequest) : Type 0 where
    pub request : VerifyProofsRequest
    pub is_verify : req ≡ verify_request request
    pub challenged : GenerateChallengesResult
    pub proved : GenerateProofsResult
    pub params : PublicParams
    pub id : String
    pub with_challenges : context.challenges_result ≡ some challenged
    pub with_proofs : context.proofs_result ≡ some proved
    pub with_params : public_params_of context.keys_result ≡ some params
    pub named : str_eq id "" ≡ false
    pub request_is : request ≡ record {
      ext = some (verify_ext (record { file_id = id; user_public_params = some params }));
      challenges = challenged.challenges ∷ [];
      proves = proved.proves ∷ [];
    }

  module _ ⦃serializer : Serializer⦄ where
    -- What the verifier does with such a request.
    pub record RunsVerifier (context : Context) (req : AuditRequest) : Type 0 where
      pub made : IsVerifyRequest context req
      pub runs :
          verify_proofs made.request
          ≡ or_return (as_dht_challenges made.challenged.challenges) (refused wrong_types) λ c.
            or_return
              (as_dht_proves made.proved.proves)
              (refused wrong_types)
              λ p. check_items made.id made.params.pk made.request.ext c p c.items
