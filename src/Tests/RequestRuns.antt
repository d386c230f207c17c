-- ===== src/Tests/RequestRuns.antt =====
-- Runs of `createRequest`, alone and with the stages.
use dhtdynamic_audit_strateg.Base.{ℕ, ◌≡◌, refl, Bool, true, some, none, [], ◌∷◌, String, List}
use dhtdynamic_audit_strateg.Base.Assoc.{find}
use dhtdynamic_audit_strateg.Exec.{done}
use dhtdynamic_audit_strateg.Run.{ended}
use dhtdynamic_audit_strateg.Fallible.{returned, raised, IsRaised, Returns}
use dhtdynamic_audit_strateg.CoreLib.Input.{
  generate_tags_op, proof_verify, maintenance_op, challenge_gen,
}
use dhtdynamic_audit_strateg.Messages.{
  dht_tag, user_public, user_private, dht_challenges, verify_ext, maintain_ext, delete,
  maintain_ext,
}
use dhtdynamic_audit_strateg.Store.{Store}
use dhtdynamic_audit_strateg.Maintain.{maintain, maintenance}
use dhtdynamic_audit_strateg.Tags.{generate_tags, empty_result}
use dhtdynamic_audit_strateg.Challenges.{GenerateChallengesResult, generate_challenges}
use dhtdynamic_audit_strateg.Proofs.{judged, no_proofs}
use dhtdynamic_audit_strateg.Requests.{create_request}
use dhtdynamic_audit_strateg.Requests.Carried.{
  Context, ContextKeys, file_id_missing, maintain_request, challenges_request,
  GenerateChallengesRequest,
}
use dhtdynamic_audit_strateg.Requests.Tagging.{
  RunsChecked, created_tags-RunsChecked, wrong_selector_refused,
}
use dhtdynamic_audit_strateg.Requests.Maintaining.{
  MadeFrom, created_maintenance-MadeFrom, document-create_request, wrong_indices_refused,
}
use dhtdynamic_audit_strateg.Requests.Fallback.{unnamed_verify_refused, unnamed_challenge_empty}
use dhtdynamic_audit_strateg.Requests.Engine.{prove_and_verify, prove_and_verify_accepted}
use dhtdynamic_audit_strateg.Tests.Toy.{
  toy_collections, toy_sm9, toy_tags, toy_serializer, toy_randomness, toy_laws,
}
use dhtdynamic_audit_strateg.Tests.ToyInput.{
  number, text, numbers, ToyJson, scalar, document, ToyValue, blocks_value, tags_value, text_value,
  ToyRaw, json_input, map_input, toy_inputs, toy_member,
}
use dhtdynamic_audit_strateg.Tests.StoreRuns.{start}
use dhtdynamic_audit_strateg.Tests.TagRuns.{params, secrets, window}
use dhtdynamic_audit_strateg.Tests.ProofRuns.{challenge, first_sigma, provable, verifiable}

abbrev pub user : ContextKeys
user = record {
  public_params = some (user_public params);
  private_params = some (user_private secrets);
}

abbrev challenged : GenerateChallengesResult
challenged = record { challenges = some (dht_challenges challenge) }

abbrev context : Context
context = record {
  state_store = true;
  keys_result = some user;
  tags_result = some empty_result;
  challenges_result = some challenged;
  proofs_result = some no_proofs;
}

abbrev pub tags_input : List (String × ToyValue)
tags_input = ("blocks", blocks_value (some window)) ∷ ("fileId", text_value "f") ∷ []

created_tags-RunsChecked_example :
    Returns
      (RunsChecked context (map_input tags_input))
      (create_request generate_tags_op context (map_input tags_input))
created_tags-RunsChecked_example = created_tags-RunsChecked context (map_input tags_input)

abbrev wrong_tags_input : List (String × ToyValue)
wrong_tags_input = ("targetBlockIndices", text_value "2") ∷ tags_input

wrong_selector_refused_example :
    IsRaised (create_request generate_tags_op context (map_input wrong_tags_input))
unfolding find
wrong_selector_refused_example =
    wrong_selector_refused context (map_input wrong_tags_input) wrong_tags_input (text_value "2")
      refl refl refl

abbrev pub named : ToyRaw
named = json_input (document (("fileId", text "f") ∷ []))

abbrev deletion : ToyJson
deletion =
    document
      (("fileId", text "f") ∷ ("opType", number 2) ∷ ("blockIndices", numbers (2 ∷ 1 ∷ [])) ∷ [])

created_maintenance-MadeFrom_example :
    Returns
      (λ req.
        (made : MadeFrom context (json_input deletion) req) × ((s : Store)
          → maintenance made.2.request.ext s ≡ maintain made.2.ext s))
      (create_request maintenance_op context (json_input deletion))
created_maintenance-MadeFrom_example = created_maintenance-MadeFrom context (json_input deletion)

document-create_request_example :
    create_request maintenance_op context (json_input deletion)
    ≡ returned (
        maintain_request (record {
          op_type = delete;
          ext = some (
              maintain_ext (record {
                file_id = "f";
                op_type = delete;
                block_indices = 2 ∷ 1 ∷ [];
                state_store = true;
              }));
        }))
unfolding toy_member
document-create_request_example =
    document-create_request context (json_input deletion) deletion (scalar (text "f"))
      (scalar (number 2)) (scalar (numbers (2 ∷ 1 ∷ []))) "f" 2
      (scalar (number 2) ∷ scalar (number 1) ∷ []) (2 ∷ 1 ∷ []) refl refl refl refl refl refl refl
      (refl, (refl, tt))

abbrev wrong_deletion : ToyJson
wrong_deletion = document (("opType", number 2) ∷ ("blockIndices", number 1) ∷ [])

wrong_indices_refused_example :
    IsRaised (create_request maintenance_op context (json_input wrong_deletion))
unfolding toy_member
wrong_indices_refused_example =
    wrong_indices_refused context (json_input wrong_deletion) wrong_deletion (scalar (number 1))
      refl refl refl

abbrev unnamed : ToyJson
unnamed = document []

nothing_tagged :
    generate_tags (record { ext = none; blocks = none; target_block_indices = none }) start
    ≡ done empty_result start
unfolding generate_tags
nothing_tagged = refl

unnamed_verify_refused_example :
    create_request proof_verify context (json_input unnamed) ≡ raised file_id_missing
unfolding toy_member
unnamed_verify_refused_example =
    unnamed_verify_refused context (json_input unnamed) unnamed params challenged no_proofs
      (record { ext = none; blocks = none; target_block_indices = none }) start start empty_result
      nothing_tagged refl refl refl refl refl refl

unnamed_challenge_empty_example :
    (made : GenerateChallengesRequest) × (create_request challenge_gen context (json_input unnamed)
      ≡ returned (challenges_request made))
    × ((algorithm : Bool) (fuel : ℕ) (u : Store)
        → generate_challenges algorithm fuel made.ext u ≡ ended (record { challenges = none }))
unfolding toy_member
unnamed_challenge_empty_example =
    unnamed_challenge_empty context (json_input unnamed) unnamed
      (record { ext = none; blocks = none; target_block_indices = none }) start start empty_result
      nothing_tagged refl refl refl

abbrev proof_input : List (String × ToyValue)
proof_input =
    ("blocks", blocks_value (some window))
    ∷ ("tags", tags_value (some (λ i. some (dht_tag first_sigma))))
    ∷ []

prove_and_verify_accepted_example :
    prove_and_verify context (map_input proof_input) named
    ≡ returned (
        judged
          (some (verify_ext (record { file_id = "f"; user_public_params = some params })))
          true)
unfolding toy_member find
prove_and_verify_accepted_example =
    prove_and_verify_accepted toy_laws context (map_input proof_input) named params 5
      (λ i. some (dht_tag first_sigma)) window challenge "f"
      (record {
        with_params = refl;
        with_challenges = refl;
        map = proof_input;
        is_map = refl;
        with_blocks = refl;
        with_tags = refl;
        root = document (("fileId", text "f") ∷ []);
        is_json = refl;
        with_file = refl;
        file = scalar (text "f");
        is_file = refl;
      })
      provable verifiable
