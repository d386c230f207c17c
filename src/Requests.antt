-- ===== src/Requests.antt =====
-- strategy.cpp: `createRequest`, which makes the request of a stage from the raw input of an engine
-- and the results of the stages before.
pub mod Reading
pub mod Carried
pub mod Tagging
pub mod Verifying
pub mod Maintaining
pub mod Fallback
pub mod Engine
pub mod Chain
pub mod Cycle
use dhtdynamic_audit_strateg.Base.{
  ℕ, ◌≡◌, Bool, true, false, ◌||◌, Option, none, some, List, [], ◌∷◌, String, str_eq, if◌then◌else◌,
}
use dhtdynamic_audit_strateg.Fallible.{Fallible, returned, raised, ◌>>=◌, or_raise}
use dhtdynamic_audit_strateg.CoreLib.Crypto.{Sm9}
use dhtdynamic_audit_strateg.CoreLib.TagSet.{TagSets}
use dhtdynamic_audit_strateg.CoreLib.Input.{
  AuditOperation, algorithm_init, key_generation, generate_tags_op, challenge_gen, proof_gen,
  proof_verify, maintenance_op, other_operation, InputError, Inputs,
}
use dhtdynamic_audit_strateg.Messages.{
  Tag, PublicParams, PrivateParams, Challenges, ChallengeExt, StageExt, algo_init_ext, key_gen_ext,
  tags_gen_ext, challenge_ext, prove_ext, verify_ext, maintain_ext,
}
use dhtdynamic_audit_strateg.Tags.{GenerateTagsResult}
use dhtdynamic_audit_strateg.Challenges.{GenerateChallengesResult}
use dhtdynamic_audit_strateg.Store.{is_some}
use dhtdynamic_audit_strateg.Proofs.{GenerateProofsResult}
use Reading.{
  blocks_key, file_id_key, target_block_indices_key, seed_key, block_count_key, challenge_count_key,
  use_pseudo_random_key, tags_key, op_type_key, block_indices_key, input, input_returned,
  or_default, test_member, read_indices,
}
use Carried.{
  RequestError, keys_missing, params_missing, file_id_missing, selector_type, block_count_missing,
  challenges_missing, public_params_missing, proofs_missing, file_id_type, op_type_missing,
  indices_type, unknown_operation, input_error, ContextKeys, cast_public, cast_private,
  public_params_of, Context, GenerateChallengesRequest, MaintainRequest, AuditRequest,
  initialize_request, keys_request, tags_request, challenges_request, proofs_request,
  verify_request, maintain_request, fill_file_id,
}

module _ ⦃sm9 : Sm9⦄ ⦃tag_sets : TagSets (Tag sm9.G1)⦄ ⦃inputs : Inputs tag_sets.Tags⦄ where
  open tag_sets use {Tags}
  open inputs use {
    RawInput, Json, DataMap, Value, require_json, require_custom, member, uint64, uint, bool,
    string, array, as_uint64, value_to_string, required_blocks, required_tags, optional_string,
    find_value, as_indices, op_of_number,
  }

  abbrev pub uint64_at : String → Json → Option ℕ
  uint64_at key root = test_member (member key root) uint64

  abbrev pub string_at : String → Json → Option String
  string_at key root = test_member (member key root) string

  unfoldable pub create_keys_request : RawInput → Fallible RequestError AuditRequest
  create_keys_request raw = do
    root ← input (require_json key_generation raw)
    returned (keys_request (some (key_gen_ext (record { seed = uint64_at seed_key root }))))

  abbrev pub read_selector : Option Value → Fallible RequestError (Option (List ℕ))
  read_selector none = returned none
  read_selector (some value) = read_indices (as_indices value)

  -- What the tag request takes from the data map, once the keys are there.
  unfoldable pub create_tags_from :
      Bool → PublicParams → PrivateParams → DataMap → Fallible RequestError AuditRequest
  create_tags_from state_store params secrets values = do
    blocks ← input (required_blocks blocks_key values)
    given ← input (optional_string file_id_key values)
    let id = or_default "" given
    if str_eq id "" then raised file_id_missing else (do
      selector ← read_selector (find_value target_block_indices_key values)
      returned (
          tags_request (record {
            ext = some (
                tags_gen_ext (record {
                  file_id = id;
                  user_public_params = some params;
                  user_private_params = some secrets;
                  state_store = state_store;
                }));
            blocks = blocks;
            target_block_indices = selector;
          })))

  unfoldable pub create_tags_request : Context → RawInput → Fallible RequestError AuditRequest
  create_tags_request context raw = do
    keys ← or_raise keys_missing context.keys_result
    params ← or_raise params_missing (cast_public keys.public_params)
    secrets ← or_raise params_missing (cast_private keys.private_params)
    values ← input (require_custom generate_tags_op raw)
    create_tags_from context.state_store params secrets values

  -- The tags of the result of the tag stage.
  abbrev pub context_tags : Option GenerateTagsResult → Option Tags
  context_tags none = none
  context_tags (some result) = result.tags

  unfoldable pub read_challenge_ext : Context → Json → ChallengeExt
  read_challenge_ext context root = record {
    file_id = fill_file_id (or_default "" (string_at file_id_key root)) context.tags_result;
    user_public_params = public_params_of context.keys_result;
    block_count = or_default 0 (uint64_at block_count_key root);
    challenge_count = or_default 0 (uint64_at challenge_count_key root);
    use_pseudo_random = or_default true (test_member (member use_pseudo_random_key root) bool);
    seed = uint64_at seed_key root;
    state_store = context.state_store;
  }

  unfoldable pub create_challenges_request : Context → RawInput → Fallible RequestError AuditRequest
  create_challenges_request context raw = do
    root ← input (require_json challenge_gen raw)
    if is_some (uint64_at block_count_key root) || is_some context.tags_result
        then returned (
            challenges_request (record {
              ext = some (challenge_ext (read_challenge_ext context root));
              tags = context_tags context.tags_result;
            }))
        else raised block_count_missing

  -- The challenges of the result of the challenge stage.
  abbrev pub context_challenges : Option GenerateChallengesResult → Option Challenges
  context_challenges none = none
  context_challenges (some result) = result.challenges

  unfoldable pub create_proofs_request : Context → RawInput → Fallible RequestError AuditRequest
  create_proofs_request context raw = do
    challenges ← or_raise challenges_missing (context_challenges context.challenges_result)
    values ← input (require_custom proof_gen raw)
    blocks ← input (required_blocks blocks_key values)
    tags ← input (required_tags tags_key values)
    params ← or_raise public_params_missing (public_params_of context.keys_result)
    returned (
        proofs_request (record {
          ext = some (
              prove_ext
                (record { tags = tags; blocks = blocks; user_public_params = some params }));
          challenges = some challenges;
        }))

  -- The file that a request to verify names. A member of another type is refused.
  abbrev pub read_file_id : Option Json → Fallible RequestError String
  read_file_id none = returned ""
  read_file_id (some value) = or_raise file_id_type (value_to_string value)

  unfoldable pub create_verify_request : Context → RawInput → Fallible RequestError AuditRequest
  create_verify_request context raw = do
    challenges ← or_raise proofs_missing context.challenges_result
    proofs ← or_raise proofs_missing context.proofs_result
    params ← or_raise public_params_missing (public_params_of context.keys_result)
    root ← input (require_json proof_verify raw)
    parsed ← read_file_id (member file_id_key root)
    let id = fill_file_id parsed context.tags_result
    if str_eq id ""
        then raised file_id_missing
        else returned (
            verify_request (record {
              ext = some (verify_ext (record { file_id = id; user_public_params = some params }));
              challenges = challenges.challenges ∷ [];
              proves = proofs.proves ∷ [];
            }))

  -- The loop over the members of "blockIndices".
  unfoldable pub read_numbers : List Json → Fallible RequestError (List ℕ)
  read_numbers [] = returned []
  read_numbers (j ∷ js) = do n ← input (as_uint64 j); ns ← read_numbers js; returned (n ∷ ns)

  -- Absent indices are none; a value that is no array is refused.
  abbrev pub read_block_indices : Option Json → Fallible RequestError (List ℕ)
  read_block_indices none = returned []
  read_block_indices (some value) = or_raise indices_type (array value) >>= read_numbers

  unfoldable pub create_maintain_request : Context → RawInput → Fallible RequestError AuditRequest
  create_maintain_request context raw = do
    root ← input (require_json maintenance_op raw)
    id ← or_raise file_id_missing (string_at file_id_key root)
    number ← or_raise op_type_missing (test_member (member op_type_key root) uint)
    indices ← read_block_indices (member block_indices_key root)
    returned (
        maintain_request (record {
          op_type = op_of_number number;
          ext = some (
              maintain_ext (record {
                file_id = id;
                op_type = op_of_number number;
                block_indices = indices;
                state_store = context.state_store;
              }));
        }))

  unfoldable pub create_request :
      AuditOperation → Context → RawInput → Fallible RequestError AuditRequest
  create_request algorithm_init context raw = returned (initialize_request (some algo_init_ext))
  create_request key_generation context raw = create_keys_request raw
  create_request generate_tags_op context raw = create_tags_request context raw
  create_request challenge_gen context raw = create_challenges_request context raw
  create_request proof_gen context raw = create_proofs_request context raw
  create_request proof_verify context raw = create_verify_request context raw
  create_request maintenance_op context raw = create_maintain_request context raw
  create_request (other_operation n) context raw = raised unknown_operation
