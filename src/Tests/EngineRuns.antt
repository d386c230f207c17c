-- ===== src/Tests/EngineRuns.antt =====
-- A run of the whole audit through `createRequest`.
use dhtdynamic_audit_strateg.Base.{
  ◌≡◌, refl, true, false, some, none, [], ◌∷◌, String, List, arith, word_pred,
}
use dhtdynamic_audit_strateg.Base.Assoc.{find, assign}
use dhtdynamic_audit_strateg.Run.{ended}
use dhtdynamic_audit_strateg.Fallible.{returned}
use dhtdynamic_audit_strateg.CoreLib.Entries.{entry_at, keep}
use dhtdynamic_audit_strateg.CoreLib.Input.{generate_tags_op, challenge_gen}
use dhtdynamic_audit_strateg.Messages.{verify_ext, challenge_ext}
use dhtdynamic_audit_strateg.Store.{
  has_file, add_file, get_block_metadata, get_block_metadata_collection, read_clock, write_cell,
  get_block_count,
}
use dhtdynamic_audit_strateg.Tags.{
  generate_tags, generate_checked, tag_targets, ensure_file, tag_blocks, find_or_register,
  register_block,
}
use dhtdynamic_audit_strateg.Tags.Targets.{resolve_target_block_indices, window_indices}
use dhtdynamic_audit_strateg.Challenges.{
  generate_challenges, challenge_file, challenge_blocks, challenged, challenge_count, pick, insert,
  contains, draw_rounds, draw_coefficients, add_metadata, resolve_block_count,
}
use dhtdynamic_audit_strateg.Keys.{nonzero_scalar}
use dhtdynamic_audit_strateg.Proofs.{judged}
use dhtdynamic_audit_strateg.Requests.{create_request, read_challenge_ext}
use dhtdynamic_audit_strateg.Requests.Carried.{
  Context, tags_request, challenges_request, fill_file_id,
}
use dhtdynamic_audit_strateg.Requests.Engine.{prove_and_verify}
use dhtdynamic_audit_strateg.Requests.Chain.{engine_tags_request, with_tags, with_challenges}
use dhtdynamic_audit_strateg.Requests.Cycle.{engine_audit_accepted}
use dhtdynamic_audit_strateg.Tests.Toy.{
  toy_collections, toy_sm9, toy_tags, toy_serializer, toy_randomness, toy_laws, bound,
}
use dhtdynamic_audit_strateg.Tests.ToyInput.{
  number, text, flag, ToyJson, scalar, document, ToyValue, blocks_value, tags_value, json_input,
  map_input, toy_inputs, toy_member,
}
use dhtdynamic_audit_strateg.Tests.StoreRuns.{start}
use dhtdynamic_audit_strateg.Tests.TagRuns.{params, window, secrets, start-cells}
use dhtdynamic_audit_strateg.Tests.AuditRuns.{tagged, made, tagging, tagged-find}
use dhtdynamic_audit_strateg.Tests.CycleRuns.{both_blocks, both-IsFinite}
use dhtdynamic_audit_strateg.Tests.RequestRuns.{user, tags_input, named}

-- Only the keys have been made.
abbrev fresh : Context
fresh = record {
  state_store = true;
  keys_result = some user;
  tags_result = none;
  challenges_result = none;
  proofs_result = none;
}

abbrev two_of_file : ToyJson
two_of_file =
    document
      (("fileId", text "f") ∷ ("challengeCount", number 2) ∷ ("usePseudoRandom", flag false) ∷ [])

abbrev proof_of_made : List (String × ToyValue)
proof_of_made = ("blocks", blocks_value (some window)) ∷ ("tags", tags_value (some made)) ∷ []

two-resolved :
    resolve_block_count (read_challenge_ext (with_tags fresh made) two_of_file) tagged ≡ ended 2
unfolding read_challenge_ext toy_member fill_file_id resolve_block_count get_block_count tagged
    generate_tags generate_checked resolve_target_block_indices window_indices tag_targets
    ensure_file has_file find add_file tag_blocks find_or_register get_block_metadata assign
    entry_at register_block get_block_metadata_collection read_clock write_cell word_pred keep bound
two-resolved = refl

some-asked : (challenge_count (read_challenge_ext (with_tags fresh made) two_of_file) 2).0 ≡ 2
unfolding read_challenge_ext toy_member fill_file_id challenge_count find
some-asked = refl

two-challenged :
    generate_challenges true 5
      (some (challenge_ext (read_challenge_ext (with_tags fresh made) two_of_file)))
      tagged
    ≡ ended (challenged both_blocks)
unfolding generate_challenges challenge_file resolve_block_count get_block_count read_challenge_ext
    toy_member fill_file_id challenge_blocks challenge_count pick insert contains draw_rounds
    draw_coefficients nonzero_scalar add_metadata tagged made generate_tags generate_checked
    resolve_target_block_indices window_indices tag_targets ensure_file has_file find add_file
    tag_blocks find_or_register get_block_metadata assign entry_at register_block
    get_block_metadata_collection read_clock write_cell word_pred keep bound
two-challenged = refl

engine_audit_accepted_example :
    (create_request generate_tags_op fresh (map_input tags_input)
      ≡ returned (tags_request (engine_tags_request params secrets window "f")))
    × (create_request challenge_gen (with_tags fresh made) (json_input two_of_file)
        ≡ returned (
            challenges_request (record {
              ext = some (challenge_ext (read_challenge_ext (with_tags fresh made) two_of_file));
              tags = some made;
            })))
    × (prove_and_verify (with_challenges fresh made both_blocks) (map_input proof_of_made) named
        ≡ returned (
            judged
              (some (verify_ext (record { file_id = "f"; user_public_params = some params })))
              true))
unfolding find toy_member
engine_audit_accepted_example =
    engine_audit_accepted toy_laws fresh (map_input tags_input) (json_input two_of_file)
      (map_input proof_of_made) named params secrets window "f" two_of_file start tagged made 0 2 5
      both_blocks
      (record {
        keys = user;
        with_keys = refl;
        with_params = refl;
        with_secrets = refl;
        with_store = refl;
        named = refl;
        map = tags_input;
        is_map = refl;
        with_blocks = refl;
        with_file_id = refl;
        no_selector = refl;
        is_json = refl;
        file = scalar (text "f");
        with_file = refl;
        is_file = refl;
      })
      (record {
        with_params = refl;
        with_challenges = refl;
        map = proof_of_made;
        is_map = refl;
        with_blocks = refl;
        with_tags = refl;
        root = document (("fileId", text "f") ∷ []);
        is_json = refl;
        with_file = refl;
        file = scalar (text "f");
        is_file = refl;
      })
      (record {
        key = refl;
        g_finite = refl;
        u_finite = refl;
        pk_finite = refl;
        origin = refl;
        room = omega arith;
      })
      start-cells tagging tagged-find two-resolved (omega arith) (omega arith)
      (omega (arith, some-asked)) two-challenged both-IsFinite
