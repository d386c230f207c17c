-- ===== src/Requests/Chain.antt =====
-- The requests that `createRequest` makes in an audit for the tag stage and the challenge stage, each in
-- the context of the results before.
use dhtdynamic_audit_strateg.Base.{
  ℕ, ◌≡◌, refl, Bool, true, false, ◌||◌, ◌==◌, none, some, String, str_eq,
}
use dhtdynamic_audit_strateg.Base.Assoc.{find}
use dhtdynamic_audit_strateg.Run.{ended}
use dhtdynamic_audit_strateg.Fallible.{returned}
use dhtdynamic_audit_strateg.CoreLib.Collection.{Collections}
use dhtdynamic_audit_strateg.CoreLib.Crypto.{Sm9}
use dhtdynamic_audit_strateg.CoreLib.TagSet.{TagSets}
use dhtdynamic_audit_strateg.CoreLib.Random.{Randomness}
use dhtdynamic_audit_strateg.CoreLib.Input.{Inputs, generate_tags_op, challenge_gen}
use dhtdynamic_audit_strateg.Messages.{
  Tag, AuditBlockSource, PublicParams, PrivateParams, DhtChallenges, TagsGenExt, tags_gen_ext,
  ChallengeExt, challenge_ext,
}
use dhtdynamic_audit_strateg.Store.{Store, has_file, is_some}
use dhtdynamic_audit_strateg.Tags.{GenerateTagsRequest}
use dhtdynamic_audit_strateg.Challenges.{
  generate_challenges, challenge_file, challenge_blocks, challenged, resolve_block_count,
}
use dhtdynamic_audit_strateg.Requests.{
  create_request, create_tags_request, create_tags_from, create_challenges_request,
  read_challenge_ext, uint64_at,
}
use dhtdynamic_audit_strateg.Requests.Reading.{
  blocks_key, file_id_key, target_block_indices_key, block_count_key,
}
use dhtdynamic_audit_strateg.Requests.Carried.{
  Context, ContextKeys, tags_request, challenges_request, cast_public, cast_private, fill_file_id,
}

or_true : (b : Bool) → (b || true) ≡ true
or_true true = refl
or_true false = refl

module _ ⦃sm9 : Sm9⦄ ⦃tag_sets : TagSets (Tag sm9.G1)⦄ ⦃inputs : Inputs tag_sets.Tags⦄ where
  open tag_sets use {Tags}
  open sm9 use {g1_is_infinity, g2_is_infinity, g2_mul}
  open inputs use {
    RawInput, Json, DataMap, require_json, require_custom, member, string, required_blocks,
    optional_string, find_value,
  }

  -- The input of the tag request and of the challenge request: the blocks, no selector, and in both
  -- the name of the file; and the keys of the context.
  pub record IsEngineInput (context : Context) (tagging challenging : RawInput)
      (params : PublicParams) (secrets : PrivateParams) (blocks : AuditBlockSource) (id : String)
      (root : Json) : Type 0 where
    pub keys : ContextKeys
    pub with_keys : context.keys_result ≡ some keys
    pub with_params : cast_public keys.public_params ≡ some params
    pub with_secrets : cast_private keys.private_params ≡ some secrets
    pub with_store : context.state_store ≡ true
    pub named : str_eq id "" ≡ false
    pub map : DataMap
    pub is_map : require_custom generate_tags_op tagging ≡ returned map
    pub with_blocks : required_blocks blocks_key map ≡ returned (some blocks)
    pub with_file_id : optional_string file_id_key map ≡ returned (some id)
    pub no_selector : find_value target_block_indices_key map ≡ none
    pub is_json : require_json challenge_gen challenging ≡ returned root
    pub file : Json
    pub with_file : member file_id_key root ≡ some file
    pub is_file : string file ≡ some id

  -- The extension and the request that the engine gets for the tag stage.
  abbrev pub engine_tagging : PublicParams → PrivateParams → String → TagsGenExt
  engine_tagging params secrets id = record {
    file_id = id;
    user_public_params = some params;
    user_private_params = some secrets;
    state_store = true;
  }

  abbrev pub engine_tags_request :
      PublicParams → PrivateParams → AuditBlockSource → String → GenerateTagsRequest
  engine_tags_request params secrets blocks id = record {
    ext = some (tags_gen_ext (engine_tagging params secrets id));
    blocks = some blocks;
    target_block_indices = none;
  }

  -- The context with the result of the tag stage, and that of the challenge stage too.
  abbrev pub with_tags : Context → Tags → Context
  with_tags context tags = record context {
    tags_result = some (record { tags = some tags; ext = none });
  }

  abbrev pub with_challenges : Context → Tags → DhtChallenges → Context
  with_challenges context tags c = record (with_tags context tags) {
    challenges_result = some (challenged c);
  }

  pub tags_request-created :
      (context : Context) (tagging challenging : RawInput) (params : PublicParams)
      (secrets : PrivateParams) (blocks : AuditBlockSource) (id : String) (root : Json)
      → IsEngineInput context tagging challenging params secrets blocks id root
      → create_request generate_tags_op context tagging
        ≡ returned (tags_request (engine_tags_request params secrets blocks id))
  unfolding create_request create_tags_request create_tags_from
  tags_request-created context tagging challenging params secrets blocks id root h =
      simp
        (
          h.with_keys, h.with_params, h.with_secrets, h.is_map, h.with_blocks, h.with_file_id,
          h.named, h.no_selector, h.with_store,
        )
        refl

  pub challenges_request-created :
      (context : Context) (tagging challenging : RawInput) (params : PublicParams)
      (secrets : PrivateParams) (blocks : AuditBlockSource) (id : String) (root : Json)
      (tags : Tags)
      → IsEngineInput context tagging challenging params secrets blocks id root
      → create_request challenge_gen (with_tags context tags) challenging
        ≡ returned (
            challenges_request (record {
              ext = some (challenge_ext (read_challenge_ext (with_tags context tags) root));
              tags = some tags;
            }))
  unfolding create_request create_challenges_request
  challenges_request-created context tagging challenging params secrets blocks id root tags h =
      simp (h.is_json, or_true (is_some (uint64_at block_count_key root))) refl

  pub engine_file :
      (context : Context) (tagging challenging : RawInput) (params : PublicParams)
      (secrets : PrivateParams) (blocks : AuditBlockSource) (id : String) (root : Json)
      (tags : Tags)
      → IsEngineInput context tagging challenging params secrets blocks id root
      → (read_challenge_ext (with_tags context tags) root).file_id ≡ id
  unfolding read_challenge_ext fill_file_id
  engine_file context tagging challenging params secrets blocks id root tags h =
      simp (h.with_file, h.is_file, h.named) refl

  pub engine_params :
      (context : Context) (tagging challenging : RawInput) (params : PublicParams)
      (secrets : PrivateParams) (blocks : AuditBlockSource) (id : String) (root : Json)
      (tags : Tags)
      → IsEngineInput context tagging challenging params secrets blocks id root
      → (read_challenge_ext (with_tags context tags) root).user_public_params ≡ some params
  unfolding read_challenge_ext
  engine_params context tagging challenging params secrets blocks id root tags h =
      simp (h.with_keys, h.with_params) refl

  pub engine_store :
      (context : Context) (root : Json) (tags : Tags)
      → context.state_store ≡ true
      → (read_challenge_ext (with_tags context tags) root).state_store ≡ true
  unfolding read_challenge_ext
  engine_store context root tags h = h

  module _ ⦃core : Collections⦄ ⦃randomness : Randomness⦄ where
    -- The stage runs to the picking of blocks.
    pub runs_blocks :
        (fuel : ℕ) (ext : ChallengeExt) (params : PublicParams) (id : String) (n r : ℕ) (t : Store)
        → ext.file_id ≡ id
        → ext.user_public_params ≡ some params
        → ext.state_store ≡ true
        → str_eq id "" ≡ false
        → find id t.files ≡ some r
        → resolve_block_count ext t ≡ ended n
        → (n == 0) ≡ false
        → generate_challenges true fuel (some (challenge_ext ext)) t
          ≡ challenge_blocks fuel ext params n t
    unfolding generate_challenges challenge_file has_file
    runs_blocks fuel ext params id n r t file key store named here count some_there =
        simp (file, key, store, named, here, count, some_there) refl
