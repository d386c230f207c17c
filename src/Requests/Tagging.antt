-- ===== src/Requests/Tagging.antt =====
-- The requests that `createRequest` makes for the tag stage, and what the stage does with them.
use dhtdynamic_audit_strateg.Base.{ℕ, ◌≡◌, refl, false, Option, none, some, List, String, str_eq}
use dhtdynamic_audit_strateg.Fallible.{
  returned, IsRaised, Returns, Returns-mono, Returns-bind, Returns-or_raise, Returns-if,
}
use dhtdynamic_audit_strateg.Exec.{pure, or_return}
use dhtdynamic_audit_strateg.CoreLib.Collection.{Collections}
use dhtdynamic_audit_strateg.CoreLib.Crypto.{Sm9}
use dhtdynamic_audit_strateg.CoreLib.TagSet.{TagSets}
use dhtdynamic_audit_strateg.CoreLib.Serializer.{Serializer}
use dhtdynamic_audit_strateg.CoreLib.Input.{Inputs, generate_tags_op}
use dhtdynamic_audit_strateg.Messages.{Tag, PublicParams, PrivateParams, tags_gen_ext}
use dhtdynamic_audit_strateg.Store.{Store}
use dhtdynamic_audit_strateg.Tags.{
  GenerateTagsRequest, generate_tags, generate_checked, empty_result,
}
use dhtdynamic_audit_strateg.Requests.{
  create_request, create_tags_request, create_tags_from, read_selector,
}
use dhtdynamic_audit_strateg.Requests.Reading.{
  input, input_returned, or_default, target_block_indices_key, file_id_key, blocks_key,
}
use dhtdynamic_audit_strateg.Requests.Carried.{
  Context, ContextKeys, AuditRequest, tags_request, cast_public, cast_private, keys_missing,
  params_missing, file_id_missing,
}

module _ ⦃sm9 : Sm9⦄ ⦃tag_sets : TagSets (Tag sm9.G1)⦄ ⦃inputs : Inputs tag_sets.Tags⦄ where
  open inputs use {
    Value, as_indices, RawInput, DataMap, require_custom, required_blocks, optional_string,
    find_value,
  }

  -- A tag request with the parameters of the context, its store, and a file that has a name; the
  -- selector is none only where the key is not there.
  pub record IsTagsRequest (context : Context) (raw : RawInput) (req : AuditRequest) : Type 0 where
    pub request : GenerateTagsRequest
    pub is_tags : req ≡ tags_request request
    pub keys : ContextKeys
    pub params : PublicParams
    pub secrets : PrivateParams
    pub with_keys : context.keys_result ≡ some keys
    pub with_params : cast_public keys.public_params ≡ some params
    pub with_secrets : cast_private keys.private_params ≡ some secrets
    pub id : String
    pub named : str_eq id "" ≡ false
    pub with_ext :
        request.ext
        ≡ some (
            tags_gen_ext (record {
              file_id = id;
              user_public_params = some params;
              user_private_params = some secrets;
              state_store = context.state_store;
            }))
    pub map : DataMap
    pub is_map : input (require_custom generate_tags_op raw) ≡ returned map
    pub with_selector :
        read_selector (find_value target_block_indices_key map)
        ≡ returned request.target_block_indices
    pub with_blocks : input (required_blocks blocks_key map) ≡ returned request.blocks

  create_tags-IsTagsRequest :
      (context : Context) (raw : RawInput)
      → Returns (IsTagsRequest context raw) (create_tags_request context raw)
  unfolding create_tags_request create_tags_from
  create_tags-IsTagsRequest context raw =
      let P : AuditRequest → Type 0 = IsTagsRequest context raw in
      Returns-or_raise P keys_missing context.keys_result _ λ keys e.
        Returns-or_raise P params_missing (cast_public keys.public_params) _ λ params p.
          Returns-or_raise P params_missing (cast_private keys.private_params) _ λ secrets q.
            Returns-bind P (input (require_custom generate_tags_op raw)) _ λ map m.
              Returns-bind P (input (required_blocks blocks_key map)) _ λ blocks b.
                Returns-bind P (input (optional_string file_id_key map)) _ λ given g.
                  Returns-if P (str_eq (or_default "" given) "") file_id_missing _ λ named.
                    Returns-bind P (read_selector (find_value target_block_indices_key map)) _
                      λ selector sel. record {
                        request = _;
                        is_tags = refl;
                        keys = keys;
                        params = params;
                        secrets = secrets;
                        with_keys = e;
                        with_params = p;
                        with_secrets = q;
                        id = or_default "" given;
                        named = named;
                        with_ext = refl;
                        map = map;
                        is_map = m;
                        with_selector = sel;
                        with_blocks = b;
                      }

  no_selector :
      (map : DataMap) (value : Value) (map' : DataMap) (selector : Option (List ℕ))
      → map ≡ map'
      → find_value target_block_indices_key map ≡ some value
      → as_indices value ≡ none
      → read_selector (find_value target_block_indices_key map') ≡ returned selector
      → ⊥
  no_selector map value map' selector same found wrong read =
      let read' = rw (← same, found, wrong) at read in cc

  -- A selector that is there and holds no indices is refused, whatever else the input holds: the
  -- request is never made with the whole window instead.
  pub wrong_selector_refused :
      (context : Context) (raw : RawInput) (map : DataMap) (value : Value)
      → require_custom generate_tags_op raw ≡ returned map
      → find_value target_block_indices_key map ≡ some value
      → as_indices value ≡ none
      → IsRaised (create_request generate_tags_op context raw)
  unfolding create_request
  wrong_selector_refused context raw map value is_map found wrong =
      Returns-mono (create_tags_request context raw) (create_tags-IsTagsRequest context raw)
        λ req r.
          no_selector map value r.map r.request.target_block_indices
            (input_returned (require_custom generate_tags_op raw) map r.map is_map r.is_map) found
            wrong r.with_selector

  module _ ⦃core : Collections⦄ ⦃serializer : Serializer⦄ where
    -- What the stage does with such a request.
    pub record RunsChecked (context : Context) (raw : RawInput) (req : AuditRequest) : Type 0 where
      pub made : IsTagsRequest context raw req
      pub runs :
          (s : Store)
          → generate_tags made.request s
            ≡ or_return made.request.blocks
                (pure empty_result)
                (λ blocks.
                  generate_checked
                    (record {
                      file_id = made.id;
                      user_public_params = some made.params;
                      user_private_params = some made.secrets;
                      state_store = context.state_store;
                    })
                    blocks
                    made.secrets
                    made.params
                    made.request.target_block_indices)
                s

    -- A tag request that is made, of any context and input, holds the parameters of the context, a
    -- file with a name and the selector of the input, and runs to the resolution of its targets,
    -- unless the pointer to the blocks is null: then the stage returns its empty result.
    pub created_tags-RunsChecked :
        (context : Context) (raw : RawInput)
        → Returns (RunsChecked context raw) (create_request generate_tags_op context raw)
    unfolding create_request generate_tags
    created_tags-RunsChecked context raw =
        Returns-mono (create_tags_request context raw) (create_tags-IsTagsRequest context raw)
          λ req r. record { made = r; runs = λ s. simp (r.with_ext, r.named) refl }
