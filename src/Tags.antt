-- ===== src/Tags.antt =====
-- generate_tags.cpp: the tag stage. It registers the blocks that the store does not know.
pub mod Targets
pub mod Register
pub mod Consistency
use dhtdynamic_audit_strateg.Base.{
  ℕ, ◌-◌, Bool, true, false, Option, none, some, List, [], ◌∷◌, String, str_eq, if◌then◌else◌,
  word_pred, word_sub,
}
use dhtdynamic_audit_strateg.Exec.{
  Exec, Outcome, done, threw, pure, throw, lift, or_return, catch_runtime, ◌>>=◌, ◌>>◌,
  store_missing, not_versioned,
}
use dhtdynamic_audit_strateg.Metadata.{VersionedBlockMetadata, BlockMetadata, versioned, other}
use dhtdynamic_audit_strateg.CoreLib.Collection.{Collections}
use dhtdynamic_audit_strateg.CoreLib.Crypto.{Sm9}
use dhtdynamic_audit_strateg.CoreLib.TagSet.{TagSets}
use dhtdynamic_audit_strateg.CoreLib.Serializer.{Serializer}
use dhtdynamic_audit_strateg.Common.{compute_block_hash, accumulate_block_segments_g1}
use dhtdynamic_audit_strateg.Messages.{
  Tag, dht_tag, AuditBlockSource, PublicParams, PrivateParams, TagsGenExt, StageExt, tags_gen_ext,
}
use dhtdynamic_audit_strateg.Store.{
  Store, Metadata, has_file, add_file, read_clock, write_cell, get_block_metadata,
  get_block_metadata_collection,
}
use Targets.{resolve_target_block_indices}

-- `blockIndex - 1 - windowStart`.
abbrev pub local_index : ℕ → ℕ → ℕ
local_index block_index window_start = word_sub (word_pred block_index) window_start

module _ ⦃core : Collections⦄ where
  open core use {set_index}

  abbrev pub versioned_or_throw : Metadata → Exec Store VersionedBlockMetadata
  versioned_or_throw (versioned v) = pure v
  versioned_or_throw (other o) = throw not_versioned

  unfoldable pub ensure_file : String → Exec Store (Unit {0})
  ensure_file id s = if has_file s id then done tt s else add_file id s

  abbrev pub fresh_metadata : ℕ → Metadata
  fresh_metadata now = versioned (record { version = 1; timestamp = now })

  -- The body of the `catch`: the block is registered with version 1 and the time now.
  unfoldable pub register_block : String → ℕ → Exec Store Metadata
  unfolding read_clock write_cell
  register_block id b = do
    now ← read_clock
    r ← get_block_metadata_collection id
    λ s.
        (do
          write_cell r (set_index (s.cells r) (word_pred b) (fresh_metadata now))
          pure (fresh_metadata now))
          s

  unfoldable pub find_or_register : String → ℕ → Exec Store Metadata
  find_or_register id b = catch_runtime (get_block_metadata id b) (register_block id b)

module _ ⦃sm9 : Sm9⦄ ⦃serializer : Serializer⦄ where
  open sm9 use {Scalar, G1, g1_add, g1_mul}

  -- σ = [a]·(H + Σ[segment]·u)
  unfoldable pub sigma_of : G1 → Scalar → String → ℕ → VersionedBlockMetadata → List ℕ → G1
  sigma_of u a file_id b v block =
      g1_mul (g1_add (compute_block_hash file_id b v) (accumulate_block_segments_g1 block u)) a

module _ ⦃sm9 : Sm9⦄ ⦃tag_sets : TagSets (Tag sm9.G1)⦄ where
  open tag_sets use {Tags}

  pub record GenerateTagsRequest : Type 0 where
    pub ext : Option StageExt
    pub blocks : Option AuditBlockSource
    pub target_block_indices : Option (List ℕ)

  pub record GenerateTagsResult : Type 0 where
    pub tags : Option Tags
    pub ext : Option StageExt

  abbrev pub empty_result : GenerateTagsResult
  empty_result = record { tags = none; ext = none }

  abbrev pub as_tags_gen : Option StageExt → Option TagsGenExt
  as_tags_gen (some (tags_gen_ext e)) = some e
  as_tags_gen _ = none

module _ ⦃core : Collections⦄ ⦃sm9 : Sm9⦄ ⦃tag_sets : TagSets (Tag sm9.G1)⦄
    ⦃serializer : Serializer⦄ where
  open sm9 use {Scalar, G1}
  open tag_sets use {Tags, no_tags, set_tag}

  unfoldable pub tag_blocks :
      G1 → Scalar → String → AuditBlockSource → List ℕ → Tags → Exec Store Tags
  tag_blocks u a id blocks [] tags = pure tags
  tag_blocks u a id blocks (b ∷ bs) tags = do
    meta ← find_or_register id b
    v ← versioned_or_throw meta
    tag_blocks u a id blocks bs (
        set_tag tags (word_pred b) (
          dht_tag
            (sigma_of u a id b v (blocks.block (local_index b blocks.global_block_start_index)))))

  unfoldable pub tag_targets :
      G1 → Scalar → String → AuditBlockSource → List ℕ → Exec Store GenerateTagsResult
  tag_targets u a id blocks targets = do
    ensure_file id
    tags ← tag_blocks u a id blocks targets no_tags
    pure (record { tags = some tags; ext = none })

  -- The stage from the resolution of the targets on.
  unfoldable pub generate_checked :
      TagsGenExt
      → AuditBlockSource
      → PrivateParams
      → PublicParams
      → Option (List ℕ)
      → Exec Store GenerateTagsResult
  generate_checked ext blocks private_params public_params selector = do
    targets ← lift (
        resolve_target_block_indices selector blocks.global_block_start_index
          blocks.available_block_count)
    if ext.state_store
        then tag_targets public_params.u private_params.a ext.file_id blocks targets
        else throw store_missing

  unfoldable pub generate_tags : GenerateTagsRequest → Exec Store GenerateTagsResult
  generate_tags input = or_return (as_tags_gen input.ext) (pure empty_result) λ ext.
      if str_eq ext.file_id ""
      then pure empty_result
      else or_return input.blocks (pure empty_result) λ blocks.
        or_return ext.user_private_params (pure empty_result) λ private_params.
          or_return ext.user_public_params (pure empty_result) λ public_params.
            generate_checked ext blocks private_params public_params input.target_block_indices
