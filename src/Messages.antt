-- ===== src/Messages.antt =====
-- The data that travels between the stages: params.h, tags.h, challenges.h, proves.h, request_ext.h
-- and maintain_types.h. A pointer to a base class is a data type with a constructor for each class
-- that the plugin casts to, and one for all others.
use dhtdynamic_audit_strateg.Base.{ℕ, Bool, Option, none, some, List, String}
use dhtdynamic_audit_strateg.Metadata.{VersionedBlockMetadata}
use dhtdynamic_audit_strateg.CoreLib.Crypto.{Sm9}
use dhtdynamic_audit_strateg.CoreLib.TagSet.{TagSets}

-- `Messages::Tag`.
pub data Tag (G1 : Type 0) : Type 0 where
  dht_tag : G1 → Tag G1
  other_tag : Tag G1

-- `Messages::MaintenanceOpType`, an integer that was cast to the enumeration.
pub data MaintenanceOpType : Type 0 where
  update insert delete : MaintenanceOpType
  unsupported : ℕ → MaintenanceOpType

-- `Data::AuditBlockSource`, a window of blocks.
pub record AuditBlockSource : Type 0 where
  pub global_block_start_index : ℕ
  pub available_block_count : ℕ
  pub block : ℕ → List ℕ

-- In each extension `state_store` says whether the pointer is not null: the store itself is the
-- state that a stage runs on.
pub record MaintainExt : Type 0 where
  pub file_id : String
  pub op_type : MaintenanceOpType
  pub block_indices : List ℕ
  pub state_store : Bool

module _ ⦃sm9 : Sm9⦄ where
  open sm9 use {Scalar, G1, G2, Gt}

  pub record PublicParams : Type 0 where
    pub pk : G2
    pub g : G2
    pub y : G2
    pub u : G1

  pub record PrivateParams : Type 0 where
    pub sk : Scalar
    pub a : Scalar

  -- `Messages::AlgoPublicParams`: the two classes of params.h, or another one.
  pub data AlgoPublicParams : Type 0 where
    algo_public : AlgoPublicParams
    user_public : PublicParams → AlgoPublicParams
    other_public : AlgoPublicParams

  pub data AlgoPrivateParams : Type 0 where
    algo_private : AlgoPrivateParams
    user_private : PrivateParams → AlgoPrivateParams
    other_private : AlgoPrivateParams

  abbrev pub as_user_public : AlgoPublicParams → Option PublicParams
  as_user_public (user_public p) = some p
  as_user_public _ = none

  abbrev pub as_user_private : AlgoPrivateParams → Option PrivateParams
  as_user_private (user_private p) = some p
  as_user_private _ = none

  pub record ChallengeItem : Type 0 where
    pub block_index : ℕ
    pub nu : Scalar
    pub metadata : VersionedBlockMetadata

  pub record DhtChallenges : Type 0 where
    pub blind_point : G2
    pub blind_scalar : Scalar
    pub items : List ChallengeItem
    pub block_count : ℕ

  -- `Messages::Challenges`.
  pub data Challenges : Type 0 where
    dht_challenges : DhtChallenges → Challenges
    other_challenges : Challenges

  pub record DhtProves : Type 0 where
    pub theta : Gt
    pub lambda : Gt

  -- `Messages::Proves`.
  pub data Proves : Type 0 where
    dht_proves : DhtProves → Proves
    other_proves : Proves

  pub record KeyGenExt : Type 0 where
    pub seed : Option ℕ

  pub record TagsGenExt : Type 0 where
    pub file_id : String
    pub user_public_params : Option PublicParams
    pub user_private_params : Option PrivateParams
    pub state_store : Bool

  pub record ChallengeExt : Type 0 where
    pub file_id : String
    pub user_public_params : Option PublicParams
    pub block_count : ℕ
    pub challenge_count : ℕ
    pub use_pseudo_random : Bool
    pub seed : Option ℕ
    pub state_store : Bool

  pub record VerifyExt : Type 0 where
    pub file_id : String
    pub user_public_params : Option PublicParams

  module _ ⦃tag_sets : TagSets (Tag G1)⦄ where
    open tag_sets use {Tags}

    pub record ProveExt : Type 0 where
      pub tags : Option Tags
      pub blocks : Option AuditBlockSource
      pub user_public_params : Option PublicParams

    -- `Messages::StageExtBase`.
    pub data StageExt : Type 0 where
      algo_init_ext : StageExt
      key_gen_ext : KeyGenExt → StageExt
      tags_gen_ext : TagsGenExt → StageExt
      challenge_ext : ChallengeExt → StageExt
      prove_ext : ProveExt → StageExt
      verify_ext : VerifyExt → StageExt
      maintain_ext : MaintainExt → StageExt
      other_ext : StageExt
