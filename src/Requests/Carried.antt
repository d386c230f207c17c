-- ===== src/Requests/Carried.antt =====
-- What `createRequest` reads and makes: `AuditOperationContext`, and the requests of the stages.
use dhtdynamic_audit_strateg.Base.{Bool, Option, none, some, String, str_eq, if◌then◌else◌}
use dhtdynamic_audit_strateg.Exec.{or_return}
use dhtdynamic_audit_strateg.CoreLib.Crypto.{Sm9}
use dhtdynamic_audit_strateg.CoreLib.TagSet.{TagSets}
use dhtdynamic_audit_strateg.CoreLib.Input.{InputError}
use dhtdynamic_audit_strateg.Messages.{
  Tag, MaintenanceOpType, PublicParams, PrivateParams, AlgoPublicParams, AlgoPrivateParams,
  as_user_public, as_user_private, StageExt, tags_gen_ext,
}
use dhtdynamic_audit_strateg.Tags.{GenerateTagsRequest, GenerateTagsResult}
use dhtdynamic_audit_strateg.Challenges.{GenerateChallengesResult}
use dhtdynamic_audit_strateg.Proofs.{
  GenerateProofsRequest, GenerateProofsResult, VerifyProofsRequest,
}

-- The exceptions of `createRequest`, one for each message, and those of the core library.
pub data RequestError : Type 0 where
  keys_missing params_missing file_id_missing selector_type : RequestError
  block_count_missing challenges_missing public_params_missing : RequestError
  proofs_missing file_id_type op_type_missing indices_type unknown_operation : RequestError
  input_error : InputError → RequestError

module _ ⦃sm9 : Sm9⦄ where
  -- `GenerateKeysResult` of the messages, as the context carries it: any classes of parameters.
  pub record ContextKeys : Type 0 where
    pub public_params : Option AlgoPublicParams
    pub private_params : Option AlgoPrivateParams

  -- `std::dynamic_pointer_cast` of the parameters of the context, which may be null.
  abbrev pub cast_public : Option AlgoPublicParams → Option PublicParams
  cast_public none = none
  cast_public (some p) = as_user_public p

  abbrev pub cast_private : Option AlgoPrivateParams → Option PrivateParams
  cast_private none = none
  cast_private (some p) = as_user_private p

  -- The cast where there is a result of the key stage.
  abbrev pub public_params_of : Option ContextKeys → Option PublicParams
  public_params_of none = none
  public_params_of (some keys) = cast_public keys.public_params

module _ ⦃sm9 : Sm9⦄ ⦃tag_sets : TagSets (Tag sm9.G1)⦄ where
  open tag_sets use {Tags}

  -- `state_store` says whether the pointer is not null.
  pub record Context : Type 0 where
    pub state_store : Bool
    pub keys_result : Option ContextKeys
    pub tags_result : Option GenerateTagsResult
    pub challenges_result : Option GenerateChallengesResult
    pub proofs_result : Option GenerateProofsResult

  pub record GenerateChallengesRequest : Type 0 where
    pub ext : Option StageExt
    pub tags : Option Tags

  pub record MaintainRequest : Type 0 where
    pub op_type : MaintenanceOpType
    pub ext : Option StageExt

  -- `AuditRequestVariant`. The requests of the first two stages hold an extension only.
  pub data AuditRequest : Type 0 where
    initialize_request : Option StageExt → AuditRequest
    keys_request : Option StageExt → AuditRequest
    tags_request : GenerateTagsRequest → AuditRequest
    challenges_request : GenerateChallengesRequest → AuditRequest
    proofs_request : GenerateProofsRequest → AuditRequest
    verify_request : VerifyProofsRequest → AuditRequest
    maintain_request : MaintainRequest → AuditRequest

  -- The file of the extension of a result of the tag stage, if it is one of this plugin.
  abbrev pub ext_file_id : Option StageExt → Option String
  ext_file_id (some (tags_gen_ext e)) = some e.file_id
  ext_file_id _ = none

  abbrev pub previous_file_id : Option GenerateTagsResult → Option String
  previous_file_id none = none
  previous_file_id (some result) = ext_file_id result.ext

  -- "Fill missing fileId from context".
  unfoldable pub fill_file_id : String → Option GenerateTagsResult → String
  fill_file_id id previous =
      if str_eq id "" then or_return (previous_file_id previous) id (λ p. p) else id
