-- ===== src/Initialize.antt =====
-- initialize_algorithm.cpp: the stage makes empty parameters, since keys are made for each user.
use dhtdynamic_audit_strateg.Base.{Bool, true, false, Option, none, some}
use dhtdynamic_audit_strateg.CoreLib.Crypto.{Sm9}
use dhtdynamic_audit_strateg.CoreLib.TagSet.{TagSets}
use dhtdynamic_audit_strateg.Messages.{
  Tag, StageExt, algo_init_ext, AlgoPublicParams, algo_public, AlgoPrivateParams, algo_private,
}

-- The texts of the result.
pub data InitializeReason : Type 0 where
  init_ext_required algorithm_initialized : InitializeReason

module _ ⦃sm9 : Sm9⦄ where
  pub record InitializeAlgorithmResult : Type 0 where
    pub ok : Bool
    pub reason : InitializeReason
    pub public_params : Option AlgoPublicParams
    pub private_params : Option AlgoPrivateParams

  unfoldable pub initialize_algorithm :
      ⦃tag_sets : TagSets (Tag sm9.G1)⦄ → Option StageExt → InitializeAlgorithmResult
  initialize_algorithm (some algo_init_ext) = record {
    ok = true;
    reason = algorithm_initialized;
    public_params = some algo_public;
    private_params = some algo_private;
  }
  initialize_algorithm _ = record {
    ok = false;
    reason = init_ext_required;
    public_params = none;
    private_params = none;
  }
