-- ===== src/Plugin.antt =====
-- strategy.h and strategy.cpp: what the plugin makes for an engine, and the pointer that the strategy
-- holds.
use dhtdynamic_audit_strateg.Base.{ℕ, Bool, true, Option, none, some}
use dhtdynamic_audit_strateg.Run.{Run}
use dhtdynamic_audit_strateg.Fallible.{Fallible, returned, raised}
use dhtdynamic_audit_strateg.CoreLib.Collection.{Collections}
use dhtdynamic_audit_strateg.CoreLib.Crypto.{Sm9}
use dhtdynamic_audit_strateg.CoreLib.TagSet.{TagSets}
use dhtdynamic_audit_strateg.CoreLib.Random.{Randomness}
use dhtdynamic_audit_strateg.Messages.{Tag, StageExt}
use dhtdynamic_audit_strateg.Store.{Store, Metadata, empty_store}
use dhtdynamic_audit_strateg.Challenges.{GenerateChallengesResult, generate_challenges}

-- `algorithm` says whether the pointer to the algorithm is not null.
pub record Strategy : Type 0 where
  pub algorithm : Bool

-- The constructor makes an algorithm, which may throw.
abbrev pub construct : {E : Type 0} → Fallible E (Unit {0}) → Fallible E Strategy
construct (returned u) = returned (record { algorithm = true })
construct (raised e) = raised e

-- `try { return new ...; } catch (...) { return nullptr; }`
abbrev pub or_null : {E A : Type 0} → Fallible E A → Option A
or_null (returned a) = some a
or_null (raised e) = none

abbrev pub create_audit_strategy : {E : Type 0} → Fallible E (Unit {0}) → Option Strategy
create_audit_strategy made = or_null (construct made)

abbrev pub set_algorithm : Bool → Strategy → Strategy
set_algorithm algorithm strategy = record strategy { algorithm = algorithm }

module _ ⦃core : Collections⦄ where
  -- `createStateStore`, for a factory and with a clock.
  abbrev pub create_state_store : (ℕ → Metadata) → (ℕ → ℕ) → Store
  create_state_store metadata_factory clock = empty_store metadata_factory clock

  module _ ⦃sm9 : Sm9⦄ ⦃tag_sets : TagSets (Tag sm9.G1)⦄ ⦃randomness : Randomness⦄ where
    -- The challenge stage of a strategy, which looks at the pointer.
    abbrev pub challenges_of : Strategy → ℕ → Option StageExt → Store → Run GenerateChallengesResult
    challenges_of strategy fuel input_ext s =
        generate_challenges strategy.algorithm fuel input_ext s
