-- ===== src/Requests/Reading.antt =====
-- The keys of the inputs, and the reading of what may be there or not.
use dhtdynamic_audit_strateg.Base.{ℕ, ◌≡◌, Option, none, some, List, String}
use dhtdynamic_audit_strateg.Fallible.{Fallible, returned, raised}
use dhtdynamic_audit_strateg.CoreLib.Input.{InputError}
use dhtdynamic_audit_strateg.Requests.Carried.{RequestError, input_error, selector_type}

-- `StageKeys`.
abbrev pub blocks_key : String
blocks_key = "blocks"

abbrev pub file_id_key : String
file_id_key = "fileId"

abbrev pub target_block_indices_key : String
target_block_indices_key = "targetBlockIndices"

abbrev pub seed_key : String
seed_key = "seed"

abbrev pub block_count_key : String
block_count_key = "blockCount"

abbrev pub challenge_count_key : String
challenge_count_key = "challengeCount"

abbrev pub use_pseudo_random_key : String
use_pseudo_random_key = "usePseudoRandom"

abbrev pub tags_key : String
tags_key = "tags"

abbrev pub op_type_key : String
op_type_key = "opType"

abbrev pub block_indices_key : String
block_indices_key = "blockIndices"

-- A call of the core library.
abbrev pub input : {A : Type 0} → Fallible InputError A → Fallible RequestError A
input (returned a) = returned a
input (raised e) = raised (input_error e)

pub input_returned :
    {A : Type 0} (m : Fallible InputError A) (a b : A)
    → m ≡ returned a
    → input m ≡ returned b
    → a ≡ b
input_returned (returned c) a b p q = cc
input_returned (raised e) a b p q = cc

abbrev pub or_default : {A : Type 0} → A → Option A → A
or_default a none = a
or_default a (some b) = b

-- `root.isMember(key) && root[key].isT()`, and the value.
abbrev pub test_member : {J A : Type 0} → Option J → (J → Option A) → Option A
test_member none is = none
test_member (some j) is = is j

-- The value of a selector that is there, which must hold indices.
abbrev pub read_indices : Option (List ℕ) → Fallible RequestError (Option (List ℕ))
read_indices none = raised selector_type
read_indices (some indices) = returned (some indices)
