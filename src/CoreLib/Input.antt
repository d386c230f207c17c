-- ===== src/CoreLib/Input.antt =====
-- The inputs of `createRequest` that the core library makes: the kind of operation, the JSON
-- documents (`Json::Value` of jsoncpp), and the maps from keys to values of any type (`AuditDataMap`).
use dhtdynamic_audit_strateg.Base.{ℕ, ◌<◌, ◌≡◌, Bool, Option, some, List, String, word_mod}
use dhtdynamic_audit_strateg.Fallible.{Fallible, returned}
use dhtdynamic_audit_strateg.Messages.{AuditBlockSource, MaintenanceOpType}

-- `Core::AuditOperation`, an integer that was cast to the enumeration.
pub data AuditOperation : Type 0 where
  algorithm_init key_generation generate_tags_op challenge_gen : AuditOperation
  proof_gen proof_verify maintenance_op : AuditOperation
  other_operation : ℕ → AuditOperation

-- An exception of the core library or of jsoncpp: the raw input is of another kind than asked for, or
-- no object; a required key is missing or of another type; a value is no number.
pub data InputError : Type 0 where
  wrong_kind key_missing not_a_number : InputError

pub record Inputs (Tags : Type 0) : Type 1 where
  pub RawInput : Type 0
  pub Json : Type 0
  pub DataMap : Type 0
  -- A value in a data map, `std::any`.
  pub Value : Type 0
  -- `requireJson`, whose result is then asked for its members, and `requireCustom<AuditDataMap>`.
  pub require_json : AuditOperation → RawInput → Fallible InputError Json
  pub require_custom : AuditOperation → RawInput → Fallible InputError DataMap
  -- `isMember` and the access to the member.
  pub member : String → Json → Option Json
  -- `isUInt64`, `isUInt`, `isBool`, `isString` and `isArray`, with the value if there is one.
  pub uint64 : Json → Option ℕ
  pub uint : Json → Option ℕ
  pub bool : Json → Option Bool
  pub string : Json → Option String
  pub array : Json → Option (List Json)
  -- `asUInt64` with no test before it.
  pub as_uint64 : Json → Fallible InputError ℕ
  -- `RawInput::jsonValueToString`: a string, or an array of bytes.
  pub value_to_string : Json → Option String
  -- `getRequired` at the two types of pointer, which may be null, and `getOptional` at strings.
  pub required_blocks : String → DataMap → Fallible InputError (Option AuditBlockSource)
  pub required_tags : String → DataMap → Fallible InputError (Option Tags)
  pub optional_string : String → DataMap → Fallible InputError (Option String)
  -- `find`, and `std::any_cast<std::vector<std::size_t>>`.
  pub find_value : String → DataMap → Option Value
  pub as_indices : Value → Option (List ℕ)
  -- `static_cast<MaintenanceOpType>` of an unsigned integer.
  pub op_of_number : ℕ → MaintenanceOpType
  pub uint64-bounds : (j : Json) (n : ℕ) → uint64 j ≡ some n → n < word_mod
  pub as_uint64-uint64 : (j : Json) (n : ℕ) → uint64 j ≡ some n → as_uint64 j ≡ returned n
  pub as_uint64-bounds : (j : Json) (n : ℕ) → as_uint64 j ≡ returned n → n < word_mod
