-- ===== src/Tests/ToyInput.antt =====
-- Documents and data maps that compute.
use dhtdynamic_audit_strateg.Base.{
  ℕ, zero, suc, ◌<◌, ◌≡◌, Bool, Option, none, some, List, String, map, arith, ltb, if◌then◌else◌,
  word_mod,
}
use dhtdynamic_audit_strateg.Base.Assoc.{find}
use dhtdynamic_audit_strateg.Fallible.{Fallible, returned, raised}
use dhtdynamic_audit_strateg.CoreLib.Input.{
  InputError, wrong_kind, key_missing, not_a_number, Inputs,
}
use dhtdynamic_audit_strateg.Messages.{
  Tag, AuditBlockSource, MaintenanceOpType, update, insert, delete, unsupported,
}
use dhtdynamic_audit_strateg.Tests.Toy.{toy_sm9, toy_tags}

pub data Scalar : Type 0 where
  number : ℕ → Scalar
  text : String → Scalar
  flag : Bool → Scalar
  numbers : List ℕ → Scalar

pub data ToyJson : Type 0 where
  scalar : Scalar → ToyJson
  document : List (String × Scalar) → ToyJson

pub data ToyValue : Type 0 where
  blocks_value : Option AuditBlockSource → ToyValue
  tags_value : Option (ℕ → Option (Tag ℕ)) → ToyValue
  text_value : String → ToyValue
  indices_value : List ℕ → ToyValue

pub data ToyRaw : Type 0 where
  no_input : ToyRaw
  json_input : ToyJson → ToyRaw
  map_input : List (String × ToyValue) → ToyRaw

abbrev pub toy_require_json : ToyRaw → Fallible InputError ToyJson
toy_require_json (json_input j) = returned j
toy_require_json _ = raised wrong_kind

abbrev pub toy_require_custom : ToyRaw → Fallible InputError (List (String × ToyValue))
toy_require_custom (map_input values) = returned values
toy_require_custom _ = raised wrong_kind

abbrev pub as_scalar : Option Scalar → Option ToyJson
as_scalar none = none
as_scalar (some s) = some (scalar s)

unfoldable pub toy_member : String → ToyJson → Option ToyJson
unfolding find
toy_member key (document members) = as_scalar (find key members)
toy_member key _ = none

abbrev pub below_word : ℕ → Option ℕ
below_word n = if ltb n word_mod then some n else none

abbrev pub toy_uint64 : ToyJson → Option ℕ
toy_uint64 (scalar (number n)) = below_word n
toy_uint64 _ = none

abbrev pub toy_bool : ToyJson → Option Bool
toy_bool (scalar (flag b)) = some b
toy_bool _ = none

abbrev pub toy_string : ToyJson → Option String
toy_string (scalar (text s)) = some s
toy_string _ = none

abbrev pub toy_array : ToyJson → Option (List ToyJson)
toy_array (scalar (numbers ns)) = some (map (λ n. scalar (number n)) ns)
toy_array _ = none

abbrev pub number_or_error : Option ℕ → Fallible InputError ℕ
number_or_error none = raised not_a_number
number_or_error (some n) = returned n

abbrev pub toy_blocks : Option ToyValue → Fallible InputError (Option AuditBlockSource)
toy_blocks (some (blocks_value b)) = returned b
toy_blocks _ = raised key_missing

abbrev pub toy_tags_value : Option ToyValue → Fallible InputError (Option (ℕ → Option (Tag ℕ)))
toy_tags_value (some (tags_value t)) = returned t
toy_tags_value _ = raised key_missing

abbrev pub toy_text : Option ToyValue → Option String
toy_text (some (text_value s)) = some s
toy_text _ = none

abbrev pub toy_indices : ToyValue → Option (List ℕ)
toy_indices (indices_value ns) = some ns
toy_indices _ = none

abbrev pub toy_op : ℕ → MaintenanceOpType
toy_op zero = update
toy_op (suc zero) = insert
toy_op (suc (suc zero)) = delete
toy_op (suc (suc (suc n))) = unsupported n

below_word-bounds : (m n : ℕ) → below_word m ≡ some n → n < word_mod
below_word-bounds m n h = ground arith

pub toy_uint64-bounds : (j : ToyJson) (n : ℕ) → toy_uint64 j ≡ some n → n < word_mod
toy_uint64-bounds (scalar (number m)) n h = below_word-bounds m n h
toy_uint64-bounds (scalar (text s)) n h = cc
toy_uint64-bounds (scalar (flag b)) n h = cc
toy_uint64-bounds (scalar (numbers ns)) n h = cc
toy_uint64-bounds (document members) n h = cc

pub number_same : (o : Option ℕ) (n : ℕ) → o ≡ some n → number_or_error o ≡ returned n
number_same none n h = cc
number_same (some m) n h = cc

pub number_back : (o : Option ℕ) (n : ℕ) → number_or_error o ≡ returned n → o ≡ some n
number_back none n h = cc
number_back (some m) n h = cc

instance abbrev pub toy_inputs : Inputs (ℕ → Option (Tag ℕ))
toy_inputs = record {
  RawInput = ToyRaw;
  Json = ToyJson;
  DataMap = List (String × ToyValue);
  Value = ToyValue;
  require_json = λ op raw. toy_require_json raw;
  require_custom = λ op raw. toy_require_custom raw;
  member = toy_member;
  uint64 = toy_uint64;
  uint = toy_uint64;
  bool = toy_bool;
  string = toy_string;
  array = toy_array;
  as_uint64 = λ j. number_or_error (toy_uint64 j);
  value_to_string = toy_string;
  required_blocks = λ key values. toy_blocks (find key values);
  required_tags = λ key values. toy_tags_value (find key values);
  optional_string = λ key values. returned (toy_text (find key values));
  find_value = λ key values. find key values;
  as_indices = toy_indices;
  op_of_number = toy_op;
  uint64-bounds = toy_uint64-bounds;
  as_uint64-uint64 = λ j n. number_same (toy_uint64 j) n;
  as_uint64-bounds = λ j n h. toy_uint64-bounds j n (number_back (toy_uint64 j) n h);
}
