-- ===== src/Store/Spec.antt =====
-- What the state store promises: a map from file identifiers to lists of block metadata, numbered
-- from 1, and the operations on it.
use dhtdynamic_audit_strateg.Base.{
  ℕ, ◌+◌, ◌-◌, ◌≤◌, ◌<◌, ◌≡◌, Option, none, some, List, [], String, str_eq, leb, ◌==◌, ◌&&◌,
  if◌then◌else◌, word_mod, length, get_elem?, set, insert_idx, erase_idx,
}
use dhtdynamic_audit_strateg.Exec.{
  Exec, Outcome, done, threw, file_exists, file_missing, block_count_zero, block_null,
}
use dhtdynamic_audit_strateg.CoreLib.Collection.{Collections}
use dhtdynamic_audit_strateg.Store.Dense.{tabulate}
use dhtdynamic_audit_strateg.Store.{
  Store, Metadata, bump_metadata, add_file, add_file_blocks, remove_file, modify_block,
  insert_block, delete_block,
}

-- A call that changes the store. Block indices count from 1.
pub data StoreOp : Type 0 where
  adds removes : String → StoreOp
  adds_blocks modifies inserts deletes : String → ℕ → StoreOp

module _ ⦃core : Collections⦄ where
  abbrev pub Files : Type 0
  Files = String → Option (List Metadata)

  abbrev pub put_file : Files → String → Option (List Metadata) → Files
  put_file a id o j = if str_eq id j then o else a j

  unfoldable pub run_op : StoreOp → Exec Store (Unit {0})
  run_op (adds id) = add_file id
  run_op (removes id) = remove_file id
  run_op (adds_blocks id n) = add_file_blocks id n
  run_op (modifies id b) = modify_block id b
  run_op (inserts id b) = insert_block id b
  run_op (deletes id b) = delete_block id b

  abbrev pub bumped : ℕ → List Metadata → ℕ → Option Metadata → Option (List Metadata)
  bumped now xs i none = none
  bumped now xs i (some m) = some (set xs i (bump_metadata now m))

  abbrev pub modify_list : ℕ → List Metadata → ℕ → Option (List Metadata)
  modify_list now xs b = bumped now xs (b - 1) (get_elem? xs (b - 1))

  abbrev pub in_range : List Metadata → ℕ → Option (List Metadata) → Option (List Metadata)
  in_range xs b o = if leb 1 b && leb b (length xs) then o else none

  abbrev pub change : Files → String → Option (List Metadata) → Outcome Files (Unit {0})
  change a id none = threw block_null a
  change a id (some ys) = done tt (put_file a id (some ys))

  abbrev pub on_file :
      (List Metadata → Option (List Metadata))
      → Files
      → String
      → Option (List Metadata)
      → Outcome Files (Unit {0})
  on_file f a id none = threw file_missing a
  on_file f a id (some xs) = change a id (f xs)

  abbrev pub create_file :
      Outcome Files (Unit {0}) → Files → Option (List Metadata) → Outcome Files (Unit {0})
  create_file made a none = made
  create_file made a (some xs) = threw file_exists a

  abbrev pub drop_file : Files → String → Option (List Metadata) → Outcome Files (Unit {0})
  drop_file a id none = threw file_missing a
  drop_file a id (some xs) = done tt (put_file a id none)

  -- The operations on the abstract files. `make` is the metadata factory, and `readings i` is what
  -- the clock says at its `i`-th reading in this call.
  abbrev pub spec_op : (ℕ → Metadata) → (ℕ → ℕ) → StoreOp → Files → Outcome Files (Unit {0})
  spec_op make readings (adds id) a = create_file (done tt (put_file a id (some []))) a (a id)
  spec_op make readings (removes id) a = drop_file a id (a id)
  spec_op make readings (adds_blocks id n) a =
      create_file
        (if n == 0
          then threw block_count_zero a
          else done tt (put_file a id (some (tabulate (λ i. make (readings i)) n 0))))
        a (a id)
  spec_op make readings (modifies id b) a =
      on_file (λ xs. in_range xs b (modify_list (readings 0) xs b)) a id (a id)
  spec_op make readings (inserts id b) a =
      on_file (λ xs. some (insert_idx xs (b - 1) (make (readings 0)))) a id (a id)
  spec_op make readings (deletes id b) a =
      on_file (λ xs. in_range xs b (some (erase_idx xs (b - 1)))) a id (a id)

  -- Every file is shorter than `std::size_t` counts.
  abbrev pub AllShort : Files → Type 0
  AllShort a = (id : String) (xs : List Metadata) → a id ≡ some xs → length xs + 1 < word_mod

  -- An insertion is at one of the places from 1 to one past the end, and a block index is a
  -- `std::size_t`.
  abbrev pub Allowed : StoreOp → Files → Type 0
  Allowed (adds id) a = Unit
  Allowed (removes id) a = Unit
  Allowed (adds_blocks id n) a = Unit
  Allowed (modifies id b) a = b < word_mod
  Allowed (inserts id b) a = (xs : List Metadata) → a id ≡ some xs → (1 ≤ b) × (b ≤ length xs + 1)
  Allowed (deletes id b) a = b < word_mod
