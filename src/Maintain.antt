-- ===== src/Maintain.antt =====
-- maintain.cpp: the maintenance stage. It changes the state store only.
pub mod Ops
pub mod Effects
pub mod Freshness
pub mod Rehashed
use dhtdynamic_audit_strateg.Base.{
  ℕ, Bool, true, false, Option, none, some, List, [], ◌∷◌, String, str_eq, if◌then◌else◌,
}
use dhtdynamic_audit_strateg.Exec.{
  Exec, Outcome, done, threw, pure, throw, ◌>>=◌, ◌>>◌, ext_missing, ext_type, file_id_missing,
  store_missing, file_unknown, op_unsupported, indices_missing, not_versioned,
}
use dhtdynamic_audit_strateg.Metadata.{BlockMetadata, versioned, other}
use dhtdynamic_audit_strateg.CoreLib.Collection.{Collections}
use dhtdynamic_audit_strateg.CoreLib.Crypto.{Sm9}
use dhtdynamic_audit_strateg.CoreLib.TagSet.{TagSets}
use dhtdynamic_audit_strateg.Messages.{
  Tag, MaintenanceOpType, update, insert, delete, unsupported, MaintainExt, StageExt, maintain_ext,
}
use dhtdynamic_audit_strateg.Store.{
  Store, Metadata, has_file, read_clock, get_block_metadata, modify_block, insert_block,
  delete_block,
}

module _ ⦃core : Collections⦄ where
  abbrev pub require_versioned : Metadata → Exec Store (Unit {0})
  require_versioned (versioned m) = pure tt
  require_versioned (other o) = throw not_versioned

  -- The loops of the handlers.
  unfoldable pub update_blocks : String → List ℕ → Exec Store (Unit {0})
  update_blocks id [] = pure tt
  update_blocks id (b ∷ bs) = do
    existing ← get_block_metadata id b
    require_versioned existing
    modify_block id b
    update_blocks id bs

  unfoldable pub insert_blocks : String → List ℕ → Exec Store (Unit {0})
  insert_blocks id [] = pure tt
  insert_blocks id (b ∷ bs) = do insert_block id b; insert_blocks id bs

  unfoldable pub delete_blocks : String → List ℕ → Exec Store (Unit {0})
  delete_blocks id [] = pure tt
  delete_blocks id (b ∷ bs) = do delete_block id b; delete_blocks id bs

  abbrev pub unless_empty : List ℕ → Exec Store (Unit {0}) → Exec Store (Unit {0})
  unless_empty [] m = throw indices_missing
  unless_empty (b ∷ bs) m = m

  unfoldable pub handle_update : MaintainExt → Exec Store (Unit {0})
  handle_update ext = unless_empty ext.block_indices (update_blocks ext.file_id ext.block_indices)

  unfoldable pub handle_insert : MaintainExt → Exec Store (Unit {0})
  handle_insert ext = unless_empty ext.block_indices (insert_blocks ext.file_id ext.block_indices)

  unfoldable pub handle_delete : MaintainExt → Exec Store (Unit {0})
  handle_delete ext = unless_empty ext.block_indices (delete_blocks ext.file_id ext.block_indices)

  abbrev pub dispatch : MaintenanceOpType → MaintainExt → Exec Store (Unit {0})
  dispatch update ext = handle_update ext
  dispatch insert ext = handle_insert ext
  dispatch delete ext = handle_delete ext
  dispatch (unsupported n) ext = throw op_unsupported

  -- The stage once the extension has its type. The time that it reads is passed on and not used.
  unfoldable pub maintain : MaintainExt → Exec Store (Unit {0})
  unfolding read_clock has_file
  maintain ext s =
      if str_eq ext.file_id ""
      then threw file_id_missing s
      else if ext.state_store
      then (if has_file s ext.file_id
          then (do now ← read_clock; dispatch ext.op_type ext) s
          else threw file_unknown s)
      else threw store_missing s

  module _ ⦃sm9 : Sm9⦄ ⦃tag_sets : TagSets (Tag sm9.G1)⦄ where
    unfoldable pub maintenance : Option StageExt → Exec Store (Unit {0})
    maintenance none = throw ext_missing
    maintenance (some (maintain_ext ext)) = maintain ext
    maintenance (some _) = throw ext_type
