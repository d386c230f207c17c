-- ===== src/Reach/Stages.antt =====
-- The maintenance stage keeps what Store/Invariant says of the metadata.
use dhtdynamic_audit_strateg.Base.{
  ℕ, suc, Option, none, some, List, [], ◌∷◌, String, str_eq, word_pred, if◌then◌else◌,
}
use dhtdynamic_audit_strateg.Base.Assoc.{find}
use dhtdynamic_audit_strateg.Exec.{
  Exec, threw, or_throw, ◌>>◌, file_missing, block_null, file_unknown, store_missing,
  file_id_missing, Error,
}
use dhtdynamic_audit_strateg.Metadata.{versioned, other}
use dhtdynamic_audit_strateg.CoreLib.Collection.{Collections}
use dhtdynamic_audit_strateg.CoreLib.Crypto.{Sm9}
use dhtdynamic_audit_strateg.CoreLib.TagSet.{TagSets}
use dhtdynamic_audit_strateg.Messages.{
  Tag, MaintenanceOpType, update, insert, delete, unsupported, MaintainExt, StageExt, maintain_ext,
}
use dhtdynamic_audit_strateg.Store.{
  Store, Metadata, has_file, get_block_metadata, require_block, modify_block, insert_block,
  delete_block,
}
use dhtdynamic_audit_strateg.Store.Invariant.{Keeps}
use dhtdynamic_audit_strateg.Store.Invariant.Calls.{
  KeepsAfter, or_throw-Keeps, continue-Keeps, if-Keeps, modify_block-Keeps, insert_block-Keeps,
  delete_block-Keeps,
}
use dhtdynamic_audit_strateg.Maintain.{
  require_versioned, update_blocks, insert_blocks, delete_blocks, unless_empty, handle_update,
  handle_insert, handle_delete, dispatch, maintain, maintenance,
}

module _ ⦃core : Collections⦄ (P : Metadata → Type 0) where
  open core use {get_by_index, set_index}

  or_throw_read :
      (e : Error) (o : Option Metadata) (s : Store) → Keeps P s → KeepsAfter P (or_throw e o s)
  or_throw_read e none s h = h
  or_throw_read e (some m) s h = h

  pub get_block_metadata-Keeps :
      (id : String) (b : ℕ) (s : Store) → Keeps P s → KeepsAfter P (get_block_metadata id b s)
  unfolding get_block_metadata require_block
  get_block_metadata-Keeps id b s h =
      or_throw-Keeps P file_missing (find id s.files) s _ h
        λ r e. or_throw_read block_null (get_by_index (s.cells r) (word_pred b)) s h

  require_versioned-Keeps :
      (m : Metadata) (s : Store) → Keeps P s → KeepsAfter P (require_versioned m s)
  require_versioned-Keeps (versioned v) s h = h
  require_versioned-Keeps (other o) s h = h

  update_blocks-Keeps :
      (id : String) (bs : List ℕ) (s : Store) → Keeps P s → KeepsAfter P (update_blocks id bs s)
  unfolding update_blocks
  update_blocks-Keeps id [] s h = h
  update_blocks-Keeps id (b ∷ bs) s h =
      continue-Keeps P (get_block_metadata id b s)
        (λ m. require_versioned m >> (modify_block id b >> update_blocks id bs))
        (get_block_metadata-Keeps id b s h)
        λ existing s1 h1.
          continue-Keeps P (require_versioned existing s1)
            (λ x. modify_block id b >> update_blocks id bs) (require_versioned-Keeps existing s1 h1)
            λ u s2 h2.
              continue-Keeps P (modify_block id b s2) (λ x. update_blocks id bs)
                (modify_block-Keeps P id b s2 h2) λ v s3 h3. update_blocks-Keeps id bs s3 h3

  insert_blocks-Keeps :
      (id : String) (bs : List ℕ) (s : Store) → Keeps P s → KeepsAfter P (insert_blocks id bs s)
  unfolding insert_blocks
  insert_blocks-Keeps id [] s h = h
  insert_blocks-Keeps id (b ∷ bs) s h =
      continue-Keeps P (insert_block id b s) (λ x. insert_blocks id bs)
        (insert_block-Keeps P id b s h) λ u s1 h1. insert_blocks-Keeps id bs s1 h1

  delete_blocks-Keeps :
      (id : String) (bs : List ℕ) (s : Store) → Keeps P s → KeepsAfter P (delete_blocks id bs s)
  unfolding delete_blocks
  delete_blocks-Keeps id [] s h = h
  delete_blocks-Keeps id (b ∷ bs) s h =
      continue-Keeps P (delete_block id b s) (λ x. delete_blocks id bs)
        (delete_block-Keeps P id b s h) λ u s1 h1. delete_blocks-Keeps id bs s1 h1

  unless_empty-Keeps :
      (bs : List ℕ) (m : Exec Store (Unit {0})) (s : Store)
      → Keeps P s
      → KeepsAfter P (m s)
      → KeepsAfter P (unless_empty bs m s)
  unless_empty-Keeps [] m s h k = h
  unless_empty-Keeps (b ∷ bs) m s h k = k

  dispatch-Keeps :
      (op : MaintenanceOpType) (ext : MaintainExt) (s : Store)
      → Keeps P s
      → KeepsAfter P (dispatch op ext s)
  unfolding handle_update handle_insert handle_delete
  dispatch-Keeps update ext s h =
      unless_empty-Keeps ext.block_indices (update_blocks ext.file_id ext.block_indices) s h
        (update_blocks-Keeps ext.file_id ext.block_indices s h)
  dispatch-Keeps insert ext s h =
      unless_empty-Keeps ext.block_indices (insert_blocks ext.file_id ext.block_indices) s h
        (insert_blocks-Keeps ext.file_id ext.block_indices s h)
  dispatch-Keeps delete ext s h =
      unless_empty-Keeps ext.block_indices (delete_blocks ext.file_id ext.block_indices) s h
        (delete_blocks-Keeps ext.file_id ext.block_indices s h)
  dispatch-Keeps (unsupported n) ext s h = h

  pub reads-Keeps : (s : Store) (reads : ℕ) → Keeps P s → Keeps P (record s { reads = reads })
  reads-Keeps s reads h = record {
    entries = h.entries;
    makes = h.makes;
    registers = h.registers;
    bumps = h.bumps;
  }

  maintain-Keeps : (ext : MaintainExt) (s : Store) → Keeps P s → KeepsAfter P (maintain ext s)
  unfolding maintain
  maintain-Keeps ext s h =
      let t = record s { reads = suc s.reads } in
      let run = dispatch ext.op_type ext t in
      let known = if has_file s ext.file_id then run else threw file_unknown s in
      let stored = if ext.state_store then known else threw store_missing s in
      if-Keeps P (str_eq ext.file_id "") (threw file_id_missing s) stored h (
        if-Keeps P ext.state_store known (threw store_missing s)
          (if-Keeps P (has_file s ext.file_id) run (threw file_unknown s)
            (dispatch-Keeps ext.op_type ext t (reads-Keeps s (suc s.reads) h)) h)
          h)

  pub maintenance-Keeps :
      ⦃sm9 : Sm9⦄ ⦃tag_sets : TagSets (Tag sm9.G1)⦄
      → (ext : Option StageExt) (s : Store) → Keeps P s
      → KeepsAfter P (maintenance ext s)
  unfolding maintenance
  maintenance-Keeps none s h = h
  maintenance-Keeps (some (maintain_ext ext)) s h = maintain-Keeps ext s h
  maintenance-Keeps (some _) s h = h
