-- ===== src/Maintain/Ops.antt =====
-- The maintenance stage as a sequence of calls of the store.
use dhtdynamic_audit_strateg.Base.{
  ℕ, suc, ◌≡◌, ◌≢◌, refl, ap, ◌∙◌, Bool, true, false, List, [], ◌∷◌, map, String, str_eq, arith,
  inl, inr, Option-cases, word_pred,
}
use dhtdynamic_audit_strateg.Base.Assoc.{find}
use dhtdynamic_audit_strateg.Exec.{Exec, Outcome, done, threw, continue}
use dhtdynamic_audit_strateg.Metadata.{versioned, other}
use dhtdynamic_audit_strateg.CoreLib.Collection.{Collections}
use dhtdynamic_audit_strateg.Messages.{
  MaintenanceOpType, update, insert, delete, unsupported, MaintainExt,
}
use dhtdynamic_audit_strateg.Store.Spec.{StoreOp, modifies, inserts, deletes, Files, run_op}
use dhtdynamic_audit_strateg.Store.Runs.{run_ops, spec_ops, Runnable, run_ops-Refines}
use dhtdynamic_audit_strateg.Store.Relation.{Refines, Agrees, reads-Refines}
use dhtdynamic_audit_strateg.Store.{
  Store, AllVersioned, has_file, bump_metadata, get_block_metadata, modify_block,
}
use dhtdynamic_audit_strateg.Maintain.{
  update_blocks, insert_blocks, delete_blocks, handle_update, handle_insert, handle_delete,
  maintain, require_versioned, unless_empty, dispatch,
}

module _ {S A : Type 0} where
  continue-congr :
      (o : Outcome S (Unit {0})) (k l : Exec S A)
      → ((t : S) → o ≡ done tt t → k t ≡ l t)
      → continue o (λ _. k) ≡ continue o (λ _. l)
  continue-congr (done u t) k l h = h t refl
  continue-congr (threw e t) k l h = refl

abbrev pub op_on : MaintenanceOpType → String → ℕ → StoreOp
op_on update = modifies
op_on insert = inserts
op_on delete = deletes
op_on (unsupported n) = deletes

abbrev pub is_supported : MaintenanceOpType → Bool
is_supported (unsupported n) = false
is_supported _ = true

module _ ⦃core : Collections⦄ where
  open core use {get_by_index, set_index, get-set}

  pub insert_blocks-eq-run_ops :
      (id : String) (bs : List ℕ) → insert_blocks id bs ≡ run_ops (map (inserts id) bs)
  unfolding insert_blocks run_ops run_op
  insert_blocks-eq-run_ops id [] = refl
  insert_blocks-eq-run_ops id (b ∷ bs) = rw (insert_blocks-eq-run_ops id bs)

  pub delete_blocks-eq-run_ops :
      (id : String) (bs : List ℕ) → delete_blocks id bs ≡ run_ops (map (deletes id) bs)
  unfolding delete_blocks run_ops run_op
  delete_blocks-eq-run_ops id [] = refl
  delete_blocks-eq-run_ops id (b ∷ bs) = rw (delete_blocks-eq-run_ops id bs)

  checked_modify :
      (id : String) (b : ℕ) (s : Store) (k : Exec Store (Unit {0}))
      → AllVersioned s
      → continue
          (get_block_metadata id b s)
          (λ m t. continue (require_versioned m t) (λ _ t. continue (modify_block id b t) (λ _. k)))
        ≡ continue (modify_block id b s) (λ _. k)
  unfolding get_block_metadata modify_block
  checked_modify id b s k all = elim (Option-cases (find id s.files)) [
    | inl missing ↦ rw missing refl
    | inr (r, p) ↦ elim (Option-cases (get_by_index (s.cells r) (word_pred b))) [
      | inl gone ↦ rw (p, gone) refl
      | inr (versioned v, q) ↦ rw (p, q, p, q) refl
      | inr (other o, q) ↦ let e = all r (word_pred b) (other o) q in cc
    ]
  ]

  -- A successful change leaves all metadata versioned.
  modify_block-AllVersioned :
      (id : String) (b : ℕ) (s t : Store)
      → AllVersioned s
      → modify_block id b s ≡ done tt t
      → AllVersioned t
  unfolding modify_block bump_metadata
  modify_block-AllVersioned id b s t all e q i m h = elim (Option-cases (find id s.files)) [
    | inl missing ↦ ground arith
    | inr (r, p) ↦ elim (Option-cases (get_by_index (s.cells r) (word_pred b))) [
      | inl gone ↦ ground arith
      | inr (m', p') ↦ ground (
        arith,
        all r (word_pred b) m' p',
        all q i m,
        get-set (s.cells r) (word_pred b) i (bump_metadata (s.clock s.reads) m'),
      )
    ]
  ]

  pub update_blocks-eq-run_ops :
      (id : String) (bs : List ℕ) (s : Store)
      → AllVersioned s
      → update_blocks id bs s ≡ run_ops (map (modifies id) bs) s
  unfolding update_blocks run_ops run_op
  update_blocks-eq-run_ops id [] s all = refl
  update_blocks-eq-run_ops id (b ∷ bs) s all =
      checked_modify id b s (update_blocks id bs) all
      ∙ continue-congr (modify_block id b s) _ _
          (λ t e. update_blocks-eq-run_ops id bs t (modify_block-AllVersioned id b s t all e))

  -- The calls of the store that a request asks for.
  abbrev pub maintenance_ops : MaintainExt → List StoreOp
  maintenance_ops ext = map (op_on ext.op_type ext.file_id) ext.block_indices

  unless_nonempty : (bs : List ℕ) (m : Exec Store (Unit {0})) → bs ≢ [] → unless_empty bs m ≡ m
  unless_nonempty [] m h = absurd (h refl)
  unless_nonempty (b ∷ bs) m h = refl

  dispatch-eq-run_ops :
      (op : MaintenanceOpType) (ext : MaintainExt) (t : Store)
      → AllVersioned t
      → is_supported op ≡ true
      → ext.block_indices ≢ []
      → dispatch op ext t ≡ run_ops (map (op_on op ext.file_id) ext.block_indices) t
  unfolding handle_update handle_insert handle_delete
  dispatch-eq-run_ops update ext t all known some_index =
      rw
        (unless_nonempty ext.block_indices (update_blocks ext.file_id ext.block_indices) some_index)
        (update_blocks-eq-run_ops ext.file_id ext.block_indices t all)
  dispatch-eq-run_ops insert ext t all known some_index =
      rw
        (unless_nonempty ext.block_indices (insert_blocks ext.file_id ext.block_indices) some_index)
        (ap (λ m. m t) (insert_blocks-eq-run_ops ext.file_id ext.block_indices))
  dispatch-eq-run_ops delete ext t all known some_index =
      rw
        (unless_nonempty ext.block_indices (delete_blocks ext.file_id ext.block_indices) some_index)
        (ap (λ m. m t) (delete_blocks-eq-run_ops ext.file_id ext.block_indices))
  dispatch-eq-run_ops (unsupported n) ext t all known some_index = cc

  -- What a request must have for the stage to reach the store.
  pub record IsServed (ext : MaintainExt) (s : Store) : Type 0 where
    pub supported : is_supported ext.op_type ≡ true
    pub named : str_eq ext.file_id "" ≡ false
    pub with_store : ext.state_store ≡ true
    pub known : has_file s ext.file_id ≡ true
    pub some_index : ext.block_indices ≢ []

  maintain-eq-run_ops :
      (ext : MaintainExt) (s : Store)
      → AllVersioned s
      → IsServed ext s
      → maintain ext s ≡ run_ops (maintenance_ops ext) (record s { reads = suc s.reads })
  unfolding maintain
  maintain-eq-run_ops ext s all served =
      simp (served.named, served.with_store, served.known)
        (dispatch-eq-run_ops ext.op_type ext (record s { reads = suc s.reads }) all served.supported
          served.some_index)

  -- Maintenance does to the abstract files, for each index of the request in its order, what the
  -- operation says, up to the first that throws: where the request passes the checks of the stage,
  -- all metadata is versioned, and the conditions of each call hold. The stage reads the clock once
  -- before the first call.
  pub maintain-Refines :
      (ext : MaintainExt) (s : Store) (a : Files)
      → Refines s a
      → AllVersioned s
      → IsServed ext s
      → Runnable s.metadata_factory s.clock (suc s.reads) (maintenance_ops ext) a
      → Agrees
          (maintain ext s)
          (spec_ops s.metadata_factory s.clock (suc s.reads) (maintenance_ops ext) a)
  maintain-Refines ext s a h all served ok = rw (maintain-eq-run_ops ext s all served) (
      run_ops-Refines (maintenance_ops ext) (record s { reads = suc s.reads }) a
        (reads-Refines s a (suc s.reads) h) ok)
