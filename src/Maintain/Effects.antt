-- ===== src/Maintain/Effects.antt =====
-- What the maintenance stage leaves behind when it throws.
use dhtdynamic_audit_strateg.Base.{
  ℕ, suc, ◌≡◌, ◌≢◌, refl, subst, ◌⊎◌, inl, inr, true, Option, none, some, List, [], ◌∷◌, ◌++◌,
  String, str_eq, arith, Bool-cases,
}
use dhtdynamic_audit_strateg.Exec.{
  Error, Exec, Outcome, done, threw, continue, Outcome-cases, block_null, not_versioned,
}
use dhtdynamic_audit_strateg.CoreLib.Collection.{Collections}
use dhtdynamic_audit_strateg.CoreLib.Crypto.{Sm9}
use dhtdynamic_audit_strateg.CoreLib.TagSet.{TagSets}
use dhtdynamic_audit_strateg.Messages.{
  Tag, MaintenanceOpType, update, insert, delete, unsupported, MaintainExt, StageExt, maintain_ext,
  algo_init_ext, key_gen_ext, tags_gen_ext, challenge_ext, prove_ext, verify_ext, other_ext,
}
use dhtdynamic_audit_strateg.Store.{
  Store, has_file, get_block_metadata, modify_block, insert_block, delete_block,
}
use dhtdynamic_audit_strateg.Maintain.{
  update_blocks, insert_blocks, delete_blocks, handle_update, handle_insert, handle_delete,
  maintain, maintenance, require_versioned, unless_empty, dispatch,
}

module _ ⦃core : Collections⦄ where
  abbrev pub IsBlockError : Error → Type 0
  IsBlockError e = (e ≡ block_null) ⊎ (e ≡ not_versioned)

  -- A call on a file of the store either keeps its files, or throws because of a block.
  abbrev Steady : String → Outcome Store (Unit {0}) → Type 0
  Steady id (done u t) = has_file t id ≡ true
  Steady id (threw e t) = IsBlockError e

  modify_block-Steady :
      (id : String) (b : ℕ) (s : Store) → has_file s id ≡ true → Steady id (modify_block id b s)
  unfolding modify_block has_file
  modify_block-Steady id b s h = ground arith

  insert_block-Steady :
      (id : String) (b : ℕ) (s : Store) → has_file s id ≡ true → Steady id (insert_block id b s)
  unfolding insert_block has_file
  insert_block-Steady id b s h = ground arith

  delete_block-Steady :
      (id : String) (b : ℕ) (s : Store) → has_file s id ≡ true → Steady id (delete_block id b s)
  unfolding delete_block has_file
  delete_block-Steady id b s h = ground arith

  continue-Steady :
      (id : String) (o : Outcome Store (Unit {0})) (k : Exec Store (Unit {0}))
      → Steady id o
      → ((t : Store) → has_file t id ≡ true → Steady id (k t))
      → Steady id (continue o (λ _. k))
  continue-Steady id (done u t) k h next = next t h
  continue-Steady id (threw e t) k h next = h

  checked-Steady :
      (id : String) (b : ℕ) (s : Store) (k : Exec Store (Unit {0}))
      → has_file s id ≡ true
      → Steady id (k s)
      → Steady id
          (continue (get_block_metadata id b s) (λ m t. continue (require_versioned m t) (λ _. k)))
  unfolding get_block_metadata has_file
  checked-Steady id b s k h next = ground arith

  update_blocks-Steady :
      (id : String) (bs : List ℕ) (s : Store)
      → has_file s id ≡ true
      → Steady id (update_blocks id bs s)
  unfolding update_blocks
  update_blocks-Steady id [] s h = h
  update_blocks-Steady id (b ∷ bs) s h = checked-Steady id b s _ h (
      continue-Steady id (modify_block id b s) (update_blocks id bs) (modify_block-Steady id b s h)
        (update_blocks-Steady id bs))

  insert_blocks-Steady :
      (id : String) (bs : List ℕ) (s : Store)
      → has_file s id ≡ true
      → Steady id (insert_blocks id bs s)
  unfolding insert_blocks
  insert_blocks-Steady id [] s h = h
  insert_blocks-Steady id (b ∷ bs) s h =
      continue-Steady id (insert_block id b s) (insert_blocks id bs) (insert_block-Steady id b s h)
        (insert_blocks-Steady id bs)

  delete_blocks-Steady :
      (id : String) (bs : List ℕ) (s : Store)
      → has_file s id ≡ true
      → Steady id (delete_blocks id bs s)
  unfolding delete_blocks
  delete_blocks-Steady id [] s h = h
  delete_blocks-Steady id (b ∷ bs) s h =
      continue-Steady id (delete_block id b s) (delete_blocks id bs) (delete_block-Steady id b s h)
        (delete_blocks-Steady id bs)

  -- The files and their collections are as they were.
  pub record SameFiles (s t : Store) : Type 0 where
    pub files : t.files ≡ s.files
    pub cells : t.cells ≡ s.cells
    pub next_cell : t.next_cell ≡ s.next_cell

  abbrev Harmless : Store → Outcome Store (Unit {0}) → Type 0
  Harmless s (done u t) = Unit
  Harmless s (threw e t) = IsBlockError e ⊎ SameFiles s t

  Harmless-of_Steady :
      (s : Store) (id : String) (o : Outcome Store (Unit {0})) → Steady id o → Harmless s o
  Harmless-of_Steady s id (done u t) h = tt
  Harmless-of_Steady s id (threw e t) h = inl h

  unless_empty-Harmless :
      (s t : Store) (bs : List ℕ) (m : Exec Store (Unit {0}))
      → SameFiles s t
      → Harmless s (m t)
      → Harmless s (unless_empty bs m t)
  unless_empty-Harmless s t [] m same h = inr same
  unless_empty-Harmless s t (b ∷ bs) m same h = h

  dispatch-Harmless :
      (op : MaintenanceOpType) (ext : MaintainExt) (s t : Store)
      → SameFiles s t
      → has_file t ext.file_id ≡ true
      → Harmless s (dispatch op ext t)
  unfolding handle_update handle_insert handle_delete
  dispatch-Harmless update ext s t same h =
      unless_empty-Harmless s t ext.block_indices _ same (
        Harmless-of_Steady s ext.file_id _ (update_blocks-Steady ext.file_id ext.block_indices t h))
  dispatch-Harmless insert ext s t same h =
      unless_empty-Harmless s t ext.block_indices _ same (
        Harmless-of_Steady s ext.file_id _ (insert_blocks-Steady ext.file_id ext.block_indices t h))
  dispatch-Harmless delete ext s t same h =
      unless_empty-Harmless s t ext.block_indices _ same (
        Harmless-of_Steady s ext.file_id _ (delete_blocks-Steady ext.file_id ext.block_indices t h))
  dispatch-Harmless (unsupported n) ext s t same h = inr same

  abbrev counted : Store → Store
  counted s = record s { reads = suc s.reads }

  has_file-counted :
      (s : Store) (id : String) → has_file s id ≡ true → has_file (counted s) id ≡ true
  unfolding has_file
  has_file-counted s id h = h

  maintain-Harmless : (ext : MaintainExt) (s : Store) → Harmless s (maintain ext s)
  unfolding maintain
  maintain-Harmless ext s =
      let same : SameFiles s s = record { files = refl; cells = refl; next_cell = refl } in
      let after : SameFiles s (counted s) = record {
        files = refl;
        cells = refl;
        next_cell = refl;
      } in
      elim (Bool-cases (str_eq ext.file_id "")) [
        | inl unnamed ↦ rw unnamed (inr same)
        | inr named ↦ elim (Bool-cases ext.state_store) [
          | inl given ↦ elim (Bool-cases (has_file s ext.file_id)) [
            | inl known ↦
                simp (named, given, known)
                  (dispatch-Harmless ext.op_type ext s (counted s) after
                    (has_file-counted s ext.file_id known))
            | inr unknown ↦ simp (named, given, unknown) (inr same)
          ]
          | inr absent ↦ simp (named, absent) (inr same)
        ]
      ]

module _ ⦃core : Collections⦄ ⦃sm9 : Sm9⦄ ⦃tag_sets : TagSets (Tag sm9.G1)⦄ where
  -- The stage leaves the files and their collections as they were whenever it throws for any other
  -- reason than a block that is missing or is not versioned.
  pub maintenance_harmless :
      (ext : Option StageExt) (s t : Store) (e : Error)
      → maintenance ext s ≡ threw e t
      → e ≢ block_null
      → e ≢ not_versioned
      → SameFiles s t
  unfolding maintenance
  maintenance_harmless ext s t e h not_null not_type =
      settle (maintenance ext s) h (all_harmless ext)
    where
      same : SameFiles s s
      same = record { files = refl; cells = refl; next_cell = refl }

      all_harmless : (x : Option StageExt) → Harmless s (maintenance x s)
      all_harmless none = inr same
      all_harmless (some (maintain_ext m)) = maintain-Harmless m s
      all_harmless (some algo_init_ext) = inr same
      all_harmless (some (key_gen_ext x)) = inr same
      all_harmless (some (tags_gen_ext x)) = inr same
      all_harmless (some (challenge_ext x)) = inr same
      all_harmless (some (prove_ext x)) = inr same
      all_harmless (some (verify_ext x)) = inr same
      all_harmless (some other_ext) = inr same

      settle : (o : Outcome Store (Unit {0})) → o ≡ threw e t → Harmless s o → SameFiles s t
      settle (done u t') p q = cc
      settle (threw f t') p (inl (inl q)) = absurd (not_null (cc))
      settle (threw f t') p (inl (inr q)) = absurd (not_type (cc))
      settle (threw f t') p (inr q) = subst (SameFiles s) (cc) q

module _ ⦃core : Collections⦄ where
  delete_block_threw :
      (id : String) (b : ℕ) (t u : Store) (e : Error) → delete_block id b t ≡ threw e u → u ≡ t
  unfolding delete_block
  delete_block_threw id b t u e h = ground arith

  -- A deletion that fails part of the way keeps what it has done: where the first indices of a
  -- request are deleted and the next is not there, the stage's loop throws, and leaves the store
  -- without the first ones.
  pub delete_blocks_partial :
      (id : String) (bs cs : List ℕ) (b : ℕ) (s t u : Store) (e : Error)
      → delete_blocks id bs s ≡ done tt t
      → delete_block id b t ≡ threw e u
      → delete_blocks id (bs ++ b ∷ cs) s ≡ threw e t
  unfolding delete_blocks
  delete_blocks_partial id [] cs b s t u e p q =
      let same : s ≡ t = cc in
      let kept : u ≡ t = delete_block_threw id b t u e q in rw (same, q, kept) refl
  delete_blocks_partial id (a ∷ bs) cs b s t u e p q = elim (Outcome-cases (delete_block id a s)) [
    | inl (s', r) ↦ rw r (delete_blocks_partial id bs cs b s' t u e (rw r at p) q)
    | inr (f, s', r) ↦ let stuck = rw r at p in cc
  ]
