-- ===== src/Store/Invariant/Calls.antt =====
-- Every call of the store keeps what is true of the metadata of every block.
use dhtdynamic_audit_strateg.Base.{
  ℕ, zero, suc, ◌+◌, ◌≡◌, refl, ◌∙◌, Bool, true, false, Option, none, some, String, ◌==◌,
  if◌then◌else◌, word_pred,
}
use dhtdynamic_audit_strateg.Metadata.{versioned}
use dhtdynamic_audit_strateg.Base.Assoc.{find}
use dhtdynamic_audit_strateg.Exec.{
  Outcome, Exec, done, threw, continue, state_after, or_throw, Error, file_missing, block_null,
}
use dhtdynamic_audit_strateg.CoreLib.Collection.{Collections}
use dhtdynamic_audit_strateg.Store.Rebuild.{insert_entry, delete_entry}
use dhtdynamic_audit_strateg.Store.{
  Store, Metadata, empty_store, has_file, update, bump_metadata, add_file, add_file_blocks,
  remove_file, modify_block, insert_block, delete_block, set_block_metadata_collection, init_blocks,
  attach_new, CollectionPtr, in_cell, own, point_to, write_cell,
}
use dhtdynamic_audit_strateg.Store.Invariant.{
  AllIn, Keeps, set_index-AllIn, new-AllIn, if-AllIn, insert_entry-AllIn, delete_entry-AllIn,
}

module _ ⦃core : Collections⦄ where
  open core use {
    Other, Collection, new, create_init_metadata, set_index, get_by_index, snapshot, clear,
    create-new, create-set, get-new, get-set, get-clear, entry_at-snapshot, snapshot-Distinct,
  }

  module _ (P : Metadata → Type 0) where
    -- Collections that make what the factory makes.
    Makes : (ℕ → Metadata) → Collection → Type 0
    Makes make c = (now : ℕ) → create_init_metadata c now ≡ make now

    init_blocks-AllIn :
        (make : ℕ → Metadata) (readings : ℕ → ℕ) (rounds i : ℕ) (c : Collection)
        → Makes make c
        → ((k : ℕ) → P (make (readings k)))
        → AllIn P c
        → AllIn P (init_blocks readings rounds i c)
    unfolding init_blocks Makes
    init_blocks-AllIn make readings zero i c same h all = all
    init_blocks-AllIn make readings (suc rounds) i c same h all =
        let made = create_init_metadata c (readings i) in
        init_blocks-AllIn make readings rounds (suc i) (set_index c i made)
          (λ now. create-set c i now made ∙ same now) h
          (set_index-AllIn P c i made all (rw (same (readings i)) (h i)))

    -- What a call leaves, whether or not it throws.
    abbrev pub KeepsAfter : {A : Type 0} → Outcome Store A → Type 0
    KeepsAfter o = Keeps P (state_after o)

    pub or_throw-Keeps :
        {A B : Type 0} (e : Error) (o : Option A) (s : Store) (f : A → Exec Store B)
        → Keeps P s
        → ((a : A) → o ≡ some a → KeepsAfter (f a s))
        → KeepsAfter (continue (or_throw e o s) f)
    or_throw-Keeps e none s f h k = h
    or_throw-Keeps e (some a) s f h k = k a refl

    pub continue-Keeps :
        {A B : Type 0} (o : Outcome Store A) (f : A → Exec Store B)
        → KeepsAfter o
        → ((a : A) (s : Store) → Keeps P s → KeepsAfter (f a s))
        → KeepsAfter (continue o f)
    continue-Keeps (done a s) f h k = k a s h
    continue-Keeps (threw e s) f h k = h

    pub if-Keeps :
        {A : Type 0} (b : Bool) (o p : Outcome Store A)
        → KeepsAfter o
        → KeepsAfter p
        → KeepsAfter (if b then o else p)
    if-Keeps true o p h k = h
    if-Keeps false o p h k = k

    -- One cell is written, and the clock may have been read.
    pub written-Keeps :
        (s : Store) (r reads : ℕ) (c : Collection)
        → Keeps P s
        → AllIn P c
        → Keeps P (record s { cells = update s.cells r c; reads = reads })
    written-Keeps s r reads c h all = record {
      entries = λ q. if-AllIn P (r == q) c (s.cells q) all (h.entries q);
      makes = h.makes;
      registers = h.registers;
      bumps = h.bumps;
    }

    attach_new-Keeps :
        (s : Store) (id : String) (c : Collection)
        → Keeps P s
        → AllIn P c
        → KeepsAfter (attach_new id c s)
    unfolding attach_new
    attach_new-Keeps s id c h all = record {
      entries = λ q. if-AllIn P (s.next_cell == q) c (s.cells q) all (h.entries q);
      makes = h.makes;
      registers = h.registers;
      bumps = h.bumps;
    }

    pub add_file-Keeps : (id : String) (s : Store) → Keeps P s → KeepsAfter (add_file id s)
    unfolding add_file
    add_file-Keeps id s h =
        if-Keeps (has_file s id) _ _ h
          (attach_new-Keeps s id (new s.metadata_factory) h (new-AllIn P s.metadata_factory))

    pub add_file_blocks-Keeps :
        (id : String) (n : ℕ) (s : Store) → Keeps P s → KeepsAfter (add_file_blocks id n s)
    unfolding add_file_blocks Makes
    add_file_blocks-Keeps id n s h =
        let made = init_blocks (λ i. s.clock (s.reads + i)) n 0 (new s.metadata_factory) in
        if-Keeps (has_file s id) _ _ h (
          if-Keeps (n == 0) _ _ h (
            attach_new-Keeps (record s { reads = s.reads + n }) id made
              (record {
                entries = h.entries;
                makes = h.makes;
                registers = h.registers;
                bumps = h.bumps;
              })
              (init_blocks-AllIn s.metadata_factory (λ i. s.clock (s.reads + i)) n 0
                (new s.metadata_factory) (create-new s.metadata_factory)
                (λ k. h.makes (s.reads + k)) (new-AllIn P s.metadata_factory))))

    pub remove_file-Keeps : (id : String) (s : Store) → Keeps P s → KeepsAfter (remove_file id s)
    unfolding remove_file
    remove_file-Keeps id s h =
        if-Keeps (has_file s id) _ _
          (record {
            entries = h.entries;
            makes = h.makes;
            registers = h.registers;
            bumps = h.bumps;
          })
          h

    pub modify_block-Keeps :
        (id : String) (b : ℕ) (s : Store) → Keeps P s → KeepsAfter (modify_block id b s)
    unfolding modify_block
    modify_block-Keeps id b s h = or_throw-Keeps file_missing (find id s.files) s _ h λ r e.
        or_throw-Keeps block_null (get_by_index (s.cells r) (word_pred b)) s _ h λ existing f.
          written-Keeps s r (suc s.reads)
            (set_index (s.cells r) (word_pred b) (bump_metadata (s.clock s.reads) existing)) h
            (set_index-AllIn P (s.cells r) (word_pred b) (bump_metadata (s.clock s.reads) existing)
              (h.entries r) (h.bumps s.reads existing (h.entries r (word_pred b) existing f)))

    pub insert_block-Keeps :
        (id : String) (b : ℕ) (s : Store) → Keeps P s → KeepsAfter (insert_block id b s)
    unfolding insert_block
    insert_block-Keeps id b s h = or_throw-Keeps file_missing (find id s.files) s _ h λ r e.
        let made = s.metadata_factory (s.clock s.reads) in
        written-Keeps s r (suc s.reads) (insert_entry (s.cells r) (word_pred b) made) h
          (insert_entry-AllIn P (s.cells r) (word_pred b) made (h.entries r) (h.makes s.reads))

    pub delete_block-Keeps :
        (id : String) (b : ℕ) (s : Store) → Keeps P s → KeepsAfter (delete_block id b s)
    unfolding delete_block
    delete_block-Keeps id b s h = or_throw-Keeps file_missing (find id s.files) s _ h λ r e.
        or_throw-Keeps block_null (get_by_index (s.cells r) (word_pred b)) s _ h λ existing f.
          written-Keeps s r s.reads (delete_entry (s.cells r) (word_pred b)) h
            (delete_entry-AllIn P (s.cells r) (word_pred b) (h.entries r))

    -- Every block of a collection that a caller has made is a P; one in the heap has only such.
    abbrev pub PointsAll : CollectionPtr → Type 0
    PointsAll (in_cell r) = Unit
    PointsAll (own c) = AllIn P c

    point_to-Keeps :
        (id : String) (collection : CollectionPtr) (s : Store)
        → Keeps P s
        → PointsAll collection
        → KeepsAfter (point_to id collection s)
    unfolding point_to
    point_to-Keeps id (in_cell r) s h all = record {
      entries = h.entries;
      makes = h.makes;
      registers = h.registers;
      bumps = h.bumps;
    }
    point_to-Keeps id (own c) s h all = attach_new-Keeps s id c h all

    pub set_collection-Keeps :
        (id : String) (collection : CollectionPtr) (s : Store)
        → Keeps P s
        → PointsAll collection
        → KeepsAfter (set_block_metadata_collection id collection s)
    unfolding set_block_metadata_collection
    set_collection-Keeps id collection s h all =
        or_throw-Keeps file_missing (find id s.files) s _ h
          λ r e. point_to-Keeps id collection s h all

    pub write_cell-Keeps :
        (r : ℕ) (c : Collection) (s : Store) → Keeps P s → AllIn P c → KeepsAfter (write_cell r c s)
    unfolding write_cell
    write_cell-Keeps r c s h all = written-Keeps s r s.reads c h all

    pub empty_store-Keeps :
        (make : ℕ → Metadata) (clock : ℕ → ℕ)
        → ((k : ℕ) → P (make (clock k)))
        → ((k : ℕ) → P (versioned (record { version = 1; timestamp = clock k })))
        → ((k : ℕ) (m : Metadata) → P m → P (bump_metadata (clock k) m))
        → Keeps P (empty_store make clock)
    empty_store-Keeps make clock makes registers bumps = record {
      entries = λ r. new-AllIn P make;
      makes = makes;
      registers = registers;
      bumps = bumps;
    }
