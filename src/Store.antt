-- ===== src/Store.antt =====
-- state_stores/dynamic_hash_table_state_store.h and .cpp: class DynamicHashTableStateStore. A
-- collection is shared by pointer, so the store has a heap of collections: a file holds the number
-- of a cell. The clock is a sequence of readings, of which each call of `now()` takes the next.
pub mod Rebuild
pub mod Shift
pub mod Dense
pub mod Spec
pub mod Relation
pub mod Refinement
pub mod Runs
pub mod Queries
pub mod Invariant
unfoldable pub use Rebuild.{insert_entry, delete_entry}
use dhtdynamic_audit_strateg.Base.{
  ℕ, zero, suc, ◌+◌, ◌-◌, ◌≡◌, Bool, true, false, Option, none, some, List, [], ◌∷◌, map, String,
  ◌==◌, if◌then◌else◌, word_pred,
}
use dhtdynamic_audit_strateg.Base.Assoc.{find, assign, erase}
use dhtdynamic_audit_strateg.Exec.{
  Exec, Outcome, done, threw, file_exists, file_missing, block_count_zero, block_null, ◌>>=◌, ◌>>◌,
  or_throw,
}
use dhtdynamic_audit_strateg.Metadata.{BlockMetadata, versioned, other, bump}
use dhtdynamic_audit_strateg.CoreLib.Collection.{Collections}

abbrev pub update {ℓ} : {A : Type ℓ} → (ℕ → A) → ℕ → A → ℕ → A
update f i v j = if i == j then v else f j

abbrev pub is_some {ℓ} : {A : Type ℓ} → Option A → Bool
is_some none = false
is_some (some a) = true

-- The default factory: version 1, and the time now.
unfoldable pub default_factory : {Other : Type 0} → ℕ → BlockMetadata Other
default_factory now = versioned (record { version = 1; timestamp = now })

module _ ⦃core : Collections⦄ where
  open core use {
    Other, bump_other, Collection, new, create_init_metadata, set_index, get_by_index, total_size,
  }

  abbrev pub Metadata : Type 0
  Metadata = BlockMetadata Other

  pub record Store : Type 0 where
    pub files : List (String × ℕ)
    pub cells : ℕ → Collection
    pub next_cell : ℕ
    pub metadata_factory : ℕ → Metadata
    pub clock : ℕ → ℕ
    pub reads : ℕ

  abbrev pub empty_store : (ℕ → Metadata) → (ℕ → ℕ) → Store
  empty_store factory clock = record {
    files = [];
    cells = λ r. new factory;
    next_cell = 0;
    metadata_factory = factory;
    clock = clock;
    reads = 0;
  }

  abbrev pub is_versioned : Metadata → Bool
  is_versioned (versioned v) = true
  is_versioned (other o) = false

  -- Every block's metadata is a `VersionedBlockMetadata`.
  abbrev pub AllVersioned : Store → Type 0
  AllVersioned s =
      (r i : ℕ) (m : Metadata) → get_by_index (s.cells r) i ≡ some m → is_versioned m ≡ true

  -- `metadata->bump()`, a virtual call.
  unfoldable pub bump_metadata : ℕ → Metadata → Metadata
  bump_metadata now (versioned m) = versioned (bump now m)
  bump_metadata now (other o) = other (bump_other now o)

  -- `std::chrono::system_clock::now()` in seconds.
  unfoldable pub read_clock : Exec Store ℕ
  read_clock s = done (s.clock s.reads) (record s { reads = suc s.reads })

  -- A change of a collection through its pointer.
  unfoldable pub write_cell : ℕ → Collection → Exec Store (Unit {0})
  write_cell r c s = done tt (record s { cells = update s.cells r c })

  -- `files_.find(fileId)`, and the throw on a file that is not there.
  unfoldable pub require_file : String → Exec Store ℕ
  require_file id s = or_throw file_missing (find id s.files) s

  -- `files_[fileId] = collection` for a new collection.
  unfoldable pub attach_new : String → Collection → Exec Store (Unit {0})
  attach_new id c s = done tt (record s {
    files = assign id s.next_cell s.files;
    cells = update s.cells s.next_cell c;
    next_cell = suc s.next_cell;
  })

  unfoldable pub has_file : Store → String → Bool
  has_file s id = is_some (find id s.files)

  unfoldable pub add_file : String → Exec Store (Unit {0})
  unfolding attach_new has_file
  add_file id s =
      if has_file s id then threw file_exists s else attach_new id (new s.metadata_factory) s

  -- The loop that sets the entries from `i` on, `rounds` of them.
  unfoldable pub init_blocks : (ℕ → ℕ) → ℕ → ℕ → Collection → Collection
  init_blocks readings zero i c = c
  init_blocks readings (suc rounds) i c =
      init_blocks readings rounds (suc i) (set_index c i (create_init_metadata c (readings i)))

  unfoldable pub add_file_blocks : String → ℕ → Exec Store (Unit {0})
  unfolding attach_new init_blocks has_file
  add_file_blocks id block_count s =
      if has_file s id
      then threw file_exists s
      else if block_count == 0
      then threw block_count_zero s
      else attach_new id
          (init_blocks (λ i. s.clock (s.reads + i)) block_count 0 (new s.metadata_factory))
          (record s { reads = s.reads + block_count })

  unfoldable pub remove_file : String → Exec Store (Unit {0})
  unfolding has_file
  remove_file id s =
      if has_file s id
      then done tt (record s { files = erase id s.files })
      else threw file_missing s

  unfoldable pub list_files : Store → List String
  list_files s = map (λ f. f.0) s.files

  -- `getByIndex`, and the throw on a null pointer.
  unfoldable pub require_block : ℕ → ℕ → Exec Store Metadata
  require_block r index s = or_throw block_null (get_by_index (s.cells r) index) s

  unfoldable pub get_block_metadata : String → ℕ → Exec Store Metadata
  unfolding require_file require_block
  get_block_metadata id block_index = do
    r ← require_file id
    require_block r (word_pred block_index)

  unfoldable pub get_block_count : String → Exec Store ℕ
  unfolding require_file
  get_block_count id = do r ← require_file id; λ s. done (total_size (s.cells r)) s

  -- The pointer itself: what is set through it is seen by the store.
  unfoldable pub get_block_metadata_collection : String → Exec Store ℕ
  unfolding require_file
  get_block_metadata_collection id = require_file id

  unfoldable pub modify_block : String → ℕ → Exec Store (Unit {0})
  unfolding require_file require_block read_clock write_cell
  modify_block id block_index = do
    r ← require_file id
    existing ← require_block r (word_pred block_index)
    now ← read_clock
    λ s. write_cell r (set_index (s.cells r) (word_pred block_index) (bump_metadata now existing)) s

  unfoldable pub insert_block : String → ℕ → Exec Store (Unit {0})
  unfolding require_file read_clock write_cell
  insert_block id block_index = do
    r ← require_file id
    now ← read_clock
    λ s. write_cell r (insert_entry (s.cells r) (word_pred block_index) (s.metadata_factory now)) s

  unfoldable pub delete_block : String → ℕ → Exec Store (Unit {0})
  unfolding require_file require_block write_cell
  delete_block id block_index = do
    r ← require_file id
    existing ← require_block r (word_pred block_index)
    λ s. write_cell r (delete_entry (s.cells r) (word_pred block_index)) s

  -- `BlockMetadataCollectionPtr` of a caller: to a collection that is in the heap already, or to one
  -- that the caller has made, with any contents.
  pub data CollectionPtr : Type 0 where
    in_cell : ℕ → CollectionPtr
    own : Collection → CollectionPtr

  -- `it->second = std::move(collection)`: a collection of the caller comes into the heap by it.
  unfoldable pub point_to : String → CollectionPtr → Exec Store (Unit {0})
  unfolding attach_new
  point_to id (in_cell r) s = done tt (record s { files = assign id r s.files })
  point_to id (own c) s = attach_new id c s

  unfoldable pub set_block_metadata_collection : String → CollectionPtr → Exec Store (Unit {0})
  unfolding require_file
  set_block_metadata_collection id collection = do old ← require_file id; point_to id collection
