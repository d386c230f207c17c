-- ===== src/Reach.antt =====
-- The stores that come about: an engine makes calls of the store, hands it collections, changes them
-- through their pointers, and makes maintenance requests and tag requests, in any order and with any
-- other arguments, and each may throw.
pub mod Stages
pub mod Tagging
use dhtdynamic_audit_strateg.Base.{
  ℕ, ◌+◌, ◌%◌, ◌≤◌, ◌<◌, ◌≡◌, refl, Bool, true, false, Option, none, some, List, String, arith,
  word_mod, word_suc,
}
use dhtdynamic_audit_strateg.Exec.{Outcome, state_after, ok}
use dhtdynamic_audit_strateg.Metadata.{VersionedBlockMetadata, versioned, other, bump}
use dhtdynamic_audit_strateg.CoreLib.Collection.{Collections}
use dhtdynamic_audit_strateg.CoreLib.Crypto.{Sm9}
use dhtdynamic_audit_strateg.CoreLib.TagSet.{TagSets}
use dhtdynamic_audit_strateg.CoreLib.Serializer.{Serializer}
use dhtdynamic_audit_strateg.Messages.{
  Tag, AuditBlockSource, PublicParams, PrivateParams, TagsGenExt, StageExt,
}
use dhtdynamic_audit_strateg.Store.{
  Store, Metadata, AllVersioned, empty_store, default_factory, bump_metadata,
  set_block_metadata_collection, is_versioned, CollectionPtr, write_cell,
}
use dhtdynamic_audit_strateg.Store.Spec.{
  StoreOp, adds, removes, adds_blocks, modifies, inserts, deletes, run_op,
}
use dhtdynamic_audit_strateg.Store.Invariant.{Keeps, AllIn}
use dhtdynamic_audit_strateg.Store.Invariant.Calls.{
  KeepsAfter, add_file-Keeps, add_file_blocks-Keeps, remove_file-Keeps, modify_block-Keeps,
  insert_block-Keeps, delete_block-Keeps, set_collection-Keeps, PointsAll, write_cell-Keeps,
  empty_store-Keeps,
}
use dhtdynamic_audit_strateg.Plugin.{create_state_store}
use dhtdynamic_audit_strateg.Maintain.{maintenance}
use dhtdynamic_audit_strateg.Tags.{GenerateTagsRequest, generate_tags}
use dhtdynamic_audit_strateg.Tags.Targets.{resolve_target_block_indices}
use dhtdynamic_audit_strateg.Tags.Consistency.{IsComplete, Generated, generate_tags_consistent}
use dhtdynamic_audit_strateg.Wire.RoundTrip.{IsWords}
use Stages.{maintenance-Keeps}
use Tagging.{generate_tags-Keeps}

module _ ⦃core : Collections⦄ ⦃sm9 : Sm9⦄ ⦃tag_sets : TagSets (Tag sm9.G1)⦄
    ⦃serializer : Serializer⦄ where
  open core use {get_by_index}

  module _ (P : Metadata → Type 0) where
    -- What one call leaves, whether it returns or throws. A caller may also hand a collection to the
    -- store, and change one through its pointer or a block's metadata through its own: it is then
    -- any collection, all of whose blocks are P.
    pub data Step : Store → Store → Type 0 where
      calls : (op : StoreOp) (s : Store) → Step s (state_after (run_op op s))
      hands :
          (id : String) (collection : CollectionPtr) (s : Store)
          → PointsAll P collection
          → Step s (state_after (set_block_metadata_collection id collection s))
      changes :
          (r : ℕ) (c : core.Collection) (s : Store)
          → AllIn P c
          → Step s (state_after (write_cell r c s))
      maintains : (ext : Option StageExt) (s : Store) → Step s (state_after (maintenance ext s))
      tags :
          (input : GenerateTagsRequest) (s : Store) → Step s (state_after (generate_tags input s))

    pub data Reaches (s : Store) : Store → Type 0 where
      here : Reaches s s
      next : {t u : Store} → Reaches s t → Step t u → Reaches s u

    run_op-Keeps : (op : StoreOp) (s : Store) → Keeps P s → KeepsAfter P (run_op op s)
    unfolding run_op
    run_op-Keeps (adds id) s h = add_file-Keeps P id s h
    run_op-Keeps (removes id) s h = remove_file-Keeps P id s h
    run_op-Keeps (adds_blocks id n) s h = add_file_blocks-Keeps P id n s h
    run_op-Keeps (modifies id b) s h = modify_block-Keeps P id b s h
    run_op-Keeps (inserts id b) s h = insert_block-Keeps P id b s h
    run_op-Keeps (deletes id b) s h = delete_block-Keeps P id b s h

    Step-Keeps : {s t : Store} → Step s t → Keeps P s → Keeps P t
    Step-Keeps (calls op s) h = run_op-Keeps op s h
    Step-Keeps (hands id collection s all) h = set_collection-Keeps P id collection s h all
    Step-Keeps (changes r c s all) h = write_cell-Keeps P r c s h all
    Step-Keeps (maintains ext s) h = maintenance-Keeps P ext s h
    Step-Keeps (tags input s) h = generate_tags-Keeps P input s h

    Reaches-Keeps : {s t : Store} → Keeps P s → Reaches s t → Keeps P t
    Reaches-Keeps h here = h
    Reaches-Keeps h (next r step) = Step-Keeps step (Reaches-Keeps h r)

  -- Metadata of the default class, with 64-bit fields.
  abbrev pub IsStamp : Metadata → Type 0
  IsStamp (versioned v) = IsWords v
  IsStamp (other o) = ⊥

  bump-IsStamp :
      (now : ℕ) → now < word_mod → (m : Metadata) → IsStamp m → IsStamp (bump_metadata now m)
  unfolding bump_metadata bump word_suc
  bump-IsStamp now h (versioned v) w = (omega arith, h)
  bump-IsStamp now h (other o) w = w

  start-Keeps :
      (clock : ℕ → ℕ)
      → ((k : ℕ) → clock k < word_mod)
      → Keeps IsStamp (empty_store default_factory clock)
  unfolding default_factory
  start-Keeps clock h =
      empty_store-Keeps IsStamp default_factory clock (λ k. (omega arith, h k))
        (λ k. (omega arith, h k)) (λ k m w. bump-IsStamp (clock k) (h k) m w)

  -- In every store that an engine reaches from a store that the plugin makes with the default
  -- factory, every block's metadata is of the default class, and its version and its time stamp are
  -- 64-bit words: by calls that return or throw, where this is so of the blocks of the collections that
  -- the engine hands to the store or changes through a pointer, and the readings of the clock are
  -- 64-bit words.
  pub reachable-IsStamp :
      (clock : ℕ → ℕ) (t : Store)
      → ((k : ℕ) → clock k < word_mod)
      → Reaches IsStamp (create_state_store default_factory clock) t
      → (r i : ℕ) (m : Metadata) → get_by_index (t.cells r) i ≡ some m
      → IsStamp m
  reachable-IsStamp clock t h reached r =
      (Reaches-Keeps IsStamp (start-Keeps clock h) reached).entries r

  stamp-is_versioned : (m : Metadata) → IsStamp m → is_versioned m ≡ true
  stamp-is_versioned (versioned v) h = refl
  stamp-is_versioned (other o) h = absurd h

  -- In every store that an engine reaches from a store that the plugin makes with the default
  -- factory, a complete tag request whose targets are resolved, in a window that ends before 2⁶⁴,
  -- returns, and its tags sign the blocks under the metadata that the store then holds: where the
  -- readings of the clock are 64-bit words, and the collections that the engine hands to the store or
  -- changes through a pointer have metadata of the default class with 64-bit fields only.
  pub reachable-generate_tags :
      (clock : ℕ → ℕ) (t : Store) (input : GenerateTagsRequest) (ext : TagsGenExt)
      (blocks : AuditBlockSource) (secrets : PrivateParams) (params : PublicParams) (bs : List ℕ)
      → ((k : ℕ) → clock k < word_mod)
      → Reaches IsStamp (create_state_store default_factory clock) t
      → IsComplete input ext blocks secrets params
      → resolve_target_block_indices input.target_block_indices blocks.global_block_start_index
          blocks.available_block_count
        ≡ ok bs
      → blocks.global_block_start_index + blocks.available_block_count + 1 ≤ word_mod
      → Generated params.u secrets.a ext.file_id blocks bs t (generate_tags input t)
  reachable-generate_tags clock t input ext blocks secrets params bs h reached complete resolved
        room =
      generate_tags_consistent input ext blocks secrets params bs t complete resolved room
        λ r i m e. stamp-is_versioned m (reachable-IsStamp clock t h reached r i m e)
