-- ===== src/Tests/ReachRuns.antt =====
-- Stores that an engine reaches.
use dhtdynamic_audit_strateg.Base.{
  ℕ, ◌<◌, ◌≡◌, refl, some, [], ◌∷◌, arith, word_mod, if◌then◌else◌, ltb, true, word_pred, word_suc,
}
use dhtdynamic_audit_strateg.Exec.{state_after}
use dhtdynamic_audit_strateg.Messages.{maintain_ext, update, MaintainExt}
use dhtdynamic_audit_strateg.Base.Assoc.{find, assign}
use dhtdynamic_audit_strateg.Metadata.{versioned, bump}
use dhtdynamic_audit_strateg.CoreLib.Entries.{entry_at, keep}
use dhtdynamic_audit_strateg.Store.{
  Store, Metadata, default_factory, add_file_blocks, has_file, init_blocks, attach_new,
  get_block_metadata, modify_block, read_clock, write_cell, bump_metadata, own,
  set_block_metadata_collection, require_file, point_to,
}
use dhtdynamic_audit_strateg.Store.Invariant.{AllIn, set_index-AllIn, new-AllIn}
use dhtdynamic_audit_strateg.Store.Spec.{adds_blocks, run_op}
use dhtdynamic_audit_strateg.Maintain.{maintenance, maintain, handle_update, update_blocks}
use dhtdynamic_audit_strateg.Tags.{generate_tags}
use dhtdynamic_audit_strateg.Tags.Consistency.{Generated}
use dhtdynamic_audit_strateg.Plugin.{create_state_store}
use dhtdynamic_audit_strateg.Reach.{
  Reaches, here, next, calls, hands, maintains, IsStamp, reachable-IsStamp, reachable-generate_tags,
}
use dhtdynamic_audit_strateg.Tests.Toy.{toy_collections, toy_sm9, toy_tags, toy_serializer}
use dhtdynamic_audit_strateg.Tests.TagRuns.{
  params, window, secrets, tags_asked, tags_request, whole_window,
}

-- A clock that stops at 1000.
abbrev pub ticks : ℕ → ℕ
ticks k = if ltb k 1000 then k else 1000

pub ticks-lt : (k : ℕ) → ticks k < word_mod
ticks-lt k = ground arith

abbrev begun : Store
begun = create_state_store default_factory ticks

-- The second block of the file, and one that it does not have.
abbrev updates : MaintainExt
updates = record { file_id = "f"; op_type = update; block_indices = 2 ∷ 9 ∷ []; state_store = true }

abbrev pub two_blocks : Store
two_blocks = state_after (run_op (adds_blocks "f" 2) begun)

-- A collection of the engine, with the second block only.
abbrev filled_before : toy_collections.Collection
filled_before =
    toy_collections.set_index (toy_collections.new default_factory) 1
      (versioned (record { version = 5; timestamp = 70 }))

filled_before-AllIn : AllIn IsStamp filled_before
filled_before-AllIn =
    set_index-AllIn IsStamp (toy_collections.new default_factory) 1
      (versioned (record { version = 5; timestamp = 70 })) (new-AllIn IsStamp default_factory)
      (omega arith, omega arith)

abbrev handed : Store
handed = state_after (set_block_metadata_collection "f" (own filled_before) two_blocks)

abbrev updated : Store
updated = state_after (maintenance (some (maintain_ext updates)) handed)

updated-Reaches : Reaches IsStamp begun updated
updated-Reaches =
    next
      (next (next here (calls (adds_blocks "f" 2) begun))
        (hands "f" (own filled_before) two_blocks filled_before-AllIn))
      (maintains (some (maintain_ext updates)) handed)

abbrev second : Metadata
second = versioned (record { version = 6; timestamp = 3 })

second-stored : toy_collections.get_by_index (updated.cells 1) 1 ≡ some second
unfolding run_op add_file_blocks has_file find assign init_blocks attach_new default_factory
    maintenance maintain handle_update update_blocks get_block_metadata modify_block read_clock
    write_cell bump_metadata bump word_pred word_suc entry_at keep set_block_metadata_collection
    require_file point_to
second-stored = refl

reachable-IsStamp_example : IsStamp second
reachable-IsStamp_example =
    reachable-IsStamp ticks updated ticks-lt updated-Reaches 1 1 second second-stored

reachable-generate_tags_example :
    Generated 7 5 "f" window (1 ∷ 2 ∷ []) updated (generate_tags tags_request updated)
reachable-generate_tags_example =
    reachable-generate_tags ticks updated tags_request tags_asked window secrets params (1 ∷ 2 ∷ [])
      ticks-lt updated-Reaches
      (record {
        with_ext = refl;
        named = refl;
        with_blocks = refl;
        with_private = refl;
        with_public = refl;
        with_store = refl;
      })
      whole_window (omega arith)
