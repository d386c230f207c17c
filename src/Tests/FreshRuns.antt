-- ===== src/Tests/FreshRuns.antt =====
-- A run of an update request.
use dhtdynamic_audit_strateg.Base.{
  ℕ, ◌+◌, ◌%◌, ◌<◌, ◌≡◌, ◌≢◌, refl, true, [], ◌∷◌, arith, word_mod, word_pred, word_suc,
}
use dhtdynamic_audit_strateg.Base.Assoc.{find, assign}
use dhtdynamic_audit_strateg.Exec.{done, state_after}
use dhtdynamic_audit_strateg.Metadata.{VersionedBlockMetadata, versioned, bump}
use dhtdynamic_audit_strateg.CoreLib.Entries.{entry_at, keep}
use dhtdynamic_audit_strateg.Messages.{MaintainExt, update}
use dhtdynamic_audit_strateg.Common.{hash_input}
use dhtdynamic_audit_strateg.Store.{
  Store, default_factory, add_file_blocks, has_file, init_blocks, attach_new, get_block_metadata,
  modify_block, read_clock, write_cell, bump_metadata,
}
use dhtdynamic_audit_strateg.Store.Spec.{run_op}
use dhtdynamic_audit_strateg.Wire.RoundTrip.{archive_serializer}
use dhtdynamic_audit_strateg.Maintain.{maintain, handle_update, update_blocks}
use dhtdynamic_audit_strateg.Maintain.Freshness.{times}
use dhtdynamic_audit_strateg.Maintain.Rehashed.{updated_block_rehashed}
use dhtdynamic_audit_strateg.Tests.Toy.{toy_collections, toy_sm9}
use dhtdynamic_audit_strateg.Tests.ToyArchive.{toy_archive}
use dhtdynamic_audit_strateg.Tests.ReachRuns.{ticks-lt, two_blocks}

-- The second block twice, and the first in between.
abbrev twice : MaintainExt
twice = record {
  file_id = "f";
  op_type = update;
  block_indices = 2 ∷ 1 ∷ 2 ∷ [];
  state_store = true;
}

abbrev after_twice : Store
after_twice = state_after (maintain twice two_blocks)

twice-returned : maintain twice two_blocks ≡ done tt after_twice
unfolding run_op add_file_blocks has_file find assign init_blocks attach_new default_factory
    maintain handle_update update_blocks get_block_metadata modify_block read_clock write_cell
    bump_metadata bump word_pred word_suc entry_at keep
twice-returned = refl

abbrev first_stamp : VersionedBlockMetadata
first_stamp = record { version = 1; timestamp = 1 }

before_twice : get_block_metadata "f" 2 two_blocks ≡ done (versioned first_stamp) two_blocks
unfolding run_op add_file_blocks has_file find assign init_blocks attach_new default_factory
    get_block_metadata word_pred entry_at keep
before_twice = refl

two_times : times (word_pred 2) twice.block_indices ≡ 2
unfolding times word_pred
two_times = refl

two_blocks-clock : (k : ℕ) → two_blocks.clock k < word_mod
unfolding run_op add_file_blocks has_file find attach_new
two_blocks-clock k = ticks-lt k

updated_block_rehashed_example :
    (m' : VersionedBlockMetadata) × (get_block_metadata "f" 2 after_twice
      ≡ done (versioned m') after_twice)
    × (m'.version ≡ (1 + times (word_pred 2) (2 ∷ 1 ∷ 2 ∷ [])) % word_mod)
    × (hash_input ⦃serializer = archive_serializer⦄ "f" 2 m'
        ≢ hash_input ⦃serializer = archive_serializer⦄ "f" 2 first_stamp)
updated_block_rehashed_example =
    updated_block_rehashed twice two_blocks after_twice 2 first_stamp refl twice-returned
      before_twice (omega arith) (omega arith, omega arith) two_blocks-clock
      (omega (arith, two_times)) (omega (arith, two_times))
