-- ===== src/Tests/CycleRuns.antt =====
-- A run of the whole audit.
use dhtdynamic_audit_strateg.Base.{ℕ, ◌≡◌, refl, [], ◌∷◌, arith, word_pred}
use dhtdynamic_audit_strateg.Base.Assoc.{find, assign}
use dhtdynamic_audit_strateg.Run.{ended}
use dhtdynamic_audit_strateg.CoreLib.Entries.{entry_at, keep}
use dhtdynamic_audit_strateg.Common.{
  hash_input, be_bytes, segment_count, segment, compute_block_hash, add_segments,
  accumulate_block_segments_g1, accumulate_block_segments_scalar,
}
use dhtdynamic_audit_strateg.Messages.{ChallengeItem, DhtChallenges}
use dhtdynamic_audit_strateg.Store.{
  has_file, add_file, get_block_metadata, get_block_metadata_collection, read_clock, write_cell,
}
use dhtdynamic_audit_strateg.Tags.{
  sigma_of, generate_tags, generate_checked, tag_targets, ensure_file, tag_blocks, find_or_register,
  register_block,
}
use dhtdynamic_audit_strateg.Tags.Targets.{resolve_target_block_indices, window_indices}
use dhtdynamic_audit_strateg.Challenges.{
  challenge_blocks, challenged, challenge_count, pick, insert, contains, draw_rounds,
  draw_coefficients, add_metadata,
}
use dhtdynamic_audit_strateg.Keys.{nonzero_scalar}
use dhtdynamic_audit_strateg.Proofs.{aggregate_hash}
use dhtdynamic_audit_strateg.Proofs.Completeness.{Accepted}
use dhtdynamic_audit_strateg.Proofs.Cycle.{IsFinite, audit_cycle-Accepted}
use dhtdynamic_audit_strateg.Tests.Toy.{
  toy_collections, toy_sm9, toy_tags, toy_serializer, toy_randomness, toy_laws,
}
use dhtdynamic_audit_strateg.Tests.StoreRuns.{start}
use dhtdynamic_audit_strateg.Tests.TagRuns.{
  params, window, secrets, tags_asked, tags_request, start-cells,
}
use dhtdynamic_audit_strateg.Tests.StageRuns.{asked}
use dhtdynamic_audit_strateg.Tests.AuditRuns.{
  tagged, made, tagging, tagged-find, proving, verifying,
}

abbrev item : ℕ → ℕ → ℕ → ChallengeItem
item b nu time = record {
  block_index = b;
  nu = nu;
  metadata = record { version = 1; timestamp = time };
}

abbrev pub both_blocks : DhtChallenges
both_blocks = record {
  blind_point = 30;
  blind_scalar = 3;
  items = item 2 1 101 ∷ item 1 2 100 ∷ [];
  block_count = 2;
}

pub challenging : challenge_blocks 5 asked params 2 tagged ≡ ended (challenged both_blocks)
unfolding challenge_blocks challenge_count pick insert contains draw_rounds draw_coefficients
    nonzero_scalar add_metadata tagged made generate_tags generate_checked
    resolve_target_block_indices window_indices tag_targets ensure_file has_file find add_file
    tag_blocks find_or_register get_block_metadata assign entry_at register_block
    get_block_metadata_collection read_clock write_cell word_pred keep
challenging = refl

pub both-IsFinite : IsFinite params 5 "f" window both_blocks
unfolding aggregate_hash sigma_of compute_block_hash hash_input be_bytes
    accumulate_block_segments_g1 add_segments segment_count segment accumulate_block_segments_scalar
both-IsFinite = record { tags_finite = (refl, (refl, tt)); blind_finite = refl; hash_finite = refl }

audit_cycle-Accepted_example : Accepted proving verifying both_blocks
unfolding challenge_count
audit_cycle-Accepted_example =
    audit_cycle-Accepted toy_laws tags_request tags_asked window secrets params start tagged made 0
      2 5 asked proving verifying both_blocks
      (record {
        complete = record {
          with_ext = refl;
          named = refl;
          with_blocks = refl;
          with_private = refl;
          with_public = refl;
          with_store = refl;
        };
        whole_window = refl;
        room = omega arith;
        server = record {
          with_tags = refl;
          with_blocks = refl;
          with_params = refl;
          same_file = refl;
          origin = refl;
          key = refl;
          g_finite = refl;
          u_finite = refl;
        };
        same_file = refl;
        named = refl;
        verify_params = refl;
        pk_finite = refl;
      })
      start-cells tagging tagged-find (omega arith) (omega arith) (omega arith) challenging
      both-IsFinite
