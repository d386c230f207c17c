-- ===== src/Tests/AuditRuns.antt =====
-- A run from the tag stage to the verifier.
use dhtdynamic_audit_strateg.Base.{
  if◌then◌else◌, ◌==◌, ℕ, ◌≡◌, refl, inl, inr, some, none, [], ◌∷◌, arith, word_pred, word_sub,
}
use dhtdynamic_audit_strateg.Base.Assoc.{find, assign}
use dhtdynamic_audit_strateg.Exec.{done, state_after}
use dhtdynamic_audit_strateg.CoreLib.Entries.{entry_at, keep}
use dhtdynamic_audit_strateg.Common.{
  hash_input, be_bytes, segment_count, segment, compute_block_hash, add_segments,
  accumulate_block_segments_g1, accumulate_block_segments_scalar,
}
use dhtdynamic_audit_strateg.Messages.{dht_tag, ChallengeItem, DhtChallenges, ProveExt, VerifyExt}
use dhtdynamic_audit_strateg.Store.{
  Store, has_file, add_file, get_block_metadata, get_block_metadata_collection, read_clock,
  write_cell,
}
use dhtdynamic_audit_strateg.Tags.{
  sigma_of, generate_tags, generate_checked, tag_targets, ensure_file, tag_blocks, find_or_register,
  register_block,
}
use dhtdynamic_audit_strateg.Tags.Targets.{resolve_target_block_indices, window_indices}
use dhtdynamic_audit_strateg.Proofs.{aggregate_hash}
use dhtdynamic_audit_strateg.Proofs.Completeness.{IsVerifiable, Accepted}
use dhtdynamic_audit_strateg.Proofs.Audit.{IsCurrent, tagged_file-Accepted}
use dhtdynamic_audit_strateg.Tests.Toy.{
  toy_collections, toy_sm9, toy_tags, toy_serializer, toy_laws,
}
use dhtdynamic_audit_strateg.Tests.StoreRuns.{start}
use dhtdynamic_audit_strateg.Tests.TagRuns.{
  params, window, secrets, tags_asked, tags_request, whole_window, start-cells,
}

abbrev pub sigma : ℕ → ℕ → ℕ → ℕ
sigma b time local = sigma_of 7 5 "f" b (record { version = 1; timestamp = time }) (local ∷ 9 ∷ [])

unfoldable pub tagged : Store
tagged = state_after (generate_tags tags_request start)

unfoldable pub made : toy_tags.Tags
made i =
    if 1 == i
    then some (dht_tag (sigma 2 101 1))
    else if 0 == i
    then some (dht_tag (sigma 1 100 0))
    else none

pub tagging :
    generate_tags tags_request start ≡ done (record { tags = some made; ext = none }) tagged
unfolding tagged made generate_tags generate_checked resolve_target_block_indices window_indices
    tag_targets ensure_file has_file find add_file tag_blocks find_or_register get_block_metadata
    assign entry_at register_block get_block_metadata_collection read_clock write_cell word_pred
    keep word_sub
tagging = refl

pub tagged-find : find "f" tagged.files ≡ some 0
unfolding tagged generate_tags generate_checked resolve_target_block_indices window_indices
    tag_targets ensure_file has_file find add_file tag_blocks find_or_register get_block_metadata
    assign entry_at register_block get_block_metadata_collection read_clock write_cell word_pred
    keep
tagged-find = refl

abbrev second : ChallengeItem
second = record { block_index = 2; nu = 4; metadata = record { version = 1; timestamp = 101 } }

second-IsCurrent : IsCurrent 7 5 "f" window (1 ∷ 2 ∷ []) 0 tagged second
unfolding tagged generate_tags generate_checked resolve_target_block_indices window_indices
    tag_targets ensure_file has_file find add_file tag_blocks find_or_register get_block_metadata
    assign entry_at register_block get_block_metadata_collection read_clock write_cell word_pred
    keep sigma_of compute_block_hash hash_input be_bytes accumulate_block_segments_g1 add_segments
    segment_count segment accumulate_block_segments_scalar
second-IsCurrent = record { positive = refl; target = inr (inl refl); stored = refl; finite = refl }

abbrev pub proving : ProveExt
proving = record { tags = some made; blocks = some window; user_public_params = some params }

abbrev pub verifying : VerifyExt
verifying = record { file_id = "f"; user_public_params = some params }

abbrev challenge : DhtChallenges
challenge = record { blind_point = 60; blind_scalar = 6; items = second ∷ []; block_count = 2 }

challenge-IsVerifiable : IsVerifiable verifying params challenge
unfolding aggregate_hash compute_block_hash hash_input be_bytes
challenge-IsVerifiable = record {
  named = refl;
  with_params = refl;
  pk_finite = refl;
  first = second;
  others = [];
  items = refl;
  blind = refl;
  blind_finite = refl;
  hash_finite = refl;
}

tagged_file-Accepted_example : Accepted proving verifying challenge
tagged_file-Accepted_example =
    tagged_file-Accepted toy_laws tags_request tags_asked window secrets params (1 ∷ 2 ∷ []) start
      tagged made 0 proving verifying challenge
      (record {
        with_ext = refl;
        named = refl;
        with_blocks = refl;
        with_private = refl;
        with_public = refl;
        with_store = refl;
      })
      whole_window (omega arith) start-cells tagging tagged-find (second-IsCurrent, tt)
      (record {
        with_tags = refl;
        with_blocks = refl;
        with_params = refl;
        same_file = refl;
        origin = refl;
        key = refl;
        g_finite = refl;
        u_finite = refl;
      })
      challenge-IsVerifiable
