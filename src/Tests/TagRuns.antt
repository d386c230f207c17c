-- ===== src/Tests/TagRuns.antt =====
-- Runs of the tag stage.
use mathlib.Core.List.{Perm, Nodup, Mem}
use dhtdynamic_audit_strateg.Base.{ℕ, ◌+◌, ◌≡◌, refl, true, none, some, List, [], ◌∷◌, arith, ◌⊎◌}
use dhtdynamic_audit_strateg.Exec.{ok, err, index_out_of_window, indices_not_distinct}
use dhtdynamic_audit_strateg.CoreLib.Entries.{entry_at}
use dhtdynamic_audit_strateg.Messages.{
  tags_gen_ext, AuditBlockSource, PublicParams, PrivateParams, TagsGenExt,
}
use dhtdynamic_audit_strateg.Store.{AllVersioned}
use dhtdynamic_audit_strateg.Tags.{generate_tags, GenerateTagsRequest}
use dhtdynamic_audit_strateg.Tags.Targets.{resolve_target_block_indices, window_indices}
use dhtdynamic_audit_strateg.Tags.Targets.Laws.{Ascending, InWindow, All, resolve_cases}
use dhtdynamic_audit_strateg.Tags.Consistency.{Generated, generate_tags_consistent}
use dhtdynamic_audit_strateg.Tests.Toy.{
  toy_collections, toy_sm9, toy_tags, toy_serializer, toy_randomness,
}
use dhtdynamic_audit_strateg.Tests.StoreRuns.{start}

resolve_cases_example :
    ((resolve_target_block_indices (some (5 ∷ 4 ∷ [])) 3 2 ≡ err index_out_of_window)
      × ((c : ℕ) × Mem c (5 ∷ 4 ∷ []) × (¬ InWindow 3 2 c)))
    ⊎ ((resolve_target_block_indices (some (5 ∷ 4 ∷ [])) 3 2 ≡ err indices_not_distinct)
        × All (InWindow 3 2) (5 ∷ 4 ∷ [])
        × (¬ Nodup {A = ℕ} (5 ∷ 4 ∷ [])))
    ⊎ ((cs : List ℕ) × (resolve_target_block_indices (some (5 ∷ 4 ∷ [])) 3 2 ≡ ok cs)
        × Perm cs (5 ∷ 4 ∷ [])
        × Ascending (3 + 1) (3 + 2 + 1) cs)
resolve_cases_example = resolve_cases 3 2 5 (4 ∷ [])

abbrev pub params : PublicParams
params = record { pk = 3; g = 2; y = 10; u = 7 }

abbrev pub window : AuditBlockSource
window = record { global_block_start_index = 0; available_block_count = 2; block = λ i. i ∷ 9 ∷ [] }

abbrev pub secrets : PrivateParams
secrets = record { sk = 3; a = 5 }

abbrev pub tags_asked : TagsGenExt
tags_asked = record {
  file_id = "f";
  user_public_params = some params;
  user_private_params = some secrets;
  state_store = true;
}

abbrev pub tags_request : GenerateTagsRequest
tags_request = record {
  ext = some (tags_gen_ext tags_asked);
  blocks = some window;
  target_block_indices = none;
}

pub whole_window : resolve_target_block_indices none 0 2 ≡ ok (1 ∷ 2 ∷ [])
unfolding resolve_target_block_indices window_indices
whole_window = refl

pub start-cells : AllVersioned start
unfolding entry_at
start-cells r i m h = cc

generate_tags_consistent_example :
    Generated 7 5 "f" window (1 ∷ 2 ∷ []) start (generate_tags tags_request start)
generate_tags_consistent_example =
    generate_tags_consistent tags_request tags_asked window secrets params (1 ∷ 2 ∷ []) start
      (record {
        with_ext = refl;
        named = refl;
        with_blocks = refl;
        with_private = refl;
        with_public = refl;
        with_store = refl;
      })
      whole_window (omega arith) start-cells
