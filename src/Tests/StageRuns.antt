-- ===== src/Tests/StageRuns.antt =====
-- Runs of the maintenance and challenge stages.
use dhtdynamic_audit_strateg.Base.{
  ℕ, suc, ◌+◌, ◌≤◌, ◌≡◌, refl, true, false, none, some, [], ◌∷◌, arith, word_pred, length,
}
use dhtdynamic_audit_strateg.Base.Assoc.{find, assign}
use dhtdynamic_audit_strateg.Exec.{done, threw, block_null, op_unsupported}
use dhtdynamic_audit_strateg.CoreLib.Entries.{entry_at, keep}
use dhtdynamic_audit_strateg.Messages.{
  MaintainExt, delete, unsupported, maintain_ext, ChallengeExt, challenge_ext,
}
use dhtdynamic_audit_strateg.Metadata.{versioned}
use dhtdynamic_audit_strateg.Run.{Holds, ended}
use dhtdynamic_audit_strateg.Store.{
  Store, Metadata, is_versioned, add_file_blocks, has_file, init_blocks, attach_new, delete_block,
  default_factory, delete_entry,
}
use dhtdynamic_audit_strateg.Store.Rebuild.{set_all}
use dhtdynamic_audit_strateg.Store.Relation.{Agrees}
use dhtdynamic_audit_strateg.Store.Runs.{spec_ops}
use dhtdynamic_audit_strateg.Maintain.{maintain, maintenance, delete_blocks}
use dhtdynamic_audit_strateg.Maintain.Ops.{maintenance_ops, IsServed, maintain-Refines}
use dhtdynamic_audit_strateg.Maintain.Effects.{
  SameFiles, maintenance_harmless, delete_blocks_partial,
}
use dhtdynamic_audit_strateg.Challenges.{
  pick, insert, contains, generate_challenges, challenge_blocks, GenerateChallengesResult,
  challenge_count,
}
use dhtdynamic_audit_strateg.Challenges.Picking.{Picked, after_draws, pick_enough}
use dhtdynamic_audit_strateg.Challenges.Returns.{AreGood, Knows, sum_from, challenge_blocks_returns}
use dhtdynamic_audit_strateg.Challenges.Answers.{IsAnswer, generate_challenges-IsAnswer}
use dhtdynamic_audit_strateg.Challenges.Soundness.{IsChallenge, challenge_blocks-IsChallenge}
use dhtdynamic_audit_strateg.Tests.Toy.{
  toy_collections, toy_sm9, toy_tags, toy_serializer, toy_randomness,
}
use dhtdynamic_audit_strateg.Tests.StoreRuns.{
  filled, filled-Refines, with_three, with_three-AllShort,
}
use dhtdynamic_audit_strateg.Tests.TagRuns.{params}

-- Deletes the second block of "f".
abbrev deletes_second : MaintainExt
deletes_second = record {
  file_id = "f";
  op_type = delete;
  block_indices = 2 ∷ [];
  state_store = true;
}

filled-cells :
    (r i : ℕ) (m : Metadata)
    → toy_collections.get_by_index (filled.cells r) i ≡ some m
    → is_versioned m ≡ true
unfolding filled add_file_blocks init_blocks attach_new default_factory find assign entry_at keep
filled-cells r i m h = ground arith

filled-IsServed : IsServed deletes_second filled
unfolding filled add_file_blocks has_file find assign
filled-IsServed = record {
  supported = refl;
  named = refl;
  with_store = refl;
  known = refl;
  some_index = λ e. cc;
}

maintain-Refines_example : Agrees (maintain deletes_second filled) (
    spec_ops filled.metadata_factory filled.clock
      (suc filled.reads)
      (maintenance_ops deletes_second)
      with_three)
maintain-Refines_example =
    maintain-Refines deletes_second filled with_three filled-Refines filled-cells filled-IsServed
      (with_three-AllShort, omega arith, λ a p. tt)

-- An operation that the stage does not know, on a file that it knows.
abbrev unknown_op : MaintainExt
unknown_op = record {
  file_id = "f";
  op_type = unsupported 7;
  block_indices = 2 ∷ [];
  state_store = true;
}

unknown_op-threw :
    maintenance (some (maintain_ext unknown_op)) filled
    ≡ threw op_unsupported (record filled { reads = suc filled.reads })
unfolding maintenance maintain filled add_file_blocks has_file find assign
unknown_op-threw = refl

maintenance_harmless_example : SameFiles filled (record filled { reads = suc filled.reads })
maintenance_harmless_example =
    maintenance_harmless (some (maintain_ext unknown_op)) filled
      (record filled { reads = suc filled.reads }) op_unsupported unknown_op-threw (λ e. cc)
      (λ e. cc)

three_draws : 3 ≤ length (after_draws none 5 3 0 [])
unfolding after_draws insert contains
three_draws = omega arith

pick_enough_example : Picked 5 3 (pick none 5 3 4 0 [])
pick_enough_example = pick_enough none 5 3 3 4 0 (omega arith) (omega arith) three_draws

abbrev pub asked : ChallengeExt
asked = record {
  file_id = "f";
  user_public_params = some params;
  block_count = 0;
  challenge_count = 2;
  use_pseudo_random = false;
  seed = none;
  state_store = true;
}

filled-find : find "f" filled.files ≡ some 0
unfolding filled add_file_blocks find assign
filled-find = refl

challenge_blocks-IsChallenge_example :
    Holds (IsChallenge asked params 3 0 filled) (challenge_blocks 5 asked params 3 filled)
challenge_blocks-IsChallenge_example =
    challenge_blocks-IsChallenge 5 asked params 3 0 filled (omega arith) filled-find

generate_challenges-IsAnswer_example :
    IsAnswer true
      (some (challenge_ext asked))
      filled
      (generate_challenges true 5 (some (challenge_ext asked)) filled)
generate_challenges-IsAnswer_example =
    generate_challenges-IsAnswer true 5 (some (challenge_ext asked)) filled

deleted_once :
    (t : Store) × (delete_blocks "f" (2 ∷ []) filled ≡ done tt t)
    × (delete_block "f" 3 t ≡ threw block_null t)
unfolding delete_blocks delete_block filled add_file_blocks find assign entry_at keep word_pred
    delete_entry set_all
deleted_once = (_, refl, refl)

delete_blocks_partial_example :
    delete_blocks "f" (2 ∷ 3 ∷ 1 ∷ []) filled ≡ threw block_null deleted_once.0
delete_blocks_partial_example =
    delete_blocks_partial "f" (2 ∷ []) (1 ∷ []) 3 filled deleted_once.0 deleted_once.0 block_null
      deleted_once.1 deleted_once.2

two_draws : 2 ≤ length (after_draws none 3 2 0 [])
unfolding after_draws insert contains
two_draws = omega arith

good_draws : AreGood 2
unfolding sum_from
good_draws = record { sizes = λ k. refl; nonzero = λ k le. ground arith; sum_nonzero = refl }

filled-Knows : Knows 0 3 filled
unfolding filled add_file_blocks init_blocks attach_new default_factory find assign entry_at keep
    word_pred
filled-Knows = record {
  metadata = λ b. record { version = 1; timestamp = 99 + b };
  stored = filled_blocks;
}
  where
    filled_blocks :
        (b : ℕ)
        → 1 ≤ b
        → b ≤ 3
        → toy_collections.get_by_index (filled.cells 0) (word_pred b)
          ≡ some (versioned (record { version = 1; timestamp = 99 + b }))
    filled_blocks b low high = ground arith

challenge_blocks_returns_example :
    (result : GenerateChallengesResult) × (challenge_blocks 5 asked params 3 filled ≡ ended result)
unfolding challenge_count
challenge_blocks_returns_example =
    challenge_blocks_returns 5 2 3 0 asked params filled (omega arith) (omega arith) filled-find
      filled-Knows two_draws good_draws
