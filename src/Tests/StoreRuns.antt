-- ===== src/Tests/StoreRuns.antt =====
-- Runs of the state store and of its rebuilding.
use dhtdynamic_audit_strateg.Base.{
  ℕ, ◌+◌, ◌-◌, ◌≤◌, ◌≡◌, refl, subst, none, some, List, [], ◌∷◌, arith, ltb, ◌==◌, if◌then◌else◌,
  word_mod,
}
use dhtdynamic_audit_strateg.Base.Assoc.{find}
use dhtdynamic_audit_strateg.Exec.{Outcome, done, threw, state_after}
use dhtdynamic_audit_strateg.CoreLib.Entries.{entry_at, keep}
use dhtdynamic_audit_strateg.Store.{
  Store, Metadata, empty_store, default_factory, has_file, get_block_count, get_block_metadata,
  is_some, insert_entry, add_file_blocks,
}
use dhtdynamic_audit_strateg.Store.Dense.{tabulate}
use dhtdynamic_audit_strateg.Store.Shift.{Fits, get-insert_entry}
use dhtdynamic_audit_strateg.Store.Spec.{
  StoreOp, adds_blocks, inserts, deletes, Files, put_file, run_op, AllShort,
}
use dhtdynamic_audit_strateg.Store.Relation.{Refines, Agrees}
use dhtdynamic_audit_strateg.Store.Refinement.{Simulates, step-Refines}
use dhtdynamic_audit_strateg.Store.Runs.{run_ops, spec_ops, Runnable, run_ops-Refines}
use dhtdynamic_audit_strateg.Store.Queries.{
  query-Refines, insert_delete, AllShort-put_file, count_of, block_of,
}
use dhtdynamic_audit_strateg.Tests.Toy.{EntryCollection, toy_collections, put_entry}

-- A clock that says 100, then 101, and so on.
abbrev pub start : Store
start = empty_store default_factory (λ k. 100 + k)

abbrev pub no_files : Files
no_files id = none

pub start-Refines : Refines start no_files
unfolding find
start-Refines = record { holds = λ id. refl; separate = λ id j r p q. cc; allocated = λ id r p. cc }

pub no_files-AllShort : AllShort no_files
no_files-AllShort id xs e = cc

-- Three blocks, and the second of them deleted.
abbrev pub three_and_delete : List StoreOp
three_and_delete = adds_blocks "f" 3 ∷ deletes "f" 2 ∷ []

abbrev pub three_blocks : List Metadata
three_blocks = tabulate (λ i. default_factory (100 + (0 + i))) 3 0

abbrev pub with_three : Files
with_three = put_file no_files "f" (some three_blocks)

pub with_three-AllShort : AllShort with_three
with_three-AllShort = AllShort-put_file no_files "f" three_blocks no_files-AllShort (omega arith)

three_and_delete-Runnable : Runnable default_factory (λ k. 100 + k) 0 three_and_delete no_files
three_and_delete-Runnable = (
  no_files-AllShort,
  tt,
  λ a p.
      let e : with_three ≡ a = cc in (subst AllShort e with_three-AllShort, omega arith, λ b q. tt),
)

run_ops-Refines_example :
    Agrees
      (run_ops three_and_delete start)
      (spec_ops default_factory (λ k. 100 + k) 0 three_and_delete no_files)
run_ops-Refines_example =
    run_ops-Refines three_and_delete start no_files start-Refines three_and_delete-Runnable

step-Refines_example : Simulates (adds_blocks "f" 3) start no_files
step-Refines_example =
    step-Refines (adds_blocks "f" 3) start no_files start-Refines no_files-AllShort tt

-- The store with the three blocks.
unfoldable pub filled : Store
filled = state_after (add_file_blocks "f" 3 start)

agreed :
    (o : Outcome Store (Unit {0})) (a : Files) → Agrees o (done tt a) → Refines (state_after o) a
agreed (done u s) a h = h
agreed (threw e s) a h = absurd h

pub filled-Refines : Refines filled with_three
unfolding filled run_op
filled-Refines =
    agreed (add_file_blocks "f" 3 start) with_three
      (step-Refines (adds_blocks "f" 3) start no_files start-Refines no_files-AllShort tt)

query-Refines_example :
    (has_file filled "f" ≡ is_some (with_three "f"))
    × (get_block_count "f" filled ≡ count_of (with_three "f") filled)
    × (get_block_metadata "f" 2 filled ≡ block_of (with_three "f") 2 filled)
query-Refines_example =
    query-Refines filled with_three "f" 2 filled-Refines with_three-AllShort (omega arith)

insert_delete_example :
    (t : Store) × (run_ops (inserts "f" 2 ∷ deletes "f" 2 ∷ []) filled ≡ done tt t)
    × Refines t with_three
insert_delete_example =
    insert_delete filled with_three "f" 2 three_blocks filled-Refines with_three-AllShort refl
      (omega arith) (omega arith) (omega arith)

-- A collection with a gap: places 0 and 2.
abbrev pub gapped : EntryCollection
gapped =
    put_entry
      (put_entry (record { factory = default_factory; entries = []; distinct = tt }) 0
        (default_factory 7))
      2 (default_factory 9)

gapped-none : (k : ℕ) → 3 ≤ k → entry_at k gapped.entries ≡ none
unfolding entry_at keep
gapped-none k h = ground arith

gapped-Fits : (n : ℕ) → 3 ≤ n → Fits n gapped
gapped-Fits n h k le = gapped-none k (omega arith)

get-insert_entry_example : entry_at 3 (insert_entry gapped 1 (default_factory 8)).entries ≡ (
    if ltb 3 1
    then entry_at 3 gapped.entries
    else if 1 == 3
    then some (default_factory 8)
    else entry_at (3 - 1) gapped.entries)
get-insert_entry_example =
    get-insert_entry gapped 1 3 (default_factory 8) (gapped-Fits (word_mod - 1) (omega arith))
