-- ===== src/Store/Runs.antt =====
-- A sequence of calls, up to the first that throws, against the abstract files.
use dhtdynamic_audit_strateg.Base.{ℕ, ◌+◌, ◌≡◌, refl, ap, ◌∙◌, List, [], ◌∷◌, arith}
use dhtdynamic_audit_strateg.Exec.{Exec, Outcome, done, threw, pure, continue, ◌>>◌}
use dhtdynamic_audit_strateg.CoreLib.Collection.{Collections}
use dhtdynamic_audit_strateg.Store.Spec.{
  StoreOp, adds, removes, adds_blocks, modifies, inserts, deletes, Files, run_op, spec_op, AllShort,
  Allowed,
}
use dhtdynamic_audit_strateg.Store.Relation.{Refines, Agrees}
use dhtdynamic_audit_strateg.Store.Refinement.{step-Refines}
use dhtdynamic_audit_strateg.Store.{
  Store, Metadata, add_file, add_file_blocks, remove_file, modify_block, insert_block, delete_block,
}

-- How many times a call that returns reads the clock.
abbrev pub clock_reads : StoreOp → ℕ
clock_reads (adds id) = 0
clock_reads (removes id) = 0
clock_reads (adds_blocks id n) = n
clock_reads (modifies id b) = 1
clock_reads (inserts id b) = 1
clock_reads (deletes id b) = 0

module _ ⦃core : Collections⦄ where
  unfoldable pub run_ops : List StoreOp → Exec Store (Unit {0})
  run_ops [] = pure tt
  run_ops (op ∷ ops) = do run_op op; run_ops ops

  unfoldable pub spec_ops : (ℕ → Metadata) → (ℕ → ℕ) → ℕ → List StoreOp → Exec Files (Unit {0})
  spec_ops make clock reads [] = pure tt
  spec_ops make clock reads (op ∷ ops) = do
    spec_op make (λ i. clock (reads + i)) op
    spec_ops make clock (reads + clock_reads op) ops

  -- The conditions of each call hold where it is made.
  abbrev pub Runnable : (ℕ → Metadata) → (ℕ → ℕ) → ℕ → List StoreOp → Files → Type 0
  Runnable make clock reads [] a = Unit
  Runnable make clock reads (op ∷ ops) a =
      AllShort a
      × Allowed op a
      × ((a' : Files)
          → spec_op make (λ i. clock (reads + i)) op a ≡ done tt a'
          → Runnable make clock (reads + clock_reads op) ops a')

  -- A call leaves the factory and the clock as they are, and counts its readings.
  pub record SameClock (s t : Store) (n : ℕ) : Type 0 where
    pub factory : t.metadata_factory ≡ s.metadata_factory
    pub clock : t.clock ≡ s.clock
    pub reads : t.reads ≡ s.reads + n

  run_op-SameClock :
      (op : StoreOp) (s t : Store) → run_op op s ≡ done tt t → SameClock s t (clock_reads op)
  unfolding run_op add_file add_file_blocks remove_file modify_block insert_block delete_block
  run_op-SameClock (adds id) s t e = ground arith
  run_op-SameClock (removes id) s t e = ground arith
  run_op-SameClock (adds_blocks id n) s t e = ground arith
  run_op-SameClock (modifies id b) s t e = ground arith
  run_op-SameClock (inserts id b) s t e = ground arith
  run_op-SameClock (deletes id b) s t e = ground arith

  -- `step-Refines` for the factory and clock that the store began with.
  step-Agrees :
      (op : StoreOp) (s : Store) (a : Files) (make : ℕ → Metadata) (clock : ℕ → ℕ) (reads : ℕ)
      → s.metadata_factory ≡ make
      → s.clock ≡ clock
      → s.reads ≡ reads
      → Refines s a
      → AllShort a
      → Allowed op a
      → Agrees (run_op op s) (spec_op make (λ i. clock (reads + i)) op a)
  step-Agrees op s a make clock reads e f g h short ok =
      rw (← e, ← f, ← g) (step-Refines op s a h short ok)

  continue-Agrees :
      (o : Outcome Store (Unit {0})) (p : Outcome Files (Unit {0})) (k : Exec Store (Unit {0}))
      (l : Exec Files (Unit {0}))
      → Agrees o p
      → ((t : Store) (b : Files) → o ≡ done tt t → p ≡ done tt b → Refines t b → Agrees (k t) (l b))
      → Agrees (continue o (λ _. k)) (continue p (λ _. l))
  continue-Agrees (done u t) (done v b) k l h next = next t b refl refl h
  continue-Agrees (threw e t) (threw f b) k l h next = h
  continue-Agrees (done u t) (threw f b) k l h next = elim h [ ]
  continue-Agrees (threw e t) (done u b) k l h next = elim h [ ]

  run_ops-Agrees :
      (ops : List StoreOp) (s : Store) (a : Files) (make : ℕ → Metadata) (clock : ℕ → ℕ) (reads : ℕ)
      → s.metadata_factory ≡ make
      → s.clock ≡ clock
      → s.reads ≡ reads
      → Refines s a
      → Runnable make clock reads ops a
      → Agrees (run_ops ops s) (spec_ops make clock reads ops a)
  unfolding run_ops spec_ops
  run_ops-Agrees [] s a make clock reads e f g h ok = h
  run_ops-Agrees (op ∷ ops) s a make clock reads e f g h (short, allowed, rest) =
      continue-Agrees (run_op op s) (spec_op make (λ i. clock (reads + i)) op a) (run_ops ops)
        (spec_ops make clock (reads + clock_reads op) ops)
        (step-Agrees op s a make clock reads e f g h short allowed)
        λ t b p q r.
          let same = run_op-SameClock op s t p in
          run_ops-Agrees ops t b make clock (reads + clock_reads op) (same.factory ∙ e)
            (same.clock ∙ f) (same.reads ∙ ap (λ n. n + clock_reads op) g) r (rest b q)

  -- A sequence of calls, up to the first that throws, does to a store that holds the abstract files
  -- what it does to them, where at each call all files are shorter than a `std::size_t` counts, the
  -- index of an update or a deletion is a `std::size_t`, and an insertion is at one of the places from
  -- 1 to one past the end of its file, if that is there.
  pub run_ops-Refines :
      (ops : List StoreOp) (s : Store) (a : Files)
      → Refines s a
      → Runnable s.metadata_factory s.clock s.reads ops a
      → Agrees (run_ops ops s) (spec_ops s.metadata_factory s.clock s.reads ops a)
  run_ops-Refines ops s a h ok =
      run_ops-Agrees ops s a s.metadata_factory s.clock s.reads refl refl refl h ok
