-- ===== src/Store/Refinement.antt =====
-- Single calls of the store against the abstract files of Store/Spec.
use dhtdynamic_audit_strateg.Base.{
  ℕ, suc, ◌+◌, ◌-◌, ◌<◌, ◌≡◌, refl, ◌∙◌, Option, none, some, List, [], String, arith, leb, ◌==◌,
  ◌&&◌, word_mod, word_pred, word_pred-eq, length, inl, inr, Bool-cases, get_elem?-none,
  get_elem?-some,
}
use dhtdynamic_audit_strateg.CoreLib.Collection.{Collections}
use dhtdynamic_audit_strateg.Store.Dense.{
  new-Represents, init_blocks-Represents, set_index-Represents, insert_entry-Represents,
  delete_entry-Represents,
}
use dhtdynamic_audit_strateg.Store.Spec.{
  StoreOp, adds, removes, adds_blocks, modifies, inserts, deletes, Files, run_op, spec_op, AllShort,
  Allowed,
}
use dhtdynamic_audit_strateg.Store.{
  Store, Metadata, has_file, add_file, add_file_blocks, remove_file, modify_block, insert_block,
  delete_block,
}
use dhtdynamic_audit_strateg.Store.Relation.{
  Refines, Agrees, FileHolds, reads-Refines, out_of_range, short_enough, rewritten-Refines,
  attach_new-Refines, remove_file-Refines,
}

module _ ⦃core : Collections⦄ where
  open core use {Collection, get_by_index, set_index, new}

  abbrev pub Simulates : StoreOp → Store → Files → Type 0
  Simulates op s a =
      Agrees (run_op op s) (spec_op s.metadata_factory (λ i. s.clock (s.reads + i)) op a)

  adds-Simulates :
      (s : Store) (a : Files) (id : String) (o : Option (List Metadata))
      → a id ≡ o
      → Refines s a
      → FileHolds s id o
      → Simulates (adds id) s a
  unfolding run_op add_file has_file
  adds-Simulates s a id none e h missing =
      rw (e, missing)
        (attach_new-Refines s a id (new s.metadata_factory) [] h
          (new-Represents s.metadata_factory))
  adds-Simulates s a id (some xs) e h (r, p, rep) = rw (e, p) (refl, h)

  adds_blocks-Simulates :
      (s : Store) (a : Files) (id : String) (n : ℕ) (o : Option (List Metadata))
      → a id ≡ o
      → Refines s a
      → FileHolds s id o
      → Simulates (adds_blocks id n) s a
  unfolding run_op add_file_blocks has_file
  adds_blocks-Simulates s a id n none e h missing = elim (Bool-cases (n == 0)) [
    | inl empty ↦ rw (e, missing, empty) (refl, h)
    | inr more ↦
        rw (e, missing, more)
          (attach_new-Refines (record s { reads = s.reads + n }) a id _ _ (reads-Refines s a _ h)
            (init_blocks-Represents s.metadata_factory _ n))
  ]
  adds_blocks-Simulates s a id n (some xs) e h (r, p, rep) = rw (e, p) (refl, h)

  removes-Simulates :
      (s : Store) (a : Files) (id : String) (o : Option (List Metadata))
      → a id ≡ o
      → Refines s a
      → FileHolds s id o
      → Simulates (removes id) s a
  unfolding run_op remove_file has_file
  removes-Simulates s a id none e h missing = rw (e, missing) (refl, h)
  removes-Simulates s a id (some xs) e h (r, p, rep) = rw (e, p) (remove_file-Refines s a id h)

  inserts-Simulates :
      (s : Store) (a : Files) (id : String) (b : ℕ) (o : Option (List Metadata))
      → a id ≡ o
      → Refines s a
      → AllShort a
      → Allowed (inserts id b) a
      → FileHolds s id o
      → Simulates (inserts id b) s a
  unfolding run_op insert_block
  inserts-Simulates s a id b none e h short ok missing = rw (e, missing) (refl, h)
  inserts-Simulates s a id b (some xs) e h short ok (r, p, rep) =
      let (low, high) = ok xs e in
      let room = short id xs e in
      let index : word_pred b ≡ b - 1 = word_pred-eq b (omega arith) (omega arith) in
      let now : s.reads + 0 ≡ s.reads = omega arith in
      rw (e, p, index, now)
        (rewritten-Refines s a id r (suc s.reads) _ _ h p
          (insert_entry-Represents (s.cells r) xs (b - 1) _ rep (omega arith) room))

  modifies-Simulates :
      (s : Store) (a : Files) (id : String) (b : ℕ) (o : Option (List Metadata))
      → a id ≡ o
      → Refines s a
      → AllShort a
      → b < word_mod
      → FileHolds s id o
      → Simulates (modifies id b) s a
  unfolding run_op modify_block
  modifies-Simulates s a id b none e h short ok missing = rw (e, missing) (refl, h)
  modifies-Simulates s a id b (some xs) e h short ok (r, p, rep) =
      elim (Bool-cases (leb 1 b && leb b (length xs))) [
        | inl inside ↦
            let lt : b - 1 < length xs = ground arith in
            let index : word_pred b ≡ b - 1 = word_pred-eq b (ground arith) ok in
            let now : s.reads + 0 ≡ s.reads = omega arith in
            let (m, q) = get_elem?-some xs (b - 1) lt in
            let found = rep (b - 1) ∙ q in
            rw (e, p, index, found, inside, q, now)
              (rewritten-Refines s a id r (suc s.reads) _ _ h p
                (set_index-Represents (s.cells r) xs (b - 1) _ rep lt))
        | inr outside ↦
            let missing =
              rep (word_pred b)
              ∙ get_elem?-none xs (word_pred b)
                  (out_of_range b (length xs) outside ok (short id xs e)) in
            rw (e, p, missing, outside) (refl, h)
      ]

  deletes-Simulates :
      (s : Store) (a : Files) (id : String) (b : ℕ) (o : Option (List Metadata))
      → a id ≡ o
      → Refines s a
      → AllShort a
      → b < word_mod
      → FileHolds s id o
      → Simulates (deletes id b) s a
  unfolding run_op delete_block
  deletes-Simulates s a id b none e h short ok missing = rw (e, missing) (refl, h)
  deletes-Simulates s a id b (some xs) e h short ok (r, p, rep) =
      elim (Bool-cases (leb 1 b && leb b (length xs))) [
        | inl inside ↦
            let lt : b - 1 < length xs = ground arith in
            let index : word_pred b ≡ b - 1 = word_pred-eq b (ground arith) ok in
            let (m, q) = get_elem?-some xs (b - 1) lt in
            let found = rep (b - 1) ∙ q in
            rw (e, p, index, found, inside)
              (rewritten-Refines s a id r s.reads _ _ h p
                (delete_entry-Represents (s.cells r) xs (b - 1) rep (short_enough (short id xs e))))
        | inr outside ↦
            let missing =
              rep (word_pred b)
              ∙ get_elem?-none xs (word_pred b)
                  (out_of_range b (length xs) outside ok (short id xs e)) in
            rw (e, p, missing, outside) (refl, h)
      ]

  -- Each call that changes the store does what the abstract files say: where the store holds them,
  -- all files are shorter than a `std::size_t` counts, block indices fit one, and an insertion is at
  -- a place from 1 to one past the end, the call returns or throws as they do, with the same
  -- exception, and the store it leaves, after an exception too, holds the abstract files it leaves.
  pub step-Refines :
      (op : StoreOp) (s : Store) (a : Files)
      → Refines s a
      → AllShort a
      → Allowed op a
      → Simulates op s a
  step-Refines (adds id) s a h short ok = adds-Simulates s a id (a id) refl h (h.holds id)
  step-Refines (removes id) s a h short ok = removes-Simulates s a id (a id) refl h (h.holds id)
  step-Refines (adds_blocks id n) s a h short ok =
      adds_blocks-Simulates s a id n (a id) refl h (h.holds id)
  step-Refines (modifies id b) s a h short ok =
      modifies-Simulates s a id b (a id) refl h short ok (h.holds id)
  step-Refines (inserts id b) s a h short ok =
      inserts-Simulates s a id b (a id) refl h short ok (h.holds id)
  step-Refines (deletes id b) s a h short ok =
      deletes-Simulates s a id b (a id) refl h short ok (h.holds id)
