-- ===== src/Store/Relation.antt =====
-- When the store holds the abstract files of Store/Spec, and what keeps it so.
use dhtdynamic_audit_strateg.Base.{
  ℕ, zero, suc, ◌+◌, ◌≤◌, ◌<◌, ◌≡◌, ◌≢◌, refl, ap, ◌∙◌, Option, none, some, List, String, str_eq,
  eq_iff, arith, false, leb, ◌&&◌, word_mod, word_pred, word_pred-eq, word_pred-zero, inl, inr,
  Bool-cases,
}
use dhtdynamic_audit_strateg.Base.Assoc.{find, assign, erase, find-assign, find-erase}
use dhtdynamic_audit_strateg.Exec.{Outcome, done, threw}
use dhtdynamic_audit_strateg.CoreLib.Collection.{Collections}
use dhtdynamic_audit_strateg.Store.Dense.{Represents}
use dhtdynamic_audit_strateg.Store.Spec.{Files, put_file}
use dhtdynamic_audit_strateg.Store.{Store, Metadata, update, attach_new}

pub short_enough : {n : ℕ} → n + 1 < word_mod → n < word_mod
short_enough h = omega arith

pub out_of_range :
    (b n : ℕ) → (leb 1 b && leb b n) ≡ false → b < word_mod → n + 1 < word_mod → n ≤ word_pred b
out_of_range zero n h lt room = rw word_pred-zero (omega arith)
out_of_range (suc b) n h lt room = rw (word_pred-eq (suc b) (omega arith) lt) (ground arith)

pub update_self : {A : Type 0} (f : ℕ → A) (r : ℕ) (v : A) → update f r v r ≡ v
update_self f r v = ground arith

pub update_ne : {A : Type 0} (f : ℕ → A) (r q : ℕ) (v : A) → r ≢ q → update f r v q ≡ f q
update_ne f r q v ne = ground arith

module _ ⦃core : Collections⦄ where
  open core use {Collection, get_by_index, set_index, new}

  abbrev pub FileHolds : Store → String → Option (List Metadata) → Type 0
  FileHolds s id none = find id s.files ≡ none
  FileHolds s id (some xs) = (r : ℕ) × (find id s.files ≡ some r) × Represents (s.cells r) xs

  -- The store holds the abstract files, and no two files share a collection.
  pub record Refines (s : Store) (a : Files) : Type 0 where
    pub holds : (id : String) → FileHolds s id (a id)
    pub separate :
        (id j : String) (r : ℕ) → find id s.files ≡ some r → find j s.files ≡ some r → id ≡ j
    pub allocated : (id : String) (r : ℕ) → find id s.files ≡ some r → r < s.next_cell

  abbrev pub Agrees : Outcome Store (Unit {0}) → Outcome Files (Unit {0}) → Type 0
  Agrees (done u s) (done v a) = Refines s a
  Agrees (threw e s) (threw f a) = (e ≡ f) × Refines s a
  Agrees (done u s) (threw f a) = ⊥
  Agrees (threw e s) (done v a) = ⊥

  -- The store after one collection has been rewritten.
  abbrev pub rewritten : Store → ℕ → Collection → ℕ → Store
  rewritten s r c reads = record s { cells = update s.cells r c; reads = reads }

  -- A file is as it was where its entry and its collection are.
  pub FileHolds-same :
      (s t : Store) (j : String) (o : Option (List Metadata))
      → find j t.files ≡ find j s.files
      → ((r : ℕ) → find j s.files ≡ some r → t.cells r ≡ s.cells r)
      → FileHolds s j o
      → FileHolds t j o
  FileHolds-same s t j none e same h = e ∙ h
  FileHolds-same s t j (some xs) e same (q, p, rep) = (q, e ∙ p, λ i. rw (same q p) (rep i))

  -- One file's collection is rewritten: that file changes, and no other.
  pub rewritten-Refines :
      (s : Store) (a : Files) (id : String) (r reads : ℕ) (c : Collection) (ys : List Metadata)
      → Refines s a
      → find id s.files ≡ some r
      → Represents c ys
      → Refines (rewritten s r c reads) (put_file a id (some ys))
  rewritten-Refines s a id r reads c ys h e rep = record {
    holds = λ j. elim (Bool-cases (str_eq id j)) [
      | inl same ↦
          rw same (r, rw (← (eq_iff id j).0 same) e, λ i. rw (update_self s.cells r c) (rep i))
      | inr differs ↦ rw differs (
          FileHolds-same s (rewritten s r c reads) j (a j) refl
            (λ q p.
              update_ne s.cells r q c
                (λ t. ground (arith, eq_iff id j, h.separate id j q (e ∙ ap some t) p)))
            (h.holds j))
    ];
    separate = h.separate;
    allocated = h.allocated;
  }

  abbrev pub attached : Store → String → Collection → Store
  attached s id c = record s {
    files = assign id s.next_cell s.files;
    cells = update s.cells s.next_cell c;
    next_cell = suc s.next_cell;
  }

  -- A new collection is given to a file.
  pub attach_new-Refines :
      (s : Store) (a : Files) (id : String) (c : Collection) (ys : List Metadata)
      → Refines s a
      → Represents c ys
      → Agrees (attach_new id c s) (done tt (put_file a id (some ys)))
  unfolding attach_new
  attach_new-Refines s a id c ys h rep = record {
    holds = λ j. elim (Bool-cases (str_eq id j)) [
      | inl same ↦ rw same (
        s.next_cell,
        rw (find-assign id j s.next_cell s.files, same),
        λ i. rw (update_self s.cells s.next_cell c) (rep i),
      )
      | inr differs ↦ rw differs (
          FileHolds-same s (attached s id c) j (a j)
            (find-assign id j s.next_cell s.files ∙ rw differs)
            (λ q p. update_ne s.cells s.next_cell q c (ground (arith, h.allocated j q)))
            (h.holds j))
    ];
    separate = λ i j r p q. ground (
      arith,
      find-assign id i s.next_cell s.files,
      find-assign id j s.next_cell s.files,
      eq_iff id i,
      eq_iff id j,
      h.separate i j r,
      h.allocated i r,
      h.allocated j r,
    );
    allocated = λ i r p. ground (arith, find-assign id i s.next_cell s.files, h.allocated i r);
  }

  pub reads-Refines :
      (s : Store) (a : Files) (reads : ℕ) → Refines s a → Refines (record s { reads = reads }) a
  reads-Refines s a reads h = record {
    holds =
        λ j. FileHolds-same s (record s { reads = reads }) j (a j) refl (λ r p. refl) (h.holds j);
    separate = h.separate;
    allocated = h.allocated;
  }

  pub remove_file-Refines :
      (s : Store) (a : Files) (id : String)
      → Refines s a
      → Refines (record s { files = erase id s.files }) (put_file a id none)
  remove_file-Refines s a id h = record {
    holds = λ j. elim (Bool-cases (str_eq id j)) [
      | inl same ↦ rw same (find-erase id j s.files ∙ rw same)
      | inr differs ↦ rw differs (
          FileHolds-same s (record s { files = erase id s.files }) j (a j)
            (find-erase id j s.files ∙ rw differs) (λ r p. refl) (h.holds j))
    ];
    separate = λ i j r p q.
        ground (arith, find-erase id i s.files, find-erase id j s.files, h.separate i j r);
    allocated = λ i r p. ground (arith, find-erase id i s.files, h.allocated i r);
  }
