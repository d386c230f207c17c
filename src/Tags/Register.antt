-- ===== src/Tags/Register.antt =====
-- Finding a block's metadata, or registering the block: `find_or_register` of Tags.
use dhtdynamic_audit_strateg.Base.{
  ℕ, suc, ◌≡◌, ◌≢◌, refl, ◌∙◌, true, false, Option, none, some, String, str_eq, arith, eq_iff, ◌==◌,
  inl, inr, Option-cases, if◌then◌else◌, word_pred,
}
use dhtdynamic_audit_strateg.Base.Assoc.{find, assign, find-assign}
use dhtdynamic_audit_strateg.Exec.{Outcome, done}
use dhtdynamic_audit_strateg.Metadata.{VersionedBlockMetadata, versioned, other}
use dhtdynamic_audit_strateg.CoreLib.Collection.{Collections}
use dhtdynamic_audit_strateg.Store.{
  Store, Metadata, AllVersioned, update, has_file, add_file, get_block_metadata,
  get_block_metadata_collection,
}
use dhtdynamic_audit_strateg.Tags.{ensure_file, register_block, find_or_register, fresh_metadata}

module _ ⦃core : Collections⦄ where
  open core use {get_by_index, set_index, get-set, new, get-new}

  -- The store may have gained blocks of the file in cell `r`; nothing that was there has changed.
  pub record Extends (r : ℕ) (s t : Store) : Type 0 where
    pub files : t.files ≡ s.files
    pub factory : t.metadata_factory ≡ s.metadata_factory
    pub kept :
        (i : ℕ) (m : Metadata)
        → get_by_index (s.cells r) i ≡ some m
        → get_by_index (t.cells r) i ≡ some m
    pub others : (q : ℕ) → q ≢ r → t.cells q ≡ s.cells q

  pub Extends-refl : (r : ℕ) (s : Store) → Extends r s s
  Extends-refl r s = record {
    files = refl;
    factory = refl;
    kept = λ i m h. h;
    others = λ q ne. refl;
  }

  pub Extends-trans : {r : ℕ} {s t u : Store} → Extends r s t → Extends r t u → Extends r s u
  Extends-trans e f = record {
    files = f.files ∙ e.files;
    factory = f.factory ∙ e.factory;
    kept = λ i m h. f.kept i m (e.kept i m h);
    others = λ q ne. f.others q ne ∙ e.others q ne;
  }

  abbrev registered : Store → ℕ → ℕ → Store
  registered s r i = record s {
    cells = update s.cells r (set_index (s.cells r) i (fresh_metadata (s.clock s.reads)));
    reads = suc s.reads;
  }

  registered_self :
      (s : Store) (r i j : ℕ)
      → get_by_index ((registered s r i).cells r) j
        ≡ (if i == j then some (fresh_metadata (s.clock s.reads)) else get_by_index (s.cells r) j)
  registered_self s r i j =
      ground (arith, get-set (s.cells r) i j (fresh_metadata (s.clock s.reads)))

  registered-Extends :
      (s : Store) (r i : ℕ) → get_by_index (s.cells r) i ≡ none → Extends r s (registered s r i)
  registered-Extends s r i absent = record {
    files = refl;
    factory = refl;
    kept = λ j m h. ground (arith, registered_self s r i j);
    others = λ q ne. ground arith;
  }

  registered-AllVersioned : (s : Store) (r i : ℕ) → AllVersioned s → AllVersioned (registered s r i)
  registered-AllVersioned s r i all q j m h =
      ground (arith, all q j m, get-set (s.cells r) i j (fresh_metadata (s.clock s.reads)))

  -- What `find_or_register` comes to for a file of the store.
  pub record Found (r b : ℕ) (s : Store) (o : Outcome Store Metadata) : Type 0 where
    pub metadata : VersionedBlockMetadata
    pub after : Store
    pub returns : o ≡ done (versioned metadata) after
    pub extends : Extends r s after
    pub here : get_by_index (after.cells r) (word_pred b) ≡ some (versioned metadata)
    pub elsewhere :
        (j : ℕ) → j ≢ word_pred b → get_by_index (after.cells r) j ≡ get_by_index (s.cells r) j
    pub all_versioned : AllVersioned after

  pub find_or_register-Found :
      (id : String) (b r : ℕ) (s : Store)
      → find id s.files ≡ some r
      → AllVersioned s
      → Found r b s (find_or_register id b s)
  unfolding find_or_register get_block_metadata register_block get_block_metadata_collection
  find_or_register-Found id b r s p all =
      elim (Option-cases (get_by_index (s.cells r) (word_pred b))) [
        | inl absent ↦ record {
          metadata = record { version = 1; timestamp = s.clock s.reads };
          after = registered s r (word_pred b);
          returns = rw (p, absent, p) refl;
          extends = registered-Extends s r (word_pred b) absent;
          here = ground (arith, registered_self s r (word_pred b) (word_pred b));
          elsewhere = λ j ne. ground (arith, registered_self s r (word_pred b) j);
          all_versioned = registered-AllVersioned s r (word_pred b) all;
        }
        | inr (versioned v, q) ↦ record {
          metadata = v;
          after = s;
          returns = rw (p, q) refl;
          extends = Extends-refl r s;
          here = q;
          elsewhere = λ j ne. refl;
          all_versioned = all;
        }
        | inr (other o, q) ↦ let e = all r (word_pred b) (other o) q in cc
      ]

  -- An entry of a file that may not be there.
  abbrev pub entry_of : Store → Option ℕ → ℕ → Option Metadata
  entry_of s none i = none
  entry_of s (some r) i = get_by_index (s.cells r) i

  -- What `ensure_file` comes to: the file is there, with the entries that it had, and the other files
  -- and collections are as they were.
  pub record Ensured (id : String) (s : Store) (o : Outcome Store (Unit {0})) : Type 0 where
    pub cell : ℕ
    pub after : Store
    pub returns : o ≡ done tt after
    pub file : find id after.files ≡ some cell
    pub old : has_file s id ≡ true → after ≡ s
    pub entries : (i : ℕ) → get_by_index (after.cells cell) i ≡ entry_of s (find id s.files) i
    pub other_files : (j : String) → str_eq id j ≡ false → find j after.files ≡ find j s.files
    pub other_cells : (q : ℕ) → q ≢ cell → after.cells q ≡ s.cells q
    pub all_versioned : AllVersioned after

  abbrev created : Store → String → Store
  created s id = record s {
    files = assign id s.next_cell s.files;
    cells = update s.cells s.next_cell (new s.metadata_factory);
    next_cell = suc s.next_cell;
  }

  created-AllVersioned : (s : Store) (id : String) → AllVersioned s → AllVersioned (created s id)
  created-AllVersioned s id all q j m h = ground (arith, all q j m, get-new s.metadata_factory j)

  created_entries :
      (s : Store) (id : String) (i : ℕ) → get_by_index ((created s id).cells s.next_cell) i ≡ none
  created_entries s id i = ground (arith, get-new s.metadata_factory i)

  absurd_old :
      {A : Type 0} (s : Store) (id : String) → find id s.files ≡ none → has_file s id ≡ true → A
  unfolding has_file
  absurd_old s id absent h = let e = rw absent at h in cc

  pub ensure_file-Ensured :
      (id : String) (s : Store) → AllVersioned s → Ensured id s (ensure_file id s)
  unfolding ensure_file add_file has_file
  ensure_file-Ensured id s all = elim (Option-cases (find id s.files)) [
    | inr (r, p) ↦ record {
      cell = r;
      after = s;
      returns = rw p refl;
      file = p;
      old = λ h. refl;
      entries = λ i. rw p refl;
      other_files = λ j ne. refl;
      other_cells = λ q ne. refl;
      all_versioned = all;
    }
    | inl absent ↦ record {
      cell = s.next_cell;
      after = created s id;
      returns = rw absent refl;
      file = find-assign id id s.next_cell s.files ∙ rw ((eq_iff id id).1 refl) refl;
      old = λ h. absurd_old s id absent h;
      entries = λ i. rw absent (created_entries s id i);
      other_files = λ j ne. find-assign id j s.next_cell s.files ∙ rw ne refl;
      other_cells = λ q ne. ground arith;
      all_versioned = created-AllVersioned s id all;
    }
  ]
