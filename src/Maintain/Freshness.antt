-- ===== src/Maintain/Freshness.antt =====
-- What an update request does to the metadata of a block, and so to the input of its hash.
use dhtdynamic_audit_strateg.Base.{
  ℕ, suc, ◌+◌, ◌%◌, ◌<◌, ◌≡◌, ap, ◌∙◌, Bool, true, false, some, List, [], ◌∷◌, String, arith, ◌==◌,
  if◌then◌else◌, inl, inr, Bool-cases, Option-cases, word_mod, word_pred, word_suc,
}
use dhtdynamic_audit_strateg.Base.Assoc.{find}
use dhtdynamic_audit_strateg.Exec.{Exec, Outcome, done, threw, continue}
use dhtdynamic_audit_strateg.Metadata.{VersionedBlockMetadata, versioned, bump}
use dhtdynamic_audit_strateg.CoreLib.Collection.{Collections}
use dhtdynamic_audit_strateg.Store.{
  Store, Metadata, update, get_block_metadata, modify_block, bump_metadata,
}
use dhtdynamic_audit_strateg.Store.Relation.{update_self}
use dhtdynamic_audit_strateg.Wire.RoundTrip.{IsWords}
use dhtdynamic_audit_strateg.Maintain.{require_versioned, update_blocks}

-- How many of the indices name the block at a place.
unfoldable pub times : ℕ → List ℕ → ℕ
times i [] = 0
times i (b ∷ bs) = if word_pred b == i then suc (times i bs) else times i bs

module _ ⦃core : Collections⦄ where
  open core use {get_by_index, set_index, get-set}

  -- The block at a place has metadata of the default class with 64-bit fields and this version, and
  -- the readings of the clock are 64-bit words.
  pub record HasVersion (id : String) (i v : ℕ) (s : Store) : Type 0 where
    pub cell : ℕ
    pub metadata : VersionedBlockMetadata
    pub is_file : find id s.files ≡ some cell
    pub is_block : get_by_index (s.cells cell) i ≡ some (versioned metadata)
    pub has_version : metadata.version ≡ v
    pub words : IsWords metadata
    pub clock_words : (k : ℕ) → s.clock k < word_mod

  abbrev pub Ends : {A : Type 0} → (Store → Type 0) → Outcome Store A → Type 0
  Ends P (done a t) = P t
  Ends P (threw e t) = Unit

  continue-Ends :
      (P Q : Store → Type 0) (o : Outcome Store (Unit {0})) (k : Exec Store (Unit {0}))
      → Ends P o
      → ((t : Store) → P t → Ends Q (k t))
      → Ends Q (continue o (λ _. k))
  continue-Ends P Q (done u t) k h next = next t h
  continue-Ends P Q (threw e t) k h next = tt

  checked-Ends :
      (P : Store → Type 0) (id : String) (b : ℕ) (s : Store) (k : Exec Store (Unit {0}))
      → Ends P (k s)
      → Ends P
          (continue (get_block_metadata id b s) (λ m t. continue (require_versioned m t) (λ _. k)))
  unfolding get_block_metadata
  checked-Ends P id b s k h = ground arith

  -- One place of a collection that is set.
  placed :
      (c : core.Collection) (i j : ℕ) (m : Metadata)
      → (i == j) ≡ true
      → get_by_index (set_index c i m) j ≡ some m
  placed c i j m h = ground (arith, get-set c i j m)

  elsewhere :
      (c : core.Collection) (i j : ℕ) (m : Metadata)
      → (i == j) ≡ false
      → get_by_index (set_index c i m) j ≡ get_by_index c j
  elsewhere c i j m h = ground (arith, get-set c i j m)

  same_entry :
      (c : core.Collection) (i j : ℕ) (e : Metadata) (m : VersionedBlockMetadata)
      → (i == j) ≡ true
      → get_by_index c i ≡ some e
      → get_by_index c j ≡ some (versioned m)
      → e ≡ versioned m
  same_entry c i j e m h p q = ground arith

  bump-IsWords : (now : ℕ) (m : VersionedBlockMetadata) → now < word_mod → IsWords (bump now m)
  unfolding bump word_suc
  bump-IsWords now m h = (omega arith, h)

  abbrev pub bumped_version : Bool → ℕ → ℕ
  bumped_version same v = if same then word_suc v else v

  -- The metadata after an update, where the block is the one that is updated, and where it is not.
  modified-HasVersion :
      (id : String) (i j v : ℕ) (s : Store) (h : HasVersion id i v s) (e : Metadata)
      → get_by_index (s.cells h.cell) j ≡ some e
      → HasVersion id i (bumped_version (j == i) v) (record s {
        cells =
            update s.cells h.cell
              (set_index (s.cells h.cell) j (bump_metadata (s.clock s.reads) e));
        reads = suc s.reads;
      })
  unfolding bump_metadata bump
  modified-HasVersion id i j v s h e p =
      let now = s.clock s.reads in
      let c = s.cells h.cell in
      let cell' = update_self s.cells h.cell (set_index c j (bump_metadata now e)) in
      elim (Bool-cases (j == i)) [
        | inl same ↦ record {
          cell = h.cell;
          metadata = bump now h.metadata;
          is_file = h.is_file;
          is_block =
              ap (λ c'. get_by_index c' i) cell'
              ∙ (placed c j i (bump_metadata now e) same
                  ∙ ap (λ x. some (bump_metadata now x))
                      (same_entry c j i e h.metadata same p h.is_block));
          has_version = rw same (ap word_suc h.has_version);
          words = bump-IsWords now h.metadata (h.clock_words s.reads);
          clock_words = h.clock_words;
        }
        | inr differs ↦ record {
          cell = h.cell;
          metadata = h.metadata;
          is_file = h.is_file;
          is_block =
              ap (λ c'. get_by_index c' i) cell'
              ∙ (elsewhere c j i (bump_metadata now e) differs ∙ h.is_block);
          has_version = rw differs h.has_version;
          words = h.words;
          clock_words = h.clock_words;
        }
      ]

  modify_block-HasVersion :
      (id : String) (i c v : ℕ) (s : Store)
      → HasVersion id i v s
      → Ends (HasVersion id i (bumped_version (word_pred c == i) v)) (modify_block id c s)
  unfolding modify_block
  modify_block-HasVersion id i c v s h =
      elim (Option-cases (get_by_index (s.cells h.cell) (word_pred c))) [
        | inl missing ↦ rw (h.is_file, missing) tt
        | inr (e, p) ↦ rw (h.is_file, p) (modified-HasVersion id i (word_pred c) v s h e p)
      ]

  abbrev pub bumped_by : ℕ → List ℕ → ℕ → ℕ
  bumped_by i [] v = v
  bumped_by i (c ∷ cs) v = bumped_by i cs (bumped_version (word_pred c == i) v)

  pub update_blocks-HasVersion :
      (id : String) (i : ℕ) (bs : List ℕ) (v : ℕ) (s : Store)
      → HasVersion id i v s
      → Ends (HasVersion id i (bumped_by i bs v)) (update_blocks id bs s)
  unfolding update_blocks
  update_blocks-HasVersion id i [] v s h = h
  update_blocks-HasVersion id i (c ∷ cs) v s h =
      let w = bumped_version (word_pred c == i) v in
      checked-Ends (HasVersion id i (bumped_by i cs w)) id c s _ (
        continue-Ends (HasVersion id i w) (HasVersion id i (bumped_by i cs w)) (modify_block id c s)
          (update_blocks id cs) (modify_block-HasVersion id i c v s h)
          λ t k. update_blocks-HasVersion id i cs w t k)

  pub bumped_by-times :
      (i : ℕ) (bs : List ℕ) (v : ℕ) → v < word_mod → bumped_by i bs v ≡ (v + times i bs) % word_mod
  unfolding times word_suc
  bumped_by-times i [] v h = omega arith
  bumped_by-times i (c ∷ cs) v h = elim (Bool-cases (word_pred c == i)) [
    | inl same ↦ rw same (omega (arith, bumped_by-times i cs ((v + 1) % word_mod) (omega arith)))
    | inr differs ↦ rw differs (bumped_by-times i cs v h)
  ]
