-- ===== src/Store/Invariant.antt =====
-- What is true of the metadata of every block, whatever calls are made, with any arguments.
pub mod Calls
use dhtdynamic_audit_strateg.Base.{
  ℕ, zero, suc, ◌+◌, ◌≡◌, refl, sym, ◌∙◌, Bool, true, false, Option, none, some, List, [], ◌∷◌,
  String, arith, ltb, leb, ◌==◌, if◌then◌else◌, word_suc, word_pred,
}
use dhtdynamic_audit_strateg.Metadata.{versioned}
use dhtdynamic_audit_strateg.Base.Assoc.{find}
use dhtdynamic_audit_strateg.Exec.{
  Outcome, Exec, done, threw, continue, state_after, or_throw, Error, file_missing, block_null,
}
use dhtdynamic_audit_strateg.CoreLib.Entries.{entry_at, Distinct, keep}
use dhtdynamic_audit_strateg.CoreLib.Collection.{Collections}
use dhtdynamic_audit_strateg.Store.Rebuild.{is_empty, set_all, insert_entry, delete_entry}
use dhtdynamic_audit_strateg.Store.{
  Store, Metadata, empty_store, has_file, update, bump_metadata, add_file, add_file_blocks,
  remove_file, modify_block, insert_block, delete_block, set_block_metadata_collection, init_blocks,
  attach_new,
}

module _ ⦃core : Collections⦄ where
  open core use {
    Other, Collection, new, create_init_metadata, set_index, get_by_index, snapshot, clear,
    create-new, create-set, get-new, get-set, get-clear, entry_at-snapshot, snapshot-Distinct,
  }

  module _ (P : Metadata → Type 0) where
    -- Every entry of a collection, or of a list, is a P.
    abbrev pub AllIn : Collection → Type 0
    AllIn c = (i : ℕ) (m : Metadata) → get_by_index c i ≡ some m → P m

    abbrev AllListed : List (ℕ × Metadata) → Type 0
    AllListed [] = Unit
    AllListed ((i, m) ∷ es) = P m × AllListed es

    -- The metadata in the store are, and so is what the factory makes, what the tag stage registers
    -- and what a bump gives.
    pub record Keeps (s : Store) : Type 0 where
      pub entries : (r : ℕ) → AllIn (s.cells r)
      pub makes : (k : ℕ) → P (s.metadata_factory (s.clock k))
      pub registers : (k : ℕ) → P (versioned (record { version = 1; timestamp = s.clock k }))
      pub bumps : (k : ℕ) (m : Metadata) → P m → P (bump_metadata (s.clock k) m)

    some_same : (v m : Metadata) → some v ≡ some m → P v → P m
    some_same v m e h = let same : v ≡ m = cc in rw (← same) h

    chosen :
        (b : Bool) (v m : Metadata) (o : Option Metadata)
        → (if b then some v else o) ≡ some m
        → P v
        → (o ≡ some m → P m)
        → P m
    chosen true v m o e h k = some_same v m e h
    chosen false v m o e h k = k e

    pub set_index-AllIn :
        (c : Collection) (i : ℕ) (v : Metadata) → AllIn c → P v → AllIn (set_index c i v)
    set_index-AllIn c i v all h j m e =
        chosen (i == j) v m (get_by_index c j) (sym (get-set c i j v) ∙ e) h (all j m)

    set_all-AllIn :
        (shift : ℕ → ℕ) (es : List (ℕ × Metadata)) (c : Collection)
        → AllListed es
        → AllIn c
        → AllIn (set_all shift es c)
    unfolding set_all
    set_all-AllIn shift [] c listed all = all
    set_all-AllIn shift ((i, m) ∷ es) c listed all =
        set_all-AllIn shift es (set_index c (shift i) m) listed.1
          (set_index-AllIn c (shift i) m all listed.0)

    keep-AllListed :
        (p : ℕ → Bool) (es : List (ℕ × Metadata)) → AllListed es → AllListed (keep p es)
    unfolding keep
    keep-AllListed p [] h = tt
    keep-AllListed p ((i, m) ∷ es) h = ground (arith, keep-AllListed p es)

    later :
        (i k : ℕ) (v m : Metadata) (es : List (ℕ × Metadata))
        → entry_at i es ≡ none
        → entry_at k es ≡ some m
        → entry_at k ((i, v) ∷ es) ≡ some m
    unfolding entry_at
    later i k v m es gone e = ground arith

    AllListed-of_entry_at :
        (es : List (ℕ × Metadata))
        → Distinct es
        → ((k : ℕ) (m : Metadata) → entry_at k es ≡ some m → P m)
        → AllListed es
    unfolding entry_at
    AllListed-of_entry_at [] d h = tt
    AllListed-of_entry_at ((i, v) ∷ es) d h = (
      h i v (ground arith),
      AllListed-of_entry_at es d.1 (λ k m e. h k m (later i k v m es d.0 e)),
    )

    snapshot-AllListed : (c : Collection) → AllIn c → AllListed (snapshot c)
    snapshot-AllListed c all =
        AllListed-of_entry_at (snapshot c) (snapshot-Distinct c)
          (λ k m e. all k m (sym (entry_at-snapshot c k) ∙ e))

    nothing : (o : Option Metadata) (m : Metadata) → o ≡ none → o ≡ some m → P m
    nothing o m p q = absurd cc

    clear-AllIn : (c : Collection) → AllIn (clear c)
    clear-AllIn c i m e = nothing (get_by_index (clear c) i) m (get-clear c i) e

    pub new-AllIn : (make : ℕ → Metadata) → AllIn (new make)
    new-AllIn make i m e = nothing (get_by_index (new make) i) m (get-new make i) e

    if-AllIn : (b : Bool) (c d : Collection) → AllIn c → AllIn d → AllIn (if b then c else d)
    if-AllIn true c d h k = h
    if-AllIn false c d h k = k

    insert_entry-AllIn :
        (c : Collection) (i : ℕ) (v : Metadata) → AllIn c → P v → AllIn (insert_entry c i v)
    unfolding insert_entry
    insert_entry-AllIn c i v all h =
        let listed = snapshot-AllListed c all in
        let to_shift = keep (leb i) (snapshot c) in
        let kept = set_all (λ k. k) (keep (λ k. ltb k i) (snapshot c)) (clear c) in
        set_index-AllIn (if is_empty to_shift then c else set_all word_suc to_shift kept) i v
          (if-AllIn (is_empty to_shift) c (set_all word_suc to_shift kept) all (
            set_all-AllIn word_suc to_shift kept (keep-AllListed (leb i) (snapshot c) listed) (
              set_all-AllIn (λ k. k) (keep (λ k. ltb k i) (snapshot c)) (clear c)
                (keep-AllListed (λ k. ltb k i) (snapshot c) listed) (clear-AllIn c))))
          h

    delete_entry-AllIn : (c : Collection) (i : ℕ) → AllIn c → AllIn (delete_entry c i)
    unfolding delete_entry
    delete_entry-AllIn c i all =
        let listed = snapshot-AllListed c all in
        let kept = set_all (λ k. k) (keep (λ k. ltb k i) (snapshot c)) (clear c) in
        set_all-AllIn word_pred (keep (ltb i) (snapshot c)) kept
          (keep-AllListed (ltb i) (snapshot c) listed)
          (set_all-AllIn (λ k. k) (keep (λ k. ltb k i) (snapshot c)) (clear c)
            (keep-AllListed (λ k. ltb k i) (snapshot c) listed) (clear-AllIn c))
