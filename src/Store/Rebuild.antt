-- ===== src/Store/Rebuild.antt =====
-- The rebuilding of a collection by `insertBlock` and `deleteBlock` in
-- state_stores/dynamic_hash_table_state_store.cpp: clear, then set each kept entry again.
use dhtdynamic_audit_strateg.Base.{
  ℕ, Bool, true, false, List, [], ◌∷◌, ltb, leb, if◌then◌else◌, word_suc, word_pred,
}
use dhtdynamic_audit_strateg.Metadata.{BlockMetadata}
use dhtdynamic_audit_strateg.CoreLib.Entries.{keep}
use dhtdynamic_audit_strateg.CoreLib.Collection.{Collections}

abbrev pub is_empty {ℓ} : {A : Type ℓ} → List A → Bool
is_empty [] = true
is_empty (x ∷ xs) = false

module _ ⦃core : Collections⦄ where
  open core use {Other, Collection, set_index, get_by_index, snapshot, clear}

  -- `for (auto& [idx, meta] : entries) collection->set(shift(idx), meta);`
  unfoldable pub set_all : (ℕ → ℕ) → List (ℕ × BlockMetadata Other) → Collection → Collection
  set_all shift [] c = c
  set_all shift ((i, m) ∷ es) c = set_all shift es (set_index c (shift i) m)

  unfoldable pub insert_entry : Collection → ℕ → BlockMetadata Other → Collection
  insert_entry c i m =
      let to_shift = keep (leb i) (snapshot c) in
      let below = keep (λ k. ltb k i) (snapshot c) in
      let rebuilt = set_all word_suc to_shift (set_all (λ k. k) below (clear c)) in
      set_index (if is_empty to_shift then c else rebuilt) i m

  unfoldable pub delete_entry : Collection → ℕ → Collection
  delete_entry c i =
      let below = keep (λ k. ltb k i) (snapshot c) in
      let above = keep (ltb i) (snapshot c) in
      set_all word_pred above (set_all (λ k. k) below (clear c))
