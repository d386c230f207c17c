-- ===== src/Store/Shift.antt =====
-- What a collection holds at each index after the rebuilding that is modelled in Store/Rebuild.
use dhtdynamic_audit_strateg.Base.{
  ℕ, zero, suc, ◌-◌, ◌≤◌, ◌≡◌, refl, true, false, Option, none, some, List, [], ◌∷◌, ◌∙◌, arith,
  ltb, leb, ◌==◌, if◌then◌else◌, word_mod, word_suc, word_pred, word_suc-eq, word_pred-eq,
}
use dhtdynamic_audit_strateg.Metadata.{BlockMetadata}
use dhtdynamic_audit_strateg.CoreLib.Entries.{
  entry_at, Distinct, KeysBelow, keep, entry_at-keep, keep-Distinct, keep-KeysBelow,
  KeysBelow-of_none,
}
use dhtdynamic_audit_strateg.CoreLib.Collection.{Collections}
use dhtdynamic_audit_strateg.Store.Rebuild.{is_empty, set_all, insert_entry, delete_entry}

module _ ⦃core : Collections⦄ where
  open core use {
    Other, Collection, set_index, get_by_index, snapshot, clear, get-set, get-clear,
    entry_at-snapshot, snapshot-Distinct,
  }

  -- No entry is shifted to `j`.
  abbrev Misses : (ℕ → ℕ) → ℕ → List (ℕ × BlockMetadata Other) → Type 0
  Misses shift j [] = Unit
  Misses shift j ((i, m) ∷ es) = ((shift i == j) ≡ false) × Misses shift j es

  -- Only the entry `k` is shifted to `j`.
  abbrev Hits : (ℕ → ℕ) → ℕ → ℕ → List (ℕ × BlockMetadata Other) → Type 0
  Hits shift j k [] = Unit
  Hits shift j k ((i, m) ∷ es) = ((shift i == j) ≡ (i == k)) × Hits shift j k es

  get-set_all_missed :
      (shift : ℕ → ℕ) (j : ℕ) (es : List (ℕ × BlockMetadata Other)) (c : Collection)
      → Misses shift j es
      → get_by_index (set_all shift es c) j ≡ get_by_index c j
  unfolding set_all
  get-set_all_missed shift j [] c h = refl
  get-set_all_missed shift j ((i, m) ∷ es) c h =
      ground (
        arith,
        get-set_all_missed shift j es (set_index c (shift i) m) h.1,
        get-set c (shift i) j m,
      )

  abbrev or_else :
      Option (BlockMetadata Other) → Option (BlockMetadata Other) → Option (BlockMetadata Other)
  or_else (some m) o = some m
  or_else none o = o

  Misses-of_none :
      (shift : ℕ → ℕ) (j k : ℕ) (es : List (ℕ × BlockMetadata Other))
      → Hits shift j k es
      → entry_at k es ≡ none
      → Misses shift j es
  unfolding entry_at
  Misses-of_none shift j k [] h e = tt
  Misses-of_none shift j k ((i, m) ∷ es) h e = ground (arith, Misses-of_none shift j k es h.1)

  get-set_all_hit :
      (shift : ℕ → ℕ) (j k : ℕ) (es : List (ℕ × BlockMetadata Other)) (c : Collection)
      → Hits shift j k es
      → Distinct es
      → get_by_index (set_all shift es c) j ≡ or_else (entry_at k es) (get_by_index c j)
  unfolding set_all entry_at
  get-set_all_hit shift j k [] c h d = refl
  get-set_all_hit shift j k ((i, m) ∷ es) c h d = ground (
    arith,
    get-set_all_hit shift j k es (set_index c (shift i) m) h.1 d.1,
    get-set c (shift i) j m,
  )

module _ ⦃core : Collections⦄ where
  open core use {
    Other, Collection, set_index, get_by_index, snapshot, clear, get-set, get-clear,
    entry_at-snapshot, snapshot-Distinct,
  }

  -- No index from `n` on is in use.
  abbrev pub Fits : ℕ → Collection → Type 0
  Fits n c = (k : ℕ) → n ≤ k → get_by_index c k ≡ none

  Hits-id : (j : ℕ) (es : List (ℕ × BlockMetadata Other)) → Hits (λ k. k) j j es
  Hits-id j [] = tt
  Hits-id j ((i, m) ∷ es) = (refl, Hits-id j es)

  Hits-word_suc :
      (j : ℕ) (es : List (ℕ × BlockMetadata Other))
      → KeysBelow (word_mod - 1) es
      → Hits word_suc (suc j) j es
  Hits-word_suc j [] h = tt
  Hits-word_suc j ((i, m) ∷ es) h = (ground (arith, word_suc-eq i), Hits-word_suc j es h.1)

  Misses-word_suc :
      (i j : ℕ) (es : List (ℕ × BlockMetadata Other))
      → KeysBelow (word_mod - 1) es
      → j ≤ i
      → Misses word_suc j (keep (leb i) es)
  unfolding keep
  Misses-word_suc i j [] h le = tt
  Misses-word_suc i j ((k, m) ∷ es) h le = ground (arith, word_suc-eq k, Misses-word_suc i j es h.1)

  Hits-word_pred :
      (i j : ℕ) (es : List (ℕ × BlockMetadata Other))
      → KeysBelow word_mod es
      → Hits word_pred j (suc j) (keep (ltb i) es)
  unfolding keep
  Hits-word_pred i j [] h = tt
  Hits-word_pred i j ((k, m) ∷ es) h = ground (arith, word_pred-eq k, Hits-word_pred i j es h.1)

  KeysBelow-snapshot : (n : ℕ) (c : Collection) → Fits n c → KeysBelow n (snapshot c)
  KeysBelow-snapshot n c fits =
      KeysBelow-of_none n (snapshot c) (λ k le. entry_at-snapshot c k ∙ fits k le)

  entry_at-is_empty :
      (k : ℕ) (es : List (ℕ × BlockMetadata Other)) → is_empty es ≡ true → entry_at k es ≡ none
  unfolding entry_at
  entry_at-is_empty k [] h = refl
  entry_at-is_empty k (e ∷ es) h = cc

  -- What the entries below `i` look like once they are set again.
  get-below :
      (c : Collection) (i j : ℕ)
      → get_by_index (set_all (λ k. k) (keep (λ k. ltb k i) (snapshot c)) (clear c)) j
        ≡ (if ltb j i then get_by_index c j else none)
  get-below c i j =
      let below = keep (λ k. ltb k i) (snapshot c) in
      ground (
        arith,
        get-set_all_hit (λ k. k) j j below (clear c) (Hits-id j below)
            (keep-Distinct (λ k. ltb k i) (snapshot c) (snapshot-Distinct c)),
        entry_at-keep (λ k. ltb k i) j (snapshot c),
        entry_at-snapshot c j,
        get-clear c j,
      )

  get-shifted_up :
      (c base : Collection) (i j : ℕ)
      → Fits (word_mod - 1) c
      → get_by_index (set_all word_suc (keep (leb i) (snapshot c)) base) (suc j)
        ≡ or_else (if leb i j then get_by_index c j else none) (get_by_index base (suc j))
  get-shifted_up c base i j fits =
      let above = keep (leb i) (snapshot c) in
      ground (
        arith,
        get-set_all_hit word_suc (suc j) j above base
            (Hits-word_suc j above
              (keep-KeysBelow (leb i) _ (snapshot c) (KeysBelow-snapshot _ c fits)))
            (keep-Distinct (leb i) (snapshot c) (snapshot-Distinct c)),
        entry_at-keep (leb i) j (snapshot c),
        entry_at-snapshot c j,
      )

  get-not_shifted :
      (c base : Collection) (i j : ℕ)
      → Fits (word_mod - 1) c
      → j ≤ i
      → get_by_index (set_all word_suc (keep (leb i) (snapshot c)) base) j ≡ get_by_index base j
  get-not_shifted c base i j fits le =
      get-set_all_missed word_suc j _ base
        (Misses-word_suc i j (snapshot c) (KeysBelow-snapshot _ c fits) le)

  none_above :
      (c : Collection) (i k : ℕ)
      → is_empty (keep (leb i) (snapshot c)) ≡ true
      → i ≤ k
      → get_by_index c k ≡ none
  none_above c i k e le = ground (
    arith,
    entry_at-is_empty k (keep (leb i) (snapshot c)) e,
    entry_at-keep (leb i) k (snapshot c),
    entry_at-snapshot c k,
  )

  -- `insert_entry` moves every entry from `i` on one up, and puts the new one in the gap, where no
  -- entry is at 2⁶⁴ - 1 or above.
  pub get-insert_entry :
      (c : Collection) (i j : ℕ) (m : BlockMetadata Other)
      → Fits (word_mod - 1) c
      → get_by_index (insert_entry c i m) j
        ≡ (if ltb j i then get_by_index c j else if i == j then some m else get_by_index c (j - 1))
  unfolding insert_entry
  get-insert_entry c i zero m fits =
      let base = set_all (λ k. k) (keep (λ k. ltb k i) (snapshot c)) (clear c) in
      let rebuilt = set_all word_suc (keep (leb i) (snapshot c)) base in
      ground (
        arith,
        get-set c i 0 m,
        get-set rebuilt i 0 m,
        get-not_shifted c base i 0 fits,
        get-below c i 0,
      )
  get-insert_entry c i (suc j) m fits =
      let base = set_all (λ k. k) (keep (λ k. ltb k i) (snapshot c)) (clear c) in
      let rebuilt = set_all word_suc (keep (leb i) (snapshot c)) base in
      let e : suc j - 1 ≡ j = omega arith in
      rw e (
        ground (
          arith,
          get-set c i (suc j) m,
          get-set rebuilt i (suc j) m,
          get-not_shifted c base i (suc j) fits,
          get-shifted_up c base i j fits,
          get-below c i (suc j),
          none_above c i j,
          none_above c i (suc j),
        ))

  -- `delete_entry` moves every entry above `i` one down, where no entry is at 2⁶⁴ or above.
  pub get-delete_entry :
      (c : Collection) (i j : ℕ)
      → Fits word_mod c
      → get_by_index (delete_entry c i) j
        ≡ (if ltb j i then get_by_index c j else get_by_index c (suc j))
  unfolding delete_entry
  get-delete_entry c i j fits =
      let above = keep (ltb i) (snapshot c) in
      let base = set_all (λ k. k) (keep (λ k. ltb k i) (snapshot c)) (clear c) in
      ground (
        arith,
        get-set_all_hit word_pred j (suc j) above base
            (Hits-word_pred i j (snapshot c) (KeysBelow-snapshot _ c fits))
            (keep-Distinct (ltb i) (snapshot c) (snapshot-Distinct c)),
        entry_at-keep (ltb i) (suc j) (snapshot c),
        entry_at-snapshot c (suc j),
        get-below c i j,
      )
