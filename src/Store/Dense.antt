-- ===== src/Store/Dense.antt =====
-- Collections without gaps as lists of blocks, and the store's changes as list operations.
use dhtdynamic_audit_strateg.Base.{
  ℕ, zero, suc, ◌+◌, ◌-◌, ◌≤◌, ◌<◌, ◌≡◌, none, some, List, [], ◌∷◌, ◌∙◌, arith, ltb, leb, ◌&&◌,
  if◌then◌else◌, word_mod, length, get_elem?, set, insert_idx, erase_idx, get_elem?-none,
  get_elem?-some, get_elem?-set, get_elem?-insert_idx, get_elem?-erase_idx,
}
use dhtdynamic_audit_strateg.Metadata.{BlockMetadata}
use dhtdynamic_audit_strateg.CoreLib.Collection.{Collections}
use dhtdynamic_audit_strateg.Store.Rebuild.{insert_entry, delete_entry}
use dhtdynamic_audit_strateg.Store.Shift.{Fits, get-insert_entry, get-delete_entry}
use dhtdynamic_audit_strateg.Store.{init_blocks}

-- `g i`, `g (i + 1)`, and so on: `n` values.
abbrev pub tabulate {ℓ} : {A : Type ℓ} → (ℕ → A) → ℕ → ℕ → List A
tabulate g zero i = []
tabulate g (suc n) i = g i ∷ tabulate g n (suc i)

get_elem?-tabulate :
    {A : Type 0} (g : ℕ → A) (n i j : ℕ)
    → get_elem? (tabulate g n i) j ≡ (if ltb j n then some (g (i + j)) else none)
get_elem?-tabulate g zero i j = ground arith
get_elem?-tabulate g (suc n) i zero = let e : i + 0 ≡ i = omega arith in rw e (ground arith)
get_elem?-tabulate g (suc n) i (suc j) =
    let e : i + suc j ≡ suc i + j = omega arith in
    rw e (ground (arith, get_elem?-tabulate g n (suc i) j))

module _ ⦃core : Collections⦄ where
  open core use {
    Other, Collection, new, create_init_metadata, set_index, get_by_index, total_size, create-new,
    create-set, get-new, get-set, total_size_dense,
  }

  abbrev pub Represents : Collection → List (BlockMetadata Other) → Type 0
  Represents c xs = (i : ℕ) → get_by_index c i ≡ get_elem? xs i

  pub Represents-Fits :
      (c : Collection) (xs : List (BlockMetadata Other)) (n : ℕ)
      → Represents c xs
      → length xs ≤ n
      → Fits n c
  Represents-Fits c xs n rep le k above = rep k ∙ get_elem?-none xs k (omega arith)

  pub new-Represents : (f : ℕ → BlockMetadata Other) → Represents (new f) []
  new-Represents f i = get-new f i

  pub set_index-Represents :
      (c : Collection) (xs : List (BlockMetadata Other)) (i : ℕ) (m : BlockMetadata Other)
      → Represents c xs
      → i < length xs
      → Represents (set_index c i m) (set xs i m)
  set_index-Represents c xs i m rep lt j =
      ground (arith, get-set c i j m, get_elem?-set xs i j m, rep j)

  pub insert_entry-Represents :
      (c : Collection) (xs : List (BlockMetadata Other)) (i : ℕ) (m : BlockMetadata Other)
      → Represents c xs
      → i ≤ length xs
      → length xs + 1 < word_mod
      → Represents (insert_entry c i m) (insert_idx xs i m)
  insert_entry-Represents c xs i m rep le room j = ground (
    arith,
    get-insert_entry c i j m (Represents-Fits c xs _ rep (omega arith)),
    get_elem?-insert_idx xs i j m,
    rep j,
    rep (j - 1),
  )

  pub delete_entry-Represents :
      (c : Collection) (xs : List (BlockMetadata Other)) (i : ℕ)
      → Represents c xs
      → length xs < word_mod
      → Represents (delete_entry c i) (erase_idx xs i)
  delete_entry-Represents c xs i rep room j = ground (
    arith,
    get-delete_entry c i j (Represents-Fits c xs _ rep (omega arith)),
    get_elem?-erase_idx xs i j,
    rep j,
    rep (suc j),
  )

  get-init_blocks :
      (readings : ℕ → ℕ) (g : ℕ → BlockMetadata Other) (n i : ℕ) (c : Collection) (j : ℕ)
      → ((now : ℕ) → create_init_metadata c now ≡ g now)
      → get_by_index (init_blocks readings n i c) j
        ≡ (if leb i j && ltb j (i + n) then some (g (readings j)) else get_by_index c j)
  unfolding init_blocks
  get-init_blocks readings g zero i c j made = ground arith
  get-init_blocks readings g (suc n) i c j made =
      let m = create_init_metadata c (readings i) in
      ground (
        arith,
        get-init_blocks readings g n (suc i) (set_index c i m) j
            (λ now. create-set c i now m ∙ made now),
        get-set c i j m,
        made (readings i),
      )

  pub init_blocks-Represents :
      (f : ℕ → BlockMetadata Other) (readings : ℕ → ℕ) (n : ℕ)
      → Represents (init_blocks readings n 0 (new f)) (tabulate (λ i. f (readings i)) n 0)
  init_blocks-Represents f readings n j = ground (
    arith,
    get-init_blocks readings f n 0 (new f) j (create-new f),
    get_elem?-tabulate (λ i. f (readings i)) n 0 j,
    get-new f j,
  )

  pub total_size-length :
      (c : Collection) (xs : List (BlockMetadata Other))
      → Represents c xs
      → total_size c ≡ length xs
  total_size-length c xs rep =
      total_size_dense c (length xs) (λ i lt. let (m, e) = get_elem?-some xs i lt in (m, rep i ∙ e))
        (λ i le. rep i ∙ get_elem?-none xs i le)
