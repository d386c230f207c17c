-- ===== src/CoreLib/Collection.antt =====
-- The interface of `InMemoryBlockMetadataCollection`: a sparse map from 0-based indices to block
-- metadata (`std::map<std::size_t, std::shared_ptr<BlockMetadata>>`), made with a factory. The
-- factory is given the reading of the clock, which it may ignore.
use dhtdynamic_audit_strateg.Base.{ℕ, ◌≤◌, ◌<◌, ◌≡◌, Option, none, some, List, ◌==◌, if◌then◌else◌}
use dhtdynamic_audit_strateg.Metadata.{BlockMetadata}
use dhtdynamic_audit_strateg.CoreLib.Entries.{entry_at, Distinct}

pub record Collections : Type 1 where
  -- The subclasses of `BlockMetadata` other than `VersionedBlockMetadata`.
  pub Other : Type 0
  pub bump_other : ℕ → Other → Other
  pub Collection : Type 0
  pub new : (ℕ → BlockMetadata Other) → Collection
  pub create_init_metadata : Collection → ℕ → BlockMetadata Other
  pub set_index : Collection → ℕ → BlockMetadata Other → Collection
  pub get_by_index : Collection → ℕ → Option (BlockMetadata Other)
  pub snapshot : Collection → List (ℕ × BlockMetadata Other)
  pub clear : Collection → Collection
  pub total_size : Collection → ℕ
  -- The documented behaviour: a map, with a snapshot of its entries.
  pub create-new :
      (f : ℕ → BlockMetadata Other) (now : ℕ) → create_init_metadata (new f) now ≡ f now
  pub create-set :
      (c : Collection) (i now : ℕ) (m : BlockMetadata Other)
      → create_init_metadata (set_index c i m) now ≡ create_init_metadata c now
  pub get-new : (f : ℕ → BlockMetadata Other) (i : ℕ) → get_by_index (new f) i ≡ none
  pub get-set :
      (c : Collection) (i j : ℕ) (m : BlockMetadata Other)
      → get_by_index (set_index c i m) j ≡ (if i == j then some m else get_by_index c j)
  pub get-clear : (c : Collection) (i : ℕ) → get_by_index (clear c) i ≡ none
  pub entry_at-snapshot : (c : Collection) (i : ℕ) → entry_at i (snapshot c) ≡ get_by_index c i
  pub snapshot-Distinct : (c : Collection) → Distinct (snapshot c)
  -- Without gaps, the total size is the number of entries.
  pub total_size_dense :
      (c : Collection) (n : ℕ)
      → ((i : ℕ) → i < n → (m : BlockMetadata Other) × (get_by_index c i ≡ some m))
      → ((i : ℕ) → n ≤ i → get_by_index c i ≡ none)
      → total_size c ≡ n
