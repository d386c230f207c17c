-- ===== src/Metadata.antt =====
-- state_stores/versioned_block_metadata.h: per-block metadata with a version and a timestamp.
-- Both are `std::uint64_t`, and `++version` wraps.
use dhtdynamic_audit_strateg.Base.{ℕ, Bool, ◌&&◌, Option, none, some, ◌==◌, word_suc}

pub record VersionedBlockMetadata : Type 0 where
  pub version : ℕ
  pub timestamp : ℕ

-- The default constructor.
abbrev pub default_metadata : VersionedBlockMetadata
default_metadata = record { version = 1; timestamp = 0 }

unfoldable pub clone : VersionedBlockMetadata → VersionedBlockMetadata
clone m = record { version = m.version; timestamp = m.timestamp }

unfoldable pub metadata_eq : VersionedBlockMetadata → VersionedBlockMetadata → Bool
metadata_eq m other = m.version == other.version && m.timestamp == other.timestamp

-- `now` is what the clock says, in seconds.
unfoldable pub bump : ℕ → VersionedBlockMetadata → VersionedBlockMetadata
bump now m = record { version = word_suc m.version; timestamp = now }

-- A `std::shared_ptr<BlockMetadata>` that is not null: the default subclass, or another one.
pub data BlockMetadata (Other : Type 0) : Type 0 where
  versioned : VersionedBlockMetadata → BlockMetadata Other
  other : Other → BlockMetadata Other

-- `std::dynamic_pointer_cast<VersionedBlockMetadata>`.
abbrev pub as_versioned : {Other : Type 0} → BlockMetadata Other → Option VersionedBlockMetadata
as_versioned (versioned m) = some m
as_versioned (other o) = none
