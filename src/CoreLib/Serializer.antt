-- ===== src/CoreLib/Serializer.antt =====
-- `CryptoSerializable::serialize` over a cereal binary archive, as the plugin uses it on metadata.
use dhtdynamic_audit_strateg.Base.{ℕ, List}
use dhtdynamic_audit_strateg.Metadata.{VersionedBlockMetadata}

pub record Serializer : Type 0 where
  pub serialize_metadata : VersionedBlockMetadata → List ℕ
