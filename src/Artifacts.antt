-- ===== src/Artifacts.antt =====
-- artifact_factory.cpp: the factory of empty objects, into which an engine reads what was stored or
-- sent.
pub mod Storage
use dhtdynamic_audit_strateg.Base.{ℕ, List, [], ◌++◌}
use dhtdynamic_audit_strateg.Fallible.{Fallible, returned, raised, ◌>>=◌}
use dhtdynamic_audit_strateg.Metadata.{VersionedBlockMetadata, default_metadata}
use dhtdynamic_audit_strateg.CoreLib.Crypto.{Sm9}
use dhtdynamic_audit_strateg.CoreLib.Archive.{Archive}
use dhtdynamic_audit_strateg.Messages.{PublicParams, PrivateParams, DhtChallenges, DhtProves}
use dhtdynamic_audit_strateg.TagPoint.{infinity_tag}
use dhtdynamic_audit_strateg.Wire.{
  WireError, unsupported_kind, Reader, write_metadata, read_metadata, write_marker, read_marker,
  write_public_params, read_public_params, write_private_params, read_private_params, write_tag,
  read_tag, write_challenges, read_challenges, write_proves, read_proves,
}

-- `Core::AuditArtifactKind`, an integer that was cast to the enumeration.
pub data ArtifactKind : Type 0 where
  algorithm_public_params algorithm_private_params : ArtifactKind
  user_public_params user_private_params : ArtifactKind
  tag_kind challenges_kind proves_kind dynamic_block_metadata : ArtifactKind
  other_kind : ℕ → ArtifactKind

module _ ⦃sm9 : Sm9⦄ where
  open sm9 use {G1, scalar_default, g1_default, g2_default, gt_default}

  -- `AuditArtifactVariant`, with an object of a class of the plugin.
  pub data Artifact : Type 0 where
    algorithm_public : Artifact
    algorithm_private : Artifact
    public_artifact : PublicParams → Artifact
    private_artifact : PrivateParams → Artifact
    tag_artifact : G1 → Artifact
    challenges_artifact : DhtChallenges → Artifact
    proves_artifact : DhtProves → Artifact
    metadata_artifact : VersionedBlockMetadata → Artifact

  unfoldable pub create_artifact : ArtifactKind → Fallible WireError Artifact
  create_artifact algorithm_public_params = returned algorithm_public
  create_artifact algorithm_private_params = returned algorithm_private
  create_artifact user_public_params =
      returned (
        public_artifact
          (record { pk = g2_default; g = g2_default; y = g2_default; u = g1_default }))
  create_artifact user_private_params =
      returned (private_artifact (record { sk = scalar_default; a = scalar_default }))
  create_artifact tag_kind = returned (tag_artifact infinity_tag)
  create_artifact challenges_kind = returned (
      challenges_artifact (record {
        blind_point = g2_default;
        blind_scalar = scalar_default;
        items = [];
        block_count = 0;
      }))
  create_artifact proves_kind =
      returned (proves_artifact (record { theta = gt_default; lambda = gt_default }))
  create_artifact dynamic_block_metadata = returned (metadata_artifact default_metadata)
  create_artifact (other_kind n) = raised unsupported_kind

  -- What a reader gives, in the class of the object.
  abbrev pub as_artifact :
      {A : Type 0}
      → (A → Artifact)
      → Fallible WireError (A × List ℕ)
      → Fallible WireError (Artifact × List ℕ)
  as_artifact f (returned r) = returned (f r.0, r.1)
  as_artifact f (raised e) = raised e

  module _ ⦃archive : Archive⦄ where
    -- `do_serialize` and `do_deserialize`, called through the base class.
    unfoldable pub write_artifact : Artifact → List ℕ
    write_artifact algorithm_public = write_marker
    write_artifact algorithm_private = write_marker
    write_artifact (public_artifact p) = write_public_params p
    write_artifact (private_artifact p) = write_private_params p
    write_artifact (tag_artifact sigma) = write_tag sigma
    write_artifact (challenges_artifact c) = write_challenges c
    write_artifact (proves_artifact p) = write_proves p
    write_artifact (metadata_artifact m) = write_metadata m

    unfoldable pub read_artifact : Artifact → Reader Artifact
    read_artifact algorithm_public bytes = as_artifact (λ u. algorithm_public) (read_marker bytes)
    read_artifact algorithm_private bytes = as_artifact (λ u. algorithm_private) (read_marker bytes)
    read_artifact (public_artifact p) bytes = as_artifact public_artifact (read_public_params bytes)
    read_artifact (private_artifact p) bytes =
        as_artifact private_artifact (read_private_params bytes)
    read_artifact (tag_artifact sigma) bytes = as_artifact tag_artifact (read_tag bytes)
    read_artifact (challenges_artifact c) bytes =
        as_artifact challenges_artifact (read_challenges bytes)
    read_artifact (proves_artifact p) bytes = as_artifact proves_artifact (read_proves bytes)
    read_artifact (metadata_artifact m) bytes = as_artifact metadata_artifact (read_metadata bytes)

    -- An object is made for a kind, and read into.
    unfoldable pub load : ArtifactKind → Reader Artifact
    load kind bytes = do empty ← create_artifact kind; read_artifact empty bytes
