-- ===== src/Artifacts/Storage.antt =====
-- What an engine stores and reads into an object of the factory.
use dhtdynamic_audit_strateg.Base.{ℕ, ◌≡◌, ap, List, ◌++◌}
use dhtdynamic_audit_strateg.Fallible.{returned}
use dhtdynamic_audit_strateg.CoreLib.Crypto.{Sm9}
use dhtdynamic_audit_strateg.CoreLib.Archive.{Archive}
use dhtdynamic_audit_strateg.Wire.RoundTrip.{
  IsWords, IsWordsChallenges, read_metadata-write, read_marker-write, read_public_params-write,
  read_private_params-write, read_tag-write, read_challenges-write, read_proves-write,
}
use dhtdynamic_audit_strateg.Artifacts.{
  ArtifactKind, algorithm_public_params, algorithm_private_params, user_public_params,
  user_private_params, tag_kind, challenges_kind, proves_kind, dynamic_block_metadata, Artifact,
  algorithm_public, algorithm_private, public_artifact, private_artifact, tag_artifact,
  challenges_artifact, proves_artifact, metadata_artifact, create_artifact, write_artifact,
  read_artifact, as_artifact, load,
}

module _ ⦃sm9 : Sm9⦄ where
  -- The kind that an engine asks the factory for.
  abbrev pub kind_of : Artifact → ArtifactKind
  kind_of algorithm_public = algorithm_public_params
  kind_of algorithm_private = algorithm_private_params
  kind_of (public_artifact p) = user_public_params
  kind_of (private_artifact p) = user_private_params
  kind_of (tag_artifact sigma) = tag_kind
  kind_of (challenges_artifact c) = challenges_kind
  kind_of (proves_artifact p) = proves_kind
  kind_of (metadata_artifact m) = dynamic_block_metadata

  -- The numbers of the object are 64-bit words.
  abbrev pub IsWordsArtifact : Artifact → Type 0
  IsWordsArtifact (challenges_artifact c) = IsWordsChallenges c
  IsWordsArtifact (metadata_artifact m) = IsWords m
  IsWordsArtifact _ = Unit

  module _ ⦃archive : Archive⦄ where
    -- Any object of the plugin whose numbers are 64-bit words, written and read into the object that
    -- the factory makes for its kind, from the front of any bytes, comes back as it was.
    pub load-write_artifact :
        (artifact : Artifact) (rest : List ℕ)
        → IsWordsArtifact artifact
        → load (kind_of artifact) (write_artifact artifact ++ rest) ≡ returned (artifact, rest)
    unfolding load create_artifact read_artifact write_artifact
    load-write_artifact algorithm_public rest h =
        ap (as_artifact (λ u. algorithm_public)) (read_marker-write rest)
    load-write_artifact algorithm_private rest h =
        ap (as_artifact (λ u. algorithm_private)) (read_marker-write rest)
    load-write_artifact (public_artifact p) rest h =
        ap (as_artifact public_artifact) (read_public_params-write p rest)
    load-write_artifact (private_artifact p) rest h =
        ap (as_artifact private_artifact) (read_private_params-write p rest)
    load-write_artifact (tag_artifact sigma) rest h =
        ap (as_artifact tag_artifact) (read_tag-write sigma rest)
    load-write_artifact (challenges_artifact c) rest h =
        ap (as_artifact challenges_artifact) (read_challenges-write c h rest)
    load-write_artifact (proves_artifact p) rest h =
        ap (as_artifact proves_artifact) (read_proves-write p rest)
    load-write_artifact (metadata_artifact m) rest h =
        ap (as_artifact metadata_artifact) (read_metadata-write m h rest)
