-- ===== src/Tests/WireRuns.antt =====
-- Runs of the serializations.
use dhtdynamic_audit_strateg.Base.{◌≡◌, true, false, [], ◌∷◌, ◌++◌, arith}
use dhtdynamic_audit_strateg.Fallible.{returned, raised}
use dhtdynamic_audit_strateg.Metadata.{VersionedBlockMetadata}
use dhtdynamic_audit_strateg.Messages.{MaintainExt, insert, update}
use dhtdynamic_audit_strateg.Wire.{
  lambda_failed, read_proves, read_maintain_ext, write_maintain_ext,
}
use dhtdynamic_audit_strateg.Wire.RoundTrip.{read_maintain_ext-write, read_proves-proof_of}
use dhtdynamic_audit_strateg.Artifacts.{load, challenges_kind, challenges_artifact, write_artifact}
use dhtdynamic_audit_strateg.Artifacts.Storage.{load-write_artifact}
use dhtdynamic_audit_strateg.Tests.Toy.{toy_sm9}
use dhtdynamic_audit_strateg.Tests.ToyArchive.{toy_archive, number_of}
use dhtdynamic_audit_strateg.Tests.ProofRuns.{challenge}

abbrev insertion : MaintainExt
insertion = record {
  file_id = "f";
  op_type = insert;
  block_indices = 3 ∷ 1 ∷ [];
  state_store = true;
}

-- An empty extension without a store.
abbrev no_insertion : MaintainExt
no_insertion = record { file_id = ""; op_type = update; block_indices = []; state_store = false }

read_maintain_ext-write_example :
    read_maintain_ext no_insertion (write_maintain_ext insertion ++ (9 ∷ []))
    ≡ returned (record insertion { state_store = false }, 9 ∷ [])
read_maintain_ext-write_example =
    read_maintain_ext-write no_insertion insertion (omega arith) (omega arith, (omega arith, tt))
      (9 ∷ [])

read_proves-proof_of_example :
    read_proves (toy_archive.put_bytes (2 ∷ []) ++ (toy_archive.put_bytes (5 ∷ []) ++ (7 ∷ [])))
    ≡ raised lambda_failed
unfolding number_of
read_proves-proof_of_example =
    read_proves-proof_of (2 ∷ []) (5 ∷ []) (7 ∷ []) (omega arith, tt) (omega arith, tt)

abbrev stamp : VersionedBlockMetadata
stamp = record { version = 2; timestamp = 9 }

load-write_artifact_example :
    load challenges_kind (write_artifact (challenges_artifact challenge) ++ (4 ∷ []))
    ≡ returned (challenges_artifact challenge, 4 ∷ [])
load-write_artifact_example =
    load-write_artifact (challenges_artifact challenge) (4 ∷ [])
      (omega arith, omega arith, ((omega arith, (omega arith, omega arith)), tt))
