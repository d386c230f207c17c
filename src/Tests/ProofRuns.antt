-- ===== src/Tests/ProofRuns.antt =====
-- Runs of the proof and of its check, with the hash inputs and segments below them.
use dhtdynamic_audit_strateg.Base.{
  none, suc, ℕ, ◌+◌, ◌-◌, ◌*◌, ◌≡◌, refl, true, some, [], ◌∷◌, ◌++◌, arith, replicate,
}
use dhtdynamic_audit_strateg.Common.{
  hash_input, be_bytes, segment_count, segment_size, segment, compute_block_hash, add_segments,
  accumulate_block_segments_g1, accumulate_block_segments_scalar,
}
use mathlib.Core.List.{foldl}
use dhtdynamic_audit_strateg.Common.Chunks.{add_chunk, pieces, accumulate_block_segments-foldl}
use dhtdynamic_audit_strateg.Common.Segments.{join_segments, segments_from}
use dhtdynamic_audit_strateg.Messages.{
  dht_tag, AuditBlockSource, PublicParams, ChallengeItem, DhtChallenges, ProveExt, VerifyExt,
  verify_ext, key_gen_ext,
}
use dhtdynamic_audit_strateg.Tags.{sigma_of}
use dhtdynamic_audit_strateg.Proofs.{judged, aggregate_hash}
use dhtdynamic_audit_strateg.Proofs.Derivation.{IsTagged}
use dhtdynamic_audit_strateg.Proofs.Completeness.{
  IsProvable, IsVerifiable, Accepted, verify_one, public_proof, honest_proof-Accepted,
  public_proof_accepted,
}
use dhtdynamic_audit_strateg.Run.{ended, Holds}
use dhtdynamic_audit_strateg.Keys.{nonzero_scalar, generate_keys, sm9bls_pair}
use dhtdynamic_audit_strateg.Keys.Laws.{
  nonzero_scalar_enough, IsKeysResult, generate_keys-IsKeysResult,
}
use dhtdynamic_audit_strateg.Tests.Toy.{toy_randomness, toy_sm9, toy_tags, toy_serializer, toy_laws}

abbrev pub params : PublicParams
params = record { pk = 3; g = 2; y = 10; u = 7 }

abbrev pub blocks : AuditBlockSource
blocks = record { global_block_start_index = 0; available_block_count = 2; block = λ i. i ∷ 9 ∷ [] }

abbrev pub first : ChallengeItem
first = record { block_index = 2; nu = 4; metadata = record { version = 1; timestamp = 100 } }

abbrev pub challenge : DhtChallenges
challenge = record { blind_point = 60; blind_scalar = 6; items = first ∷ []; block_count = 2 }

abbrev pub first_sigma : ℕ
first_sigma = sigma_of 7 5 "f" 2 (record { version = 1; timestamp = 100 }) (1 ∷ 9 ∷ [])

abbrev pub proving : ProveExt
proving = record {
  tags = some (λ i. some (dht_tag first_sigma));
  blocks = some blocks;
  user_public_params = some params;
}

abbrev pub verifying : VerifyExt
verifying = record { file_id = "f"; user_public_params = some params }

first-IsTagged : IsTagged 7 5 "f" (λ i. some (dht_tag first_sigma)) blocks first
unfolding sigma_of compute_block_hash hash_input be_bytes accumulate_block_segments_g1 add_segments
    segment_count segment accumulate_block_segments_scalar
first-IsTagged = record { positive = refl; tag = refl; finite = refl }

pub provable :
    IsProvable proving params 5 "f" (λ i. some (dht_tag first_sigma)) blocks challenge.items
provable = record {
  with_tags = refl;
  with_blocks = refl;
  with_params = refl;
  key = refl;
  g_finite = refl;
  u_finite = refl;
  tagged = (first-IsTagged, tt);
}

pub verifiable : IsVerifiable verifying params challenge
unfolding aggregate_hash compute_block_hash hash_input be_bytes
verifiable = record {
  named = refl;
  with_params = refl;
  pk_finite = refl;
  first = first;
  others = [];
  items = refl;
  blind = refl;
  blind_finite = refl;
  hash_finite = refl;
}

honest_proof-Accepted_example : Accepted proving verifying challenge
honest_proof-Accepted_example =
    honest_proof-Accepted toy_laws proving verifying params 5 (λ i. some (dht_tag first_sigma))
      blocks challenge provable verifiable

public_proof_accepted_example :
    verify_one verifying challenge (public_proof toy_laws "f" params challenge 11)
    ≡ judged (some (verify_ext verifying)) true
public_proof_accepted_example =
    public_proof_accepted toy_laws verifying params challenge 11 verifiable

join_segments_example :
    segments_from (1 ∷ 2 ∷ 3 ∷ []) (segment_count (1 ∷ 2 ∷ 3 ∷ [])) 0
    ≡ (1 ∷ 2 ∷ 3 ∷ []) ++ replicate (segment_count (1 ∷ 2 ∷ 3 ∷ []) * segment_size - 3) 0
join_segments_example = join_segments (1 ∷ 2 ∷ 3 ∷ [])

accumulate_block_segments-foldl_example :
    accumulate_block_segments_scalar (1 ∷ 2 ∷ replicate 33 3)
    ≡ foldl add_chunk 0 (pieces 35 (1 ∷ 2 ∷ replicate 33 3))
accumulate_block_segments-foldl_example = accumulate_block_segments-foldl (1 ∷ 2 ∷ replicate 33 3)

nonzero_scalar_enough_example :
    nonzero_scalar 2 4
    ≡ ended (toy_sm9.scalar_of_bytes (toy_randomness.random_bytes (4 + 0)), suc (4 + 0))
nonzero_scalar_enough_example =
    nonzero_scalar_enough 2 4 0 (omega arith) (λ i le. refl) (λ i lt. absurd (omega arith)) refl

generate_keys-IsKeysResult_example :
    Holds IsKeysResult (
      generate_keys 5 (sm9bls_pair (some 3) (some 3)) (some (key_gen_ext (record { seed = none }))))
generate_keys-IsKeysResult_example =
    generate_keys-IsKeysResult 5 (sm9bls_pair (some 3) (some 3))
      (some (key_gen_ext (record { seed = none })))
