-- ===== src/Challenges.antt =====
-- generate_challenges.cpp: the challenge stage.
pub mod Picking
pub mod Coefficients
pub mod Soundness
pub mod Returns
pub mod Answers
use dhtdynamic_audit_strateg.Base.{
  ℕ, zero, suc, Bool, true, false, not, ◌||◌, Option, none, some, List, [], ◌∷◌, String, str_eq,
  min, length, ltb, ◌==◌, if◌then◌else◌,
}
use dhtdynamic_audit_strateg.Exec.{Error, or_return, not_versioned, algorithm_missing}
use dhtdynamic_audit_strateg.Run.{
  Run, ended, thrown, out_of_fuel, ◌>>=◌, of_outcome, or_out_of_fuel,
}
use dhtdynamic_audit_strateg.Metadata.{VersionedBlockMetadata, BlockMetadata, versioned, other}
use dhtdynamic_audit_strateg.CoreLib.Collection.{Collections}
use dhtdynamic_audit_strateg.CoreLib.Crypto.{Sm9}
use dhtdynamic_audit_strateg.CoreLib.TagSet.{TagSets}
use dhtdynamic_audit_strateg.CoreLib.Random.{Randomness}
use dhtdynamic_audit_strateg.Messages.{
  Tag, PublicParams, ChallengeItem, DhtChallenges, Challenges, dht_challenges, ChallengeExt,
  StageExt, challenge_ext,
}
use dhtdynamic_audit_strateg.Store.{Store, Metadata, has_file, get_block_count, get_block_metadata}
use dhtdynamic_audit_strateg.Keys.{nonzero_scalar}

-- `std::unordered_set<std::size_t>`: the elements, the last inserted first.
unfoldable pub contains : ℕ → List ℕ → Bool
contains x [] = false
contains x (y ∷ ys) = x == y || contains x ys

unfoldable pub insert : ℕ → List ℕ → List ℕ
insert x xs = if contains x xs then xs else x ∷ xs

module _ ⦃sm9 : Sm9⦄ where
  open sm9 use {scalar_default, g2_default}

  abbrev pub as_challenge_ext :
      ⦃tag_sets : TagSets (Tag sm9.G1)⦄ → Option StageExt → Option ChallengeExt
  as_challenge_ext (some (challenge_ext e)) = some e
  as_challenge_ext _ = none

  abbrev pub no_items : ℕ → DhtChallenges
  no_items n = record {
    blind_point = g2_default;
    blind_scalar = scalar_default;
    items = [];
    block_count = n;
  }

  -- The result carries no extension.
  pub record GenerateChallengesResult : Type 0 where
    pub challenges : Option Challenges

  abbrev pub challenged : DhtChallenges → GenerateChallengesResult
  challenged c = record { challenges = some (dht_challenges c) }

module _ ⦃randomness : Randomness⦄ where
  open randomness use {draw, iteration}

  -- `while (picked.size() < count) picked.insert(dist(rng));` from the k-th draw on.
  unfoldable pub pick : Option ℕ → ℕ → ℕ → ℕ → ℕ → List ℕ → Option (List ℕ)
  pick seed n count zero k picked = none
  pick seed n count (suc fuel) k picked =
      let rest = pick seed n count fuel (suc k) (insert (draw seed k n) picked) in
      if ltb (length picked) count then rest else some picked

  module _ ⦃sm9 : Sm9⦄ where
    open sm9 use {Scalar, G2, is_zero, scalar_zero, scalar_default, scalar_sum, g2_mul}

    -- One round: a coefficient for each index, and ν, their sum.
    unfoldable pub draw_coefficients :
        ℕ → List ℕ → Scalar → ℕ → Run (List (ℕ × Scalar) × Scalar × ℕ)
    draw_coefficients fuel [] nu k = ended ([], nu, k)
    draw_coefficients fuel (index ∷ indices) nu k = do
      (v, k') ← nonzero_scalar fuel k
      (items, sum, k'') ← draw_coefficients fuel indices (scalar_sum nu v) k'
      ended ((index, v) ∷ items, sum, k'')

    -- `while (true)`: another round while ν is zero.
    unfoldable pub draw_rounds : ℕ → ℕ → List ℕ → ℕ → Run (List (ℕ × Scalar) × ℕ)
    draw_rounds fuel zero indices k = out_of_fuel
    draw_rounds fuel (suc rounds) indices k = do
      (items, nu, k') ← draw_coefficients fuel indices scalar_default k
      let again = draw_rounds fuel rounds indices k'
      if is_zero nu then again else ended (items, k')

    -- The generator is seeded by the request only when both are there.
    abbrev pub rng_seed : ChallengeExt → Option ℕ
    rng_seed ext = if ext.use_pseudo_random then ext.seed else none

    -- The number of challenges, and the number of the next draw.
    unfoldable pub challenge_count : ChallengeExt → ℕ → ℕ × ℕ
    challenge_count ext n =
        if ext.challenge_count == 0
        then (draw (rng_seed ext) 0 n, 1)
        else (min ext.challenge_count n, 0)

    module _ ⦃core : Collections⦄ where
      abbrev pub versioned_or_thrown : Metadata → Run VersionedBlockMetadata
      versioned_or_thrown (versioned v) = ended v
      versioned_or_thrown (other o) = thrown not_versioned

      unfoldable pub resolve_block_count : ChallengeExt → Store → Run ℕ
      resolve_block_count ext s =
          if ext.block_count == 0
          then of_outcome (get_block_count ext.file_id s)
          else ended ext.block_count

      unfoldable pub add_metadata : String → List (ℕ × Scalar) → Store → Run (List ChallengeItem)
      add_metadata id [] s = ended []
      add_metadata id ((index, nu) ∷ drawn) s = do
        meta ← of_outcome (get_block_metadata id index s)
        v ← versioned_or_thrown meta
        items ← add_metadata id drawn s
        ended (record { block_index = index; nu = nu; metadata = v } ∷ items)

      -- For a file that has blocks.
      unfoldable pub challenge_blocks :
          ℕ → ChallengeExt → PublicParams → ℕ → Store → Run GenerateChallengesResult
      challenge_blocks fuel ext params n s = do
        picked ←
            or_out_of_fuel
              (pick (rng_seed ext) n (challenge_count ext n).0 fuel (challenge_count ext n).1 [])
        (drawn, k) ← draw_rounds fuel fuel (iteration picked) 0
        (r, k') ← nonzero_scalar fuel k
        items ← add_metadata ext.file_id drawn s
        ended (
            challenged (record {
              blind_point = g2_mul params.y r;
              blind_scalar = r;
              items = items;
              block_count = n;
            }))

      unfoldable pub challenge_file :
          Bool → ℕ → ChallengeExt → PublicParams → Store → Run GenerateChallengesResult
      challenge_file algorithm fuel ext params s =
          if algorithm
          then (do
            n ← resolve_block_count ext s
            if n == 0
                then ended (challenged (no_items 0))
                else challenge_blocks fuel ext params n s)
          else thrown algorithm_missing

      -- `algorithm` says whether `algorithm_` is not null.
      unfoldable pub generate_challenges :
          ⦃tag_sets : TagSets (Tag sm9.G1)⦄
          → Bool
          → ℕ
          → Option StageExt
          → Store
          → Run GenerateChallengesResult
      generate_challenges algorithm fuel input_ext s =
          let nothing = ended (record { challenges = none }) in
          or_return (as_challenge_ext input_ext) nothing λ ext.
            if str_eq ext.file_id ""
            then nothing
            else or_return ext.user_public_params nothing λ params.
              if not ext.state_store
              then nothing
              else (if has_file s ext.file_id
                  then challenge_file algorithm fuel ext params s
                  else ended (challenged (no_items 0)))
