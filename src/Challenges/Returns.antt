-- ===== src/Challenges/Returns.antt =====
-- Good draws, and the run of the challenge stage on them.
use native.Mathlib.Nat.{ℕ_set}
use mathlib.Core.List.{Perm, Mem, foldr, mem-cons_self, mem-cons_of_mem}
use mathlib.Core.List.Perm
use dhtdynamic_audit_strateg.Base.{
  ℕ, zero, suc, ◌+◌, ◌≤◌, ◌<◌, ◌≡◌, refl, sym, ap, ◌∙◌, false, some, List, [], ◌∷◌, String, length,
  word_pred, arith,
}
use dhtdynamic_audit_strateg.Base.Assoc.{find}
use dhtdynamic_audit_strateg.Run.{ended}
use dhtdynamic_audit_strateg.Metadata.{VersionedBlockMetadata, versioned}
use dhtdynamic_audit_strateg.CoreLib.Collection.{Collections}
use dhtdynamic_audit_strateg.CoreLib.Crypto.{Sm9}
use dhtdynamic_audit_strateg.CoreLib.Random.{Randomness}
use dhtdynamic_audit_strateg.Messages.{PublicParams, ChallengeItem, DhtChallenges, ChallengeExt}
use dhtdynamic_audit_strateg.Store.{Store, get_block_metadata}
use dhtdynamic_audit_strateg.Keys.{nonzero_scalar}
use dhtdynamic_audit_strateg.Challenges.{
  challenge_count, draw_coefficients, draw_rounds, add_metadata, challenge_blocks,
  GenerateChallengesResult, rng_seed, challenged,
}
use dhtdynamic_audit_strateg.Challenges.Picking.{AreBlocks-Mem, after_draws, pick_enough}

length-foldr : (xs : List ℕ) → length xs ≡ foldr (λ x n. suc n) 0 xs
length-foldr [] = refl
length-foldr (x ∷ xs) = ap suc (length-foldr xs)

pub length-Perm : (xs ys : List ℕ) → Perm xs ys → length xs ≡ length ys
length-Perm xs ys p =
    length-foldr xs ∙ Perm.foldr-eq ℕ_set (λ x n. suc n) (λ a b x. refl) p 0 ∙ sym (length-foldr ys)

module _ ⦃randomness : Randomness⦄ ⦃sm9 : Sm9⦄ where
  open sm9 use {Scalar, is_zero, scalar_of_bytes, scalar_default, scalar_sum}
  open randomness use {random_bytes, iteration, iteration-perm}

  abbrev drawn_scalar : ℕ → Scalar
  drawn_scalar k = scalar_of_bytes (random_bytes k)

  -- The sum of `n` scalars from the k-th on.
  unfoldable pub sum_from : Scalar → ℕ → ℕ → Scalar
  sum_from nu zero k = nu
  sum_from nu (suc n) k = sum_from (scalar_sum nu (drawn_scalar k)) n (suc k)

  -- The random pieces have 32 bytes; of the scalars, the first `count` and one more are not zero, and
  -- neither is the sum of the first `count`.
  pub record AreGood (count : ℕ) : Type 0 where
    pub sizes : (k : ℕ) → length (random_bytes k) ≡ 32
    pub nonzero : (k : ℕ) → k ≤ count → is_zero (scalar_of_bytes (random_bytes k)) ≡ false
    pub sum_nonzero : is_zero (sum_from scalar_default count 0) ≡ false

  abbrev paired : List ℕ → ℕ → List (ℕ × Scalar)
  paired [] k = []
  paired (i ∷ is) k = (i, drawn_scalar k) ∷ paired is (suc k)

  first_try :
      (count fuel k : ℕ)
      → AreGood count
      → k ≤ count
      → nonzero_scalar (suc fuel) k ≡ ended (drawn_scalar k, suc k)
  unfolding nonzero_scalar
  first_try count fuel k good le = rw (good.sizes k, good.nonzero k le) refl

  one_round :
      (count fuel k n : ℕ) (indices : List ℕ) (nu : Scalar)
      → AreGood count
      → length indices ≡ n
      → k + n ≤ count
      → draw_coefficients (suc fuel) indices nu k ≡ ended (paired indices k, sum_from nu n k, k + n)
  unfolding draw_coefficients sum_from
  one_round count fuel k zero [] nu good size le = let e : k + 0 ≡ k = omega arith in rw e refl
  one_round count fuel k zero (i ∷ is) nu good size le = absurd (omega arith)
  one_round count fuel k (suc n) [] nu good size le = absurd (omega arith)
  one_round count fuel k (suc n) (i ∷ is) nu good size le =
      let e : k + suc n ≡ suc k + n = omega arith in
      rw
        (
          first_try count fuel k good (omega arith),
          one_round count fuel (suc k) n is (scalar_sum nu (drawn_scalar k)) good (omega arith)
              (omega arith),
          e,
        )
        refl

  one_round_enough :
      (count fuel : ℕ) (indices : List ℕ)
      → AreGood count
      → length indices ≡ count
      → draw_rounds (suc fuel) (suc fuel) indices 0 ≡ ended (paired indices 0, count)
  unfolding draw_rounds
  one_round_enough count fuel indices good size =
      let e : 0 + count ≡ count = omega arith in
      rw
        (
          one_round count fuel 0 count indices scalar_default good size (omega arith),
          good.sum_nonzero,
          e,
        )
        refl

  module _ ⦃core : Collections⦄ where
    open core use {get_by_index}
    open sm9 use {g2_mul}

    -- The store has versioned metadata for each of `n` blocks.
    pub record Knows (r n : ℕ) (s : Store) : Type 0 where
      pub metadata : ℕ → VersionedBlockMetadata
      pub stored :
          (b : ℕ)
          → 1 ≤ b
          → b ≤ n
          → get_by_index (s.cells r) (word_pred b) ≡ some (versioned (metadata b))

    metadata_added :
        (id : String) (r n k : ℕ) (s : Store) (indices : List ℕ)
        → find id s.files ≡ some r
        → Knows r n s
        → ((b : ℕ) → Mem b indices → (1 ≤ b) × (b ≤ n))
        → (items : List ChallengeItem) × (add_metadata id (paired indices k) s ≡ ended items)
    unfolding add_metadata get_block_metadata
    metadata_added id r n k s [] here known inside = ([], refl)
    metadata_added id r n k s (i ∷ is) here known inside =
        let place = inside i mem-cons_self in
        let block = known.stored i place.0 place.1 in
        let item : ChallengeItem = record {
          block_index = i;
          nu = drawn_scalar k;
          metadata = known.metadata i;
        } in
        let rest =
          metadata_added id r n (suc k) s is here known (λ b m. inside b (mem-cons_of_mem i m)) in
        (item ∷ rest.0, rw (here, block, rest.1) refl)

    -- The challenge stage returns for a file with blocks that the store knows, on any fuel above a
    -- number of draws that hits as many blocks as are asked for, where the random pieces have the
    -- right size and neither a scalar nor the sum of the coefficients is zero.
    pub challenge_blocks_returns :
        (fuel m n r : ℕ) (ext : ChallengeExt) (params : PublicParams) (s : Store)
        → 1 ≤ n
        → m < fuel
        → find ext.file_id s.files ≡ some r
        → Knows r n s
        → (challenge_count ext n).0
          ≤ length (after_draws (rng_seed ext) n m (challenge_count ext n).1 [])
        → AreGood (challenge_count ext n).0
        → (result : GenerateChallengesResult) × (challenge_blocks fuel ext params n s
            ≡ ended result)
    unfolding challenge_blocks
    challenge_blocks_returns zero m n r ext params s pos less here known enough good =
        absurd (omega arith)
    challenge_blocks_returns (suc fuel) m n r ext params s pos less here known enough good =
        let count = (challenge_count ext n).0 in
        let p =
          pick_enough (rng_seed ext) n count m (suc fuel) (challenge_count ext n).1 pos less
            enough in
        let perm = iteration-perm p.picked in
        let size = length-Perm (iteration p.picked) p.picked perm ∙ p.size in
        let items =
          metadata_added ext.file_id r n 0 s (iteration p.picked) here known
            (λ b h. AreBlocks-Mem n b p.picked p.blocks ((Perm.mem_iff perm).0 h)) in
        let c : DhtChallenges = record {
          blind_point = g2_mul params.y (drawn_scalar count);
          blind_scalar = drawn_scalar count;
          items = items.0;
          block_count = n;
        } in
        (
          challenged c,
          rw
              (
                p.returns,
                one_round_enough count fuel (iteration p.picked) good size,
                first_try count fuel count good (omega arith),
                items.1,
              )
              refl,
        )
