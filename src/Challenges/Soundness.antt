-- ===== src/Challenges/Soundness.antt =====
-- The challenges of a file that has blocks.
use mathlib.Core.List.{Perm}
use dhtdynamic_audit_strateg.Base.{
  ℕ, ◌≤◌, ◌≡◌, refl, ap, false, some, List, [], ◌∷◌, String, length, Option-cases, inl, inr,
  word_pred, arith,
}
use dhtdynamic_audit_strateg.Base.Assoc.{find}
use dhtdynamic_audit_strateg.Run.{Holds, Holds-bind, of_outcome, or_out_of_fuel}
use dhtdynamic_audit_strateg.Metadata.{versioned, other}
use dhtdynamic_audit_strateg.CoreLib.Collection.{Collections}
use dhtdynamic_audit_strateg.CoreLib.Crypto.{Sm9}
use dhtdynamic_audit_strateg.CoreLib.Random.{Randomness}
use dhtdynamic_audit_strateg.Messages.{PublicParams, ChallengeItem, DhtChallenges, ChallengeExt}
use dhtdynamic_audit_strateg.Store.{Store, Metadata, get_block_metadata}
use dhtdynamic_audit_strateg.Keys.{nonzero_scalar}
use dhtdynamic_audit_strateg.Keys.Laws.{IsNonzero, nonzero_scalar_lem}
use dhtdynamic_audit_strateg.Challenges.{
  pick, challenge_count, draw_rounds, add_metadata, versioned_or_thrown, challenge_blocks,
  GenerateChallengesResult, challenged, rng_seed,
}
use dhtdynamic_audit_strateg.Challenges.Picking.{AreBlocks, pick_ended}
use dhtdynamic_audit_strateg.Challenges.Coefficients.{
  IsDrawn, draw_rounds-IsDrawn, indices_of, AllNonzero, sum_of,
}

module _ ⦃randomness : Randomness⦄ ⦃sm9 : Sm9⦄ ⦃core : Collections⦄ where
  open sm9 use {Scalar, is_zero, scalar_default, g2_mul}
  open core use {get_by_index}
  open randomness use {draw, iteration, iteration-perm}

  -- The items' metadata is what the store holds for their blocks.
  abbrev pub AllStored : ℕ → Store → List ChallengeItem → Type 0
  AllStored r s [] = Unit
  AllStored r s (item ∷ items) =
      (get_by_index (s.cells r) (word_pred item.block_index) ≡ some (versioned item.metadata))
      × AllStored r s items

  abbrev pub coefficients : List ChallengeItem → List (ℕ × Scalar)
  coefficients [] = []
  coefficients (item ∷ items) = (item.block_index, item.nu) ∷ coefficients items

  abbrev IsRead : ℕ → Store → ℕ → Metadata → Type 0
  IsRead r s index m = get_by_index (s.cells r) (word_pred index) ≡ some m

  get_block_metadata-IsRead :
      (id : String) (r index : ℕ) (s : Store)
      → find id s.files ≡ some r
      → Holds (IsRead r s index) (of_outcome (get_block_metadata id index s))
  unfolding get_block_metadata
  get_block_metadata-IsRead id r index s here =
      elim (Option-cases (get_by_index (s.cells r) (word_pred index))) [
        | inl gap ↦ rw (here, gap) tt
        | inr (m, block) ↦ simp (here, block) refl
      ]

  abbrev AreItems : ℕ → Store → List (ℕ × Scalar) → List ChallengeItem → Type 0
  AreItems r s drawn items = AllStored r s items × (coefficients items ≡ drawn)

  versioned_or_thrown-IsRead :
      (r index : ℕ) (s : Store) (m : Metadata)
      → IsRead r s index m
      → Holds (λ v. IsRead r s index (versioned v)) (versioned_or_thrown m)
  versioned_or_thrown-IsRead r index s (versioned v) h = h
  versioned_or_thrown-IsRead r index s (other o) h = tt

  add_metadata-AreItems :
      (id : String) (r : ℕ) (drawn : List (ℕ × Scalar)) (s : Store)
      → find id s.files ≡ some r
      → Holds (AreItems r s drawn) (add_metadata id drawn s)
  unfolding add_metadata
  add_metadata-AreItems id r [] s here = (tt, refl)
  add_metadata-AreItems id r ((index, nu) ∷ drawn) s here =
      let Q = AreItems r s ((index, nu) ∷ drawn) in
      Holds-bind (IsRead r s index) Q (of_outcome (get_block_metadata id index s)) _
        (get_block_metadata-IsRead id r index s here)
        (λ m h.
          Holds-bind (λ v. IsRead r s index (versioned v)) Q (versioned_or_thrown m) _
            (versioned_or_thrown-IsRead r index s m h)
            (λ v hv.
              Holds-bind (AreItems r s drawn) Q (add_metadata id drawn s) _
                (add_metadata-AreItems id r drawn s here)
                (λ items hi. ((hv, hi.0), ap (λ is. (index, nu) ∷ is) hi.1))))

  -- A challenge of a file with `n` blocks.
  pub record IsChallenge (ext : ChallengeExt) (params : PublicParams) (n r : ℕ) (s : Store)
      (result : GenerateChallengesResult) : Type 0 where
    pub challenges : DhtChallenges
    pub returned : result ≡ challenged challenges
    pub block_count : challenges.block_count ≡ n
    -- As many different blocks as were asked for.
    pub picked : List ℕ
    pub picked_blocks : AreBlocks n picked
    pub picked_count : length picked ≡ (challenge_count ext n).0
    pub indices : Perm (indices_of (coefficients challenges.items)) picked
    -- No coefficient is zero, nor is their sum.
    pub nonzero : AllNonzero (coefficients challenges.items)
    pub sum_nonzero : is_zero (sum_of scalar_default (coefficients challenges.items)) ≡ false
    pub stored : AllStored r s challenges.items
    -- R = [r]·y
    pub blind_nonzero : is_zero challenges.blind_scalar ≡ false
    pub blind : challenges.blind_point ≡ g2_mul params.y challenges.blind_scalar

  IsPicked : ChallengeExt → ℕ → List ℕ → Type 0
  IsPicked ext n picked = AreBlocks n picked × (length picked ≡ (challenge_count ext n).0)

  pick-IsPicked :
      (ext : ChallengeExt) (n fuel : ℕ)
      → 1 ≤ n
      → Holds (IsPicked ext n) (
          or_out_of_fuel
            (pick (rng_seed ext) n (challenge_count ext n).0 fuel (challenge_count ext n).1 []))
  unfolding IsPicked
  pick-IsPicked ext n fuel pos =
      let o = pick (rng_seed ext) n (challenge_count ext n).0 fuel (challenge_count ext n).1 [] in
      elim (Option-cases o) [
        | inl e ↦ rw e tt
        | inr (picked, e) ↦ rw e (
            pick_ended (rng_seed ext) n (challenge_count ext n).0 fuel (challenge_count ext n).1 []
              picked pos tt (omega arith) e)
      ]

  -- Whenever the stage returns for a file that has blocks, it returns a challenge of that file: as
  -- many different blocks of it as were asked for, coefficients none of which is zero and whose sum
  -- is not zero, the metadata that the store holds, and R = [r]·y for an r that is not zero.
  pub challenge_blocks-IsChallenge :
      (fuel : ℕ) (ext : ChallengeExt) (params : PublicParams) (n r : ℕ) (s : Store)
      → 1 ≤ n
      → find ext.file_id s.files ≡ some r
      → Holds (IsChallenge ext params n r s) (challenge_blocks fuel ext params n s)
  unfolding challenge_blocks IsPicked
  challenge_blocks-IsChallenge fuel ext params n r s pos here =
      let Q = IsChallenge ext params n r s in
      Holds-bind (IsPicked ext n) Q _ _ (pick-IsPicked ext n fuel pos) (λ picked hp.
        Holds-bind (IsDrawn (iteration picked)) Q (draw_rounds fuel fuel (iteration picked) 0) _
          (draw_rounds-IsDrawn fuel fuel (iteration picked) 0)
          (λ d hd.
            Holds-bind IsNonzero Q (nonzero_scalar fuel d.1) _ (nonzero_scalar_lem fuel d.1)
              (λ v hv.
                Holds-bind (AreItems r s d.0) Q (add_metadata ext.file_id d.0 s) _
                  (add_metadata-AreItems ext.file_id r d.0 s here)
                  (λ items hi. record {
                    challenges = record {
                      blind_point = g2_mul params.y v.0;
                      blind_scalar = v.0;
                      items = items;
                      block_count = n;
                    };
                    returned = refl;
                    block_count = refl;
                    picked = picked;
                    picked_blocks = hp.0;
                    picked_count = hp.1;
                    indices = rw (hi.1, hd.1) (iteration-perm picked);
                    nonzero = rw hi.1 hd.0;
                    sum_nonzero = rw hi.1 hd.2;
                    stored = hi.0;
                    blind_nonzero = hv;
                    blind = refl;
                  }))))
