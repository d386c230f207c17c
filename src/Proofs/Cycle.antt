-- ===== src/Proofs/Cycle.antt =====
-- The whole audit: the tag stage, the challenge stage over the store that it left, the prover and the
-- verifier.
use mathlib.Core.List.{Perm, Mem, mem-cons_self, mem-cons_of_mem}
use mathlib.Core.List.Perm
use dhtdynamic_audit_strateg.Base.{
  ℕ, zero, suc, ◌+◌, ◌-◌, ◌%◌, ◌≤◌, ◌<◌, ◌≡◌, refl, sym, ap, ◌⊎◌, inl, inr, false, some, none,
  Option, List, [], ◌∷◌, String, str_eq, length, arith, word_mod, word_pred-eq,
}
use dhtdynamic_audit_strateg.Base.Assoc.{find}
use dhtdynamic_audit_strateg.Exec.{done}
use dhtdynamic_audit_strateg.Run.{Run, ended, Holds}
use dhtdynamic_audit_strateg.CoreLib.Collection.{Collections}
use dhtdynamic_audit_strateg.CoreLib.Crypto.{Sm9}
use dhtdynamic_audit_strateg.CoreLib.TagSet.{TagSets}
use dhtdynamic_audit_strateg.CoreLib.Serializer.{Serializer}
use dhtdynamic_audit_strateg.CoreLib.Random.{Randomness}
use dhtdynamic_audit_strateg.Messages.{
  Tag, AuditBlockSource, PublicParams, PrivateParams, ChallengeItem, DhtChallenges, TagsGenExt,
  ProveExt, VerifyExt, ChallengeExt, dht_challenges, Challenges,
}
use dhtdynamic_audit_strateg.Store.{Store, AllVersioned}
use dhtdynamic_audit_strateg.Tags.{sigma_of, generate_tags, GenerateTagsRequest}
use dhtdynamic_audit_strateg.Tags.Targets.{resolve_target_block_indices, window_indices}
use dhtdynamic_audit_strateg.Tags.Consistency.{IsComplete}
use dhtdynamic_audit_strateg.Challenges.{
  challenge_blocks, challenge_count, challenged, GenerateChallengesResult,
}
use dhtdynamic_audit_strateg.Challenges.Picking.{AreBlocks-Mem}
use dhtdynamic_audit_strateg.Challenges.Coefficients.{indices_of}
use dhtdynamic_audit_strateg.Challenges.Soundness.{
  IsChallenge, AllStored, coefficients, challenge_blocks-IsChallenge,
}
use dhtdynamic_audit_strateg.Challenges.Returns.{length-Perm}
use dhtdynamic_audit_strateg.Proofs.{aggregate_hash}
use dhtdynamic_audit_strateg.Proofs.Laws.{Bilinear}
use dhtdynamic_audit_strateg.Proofs.Completeness.{Accepted}
use dhtdynamic_audit_strateg.Proofs.Audit.{IsTarget, AllCurrent, IsServer, tagged_file-Accepted}

le_cases : (a b : ℕ) → (a ≤ b) ⊎ (b < a)
le_cases a b = ground arith

-- Every block of a window that starts at the first is one of its targets.
window-IsTarget :
    (count i b : ℕ)
    → i + count < word_mod
    → i < b
    → b ≤ i + count
    → IsTarget b (window_indices 0 count i)
unfolding window_indices
window-IsTarget zero i b room low high = absurd (omega arith)
window-IsTarget (suc count) i b room low high =
    next count i b room low high (window-IsTarget count (suc i) b)
  where
    next :
        (count i b : ℕ)
        → i + suc count < word_mod
        → i < b
        → b ≤ i + suc count
        → (suc i + count < word_mod
            → suc i < b
            → b ≤ suc i + count
            → IsTarget b (window_indices 0 count (suc i)))
        → (b ≡ (0 + i + 1) % word_mod) ⊎ IsTarget b (window_indices 0 count (suc i))
    next count i b room low high rest = elim (le_cases b (suc i)) [
      | inl le ↦ inl (omega arith)
      | inr lt ↦ inr (rest (omega arith) lt (omega arith))
    ]

module _ ⦃core : Collections⦄ ⦃sm9 : Sm9⦄ ⦃tag_sets : TagSets (Tag sm9.G1)⦄
    ⦃serializer : Serializer⦄ ⦃randomness : Randomness⦄ where
  open core use {get_by_index}
  open sm9 use {Scalar, G1, g1_is_infinity, g2_is_infinity, g2_mul}
  open tag_sets use {Tags}

  -- No tag of an item is the point at infinity.
  abbrev pub AllFinite : G1 → Scalar → String → AuditBlockSource → List ChallengeItem → Type 0
  AllFinite u a id blocks [] = Unit
  AllFinite u a id blocks (item ∷ items) =
      (g1_is_infinity
          (sigma_of u a id item.block_index item.metadata (blocks.block (item.block_index - 1)))
        ≡ false)
      × AllFinite u a id blocks items

  AreTargets : ℕ → List ChallengeItem → Type 0
  AreTargets n items = (b : ℕ) → Mem b (indices_of (coefficients items)) → (1 ≤ b) × (b ≤ n)

  items-AllCurrent :
      (u : G1) (a : Scalar) (id : String) (blocks : AuditBlockSource) (bs : List ℕ) (n r : ℕ)
      (t : Store) (items : List ChallengeItem)
      → ((b : ℕ) → 1 ≤ b → b ≤ n → IsTarget b bs)
      → n < word_mod
      → AreTargets n items
      → AllStored r t items
      → AllFinite u a id blocks items
      → AllCurrent u a id blocks bs r t items
  unfolding AreTargets
  items-AllCurrent u a id blocks bs n r t [] target room are stored finite = tt
  items-AllCurrent u a id blocks bs n r t (item ∷ items) target room are stored finite =
      let b = item.block_index in
      let place = are b mem-cons_self in
      (
        record {
          positive = ground arith;
          target = target b place.0 place.1;
          stored = rw (← word_pred-eq b (omega arith) (omega arith)) stored.0;
          finite = finite.0;
        },
        items-AllCurrent u a id blocks bs n r t items target room
            (λ c m. are c (mem-cons_of_mem b m)) stored.1 finite.1,
      )

  -- Who takes part in an audit of a file, from a window of its blocks that starts at the first.
  pub record IsAudit (input : GenerateTagsRequest) (tagging : TagsGenExt)
      (blocks : AuditBlockSource) (secrets : PrivateParams) (params : PublicParams)
      (asked : ChallengeExt) (prove : ProveExt) (verify : VerifyExt) (tags : Tags) : Type 0 where
    pub complete : IsComplete input tagging blocks secrets params
    pub whole_window : input.target_block_indices ≡ none
    pub room : blocks.available_block_count + 1 < word_mod
    pub server : IsServer tagging prove verify tags blocks params secrets.a
    pub same_file : asked.file_id ≡ tagging.file_id
    pub named : str_eq verify.file_id "" ≡ false
    pub verify_params : verify.user_public_params ≡ some params
    pub pk_finite : g2_is_infinity params.pk ≡ false

  -- No point of the challenge that is paired is at infinity.
  pub record IsFinite (params : PublicParams) (a : Scalar) (id : String) (blocks : AuditBlockSource)
      (c : DhtChallenges) : Type 0 where
    pub tags_finite : AllFinite params.u a id blocks c.items
    pub blind_finite : g2_is_infinity c.blind_point ≡ false
    pub hash_finite : g1_is_infinity (aggregate_hash id c.items) ≡ false

  challenges_or : DhtChallenges → Option Challenges → DhtChallenges
  challenges_or d (some (dht_challenges c)) = c
  challenges_or d _ = d

  same_challenges : (c c' : DhtChallenges) → challenged c ≡ challenged c' → c' ≡ c
  unfolding challenges_or
  same_challenges c c' e =
      sym (ap (λ (result : GenerateChallengesResult). challenges_or c result.challenges) e)

  returned_IsChallenge :
      (asked : ChallengeExt) (params : PublicParams) (n r : ℕ) (t : Store)
      (o : Run GenerateChallengesResult) (result : GenerateChallengesResult)
      → o ≡ ended result
      → Holds (IsChallenge asked params n r t) o
      → IsChallenge asked params n r t result
  returned_IsChallenge asked params n r t o result e h = let h' = rw e at h in h'

  first_item :
      (items : List ChallengeItem)
      → 1 ≤ length (indices_of (coefficients items))
      → (first : ChallengeItem) × (others : List ChallengeItem) × (items ≡ first ∷ others)
  first_item [] h = absurd (omega arith)
  first_item (item ∷ items) h = (item, items, refl)

  module _ (laws : Bilinear) where
    -- Tagging, challenging, proving and verifying: where the tag stage has returned the tags of a
    -- whole window of blocks, from the first on, and the challenge stage then returns a challenge for
    -- one of the first n blocks at least, over the store that the tag stage left and with n no more
    -- than the blocks in the window, the prover returns a proof for that challenge and the
    -- verifier accepts it: where the tag request is complete, all metadata was versioned before it,
    -- the prover has those tags and blocks, all use the same parameters and file, y = [a]·g, the
    -- pairing is bilinear, and no point that is paired is at infinity.
    pub audit_cycle-Accepted :
        (input : GenerateTagsRequest) (tagging : TagsGenExt) (blocks : AuditBlockSource)
        (secrets : PrivateParams) (params : PublicParams) (s t : Store) (tags : Tags) (r n fuel : ℕ)
        (asked : ChallengeExt) (prove : ProveExt) (verify : VerifyExt) (c : DhtChallenges)
        → IsAudit input tagging blocks secrets params asked prove verify tags
        → AllVersioned s
        → generate_tags input s ≡ done (record { tags = some tags; ext = none }) t
        → find tagging.file_id t.files ≡ some r
        → 1 ≤ n
        → n ≤ blocks.available_block_count
        → 1 ≤ (challenge_count asked n).0
        → challenge_blocks fuel asked params n t ≡ ended (challenged c)
        → IsFinite params secrets.a tagging.file_id blocks c
        → Accepted prove verify c
    unfolding resolve_target_block_indices AreTargets
    audit_cycle-Accepted input tagging blocks secrets params s t tags r n fuel asked prove verify c
          h all returned here pos inside some_asked challenging finite =
        let made =
          returned_IsChallenge asked params n r t (challenge_blocks fuel asked params n t)
            (challenged c) challenging
            (challenge_blocks-IsChallenge fuel asked params n r t pos (rw h.same_file here)) in
        let same = same_challenges c made.challenges made.returned in
        let indices : Perm (indices_of (coefficients c.items)) made.picked =
          rw same at made.indices in
        let stored : AllStored r t c.items = rw same at made.stored in
        let blind : c.blind_point ≡ g2_mul params.y c.blind_scalar = rw same at made.blind in
        let count = length-Perm (indices_of (coefficients c.items)) made.picked indices in
        let first = first_item c.items (omega (arith, count, made.picked_count, some_asked)) in
        let start = h.server.origin in
        let targets = window_indices 0 blocks.available_block_count 0 in
        tagged_file-Accepted laws input tagging blocks secrets params targets s t tags r prove
          verify c h.complete (rw (h.whole_window, start) refl) (rw start (omega (arith, h.room)))
          all returned here
          (items-AllCurrent params.u secrets.a tagging.file_id blocks targets n r t c.items
            (λ b low high.
              window-IsTarget blocks.available_block_count 0 b (omega (arith, h.room)) (omega arith)
                (omega (arith, inside)))
            (omega (arith, h.room, inside))
            (λ b m. AreBlocks-Mem n b made.picked made.picked_blocks ((Perm.mem_iff indices).0 m))
            stored finite.tags_finite)
          h.server
          (record {
            named = h.named;
            with_params = h.verify_params;
            pk_finite = h.pk_finite;
            first = first.0;
            others = first.1;
            items = first.2;
            blind = blind;
            blind_finite = finite.blind_finite;
            hash_finite = rw h.server.same_file finite.hash_finite;
          })
