-- ===== src/Proofs/Audit.antt =====
-- From the tag stage to an accepted proof.
use dhtdynamic_audit_strateg.Base.{
  ℕ, ◌+◌, ◌-◌, ◌≤◌, ◌≡◌, sym, ap, ◌∙◌, ◌⊎◌, inl, inr, false, some, none, Option, List, [], ◌∷◌,
  String, arith, ◌==◌, word_mod,
}
use dhtdynamic_audit_strateg.Base.Assoc.{find}
use dhtdynamic_audit_strateg.Exec.{Outcome, done, threw, ok, state_after}
use dhtdynamic_audit_strateg.Metadata.{VersionedBlockMetadata, versioned}
use dhtdynamic_audit_strateg.CoreLib.Collection.{Collections}
use dhtdynamic_audit_strateg.CoreLib.Crypto.{Sm9}
use dhtdynamic_audit_strateg.CoreLib.TagSet.{TagSets}
use dhtdynamic_audit_strateg.CoreLib.Serializer.{Serializer}
use dhtdynamic_audit_strateg.Messages.{
  Tag, dht_tag, AuditBlockSource, PublicParams, PrivateParams, ChallengeItem, DhtChallenges,
  TagsGenExt, ProveExt, VerifyExt,
}
use dhtdynamic_audit_strateg.Store.{Store, AllVersioned}
use dhtdynamic_audit_strateg.Tags.{sigma_of, generate_tags, GenerateTagsRequest, GenerateTagsResult}
use dhtdynamic_audit_strateg.Tags.Targets.{resolve_target_block_indices}
use dhtdynamic_audit_strateg.Tags.Consistency.{
  Tagged, AllTagged, IsComplete, generate_tags_consistent,
}
use dhtdynamic_audit_strateg.Proofs.Laws.{Bilinear}
use dhtdynamic_audit_strateg.Proofs.Derivation.{IsTagged, AllItemsTagged}
use dhtdynamic_audit_strateg.Proofs.Completeness.{IsVerifiable, Accepted, honest_proof-Accepted}

-- One of the targets.
abbrev pub IsTarget : ℕ → List ℕ → Type 0
IsTarget b [] = ⊥
IsTarget b (c ∷ cs) = (b ≡ c) ⊎ IsTarget b cs

module _ ⦃core : Collections⦄ ⦃sm9 : Sm9⦄ ⦃tag_sets : TagSets (Tag sm9.G1)⦄
    ⦃serializer : Serializer⦄ where
  open core use {get_by_index}
  open sm9 use {Scalar, G1, g1_is_infinity, g2_is_infinity, g2_mul}
  open tag_sets use {Tags, tag_at}

  -- An item for a block that has been tagged, with the metadata that the store holds for it, whose
  -- tag is not the point at infinity.
  pub record IsCurrent (u : G1) (a : Scalar) (id : String) (blocks : AuditBlockSource) (bs : List ℕ)
      (r : ℕ) (t : Store) (item : ChallengeItem) : Type 0 where
    pub positive : item.block_index == 0 ≡ false
    pub target : IsTarget item.block_index bs
    pub stored : get_by_index (t.cells r) (item.block_index - 1) ≡ some (versioned item.metadata)
    pub finite :
        g1_is_infinity
          (sigma_of u a id item.block_index item.metadata (blocks.block (item.block_index - 1)))
        ≡ false

  abbrev pub AllCurrent :
      G1 → Scalar → String → AuditBlockSource → List ℕ → ℕ → Store → List ChallengeItem → Type 0
  AllCurrent u a id blocks bs r t [] = Unit
  AllCurrent u a id blocks bs r t (item ∷ items) =
      IsCurrent u a id blocks bs r t item × AllCurrent u a id blocks bs r t items

  target-Tagged :
      (u : G1) (a : Scalar) (id : String) (blocks : AuditBlockSource) (r : ℕ) (t : Store)
      (tags : Tags) (bs : List ℕ) (b : ℕ)
      → AllTagged u a id blocks r t tags bs
      → IsTarget b bs
      → Tagged u a id blocks r t tags b
  target-Tagged u a id blocks r t tags [] b all none_here = absurd none_here
  target-Tagged u a id blocks r t tags (c ∷ cs) b all (inl here) = rw here all.0
  target-Tagged u a id blocks r t tags (c ∷ cs) b all (inr later) =
      target-Tagged u a id blocks r t tags cs b all.1 later

  same_metadata :
      (m n : VersionedBlockMetadata) (r i : ℕ) (t : Store)
      → get_by_index (t.cells r) i ≡ some (versioned m)
      → get_by_index (t.cells r) i ≡ some (versioned n)
      → m ≡ n
  same_metadata m n r i t p q = cc

  current-IsTagged :
      (u : G1) (a : Scalar) (id : String) (blocks : AuditBlockSource) (r : ℕ) (t : Store)
      (tags : Tags) (bs : List ℕ) (item : ChallengeItem)
      → blocks.global_block_start_index ≡ 0
      → AllTagged u a id blocks r t tags bs
      → IsCurrent u a id blocks bs r t item
      → IsTagged u a id tags blocks item
  current-IsTagged u a id blocks r t tags bs item origin all c =
      let b = item.block_index in
      let tagged = target-Tagged u a id blocks r t tags bs b all c.target in
      let same = same_metadata tagged.metadata item.metadata r (b - 1) t tagged.stored c.stored in
      let place : b - 1 - blocks.global_block_start_index ≡ b - 1 = rw origin (omega arith) in
      record {
        positive = c.positive;
        tag =
            tagged.tag
            ∙ ap (λ i. some (dht_tag (sigma_of u a id b tagged.metadata (blocks.block i)))) place
            ∙ ap (λ m. some (dht_tag (sigma_of u a id b m (blocks.block (b - 1))))) same;
        finite = c.finite;
      }

  all_current-AllItemsTagged :
      (u : G1) (a : Scalar) (id : String) (blocks : AuditBlockSource) (r : ℕ) (t : Store)
      (tags : Tags) (bs : List ℕ) (items : List ChallengeItem)
      → blocks.global_block_start_index ≡ 0
      → AllTagged u a id blocks r t tags bs
      → AllCurrent u a id blocks bs r t items
      → AllItemsTagged u a id tags blocks items
  all_current-AllItemsTagged u a id blocks r t tags bs [] origin all c = tt
  all_current-AllItemsTagged u a id blocks r t tags bs (item ∷ items) origin all c = (
    current-IsTagged u a id blocks r t tags bs item origin all c.0,
    all_current-AllItemsTagged u a id blocks r t tags bs items origin all c.1,
  )

  abbrev returned_tags : Outcome Store GenerateTagsResult → Option Tags
  returned_tags (done result t) = result.tags
  returned_tags (threw e t) = none

  same_tags :
      (tags tags' : Tags) (o : Outcome Store GenerateTagsResult) (t t' : Store)
      → o ≡ done (record { tags = some tags; ext = none }) t
      → o ≡ done (record { tags = some tags'; ext = none }) t'
      → tags ≡ tags'
  same_tags tags tags' o t t' p q =
      let e : some tags ≡ some tags' = sym (ap returned_tags p) ∙ ap returned_tags q in cc

  same_store :
      (tags tags' : Tags) (o : Outcome Store GenerateTagsResult) (t t' : Store)
      → o ≡ done (record { tags = some tags; ext = none }) t
      → o ≡ done (record { tags = some tags'; ext = none }) t'
      → t ≡ t'
  same_store tags tags' o t t' p q = sym (ap state_after p) ∙ ap state_after q

  same_cell :
      (id : String) (t t' : Store) (r r' : ℕ)
      → t ≡ t'
      → find id t.files ≡ some r
      → find id t'.files ≡ some r'
      → r ≡ r'
  same_cell id t t' r r' e p q =
      let f : some r ≡ some r' = sym p ∙ ap (λ (x : Store). find id x.files) e ∙ q in cc

  AllTagged-same :
      (u : G1) (a : Scalar) (id : String) (blocks : AuditBlockSource) (bs : List ℕ) (r r' : ℕ)
      (t t' : Store) (tags tags' : Tags)
      → r ≡ r'
      → t ≡ t'
      → tags ≡ tags'
      → AllTagged u a id blocks r t tags bs
      → AllTagged u a id blocks r' t' tags' bs
  AllTagged-same u a id blocks bs r r' t t' tags tags' e f g h = rw (← e, ← f, ← g) h

  -- The prover has what the tag stage was given and gave, and the verifier the same file.
  pub record IsServer (ext : TagsGenExt) (prove : ProveExt) (verify : VerifyExt) (tags : Tags)
      (blocks : AuditBlockSource) (params : PublicParams) (a : Scalar) : Type 0 where
    pub with_tags : prove.tags ≡ some tags
    pub with_blocks : prove.blocks ≡ some blocks
    pub with_params : prove.user_public_params ≡ some params
    pub same_file : verify.file_id ≡ ext.file_id
    pub origin : blocks.global_block_start_index ≡ 0
    pub key : params.y ≡ g2_mul params.g a
    pub g_finite : g2_is_infinity params.g ≡ false
    pub u_finite : g1_is_infinity params.u ≡ false

  module _ (laws : Bilinear) where
    -- The tags that the tag stage has returned for a complete request pass an audit: for a challenge
    -- of tagged blocks that carries the metadata of the store, over the same blocks, which start at
    -- the first, the prover returns a proof and the verifier accepts it, where no point that is
    -- paired is at infinity.
    pub tagged_file-Accepted :
        (input : GenerateTagsRequest) (ext : TagsGenExt) (blocks : AuditBlockSource)
        (private_params : PrivateParams) (params : PublicParams) (bs : List ℕ) (s t : Store)
        (tags : Tags) (r : ℕ) (prove : ProveExt) (verify : VerifyExt) (c : DhtChallenges)
        → IsComplete input ext blocks private_params params
        → resolve_target_block_indices input.target_block_indices blocks.global_block_start_index
            blocks.available_block_count
          ≡ ok bs
        → blocks.global_block_start_index + blocks.available_block_count + 1 ≤ word_mod
        → AllVersioned s
        → generate_tags input s ≡ done (record { tags = some tags; ext = none }) t
        → find ext.file_id t.files ≡ some r
        → AllCurrent params.u private_params.a ext.file_id blocks bs r t c.items
        → IsServer ext prove verify tags blocks params private_params.a
        → IsVerifiable verify params c
        → Accepted prove verify c
    tagged_file-Accepted input ext blocks private_params params bs s t tags r prove verify c
          complete resolved room all returned here current server v =
        let g =
          generate_tags_consistent input ext blocks private_params params bs s complete resolved
            room all in
        let o = generate_tags input s in
        let same = same_store g.tags tags o g.after t g.returns returned in
        let tagged =
          AllTagged-same params.u private_params.a ext.file_id blocks bs g.cell r g.after t g.tags
            tags (same_cell ext.file_id g.after t g.cell r same g.file here) same
            (same_tags g.tags tags o g.after t g.returns returned) g.tagged in
        honest_proof-Accepted laws prove verify params private_params.a tags blocks c
          (record {
            with_tags = server.with_tags;
            with_blocks = server.with_blocks;
            with_params = server.with_params;
            key = server.key;
            g_finite = server.g_finite;
            u_finite = server.u_finite;
            tagged = rw server.same_file (
                all_current-AllItemsTagged params.u private_params.a ext.file_id blocks r t tags bs
                  c.items server.origin tagged current);
          })
          v
