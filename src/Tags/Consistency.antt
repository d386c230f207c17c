-- ===== src/Tags/Consistency.antt =====
-- The tags that the stage makes, and the metadata that the store holds afterwards.
use dhtdynamic_audit_strateg.Base.{
  ℕ, suc, ◌+◌, ◌-◌, ◌≤◌, ◌<◌, ◌≡◌, ◌≢◌, refl, ◌∙◌, true, false, Option, none, some, List, [], ◌∷◌,
  String, str_eq, arith, ◌==◌, if◌then◌else◌, word_mod, word_pred, word_pred-eq, word_sub,
  word_sub-eq, ap,
}
use dhtdynamic_audit_strateg.Base.Assoc.{find}
use dhtdynamic_audit_strateg.Exec.{Outcome, done, ok}
use dhtdynamic_audit_strateg.Metadata.{VersionedBlockMetadata, versioned}
use dhtdynamic_audit_strateg.CoreLib.Collection.{Collections}
use dhtdynamic_audit_strateg.CoreLib.Crypto.{Sm9}
use dhtdynamic_audit_strateg.CoreLib.TagSet.{TagSets}
use dhtdynamic_audit_strateg.CoreLib.Serializer.{Serializer}
use dhtdynamic_audit_strateg.Messages.{
  Tag, dht_tag, AuditBlockSource, PublicParams, PrivateParams, TagsGenExt, tags_gen_ext,
}
use dhtdynamic_audit_strateg.Store.{Store, AllVersioned, has_file}
use dhtdynamic_audit_strateg.Tags.Targets.{resolve_target_block_indices}
use dhtdynamic_audit_strateg.Tags.Targets.Laws.{Ascending, resolve-Ascending}
use dhtdynamic_audit_strateg.Tags.Register.{
  Extends, Extends-refl, Extends-trans, entry_of, find_or_register-Found, ensure_file-Ensured,
}
use dhtdynamic_audit_strateg.Tags.{
  sigma_of, tag_blocks, tag_targets, generate_checked, generate_tags, GenerateTagsRequest,
  GenerateTagsResult, find_or_register,
}

skip :
    {A : Type 0} (b i : ℕ) (x y : Option A) → 1 ≤ b → suc i ≢ b → (if b - 1 == i then x else y) ≡ y
skip b i x y h ne = ground arith

other_place : (b i : ℕ) → 1 ≤ b → suc i ≢ b → word_pred b ≡ b - 1 → i ≢ word_pred b
other_place b i h ne index e = ne (omega arith)

module _ ⦃core : Collections⦄ ⦃sm9 : Sm9⦄ ⦃tag_sets : TagSets (Tag sm9.G1)⦄
    ⦃serializer : Serializer⦄ where
  open core use {get_by_index}
  open sm9 use {Scalar, G1}
  open tag_sets use {Tags, no_tags, set_tag, tag_at, tag_at-set_tag, tag_at-no_tags}

  -- The tag at a target's place, and the metadata that the store holds for it.
  pub record Tagged (u : G1) (a : Scalar) (id : String) (blocks : AuditBlockSource) (r : ℕ)
      (t : Store) (tags : Tags) (b : ℕ) : Type 0 where
    pub metadata : VersionedBlockMetadata
    pub stored : get_by_index (t.cells r) (b - 1) ≡ some (versioned metadata)
    pub tag :
        tag_at tags (b - 1)
        ≡ some (
            dht_tag
              (sigma_of u a id b metadata (blocks.block (b - 1 - blocks.global_block_start_index))))

  abbrev pub AllTagged :
      G1 → Scalar → String → AuditBlockSource → ℕ → Store → Tags → List ℕ → Type 0
  AllTagged u a id blocks r t tags [] = Unit
  AllTagged u a id blocks r t tags (b ∷ bs) =
      Tagged u a id blocks r t tags b × AllTagged u a id blocks r t tags bs

  -- `i + 1` is not one of the targets.
  abbrev pub NotTarget : ℕ → List ℕ → Type 0
  NotTarget i [] = Unit
  NotTarget i (b ∷ bs) = (suc i ≢ b) × NotTarget i bs

  -- What the loop comes to.
  pub record Looped (u : G1) (a : Scalar) (id : String) (blocks : AuditBlockSource) (r : ℕ)
      (s : Store) (bs : List ℕ) (before : Tags) (o : Outcome Store Tags) : Type 0 where
    pub tags : Tags
    pub after : Store
    pub returns : o ≡ done tags after
    pub extends : Extends r s after
    pub tagged : AllTagged u a id blocks r after tags bs
    pub elsewhere : (i : ℕ) → NotTarget i bs → tag_at tags i ≡ tag_at before i
    pub untouched :
        (i : ℕ) → NotTarget i bs → get_by_index (after.cells r) i ≡ get_by_index (s.cells r) i
    pub all_versioned : AllVersioned after

  NotTarget-below :
      (i low high : ℕ) (bs : List ℕ) → suc i < low → Ascending low high bs → NotTarget i bs
  NotTarget-below i low high [] h asc = tt
  NotTarget-below i low high (b ∷ bs) h asc =
      (omega arith, NotTarget-below i (suc b) high bs (omega arith) asc.2)

  tag_blocks_cons :
      (u : G1) (a : Scalar) (id : String) (blocks : AuditBlockSource) (b : ℕ) (bs : List ℕ)
      (before : Tags) (s s' t : Store) (v : VersionedBlockMetadata) (tags : Tags)
      → find_or_register id b s ≡ done (versioned v) s'
      → word_pred b ≡ b - 1
      → word_sub (b - 1) blocks.global_block_start_index ≡ b - 1 - blocks.global_block_start_index
      → tag_blocks u a id blocks bs
          (set_tag before (b - 1) (
            dht_tag (sigma_of u a id b v (blocks.block (b - 1 - blocks.global_block_start_index)))))
          s'
        ≡ done tags t
      → tag_blocks u a id blocks (b ∷ bs) before s ≡ done tags t
  unfolding tag_blocks
  tag_blocks_cons u a id blocks b bs before s s' t v tags e index local rest =
      rw (e, index, local) rest

  tag_blocks-Looped :
      (u : G1) (a : Scalar) (id : String) (blocks : AuditBlockSource) (r : ℕ) (s : Store)
      (low high : ℕ) (bs : List ℕ) (before : Tags)
      → find id s.files ≡ some r
      → AllVersioned s
      → blocks.global_block_start_index + 1 ≤ low
      → high ≤ word_mod
      → Ascending low high bs
      → Looped u a id blocks r s bs before (tag_blocks u a id blocks bs before s)
  unfolding tag_blocks
  tag_blocks-Looped u a id blocks r s low high [] before p all l h asc = record {
    tags = before;
    after = s;
    returns = refl;
    extends = Extends-refl r s;
    tagged = tt;
    elsewhere = λ i n. refl;
    untouched = λ i n. refl;
    all_versioned = all;
  }
  tag_blocks-Looped u a id blocks r s low high (b ∷ bs) before p all l h asc =
      let found = find_or_register-Found id b r s p all in
      let index : word_pred b ≡ b - 1 = word_pred-eq b (omega arith) (omega arith) in
      let new_tag = dht_tag (
        sigma_of u a id b found.metadata
          (blocks.block (b - 1 - blocks.global_block_start_index))) in
      let rest =
        tag_blocks-Looped u a id blocks r found.after (suc b) high bs
          (set_tag before (b - 1) new_tag) (rw found.extends.files p) found.all_versioned
          (omega arith) h asc.2 in
      record {
        tags = rest.tags;
        after = rest.after;
        returns =
            tag_blocks_cons u a id blocks b bs before s found.after rest.after found.metadata
              rest.tags found.returns index
              (word_sub-eq (b - 1) blocks.global_block_start_index (omega arith) (omega arith))
              rest.returns;
        extends = Extends-trans found.extends rest.extends;
        tagged = (
          record {
            metadata = found.metadata;
            stored = rest.extends.kept (b - 1) (versioned found.metadata) (rw index at found.here);
            tag =
                rest.elsewhere (b - 1) (NotTarget-below (b - 1) (suc b) high bs (omega arith) asc.2)
                ∙ tag_at-set_tag before (b - 1) (b - 1) new_tag
                ∙ (ground arith);
          },
          rest.tagged,
        );
        elsewhere = λ i n.
            rest.elsewhere i n.1
            ∙ tag_at-set_tag before (b - 1) i new_tag
            ∙ skip b i _ _ (omega arith) n.0;
        untouched = λ i n.
            rest.untouched i n.1 ∙ found.elsewhere i (other_place b i (omega arith) n.0 index);
        all_versioned = rest.all_versioned;
      }

  -- What the stage comes to once a request has passed its checks.
  pub record Generated (u : G1) (a : Scalar) (id : String) (blocks : AuditBlockSource) (bs : List ℕ)
      (s : Store) (o : Outcome Store GenerateTagsResult) : Type 0 where
    pub tags : Tags
    pub after : Store
    pub cell : ℕ
    pub returns : o ≡ done (record { tags = some tags; ext = none }) after
    pub file : find id after.files ≡ some cell
    pub tagged : AllTagged u a id blocks cell after tags bs
    pub elsewhere : (i : ℕ) → NotTarget i bs → tag_at tags i ≡ none
    pub untouched :
        (i : ℕ)
        → NotTarget i bs
        → get_by_index (after.cells cell) i ≡ entry_of s (find id s.files) i
    pub other_files : (j : String) → str_eq id j ≡ false → find j after.files ≡ find j s.files
    pub other_cells : (q : ℕ) → q ≢ cell → after.cells q ≡ s.cells q
    pub old : has_file s id ≡ true → Extends cell s after
    pub all_versioned : AllVersioned after

  tag_targets-Generated :
      (u : G1) (a : Scalar) (id : String) (blocks : AuditBlockSource) (bs : List ℕ) (s : Store)
      (low high : ℕ)
      → AllVersioned s
      → blocks.global_block_start_index + 1 ≤ low
      → high ≤ word_mod
      → Ascending low high bs
      → Generated u a id blocks bs s (tag_targets u a id blocks bs s)
  unfolding tag_targets
  tag_targets-Generated u a id blocks bs s low high all l h asc =
      let ensured = ensure_file-Ensured id s all in
      let looped =
        tag_blocks-Looped u a id blocks ensured.cell ensured.after low high bs no_tags ensured.file
          ensured.all_versioned l h asc in
      record {
        tags = looped.tags;
        after = looped.after;
        cell = ensured.cell;
        returns = rw (ensured.returns, looped.returns) refl;
        file = rw looped.extends.files ensured.file;
        tagged = looped.tagged;
        elsewhere = λ i n. looped.elsewhere i n ∙ tag_at-no_tags i;
        untouched = λ i n. looped.untouched i n ∙ ensured.entries i;
        other_files = λ j ne. ap (find j) looped.extends.files ∙ ensured.other_files j ne;
        other_cells = λ q ne. looped.extends.others q ne ∙ ensured.other_cells q ne;
        old = λ k. rw (← ensured.old k) looped.extends;
        all_versioned = looped.all_versioned;
      }

  -- What a request must have for the stage to make tags.
  pub record IsComplete (input : GenerateTagsRequest) (ext : TagsGenExt) (blocks : AuditBlockSource)
      (private_params : PrivateParams) (public_params : PublicParams) : Type 0 where
    pub with_ext : input.ext ≡ some (tags_gen_ext ext)
    pub named : str_eq ext.file_id "" ≡ false
    pub with_blocks : input.blocks ≡ some blocks
    pub with_private : ext.user_private_params ≡ some private_params
    pub with_public : ext.user_public_params ≡ some public_params
    pub with_store : ext.state_store ≡ true

  -- The tag stage returns for every complete request whose selector is accepted, over a store whose
  -- metadata is all versioned and a window whose indices are `std::size_t`. The tag at each target's
  -- place is the signature of the block's content under the very metadata that the store holds for
  -- it afterwards, and there is no tag elsewhere. The file has the entry that it had, or none, at each
  -- place that is no target, and what it had at the targets; the other files and collections are as
  -- they were.
  pub generate_tags_consistent :
      (input : GenerateTagsRequest) (ext : TagsGenExt) (blocks : AuditBlockSource)
      (private_params : PrivateParams) (public_params : PublicParams) (bs : List ℕ) (s : Store)
      → IsComplete input ext blocks private_params public_params
      → resolve_target_block_indices input.target_block_indices blocks.global_block_start_index
          blocks.available_block_count
        ≡ ok bs
      → blocks.global_block_start_index + blocks.available_block_count + 1 ≤ word_mod
      → AllVersioned s
      → Generated public_params.u private_params.a ext.file_id blocks bs s (generate_tags input s)
  unfolding generate_tags generate_checked
  generate_tags_consistent input ext blocks private_params public_params bs s c e room all =
      simp (c.with_ext, c.named, c.with_blocks, c.with_private, c.with_public, e, c.with_store)
        (tag_targets-Generated public_params.u private_params.a ext.file_id blocks bs s
          (blocks.global_block_start_index + 1)
          (blocks.global_block_start_index + blocks.available_block_count + 1) all (omega arith)
          room
          (resolve-Ascending input.target_block_indices blocks.global_block_start_index
            blocks.available_block_count bs (omega arith) e))
