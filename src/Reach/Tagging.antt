-- ===== src/Reach/Tagging.antt =====
-- The tag stage keeps what Store/Invariant says of the metadata.
use dhtdynamic_audit_strateg.Base.{
  ℕ, suc, Bool, Option, none, some, List, [], ◌∷◌, String, str_eq, word_pred, if◌then◌else◌, true,
  false,
}
use dhtdynamic_audit_strateg.Base.Assoc.{find}
use dhtdynamic_audit_strateg.Exec.{
  Exec, Outcome, done, threw, lift, pure, throw, Result, ok, err, or_return, catch_from,
  is_runtime_error, ◌>>=◌, file_missing, store_missing,
}
use dhtdynamic_audit_strateg.Metadata.{VersionedBlockMetadata, versioned, other}
use dhtdynamic_audit_strateg.CoreLib.Collection.{Collections}
use dhtdynamic_audit_strateg.CoreLib.Crypto.{Sm9}
use dhtdynamic_audit_strateg.CoreLib.TagSet.{TagSets}
use dhtdynamic_audit_strateg.CoreLib.Serializer.{Serializer}
use dhtdynamic_audit_strateg.Messages.{
  Tag, dht_tag, PublicParams, PrivateParams, TagsGenExt, AuditBlockSource,
}
use dhtdynamic_audit_strateg.Store.{
  Store, Metadata, has_file, get_block_metadata, add_file, get_block_metadata_collection,
}
use dhtdynamic_audit_strateg.Store.Invariant.{Keeps, set_index-AllIn}
use dhtdynamic_audit_strateg.Store.Invariant.Calls.{
  KeepsAfter, or_throw-Keeps, continue-Keeps, if-Keeps, written-Keeps, add_file-Keeps,
}
use dhtdynamic_audit_strateg.Tags.{
  versioned_or_throw, ensure_file, register_block, find_or_register, tag_blocks, tag_targets,
  fresh_metadata, generate_checked, generate_tags, GenerateTagsRequest, GenerateTagsResult,
  as_tags_gen, empty_result, sigma_of, local_index,
}
use dhtdynamic_audit_strateg.Tags.Targets.{resolve_target_block_indices}
use dhtdynamic_audit_strateg.Reach.Stages.{get_block_metadata-Keeps, reads-Keeps}

module _ ⦃core : Collections⦄ (P : Metadata → Type 0) where
  open core use {get_by_index, set_index}

  ensure_file-Keeps : (id : String) (s : Store) → Keeps P s → KeepsAfter P (ensure_file id s)
  unfolding ensure_file
  ensure_file-Keeps id s h =
      if-Keeps P (has_file s id) (done tt s) (add_file id s) h (add_file-Keeps P id s h)

  register_block-Keeps :
      (id : String) (b : ℕ) (s : Store) → Keeps P s → KeepsAfter P (register_block id b s)
  unfolding register_block get_block_metadata_collection
  register_block-Keeps id b s h =
      let t = record s { reads = suc s.reads } in
      or_throw-Keeps P file_missing (find id s.files) t _ (reads-Keeps P s (suc s.reads) h) λ r e.
        written-Keeps P s r (suc s.reads)
          (set_index (s.cells r) (word_pred b) (fresh_metadata (s.clock s.reads))) h
          (set_index-AllIn P (s.cells r) (word_pred b) (fresh_metadata (s.clock s.reads))
            (h.entries r) (h.registers s.reads))

  catch_from-Keeps :
      (o : Outcome Store Metadata) (k : Exec Store Metadata)
      → KeepsAfter P o
      → ((s : Store) → Keeps P s → KeepsAfter P (k s))
      → KeepsAfter P (catch_from o k)
  catch_from-Keeps (done m s) k h l = h
  catch_from-Keeps (threw e s) k h l = if-Keeps P (is_runtime_error e) (k s) (threw e s) (l s h) h

  find_or_register-Keeps :
      (id : String) (b : ℕ) (s : Store) → Keeps P s → KeepsAfter P (find_or_register id b s)
  unfolding find_or_register
  find_or_register-Keeps id b s h =
      catch_from-Keeps (get_block_metadata id b s) (register_block id b)
        (get_block_metadata-Keeps P id b s h) (register_block-Keeps id b)

  versioned_or_throw-Keeps :
      (m : Metadata) (s : Store) → Keeps P s → KeepsAfter P (versioned_or_throw m s)
  versioned_or_throw-Keeps (versioned v) s h = h
  versioned_or_throw-Keeps (other o) s h = h

  module _ ⦃sm9 : Sm9⦄ ⦃tag_sets : TagSets (Tag sm9.G1)⦄ ⦃serializer : Serializer⦄ where
    open sm9 use {Scalar, G1}
    open tag_sets use {Tags, no_tags, set_tag}

    tag_blocks-Keeps :
        (u : G1) (a : Scalar) (id : String) (blocks : AuditBlockSource) (bs : List ℕ) (tags : Tags)
        (s : Store)
        → Keeps P s
        → KeepsAfter P (tag_blocks u a id blocks bs tags s)
    unfolding tag_blocks
    tag_blocks-Keeps u a id blocks [] tags s h = h
    tag_blocks-Keeps u a id blocks (b ∷ bs) tags s h =
        let next : VersionedBlockMetadata → Exec Store Tags = λ v. tag_blocks u a id blocks bs (
          set_tag tags (word_pred b) (
            dht_tag (
              sigma_of u a id b v
                (blocks.block (local_index b blocks.global_block_start_index))))) in
        continue-Keeps P (find_or_register id b s) (λ m. versioned_or_throw m >>= next)
          (find_or_register-Keeps id b s h)
          λ m s1 h1.
            continue-Keeps P (versioned_or_throw m s1) next (versioned_or_throw-Keeps m s1 h1)
              λ v s2 h2. tag_blocks-Keeps u a id blocks bs _ s2 h2

    tag_targets-Keeps :
        (u : G1) (a : Scalar) (id : String) (blocks : AuditBlockSource) (bs : List ℕ) (s : Store)
        → Keeps P s
        → KeepsAfter P (tag_targets u a id blocks bs s)
    unfolding tag_targets
    tag_targets-Keeps u a id blocks bs s h =
        let finish : Tags → Exec Store GenerateTagsResult =
          λ tags. pure (record { tags = some tags; ext = none }) in
        continue-Keeps P (ensure_file id s) (λ x. tag_blocks u a id blocks bs no_tags >>= finish)
          (ensure_file-Keeps id s h)
          λ x s1 h1.
            continue-Keeps P (tag_blocks u a id blocks bs no_tags s1) finish
              (tag_blocks-Keeps u a id blocks bs no_tags s1 h1) λ tags s2 h2. h2

    lift-Keeps :
        {A : Type 0} (r : Result A) (s : Store) → Keeps P s → KeepsAfter P (lift {S = Store} r s)
    lift-Keeps (ok a) s h = h
    lift-Keeps (err e) s h = h

    choose-Keeps :
        {A : Type 0} (b : Bool) (m n : Exec Store A) (s : Store)
        → KeepsAfter P (m s)
        → KeepsAfter P (n s)
        → KeepsAfter P ((if b then m else n) s)
    choose-Keeps true m n s h k = h
    choose-Keeps false m n s h k = k

    or_return-Keeps :
        {A B : Type 0} (o : Option A) (m : Exec Store B) (f : A → Exec Store B) (s : Store)
        → KeepsAfter P (m s)
        → ((a : A) → KeepsAfter P (f a s))
        → KeepsAfter P (or_return o m f s)
    or_return-Keeps none m f s h k = h
    or_return-Keeps (some a) m f s h k = k a

    generate_checked-Keeps :
        (ext : TagsGenExt) (blocks : AuditBlockSource) (secrets : PrivateParams)
        (params : PublicParams) (selector : Option (List ℕ)) (s : Store)
        → Keeps P s
        → KeepsAfter P (generate_checked ext blocks secrets params selector s)
    unfolding generate_checked
    generate_checked-Keeps ext blocks secrets params selector s h =
        let targets =
          resolve_target_block_indices selector blocks.global_block_start_index
            blocks.available_block_count in
        let run : List ℕ → Exec Store GenerateTagsResult =
          λ bs. tag_targets params.u secrets.a ext.file_id blocks bs in
        continue-Keeps P (lift {S = Store} targets s)
          (λ bs. if ext.state_store then run bs else throw store_missing) (lift-Keeps targets s h)
          λ bs s1 h1.
            choose-Keeps ext.state_store (run bs) (throw store_missing) s1
              (tag_targets-Keeps params.u secrets.a ext.file_id blocks bs s1 h1) h1

    pub generate_tags-Keeps :
        (input : GenerateTagsRequest) (s : Store) → Keeps P s → KeepsAfter P (generate_tags input s)
    unfolding generate_tags
    generate_tags-Keeps input s h =
        let nothing : Exec Store GenerateTagsResult = pure empty_result in
        or_return-Keeps (as_tags_gen input.ext) nothing _ s h λ ext.
          choose-Keeps (str_eq ext.file_id "") nothing _ s h (
            or_return-Keeps input.blocks nothing _ s h λ blocks.
              or_return-Keeps ext.user_private_params nothing _ s h λ secrets.
                or_return-Keeps ext.user_public_params nothing _ s h λ params.
                  generate_checked-Keeps ext blocks secrets params input.target_block_indices s h)
