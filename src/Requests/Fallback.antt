-- ===== src/Requests/Fallback.antt =====
-- The file of a request where the input names none: `createRequest` looks for it in the extension of
-- the result of the tag stage.
use dhtdynamic_audit_strateg.Base.{
  ℕ, ◌≡◌, refl, Bool, true, false, ◌||◌, Option, none, some, String, str_eq, if◌then◌else◌,
}
use dhtdynamic_audit_strateg.Exec.{Outcome, done, threw, Exec, continue, lift, or_return}
use dhtdynamic_audit_strateg.Run.{ended}
use dhtdynamic_audit_strateg.Fallible.{returned, raised}
use dhtdynamic_audit_strateg.CoreLib.Collection.{Collections}
use dhtdynamic_audit_strateg.CoreLib.Crypto.{Sm9}
use dhtdynamic_audit_strateg.CoreLib.TagSet.{TagSets}
use dhtdynamic_audit_strateg.CoreLib.Random.{Randomness}
use dhtdynamic_audit_strateg.CoreLib.Serializer.{Serializer}
use dhtdynamic_audit_strateg.CoreLib.Input.{Inputs, proof_verify, challenge_gen}
use dhtdynamic_audit_strateg.Messages.{Tag, PublicParams, ChallengeExt, challenge_ext}
use dhtdynamic_audit_strateg.Store.{Store}
use dhtdynamic_audit_strateg.Tags.{
  GenerateTagsRequest, GenerateTagsResult, generate_tags, generate_checked, tag_targets,
  as_tags_gen, tag_blocks, ensure_file, empty_result,
}
use dhtdynamic_audit_strateg.Tags.Targets.{resolve_target_block_indices}
use dhtdynamic_audit_strateg.Challenges.{GenerateChallengesResult, generate_challenges}
use dhtdynamic_audit_strateg.Store.{is_some}
use dhtdynamic_audit_strateg.Proofs.{GenerateProofsResult}
use dhtdynamic_audit_strateg.Requests.{
  create_request, create_verify_request, create_challenges_request, context_tags,
  read_challenge_ext, uint64_at,
}
use dhtdynamic_audit_strateg.Requests.Reading.{file_id_key, block_count_key}
use dhtdynamic_audit_strateg.Requests.Carried.{
  Context, GenerateChallengesRequest, challenges_request, file_id_missing, fill_file_id,
  public_params_of,
}

if_same : {A : Type 0} (b : Bool) (x : A) → (if b then x else x) ≡ x
if_same true x = refl
if_same false x = refl

module _ ⦃core : Collections⦄ ⦃sm9 : Sm9⦄ ⦃tag_sets : TagSets (Tag sm9.G1)⦄
    ⦃serializer : Serializer⦄ where
  open tag_sets use {no_tags}

  abbrev NoExt : Outcome Store GenerateTagsResult → Type 0
  NoExt (done result s) = result.ext ≡ none
  NoExt (threw e s) = Unit

  NoExt-continue :
      {A : Type 0} (m : Outcome Store A) (f : A → Exec Store GenerateTagsResult)
      → ((a : A) (s : Store) → NoExt (f a s))
      → NoExt (continue m f)
  NoExt-continue (done a s) f h = h a s
  NoExt-continue (threw e s) f h = tt

  NoExt-if :
      (b : Bool) (m n : Exec Store GenerateTagsResult) (s : Store)
      → NoExt (m s)
      → NoExt (n s)
      → NoExt ((if b then m else n) s)
  NoExt-if true m n s h k = h
  NoExt-if false m n s h k = k

  NoExt-or_return :
      {A : Type 0} (o : Option A) (f : A → Exec Store GenerateTagsResult) (s : Store)
      → ((a : A) → NoExt (f a s))
      → NoExt (or_return o (λ s'. done empty_result s') f s)
  NoExt-or_return none f s h = refl
  NoExt-or_return (some a) f s h = h a

  generate_tags-NoExt :
      (request : GenerateTagsRequest) (s : Store) → NoExt (generate_tags request s)
  unfolding generate_tags generate_checked tag_targets
  generate_tags-NoExt request s = NoExt-or_return (as_tags_gen request.ext) _ s λ ext.
      NoExt-if (str_eq ext.file_id "") _ _ s refl (
        NoExt-or_return request.blocks _ s λ blocks.
          NoExt-or_return ext.user_private_params _ s λ secrets.
            NoExt-or_return ext.user_public_params _ s λ params.
              NoExt-continue
                (lift
                  (resolve_target_block_indices request.target_block_indices
                    blocks.global_block_start_index blocks.available_block_count)
                  s)
                _
                λ targets s1.
                  NoExt-if ext.state_store _ _ s1
                    (NoExt-continue (ensure_file ext.file_id s1) _ λ u s2.
                      NoExt-continue
                        (tag_blocks params.u secrets.a ext.file_id blocks targets no_tags s2) _
                        λ tags s3. refl)
                    tt)

  no_ext :
      (o : Outcome Store GenerateTagsResult) (result : GenerateTagsResult) (t : Store)
      → o ≡ done result t
      → NoExt o
      → result.ext ≡ none
  no_ext o result t e h = let h' = rw e at h in h'

  own_fill_file_id :
      (request : GenerateTagsRequest) (s t : Store) (result : GenerateTagsResult) (id : String)
      → generate_tags request s ≡ done result t
      → fill_file_id id (some result) ≡ id
  unfolding fill_file_id
  own_fill_file_id request s t result id e =
      let bare = no_ext (generate_tags request s) result t e (generate_tags-NoExt request s) in
      simp (bare, if_same) refl

  module _ ⦃inputs : Inputs tag_sets.Tags⦄ where
    open inputs use {RawInput, Json, require_json, member}

    -- Where the input of a verification names no file, the request is refused for that, although the
    -- context has the challenges, the proofs, the parameters and a result that the tag stage of
    -- this plugin has returned: that result does not name the file.
    pub unnamed_verify_refused :
        (context : Context) (raw : RawInput) (root : Json) (params : PublicParams)
        (challenged : GenerateChallengesResult) (proved : GenerateProofsResult)
        (request : GenerateTagsRequest) (s t : Store) (result : GenerateTagsResult)
        → generate_tags request s ≡ done result t
        → context.tags_result ≡ some result
        → context.challenges_result ≡ some challenged
        → context.proofs_result ≡ some proved
        → public_params_of context.keys_result ≡ some params
        → require_json proof_verify raw ≡ returned root
        → member file_id_key root ≡ none
        → create_request proof_verify context raw ≡ raised file_id_missing
    unfolding create_request create_verify_request
    unnamed_verify_refused context raw root params challenged proved request s t result e r c p k j
          none_there =
        simp (c, p, k, j, none_there, r, own_fill_file_id request s t result "" e) refl

    module _ ⦃randomness : Randomness⦄ where
      or_some : {A : Type 0} (b : Bool) (a : A) → (b || is_some (some a)) ≡ true
      or_some true a = refl
      or_some false a = refl

      unnamed_ext :
          (context : Context) (root : Json) (request : GenerateTagsRequest) (s t : Store)
          (result : GenerateTagsResult)
          → generate_tags request s ≡ done result t
          → context.tags_result ≡ some result
          → member file_id_key root ≡ none
          → (read_challenge_ext context root).file_id ≡ ""
      unfolding read_challenge_ext
      unnamed_ext context root request s t result e r none_there =
          simp (none_there, r, own_fill_file_id request s t result "" e) refl

      unnamed-generate_challenges :
          (algorithm : Bool) (fuel : ℕ) (ext : ChallengeExt) (u : Store)
          → ext.file_id ≡ ""
          → generate_challenges algorithm fuel (some (challenge_ext ext)) u
            ≡ ended (record { challenges = none })
      unfolding generate_challenges
      unnamed-generate_challenges algorithm fuel ext u unnamed = rw unnamed

      -- A challenge request from an input that names no file, in a context with a result that the
      -- tag stage of this plugin has returned, is made, and gives no challenges, whatever the store
      -- is and however much fuel there is.
      pub unnamed_challenge_empty :
          (context : Context) (raw : RawInput) (root : Json) (request : GenerateTagsRequest)
          (s t : Store) (result : GenerateTagsResult)
          → generate_tags request s ≡ done result t
          → context.tags_result ≡ some result
          → require_json challenge_gen raw ≡ returned root
          → member file_id_key root ≡ none
          → (made : GenerateChallengesRequest) × (create_request challenge_gen context raw
              ≡ returned (challenges_request made))
            × ((algorithm : Bool) (fuel : ℕ) (u : Store)
                → generate_challenges algorithm fuel made.ext u
                  ≡ ended (record { challenges = none }))
      unfolding create_request create_challenges_request
      unnamed_challenge_empty context raw root request s t result e r j none_there =
          let unnamed = unnamed_ext context root request s t result e r none_there in
          (
            record {
              ext = some (challenge_ext (read_challenge_ext context root));
              tags = context_tags context.tags_result;
            },
            simp (j, r, or_some (is_some (uint64_at block_count_key root)) result) refl,
            λ algorithm fuel u.
                unnamed-generate_challenges algorithm fuel (read_challenge_ext context root) u
                  unnamed,
          )
