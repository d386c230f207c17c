-- ===== src/Requests/Cycle.antt =====
-- The whole audit as an engine runs it: each stage gets the request that `createRequest` makes for it,
-- in the context of the results before.
use dhtdynamic_audit_strateg.Base.{
  ℕ, ◌+◌, ◌≤◌, ◌<◌, ◌≡◌, refl, true, false, ◌==◌, none, some, String, arith, word_mod,
}
use dhtdynamic_audit_strateg.Base.Assoc.{find}
use dhtdynamic_audit_strateg.Exec.{done}
use dhtdynamic_audit_strateg.Run.{ended}
use dhtdynamic_audit_strateg.Fallible.{returned}
use dhtdynamic_audit_strateg.CoreLib.Collection.{Collections}
use dhtdynamic_audit_strateg.CoreLib.Crypto.{Sm9}
use dhtdynamic_audit_strateg.CoreLib.TagSet.{TagSets}
use dhtdynamic_audit_strateg.CoreLib.Serializer.{Serializer}
use dhtdynamic_audit_strateg.CoreLib.Random.{Randomness}
use dhtdynamic_audit_strateg.CoreLib.Input.{Inputs, generate_tags_op, challenge_gen}
use dhtdynamic_audit_strateg.Messages.{
  Tag, AuditBlockSource, PublicParams, PrivateParams, DhtChallenges, challenge_ext, verify_ext,
  ProveExt, VerifyExt,
}
use dhtdynamic_audit_strateg.Store.{Store, AllVersioned}
use dhtdynamic_audit_strateg.Tags.{generate_tags}
use dhtdynamic_audit_strateg.Challenges.{
  generate_challenges, challenge_count, challenged, resolve_block_count,
}
use dhtdynamic_audit_strateg.Proofs.{judged}
use dhtdynamic_audit_strateg.Proofs.Laws.{Bilinear}
use dhtdynamic_audit_strateg.Proofs.Completeness.{Accepted}
use dhtdynamic_audit_strateg.Proofs.Cycle.{IsFinite, audit_cycle-Accepted}
use dhtdynamic_audit_strateg.Requests.{create_request, read_challenge_ext}
use dhtdynamic_audit_strateg.Requests.Carried.{Context, tags_request, challenges_request}
use dhtdynamic_audit_strateg.Requests.Engine.{
  IsAuditInput, prove_and_verify, prove_and_verify-Accepted,
}
use dhtdynamic_audit_strateg.Requests.Chain.{
  IsEngineInput, engine_tagging, engine_tags_request, with_tags, with_challenges,
  tags_request-created, challenges_request-created, engine_file, engine_params, engine_store,
  runs_blocks,
}

positive-nonzero : (n : ℕ) → 1 ≤ n → (n == 0) ≡ false
positive-nonzero n h = ground arith

module _ ⦃sm9 : Sm9⦄ ⦃tag_sets : TagSets (Tag sm9.G1)⦄ ⦃inputs : Inputs tag_sets.Tags⦄
    ⦃core : Collections⦄ ⦃serializer : Serializer⦄ ⦃randomness : Randomness⦄ where
  open tag_sets use {Tags}
  open sm9 use {Scalar, g1_is_infinity, g2_is_infinity, g2_mul}
  open inputs use {RawInput, Json}

  -- The parameters fit, and the window is the file from its first block on.
  pub record IsAuditable (params : PublicParams) (a : Scalar) (blocks : AuditBlockSource)
      : Type 0 where
    pub key : params.y ≡ g2_mul params.g a
    pub g_finite : g2_is_infinity params.g ≡ false
    pub u_finite : g1_is_infinity params.u ≡ false
    pub pk_finite : g2_is_infinity params.pk ≡ false
    pub origin : blocks.global_block_start_index ≡ 0
    pub room : blocks.available_block_count + 1 < word_mod

  module _ (laws : Bilinear) where
    -- The four requests of an audit are made and the audit is accepted: where the context has the
    -- keys and the store, the inputs the blocks and the name of the file and no selector, and then the
    -- tags that the tag stage has returned; the challenge stage returns a challenge for one of the
    -- first n blocks at least, with n the count that it resolves and no more than the blocks in the
    -- window, which starts at the first; all metadata of the store was versioned before; y = [a]·g;
    -- the pairing is bilinear; and no point that is paired is at infinity.
    pub engine_audit_accepted :
        (context : Context) (tagging challenging proving verifying : RawInput)
        (params : PublicParams) (secrets : PrivateParams) (blocks : AuditBlockSource) (id : String)
        (root : Json) (s t : Store) (tags : Tags) (r n fuel : ℕ) (c : DhtChallenges)
        → IsEngineInput context tagging challenging params secrets blocks id root
        → IsAuditInput (with_challenges context tags c) proving verifying params tags blocks c id
        → IsAuditable params secrets.a blocks
        → AllVersioned s
        → generate_tags (engine_tags_request params secrets blocks id) s
          ≡ done (record { tags = some tags; ext = none }) t
        → find id t.files ≡ some r
        → let asked = read_challenge_ext (with_tags context tags) root in
          resolve_block_count asked t ≡ ended n
          → 1 ≤ n
          → n ≤ blocks.available_block_count
          → 1 ≤ (challenge_count asked n).0
          → generate_challenges true fuel (some (challenge_ext asked)) t ≡ ended (challenged c)
          → IsFinite params secrets.a id blocks c
          → (create_request generate_tags_op context tagging
              ≡ returned (tags_request (engine_tags_request params secrets blocks id)))
            × (create_request challenge_gen (with_tags context tags) challenging
                ≡ returned (
                    challenges_request
                      (record { ext = some (challenge_ext asked); tags = some tags })))
            × (prove_and_verify (with_challenges context tags c) proving verifying
                ≡ returned (
                    judged
                      (some
                        (verify_ext (record { file_id = id; user_public_params = some params })))
                      true))
    engine_audit_accepted context tagging challenging proving verifying params secrets blocks id
          root s t tags r n fuel c h inputs_there fit all tagged here count pos inside some_asked
          challenge finite =
        let asked = read_challenge_ext (with_tags context tags) root in
        let file = engine_file context tagging challenging params secrets blocks id root tags h in
        let key = engine_params context tagging challenging params secrets blocks id root tags h in
        let store = engine_store context root tags h.with_store in
        let blocks_picked =
          runs_blocks fuel asked params id n r t file key store h.named here count
            (positive-nonzero n pos) in
        let prove : ProveExt = record {
          tags = some tags;
          blocks = some blocks;
          user_public_params = some params;
        } in
        let verify : VerifyExt = record { file_id = id; user_public_params = some params } in
        let accepted : Accepted prove verify c =
          audit_cycle-Accepted laws (engine_tags_request params secrets blocks id)
            (engine_tagging params secrets id) blocks secrets params s t tags r n fuel asked prove
            verify c
            (record {
              complete = record {
                with_ext = refl;
                named = h.named;
                with_blocks = refl;
                with_private = refl;
                with_public = refl;
                with_store = refl;
              };
              whole_window = refl;
              room = fit.room;
              server = record {
                with_tags = refl;
                with_blocks = refl;
                with_params = refl;
                same_file = refl;
                origin = fit.origin;
                key = fit.key;
                g_finite = fit.g_finite;
                u_finite = fit.u_finite;
              };
              same_file = file;
              named = h.named;
              verify_params = refl;
              pk_finite = fit.pk_finite;
            })
            all tagged here pos inside some_asked (rw (← blocks_picked) challenge) finite in
        (
          tags_request-created context tagging challenging params secrets blocks id root h,
          challenges_request-created context tagging challenging params secrets blocks id root tags
              h,
          prove_and_verify-Accepted (with_challenges context tags c) proving verifying params tags
              blocks c id inputs_there h.named accepted,
        )
