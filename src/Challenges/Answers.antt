-- ===== src/Challenges/Answers.antt =====
-- What the challenge stage answers to any request.
use dhtdynamic_audit_strateg.Base.{
  ℕ, ◌≤◌, ◌≡◌, refl, Bool, true, false, Option, none, some, str_eq, ◌==◌, arith, if◌then◌else◌, inl,
  inr, Bool-cases, Option-cases,
}
use dhtdynamic_audit_strateg.Base.Assoc.{find}
use dhtdynamic_audit_strateg.Exec.{algorithm_missing}
use dhtdynamic_audit_strateg.Run.{Run, ended, thrown, Holds}
use dhtdynamic_audit_strateg.CoreLib.Collection.{Collections}
use dhtdynamic_audit_strateg.CoreLib.Crypto.{Sm9}
use dhtdynamic_audit_strateg.CoreLib.TagSet.{TagSets}
use dhtdynamic_audit_strateg.CoreLib.Random.{Randomness}
use dhtdynamic_audit_strateg.Messages.{Tag, PublicParams, ChallengeExt, StageExt}
use dhtdynamic_audit_strateg.Store.{Store, has_file, get_block_count}
use dhtdynamic_audit_strateg.Challenges.{
  GenerateChallengesResult, challenged, no_items, as_challenge_ext, resolve_block_count,
  challenge_file, generate_challenges,
}
use dhtdynamic_audit_strateg.Challenges.Soundness.{IsChallenge, challenge_blocks-IsChallenge}

module _ ⦃randomness : Randomness⦄ ⦃sm9 : Sm9⦄ ⦃core : Collections⦄
    ⦃tag_sets : TagSets (Tag sm9.G1)⦄ where
  open core use {total_size}

  -- A request that has what the stage needs.
  pub record IsAsked (input_ext : Option StageExt) (ext : ChallengeExt) (params : PublicParams)
      : Type 0 where
    pub is_challenge : as_challenge_ext input_ext ≡ some ext
    pub named : str_eq ext.file_id "" ≡ false
    pub with_params : ext.user_public_params ≡ some params
    pub with_store : ext.state_store ≡ true

  -- A request that lacks something.
  pub data Lacks (input_ext : Option StageExt) : Type 0 where
    lacks_ext : as_challenge_ext input_ext ≡ none → Lacks input_ext
    lacks_name :
        (ext : ChallengeExt)
        → as_challenge_ext input_ext ≡ some ext
        → str_eq ext.file_id "" ≡ true
        → Lacks input_ext
    lacks_params :
        (ext : ChallengeExt)
        → as_challenge_ext input_ext ≡ some ext
        → ext.user_public_params ≡ none
        → Lacks input_ext
    lacks_store :
        (ext : ChallengeExt)
        → as_challenge_ext input_ext ≡ some ext
        → ext.state_store ≡ false
        → Lacks input_ext

  -- The blocks that a request gives, or where it gives none, those of a collection.
  abbrev pub blocks_asked : ChallengeExt → core.Collection → ℕ
  blocks_asked ext c = if ext.block_count == 0 then total_size c else ext.block_count

  -- How the stage ends, on each kind of request.
  pub data IsAnswer (algorithm : Bool) (input_ext : Option StageExt) (s : Store)
      (o : Run GenerateChallengesResult) : Type 0 where
    nothing :
        Lacks input_ext
        → o ≡ ended (record { challenges = none })
        → IsAnswer algorithm input_ext s o
    unknown :
        (ext : ChallengeExt) (params : PublicParams)
        → IsAsked input_ext ext params
        → find ext.file_id s.files ≡ none
        → o ≡ ended (challenged (no_items 0))
        → IsAnswer algorithm input_ext s o
    refused :
        (ext : ChallengeExt) (params : PublicParams) (r : ℕ)
        → IsAsked input_ext ext params
        → find ext.file_id s.files ≡ some r
        → algorithm ≡ false
        → o ≡ thrown algorithm_missing
        → IsAnswer algorithm input_ext s o
    no_blocks :
        (ext : ChallengeExt) (params : PublicParams) (r : ℕ)
        → IsAsked input_ext ext params
        → find ext.file_id s.files ≡ some r
        → algorithm ≡ true
        → blocks_asked ext (s.cells r) ≡ 0
        → o ≡ ended (challenged (no_items 0))
        → IsAnswer algorithm input_ext s o
    challenges_of :
        (ext : ChallengeExt) (params : PublicParams) (r : ℕ)
        → IsAsked input_ext ext params
        → find ext.file_id s.files ≡ some r
        → algorithm ≡ true
        → 1 ≤ blocks_asked ext (s.cells r)
        → Holds (IsChallenge ext params (blocks_asked ext (s.cells r)) r s) o
        → IsAnswer algorithm input_ext s o

  counted :
      (ext : ChallengeExt) (s : Store) (r : ℕ)
      → find ext.file_id s.files ≡ some r
      → resolve_block_count ext s ≡ ended (blocks_asked ext (s.cells r))
  unfolding resolve_block_count get_block_count
  counted ext s r here = elim (Bool-cases (ext.block_count == 0)) [
    | inl none_given ↦ rw (none_given, here) refl
    | inr given ↦ rw given refl
  ]

  positive : (n : ℕ) → (n == 0) ≡ false → 1 ≤ n
  positive n h = ground arith

  zero_of : (n : ℕ) → (n == 0) ≡ true → n ≡ 0
  zero_of n h = ground arith

  -- The stage for a file that is known.
  known-IsAnswer :
      (algorithm : Bool) (fuel : ℕ) (input_ext : Option StageExt) (ext : ChallengeExt)
      (params : PublicParams) (s : Store) (r : ℕ)
      → IsAsked input_ext ext params
      → find ext.file_id s.files ≡ some r
      → IsAnswer algorithm input_ext s (challenge_file algorithm fuel ext params s)
  unfolding challenge_file
  known-IsAnswer false fuel input_ext ext params s r asked here =
      refused ext params r asked here refl refl
  known-IsAnswer true fuel input_ext ext params s r asked here =
      let n = blocks_asked ext (s.cells r) in
      elim (Bool-cases (n == 0)) [
        | inl empty ↦
            no_blocks ext params r asked here refl (zero_of n empty)
              (rw (counted ext s r here, empty) refl)
        | inr some_there ↦ challenges_of ext params r asked here refl (positive n some_there) (
            rw (counted ext s r here, some_there)
              (challenge_blocks-IsChallenge fuel ext params n r s (positive n some_there) here))
      ]

  asked-IsAnswer :
      (algorithm : Bool) (fuel : ℕ) (input_ext : Option StageExt) (ext : ChallengeExt)
      (params : PublicParams) (s : Store)
      → IsAsked input_ext ext params
      → IsAnswer algorithm input_ext s (generate_challenges algorithm fuel input_ext s)
  unfolding generate_challenges has_file
  asked-IsAnswer algorithm fuel input_ext ext params s asked =
      elim (Option-cases (find ext.file_id s.files)) [
        | inl absent ↦ unknown ext params asked absent (
            simp (asked.is_challenge, asked.named, asked.with_params, asked.with_store, absent)
              refl)
        | inr (r, here) ↦
            simp (asked.is_challenge, asked.named, asked.with_params, asked.with_store, here)
              (known-IsAnswer algorithm fuel input_ext ext params s r asked here)
      ]

  -- How the stage ends on any request, store, fuel and random numbers. Where the request has another
  -- extension, no name of a file, no parameters or no store, it returns no challenges. For a file that is
  -- not known it returns challenges with no item. For one that is, it throws without the algorithm; with
  -- it, where the request gives no number of blocks and the store has none, it returns challenges
  -- with no item, and else, whenever it returns, a challenge of that file for the parameters of the
  -- request, among the blocks that the request gives or the store has.
  pub generate_challenges-IsAnswer :
      (algorithm : Bool) (fuel : ℕ) (input_ext : Option StageExt) (s : Store)
      → IsAnswer algorithm input_ext s (generate_challenges algorithm fuel input_ext s)
  unfolding generate_challenges
  generate_challenges-IsAnswer algorithm fuel input_ext s =
      elim (Option-cases (as_challenge_ext input_ext)) [
        | inl e ↦ nothing (lacks_ext e) (rw e refl)
        | inr (ext, e) ↦ elim (Bool-cases (str_eq ext.file_id "")) [
          | inl unnamed ↦ nothing (lacks_name ext e unnamed) (rw (e, unnamed) refl)
          | inr named ↦ elim (Option-cases ext.user_public_params) [
            | inl p ↦ nothing (lacks_params ext e p) (simp (e, named, p) refl)
            | inr (params, p) ↦ elim (Bool-cases ext.state_store) [
              | inr absent ↦ nothing (lacks_store ext e absent) (simp (e, named, p, absent) refl)
              | inl present ↦ asked-IsAnswer algorithm fuel input_ext ext params s (record {
                is_challenge = e;
                named = named;
                with_params = p;
                with_store = present;
              })
            ]
          ]
        ]
      ]
