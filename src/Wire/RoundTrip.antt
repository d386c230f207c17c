-- ===== src/Wire/RoundTrip.antt =====
-- What was serialized is read back, from the front of any bytes.
use dhtdynamic_audit_strateg.Base.{
  ℕ, ◌%◌, ◌<◌, ◌≡◌, refl, sym, ◌∙◌, Option, Option-cases, inl, inr, none, some, List, [], ◌∷◌, ◌++◌,
  String, arith, length, append_assoc, length-append, word_mod,
}
use dhtdynamic_audit_strateg.Fallible.{Fallible, returned, raised}
use dhtdynamic_audit_strateg.Metadata.{VersionedBlockMetadata}
use dhtdynamic_audit_strateg.CoreLib.Crypto.{Sm9}
use dhtdynamic_audit_strateg.CoreLib.Serializer.{Serializer}
use dhtdynamic_audit_strateg.CoreLib.Archive.{Archive, AllBelow}
use dhtdynamic_audit_strateg.Common.{codes, hash_input}
use dhtdynamic_audit_strateg.Common.HashInput.{hash_input_injective}
use dhtdynamic_audit_strateg.Messages.{
  MaintainExt, PublicParams, PrivateParams, ChallengeItem, DhtChallenges, DhtProves,
}
use dhtdynamic_audit_strateg.Wire.{
  WireError, theta_failed, lambda_failed, Reader, write_metadata, read_metadata, write_marker,
  read_marker, empty_marker, write_public_params, read_public_params, write_private_params,
  read_private_params, write_tag, read_tag, write_item, read_item, write_items, read_items,
  write_challenges, read_challenges, write_proves, read_proves, write_maintain_ext,
  read_maintain_ext,
}

-- Both fields are `std::uint64_t`.
abbrev pub IsWords : VersionedBlockMetadata → Type 0
IsWords m = (m.version < word_mod) × (m.timestamp < word_mod)

-- A reader that takes `a` off what was written.
abbrev pub ReadsBack : {A : Type 0} → Reader A → List ℕ → A → Type 0
ReadsBack read written a = (rest : List ℕ) → read (written ++ rest) ≡ returned (a, rest)

module _ ⦃sm9 : Sm9⦄ where
  -- The numbers of a challenge are `std::size_t` and `std::uint64_t`.
  abbrev pub IsWordsItem : ChallengeItem → Type 0
  IsWordsItem item = (item.block_index < word_mod) × IsWords item.metadata

  abbrev pub AllItemsWords : List ChallengeItem → Type 0
  AllItemsWords [] = Unit
  AllItemsWords (item ∷ items) = IsWordsItem item × AllItemsWords items

  abbrev pub IsWordsChallenges : DhtChallenges → Type 0
  IsWordsChallenges c =
      (c.block_count < word_mod) × (length c.items < word_mod) × AllItemsWords c.items

module _ ⦃sm9 : Sm9⦄ ⦃archive : Archive⦄ where
  open sm9 use {G1}
  open archive use {
    put_word, put_bytes, take-put_byte, take-put_word, take-put_bytes, take-put_words,
    take-put_string, take-put_scalar, take-put_g1, take-put_g2, length-put_word, gt_serialize,
    gt_serialize-bytes, gt_deserialize, gt_deserialize-serialize, op_number, op_of_number-op_number,
  }

  pub read_metadata-write :
      (m : VersionedBlockMetadata) → IsWords m → ReadsBack read_metadata (write_metadata m) m
  unfolding read_metadata write_metadata
  read_metadata-write m h rest =
      simp (append_assoc, take-put_word m.version h.0, take-put_word m.timestamp h.1) refl

  pub read_marker-write : ReadsBack read_marker write_marker tt
  unfolding read_marker write_marker
  read_marker-write rest = simp (take-put_byte empty_marker (omega arith)) refl

  pub read_public_params-write :
      (p : PublicParams) → ReadsBack read_public_params (write_public_params p) p
  unfolding read_public_params write_public_params
  read_public_params-write p rest = simp (append_assoc, take-put_g2, take-put_g1) refl

  pub read_private_params-write :
      (p : PrivateParams) → ReadsBack read_private_params (write_private_params p) p
  unfolding read_private_params write_private_params
  read_private_params-write p rest = simp (append_assoc, take-put_scalar) refl

  pub read_tag-write : (sigma : G1) → ReadsBack read_tag (write_tag sigma) sigma
  unfolding read_tag write_tag
  read_tag-write sigma rest = simp (take-put_g1) refl

  read_item-write :
      (item : ChallengeItem) → IsWordsItem item → ReadsBack read_item (write_item item) item
  unfolding read_item write_item
  read_item-write item h rest =
      simp
        (
          append_assoc,
          take-put_word item.block_index h.0,
          take-put_scalar,
          take-put_word item.metadata.version h.1.0,
          take-put_word item.metadata.timestamp h.1.1,
        )
        refl

  read_items-write :
      (items : List ChallengeItem)
      → AllItemsWords items
      → ReadsBack (read_items (length items)) (write_items items) items
  unfolding read_items write_items
  read_items-write [] h rest = refl
  read_items-write (item ∷ items) h rest =
      simp (append_assoc, read_item-write item h.0, read_items-write items h.1) refl

  pub read_challenges-write :
      (c : DhtChallenges) → IsWordsChallenges c → ReadsBack read_challenges (write_challenges c) c
  unfolding read_challenges write_challenges
  read_challenges-write c h rest =
      simp
        (
          append_assoc,
          take-put_g2,
          take-put_scalar,
          take-put_word c.block_count h.0,
          take-put_word (length c.items) h.1,
          read_items-write c.items h.2,
        )
        refl

  pub read_proves-write : (p : DhtProves) → ReadsBack read_proves (write_proves p) p
  unfolding read_proves write_proves
  read_proves-write p rest =
      simp
        (
          append_assoc,
          take-put_bytes (gt_serialize p.theta) (gt_serialize-bytes p.theta),
          take-put_bytes (gt_serialize p.lambda) (gt_serialize-bytes p.lambda),
          gt_deserialize-serialize,
        )
        refl

  -- A maintenance request whose operation is numbered below 256, and whose indices are 64-bit words,
  -- is read back from the front of any bytes into any extension, which keeps its pointer to a store.
  pub read_maintain_ext-write :
      (before ext : MaintainExt)
      → op_number ext.op_type < 256
      → AllBelow word_mod ext.block_indices
      → ReadsBack
          (read_maintain_ext before)
          (write_maintain_ext ext)
          (record ext { state_store = before.state_store })
  unfolding read_maintain_ext write_maintain_ext
  read_maintain_ext-write before ext small words rest =
      let same : op_number ext.op_type % 256 ≡ op_number ext.op_type = omega arith in
      simp
        (
          append_assoc,
          same,
          take-put_string,
          take-put_byte (op_number ext.op_type) small,
          take-put_words ext.block_indices words,
          op_of_number-op_number,
        )
        refl

  -- A proof from the two elements that its bytes are, if they are: Θ comes first.
  abbrev pub proof_of :
      Option sm9.Gt → Option sm9.Gt → List ℕ → Fallible WireError (DhtProves × List ℕ)
  proof_of none lambda rest = raised theta_failed
  proof_of (some theta) none rest = raised lambda_failed
  proof_of (some theta) (some lambda) rest =
      returned (record { theta = theta; lambda = lambda }, rest)

  -- Two byte vectors, with any bytes behind, are read as the proof of the elements of the target group
  -- that they are; where the first is none, the exception is that for Θ, and where only the second
  -- is none, that for Λ.
  pub read_proves-proof_of :
      (theta_data lambda_data rest : List ℕ)
      → AllBelow 256 theta_data
      → AllBelow 256 lambda_data
      → read_proves (put_bytes theta_data ++ (put_bytes lambda_data ++ rest))
        ≡ proof_of (gt_deserialize theta_data) (gt_deserialize lambda_data) rest
  unfolding read_proves
  read_proves-proof_of theta_data lambda_data rest bytes bytes' =
      elim (Option-cases (gt_deserialize theta_data)) [
        | inl e ↦ simp (take-put_bytes theta_data bytes, e) refl
        | inr (theta, e) ↦ elim (Option-cases (gt_deserialize lambda_data)) [
          | inl f ↦
              simp (take-put_bytes theta_data bytes, take-put_bytes lambda_data bytes', e, f) refl
          | inr (lambda, f) ↦
              simp (take-put_bytes theta_data bytes, take-put_bytes lambda_data bytes', e, f) refl
        ]
      ]

  -- The serializer of the hash inputs.
  abbrev pub archive_serializer : Serializer
  archive_serializer = record { serialize_metadata = write_metadata }

  length-write_metadata : (m : VersionedBlockMetadata) → length (write_metadata m) ≡ 16
  unfolding write_metadata
  length-write_metadata m = omega (
    arith,
    length-append (put_word m.version) (put_word m.timestamp),
    length-put_word m.version,
    length-put_word m.timestamp,
  )

  same_read :
      (m m' : VersionedBlockMetadata) (r : Fallible WireError (VersionedBlockMetadata × List ℕ))
      → r ≡ returned (m, [])
      → r ≡ returned (m', [])
      → m ≡ m'
  same_read m m' r p q = cc

  write_metadata_injective :
      (m m' : VersionedBlockMetadata)
      → IsWords m
      → IsWords m'
      → write_metadata m ≡ write_metadata m'
      → m ≡ m'
  write_metadata_injective m m' h h' e =
      let read = read_metadata-write m h [] in
      let read' = rw (← e) at (read_metadata-write m' h' []) in
      same_read m m' (read_metadata (write_metadata m ++ [])) read read'

  -- Two hash inputs over the archive are equal only for the same identifier, block index and metadata,
  -- where the index and the fields of the metadata are 64-bit words: 24 bytes follow the identifier.
  pub archived_hash_input_injective :
      (f f' : String) (b b' : ℕ) (m m' : VersionedBlockMetadata)
      → b < word_mod
      → b' < word_mod
      → IsWords m
      → IsWords m'
      → hash_input ⦃serializer = archive_serializer⦄ f b m
        ≡ hash_input ⦃serializer = archive_serializer⦄ f' b' m'
      → (codes f ≡ codes f') × (b ≡ b') × (m ≡ m')
  archived_hash_input_injective f f' b b' m m' hb hb' h h' e =
      hash_input_injective ⦃serializer = archive_serializer⦄ f f' b b' m m'
        (length-write_metadata m ∙ sym (length-write_metadata m'))
        (write_metadata_injective m m' h h') hb hb' e
