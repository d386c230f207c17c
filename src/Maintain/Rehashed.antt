-- ===== src/Maintain/Rehashed.antt =====
-- An update request gives each of its blocks another hash.
use dhtdynamic_audit_strateg.Base.{
  ℕ, suc, ◌+◌, ◌%◌, ◌≤◌, ◌<◌, ◌≡◌, ◌≢◌, refl, ap, sym, ◌∙◌, Bool, true, false, some, List, [], ◌∷◌,
  String, str_eq, arith, if◌then◌else◌, inl, inr, Option-cases, word_mod, word_pred,
}
use dhtdynamic_audit_strateg.Base.Assoc.{find}
use dhtdynamic_audit_strateg.Exec.{Exec, Outcome, done}
use dhtdynamic_audit_strateg.Metadata.{VersionedBlockMetadata, versioned}
use dhtdynamic_audit_strateg.CoreLib.Collection.{Collections}
use dhtdynamic_audit_strateg.CoreLib.Crypto.{Sm9}
use dhtdynamic_audit_strateg.CoreLib.Archive.{Archive}
use dhtdynamic_audit_strateg.Messages.{MaintainExt, update}
use dhtdynamic_audit_strateg.Common.{hash_input}
use dhtdynamic_audit_strateg.Store.{Store, Metadata, has_file, get_block_metadata}
use dhtdynamic_audit_strateg.Wire.RoundTrip.{
  IsWords, archive_serializer, archived_hash_input_injective,
}
use dhtdynamic_audit_strateg.Maintain.{handle_update, maintain, unless_empty, update_blocks}
use dhtdynamic_audit_strateg.Maintain.Freshness.{
  times, HasVersion, Ends, bumped_by, bumped_by-times, update_blocks-HasVersion,
}

changed_version : (v n : ℕ) → v < word_mod → 1 ≤ n → n < word_mod → (v + n) % word_mod ≢ v
changed_version v n h low high e = omega arith

module _ ⦃core : Collections⦄ where
  open core use {get_by_index}

  found :
      (id : String) (b : ℕ) (s : Store) (m : Metadata)
      → get_block_metadata id b s ≡ done m s
      → (r : ℕ) × (find id s.files ≡ some r) × (get_by_index (s.cells r) (word_pred b) ≡ some m)
  unfolding get_block_metadata
  found id b s m h = elim (Option-cases (find id s.files)) [
    | inl missing ↦ let h' = rw missing at h in absurd cc
    | inr (r, e) ↦ elim (Option-cases (get_by_index (s.cells r) (word_pred b))) [
      | inl missing ↦ let h' = rw (e, missing) at h in absurd cc
      | inr (m', p) ↦ let h' = rw (e, p) at h in (r, e, rw p cc)
    ]
  ]

  current :
      (id : String) (b v : ℕ) (s : Store) (h : HasVersion id (word_pred b) v s)
      → get_block_metadata id b s ≡ done (versioned h.metadata) s
  unfolding get_block_metadata
  current id b v s h = rw (h.is_file, h.is_block) refl

  if-Ends :
      (P : Store → Type 0) (b : Bool) (o p : Outcome Store (Unit {0}))
      → Ends P o
      → Ends P p
      → Ends P (if b then o else p)
  if-Ends P true o p h k = h
  if-Ends P false o p h k = k

  unless_empty-Ends :
      (P : Store → Type 0) (bs : List ℕ) (m : Exec Store (Unit {0})) (s : Store)
      → Ends P (m s)
      → Ends P (unless_empty bs m s)
  unless_empty-Ends P [] m s h = tt
  unless_empty-Ends P (b ∷ bs) m s h = h

  -- The stage with an update request.
  maintain-HasVersion :
      (ext : MaintainExt) (i v : ℕ) (s : Store)
      → ext.op_type ≡ update
      → HasVersion ext.file_id i v s
      → Ends (HasVersion ext.file_id i (bumped_by i ext.block_indices v)) (maintain ext s)
  unfolding maintain handle_update
  maintain-HasVersion ext i v s op h =
      let P : Store → Type 0 = HasVersion ext.file_id i (bumped_by i ext.block_indices v) in
      let t = record s { reads = suc s.reads } in
      let k : HasVersion ext.file_id i v t = record {
        cell = h.cell;
        metadata = h.metadata;
        is_file = h.is_file;
        is_block = h.is_block;
        has_version = h.has_version;
        words = h.words;
        clock_words = h.clock_words;
      } in
      if-Ends P (str_eq ext.file_id "") _ _ tt (
        if-Ends P ext.state_store _ _
          (if-Ends P (has_file s ext.file_id) _ _
            (rw op (
              unless_empty-Ends P ext.block_indices (update_blocks ext.file_id ext.block_indices) t
                (update_blocks-HasVersion ext.file_id i ext.block_indices v t k)))
            tt)
          tt)

  returned_HasVersion :
      (P : Store → Type 0) (o : Outcome Store (Unit {0})) (t : Store)
      → o ≡ done tt t
      → Ends P o
      → P t
  returned_HasVersion P o t e h = let h' = rw e at h in h'

  module _ ⦃sm9 : Sm9⦄ ⦃archive : Archive⦄ where
    rehashed :
        (id : String) (b : ℕ) (m m' : VersionedBlockMetadata)
        → b < word_mod
        → IsWords m
        → IsWords m'
        → m'.version ≢ m.version
        → hash_input ⦃serializer = archive_serializer⦄ id b m'
          ≢ hash_input ⦃serializer = archive_serializer⦄ id b m
    rehashed id b m m' hb h h' ne e =
        let (ids, indices, same) = archived_hash_input_injective id id b b m' m hb hb h' h e in
        ne (ap (λ (x : VersionedBlockMetadata). x.version) same)

    -- An update request that returns raises the version of a block by the number of times that the
    -- request names the block, modulo 2⁶⁴; and where that is at least once and less than 2⁶⁴ times,
    -- the input of the block's hash under the metadata that the store then holds is not the input
    -- under the metadata before: for a block with metadata of the default class, where its index,
    -- the fields and the readings of the clock are 64-bit words, and over the archive.
    pub updated_block_rehashed :
        (ext : MaintainExt) (s t : Store) (b : ℕ) (m : VersionedBlockMetadata)
        → ext.op_type ≡ update
        → maintain ext s ≡ done tt t
        → get_block_metadata ext.file_id b s ≡ done (versioned m) s
        → b < word_mod
        → IsWords m
        → ((k : ℕ) → s.clock k < word_mod)
        → 1 ≤ times (word_pred b) ext.block_indices
        → times (word_pred b) ext.block_indices < word_mod
        → (m' : VersionedBlockMetadata) × (get_block_metadata ext.file_id b t
            ≡ done (versioned m') t)
          × (m'.version ≡ (m.version + times (word_pred b) ext.block_indices) % word_mod)
          × (hash_input ⦃serializer = archive_serializer⦄ ext.file_id b m'
              ≢ hash_input ⦃serializer = archive_serializer⦄ ext.file_id b m)
    updated_block_rehashed ext s t b m op returned before hb h clock low high =
        let i = word_pred b in
        let (r, e, p) = found ext.file_id b s (versioned m) before in
        let start : HasVersion ext.file_id i m.version s = record {
          cell = r;
          metadata = m;
          is_file = e;
          is_block = p;
          has_version = refl;
          words = h;
          clock_words = clock;
        } in
        let v = bumped_by i ext.block_indices m.version in
        let after =
          returned_HasVersion (HasVersion ext.file_id i v) (maintain ext s) t returned
            (maintain-HasVersion ext i m.version s op start) in
        let version = after.has_version ∙ bumped_by-times i ext.block_indices m.version h.0 in
        (
          after.metadata,
          current ext.file_id b v t after,
          version,
          rehashed ext.file_id b m after.metadata hb h after.words λ same.
              changed_version m.version (times i ext.block_indices) h.0 low high
                (sym version ∙ same),
        )
