-- ===== src/Wire.antt =====
-- The serializations of the messages: params.cpp, challenges.cpp, proves.cpp, tags.cpp,
-- versioned_block_metadata.cpp, and params.h and maintain_types.h. A reader takes bytes from the front
-- and gives the object and what is left. It overwrites all that an object held before, but for the
-- store of a maintenance extension.
pub mod RoundTrip
pub mod Bounds
use dhtdynamic_audit_strateg.Base.{ℕ, zero, suc, ◌%◌, false, List, [], ◌∷◌, ◌++◌, length}
use dhtdynamic_audit_strateg.Fallible.{Fallible, returned, raised, ◌>>=◌, or_raise}
use dhtdynamic_audit_strateg.Metadata.{VersionedBlockMetadata}
use dhtdynamic_audit_strateg.CoreLib.Crypto.{Sm9}
use dhtdynamic_audit_strateg.CoreLib.Archive.{Archive}
use dhtdynamic_audit_strateg.Messages.{
  MaintainExt, PublicParams, PrivateParams, ChallengeItem, DhtChallenges, DhtProves,
}

-- An exception of the archive, and those of the plugin, one for each message.
pub data WireError : Type 0 where
  archive_error theta_failed lambda_failed unsupported_kind : WireError

-- An input archive at a place in its bytes.
abbrev pub Reader : Type 0 → Type 0
Reader A = List ℕ → Fallible WireError (A × List ℕ)

module _ ⦃sm9 : Sm9⦄ ⦃archive : Archive⦄ where
  open sm9 use {Scalar, G1, G2, Gt}
  open archive use {
    put_byte, take_byte, put_word, take_word, put_bytes, take_bytes, put_words, take_words,
    put_string, take_string, put_scalar, take_scalar, put_g1, take_g1, put_g2, take_g2,
    gt_serialize, gt_deserialize, op_number, op_of_number,
  }

  unfoldable pub write_metadata : VersionedBlockMetadata → List ℕ
  write_metadata m = put_word m.version ++ put_word m.timestamp

  unfoldable pub read_metadata : Reader VersionedBlockMetadata
  read_metadata bytes = do
    (version, bytes1) ← or_raise archive_error (take_word bytes)
    (timestamp, bytes2) ← or_raise archive_error (take_word bytes1)
    returned (record { version = version; timestamp = timestamp }, bytes2)

  -- The marker of the empty parameters of the algorithm: the byte that is read is not looked at.
  abbrev pub empty_marker : ℕ
  empty_marker = 0

  unfoldable pub write_marker : List ℕ
  write_marker = put_byte empty_marker

  unfoldable pub read_marker : Reader (Unit {0})
  read_marker bytes = do
    (marker, bytes1) ← or_raise archive_error (take_byte bytes)
    returned (tt, bytes1)

  unfoldable pub write_public_params : PublicParams → List ℕ
  write_public_params p = put_g2 p.pk ++ (put_g2 p.g ++ (put_g2 p.y ++ put_g1 p.u))

  unfoldable pub read_public_params : Reader PublicParams
  read_public_params bytes = do
    (pk, bytes1) ← or_raise archive_error (take_g2 bytes)
    (g, bytes2) ← or_raise archive_error (take_g2 bytes1)
    (y, bytes3) ← or_raise archive_error (take_g2 bytes2)
    (u, bytes4) ← or_raise archive_error (take_g1 bytes3)
    returned (record { pk = pk; g = g; y = y; u = u }, bytes4)

  unfoldable pub write_private_params : PrivateParams → List ℕ
  write_private_params p = put_scalar p.sk ++ put_scalar p.a

  unfoldable pub read_private_params : Reader PrivateParams
  read_private_params bytes = do
    (sk, bytes1) ← or_raise archive_error (take_scalar bytes)
    (a, bytes2) ← or_raise archive_error (take_scalar bytes1)
    returned (record { sk = sk; a = a }, bytes2)

  unfoldable pub write_tag : G1 → List ℕ
  write_tag sigma = put_g1 sigma

  unfoldable pub read_tag : Reader G1
  read_tag bytes = or_raise archive_error (take_g1 bytes)

  unfoldable pub write_item : ChallengeItem → List ℕ
  write_item item =
      put_word item.block_index
      ++ (put_scalar item.nu
          ++ (put_word item.metadata.version ++ put_word item.metadata.timestamp))

  unfoldable pub read_item : Reader ChallengeItem
  read_item bytes = do
    (block_index, bytes1) ← or_raise archive_error (take_word bytes)
    (nu, bytes2) ← or_raise archive_error (take_scalar bytes1)
    (version, bytes3) ← or_raise archive_error (take_word bytes2)
    (timestamp, bytes4) ← or_raise archive_error (take_word bytes3)
    returned (
      record {
        block_index = block_index;
        nu = nu;
        metadata = record { version = version; timestamp = timestamp };
      },
      bytes4,
    )

  unfoldable pub write_items : List ChallengeItem → List ℕ
  write_items [] = []
  write_items (item ∷ items) = write_item item ++ write_items items

  -- The loop over the count that was read.
  unfoldable pub read_items : ℕ → Reader (List ChallengeItem)
  read_items zero bytes = returned ([], bytes)
  read_items (suc count) bytes = do
    (item, bytes1) ← read_item bytes
    (items, bytes2) ← read_items count bytes1
    returned (item ∷ items, bytes2)

  unfoldable pub write_challenges : DhtChallenges → List ℕ
  write_challenges c =
      put_g2 c.blind_point
      ++ (put_scalar c.blind_scalar
          ++ (put_word c.block_count ++ (put_word (length c.items) ++ write_items c.items)))

  unfoldable pub read_challenges : Reader DhtChallenges
  read_challenges bytes = do
    (blind_point, bytes1) ← or_raise archive_error (take_g2 bytes)
    (blind_scalar, bytes2) ← or_raise archive_error (take_scalar bytes1)
    (block_count, bytes3) ← or_raise archive_error (take_word bytes2)
    (count, bytes4) ← or_raise archive_error (take_word bytes3)
    (items, bytes5) ← read_items count bytes4
    returned (
      record {
        blind_point = blind_point;
        blind_scalar = blind_scalar;
        items = items;
        block_count = block_count;
      },
      bytes5,
    )

  unfoldable pub write_proves : DhtProves → List ℕ
  write_proves p = put_bytes (gt_serialize p.theta) ++ put_bytes (gt_serialize p.lambda)

  unfoldable pub read_proves : Reader DhtProves
  read_proves bytes = do
    (theta_data, bytes1) ← or_raise archive_error (take_bytes bytes)
    theta ← or_raise theta_failed (gt_deserialize theta_data)
    (lambda_data, bytes2) ← or_raise archive_error (take_bytes bytes1)
    lambda ← or_raise lambda_failed (gt_deserialize lambda_data)
    returned (record { theta = theta; lambda = lambda }, bytes2)

  -- The operation is cut to a byte. The pointer to the store is not written.
  unfoldable pub write_maintain_ext : MaintainExt → List ℕ
  write_maintain_ext ext =
      put_string ext.file_id
      ++ (put_byte (op_number ext.op_type % 256) ++ put_words ext.block_indices)

  -- Reads into an extension, whose pointer to a store stays.
  unfoldable pub read_maintain_ext : MaintainExt → Reader MaintainExt
  read_maintain_ext before bytes = do
    (file_id, bytes1) ← or_raise archive_error (take_string bytes)
    (number, bytes2) ← or_raise archive_error (take_byte bytes1)
    (block_indices, bytes3) ← or_raise archive_error (take_words bytes2)
    returned (
      record {
        file_id = file_id;
        op_type = op_of_number number;
        block_indices = block_indices;
        state_store = before.state_store;
      },
      bytes3,
    )
