-- ===== src/Common.antt =====
-- common.h and common.cpp: the hash of a block's identity, and the scalar of a block's content.
pub mod HashInput
pub mod Segments
pub mod Chunks
use Prim.Native.Char.{Char, code}
use dhtdynamic_audit_strateg.Base.{
  ℕ, zero, suc, ◌+◌, ◌-◌, ◌*◌, ◌/◌, ◌%◌, ◌^◌, Option, none, some, List, [], ◌∷◌, ◌++◌, String, min,
  length, replicate, take, drop,
}
use dhtdynamic_audit_strateg.Metadata.{VersionedBlockMetadata}
use dhtdynamic_audit_strateg.CoreLib.Crypto.{Sm9}
use dhtdynamic_audit_strateg.CoreLib.Serializer.{Serializer}

-- The bytes of a file identifier, which is ASCII.
abbrev pub codes : String → List ℕ
codes String.[] = []
codes (String.◌∷◌ c s) = code c ∷ codes s

-- `(value >> (i * 8)) & 0xFF` for `i` from `n - 1` down to 0.
unfoldable pub be_bytes : ℕ → ℕ → List ℕ
be_bytes zero x = []
be_bytes (suc i) x = ((x / 256 ^ i) % 256) ∷ be_bytes i x

-- `fileId ‖ blockIndex ‖ metadata`.
unfoldable pub hash_input : ⦃serializer : Serializer⦄ → String → ℕ → VersionedBlockMetadata → List ℕ
hash_input ⦃serializer⦄ file_id block_index m =
    codes file_id ++ (be_bytes 8 block_index ++ serializer.serialize_metadata m)

abbrev pub segment_size : ℕ
segment_size = 32

-- How many segments a block has, and the bytes of each: the last is filled up with zeros.
unfoldable pub segment_count : List ℕ → ℕ
segment_count block = (length block + segment_size - 1) / segment_size

unfoldable pub segment : List ℕ → ℕ → List ℕ
segment block j =
    let offset = j * segment_size in
    let copy_size = min segment_size (length block - offset) in
    take copy_size (drop offset block) ++ replicate (segment_size - copy_size) 0

module _ ⦃sm9 : Sm9⦄ where
  open sm9 use {
    Scalar, G1, scalar_zero, scalar_of_bytes, scalar_add, g1_mul, hash_to_curve, hash_to_scalar,
    hash_challenge,
  }

  unfoldable pub compute_block_hash :
      ⦃serializer : Serializer⦄ → String → ℕ → VersionedBlockMetadata → G1
  compute_block_hash file_id block_index m = hash_to_curve (hash_input file_id block_index m)

  -- `if (newSum) sum.assign(*newSum);`
  abbrev pub assign_if : Scalar → Option Scalar → Scalar
  assign_if old none = old
  assign_if old (some new) = new

  unfoldable pub add_segments : List ℕ → ℕ → ℕ → Scalar → Scalar
  add_segments block zero j sum = sum
  add_segments block (suc rounds) j sum =
      add_segments block rounds (suc j)
        (assign_if sum (scalar_add sum (scalar_of_bytes (segment block j))))

  unfoldable pub accumulate_block_segments_scalar : List ℕ → Scalar
  unfolding add_segments
  accumulate_block_segments_scalar block = add_segments block (segment_count block) 0 scalar_zero

  unfoldable pub accumulate_block_segments_g1 : List ℕ → G1 → G1
  accumulate_block_segments_g1 block base_point =
      g1_mul base_point (accumulate_block_segments_scalar block)

  unfoldable pub block_to_scalar : List ℕ → Scalar
  block_to_scalar block = hash_to_scalar block

  unfoldable pub challenge_to_scalar : List ℕ → Scalar
  challenge_to_scalar seed = hash_challenge seed
