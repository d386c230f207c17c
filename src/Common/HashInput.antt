-- ===== src/Common/HashInput.antt =====
-- The hash inputs of different blocks.
use dhtdynamic_audit_strateg.Base.{
  ℕ, zero, suc, ◌<◌, ◌≡◌, refl, ap, List, ◌∷◌, ◌++◌, String, arith, length, length-append,
  append_injective, word_mod,
}
use dhtdynamic_audit_strateg.Metadata.{VersionedBlockMetadata}
use dhtdynamic_audit_strateg.CoreLib.Serializer.{Serializer}
use dhtdynamic_audit_strateg.Common.{codes, be_bytes, hash_input}

length-be_bytes : (n x : ℕ) → length (be_bytes n x) ≡ n
unfolding be_bytes
length-be_bytes zero x = refl
length-be_bytes (suc n) x = ap suc (length-be_bytes n x)

head_eq : (x y : ℕ) (xs ys : List ℕ) → x ∷ xs ≡ y ∷ ys → x ≡ y
head_eq x y xs ys e = cc

tail_eq : (x y : ℕ) (xs ys : List ℕ) → x ∷ xs ≡ y ∷ ys → xs ≡ ys
tail_eq x y xs ys e = cc

be_bytes_injective : (x y : ℕ) → x < word_mod → y < word_mod → be_bytes 8 x ≡ be_bytes 8 y → x ≡ y
unfolding be_bytes
be_bytes_injective x y hx hy e =
    let t7 = tail_eq _ _ _ _ e in
    let t6 = tail_eq _ _ _ _ t7 in
    let t5 = tail_eq _ _ _ _ t6 in
    let t4 = tail_eq _ _ _ _ t5 in
    let t3 = tail_eq _ _ _ _ t4 in
    let t2 = tail_eq _ _ _ _ t3 in
    let t1 = tail_eq _ _ _ _ t2 in
    omega (
      arith,
      head_eq _ _ _ _ e,
      head_eq _ _ _ _ t7,
      head_eq _ _ _ _ t6,
      head_eq _ _ _ _ t5,
      head_eq _ _ _ _ t4,
      head_eq _ _ _ _ t3,
      head_eq _ _ _ _ t2,
      head_eq _ _ _ _ t1,
    )

-- Two hash inputs are equal only for the same identifier, block index and metadata, where the
-- indices are `std::size_t`, and the two serializations of metadata have one length and differ for
-- different metadata.
pub hash_input_injective :
    ⦃serializer : Serializer⦄
    → (f f' : String) (b b' : ℕ) (m m' : VersionedBlockMetadata)
    → length (serializer.serialize_metadata m) ≡ length (serializer.serialize_metadata m')
    → (serializer.serialize_metadata m ≡ serializer.serialize_metadata m' → m ≡ m')
    → b < word_mod
    → b' < word_mod
    → hash_input f b m ≡ hash_input f' b' m'
    → (codes f ≡ codes f') × (b ≡ b') × (m ≡ m')
unfolding hash_input
hash_input_injective ⦃serializer⦄ f f' b b' m m' one_length injective hb hb' e =
    let rest = be_bytes 8 b ++ serializer.serialize_metadata m in
    let rest' = be_bytes 8 b' ++ serializer.serialize_metadata m' in
    let same_length : length rest ≡ length rest' = omega (
      arith,
      length-append (be_bytes 8 b) (serializer.serialize_metadata m),
      length-append (be_bytes 8 b') (serializer.serialize_metadata m'),
      length-be_bytes 8 b,
      length-be_bytes 8 b',
      one_length,
    ) in
    let (ids, rests) = append_injective (codes f) (codes f') rest rest' same_length e in
    let (indices, data_eq) =
      append_injective (be_bytes 8 b) (be_bytes 8 b') (serializer.serialize_metadata m)
        (serializer.serialize_metadata m') (one_length) rests in
    (ids, be_bytes_injective b b' hb hb' indices, injective data_eq)
