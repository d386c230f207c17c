-- ===== src/Common/Chunks.antt =====
-- The sum of a block's segments, against a block cut into pieces first.
use mathlib.Core.List.{foldl}
use dhtdynamic_audit_strateg.Base.{
  ℕ, zero, suc, ◌+◌, ◌-◌, ◌*◌, ◌/◌, ◌<◌, ◌≤◌, ◌≡◌, ◌∙◌, refl, ap, List, [], ◌∷◌, ◌++◌, arith, min,
  length, take, drop, replicate, length-take, length-drop, drop-drop,
}
use dhtdynamic_audit_strateg.CoreLib.Crypto.{Sm9}
use dhtdynamic_audit_strateg.Common.{
  segment, segment_count, segment_size, add_segments, accumulate_block_segments_scalar, assign_if,
}

-- A piece filled up with zeros to the size of a segment, and the next `count` pieces of some bytes.
abbrev pub padded : List ℕ → List ℕ
padded piece = piece ++ replicate (segment_size - length piece) 0

abbrev chunks : ℕ → List ℕ → List (List ℕ)
chunks zero bytes = []
chunks (suc count) bytes = padded (take segment_size bytes) ∷ chunks count (drop segment_size bytes)

-- A block cut into pieces until no byte is left; the fuel is the number of bytes.
unfoldable pub pieces : ℕ → List ℕ → List (List ℕ)
pieces zero bytes = []
pieces (suc fuel) [] = []
pieces (suc fuel) (b ∷ bytes) =
    padded (take segment_size (b ∷ bytes)) ∷ pieces fuel (drop segment_size (b ∷ bytes))

-- As many pieces are cut as segments that cover the bytes.
chunks-pieces :
    (fuel count : ℕ) (bytes : List ℕ)
    → count * 32 < length bytes + 32
    → length bytes ≤ count * 32
    → length bytes ≤ fuel
    → chunks count bytes ≡ pieces fuel bytes
unfolding pieces
chunks-pieces zero zero bytes low high room = refl
chunks-pieces zero (suc count) bytes low high room = absurd (omega arith)
chunks-pieces (suc fuel) zero [] low high room = refl
chunks-pieces (suc fuel) (suc count) [] low high room = absurd (omega arith)
chunks-pieces (suc fuel) zero (b ∷ bytes) low high room = absurd (omega arith)
chunks-pieces (suc fuel) (suc count) (b ∷ bytes) low high room =
    let left = length-drop 32 (b ∷ bytes) in
    ap (◌∷◌ (padded (take 32 (b ∷ bytes)))) (
      chunks-pieces fuel count (drop 32 (b ∷ bytes)) (omega (arith, left)) (omega (arith, left))
        (omega (arith, left)))

take-min : (n : ℕ) (xs : List ℕ) → take (min n (length xs)) xs ≡ take n xs
take-min zero xs = let e : min 0 (length xs) ≡ 0 = omega arith in rw e refl
take-min (suc n) [] = let e : min (suc n) 0 ≡ 0 = omega arith in rw e refl
take-min (suc n) (x ∷ xs) =
    let e : min (suc n) (suc (length xs)) ≡ suc (min n (length xs)) = omega arith in
    rw e (ap (◌∷◌ x) (take-min n xs))

segment-padded : (block : List ℕ) (j : ℕ) → segment block j ≡ padded (take 32 (drop (j * 32) block))
unfolding segment
segment-padded block j =
    let rest = drop (j * 32) block in
    let e : length block - j * 32 ≡ length rest = omega (arith, length-drop (j * 32) block) in
    let f : 32 - min 32 (length rest) ≡ 32 - length (take 32 rest) =
      omega (arith, length-take 32 rest) in
    rw (e, f, take-min 32 rest) refl

module _ ⦃sm9 : Sm9⦄ where
  open sm9 use {Scalar, scalar_zero, scalar_of_bytes, scalar_add}

  abbrev pub add_chunk : Scalar → List ℕ → Scalar
  add_chunk sum piece = assign_if sum (scalar_add sum (scalar_of_bytes piece))

  add_segments-foldl :
      (block : List ℕ) (rounds j : ℕ) (sum : Scalar)
      → add_segments block rounds j sum ≡ foldl add_chunk sum (chunks rounds (drop (j * 32) block))
  unfolding add_segments
  add_segments-foldl block zero j sum = refl
  add_segments-foldl block (suc rounds) j sum =
      let e : suc j * 32 ≡ j * 32 + 32 = omega arith in
      let f : drop 32 (drop (j * 32) block) ≡ drop (suc j * 32) block =
        rw e (drop-drop (j * 32) 32 block) in
      rw (segment-padded block j, f)
        (add_segments-foldl block rounds (suc j)
          (add_chunk sum (padded (take 32 (drop (j * 32) block)))))

  -- The loop over the offsets of a block, which copies each segment into a buffer of zeros, gives what
  -- adding up its pieces gives: the block is cut into pieces of 32 bytes until no byte is left, and
  -- the last is filled up with zeros. This is so for every block, the empty one too, and where
  -- additions fail.
  pub accumulate_block_segments-foldl :
      (block : List ℕ)
      → accumulate_block_segments_scalar block
        ≡ foldl add_chunk scalar_zero (pieces (length block) block)
  unfolding accumulate_block_segments_scalar segment_count
  accumulate_block_segments-foldl block =
      let count = (length block + segment_size - 1) / segment_size in
      add_segments-foldl block count 0 scalar_zero
      ∙ ap (foldl add_chunk scalar_zero)
          (chunks-pieces (length block) count block (omega arith) (omega arith) (omega arith))
