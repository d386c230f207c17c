-- ===== src/Common/Segments.antt =====
-- The segments of a block, joined.
use mathlib.Core.List.{append-nil, append_assoc}
use dhtdynamic_audit_strateg.Base.{
  ℕ, zero, suc, ◌+◌, ◌-◌, ◌*◌, ◌/◌, ◌≤◌, ◌<◌, ◌≡◌, refl, ap, ◌∙◌, List, [], ◌∷◌, ◌++◌, arith, min,
  length, drop, replicate, length-drop, take-all, take-append-drop, drop-drop,
}
use dhtdynamic_audit_strateg.Common.{segment, segment_count, segment_size}

-- The segments from `j` on, `rounds` of them, one after the other.
abbrev pub segments_from : List ℕ → ℕ → ℕ → List ℕ
segments_from block zero j = []
segments_from block (suc rounds) j = segment block j ++ segments_from block rounds (suc j)

full_segment :
    (block : List ℕ) (j : ℕ)
    → suc j * 32 ≤ length block
    → segment block j ++ drop (suc j * 32) block ≡ drop (j * 32) block
unfolding segment
full_segment block j h =
    let e : min 32 (length block - j * 32) ≡ 32 = omega arith in
    let g : suc j * 32 ≡ j * 32 + 32 = omega arith in
    rw (e, append-nil, g, ← drop-drop (j * 32) 32 block) (take-append-drop 32 (drop (j * 32) block))

last_segment :
    (block : List ℕ) (j : ℕ)
    → j * 32 < length block
    → length block ≤ suc j * 32
    → segment block j ≡ drop (j * 32) block ++ replicate (suc j * 32 - length block) 0
unfolding segment
last_segment block j low high =
    let e : min 32 (length block - j * 32) ≡ length block - j * 32 = omega arith in
    let f : 32 - (length block - j * 32) ≡ suc j * 32 - length block = omega arith in
    rw
      (
        e,
        f,
        take-all (length block - j * 32) (drop (j * 32) block)
            (omega (arith, length-drop (j * 32) block)),
      )
      refl

join_from :
    (block : List ℕ) (rounds j : ℕ)
    → (j + rounds) * 32 < length block
    → length block ≤ (j + suc rounds) * 32
    → segments_from block (suc rounds) j
      ≡ drop (j * 32) block ++ replicate ((j + suc rounds) * 32 - length block) 0
join_from block zero j low high =
    let e : j + 1 ≡ suc j = omega arith in
    rw e (append-nil _ ∙ last_segment block j (omega arith) (omega arith))
join_from block (suc rounds) j low high =
    let e : j + suc (suc rounds) ≡ suc j + suc rounds = omega arith in
    rw (e, join_from block rounds (suc j) (omega arith) (omega arith), ← append_assoc)
      (ap (λ xs. xs ++ replicate ((suc j + suc rounds) * 32 - length block) 0)
        (full_segment block j (omega arith)))

-- The segments of a block, joined, are the block followed by zeros up to a whole number of segments.
pub join_segments :
    (block : List ℕ)
    → segments_from block (segment_count block) 0
      ≡ block ++ replicate (segment_count block * segment_size - length block) 0
unfolding segment_count
join_segments [] = refl
join_segments (x ∷ xs) =
    let n = (length xs + 32) / 32 in
    let e : (length (x ∷ xs) + 32 - 1) / 32 ≡ suc (n - 1) = omega arith in
    let f : 0 + suc (n - 1) ≡ suc (n - 1) = omega arith in
    rw e (rw f at (join_from (x ∷ xs) (n - 1) 0 (omega arith) (omega arith)))
