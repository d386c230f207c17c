-- ===== src/Challenges/Picking.antt =====
-- The loop that picks the indices of a challenge.
use native.Mathlib.Bridge.{le_prop}
use mathlib.Core.List.{Mem, not-mem-nil, mem-cons}
use mathlib.Core.Logic.Or
use dhtdynamic_audit_strateg.Base.{
  ℕ, zero, suc, ◌≤◌, ◌<◌, ◌≡◌, refl, false, Option, some, List, [], ◌∷◌, arith, length, ltb,
  Bool-cases, inl, inr,
}
use dhtdynamic_audit_strateg.CoreLib.Random.{Randomness}
use dhtdynamic_audit_strateg.Challenges.{contains, insert, pick}

-- Different block numbers, all from 1 to `n`.
abbrev pub AreBlocks : ℕ → List ℕ → Type 0
AreBlocks n [] = Unit
AreBlocks n (x ∷ xs) = (1 ≤ x) × (x ≤ n) × (contains x xs ≡ false) × AreBlocks n xs

-- One of the blocks is in range.
pub AreBlocks-Mem : (n b : ℕ) (xs : List ℕ) → AreBlocks n xs → Mem b xs → (1 ≤ b) × (b ≤ n)
AreBlocks-Mem n b [] h m = absurd (not-mem-nil m)
AreBlocks-Mem n b (x ∷ xs) h m =
    Or.elim (hlevel le_prop) (mem-cons.0 m) (λ e. rw e (h.0, h.1)) (λ t. AreBlocks-Mem n b xs h.3 t)

insert-AreBlocks :
    (n x : ℕ) (xs : List ℕ) → 1 ≤ x → x ≤ n → AreBlocks n xs → AreBlocks n (insert x xs)
unfolding insert
insert-AreBlocks n x xs l h a = ground arith

length-insert : (x : ℕ) (xs : List ℕ) → length xs ≤ length (insert x xs)
unfolding insert
length-insert x xs = ground arith

length-insert_le : (x : ℕ) (xs : List ℕ) → length (insert x xs) ≤ suc (length xs)
unfolding insert
length-insert_le x xs = ground arith

module _ ⦃randomness : Randomness⦄ where
  open randomness use {draw, draw-bounds}

  -- The set after `m` more draws.
  unfoldable pub after_draws : Option ℕ → ℕ → ℕ → ℕ → List ℕ → List ℕ
  after_draws seed n zero k picked = picked
  after_draws seed n (suc m) k picked = after_draws seed n m (suc k) (insert (draw seed k n) picked)

  -- What the loop comes to: as many different block numbers as were asked for.
  pub record Picked (n count : ℕ) (o : Option (List ℕ)) : Type 0 where
    pub picked : List ℕ
    pub returns : o ≡ some picked
    pub blocks : AreBlocks n picked
    pub size : length picked ≡ count

  pick-Picked :
      (seed : Option ℕ) (n count m fuel k : ℕ) (picked : List ℕ)
      → 1 ≤ n
      → m < fuel
      → AreBlocks n picked
      → length picked ≤ count
      → count ≤ length (after_draws seed n m k picked)
      → Picked n count (pick seed n count fuel k picked)
  unfolding pick after_draws
  pick-Picked seed n count m zero k picked pos less blocks le enough = absurd (omega arith)
  pick-Picked seed n count zero (suc fuel) k picked pos less blocks le enough = record {
    picked = picked;
    returns = ground arith;
    blocks = blocks;
    size = omega arith;
  }
  pick-Picked seed n count (suc m) (suc fuel) k picked pos less blocks le enough =
      elim (Bool-cases (ltb (length picked) count)) [
        | inr full ↦ record {
          picked = picked;
          returns = rw full refl;
          blocks = blocks;
          size = ground arith;
        }
        | inl room ↦ rw room (
            pick-Picked seed n count m fuel (suc k) (insert (draw seed k n) picked) pos
              (omega arith)
              (insert-AreBlocks n (draw seed k n) picked (draw-bounds seed k n pos).0
                (draw-bounds seed k n pos).1 blocks)
              (ground (arith, length-insert_le (draw seed k n) picked)) enough)
      ]

  -- If the first `m` draws hit `count` different blocks, the loop ends on any fuel above `m`, with
  -- exactly `count` different block numbers from 1 to `n`.
  pub pick_enough :
      (seed : Option ℕ) (n count m fuel k : ℕ)
      → 1 ≤ n
      → m < fuel
      → count ≤ length (after_draws seed n m k [])
      → Picked n count (pick seed n count fuel k [])
  pick_enough seed n count m fuel k pos less enough =
      pick-Picked seed n count m fuel k [] pos less tt (omega arith) enough

  -- However many draws it takes: what is picked when the loop ends.
  pub pick_ended :
      (seed : Option ℕ) (n count fuel k : ℕ) (picked result : List ℕ)
      → 1 ≤ n
      → AreBlocks n picked
      → length picked ≤ count
      → pick seed n count fuel k picked ≡ some result
      → AreBlocks n result × (length result ≡ count)
  unfolding pick
  pick_ended seed n count zero k picked result pos blocks le e = cc
  pick_ended seed n count (suc fuel) k picked result pos blocks le e =
      elim (Bool-cases (ltb (length picked) count)) [
        | inr full ↦ ground arith
        | inl room ↦
            let e' = rw room at e in
            pick_ended seed n count fuel (suc k) (insert (draw seed k n) picked) result pos
              (insert-AreBlocks n (draw seed k n) picked (draw-bounds seed k n pos).0
                (draw-bounds seed k n pos).1 blocks)
              (ground (arith, length-insert_le (draw seed k n) picked)) e'
      ]
