-- ===== src/CoreLib/Random.antt =====
-- The sources of randomness: `generateRandom` of the algorithm, the generator `std::mt19937_64` with
-- `std::uniform_int_distribution`, and the order in which a `std::unordered_set` is gone through.
use mathlib.Core.List.{Perm}
use dhtdynamic_audit_strateg.Base.{ℕ, ◌≤◌, Option, List}

pub record Randomness : Type 0 where
  -- What the k-th call of `generateRandom(32)` gives.
  pub random_bytes : ℕ → List ℕ
  -- The k-th draw from 1 to a bound, of a generator with a seed, or with one of the device.
  pub draw : Option ℕ → ℕ → ℕ → ℕ
  pub iteration : List ℕ → List ℕ
  pub draw-bounds : (seed : Option ℕ) (k n : ℕ) → 1 ≤ n → (1 ≤ draw seed k n) × (draw seed k n ≤ n)
  pub iteration-perm : (xs : List ℕ) → Perm (iteration xs) xs
