-- ===== src/Challenges/Coefficients.antt =====
-- The coefficients of a challenge, and their sum.
use dhtdynamic_audit_strateg.Base.{ℕ, zero, suc, ◌≡◌, refl, ap, false, List, [], ◌∷◌}
use dhtdynamic_audit_strateg.Run.{ended, Holds, Holds-bind, Holds-if}
use dhtdynamic_audit_strateg.CoreLib.Crypto.{Sm9}
use dhtdynamic_audit_strateg.CoreLib.Random.{Randomness}
use dhtdynamic_audit_strateg.Keys.{nonzero_scalar}
use dhtdynamic_audit_strateg.Keys.Laws.{IsNonzero, nonzero_scalar_lem}
use dhtdynamic_audit_strateg.Challenges.{draw_coefficients, draw_rounds}

module _ ⦃randomness : Randomness⦄ ⦃sm9 : Sm9⦄ where
  open sm9 use {Scalar, is_zero, scalar_of_bytes, scalar_default, scalar_sum}
  open randomness use {random_bytes}

  abbrev pub AllNonzero : List (ℕ × Scalar) → Type 0
  AllNonzero [] = Unit
  AllNonzero ((i, v) ∷ items) = (is_zero v ≡ false) × AllNonzero items

  abbrev pub indices_of : List (ℕ × Scalar) → List ℕ
  indices_of [] = []
  indices_of ((i, v) ∷ items) = i ∷ indices_of items

  abbrev pub sum_of : Scalar → List (ℕ × Scalar) → Scalar
  sum_of nu [] = nu
  sum_of nu ((i, v) ∷ items) = sum_of (scalar_sum nu v) items

  -- What a round draws.
  abbrev pub IsRound : List ℕ → Scalar → List (ℕ × Scalar) × Scalar × ℕ → Type 0
  IsRound indices nu r = AllNonzero r.0 × (indices_of r.0 ≡ indices) × (r.1 ≡ sum_of nu r.0)

  draw_coefficients-IsRound :
      (fuel : ℕ) (indices : List ℕ) (nu : Scalar) (k : ℕ)
      → Holds (IsRound indices nu) (draw_coefficients fuel indices nu k)
  unfolding draw_coefficients
  draw_coefficients-IsRound fuel [] nu k = (tt, refl, refl)
  draw_coefficients-IsRound fuel (i ∷ indices) nu k =
      Holds-bind IsNonzero (IsRound (i ∷ indices) nu) (nonzero_scalar fuel k) _
        (nonzero_scalar_lem fuel k)
        (λ p z.
          Holds-bind (IsRound indices (scalar_sum nu p.0)) (IsRound (i ∷ indices) nu)
            (draw_coefficients fuel indices (scalar_sum nu p.0) p.1) _
            (draw_coefficients-IsRound fuel indices (scalar_sum nu p.0) p.1)
            (λ r h. ((z, h.0), ap (λ is. i ∷ is) h.1, h.2)))

  -- What the rounds come to.
  abbrev pub IsDrawn : List ℕ → List (ℕ × Scalar) × ℕ → Type 0
  IsDrawn indices r =
      AllNonzero r.0 × (indices_of r.0 ≡ indices) × (is_zero (sum_of scalar_default r.0) ≡ false)

  pub draw_rounds-IsDrawn :
      (fuel rounds : ℕ) (indices : List ℕ) (k : ℕ)
      → Holds (IsDrawn indices) (draw_rounds fuel rounds indices k)
  unfolding draw_rounds
  draw_rounds-IsDrawn fuel zero indices k = tt
  draw_rounds-IsDrawn fuel (suc rounds) indices k =
      Holds-bind (IsRound indices scalar_default) (IsDrawn indices)
        (draw_coefficients fuel indices scalar_default k) _
        (draw_coefficients-IsRound fuel indices scalar_default k)
        (λ r h.
          Holds-if (IsDrawn indices) (is_zero r.1) (draw_rounds fuel rounds indices r.2)
            (ended (r.0, r.2)) (λ z. draw_rounds-IsDrawn fuel rounds indices r.2)
            (λ z. (h.0, h.1, rw (← h.2) z)))
