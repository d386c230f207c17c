-- ===== src/CoreLib/Entries.antt =====
-- The snapshot of a sparse collection: its entries, each index at most once.
use dhtdynamic_audit_strateg.Base.{
  ℕ, ◌≤◌, ◌<◌, ◌≡◌, Bool, Option, none, some, List, [], ◌∷◌, arith, ◌==◌, if◌then◌else◌,
}

module _ {ℓ} {V : Type ℓ} where
  unfoldable pub entry_at : ℕ → List (ℕ × V) → Option V
  entry_at k [] = none
  entry_at k ((i, v) ∷ es) = if i == k then some v else entry_at k es

  abbrev pub Distinct : List (ℕ × V) → Type ℓ
  Distinct [] = Unit
  Distinct ((i, v) ∷ es) = (entry_at i es ≡ none) × Distinct es

  abbrev pub KeysBelow : ℕ → List (ℕ × V) → Type 0
  KeysBelow n [] = Unit
  KeysBelow n ((i, v) ∷ es) = (i < n) × KeysBelow n es

  -- The entries whose index passes a test, in order.
  unfoldable pub keep : (ℕ → Bool) → List (ℕ × V) → List (ℕ × V)
  keep p [] = []
  keep p ((i, v) ∷ es) = let rest = keep p es in if p i then (i, v) ∷ rest else rest

module _ {V : Type 0} where
  pub entry_at-keep :
      (p : ℕ → Bool) (k : ℕ) (es : List (ℕ × V))
      → entry_at k (keep p es) ≡ (if p k then entry_at k es else none)
  unfolding entry_at keep
  entry_at-keep p k [] = ground arith
  entry_at-keep p k ((i, v) ∷ es) = ground (arith, entry_at-keep p k es)

  pub keep-Distinct : (p : ℕ → Bool) (es : List (ℕ × V)) → Distinct es → Distinct (keep p es)
  unfolding keep
  keep-Distinct p [] d = tt
  keep-Distinct p ((i, v) ∷ es) d = ground (arith, keep-Distinct p es, entry_at-keep p i es)

  pub keep-KeysBelow :
      (p : ℕ → Bool) (n : ℕ) (es : List (ℕ × V)) → KeysBelow n es → KeysBelow n (keep p es)
  unfolding keep
  keep-KeysBelow p n [] h = tt
  keep-KeysBelow p n ((i, v) ∷ es) h = ground (arith, keep-KeysBelow p n es)

  head_below :
      (n i : ℕ) (v : V) (es : List (ℕ × V))
      → ((k : ℕ) → n ≤ k → entry_at k ((i, v) ∷ es) ≡ none)
      → i < n
  unfolding entry_at
  head_below n i v es h = ground (arith, h i)

  pub KeysBelow-of_none :
      (n : ℕ) (es : List (ℕ × V)) → ((k : ℕ) → n ≤ k → entry_at k es ≡ none) → KeysBelow n es
  unfolding entry_at
  KeysBelow-of_none n [] h = tt
  KeysBelow-of_none n ((i, v) ∷ es) h =
      (head_below n i v es h, KeysBelow-of_none n es (λ k le. ground (arith, h k)))
