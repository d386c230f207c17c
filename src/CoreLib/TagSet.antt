-- ===== src/CoreLib/TagSet.antt =====
-- The interface of `Tags` and `InMemoryTags`: a sparse map from 0-based indices to tags.
use dhtdynamic_audit_strateg.Base.{ℕ, ◌≡◌, Option, none, some, ◌==◌, if◌then◌else◌}

pub record TagSets (Tag : Type 0) : Type 1 where
  pub Tags : Type 0
  pub no_tags : Tags
  pub set_tag : Tags → ℕ → Tag → Tags
  -- `none` where the index is not contained.
  pub tag_at : Tags → ℕ → Option Tag
  pub tag_at-no_tags : (i : ℕ) → tag_at no_tags i ≡ none
  pub tag_at-set_tag :
      (t : Tags) (i j : ℕ) (tag : Tag)
      → tag_at (set_tag t i tag) j ≡ (if i == j then some tag else tag_at t j)
