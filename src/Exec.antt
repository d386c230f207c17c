-- ===== src/Exec.antt =====
-- Member functions that change an object and may throw. What was written before a throw stays
-- written, so the state comes back beside the exception too.
use dhtdynamic_audit_strateg.Base.{
  ◌≡◌, refl, ◌⊎◌, inl, inr, Bool, true, false, Option, none, some, if◌then◌else◌,
}

-- The exceptions that the plugin throws, one for each message.
pub data Error : Type 0 where
  -- DynamicHashTableStateStore
  file_exists file_missing block_count_zero block_null : Error
  -- the stages
  ext_missing ext_type file_id_missing store_missing file_unknown op_unsupported : Error
  indices_missing not_versioned index_out_of_window indices_not_distinct : Error
  algorithm_missing random_failed tag_mismatch scalar_mismatch : Error

-- `block_count_zero` is a `std::invalid_argument`; the others are `std::runtime_error`.
abbrev pub is_runtime_error : Error → Bool
is_runtime_error block_count_zero = false
is_runtime_error _ = true

pub data Outcome {ℓ} (S A : Type ℓ) : Type ℓ where
  done : A → S → Outcome S A
  threw : Error → S → Outcome S A

abbrev pub Exec {ℓ} : Type ℓ → Type ℓ → Type ℓ
Exec S A = S → Outcome S A

module _ {ℓ} {S : Type ℓ} where
  abbrev pub continue : {A B : Type ℓ} → Outcome S A → (A → Exec S B) → Outcome S B
  continue (done a s) f = f a s
  continue (threw e s) f = threw e s

  infixl 5 ◌>>=◌ ◌>>◌
  abbrev pub ◌>>=◌ : {A B : Type ℓ} → Exec S A → (A → Exec S B) → Exec S B
  ◌>>=◌ m f s = continue (m s) f

  abbrev pub ◌>>◌ : {A B : Type ℓ} → Exec S A → Exec S B → Exec S B
  ◌>>◌ m k s = continue (m s) (λ _. k)

  -- A value that may be missing, and the exception if it is.
  abbrev pub or_throw : {A : Type ℓ} → Error → Option A → Exec S A
  or_throw e none s = threw e s
  or_throw e (some a) s = done a s

  abbrev pub pure : {A : Type ℓ} → A → Exec S A
  pure a s = done a s

  abbrev pub throw : {A : Type ℓ} → Error → Exec S A
  throw e s = threw e s

  -- The state that a call leaves, whether or not it threw.
  abbrev pub state_after : {A : Type ℓ} → Outcome S A → S
  state_after (done a s) = s
  state_after (threw e s) = s

pub Outcome-cases :
    {S : Type 0} (o : Outcome S (Unit {0}))
    → ((s : S) × (o ≡ done tt s)) ⊎ ((e : Error) × (s : S) × (o ≡ threw e s))
Outcome-cases (done u s) = inl (s, refl)
Outcome-cases (threw e s) = inr (e, s, refl)

-- A computation with no state that may throw.
pub data Result {ℓ} (A : Type ℓ) : Type ℓ where
  ok : A → Result A
  err : Error → Result A

abbrev pub lift {ℓ} : {S A : Type ℓ} → Result A → Exec S A
lift (ok a) s = done a s
lift (err e) s = threw e s

-- `try m catch (const std::runtime_error&) h`: the handler starts from the state that `m` left.
abbrev pub catch_from {ℓ} : {S A : Type ℓ} → Outcome S A → Exec S A → Outcome S A
catch_from (done a s) h = done a s
catch_from (threw e s) h = if is_runtime_error e then h s else threw e s

abbrev pub catch_runtime {ℓ} : {S A : Type ℓ} → Exec S A → Exec S A → Exec S A
catch_runtime m h s = catch_from (m s) h

-- An early `return result;` where a pointer is null.
abbrev pub or_return {ℓ κ} : {A : Type ℓ} {B : Type κ} → Option A → B → (A → B) → B
or_return none r k = r
or_return (some a) r k = k a
