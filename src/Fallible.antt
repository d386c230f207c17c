-- ===== src/Fallible.antt =====
-- A function that keeps no state: it returns, or raises one of its own errors.
use dhtdynamic_audit_strateg.Base.{
  ◌≡◌, refl, ◌⊎◌, inl, inr, Option, none, some, Bool, true, false, if◌then◌else◌,
}

pub data Fallible {ℓ} (E A : Type ℓ) : Type ℓ where
  returned : A → Fallible E A
  raised : E → Fallible E A

module _ {ℓ} {E : Type ℓ} where
  infixl 5 ◌>>=◌
  abbrev pub ◌>>=◌ : {A B : Type ℓ} → Fallible E A → (A → Fallible E B) → Fallible E B
  ◌>>=◌ (returned a) f = f a
  ◌>>=◌ (raised e) f = raised e

  -- A value that may be missing, and the error if it is.
  abbrev pub or_raise : {A : Type ℓ} → E → Option A → Fallible E A
  or_raise e none = raised e
  or_raise e (some a) = returned a

  -- What is true of the value if there is one.
  abbrev pub Returns : {A : Type ℓ} → (A → Type ℓ) → Fallible E A → Type ℓ
  Returns P (returned a) = P a
  Returns P (raised e) = Unit

  -- What is true of the error if there is one.
  abbrev pub Raises : {A : Type ℓ} → (E → Type ℓ) → Fallible E A → Type ℓ
  Raises P (returned a) = Unit
  Raises P (raised e) = P e

  pub Returns-bind :
      {A B : Type ℓ} (P : B → Type ℓ) (m : Fallible E A) (f : A → Fallible E B)
      → ((a : A) → m ≡ returned a → Returns P (f a))
      → Returns P (m >>= f)
  Returns-bind P (returned a) f h = h a refl
  Returns-bind P (raised e) f h = tt

  pub Returns-or_raise :
      {A B : Type ℓ} (P : B → Type ℓ) (e : E) (o : Option A) (f : A → Fallible E B)
      → ((a : A) → o ≡ some a → Returns P (f a))
      → Returns P (or_raise e o >>= f)
  Returns-or_raise P e none f h = tt
  Returns-or_raise P e (some a) f h = h a refl

  pub Returns-if :
      {A : Type ℓ} (P : A → Type ℓ) (b : Bool) (e : E) (m : Fallible E A)
      → (b ≡ false → Returns P m)
      → Returns P (if b then raised e else m)
  Returns-if P true e m h = tt
  Returns-if P false e m h = h refl

  pub Returns-mono :
      {A : Type ℓ} {P Q : A → Type ℓ} (m : Fallible E A)
      → Returns P m
      → ((a : A) → P a → Q a)
      → Returns Q m
  Returns-mono (returned a) h k = k a h
  Returns-mono (raised e) h k = tt

  pub Returns-of_each :
      {A : Type ℓ} (P : A → Type ℓ) (m : Fallible E A)
      → ((a : A) → m ≡ returned a → P a)
      → Returns P m
  Returns-of_each P (returned a) h = h a refl
  Returns-of_each P (raised e) h = tt

  pub Returns-then :
      {A B : Type ℓ} (Q : A → Type ℓ) (P : B → Type ℓ) (m : Fallible E A) (f : A → Fallible E B)
      → Returns Q m
      → ((a : A) → Q a → Returns P (f a))
      → Returns P (m >>= f)
  Returns-then Q P (returned a) f h k = k a h
  Returns-then Q P (raised e) f h k = tt

  pub Fallible-cases :
      {A : Type ℓ} (m : Fallible E A) → ((a : A) × (m ≡ returned a)) ⊎ ((e : E) × (m ≡ raised e))
  Fallible-cases (returned a) = inl (a, refl)
  Fallible-cases (raised e) = inr (e, refl)

-- There is no value: an error is raised.
abbrev pub IsRaised : {E A : Type 0} → Fallible E A → Type 0
IsRaised m = Returns (λ a. ⊥) m
