-- ===== src/Run.antt =====
-- A stage that reads random numbers until it likes them: it returns, throws, or has not yet ended
-- when the fuel is used up.
use dhtdynamic_audit_strateg.Base.{
  ◌≡◌, Bool, true, false, Option, none, some, if◌then◌else◌, Bool-cases, inl, inr,
}
use dhtdynamic_audit_strateg.Exec.{Error, Outcome, done, threw}

pub data Run {ℓ} (A : Type ℓ) : Type ℓ where
  ended : A → Run A
  thrown : Error → Run A
  out_of_fuel : Run A

module _ {ℓ} where
  infixl 5 ◌>>=◌
  abbrev pub ◌>>=◌ : {A B : Type ℓ} → Run A → (A → Run B) → Run B
  ◌>>=◌ (ended a) f = f a
  ◌>>=◌ (thrown e) f = thrown e
  ◌>>=◌ out_of_fuel f = out_of_fuel

  -- A call of the store that reads it.
  abbrev pub of_outcome : {S A : Type ℓ} → Outcome S A → Run A
  of_outcome (done a s) = ended a
  of_outcome (threw e s) = thrown e

  abbrev pub or_out_of_fuel : {A : Type ℓ} → Option A → Run A
  or_out_of_fuel none = out_of_fuel
  or_out_of_fuel (some a) = ended a

  -- What is true of the value if there is one.
  abbrev pub Holds : {A : Type ℓ} → (A → Type ℓ) → Run A → Type ℓ
  Holds P (ended a) = P a
  Holds P (thrown e) = Unit
  Holds P out_of_fuel = Unit

  pub Holds-bind :
      {A B : Type ℓ} (P : A → Type ℓ) (Q : B → Type ℓ) (m : Run A) (f : A → Run B)
      → Holds P m
      → ((a : A) → P a → Holds Q (f a))
      → Holds Q (m >>= f)
  Holds-bind P Q (ended a) f h k = k a h
  Holds-bind P Q (thrown e) f h k = tt
  Holds-bind P Q out_of_fuel f h k = tt

  pub Holds-if :
      {A : Type ℓ} (P : A → Type ℓ) (b : Bool) (m n : Run A)
      → (b ≡ true → Holds P m)
      → (b ≡ false → Holds P n)
      → Holds P (if b then m else n)
  Holds-if P b m n h k = elim (Bool-cases b) [ inl e ↦ rw e (h e) | inr e ↦ rw e (k e) ]
