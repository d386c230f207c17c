-- ===== src/Base/Tests.antt =====
-- Boolean tests on numbers, the conditional, and the arithmetic of `std::size_t` (64 bits).
use Prim.Native.Nat.{ℕ, ◌+◌, ◌-◌, ◌%◌, ◌^◌, ◌<◌, ◌≤◌, compare, Ordering}
use mathlib.Core.Path.{◌≡◌, refl}
use mathlib.Core.Logic.{◌↔◌, ◌⊎◌, inl, inr}
use mathlib.Core.Bool.{Bool, true, false}
use mathlib.Core.Option.{Option, none, some}
use native.Mathlib.Omega.{arith}

abbrev pub ltb : ℕ → ℕ → Bool
ltb a b = elim (compare a b) [ Ordering.lt ↦ true | _ ↦ false ]

abbrev pub leb : ℕ → ℕ → Bool
leb a b = elim (compare a b) [ Ordering.gt ↦ false | _ ↦ true ]

infix 50 ◌==◌
abbrev pub ◌==◌ : ℕ → ℕ → Bool
a == b = elim (compare a b) [ Ordering.eq ↦ true | _ ↦ false ]

infix 1 if◌then◌else◌
abbrev pub if◌then◌else◌ {ℓ} : {A : Type ℓ} → Bool → A → A → A
if true then x else y = x
if false then x else y = y

pub ltb→lt : (a b : ℕ) → ltb a b ≡ true → a < b
ltb→lt a b h = ground arith

pub leb→le : (a b : ℕ) → leb a b ≡ true → a ≤ b
leb→le a b h = ground arith

pub lt→ltb : (a b : ℕ) → a < b → ltb a b ≡ true
lt→ltb a b h = ground arith

pub ==_iff : (a b : ℕ) → ((a == b) ≡ true) ↔ (a ≡ b)
==_iff a b = ground arith

pub Bool-cases : (b : Bool) → (b ≡ true) ⊎ (b ≡ false)
Bool-cases true = inl refl
Bool-cases false = inr refl

pub Option-cases {ℓ} : {A : Type ℓ} (o : Option A) → (o ≡ none) ⊎ ((a : A) × (o ≡ some a))
Option-cases none = inl refl
Option-cases (some a) = inr (a, refl)

-- One more than the largest `std::size_t` (and `std::uint64_t`).
abbrev pub word_mod : ℕ
word_mod = 2 ^ 64

-- `x + 1` and `x - 1` on `std::size_t`: both wrap.
unfoldable pub word_suc : ℕ → ℕ
word_suc x = (x + 1) % word_mod

unfoldable pub word_pred : ℕ → ℕ
word_pred x = (x + word_mod - 1) % word_mod

pub word_suc-eq : (x : ℕ) → x + 1 < word_mod → word_suc x ≡ x + 1
unfolding word_suc
word_suc-eq x h = omega arith

pub word_pred-eq : (x : ℕ) → 0 < x → x < word_mod → word_pred x ≡ x - 1
unfolding word_pred
word_pred-eq x p h = omega arith

-- `x - y` of two words.
unfoldable pub word_sub : ℕ → ℕ → ℕ
word_sub x y = (x + word_mod - y) % word_mod

pub word_sub-eq : (x y : ℕ) → y ≤ x → x < word_mod → word_sub x y ≡ x - y
unfolding word_sub
word_sub-eq x y le lt = omega arith

pub word_pred-zero : word_pred 0 ≡ 18_446_744_073_709_551_615
unfolding word_pred
word_pred-zero = refl
