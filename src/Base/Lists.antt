-- ===== src/Base/Lists.antt =====
-- Lists measured and indexed by native numbers, with insertion and removal at an index.
use Prim.Native.Nat.{ℕ, zero, suc, ◌+◌, ◌-◌, ◌<◌, ◌≤◌, min}
use mathlib.Core.Path.{◌≡◌, refl, ap, ap₂}
use mathlib.Core.List.{List, [], ◌∷◌, ◌++◌}
use mathlib.Core.Option.{Option, none, some}
use native.Mathlib.Omega.{arith}
use dhtdynamic_audit_strateg.Base.Tests.{ltb, ◌==◌, if◌then◌else◌}

module _ {ℓ} {A : Type ℓ} where
  abbrev pub length : List A → ℕ
  length [] = 0
  length (x ∷ xs) = suc (length xs)

  abbrev pub get_elem? : List A → ℕ → Option A
  get_elem? [] i = none
  get_elem? (x ∷ xs) zero = some x
  get_elem? (x ∷ xs) (suc i) = get_elem? xs i

  -- A write out of bounds changes nothing.
  abbrev pub set : List A → ℕ → A → List A
  set [] i v = []
  set (x ∷ xs) zero v = v ∷ xs
  set (x ∷ xs) (suc i) v = x ∷ set xs i v

  abbrev pub insert_idx : List A → ℕ → A → List A
  insert_idx xs zero v = v ∷ xs
  insert_idx [] (suc i) v = []
  insert_idx (x ∷ xs) (suc i) v = x ∷ insert_idx xs i v

  abbrev pub erase_idx : List A → ℕ → List A
  erase_idx [] i = []
  erase_idx (x ∷ xs) zero = xs
  erase_idx (x ∷ xs) (suc i) = x ∷ erase_idx xs i

  abbrev pub take : ℕ → List A → List A
  take zero xs = []
  take (suc n) [] = []
  take (suc n) (x ∷ xs) = x ∷ take n xs

  abbrev pub drop : ℕ → List A → List A
  drop zero xs = xs
  drop (suc n) [] = []
  drop (suc n) (x ∷ xs) = drop n xs

  abbrev pub replicate : ℕ → A → List A
  replicate zero a = []
  replicate (suc n) a = a ∷ replicate n a

module _ {ℓ} {A : Type ℓ} where
  pub length-append : (xs ys : List A) → length (xs ++ ys) ≡ length xs + length ys
  length-append [] ys = omega arith
  length-append (x ∷ xs) ys = omega (arith, length-append xs ys)

  pub length-set : (xs : List A) (i : ℕ) (v : A) → length (set xs i v) ≡ length xs
  length-set [] i v = refl
  length-set (x ∷ xs) zero v = refl
  length-set (x ∷ xs) (suc i) v = ap suc (length-set xs i v)

  pub length-insert_idx :
      (xs : List A) (i : ℕ) (v : A) → i ≤ length xs → length (insert_idx xs i v) ≡ suc (length xs)
  length-insert_idx xs zero v h = refl
  length-insert_idx [] (suc i) v h = absurd (omega arith)
  length-insert_idx (x ∷ xs) (suc i) v h = ap suc (length-insert_idx xs i v (omega arith))

  pub length-erase_idx :
      (xs : List A) (i : ℕ) → i < length xs → suc (length (erase_idx xs i)) ≡ length xs
  length-erase_idx [] i h = absurd (omega arith)
  length-erase_idx (x ∷ xs) zero h = refl
  length-erase_idx (x ∷ xs) (suc i) h = ap suc (length-erase_idx xs i (omega arith))

  pub get_elem?-none : (xs : List A) (i : ℕ) → length xs ≤ i → get_elem? xs i ≡ none
  get_elem?-none [] i h = refl
  get_elem?-none (x ∷ xs) zero h = absurd (omega arith)
  get_elem?-none (x ∷ xs) (suc i) h = get_elem?-none xs i (omega arith)

  pub get_elem?-some : (xs : List A) (i : ℕ) → i < length xs → (a : A) × (get_elem? xs i ≡ some a)
  get_elem?-some [] i h = absurd (omega arith)
  get_elem?-some (x ∷ xs) zero h = (x, refl)
  get_elem?-some (x ∷ xs) (suc i) h = get_elem?-some xs i (omega arith)

  pub get_elem?-set :
      (xs : List A) (i j : ℕ) (v : A)
      → i < length xs
      → get_elem? (set xs i v) j ≡ (if i == j then some v else get_elem? xs j)
  get_elem?-set [] i j v h = absurd (omega arith)
  get_elem?-set (x ∷ xs) zero zero v h = refl
  get_elem?-set (x ∷ xs) zero (suc j) v h = ground arith
  get_elem?-set (x ∷ xs) (suc i) zero v h = ground arith
  get_elem?-set (x ∷ xs) (suc i) (suc j) v h = ground (arith, get_elem?-set xs i j v)

  pub get_elem?-insert_idx :
      (xs : List A) (i j : ℕ) (v : A)
      → i ≤ length xs
      → get_elem? (insert_idx xs i v) j
        ≡ (if ltb j i then get_elem? xs j else if i == j then some v else get_elem? xs (j - 1))
  get_elem?-insert_idx xs zero zero v h = ground arith
  get_elem?-insert_idx xs zero (suc j) v h =
      let e : suc j - 1 ≡ j = omega arith in rw e (ground arith)
  get_elem?-insert_idx [] (suc i) j v h = absurd (omega arith)
  get_elem?-insert_idx (x ∷ xs) (suc i) zero v h = ground arith
  get_elem?-insert_idx (x ∷ xs) (suc zero) (suc zero) v h = ground arith
  get_elem?-insert_idx (x ∷ xs) (suc (suc i)) (suc zero) v h =
      ground (arith, get_elem?-insert_idx xs (suc i) 0 v)
  get_elem?-insert_idx (x ∷ xs) (suc i) (suc (suc j)) v h =
      let e : suc (suc j) - 1 ≡ suc j = omega arith in
      let f : suc j - 1 ≡ j = omega arith in
      rw e (ground (arith, f, get_elem?-insert_idx xs i (suc j) v))

  pub get_elem?-erase_idx :
      (xs : List A) (i j : ℕ)
      → get_elem? (erase_idx xs i) j ≡ (if ltb j i then get_elem? xs j else get_elem? xs (suc j))
  get_elem?-erase_idx [] i j = ground arith
  get_elem?-erase_idx (x ∷ xs) zero j = ground arith
  get_elem?-erase_idx (x ∷ xs) (suc i) zero = ground arith
  get_elem?-erase_idx (x ∷ xs) (suc i) (suc j) = ground (arith, get_elem?-erase_idx xs i j)

  pub get_elem?-replicate :
      (n : ℕ) (a : A) (i : ℕ) → get_elem? (replicate n a) i ≡ (if ltb i n then some a else none)
  get_elem?-replicate zero a i = ground arith
  get_elem?-replicate (suc n) a zero = ground arith
  get_elem?-replicate (suc n) a (suc i) = ground (arith, get_elem?-replicate n a i)

  pub length-replicate : (n : ℕ) (a : A) → length (replicate n a) ≡ n
  length-replicate zero a = refl
  length-replicate (suc n) a = ap suc (length-replicate n a)

  pub length-take : (n : ℕ) (xs : List A) → length (take n xs) ≡ min n (length xs)
  length-take zero xs = omega arith
  length-take (suc n) [] = omega arith
  length-take (suc n) (x ∷ xs) = omega (arith, length-take n xs)

  pub length-drop : (n : ℕ) (xs : List A) → length (drop n xs) ≡ length xs - n
  length-drop zero xs = omega arith
  length-drop (suc n) [] = omega arith
  length-drop (suc n) (x ∷ xs) = omega (arith, length-drop n xs)

  pub take-append-drop : (n : ℕ) (xs : List A) → take n xs ++ drop n xs ≡ xs
  take-append-drop zero xs = refl
  take-append-drop (suc n) [] = refl
  take-append-drop (suc n) (x ∷ xs) = ap (◌∷◌ x) (take-append-drop n xs)

  pub take-all : (n : ℕ) (xs : List A) → length xs ≤ n → take n xs ≡ xs
  take-all zero [] h = refl
  take-all zero (x ∷ xs) h = absurd (omega arith)
  take-all (suc n) [] h = refl
  take-all (suc n) (x ∷ xs) h = ap (◌∷◌ x) (take-all n xs (omega arith))

  pub drop-drop : (n m : ℕ) (xs : List A) → drop m (drop n xs) ≡ drop (n + m) xs
  drop-drop zero m xs = let e : 0 + m ≡ m = omega arith in rw e refl
  drop-drop (suc n) zero [] = let e : suc n + 0 ≡ suc n = omega arith in rw e refl
  drop-drop (suc n) (suc m) [] = let e : suc n + suc m ≡ suc (n + suc m) = omega arith in rw e refl
  drop-drop (suc n) m (x ∷ xs) =
      let e : suc n + m ≡ suc (n + m) = omega arith in rw e (drop-drop n m xs)

  -- Two concatenations with suffixes of one length are equal part by part.
  pub append_injective :
      (xs xs' ys ys' : List A)
      → length ys ≡ length ys'
      → xs ++ ys ≡ xs' ++ ys'
      → (xs ≡ xs') × (ys ≡ ys')
  append_injective [] [] ys ys' h e = (refl, e)
  append_injective [] (x ∷ xs') ys ys' h e =
      absurd (omega (arith, ap length e, length-append xs' ys'))
  append_injective (x ∷ xs) [] ys ys' h e = absurd (omega (arith, ap length e, length-append xs ys))
  append_injective (x ∷ xs) (x' ∷ xs') ys ys' h e =
      let heads : x ≡ x' = cc in
      let tails : xs ++ ys ≡ xs' ++ ys' = cc in
      let (p, q) = append_injective xs xs' ys ys' h tails in (ap₂ ◌∷◌ heads p, q)
