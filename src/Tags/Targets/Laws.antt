-- ===== src/Tags/Targets/Laws.antt =====
-- What is accepted as a selector of blocks, and what comes of it.
use mathlib.Core.List.{Mem, Nodup, Perm, mem-cons_self, mem-cons_of_mem, Nodup-cons}
use mathlib.Core.List.Perm
use dhtdynamic_audit_strateg.Base.{
  ℕ, zero, suc, ◌+◌, ◌%◌, ◌≤◌, ◌<◌, ◌≡◌, refl, ◌⊎◌, inl, inr, true, false, ◌||◌, Option, none, some,
  List, [], ◌∷◌, arith, leb, ◌==◌, ==_iff, Bool-cases, word_mod,
}
use dhtdynamic_audit_strateg.Exec.{ok, err, index_out_of_window, indices_not_distinct}
use dhtdynamic_audit_strateg.Tags.Targets.{
  window_indices, in_window, all_in_window, insert_sorted, sort, has_adjacent,
  resolve_target_block_indices,
}

-- Strictly ascending, from `low` up to but not including `high`.
abbrev pub Ascending : ℕ → ℕ → List ℕ → Type 0
Ascending low high [] = Unit
Ascending low high (b ∷ bs) = (low ≤ b) × (b < high) × Ascending (suc b) high bs

-- Ascending, with repetitions.
abbrev Sorted : ℕ → List ℕ → Type 0
Sorted low [] = Unit
Sorted low (b ∷ bs) = (low ≤ b) × Sorted b bs

insert_sorted-Sorted :
    (low x : ℕ) (ys : List ℕ) → low ≤ x → Sorted low ys → Sorted low (insert_sorted x ys)
unfolding insert_sorted
insert_sorted-Sorted low x [] h s = (h, tt)
insert_sorted-Sorted low x (y ∷ ys) h s = ground (arith, insert_sorted-Sorted y x ys)

sort-Sorted : (xs : List ℕ) → Sorted 0 (sort xs)
unfolding sort
sort-Sorted [] = tt
sort-Sorted (x ∷ xs) = insert_sorted-Sorted 0 x (sort xs) (omega arith) (sort-Sorted xs)

insert_sorted-perm : (x : ℕ) (ys : List ℕ) → Perm (insert_sorted x ys) (x ∷ ys)
unfolding insert_sorted
insert_sorted-perm x [] = Perm.refl (x ∷ [])
insert_sorted-perm x (y ∷ ys) = elim (Bool-cases (leb x y)) [
  | inl first ↦ rw first (Perm.refl _)
  | inr later ↦ rw later (Perm.trans (Perm.cons y (insert_sorted-perm x ys)) (Perm.swap x y ys))
]

pub sort-perm : (xs : List ℕ) → Perm (sort xs) xs
unfolding sort
sort-perm [] = Perm.refl []
sort-perm (x ∷ xs) = Perm.trans (insert_sorted-perm x (sort xs)) (Perm.cons x (sort-perm xs))

abbrev pub All {ℓ} : (ℕ → Type ℓ) → List ℕ → Type ℓ
All P [] = Unit
All P (x ∷ xs) = P x × All P xs

insert_sorted-All :
    (P : ℕ → Type 0) (x : ℕ) (ys : List ℕ) → P x → All P ys → All P (insert_sorted x ys)
unfolding insert_sorted
insert_sorted-All P x [] p h = (p, tt)
insert_sorted-All P x (y ∷ ys) p h = elim (Bool-cases (leb x y)) [
  | inl first ↦ rw first (p, h)
  | inr later ↦ rw later (h.0, insert_sorted-All P x ys p h.1)
]

sort-All : (P : ℕ → Type 0) (xs : List ℕ) → All P xs → All P (sort xs)
unfolding sort
sort-All P [] h = tt
sort-All P (x ∷ xs) h = insert_sorted-All P x (sort xs) h.0 (sort-All P xs h.1)

raise_low : (low : ℕ) (xs : List ℕ) → Sorted 0 xs → All (λ b. low ≤ b) xs → Sorted low xs
raise_low low [] s h = tt
raise_low low (x ∷ xs) s h = (h.0, s.1)

-- Sorted, with no two equal neighbours.
Ascending-of_Sorted :
    (low high : ℕ) (xs : List ℕ)
    → Sorted low xs
    → has_adjacent xs ≡ false
    → All (λ b. b < high) xs
    → Ascending low high xs
unfolding has_adjacent
Ascending-of_Sorted low high [] s h a = tt
Ascending-of_Sorted low high (x ∷ []) s h a = (s.0, a.0, tt)
Ascending-of_Sorted low high (x ∷ y ∷ ys) s h a = (
  s.0,
  a.0,
  Ascending-of_Sorted (suc x) high (y ∷ ys) (later_above x y ys s.1 h, s.1.1) (later_apart x y ys h)
      a.1,
)
  where
    later_above :
        (x y : ℕ) (ys : List ℕ)
        → Sorted x (y ∷ ys)
        → (x == y || has_adjacent (y ∷ ys)) ≡ false
        → suc x ≤ y
    later_above x y ys s h = ground arith

    later_apart :
        (x y : ℕ) (ys : List ℕ)
        → (x == y || has_adjacent (y ∷ ys)) ≡ false
        → has_adjacent (y ∷ ys) ≡ false
    later_apart x y ys h = ground arith

-- The blocks of the window that starts at `window_start`, counted from 1.
abbrev pub InWindow : ℕ → ℕ → ℕ → Type 0
InWindow window_start block_count b = (window_start < b) × (b ≤ window_start + block_count)

window_indices-Ascending :
    (window_start n i : ℕ)
    → window_start + i + n < word_mod
    → Ascending (window_start + i + 1) (window_start + i + n + 1) (window_indices window_start n i)
unfolding window_indices
window_indices-Ascending w zero i h = tt
window_indices-Ascending w (suc n) i h =
    let e : (w + i + 1) % word_mod ≡ w + i + 1 = omega arith in
    let f : w + suc i + 1 ≡ suc (w + i + 1) = omega arith in
    let g : w + suc i + n + 1 ≡ w + i + suc n + 1 = omega arith in
    rw e
      (omega arith, omega arith, rw (f, g) at (window_indices-Ascending w n (suc i) (omega arith)))

all_in_window-All : (w n : ℕ) (bs : List ℕ) → all_in_window w n bs ≡ true → All (InWindow w n) bs
all_in_window-All w n [] h = tt
all_in_window-All w n (b ∷ bs) h = (ground arith, all_in_window-All w n bs (ground arith))

outside :
    (w n : ℕ) (bs : List ℕ) → all_in_window w n bs ≡ false → (b : ℕ) × Mem b bs × (¬ InWindow w n b)
outside w n [] h = cc
outside w n (b ∷ bs) h = elim (Bool-cases (in_window w n b)) [
  | inl here ↦ let (c, m, o) = outside w n bs (rw here at h) in (c, mem-cons_of_mem b m, o)
  | inr there ↦ (b, mem-cons_self, λ i. ground arith)
]

Nodup-adjacent : (xs : List ℕ) → Nodup xs → has_adjacent xs ≡ false
unfolding has_adjacent
Nodup-adjacent [] d = refl
Nodup-adjacent (x ∷ []) d = refl
Nodup-adjacent (x ∷ y ∷ ys) d = elim (Bool-cases (x == y)) [
  | inl same ↦ absurd ((Nodup-cons.0 d).0 rw ((==_iff x y).0 same) mem-cons_self)
  | inr differs ↦ rw differs (Nodup-adjacent (y ∷ ys) (Nodup-cons.0 d).1)
]

All-low : (w n : ℕ) (bs : List ℕ) → All (InWindow w n) bs → All (λ b. w + 1 ≤ b) bs
All-low w n [] h = tt
All-low w n (b ∷ bs) h = (omega arith, All-low w n bs h.1)

All-high : (w n : ℕ) (bs : List ℕ) → All (InWindow w n) bs → All (λ b. b < w + n + 1) bs
All-high w n [] h = tt
All-high w n (b ∷ bs) h = (omega arith, All-high w n bs h.1)

accepted :
    (w n : ℕ) (bs : List ℕ)
    → All (InWindow w n) bs
    → has_adjacent (sort bs) ≡ false
    → Ascending (w + 1) (w + n + 1) (sort bs)
accepted w n bs h apart =
    let within = sort-All (InWindow w n) bs h in
    Ascending-of_Sorted (w + 1) (w + n + 1) (sort bs)
      (raise_low (w + 1) (sort bs) (sort-Sorted bs) (All-low w n (sort bs) within)) apart
      (All-high w n (sort bs) within)

-- A selector that is not empty has one of three fates. It is rejected as out of the window, and one
-- of its indices is not in the window; or it is rejected as not distinct, and all its indices are in
-- the window, and some index occurs twice; or its own indices come out, strictly ascending and all
-- in the window.
pub resolve_cases :
    (w n b : ℕ) (bs : List ℕ)
    → ((resolve_target_block_indices (some (b ∷ bs)) w n ≡ err index_out_of_window)
        × ((c : ℕ) × Mem c (b ∷ bs) × (¬ InWindow w n c)))
      ⊎ ((resolve_target_block_indices (some (b ∷ bs)) w n ≡ err indices_not_distinct)
          × All (InWindow w n) (b ∷ bs)
          × (¬ Nodup (b ∷ bs)))
      ⊎ ((cs : List ℕ) × (resolve_target_block_indices (some (b ∷ bs)) w n ≡ ok cs)
          × Perm cs (b ∷ bs)
          × Ascending (w + 1) (w + n + 1) cs)
unfolding resolve_target_block_indices
resolve_cases w n b bs = elim (Bool-cases (all_in_window w n (b ∷ bs))) [
  | inr out ↦ inl (rw out refl, outside w n (b ∷ bs) out)
  | inl within ↦ elim (Bool-cases (has_adjacent (sort (b ∷ bs)))) [
    | inl twice ↦ inr (
        inl (
          rw (within, twice) refl,
          all_in_window-All w n (b ∷ bs) within,
          λ d.
              let apart =
                Nodup-adjacent (sort (b ∷ bs)) (Perm.nodup (Perm.symm (sort-perm (b ∷ bs))) d) in
              cc,
        ))
    | inr apart ↦ inr (
        inr (
          sort (b ∷ bs),
          rw (within, apart) refl,
          sort-perm (b ∷ bs),
          accepted w n (b ∷ bs) (all_in_window-All w n (b ∷ bs) within) apart,
        ))
  ]
]

selected :
    (w n b : ℕ) (bs cs : List ℕ)
    → resolve_target_block_indices (some (b ∷ bs)) w n ≡ ok cs
    → Ascending (w + 1) (w + n + 1) cs
selected w n b bs cs h = elim (resolve_cases w n b bs) [
  | inl (out, c) ↦ cc
  | inr (inl (twice, a, d)) ↦ cc
  | inr (inr (ds, e, p, asc)) ↦ let same : ds ≡ cs = cc in rw (← same) asc
]

whole :
    (w n : ℕ) (cs : List ℕ)
    → w + n < word_mod
    → ok (window_indices w n 0) ≡ ok cs
    → Ascending (w + 1) (w + n + 1) cs
whole w n cs room h =
    let e : window_indices w n 0 ≡ cs = cc in
    let f : w + 0 ≡ w = omega arith in
    rw (← e) (rw f at (window_indices-Ascending w n 0 (omega arith)))

-- Whatever comes out of a selector, absent, empty or not, is strictly ascending and in the window,
-- for a window whose indices are `std::size_t`.
pub resolve-Ascending :
    (selector : Option (List ℕ)) (w n : ℕ) (cs : List ℕ)
    → w + n < word_mod
    → resolve_target_block_indices selector w n ≡ ok cs
    → Ascending (w + 1) (w + n + 1) cs
unfolding resolve_target_block_indices
resolve-Ascending none w n cs room h = whole w n cs room h
resolve-Ascending (some []) w n cs room h = whole w n cs room h
resolve-Ascending (some (b ∷ bs)) w n cs room h = selected w n b bs cs h
