-- ===== src/Tags/Targets.antt =====
-- `resolveTargetBlockIndices` of generate_tags.cpp: which blocks of the window get a tag.
pub mod Laws
use dhtdynamic_audit_strateg.Base.{
  ℕ, zero, suc, ◌+◌, ◌-◌, ◌%◌, Bool, true, false, ◌&&◌, ◌||◌, Option, none, some, List, [], ◌∷◌,
  ltb, leb, ◌==◌, if◌then◌else◌, word_mod,
}
use dhtdynamic_audit_strateg.Exec.{Result, ok, err, index_out_of_window, indices_not_distinct}

-- `windowStart + i + 1` for each block of the window.
unfoldable pub window_indices : ℕ → ℕ → ℕ → List ℕ
window_indices window_start zero i = []
window_indices window_start (suc rounds) i =
    ((window_start + i + 1) % word_mod) ∷ window_indices window_start rounds (suc i)

abbrev pub in_window : ℕ → ℕ → ℕ → Bool
in_window window_start block_count index =
    ltb window_start index && leb (index - window_start) block_count

abbrev pub all_in_window : ℕ → ℕ → List ℕ → Bool
all_in_window window_start block_count [] = true
all_in_window window_start block_count (b ∷ bs) =
    in_window window_start block_count b && all_in_window window_start block_count bs

-- `std::sort`.
unfoldable pub insert_sorted : ℕ → List ℕ → List ℕ
insert_sorted x [] = x ∷ []
insert_sorted x (y ∷ ys) = let rest = insert_sorted x ys in if leb x y then x ∷ y ∷ ys else y ∷ rest

unfoldable pub sort : List ℕ → List ℕ
sort [] = []
sort (x ∷ xs) = insert_sorted x (sort xs)

-- `std::adjacent_find(...) != end`.
unfoldable pub has_adjacent : List ℕ → Bool
has_adjacent [] = false
has_adjacent (x ∷ []) = false
has_adjacent (x ∷ y ∷ ys) = x == y || has_adjacent (y ∷ ys)

unfoldable pub resolve_target_block_indices : Option (List ℕ) → ℕ → ℕ → Result (List ℕ)
unfolding window_indices sort has_adjacent
resolve_target_block_indices none window_start block_count =
    ok (window_indices window_start block_count 0)
resolve_target_block_indices (some []) window_start block_count =
    ok (window_indices window_start block_count 0)
resolve_target_block_indices (some (b ∷ bs)) window_start block_count =
    if all_in_window window_start block_count (b ∷ bs)
    then (let indices = sort (b ∷ bs) in
        if has_adjacent indices then err indices_not_distinct else ok indices)
    else err index_out_of_window
