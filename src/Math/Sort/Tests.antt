-- ===== src/Math/Sort/Tests.antt =====
-- Runs of the sorts and of the searches, and the theorems at an array.
use mathlib.Core.List.{Perm}
use ytlib.Base.{ℕ, ◌≤◌, ◌<◌, ◌≡◌, ◌≢◌, ◌⊎◌, refl, List, [], ◌∷◌, arith, length}
use ytlib.Math.Sort.{
  bubble_pass, bubble_rounds, bubble_sort, sort_two, merge_loop, copy_back, merge_halves,
  merge_sort, search_first, search_last, binary_search, binary_search_last,
}
use ytlib.Base.Arrays.{at as cell, swap, IsSameBag}
use ytlib.Math.Sort.QuickSort.{quick_sort, partition, scan_down, scan_up, swap_apart}
use ytlib.Math.Sort.QuickSort.Order.{quick_sort_lem}
use ytlib.Math.Sort.Sorted.{Sorted}
use ytlib.Math.Sort.Merge.{merge_sort_lem}
use ytlib.Math.Sort.Search.{at, binary_search_lem}

abbrev key : ℕ → ℕ
key x = x

abbrev arr : List ℕ
arr = 5 ∷ 1 ∷ 4 ∷ 1 ∷ 3 ∷ []

abbrev sorted : List ℕ
sorted = 1 ∷ 1 ∷ 3 ∷ 4 ∷ 5 ∷ []

bubble_arr : bubble_sort key arr ≡ sorted
unfolding bubble_sort bubble_rounds bubble_pass
bubble_arr = refl

quick_arr : quick_sort 5 arr 0 5 ≡ sorted
unfolding quick_sort partition scan_down scan_up swap_apart swap
quick_arr = refl

merge_arr : merge_sort key 5 arr ≡ sorted
unfolding merge_sort merge_halves merge_loop copy_back sort_two
merge_arr = refl

-- Of two elements with one key, the sort puts the later one first.
merge_swaps :
    merge_sort {A = ℕ × ℕ} (λ p. p.0) 3 ((1, 0) ∷ (2, 0) ∷ (1, 1) ∷ [])
    ≡ (1, 1) ∷ (1, 0) ∷ (2, 0) ∷ []
unfolding merge_sort merge_halves merge_loop copy_back sort_two
merge_swaps = refl

first_one : binary_search sorted 1 ≡ 0
unfolding binary_search search_first
first_one = refl

last_one : binary_search_last sorted 1 ≡ 1
unfolding binary_search_last search_last
last_one = refl

no_two : binary_search sorted 2 ≡ 5
unfolding binary_search search_first
no_two = refl

sorted-Sorted : Sorted key sorted
sorted-Sorted = omega arith

merge_sort_lem_example : Sorted key (merge_sort key 5 arr) × Perm (merge_sort key 5 arr) arr
merge_sort_lem_example = merge_sort_lem key 5 arr (omega arith)

binary_search_lem_example :
    ((binary_search sorted 1 < length sorted)
      × (at sorted (binary_search sorted 1) ≡ 1)
      × ((i : ℕ) → i < binary_search sorted 1 → at sorted i < 1))
    ⊎ ((binary_search sorted 1 ≡ length sorted) × ((i : ℕ) → i < length sorted → at sorted i ≢ 1))
binary_search_lem_example = binary_search_lem sorted 1 sorted-Sorted

quick_sort_lem_example :
    ((i j : ℕ) → i ≤ j → j < 5 → cell (quick_sort 5 arr 0 5) i ≤ cell (quick_sort 5 arr 0 5) j)
    × IsSameBag (quick_sort 5 arr 0 5) arr
    × (length (quick_sort 5 arr 0 5) ≡ 5)
quick_sort_lem_example = quick_sort_lem arr
