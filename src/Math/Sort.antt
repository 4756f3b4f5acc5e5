-- ===== src/Math/Sort.antt =====
-- ytlib/math/sort_algs.hpp. An array is the list of its elements, which compare by a number, as those
-- of SortObj do by its key. A loop runs on fuel, at most the length of the array.
pub mod Sorted
pub mod Bubble
pub mod Merge
pub mod Search
pub mod QuickSort
mod Tests
use ytlib.Base.{
  ℕ, zero, suc, ◌+◌, ◌-◌, ◌*◌, ◌/◌, Bool, true, false, List, [], ◌∷◌, ◌++◌, ltb, leb, ◌==◌,
  if◌then◌else◌, length, take, drop, get_or,
}

-- `memcpy(arr + pos, src, ...)` of all of `src`
abbrev pub copy_to {ℓ} : {A : Type ℓ} → List A → ℕ → List A → List A
copy_to arr pos src = take pos arr ++ (src ++ drop (pos + length src) arr)

module _ {ℓ} {A : Type ℓ} where
  -- The two copies behind the loop: the rest of the left half to the end, if the right half ran out,
  -- and `tmp_vec` to the front.
  pub copy_back : List A → List A × List A × List A → List A
  copy_back arr (tmp_vec, left, []) = copy_to (copy_to arr (length tmp_vec) left) 0 tmp_vec
  copy_back arr (tmp_vec, left, y ∷ right) = copy_to arr 0 tmp_vec

module _ {ℓ} {A : Type ℓ} (key : A → ℕ) where
  -- The inner loop of `BubbleSort`, `count` comparisons of neighbours from the front on
  pub bubble_pass : ℕ → List A → List A
  bubble_pass zero arr = arr
  bubble_pass (suc count) [] = []
  bubble_pass (suc count) (x ∷ []) = x ∷ []
  bubble_pass (suc count) (x ∷ y ∷ arr) = elim (ltb (key y) (key x)) [
    | true ↦ y ∷ bubble_pass count (x ∷ arr)
    | false ↦ x ∷ bubble_pass count (y ∷ arr)
  ]

  -- The outer loop, with `rounds` of it left: `len - 1 - ii` comparisons in the next one
  pub bubble_rounds : ℕ → List A → List A
  bubble_rounds zero arr = arr
  bubble_rounds (suc rounds) arr = bubble_rounds rounds (bubble_pass rounds arr)

  pub bubble_sort : List A → List A
  bubble_sort arr = if ltb (length arr) 2 then arr else bubble_rounds (length arr) arr

  -- `if (arr[0] > arr[1]) swap(arr[0], arr[1]);` for an array of two
  pub sort_two : List A → List A
  sort_two [] = []
  sort_two (x ∷ []) = x ∷ []
  sort_two (x ∷ y ∷ arr) = if ltb (key y) (key x) then y ∷ x ∷ arr else x ∷ y ∷ arr

  -- The merging loop of `MergeSort`: what stands in `tmp_vec`, and what is left of the two halves.
  pub merge_loop : ℕ → List A → List A → List A → List A × List A × List A
  merge_loop zero tmp_vec left right = (tmp_vec, left, right)
  merge_loop (suc fuel) tmp_vec [] right = (tmp_vec, [], right)
  merge_loop (suc fuel) tmp_vec (x ∷ left) [] = (tmp_vec, x ∷ left, [])
  merge_loop (suc fuel) tmp_vec (x ∷ left) (y ∷ right) = elim (ltb (key x) (key y)) [
    | true ↦ merge_loop fuel (tmp_vec ++ x ∷ []) left (y ∷ right)
    | false ↦ merge_loop fuel (tmp_vec ++ y ∷ []) (x ∷ left) right
  ]

  -- `MergeSort` behind its two recursive calls
  pub merge_halves : List A → List A → List A
  merge_halves left right =
      copy_back (left ++ right) (merge_loop (length left + length right) [] left right)

  pub merge_sort : ℕ → List A → List A
  merge_sort zero arr = arr
  merge_sort (suc fuel) arr =
      let middle = length arr / 2 in
      elim (ltb (length arr) 2) [
        | true ↦ arr
        | false ↦ elim (length arr == 2) [
          | true ↦ sort_two arr
          | false ↦
              merge_halves (merge_sort fuel (take middle arr)) (merge_sort fuel (drop middle arr))
        ]
      ]

-- The loop of `BinarySearch`
pub search_first : ℕ → List ℕ → ℕ → ℕ → ℕ → ℕ
search_first zero arr key low high = low
search_first (suc fuel) arr key low high =
    let mid = low + (high - low) / 2 in
    elim (ltb low high) [
      | false ↦ low
      | true ↦ elim (ltb (get_or arr mid 0) key) [
        | true ↦ search_first fuel arr key (mid + 1) high
        | false ↦ search_first fuel arr key low mid
      ]
    ]

pub binary_search : List ℕ → ℕ → ℕ
binary_search arr key =
    let low = search_first (length arr) arr key 0 (length arr - 1) in
    if length arr == 0 then 0 else if get_or arr low 0 == key then low else length arr

-- The loop of `BinarySearchLast`
pub search_last : ℕ → List ℕ → ℕ → ℕ → ℕ → ℕ
search_last zero arr key low high = high
search_last (suc fuel) arr key low high =
    let mid = low + (high - low + 1) / 2 in
    elim (ltb low high) [
      | false ↦ high
      | true ↦ elim (leb (get_or arr mid 0) key) [
        | true ↦ search_last fuel arr key mid high
        | false ↦ search_last fuel arr key low (mid - 1)
      ]
    ]

pub binary_search_last : List ℕ → ℕ → ℕ
binary_search_last arr key =
    let high = search_last (length arr) arr key 0 (length arr - 1) in
    if length arr == 0 then 0 else if get_or arr high 0 == key then high else length arr
