-- ===== src/Math/Sort/QuickSort.antt =====
-- ytlib/math/sort_algs.hpp: QuickSort, in place. `arr` is the whole array; a pointer into it is an index,
-- and the elements are the numbers that they compare by.
pub mod Range
pub mod Partition
pub mod Order
use ytlib.Base.{
  ℕ, zero, suc, ◌+◌, ◌-◌, Bool, true, false, ◌&&◌, List, ltb, leb, ◌==◌, if◌then◌else◌,
}
use ytlib.Base.Arrays.{at, swap}

-- `if (i != j) swap(arr[i], arr[j])`
unfoldable pub swap_apart : List ℕ → ℕ → ℕ → List ℕ
swap_apart arr i j = if i == j then arr else swap arr i j

-- `while (first < last && arr[last] >= arr[cur]) --last`
unfoldable pub scan_down : ℕ → List ℕ → ℕ → ℕ → ℕ → ℕ
scan_down zero arr first last cur = last
scan_down (suc fuel) arr first last cur =
    let rest = scan_down fuel arr first (last - 1) cur in
    if ltb first last && leb (at arr cur) (at arr last) then rest else last

-- `while (first < last && arr[first] <= arr[cur]) ++first`
unfoldable pub scan_up : ℕ → List ℕ → ℕ → ℕ → ℕ → ℕ
scan_up zero arr first last cur = first
scan_up (suc fuel) arr first last cur =
    let rest = scan_up fuel arr (first + 1) last cur in
    if ltb first last && leb (at arr first) (at arr cur) then rest else first

-- The loop `while (first < last)`: the array and `cur` behind it. Each scan has a round for every index
-- between `first` and `last`.
unfoldable pub partition : ℕ → List ℕ → ℕ → ℕ → ℕ → List ℕ × ℕ
partition zero arr first last cur = (arr, cur)
partition (suc fuel) arr first last cur =
    let last' = scan_down (last - first) arr first last cur in
    let arr1 = swap_apart arr cur last' in
    let first' = scan_up (last' - first) arr1 first last' last' in
    let arr2 = swap_apart arr1 last' first' in
    let rest = partition fuel arr2 first' last' first' in
    if ltb first last then rest else (arr, cur)

-- `QuickSort(arr + base, len)`; the calls that it makes are shorter than it.
unfoldable pub quick_sort : ℕ → List ℕ → ℕ → ℕ → List ℕ
quick_sort zero arr base len = arr
quick_sort (suc fuel) arr base len =
    let two = if ltb (at arr (base + 1)) (at arr base) then swap arr base (base + 1) else arr in
    let (arr', cur) = partition len arr base (base + len - 1) base in
    let left = quick_sort fuel arr' base (cur - base) in
    let both = quick_sort fuel left (cur + 1) (base + len - 1 - cur) in
    if ltb len 2 then arr else if len == 2 then two else both
