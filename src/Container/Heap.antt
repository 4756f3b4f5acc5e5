-- ===== src/Container/Heap.antt =====
-- ytlib/container/heap.hpp: Heap. The elements are the numbers that they compare by; an index fits
-- in 63 bits, so that twice an index does not wrap.
pub mod Cells
pub mod Down
pub mod Up
pub mod Order
pub mod Ops
pub mod Sorting
mod Tests
use ytlib.Base.{
  ℕ, zero, suc, ◌+◌, ◌-◌, ◌*◌, ◌/◌, ◌%◌, ◌^◌, Bool, true, false, not, ◌&&◌, List, [], ◌∷◌, ◌++◌,
  Option, none, some, length, get_or, set, take, ltb, ◌==◌, if◌then◌else◌,
}
use ytlib.Base.Arrays.{at, swap}

pub record Heap : Type 0 where
  is_min_heap : Bool
  container : List ℕ

-- `(a > b) ^ is_min_heap_`: `a` goes above `b`.
abbrev pub beats : Bool → ℕ → ℕ → Bool
beats true a b = not (ltb b a)
beats false a b = ltb b a

abbrev pub left_child_index : ℕ → ℕ
left_child_index index = index * 2 + 1

abbrev pub parent_index : ℕ → ℕ
parent_index index = (index - 1) / 2

-- The child that goes above the other; `len` ends the heap.
pub pick_child : Bool → ℕ → List ℕ → ℕ → ℕ
pick_child m len l child =
    if ltb (child + 1) len && beats m (at l (child + 1)) (at l child) then child + 1 else child

pub adjust_down_loop : ℕ → Bool → ℕ → List ℕ → ℕ → List ℕ
adjust_down_loop zero m len l parent = l
adjust_down_loop (suc fuel) m len l parent =
    let child = pick_child m len l (left_child_index parent) in
    let rest = adjust_down_loop fuel m len (swap l child parent) child in
    if ltb (left_child_index parent) len
    then (if beats m (at l child) (at l parent) then rest else l)
    else l

-- `AdjustDown`; a length of 0 stands for all of the elements. Every round goes to a higher index.
pub adjust_down : Bool → List ℕ → ℕ → ℕ → List ℕ
adjust_down m l index len =
    let n = if len == 0 then length l else len in adjust_down_loop n m n l index

pub adjust_up_loop : ℕ → Bool → List ℕ → ℕ → List ℕ
adjust_up_loop zero m l child = l
adjust_up_loop (suc fuel) m l child =
    let parent = parent_index child in
    let rest = adjust_up_loop fuel m (swap l child parent) parent in
    if ltb 0 child then (if beats m (at l child) (at l parent) then rest else l) else l

pub adjust_up : Bool → List ℕ → ℕ → List ℕ
adjust_up m l index = adjust_up_loop index m l index

pub push : ℕ → Heap → Heap
push val h =
    let m = h.is_min_heap in
    let l = h.container ++ val ∷ [] in
    record { is_min_heap = m; container = adjust_up m l (length l - 1) }

-- The last element goes to the top and `pop_back` cuts it off; `none` is the exception.
pub pop : Heap → Option Heap
pop h =
    let m = h.is_min_heap in
    let l = h.container in
    let n = length l - 1 in
    let cut = take n (swap l 0 n) in
    if ltb 0 (length l)
    then some (record { is_min_heap = m; container = adjust_down m cut 0 0 })
    else none

-- The loop from an index down to 1, and the root
pub adjust_loop : ℕ → Bool → List ℕ → List ℕ
adjust_loop zero m l = adjust_down m l 0 0
adjust_loop (suc ii) m l = adjust_loop ii m (adjust_down m l (suc ii) 0)

-- `size() - 2` wraps on a `size_t`.
pub adjust : Bool → List ℕ → List ℕ
adjust m [] = []
adjust m (x ∷ l) = adjust_loop ((length (x ∷ l) + 2 ^ 64 - 2) % 2 ^ 64 / 2) m (x ∷ l)

-- The constructors from elements, and `Assign`
pub assign : List ℕ → Bool → Heap
assign a m = record { is_min_heap = m; container = adjust m a }

pub sort_loop : ℕ → Bool → List ℕ → List ℕ
sort_loop zero m l = l
sort_loop (suc ii) m l = sort_loop ii m (adjust_down m (swap l 0 (suc ii)) 0 (suc ii))

-- `none` says that the loop would swap elements that are not there: `size() - 1` wraps.
pub sort : Heap → Option Heap
sort h =
    if ltb 0 (length h.container)
    then some (record {
      is_min_heap = not h.is_min_heap;
      container = sort_loop (length h.container - 1) h.is_min_heap h.container;
    })
    else none
