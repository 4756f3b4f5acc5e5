-- ===== src/Container/Heap/Tests.antt =====
-- Runs of Heap's operations, and the theorems at a heap.
use ytlib.Base.{ℕ, zero, suc, ◌<◌, ◌≡◌, refl, true, false, List, [], ◌∷◌, none, some, arith}
use ytlib.Base.Arrays.{IsSameBag, at, swap}
use ytlib.Container.Heap.{
  Heap, pick_child, adjust_down_loop, adjust_down, pop, adjust_loop, adjust, assign, sort_loop,
  sort,
}
use ytlib.Container.Heap.Cells.{IsAbove}
use ytlib.Container.Heap.Down.{IsHeapFrom}
use ytlib.Container.Heap.Order.{IsReversed}
use ytlib.Container.Heap.Ops.{IsHeap, pop_lem, assign_lem}
use ytlib.Container.Heap.Sorting.{sort_lem}

abbrev numbers : List ℕ
numbers = 5 ∷ 3 ∷ 8 ∷ 1 ∷ 9 ∷ []

abbrev small : Heap
small = record { is_min_heap = true; container = 1 ∷ 3 ∷ 8 ∷ 5 ∷ 9 ∷ [] }

assign-numbers : assign numbers true ≡ small
unfolding assign adjust adjust_loop adjust_down adjust_down_loop pick_child swap
assign-numbers = refl

pop_small : pop small ≡ some (record { is_min_heap = true; container = 3 ∷ 5 ∷ 8 ∷ 9 ∷ [] })
unfolding pop adjust_down adjust_down_loop pick_child swap
pop_small = refl

sort_small : sort small ≡ some (record { is_min_heap = false; container = 9 ∷ 8 ∷ 5 ∷ 3 ∷ 1 ∷ [] })
unfolding sort sort_loop adjust_down adjust_down_loop pick_child swap
sort_small = refl

-- A heap without elements is sorted past its end.
sort_nothing : sort (record { is_min_heap = true; container = [] }) ≡ none
unfolding sort
sort_nothing = refl

pop_nothing : pop (record { is_min_heap = true; container = [] }) ≡ none
unfolding pop
pop_nothing = refl

abbrev pair : Heap
pair = record { is_min_heap = true; container = 3 ∷ 4 ∷ [] }

pair-IsHeap : IsHeap pair
unfolding IsHeapFrom
pair-IsHeap zero zero sp cl par = absurd (omega arith)
pair-IsHeap zero (suc zero) sp cl par = omega arith
pair-IsHeap zero (suc (suc c)) sp cl par = absurd (omega arith)
pair-IsHeap (suc p) c sp cl par = absurd (omega arith)

pop_lem_example :
    (h' : Heap) × (pop pair ≡ some h')
    × IsHeap h'
    × (h'.is_min_heap ≡ true)
    × ((c : ℕ) → c < 2 → IsAbove true 3 (at (3 ∷ 4 ∷ []) c))
    × IsSameBag (3 ∷ h'.container) (3 ∷ 4 ∷ [])
pop_lem_example = pop_lem pair pair-IsHeap (omega arith)

assign_lem_example :
    IsHeap (assign numbers true)
    × ((assign numbers true).is_min_heap ≡ true)
    × IsSameBag ((assign numbers true).container) numbers
assign_lem_example = assign_lem numbers true (omega arith)

sort_lem_example :
    (h' : Heap) × (sort pair ≡ some h')
    × IsReversed true h'.container 0
    × (h'.is_min_heap ≡ false)
    × IsHeap h'
    × IsSameBag h'.container (3 ∷ 4 ∷ [])
sort_lem_example = sort_lem pair pair-IsHeap (omega arith)
