-- ===== src/Container/Heap/Order.antt =====
-- The top of a heap, and lists in order.
use ytlib.Base.{ℕ, zero, suc, ◌≤◌, ◌<◌, Bool, true, false, List, length, arith, not}
use ytlib.Base.Arrays.{at}
use ytlib.Container.Heap.{parent_index}
use ytlib.Container.Heap.Cells.{IsAbove, IsAbove-refl, IsAbove-trans}
use ytlib.Container.Heap.Down.{IsHeapFrom}

top_upto :
    (m : Bool) (l : List ℕ) (len k c : ℕ)
    → IsHeapFrom m l len 0
    → c ≤ k
    → c < len
    → IsAbove m (at l 0) (at l c)
unfolding IsHeapFrom
top_upto m l len k zero heap ck cl = IsAbove-refl m (at l 0)
top_upto m l len zero (suc c) heap ck cl = absurd (omega arith)
top_upto m l len (suc k) (suc c) heap ck cl =
    let p : ℕ = parent_index (suc c) in
    IsAbove-trans m (at l 0) (at l p) (at l (suc c))
      (top_upto m l len k p heap (omega arith) (omega arith))
      (heap p (suc c) (omega arith) cl (omega arith, omega arith))

-- The top may stand above all elements.
pub top-IsAbove :
    (m : Bool) (l : List ℕ) (len c : ℕ)
    → IsHeapFrom m l len 0
    → c < len
    → IsAbove m (at l 0) (at l c)
top-IsAbove m l len c heap h = top_upto m l len c c heap (omega arith) h

-- An element at `from` or later may stand above those before it; a heap that is sorted is a heap of
-- the other kind.
unfoldable pub IsReversed : Bool → List ℕ → ℕ → Type 0
IsReversed m l from = (i j : ℕ) → i ≤ j → from ≤ j → j < length l → IsAbove m (at l j) (at l i)

IsAbove-not : (m : Bool) (a b : ℕ) → IsAbove m a b → IsAbove (not m) b a
IsAbove-not true a b h = h
IsAbove-not false a b h = h

pub IsReversed-IsHeapFrom :
    (m : Bool) (l : List ℕ) → IsReversed m l 0 → IsHeapFrom (not m) l (length l) 0
unfolding IsReversed IsHeapFrom
IsReversed-IsHeapFrom m l order p c sp cl par =
    IsAbove-not m (at l c) (at l p) (order p c (omega arith) (omega arith) cl)
