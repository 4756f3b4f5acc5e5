-- ===== src/Container/Heap/Sorting.antt =====
-- Sort of a heap: the top goes behind the rest, round by round.
use ytlib.Base.{
  ℕ, zero, suc, ◌-◌, ◌≤◌, ◌<◌, ◌≡◌, ◌≢◌, refl, subst, Bool, true, false, not, List, length, some,
  ltb, lt→ltb, ltb→lt, ◌==◌, Bool-cases, inl, inr, arith,
}
use ytlib.Base.Arrays.{
  IsSameBag, IsSameBag-refl, IsSameBag-trans, at, at-swap_left, at-swap_ne, at-swap_right,
  length-swap, swap, swap-IsSameBag,
}
use ytlib.Container.Heap.{Heap, adjust_down_loop, adjust_down, sort_loop, sort}
use ytlib.Container.Heap.Cells.{IsAbove, IsAbove-refl}
use ytlib.Container.Heap.Down.{
  IsHeapFrom, IsHeapBut, adjust_down_loop-IsHeapFrom, adjust_down_loop-length,
  adjust_down_loop-IsSameBag, adjust_down_loop-All,
}
use ytlib.Container.Heap.Order.{top-IsAbove, IsReversed, IsReversed-IsHeapFrom}
use ytlib.Container.Heap.Ops.{IsHeap, replaced-IsHeapBut}

-- AdjustDown over the first `suc n`
adjust_down_first :
    (m : Bool) (l : List ℕ) (p n : ℕ)
    → adjust_down m l p (suc n) ≡ adjust_down_loop (suc n) m (suc n) l p
unfolding adjust_down
adjust_down_first m l p n = let ne : (suc n == 0) ≡ false = ground arith in rw ne refl

-- Up to an index behind the swapped ones, the swap moves no element past it.
swap-source :
    (n : ℕ) (l : List ℕ) (k j : ℕ)
    → n < length l
    → k ≤ j
    → n ≤ j
    → (k' : ℕ) × (k' ≤ j) × (at (swap l 0 n) k ≡ at l k')
swap-source n l k j short kj nj = elim (Bool-cases (k == n)) [
  | inl t ↦
      let e : n ≡ k = ground arith in
      (0, omega arith, subst (λ i. at (swap l 0 n) i ≡ at l 0) e (at-swap_right l 0 n short))
  | inr f ↦ elim (Bool-cases (k == 0)) [
    | inl t ↦
        let e : 0 ≡ k = ground arith in
        let ne : 0 ≢ n = ground arith in
        (n, nj, subst (λ i. at (swap l 0 n) i ≡ at l n) e (at-swap_left l 0 n ne (omega arith)))
    | inr g ↦ (k, kj, at-swap_ne l 0 n k (ground arith) (ground arith))
  ]
]

-- The top goes behind the heap, where it may stand above all before it.
swap-IsReversed :
    (ii : ℕ) (m : Bool) (l : List ℕ)
    → suc ii < length l
    → IsHeapFrom m l (suc (suc ii)) 0
    → IsReversed m l (suc (suc ii))
    → (k j : ℕ) → k ≤ j
    → suc ii ≤ j
    → j < length l
    → IsAbove m (at (swap l 0 (suc ii)) j) (at (swap l 0 (suc ii)) k)
unfolding IsReversed
swap-IsReversed ii m l short heap order k j kj nj jl =
    let (k', le, e) = swap-source (suc ii) l k j short kj nj in
    elim (Bool-cases (j == suc ii)) [
      | inl t ↦
          let e' : suc ii ≡ j = ground arith in
          let top : at (swap l 0 (suc ii)) j ≡ at l 0 =
            subst (λ i. at (swap l 0 (suc ii)) i ≡ at l 0) e' (at-swap_right l 0 (suc ii) short) in
          rw (e, top) (top-IsAbove m l (suc (suc ii)) k' heap (omega arith))
      | inr f ↦
          let ne : j ≢ suc ii = ground arith in
          let same : at (swap l 0 (suc ii)) j ≡ at l j =
            at-swap_ne l 0 (suc ii) j (omega arith) ne in
          rw (e, same) (order k' j le (omega arith) jl)
    ]

sort_step :
    (ii : ℕ) (m : Bool) (l : List ℕ)
    → suc ii < length l
    → IsHeapFrom m l (suc (suc ii)) 0
    → IsReversed m l (suc (suc ii))
    → (let l' = adjust_down_loop (suc ii) m (suc ii) (swap l 0 (suc ii)) 0 in
        IsHeapFrom m l' (suc ii) 0
        × IsReversed m l' (suc ii)
        × IsSameBag l' l
        × (length l' ≡ length l))
unfolding IsReversed
sort_step ii m l short heap order =
    let s : List ℕ = swap l 0 (suc ii) in
    let l' : List ℕ = adjust_down_loop (suc ii) m (suc ii) s 0 in
    let size : length s ≡ length l = length-swap l 0 (suc ii) in
    let same : (k : ℕ) → 0 < k → k < suc ii → at s k ≡ at l k =
      λ k h h'. at-swap_ne l 0 (suc ii) k (omega arith) (omega arith) in
    let but : IsHeapBut m s (suc ii) 0 0 =
      replaced-IsHeapBut m l s (suc (suc ii)) (suc ii) heap (omega arith) same in
    let (bag, fixed) = adjust_down_loop-IsSameBag (suc ii) m (suc ii) s 0 (omega arith) in
    let kept : length l' ≡ length s = adjust_down_loop-length (suc ii) m (suc ii) s 0 in
    (
      adjust_down_loop-IsHeapFrom (suc ii) m (suc ii) s 0 0 (omega arith) (omega arith)
          (omega arith) but,
      λ i j ij from jl.
          let above = swap-IsReversed ii m l short heap order in
          let at_j : at l' j ≡ at s j = fixed j from in
          let short_j : j < length l = omega arith in
          elim (Bool-cases (ltb i (suc ii))) [
            | inl t ↦ rw at_j (
                adjust_down_loop-All (λ v. IsAbove m (at s j) v) (suc ii) m (suc ii) s 0
                  (omega arith) (λ k kl. above k j (omega arith) from short_j) i
                  (ltb→lt i (suc ii) t))
            | inr f ↦
                let at_i : at l' i ≡ at s i = fixed i (ground arith) in
                rw (at_j, at_i) (above i j ij from short_j)
          ],
      IsSameBag-trans l' s l bag (swap-IsSameBag l 0 (suc ii) (omega arith) short),
      omega arith,
    )

all-IsReversed : (m : Bool) (l : List ℕ) → IsReversed m l 1 → IsReversed m l 0
unfolding IsReversed
all-IsReversed m l order i zero ij from jl =
    let e : i ≡ 0 = omega arith in rw e (IsAbove-refl m (at l 0))
all-IsReversed m l order i (suc j) ij from jl = order i (suc j) ij (omega arith) jl

nothing_behind : (m : Bool) (l : List ℕ) (n : ℕ) → length l ≤ n → IsReversed m l n
unfolding IsReversed
nothing_behind m l n le i j ij from jl = absurd (omega arith)

sort_loop_lem :
    (ii : ℕ) (m : Bool) (l : List ℕ)
    → ii < length l
    → IsHeapFrom m l (suc ii) 0
    → IsReversed m l (suc ii)
    → IsReversed m (sort_loop ii m l) 0 × IsSameBag (sort_loop ii m l) l
unfolding sort_loop
sort_loop_lem zero m l short heap order = (all-IsReversed m l order, IsSameBag-refl l)
sort_loop_lem (suc ii) m l short heap order =
    let l' : List ℕ = adjust_down_loop (suc ii) m (suc ii) (swap l 0 (suc ii)) 0 in
    let (heap', order', bag, size) = sort_step ii m l short heap order in
    let (rest, bag') = sort_loop_lem ii m l' (omega arith) heap' order' in
    rw (adjust_down_first m (swap l 0 (suc ii)) 0 ii)
      (rest, IsSameBag-trans (sort_loop ii m l') l' l bag' bag)

-- Sort of a heap that is not empty ends with the elements of a min heap in descending order, those of
-- a max heap in ascending order, and turns the kind of the heap, of which kind it then is one.
pub sort_lem :
    (h : Heap)
    → IsHeap h
    → 0 < length h.container
    → (h' : Heap) × (sort h ≡ some h')
      × IsReversed h.is_min_heap h'.container 0
      × (h'.is_min_heap ≡ not h.is_min_heap)
      × IsHeap h'
      × IsSameBag h'.container h.container
unfolding sort
sort_lem h heap pos =
    let m : Bool = h.is_min_heap in
    let l : List ℕ = h.container in
    let n : ℕ = length l - 1 in
    let some_left : ltb 0 (length l) ≡ true = lt→ltb 0 (length l) pos in
    let e : length l ≡ suc n = omega arith in
    let (order, bag) =
      sort_loop_lem n m l (omega arith) (subst (λ k. IsHeapFrom m l k 0) e heap)
        (nothing_behind m l (suc n) (omega arith)) in
    (
      record { is_min_heap = not m; container = sort_loop n m l },
      rw (some_left, sort) refl,
      order,
      refl,
      IsReversed-IsHeapFrom m (sort_loop n m l) order,
      bag,
    )
