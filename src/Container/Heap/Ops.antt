-- ===== src/Container/Heap/Ops.antt =====
-- The operations of Heap: what they make of a heap, and which elements it has then.
use ytlib.Base.{
  ℕ, zero, suc, ◌+◌, ◌-◌, ◌/◌, ◌%◌, ◌^◌, ◌≤◌, ◌<◌, ◌≡◌, refl, sym, subst, ◌∙◌, Bool, true, List, [],
  ◌∷◌, ◌++◌, length, length-append, length-take, take, some, ltb, lt→ltb, ◌==◌, if◌then◌else◌,
  arith,
}
use ytlib.Base.Arrays.{
  IsSameBag, IsSameBag-refl, IsSameBag-trans, at, at-append, at-swap_ne, at-swap_right, at-take,
  count, count-append, count-take, length-swap, swap, swap-IsSameBag,
}
use ytlib.Container.Heap.{
  Heap, adjust_down_loop, adjust_down, adjust_up, push, pop, adjust_loop, adjust, assign,
}
use ytlib.Container.Heap.Cells.{IsAbove}
use ytlib.Container.Heap.Down.{
  IsHeapFrom, IsHeapBut, adjust_down_loop-IsHeapFrom, adjust_down_loop-length,
  adjust_down_loop-IsSameBag,
}
use ytlib.Container.Heap.Up.{IsHeapButUp, adjust_up_loop_lem, adjust_up_loop-length}
use ytlib.Container.Heap.Order.{top-IsAbove}

-- No element goes above its parent.
abbrev pub IsHeap : Heap → Type 0
IsHeap h = IsHeapFrom h.is_min_heap h.container (length h.container) 0

-- AdjustDown over all elements
adjust_down_all :
    (m : Bool) (l : List ℕ) (p : ℕ)
    → adjust_down m l p 0 ≡ adjust_down_loop (length l) m (length l) l p
unfolding adjust_down
adjust_down_all m l p = refl

-- Push keeps a heap one, and puts the element in.
pub push_lem :
    (val : ℕ) (h : Heap)
    → IsHeap h
    → IsHeap (push val h)
      × ((push val h).is_min_heap ≡ h.is_min_heap)
      × IsSameBag ((push val h).container) (val ∷ h.container)
unfolding push adjust_up IsHeapFrom IsHeapButUp IsSameBag
push_lem val h heap =
    let m : Bool = h.is_min_heap in
    let l : List ℕ = h.container in
    let size : length (l ++ val ∷ []) ≡ length l + 1 = length-append l (val ∷ []) in
    let last : length (l ++ val ∷ []) - 1 ≡ length l = omega arith in
    let but : IsHeapButUp m (l ++ val ∷ []) (length (l ++ val ∷ []) - 1) = (
      λ p c cl par ne.
          let short : c < length l = omega arith in
          let e : at (l ++ val ∷ []) c ≡ at l c = at-append l (val ∷ []) c short in
          let e' : at (l ++ val ∷ []) p ≡ at l p = at-append l (val ∷ []) p (omega arith) in
          rw (e, e') (heap p c (omega arith) short par),
      λ p c cl pl lc. absurd (omega arith),
    ) in
    let (heap', bag) =
      adjust_up_loop_lem (length (l ++ val ∷ []) - 1) m (l ++ val ∷ []) (length (l ++ val ∷ []) - 1)
        (omega arith) (omega arith) but in
    let kept =
      adjust_up_loop-length (length (l ++ val ∷ []) - 1) m (l ++ val ∷ [])
        (length (l ++ val ∷ []) - 1) in
    (
      λ p c sp cl par. heap' p c sp (omega (arith, kept)) par,
      refl,
      λ k. bag k ∙ omega (arith, count-append k l (val ∷ [])),
    )

-- A heap whose top is replaced, up to a length
pub replaced-IsHeapBut :
    (m : Bool) (l l' : List ℕ) (len n : ℕ)
    → IsHeapFrom m l len 0
    → n ≤ len
    → ((k : ℕ) → 0 < k → k < n → at l' k ≡ at l k)
    → IsHeapBut m l' n 0 0
unfolding IsHeapFrom IsHeapBut
replaced-IsHeapBut m l l' len n heap le same = (
  λ p c sp cl par ne.
      let e : at l' p ≡ at l p = same p (omega arith) (omega arith) in
      let e' : at l' c ≡ at l c = same c (omega arith) cl in
      rw (e, e') (heap p c sp (omega arith) par),
  λ p c sp cl par par'. absurd (omega arith),
)

-- The list without its top, the last element in its place
cut : List ℕ → List ℕ
cut l = take (length l - 1) (swap l 0 (length l - 1))

cut_lem :
    (m : Bool) (l : List ℕ)
    → 0 < length l
    → IsHeapFrom m l (length l) 0
    → (length (cut l) ≡ length l - 1)
      × IsHeapBut m (cut l) (length (cut l)) 0 0
      × ((k : ℕ) → count k (at l 0 ∷ cut l) ≡ count k l)
unfolding cut
cut_lem m l pos heap =
    let n : ℕ = length l - 1 in
    let l' : List ℕ = swap l 0 n in
    let size : length l' ≡ length l = length-swap l 0 n in
    let size' : length (take n l') ≡ n = omega (arith, length-take n l') in
    let same : (k : ℕ) → 0 < k → k < length (take n l') → at (take n l') k ≡ at l k =
      λ k h h'. at-take n l' k (omega arith) ∙ at-swap_ne l 0 n k (omega arith) (omega arith) in
    let last : at l' n ≡ at l 0 = at-swap_right l 0 n (omega arith) in
    (
      size',
      replaced-IsHeapBut m l (take n l') (length l) (length (take n l')) heap (omega arith) same,
      λ k.
          let split : count k l' ≡ count k (take n l') + (if at l 0 == k then 1 else 0) =
            subst (λ v. count k l' ≡ count k (take n l') + (if v == k then 1 else 0)) last
              (count-take k n l' (omega arith)) in
          let bag : count k l' ≡ count k l =
            unfold IsSameBag in swap-IsSameBag l 0 n (omega arith) (omega arith) k in
          omega arith,
    )

-- Pop of a heap that is not empty takes out its top, which may stand above all elements, and leaves a
-- heap.
pub pop_lem :
    (h : Heap)
    → IsHeap h
    → 0 < length h.container
    → (h' : Heap) × (pop h ≡ some h')
      × IsHeap h'
      × (h'.is_min_heap ≡ h.is_min_heap)
      × ((c : ℕ)
          → c < length h.container
          → IsAbove h.is_min_heap (at h.container 0) (at h.container c))
      × IsSameBag (at h.container 0 ∷ h'.container) h.container
unfolding pop IsSameBag cut
pop_lem h heap pos =
    let m : Bool = h.is_min_heap in
    let l : List ℕ = h.container in
    let some_left : ltb 0 (length l) ≡ true = lt→ltb 0 (length l) pos in
    let (size, but, bag) = cut_lem m l pos heap in
    let l' : List ℕ = cut l in
    let sunk : List ℕ = adjust_down_loop (length l') m (length l') l' 0 in
    let kept : length sunk ≡ length l' = adjust_down_loop-length (length l') m (length l') l' 0 in
    let heap' : IsHeapFrom m sunk (length l') 0 =
      adjust_down_loop-IsHeapFrom (length l') m (length l') l' 0 0 (omega arith) (omega arith)
        (omega arith) but in
    let (bag', fixed) = adjust_down_loop-IsSameBag (length l') m (length l') l' 0 (omega arith) in
    (
      record { is_min_heap = m; container = sunk },
      unfold adjust_down in rw (some_left, pop) refl,
      subst (λ n. IsHeapFrom m sunk n 0) (sym kept) heap',
      refl,
      λ c cl. top-IsAbove m l (length l) c heap cl,
      λ k. omega (arith, bag k, bag' k),
    )

next_down :
    (m : Bool) (l : List ℕ) (len ii : ℕ) → IsHeapFrom m l len (suc ii) → IsHeapBut m l len ii ii
unfolding IsHeapFrom IsHeapBut
next_down m l len ii heap =
    (λ p c sp cl par ne. heap p c (omega arith) cl par, λ p c sp cl par par'. absurd (omega arith))

adjust_loop_lem :
    (ii : ℕ) (m : Bool) (l : List ℕ)
    → IsHeapFrom m l (length l) (suc ii)
    → IsHeapFrom m (adjust_loop ii m l) (length (adjust_loop ii m l)) 0
      × IsSameBag (adjust_loop ii m l) l
unfolding adjust_loop
adjust_loop_lem zero m l heap =
    let n : ℕ = length l in
    let sunk : List ℕ = adjust_down_loop n m n l 0 in
    let kept : length sunk ≡ n = adjust_down_loop-length n m n l 0 in
    let heap' : IsHeapFrom m sunk n 0 =
      adjust_down_loop-IsHeapFrom n m n l 0 0 (omega arith) (omega arith) (omega arith)
        (next_down m l n 0 heap) in
    rw (adjust_down_all m l 0) (
      subst (λ k. IsHeapFrom m sunk k 0) (sym kept) heap',
      (adjust_down_loop-IsSameBag n m n l 0 (omega arith)).0,
    )
adjust_loop_lem (suc ii) m l heap =
    let n : ℕ = length l in
    let sunk : List ℕ = adjust_down_loop n m n l (suc ii) in
    let kept : length sunk ≡ n = adjust_down_loop-length n m n l (suc ii) in
    let heap' : IsHeapFrom m sunk n (suc ii) =
      adjust_down_loop-IsHeapFrom n m n l (suc ii) (suc ii) (omega arith) (omega arith)
        (omega arith) (next_down m l n (suc ii) heap) in
    let (rest, bag) =
      adjust_loop_lem ii m sunk (subst (λ k. IsHeapFrom m sunk k (suc ii)) (sym kept) heap') in
    rw (adjust_down_all m l (suc ii)) (
      rest,
      IsSameBag-trans (adjust_loop ii m sunk) sunk l bag
          (adjust_down_loop-IsSameBag n m n l (suc ii) (omega arith)).0,
    )

leaves_only :
    (m : Bool) (l : List ℕ)
    → 0 < length l
    → length l < 2 ^ 63
    → IsHeapFrom m l (length l) (suc ((length l + 2 ^ 64 - 2) % 2 ^ 64 / 2))
unfolding IsHeapFrom
leaves_only m l pos fits p c sp cl par = absurd (omega arith)

-- A heap that is made of elements, by a constructor or by Assign, is one, and has these elements.
pub assign_lem :
    (a : List ℕ) (m : Bool)
    → length a < 2 ^ 63
    → IsHeap (assign a m) × ((assign a m).is_min_heap ≡ m) × IsSameBag ((assign a m).container) a
unfolding assign adjust
assign_lem [] m fits =
    (unfold IsHeapFrom in λ p c sp cl par. absurd (omega arith), refl, IsSameBag-refl [])
assign_lem (x ∷ a) m fits =
    let (heap, bag) =
      adjust_loop_lem ((length (x ∷ a) + 2 ^ 64 - 2) % 2 ^ 64 / 2) m (x ∷ a)
        (leaves_only m (x ∷ a) (omega arith) fits) in
    (heap, refl, bag)
