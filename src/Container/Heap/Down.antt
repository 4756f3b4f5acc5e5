-- ===== src/Container/Heap/Down.antt =====
-- AdjustDown: the element sinks until the heap is in order again.
use ytlib.Base.{
  ℕ, zero, suc, ◌+◌, ◌*◌, ◌≤◌, ◌<◌, ◌≡◌, ◌≢◌, refl, sym, subst, ◌∙◌, Bool, List, length, ltb,
  ltb→lt, ◌==◌, Bool-cases, inl, inr, arith,
}
use ytlib.Base.Arrays.{
  IsSameBag, IsSameBag-refl, IsSameBag-trans, at, at-swap_left, at-swap_ne, at-swap_right,
  length-swap, swap, swap-IsSameBag,
}
use ytlib.Container.Heap.{beats, pick_child, adjust_down_loop, left_child_index}
use ytlib.Container.Heap.Cells.{
  IsAbove, IsAbove-refl, IsAbove-trans, beats-IsAbove, beats_not-IsAbove,
}

-- `p` is the index of the parent of `c`.
abbrev pub IsParent : ℕ → ℕ → Type 0
IsParent p c = (p * 2 + 1 ≤ c) × (c ≤ p * 2 + 2)

-- From the parent `s` on, no child goes above its parent.
unfoldable pub IsHeapFrom : Bool → List ℕ → ℕ → ℕ → Type 0
IsHeapFrom m l len s = (p c : ℕ) → s ≤ p → c < len → IsParent p c → IsAbove m (at l p) (at l c)

-- The same but for the children of `hole`; those may stand below its parent.
unfoldable pub IsHeapBut : Bool → List ℕ → ℕ → ℕ → ℕ → Type 0
IsHeapBut m l len s hole =
    ((p c : ℕ) → s ≤ p → c < len → IsParent p c → p ≢ hole → IsAbove m (at l p) (at l c))
    × ((p c : ℕ)
        → s ≤ p
        → c < len
        → IsParent p hole
        → IsParent hole c
        → IsAbove m (at l p) (at l c))

pick_child-IsParent :
    (m : Bool) (len : ℕ) (l : List ℕ) (p : ℕ)
    → left_child_index p < len
    → IsParent p (pick_child m len l (left_child_index p))
      × (pick_child m len l (left_child_index p) < len)
unfolding pick_child
pick_child-IsParent m len l p h = elim (Bool-cases (ltb (p * 2 + 1 + 1) len)) [
  | inl t ↦ elim (Bool-cases (beats m (at l (p * 2 + 1 + 1)) (at l (p * 2 + 1)))) [
    | inl u ↦ rw (t, u, pick_child) ((omega arith, omega arith), ltb→lt (p * 2 + 1 + 1) len t)
    | inr g ↦ rw (t, g, pick_child) ((omega arith, omega arith), h)
  ]
  | inr f ↦ rw (f, pick_child) ((omega arith, omega arith), h)
]

two_children :
    (m : Bool) (l : List ℕ) (p c q : ℕ)
    → IsParent p c
    → IsAbove m q (at l (p * 2 + 1))
    → IsAbove m q (at l (p * 2 + 1 + 1))
    → IsAbove m q (at l c)
two_children m l p c q par left right = elim (Bool-cases (c == p * 2 + 1)) [
  | inl t ↦ let e : p * 2 + 1 ≡ c = ground arith in subst (λ k. IsAbove m q (at l k)) e left
  | inr f ↦
      let ne : c ≢ p * 2 + 1 = ground arith in
      let e : p * 2 + 1 + 1 ≡ c = omega arith in subst (λ k. IsAbove m q (at l k)) e right
]

-- The child that is picked goes above the other.
pick_child-IsAbove :
    (m : Bool) (len : ℕ) (l : List ℕ) (p c : ℕ)
    → c < len
    → IsParent p c
    → IsAbove m (at l (pick_child m len l (left_child_index p))) (at l c)
unfolding pick_child
pick_child-IsAbove m len l p c h par = elim (Bool-cases (ltb (p * 2 + 1 + 1) len)) [
  | inl t ↦ elim (Bool-cases (beats m (at l (p * 2 + 1 + 1)) (at l (p * 2 + 1)))) [
    | inl u ↦
        rw (t, u, pick_child)
          (two_children m l p c (at l (p * 2 + 1 + 1)) par
            (beats-IsAbove m (at l (p * 2 + 1 + 1)) (at l (p * 2 + 1)) u)
            (IsAbove-refl m (at l (p * 2 + 1 + 1))))
    | inr g ↦
        rw (t, g, pick_child)
          (two_children m l p c (at l (p * 2 + 1)) par (IsAbove-refl m (at l (p * 2 + 1)))
            (beats_not-IsAbove m (at l (p * 2 + 1 + 1)) (at l (p * 2 + 1)) g))
  ]
  | inr f ↦
      let only : p * 2 + 1 ≡ c = ground arith in
      rw (f, pick_child)
        (subst (λ k. IsAbove m (at l (p * 2 + 1)) (at l k)) only
          (IsAbove-refl m (at l (p * 2 + 1))))
]

-- The swap with the child that goes above its parent moves the hole to the child.
swap-IsHeapBut :
    (m : Bool) (l : List ℕ) (len s p c : ℕ)
    → len ≤ length l
    → s ≤ p
    → c < len
    → IsParent p c
    → ((d : ℕ) → d < len → IsParent p d → IsAbove m (at l c) (at l d))
    → IsAbove m (at l c) (at l p)
    → IsHeapBut m l len s p
    → IsHeapBut m (swap l c p) len s c
unfolding IsHeapBut
swap-IsHeapBut m l len s p c fit sp cl par best up (heap, bridge) =
    let at_c : at (swap l c p) c ≡ at l p = at-swap_left l c p (omega arith) (omega arith) in
    let at_p : at (swap l c p) p ≡ at l c = at-swap_right l c p (omega arith) in
    let same = at-swap_ne l c p in
    (
      (λ q d sq dl qd ne. elim (Bool-cases (q == p)) [
        | inl t ↦
            let e : q ≡ p = ground arith in
            elim (Bool-cases (d == c)) [
              | inl u ↦ let e' : d ≡ c = ground arith in rw (e, e', at_p, at_c) up
              | inr g ↦
                  let nd : d ≢ c = ground arith in
                  let kept : at (swap l c p) d ≡ at l d = same d nd (omega arith) in
                  rw (e, at_p, kept) (best d dl (omega arith, omega arith))
            ]
        | inr f ↦
            let nq : q ≢ p = ground arith in
            let kept_q : at (swap l c p) q ≡ at l q = same q ne nq in
            elim (Bool-cases (d == p)) [
              | inl u ↦
                  let e : d ≡ p = ground arith in
                  rw (e, at_p, kept_q) (bridge q c sq cl (omega arith, omega arith) par)
              | inr g ↦
                  let nd : d ≢ p = ground arith in
                  let kept : at (swap l c p) d ≡ at l d = same d (omega arith) nd in
                  rw (kept_q, kept) (heap q d sq dl qd nq)
            ]
      ]),
      (λ q d sq dl qc cd.
          let e : q ≡ p = omega arith in
          let kept : at (swap l c p) d ≡ at l d = same d (omega arith) (omega arith) in
          rw (e, at_p, kept) (heap c d (omega arith) dl cd (omega arith))),
    )

pub adjust_down_loop-IsHeapFrom :
    (fuel : ℕ) (m : Bool) (len : ℕ) (l : List ℕ) (s p : ℕ)
    → len ≤ length l
    → s ≤ p
    → len ≤ fuel + p
    → IsHeapBut m l len s p
    → IsHeapFrom m (adjust_down_loop fuel m len l p) len s
unfolding adjust_down_loop IsHeapFrom IsHeapBut
adjust_down_loop-IsHeapFrom zero m len l s p fit sp enough (heap, bridge) =
    λ q c sq cl qc. heap q c sq cl qc (omega arith)
adjust_down_loop-IsHeapFrom (suc fuel) m len l s p fit sp enough (heap, bridge) =
    let child : ℕ = pick_child m len l (left_child_index p) in
    elim (Bool-cases (ltb (left_child_index p) len)) [
      | inl t ↦
          let (par, cl) = pick_child-IsParent m len l p (ltb→lt (left_child_index p) len t) in
          let best : (d : ℕ) → d < len → IsParent p d → IsAbove m (at l child) (at l d) =
            pick_child-IsAbove m len l p in
          elim (Bool-cases (beats m (at l child) (at l p))) [
            | inl u ↦
                rw (t, u, adjust_down_loop)
                  (adjust_down_loop-IsHeapFrom fuel m len (swap l child p) s child
                    (omega (arith, length-swap l child p)) (omega arith) (omega arith)
                    (swap-IsHeapBut m l len s p child fit sp cl par best
                      (beats-IsAbove m (at l child) (at l p) u) (heap, bridge)))
            | inr g ↦
                rw (t, g, adjust_down_loop)
                  (λ q c sq cl' qc. elim (Bool-cases (q == p)) [
                    | inl w ↦
                        let e : q ≡ p = ground arith in
                        rw e (
                          IsAbove-trans m (at l p) (at l child) (at l c)
                            (beats_not-IsAbove m (at l child) (at l p) g)
                            (best c cl' (omega arith, omega arith)))
                    | inr ne ↦ heap q c sq cl' qc (ground arith)
                  ])
          ]
      | inr f ↦
          let past : len ≤ left_child_index p = ground arith in
          rw (f, adjust_down_loop) (λ q c sq cl qc. heap q c sq cl qc (omega arith))
    ]

pub adjust_down_loop-length :
    (fuel : ℕ) (m : Bool) (len : ℕ) (l : List ℕ) (p : ℕ)
    → length (adjust_down_loop fuel m len l p) ≡ length l
unfolding adjust_down_loop
adjust_down_loop-length zero m len l p = refl
adjust_down_loop-length (suc fuel) m len l p =
    let child : ℕ = pick_child m len l (left_child_index p) in
    elim (Bool-cases (ltb (left_child_index p) len)) [
      | inl t ↦ elim (Bool-cases (beats m (at l child) (at l p))) [
        | inl u ↦
            rw (t, u, adjust_down_loop)
              (adjust_down_loop-length fuel m len (swap l child p) child ∙ length-swap l child p)
        | inr g ↦ rw (t, g, adjust_down_loop) refl
      ]
      | inr f ↦ rw (f, adjust_down_loop) refl
    ]

-- The loop only swaps below `len`: it keeps the elements, and those behind where they are.
pub adjust_down_loop-IsSameBag :
    (fuel : ℕ) (m : Bool) (len : ℕ) (l : List ℕ) (p : ℕ)
    → len ≤ length l
    → IsSameBag (adjust_down_loop fuel m len l p) l
      × ((k : ℕ) → len ≤ k → at (adjust_down_loop fuel m len l p) k ≡ at l k)
unfolding adjust_down_loop
adjust_down_loop-IsSameBag zero m len l p fit = (IsSameBag-refl l, λ k h. refl)
adjust_down_loop-IsSameBag (suc fuel) m len l p fit =
    let child : ℕ = pick_child m len l (left_child_index p) in
    elim (Bool-cases (ltb (left_child_index p) len)) [
      | inl t ↦
          let (par, cl) = pick_child-IsParent m len l p (ltb→lt (left_child_index p) len t) in
          elim (Bool-cases (beats m (at l child) (at l p))) [
            | inl u ↦
                let (bag, kept) =
                  adjust_down_loop-IsSameBag fuel m len (swap l child p) child
                    (omega (arith, length-swap l child p)) in
                rw (t, u, adjust_down_loop)
                  (
                    IsSameBag-trans _ (swap l child p) l bag
                        (swap-IsSameBag l child p (omega arith) (omega arith)),
                    λ k h. kept k h ∙ at-swap_ne l child p k (omega arith) (omega arith),
                  )
            | inr g ↦ rw (t, g, adjust_down_loop) (IsSameBag-refl l, λ k h. refl)
          ]
      | inr f ↦ rw (f, adjust_down_loop) (IsSameBag-refl l, λ k h. refl)
    ]

-- What holds of all elements below `len` holds of them afterwards.
pub adjust_down_loop-All :
    (P : ℕ → Type 0) (fuel : ℕ) (m : Bool) (len : ℕ) (l : List ℕ) (p : ℕ)
    → len ≤ length l
    → ((k : ℕ) → k < len → P (at l k))
    → (k : ℕ) → k < len
    → P (at (adjust_down_loop fuel m len l p) k)
unfolding adjust_down_loop
adjust_down_loop-All P zero m len l p fit all = all
adjust_down_loop-All P (suc fuel) m len l p fit all =
    let child : ℕ = pick_child m len l (left_child_index p) in
    elim (Bool-cases (ltb (left_child_index p) len)) [
      | inl t ↦
          let (par, cl) = pick_child-IsParent m len l p (ltb→lt (left_child_index p) len t) in
          elim (Bool-cases (beats m (at l child) (at l p))) [
            | inl u ↦
                let all' : (k : ℕ) → k < len → P (at (swap l child p) k) = λ k h.
                  elim (Bool-cases (k == child)) [
                    | inl v ↦
                        let e : child ≡ k = ground arith in
                        subst (λ i. P (at (swap l child p) i)) e
                          (subst P (sym (at-swap_left l child p (omega arith) (omega arith)))
                            (all p (omega arith)))
                    | inr w ↦ elim (Bool-cases (k == p)) [
                      | inl v ↦
                          let e : p ≡ k = ground arith in
                          subst (λ i. P (at (swap l child p) i)) e
                            (subst P (sym (at-swap_right l child p (omega arith))) (all child cl))
                      | inr x ↦
                          subst P (sym (at-swap_ne l child p k (ground arith) (ground arith)))
                            (all k h)
                    ]
                  ] in
                rw (t, u, adjust_down_loop)
                  (adjust_down_loop-All P fuel m len (swap l child p) child
                    (omega (arith, length-swap l child p)) all')
            | inr g ↦ rw (t, g, adjust_down_loop) all
          ]
      | inr f ↦ rw (f, adjust_down_loop) all
    ]
