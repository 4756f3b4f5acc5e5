-- ===== src/Container/Heap/Up.antt =====
-- AdjustUp: the element rises until its parent may stand above it.
use ytlib.Base.{
  ℕ, zero, suc, ◌≤◌, ◌<◌, ◌≡◌, ◌≢◌, refl, ◌∙◌, Bool, List, length, ltb, ltb→lt, ◌==◌, Bool-cases,
  inl, inr, arith,
}
use ytlib.Base.Arrays.{
  IsSameBag, IsSameBag-refl, IsSameBag-trans, at, at-swap_left, at-swap_ne, at-swap_right,
  length-swap, swap, swap-IsSameBag,
}
use ytlib.Container.Heap.{beats, parent_index, adjust_up_loop}
use ytlib.Container.Heap.Cells.{IsAbove, IsAbove-trans, beats-IsAbove, beats_not-IsAbove}
use ytlib.Container.Heap.Down.{IsParent, IsHeapFrom}

-- A heap but for the place of `child`; its children may stand below its parent.
unfoldable pub IsHeapButUp : Bool → List ℕ → ℕ → Type 0
IsHeapButUp m l child =
    ((p c : ℕ) → c < length l → IsParent p c → c ≢ child → IsAbove m (at l p) (at l c))
    × ((p c : ℕ) → c < length l → IsParent p child → IsParent child c → IsAbove m (at l p) (at l c))

parent_index-IsParent : (c : ℕ) → 0 < c → IsParent (parent_index c) c × (parent_index c < c)
parent_index-IsParent c h = ((omega arith, omega arith), omega arith)

swap-IsHeapButUp :
    (m : Bool) (l : List ℕ) (p c : ℕ)
    → c < length l
    → IsParent p c
    → IsAbove m (at l c) (at l p)
    → IsHeapButUp m l c
    → IsHeapButUp m (swap l c p) p
unfolding IsHeapButUp
swap-IsHeapButUp m l p c cl par up (heap, bridge) =
    let at_c : at (swap l c p) c ≡ at l p = at-swap_left l c p (omega arith) cl in
    let at_p : at (swap l c p) p ≡ at l c = at-swap_right l c p (omega arith) in
    let same = at-swap_ne l c p in
    let size = length-swap l c p in
    (
      (λ q d dl qd ne. elim (Bool-cases (q == p)) [
        | inl t ↦
            let e : q ≡ p = ground arith in
            elim (Bool-cases (d == c)) [
              | inl u ↦ let e' : d ≡ c = ground arith in rw (e, e', at_p, at_c) up
              | inr g ↦
                  let nd : d ≢ c = ground arith in
                  let kept : at (swap l c p) d ≡ at l d = same d nd ne in
                  rw (e, at_p, kept)
                    (IsAbove-trans m (at l c) (at l p) (at l d) up
                      (heap p d (omega (arith, size)) (omega arith, omega arith) nd))
            ]
        | inr f ↦
            let nq : q ≢ p = ground arith in
            let nd : d ≢ c = omega arith in
            let kept : at (swap l c p) d ≡ at l d = same d nd ne in
            elim (Bool-cases (q == c)) [
              | inl u ↦
                  let e : q ≡ c = ground arith in
                  rw (e, at_c, kept)
                    (bridge p d (omega (arith, size)) par (omega arith, omega arith))
              | inr g ↦
                  let kept_q : at (swap l c p) q ≡ at l q = same q (ground arith) nq in
                  rw (kept_q, kept) (heap q d (omega (arith, size)) qd nd)
            ]
      ]),
      (λ q d dl qp pd.
          let kept_q : at (swap l c p) q ≡ at l q = same q (omega arith) (omega arith) in
          let above : IsAbove m (at l q) (at l p) = heap q p (omega arith) qp (omega arith) in
          elim (Bool-cases (d == c)) [
            | inl u ↦ let e : d ≡ c = ground arith in rw (e, at_c, kept_q) above
            | inr g ↦
                let nd : d ≢ c = ground arith in
                let kept : at (swap l c p) d ≡ at l d = same d nd (omega arith) in
                rw (kept_q, kept)
                  (IsAbove-trans m (at l q) (at l p) (at l d) above
                    (heap p d (omega (arith, size)) pd nd))
          ]),
    )

pub adjust_up_loop_lem :
    (fuel : ℕ) (m : Bool) (l : List ℕ) (c : ℕ)
    → c < length l
    → c ≤ fuel
    → IsHeapButUp m l c
    → IsHeapFrom m (adjust_up_loop fuel m l c) (length l) 0
      × IsSameBag (adjust_up_loop fuel m l c) l
unfolding adjust_up_loop IsHeapFrom IsHeapButUp
adjust_up_loop_lem zero m l c cl enough (heap, bridge) =
    (λ p d sp dl pd. heap p d dl pd (omega arith), IsSameBag-refl l)
adjust_up_loop_lem (suc fuel) m l c cl enough (heap, bridge) = elim (Bool-cases (ltb 0 c)) [
  | inl t ↦
      let p : ℕ = parent_index c in
      let (par, less) = parent_index-IsParent c (ltb→lt 0 c t) in
      let size = length-swap l c p in
      elim (Bool-cases (beats m (at l c) (at l p))) [
        | inl u ↦
            let next : IsHeapButUp m (swap l c p) p =
              swap-IsHeapButUp m l p c cl par (beats-IsAbove m (at l c) (at l p) u)
                (heap, bridge) in
            let (heap', bag) =
              adjust_up_loop_lem fuel m (swap l c p) p (omega (arith, size)) (omega arith) next in
            rw (t, u, adjust_up_loop)
              (
                λ q d sq dl qd. heap' q d sq (omega (arith, size)) qd,
                IsSameBag-trans _ (swap l c p) l bag (swap-IsSameBag l c p cl (omega arith)),
              )
        | inr g ↦
            rw (t, g, adjust_up_loop)
              (
                λ q d sq dl qd. elim (Bool-cases (d == c)) [
                  | inl w ↦
                      let e : d ≡ c = ground arith in
                      let e' : q ≡ p = omega arith in
                      rw (e, e') (beats_not-IsAbove m (at l c) (at l p) g)
                  | inr ne ↦ heap q d dl qd (ground arith)
                ],
                IsSameBag-refl l,
              )
      ]
  | inr f ↦
      let first : c ≡ 0 = ground arith in
      rw (f, adjust_up_loop) (λ p d sp dl pd. heap p d dl pd (omega arith), IsSameBag-refl l)
]

pub adjust_up_loop-length :
    (fuel : ℕ) (m : Bool) (l : List ℕ) (c : ℕ) → length (adjust_up_loop fuel m l c) ≡ length l
unfolding adjust_up_loop
adjust_up_loop-length zero m l c = refl
adjust_up_loop-length (suc fuel) m l c = elim (Bool-cases (ltb 0 c)) [
  | inl t ↦
      let p : ℕ = parent_index c in
      elim (Bool-cases (beats m (at l c) (at l p))) [
        | inl u ↦
            rw (t, u, adjust_up_loop)
              (adjust_up_loop-length fuel m (swap l c p) p ∙ length-swap l c p)
        | inr g ↦ rw (t, g, adjust_up_loop) refl
      ]
  | inr f ↦ rw (f, adjust_up_loop) refl
]
