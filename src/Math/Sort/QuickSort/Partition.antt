-- ===== src/Math/Sort/QuickSort/Partition.antt =====
-- The scans and the partition of QuickSort: an element divides the range.
use ytlib.Base.{
  ℕ, zero, suc, ◌+◌, ◌-◌, ◌≤◌, ◌<◌, ◌≡◌, ◌≢◌, ◌⊎◌, refl, ap, sym, subst, ◌∙◌, List, length, ltb,
  leb, leb→le, leb-false, ltb→lt, ◌==◌, Bool-cases, inl, inr, arith,
}
use ytlib.Base.Arrays.{at, at-swap_left, at-swap_right, at-swap_ne}
use ytlib.Math.Sort.QuickSort.{swap_apart, scan_down, scan_up, partition}
use ytlib.Math.Sort.QuickSort.Range.{
  IsRangeOf, IsRangeOf-refl, IsRangeOf-trans, IsRangeOf-length, swap_apart-IsRangeOf,
}

scan_down_lem :
    (fuel : ℕ) (l : List ℕ) (first last cur : ℕ)
    → first ≤ last
    → last ≤ fuel + first
    → (let r = scan_down fuel l first last cur in
        (first ≤ r)
        × (r ≤ last)
        × ((k : ℕ) → r < k → k ≤ last → at l cur ≤ at l k)
        × ((r ≡ first) ⊎ (at l r < at l cur)))
unfolding scan_down
scan_down_lem zero l first last cur le enough =
    (le, omega arith, λ k h h'. absurd (omega arith), inl (omega arith))
scan_down_lem (suc fuel) l first last cur le enough = elim (Bool-cases (ltb first last)) [
  | inl t ↦
      let lt : first < last = ltb→lt first last t in
      elim (Bool-cases (leb (at l cur) (at l last))) [
        | inl u ↦
            let (lo, hi, above, stop) =
              scan_down_lem fuel l first (last - 1) cur (omega arith) (omega arith) in
            rw (t, u, scan_down)
              (
                lo,
                omega arith,
                λ k h h'. elim (Bool-cases (k == last)) [
                  | inl v ↦
                      let e : last ≡ k = ground arith in
                      subst (λ n. at l cur ≤ at l n) e (leb→le (at l cur) (at l last) u)
                  | inr w ↦ let ne : k ≢ last = ground arith in above k h (omega arith)
                ],
                stop,
              )
        | inr g ↦
            rw (t, g, scan_down)
              (
                omega arith,
                omega arith,
                λ k h h'. absurd (omega arith),
                inr (leb-false (at l cur) (at l last) g),
              )
      ]
  | inr f ↦
      let same : last ≡ first = ground arith in
      rw (f, scan_down) (le, omega arith, λ k h h'. absurd (omega arith), inl same)
]

scan_up_lem :
    (fuel : ℕ) (l : List ℕ) (first last cur : ℕ)
    → first ≤ last
    → last ≤ fuel + first
    → (let r = scan_up fuel l first last cur in
        (first ≤ r)
        × (r ≤ last)
        × ((k : ℕ) → first ≤ k → k < r → at l k ≤ at l cur)
        × ((r ≡ last) ⊎ (at l cur < at l r)))
unfolding scan_up
scan_up_lem zero l first last cur le enough =
    (omega arith, le, λ k h h'. absurd (omega arith), inl (omega arith))
scan_up_lem (suc fuel) l first last cur le enough = elim (Bool-cases (ltb first last)) [
  | inl t ↦
      let lt : first < last = ltb→lt first last t in
      elim (Bool-cases (leb (at l first) (at l cur))) [
        | inl u ↦
            let (lo, hi, below, stop) =
              scan_up_lem fuel l (first + 1) last cur (omega arith) (omega arith) in
            rw (t, u, scan_up)
              (
                omega arith,
                hi,
                λ k h h'. elim (Bool-cases (k == first)) [
                  | inl v ↦
                      let e : first ≡ k = ground arith in
                      subst (λ n. at l n ≤ at l cur) e (leb→le (at l first) (at l cur) u)
                  | inr w ↦ let ne : k ≢ first = ground arith in below k (omega arith) h'
                ],
                stop,
              )
        | inr g ↦
            rw (t, g, scan_up)
              (
                omega arith,
                le,
                λ k h h'. absurd (omega arith),
                inr (leb-false (at l first) (at l cur) g),
              )
      ]
  | inr f ↦
      let same : first ≡ last = ground arith in
      rw (f, scan_up) (omega arith, le, λ k h h'. absurd (omega arith), inl same)
]

swap_apart_lem :
    (l : List ℕ) (i j : ℕ)
    → i < length l
    → j < length l
    → (at (swap_apart l i j) j ≡ at l i)
      × (at (swap_apart l i j) i ≡ at l j)
      × ((k : ℕ) → k ≢ i → k ≢ j → at (swap_apart l i j) k ≡ at l k)
unfolding swap_apart
swap_apart_lem l i j hi hj = elim (Bool-cases (i == j)) [
  | inl t ↦
      let e : i ≡ j = ground arith in
      rw (t, swap_apart) (ap (at l) (sym e), ap (at l) e, λ k ni nj. refl)
  | inr f ↦
      rw (f, swap_apart)
        (
          at-swap_right l i j hj,
          at-swap_left l i j (ground arith) hi,
          λ k ni nj. at-swap_ne l i j k ni nj,
        )
]

-- The element at `first` divides the range from `b` to `e`, but for what is between `first` and `last`.
unfoldable pub IsDivided : List ℕ → ℕ → ℕ → ℕ → ℕ → Type 0
IsDivided l b e first last =
    ((k : ℕ) → b ≤ k → k < first → at l k ≤ at l first)
    × ((k : ℕ) → last < k → k < e → at l first ≤ at l k)

-- A round brings the scans together: if the one from the end stands still, the other moves.
progress :
    (l : List ℕ) (first last r f : ℕ)
    → r ≤ last
    → first ≤ f
    → f ≤ r
    → first < last
    → (r ≡ first) ⊎ (at l r < at l first)
    → (f ≡ r) ⊎ (at (swap_apart l first r) r < at (swap_apart l first r) f)
    → at (swap_apart l first r) r ≡ at l first
    → at (swap_apart l first r) first ≡ at l r
    → r + first < last + f
progress l first last r f rl ff fr fl r_stop (inl e) at_r at_first = omega arith
progress l first last r f rl ff fr fl (inl e) (inr lt) at_r at_first = omega arith
progress l first last r f rl ff fr fl (inr low) (inr lt) at_r at_first =
    elim (Bool-cases (f == first)) [
      | inl t ↦
          let e : f ≡ first = ground arith in
          let lt' : at (swap_apart l first r) r < at (swap_apart l first r) first =
            subst (λ n. at (swap_apart l first r) r < at (swap_apart l first r) n) e lt in
          absurd (omega arith)
      | inr g ↦ let ne : f ≢ first = ground arith in omega arith
    ]

-- A round of the partition: both scans and both swaps
round_lem :
    (l : List ℕ) (b e first last : ℕ)
    → b ≤ first
    → first < last
    → last < e
    → e ≤ length l
    → IsDivided l b e first last
    → (let r = scan_down (last - first) l first last first in
        let l1 = swap_apart l first r in
        let f = scan_up (r - first) l1 first r r in
        let l2 = swap_apart l1 r f in
        (first ≤ f)
        × (f ≤ r)
        × (r ≤ last)
        × (r + first < last + f)
        × IsRangeOf l2 l b e
        × IsDivided l2 b e f r)
unfolding IsDivided
round_lem l b e first last bf fl le fit (below, above) =
    let r : ℕ = scan_down (last - first) l first last first in
    let (r_lo, r_hi, r_above, r_stop) =
      scan_down_lem (last - first) l first last first (omega arith) (omega arith) in
    let l1 : List ℕ = swap_apart l first r in
    let (at_r, at_first, same1) = swap_apart_lem l first r (omega arith) (omega arith) in
    let range1 =
      swap_apart-IsRangeOf b e l first r bf (omega arith) (omega arith) (omega arith) fit in
    let size1 : length l1 ≡ length l = IsRangeOf-length l1 l b e range1 in
    let f : ℕ = scan_up (r - first) l1 first r r in
    let l2 : List ℕ = swap_apart l1 r f in
    let (f_lo, f_hi, f_below, f_stop) = scan_up_lem (r - first) l1 first r r r_lo (omega arith) in
    let (at_f, at_r2, same2) = swap_apart_lem l1 r f (omega arith) (omega arith) in
    let range2 =
      swap_apart-IsRangeOf b e l1 r f (omega arith) (omega arith) (omega arith) (omega arith)
        (omega arith) in
    let pivot : at l2 f ≡ at l first = at_f ∙ at_r in
    (
      f_lo,
      f_hi,
      r_hi,
      progress l first last r f r_hi f_lo f_hi fl r_stop f_stop at_r at_first,
      IsRangeOf-trans b e l2 l1 l range2 range1,
      (
        λ k bk kf. elim (Bool-cases (ltb k first)) [
          | inl t ↦
              let kl : k < first = ltb→lt k first t in
              let kept : at l2 k ≡ at l k =
                same2 k (omega arith) (omega arith) ∙ same1 k (omega arith) (omega arith) in
              rw (pivot, kept) (below k bk kl)
          | inr g ↦
              let kept : at l2 k ≡ at l1 k = same2 k (omega arith) (omega arith) in
              let le_pivot : at l1 k ≤ at l1 r = f_below k (ground arith) kf in
              rw (at_f, kept) le_pivot
        ],
        λ k rk ke.
            let kept : at l2 k ≡ at l k =
              same2 k (omega arith) (omega arith) ∙ same1 k (omega arith) (omega arith) in
            rw (pivot, kept)
              (elim (Bool-cases (ltb last k)) [
                | inl t ↦ above k (ltb→lt last k t) ke
                | inr g ↦ r_above k rk (ground arith)
              ]),
      ),
    )

-- The partition of a range: the element at the index that it gives divides it.
pub partition_lem :
    (fuel : ℕ) (l : List ℕ) (b e first last : ℕ)
    → b ≤ first
    → first ≤ last
    → last < e
    → e ≤ length l
    → last ≤ fuel + first
    → IsDivided l b e first last
    → (let (l', c) = partition fuel l first last first in
        (b ≤ c) × (c < e) × IsRangeOf l' l b e × IsDivided l' b e c c)
unfolding partition
partition_lem zero l b e first last bf fl le fit enough div =
    let same : last ≡ first = omega arith in
    (bf, omega arith, IsRangeOf-refl b e l, subst (λ n. IsDivided l b e first n) same div)
partition_lem (suc fuel) l b e first last bf fl le fit enough div =
    elim (Bool-cases (ltb first last)) [
      | inl t ↦
          let (f_lo, f_hi, r_hi, less, range, div') =
            round_lem l b e first last bf (ltb→lt first last t) le fit div in
          let size = IsRangeOf-length _ l b e range in
          let (lo, hi, range', div'') =
            partition_lem fuel _ b e _ _ (omega arith) f_hi (omega arith) (omega arith)
              (omega arith) div' in
          rw (t, partition) (lo, hi, IsRangeOf-trans b e _ _ l range' range, div'')
      | inr f ↦
          let same : last ≡ first = ground arith in
          rw (f, partition)
            (bf, omega arith, IsRangeOf-refl b e l, subst (λ n. IsDivided l b e first n) same div)
    ]
