-- ===== src/Math/Sort/QuickSort/Order.antt =====
-- QuickSort sorts: the recursion on both sides of the element that divides the range.
use ytlib.Base.{
  ℕ, zero, suc, ◌+◌, ◌-◌, ◌≤◌, ◌<◌, ◌≡◌, ◌≢◌, subst, ◌∙◌, List, length, ltb, ltb→lt, ◌==◌,
  if◌then◌else◌, Bool-cases, inl, inr, arith,
}
use ytlib.Base.Arrays.{at, swap, at-swap_left, at-swap_right, IsSameBag}
use ytlib.Math.Sort.QuickSort.{partition, quick_sort}
use ytlib.Math.Sort.QuickSort.Range.{
  IsRangeOf, IsRangeOf-refl, IsRangeOf-trans, IsRangeOf-within, IsRangeOf-length, IsRangeOf-out,
  IsRangeOf-All, IsRangeOf-bag, swap-IsRangeOf,
}
use ytlib.Math.Sort.QuickSort.Partition.{IsDivided, partition_lem}

IsSortedIn : List ℕ → ℕ → ℕ → Type 0
IsSortedIn l b e = (i j : ℕ) → b ≤ i → i ≤ j → j < e → at l i ≤ at l j

up_to :
    (m l' : List ℕ) (i c : ℕ)
    → i ≤ c
    → at m c ≡ at l' c
    → (i < c → at m i ≤ at l' c)
    → at m i ≤ at l' c
up_to m l' i c ic mid below = elim (Bool-cases (i == c)) [
  | inl t ↦ let e : c ≡ i = ground arith in subst (λ n. at m n ≤ at l' c) e (omega (arith, mid))
  | inr f ↦ below (ground arith)
]

from_on :
    (m l' : List ℕ) (j c : ℕ)
    → c ≤ j
    → at m c ≡ at l' c
    → (c < j → at l' c ≤ at m j)
    → at l' c ≤ at m j
from_on m l' j c cj mid above = elim (Bool-cases (j == c)) [
  | inl t ↦ let e : c ≡ j = ground arith in subst (λ n. at l' c ≤ at m n) e (omega (arith, mid))
  | inr f ↦ above (ground arith)
]

single_sorted : (l : List ℕ) (b e : ℕ) → e ≤ b + 1 → IsSortedIn l b e
unfolding IsSortedIn
single_sorted l b e one i j bi ij je = let same : i ≡ j = omega arith in rw same (omega arith)

pair_sorted :
    (l : List ℕ) (b i j : ℕ) → b ≤ i → i ≤ j → j < b + 2 → at l b ≤ at l (b + 1) → at l i ≤ at l j
pair_sorted l b i j bi ij je le = elim (Bool-cases (i == j)) [
  | inl t ↦ let e : i ≡ j = ground arith in rw e (omega arith)
  | inr f ↦
      let ne : i ≢ j = ground arith in
      let first : i ≡ b = omega arith in
      let second : j ≡ b + 1 = omega arith in rw (first, second) le
]

-- Two elements, swapped if they are out of order
two_sorted :
    (l : List ℕ) (b e : ℕ)
    → e ≡ b + 2
    → e ≤ length l
    → (let m = if ltb (at l (b + 1)) (at l b) then swap l b (b + 1) else l in
        IsRangeOf m l b e × IsSortedIn m b e)
unfolding IsSortedIn
two_sorted l b e end fit = elim (Bool-cases (ltb (at l (b + 1)) (at l b))) [
  | inl t ↦
      let low : at (swap l b (b + 1)) b ≡ at l (b + 1) =
        at-swap_left l b (b + 1) (omega arith) (omega arith) in
      let high : at (swap l b (b + 1)) (b + 1) ≡ at l b = at-swap_right l b (b + 1) (omega arith) in
      rw t (
        swap-IsRangeOf b e l b (b + 1) (omega arith) (omega arith) (omega arith) (omega arith) fit,
        λ i j bi ij je.
            pair_sorted (swap l b (b + 1)) b i j bi ij (omega arith)
              (omega (arith, low, high, ltb→lt (at l (b + 1)) (at l b) t)),
      )
  | inr f ↦
      let le : at l b ≤ at l (b + 1) = ground arith in
      rw f (IsRangeOf-refl b e l, λ i j bi ij je. pair_sorted l b i j bi ij (omega arith) le)
]

-- A divided range with both sides sorted is sorted.
two_sides :
    (l' left m : List ℕ) (b c e : ℕ)
    → b ≤ c
    → c < e
    → IsDivided l' b e c c
    → IsRangeOf left l' b c
    → IsSortedIn left b c
    → IsRangeOf m left (c + 1) e
    → IsSortedIn m (c + 1) e
    → IsSortedIn m b e
unfolding IsSortedIn IsDivided
two_sides l' left m b c e bc ce (below, above) range_l sort_l range_r sort_r i j bi ij je =
    let out_l = IsRangeOf-out left l' b c range_l in
    let out_r = IsRangeOf-out m left (c + 1) e range_r in
    let mid : at m c ≡ at l' c = out_r c (inl (omega arith)) ∙ out_l c (inr (omega arith)) in
    let low : (k : ℕ) → b ≤ k → k < c → at m k ≤ at l' c = λ k bk kc.
      let kept : at m k ≡ at left k = out_r k (inl (omega arith)) in
      rw kept (IsRangeOf-All left l' b c range_l (λ v. v ≤ at l' c) below k bk kc) in
    let high : (k : ℕ) → c < k → k < e → at l' c ≤ at m k = λ k ck ke.
      IsRangeOf-All m left (c + 1) e range_r (λ v. at l' c ≤ v)
        (λ n cn ne.
          let kept : at left n ≡ at l' n = out_l n (inr (omega arith)) in
          rw kept (above n (omega arith) ne))
        k (omega arith) ke in
    elim (Bool-cases (ltb j c)) [
      | inl t ↦
          let jc : j < c = ltb→lt j c t in
          let kept_i : at m i ≡ at left i = out_r i (inl (omega arith)) in
          let kept_j : at m j ≡ at left j = out_r j (inl (omega arith)) in
          rw (kept_i, kept_j) (sort_l i j bi ij jc)
      | inr f ↦ elim (Bool-cases (ltb c i)) [
        | inl t ↦ let ci : c < i = ltb→lt c i t in sort_r i j (omega arith) ij je
        | inr g ↦
            let ci : i ≤ c = ground arith in
            let cj : c ≤ j = ground arith in
            let first : at m i ≤ at l' c = up_to m l' i c ci mid (λ h. low i bi h) in
            let second : at l' c ≤ at m j = from_on m l' j c cj mid (λ h. high j h je) in
            omega arith
      ]
    ]

quick_sort_range :
    (fuel : ℕ) (l : List ℕ) (b len e : ℕ)
    → e ≡ b + len
    → e ≤ length l
    → len ≤ fuel
    → IsRangeOf (quick_sort fuel l b len) l b e × IsSortedIn (quick_sort fuel l b len) b e
unfolding quick_sort
quick_sort_range zero l b len e end fit enough =
    (IsRangeOf-refl b e l, unfold IsSortedIn in λ i j bi ij je. absurd (omega arith))
quick_sort_range (suc fuel) l b len e end fit enough = elim (Bool-cases (ltb len 2)) [
  | inl t ↦
      let short : len < 2 = ltb→lt len 2 t in
      rw (t, quick_sort) (IsRangeOf-refl b e l, single_sorted l b e (omega arith))
  | inr f ↦
      let long : 2 ≤ len = ground arith in
      elim (Bool-cases (len == 2)) [
        | inl u ↦
            let pair : len ≡ 2 = ground arith in
            rw (f, u, quick_sort) (two_sorted l b e (omega arith) fit)
        | inr g ↦
            let div : IsDivided l b e b (b + len - 1) =
              unfold IsDivided in
              (λ k h h'. absurd (omega arith), λ k h h'. absurd (omega arith)) in
            let c : ℕ = (partition len l b (b + len - 1) b).1 in
            let l' : List ℕ = (partition len l b (b + len - 1) b).0 in
            let (lo, hi, range, div') =
              partition_lem len l b e b (b + len - 1) (omega arith) (omega arith) (omega arith) fit
                (omega arith) div in
            let size = IsRangeOf-length l' l b e range in
            let (range_l, sort_l) =
              quick_sort_range fuel l' b (c - b) c (omega arith) (omega arith) (omega arith) in
            let left : List ℕ = quick_sort fuel l' b (c - b) in
            let size' = IsRangeOf-length left l' b c range_l in
            let (range_r, sort_r) =
              quick_sort_range fuel left (c + 1) (b + len - 1 - c) e (omega arith) (omega arith)
                (omega arith) in
            let m : List ℕ = quick_sort fuel left (c + 1) (b + len - 1 - c) in
            rw (f, g, quick_sort)
              (
                IsRangeOf-trans b e m left l
                    (IsRangeOf-within m left b e (c + 1) e (omega arith) (omega arith) range_r)
                    (IsRangeOf-trans b e left l' l
                      (IsRangeOf-within left l' b e b c (omega arith) (omega arith) range_l) range),
                two_sides l' left m b c e lo hi div' range_l sort_l range_r sort_r,
              )
      ]
]

-- QuickSort of an array ends with the same elements in ascending order.
pub quick_sort_lem :
    (arr : List ℕ)
    → (let sorted = quick_sort (length arr) arr 0 (length arr) in
        ((i j : ℕ) → i ≤ j → j < length arr → at sorted i ≤ at sorted j)
        × IsSameBag sorted arr
        × (length sorted ≡ length arr))
quick_sort_lem arr =
    let (range, sorted) =
      quick_sort_range (length arr) arr 0 (length arr) (length arr) (omega arith) (omega arith)
        (omega arith) in
    (
      λ i j ij jl. unfold IsSortedIn in sorted i j (omega arith) ij jl,
      IsRangeOf-bag _ arr 0 (length arr) range,
      IsRangeOf-length _ arr 0 (length arr) range,
    )
