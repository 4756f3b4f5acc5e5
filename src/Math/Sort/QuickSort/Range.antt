-- ===== src/Math/Sort/QuickSort/Range.antt =====
-- Changes of an array within a range of indices.
use ytlib.Base.{
  ℕ, ◌≤◌, ◌<◌, ◌≡◌, ◌≢◌, ◌⊎◌, refl, sym, subst, ◌∙◌, List, length, ltb, ◌==◌, Bool-cases, inl, inr,
  arith,
}
use ytlib.Base.Arrays.{
  at, swap, length-swap, at-swap_left, at-swap_right, at-swap_ne, IsSameBag, IsSameBag-refl,
  IsSameBag-trans, swap-IsSameBag,
}
use ytlib.Math.Sort.QuickSort.{swap_apart}

-- `m` has the elements of `l`, outside the range from `b` up to `e` where they were; what holds of all
-- elements of the range before holds of them afterwards.
unfoldable pub IsRangeOf : List ℕ → List ℕ → ℕ → ℕ → Type 1
IsRangeOf m l b e =
    (length m ≡ length l)
    × IsSameBag m l
    × ((k : ℕ) → (k < b) ⊎ (e ≤ k) → at m k ≡ at l k)
    × ((P : ℕ → Type 0)
        → ((k : ℕ) → b ≤ k → k < e → P (at l k))
        → (k : ℕ) → b ≤ k
        → k < e
        → P (at m k))

module _ (b e : ℕ) where
  pub IsRangeOf-refl : (l : List ℕ) → IsRangeOf l l b e
  unfolding IsRangeOf
  IsRangeOf-refl l = (refl, IsSameBag-refl l, λ k h. refl, λ P all. all)

  pub IsRangeOf-trans : (n m l : List ℕ) → IsRangeOf n m b e → IsRangeOf m l b e → IsRangeOf n l b e
  unfolding IsRangeOf
  IsRangeOf-trans n m l (size, bag, out, all) (size', bag', out', all') = (
    size ∙ size',
    IsSameBag-trans n m l bag bag',
    λ k h. out k h ∙ out' k h,
    λ P h. all P (all' P h),
  )

  apart : (i k : ℕ) → b ≤ i → i < e → (k < b) ⊎ (e ≤ k) → k ≡ i → ⊥
  apart i k bi ie (inl h) x = omega arith
  apart i k bi ie (inr h) x = omega arith

  pub swap-IsRangeOf :
      (l : List ℕ) (i j : ℕ)
      → b ≤ i
      → i < e
      → b ≤ j
      → j < e
      → e ≤ length l
      → IsRangeOf (swap l i j) l b e
  unfolding IsRangeOf
  swap-IsRangeOf l i j bi ie bj je fit = (
    length-swap l i j,
    swap-IsSameBag l i j (omega arith) (omega arith),
    λ k h.
        at-swap_ne l i j k (λ x. absurd (apart i k bi ie h x)) (λ x. absurd (apart j k bj je h x)),
    λ P all k bk ke. elim (Bool-cases (k == j)) [
      | inl t ↦
          let x : j ≡ k = ground arith in
          subst (λ n. P (at (swap l i j) n)) x
            (subst P (sym (at-swap_right l i j (omega arith))) (all i bi ie))
      | inr f ↦ elim (Bool-cases (k == i)) [
        | inl t ↦
            let x : i ≡ k = ground arith in
            let ne : i ≢ j = ground arith in
            subst (λ n. P (at (swap l i j) n)) x
              (subst P (sym (at-swap_left l i j ne (omega arith))) (all j bj je))
        | inr g ↦ subst P (sym (at-swap_ne l i j k (ground arith) (ground arith))) (all k bk ke)
      ]
    ],
  )

  pub swap_apart-IsRangeOf :
      (l : List ℕ) (i j : ℕ)
      → b ≤ i
      → i < e
      → b ≤ j
      → j < e
      → e ≤ length l
      → IsRangeOf (swap_apart l i j) l b e
  unfolding swap_apart
  swap_apart-IsRangeOf l i j bi ie bj je fit = elim (Bool-cases (i == j)) [
    | inl t ↦ rw (t, swap_apart) (IsRangeOf-refl l)
    | inr f ↦ rw (f, swap_apart) (swap-IsRangeOf l i j bi ie bj je fit)
  ]

-- A change in a part of a range is one in the range.
pub IsRangeOf-within :
    (m l : List ℕ) (b e b' e' : ℕ) → b ≤ b' → e' ≤ e → IsRangeOf m l b' e' → IsRangeOf m l b e
unfolding IsRangeOf
IsRangeOf-within m l b e b' e' bb ee (size, bag, out, all) = (
  size,
  bag,
  λ k h. out k (elim h [ inl x ↦ inl (omega arith) | inr x ↦ inr (omega arith) ]),
  λ P h k bk ke. elim (Bool-cases (ltb k b')) [
    | inl t ↦ subst P (sym (out k (inl (ground arith)))) (h k bk ke)
    | inr f ↦ elim (Bool-cases (ltb k e')) [
      | inl t ↦ all P (λ i bi ie. h i (omega arith) (omega arith)) k (ground arith) (ground arith)
      | inr g ↦ subst P (sym (out k (inr (ground arith)))) (h k bk ke)
    ]
  ],
)

pub IsRangeOf-length : (m l : List ℕ) (b e : ℕ) → IsRangeOf m l b e → length m ≡ length l
unfolding IsRangeOf
IsRangeOf-length m l b e range = range.0

pub IsRangeOf-out :
    (m l : List ℕ) (b e : ℕ) → IsRangeOf m l b e → (k : ℕ) → (k < b) ⊎ (e ≤ k) → at m k ≡ at l k
unfolding IsRangeOf
IsRangeOf-out m l b e (size, bag, out, all) = out

pub IsRangeOf-All :
    (m l : List ℕ) (b e : ℕ)
    → IsRangeOf m l b e
    → (P : ℕ → Type 0) → ((k : ℕ) → b ≤ k → k < e → P (at l k))
    → (k : ℕ) → b ≤ k
    → k < e
    → P (at m k)
unfolding IsRangeOf
IsRangeOf-All m l b e (size, bag, out, all) = all

pub IsRangeOf-bag : (m l : List ℕ) (b e : ℕ) → IsRangeOf m l b e → IsSameBag m l
unfolding IsRangeOf
IsRangeOf-bag m l b e (size, bag, out, all) = bag
