-- ===== src/Math/Sort/Bubble.antt =====
-- BubbleSort: each round takes the largest of what is not yet sorted behind the rest.
use mathlib.Core.List.{Perm, perm_middle}
use mathlib.Core.List.Perm
use ytlib.Base.{
  ℕ, zero, suc, ◌≤◌, ◌≡◌, refl, ap, sym, List, [], ◌∷◌, ◌++◌, append-nil, arith, ltb, ltb→lt,
  Bool-cases, inl, inr, All, length,
}
use ytlib.Math.Sort.{bubble_pass, bubble_rounds, bubble_sort}
use ytlib.Math.Sort.Sorted.{Sorted, All-below_cons, All-below_nil}

module _ {ℓ} {A : Type ℓ} (key : A → ℕ) where
  -- What a round makes of `x ∷ p` in front of the sorted rest: the largest of them, and the others.
  abbrev Round : (A → Type 0) → A → List A → List A → List A → Type ℓ
  Round P x p s result =
      (p' : List A) × (m : A) × (result ≡ p' ++ (m ∷ s))
      × (length p' ≡ length p)
      × (key x ≤ key m)
      × All (λ y. key y ≤ key m) p'
      × Perm (m ∷ p') (x ∷ p)
      × (P x → All P p → P m × All P p')

  bubble_pass_lem :
      (P : A → Type 0) (x : A) (p s : List A)
      → Round P x p s (bubble_pass key (length p) (x ∷ (p ++ s)))
  unfolding bubble_pass
  bubble_pass_lem P x [] s =
      ([], x, refl, refl, omega arith, tt, Perm.refl (x ∷ []), λ px h. (px, tt))
  bubble_pass_lem P x (y ∷ p) s = elim (Bool-cases (ltb (key y) (key x))) [
    | inl swapped ↦
        let (p', m, eq, len, x_m, le, perm, keep) = bubble_pass_lem P x p s in
        (
          y ∷ p',
          m,
          rw (swapped, bubble_pass) (ap (λ t. y ∷ t) eq),
          ap suc len,
          x_m,
          (omega (arith, ltb→lt (key y) (key x) swapped), le),
          Perm.trans (Perm.swap y m p') (Perm.trans (Perm.cons y perm) (Perm.swap x y p)),
          λ px h. ((keep px h.1).0, (h.0, (keep px h.1).1)),
        )
    | inr kept ↦
        let (p', m, eq, len, x_m, le, perm, keep) = bubble_pass_lem P y p s in
        (
          x ∷ p',
          m,
          rw (kept, bubble_pass) (ap (λ t. x ∷ t) eq),
          ap suc len,
          ground arith,
          (ground arith, le),
          Perm.trans (Perm.swap x m p') (Perm.cons x perm),
          λ px h. ((keep h.0 h.1).0, (px, (keep h.0 h.1).1)),
        )
  ]

  bubble_rounds_lem :
      (p s : List A) (n : ℕ)
      → length p ≡ n
      → Sorted key s
      → All (λ x. All (λ y. key x ≤ key y) s) p
      → Sorted key (bubble_rounds key n (p ++ s)) × Perm (bubble_rounds key n (p ++ s)) (p ++ s)
  unfolding bubble_rounds
  bubble_rounds_lem [] s zero len sorted below = (sorted, Perm.refl s)
  bubble_rounds_lem [] s (suc n) len sorted below = absurd (omega arith)
  bubble_rounds_lem (x ∷ p) s zero len sorted below = absurd (omega arith)
  bubble_rounds_lem (x ∷ p) s (suc n) len sorted below =
      let len_p : length p ≡ n = omega arith in
      let (p', m, eq, len', x_m, le, perm, keep) =
        bubble_pass_lem (λ x. All (λ y. key x ≤ key y) s) x p s in
      let (m_s, p'_s) = keep below.0 below.1 in
      let ih =
        bubble_rounds_lem p' (m ∷ s) n (omega arith) (m_s, sorted)
          (All-below_cons key m p' s le p'_s) in
      rw (sym len_p, eq, len_p)
        (ih.0, Perm.trans ih.1 (Perm.trans (perm_middle p' s) (Perm.append_right s perm)))

  -- BubbleSort leaves a sorted array, which holds the same elements, each as often as before.
  pub bubble_sort_lem :
      (arr : List A) → Sorted key (bubble_sort key arr) × Perm (bubble_sort key arr) arr
  unfolding bubble_sort
  bubble_sort_lem [] = (tt, Perm.refl [])
  bubble_sort_lem (x ∷ []) = ((tt, tt), Perm.refl (x ∷ []))
  bubble_sort_lem (x ∷ y ∷ arr) = elim (Bool-cases (ltb (length (x ∷ y ∷ arr)) 2)) [
    | inl short ↦ absurd (omega (arith, ltb→lt (length (x ∷ y ∷ arr)) 2 short))
    | inr long ↦
        let all = x ∷ y ∷ arr in
        rw (long, sym (append-nil all))
          (bubble_rounds_lem all [] (length all) refl tt (All-below_nil key all))
  ]
