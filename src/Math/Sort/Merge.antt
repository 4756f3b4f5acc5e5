-- ===== src/Math/Sort/Merge.antt =====
-- MergeSort: the merging loop and its two copies give the merge of the sorted halves.
use mathlib.Core.List.{Perm, perm_middle}
use mathlib.Core.List.Perm
use ytlib.Base.{
  ℕ, zero, suc, ◌+◌, ◌≤◌, ◌⊎◌, ◌≡◌, refl, ap, ap₂, sym, subst, ◌∙◌, true, false, List, [], ◌∷◌,
  ◌++◌, append-nil, append_assoc, arith, ltb, ltb→lt, Bool-cases, inl, inr, All, All-append,
  length-append, drop-append, take, drop, drop_all, ◌/◌, ◌==◌, take-append-drop, length-take,
  length-drop, length,
}
use ytlib.Math.Sort.{merge_loop, copy_back, copy_to, merge_halves, merge_sort, sort_two}
use ytlib.Math.Sort.Sorted.{Sorted, All-weaken}

module _ {ℓ} {A : Type ℓ} (key : A → ℕ) where
  -- The merge of two lists, with no array behind it
  merge : ℕ → List A → List A → List A
  merge zero l r = l ++ r
  merge (suc n) [] r = r
  merge (suc n) (x ∷ l) [] = x ∷ l
  merge (suc n) (x ∷ l) (y ∷ r) = elim (ltb (key x) (key y)) [
    | true ↦ x ∷ merge n l (y ∷ r)
    | false ↦ y ∷ merge n (x ∷ l) r
  ]

  merge_loop-merge :
      (n : ℕ) (t l r : List A)
      → (let w = merge_loop key n t l r in w.0 ++ (w.1 ++ w.2)) ≡ t ++ merge n l r
  unfolding merge_loop merge
  merge_loop-merge zero t l r = refl
  merge_loop-merge (suc n) t [] r = refl
  merge_loop-merge (suc n) t (x ∷ l) [] = ap (λ s. t ++ s) (append-nil (x ∷ l))
  merge_loop-merge (suc n) t (x ∷ l) (y ∷ r) = elim (Bool-cases (ltb (key x) (key y))) [
    | inl lt ↦
        rw (lt, merge, merge_loop)
          (merge_loop-merge n (t ++ x ∷ []) l (y ∷ r) ∙ append_assoc t (x ∷ []) (merge n l (y ∷ r)))
    | inr ge ↦
        rw (ge, merge, merge_loop)
          (merge_loop-merge n (t ++ y ∷ []) (x ∷ l) r ∙ append_assoc t (y ∷ []) (merge n (x ∷ l) r))
  ]

  merge-All {κ} : (P : A → Type κ) (n : ℕ) (l r : List A) → All P l → All P r → All P (merge n l r)
  unfolding merge
  merge-All P zero l r h k = All-append P l r h k
  merge-All P (suc n) [] r h k = k
  merge-All P (suc n) (x ∷ l) [] h k = h
  merge-All P (suc n) (x ∷ l) (y ∷ r) h k = elim (Bool-cases (ltb (key x) (key y))) [
    | inl lt ↦ rw (lt, merge) (h.0, merge-All _ n l (y ∷ r) h.1 k)
    | inr ge ↦ rw (ge, merge) (k.0, merge-All _ n (x ∷ l) r h k.1)
  ]

  merge-Sorted :
      (n : ℕ) (l r : List A)
      → length l + length r ≤ n
      → Sorted key l
      → Sorted key r
      → Sorted key (merge n l r)
  unfolding merge
  merge-Sorted zero [] [] le h k = tt
  merge-Sorted zero [] (y ∷ r) le h k = absurd (omega arith)
  merge-Sorted zero (x ∷ l) r le h k = absurd (omega arith)
  merge-Sorted (suc n) [] r le h k = k
  merge-Sorted (suc n) (x ∷ l) [] le h k = h
  merge-Sorted (suc n) (x ∷ l) (y ∷ r) le h k = elim (Bool-cases (ltb (key x) (key y))) [
    | inl lt ↦
        let x_y = ltb→lt (key x) (key y) lt in
        rw (lt, merge)
          (
            merge-All _ n l (y ∷ r) h.0 (omega arith, All-weaken r (λ z y_z. omega arith) k.0),
            merge-Sorted n l (y ∷ r) (omega arith) h.1 k,
          )
    | inr ge ↦
        let y_x : key y ≤ key x = ground arith in
        rw (ge, merge)
          (
            merge-All _ n (x ∷ l) r (y_x, All-weaken l (λ z x_z. omega arith) h.0) k.0,
            merge-Sorted n (x ∷ l) r (omega arith) h k.1,
          )
  ]

  merge-Perm : (n : ℕ) (l r : List A) → Perm (merge n l r) (l ++ r)
  unfolding merge
  merge-Perm zero l r = Perm.refl (l ++ r)
  merge-Perm (suc n) [] r = Perm.refl r
  merge-Perm (suc n) (x ∷ l) [] =
      subst (λ t. Perm (x ∷ l) t) (sym (append-nil (x ∷ l))) (Perm.refl (x ∷ l))
  merge-Perm (suc n) (x ∷ l) (y ∷ r) = elim (Bool-cases (ltb (key x) (key y))) [
    | inl lt ↦ rw (lt, merge) (Perm.cons x (merge-Perm n l (y ∷ r)))
    | inr ge ↦
        rw (ge, merge)
          (Perm.trans (Perm.cons y (merge-Perm n (x ∷ l) r)) (Perm.symm (perm_middle (x ∷ l) r)))
  ]

module _ {ℓ} {A : Type ℓ} where
  -- Where the merging loop stops: how much of each half it has moved, and that one of them is empty.
  abbrev Stopped : List A → List A → List A → List A × List A × List A → Type ℓ
  Stopped t l r (t', l', r') =
      (pl pr : List A) × (l ≡ pl ++ l')
      × (r ≡ pr ++ r')
      × (length t' ≡ length t + length pl + length pr)
      × ((l' ≡ []) ⊎ (r' ≡ []))

module _ {ℓ} {A : Type ℓ} (key : A → ℕ) where
  merge_loop-Stopped :
      (n : ℕ) (t l r : List A) → length l + length r ≤ n → Stopped t l r (merge_loop key n t l r)
  unfolding merge_loop
  merge_loop-Stopped zero t [] r le = ([], [], refl, refl, omega arith, inl refl)
  merge_loop-Stopped zero t (x ∷ l) r le = absurd (omega arith)
  merge_loop-Stopped (suc n) t [] r le = ([], [], refl, refl, omega arith, inl refl)
  merge_loop-Stopped (suc n) t (x ∷ l) [] le = ([], [], refl, refl, omega arith, inr refl)
  merge_loop-Stopped (suc n) t (x ∷ l) (y ∷ r) le = elim (Bool-cases (ltb (key x) (key y))) [
    | inl lt ↦
        let (pl, pr, el, er, len, out) =
          merge_loop-Stopped n (t ++ x ∷ []) l (y ∷ r) (omega arith) in
        rw (lt, merge_loop)
          (x ∷ pl, pr, ap (λ s. x ∷ s) el, er, omega (arith, length-append t (x ∷ [])), out)
    | inr ge ↦
        let (pl, pr, el, er, len, out) =
          merge_loop-Stopped n (t ++ y ∷ []) (x ∷ l) r (omega arith) in
        rw (ge, merge_loop)
          (pl, y ∷ pr, el, ap (λ s. y ∷ s) er, omega (arith, length-append t (y ∷ [])), out)
  ]

module _ {ℓ} {A : Type ℓ} where
  copy_to_start : (arr t : List A) → copy_to arr 0 t ≡ t ++ drop (length t) arr
  copy_to_start arr t = ap (λ k. t ++ drop k arr) {x = 0 + length t} (omega arith)

  -- The copies put the merge together: what has been moved, and the rest of either half.
  copy_back-Stopped :
      (l r : List A) (w : List A × List A × List A)
      → Stopped [] l r w
      → copy_back (l ++ r) w ≡ w.0 ++ (w.1 ++ w.2)
  unfolding copy_back
  copy_back-Stopped l r (t, l', []) (pl, pr, el, er, len, out) =
      let arr = l ++ r in
      let left : length l ≡ length pl + length l' = ap length el ∙ length-append pl l' in
      let right : length r ≡ length pr = ap length (er ∙ append-nil pr) in
      let all : length arr ≡ length t + length l' = omega (arith, length-append l r) in
      let moved : length (take (length t) arr) ≡ length t =
        omega (arith, length-take (length t) arr) in
      copy_to_start (copy_to arr (length t) l') t
      ∙ ap (λ s. t ++ s)
          (drop-append (take (length t) arr) _ (length t) moved
            ∙ ap (λ s. l' ++ s) (drop_all (length t + length l') arr (omega arith)))
  copy_back-Stopped l r (t, [], y ∷ r') (pl, pr, el, er, len, out) =
      let rest = y ∷ r' in
      let place : length ((pl ++ []) ++ pr) ≡ length t =
        length-append (pl ++ []) pr ∙ omega (arith, length-append pl []) in
      copy_to_start (l ++ r) t
      ∙ ap (λ s. t ++ s)
          (ap (λ s. drop (length t) s)
              (ap₂ (λ s s'. s ++ s') el er ∙ sym (append_assoc (pl ++ []) pr rest))
            ∙ drop-append ((pl ++ []) ++ pr) rest (length t) place)
  copy_back-Stopped l r (t, x ∷ l', y ∷ r') (pl, pr, el, er, len, inl e) = absurd (ground arith)
  copy_back-Stopped l r (t, x ∷ l', y ∷ r') (pl, pr, el, er, len, inr e) = absurd (ground arith)

module _ {ℓ} {A : Type ℓ} (key : A → ℕ) where
  merge_halves-merge : (l r : List A) → merge_halves key l r ≡ merge key (length l + length r) l r
  unfolding merge_halves
  merge_halves-merge l r =
      let n = length l + length r in
      copy_back-Stopped l r (merge_loop key n [] l r)
        (merge_loop-Stopped key n [] l r (omega arith))
      ∙ merge_loop-merge key n [] l r

  short-Sorted : (arr : List A) → ltb (length arr) 2 ≡ true → Sorted key arr
  short-Sorted [] h = tt
  short-Sorted (x ∷ []) h = (tt, tt)
  short-Sorted (x ∷ y ∷ arr) h = absurd (omega (arith, ltb→lt (length (x ∷ y ∷ arr)) 2 h))

  sort_two_lem :
      (arr : List A) → length arr ≡ 2 → Sorted key (sort_two key arr) × Perm (sort_two key arr) arr
  unfolding sort_two
  sort_two_lem [] e = absurd (omega arith)
  sort_two_lem (x ∷ []) e = absurd (omega arith)
  sort_two_lem (x ∷ y ∷ z ∷ arr) e = absurd (omega arith)
  sort_two_lem (x ∷ y ∷ []) e = elim (Bool-cases (ltb (key y) (key x))) [
    | inl gt ↦ rw gt (((ground arith, tt), (tt, tt)), Perm.swap x y [])
    | inr le ↦ rw le (((ground arith, tt), (tt, tt)), Perm.refl (x ∷ y ∷ []))
  ]

  -- MergeSort, with as much fuel as the array has elements, leaves a sorted array, which holds the
  -- same elements, each as often as before.
  pub merge_sort_lem :
      (fuel : ℕ) (arr : List A)
      → length arr ≤ fuel
      → Sorted key (merge_sort key fuel arr) × Perm (merge_sort key fuel arr) arr
  unfolding merge_sort
  merge_sort_lem zero [] le = (tt, Perm.refl [])
  merge_sort_lem zero (x ∷ arr) le = absurd (omega arith)
  merge_sort_lem (suc fuel) arr le = elim (Bool-cases (ltb (length arr) 2)) [
    | inl short ↦ rw (short, merge_sort) (short-Sorted arr short, Perm.refl arr)
    | inr long ↦ elim (Bool-cases (length arr == 2)) [
      | inl two ↦ rw (long, two, merge_sort) (sort_two_lem arr (ground arith))
      | inr more ↦
          let middle = length arr / 2 in
          let large : 2 ≤ length arr = ground arith in
          let left = take middle arr in
          let right = drop middle arr in
          let ihl = merge_sort_lem fuel left (omega (arith, length-take middle arr)) in
          let ihr = merge_sort_lem fuel right (omega (arith, length-drop middle arr)) in
          let l = merge_sort key fuel left in
          let r = merge_sort key fuel right in
          let n = length l + length r in
          rw (long, more, merge_sort)
            (rw (merge_halves-merge l r) (
              merge-Sorted key n l r (omega arith) ihl.0 ihr.0,
              subst (λ a. Perm (merge key n l r) a) (take-append-drop middle arr)
                  (Perm.trans (merge-Perm key n l r) (Perm.append ihl.1 ihr.1)),
            ))
    ]
  ]
