-- ===== src/Math/Sort/Sorted.antt =====
-- Sorted lists.
use ytlib.Base.{ℕ, ◌≤◌, List, [], ◌∷◌, All}

module _ {ℓ} {A : Type ℓ} (key : A → ℕ) where
  -- No key comes before a smaller one.
  abbrev pub Sorted : List A → Type 0
  Sorted [] = Unit
  Sorted (x ∷ xs) = All (λ y. key x ≤ key y) xs × Sorted xs

module _ {ℓ κ} {A : Type ℓ} {P : A → Type κ} where
  pub All-weaken {κ'} :
      {Q : A → Type κ'} (xs : List A) → ((x : A) → P x → Q x) → All P xs → All Q xs
  All-weaken [] f h = tt
  All-weaken (x ∷ xs) f h = (f x h.0, All-weaken xs f h.1)

module _ {ℓ} {A : Type ℓ} (key : A → ℕ) where
  pub All-below_cons :
      (m : A) (p s : List A)
      → All (λ x. key x ≤ key m) p
      → All (λ x. All (λ y. key x ≤ key y) s) p
      → All (λ x. All (λ y. key x ≤ key y) (m ∷ s)) p
  All-below_cons m [] s h k = tt
  All-below_cons m (x ∷ p) s h k = ((h.0, k.0), All-below_cons m p s h.1 k.1)

  pub All-below_nil : (p : List A) → All (λ x. All (λ y. key x ≤ key y) []) p
  All-below_nil [] = tt
  All-below_nil (x ∷ p) = (tt, All-below_nil p)
