-- ===== src/Container/RingBuf/Window.antt =====
-- The elements of a ring as they lie in `content_`, going round at its end.
use ytlib.Base.{
  ℕ, zero, suc, ◌+◌, ◌-◌, ◌≤◌, ◌<◌, ◌≡◌, ◌≢◌, refl, ap, ap₂, ◌∙◌, Option, some, List, [], ◌∷◌, ◌++◌,
  arith, ltb, if◌then◌else◌, length, get_elem?, set, get_elem?-set_self, get_elem?-set_ne,
}

-- The index `k` steps past the start of the array, `k` at most one turn too far.
abbrev pub wrap : ℕ → ℕ → ℕ
wrap n k = if ltb k n then k else k - n

pub wrap-lt : (n k : ℕ) → k < n + n → 0 < n → wrap n k < n
wrap-lt n k h p = ground arith

module _ {ℓ} {A : Type ℓ} (c : List A) (n : ℕ) where
  -- The `k` elements from index `h` on.
  abbrev pub window : ℕ → ℕ → List (Option A)
  window h zero = []
  window h (suc k) = get_elem? c h ∷ window (wrap n (h + 1)) k

  pub length-window : (h k : ℕ) → length (window h k) ≡ k
  length-window h zero = refl
  length-window h (suc k) = ap suc (length-window (wrap n (h + 1)) k)

  pub window-add :
      (h j k : ℕ) → h < n → j ≤ n → window h (j + k) ≡ window h j ++ window (wrap n (h + j)) k
  window-add h zero k p q =
      let e : h ≡ wrap n (h + 0) = ground arith in let z : 0 + k ≡ k = omega arith in rw (z, ← e)
  window-add h (suc j) k p q =
      let z : suc j + k ≡ suc (j + k) = omega arith in
      let e : wrap n (wrap n (h + 1) + j) ≡ wrap n (h + suc j) = ground arith in
      rw z (
        ap (λ t. get_elem? c h ∷ t)
          (window-add (wrap n (h + 1)) j k (ground arith) (omega arith)
            ∙ ap (λ i. window (wrap n (h + 1)) j ++ window i k) e))

  pub get_elem?-window :
      (h k i : ℕ)
      → h < n
      → i < k
      → k ≤ n
      → get_elem? (window h k) i ≡ some (get_elem? c (wrap n (h + i)))
  get_elem?-window h zero i p q r = absurd (omega arith)
  get_elem?-window h (suc k) zero p q r =
      let e : h ≡ wrap n (h + 0) = ground arith in ap (λ j. some (get_elem? c j)) e
  get_elem?-window h (suc k) (suc i) p q r =
      let e : wrap n (wrap n (h + 1) + i) ≡ wrap n (h + suc i) = ground arith in
      get_elem?-window (wrap n (h + 1)) k i (ground arith) (omega arith) (omega arith)
      ∙ ap (λ j. some (get_elem? c j)) e

-- A write just past a window extends it by the element written.
pub window-set {ℓ} :
    {A : Type ℓ} (c : List A) (n : ℕ) (x : A) (h k i : ℕ)
    → n ≤ length c
    → h < n
    → k < n
    → i ≡ wrap n (h + k)
    → window (set c i x) n h (suc k) ≡ window c n h k ++ some x ∷ []
window-set c n x h zero i s p q e =
    let e' : i ≡ h = ground arith in rw (e', get_elem?-set_self c h x (omega arith))
window-set c n x h (suc k) i s p q e =
    let ne : i ≢ h = ground arith in
    let step : i ≡ wrap n (wrap n (h + 1) + k) = ground arith in
    ap₂ ◌∷◌ (get_elem?-set_ne c x ne)
      (window-set c n x (wrap n (h + 1)) k i s (ground arith) (omega arith) step)
