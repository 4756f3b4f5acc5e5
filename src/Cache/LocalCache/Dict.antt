-- ===== src/Cache/LocalCache/Dict.antt =====
-- The standard containers that `LocalCache` uses: a map with unique keys, and lists of keys.
use ytlib.Base.{
  ℕ, suc, ◌+◌, ◌-◌, ◌<◌, ◌≤◌, ◌≡◌, refl, ap, Option, none, some, List, [], ◌∷◌, ◌++◌, arith,
  if◌then◌else◌, length, Bool-cases, inl, inr,
}
use ytlib.Base.Eq.{Eq}

module _ {K : Type 0} ⦃e : Eq K⦄ where
  unfoldable pub count : K → List K → ℕ
  count k [] = 0
  count k (j ∷ js) = if e.beq k j then suc (count k js) else count k js

  -- `list.erase(itr)`
  unfoldable pub erase : K → List K → List K
  erase k [] = []
  erase k (j ∷ js) = if e.beq k j then js else j ∷ erase k js

  pub count-append : (k : K) (xs ys : List K) → count k (xs ++ ys) ≡ count k xs + count k ys
  unfolding count
  count-append k [] ys = omega arith
  count-append k (x ∷ xs) ys = ground (arith, count-append k xs ys)

  pub count-erase :
      (j k : K) (xs : List K)
      → count j (erase k xs) ≡ (if e.beq k j then count j xs - 1 else count j xs)
  unfolding count erase
  count-erase j k [] = ground arith
  count-erase j k (x ∷ xs) =
      ground (arith, count-erase j k xs, e.beq_iff k x, e.beq_iff j x, e.beq_iff k j)

  pub length-erase : (k : K) (xs : List K) → 0 < count k xs → length (erase k xs) + 1 ≡ length xs
  unfolding count erase
  length-erase k [] h = elim h [ ]
  length-erase k (x ∷ xs) h = elim (Bool-cases (e.beq k x)) [
    | inl same ↦ rw same (omega arith)
    | inr other ↦
        let p : 0 < count k xs = ground arith in rw other (omega (arith, length-erase k xs p))
  ]

module _ {K C : Type 0} ⦃e : Eq K⦄ where
  abbrev pub keys : List (K × C) → List K
  keys [] = []
  keys ((k, c) ∷ m) = k ∷ keys m

  -- `map.find(k)`
  unfoldable pub lookup : K → List (K × C) → Option C
  lookup k [] = none
  lookup k ((j, c) ∷ m) = if e.beq k j then some c else lookup k m

  -- `map.erase(itr)`
  unfoldable pub remove : K → List (K × C) → List (K × C)
  remove k [] = []
  remove k ((j, c) ∷ m) = if e.beq k j then m else (j, c) ∷ remove k m

  -- An assignment through a reference to the element of `k`
  unfoldable pub adjust : K → C → List (K × C) → List (K × C)
  adjust k c [] = []
  adjust k c ((j, d) ∷ m) = if e.beq k j then (j, c) ∷ m else (j, d) ∷ adjust k c m

  pub keys-remove : (k : K) (m : List (K × C)) → keys (remove k m) ≡ erase k (keys m)
  unfolding remove erase
  keys-remove k [] = refl
  keys-remove k ((j, c) ∷ m) = ground (arith, keys-remove k m)

  pub keys-adjust : (k : K) (c : C) (m : List (K × C)) → keys (adjust k c m) ≡ keys m
  unfolding adjust
  keys-adjust k c [] = refl
  keys-adjust k c ((j, d) ∷ m) = ground (arith, keys-adjust k c m)

  pub length-keys : (m : List (K × C)) → length (keys m) ≡ length m
  length-keys [] = refl
  length-keys ((j, c) ∷ m) = ap suc (length-keys m)

  -- A key is found exactly if it is among the keys.
  pub lookup-none : (k : K) (m : List (K × C)) → count k (keys m) ≡ 0 → lookup k m ≡ none
  unfolding count lookup
  lookup-none k [] h = refl
  lookup-none k ((j, c) ∷ m) h = ground (arith, lookup-none k m)

  pub lookup-some :
      (k : K) (m : List (K × C)) → 0 < count k (keys m) → (c : C) × (lookup k m ≡ some c)
  unfolding count lookup
  lookup-some k [] h = elim h [ ]
  lookup-some k ((j, c) ∷ m) h = elim (Bool-cases (e.beq k j)) [
    | inl same ↦ (c, rw same)
    | inr other ↦
        let p : 0 < count k (keys m) = rw other at h in
        let (d, found) = lookup-some k m p in (d, rw other found)
  ]

  pub length-remove :
      (k : K) (m : List (K × C)) → 0 < count k (keys m) → length (remove k m) + 1 ≡ length m
  length-remove k m h = omega (
    arith,
    length-keys (remove k m),
    length-keys m,
    ap length (keys-remove k m),
    length-erase k (keys m) h,
  )

  pub count_of_lookup :
      (k : K) (m : List (K × C)) (c : C) → lookup k m ≡ some c → 0 < count k (keys m)
  unfolding count lookup
  count_of_lookup k [] c h = cc
  count_of_lookup k ((j, d) ∷ m) c h = ground (arith, count_of_lookup k m c)

  pub lookup-remove :
      (j k : K) (m : List (K × C))
      → count k (keys m) ≤ 1
      → lookup j (remove k m) ≡ (if e.beq k j then none else lookup j m)
  unfolding count lookup remove
  lookup-remove j k [] h = ground arith
  lookup-remove j k ((i, c) ∷ m) h =
      ground
        (arith, lookup-remove j k m, lookup-none j m, e.beq_iff k i, e.beq_iff j i, e.beq_iff k j)

  pub lookup-adjust :
      (j k : K) (c d : C) (m : List (K × C))
      → lookup k m ≡ some d
      → lookup j (adjust k c m) ≡ (if e.beq k j then some c else lookup j m)
  unfolding lookup adjust
  lookup-adjust j k c d [] h = cc
  lookup-adjust j k c d ((i, b) ∷ m) h =
      ground (arith, lookup-adjust j k c d m, e.beq_iff k i, e.beq_iff j i, e.beq_iff k j)
