-- ===== src/Container/AvlTree/Order.antt =====
-- Ascending lists of objects, and putting one in.
use ytlib.Base.{
  ℕ, ◌<◌, ◌≡◌, refl, ap, true, false, List, [], ◌∷◌, ◌++◌, All, ltb, ◌==◌, Bool-cases, inl, inr,
  arith, if◌then◌else◌,
}

-- Every object is below all that follow it, so that none is there twice.
unfoldable pub IsAscending : List ℕ → Type 0
IsAscending [] = Unit
IsAscending (k ∷ ks) = All (λ l. k < l) ks × IsAscending ks

-- In order, unless it is there
pub put_new : ℕ → List ℕ → List ℕ
put_new x [] = x ∷ []
put_new x (k ∷ ks) =
    let later = put_new x ks in if k == x then k ∷ ks else if ltb x k then x ∷ k ∷ ks else k ∷ later

All-left : (P : ℕ → Type 0) (xs ys : List ℕ) → All P (xs ++ ys) → All P xs
All-left P [] ys h = tt
All-left P (x ∷ xs) ys h = (h.0, All-left P xs ys h.1)

All-right : (P : ℕ → Type 0) (xs ys : List ℕ) → All P (xs ++ ys) → All P ys
All-right P [] ys h = h
All-right P (x ∷ xs) ys h = All-right P xs ys h.1

pub All-mono : (P Q : ℕ → Type 0) (xs : List ℕ) → ((k : ℕ) → P k → Q k) → All P xs → All Q xs
All-mono P Q [] f h = tt
All-mono P Q (x ∷ xs) f h = (f x h.0, All-mono P Q xs f h.1)

-- What stands before an object of an ascending list is below it, what stands behind above.
pub IsAscending-split :
    (xs : List ℕ) (y : ℕ) (ys : List ℕ)
    → IsAscending (xs ++ (y ∷ ys))
    → All (λ k. k < y) xs × All (λ k. y < k) ys × IsAscending xs × IsAscending ys
unfolding IsAscending
IsAscending-split [] y ys h = (tt, h.0, tt, h.1)
IsAscending-split (x ∷ xs) y ys h =
    let (below, above, asc, asc') = IsAscending-split xs y ys h.1 in
    (
      ((All-right (λ l. x < l) xs (y ∷ ys) h.0).0, below),
      above,
      (All-left (λ l. x < l) xs (y ∷ ys) h.0, asc),
      asc',
    )

pub put_new-here :
    (x : ℕ) (xs ys : List ℕ)
    → All (λ k. k < x) xs
    → All (λ k. x < k) ys
    → put_new x (xs ++ ys) ≡ xs ++ (x ∷ ys)
unfolding put_new
put_new-here x [] [] below above = refl
put_new-here x [] (y ∷ ys) below above =
    let ne : (y == x) ≡ false = ground (arith, above.0) in
    let lt : ltb x y ≡ true = ground (arith, above.0) in rw (ne, lt, put_new) refl
put_new-here x (k ∷ xs) ys below above =
    let ne : (k == x) ≡ false = ground (arith, below.0) in
    let ge : ltb x k ≡ false = ground (arith, below.0) in
    rw (ne, ge, put_new) (ap (λ l. k ∷ l) (put_new-here x xs ys below.1 above))

pub put_new-there :
    (x : ℕ) (xs ys : List ℕ) → All (λ k. k < x) xs → put_new x (xs ++ (x ∷ ys)) ≡ xs ++ (x ∷ ys)
unfolding put_new
put_new-there x [] ys below = let eq : (x == x) ≡ true = ground arith in rw (eq, put_new) refl
put_new-there x (k ∷ xs) ys below =
    let ne : (k == x) ≡ false = ground (arith, below.0) in
    let ge : ltb x k ≡ false = ground (arith, below.0) in
    rw (ne, ge, put_new) (ap (λ l. k ∷ l) (put_new-there x xs ys below.1))

All-put_new : (P : ℕ → Type 0) (x : ℕ) (ks : List ℕ) → P x → All P ks → All P (put_new x ks)
unfolding put_new
All-put_new P x [] p h = (p, tt)
All-put_new P x (k ∷ ks) p h = elim (Bool-cases (k == x)) [
  | inl t ↦ rw (t, put_new) h
  | inr f ↦ elim (Bool-cases (ltb x k)) [
    | inl t ↦ rw (f, t, put_new) (p, h)
    | inr g ↦ rw (f, g, put_new) (h.0, All-put_new P x ks p h.1)
  ]
]

pub put_new-IsAscending : (x : ℕ) (ks : List ℕ) → IsAscending ks → IsAscending (put_new x ks)
unfolding put_new IsAscending
put_new-IsAscending x [] h = (tt, tt)
put_new-IsAscending x (k ∷ ks) h = elim (Bool-cases (k == x)) [
  | inl t ↦ rw (t, put_new) h
  | inr f ↦ elim (Bool-cases (ltb x k)) [
    | inl t ↦
        let lt : x < k = ground arith in
        rw (f, t, put_new) ((lt, All-mono (λ l. k < l) (λ l. x < l) ks (λ l m. omega arith) h.0), h)
    | inr g ↦
        let lt : k < x = ground arith in
        rw (f, g, put_new) (All-put_new (λ l. k < l) x ks lt h.0, put_new-IsAscending x ks h.1)
  ]
]

-- Without the first object that is `x`
pub take_out : ℕ → List ℕ → List ℕ
take_out x [] = []
take_out x (k ∷ ks) = let later = take_out x ks in if k == x then ks else k ∷ later

pub take_out-there :
    (x : ℕ) (xs ys : List ℕ) → All (λ k. k < x) xs → take_out x (xs ++ (x ∷ ys)) ≡ xs ++ ys
unfolding take_out
take_out-there x [] ys below = let eq : (x == x) ≡ true = ground arith in rw (eq, take_out) refl
take_out-there x (k ∷ xs) ys below =
    let ne : (k == x) ≡ false = ground (arith, below.0) in
    rw (ne, take_out) (ap (λ l. k ∷ l) (take_out-there x xs ys below.1))

All-take_out : (P : ℕ → Type 0) (x : ℕ) (ks : List ℕ) → All P ks → All P (take_out x ks)
unfolding take_out
All-take_out P x [] h = tt
All-take_out P x (k ∷ ks) h = elim (Bool-cases (k == x)) [
  | inl t ↦ rw (t, take_out) h.1
  | inr f ↦ rw (f, take_out) (h.0, All-take_out P x ks h.1)
]

pub take_out-IsAscending : (x : ℕ) (ks : List ℕ) → IsAscending ks → IsAscending (take_out x ks)
unfolding take_out IsAscending
take_out-IsAscending x [] h = tt
take_out-IsAscending x (k ∷ ks) h = elim (Bool-cases (k == x)) [
  | inl t ↦ rw (t, take_out) h.1
  | inr f ↦ rw (f, take_out) (All-take_out (λ l. k < l) x ks h.0, take_out-IsAscending x ks h.1)
]
