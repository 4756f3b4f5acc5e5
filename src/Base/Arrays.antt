-- ===== src/Base/Arrays.antt =====
-- Arrays of numbers as lists: elements by their index, the swap of two, and which numbers are there.
use ytlib.Base.{
  get_or, ℕ, zero, suc, ◌+◌, ◌<◌, ◌≡◌, ◌≢◌, refl, sym, subst, ◌∙◌, List, [], ◌∷◌, ◌++◌, length,
  length-set, get_or-set_self, get_or-set_ne, set, ◌==◌, if◌then◌else◌, Bool-cases, inl, inr, arith,
  take,
}

abbrev pub at : List ℕ → ℕ → ℕ
at l i = get_or l i 0

unfoldable pub swap : List ℕ → ℕ → ℕ → List ℕ
swap l i j = set (set l i (at l j)) j (at l i)

pub length-swap : (l : List ℕ) (i j : ℕ) → length (swap l i j) ≡ length l
unfolding swap
length-swap l i j = length-set (set l i (at l j)) j (at l i) ∙ length-set l i (at l j)

pub at-swap_right : (l : List ℕ) (i j : ℕ) → j < length l → at (swap l i j) j ≡ at l i
unfolding swap
at-swap_right l i j h =
    get_or-set_self (set l i (at l j)) j (at l i) 0 (omega (arith, length-set l i (at l j)))

pub at-swap_left : (l : List ℕ) (i j : ℕ) → i ≢ j → i < length l → at (swap l i j) i ≡ at l j
unfolding swap
at-swap_left l i j ne h =
    get_or-set_ne (set l i (at l j)) j i (at l i) 0 (λ e. ne (sym e))
    ∙ get_or-set_self l i (at l j) 0 h

pub at-swap_ne : (l : List ℕ) (i j k : ℕ) → k ≢ i → k ≢ j → at (swap l i j) k ≡ at l k
unfolding swap
at-swap_ne l i j k ni nj =
    get_or-set_ne (set l i (at l j)) j k (at l i) 0 (λ e. nj (sym e))
    ∙ get_or-set_ne l i k (at l j) 0 (λ e. ni (sym e))

-- How often a number is in a list
abbrev pub count : ℕ → List ℕ → ℕ
count k [] = 0
count k (x ∷ xs) = (if x == k then 1 else 0) + count k xs

-- Every number is in one list as often as in the other.
unfoldable pub IsSameBag : List ℕ → List ℕ → Type 0
IsSameBag l m = (k : ℕ) → count k l ≡ count k m

pub IsSameBag-refl : (l : List ℕ) → IsSameBag l l
unfolding IsSameBag
IsSameBag-refl l k = refl

pub IsSameBag-trans : (l m n : List ℕ) → IsSameBag l m → IsSameBag m n → IsSameBag l n
unfolding IsSameBag
IsSameBag-trans l m n f g k = f k ∙ g k

count-set :
    (k : ℕ) (l : List ℕ) (i v : ℕ)
    → i < length l
    → count k (set l i v) + (if at l i == k then 1 else 0) ≡ count k l + (if v == k then 1 else 0)
count-set k [] i v h = absurd (omega arith)
count-set k (x ∷ l) zero v h = omega arith
count-set k (x ∷ l) (suc i) v h = omega (arith, count-set k l i v (omega arith))

at-set_other : (l : List ℕ) (i j : ℕ) → i < length l → at (set l i (at l j)) j ≡ at l j
at-set_other l i j h = elim (Bool-cases (i == j)) [
  | inl t ↦
      let e : i ≡ j = ground arith in
      subst (λ k. at (set l i (at l k)) k ≡ at l k) e (get_or-set_self l i (at l i) 0 h)
  | inr f ↦ get_or-set_ne l i j (at l j) 0 (ground arith)
]

pub swap-IsSameBag : (l : List ℕ) (i j : ℕ) → i < length l → j < length l → IsSameBag (swap l i j) l
unfolding IsSameBag swap
swap-IsSameBag l i j hi hj k =
    let l' : List ℕ = set l i (at l j) in
    let first = count-set k l i (at l j) hi in
    let second = count-set k l' j (at l i) (omega (arith, length-set l i (at l j))) in
    let second' : count k (set l' j (at l i)) + (if at l j == k then 1 else 0)
        ≡ count k l' + (if at l i == k then 1 else 0) =
      subst
        (λ v.
          count k (set l' j (at l i)) + (if v == k then 1 else 0)
          ≡ count k l' + (if at l i == k then 1 else 0))
        (at-set_other l i j hi) second in
    omega (arith, first, second')

pub at-append : (l m : List ℕ) (k : ℕ) → k < length l → at (l ++ m) k ≡ at l k
at-append [] m k h = absurd (omega arith)
at-append (x ∷ l) m zero h = refl
at-append (x ∷ l) m (suc k) h = at-append l m k (omega arith)

pub at-take : (n : ℕ) (l : List ℕ) (k : ℕ) → k < n → at (take n l) k ≡ at l k
at-take zero l k h = absurd (omega arith)
at-take (suc n) [] k h = refl
at-take (suc n) (x ∷ l) zero h = refl
at-take (suc n) (x ∷ l) (suc k) h = at-take n l k (omega arith)

-- A list is its last element behind the others.
pub count-take :
    (k n : ℕ) (l : List ℕ)
    → length l ≡ suc n
    → count k l ≡ count k (take n l) + (if at l n == k then 1 else 0)
count-take k n [] e = absurd (omega arith)
count-take k zero (x ∷ []) e = omega arith
count-take k zero (x ∷ y ∷ l) e = absurd (omega arith)
count-take k (suc n) (x ∷ l) e = omega (arith, count-take k n l (omega arith))

pub count-append : (k : ℕ) (l m : List ℕ) → count k (l ++ m) ≡ count k l + count k m
count-append k [] m = omega arith
count-append k (x ∷ l) m = omega (arith, count-append k l m)
