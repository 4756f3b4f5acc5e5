-- ===== src/Text/Tables/Keys.antt =====
-- The order of the keys, and what sets and maps hold.
use ytlib.Base.{
  ℕ, ◌<◌, ◌≡◌, ◌↔◌, ◌⊎◌, refl, ap, ap₂, sym, subst, ◌∙◌, true, false, ◌||◌, List, [], ◌∷◌, some,
  All, ltb, ltb→lt, if◌then◌else◌, Bool-cases, inl, inr, arith,
}
use ytlib.Text.Tables.{less, emplace, assign, find_key, item_or, get_map_item_with_def}

pub less_irrefl : (s : List ℕ) → less s s ≡ false
unfolding less
less_irrefl [] = refl
less_irrefl (x ∷ s) = let f : ltb x x ≡ false = ground arith in rw f (less_irrefl s)

less-cons :
    (x y : ℕ) (s t : List ℕ) → less (x ∷ s) (y ∷ t) ≡ true → (x < y) ⊎ ((x ≡ y) × (less s t ≡ true))
unfolding less
less-cons x y s t h = elim (Bool-cases (ltb x y)) [
  | inl a ↦ inl (ltb→lt x y a)
  | inr b ↦ elim (Bool-cases (ltb y x)) [
    | inl c ↦ absurd (ground arith)
    | inr d ↦ inr (ground arith, ground arith)
  ]
]

less_first : (x y : ℕ) (s t : List ℕ) → x < y → less (x ∷ s) (y ∷ t) ≡ true
unfolding less
less_first x y s t h = let lt : ltb x y ≡ true = ground arith in rw lt refl

less_later : (x : ℕ) (s t : List ℕ) → less s t ≡ true → less (x ∷ s) (x ∷ t) ≡ true
unfolding less
less_later x s t h = let f : ltb x x ≡ false = ground arith in rw f h

less_trans : (s t u : List ℕ) → less s t ≡ true → less t u ≡ true → less s u ≡ true
unfolding less
less_trans [] [] u h k = absurd (ground arith)
less_trans [] (y ∷ t) [] h k = absurd (ground arith)
less_trans [] (y ∷ t) (z ∷ u) h k = refl
less_trans (x ∷ s) [] u h k = absurd (ground arith)
less_trans (x ∷ s) (y ∷ t) [] h k = absurd (ground arith)
less_trans (x ∷ s) (y ∷ t) (z ∷ u) h k = elim (less-cons x y s t h) [
  | inl xy ↦ elim (less-cons y z t u k) [
    | inl yz ↦ less_first x z s u (omega arith)
    | inr (e, rest) ↦ less_first x z s u (omega arith)
  ]
  | inr (e, rest) ↦ elim (less-cons y z t u k) [
    | inl yz ↦ less_first x z s u (omega arith)
    | inr (e', rest') ↦
        subst (λ n. less (x ∷ s) (n ∷ u) ≡ true) (e ∙ e')
          (less_later x s u (less_trans s t u rest rest'))
  ]
]

-- Strings that are not less either way are the same.
pub less_total : (s t : List ℕ) → less s t ≡ false → less t s ≡ false → s ≡ t
unfolding less
less_total [] [] h k = refl
less_total [] (y ∷ t) h k = absurd (ground arith)
less_total (x ∷ s) [] h k = absurd (ground arith)
less_total (x ∷ s) (y ∷ t) h k = elim (Bool-cases (ltb x y)) [
  | inl a ↦ absurd (ground arith)
  | inr b ↦ elim (Bool-cases (ltb y x)) [
    | inl c ↦ absurd (ground arith)
    | inr d ↦
        let e : x ≡ y = ground arith in
        let st : less s t ≡ false = ground arith in
        let ts : less t s ≡ false = ground arith in ap₂ (λ n l. n ∷ l) e (less_total s t st ts)
  ]
]

-- Keys in order, none twice
unfoldable pub IsKeys : List (List ℕ) → Type 0
IsKeys [] = Unit
IsKeys (k ∷ ks) = All (λ l. less k l ≡ true) ks × IsKeys ks

-- A key is in a set after `emplace` as it was in, and the new one: what holds of all keys afterwards
-- held of the others and holds of the new one.
pub All-emplace :
    (P : List ℕ → Type 0) (key : List ℕ) (ks : List (List ℕ))
    → All P (emplace key ks) ↔ (P key × All P ks)
unfolding emplace
All-emplace P key [] = (λ h. h, λ h. h)
All-emplace P key (k ∷ ks) = elim (Bool-cases (less key k)) [
  | inl a ↦ rw a (λ h. h, λ h. h)
  | inr b ↦ elim (Bool-cases (less k key)) [
    | inl c ↦
        let rest = All-emplace P key ks in
        rw (b, c) (λ h. ((rest.0 h.1).0, (h.0, (rest.0 h.1).1)), λ h. (h.1.0, rest.1 (h.0, h.1.1)))
    | inr d ↦
        let e : k ≡ key = less_total k key d b in rw (b, d) (λ h. (subst P e h.0, h), λ h. h.1)
  ]
]

All-below :
    (k l : List ℕ) (ks : List (List ℕ))
    → less k l ≡ true
    → All (λ m. less l m ≡ true) ks
    → All (λ m. less k m ≡ true) ks
All-below k l [] h all = tt
All-below k l (m ∷ ks) h all = (less_trans k l m h all.0, All-below k l ks h all.1)

pub emplace-IsKeys : (key : List ℕ) (ks : List (List ℕ)) → IsKeys ks → IsKeys (emplace key ks)
unfolding emplace IsKeys
emplace-IsKeys key [] h = (tt, tt)
emplace-IsKeys key (k ∷ ks) h = elim (Bool-cases (less key k)) [
  | inl a ↦ rw a ((a, All-below key k ks a h.0), h)
  | inr b ↦ elim (Bool-cases (less k key)) [
    | inl c ↦
        rw (b, c)
          ((All-emplace (λ l. less k l ≡ true) key ks).1 (c, h.0), emplace-IsKeys key ks h.1)
    | inr d ↦ rw (b, d) h
  ]
]

find_key-assign_self :
    (key val : List ℕ) (m : List (List ℕ × List ℕ)) → find_key key (assign key val m) ≡ some val
unfolding find_key assign
find_key-assign_self key val [] = rw (less_irrefl key) refl
find_key-assign_self key val ((k, v) ∷ m) = elim (Bool-cases (less key k)) [
  | inl a ↦ rw (a, less_irrefl key, assign) refl
  | inr b ↦ elim (Bool-cases (less k key)) [
    | inl c ↦ rw (b, c, assign) (rw (b, c, find_key) (find_key-assign_self key val m))
    | inr d ↦ rw (b, d, assign) (rw (b, d, find_key) refl)
  ]
]

-- A key that is not the one at the front is looked for behind it.
find_key_ne :
    (key k v : List ℕ) (m : List (List ℕ × List ℕ))
    → (key ≡ k → ⊥)
    → find_key key ((k, v) ∷ m) ≡ find_key key m
unfolding find_key
find_key_ne key k v m ne = elim (Bool-cases (less key k)) [
  | inl a ↦ rw (a, find_key) refl
  | inr b ↦ elim (Bool-cases (less k key)) [
    | inl c ↦ rw (b, c, find_key) refl
    | inr d ↦ absurd (ne (less_total key k b d))
  ]
]

find_key_under :
    (key k v : List ℕ) (m n : List (List ℕ × List ℕ))
    → find_key key m ≡ find_key key n
    → find_key key ((k, v) ∷ m) ≡ find_key key ((k, v) ∷ n)
unfolding find_key
find_key_under key k v m n e = ap (λ o. if less key k || less k key then o else some v) e

find_key-assign_ne :
    (key val other : List ℕ) (m : List (List ℕ × List ℕ))
    → (other ≡ key → ⊥)
    → find_key other (assign key val m) ≡ find_key other m
unfolding assign
find_key-assign_ne key val other [] ne = find_key_ne other key val [] ne
find_key-assign_ne key val other ((k, v) ∷ m) ne = elim (Bool-cases (less key k)) [
  | inl a ↦ rw (a, assign) (find_key_ne other key val ((k, v) ∷ m) ne)
  | inr b ↦ elim (Bool-cases (less k key)) [
    | inl c ↦
        rw (b, c, assign)
          (find_key_under other k v (assign key val m) m (find_key-assign_ne key val other m ne))
    | inr d ↦
        let ne' : other ≡ k → ⊥ = λ e. ne (e ∙ less_total k key d b) in
        rw (b, d, assign) (find_key_ne other k val m ne' ∙ sym (find_key_ne other k v m ne'))
  ]
]

-- A value that is assigned to a key is found under it, and no other key's value changes.
pub get-assign :
    (key val other defval : List ℕ) (m : List (List ℕ × List ℕ))
    → (get_map_item_with_def (assign key val m) key defval ≡ val)
      × ((other ≡ key → ⊥)
          → get_map_item_with_def (assign key val m) other defval
            ≡ get_map_item_with_def m other defval)
unfolding get_map_item_with_def
get-assign key val other defval m = (
  ap (λ o. item_or o defval) (find_key-assign_self key val m),
  λ ne. ap (λ o. item_or o defval) (find_key-assign_ne key val other m ne),
)
