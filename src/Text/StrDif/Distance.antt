-- ===== src/Text/StrDif/Distance.antt =====
-- StrDif against the edit distance by recursion on the two strings.
use ytlib.Base.{
  ℕ, suc, ◌+◌, ◌≡◌, refl, ap, sym, ◌∙◌, List, [], ◌∷◌, arith, min, ltb, length, Bool-cases, inl,
  inr,
}
use ytlib.Text.StrDif.{mismatch, first_cells, next_cells, rows, last_cell, str_dif}

-- The distances of `x` in front of a string from every string, from those of the string, `far`; `n`
-- is the distance from the empty one.
pub extend : ℕ → (List ℕ → ℕ) → ℕ → List ℕ → ℕ
extend x far n [] = n
extend x far n (y ∷ ys) = min (mismatch x y + far ys) (min (far (y ∷ ys)) (extend x far n ys) + 1)

-- The fewest insertions, deletions and replacements that turn one string into the other, the first
-- characters considered first
pub distance : List ℕ → List ℕ → ℕ
distance [] ys = length ys
distance (x ∷ xs) ys = extend x (distance xs) (suc (length xs)) ys

nil-distance : (ys : List ℕ) → distance [] ys ≡ length ys
unfolding distance
nil-distance ys = refl

distance-nil : (xs : List ℕ) → distance xs [] ≡ length xs
unfolding distance extend
distance-nil [] = refl
distance-nil (x ∷ xs) = refl

-- The cells of a row behind its first: `rp` and `rq` are the characters so far, the last one first.
cells : List ℕ → List ℕ → List ℕ → List ℕ
cells rp rq [] = []
cells rp rq (y ∷ ys) = distance rp (y ∷ rq) ∷ cells rp (y ∷ rq) ys

next_cells-cells :
    (x : ℕ) (rp rq ys : List ℕ)
    → next_cells x (distance (x ∷ rp) rq) (distance rp rq) (cells rp rq ys) ys
      ≡ cells (x ∷ rp) rq ys
unfolding next_cells cells distance extend
next_cells-cells x rp rq [] = refl
next_cells-cells x rp rq (y ∷ ys) =
    ap (λ t. distance (x ∷ rp) (y ∷ rq) ∷ t) (next_cells-cells x rp (y ∷ rq) ys)

first_cells-cells : (rq ys : List ℕ) → first_cells (length rq) ys ≡ distance [] rq ∷ cells [] rq ys
unfolding first_cells cells distance
first_cells-cells rq [] = refl
first_cells-cells rq (y ∷ ys) = ap (λ t. length rq ∷ t) (first_cells-cells (y ∷ rq) ys)

-- The characters of `s` put in front of `acc`, one by one
onto : List ℕ → List ℕ → List ℕ
onto [] acc = acc
onto (x ∷ s) acc = onto s (x ∷ acc)

rows-cells :
    (s1 s2 rp : List ℕ)
    → rows (suc (length rp)) s1 s2 (distance rp [] ∷ cells rp [] s2)
      ≡ distance (onto s1 rp) [] ∷ cells (onto s1 rp) [] s2
unfolding rows onto
rows-cells [] s2 rp = refl
rows-cells (x ∷ s1) s2 rp =
    ap (λ t. rows (suc (suc (length rp))) s1 s2 (suc (length rp) ∷ t))
      (ap (λ n. next_cells x n (distance rp []) (cells rp [] s2) s2) (sym (distance-nil (x ∷ rp)))
        ∙ next_cells-cells x rp [] s2)
    ∙ ap (λ n. rows (suc (suc (length rp))) s1 s2 (n ∷ cells (x ∷ rp) [] s2))
        (sym (distance-nil (x ∷ rp)))
    ∙ rows-cells s1 s2 (x ∷ rp)

last_cell-cells :
    (rp rq ys : List ℕ) → last_cell (distance rp rq ∷ cells rp rq ys) ≡ distance rp (onto ys rq)
unfolding last_cell cells onto
last_cell-cells rp rq [] = refl
last_cell-cells rp rq (y ∷ ys) = last_cell-cells rp (y ∷ rq) ys

table-distance :
    (s1 s2 : List ℕ)
    → last_cell (rows 1 s1 s2 (first_cells 0 s2)) ≡ distance (onto s1 []) (onto s2 [])
table-distance s1 s2 =
    ap (λ row. last_cell (rows 1 s1 s2 row)) (first_cells-cells [] s2)
    ∙ ap last_cell (rows-cells s1 s2 [])
    ∙ last_cell-cells (onto s1 []) [] s2

distance-cons :
    (x y : ℕ) (xs ys : List ℕ)
    → distance (x ∷ xs) (y ∷ ys)
      ≡ min (mismatch x y + distance xs ys) (min (distance xs (y ∷ ys)) (distance (x ∷ xs) ys) + 1)
unfolding distance extend
distance-cons x y xs ys = refl

mismatch_comm : (x y : ℕ) → mismatch x y ≡ mismatch y x
mismatch_comm x y = ground arith

min_step :
    {a a' b b' c c' d d' : ℕ}
    → a ≡ a'
    → b ≡ b'
    → c ≡ c'
    → d ≡ d'
    → min (a + b) (min c d + 1) ≡ min (a' + b') (min d' c' + 1)
min_step e f g h = omega arith

-- The distance is the same both ways.
pub distance_comm : (xs ys : List ℕ) → distance xs ys ≡ distance ys xs
distance_comm [] ys = nil-distance ys ∙ sym (distance-nil ys)
distance_comm (x ∷ xs) ys = along (distance_comm xs) ys
  where
    along :
        ((zs : List ℕ) → distance xs zs ≡ distance zs xs)
        → (ys : List ℕ) → distance (x ∷ xs) ys ≡ distance ys (x ∷ xs)
    along ih [] = distance-nil (x ∷ xs) ∙ sym (nil-distance (x ∷ xs))
    along ih (y ∷ ys) =
        distance-cons x y xs ys
        ∙ min_step (mismatch_comm x y) (ih ys) (ih (y ∷ ys)) (along ih ys)
        ∙ sym (distance-cons y x ys xs)

-- The characters of a string from its end on
pub backwards : List ℕ → List ℕ
backwards s = onto s []

-- StrDif, with two rows of the shorter string, computes the edit distance of the two strings, their
-- characters considered from the end.
pub str_dif-distance : (s1 s2 : List ℕ) → str_dif s1 s2 ≡ distance (backwards s1) (backwards s2)
unfolding str_dif backwards
str_dif-distance s1 s2 = elim (Bool-cases (ltb (length s1) (length s2))) [
  | inl shorter ↦
      rw (shorter, str_dif) (table-distance s2 s1 ∙ distance_comm (onto s2 []) (onto s1 []))
  | inr longer ↦ rw (longer, str_dif) (table-distance s1 s2)
]
