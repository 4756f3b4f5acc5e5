-- ===== src/Text/StrDif.antt =====
-- ytlib/string/string_algs.hpp: StrDif. A row of the table is the list of its cells; both costs are 1.
pub mod Distance
mod Tests
use ytlib.Base.{ℕ, zero, suc, ◌+◌, List, [], ◌∷◌, min, ltb, ◌==◌, if◌then◌else◌, length}

-- `(s1[ii - 1] == s2[jj - 1]) ? 0 : c2`
abbrev pub mismatch : ℕ → ℕ → ℕ
mismatch a b = if a == b then 0 else 1

-- The first row, from index `ii` on
pub first_cells : ℕ → List ℕ → List ℕ
first_cells ii [] = ii ∷ []
first_cells ii (y ∷ s2) = ii ∷ first_cells (suc ii) s2

-- The inner loop from `jj = 1` on: `left` is M2[jj - 1], `diag` is M1[jj - 1], and `above` holds M1 from
-- jj on.
pub next_cells : ℕ → ℕ → ℕ → List ℕ → List ℕ → List ℕ
next_cells x left diag above [] = []
next_cells x left diag [] (y ∷ s2) = []
next_cells x left diag (up ∷ above) (y ∷ s2) =
    let val1 = mismatch x y + diag in
    let val2 = min up left + 1 in min val1 val2 ∷ next_cells x (min val1 val2) up above s2

-- The outer loop from row `ii` on, from the row before it
pub rows : ℕ → List ℕ → List ℕ → List ℕ → List ℕ
rows ii [] s2 row = row
rows ii (x ∷ s1) s2 [] = []
rows ii (x ∷ s1) s2 (diag ∷ above) = rows (suc ii) s1 s2 (ii ∷ next_cells x ii diag above s2)

-- `M1[s2len]`
pub last_cell : List ℕ → ℕ
last_cell [] = 0
last_cell (c ∷ []) = c
last_cell (c ∷ d ∷ row) = last_cell (d ∷ row)

pub str_dif : List ℕ → List ℕ → ℕ
str_dif s1 s2 =
    if ltb (length s1) (length s2)
    then last_cell (rows 1 s2 s1 (first_cells 0 s1))
    else last_cell (rows 1 s1 s2 (first_cells 0 s2))
