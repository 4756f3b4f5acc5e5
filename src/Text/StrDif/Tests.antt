-- ===== src/Text/StrDif/Tests.antt =====
-- Runs of StrDif, and the theorem at two strings.
use ytlib.Base.{ℕ, ◌≡◌, refl, List, [], ◌∷◌}
use ytlib.Text.StrDif.{first_cells, next_cells, rows, last_cell, str_dif}
use ytlib.Text.StrDif.Distance.{distance, backwards, str_dif-distance}

-- "kit" and "sitz"
abbrev kit : List ℕ
kit = b'k' ∷ b'i' ∷ b't' ∷ []

abbrev sitz : List ℕ
sitz = b's' ∷ b'i' ∷ b't' ∷ b'z' ∷ []

str_dif-kit : str_dif kit sitz ≡ 2
unfolding str_dif rows next_cells first_cells last_cell
str_dif-kit = refl

str_dif-distance_example : str_dif kit sitz ≡ distance (backwards kit) (backwards sitz)
str_dif-distance_example = str_dif-distance kit sitz
