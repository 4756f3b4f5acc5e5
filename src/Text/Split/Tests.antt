-- ===== src/Text/Split/Tests.antt =====
-- Runs of Trim, SplitToVec and JoinVec, and the theorems at a string.
use ytlib.Base.{ℕ, arith, ◌≡◌, refl, true, false, List, [], ◌∷◌, some}
use ytlib.Text.Strings.{find, find_at, is_prefix, first_not_space, last_not_space}
use ytlib.Text.Split.Laws.{join-split}
use ytlib.Text.Split.{trim, split_to_vec, split_from, join_vec}

-- " a,b,,"
abbrev text : List ℕ
text = b' ' ∷ b'a' ∷ b',' ∷ b'b' ∷ b',' ∷ b',' ∷ []

split-text : split_to_vec text (b',' ∷ []) true true ≡ some ((b'a' ∷ []) ∷ (b'b' ∷ []) ∷ [])
unfolding split_to_vec split_from trim find find_at is_prefix first_not_space last_not_space
split-text = refl

split_all :
    split_to_vec text (b',' ∷ []) false false
    ≡ some ((b' ' ∷ b'a' ∷ []) ∷ (b'b' ∷ []) ∷ [] ∷ [] ∷ [])
unfolding split_to_vec split_from trim find find_at is_prefix first_not_space last_not_space
split_all = refl

join-split_example :
    (vec : List (List ℕ)) × (split_to_vec text (b',' ∷ []) false false ≡ some vec)
    × (join_vec vec (b',' ∷ []) ≡ text)
join-split_example = join-split text (b',' ∷ []) (omega arith)
