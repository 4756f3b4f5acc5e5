-- ===== src/Text/Tables/Tests.antt =====
-- Runs of the functions on sets and maps, and the theorems at a string.
use ytlib.Base.{arith, ℕ, ◌≡◌, ◌↔◌, refl, true, false, List, [], ◌∷◌, some, All}
use ytlib.Text.Strings.{find, find_at, is_prefix}
use ytlib.Text.Split.{split_to_vec, join_vec}
use ytlib.Text.Tables.{
  less, emplace, assign, set_piece, split_set_from, split_to_set, map_piece, split_map_from,
  split_to_map, same_string,
}
use ytlib.Text.Tables.Keys.{IsKeys}
use ytlib.Text.Tables.Fields.{Fields}
use ytlib.Text.Tables.Pieces.{pieces_of, split_to_set_lem}

-- b,a,b
abbrev letters : List ℕ
letters = b'b' ∷ b',' ∷ b'a' ∷ b',' ∷ b'b' ∷ []

-- a=1&b
abbrev pairs : List ℕ
pairs = b'a' ∷ b'=' ∷ b'1' ∷ b'&' ∷ b'b' ∷ []

set_letters : split_to_set letters (b',' ∷ []) false true ≡ some ((b'a' ∷ []) ∷ (b'b' ∷ []) ∷ [])
unfolding split_to_set split_set_from set_piece emplace less find find_at is_prefix
set_letters = refl

map_pairs :
    split_to_map pairs (b'&' ∷ []) (b'=' ∷ []) false true ≡ some ((b'a' ∷ [], b'1' ∷ []) ∷ [])
unfolding split_to_map split_map_from map_piece assign less find find_at is_prefix same_string
map_pairs = refl

split_to_set_lem_example :
    (vec : List (List ℕ)) × (result : List (List ℕ)) × (join_vec vec (b',' ∷ []) ≡ letters)
    × (split_to_vec letters (b',' ∷ []) true true ≡ some (pieces_of true true vec))
    × (split_to_set letters (b',' ∷ []) true true ≡ some result)
    × IsKeys result
    × ((P : List ℕ → Type 0) → All P result ↔ All P (pieces_of true true vec))
split_to_set_lem_example = split_to_set_lem letters (b',' ∷ []) true true (omega arith)
