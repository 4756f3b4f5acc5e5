-- ===== src/Text/Tables/Fields.antt =====
-- SplitToMap against the pairs that stand in the pieces of the source.
use ytlib.Base.{
  ℕ, ◌≡◌, Bool, true, false, ◌&&◌, List, [], ◌∷◌, ◌++◌, none, some, if◌then◌else◌, length,
}
use mathlib.Core.Option.{map as option_map}
use ytlib.Text.Strings.{empty, find}
use ytlib.Text.Split.{trim}
use ytlib.Text.Tables.{assign}

abbrev pub cut : Bool → List ℕ → List ℕ
cut trimmed s = if trimmed then trim s else s

-- The pairs of one piece: none without a separator, or with an empty key that is to be cleared; else the
-- key before the first separator and the value behind it.
pub data Field (msep : List ℕ) (trimmed clear : Bool)
    : List ℕ → List (List ℕ × List ℕ) → Type 0 where
  bare : (s : List ℕ) → find s msep 0 ≡ none → Field msep trimmed clear s []
  cleared :
      (s first second : List ℕ)
      → s ≡ first ++ (msep ++ second)
      → find s msep 0 ≡ some (length first)
      → clear ≡ true
      → empty (cut trimmed first) ≡ true
      → Field msep trimmed clear s []
  kept :
      (s first second : List ℕ)
      → s ≡ first ++ (msep ++ second)
      → find s msep 0 ≡ some (length first)
      → (clear && empty (cut trimmed first)) ≡ false
      → Field msep trimmed clear s ((cut trimmed first, cut trimmed second) ∷ [])

-- The pairs of all pieces, in their order
pub data Fields (msep : List ℕ) (trimmed clear : Bool)
    : List (List ℕ) → List (List ℕ × List ℕ) → Type 0 where
  nil : Fields msep trimmed clear [] []
  cons :
      (s : List ℕ) (vec : List (List ℕ)) (here later : List (List ℕ × List ℕ))
      → Field msep trimmed clear s here
      → Fields msep trimmed clear vec later
      → Fields msep trimmed clear (s ∷ vec) (here ++ later)

-- A map with all of the pairs, a later one of a key in place of an earlier one
pub assign_all : List (List ℕ × List ℕ) → List (List ℕ × List ℕ) → List (List ℕ × List ℕ)
assign_all [] m = m
assign_all ((k, v) ∷ fields) m = assign_all fields (assign k v m)
