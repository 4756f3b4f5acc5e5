-- ===== src/Text/Strings.antt =====
-- The members of std::string and std::string_view that ytlib/string calls. A string is the list of
-- its bytes, a position is a number, and `none` stands for npos.
pub mod Find
use mathlib.Core.Option.{map as option_map}
use ytlib.Base.{
  ℕ, suc, zero, ◌+◌, Bool, true, false, ◌&&◌, not, List, [], ◌∷◌, reverse, Option, none, some, ltb,
  leb, ◌==◌, if◌then◌else◌, length, take, drop,
}

-- Whether `pat` is what `s` starts with
unfoldable pub is_prefix : List ℕ → List ℕ → Bool
is_prefix [] s = true
is_prefix (p ∷ pat) [] = false
is_prefix (p ∷ pat) (c ∷ s) = p == c && is_prefix pat s

abbrev pub empty : List ℕ → Bool
empty [] = true
empty (c ∷ s) = false

-- The first place of `pat` in a rest of the string that starts at position `i`
unfoldable pub find_at : List ℕ → ℕ → List ℕ → Option ℕ
find_at pat i [] = if empty pat then some i else none
find_at pat i (c ∷ s) =
    let later = find_at pat (suc i) s in if is_prefix pat (c ∷ s) then some i else later

-- `s.find(pat, pos)`
unfoldable pub find : List ℕ → List ℕ → ℕ → Option ℕ
find s pat pos = if leb pos (length s) then find_at pat pos (drop pos s) else none

-- `s.substr(pos, n)`, for a `pos` within the string
abbrev pub substr : List ℕ → ℕ → ℕ → List ℕ
substr s pos n = take n (drop pos s)

-- A position, or what the source puts in place of npos
abbrev pub or_else : Option ℕ → ℕ → ℕ
or_else none d = d
or_else (some i) d = i

-- `s.find_first_not_of(" ")`
unfoldable pub first_not_space : List ℕ → Option ℕ
first_not_space [] = none
first_not_space (c ∷ s) = if c == b' ' then option_map suc (first_not_space s) else some 0

-- `s.find_last_not_of(" ")`
unfoldable pub last_not_space : List ℕ → Option ℕ
last_not_space [] = none
last_not_space (c ∷ s) = elim (last_not_space s) [
  | some i ↦ some (suc i)
  | none ↦ if c == b' ' then none else some 0
]
