-- ===== src/Text/Split.antt =====
-- ytlib/string/string_util.hpp: Trim, SplitToVec and JoinVec.
pub mod Laws
mod Tests
use ytlib.Base.{
  ℕ, suc, zero, ◌+◌, ◌-◌, Bool, true, false, ◌&&◌, List, [], ◌∷◌, ◌++◌, map, Option, none, some,
  ltb, if◌then◌else◌, length, take, drop,
}
use mathlib.Core.Option.{map as option_map}
use ytlib.Text.Strings.{empty, find, substr, or_else, first_not_space, last_not_space}

-- `Trim(std::string&)`: `erase` up to the end, then from the start.
pub trim_string : List ℕ → List ℕ
trim_string s =
    let cut = take (or_else (option_map suc (last_not_space s)) 0) s in
    if empty s then s else drop (or_else (first_not_space cut) (length cut)) cut

-- `Trim(std::string_view&)`
unfoldable pub trim : List ℕ → List ℕ
trim s =
    let cut = substr s 0 (or_else (option_map suc (last_not_space s)) 0) in
    let p = or_else (first_not_space cut) (length cut) in
    if empty s then s else substr cut p (length cut - p)

-- What the loop of `SplitToVec` appends for one piece of the string.
abbrev pub piece : Bool → Bool → List ℕ → List (List ℕ) → List (List ℕ)
piece trimmed clear sub_str rest =
    let item = if trimmed then trim sub_str else sub_str in
    if clear && empty item then rest else item ∷ rest

-- The loop of `SplitToVec` from `pos_start` on; `none` says that the fuel did not do.
unfoldable pub split_from : ℕ → List ℕ → List ℕ → Bool → Bool → ℕ → Option (List (List ℕ))
split_from zero source sep trimmed clear pos_start = none
split_from (suc fuel) source sep trimmed clear pos_start =
    let pos_end = or_else (find source sep pos_start) (length source) in
    let rest = split_from fuel source sep trimmed clear (pos_end + length sep) in
    let sub_str = substr source pos_start (pos_end - pos_start) in
    if ltb pos_end (length source)
    then option_map (piece trimmed clear sub_str) rest
    else some (piece trimmed clear sub_str [])

unfoldable pub split_to_vec : List ℕ → List ℕ → Bool → Bool → Option (List (List ℕ))
split_to_vec source sep trimmed clear =
    let rest = split_from (suc (length source)) source sep trimmed clear 0 in
    if empty source then some [] else if empty sep then some [] else rest

-- The iterations of `JoinVec` behind the first one
pub join_rest : List (List ℕ) → List ℕ → List ℕ
join_rest [] sep = []
join_rest (s ∷ vec) sep = sep ++ (s ++ join_rest vec sep)

pub join_vec : List (List ℕ) → List ℕ → List ℕ
join_vec [] sep = []
join_vec (s ∷ vec) sep = s ++ join_rest vec sep
