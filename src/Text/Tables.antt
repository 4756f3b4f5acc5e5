-- ===== src/Text/Tables.antt =====
-- ytlib/string/string_util.hpp: the functions that split a string to a set or a map, and join them
-- again. A std::set is the list of its keys in order, a std::map the list of its pairs by key; keys
-- compare byte by byte.
pub mod Keys
pub mod Pieces
pub mod Fields
mod Tests
use mathlib.Core.Option.{map as option_map}
use ytlib.Base.{
  ℕ, zero, suc, ◌+◌, ◌-◌, Bool, true, false, not, ◌&&◌, ◌||◌, List, [], ◌∷◌, ◌++◌, map, Option,
  none, some, ltb, ◌==◌, if◌then◌else◌, length, drop,
}
use ytlib.Text.Strings.{empty, find, substr, or_else}
use ytlib.Text.Split.{trim}

-- `std::less` of two strings
pub less : List ℕ → List ℕ → Bool
less [] [] = false
less [] (y ∷ ys) = true
less (x ∷ xs) [] = false
less (x ∷ xs) (y ∷ ys) =
    let rest = less xs ys in if ltb x y then true else if ltb y x then false else rest

-- `result.emplace(key)` of a set
pub emplace : List ℕ → List (List ℕ) → List (List ℕ)
emplace key [] = key ∷ []
emplace key (k ∷ ks) =
    let later = emplace key ks in
    if less key k then key ∷ k ∷ ks else if less k key then k ∷ later else k ∷ ks

-- `result[key] = val` of a map
pub assign : List ℕ → List ℕ → List (List ℕ × List ℕ) → List (List ℕ × List ℕ)
assign key val [] = (key, val) ∷ []
assign key val ((k, v) ∷ m) =
    let later = assign key val m in
    if less key k
    then (key, val) ∷ (k, v) ∷ m
    else if less k key
    then (k, v) ∷ later
    else (k, val) ∷ m

-- `m.find(key)`
pub find_key : List ℕ → List (List ℕ × List ℕ) → Option (List ℕ)
find_key key [] = none
find_key key ((k, v) ∷ m) =
    let later = find_key key m in if less key k || less k key then later else some v

-- What the loop of `SplitToSet` does with a piece
pub set_piece : Bool → Bool → List ℕ → List (List ℕ) → List (List ℕ)
set_piece trimmed clear sub_str result =
    let item = if trimmed then trim sub_str else sub_str in
    if clear && empty item then result else emplace item result

-- The loop of `SplitToSet` from `pos_start` on; `none` says that the fuel did not do.
pub split_set_from : ℕ → List ℕ → List ℕ → Bool → Bool → ℕ → List (List ℕ) → Option (List (List ℕ))
split_set_from zero source sep trimmed clear pos_start result = none
split_set_from (suc fuel) source sep trimmed clear pos_start result =
    let pos_end = or_else (find source sep pos_start) (length source) in
    let result' = set_piece trimmed clear (substr source pos_start (pos_end - pos_start)) result in
    let rest = split_set_from fuel source sep trimmed clear (pos_end + length sep) result' in
    if ltb pos_end (length source) then rest else some result'

pub split_to_set : List ℕ → List ℕ → Bool → Bool → Option (List (List ℕ))
split_to_set source sep trimmed clear =
    let rest = split_set_from (suc (length source)) source sep trimmed clear 0 [] in
    if empty source then some [] else if empty sep then some [] else rest

-- What the loop of `SplitToMap` does with a piece that is not empty
pub map_piece : List ℕ → Bool → Bool → List ℕ → List (List ℕ × List ℕ) → List (List ℕ × List ℕ)
map_piece msep trimmed clear kv_str result = elim (find kv_str msep 0) [
  | none ↦ result
  | some msep_pos ↦
      let first = substr kv_str 0 msep_pos in
      let second = drop (msep_pos + length msep) kv_str in
      let key = if trimmed then trim first else first in
      let val = if trimmed then trim second else second in
      if clear && empty key then result else assign key val result
]

-- The loop of `SplitToMap` from `v_pos_start` on
pub split_map_from :
    ℕ
    → List ℕ
    → List ℕ
    → List ℕ
    → Bool
    → Bool
    → ℕ
    → List (List ℕ × List ℕ)
    → Option (List (List ℕ × List ℕ))
split_map_from zero source vsep msep trimmed clear v_pos_start result = none
split_map_from (suc fuel) source vsep msep trimmed clear v_pos_start result =
    let v_pos_end = or_else (find source vsep v_pos_start) (length source) in
    let kv_str = substr source v_pos_start (v_pos_end - v_pos_start) in
    let result' =
      if ltb v_pos_start v_pos_end then map_piece msep trimmed clear kv_str result else result in
    let rest =
      split_map_from fuel source vsep msep trimmed clear (v_pos_end + length vsep) result' in
    if ltb v_pos_end (length source) then rest else some result'

-- Whether two separators are the same
pub same_string : List ℕ → List ℕ → Bool
same_string s t = not (less s t) && not (less t s)

pub split_to_map : List ℕ → List ℕ → List ℕ → Bool → Bool → Option (List (List ℕ × List ℕ))
split_to_map source vsep msep trimmed clear =
    let rest = split_map_from (suc (length source)) source vsep msep trimmed clear 0 [] in
    if empty source || (empty vsep || (empty msep || same_string vsep msep)) then some [] else rest

-- The iterations of `JoinMap` behind the first one
pub join_map_rest : List (List ℕ × List ℕ) → List ℕ → List ℕ → List ℕ
join_map_rest [] vsep msep = []
join_map_rest ((k, v) ∷ m) vsep msep = vsep ++ (k ++ (msep ++ (v ++ join_map_rest m vsep msep)))

pub join_map : List (List ℕ × List ℕ) → List ℕ → List ℕ → List ℕ
join_map [] vsep msep = []
join_map ((k, v) ∷ m) vsep msep = k ++ (msep ++ (v ++ join_map_rest m vsep msep))

abbrev pub item_or : Option (List ℕ) → List ℕ → List ℕ
item_or none defval = defval
item_or (some val) defval = val

pub get_map_item_with_def : List (List ℕ × List ℕ) → List ℕ → List ℕ → List ℕ
get_map_item_with_def m key defval = item_or (find_key key m) defval

pub get_map_keys : List (List ℕ × List ℕ) → List (List ℕ)
get_map_keys [] = []
get_map_keys ((k, v) ∷ m) = emplace k (get_map_keys m)

pub add_kv : List ℕ → List ℕ → List ℕ → List ℕ → List ℕ → List ℕ
add_kv s key val vsep msep = (if not (empty s) then s ++ vsep else s) ++ (key ++ (msep ++ val))
