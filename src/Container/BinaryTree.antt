-- ===== src/Container/BinaryTree.antt =====
-- ytlib/container/binary_tree.hpp: trees of BinTreeNode and BinSearchTreeNode, and the functions on
-- them. A node owns its children; a node with its father pointers is a tree with the path to its root.
pub mod Serial
pub mod Level
pub mod Search
pub mod Erase
pub mod Check
mod Tests
use ytlib.Base.{
  ℕ, zero, suc, ◌+◌, Bool, true, false, not, ◌&&◌, List, [], ◌∷◌, ◌++◌, Option, none, some, min,
  max, ltb, leb, ◌==◌, if◌then◌else◌,
}

pub data Tree {ℓ} (A : Type ℓ) : Type ℓ where
  null : Tree A
  node : Tree A → A → Tree A → Tree A

-- The father of a node, without the branch of the node
pub data Father {ℓ} (A : Type ℓ) : Type ℓ where
  of_left : A → Tree A → Father A
  of_right : Tree A → A → Father A

module _ {ℓ} {A : Type ℓ} where
  -- A node under its fathers, the nearest first: the whole tree
  unfoldable pub up : List (Father A) → Tree A → Tree A
  up [] t = t
  up (Father.of_left y s ∷ path) t = up path (Tree.node t y s)
  up (Father.of_right s y ∷ path) t = up path (Tree.node s y t)

  pub serialize_tree : A → Tree A → List (Bool × A)
  serialize_tree blank Tree.null = (false, blank) ∷ []
  serialize_tree blank (Tree.node pl obj pr) =
      (true, obj) ∷ (serialize_tree blank pl ++ serialize_tree blank pr)

  -- `itr` is the list from its place on; `none` says that it is read past the end, or that the fuel did
  -- not do. What is behind the tree is the second result.
  pub deserialize_tree : ℕ → List (Bool × A) → Option (Tree A × List (Bool × A))
  deserialize_tree zero itr = none
  deserialize_tree (suc fuel) [] = none
  deserialize_tree (suc fuel) ((false, obj) ∷ itr) = some (Tree.null, itr)
  deserialize_tree (suc fuel) ((true, obj) ∷ itr) = elim (deserialize_tree fuel itr) [
    | none ↦ none
    | some (pl, behind) ↦ elim (deserialize_tree fuel behind) [
      | none ↦ none
      | some (pr, rest) ↦ some (Tree.node pl obj pr, rest)
    ]
  ]

  -- The traversals, as the objects of the nodes in `vec`
  pub dlr : Tree A → List A → List A
  dlr Tree.null vec = vec
  dlr (Tree.node pl obj pr) vec = dlr pr (dlr pl (vec ++ obj ∷ []))

  pub ldr : Tree A → List A → List A
  ldr Tree.null vec = vec
  ldr (Tree.node pl obj pr) vec = ldr pr (ldr pl vec ++ obj ∷ [])

  pub lrd : Tree A → List A → List A
  lrd Tree.null vec = vec
  lrd (Tree.node pl obj pr) vec = lrd pr (lrd pl vec) ++ obj ∷ []

  -- `if (child) vec.emplace_back(child)`
  abbrev pub push_child : Tree A → List (Tree A) → List (Tree A)
  push_child Tree.null vec = vec
  push_child (Tree.node pl obj pr) vec = vec ++ Tree.node pl obj pr ∷ []

  -- The loops of `TraByLevel`, from `pos1` on: `vec` is what is not passed yet.
  pub level_loop : ℕ → List (Tree A) → List A
  level_loop zero vec = []
  level_loop (suc fuel) [] = []
  level_loop (suc fuel) (Tree.null ∷ vec) = level_loop fuel vec
  level_loop (suc fuel) (Tree.node pl obj pr ∷ vec) =
      obj ∷ level_loop fuel (push_child pr (push_child pl vec))

  pub get_height : Tree A → ℕ
  get_height Tree.null = 0
  get_height (Tree.node pl obj pr) = max (get_height pl) (get_height pr) + 1

  pub get_max_chain : Tree A → ℕ
  get_max_chain t = get_height t

  pub get_min_chain : Tree A → ℕ
  get_min_chain Tree.null = 0
  get_min_chain (Tree.node Tree.null obj pr) = get_min_chain pr + 1
  get_min_chain (Tree.node (Tree.node a x b) obj Tree.null) = get_min_chain (Tree.node a x b) + 1
  get_min_chain (Tree.node (Tree.node a x b) obj (Tree.node c y d)) =
      min (get_min_chain (Tree.node a x b)) (get_min_chain (Tree.node c y d)) + 1

  pub get_node_num : Tree A → ℕ
  get_node_num Tree.null = 0
  get_node_num (Tree.node pl obj pr) = get_node_num pl + get_node_num pr + 1

  -- The objects are put into the nodes of another type by `make`.
  pub copy_tree {κ} : {B : Type κ} → (A → B) → Tree A → Tree B
  copy_tree make Tree.null = Tree.null
  copy_tree make (Tree.node pl obj pr) =
      Tree.node (copy_tree make pl) (make obj) (copy_tree make pr)

  -- The loops up the fathers of a node
  pub get_depth : List (Father A) → ℕ
  get_depth [] = 0
  get_depth (f ∷ path) = get_depth path + 1

  pub get_root_node : List (Father A) → Tree A → Tree A
  get_root_node [] re = re
  get_root_node (Father.of_left y s ∷ path) re = get_root_node path (Tree.node re y s)
  get_root_node (Father.of_right s y ∷ path) re = get_root_node path (Tree.node s y re)

  pub tra_by_level : Tree A → List A
  tra_by_level t = level_loop (suc (get_node_num t)) (push_child t [])

-- Objects that compare, by the number that they compare by
pub compare_tree_obj : Tree ℕ → Tree ℕ → Bool
compare_tree_obj Tree.null Tree.null = true
compare_tree_obj Tree.null (Tree.node c y d) = false
compare_tree_obj (Tree.node a x b) Tree.null = false
compare_tree_obj (Tree.node a x b) (Tree.node c y d) =
    x == y && (compare_tree_obj a c && compare_tree_obj b d)

-- The node that is found, with its children, or null
pub bin_search : Tree ℕ → ℕ → Tree ℕ
bin_search Tree.null val = Tree.null
bin_search (Tree.node pl obj pr) val =
    if obj == val
    then Tree.node pl obj pr
    else if ltb val obj
    then bin_search pl val
    else bin_search pr val

-- The tests of a child against its father; the links between them hold in a tree.
abbrev pub left_fits : Tree ℕ → ℕ → Bool
left_fits Tree.null obj = true
left_fits (Tree.node a x b) obj = not (leb obj x)

abbrev pub right_fits : Tree ℕ → ℕ → Bool
right_fits Tree.null obj = true
right_fits (Tree.node a x b) obj = not (ltb x obj)

pub check_bin_search_tree : Tree ℕ → Bool
check_bin_search_tree Tree.null = true
check_bin_search_tree (Tree.node pl obj pr) =
    (left_fits pl obj && check_bin_search_tree pl)
    && (right_fits pr obj && check_bin_search_tree pr)

pub check_avl_tree : Tree ℕ → Bool
check_avl_tree t =
    if not (check_bin_search_tree t)
    then false
    else if ltb (get_min_chain t + 1) (get_max_chain t)
    then false
    else true

-- `BinSearchTreeNode::Insert` of a node, which may have children
pub insert : Tree ℕ → ℕ → Tree ℕ → Tree ℕ → Tree ℕ
insert nl x nr Tree.null = Tree.node nl x nr
insert nl x nr (Tree.node pl obj pr) =
    if ltb x obj then Tree.node (insert nl x nr pl) obj pr else Tree.node pl obj (insert nl x nr pr)

-- The predecessor at the end of the right branches of a node, and the tree without it
pub take_last : Tree ℕ → ℕ → Tree ℕ → ℕ × Tree ℕ
take_last pl obj Tree.null = (obj, pl)
take_last pl obj (Tree.node a x b) =
    let (last, rest) = take_last a x b in (last, Tree.node pl obj rest)

-- `BinSearchTreeNode::Erase` of a node with one child, left or right: what its father becomes. The
-- child goes to the side that it had under the node, whichever side the node itself was on.
pub erase_left_only : Tree ℕ → ℕ → List (Father ℕ) → Tree ℕ
erase_left_only pl obj [] = pl
erase_left_only pl obj (Father.of_left y s ∷ path) = up path (Tree.node pl y s)
erase_left_only pl obj (Father.of_right s y ∷ path) =
    up path (Tree.node pl y (Tree.node Tree.null obj Tree.null))

pub erase_right_only : ℕ → Tree ℕ → List (Father ℕ) → Tree ℕ
erase_right_only obj pr [] = pr
erase_right_only obj pr (Father.of_left y s ∷ path) =
    up path (Tree.node (Tree.node Tree.null obj Tree.null) y pr)
erase_right_only obj pr (Father.of_right s y ∷ path) = up path (Tree.node s y pr)

-- `Erase` of the node with these children, object and fathers: the tree behind it
pub erase : Tree ℕ → ℕ → Tree ℕ → List (Father ℕ) → Tree ℕ
erase Tree.null obj Tree.null path = up path Tree.null
erase (Tree.node a x b) obj Tree.null path = erase_left_only (Tree.node a x b) obj path
erase Tree.null obj (Tree.node c y d) path = erase_right_only obj (Tree.node c y d) path
erase (Tree.node a x b) obj (Tree.node c y d) path =
    let (last, rest) = take_last a x b in up path (Tree.node rest last (Tree.node c y d))
