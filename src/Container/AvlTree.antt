-- ===== src/Container/AvlTree.antt =====
-- ytlib/container/binary_tree.hpp: AVLTreeNode. A node with its father pointers is a tree with the path
-- to its root, as for the other trees. Objects are the numbers that they compare by.
pub mod Path
pub mod Balance
pub mod Order
pub mod Insert
pub mod Erase
mod Tests
use ytlib.Base.{
  ℕ, zero, suc, ◌+◌, Bool, true, false, not, List, [], ◌∷◌, Option, none, some, max, ltb, leb, ◌==◌,
  if◌then◌else◌,
}

-- A node has `pl`, `obj`, `hgt` and `pr`.
pub data Avl : Type 0 where
  null : Avl
  node : Avl → ℕ → ℕ → Avl → Avl

-- The father of a node, without the branch of the node
pub data AvlFather : Type 0 where
  of_left : ℕ → ℕ → Avl → AvlFather
  of_right : Avl → ℕ → ℕ → AvlFather

abbrev pub get_hgt : Avl → ℕ
get_hgt Avl.null = 0
get_hgt (Avl.node pl obj hgt pr) = hgt

-- A node after `RefreshHgt`
pub refresh_hgt : Avl → ℕ → Avl → Avl
refresh_hgt pl obj pr = Avl.node pl obj (max (get_hgt pl) (get_hgt pr) + 1) pr

-- The rotations of the node; the code turns only a node that has the child that comes up.
pub rotate_l : Avl → ℕ → ℕ → Avl → Avl
rotate_l Avl.null obj hgt pr = Avl.node Avl.null obj hgt pr
rotate_l (Avl.node a x h b) obj hgt pr = refresh_hgt a x (refresh_hgt b obj pr)

pub rotate_r : Avl → ℕ → ℕ → Avl → Avl
rotate_r pl obj hgt Avl.null = Avl.node pl obj hgt Avl.null
rotate_r pl obj hgt (Avl.node a x h b) = refresh_hgt (refresh_hgt pl obj a) x b

-- The left side is higher by two.
pub lower_left : Avl → ℕ → ℕ → Avl → Avl
lower_left Avl.null obj hgt pr = Avl.node Avl.null obj hgt pr
lower_left (Avl.node a x h b) obj hgt pr =
    if leb (get_hgt b) (get_hgt a)
    then rotate_l (Avl.node a x h b) obj hgt pr
    else rotate_l (rotate_r a x h b) obj hgt pr

pub lower_right : Avl → ℕ → ℕ → Avl → Avl
lower_right pl obj hgt Avl.null = Avl.node pl obj hgt Avl.null
lower_right pl obj hgt (Avl.node a x h b) =
    if leb (get_hgt a) (get_hgt b)
    then rotate_r pl obj hgt (Avl.node a x h b)
    else rotate_r pl obj hgt (rotate_l a x h b)

-- One round of the loop at `pos`: whether the height is as it was and nothing has turned, and what
-- stands there now
pub settle : Avl → ℕ → ℕ → Avl → Bool × Avl
settle pl obj hgt pr =
    if leb (get_hgt pr + 2) (get_hgt pl)
    then (false, lower_left pl obj hgt pr)
    else if leb (get_hgt pl + 2) (get_hgt pr)
    then (false, lower_right pl obj hgt pr)
    else (hgt == max (get_hgt pl) (get_hgt pr) + 1, refresh_hgt pl obj pr)

-- The node under its father
pub plug : AvlFather → Avl → Avl
plug (AvlFather.of_left y h s) t = Avl.node t y h s
plug (AvlFather.of_right s y h) t = Avl.node s y h t

pub up : List AvlFather → Avl → Avl
up [] t = t
up (f ∷ path) t = up path (plug f t)

-- The loop from `pos`, the node with these children, up its fathers: the whole tree behind it
pub climb : Avl → ℕ → ℕ → Avl → List AvlFather → Avl
climb pl obj hgt pr [] = (settle pl obj hgt pr).1
climb pl obj hgt pr (AvlFather.of_left y h s ∷ path) =
    let (stop, t) = settle pl obj hgt pr in
    let rest = climb t y h s path in if stop then up path (Avl.node t y h s) else rest
climb pl obj hgt pr (AvlFather.of_right s y h ∷ path) =
    let (stop, t) = settle pl obj hgt pr in
    let rest = climb s y h t path in if stop then up path (Avl.node s y h t) else rest

-- The loop from the father of a branch that is `t` now
pub climb_from : Avl → List AvlFather → Avl
climb_from t [] = t
climb_from t (AvlFather.of_left y h s ∷ path) = climb t y h s path
climb_from t (AvlFather.of_right s y h ∷ path) = climb s y h t path

-- The way down to where `x` belongs: the fathers of the place, or `none` if a node has `x`
pub descend : ℕ → Avl → List AvlFather → Option (List AvlFather)
descend x Avl.null path = some path
descend x (Avl.node pl obj hgt pr) path =
    let left = descend x pl (AvlFather.of_left obj hgt pr ∷ path) in
    let right = descend x pr (AvlFather.of_right pl obj hgt ∷ path) in
    if obj == x then none else if ltb x obj then left else right

-- The tree with a node at the place that is found for it
pub land : Avl → Avl → Option (List AvlFather) → Avl
land new t none = t
land new t (some path) = climb_from new path

-- `Insert` of a node with the children `nl` and `nr` into the tree of a root
pub insert_node : Avl → ℕ → Avl → Avl → Avl
insert_node nl x nr t = land (Avl.node nl x 1 nr) t (descend x t [])

-- `Insert` as it is called on a node with these fathers; `none` is the exception of a node that is not
-- the root. A null pointer is no node.
pub insert : List AvlFather → Avl → Avl → Option Avl
insert (f ∷ path) new t = none
insert [] Avl.null t = some t
insert [] (Avl.node nl x h nr) t = some (insert_node nl x nr t)

-- `BinSearch`: the node with `x`, as its fathers and itself, or `none`
pub find : ℕ → Avl → List AvlFather → Option (List AvlFather × Avl)
find x Avl.null path = none
find x (Avl.node pl obj hgt pr) path =
    let left = find x pl (AvlFather.of_left obj hgt pr ∷ path) in
    let right = find x pr (AvlFather.of_right pl obj hgt ∷ path) in
    if obj == x then some (path, Avl.node pl obj hgt pr) else if ltb x obj then left else right

-- The object of the predecessor, at the end of the right branches of a node
pub last_obj : ℕ → Avl → ℕ
last_obj x Avl.null = x
last_obj x (Avl.node a y h b) = last_obj y b

-- The fathers of the predecessor, from those of the node on, and what it leaves, its left child
pub walk_right : Avl → ℕ → ℕ → Avl → List AvlFather → List AvlFather × Avl
walk_right a x h Avl.null path = (path, a)
walk_right a x h (Avl.node c y k d) path = walk_right c y k d (AvlFather.of_right a x h ∷ path)

-- A node with one child leaves: the child goes to the side of the father that it had under the node.
pub left_only : Avl → ℕ → ℕ → List AvlFather → Avl
left_only pl obj hgt [] = pl
left_only pl obj hgt (AvlFather.of_left y h s ∷ path) = climb pl y h s path
left_only pl obj hgt (AvlFather.of_right s y h ∷ path) =
    climb pl y h (Avl.node Avl.null obj hgt Avl.null) path

pub right_only : ℕ → ℕ → Avl → List AvlFather → Avl
right_only obj hgt pr [] = pr
right_only obj hgt pr (AvlFather.of_left y h s ∷ path) =
    climb (Avl.node Avl.null obj hgt Avl.null) y h pr path
right_only obj hgt pr (AvlFather.of_right s y h ∷ path) = climb s y h pr path

-- The predecessor takes the place of a node with two children, and its `hgt`.
pub swap_last : Avl → ℕ → ℕ → Avl → ℕ → Avl → List AvlFather → Avl
swap_last a x k b hgt pr path =
    let (fathers, left) = walk_right a x k b (AvlFather.of_left (last_obj x b) hgt pr ∷ path) in
    climb_from left fathers

-- `EraseImp` of the node with these children, object, height and fathers
pub erase_imp : Avl → ℕ → ℕ → Avl → List AvlFather → Avl
erase_imp Avl.null obj hgt Avl.null path = climb_from Avl.null path
erase_imp (Avl.node a x k b) obj hgt Avl.null path = left_only (Avl.node a x k b) obj hgt path
erase_imp Avl.null obj hgt (Avl.node c y k d) path = right_only obj hgt (Avl.node c y k d) path
erase_imp (Avl.node a x k b) obj hgt (Avl.node c y j d) path =
    swap_last a x k b hgt (Avl.node c y j d) path

-- `Erase` of a value, as it is called on a node with these fathers; `none` is the exception.
pub erase_val : List AvlFather → ℕ → Avl → Option Avl
erase_val (f ∷ path) x t = none
erase_val [] x t = elim (find x t []) [
  | none ↦ some t
  | some (path, Avl.null) ↦ some t
  | some (path, Avl.node pl obj hgt pr) ↦ some (erase_imp pl obj hgt pr path)
]
