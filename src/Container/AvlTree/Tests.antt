-- ===== src/Container/AvlTree/Tests.antt =====
-- Runs of AVLTreeNode's operations, and the theorems at a tree.
use ytlib.Base.{ℕ, ◌≡◌, refl, [], some, arith}
use ytlib.Container.AvlTree.{
  Avl, refresh_hgt, rotate_r, lower_right, settle, climb, climb_from, descend, land, insert_node,
  insert, find, last_obj, walk_right, swap_last, erase_imp, erase_val,
}
use ytlib.Container.AvlTree.Path.{objs}
use ytlib.Container.AvlTree.Balance.{IsBalanced}
use ytlib.Container.AvlTree.Order.{IsAscending, put_new, take_out}
use ytlib.Container.AvlTree.Insert.{insert_lem}
use ytlib.Container.AvlTree.Erase.{IsOwnBranch, erase_val_lem}

abbrev leaf : ℕ → Avl
leaf k = Avl.node Avl.null k 1 Avl.null

abbrev three : Avl
three = Avl.node (leaf 2) 4 2 (leaf 6)

abbrev line : Avl
line = Avl.node Avl.null 1 2 (leaf 2)

three-IsBalanced : IsBalanced three
three-IsBalanced = (
  omega arith,
  (omega arith, omega arith),
  (omega arith, (omega arith, omega arith), tt, tt),
  (omega arith, (omega arith, omega arith), tt, tt),
)

line-IsBalanced : IsBalanced line
line-IsBalanced =
    (omega arith, (omega arith, omega arith), tt, (omega arith, (omega arith, omega arith), tt, tt))

-- A third object in a line turns the tree.
turned_by_third : insert [] (leaf 3) line ≡ some (Avl.node (leaf 1) 2 2 (leaf 3))
unfolding insert insert_node descend land climb_from climb settle lower_right rotate_r refresh_hgt
turned_by_third = refl

erase_root : erase_val [] 4 three ≡ some (Avl.node Avl.null 2 2 (leaf 6))
unfolding erase_val find erase_imp swap_last last_obj walk_right climb_from climb settle refresh_hgt
erase_root = refl

three-IsAscending : IsAscending (objs three)
unfolding objs IsAscending
three-IsAscending = ((omega arith, (omega arith, tt)), ((omega arith, tt), (tt, tt)))

line-IsAscending : IsAscending (objs line)
unfolding objs IsAscending
line-IsAscending = ((omega arith, tt), (tt, tt))

insert_lem_example :
    (u : Avl) × (insert [] (leaf 3) line ≡ some u)
    × IsBalanced u
    × IsAscending (objs u)
    × (objs u ≡ put_new 3 (objs line))
insert_lem_example = insert_lem 3 1 line line-IsBalanced line-IsAscending

erase_val_lem_example :
    (u : Avl) × (erase_val [] 4 three ≡ some u)
    × IsBalanced u
    × IsAscending (objs u)
    × (objs u ≡ take_out 4 (objs three))
erase_val_lem_example =
    erase_val_lem 4 three [] (leaf 2) 4 2 (leaf 6) three-IsBalanced three-IsAscending
      (unfold find in refl) (unfold IsOwnBranch in tt)
