-- ===== src/Container/BinaryTree/Tests.antt =====
-- Runs of the functions on trees, and the theorems at a tree.
use ytlib.Base.{ℕ, ◌≡◌, refl, true, List, [], ◌∷◌, ◌++◌, some, arith, length}
use ytlib.Container.BinaryTree.{
  Tree, Father, up, serialize_tree, deserialize_tree, tra_by_level, get_height, get_node_num,
  compare_tree_obj, check_bin_search_tree, erase, level_loop, dlr, lrd,
}
use ytlib.Container.BinaryTree.Serial.{deserialize-serialize}
use ytlib.Container.BinaryTree.Level.{rows, tra_by_level-rows}
use ytlib.Container.BinaryTree.Search.{keys, IsOrdered}
use ytlib.Container.BinaryTree.Erase.{lefts, rights, IsOwnSide, keys-erase}

abbrev single : ℕ → Tree ℕ
single k = Tree.node Tree.null k Tree.null

abbrev five : Tree ℕ
five = Tree.node (Tree.node (single 1) 2 Tree.null) 4 (Tree.node Tree.null 6 (single 9))

five-IsOrdered : IsOrdered five
unfolding keys
five-IsOrdered = (
  (omega arith, (omega arith, tt)),
  (omega arith, (omega arith, tt)),
  ((omega arith, tt), tt, (tt, tt, tt, tt), tt),
  (tt, (omega arith, tt), tt, (tt, tt, tt, tt)),
)

level_five : tra_by_level five ≡ 4 ∷ 2 ∷ 6 ∷ 1 ∷ 9 ∷ []
unfolding tra_by_level level_loop get_node_num
level_five = refl

dlr-five : dlr five [] ≡ 4 ∷ 2 ∷ 1 ∷ 6 ∷ 9 ∷ []
unfolding dlr
dlr-five = refl

lrd-five : lrd five [] ≡ 1 ∷ 2 ∷ 9 ∷ 6 ∷ 4 ∷ []
unfolding lrd
lrd-five = refl

-- A grandchild on the wrong side of the root: the test looks at fathers only.
unordered_accepted :
    check_bin_search_tree (Tree.node (Tree.node Tree.null 2 (single 9)) 4 Tree.null) ≡ true
unfolding check_bin_search_tree
unordered_accepted = refl

compare_five : compare_tree_obj five five ≡ true
unfolding compare_tree_obj
compare_five = refl

deserialize-serialize_example :
    deserialize_tree (length (serialize_tree 0 five)) (serialize_tree 0 five) ≡ some (five, [])
deserialize-serialize_example = deserialize-serialize 0 five

tra_by_level-rows_example : tra_by_level five ≡ rows 0 (get_height five) five
tra_by_level-rows_example = tra_by_level-rows five

abbrev under_two : List (Father ℕ)
under_two = Father.of_left 8 (single 9) ∷ []

keys-erase_example :
    (keys (up under_two (Tree.node (single 1) 4 Tree.null))
      ≡ lefts under_two ++ ((keys (single 1) ++ (4 ∷ keys Tree.null)) ++ rights under_two))
    × (keys (erase (single 1) 4 Tree.null under_two)
        ≡ lefts under_two ++ ((keys (single 1) ++ keys Tree.null) ++ rights under_two))
keys-erase_example = keys-erase (single 1) 4 Tree.null under_two (unfold IsOwnSide in tt)
