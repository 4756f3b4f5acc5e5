-- ===== src/Container/BinaryTree/Check.antt =====
-- The tests of trees, and the numbers that measure them
use ytlib.Base.{
  ℕ, suc, ◌+◌, ◌≤◌, ◌<◌, ◌≡◌, ◌↔◌, refl, ap, ap₂, subst, ◌^◌, sym, ◌∙◌, Bool, true, false, ◌&&◌,
  List, [], ◌∷◌, ◌++◌, map, map-append, ◌==◌, ==_iff, All, arith, max,
}
use native.Mathlib.Nat.{pow-le-pow_right, two-pow-succ}
use ytlib.Container.BinaryTree.{
  Tree, Father, up, get_height, get_max_chain, get_min_chain, get_node_num, copy_tree,
  compare_tree_obj, get_depth, get_root_node, left_fits, right_fits, check_bin_search_tree,
}
use ytlib.Container.BinaryTree.Search.{keys, IsOrdered}

and_left : (a b : Bool) → (a && b) ≡ true → a ≡ true
and_left true b h = refl
and_left false b h = h

and_right : (a b : Bool) → (a && b) ≡ true → b ≡ true
and_right true b h = h
and_right false b h = absurd (ground arith)

and_both : (a b : Bool) → a ≡ true → b ≡ true → (a && b) ≡ true
and_both a b e f = rw e f

compare_tree_obj-eq : (t u : Tree ℕ) → compare_tree_obj t u ≡ true → t ≡ u
unfolding compare_tree_obj
compare_tree_obj-eq Tree.null Tree.null h = refl
compare_tree_obj-eq Tree.null (Tree.node c y d) h = absurd (ground arith)
compare_tree_obj-eq (Tree.node a x b) Tree.null h = absurd (ground arith)
compare_tree_obj-eq (Tree.node a x b) (Tree.node c y d) h =
    let rest : (compare_tree_obj a c && compare_tree_obj b d) ≡ true = and_right (x == y) _ h in
    let root : x ≡ y = (==_iff x y).0 (and_left (x == y) _ h) in
    ap₂ (λ l r. Tree.node l x r) (compare_tree_obj-eq a c (and_left _ (compare_tree_obj b d) rest))
      (compare_tree_obj-eq b d (and_right (compare_tree_obj a c) _ rest))
    ∙ ap (λ k. Tree.node c k d) root

compare_tree_obj_refl : (t : Tree ℕ) → compare_tree_obj t t ≡ true
unfolding compare_tree_obj
compare_tree_obj_refl Tree.null = refl
compare_tree_obj_refl (Tree.node a x b) =
    let same : (x == x) ≡ true = ground arith in
    rw same (and_both _ _ (compare_tree_obj_refl a) (compare_tree_obj_refl b))

-- CompareTreeObj tells whether two trees are the same.
pub compare_tree_obj_iff : (t u : Tree ℕ) → (compare_tree_obj t u ≡ true) ↔ (t ≡ u)
compare_tree_obj_iff t u = (
  compare_tree_obj-eq t u,
  λ e. subst (λ v. compare_tree_obj t v ≡ true) e (compare_tree_obj_refl t),
)

All-at : (P : ℕ → Type 0) (xs ys : List ℕ) (y : ℕ) → All P (xs ++ (y ∷ ys)) → P y
All-at P [] ys y h = h.0
All-at P (x ∷ xs) ys y h = All-at P xs ys y h.1

left_fits_lem : (pl : Tree ℕ) (obj : ℕ) → All (λ k. k < obj) (keys pl) → left_fits pl obj ≡ true
unfolding keys
left_fits_lem Tree.null obj below = refl
left_fits_lem (Tree.node a x b) obj below =
    let lt : x < obj = All-at (λ k. k < obj) (keys a) (keys b) x below in ground arith

right_fits_lem : (pr : Tree ℕ) (obj : ℕ) → All (λ k. obj ≤ k) (keys pr) → right_fits pr obj ≡ true
unfolding keys
right_fits_lem Tree.null obj above = refl
right_fits_lem (Tree.node a x b) obj above =
    let le : obj ≤ x = All-at (λ k. obj ≤ k) (keys a) (keys b) x above in ground arith

-- CheckBinSearchTree accepts every search tree.
pub check_bin_search_tree_lem : (t : Tree ℕ) → IsOrdered t → check_bin_search_tree t ≡ true
unfolding check_bin_search_tree
check_bin_search_tree_lem Tree.null o = refl
check_bin_search_tree_lem (Tree.node pl obj pr) (below, above, ol, or) =
    and_both (left_fits pl obj && check_bin_search_tree pl)
      (right_fits pr obj && check_bin_search_tree pr)
      (and_both _ _ (left_fits_lem pl obj below) (check_bin_search_tree_lem pl ol))
      (and_both _ _ (right_fits_lem pr obj above) (check_bin_search_tree_lem pr or))

pow-max : (a b m n : ℕ) → a + 1 ≤ 2 ^ m → b + 1 ≤ 2 ^ n → (a + b + 1) + 1 ≤ 2 ^ (max m n + 1)
pow-max a b m n ha hb =
    let left : 2 ^ m ≤ 2 ^ max m n = pow-le-pow_right (omega arith) (omega arith) in
    let right : 2 ^ n ≤ 2 ^ max m n = pow-le-pow_right (omega arith) (omega arith) in
    let twice : 2 ^ (max m n + 1) ≡ 2 ^ max m n + 2 ^ max m n =
      subst (λ k. 2 ^ k ≡ 2 ^ max m n + 2 ^ max m n) {x = suc (max m n)} (omega arith)
        (two-pow-succ (max m n)) in
    omega arith

module _ {ℓ} {A : Type ℓ} where
  -- The shortest chain from the root to a leaf is not longer than the longest, and a tree has fewer
  -- nodes than two to the power of its longest chain, and as many at least as that chain.
  pub get_node_num-bounds :
      (t : Tree A)
      → (get_min_chain t ≤ get_max_chain t)
        × (get_max_chain t ≤ get_node_num t)
        × (get_node_num t + 1 ≤ 2 ^ get_max_chain t)
  unfolding get_min_chain get_max_chain get_node_num get_height
  get_node_num-bounds Tree.null = (omega arith, omega arith, omega arith)
  get_node_num-bounds (Tree.node Tree.null obj pr) =
      let (le, ge, pow) = get_node_num-bounds pr in
      (omega arith, omega arith, pow-max 0 (get_node_num pr) 0 (get_height pr) (omega arith) pow)
  get_node_num-bounds (Tree.node (Tree.node a x b) obj Tree.null) =
      let (le, ge, pow) = get_node_num-bounds (Tree.node a x b) in
      (
        omega arith,
        omega arith,
        pow-max (get_node_num (Tree.node a x b)) 0 (get_height (Tree.node a x b)) 0 pow
            (omega arith),
      )
  get_node_num-bounds (Tree.node (Tree.node a x b) obj (Tree.node c y d)) =
      let (le, ge, pow) = get_node_num-bounds (Tree.node a x b) in
      let (le', ge', pow') = get_node_num-bounds (Tree.node c y d) in
      (
        omega arith,
        omega arith,
        pow-max (get_node_num (Tree.node a x b)) (get_node_num (Tree.node c y d))
            (get_height (Tree.node a x b)) (get_height (Tree.node c y d)) pow pow',
      )

  -- A copy has the copies of the objects in the same places, so the traversals give them in the same
  -- order.
  pub keys-copy_tree {κ} :
      {B : Type κ} (make : A → B) (t : Tree A) → keys (copy_tree make t) ≡ map make (keys t)
  unfolding keys copy_tree
  keys-copy_tree make Tree.null = refl
  keys-copy_tree make (Tree.node pl obj pr) =
      ap₂ (λ l m. l ++ (make obj ∷ m)) (keys-copy_tree make pl) (keys-copy_tree make pr)
      ∙ sym (map-append make (keys pl) (obj ∷ keys pr))

  get_root_node-up : (path : List (Father A)) (t : Tree A) → get_root_node path t ≡ up path t
  unfolding get_root_node up
  get_root_node-up [] t = refl
  get_root_node-up (Father.of_left y s ∷ path) t = get_root_node-up path (Tree.node t y s)
  get_root_node-up (Father.of_right s y ∷ path) t = get_root_node-up path (Tree.node s y t)

  -- GetHeight of the root, seen from a node: at least the depth of the node and its height together
  pub get_depth-get_height :
      (path : List (Father A)) (t : Tree A)
      → get_depth path + get_height t ≤ get_height (get_root_node path t)
  unfolding get_depth get_root_node get_height
  get_depth-get_height [] t = omega arith
  get_depth-get_height (Father.of_left y s ∷ path) t =
      omega (arith, get_depth-get_height path (Tree.node t y s))
  get_depth-get_height (Father.of_right s y ∷ path) t =
      omega (arith, get_depth-get_height path (Tree.node s y t))
