-- ===== src/Container/BinaryTree/Erase.antt =====
-- BinSearchTreeNode::Erase, by the objects that the whole tree has left.
use ytlib.Base.{◌≡◌, refl, ap, sym, ◌∙◌, ℕ, List, [], ◌∷◌, ◌++◌, append_assoc, append-nil}
use ytlib.Container.BinaryTree.{
  Tree, Father, up, take_last, erase, erase_left_only, erase_right_only,
}
use ytlib.Container.BinaryTree.Search.{keys}

module _ {ℓ} {A : Type ℓ} where
  -- What the fathers hold on the left of the node, and on the right of it
  pub lefts : List (Father A) → List A
  lefts [] = []
  lefts (Father.of_left y s ∷ path) = lefts path
  lefts (Father.of_right s y ∷ path) = lefts path ++ (keys s ++ (y ∷ []))

  pub rights : List (Father A) → List A
  rights [] = []
  rights (Father.of_left y s ∷ path) = (y ∷ keys s) ++ rights path
  rights (Father.of_right s y ∷ path) = rights path

  -- A node with its fathers: the objects of the whole tree from left to right are those of the fathers
  -- around those of the node.
  pub keys-up :
      (path : List (Father A)) (t : Tree A)
      → keys (up path t) ≡ lefts path ++ (keys t ++ rights path)
  unfolding up keys lefts rights
  keys-up [] t = sym (append-nil (keys t))
  keys-up (Father.of_left y s ∷ path) t =
      keys-up path (Tree.node t y s)
      ∙ ap (λ l. lefts path ++ l) (append_assoc (keys t) (y ∷ keys s) (rights path))
  keys-up (Father.of_right s y ∷ path) t =
      keys-up path (Tree.node s y t)
      ∙ ap (λ l. lefts path ++ l)
          (append_assoc (keys s) (y ∷ keys t) (rights path)
            ∙ sym (append_assoc (keys s) (y ∷ []) (keys t ++ rights path)))
      ∙ sym (append_assoc (lefts path) (keys s ++ (y ∷ [])) (keys t ++ rights path))

-- The node to erase has no child, or two, or it is the root, or its only child is on the side that the
-- node itself is on.
unfoldable pub IsOwnSide : Tree ℕ → Tree ℕ → List (Father ℕ) → Type 0
IsOwnSide (Tree.node a x b) Tree.null (Father.of_right s y ∷ path) = ⊥
IsOwnSide Tree.null (Tree.node c y d) (Father.of_left z s ∷ path) = ⊥
IsOwnSide pl pr path = Unit

take_last-keys :
    (a : Tree ℕ) (x : ℕ) (b : Tree ℕ)
    → keys (Tree.node a x b) ≡ keys ((take_last a x b).1) ++ ((take_last a x b).0 ∷ [])
unfolding keys take_last
take_last-keys a x Tree.null = refl
take_last-keys a x (Tree.node c y d) =
    ap (λ l. keys a ++ (x ∷ l)) (take_last-keys c y d)
    ∙ sym (append_assoc (keys a) (x ∷ keys ((take_last c y d).1)) ((take_last c y d).0 ∷ []))

keys-erase_two :
    (a : Tree ℕ) (x : ℕ) (b : Tree ℕ) (obj : ℕ) (pr : Tree ℕ) (path : List (Father ℕ))
    → keys (up path (Tree.node ((take_last a x b).1) ((take_last a x b).0) pr))
      ≡ lefts path ++ ((keys (Tree.node a x b) ++ keys pr) ++ rights path)
unfolding keys
keys-erase_two a x b obj pr path =
    keys-up path (Tree.node ((take_last a x b).1) ((take_last a x b).0) pr)
    ∙ ap (λ l. lefts path ++ (l ++ rights path))
        (sym (append_assoc (keys ((take_last a x b).1)) ((take_last a x b).0 ∷ []) (keys pr))
          ∙ ap (λ l. l ++ keys pr) (sym (take_last-keys a x b)))

pad : (l m : List ℕ) → l ++ m ≡ (l ++ []) ++ m
pad l m = ap (λ k. k ++ m) (sym (append-nil l))

-- Erase of a node whose only child, if it has just one, is on the side that the node is on, or of the
-- root, takes its object out of the tree and leaves all others in their order.
pub keys-erase :
    (pl : Tree ℕ) (obj : ℕ) (pr : Tree ℕ) (path : List (Father ℕ))
    → IsOwnSide pl pr path
    → (keys (up path (Tree.node pl obj pr))
        ≡ lefts path ++ ((keys pl ++ (obj ∷ keys pr)) ++ rights path))
      × (keys (erase pl obj pr path) ≡ lefts path ++ ((keys pl ++ keys pr) ++ rights path))
unfolding erase erase_left_only erase_right_only keys up lefts rights IsOwnSide
keys-erase Tree.null obj Tree.null path own =
    (keys-up path (Tree.node Tree.null obj Tree.null), keys-up path Tree.null)
keys-erase (Tree.node a x b) obj Tree.null [] own = (
  keys-up [] (Tree.node (Tree.node a x b) obj Tree.null),
  sym (append-nil (keys (Tree.node a x b))) ∙ pad (keys (Tree.node a x b)) [],
)
keys-erase (Tree.node a x b) obj Tree.null (Father.of_left y s ∷ path) own = (
  keys-up (Father.of_left y s ∷ path) (Tree.node (Tree.node a x b) obj Tree.null),
  keys-up path (Tree.node (Tree.node a x b) y s)
      ∙ ap (λ l. lefts path ++ l)
          (append_assoc (keys (Tree.node a x b)) (y ∷ keys s) (rights path)
            ∙ pad (keys (Tree.node a x b)) (y ∷ (keys s ++ rights path))),
)
keys-erase (Tree.node a x b) obj Tree.null (Father.of_right s y ∷ path) own = absurd own
keys-erase Tree.null obj (Tree.node c y d) [] own = (
  keys-up [] (Tree.node Tree.null obj (Tree.node c y d)),
  sym (append-nil (keys (Tree.node c y d))),
)
keys-erase Tree.null obj (Tree.node c y d) (Father.of_left z s ∷ path) own = absurd own
keys-erase Tree.null obj (Tree.node c y d) (Father.of_right s z ∷ path) own = (
  keys-up (Father.of_right s z ∷ path) (Tree.node Tree.null obj (Tree.node c y d)),
  keys-up path (Tree.node s z (Tree.node c y d))
      ∙ ap (λ l. lefts path ++ l)
          (append_assoc (keys s) (z ∷ keys (Tree.node c y d)) (rights path)
            ∙ sym (append_assoc (keys s) (z ∷ []) (keys (Tree.node c y d) ++ rights path)))
      ∙ sym
          (append_assoc (lefts path) (keys s ++ (z ∷ [])) (keys (Tree.node c y d) ++ rights path)),
)
keys-erase (Tree.node a x b) obj (Tree.node c y d) path own = (
  keys-up path (Tree.node (Tree.node a x b) obj (Tree.node c y d)),
  keys-erase_two a x b obj (Tree.node c y d) path,
)

-- Erase of a right child that has a left child only: the object is still in the tree, and its father
-- has lost its left subtree.
pub erase_keeps :
    (a : Tree ℕ) (x : ℕ) (b : Tree ℕ) (obj : ℕ) (s : Tree ℕ) (y : ℕ) (path : List (Father ℕ))
    → keys (erase (Tree.node a x b) obj Tree.null (Father.of_right s y ∷ path))
      ≡ lefts path ++ ((keys (Tree.node a x b) ++ (y ∷ obj ∷ [])) ++ rights path)
unfolding erase erase_left_only keys
erase_keeps a x b obj s y path =
    keys-up path (Tree.node (Tree.node a x b) y (Tree.node Tree.null obj Tree.null))
