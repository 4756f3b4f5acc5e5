-- ===== src/Container/AvlTree/Erase.antt =====
-- AVLTreeNode::Erase of a value: BinSearch, EraseImp and the way up
use ytlib.Base.{
  ℕ, ◌≡◌, refl, ap, sym, subst, ◌∙◌, List, [], ◌∷◌, ◌++◌, Option, none, some, append_assoc,
  append-nil, ltb, ◌==◌, ==_iff, Bool-cases, inl, inr, arith,
}
use ytlib.Container.AvlTree.{
  Avl, AvlFather, get_hgt, find, last_obj, walk_right, left_only, right_only, swap_last, erase_imp,
  erase_val, climb_from,
}
use ytlib.Container.AvlTree.Path.{
  objs, before, behind, within, within-left, within-right, objs-climb_from, objs-climb,
}
use ytlib.Container.AvlTree.Balance.{IsBalanced, IsBalancedPath, IsNear, climb_from-IsBalanced}
use ytlib.Container.AvlTree.Order.{
  IsAscending, IsAscending-split, take_out, take_out-there, take_out-IsAscending,
}

-- The objects of a node without its predecessor's
drop_last : Avl → ℕ → Avl → List ℕ
drop_last a x Avl.null = objs a
drop_last a x (Avl.node c y k d) = objs a ++ (x ∷ drop_last c y d)

drop_last_lem :
    (a : Avl) (x : ℕ) (b : Avl) → objs a ++ (x ∷ objs b) ≡ drop_last a x b ++ (last_obj x b ∷ [])
unfolding drop_last last_obj objs
drop_last_lem a x Avl.null = refl
drop_last_lem a x (Avl.node c y k d) =
    ap (λ l. objs a ++ (x ∷ l)) (drop_last_lem c y d)
    ∙ sym (append_assoc (objs a) (x ∷ drop_last c y d) (last_obj y d ∷ []))

walk_right-objs :
    (a : Avl) (x h : ℕ) (b : Avl) (path : List AvlFather)
    → within (objs ((walk_right a x h b path).1)) ((walk_right a x h b path).0)
      ≡ within (drop_last a x b) path
unfolding walk_right drop_last
walk_right-objs a x h Avl.null path = refl
walk_right-objs a x h (Avl.node c y k d) path =
    walk_right-objs c y k d (AvlFather.of_right a x h ∷ path)
    ∙ within-right (drop_last c y d) a x h path

walk_right-IsBalanced :
    (a : Avl) (x h : ℕ) (b : Avl) (path : List AvlFather)
    → IsBalanced (Avl.node a x h b)
    → IsBalancedPath h path
    → (k : ℕ) × IsNear (get_hgt ((walk_right a x h b path).1)) k
      × IsBalanced ((walk_right a x h b path).1)
      × IsBalancedPath k ((walk_right a x h b path).0)
unfolding walk_right
walk_right-IsBalanced a x h Avl.null path (e, near, ba, bb) p =
    (h, (omega arith, omega arith), ba, p)
walk_right-IsBalanced a x h (Avl.node c y k d) path (e, near, ba, bb) p =
    walk_right-IsBalanced c y k d (AvlFather.of_right a x h ∷ path) bb (e, near, ba, p)

-- The node to erase has no child, or two, or it is the root, or its only child is on the side that the
-- node itself is on.
unfoldable pub IsOwnBranch : Avl → Avl → List AvlFather → Type 0
IsOwnBranch (Avl.node a x k b) Avl.null (AvlFather.of_right s y h ∷ path) = ⊥
IsOwnBranch Avl.null (Avl.node c y k d) (AvlFather.of_left z h s ∷ path) = ⊥
IsOwnBranch pl pr path = Unit

swap_last-objs :
    (a : Avl) (x k : ℕ) (b : Avl) (hgt : ℕ) (pr : Avl) (path : List AvlFather)
    → objs (swap_last a x k b hgt pr path) ≡ within ((objs a ++ (x ∷ objs b)) ++ objs pr) path
unfolding swap_last
swap_last-objs a x k b hgt pr path =
    let base : List AvlFather = AvlFather.of_left (last_obj x b) hgt pr ∷ path in
    objs-climb_from ((walk_right a x k b base).0) ((walk_right a x k b base).1)
    ∙ walk_right-objs a x k b base
    ∙ within-left (drop_last a x b) (last_obj x b) hgt pr path
    ∙ ap (λ l. within l path)
        (sym (append_assoc (drop_last a x b) (last_obj x b ∷ []) (objs pr))
          ∙ ap (λ l. l ++ objs pr) (sym (drop_last_lem a x b)))

erase_imp-objs :
    (pl : Avl) (obj h : ℕ) (pr : Avl) (path : List AvlFather)
    → IsOwnBranch pl pr path
    → objs (erase_imp pl obj h pr path) ≡ within (objs pl ++ objs pr) path
unfolding erase_imp left_only right_only objs IsOwnBranch climb_from
erase_imp-objs Avl.null obj h Avl.null path own = objs-climb_from path Avl.null
erase_imp-objs (Avl.node a x k b) obj h Avl.null [] own =
    objs-climb_from [] (Avl.node a x k b)
    ∙ ap (λ l. within l []) (sym (append-nil (objs (Avl.node a x k b))))
erase_imp-objs (Avl.node a x k b) obj h Avl.null (AvlFather.of_left y j s ∷ path) own =
    objs-climb_from (AvlFather.of_left y j s ∷ path) (Avl.node a x k b)
    ∙ ap (λ l. within l (AvlFather.of_left y j s ∷ path))
        (sym (append-nil (objs (Avl.node a x k b))))
erase_imp-objs (Avl.node a x k b) obj h Avl.null (AvlFather.of_right s y j ∷ path) own = absurd own
erase_imp-objs Avl.null obj h (Avl.node c y k d) [] own = objs-climb_from [] (Avl.node c y k d)
erase_imp-objs Avl.null obj h (Avl.node c y k d) (AvlFather.of_left z j s ∷ path) own = absurd own
erase_imp-objs Avl.null obj h (Avl.node c y k d) (AvlFather.of_right s z j ∷ path) own =
    objs-climb_from (AvlFather.of_right s z j ∷ path) (Avl.node c y k d)
erase_imp-objs (Avl.node a x k b) obj h (Avl.node c y j d) path own =
    swap_last-objs a x k b h (Avl.node c y j d) path

erase_imp-IsBalanced :
    (pl : Avl) (obj h : ℕ) (pr : Avl) (path : List AvlFather)
    → IsOwnBranch pl pr path
    → IsBalanced (Avl.node pl obj h pr)
    → IsBalancedPath h path
    → IsBalanced (erase_imp pl obj h pr path)
unfolding erase_imp left_only right_only IsOwnBranch
erase_imp-IsBalanced Avl.null obj h Avl.null path own (e, near, bl, br) p =
    climb_from-IsBalanced path Avl.null h tt (omega arith, omega arith) p
erase_imp-IsBalanced (Avl.node a x k b) obj h Avl.null [] own (e, near, bl, br) p = bl
erase_imp-IsBalanced (Avl.node a x k b) obj h Avl.null (AvlFather.of_left y j s ∷ path) own
      (e, near, bl, br) p =
    unfold climb_from in
    climb_from-IsBalanced (AvlFather.of_left y j s ∷ path) (Avl.node a x k b) h bl
      (omega arith, omega arith) p
erase_imp-IsBalanced (Avl.node a x k b) obj h Avl.null (AvlFather.of_right s y j ∷ path) own b' p =
    absurd own
erase_imp-IsBalanced Avl.null obj h (Avl.node c y k d) [] own (e, near, bl, br) p = br
erase_imp-IsBalanced Avl.null obj h (Avl.node c y k d) (AvlFather.of_left z j s ∷ path) own b p =
    absurd own
erase_imp-IsBalanced Avl.null obj h (Avl.node c y k d) (AvlFather.of_right s z j ∷ path) own
      (e, near, bl, br) p =
    unfold climb_from in
    climb_from-IsBalanced (AvlFather.of_right s z j ∷ path) (Avl.node c y k d) h br
      (omega arith, omega arith) p
erase_imp-IsBalanced (Avl.node a x k b) obj h (Avl.node c y j d) path own (e, near, bl, br) p =
    unfold swap_last in
    let base : List AvlFather = AvlFather.of_left (last_obj x b) h (Avl.node c y j d) ∷ path in
    let (n, near', brest, p') = walk_right-IsBalanced a x k b base bl (e, near, br, p) in
    climb_from-IsBalanced ((walk_right a x k b base).0) ((walk_right a x k b base).1) n brest near'
      p'

-- What BinSearch gives for `x` in a tree under fathers, `l` being the objects of the whole
IsFound : ℕ → List ℕ → Option (List AvlFather × Avl) → Type 0
IsFound x l none = Unit
IsFound x l (some (p, Avl.null)) = ⊥
IsFound x l (some (p, Avl.node pl obj h pr)) =
    (obj ≡ x)
    × (l ≡ within (objs pl ++ (obj ∷ objs pr)) p)
    × IsBalanced (Avl.node pl obj h pr)
    × IsBalancedPath h p

find_lem :
    (x : ℕ) (t : Avl) (path : List AvlFather)
    → IsBalanced t
    → IsBalancedPath (get_hgt t) path
    → IsFound x (within (objs t) path) (find x t path)
unfolding IsFound find objs
find_lem x Avl.null path b p = tt
find_lem x (Avl.node pl obj hgt pr) path (e, near, bl, br) p = elim (Bool-cases (obj == x)) [
  | inl hit ↦ rw (hit, find) ((==_iff obj x).0 hit, refl, (e, near, bl, br), p)
  | inr miss ↦ elim (Bool-cases (ltb x obj)) [
    | inl less ↦
        rw (miss, less, find)
          (subst (λ l. IsFound x l (find x pl (AvlFather.of_left obj hgt pr ∷ path)))
            (within-left (objs pl) obj hgt pr path)
            (find_lem x pl (AvlFather.of_left obj hgt pr ∷ path) bl (e, near, br, p)))
    | inr more ↦
        rw (miss, more, find)
          (subst (λ l. IsFound x l (find x pr (AvlFather.of_right pl obj hgt ∷ path)))
            (within-right (objs pr) pl obj hgt path)
            (find_lem x pr (AvlFather.of_right pl obj hgt ∷ path) br (e, near, bl, p)))
  ]
]

-- What is around an object, and the list without it
within-around :
    (ks : List ℕ) (x : ℕ) (ls : List ℕ) (path : List AvlFather)
    → within (ks ++ (x ∷ ls)) path ≡ (before path ++ ks) ++ (x ∷ (ls ++ behind path))
within-around ks x ls path =
    ap (λ l. before path ++ l) (append_assoc ks (x ∷ ls) (behind path))
    ∙ sym (append_assoc (before path) ks (x ∷ (ls ++ behind path)))

within-without :
    (ks ls : List ℕ) (path : List AvlFather)
    → within (ks ++ ls) path ≡ (before path ++ ks) ++ (ls ++ behind path)
within-without ks ls path =
    ap (λ l. before path ++ l) (append_assoc ks ls (behind path))
    ∙ sym (append_assoc (before path) ks (ls ++ behind path))

take_out-within :
    (x : ℕ) (l ks ls : List ℕ) (path : List AvlFather)
    → IsAscending l
    → l ≡ within (ks ++ (x ∷ ls)) path
    → within (ks ++ ls) path ≡ take_out x l
take_out-within x l ks ls path asc e =
    let shape : l ≡ (before path ++ ks) ++ (x ∷ (ls ++ behind path)) =
      e ∙ within-around ks x ls path in
    let parts =
      IsAscending-split (before path ++ ks) x (ls ++ behind path) (subst IsAscending shape asc) in
    within-without ks ls path
    ∙ sym (take_out-there x (before path ++ ks) (ls ++ behind path) parts.0)
    ∙ ap (take_out x) (sym shape)

find-found :
    (x : ℕ) (t : Avl) (path : List AvlFather) (pl : Avl) (obj h : ℕ) (pr : Avl)
    → IsBalanced t
    → find x t [] ≡ some (path, Avl.node pl obj h pr)
    → (objs t ≡ within (objs pl ++ (x ∷ objs pr)) path)
      × IsBalanced (Avl.node pl obj h pr)
      × IsBalancedPath h path
unfolding IsFound before behind
find-found x t path pl obj h pr b found =
    let (hit, shape, bn, p) = subst (IsFound x (objs t ++ [])) found (find_lem x t [] b tt) in
    (
      sym (append-nil (objs t)) ∙ shape ∙ ap (λ k. within (objs pl ++ (k ∷ objs pr)) path) hit,
      bn,
      p,
    )

-- Erase of a value that is found in the tree of a root, at a node whose only child, if it has just one,
-- is on the side that the node is on, or of the root: from a tree that is balanced and has its objects
-- in ascending order it gives such a tree again, with all objects but the value.
pub erase_val_lem :
    (x : ℕ) (t : Avl) (path : List AvlFather) (pl : Avl) (obj h : ℕ) (pr : Avl)
    → IsBalanced t
    → IsAscending (objs t)
    → find x t [] ≡ some (path, Avl.node pl obj h pr)
    → IsOwnBranch pl pr path
    → (u : Avl) × (erase_val [] x t ≡ some u)
      × IsBalanced u
      × IsAscending (objs u)
      × (objs u ≡ take_out x (objs t))
unfolding erase_val
erase_val_lem x t path pl obj h pr b asc found own =
    let (shape, bn, p) = find-found x t path pl obj h pr b found in
    let gone : objs (erase_imp pl obj h pr path) ≡ take_out x (objs t) =
      erase_imp-objs pl obj h pr path own
      ∙ take_out-within x (objs t) (objs pl) (objs pr) path asc shape in
    (
      erase_imp pl obj h pr path,
      rw (found, erase_val) refl,
      erase_imp-IsBalanced pl obj h pr path own bn p,
      subst IsAscending (sym gone) (take_out-IsAscending x (objs t) asc),
      gone,
    )

-- Erase of a node that is a right child and has a left child only: its object is still in the tree, and
-- the objects on the left of its father are gone.
pub erase_imp_keeps :
    (a : Avl) (x k : ℕ) (b : Avl) (obj h : ℕ) (s : Avl) (y j : ℕ) (path : List AvlFather)
    → objs (erase_imp (Avl.node a x k b) obj h Avl.null (AvlFather.of_right s y j ∷ path))
      ≡ within (objs (Avl.node a x k b) ++ (y ∷ obj ∷ [])) path
unfolding erase_imp left_only
erase_imp_keeps a x k b obj h s y j path =
    unfold objs in objs-climb path (Avl.node a x k b) y j (Avl.node Avl.null obj h Avl.null)
