-- ===== src/Container/AvlTree/Insert.antt =====
-- AVLTreeNode::Insert of a single node into the tree of a root
use ytlib.Base.{
  ℕ, ◌<◌, ◌≡◌, refl, ap, sym, subst, ◌∙◌, List, [], ◌∷◌, ◌++◌, Option, none, some, append_assoc,
  append-nil, All, All-append, ltb, ltb→lt, ◌==◌, ==_iff, Bool-cases, inl, inr, arith,
}
use ytlib.Container.AvlTree.{Avl, AvlFather, get_hgt, descend, land, insert_node, insert}
use ytlib.Container.AvlTree.Path.{
  objs, before, behind, within, within-left, within-right, objs-climb_from,
}
use ytlib.Container.AvlTree.Balance.{IsBalanced, IsBalancedPath, climb_from-IsBalanced}
use ytlib.Container.AvlTree.Order.{
  IsAscending, IsAscending-split, put_new, put_new-here, put_new-there, put_new-IsAscending,
  All-mono,
}

-- What the way down has to find: the object, or the place for it
IsPlaceFor : ℕ → List ℕ → Option (List AvlFather) → Type 0
IsPlaceFor x l none = put_new x l ≡ l
IsPlaceFor x l (some p) = put_new x l ≡ before p ++ (x ∷ behind p)

descend_lem :
    (x : ℕ) (t : Avl) (path : List AvlFather)
    → IsAscending (objs t)
    → All (λ k. k < x) (before path)
    → All (λ k. x < k) (behind path)
    → IsPlaceFor x (within (objs t) path) (descend x t path)
unfolding IsPlaceFor descend objs before behind
descend_lem x Avl.null path asc below above = put_new-here x (before path) (behind path) below above
descend_lem x (Avl.node pl obj hgt pr) path asc below above =
    let (lower, upper, asc_l, asc_r) = IsAscending-split (objs pl) obj (objs pr) asc in
    elim (Bool-cases (obj == x)) [
      | inl hit ↦
          let e : obj ≡ x = (==_iff obj x).0 hit in
          let l_below : All (λ k. k < x) (before path ++ objs pl) =
            All-append (λ k. k < x) (before path) (objs pl) below
              (All-mono (λ k. k < obj) (λ k. k < x) (objs pl) (λ k h. omega arith) lower) in
          let shape : within (objs pl ++ (obj ∷ objs pr)) path
              ≡ (before path ++ objs pl) ++ (x ∷ (objs pr ++ behind path)) =
            ap (λ l. before path ++ l) (append_assoc (objs pl) (obj ∷ objs pr) (behind path))
            ∙ sym (append_assoc (before path) (objs pl) (obj ∷ (objs pr ++ behind path)))
            ∙ ap (λ k. (before path ++ objs pl) ++ (k ∷ (objs pr ++ behind path))) e in
          rw (hit, descend)
            (ap (put_new x) shape
              ∙ put_new-there x (before path ++ objs pl) (objs pr ++ behind path) l_below
              ∙ sym shape)
      | inr miss ↦ elim (Bool-cases (ltb x obj)) [
        | inl less ↦
            let lt : x < obj = ltb→lt x obj less in
            let r_above : All (λ k. x < k) ((obj ∷ objs pr) ++ behind path) =
              All-append (λ k. x < k) (obj ∷ objs pr) (behind path)
                (lt, All-mono (λ k. obj < k) (λ k. x < k) (objs pr) (λ k h. omega arith) upper)
                above in
            rw (miss, less, descend)
              (subst (λ l. IsPlaceFor x l (descend x pl (AvlFather.of_left obj hgt pr ∷ path)))
                (within-left (objs pl) obj hgt pr path)
                (descend_lem x pl (AvlFather.of_left obj hgt pr ∷ path) asc_l below r_above))
        | inr more ↦
            let lt : obj < x = ground arith in
            let l_below : All (λ k. k < x) (before path ++ (objs pl ++ (obj ∷ []))) =
              All-append (λ k. k < x) (before path) (objs pl ++ (obj ∷ [])) below
                (All-append (λ k. k < x) (objs pl) (obj ∷ [])
                  (All-mono (λ k. k < obj) (λ k. k < x) (objs pl) (λ k h. omega arith) lower)
                  (lt, tt)) in
            rw (miss, more, descend)
              (subst (λ l. IsPlaceFor x l (descend x pr (AvlFather.of_right pl obj hgt ∷ path)))
                (within-right (objs pr) pl obj hgt path)
                (descend_lem x pr (AvlFather.of_right pl obj hgt ∷ path) asc_r l_below above))
      ]
    ]

IsEmptyPlace : Option (List AvlFather) → Type 0
IsEmptyPlace none = Unit
IsEmptyPlace (some p) = IsBalancedPath 0 p

descend-IsBalancedPath :
    (x : ℕ) (t : Avl) (path : List AvlFather)
    → IsBalanced t
    → IsBalancedPath (get_hgt t) path
    → IsEmptyPlace (descend x t path)
unfolding IsEmptyPlace descend
descend-IsBalancedPath x Avl.null path b p = p
descend-IsBalancedPath x (Avl.node pl obj hgt pr) path (e, near, bl, br) p =
    elim (Bool-cases (obj == x)) [
      | inl hit ↦ rw (hit, descend) tt
      | inr miss ↦ elim (Bool-cases (ltb x obj)) [
        | inl less ↦
            rw (miss, less, descend)
              (descend-IsBalancedPath x pl (AvlFather.of_left obj hgt pr ∷ path) bl
                (e, near, br, p))
        | inr more ↦
            rw (miss, more, descend)
              (descend-IsBalancedPath x pr (AvlFather.of_right pl obj hgt ∷ path) br
                (e, near, bl, p))
      ]
    ]

land-objs :
    (x : ℕ) (t : Avl) (place : Option (List AvlFather))
    → IsPlaceFor x (objs t) place
    → objs (land (Avl.node Avl.null x 1 Avl.null) t place) ≡ put_new x (objs t)
unfolding land IsPlaceFor objs
land-objs x t none e = sym e
land-objs x t (some path) e = objs-climb_from path (Avl.node Avl.null x 1 Avl.null) ∙ sym e

insert_node-objs :
    (x : ℕ) (t : Avl)
    → IsAscending (objs t)
    → objs (insert_node Avl.null x Avl.null t) ≡ put_new x (objs t)
unfolding insert_node before behind
insert_node-objs x t asc = land-objs x t (descend x t []) (
    subst (λ l. IsPlaceFor x l (descend x t [])) (append-nil (objs t))
      (descend_lem x t [] asc tt tt))

land-IsBalanced :
    (x : ℕ) (t : Avl) (place : Option (List AvlFather))
    → IsBalanced t
    → IsEmptyPlace place
    → IsBalanced (land (Avl.node Avl.null x 1 Avl.null) t place)
unfolding land IsEmptyPlace
land-IsBalanced x t none b p = b
land-IsBalanced x t (some path) b p =
    climb_from-IsBalanced path (Avl.node Avl.null x 1 Avl.null) 0
      (omega arith, (omega arith, omega arith), tt, tt) (omega arith, omega arith) p

insert_node-IsBalanced :
    (x : ℕ) (t : Avl) → IsBalanced t → IsBalanced (insert_node Avl.null x Avl.null t)
unfolding insert_node
insert_node-IsBalanced x t b =
    land-IsBalanced x t (descend x t []) b (descend-IsBalancedPath x t [] b tt)

-- Insert of a single node into the tree of a root: from a tree that is balanced and has its objects in
-- ascending order from left to right it gives such a tree again, with the object put in where it
-- belongs, or with the same objects if it was there.
pub insert_lem :
    (x h : ℕ) (t : Avl)
    → IsBalanced t
    → IsAscending (objs t)
    → (u : Avl) × (insert [] (Avl.node Avl.null x h Avl.null) t ≡ some u)
      × IsBalanced u
      × IsAscending (objs u)
      × (objs u ≡ put_new x (objs t))
unfolding insert
insert_lem x h t b asc = (
  insert_node Avl.null x Avl.null t,
  refl,
  insert_node-IsBalanced x t b,
  subst IsAscending (sym (insert_node-objs x t asc)) (put_new-IsAscending x (objs t) asc),
  insert_node-objs x t asc,
)
