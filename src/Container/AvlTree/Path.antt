-- ===== src/Container/AvlTree/Path.antt =====
-- The objects of an AVL tree from left to right, and what the turns and the way up keep of them.
use ytlib.Base.{
  ℕ, ◌+◌, ◌≡◌, refl, ap, sym, ◌∙◌, List, [], ◌∷◌, ◌++◌, append_assoc, append-nil, leb, Bool-cases,
  inl, inr,
}
use ytlib.Container.AvlTree.{
  Avl, AvlFather, get_hgt, refresh_hgt, rotate_l, rotate_r, lower_left, lower_right, settle, plug,
  up, climb, climb_from,
}

unfoldable pub objs : Avl → List ℕ
objs Avl.null = []
objs (Avl.node pl obj hgt pr) = objs pl ++ (obj ∷ objs pr)

-- What the fathers hold on the left of the node, and on the right of it
unfoldable pub before : List AvlFather → List ℕ
before [] = []
before (AvlFather.of_left y h s ∷ path) = before path
before (AvlFather.of_right s y h ∷ path) = before path ++ (objs s ++ (y ∷ []))

unfoldable pub behind : List AvlFather → List ℕ
behind [] = []
behind (AvlFather.of_left y h s ∷ path) = (y ∷ objs s) ++ behind path
behind (AvlFather.of_right s y h ∷ path) = behind path

-- Objects between those of the fathers
abbrev pub within : List ℕ → List AvlFather → List ℕ
within l path = before path ++ (l ++ behind path)

pub within-left :
    (l : List ℕ) (y h : ℕ) (s : Avl) (path : List AvlFather)
    → within l (AvlFather.of_left y h s ∷ path) ≡ within (l ++ (y ∷ objs s)) path
unfolding before behind
within-left l y h s path =
    ap (λ m. before path ++ m) (sym (append_assoc l (y ∷ objs s) (behind path)))

pub within-right :
    (l : List ℕ) (s : Avl) (y h : ℕ) (path : List AvlFather)
    → within l (AvlFather.of_right s y h ∷ path) ≡ within (objs s ++ (y ∷ l)) path
unfolding before behind
within-right l s y h path =
    append_assoc (before path) (objs s ++ (y ∷ [])) (l ++ behind path)
    ∙ ap (λ m. before path ++ m)
        (append_assoc (objs s) (y ∷ []) (l ++ behind path)
          ∙ sym (append_assoc (objs s) (y ∷ l) (behind path)))

pub objs-up : (path : List AvlFather) (t : Avl) → objs (up path t) ≡ within (objs t) path
unfolding up plug objs before behind
objs-up [] t = sym (append-nil (objs t))
objs-up (AvlFather.of_left y h s ∷ path) t =
    objs-up path (Avl.node t y h s) ∙ sym (within-left (objs t) y h s path)
objs-up (AvlFather.of_right s y h ∷ path) t =
    objs-up path (Avl.node s y h t) ∙ sym (within-right (objs t) s y h path)

objs-rotate_l :
    (pl : Avl) (x h : ℕ) (pr : Avl) → objs (rotate_l pl x h pr) ≡ objs pl ++ (x ∷ objs pr)
unfolding objs rotate_l refresh_hgt
objs-rotate_l Avl.null x h pr = refl
objs-rotate_l (Avl.node a y k b) x h pr = sym (append_assoc (objs a) (y ∷ objs b) (x ∷ objs pr))

objs-rotate_r :
    (pl : Avl) (x h : ℕ) (pr : Avl) → objs (rotate_r pl x h pr) ≡ objs pl ++ (x ∷ objs pr)
unfolding objs rotate_r refresh_hgt
objs-rotate_r pl x h Avl.null = refl
objs-rotate_r pl x h (Avl.node a y k b) = append_assoc (objs pl) (x ∷ objs a) (y ∷ objs b)

objs-lower_left :
    (pl : Avl) (x h : ℕ) (pr : Avl) → objs (lower_left pl x h pr) ≡ objs pl ++ (x ∷ objs pr)
unfolding objs lower_left
objs-lower_left Avl.null x h pr = refl
objs-lower_left (Avl.node a y k b) x h pr = elim (Bool-cases (leb (get_hgt b) (get_hgt a))) [
  | inl t ↦ rw (t, lower_left) (objs-rotate_l (Avl.node a y k b) x h pr)
  | inr f ↦
      rw (f, lower_left)
        (objs-rotate_l (rotate_r a y k b) x h pr
          ∙ ap (λ l. l ++ (x ∷ objs pr)) (objs-rotate_r a y k b))
]

objs-lower_right :
    (pl : Avl) (x h : ℕ) (pr : Avl) → objs (lower_right pl x h pr) ≡ objs pl ++ (x ∷ objs pr)
unfolding objs lower_right
objs-lower_right pl x h Avl.null = refl
objs-lower_right pl x h (Avl.node a y k b) = elim (Bool-cases (leb (get_hgt a) (get_hgt b))) [
  | inl t ↦ rw (t, lower_right) (objs-rotate_r pl x h (Avl.node a y k b))
  | inr f ↦
      rw (f, lower_right)
        (objs-rotate_r pl x h (rotate_l a y k b)
          ∙ ap (λ l. objs pl ++ (x ∷ l)) (objs-rotate_l a y k b))
]

pub objs-settle :
    (pl : Avl) (x h : ℕ) (pr : Avl) → objs ((settle pl x h pr).1) ≡ objs pl ++ (x ∷ objs pr)
unfolding objs settle refresh_hgt
objs-settle pl x h pr = elim (Bool-cases (leb (get_hgt pr + 2) (get_hgt pl))) [
  | inl t ↦ rw (t, settle) (objs-lower_left pl x h pr)
  | inr f ↦ elim (Bool-cases (leb (get_hgt pl + 2) (get_hgt pr))) [
    | inl t ↦ rw (f, t, settle) (objs-lower_right pl x h pr)
    | inr g ↦ rw (f, g, settle) refl
  ]
]

-- The way up the fathers leaves the objects in their order.
pub objs-climb :
    (path : List AvlFather) (pl : Avl) (x h : ℕ) (pr : Avl)
    → objs (climb pl x h pr path) ≡ within (objs pl ++ (x ∷ objs pr)) path
unfolding climb before behind objs
objs-climb [] pl x h pr = objs-settle pl x h pr ∙ sym (append-nil (objs pl ++ (x ∷ objs pr)))
objs-climb (AvlFather.of_left y k s ∷ path) pl x h pr =
    let e : within (objs ((settle pl x h pr).1) ++ (y ∷ objs s)) path
        ≡ within (objs pl ++ (x ∷ objs pr)) (AvlFather.of_left y k s ∷ path) =
      ap (λ l. within (l ++ (y ∷ objs s)) path) (objs-settle pl x h pr)
      ∙ sym (within-left (objs pl ++ (x ∷ objs pr)) y k s path) in
    elim (Bool-cases ((settle pl x h pr).0)) [
      | inl t ↦ rw (t, climb) (objs-up path (Avl.node ((settle pl x h pr).1) y k s) ∙ e)
      | inr f ↦ rw (f, climb) (objs-climb path ((settle pl x h pr).1) y k s ∙ e)
    ]
objs-climb (AvlFather.of_right s y k ∷ path) pl x h pr =
    let e : within (objs s ++ (y ∷ objs ((settle pl x h pr).1))) path
        ≡ within (objs pl ++ (x ∷ objs pr)) (AvlFather.of_right s y k ∷ path) =
      ap (λ l. within (objs s ++ (y ∷ l)) path) (objs-settle pl x h pr)
      ∙ sym (within-right (objs pl ++ (x ∷ objs pr)) s y k path) in
    elim (Bool-cases ((settle pl x h pr).0)) [
      | inl t ↦ rw (t, climb) (objs-up path (Avl.node s y k ((settle pl x h pr).1)) ∙ e)
      | inr f ↦ rw (f, climb) (objs-climb path s y k ((settle pl x h pr).1) ∙ e)
    ]

pub objs-climb_from :
    (path : List AvlFather) (t : Avl) → objs (climb_from t path) ≡ within (objs t) path
unfolding climb_from before behind
objs-climb_from [] t = sym (append-nil (objs t))
objs-climb_from (AvlFather.of_left y h s ∷ path) t =
    objs-climb path t y h s ∙ sym (within-left (objs t) y h s path)
objs-climb_from (AvlFather.of_right s y h ∷ path) t =
    objs-climb path s y h t ∙ sym (within-right (objs t) s y h path)
