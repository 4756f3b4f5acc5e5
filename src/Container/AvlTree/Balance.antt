-- ===== src/Container/AvlTree/Balance.antt =====
-- The heights of an AVL tree: what a round of the loop and the way up make of them.
use ytlib.Base.{
  ℕ, ◌+◌, ◌≤◌, ◌≡◌, ◌⊎◌, refl, sym, subst, true, List, [], ◌∷◌, leb, leb→le, leb-false, ==_iff, ◌<◌,
  Bool-cases, inl, inr, arith, max,
}
use ytlib.Container.AvlTree.{
  Avl, AvlFather, get_hgt, refresh_hgt, rotate_l, rotate_r, lower_left, lower_right, settle, plug,
  up, climb, climb_from,
}

-- Heights that are one apart at most
abbrev pub IsNear : ℕ → ℕ → Type 0
IsNear m n = (m ≤ n + 1) × (n ≤ m + 1)

-- Every node has the height of its subtree in `hgt`, and its two sides are one apart at most.
abbrev pub IsBalanced : Avl → Type 0
IsBalanced Avl.null = Unit
IsBalanced (Avl.node pl obj hgt pr) =
    (hgt ≡ max (get_hgt pl) (get_hgt pr) + 1)
    × IsNear (get_hgt pl) (get_hgt pr)
    × IsBalanced pl
    × IsBalanced pr

-- The fathers of a branch of height `k` in such a tree
abbrev pub IsBalancedPath : ℕ → List AvlFather → Type 0
IsBalancedPath k [] = Unit
IsBalancedPath k (AvlFather.of_left y h s ∷ path) =
    (h ≡ max k (get_hgt s) + 1) × IsNear k (get_hgt s) × IsBalanced s × IsBalancedPath h path
IsBalancedPath k (AvlFather.of_right s y h ∷ path) =
    (h ≡ max (get_hgt s) k + 1) × IsNear (get_hgt s) k × IsBalanced s × IsBalancedPath h path

pub up-IsBalanced :
    (path : List AvlFather) (t : Avl)
    → IsBalanced t
    → IsBalancedPath (get_hgt t) path
    → IsBalanced (up path t)
unfolding up plug
up-IsBalanced [] t b p = b
up-IsBalanced (AvlFather.of_left y h s ∷ path) t b (e, near, bs, p) =
    up-IsBalanced path (Avl.node t y h s) (e, near, b, bs) p
up-IsBalanced (AvlFather.of_right s y h ∷ path) t b (e, near, bs, p) =
    up-IsBalanced path (Avl.node s y h t) (e, near, bs, b) p

-- A turn brings the sides together, and the height is that of the higher side or one more.
lower_left-IsBalanced :
    (pl : Avl) (x h : ℕ) (pr : Avl)
    → IsBalanced pl
    → IsBalanced pr
    → get_hgt pl ≡ get_hgt pr + 2
    → IsBalanced (lower_left pl x h pr)
      × (get_hgt pl ≤ get_hgt (lower_left pl x h pr))
      × (get_hgt (lower_left pl x h pr) ≤ get_hgt pl + 1)
unfolding lower_left rotate_l rotate_r refresh_hgt
lower_left-IsBalanced Avl.null x h pr bl br e = absurd (omega arith)
lower_left-IsBalanced (Avl.node a y k Avl.null) x h pr (ek, near, ba, bb) br e =
    let t : leb 0 (get_hgt a) ≡ true = ground arith in
    rw (t, lower_left)
      (
        (refl, (omega arith, omega arith), ba, (refl, (omega arith, omega arith), bb, br)),
        omega arith,
        omega arith,
      )
lower_left-IsBalanced (Avl.node a y k (Avl.node c z j d)) x h pr (ek, near, ba, (ej, nearj, bc, bd))
      br e =
    elim (Bool-cases (leb j (get_hgt a))) [
      | inl t ↦
          let le : j ≤ get_hgt a = leb→le j (get_hgt a) t in
          rw (t, lower_left)
            (
              (
                refl,
                (omega arith, omega arith),
                ba,
                (refl, (omega arith, omega arith), (ej, nearj, bc, bd), br),
              ),
              omega arith,
              omega arith,
            )
      | inr f ↦
          let lt : get_hgt a < j = leb-false j (get_hgt a) f in
          rw (f, lower_left)
            (
              (
                refl,
                (omega arith, omega arith),
                (refl, (omega arith, omega arith), ba, bc),
                (refl, (omega arith, omega arith), bd, br),
              ),
              omega arith,
              omega arith,
            )
    ]

lower_right-IsBalanced :
    (pl : Avl) (x h : ℕ) (pr : Avl)
    → IsBalanced pl
    → IsBalanced pr
    → get_hgt pr ≡ get_hgt pl + 2
    → IsBalanced (lower_right pl x h pr)
      × (get_hgt pr ≤ get_hgt (lower_right pl x h pr))
      × (get_hgt (lower_right pl x h pr) ≤ get_hgt pr + 1)
unfolding lower_right rotate_l rotate_r refresh_hgt
lower_right-IsBalanced pl x h Avl.null bl br e = absurd (omega arith)
lower_right-IsBalanced pl x h (Avl.node Avl.null y k b) bl (ek, near, ba, bb) e =
    let t : leb 0 (get_hgt b) ≡ true = ground arith in
    rw (t, lower_right)
      (
        (refl, (omega arith, omega arith), (refl, (omega arith, omega arith), bl, ba), bb),
        omega arith,
        omega arith,
      )
lower_right-IsBalanced pl x h (Avl.node (Avl.node c z j d) y k b) bl
      (ek, near, (ej, nearj, bc, bd), bb) e =
    elim (Bool-cases (leb j (get_hgt b))) [
      | inl t ↦
          let le : j ≤ get_hgt b = leb→le j (get_hgt b) t in
          rw (t, lower_right)
            (
              (
                refl,
                (omega arith, omega arith),
                (refl, (omega arith, omega arith), bl, (ej, nearj, bc, bd)),
                bb,
              ),
              omega arith,
              omega arith,
            )
      | inr f ↦
          let lt : get_hgt b < j = leb-false j (get_hgt b) f in
          rw (f, lower_right)
            (
              (
                refl,
                (omega arith, omega arith),
                (refl, (omega arith, omega arith), bl, bc),
                (refl, (omega arith, omega arith), bd, bb),
              ),
              omega arith,
              omega arith,
            )
    ]

-- What the loop needs of the node at `pos`: its sides are balanced and two apart at most, and `hgt` is
-- what its height was, near what the height of its sides makes it.
abbrev pub IsOff : Avl → ℕ → Avl → Type 0
IsOff pl h pr =
    IsBalanced pl
    × IsBalanced pr
    × (get_hgt pl ≤ get_hgt pr + 2)
    × (get_hgt pr ≤ get_hgt pl + 2)
    × (max (get_hgt pl) (get_hgt pr) ≤ h)
    × (h ≤ max (get_hgt pl) (get_hgt pr) + 2)
    × (IsNear (get_hgt pl) (get_hgt pr) ⊎ (h ≤ max (get_hgt pl) (get_hgt pr) + 1))

pub settle-IsBalanced :
    (pl : Avl) (x h : ℕ) (pr : Avl)
    → IsOff pl h pr
    → IsBalanced ((settle pl x h pr).1)
      × IsNear (get_hgt ((settle pl x h pr).1)) h
      × ((settle pl x h pr).0 ≡ true → get_hgt ((settle pl x h pr).1) ≡ h)
unfolding settle refresh_hgt
settle-IsBalanced pl x h pr (bl, br, le, ge, below, above, or) =
    elim (Bool-cases (leb (get_hgt pr + 2) (get_hgt pl))) [
      | inl t ↦
          let two : get_hgt pl ≡ get_hgt pr + 2 = ground arith in
          let (bal, ge', le') = lower_left-IsBalanced pl x h pr bl br two in
          rw (t, settle)
            (
              bal,
              (omega arith, elim or [ inl near ↦ omega arith | inr low ↦ omega arith ]),
              λ e. absurd (ground arith),
            )
      | inr f ↦ elim (Bool-cases (leb (get_hgt pl + 2) (get_hgt pr))) [
        | inl t ↦
            let two : get_hgt pr ≡ get_hgt pl + 2 = ground arith in
            let (bal, ge', le') = lower_right-IsBalanced pl x h pr bl br two in
            rw (f, t, settle)
              (
                bal,
                (omega arith, elim or [ inl near ↦ omega arith | inr low ↦ omega arith ]),
                λ e. absurd (ground arith),
              )
        | inr g ↦
            rw (f, g, settle)
              (
                (refl, (ground arith, ground arith), bl, br),
                (omega arith, omega arith),
                λ e. sym ((==_iff h (max (get_hgt pl) (get_hgt pr) + 1)).0 e),
              )
      ]
    ]

IsNear-or_low :
    (m n h : ℕ) → (n + 2 ≤ m → h ≤ m + 1) → (m + 2 ≤ n → h ≤ n + 1) → IsNear m n ⊎ (h ≤ max m n + 1)
IsNear-or_low m n h left right = elim (Bool-cases (leb m (n + 1))) [
  | inl t ↦ elim (Bool-cases (leb n (m + 1))) [
    | inl u ↦ inl (leb→le m (n + 1) t, leb→le n (m + 1) u)
    | inr g ↦ let le : h ≤ n + 1 = right (omega (arith, leb-false n (m + 1) g)) in inr (omega arith)
  ]
  | inr f ↦ let le : h ≤ m + 1 = left (omega (arith, leb-false m (n + 1) f)) in inr (omega arith)
]

-- The branch of a father is near what it was, so the father is as the loop needs it.
father_left-IsOff :
    (t : Avl) (h k : ℕ) (s : Avl)
    → IsBalanced t
    → IsNear (get_hgt t) k
    → h ≡ max k (get_hgt s) + 1
    → IsNear k (get_hgt s)
    → IsBalanced s
    → IsOff t h s
father_left-IsOff t h k s bt near e near' bs = (
  bt,
  bs,
  omega arith,
  omega arith,
  omega arith,
  omega arith,
  IsNear-or_low (get_hgt t) (get_hgt s) h (λ far. omega arith) (λ far. omega arith),
)

father_right-IsOff :
    (t : Avl) (h k : ℕ) (s : Avl)
    → IsBalanced t
    → IsNear (get_hgt t) k
    → h ≡ max (get_hgt s) k + 1
    → IsNear (get_hgt s) k
    → IsBalanced s
    → IsOff s h t
father_right-IsOff t h k s bt near e near' bs = (
  bs,
  bt,
  omega arith,
  omega arith,
  omega arith,
  omega arith,
  IsNear-or_low (get_hgt s) (get_hgt t) h (λ far. omega arith) (λ far. omega arith),
)

-- The loop, from a node that is off at most by what one insertion or removal makes, balances the tree.
climb-IsBalanced :
    (path : List AvlFather) (pl : Avl) (x h : ℕ) (pr : Avl)
    → IsOff pl h pr
    → IsBalancedPath h path
    → IsBalanced (climb pl x h pr path)
unfolding climb up plug
climb-IsBalanced [] pl x h pr off p = (settle-IsBalanced pl x h pr off).0
climb-IsBalanced (AvlFather.of_left y k s ∷ path) pl x h pr off (e, near, bs, p) =
    let (bt, near_t, kept) = settle-IsBalanced pl x h pr off in
    elim (Bool-cases ((settle pl x h pr).0)) [
      | inl t ↦
          rw (t, climb)
            (up-IsBalanced (AvlFather.of_left y k s ∷ path) ((settle pl x h pr).1) bt (
              subst (λ n. IsBalancedPath n (AvlFather.of_left y k s ∷ path)) (sym (kept t))
                (e, near, bs, p)))
      | inr f ↦
          rw (f, climb)
            (climb-IsBalanced path ((settle pl x h pr).1) y k s
              (father_left-IsOff ((settle pl x h pr).1) k h s bt near_t e near bs) p)
    ]
climb-IsBalanced (AvlFather.of_right s y k ∷ path) pl x h pr off (e, near, bs, p) =
    let (bt, near_t, kept) = settle-IsBalanced pl x h pr off in
    elim (Bool-cases ((settle pl x h pr).0)) [
      | inl t ↦
          rw (t, climb)
            (up-IsBalanced (AvlFather.of_right s y k ∷ path) ((settle pl x h pr).1) bt (
              subst (λ n. IsBalancedPath n (AvlFather.of_right s y k ∷ path)) (sym (kept t))
                (e, near, bs, p)))
      | inr f ↦
          rw (f, climb)
            (climb-IsBalanced path s y k ((settle pl x h pr).1)
              (father_right-IsOff ((settle pl x h pr).1) k h s bt near_t e near bs) p)
    ]

-- A branch that was of height `k` is a balanced one, one higher or lower at most: the way up balances
-- the tree.
pub climb_from-IsBalanced :
    (path : List AvlFather) (t : Avl) (k : ℕ)
    → IsBalanced t
    → IsNear (get_hgt t) k
    → IsBalancedPath k path
    → IsBalanced (climb_from t path)
unfolding climb_from
climb_from-IsBalanced [] t k bt near p = bt
climb_from-IsBalanced (AvlFather.of_left y h s ∷ path) t k bt near (e, near', bs, p) =
    climb-IsBalanced path t y h s (father_left-IsOff t h k s bt near e near' bs) p
climb_from-IsBalanced (AvlFather.of_right s y h ∷ path) t k bt near (e, near', bs, p) =
    climb-IsBalanced path s y h t (father_right-IsOff t h k s bt near e near' bs) p
