-- ===== src/Container/BinaryTree/Level.antt =====
-- TraByLevel: the queue of nodes is passed row after row.
use ytlib.Base.{
  ℕ, zero, suc, ◌+◌, ◌-◌, ◌≤◌, ◌≡◌, refl, ap, sym, ◌∙◌, List, [], ◌∷◌, ◌++◌, append_assoc,
  append-nil, arith, All, All-append, length, max,
}
use ytlib.Container.BinaryTree.{
  Tree, push_child, level_loop, tra_by_level, get_node_num, get_height,
}

module _ {ℓ} {A : Type ℓ} where
  -- The objects at a depth, from left to right
  pub row : ℕ → Tree A → List A
  row k Tree.null = []
  row zero (Tree.node pl obj pr) = obj ∷ []
  row (suc k) (Tree.node pl obj pr) = row k pl ++ row k pr

  -- The rows from depth `k` on, `n` of them
  pub rows : ℕ → ℕ → Tree A → List A
  rows k zero t = []
  rows k (suc n) t = row k t ++ rows (suc k) n t

  -- The same of a list of trees
  abbrev row_of : ℕ → List (Tree A) → List A
  row_of k [] = []
  row_of k (t ∷ ts) = row k t ++ row_of k ts

  abbrev rows_of : ℕ → ℕ → List (Tree A) → List A
  rows_of k zero ts = []
  rows_of k (suc n) ts = row_of k ts ++ rows_of (suc k) n ts

  -- The queue behind `ts` once they are passed
  abbrev push_all : List (Tree A) → List (Tree A) → List (Tree A)
  push_all [] vec = vec
  push_all (Tree.null ∷ ts) vec = push_all ts vec
  push_all (Tree.node pl obj pr ∷ ts) vec = push_all ts (push_child pr (push_child pl vec))

  -- The rounds of the loop that a tree in the queue costs
  abbrev cost : Tree A → ℕ
  cost Tree.null = 1
  cost (Tree.node pl obj pr) = get_node_num (Tree.node pl obj pr)

  abbrev cost_of : List (Tree A) → ℕ
  cost_of [] = 0
  cost_of (t ∷ ts) = cost t + cost_of ts

  -- One round for every tree, and then `fuel`
  abbrev rounds : List (Tree A) → ℕ → ℕ
  rounds [] fuel = fuel
  rounds (t ∷ ts) fuel = suc (rounds ts fuel)

  rounds_lem : (ts : List (Tree A)) (fuel : ℕ) → rounds ts fuel ≡ fuel + length ts
  rounds_lem [] fuel = omega arith
  rounds_lem (t ∷ ts) fuel = omega (arith, rounds_lem ts fuel)

  push_child-append :
      (t : Tree A) (ts vec : List (Tree A)) → push_child t (ts ++ vec) ≡ ts ++ push_child t vec
  push_child-append Tree.null ts vec = refl
  push_child-append (Tree.node pl obj pr) ts vec = append_assoc ts vec (Tree.node pl obj pr ∷ [])

  level_loop-push_all :
      (ts vec : List (Tree A)) (fuel : ℕ)
      → level_loop (rounds ts fuel) (ts ++ vec) ≡ row_of 0 ts ++ level_loop fuel (push_all ts vec)
  unfolding level_loop row
  level_loop-push_all [] vec fuel = refl
  level_loop-push_all (Tree.null ∷ ts) vec fuel = level_loop-push_all ts vec fuel
  level_loop-push_all (Tree.node pl obj pr ∷ ts) vec fuel =
      ap (λ q. obj ∷ level_loop (rounds ts fuel) q)
        (ap (push_child pr) (push_child-append pl ts vec)
          ∙ push_child-append pr ts (push_child pl vec))
      ∙ ap (λ l. obj ∷ l) (level_loop-push_all ts (push_child pr (push_child pl vec)) fuel)

  row_of-append : (k : ℕ) (ts us : List (Tree A)) → row_of k (ts ++ us) ≡ row_of k ts ++ row_of k us
  row_of-append k [] us = refl
  row_of-append k (t ∷ ts) us =
      ap (λ l. row k t ++ l) (row_of-append k ts us)
      ∙ sym (append_assoc (row k t) (row_of k ts) (row_of k us))

  row_of-push_child :
      (k : ℕ) (t : Tree A) (vec : List (Tree A))
      → row_of k (push_child t vec) ≡ row_of k vec ++ row k t
  unfolding row
  row_of-push_child k Tree.null vec = sym (append-nil (row_of k vec))
  row_of-push_child k (Tree.node pl obj pr) vec =
      row_of-append k vec (Tree.node pl obj pr ∷ [])
      ∙ ap (λ l. row_of k vec ++ l) (append-nil (row k (Tree.node pl obj pr)))

  row_of-push_all :
      (k : ℕ) (ts vec : List (Tree A))
      → row_of k (push_all ts vec) ≡ row_of k vec ++ row_of (suc k) ts
  unfolding row
  row_of-push_all k [] vec = sym (append-nil (row_of k vec))
  row_of-push_all k (Tree.null ∷ ts) vec = row_of-push_all k ts vec
  row_of-push_all k (Tree.node pl obj pr ∷ ts) vec =
      row_of-push_all k ts (push_child pr (push_child pl vec))
      ∙ ap (λ l. l ++ row_of (suc k) ts)
          (row_of-push_child k pr (push_child pl vec)
            ∙ ap (λ l. l ++ row k pr) (row_of-push_child k pl vec)
            ∙ append_assoc (row_of k vec) (row k pl) (row k pr))
      ∙ append_assoc (row_of k vec) (row k pl ++ row k pr) (row_of (suc k) ts)

  rows_of-push_all :
      (k n : ℕ) (ts : List (Tree A)) → rows_of k n (push_all ts []) ≡ rows_of (suc k) n ts
  rows_of-push_all k zero ts = refl
  rows_of-push_all k (suc n) ts =
      ap (λ l. l ++ rows_of (suc k) n (push_all ts [])) (row_of-push_all k ts [])
      ∙ ap (λ l. row_of (suc k) ts ++ l) (rows_of-push_all (suc k) n ts)

  cost_of-append : (ts us : List (Tree A)) → cost_of (ts ++ us) ≡ cost_of ts + cost_of us
  cost_of-append [] us = omega arith
  cost_of-append (t ∷ ts) us = omega (arith, cost_of-append ts us)

  cost_of-push_child :
      (t : Tree A) (vec : List (Tree A)) → cost_of (push_child t vec) ≡ cost_of vec + get_node_num t
  unfolding get_node_num
  cost_of-push_child Tree.null vec = omega arith
  cost_of-push_child (Tree.node pl obj pr) vec =
      omega (arith, cost_of-append vec (Tree.node pl obj pr ∷ []))

  -- Passing a tree takes one round off the cost.
  cost_of-push_all :
      (ts vec : List (Tree A)) → cost_of (push_all ts vec) + length ts ≡ cost_of ts + cost_of vec
  unfolding get_node_num
  cost_of-push_all [] vec = omega arith
  cost_of-push_all (Tree.null ∷ ts) vec = omega (arith, cost_of-push_all ts vec)
  cost_of-push_all (Tree.node pl obj pr ∷ ts) vec = omega (
    arith,
    cost_of-push_all ts (push_child pr (push_child pl vec)),
    cost_of-push_child pr (push_child pl vec),
    cost_of-push_child pl vec,
  )

  push_child-All :
      (h : ℕ) (t : Tree A) (vec : List (Tree A))
      → get_height t ≤ h
      → All (λ u. get_height u ≤ h) vec
      → All (λ u. get_height u ≤ h) (push_child t vec)
  push_child-All h Tree.null vec le all = all
  push_child-All h (Tree.node pl obj pr) vec le all =
      All-append (λ u. get_height u ≤ h) vec (Tree.node pl obj pr ∷ []) all (le, tt)

  push_all-All :
      (h : ℕ) (ts vec : List (Tree A))
      → All (λ u. get_height u ≤ suc h) ts
      → All (λ u. get_height u ≤ h) vec
      → All (λ u. get_height u ≤ h) (push_all ts vec)
  unfolding get_height
  push_all-All h [] vec ht all = all
  push_all-All h (Tree.null ∷ ts) vec ht all = push_all-All h ts vec ht.1 all
  push_all-All h (Tree.node pl obj pr ∷ ts) vec ht all =
      let le : max (get_height pl) (get_height pr) + 1 ≤ suc h = ht.0 in
      push_all-All h ts (push_child pr (push_child pl vec)) ht.1 (
        push_child-All h pr (push_child pl vec) (omega arith)
          (push_child-All h pl vec (omega arith) all))

  level_loop-empty :
      (ts : List (Tree A)) (fuel : ℕ) → All (λ u. get_height u ≤ 0) ts → level_loop fuel ts ≡ []
  unfolding level_loop get_height
  level_loop-empty ts zero all = refl
  level_loop-empty [] (suc fuel) all = refl
  level_loop-empty (Tree.null ∷ ts) (suc fuel) all = level_loop-empty ts fuel all.1
  level_loop-empty (Tree.node pl obj pr ∷ ts) (suc fuel) all =
      let le : max (get_height pl) (get_height pr) + 1 ≤ 0 = all.0 in absurd (omega arith)

  length-cost : (ts : List (Tree A)) → length ts ≤ cost_of ts
  unfolding get_node_num
  length-cost [] = omega arith
  length-cost (Tree.null ∷ ts) = omega (arith, length-cost ts)
  length-cost (Tree.node pl obj pr ∷ ts) = omega (arith, length-cost ts)

  level_loop_lem :
      (h : ℕ) (ts : List (Tree A)) (fuel : ℕ)
      → All (λ u. get_height u ≤ h) ts
      → cost_of ts ≤ fuel
      → level_loop fuel ts ≡ rows_of 0 h ts
  level_loop_lem zero ts fuel all enough = level_loop-empty ts fuel all
  level_loop_lem (suc h) ts fuel all enough =
      let behind : List (Tree A) = push_all ts [] in
      let rest : ℕ = fuel - length ts in
      let split : fuel ≡ rounds ts rest = omega (arith, length-cost ts, rounds_lem ts rest) in
      ap (λ n. level_loop n ts) split
      ∙ ap (λ l. level_loop (rounds ts rest) l) (sym (append-nil ts))
      ∙ level_loop-push_all ts [] rest
      ∙ ap (λ l. row_of 0 ts ++ l)
          (level_loop_lem h behind rest (push_all-All h ts [] all tt)
              (omega (arith, cost_of-push_all ts [], length-cost ts))
            ∙ rows_of-push_all 0 h ts)

  rows_of-single : (k n : ℕ) (t : Tree A) → rows_of k n (t ∷ []) ≡ rows k n t
  unfolding rows
  rows_of-single k zero t = refl
  rows_of-single k (suc n) t =
      ap (λ l. l ++ rows_of (suc k) n (t ∷ [])) (append-nil (row k t))
      ∙ ap (λ l. row k t ++ l) (rows_of-single (suc k) n t)

  root_fits : (t : Tree A) → All (λ u. get_height u ≤ get_height t) (t ∷ [])
  root_fits t = (omega arith, tt)

  cost-root :
      (pl : Tree A) (obj : A) (pr : Tree A)
      → cost_of (Tree.node pl obj pr ∷ []) ≤ suc (get_node_num (Tree.node pl obj pr))
  cost-root pl obj pr = omega arith

  -- TraByLevel ends, and what it gives is the rows of the tree, one after the other, from the root's to
  -- that of the greatest depth, each from left to right.
  pub tra_by_level-rows : (t : Tree A) → tra_by_level t ≡ rows 0 (get_height t) t
  tra_by_level-rows Tree.null = unfold tra_by_level level_loop rows get_height in refl
  tra_by_level-rows (Tree.node pl obj pr) =
      let t : Tree A = Tree.node pl obj pr in
      let enough : cost_of (t ∷ []) ≤ suc (get_node_num t) = cost-root pl obj pr in
      unfold tra_by_level in
      level_loop_lem (get_height t) (t ∷ []) (suc (get_node_num t)) (root_fits t) enough
      ∙ rows_of-single 0 (get_height t) t
