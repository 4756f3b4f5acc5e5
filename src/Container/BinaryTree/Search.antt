-- ===== src/Container/BinaryTree/Search.antt =====
-- The search tree: LDR gives its objects in order, BinSearch finds what is in it, Insert keeps it.
use ytlib.Base.{
  ℕ, ◌≤◌, ◌<◌, ◌≡◌, ◌≢◌, ◌⊎◌, refl, ap, sym, subst, ◌∙◌, true, false, List, [], ◌∷◌, ◌++◌,
  append_assoc, append-nil, arith, ltb, ltb→lt, ◌==◌, if◌then◌else◌, All, All-append, Bool-cases,
  inl, inr,
}
use ytlib.Container.BinaryTree.{Tree, ldr, bin_search, insert}

-- The objects from left to right
unfoldable pub keys {ℓ} : {A : Type ℓ} → Tree A → List A
keys Tree.null = []
keys (Tree.node pl obj pr) = keys pl ++ (obj ∷ keys pr)

-- LDR puts the objects from left to right behind what the vector holds.
pub ldr-keys {ℓ} : {A : Type ℓ} (t : Tree A) (vec : List A) → ldr t vec ≡ vec ++ keys t
unfolding ldr keys
ldr-keys Tree.null vec = sym (append-nil vec)
ldr-keys (Tree.node pl obj pr) vec =
    ldr-keys pr (ldr pl vec ++ obj ∷ [])
    ∙ ap (λ v. (v ++ obj ∷ []) ++ keys pr) (ldr-keys pl vec)
    ∙ append_assoc (vec ++ keys pl) (obj ∷ []) (keys pr)
    ∙ append_assoc vec (keys pl) (obj ∷ keys pr)

-- left < object <= right, all the way down
abbrev pub IsOrdered : Tree ℕ → Type 0
IsOrdered Tree.null = Unit
IsOrdered (Tree.node pl obj pr) =
    All (λ k. k < obj) (keys pl) × All (λ k. obj ≤ k) (keys pr) × IsOrdered pl × IsOrdered pr

All-weaken_keys : {P Q : ℕ → Type 0} (ks : List ℕ) → ((k : ℕ) → P k → Q k) → All P ks → All Q ks
All-weaken_keys [] f h = tt
All-weaken_keys (k ∷ ks) f h = (f k h.0, All-weaken_keys ks f h.1)

-- BinSearch in a search tree gives a node with the value, or null if no node has it.
pub bin_search_lem :
    (t : Tree ℕ) (val : ℕ)
    → IsOrdered t
    → ((a : Tree ℕ) × (b : Tree ℕ) × (bin_search t val ≡ Tree.node a val b))
      ⊎ ((bin_search t val ≡ Tree.null) × All (λ k. k ≢ val) (keys t))
unfolding bin_search keys
bin_search_lem Tree.null val o = inr (refl, tt)
bin_search_lem (Tree.node pl obj pr) val (below, above, ol, or) = elim (Bool-cases (obj == val)) [
  | inl hit ↦
      let e : obj ≡ val = ground arith in
      inl (pl, pr, rw (hit, bin_search) (ap (λ k. Tree.node pl k pr) e))
  | inr miss ↦
      let apart : obj ≢ val = ground arith in
      elim (Bool-cases (ltb val obj)) [
        | inl less ↦
            let right : All (λ k. k ≢ val) (keys pr) =
              All-weaken_keys (keys pr) (λ k h e. absurd (omega (arith, ltb→lt val obj less)))
                above in
            elim (bin_search_lem pl val ol) [
              | inl (a, b, e) ↦ inl (a, b, rw (miss, less, bin_search) e)
              | inr (e, none_left) ↦ inr (
                rw (miss, less, bin_search) e,
                All-append _ (keys pl) (obj ∷ keys pr) none_left (apart, right),
              )
            ]
        | inr more ↦
            let ge : obj ≤ val = ground arith in
            let left : All (λ k. k ≢ val) (keys pl) =
              All-weaken_keys (keys pl) (λ k h e. absurd (omega arith)) below in
            elim (bin_search_lem pr val or) [
              | inl (a, b, e) ↦ inl (a, b, rw (miss, more, bin_search) e)
              | inr (e, none_left) ↦ inr (
                rw (miss, more, bin_search) e,
                All-append _ (keys pl) (obj ∷ keys pr) left (apart, none_left),
              )
            ]
      ]
]

-- Insertion into a sorted list, behind what is equal
pub put : ℕ → List ℕ → List ℕ
put x [] = x ∷ []
put x (k ∷ ks) = let later = put x ks in if ltb x k then x ∷ k ∷ ks else k ∷ later

put-behind : (x : ℕ) (ks ls : List ℕ) → All (λ k. k ≤ x) ks → put x (ks ++ ls) ≡ ks ++ put x ls
unfolding put
put-behind x [] ls h = refl
put-behind x (k ∷ ks) ls h =
    let no_less : ltb x k ≡ false = ground (arith, h.0) in
    rw (no_less, put) (ap (λ t. k ∷ t) (put-behind x ks ls h.1))

put-before :
    (x : ℕ) (ks ls : List ℕ) (k : ℕ) → x < k → put x (ks ++ (k ∷ ls)) ≡ put x ks ++ (k ∷ ls)
unfolding put
put-before x [] ls k h = let less : ltb x k ≡ true = ground arith in rw (less, put) refl
put-before x (l ∷ ks) ls k h = elim (Bool-cases (ltb x l)) [
  | inl less ↦ rw (less, put) refl
  | inr more ↦ rw (more, put) (ap (λ t. l ∷ t) (put-before x ks ls k h))
]

-- Insert of a single node puts its object in order, behind what is equal to it.
pub keys-insert :
    (t : Tree ℕ) (x : ℕ) → IsOrdered t → keys (insert Tree.null x Tree.null t) ≡ put x (keys t)
unfolding insert keys put
keys-insert Tree.null x o = refl
keys-insert (Tree.node pl obj pr) x (below, above, ol, or) = elim (Bool-cases (ltb x obj)) [
  | inl less ↦
      rw (less, insert)
        (ap (λ ks. ks ++ (obj ∷ keys pr)) (keys-insert pl x ol)
          ∙ sym (put-before x (keys pl) (keys pr) obj (ltb→lt x obj less)))
  | inr more ↦
      let ge : obj ≤ x = ground arith in
      let first : put x (obj ∷ keys pr) ≡ obj ∷ put x (keys pr) = unfold put in rw more refl in
      rw (more, insert)
        (ap (λ ks. keys pl ++ (obj ∷ ks)) (keys-insert pr x or)
          ∙ ap (λ ks. keys pl ++ ks) (sym first)
          ∙ sym (
              put-behind x (keys pl) (obj ∷ keys pr)
                (All-weaken_keys (keys pl) (λ k h. omega arith) below)))
]

All-put : (P : ℕ → Type 0) (x : ℕ) (ks : List ℕ) → P x → All P ks → All P (put x ks)
unfolding put
All-put P x [] p h = (p, tt)
All-put P x (k ∷ ks) p h = elim (Bool-cases (ltb x k)) [
  | inl less ↦ rw (less, put) (p, h)
  | inr more ↦ rw (more, put) (h.0, All-put P x ks p h.1)
]

-- Insert of a single node keeps a search tree one.
pub insert-IsOrdered :
    (t : Tree ℕ) (x : ℕ) → IsOrdered t → IsOrdered (insert Tree.null x Tree.null t)
unfolding insert keys
insert-IsOrdered Tree.null x o = (tt, tt, tt, tt)
insert-IsOrdered (Tree.node pl obj pr) x (below, above, ol, or) = elim (Bool-cases (ltb x obj)) [
  | inl less ↦
      rw (less, insert)
        (
          subst (λ ks. All (λ k. k < obj) ks) (sym (keys-insert pl x ol))
              (All-put (λ k. k < obj) x (keys pl) (ltb→lt x obj less) below),
          above,
          insert-IsOrdered pl x ol,
          or,
        )
  | inr more ↦
      rw (more, insert)
        (
          below,
          subst (λ ks. All (λ k. obj ≤ k) ks) (sym (keys-insert pr x or))
              (All-put (λ k. obj ≤ k) x (keys pr) (ground arith) above),
          ol,
          insert-IsOrdered pr x or,
        )
]
