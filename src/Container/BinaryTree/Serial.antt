-- ===== src/Container/BinaryTree/Serial.antt =====
-- SerializeTree and DeserializeTree.
use ytlib.Base.{
  ℕ, zero, suc, ◌≤◌, ◌≡◌, refl, ap, sym, ◌∙◌, Bool, List, [], ◌++◌, append-nil, append_assoc, some,
  arith, length, length-append,
}
use ytlib.Container.BinaryTree.{Tree, serialize_tree, deserialize_tree}

module _ {ℓ} {A : Type ℓ} where
  deserialize-serialize_behind :
      (blank : A) (t : Tree A) (rest : List (Bool × A)) (fuel : ℕ)
      → length (serialize_tree blank t) ≤ fuel
      → deserialize_tree fuel (serialize_tree blank t ++ rest) ≡ some (t, rest)
  unfolding serialize_tree deserialize_tree
  deserialize-serialize_behind blank Tree.null rest zero le = absurd (omega arith)
  deserialize-serialize_behind blank Tree.null rest (suc fuel) le = refl
  deserialize-serialize_behind blank (Tree.node pl obj pr) rest zero le = absurd (omega arith)
  deserialize-serialize_behind blank (Tree.node pl obj pr) rest (suc fuel) le =
      let l = serialize_tree blank pl in
      let r = serialize_tree blank pr in
      let size = length-append l r in
      rw (append_assoc l r rest, deserialize_tree)
        (rw (deserialize-serialize_behind blank pl (r ++ rest) fuel (omega arith))
          (rw (deserialize-serialize_behind blank pr rest fuel (omega arith)) refl))

  -- A tree that is serialized and read back is the same tree, with nothing left of the vector and no
  -- read past its end.
  pub deserialize-serialize :
      (blank : A) (t : Tree A)
      → (let vec = serialize_tree blank t in deserialize_tree (length vec) vec ≡ some (t, []))
  deserialize-serialize blank t =
      let vec = serialize_tree blank t in
      ap (λ s. deserialize_tree (length vec) s) (sym (append-nil vec))
      ∙ deserialize-serialize_behind blank t [] (length vec) (omega arith)
