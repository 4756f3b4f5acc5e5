-- ===== src/Thread/BlockQueue/Bound.antt =====
-- BlockQueue and its maximum.
use ytlib.Base.{
  ◌≤◌, ◌<◌, ◌≡◌, ◌⊎◌, refl, true, false, [], ◌∷◌, ◌++◌, length, length-append, ltb, ltb→lt,
  Bool-cases, inl, inr, arith,
}
use ytlib.Thread.BlockQueue.{BlockQueue, enqueue}

module _ {ℓ} {A : Type ℓ} where
  -- Enqueue takes an element in exactly while the queue has room, at its end, and never more than the
  -- maximum.
  pub enqueue_bound :
      (x : A) (b : BlockQueue A)
      → length b.queue ≤ b.maxcount
      → (length (enqueue x b).1.queue ≤ b.maxcount)
        × (((enqueue x b).0 ≡ true)
              × (length b.queue < b.maxcount)
              × ((enqueue x b).1.queue ≡ b.queue ++ x ∷ [])
            ⊎ ((enqueue x b).0 ≡ false) × (length b.queue ≡ b.maxcount) × ((enqueue x b).1 ≡ b))
  unfolding enqueue
  enqueue_bound x b fits = elim (Bool-cases (ltb (length b.queue) b.maxcount)) [
    | inl t ↦
        let lt : length b.queue < b.maxcount = ltb→lt (length b.queue) b.maxcount t in
        rw (t, enqueue) (omega (arith, length-append b.queue (x ∷ [])), inl (refl, lt, refl))
    | inr f ↦ rw (f, enqueue) (fits, inr (refl, ground arith, refl))
  ]
