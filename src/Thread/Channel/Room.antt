-- ===== src/Thread/Channel/Room.antt =====
-- The queue of a channel never holds more than its maximum.
use ytlib.Base.{ℕ, ◌≤◌, ◌≡◌, refl, ap, subst, list_cases, length, inl, inr, arith, ltb, Bool-cases}
use ytlib.Thread.BlockQueue.{BlockQueue, clear, stop, enqueue, dequeue, block_dequeue, block_resume}
use ytlib.Thread.BlockQueue.Bound.{enqueue_bound}
use ytlib.Thread.Channel.{Channel, Step, Reach, turn, open_channel, init, give}
use ytlib.Thread.Channel.Order.{start_process_cases}

module _ {ℓ} {A : Type ℓ} where
  -- The queue `b` has the same maximum as `a`, and no more elements.
  abbrev IsWithin : BlockQueue A → BlockQueue A → Type 0
  IsWithin b a = (b.maxcount ≡ a.maxcount) × (length b.queue ≤ length a.queue)

  turn-IsWithin : (b : BlockQueue A) → IsWithin ((turn b).1) b
  unfolding turn
  turn-IsWithin b = elim (list_cases b.queue) [
    | inl vacant ↦ rw (vacant, turn) (refl, omega (arith, ap length vacant))
    | inr (x, rest, e) ↦ rw (e, turn) (refl, omega (arith, ap length e))
  ]

  dequeue-IsWithin : (b : BlockQueue A) → IsWithin ((dequeue b).1) b
  unfolding dequeue
  dequeue-IsWithin b = elim (list_cases b.queue) [
    | inl vacant ↦ rw (vacant, dequeue) (refl, omega (arith, ap length vacant))
    | inr (x, rest, e) ↦ rw (e, dequeue) (refl, omega (arith, ap length e))
  ]

  block_dequeue-IsWithin : (b : BlockQueue A) → IsWithin ((block_dequeue b).1) b
  unfolding block_dequeue
  block_dequeue-IsWithin b = elim (list_cases b.queue) [
    | inl vacant ↦ rw (vacant, block_dequeue) (refl, omega (arith, ap length vacant))
    | inr (x, rest, e) ↦ rw (e, block_dequeue) (refl, omega (arith, ap length e))
  ]

  block_resume-IsWithin : (b : BlockQueue A) → IsWithin ((block_resume b).1) b
  unfolding block_resume
  block_resume-IsWithin b = elim (list_cases b.queue) [
    | inl vacant ↦ rw (vacant, block_resume) (refl, omega (arith, ap length vacant))
    | inr (x, rest, e) ↦ rw (e, block_resume) (refl, omega (arith, ap length e))
  ]

  maxcount-enqueue : (x : A) (b : BlockQueue A) → (enqueue x b).1.maxcount ≡ b.maxcount
  unfolding enqueue
  maxcount-enqueue x b = elim (Bool-cases (ltb (length b.queue) b.maxcount)) [
    | inl t ↦ rw (t, enqueue) refl
    | inr f ↦ rw (f, enqueue) refl
  ]

  Fits : ℕ → BlockQueue A → Type 0
  Fits n b = (b.maxcount ≡ n) × (length b.queue ≤ n)

  enqueue-Fits : (n : ℕ) (x : A) (b : BlockQueue A) → Fits n b → Fits n ((enqueue x b).1)
  unfolding Fits
  enqueue-Fits n x b (e, le) =
      let (small, rest) = enqueue_bound x b (omega arith) in
      let same = maxcount-enqueue x b in (omega arith, omega arith)

  within-Fits : (n : ℕ) (b a : BlockQueue A) → IsWithin b a → Fits n a → Fits n b
  unfolding Fits
  within-Fits n b a (same, less) (e, le) = (omega arith, omega arith)

  Step-Fits : (n : ℕ) {c d : Channel A} → Step c d → Fits n c.block → Fits n d.block
  unfolding stop clear init give
  Step-Fits n (Step.inited c f k) h = h
  Step-Fits n (Step.started c d e) h = subst (λ d. Fits n d.block) (start_process_cases c d e) h
  Step-Fits n (Step.threw c e) h = h
  Step-Fits n (Step.refused c x e) h = h
  Step-Fits n (Step.added c x e up asleep) h = enqueue-Fits n x c.block h
  Step-Fits n (Step.notified c x ws vs t e) h = enqueue-Fits n x c.block h
  Step-Fits n (Step.notified_caller c x k t e) h = enqueue-Fits n x c.block h
  Step-Fits n (Step.dequeued c) h = within-Fits n _ c.block (dequeue-IsWithin c.block) h
  Step-Fits n (Step.block_dequeued c) h = within-Fits n _ c.block (block_dequeue-IsWithin c.block) h
  Step-Fits n (Step.resumed c k e) h = within-Fits n _ c.block (block_resume-IsWithin c.block) h
  Step-Fits n (Step.stopped c) h = within-Fits n _ c.block (refl, omega arith) h
  Step-Fits n (Step.joined c ws vs e) h = h
  Step-Fits n (Step.cleared c) h = within-Fits n _ c.block (refl, omega arith) h
  Step-Fits n (Step.woken c ws vs e) h = h
  Step-Fits n (Step.woken_caller c k e) h = h
  Step-Fits n (Step.turned c ws vs e) h = within-Fits n _ c.block (turn-IsWithin c.block) h
  Step-Fits n (Step.returned c x ws vs e) h = h

  Reach-Fits : (n : ℕ) {c d : Channel A} → Reach c d → Fits n c.block → Fits n d.block
  Reach-Fits n Reach.here h = h
  Reach-Fits n (Reach.next r step) h = Step-Fits n step (Reach-Fits n r h)

  -- In every state that a channel reaches from its constructor, its queue holds no more elements than the
  -- constructor was told.
  pub length-run : (n : ℕ) (c : Channel A) → Reach (open_channel n) c → length c.block.queue ≤ n
  unfolding Fits
  length-run n c r = (Reach-Fits n r (unfold Fits open_channel in (refl, omega arith))).1
