-- ===== src/Thread/Channel/Wake.antt =====
-- No wakeup is lost: an element in the queue has a thread that is awake for it.
use ytlib.Base.{
  ℕ, zero, suc, ◌+◌, ◌≤◌, ◌≡◌, ◌≢◌, ◌⊎◌, refl, ap, subst, List, [], ◌∷◌, ◌++◌, map, All, inl, inr,
  list_cases, length, length-append, replicate, arith,
}
use ytlib.Thread.BlockQueue.{BlockQueue, clear, stop, dequeue, block_dequeue, block_resume}
use ytlib.Thread.Channel.{
  Worker, Channel, Step, Reach, turn, awake, open_channel, init, waits_of, give,
}
use ytlib.Thread.Channel.Order.{enqueue_queue, start_process_cases}

module _ {ℓ} {A : Type ℓ} where
  -- Some worker is about to look at the queue, or will be once its handler returns.
  unfoldable pub HasActive : List (Worker A) → Type 0
  HasActive [] = ⊥
  HasActive (Worker.ready ∷ ws) = Unit
  HasActive (Worker.handling x ∷ ws) = Unit
  HasActive (Worker.waiting ∷ ws) = HasActive ws
  HasActive (Worker.done ∷ ws) = HasActive ws

  -- No worker waits.
  abbrev pub AllUp : List (Worker A) → Type ℓ
  AllUp ws = All (λ w. w ≢ Worker.waiting) ws

  -- No thread waits, or a worker will look at the queue, or there is a caller awake for each element.
  IsAttended : Channel A → Type ℓ
  IsAttended c =
      (AllUp c.threads × (c.sleeping ≡ 0))
      ⊎ (HasActive c.threads ⊎ (length c.block.queue ≤ c.risen))

  HasActive-append_left : (ws vs : List (Worker A)) → HasActive ws → HasActive (ws ++ vs)
  unfolding HasActive
  HasActive-append_left [] vs h = absurd h
  HasActive-append_left (Worker.ready ∷ ws) vs h = tt
  HasActive-append_left (Worker.handling x ∷ ws) vs h = tt
  HasActive-append_left (Worker.waiting ∷ ws) vs h = HasActive-append_left ws vs h
  HasActive-append_left (Worker.done ∷ ws) vs h = HasActive-append_left ws vs h

  HasActive-append : (ws vs : List (Worker A)) → HasActive vs → HasActive (ws ++ vs)
  unfolding HasActive
  HasActive-append [] vs h = h
  HasActive-append (Worker.ready ∷ ws) vs h = tt
  HasActive-append (Worker.handling x ∷ ws) vs h = tt
  HasActive-append (Worker.waiting ∷ ws) vs h = HasActive-append ws vs h
  HasActive-append (Worker.done ∷ ws) vs h = HasActive-append ws vs h

  HasActive-ready : (ws vs : List (Worker A)) → HasActive (ws ++ (Worker.ready ∷ vs))
  unfolding HasActive
  HasActive-ready ws vs = HasActive-append ws (Worker.ready ∷ vs) tt

  HasActive-handling :
      (ws vs : List (Worker A)) (x : A) → HasActive (ws ++ (Worker.handling x ∷ vs))
  unfolding HasActive
  HasActive-handling ws vs x = HasActive-append ws (Worker.handling x ∷ vs) tt

  HasActive-joined :
      (ws vs : List (Worker A)) → HasActive (ws ++ (Worker.done ∷ vs)) → HasActive (ws ++ vs)
  unfolding HasActive
  HasActive-joined [] vs h = h
  HasActive-joined (Worker.ready ∷ ws) vs h = tt
  HasActive-joined (Worker.handling x ∷ ws) vs h = tt
  HasActive-joined (Worker.waiting ∷ ws) vs h = HasActive-joined ws vs h
  HasActive-joined (Worker.done ∷ ws) vs h = HasActive-joined ws vs h

  AllUp-joined :
      (ws vs : List (Worker A)) (w : Worker A) → AllUp (ws ++ (w ∷ vs)) → AllUp (ws ++ vs)
  AllUp-joined [] vs w h = h.1
  AllUp-joined (v ∷ ws) vs w h = (h.0, AllUp-joined ws vs w h.1)

  AllUp-at : (ws vs : List (Worker A)) (w : Worker A) → AllUp (ws ++ (w ∷ vs)) → w ≢ Worker.waiting
  AllUp-at [] vs w h = h.0
  AllUp-at (v ∷ ws) vs w h = AllUp-at ws vs w h.1

  -- Whether a worker waits, as a type to tell it from the others by
  IsUp : Worker A → Type 0
  IsUp Worker.ready = Unit
  IsUp Worker.waiting = ⊥
  IsUp (Worker.handling x) = Unit
  IsUp Worker.done = Unit

  up_ne : (w : Worker A) → IsUp w → w ≢ Worker.waiting
  unfolding IsUp
  up_ne w h e = subst IsUp e h

  AllUp-awake : (ws : List (Worker A)) → AllUp (map awake ws)
  unfolding awake IsUp
  AllUp-awake [] = tt
  AllUp-awake (Worker.ready ∷ ws) = (up_ne Worker.ready tt, AllUp-awake ws)
  AllUp-awake (Worker.waiting ∷ ws) = (up_ne Worker.ready tt, AllUp-awake ws)
  AllUp-awake (Worker.handling x ∷ ws) = (up_ne (Worker.handling x) tt, AllUp-awake ws)
  AllUp-awake (Worker.done ∷ ws) = (up_ne Worker.done tt, AllUp-awake ws)

  AllUp-started : (ws : List (Worker A)) (n : ℕ) → AllUp ws → AllUp (ws ++ replicate n Worker.ready)
  unfolding IsUp
  AllUp-started [] zero h = tt
  AllUp-started [] (suc n) h = (up_ne Worker.ready tt, AllUp-started [] n tt)
  AllUp-started (w ∷ ws) n h = (h.0, AllUp-started ws n h.1)

  turn_active :
      (b : BlockQueue A) (ws vs : List (Worker A))
      → ((turn b).1.queue ≡ []) ⊎ HasActive (ws ++ ((turn b).0 ∷ vs))
  unfolding turn
  turn_active b ws vs = elim (list_cases b.queue) [
    | inl vacant ↦ inl (rw (vacant, turn) vacant)
    | inr (x, rest, e) ↦ inr (rw (e, turn) (HasActive-handling ws vs x))
  ]

  length-dequeue : (b : BlockQueue A) → length (dequeue b).1.queue ≤ length b.queue
  unfolding dequeue
  length-dequeue b = elim (list_cases b.queue) [
    | inl vacant ↦ rw (vacant, dequeue) (omega (arith, ap length vacant))
    | inr (x, rest, e) ↦ rw (e, dequeue) (omega arith)
  ]

  -- A caller waits only if the queue is empty.
  block_dequeue_waits :
      (b : BlockQueue A)
      → ((block_dequeue b).1.queue ≡ [])
        ⊎ ((waits_of (block_dequeue b).0 ≡ 0) × (length (block_dequeue b).1.queue ≤ length b.queue))
  unfolding block_dequeue waits_of
  block_dequeue_waits b = elim (list_cases b.queue) [
    | inl vacant ↦ inl (rw (vacant, block_dequeue) vacant)
    | inr (x, rest, e) ↦ inr (rw (e, block_dequeue) (refl, omega arith))
  ]

  length-block_resume :
      (b : BlockQueue A)
      → ((block_resume b).1.queue ≡ []) ⊎ (length (block_resume b).1.queue + 1 ≡ length b.queue)
  unfolding block_resume
  length-block_resume b = elim (list_cases b.queue) [
    | inl vacant ↦ inl (rw (vacant, block_resume) vacant)
    | inr (x, rest, e) ↦ inr (rw (e, block_resume) (omega arith))
  ]

  none_left : (q : List A) (n : ℕ) → q ≡ [] → length q ≤ n
  none_left q n e = let z : length q ≡ 0 = ap length e in omega arith

  Step-IsAttended : {c d : Channel A} → Step c d → IsAttended c → IsAttended d
  unfolding IsAttended stop clear init give
  Step-IsAttended (Step.inited c f n) att = att
  Step-IsAttended (Step.started c d h) att =
      subst IsAttended (start_process_cases c d h) (elim att [
        | inl (up, asleep) ↦ inl (AllUp-started c.threads c.th_size up, asleep)
        | inr (inl active) ↦ inr (inl (HasActive-append_left c.threads _ active))
        | inr (inr few) ↦ inr (inr few)
      ])
  Step-IsAttended (Step.threw c h) att = att
  Step-IsAttended (Step.refused c x h) att = att
  Step-IsAttended (Step.added c x h up asleep) att = inl (up, asleep)
  Step-IsAttended (Step.notified c x ws vs h e) att = inr (inl (HasActive-ready ws vs))
  Step-IsAttended (Step.notified_caller c x n h e) (inl (up, asleep)) = absurd (omega arith)
  Step-IsAttended (Step.notified_caller c x n h e) (inr (inl active)) = inr (inl active)
  Step-IsAttended (Step.notified_caller c x n h e) (inr (inr few)) = inr (
      inr (
        omega (arith, ap length (enqueue_queue x c.block h), length-append c.block.queue (x ∷ []))))
  Step-IsAttended (Step.dequeued c) (inl up) = inl up
  Step-IsAttended (Step.dequeued c) (inr (inl active)) = inr (inl active)
  Step-IsAttended (Step.dequeued c) (inr (inr few)) =
      inr (inr (omega (arith, length-dequeue c.block)))
  Step-IsAttended (Step.block_dequeued c) att = elim (block_dequeue_waits c.block) [
    | inl vacant ↦ inr (inr (none_left _ _ vacant))
    | inr (stays, less) ↦ elim att [
      | inl (up, asleep) ↦ inl (up, omega arith)
      | inr (inl active) ↦ inr (inl active)
      | inr (inr few) ↦ inr (inr (omega arith))
    ]
  ]
  Step-IsAttended (Step.resumed c n e) att = elim (length-block_resume c.block) [
    | inl vacant ↦ inr (inr (none_left _ _ vacant))
    | inr less ↦ elim att [
      | inl up ↦ inl up
      | inr (inl active) ↦ inr (inl active)
      | inr (inr few) ↦ inr (inr (omega arith))
    ]
  ]
  Step-IsAttended (Step.stopped c) att = inl (AllUp-awake c.threads, refl)
  Step-IsAttended (Step.joined c ws vs e) (inl (up, asleep)) =
      inl (AllUp-joined ws vs Worker.done (subst AllUp e up), asleep)
  Step-IsAttended (Step.joined c ws vs e) (inr (inl active)) =
      inr (inl (HasActive-joined ws vs (subst HasActive e active)))
  Step-IsAttended (Step.joined c ws vs e) (inr (inr few)) = inr (inr few)
  Step-IsAttended (Step.cleared c) att = inr (inr (omega arith))
  Step-IsAttended (Step.woken c ws vs e) att = inr (inl (HasActive-ready ws vs))
  Step-IsAttended (Step.woken_caller c n e) (inl (up, asleep)) = absurd (omega arith)
  Step-IsAttended (Step.woken_caller c n e) (inr (inl active)) = inr (inl active)
  Step-IsAttended (Step.woken_caller c n e) (inr (inr few)) = inr (inr (omega arith))
  Step-IsAttended (Step.turned c ws vs e) att = elim (turn_active c.block ws vs) [
    | inl vacant ↦ inr (inr (none_left _ _ vacant))
    | inr active ↦ inr (inl active)
  ]
  Step-IsAttended (Step.returned c x ws vs e) att = inr (inl (HasActive-ready ws vs))

  Reach-IsAttended : {c d : Channel A} → Reach c d → IsAttended c → IsAttended d
  Reach-IsAttended Reach.here att = att
  Reach-IsAttended (Reach.next r step) att = Step-IsAttended step (Reach-IsAttended r att)

  -- No wakeup is lost: in every state that a channel reaches from its constructor, no thread waits for
  -- the condition variable, or some worker is about to look at the queue or will be when its handler
  -- returns, or at least as many callers of BlockDequeue are awake as there are elements in the queue.
  pub run-attended :
      (n : ℕ) (c : Channel A)
      → Reach (open_channel n) c
      → (AllUp c.threads × (c.sleeping ≡ 0))
        ⊎ (HasActive c.threads ⊎ (length c.block.queue ≤ c.risen))
  unfolding IsAttended
  run-attended n c r = Reach-IsAttended r (unfold IsAttended open_channel in inl (tt, refl))
