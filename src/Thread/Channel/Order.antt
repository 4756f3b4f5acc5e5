-- ===== src/Thread/Channel/Order.antt =====
-- Elements are taken out in the order in which they were taken in, and each goes to one worker or caller.
use mathlib.Core.List.{Perm, perm_middle, perm_append_comm, perm-append_left_iff}
use mathlib.Core.List.Perm
use mathlib.Core.Option.{some-injective}
use ytlib.Base.{
  ℕ, zero, suc, ◌≡◌, refl, ap, sym, subst, ◌∙◌, true, false, List, [], ◌∷◌, ◌++◌, append_assoc,
  append-nil, map, ltb, length, none, some, Bool-cases, list_cases, inl, inr, arith, replicate,
}
use ytlib.Thread.BlockQueue.{BlockQueue, clear, stop, enqueue, dequeue, block_dequeue, block_resume}
use ytlib.Thread.Channel.{
  Worker, Channel, Step, Reach, turn, awake, held, open_channel, init, start_process, item_of,
  got_of, give,
}

module _ {ℓ} {A : Type ℓ} where
  -- The elements taken in are those taken out, in the same order, and those in the queue behind them.
  -- The elements taken out are those that callers got, those that were handled and those in hand.
  pub IsFair : Channel A → Type ℓ
  IsFair c =
      (c.accepted ≡ c.taken ++ c.block.queue)
      × Perm c.taken ((c.given ++ c.handled) ++ held c.threads)

  held-append : (ws vs : List (Worker A)) → held (ws ++ vs) ≡ held ws ++ held vs
  unfolding held
  held-append [] vs = refl
  held-append (Worker.handling x ∷ ws) vs = ap (λ l. x ∷ l) (held-append ws vs)
  held-append (Worker.ready ∷ ws) vs = held-append ws vs
  held-append (Worker.waiting ∷ ws) vs = held-append ws vs
  held-append (Worker.done ∷ ws) vs = held-append ws vs

  held-ready : (ws vs : List (Worker A)) → held (ws ++ (Worker.ready ∷ vs)) ≡ held ws ++ held vs
  unfolding held
  held-ready ws vs = held-append ws (Worker.ready ∷ vs)

  held-busy :
      (ws vs : List (Worker A)) (x : A)
      → held (ws ++ (Worker.handling x ∷ vs)) ≡ held ws ++ (x ∷ held vs)
  unfolding held
  held-busy ws vs x = held-append ws (Worker.handling x ∷ vs)

  held-awake : (ws : List (Worker A)) → held (map awake ws) ≡ held ws
  unfolding held awake
  held-awake [] = refl
  held-awake (Worker.handling x ∷ ws) = ap (λ l. x ∷ l) (held-awake ws)
  held-awake (Worker.ready ∷ ws) = held-awake ws
  held-awake (Worker.waiting ∷ ws) = held-awake ws
  held-awake (Worker.done ∷ ws) = held-awake ws

  held-swap :
      (ws vs : List (Worker A)) (w : Worker A)
      → held (w ∷ []) ≡ []
      → held (ws ++ (w ∷ vs)) ≡ held (ws ++ (Worker.ready ∷ vs))
  unfolding held
  held-swap ws vs w e =
      held-append ws (w ∷ vs)
      ∙ ap (λ l. held ws ++ l) (held-append (w ∷ []) vs ∙ ap (λ l. l ++ held vs) e)
      ∙ sym (held-append ws (Worker.ready ∷ vs))

  -- A turn takes the front of the queue in hand, if there is one.
  turn_lem : (b : BlockQueue A) → b.queue ≡ held ((turn b).0 ∷ []) ++ (turn b).1.queue
  unfolding turn held
  turn_lem b = elim (list_cases b.queue) [
    | inl vacant ↦ elim (Bool-cases b.running_flag) [
      | inl t ↦ rw (vacant, t, turn) (sym vacant)
      | inr f ↦ rw (vacant, f, turn) (sym vacant)
    ]
    | inr (x, rest, e) ↦ rw (e, turn) refl
  ]

  enqueue_full :
      (x : A) (b : BlockQueue A) → ltb (length b.queue) b.maxcount ≡ false → (enqueue x b).0 ≡ false
  unfolding enqueue
  enqueue_full x b f = rw (f, enqueue) refl

  pub enqueue_queue :
      (x : A) (b : BlockQueue A)
      → (enqueue x b).0 ≡ true
      → (enqueue x b).1.queue ≡ b.queue ++ x ∷ []
  unfolding enqueue
  enqueue_queue x b h = elim (Bool-cases (ltb (length b.queue) b.maxcount)) [
    | inl t ↦ rw (t, enqueue) refl
    | inr f ↦ let no : (enqueue x b).0 ≡ false = enqueue_full x b f in absurd (ground arith)
  ]

  accepted_order :
      (c : Channel A) (x : A)
      → c.accepted ≡ c.taken ++ c.block.queue
      → (enqueue x c.block).0 ≡ true
      → c.accepted ++ x ∷ [] ≡ c.taken ++ (enqueue x c.block).1.queue
  accepted_order c x order h =
      ap (λ l. l ++ x ∷ []) order
      ∙ append_assoc c.taken c.block.queue (x ∷ [])
      ∙ ap (λ l. c.taken ++ l) (sym (enqueue_queue x c.block h))

  -- A worker that has nothing in hand changes its state.
  held-change :
      (c : Channel A) (ws vs : List (Worker A)) (w : Worker A)
      → held (w ∷ []) ≡ []
      → c.threads ≡ ws ++ (w ∷ vs)
      → Perm c.taken ((c.given ++ c.handled) ++ held c.threads)
      → Perm c.taken ((c.given ++ c.handled) ++ held (ws ++ (Worker.ready ∷ vs)))
  held-change c ws vs w bare e all =
      subst (λ l. Perm c.taken ((c.given ++ c.handled) ++ l)) (ap held e ∙ held-swap ws vs w bare)
        all

  add_to_hand : (t h a m b : List A) → Perm t (h ++ (a ++ b)) → Perm (t ++ m) (h ++ (a ++ (m ++ b)))
  add_to_hand t h a m b p = Perm.trans (Perm.append_right m p) (
      subst (λ l. Perm l (h ++ (a ++ (m ++ b))))
        (sym (append_assoc h (a ++ b) m ∙ ap (λ l. h ++ l) (append_assoc a b m)))
        ((perm-append_left_iff h).1 ((perm-append_left_iff a).1 (perm_append_comm b m))))

  out_of_hand :
      (t h a b : List A) (x : A) → Perm t (h ++ (a ++ (x ∷ b))) → Perm t ((h ++ x ∷ []) ++ (a ++ b))
  out_of_hand t h a b x p = Perm.trans p (
      subst (λ l. Perm (h ++ (a ++ (x ∷ b))) l) (sym (append_assoc h (x ∷ []) (a ++ b)))
        ((perm-append_left_iff h).1 (perm_middle a b)))

  add_to_given :
      (t g h a m : List A) → Perm t ((g ++ h) ++ a) → Perm (t ++ m) (((g ++ m) ++ h) ++ a)
  add_to_given t g h a m p =
      subst (Perm (t ++ m)) (sym (append_assoc g m (h ++ a)) ∙ sym (append_assoc (g ++ m) h a))
        (add_to_hand t [] g m (h ++ a) (subst (Perm t) (append_assoc g h a) p))

  -- A caller takes the front of the queue, if there is one.
  give-IsFair :
      (items : List A) (b : BlockQueue A) (c : Channel A)
      → c.block.queue ≡ items ++ b.queue
      → IsFair c
      → IsFair (give items b c)
  unfolding IsFair give
  give-IsFair items b c front (order, all) = (
    order ∙ ap (λ l. c.taken ++ l) front ∙ sym (append_assoc c.taken items b.queue),
    add_to_given c.taken c.given c.handled (held c.threads) items all,
  )

  dequeue_lem : (b : BlockQueue A) → b.queue ≡ item_of (dequeue b).0 ++ (dequeue b).1.queue
  unfolding dequeue item_of
  dequeue_lem b = elim (list_cases b.queue) [
    | inl vacant ↦ rw (vacant, dequeue) (sym vacant)
    | inr (x, rest, e) ↦ rw (e, dequeue) refl
  ]

  block_dequeue_lem :
      (b : BlockQueue A) → b.queue ≡ got_of (block_dequeue b).0 ++ (block_dequeue b).1.queue
  unfolding block_dequeue got_of
  block_dequeue_lem b = elim (list_cases b.queue) [
    | inl vacant ↦ elim (Bool-cases b.running_flag) [
      | inl t ↦ rw (vacant, t, block_dequeue) (sym vacant)
      | inr f ↦ rw (vacant, f, block_dequeue) (sym vacant)
    ]
    | inr (x, rest, e) ↦ rw (e, block_dequeue) refl
  ]

  block_resume_lem :
      (b : BlockQueue A) → b.queue ≡ got_of (block_resume b).0 ++ (block_resume b).1.queue
  unfolding block_resume got_of
  block_resume_lem b = elim (list_cases b.queue) [
    | inl vacant ↦ rw (vacant, block_resume) (sym vacant)
    | inr (x, rest, e) ↦ rw (e, block_resume) refl
  ]

  pub start_process_cases :
      (c d : Channel A)
      → start_process c ≡ some d
      → record c { threads = c.threads ++ replicate c.th_size Worker.ready } ≡ d
  unfolding start_process
  start_process_cases c d h = elim (Bool-cases c.handler) [
    | inl t ↦
        let run : start_process c
            ≡ some (record c { threads = c.threads ++ replicate c.th_size Worker.ready }) =
          rw (t, start_process) refl in
        some-injective _ d (sym run ∙ h)
    | inr f ↦ let run : start_process c ≡ none = rw (f, start_process) refl in cc
  ]

  held-start : (n : ℕ) → held {A = A} (replicate n Worker.ready) ≡ []
  unfolding held
  held-start zero = refl
  held-start (suc n) = held-start n

  held-started : (ws : List (Worker A)) (n : ℕ) → held (ws ++ replicate n Worker.ready) ≡ held ws
  held-started ws n =
      held-append ws (replicate n Worker.ready)
      ∙ ap (λ l. held ws ++ l) (held-start n)
      ∙ append-nil (held ws)

  held-joined : (ws vs : List (Worker A)) → held (ws ++ (Worker.done ∷ vs)) ≡ held (ws ++ vs)
  unfolding held
  held-joined ws vs = held-append ws (Worker.done ∷ vs) ∙ sym (held-append ws vs)

  -- Elements in hand that are named in another way
  rename_held :
      (c : Channel A) (l : List A)
      → held c.threads ≡ l
      → Perm c.taken ((c.given ++ c.handled) ++ held c.threads)
      → Perm c.taken ((c.given ++ c.handled) ++ l)
  rename_held c l e all = subst (λ l. Perm c.taken ((c.given ++ c.handled) ++ l)) e all

  Step-IsFair : {c d : Channel A} → Step c d → IsFair c → IsFair d
  unfolding IsFair stop clear init
  Step-IsFair (Step.inited c f n) fair = fair
  Step-IsFair (Step.started c d h) (order, all) =
      subst IsFair (start_process_cases c d h)
        (order, rename_held c _ (sym (held-started c.threads c.th_size)) all)
  Step-IsFair (Step.threw c h) fair = fair
  Step-IsFair (Step.refused c x h) fair = fair
  Step-IsFair (Step.added c x h awake_all asleep) (order, all) = (accepted_order c x order h, all)
  Step-IsFair (Step.notified c x ws vs h e) (order, all) =
      (accepted_order c x order h, held-change c ws vs Worker.waiting (unfold held in refl) e all)
  Step-IsFair (Step.notified_caller c x n h e) (order, all) = (accepted_order c x order h, all)
  Step-IsFair (Step.dequeued c) fair = give-IsFair _ _ c (dequeue_lem c.block) fair
  Step-IsFair (Step.block_dequeued c) fair = give-IsFair _ _ c (block_dequeue_lem c.block) fair
  Step-IsFair (Step.resumed c n e) fair = give-IsFair _ _ c (block_resume_lem c.block) fair
  Step-IsFair (Step.stopped c) (order, all) =
      (order, rename_held c _ (sym (held-awake c.threads)) all)
  Step-IsFair (Step.joined c ws vs e) (order, all) =
      (order, rename_held c _ (ap held e ∙ held-joined ws vs) all)
  Step-IsFair (Step.cleared c) (order, all) = (sym (append-nil c.taken), all)
  Step-IsFair (Step.woken c ws vs e) (order, all) =
      (order, held-change c ws vs Worker.waiting (unfold held in refl) e all)
  Step-IsFair (Step.woken_caller c n e) fair = fair
  Step-IsFair (Step.turned c ws vs e) (order, all) =
      let w : Worker A = (turn c.block).0 in
      (
        order
            ∙ ap (λ l. c.taken ++ l) (turn_lem c.block)
            ∙ sym (append_assoc c.taken (held (w ∷ [])) ((turn c.block).1.queue)),
        subst (λ l. Perm (c.taken ++ held (w ∷ [])) ((c.given ++ c.handled) ++ l))
            (ap (λ l. held ws ++ l) (sym (held-append (w ∷ []) vs)) ∙ sym (held-append ws (w ∷ vs)))
            (add_to_hand c.taken (c.given ++ c.handled) (held ws) (held (w ∷ [])) (held vs)
              (rename_held c _ (ap held e ∙ held-ready ws vs) all)),
      )
  Step-IsFair (Step.returned c x ws vs e) (order, all) = (
    order,
    subst (Perm c.taken)
        (ap (λ l. l ++ (held ws ++ held vs)) (append_assoc c.given c.handled (x ∷ []))
          ∙ ap (λ l. (c.given ++ (c.handled ++ x ∷ [])) ++ l) (sym (held-ready ws vs)))
        (out_of_hand c.taken (c.given ++ c.handled) (held ws) (held vs) x
          (rename_held c _ (ap held e ∙ held-busy ws vs x) all)),
  )

  Reach-IsFair : {c d : Channel A} → Reach c d → IsFair c → IsFair d
  Reach-IsFair Reach.here fair = fair
  Reach-IsFair (Reach.next r step) fair = Step-IsFair step (Reach-IsFair r fair)

  -- In every run of a channel from its constructor, the elements that were taken in and not cleared are
  -- those that were taken out, in the same order, and those in the queue behind them; and the elements
  -- taken out are, each as often, those that callers of Dequeue and BlockDequeue got, those that workers
  -- handled and those that workers have in hand.
  pub run-IsFair :
      (n : ℕ) (c : Channel A)
      → Reach (open_channel n) c
      → (c.accepted ≡ c.taken ++ c.block.queue)
        × Perm c.taken ((c.given ++ c.handled) ++ held c.threads)
  unfolding IsFair
  run-IsFair n c r = Reach-IsFair r (unfold IsFair open_channel held in (refl, Perm.refl []))
