-- ===== src/Thread/Channel.antt =====
-- ytlib/thread/channel.hpp: Channel, a BlockQueue whose elements worker threads take out and handle. A
-- worker holds the mutex but for its wait and the call of the handler, so what it does under the mutex
-- is one turn. Other threads may call every member of the queue; BlockDequeue is one step, or two with
-- its wait between them. The condition variable may also wake a thread that nobody notified.
pub mod Order
pub mod Wake
pub mod Room
mod Tests
use ytlib.Base.{
  ℕ, zero, suc, ◌+◌, ◌≡◌, ◌≢◌, Bool, true, false, List, [], ◌∷◌, ◌++◌, Option, none, some, All, map,
  replicate, if◌then◌else◌,
}
use ytlib.Thread.BlockQueue.{
  BlockQueue, Turn, clear, stop, enqueue, dequeue, block_dequeue, block_resume,
}

-- A worker is about to have its turn, waits for the condition variable, calls the handler, or has
-- returned.
pub data Worker {ℓ} (A : Type ℓ) : Type ℓ where
  ready : Worker A
  waiting : Worker A
  handling : A → Worker A
  done : Worker A

-- `handler` says whether `f_` can be called. `sleeping` callers of BlockDequeue wait for the condition
-- variable, `risen` ones were woken and are about to look at the queue. `accepted` are the elements that
-- were taken in and that Clear did not take, `taken` those that were taken out, `given` those of them
-- that a caller got, `handled` those whose handler has returned, in the order of time.
pub record Channel {ℓ} (A : Type ℓ) : Type ℓ where
  block : BlockQueue A
  handler : Bool
  th_size : ℕ
  threads : List (Worker A)
  sleeping : ℕ
  risen : ℕ
  accepted : List A
  taken : List A
  given : List A
  handled : List A

module _ {ℓ} {A : Type ℓ} where
  -- The turn of a worker, from its start or behind its wait or its handler
  pub turn : BlockQueue A → Worker A × BlockQueue A
  turn b = elim b.queue [
    | [] ↦ (if b.running_flag then Worker.waiting else Worker.done, b)
    | item ∷ rest ↦ (Worker.handling item, record b { queue = rest })
  ]

  pub awake : Worker A → Worker A
  awake Worker.ready = Worker.ready
  awake Worker.waiting = Worker.ready
  awake (Worker.handling x) = Worker.handling x
  awake Worker.done = Worker.done

  -- The elements that workers have in hand
  pub held : List (Worker A) → List A
  held [] = []
  held (Worker.handling x ∷ ws) = x ∷ held ws
  held (Worker.ready ∷ ws) = held ws
  held (Worker.waiting ∷ ws) = held ws
  held (Worker.done ∷ ws) = held ws

  pub open_channel : ℕ → Channel A
  open_channel n = record {
    block = record { maxcount = n; queue = []; running_flag = true };
    handler = false;
    th_size = 1;
    threads = [];
    sleeping = 0;
    risen = 0;
    accepted = [];
    taken = [];
    given = [];
    handled = [];
  }

  pub init : Bool → ℕ → Channel A → Channel A
  init f th_size c = record c { handler = f; th_size = th_size }

  -- `none` is the exception.
  pub start_process : Channel A → Option (Channel A)
  start_process c =
      if c.handler
      then some (record c { threads = c.threads ++ replicate c.th_size Worker.ready })
      else none

  -- What a caller gets of Dequeue and of BlockDequeue
  pub item_of : Option A → List A
  item_of none = []
  item_of (some x) = x ∷ []

  pub got_of : Turn A → List A
  got_of (Turn.got x) = x ∷ []
  got_of Turn.nothing = []
  got_of Turn.waits = []

  pub waits_of : Turn A → ℕ
  waits_of (Turn.got x) = 0
  waits_of Turn.nothing = 0
  waits_of Turn.waits = 1

  -- A caller takes `items` out and leaves the queue as `b`.
  pub give : List A → BlockQueue A → Channel A → Channel A
  give items b c = record c { block = b; taken = c.taken ++ items; given = c.given ++ items }

  -- What any thread may do next. `notify_one` wakes one of the waiting threads, if there is one.
  pub data Step : Channel A → Channel A → Type ℓ where
    inited : (c : Channel A) (f : Bool) (th_size : ℕ) → Step c (init f th_size c)
    started : (c d : Channel A) → start_process c ≡ some d → Step c d
    threw : (c : Channel A) → start_process c ≡ none → Step c c
    refused : (c : Channel A) (x : A) → (enqueue x c.block).0 ≡ false → Step c c
    added :
        (c : Channel A) (x : A)
        → (enqueue x c.block).0 ≡ true
        → All (λ w. w ≢ Worker.waiting) c.threads
        → c.sleeping ≡ 0
        → Step c (record c { block = (enqueue x c.block).1; accepted = c.accepted ++ x ∷ [] })
    notified :
        (c : Channel A) (x : A) (ws vs : List (Worker A))
        → (enqueue x c.block).0 ≡ true
        → c.threads ≡ ws ++ (Worker.waiting ∷ vs)
        → Step c (record c {
          block = (enqueue x c.block).1;
          threads = ws ++ (Worker.ready ∷ vs);
          accepted = c.accepted ++ x ∷ [];
        })
    notified_caller :
        (c : Channel A) (x : A) (n : ℕ)
        → (enqueue x c.block).0 ≡ true
        → c.sleeping ≡ suc n
        → Step c (record c {
          block = (enqueue x c.block).1;
          sleeping = n;
          risen = suc c.risen;
          accepted = c.accepted ++ x ∷ [];
        })
    dequeued : (c : Channel A) → Step c (give (item_of (dequeue c.block).0) ((dequeue c.block).1) c)
    block_dequeued :
        (c : Channel A)
        → Step c (record (give (got_of (block_dequeue c.block).0) ((block_dequeue c.block).1) c) {
          sleeping = c.sleeping + waits_of (block_dequeue c.block).0;
        })
    resumed :
        (c : Channel A) (n : ℕ)
        → c.risen ≡ suc n
        → Step c (record (give (got_of (block_resume c.block).0) ((block_resume c.block).1) c) {
          risen = n;
        })
    stopped :
        (c : Channel A)
        → Step c (record c {
          block = stop c.block;
          threads = map awake c.threads;
          sleeping = 0;
          risen = c.risen + c.sleeping;
        })
    joined :
        (c : Channel A) (ws vs : List (Worker A))
        → c.threads ≡ ws ++ (Worker.done ∷ vs)
        → Step c (record c { threads = ws ++ vs })
    cleared : (c : Channel A) → Step c (record c { block = clear c.block; accepted = c.taken })
    woken :
        (c : Channel A) (ws vs : List (Worker A))
        → c.threads ≡ ws ++ (Worker.waiting ∷ vs)
        → Step c (record c { threads = ws ++ (Worker.ready ∷ vs) })
    woken_caller :
        (c : Channel A) (n : ℕ)
        → c.sleeping ≡ suc n
        → Step c (record c { sleeping = n; risen = suc c.risen })
    turned :
        (c : Channel A) (ws vs : List (Worker A))
        → c.threads ≡ ws ++ (Worker.ready ∷ vs)
        → Step c (record c {
          block = (turn c.block).1;
          threads = ws ++ ((turn c.block).0 ∷ vs);
          taken = c.taken ++ held ((turn c.block).0 ∷ []);
        })
    returned :
        (c : Channel A) (x : A) (ws vs : List (Worker A))
        → c.threads ≡ ws ++ (Worker.handling x ∷ vs)
        → Step c (record c { threads = ws ++ (Worker.ready ∷ vs); handled = c.handled ++ x ∷ [] })

  pub data Reach (c : Channel A) : Channel A → Type ℓ where
    here : Reach c c
    next : {d e : Channel A} → Reach c d → Step d e → Reach c e
