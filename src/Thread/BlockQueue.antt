-- ===== src/Thread/BlockQueue.antt =====
-- ytlib/thread/block_queue.hpp: BlockQueue. The code between taking the mutex and giving it back is one
-- step, so every member function is a function on the state; BlockDequeue has a part before the wait and
-- a part behind it.
pub mod Bound
mod Tests
use ytlib.Base.{
  ℕ, Bool, true, false, List, [], ◌∷◌, ◌++◌, Option, none, some, length, ltb, if◌then◌else◌,
}

pub record BlockQueue {ℓ} (A : Type ℓ) : Type ℓ where
  pub maxcount : ℕ
  pub queue : List A
  pub running_flag : Bool

-- What BlockDequeue comes to: an element, nothing, or a wait for the condition variable
pub data Turn {ℓ} (A : Type ℓ) : Type ℓ where
  got : A → Turn A
  nothing : Turn A
  waits : Turn A

module _ {ℓ} {A : Type ℓ} where
  pub get_max_count : BlockQueue A → ℕ
  get_max_count b = b.maxcount

  pub count : BlockQueue A → ℕ
  count b = length b.queue

  unfoldable pub clear : BlockQueue A → BlockQueue A
  clear b = record b { queue = [] }

  -- `notify_all` is what the waiting threads make of it.
  unfoldable pub stop : BlockQueue A → BlockQueue A
  stop b = record b { running_flag = false }

  -- Whether the element is taken in, and `notify_one` is called
  unfoldable pub enqueue : A → BlockQueue A → Bool × BlockQueue A
  enqueue item b =
      if ltb (length b.queue) b.maxcount
      then (true, record b { queue = b.queue ++ item ∷ [] })
      else (false, b)

  unfoldable pub dequeue : BlockQueue A → Option A × BlockQueue A
  dequeue b = elim b.queue [ [] ↦ (none, b) | item ∷ rest ↦ (some item, record b { queue = rest }) ]

  -- BlockDequeue from its start
  unfoldable pub block_dequeue : BlockQueue A → Turn A × BlockQueue A
  block_dequeue b = elim b.queue [
    | [] ↦ (if b.running_flag then Turn.waits else Turn.nothing, b)
    | item ∷ rest ↦ (Turn.got item, record b { queue = rest })
  ]

  -- BlockDequeue behind `cond_.wait`
  unfoldable pub block_resume : BlockQueue A → Turn A × BlockQueue A
  block_resume b = elim b.queue [
    | [] ↦ (Turn.nothing, b)
    | item ∷ rest ↦ (Turn.got item, record b { queue = rest })
  ]
