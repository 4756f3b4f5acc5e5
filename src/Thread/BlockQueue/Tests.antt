-- ===== src/Thread/BlockQueue/Tests.antt =====
-- Runs of BlockQueue.
use ytlib.Base.{ℕ, ◌≡◌, refl, true, false, [], ◌∷◌}
use ytlib.Thread.BlockQueue.{BlockQueue, Turn, enqueue, dequeue, block_resume, block_dequeue}

abbrev vacant : BlockQueue ℕ
vacant = record { maxcount = 2; queue = []; running_flag = true }

abbrev full : BlockQueue ℕ
full = record { maxcount = 2; queue = 4 ∷ 5 ∷ []; running_flag = true }

full_refuses : enqueue 6 full ≡ (false, full)
unfolding enqueue
full_refuses = refl

-- A thread that waited finds the queue empty, if another one took the element.
taken_first :
    (block_dequeue vacant ≡ (Turn.waits, vacant))
    × (block_resume (dequeue ((enqueue 7 vacant).1)).1 ≡ (Turn.nothing, vacant))
unfolding enqueue dequeue block_resume block_dequeue
taken_first = (refl, refl)
