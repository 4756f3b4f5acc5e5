-- ===== src/Thread/Channel/Tests.antt =====
-- The theorems on Channel at a run of it.
use mathlib.Core.List.{Perm}
use ytlib.Base.{ℕ, ◌≡◌, ◌≤◌, ◌⊎◌, refl, true, [], ◌∷◌, ◌++◌, length}
use ytlib.Thread.BlockQueue.{enqueue, block_dequeue, block_resume}
use ytlib.Thread.Channel.{
  Worker, Channel, Step, Reach, turn, held, open_channel, init, start_process, got_of, waits_of,
  give,
}
use ytlib.Thread.Channel.Order.{run-IsFair}
use ytlib.Thread.Channel.Room.{length-run}
use ytlib.Thread.Channel.Wake.{HasActive, AllUp, run-attended}

-- A worker was started and waits, a caller waits in BlockDequeue, and an Enqueue woke that caller.
abbrev sleepy : Channel ℕ
sleepy = record {
  block = record { maxcount = 9; queue = []; running_flag = true };
  handler = true;
  th_size = 1;
  threads = Worker.waiting ∷ [];
  sleeping = 1;
  risen = 0;
  accepted = [];
  taken = [];
  given = [];
  handled = [];
}

abbrev called : Channel ℕ
called = record sleepy {
  block = record { maxcount = 9; queue = 7 ∷ []; running_flag = true };
  sleeping = 0;
  risen = 1;
  accepted = 7 ∷ [];
}

abbrev served : Channel ℕ
served = record called {
  block = record { maxcount = 9; queue = []; running_flag = true };
  risen = 0;
  taken = 7 ∷ [];
  given = 7 ∷ [];
}

abbrev set_up : Channel ℕ
set_up = record sleepy { threads = []; sleeping = 0 }

abbrev fresh : Channel ℕ
fresh = record sleepy { threads = Worker.ready ∷ []; sleeping = 0 }

abbrev idle : Channel ℕ
idle = record sleepy { sleeping = 0 }

called-Reach : Reach (open_channel 9) called
unfolding open_channel init start_process turn held enqueue block_dequeue got_of waits_of give
called-Reach =
    Reach.next
      (Reach.next
        (Reach.next
          (Reach.next (Reach.next Reach.here (Step.inited (open_channel 9) true 1))
            (Step.started set_up fresh refl))
          (Step.turned fresh [] [] refl))
        (Step.block_dequeued idle))
      (Step.notified_caller sleepy 7 0 refl refl)

served-Reach : Reach (open_channel 9) served
unfolding block_resume got_of give
served-Reach = Reach.next called-Reach (Step.resumed called 0 refl)

run-IsFair_example :
    (served.accepted ≡ served.taken ++ served.block.queue)
    × Perm served.taken ((served.given ++ served.handled) ++ held served.threads)
run-IsFair_example = run-IsFair 9 served served-Reach

run-attended_example :
    (AllUp called.threads × (called.sleeping ≡ 0))
    ⊎ (HasActive called.threads ⊎ (length called.block.queue ≤ called.risen))
run-attended_example = run-attended 9 called called-Reach

length-run_example : length called.block.queue ≤ 9
length-run_example = length-run 9 called called-Reach
