-- ===== src/Container/RingBuf/Tests.antt =====
-- Runs of `RingBuf`, and the theorems at concrete rings.
use ytlib.Base.{ℕ, ◌≡◌, refl, true, false, some, List, [], ◌∷◌, arith}
use ytlib.Container.RingBuf.{
  Ring, Access, is_empty, is_full, size, unused_capacity, capacity, push, pop, top, get, push_array,
  pop_array, copy_in, tail_count,
}
use ytlib.Container.RingBuf.Queue.{
  Op, put, remove, peek, peek_at, remove_many, flag, access, run_queue,
}
use ytlib.Container.RingBuf.Inv.{IsValid}
use ytlib.Container.RingBuf.Refine.{Represents, run, call, run_refines}
use ytlib.Container.RingBuf.Arrays.{push_array_refused}

-- BUF_SIZE 4: 8, then 9, round the end of the array.
abbrev turned : Ring ℕ
turned = record { content = 9 ∷ 0 ∷ 0 ∷ 8 ∷ []; wpos = 1; rpos = 3 }

abbrev fresh : Ring ℕ
fresh = record { content = 0 ∷ 0 ∷ 0 ∷ 0 ∷ []; wpos = 0; rpos = 0 }

abbrev middle : Ring ℕ
middle = record { content = 0 ∷ 0 ∷ 7 ∷ 0 ∷ []; wpos = 3; rpos = 2 }

turned-IsValid : IsValid 4 turned
turned-IsValid = omega arith

turned-Represents : Represents 4 turned (8 ∷ 9 ∷ [])
unfolding size
turned-Represents = record { valid = turned-IsValid; held = refl }

middle-Represents : Represents 4 middle (7 ∷ [])
unfolding size
middle-Represents = record { valid = omega arith; held = refl }

abbrev script : List (Op ℕ)
script = put 5 ∷ put 6 ∷ peek ∷ peek_at 2 ∷ peek_at 3 ∷ remove_many 2 ∷ remove ∷ remove ∷ peek ∷ []

run-turned :
    run 4 script turned
    ≡ flag true
      ∷ flag false
      ∷ access (Access.item (some 8))
      ∷ access (Access.item (some 5))
      ∷ access Access.invalid_argument
      ∷ flag true
      ∷ flag true
      ∷ flag false
      ∷ access Access.runtime_error
      ∷ []
unfolding run call push pop top get pop_array is_full is_empty size
run-turned = refl

push_array_split :
    (push_array 4 1 (1 ∷ 2 ∷ []) 2 middle).1
    ≡ record { content = 2 ∷ 0 ∷ 7 ∷ 1 ∷ []; wpos = 1; rpos = 2 }
unfolding push_array unused_capacity copy_in tail_count
push_array_split = refl

run_refines_example : run 4 script turned ≡ run_queue (capacity 4) script (8 ∷ 9 ∷ [])
run_refines_example = run_refines 4 script turned (8 ∷ 9 ∷ []) turned-Represents

push_array_refused_example : push_array 4 1 (1 ∷ 2 ∷ 3 ∷ []) 3 turned ≡ (false, turned)
push_array_refused_example =
    push_array_refused (8 ∷ 9 ∷ []) turned-Represents (1 ∷ 2 ∷ 3 ∷ []) 1
      (unfold unused_capacity in omega arith)

-- Elements at indices 2, 3 and 0; one is asked for, and two are copied before the long copy.
abbrev two_turned : Ring ℕ
two_turned = record { content = 9 ∷ 0 ∷ 7 ∷ 8 ∷ []; wpos = 1; rpos = 2 }
