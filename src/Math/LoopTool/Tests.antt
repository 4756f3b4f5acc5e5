-- ===== src/Math/LoopTool/Tests.antt =====
-- Runs of LoopTool, and the theorems at a counter.
use ytlib.Base.{ℕ, some, ◌≡◌, refl, List, [], ◌∷◌, arith}
use ytlib.Math.LoopTool.{increase, decrease, start, rounds}
use ytlib.Math.LoopTool.Count.{total, rounds-total}

abbrev limits : List ℕ
limits = 2 ∷ 3 ∷ []

carry : increase limits (1 ∷ 1 ∷ []) ≡ 0 ∷ 2 ∷ []
unfolding increase
carry = refl

borrow : decrease limits (0 ∷ 0 ∷ []) ≡ 1 ∷ 2 ∷ []
unfolding decrease
borrow = refl

rounds-total_example : rounds (total limits) limits (start limits) ≡ some (total limits)
rounds-total_example =
    rounds-total limits (omega arith, omega arith, (omega arith, omega arith, tt))
