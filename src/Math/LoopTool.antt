-- ===== src/Math/LoopTool.antt =====
-- ytlib/math/loop_tool.hpp: LoopTool, a counter of several digits with a limit each, the lowest first.
-- `content_vec` has as many digits as `up_vec`.
pub mod Count
mod Tests
use mathlib.Core.Option.{map as option_map}
use ytlib.Base.{
  ℕ, zero, suc, ◌+◌, ◌-◌, ◌*◌, ◌%◌, ◌^◌, Bool, true, false, not, List, Option, none, some, [], ◌∷◌,
  length, replicate, ◌==◌, if◌then◌else◌,
}

-- The loop of `operator++` over the digits
pub increase : List ℕ → List ℕ → List ℕ
increase [] content = content
increase (u ∷ up) [] = []
increase (u ∷ up) (c ∷ content) =
    let next = (c + 1) % 2 ^ 32 in
    let carried = increase up content in if next == u then 0 ∷ carried else next ∷ content

-- The loop of `operator--`
pub decrease : List ℕ → List ℕ → List ℕ
decrease [] content = content
decrease (u ∷ up) [] = []
decrease (u ∷ up) (c ∷ content) =
    let borrowed = decrease up content in
    if c == 0 then ((u + 2 ^ 32 - 1) % 2 ^ 32) ∷ borrowed else (c - 1) ∷ content

-- `operator bool`
pub is_set : List ℕ → List ℕ → Bool
is_set [] content = false
is_set (u ∷ up) [] = false
is_set (u ∷ up) (c ∷ content) =
    let later = is_set up content in if not (c == 0) then true else later

-- `LoopTool(up_vec)`
pub start : List ℕ → List ℕ
start up = replicate (length up) 0

-- The loop that the header shows, `do { .. } while (--lt)`: how often its body runs; `none` says that the
-- fuel did not do.
pub rounds : ℕ → List ℕ → List ℕ → Option ℕ
rounds zero up content = none
rounds (suc fuel) up content =
    let later = rounds fuel up (decrease up content) in
    if is_set up (decrease up content) then option_map suc later else some 1
