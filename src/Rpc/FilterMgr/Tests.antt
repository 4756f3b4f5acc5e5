-- ===== src/Rpc/FilterMgr/Tests.antt =====
-- A run through three filters, and the theorem at a filter that refuses.
use ytlib.Base.{ℕ, ◌≡◌, refl, List, [], ◌∷◌, ◌++◌}
use ytlib.Rpc.FilterMgr.{register_filter, bind_filters, invoke_rpc}
use ytlib.Rpc.FilterMgr.Order.{invoke_rpc-register_filter}

-- Writes its number before and behind the call
abbrev logging : ℕ → List ℕ → (List ℕ → List ℕ) → List ℕ
logging n log rpc = rpc (log ++ (n ∷ [])) ++ (n ∷ [])

-- Does not call
abbrev refusing : List ℕ → (List ℕ → List ℕ) → List ℕ
refusing log rpc = log ++ (0 ∷ [])

abbrev call : List ℕ → List ℕ
call log = log ++ (9 ∷ [])

run_three :
    invoke_rpc
      (register_filter (logging 3) (register_filter (logging 2) (register_filter (logging 1) [])))
      call
      []
    ≡ 3 ∷ 2 ∷ 1 ∷ 9 ∷ 1 ∷ 2 ∷ 3 ∷ []
unfolding invoke_rpc bind_filters register_filter
run_three = refl

invoke_rpc-register_filter_example :
    invoke_rpc (register_filter refusing (logging 2 ∷ logging 1 ∷ [])) call []
    ≡ refusing [] (invoke_rpc (logging 2 ∷ logging 1 ∷ []) call)
invoke_rpc-register_filter_example =
    invoke_rpc-register_filter (logging 2 ∷ logging 1 ∷ []) refusing call []
