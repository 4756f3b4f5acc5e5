-- ===== src/Logic/BoolExpression/Limits.antt =====
-- Strings that `CheckExp` lets through although the calculator cannot serve them.
use ytlib.Base.{
  ℕ, ◌≡◌, refl, sym, ap, ◌∙◌, Bool, true, false, Option, none, some, List, [], ◌∷◌, arith,
  append-nil,
}
use ytlib.Logic.BoolExpression.{
  value, logic_error, runtime_error, undefined, Key, is_symbol, priority, pop_while, pop_until,
  push_operator, shunt, scan, begin_symbol, negation_symbol, check_from, check_exp, pre_calc,
  calc_token, calc_from, calc_mid, calc,
}
use ytlib.Logic.BoolExpression.Syntax.{IsKey}
use ytlib.Logic.BoolExpression.Postfix.{scan-key, scan-symbol, scan-not}
use ytlib.Logic.BoolExpression.Checking.{at_state, check-key, check-not}

-- The key that ends an expression is not handed to the check of the user's: whatever that says, an
-- expression of one key passes.
pub last_key_unchecked : (f : Key → Bool) (k : Key) → IsKey k → check_exp (some f) k ≡ true
unfolding check_exp check_from
last_key_unchecked f k h =
    ap (check_from (some f) (at_state (some f) begin_symbol 0 [])) (sym (append-nil k))
    ∙ check-key (some f) begin_symbol 0 [] k [] tt h

check-double :
    (check : Option (Key → Bool)) (k : Key) → IsKey k → check_exp check (b'!' ∷ b'!' ∷ k) ≡ true
unfolding check_exp check_from
check-double check k h =
    check-not check begin_symbol 0 [] (b'!' ∷ k) tt
    ∙ check-not check negation_symbol 0 [] k tt
    ∙ ap (check_from check (at_state check negation_symbol 0 [])) (sym (append-nil k))
    ∙ check-key check negation_symbol 0 [] k [] tt h

scan-double :
    (k : Key)
    → IsKey k
    → scan (b'#' ∷ []) [] [] (b'!' ∷ b'!' ∷ k) ≡ value ((b'!' ∷ []) ∷ k ∷ (b'!' ∷ []) ∷ [])
scan-double k h =
    scan-not b'#' [] [] (b'!' ∷ k) (unfold priority in omega arith)
    ∙ scan-symbol (b'!' ∷ b'#' ∷ []) [] b'!' k (b'!' ∷ b'#' ∷ []) ((b'!' ∷ []) ∷ [])
        (unfold is_symbol in refl) (unfold shunt push_operator pop_while priority in refl)
    ∙ ap (scan (b'!' ∷ b'#' ∷ []) ((b'!' ∷ []) ∷ []) []) (sym (append-nil k))
    ∙ scan-key (b'!' ∷ b'#' ∷ []) ((b'!' ∷ []) ∷ []) k [] h tt
    ∙ unfold scan pop_until in refl

-- A negation of a negation passes the check, and its calculation takes the top of an empty stack.
pub double_negation :
    (check : Option (Key → Bool)) (f : Key → Bool) (k : Key)
    → IsKey k
    → (check_exp check (b'!' ∷ b'!' ∷ k) ≡ true)
      × (calc check (some f) (b'!' ∷ b'!' ∷ k) ≡ undefined)
unfolding calc pre_calc calc_mid
double_negation check f k h = (
  check-double check k h,
  rw (check-double check k h, scan-double k h) (unfold calc_from calc_token in refl),
)

-- A string that fails the check is a logic error; with no function for the keys, one that passes and
-- has a postfix form is a runtime error.
pub calc_errors :
    (check calc_fun : Option (Key → Bool)) (s : List ℕ)
    → (check_exp check s ≡ false → calc check calc_fun s ≡ logic_error)
      × ((q : List Key) → pre_calc check s ≡ value q → calc check none s ≡ runtime_error)
unfolding calc
calc_errors check calc_fun s = (λ e. unfold pre_calc in rw e, λ q e. rw e (unfold calc_mid in refl))
