-- ===== src/Logic/BoolExpression.antt =====
-- ytlib/logic/bool_expression.hpp: `BoolExpCalculator`.
-- A string is the list of its bytes. The two functions that the user sets are parameters, `none` if
-- they are not set, and are taken to be pure. `undefined` is a call of `top` or `pop` on an empty
-- stack.
pub mod Syntax
pub mod Shunting
pub mod Postfix
pub mod Checking
pub mod Value
pub mod Limits
mod Tests
use ytlib.Base.{
  ℕ, suc, ◌+◌, ◌-◌, Bool, true, false, not, ◌&&◌, ◌||◌, Option, none, some, List, [], ◌∷◌, ◌++◌,
  ltb, leb, ◌==◌, if◌then◌else◌,
}

pub data Outcome {ℓ} (A : Type ℓ) : Type ℓ where
  value : A → Outcome A
  logic_error runtime_error undefined : Outcome A

infixl 5 ◌>>=◌
abbrev pub ◌>>=◌ {ℓ κ} : {A : Type ℓ} {B : Type κ} → Outcome A → (A → Outcome B) → Outcome B
value a >>= f = f a
logic_error >>= f = logic_error
runtime_error >>= f = runtime_error
undefined >>= f = undefined

abbrev pub Key : Type 0
Key = List ℕ

-- The characters that cannot stand in a key.
pub is_symbol : ℕ → Bool
is_symbol c = c == b'!' || c == b'&' || c == b'|' || c == b'(' || c == b')'

pub priority : ℕ → ℕ
priority c =
    if c == b'('
    then 1
    else if c == b'|' || c == b'&'
    then 2
    else if c == b'!'
    then 3
    else if c == b')'
    then 4
    else 0

-- CheckExp

pub data ExpState : Type 0 where
  begin_symbol negation_symbol and_or_symbol right_bracket exp_key : ExpState

pub record Check : Type 0 where
  pub state : ExpState
  -- `br_num`, which a `)` too many would take below 0
  pub br_num : ℕ
  -- the characters from `cur_key_begin_pos` on
  pub key : Key

module _ (key_check_fun : Option (Key → Bool)) where
  abbrev pub key_passes : Key → Bool
  key_passes key = elim key_check_fun [ none ↦ true | some f ↦ f key ]

  -- The case of an operand: after the start, `(`, `!`, `&` or `|`. `none` is `return false`.
  pub check_operand : Check → ℕ → Option Check
  check_operand k c =
      if c == b'('
      then some (record k { state = begin_symbol; br_num = k.br_num + 1 })
      else if c == b'!'
      then some (record k { state = negation_symbol })
      else if c == b'&' || c == b'|' || c == b')'
      then none
      else some (record k { state = exp_key; key = c ∷ [] })

  pub check_bracket : Check → ℕ → Option Check
  check_bracket k c =
      if c == b'&' || c == b'|'
      then some (record k { state = and_or_symbol })
      else if c == b')'
      then (if k.br_num == 0 then none else some (record k { br_num = k.br_num - 1 }))
      else none

  pub check_key : Check → ℕ → Option Check
  check_key k c =
      if c == b'(' || c == b'!'
      then none
      else if c == b'&' || c == b'|'
      then (if key_passes k.key then some (record k { state = and_or_symbol }) else none)
      else if c == b')'
      then if k.br_num == 0
        then none
        else if key_passes k.key
        then some (record k { state = right_bracket; br_num = k.br_num - 1 })
        else none
      else some (record k { key = k.key ++ c ∷ [] })

  pub check_char : ExpState → Check → ℕ → Option Check
  check_char begin_symbol k c = check_operand k c
  check_char negation_symbol k c = check_operand k c
  check_char and_or_symbol k c = check_operand k c
  check_char right_bracket k c = check_bracket k c
  check_char exp_key k c = check_key k c

  abbrev pub is_final : ExpState → Bool
  is_final right_bracket = true
  is_final exp_key = true
  is_final _ = false

  pub check_from : Check → List ℕ → Bool
  check_from k [] = is_final k.state && k.br_num == 0
  check_from k (c ∷ s) = elim (check_char k.state k c) [ none ↦ false | some k' ↦ check_from k' s ]

  pub check_exp : List ℕ → Bool
  check_exp s = check_from (record { state = begin_symbol; br_num = 0; key = [] }) s

-- PreCalc: the stack of symbols with its top first, and the queue of strings.

abbrev pub Work : Type 0
Work = List ℕ × List Key

-- `while (st.top() != mark) { qu.emplace_back(1, st.top()); st.pop(); }`
pub pop_until : ℕ → List ℕ → List Key → Outcome Work
pop_until mark [] qu = undefined
pop_until mark (t ∷ st) qu = elim (t == mark) [
  | true ↦ value (t ∷ st, qu)
  | false ↦ pop_until mark st (qu ++ (t ∷ []) ∷ [])
]

-- `while (Priority(cur_smb) <= Priority(st.top())) { ... }`
pub pop_while : ℕ → List ℕ → List Key → Outcome Work
pop_while c [] qu = undefined
pop_while c (t ∷ st) qu = elim (leb (priority c) (priority t)) [
  | true ↦ pop_while c st (qu ++ (t ∷ []) ∷ [])
  | false ↦ value (t ∷ st, qu)
]

pub push_operator : ℕ → List ℕ → List Key → Outcome Work
push_operator c [] qu = undefined
push_operator c (t ∷ st) qu =
    if ltb (priority t) (priority c)
    then value (c ∷ t ∷ st, qu)
    else pop_while c (t ∷ st) qu >>= λ w. value (c ∷ w.0, w.1)

-- `st.pop()`
abbrev pub drop_top : Work → Outcome Work
drop_top ([], qu) = undefined
drop_top (t ∷ st, qu) = value (st, qu)

pub shunt : ℕ → List ℕ → List Key → Outcome Work
shunt c st qu =
    if c == b'('
    then value (b'(' ∷ st, qu)
    else if c == b')'
    then pop_until b'(' st qu >>= drop_top
    else push_operator c st qu

-- The key that has been read so far goes to the queue, if one has.
abbrev pub flush : Key → List Key → List Key
flush [] qu = qu
flush (c ∷ k) qu = qu ++ (c ∷ k) ∷ []

-- The loop over the characters. The inner loop over the characters of a key collects them in `key`,
-- and ends at a symbol or at the end.
pub scan : List ℕ → List Key → Key → List ℕ → Outcome (List Key)
scan st qu key [] = pop_until b'#' st (flush key qu) >>= λ w. value w.1
scan st qu key (c ∷ s) = elim (is_symbol c) [
  | true ↦ shunt c st (flush key qu) >>= λ w. scan w.0 w.1 [] s
  | false ↦ scan st qu (key ++ c ∷ []) s
]

pub pre_calc : Option (Key → Bool) → List ℕ → Outcome (List Key)
pre_calc key_check_fun s =
    let work = scan (b'#' ∷ []) [] [] s in if check_exp key_check_fun s then work else logic_error

-- Calc of the postfix form

-- `Ret`: a result, or a key that has not been asked for.
pub data Ret : Type 0 where
  result : Bool → Ret
  pending : Key → Ret

module _ (key_calc_fun : Key → Bool) where
  abbrev pub force : Ret → Bool
  force (result b) = b
  force (pending key) = key_calc_fun key

  abbrev pub calc_not : List Ret → Outcome (List Ret)
  calc_not [] = undefined
  calc_not (r ∷ st) = value (result (not (force r)) ∷ st)

  -- The right operand is on the top; the left one is asked for only if the right one does not decide.
  abbrev pub calc_and : List Ret → Outcome (List Ret)
  calc_and [] = undefined
  calc_and (r ∷ []) = undefined
  calc_and (r ∷ l ∷ st) =
      if not (force r) then value (result false ∷ st) else value (result (force l) ∷ st)

  abbrev pub calc_or : List Ret → Outcome (List Ret)
  calc_or [] = undefined
  calc_or (r ∷ []) = undefined
  calc_or (r ∷ l ∷ st) = if force r then value (result true ∷ st) else value (result (force l) ∷ st)

  pub calc_token : Key → List Ret → Outcome (List Ret)
  calc_token [] st = value (pending [] ∷ st)
  calc_token (c ∷ []) st =
      if c == b'!'
      then calc_not st
      else if c == b'&'
      then calc_and st
      else if c == b'|'
      then calc_or st
      else value (pending (c ∷ []) ∷ st)
  calc_token (c ∷ d ∷ k) st = value (pending (c ∷ d ∷ k) ∷ st)

  abbrev pub final_ret : List Ret → Outcome Bool
  final_ret [] = undefined
  final_ret (r ∷ st) = value (force r)

  pub calc_from : List Ret → List Key → Outcome Bool
  calc_from st [] = final_ret st
  calc_from st (token ∷ rest) = calc_token token st >>= λ st'. calc_from st' rest

-- `Calc(const MidResultClass&)`
pub calc_mid : Option (Key → Bool) → List Key → Outcome Bool
calc_mid none mid = runtime_error
calc_mid (some f) mid = calc_from f [] mid

-- `Calc(std::string_view)`
pub calc : Option (Key → Bool) → Option (Key → Bool) → List ℕ → Outcome Bool
calc key_check_fun key_calc_fun s = pre_calc key_check_fun s >>= calc_mid key_calc_fun
