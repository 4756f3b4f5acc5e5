-- ===== src/Logic/BoolExpression/Value.antt =====
-- `Calc` gives the value of the expression.
use ytlib.Base.{
  ◌≡◌, refl, sym, ap, ◌∙◌, Bool, true, not, ◌&&◌, ◌||◌, Option, some, List, [], ◌∷◌, ◌++◌, arith,
  append-nil, append_assoc, Bool-cases, inl, inr,
}
use ytlib.Logic.BoolExpression.{
  value, Key, is_symbol, key_passes, pre_calc, Ret, result, pending, force, calc_token, calc_from,
  calc_mid, calc,
}
use ytlib.Logic.BoolExpression.Syntax.{
  Connective, both, either, symbol, Exp, Atom, atom, binary, key, group, not_key, not_group, print,
  eval, eval_atom, postfix, postfix_atom, IsKey, Keys, KeysAtom,
}
use ytlib.Logic.BoolExpression.Postfix.{scan-eq-postfix}
use ytlib.Logic.BoolExpression.Checking.{check_exp-print}

module _ (f : Key → Bool) where
  calc-key :
      (k : Key) (st : List Ret) (rest : List Key)
      → IsKey k
      → calc_from f st (k ∷ rest) ≡ calc_from f (pending k ∷ st) rest
  unfolding calc_from
  calc-key [] st rest h = absurd h
  calc-key (c ∷ []) st rest h =
      let e : calc_token f (c ∷ []) st ≡ value (pending (c ∷ []) ∷ st) =
        unfold calc_token is_symbol in ground (arith, h.0) in
      rw e
  calc-key (c ∷ d ∷ k) st rest h = unfold calc_token in refl

  calc-not :
      (r : Ret) (st : List Ret) (rest : List Key)
      → calc_from f (r ∷ st) ((b'!' ∷ []) ∷ rest) ≡ calc_from f (result (not (force f r)) ∷ st) rest
  unfolding calc_from calc_token
  calc-not r st rest = refl

  abbrev join : Connective → Bool → Bool → Bool
  join both a b = a && b
  join either a b = a || b

  -- Both operands count, though the left one is asked for only if it decides.
  calc-connective :
      (o : Connective) (l r : Ret) (st : List Ret) (rest : List Key)
      → calc_from f (r ∷ l ∷ st) ((symbol o ∷ []) ∷ rest)
        ≡ calc_from f (result (join o (force f l) (force f r)) ∷ st) rest
  unfolding calc_from calc_token
  calc-connective both l r st rest = elim (Bool-cases (force f r)) [
    | inl t ↦ rw t (ap (λ b. calc_from f (result b ∷ st) rest) (ground arith))
    | inr t ↦ rw t (ap (λ b. calc_from f (result b ∷ st) rest) (ground arith))
  ]
  calc-connective either l r st rest = elim (Bool-cases (force f r)) [
    | inl t ↦ rw t (ap (λ b. calc_from f (result b ∷ st) rest) (ground arith))
    | inr t ↦ rw t (ap (λ b. calc_from f (result b ∷ st) rest) (ground arith))
  ]

  -- An operand in postfix form leaves one result more on the stack.
  abbrev Leaves : List Key → Bool → List Ret → List Key → Type 0
  Leaves p v st rest =
      (r : Ret) × (calc_from f st (p ++ rest) ≡ calc_from f (r ∷ st) rest) × (force f r ≡ v)

  mutual
    unfolding postfix eval Keys

    calc-atom :
        (a : Atom) (st : List Ret) (rest : List Key)
        → KeysAtom IsKey a
        → Leaves (postfix_atom a) (eval_atom f a) st rest
    calc-atom (key k) st rest h = (pending k, calc-key k st rest h, refl)
    calc-atom (group x) st rest h = calc-postfix x st rest h
    calc-atom (not_key k) st rest h = (
      result (not (f k)),
      calc-key k st ((b'!' ∷ []) ∷ rest) h ∙ calc-not (pending k) st rest,
      refl,
    )
    calc-atom (not_group x) st rest h =
        let (r, runs, v) = calc-postfix x st ((b'!' ∷ []) ∷ rest) h in
        (
          result (not (force f r)),
          ap (calc_from f st) (append_assoc (postfix x) ((b'!' ∷ []) ∷ []) rest)
              ∙ runs
              ∙ calc-not r st rest,
          ap not v,
        )

    calc-postfix :
        (x : Exp) (st : List Ret) (rest : List Key)
        → Keys IsKey x
        → Leaves (postfix x) (eval f x) st rest
    calc-postfix (atom a) st rest h = calc-atom a st rest h
    calc-postfix (binary x both a) st rest h =
        let (l, runs, v) = calc-postfix x st (postfix_atom a ++ (symbol both ∷ []) ∷ rest) h.0 in
        let (r, runs', v') = calc-atom a (l ∷ st) ((symbol both ∷ []) ∷ rest) h.1 in
        (
          result (force f l && force f r),
          ap (calc_from f st) (
                append_assoc (postfix x) (postfix_atom a ++ (symbol both ∷ []) ∷ []) rest
                ∙ ap (λ t. postfix x ++ t)
                    (append_assoc (postfix_atom a) ((symbol both ∷ []) ∷ []) rest))
              ∙ runs
              ∙ runs'
              ∙ calc-connective both l r st rest,
          rw (v, v'),
        )
    calc-postfix (binary x either a) st rest h =
        let (l, runs, v) = calc-postfix x st (postfix_atom a ++ (symbol either ∷ []) ∷ rest) h.0 in
        let (r, runs', v') = calc-atom a (l ∷ st) ((symbol either ∷ []) ∷ rest) h.1 in
        (
          result (force f l || force f r),
          ap (calc_from f st) (
                append_assoc (postfix x) (postfix_atom a ++ (symbol either ∷ []) ∷ []) rest
                ∙ ap (λ t. postfix x ++ t)
                    (append_assoc (postfix_atom a) ((symbol either ∷ []) ∷ []) rest))
              ∙ runs
              ∙ runs'
              ∙ calc-connective either l r st rest,
          rw (v, v'),
        )

-- The postfix form of an expression calculates to its value.
pub calc_mid-postfix :
    (f : Key → Bool) (x : Exp) → Keys IsKey x → calc_mid (some f) (postfix x) ≡ value (eval f x)
unfolding calc_mid
calc_mid-postfix f x h =
    let (r, runs, v) = calc-postfix f x [] [] h in
    ap (calc_from f []) (sym (append-nil (postfix x))) ∙ runs ∙ unfold calc_from in ap value v

-- `PreCalc` of an expression's string is its postfix form.
pub pre_calc-print :
    (check : Option (Key → Bool)) (x : Exp)
    → Keys IsKey x
    → Keys (λ k. key_passes check k ≡ true) x
    → pre_calc check (print x) ≡ value (postfix x)
unfolding pre_calc
pre_calc-print check x h p = rw (check_exp-print check x h p, scan-eq-postfix x h)

-- Calculating the string of an expression in which `&` and `|` group to the left and at most one `!`
-- stands before a key or a group gives the value of the expression, with no exception and no access to
-- an empty stack, if its keys are well formed and pass the check.
pub calc-print :
    (check : Option (Key → Bool)) (f : Key → Bool) (x : Exp)
    → Keys IsKey x
    → Keys (λ k. key_passes check k ≡ true) x
    → calc check (some f) (print x) ≡ value (eval f x)
unfolding calc
calc-print check f x h p = rw (pre_calc-print check x h p) (calc_mid-postfix f x h)
