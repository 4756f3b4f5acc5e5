-- ===== src/Logic/BoolExpression/Shunting.antt =====
-- `PreCalc` turns the string of an expression into its postfix form.
use ytlib.Base.{
  ℕ, ◌≤◌, ◌<◌, ◌≡◌, refl, sym, ap, ◌∙◌, true, false, List, [], ◌∷◌, ◌++◌, arith, ltb, leb, ◌==◌,
  append-nil, append_assoc, All, All-append,
}
use ytlib.Logic.BoolExpression.{value, Key, priority, pop_until, pop_while, push_operator}
use ytlib.Logic.BoolExpression.Syntax.{
  Connective, both, either, symbol, Exp, Atom, atom, binary, key, group, not_key, not_group,
  postfix, postfix_atom,
}

-- The operators that stay on the stack when an expression has been read.
abbrev pub pend_atom : Atom → List ℕ
pend_atom (key k) = []
pend_atom (group e) = []
pend_atom (not_key k) = b'!' ∷ []
pend_atom (not_group e) = b'!' ∷ []

abbrev pub pend : Exp → List ℕ
pend (atom a) = pend_atom a
pend (binary e o a) = pend_atom a ++ symbol o ∷ []

abbrev pub strings : List ℕ → List Key
strings [] = []
strings (c ∷ cs) = (c ∷ []) ∷ strings cs

-- What has gone to the queue by then.
abbrev pub out_atom : Atom → List Key
out_atom (key k) = k ∷ []
out_atom (group e) = postfix e
out_atom (not_key k) = k ∷ []
out_atom (not_group e) = postfix e

abbrev pub out : Exp → List Key
out (atom a) = out_atom a
out (binary e o a) = postfix e ++ out_atom a

pub out-pend_atom : (a : Atom) → out_atom a ++ strings (pend_atom a) ≡ postfix_atom a
unfolding postfix_atom
out-pend_atom (key k) = refl
out-pend_atom (group e) = append-nil (postfix e)
out-pend_atom (not_key k) = refl
out-pend_atom (not_group e) = refl

strings-append : (xs ys : List ℕ) → strings (xs ++ ys) ≡ strings xs ++ strings ys
strings-append [] ys = refl
strings-append (x ∷ xs) ys = ap (λ t. (x ∷ []) ∷ t) (strings-append xs ys)

pub out-pend : (e : Exp) → out e ++ strings (pend e) ≡ postfix e
unfolding postfix
out-pend (atom a) = out-pend_atom a
out-pend (binary e o a) =
    ap (λ t. (postfix e ++ out_atom a) ++ t) (strings-append (pend_atom a) (symbol o ∷ []))
    ∙ append_assoc (postfix e) (out_atom a) (strings (pend_atom a) ++ (symbol o ∷ []) ∷ [])
    ∙ ap (λ t. postfix e ++ t)
        (sym (append_assoc (out_atom a) (strings (pend_atom a)) ((symbol o ∷ []) ∷ []))
          ∙ ap (λ t. t ++ (symbol o ∷ []) ∷ []) (out-pend_atom a))

-- Operators: `!`, `&` and `|`.
abbrev pub IsOperator : ℕ → Type 0
IsOperator c = (2 ≤ priority c) × ((c == b'(') ≡ false) × ((c == b'#') ≡ false)

symbol-IsOperator : (o : Connective) → IsOperator (symbol o)
unfolding priority
symbol-IsOperator both = (omega arith, refl, refl)
symbol-IsOperator either = (omega arith, refl, refl)

pub symbol-two : (o : Connective) → priority (symbol o) ≡ 2
unfolding priority
symbol-two both = refl
symbol-two either = refl

pend_atom-IsOperator : (a : Atom) → All IsOperator (pend_atom a)
unfolding priority
pend_atom-IsOperator (key k) = tt
pend_atom-IsOperator (group e) = tt
pend_atom-IsOperator (not_key k) = ((omega arith, refl, refl), tt)
pend_atom-IsOperator (not_group e) = ((omega arith, refl, refl), tt)

pub pend-IsOperator : (e : Exp) → All IsOperator (pend e)
pend-IsOperator (atom a) = pend_atom-IsOperator a
pend-IsOperator (binary e o a) =
    All-append IsOperator (pend_atom a) (symbol o ∷ []) (pend_atom-IsOperator a)
      (symbol-IsOperator o, tt)

-- The operators above a mark go to the queue, the mark stays.
pub pop_until-group :
    (ps st : List ℕ) (qu : List Key)
    → All IsOperator ps
    → pop_until b'(' (ps ++ b'(' ∷ st) qu ≡ value (b'(' ∷ st, qu ++ strings ps)
unfolding pop_until
pop_until-group [] st qu h = rw append-nil
pop_until-group (p ∷ ps) st qu h =
    rw (h.0.1, pop_until) (pop_until-group ps st (qu ++ (p ∷ []) ∷ []) h.1 ∙ rw append_assoc)

pub pop_until-bottom :
    (ps : List ℕ) (qu : List Key)
    → All IsOperator ps
    → pop_until b'#' (ps ++ b'#' ∷ []) qu ≡ value (b'#' ∷ [], qu ++ strings ps)
unfolding pop_until
pop_until-bottom [] qu h = rw append-nil
pop_until-bottom (p ∷ ps) qu h =
    rw (h.0.2, pop_until) (pop_until-bottom ps (qu ++ (p ∷ []) ∷ []) h.1 ∙ rw append_assoc)

-- So do those above a symbol of low priority, if a `&` or a `|` comes.
pop_while-pend :
    (o : Connective) (ps : List ℕ) (t : ℕ) (st : List ℕ) (qu : List Key)
    → All IsOperator ps
    → priority t < 2
    → pop_while (symbol o) (ps ++ t ∷ st) qu ≡ value (t ∷ st, qu ++ strings ps)
unfolding pop_while
pop_while-pend o [] t st qu h low =
    let e : leb (priority (symbol o)) (priority t) ≡ false = ground (arith, symbol-two o) in
    rw (e, pop_while, append-nil)
pop_while-pend o (p ∷ ps) t st qu h low =
    let e : leb (priority (symbol o)) (priority p) ≡ true = ground (arith, symbol-two o, h.0.0) in
    rw (e, pop_while) (pop_while-pend o ps t st (qu ++ (p ∷ []) ∷ []) h.1 low ∙ rw append_assoc)

pub push_operator-pend :
    (o : Connective) (ps : List ℕ) (t : ℕ) (st : List ℕ) (qu : List Key)
    → All IsOperator ps
    → priority t < 2
    → push_operator (symbol o) (ps ++ t ∷ st) qu ≡ value (symbol o ∷ t ∷ st, qu ++ strings ps)
unfolding push_operator
push_operator-pend o [] t st qu h low =
    let e : ltb (priority t) (priority (symbol o)) ≡ true = ground (arith, symbol-two o) in
    rw (e, append-nil)
push_operator-pend o (p ∷ ps) t st qu h low =
    let e : ltb (priority p) (priority (symbol o)) ≡ false = ground (arith, symbol-two o, h.0.0) in
    rw (e, pop_while-pend o (p ∷ ps) t st qu h low)
