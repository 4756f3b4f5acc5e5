-- ===== src/Logic/BoolExpression/Postfix.antt =====
-- The loop of `PreCalc` over the string of an expression.
use ytlib.Base.{
  ℕ, ◌<◌, ◌≡◌, refl, sym, ap, ap₂, ◌∙◌, true, false, List, [], ◌∷◌, ◌++◌, arith, ltb, append-nil,
  append_assoc, All,
}
use ytlib.Logic.BoolExpression.{value, Key, is_symbol, priority, push_operator, shunt, flush, scan}
use ytlib.Logic.BoolExpression.Syntax.{
  Connective, both, either, symbol, Exp, Atom, atom, binary, key, group, not_key, not_group, print,
  print_atom, postfix, IsKey, Keys, KeysAtom,
}
use ytlib.Logic.BoolExpression.Shunting.{
  pend, pend_atom, out, out_atom, out-pend, pend-IsOperator, symbol-two, pop_until-group,
  pop_until-bottom, push_operator-pend,
}

-- What can follow an operand: nothing, or a symbol.
abbrev pub Ends : List ℕ → Type 0
Ends [] = Unit
Ends (c ∷ s) = is_symbol c ≡ true

scan-flush :
    (st : List ℕ) (qu : List Key) (k : Key) (r : List ℕ)
    → Ends r
    → scan st qu k r ≡ scan st (flush k qu) [] r
unfolding scan
scan-flush st qu k [] h = refl
scan-flush st qu k (c ∷ r) h = rw (h, scan)

-- The characters of a key are collected.
scan-chars :
    (st : List ℕ) (qu : List Key) (k cs r : List ℕ)
    → All (λ c. is_symbol c ≡ false) cs
    → scan st qu k (cs ++ r) ≡ scan st qu (k ++ cs) r
unfolding scan
scan-chars st qu k [] r h = rw append-nil
scan-chars st qu k (c ∷ cs) r h =
    rw (h.0, scan) (scan-chars st qu (k ++ c ∷ []) cs r h.1 ∙ rw append_assoc)

pub scan-key :
    (st : List ℕ) (qu : List Key) (k r : List ℕ)
    → IsKey k
    → Ends r
    → scan st qu [] (k ++ r) ≡ scan st (qu ++ k ∷ []) [] r
scan-key st qu [] r h e = absurd h
scan-key st qu (c ∷ k) r h e = scan-chars st qu [] (c ∷ k) r h ∙ scan-flush st qu (c ∷ k) r e

-- One symbol, when no key is being read.
pub scan-symbol :
    (st : List ℕ) (qu : List Key) (c : ℕ) (r : List ℕ) (st' : List ℕ) (qu' : List Key)
    → is_symbol c ≡ true
    → shunt c st qu ≡ value (st', qu')
    → scan st qu [] (c ∷ r) ≡ scan st' qu' [] r
unfolding scan
scan-symbol st qu c r st' qu' h e = rw (h, scan) (rw e)

scan-open :
    (st : List ℕ) (qu : List Key) (r : List ℕ) → scan st qu [] (b'(' ∷ r) ≡ scan (b'(' ∷ st) qu [] r
unfolding is_symbol shunt
scan-open st qu r = scan-symbol st qu b'(' r (b'(' ∷ st) qu refl refl

pub scan-not :
    (t : ℕ) (st : List ℕ) (qu : List Key) (r : List ℕ)
    → priority t < 3
    → scan (t ∷ st) qu [] (b'!' ∷ r) ≡ scan (b'!' ∷ t ∷ st) qu [] r
unfolding is_symbol shunt push_operator
scan-not t st qu r h =
    let e : ltb (priority t) (priority b'!') ≡ true = unfold priority in ground arith in
    scan-symbol (t ∷ st) qu b'!' r (b'!' ∷ t ∷ st) qu refl (rw e)

-- A `)` closes a group that has been read.
scan-close :
    (e : Exp) (st : List ℕ) (qu : List Key) (r : List ℕ)
    → scan (pend e ++ b'(' ∷ st) (qu ++ out e) [] (b')' ∷ r) ≡ scan st (qu ++ postfix e) [] r
unfolding is_symbol shunt
scan-close e st qu r =
    scan-symbol (pend e ++ b'(' ∷ st) (qu ++ out e) b')' r st (qu ++ postfix e) refl
      (rw (pop_until-group (pend e) st (qu ++ out e) (pend-IsOperator e), append_assoc, out-pend))

symbol-symbol : (o : Connective) → is_symbol (symbol o) ≡ true
unfolding is_symbol
symbol-symbol both = refl
symbol-symbol either = refl

close-symbol : is_symbol b')' ≡ true
unfolding is_symbol
close-symbol = refl

open_low : priority b'(' < 2
unfolding priority
open_low = omega arith

-- A `&` or a `|` sends the operators before it to the queue.
scan-connective :
    (e : Exp) (o : Connective) (t : ℕ) (st : List ℕ) (qu : List Key) (r : List ℕ)
    → priority t < 2
    → scan (pend e ++ t ∷ st) (qu ++ out e) [] (symbol o ∷ r)
      ≡ scan (symbol o ∷ t ∷ st) (qu ++ postfix e) [] r
scan-connective e o t st qu r low =
    scan-symbol (pend e ++ t ∷ st) (qu ++ out e) (symbol o) r (symbol o ∷ t ∷ st) (qu ++ postfix e)
      (symbol-symbol o)
      (shunt-symbol o (pend e ++ t ∷ st) (qu ++ out e)
        ∙ rw (
          push_operator-pend o (pend e) t st (qu ++ out e) (pend-IsOperator e) low,
          append_assoc,
          out-pend,
        ))
  where
    shunt-symbol :
        (o : Connective) (st : List ℕ) (qu : List Key)
        → shunt (symbol o) st qu ≡ push_operator (symbol o) st qu
    shunt-symbol both st qu = unfold shunt in refl
    shunt-symbol either st qu = unfold shunt in refl

mutual
  unfolding print Keys

  scan-atom :
      (a : Atom) (t : ℕ) (st : List ℕ) (qu : List Key) (r : List ℕ)
      → KeysAtom IsKey a
      → priority t < 3
      → Ends r
      → scan (t ∷ st) qu [] (print_atom a ++ r)
        ≡ scan (pend_atom a ++ t ∷ st) (qu ++ out_atom a) [] r
  scan-atom (key k) t st qu r h low e = scan-key (t ∷ st) qu k r h e
  scan-atom (group x) t st qu r h low e =
      scan-open (t ∷ st) qu ((print x ++ b')' ∷ []) ++ r)
      ∙ ap (scan (b'(' ∷ t ∷ st) qu []) (append_assoc (print x) (b')' ∷ []) r)
      ∙ scan-exp x b'(' (t ∷ st) qu (b')' ∷ r) h open_low close-symbol
      ∙ scan-close x (t ∷ st) qu r
  scan-atom (not_key k) t st qu r h low e =
      scan-not t st qu (k ++ r) low ∙ scan-key (b'!' ∷ t ∷ st) qu k r h e
  scan-atom (not_group x) t st qu r h low e =
      scan-not t st qu (b'(' ∷ ((print x ++ b')' ∷ []) ++ r)) low
      ∙ scan-open (b'!' ∷ t ∷ st) qu ((print x ++ b')' ∷ []) ++ r)
      ∙ ap (scan (b'(' ∷ b'!' ∷ t ∷ st) qu []) (append_assoc (print x) (b')' ∷ []) r)
      ∙ scan-exp x b'(' (b'!' ∷ t ∷ st) qu (b')' ∷ r) h open_low close-symbol
      ∙ scan-close x (b'!' ∷ t ∷ st) qu r

  scan-exp :
      (x : Exp) (t : ℕ) (st : List ℕ) (qu : List Key) (r : List ℕ)
      → Keys IsKey x
      → priority t < 2
      → Ends r
      → scan (t ∷ st) qu [] (print x ++ r) ≡ scan (pend x ++ t ∷ st) (qu ++ out x) [] r
  scan-exp (atom a) t st qu r h low e = scan-atom a t st qu r h (omega arith) e
  scan-exp (binary x o a) t st qu r h low e =
      ap (scan (t ∷ st) qu []) (append_assoc (print x) (symbol o ∷ print_atom a) r)
      ∙ scan-exp x t st qu (symbol o ∷ (print_atom a ++ r)) h.0 low (symbol-symbol o)
      ∙ scan-connective x o t st qu (print_atom a ++ r) low
      ∙ scan-atom a (symbol o) (t ∷ st) (qu ++ postfix x) r h.1 (omega (arith, symbol-two o)) e
      ∙ ap₂ (λ s q. scan s q [] r) (sym (append_assoc (pend_atom a) (symbol o ∷ []) (t ∷ st)))
          (append_assoc qu (postfix x) (out_atom a))

-- Of the string of an expression the loop makes its postfix form, and no stack is found empty.
pub scan-eq-postfix :
    (x : Exp) → Keys IsKey x → scan (b'#' ∷ []) [] [] (print x) ≡ value (postfix x)
scan-eq-postfix x h =
    ap (scan (b'#' ∷ []) [] []) (sym (append-nil (print x)))
    ∙ scan-exp x b'#' [] [] [] h (unfold priority in omega arith) tt
    ∙ unfold scan in rw (pop_until-bottom (pend x) (out x) (pend-IsOperator x), out-pend)
