-- ===== src/Logic/BoolExpression/Checking.antt =====
-- `CheckExp` accepts the string of every expression whose keys pass their check.
use ytlib.Base.{
  ℕ, ◌+◌, ◌≡◌, refl, sym, ap, ◌∙◌, Bool, true, false, Option, some, List, [], ◌∷◌, ◌++◌, arith,
  append-nil, append_assoc, All,
}
use ytlib.Logic.BoolExpression.{
  Key, is_symbol, ExpState, begin_symbol, negation_symbol, and_or_symbol, right_bracket, exp_key,
  Check, key_passes, check_operand, check_bracket, check_key, check_char, check_from, check_exp,
}
use ytlib.Logic.BoolExpression.Syntax.{
  Connective, symbol, Exp, Atom, atom, binary, key, group, not_key, not_group, print, print_atom,
  IsKey, Keys, KeysAtom,
}

-- The states in which an operand is expected.
abbrev pub Expects : ExpState → Type 0
Expects begin_symbol = Unit
Expects negation_symbol = Unit
Expects and_or_symbol = Unit
Expects _ = ⊥

module _ (f : Option (Key → Bool)) where
  -- The states behind an operand, with the key that is still to be checked.
  abbrev Behind : ExpState → Key → Type 0
  Behind exp_key k = key_passes f k ≡ true
  Behind right_bracket k = Unit
  Behind _ k = ⊥

  abbrev pub at_state : ExpState → ℕ → Key → Check
  at_state s b k = record { state = s; br_num = b; key = k }

  Expects-operand :
      (s : ExpState) (k : Check) (c : ℕ) → Expects s → check_char f s k c ≡ check_operand f k c
  unfolding check_char
  Expects-operand begin_symbol k c h = refl
  Expects-operand negation_symbol k c h = refl
  Expects-operand and_or_symbol k c h = refl
  Expects-operand right_bracket k c h = absurd h
  Expects-operand exp_key k c h = absurd h

  check-chars :
      (b : ℕ) (k cs r : List ℕ)
      → All (λ c. is_symbol c ≡ false) cs
      → check_from f (at_state exp_key b k) (cs ++ r)
        ≡ check_from f (at_state exp_key b (k ++ cs)) r
  unfolding check_from check_char
  check-chars b k [] r h = rw append-nil
  check-chars b k (c ∷ cs) r h =
      let e : check_key f (at_state exp_key b k) c ≡ some (at_state exp_key b (k ++ c ∷ [])) =
        unfold check_key is_symbol in ground (arith, h.0) in
      rw (e, check_from) (check-chars b (k ++ c ∷ []) cs r h.1 ∙ rw append_assoc)

  check-step :
      (k k' : Check) (c : ℕ) (r : List ℕ)
      → check_char f k.state k c ≡ some k'
      → check_from f k (c ∷ r) ≡ check_from f k' r
  unfolding check_from
  check-step k k' c r h = rw (h, check_from)

  pub check-key :
      (s : ExpState) (b : ℕ) (old : Key) (k r : List ℕ)
      → Expects s
      → IsKey k
      → check_from f (at_state s b old) (k ++ r) ≡ check_from f (at_state exp_key b k) r
  check-key s b old [] r e h = absurd h
  check-key s b old (c ∷ k) r e h =
      check-step (at_state s b old) (at_state exp_key b (c ∷ [])) c (k ++ r) (
        Expects-operand s (at_state s b old) c e
        ∙ unfold check_operand is_symbol in ground (arith, h.0))
      ∙ check-chars b (c ∷ []) k r h.1

  check-open :
      (s : ExpState) (b : ℕ) (old : Key) (r : List ℕ)
      → Expects s
      → check_from f (at_state s b old) (b'(' ∷ r)
        ≡ check_from f (at_state begin_symbol (b + 1) old) r
  check-open s b old r e =
      check-step (at_state s b old) (at_state begin_symbol (b + 1) old) b'(' r
        (Expects-operand s (at_state s b old) b'(' e ∙ unfold check_operand in refl)

  pub check-not :
      (s : ExpState) (b : ℕ) (old : Key) (r : List ℕ)
      → Expects s
      → check_from f (at_state s b old) (b'!' ∷ r) ≡ check_from f (at_state negation_symbol b old) r
  check-not s b old r e =
      check-step (at_state s b old) (at_state negation_symbol b old) b'!' r
        (Expects-operand s (at_state s b old) b'!' e ∙ unfold check_operand in refl)

  check-close :
      (s : ExpState) (b : ℕ) (k : Key) (r : List ℕ)
      → Behind s k
      → check_from f (at_state s (b + 1) k) (b')' ∷ r) ≡ check_from f (at_state right_bracket b k) r
  check-close exp_key b k r h =
      check-step (at_state exp_key (b + 1) k) (at_state right_bracket b k) b')' r
        (unfold check_char check_key in ground arith)
  check-close right_bracket b k r h =
      check-step (at_state right_bracket (b + 1) k) (at_state right_bracket b k) b')' r
        (unfold check_char check_bracket in ground arith)
  check-close begin_symbol b k r h = absurd h
  check-close negation_symbol b k r h = absurd h
  check-close and_or_symbol b k r h = absurd h

  check-connective :
      (s : ExpState) (b : ℕ) (k : Key) (o : Connective) (r : List ℕ)
      → Behind s k
      → check_from f (at_state s b k) (symbol o ∷ r) ≡ check_from f (at_state and_or_symbol b k) r
  check-connective exp_key b k o r h =
      check-step (at_state exp_key b k) (at_state and_or_symbol b k) (symbol o) r
        (unfold check_char check_key in ground arith)
  check-connective right_bracket b k o r h =
      check-step (at_state right_bracket b k) (at_state and_or_symbol b k) (symbol o) r
        (unfold check_char check_bracket in ground arith)
  check-connective begin_symbol b k o r h = absurd h
  check-connective negation_symbol b k o r h = absurd h
  check-connective and_or_symbol b k o r h = absurd h

  -- An operand leads from a state that expects one to a state behind one, at the same depth.
  abbrev Leads : Check → List ℕ → List ℕ → Type 0
  Leads k s r =
      (st : ExpState) × (key' : Key) × (check_from f k (s ++ r)
        ≡ check_from f (at_state st k.br_num key') r)
      × Behind st key'

  abbrev Passes : Key → Type 0
  Passes k = key_passes f k ≡ true

  check-group :
      (s : ExpState) (b : ℕ) (old : Key) (x : List ℕ) (r : List ℕ)
      → Expects s
      → Leads (at_state begin_symbol (b + 1) old) x (b')' ∷ r)
      → Leads (at_state s b old) (b'(' ∷ (x ++ b')' ∷ [])) r
  check-group s b old x r e (st, k, runs, behind) = (
    right_bracket,
    k,
    check-open s b old ((x ++ b')' ∷ []) ++ r) e
        ∙ ap (check_from f (at_state begin_symbol (b + 1) old)) (append_assoc x (b')' ∷ []) r)
        ∙ runs
        ∙ check-close st b k r behind,
    tt,
  )

  mutual
    unfolding print Keys

    check-atom :
        (a : Atom) (s : ExpState) (b : ℕ) (old : Key) (r : List ℕ)
        → Expects s
        → KeysAtom IsKey a
        → KeysAtom Passes a
        → Leads (at_state s b old) (print_atom a) r
    check-atom (key k) s b old r e h p = (exp_key, k, check-key s b old k r e h, p)
    check-atom (group x) s b old r e h p =
        check-group s b old (print x) r e (check-print x begin_symbol (b + 1) old (b')' ∷ r) tt h p)
    check-atom (not_key k) s b old r e h p =
        (exp_key, k, check-not s b old (k ++ r) e ∙ check-key negation_symbol b old k r tt h, p)
    check-atom (not_group x) s b old r e h p =
        let (st, k, runs, behind) =
          check-group negation_symbol b old (print x) r tt
            (check-print x begin_symbol (b + 1) old (b')' ∷ r) tt h p) in
        (st, k, check-not s b old (b'(' ∷ ((print x ++ b')' ∷ []) ++ r)) e ∙ runs, behind)

    check-print :
        (x : Exp) (s : ExpState) (b : ℕ) (old : Key) (r : List ℕ)
        → Expects s
        → Keys IsKey x
        → Keys Passes x
        → Leads (at_state s b old) (print x) r
    check-print (atom a) s b old r e h p = check-atom a s b old r e h p
    check-print (binary x o a) s b old r e h p =
        let (st, k, runs, behind) =
          check-print x s b old (symbol o ∷ (print_atom a ++ r)) e h.0 p.0 in
        let (st', k', runs', behind') = check-atom a and_or_symbol b k r tt h.1 p.1 in
        (
          st',
          k',
          ap (check_from f (at_state s b old)) (append_assoc (print x) (symbol o ∷ print_atom a) r)
              ∙ runs
              ∙ check-connective st b k o (print_atom a ++ r) behind
              ∙ runs',
          behind',
        )

  ends_well : (s : ExpState) (k : Key) → Behind s k → check_from f (at_state s 0 k) [] ≡ true
  unfolding check_from
  ends_well exp_key k h = refl
  ends_well right_bracket k h = refl
  ends_well begin_symbol k h = absurd h
  ends_well negation_symbol k h = absurd h
  ends_well and_or_symbol k h = absurd h

  -- The string of an expression passes, if its keys pass the check of the user's.
  pub check_exp-print : (x : Exp) → Keys IsKey x → Keys Passes x → check_exp f (print x) ≡ true
  unfolding check_exp
  check_exp-print x h p =
      let (st, k, runs, behind) = check-print x begin_symbol 0 [] [] tt h p in
      ap (check_from f (at_state begin_symbol 0 [])) (sym (append-nil (print x)))
      ∙ runs
      ∙ ends_well st k behind
