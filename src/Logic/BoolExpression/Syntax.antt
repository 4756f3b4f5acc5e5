-- ===== src/Logic/BoolExpression/Syntax.antt =====
-- The expressions that the calculator is for: `&` and `|` of one priority, grouped to the left, and
-- one `!` at most before a key or a group. `print` writes them as the source's strings.
use ytlib.Base.{ℕ, ◌≡◌, Bool, false, not, ◌&&◌, ◌||◌, List, [], ◌∷◌, ◌++◌, All}
use ytlib.Logic.BoolExpression.{Key, is_symbol}

pub data Connective : Type 0 where
  both either : Connective

abbrev pub symbol : Connective → ℕ
symbol both = b'&'
symbol either = b'|'

mutual
  pub data Exp : Type 0 where
    atom : Atom → Exp
    binary : Exp → Connective → Atom → Exp

  pub data Atom : Type 0 where
    key : Key → Atom
    group : Exp → Atom
    not_key : Key → Atom
    not_group : Exp → Atom

unfoldable mutual
  pub print : Exp → List ℕ
  print (atom a) = print_atom a
  print (binary e o a) = print e ++ (symbol o ∷ print_atom a)

  pub print_atom : Atom → List ℕ
  print_atom (key k) = k
  print_atom (group e) = b'(' ∷ (print e ++ b')' ∷ [])
  print_atom (not_key k) = b'!' ∷ k
  print_atom (not_group e) = b'!' ∷ b'(' ∷ (print e ++ b')' ∷ [])

-- What the expression means, for the values of its keys.
unfoldable mutual
  pub eval : (Key → Bool) → Exp → Bool
  eval f (atom a) = eval_atom f a
  eval f (binary e both a) = eval f e && eval_atom f a
  eval f (binary e either a) = eval f e || eval_atom f a

  pub eval_atom : (Key → Bool) → Atom → Bool
  eval_atom f (key k) = f k
  eval_atom f (group e) = eval f e
  eval_atom f (not_key k) = not (f k)
  eval_atom f (not_group e) = not (eval f e)

-- The postfix form.
unfoldable mutual
  pub postfix : Exp → List Key
  postfix (atom a) = postfix_atom a
  postfix (binary e o a) = postfix e ++ (postfix_atom a ++ (symbol o ∷ []) ∷ [])

  pub postfix_atom : Atom → List Key
  postfix_atom (key k) = k ∷ []
  postfix_atom (group e) = postfix e
  postfix_atom (not_key k) = k ∷ (b'!' ∷ []) ∷ []
  postfix_atom (not_group e) = postfix e ++ (b'!' ∷ []) ∷ []

-- A key has a character, and none that is a symbol.
abbrev pub IsKey : Key → Type 0
IsKey [] = ⊥
IsKey (c ∷ k) = (is_symbol c ≡ false) × All (λ d. is_symbol d ≡ false) k

-- `P` holds of every key of the expression.
unfoldable mutual
  pub Keys : (Key → Type 0) → Exp → Type 0
  Keys P (atom a) = KeysAtom P a
  Keys P (binary e o a) = Keys P e × KeysAtom P a

  pub KeysAtom : (Key → Type 0) → Atom → Type 0
  KeysAtom P (key k) = P k
  KeysAtom P (group e) = Keys P e
  KeysAtom P (not_key k) = P k
  KeysAtom P (not_group e) = Keys P e
