-- ===== src/Math/BigNum/Signed.antt =====
-- operator+ and operator- on numbers of any base: the sum and the difference, and their form.
use ytlib.Base.{
  ℕ, zero, suc, ◌+◌, ◌^◌, ◌≤◌, ◌<◌, ◌≡◌, ◌⊎◌, refl, ap, sym, subst, ◌∙◌, Bool, true, false, not,
  ◌&&◌, List, [], ◌∷◌, arith, ltb, ltb→lt, ◌==◌, if◌then◌else◌, length, Bool-cases, inl, inr,
}
use ytlib.Math.BigNum.{BigNum, val, u32, trim_zeros, add, neg, sub, rebase, rebase_loop}
use ytlib.Math.BigNum.Digits.{Valid}
use ytlib.Math.BigNum.Sum.{Top, Canonical, WellFormed, above, below, part, add_in-Balanced}
use ytlib.Math.BigNum.Rebase.{rebase_lem, rebase_loop_lem}

one_digit : (d : ℕ) → (◌≡◌ {A = List ℕ} (d ∷ []) (0 ∷ [])) ⊎ Top (d ∷ [])
one_digit zero = inl refl
one_digit (suc d) = inr (λ e. absurd (omega arith))

top :
    (e : ℕ) (es : List ℕ)
    → (e == 0 && length es == 0) ≡ false
    → (e ∷ es ≡ 0 ∷ []) ⊎ Top (e ∷ es)
    → Top (e ∷ es)
top e es z (inr t) = t
top e [] z (inl h) = absurd (ground arith)
top e (f ∷ es) z (inl h) = absurd (ground arith)

pub trim_zeros-Canonical :
    (base d : ℕ) (ds : List ℕ) → Valid base (d ∷ ds) → Canonical base (trim_zeros (d ∷ ds))
unfolding trim_zeros
trim_zeros-Canonical base d [] v = ((v.0, tt), one_digit d)
trim_zeros-Canonical base d (e ∷ ds) v =
    pop (trim_zeros (e ∷ ds)) (trim_zeros-Canonical base e ds v.1)
  where
    pop :
        (es : List ℕ)
        → Canonical base es
        → Canonical base (elim es [
          | [] ↦ d ∷ []
          | e ∷ es ↦ if e == 0 && length es == 0 then d ∷ [] else d ∷ e ∷ es
        ])
    pop [] c = ((v.0, tt), one_digit d)
    pop (e ∷ es) (w, c) = elim (Bool-cases (e == 0 && length es == 0)) [
      | inl z ↦ rw z ((v.0, tt), one_digit d)
      | inr z ↦ rw z ((v.0, w), inr (top e es z c))
    ]

pub Canonical-nonempty : (base : ℕ) (xs : List ℕ) → Canonical base xs → 0 < length xs
Canonical-nonempty base [] (v, inl e) = absurd (ground arith)
Canonical-nonempty base [] (v, inr t) = absurd (omega arith)
Canonical-nonempty base (x ∷ xs) c = omega arith

rebased-Canonical :
    (fuel from base : ℕ) (content : List ℕ)
    → 2 ≤ from
    → from < u32
    → 2 ≤ base
    → base < u32
    → Valid from content
    → 0 < length content
    → val from content < suc fuel
    → Canonical base (trim_zeros (rebase_loop (suc fuel) from base content))
unfolding rebase_loop
rebased-Canonical fuel from base [] f f' b b' v some_in lt = absurd (omega arith)
rebased-Canonical fuel from base (d ∷ ds) f f' b b' v some_in lt =
    trim_zeros-Canonical base _ _
      (rebase_loop_lem (suc fuel) from base (d ∷ ds) f f' b b' v (inr lt)).1

rebase-WellFormed :
    (n : BigNum) (base : ℕ)
    → WellFormed n
    → 2 ≤ base
    → base < 2 ^ 32
    → WellFormed (rebase base n) × ((rebase base n).base ≡ base)
unfolding rebase
rebase-WellFormed n base (two, small, v, t) b b' = elim (Bool-cases (ltb base 2)) [
  | inl one ↦ absurd (omega (arith, ltb→lt base 2 one))
  | inr more ↦ elim (Bool-cases (n.base == base)) [
    | inl same ↦ rw (more, same, rebase) ((two, small, v, t), ground arith)
    | inr other ↦
        let c =
          rebased-Canonical (val n.base n.content) n.base base n.content two small b b' v
            (Canonical-nonempty n.base n.content (v, t)) (omega arith) in
        rw (more, other, rebase) ((b, b', c.0, c.1), refl)
  ]
]

-- The second operand, in the base of the first
abbrev pub common : BigNum → BigNum → BigNum
common a value = if a.base == value.base then value else rebase a.base value

pub common_lem :
    (a value : BigNum)
    → WellFormed a
    → WellFormed value
    → Canonical a.base (common a value).content
      × ((common a value).symbol ≡ value.symbol)
      × (val a.base (common a value).content ≡ val value.base value.content)
common_lem a value (two, small, v, t) (two', small', w, u) =
    elim (Bool-cases (a.base == value.base)) [
      | inl same ↦
          let e : value.base ≡ a.base = ground arith in
          rw same (
            subst (λ b. Canonical b value.content) e (w, u),
            refl,
            ap (λ b. val b value.content) (sym e),
          )
      | inr other ↦
          let ((_, _, v', t'), base') =
            rebase-WellFormed value a.base (two', small', w, u) two small in
          let (same, sign, _) = rebase_lem value a.base two' small' w small in
          rw other (
            subst (λ b. Canonical b (rebase a.base value).content) base' (v', t'),
            sign,
            ap (λ b. val b (rebase a.base value).content) (sym base') ∙ same,
          )
    ]

-- operator+ adds two well-formed numbers, whose bases are 2 or more and fit in 32 bits, whose digits are
-- below the base and whose highest digit is 0 only if it is the only one: the parts of the two above and
-- below zero balance those of the sum, in whatever bases the two stand.
pub add_lem :
    (a value : BigNum)
    → WellFormed a
    → WellFormed value
    → above (add a value) + below a + below value ≡ below (add a value) + above a + above value
unfolding add
add_lem a value wa wv =
    let (canonical, sign, same) = common_lem a value wa wv in
    let (two, small, v, t) = wa in
    let b = common a value in
    let sum =
      add_in-Balanced a.base a.symbol a.content b.symbol b.content two small (v, t) canonical in
    subst
      (λ w.
        above (add a value) + below a + part (not value.symbol) w
        ≡ below (add a value) + above a + part value.symbol w)
      same
      (subst
        (λ s.
          above (add a value) + below a + part (not s) (val a.base b.content)
          ≡ below (add a value) + above a + part s (val a.base b.content))
        sign sum)

not-not : (b : Bool) → not (not b) ≡ b
not-not true = refl
not-not false = refl

-- operator- subtracts, in the same sense.
pub sub_lem :
    (a value : BigNum)
    → WellFormed a
    → WellFormed value
    → above (sub a value) + below a + above value ≡ below (sub a value) + above a + below value
unfolding sub neg
sub_lem a value wa wv =
    subst
      (λ s.
        above (sub a value) + below a + part s (val value.base value.content)
        ≡ below (sub a value) + above a + part (not value.symbol) (val value.base value.content))
      (not-not value.symbol) (add_lem a (neg value) wa wv)
