-- ===== src/Math/BigNum/Compare.antt =====
-- Compare: the order of what the two numbers stand for.
use Prim.Native.Nat.{Ordering}
use ytlib.Base.{
  ℕ, ◌+◌, ◌<◌, ◌≡◌, ◌⊎◌, refl, ap, subst, ◌∙◌, Bool, true, false, not, ◌&&◌, List, [], ◌∷◌, arith,
  ltb, ltb→lt, ◌==◌, if◌then◌else◌, length, Bool-cases, inl, inr,
}
use ytlib.Math.BigNum.{BigNum, val, is_empty, order_digits, differs, compare_in, compare_nums}
use ytlib.Math.BigNum.Sum.{
  Ordered, order_digits-Ordered, ordering-cases, Top, Top-pos, longer-lt, Canonical, WellFormed,
  part, above, below,
}
use ytlib.Math.BigNum.Signed.{Canonical-nonempty, common, common_lem}

longer-lt_Canonical :
    (base : ℕ) (xs ys : List ℕ)
    → 0 < base
    → Canonical base xs
    → Canonical base ys
    → length ys < length xs
    → val base ys < val base xs
longer-lt_Canonical base xs ys h (v, inr t) d len = longer-lt base xs ys h d.0 t len
longer-lt_Canonical base xs ys h (v, inl e) d len =
    absurd (omega (arith, ap length e, Canonical-nonempty base ys d))

-- With a sign, larger digits stand for more above zero and for less below it.
compare_in-Ordered :
    (base : ℕ) (s : Bool) (xs ys : List ℕ)
    → 0 < base
    → Canonical base xs
    → Canonical base ys
    → Ordered
        (compare_in s xs ys)
        (part s (val base xs) + part (not s) (val base ys))
        (part s (val base ys) + part (not s) (val base xs))
unfolding compare_in
compare_in-Ordered base s xs ys h c d = elim (Bool-cases (length xs == length ys)) [
  | inl same ↦
      let o = order_digits-Ordered base xs ys c.0 d.0 (ground arith) in
      elim (ordering-cases (order_digits xs ys)) [
        | inl lt ↦
            let less = subst (λ q. Ordered q (val base xs) (val base ys)) lt o in
            rw (same, lt, compare_in) (smaller s less)
        | inr (inl eq) ↦
            let equal = subst (λ q. Ordered q (val base xs) (val base ys)) eq o in
            rw (same, eq, compare_in) (equals s equal)
        | inr (inr gt) ↦
            let more = subst (λ q. Ordered q (val base xs) (val base ys)) gt o in
            rw (same, gt, compare_in) (larger s more)
      ]
  | inr other ↦ elim (Bool-cases (ltb (length ys) (length xs))) [
    | inl less ↦
        let lt = ltb→lt (length ys) (length xs) less in
        rw (other, less, compare_in) (larger s (longer-lt_Canonical base xs ys h c d lt))
    | inr more ↦
        let lt : length xs < length ys = ground arith in
        rw (other, more, compare_in) (smaller s (longer-lt_Canonical base ys xs h d c lt))
  ]
]
  where
    smaller :
        (s : Bool) {v w : ℕ}
        → v < w
        → Ordered
            (if differs s false then Ordering.lt else Ordering.gt)
            (part s v + part (not s) w)
            (part s w + part (not s) v)
    smaller true lt = omega arith
    smaller false lt = omega arith

    larger :
        (s : Bool) {v w : ℕ}
        → w < v
        → Ordered
            (if differs s true then Ordering.lt else Ordering.gt)
            (part s v + part (not s) w)
            (part s w + part (not s) v)
    larger true lt = omega arith
    larger false lt = omega arith

    equals : (s : Bool) {v w : ℕ} → v ≡ w → part s v + part (not s) w ≡ part s w + part (not s) v
    equals true e = omega arith
    equals false e = omega arith

-- Whether a list of digits is a single 0, as Empty asks
abbrev one_zero : List ℕ → Bool
one_zero xs = length xs == 1 && (elim xs [ [] ↦ false | d ∷ ds ↦ d == 0 ])

Top-one_zero : (xs : List ℕ) → Top xs → one_zero xs ≡ false
Top-one_zero [] t = absurd (omega arith)
Top-one_zero (d ∷ []) t = ground arith
Top-one_zero (d ∷ e ∷ ds) t = ground arith

is_empty-cases :
    (n : BigNum)
    → WellFormed n
    → ((is_empty n ≡ true) × (val n.base n.content ≡ 0))
      ⊎ ((is_empty n ≡ false) × (0 < val n.base n.content))
unfolding is_empty
is_empty-cases n (two, small, v, inl e) = inl (ap one_zero e, ap (val n.base) e ∙ omega arith)
is_empty-cases n (two, small, v, inr t) =
    inr (Top-one_zero n.content t, Top-pos n.base n.content (omega arith) t)

-- Numbers of two signs, one of which is not 0
apart :
    {v w : ℕ} (l r : Bool)
    → (l && r) ≡ false
    → ((l ≡ true) × (v ≡ 0)) ⊎ ((l ≡ false) × (0 < v))
    → ((r ≡ true) × (w ≡ 0)) ⊎ ((r ≡ false) × (0 < w))
    → 0 < v + w
apart l r e (inl a) (inl b) = absurd (ground arith)
apart l r e (inl a) (inr b) = omega arith
apart l r e (inr a) b = omega arith

both_zero :
    {v w : ℕ} (l r : Bool)
    → (l && r) ≡ true
    → ((l ≡ true) × (v ≡ 0)) ⊎ ((l ≡ false) × (0 < v))
    → ((r ≡ true) × (w ≡ 0)) ⊎ ((r ≡ false) × (0 < w))
    → (v ≡ 0) × (w ≡ 0)
both_zero l r e (inl a) (inl b) = (a.1, b.1)
both_zero l r e (inl a) (inr b) = absurd (ground arith)
both_zero l r e (inr a) b = absurd (ground arith)

-- The tests of Compare before the digits, on the signs `s` and `t` and the values `v` and `w`
signs-Ordered :
    (e s t : Bool) (o : Ordering) (v w : ℕ)
    → (e ≡ true → (v ≡ 0) × (w ≡ 0))
    → (e ≡ false → 0 < v + w)
    → Ordered o (part s v + part (not s) w) (part s w + part (not s) v)
    → Ordered
        (if e
          then Ordering.eq
          else if s && not t
          then Ordering.gt
          else if not s && t
          then Ordering.lt
          else o)
        (part s v + part (not t) w)
        (part t w + part (not s) v)
signs-Ordered true true true o v w z p h = let b = z refl in omega arith
signs-Ordered true true false o v w z p h = let b = z refl in omega arith
signs-Ordered true false true o v w z p h = let b = z refl in omega arith
signs-Ordered true false false o v w z p h = let b = z refl in omega arith
signs-Ordered false true true o v w z p h = h
signs-Ordered false true false o v w z p h = let b = p refl in omega arith
signs-Ordered false false true o v w z p h = let b = p refl in omega arith
signs-Ordered false false false o v w z p h = h

-- Compare of two well-formed numbers, whose bases are 2 or more and fit in 32 bits, whose digits are
-- below the base and whose highest digit is 0 only if it is the only one, says -1, 0 or 1 as what the
-- first stands for is less than, equal to or more than what the second does, in whatever bases they
-- stand.
pub compare_nums_lem :
    (l value : BigNum)
    → WellFormed l
    → WellFormed value
    → Ordered (compare_nums l value) (above l + below value) (above value + below l)
unfolding compare_nums
compare_nums_lem l value wl wv =
    let (canonical, sign, same) = common_lem l value wl wv in
    let (two, small, v, t) = wl in
    let xs = l.content in
    let s = l.symbol in
    let o = compare_in s xs (common l value).content in
    let digits : Ordered o (part s (val l.base xs) + part (not s) (val value.base value.content))
        (part s (val value.base value.content) + part (not s) (val l.base xs)) =
      subst
        (λ w.
          Ordered o (part s (val l.base xs) + part (not s) w)
            (part s w + part (not s) (val l.base xs)))
        same
        (compare_in-Ordered l.base s xs (common l value).content (omega arith) (v, t) canonical) in
    let zl = is_empty-cases l wl in
    let zv = is_empty-cases value wv in
    signs-Ordered (is_empty l && is_empty value) s value.symbol o _ _
      (λ e. both_zero (is_empty l) (is_empty value) e zl zv)
      (λ e. apart (is_empty l) (is_empty value) e zl zv) digits
