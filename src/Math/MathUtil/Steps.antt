-- ===== src/Math/MathUtil/Steps.antt =====
-- CrnRec against Crn: the products that lead from C(n, mr) to C(n, m).
use native.Mathlib.Nat.{mul-le-mul_left, mul-div_cancel, mod-eq_of_lt, eq_of_mul-eq-mul_right}
use ytlib.Base.{
  ℕ, zero, suc, ◌+◌, ◌-◌, ◌*◌, ◌/◌, ◌%◌, ◌^◌, ◌≤◌, ◌<◌, ◌≡◌, ap, sym, subst, ◌∙◌, false, Bool-cases,
  ltb, ◌==◌, inl, inr, arith,
}
use ytlib.Math.MathUtil.{mul, crn, crn_rec_of, crn_rec}
use ytlib.Math.MathUtil.Arrangements.{fact, lt-zero-fact, le_fact, fact-le, mul_lem, down_to}
use ytlib.Math.MathUtil.Combinations.{choose, choose_lem, choose_comm, twice-fits, crn_lem}

swap_last : (c y f g : ℕ) → c * y * (f * g) ≡ c * (f * (y * g))
swap_last c y f g = grind arith

swap_first : (c x f g : ℕ) → c * x * (f * g) ≡ c * (x * f * g)
swap_first c x f g = grind arith

lt-zero-factor : (x f : ℕ) → 0 < x * f → 0 < x
lt-zero-factor zero f h = absurd (omega arith)
lt-zero-factor (suc x) f h = omega arith

module _ (n p q : ℕ) (lt : p < q) (le : q ≤ n) (fits : fact n < 2 ^ 64) where
  low : ℕ
  low = mul q (suc p)

  high : ℕ
  high = mul (n - p) (suc (n - q))

  low_lem : low * fact p ≡ fact q
  unfolding low
  low_lem = let mono = fact-le q n le in mul_lem q p lt (omega arith)

  high_lem : high * fact (n - q) ≡ fact (n - p)
  unfolding high
  high_lem =
      let mono = fact-le (n - p) n (omega arith) in
      mul_lem (n - p) (n - q) (omega arith) (omega arith)

  lt-zero-low : 0 < low
  lt-zero-low = lt-zero-factor low (fact p) (subst (λ x. 0 < x) (sym low_lem) (lt-zero-fact q))

  lt-zero-high : 0 < high
  lt-zero-high =
      lt-zero-factor high (fact (n - q)) (subst (λ x. 0 < x) (sym high_lem) (lt-zero-fact (n - p)))

  up_all : choose p (n - p) * high * (fact p * fact (n - q)) ≡ fact n
  up_all =
      let parts : p + (n - p) ≡ n = omega arith in
      swap_last (choose p (n - p)) high (fact p) (fact (n - q))
      ∙ ap (λ x. choose p (n - p) * (fact p * x)) high_lem
      ∙ choose_lem p (n - p)
      ∙ ap fact parts

  down_all : choose q (n - q) * low * (fact p * fact (n - q)) ≡ fact n
  down_all =
      let parts : q + (n - q) ≡ n = omega arith in
      swap_first (choose q (n - q)) low (fact p) (fact (n - q))
      ∙ ap (λ x. choose q (n - q) * (x * fact (n - q))) low_lem
      ∙ choose_lem q (n - q)
      ∙ ap fact parts

  lt-zero-rest : 0 < fact p * fact (n - q)
  lt-zero-rest =
      let more : fact p * 1 ≤ fact p * fact (n - q) =
        mul-le-mul_left (fact p) (lt-zero-fact (n - q)) in
      let pos = lt-zero-fact p in omega arith

  same_product : choose p (n - p) * high ≡ choose q (n - q) * low
  same_product =
      eq_of_mul-eq-mul_right (fact p * fact (n - q)) lt-zero-rest (choose p (n - p) * high)
        (choose q (n - q) * low) (up_all ∙ sym down_all)

  product_fits : choose q (n - q) * low < 2 ^ 64
  product_fits =
      let more : choose q (n - q) * low * 1 ≤ choose q (n - q) * low * (fact p * fact (n - q)) =
        mul-le-mul_left (choose q (n - q) * low) lt-zero-rest in
      let all = down_all in omega arith

  step_down : choose q (n - q) * low % 2 ^ 64 / high ≡ choose p (n - p)
  step_down =
      ap (λ x. x / high) (mod-eq_of_lt product_fits ∙ sym same_product)
      ∙ mul-div_cancel (choose p (n - p)) lt-zero-high

  step_up : choose p (n - p) * high % 2 ^ 64 / low ≡ choose q (n - q)
  step_up =
      ap (λ x. x % 2 ^ 64 / low) same_product
      ∙ ap (λ x. x / low) (mod-eq_of_lt product_fits)
      ∙ mul-div_cancel (choose q (n - q)) lt-zero-low

crn_rec_of_lem :
    (n m mr : ℕ)
    → 0 < m
    → m ≤ n
    → 0 < mr
    → mr ≤ n
    → fact n < 2 ^ 64
    → crn_rec_of n m (choose mr (n - mr)) mr ≡ choose m (n - m)
unfolding crn_rec_of low high
crn_rec_of_lem n m mr pos h pos' h' fits =
    let small : n < 2 ^ 64 = let le = le_fact n in omega arith in
    let d = down_to n m pos h small in
    let d' = down_to n mr pos' h' small in
    let e : (m + 1) % 2 ^ 64 ≡ suc m = let doubled = twice-fits n fits in omega arith in
    let e' : (mr + 1) % 2 ^ 64 ≡ suc mr = let doubled = twice-fits n fits in omega arith in
    elim (Bool-cases (ltb m mr)) [
      | inl t ↦ rw (t, d', e) (step_down n m mr (ground arith) h' fits)
      | inr f ↦ elim (Bool-cases (ltb mr m)) [
        | inl t ↦ rw (f, t, d, e') (step_up n mr m (ground arith) h fits)
        | inr g ↦ let same : mr ≡ m = ground arith in rw (f, g) (ap (λ x. choose x (n - x)) same)
      ]
    ]

-- CrnRec takes Crn(n, mr) to Crn(n, m), for m and mr from 1 to n and a factorial of n that fits in
-- 64 bits.
pub crn_rec_lem :
    (n m mr : ℕ)
    → 0 < m
    → m ≤ n
    → 0 < mr
    → mr ≤ n
    → fact n < 2 ^ 64
    → crn_rec n m (crn n mr) mr ≡ crn n m
unfolding crn_rec
crn_rec_lem n m mr pos h pos' h' fits =
    let low : ltb n m ≡ false = ground arith in
    let nonzero : m == 0 ≡ false = ground arith in
    let low' : ltb n mr ≡ false = ground arith in
    let nonzero' : mr == 0 ≡ false = ground arith in
    let twice : 2 * m % 2 ^ 64 ≡ 2 * m = let doubled = twice-fits n fits in omega arith in
    let c = crn_lem n mr pos' h' fits in
    let c' = crn_lem n m pos h fits in
    elim (Bool-cases (ltb (2 * m) n)) [
      | inl t ↦
          let back : n - (n - m) ≡ m = omega arith in
          rw (low, nonzero, low', nonzero', twice, t, c, c')
            (crn_rec_of_lem n (n - m) mr (ground arith) (omega arith) pos' h' fits
              ∙ ap (choose (n - m)) back
              ∙ choose_comm (n - m) m)
      | inr f ↦
          rw (low, nonzero, low', nonzero', twice, f, c, c')
            (crn_rec_of_lem n m mr pos h pos' h' fits)
    ]
