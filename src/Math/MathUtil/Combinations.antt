-- ===== src/Math/MathUtil/Combinations.antt =====
-- Crn against the triangle of Pascal.
use native.Mathlib.Nat.{add-mul, mul-le-mul_left, mul-div_cancel, eq_of_mul-eq-mul_right}
use ytlib.Base.{
  ℕ, zero, suc, ◌+◌, ◌-◌, ◌*◌, ◌/◌, ◌%◌, ◌^◌, ◌≤◌, ◌<◌, ◌≡◌, refl, ap, ap₂, sym, subst, ◌∙◌, false,
  Bool-cases, ltb, ◌==◌, inl, inr, arith,
}
use ytlib.Math.MathUtil.{mul, crn_of, crn}
use ytlib.Math.MathUtil.Arrangements.{fact, lt-zero-fact, le_fact, fact-le, mul_lem}

-- The ways to take `a` of `a + b` elements
pub choose : ℕ → ℕ → ℕ
choose zero b = 1
choose (suc a) zero = 1
choose (suc a) (suc b) = choose a (suc b) + choose (suc a) b

pull_left : (c a f g : ℕ) → c * (a * f * g) ≡ a * (c * (f * g))
pull_left c a f g = grind arith

pull_right : (c a f g : ℕ) → c * (f * (a * g)) ≡ a * (c * (f * g))
pull_right c a f g = grind arith

swap_factors : (c f g : ℕ) → c * (f * g) ≡ c * g * f
swap_factors c f g = grind arith

pub choose_lem : (a b : ℕ) → choose a b * (fact a * fact b) ≡ fact (a + b)
unfolding choose fact
choose_lem zero b = let e : 0 + b ≡ b = omega arith in rw e (omega arith)
choose_lem (suc a) zero = let e : suc a + 0 ≡ suc a = omega arith in rw e (omega arith)
choose_lem (suc a) (suc b) =
    let left = choose_lem a (suc b) in
    let right = choose_lem (suc a) b in
    let e : a + suc b ≡ suc (a + b) = omega arith in
    let e' : suc a + b ≡ suc (a + b) = omega arith in
    let left' : choose a (suc b) * (suc a * fact a * fact (suc b)) ≡ suc a * fact (suc (a + b)) =
      pull_left (choose a (suc b)) (suc a) (fact a) (fact (suc b))
      ∙ ap (λ x. suc a * x) (left ∙ ap fact e) in
    let right' : choose (suc a) b * (fact (suc a) * (suc b * fact b)) ≡ suc b * fact (suc (a + b)) =
      pull_right (choose (suc a) b) (suc b) (fact (suc a)) (fact b)
      ∙ ap (λ x. suc b * x) (right ∙ ap fact e') in
    let all : suc a + suc b ≡ suc (suc (a + b)) = omega arith in
    add-mul (choose a (suc b)) (choose (suc a) b) (fact (suc a) * fact (suc b))
    ∙ ap₂ (λ x y. x + y) left' right'
    ∙ sym (add-mul (suc a) (suc b) (fact (suc (a + b))))
    ∙ ap (λ n. n * fact (suc (a + b))) all
    ∙ ap fact (sym all)

mul_one : (k : ℕ) → 0 < k → fact k < 2 ^ 64 → mul k 1 ≡ fact k
unfolding fact
mul_one k pos fits = let run = mul_lem k 0 pos fits in omega arith

-- The quotient that `Crn` takes, with `k` elements out of `k + j`
quotient_lem :
    (k j : ℕ) → 0 < j → fact (k + j) < 2 ^ 64 → mul (k + j) (suc k) / mul j 1 ≡ choose k j
quotient_lem k j pos fits =
    let mono = fact-le j (k + j) (omega arith) in
    let run : mul (k + j) (suc k) * fact k ≡ fact (k + j) = mul_lem (k + j) k (omega arith) fits in
    let all = choose_lem k j in
    let same : mul (k + j) (suc k) ≡ choose k j * fact j =
      eq_of_mul-eq-mul_right (fact k) (lt-zero-fact k) (mul (k + j) (suc k)) (choose k j * fact j)
        (run ∙ sym all ∙ swap_factors (choose k j) (fact k) (fact j)) in
    rw (same, mul_one j pos (omega arith)) (mul-div_cancel (choose k j) (lt-zero-fact j))

pub choose_comm : (a b : ℕ) → choose a b ≡ choose b a
unfolding choose
choose_comm zero zero = refl
choose_comm zero (suc b) = refl
choose_comm (suc a) zero = refl
choose_comm (suc a) (suc b) =
    let left = choose_comm a (suc b) in let right = choose_comm (suc a) b in omega arith

pub twice-fits : (n : ℕ) → fact n < 2 ^ 64 → 2 * n < 2 ^ 64
unfolding fact
twice-fits zero fits = omega arith
twice-fits (suc zero) fits = omega arith
twice-fits (suc (suc zero)) fits = omega arith
twice-fits (suc (suc (suc k))) fits =
    let two : 2 ≤ fact (suc (suc k)) = let le = le_fact (suc (suc k)) in omega arith in
    let le : suc (suc (suc k)) * 2 ≤ suc (suc (suc k)) * fact (suc (suc k)) =
      mul-le-mul_left (suc (suc (suc k))) two in
    omega arith

crn_of_lem : (n m : ℕ) → 0 < m → m ≤ n → fact n < 2 ^ 64 → crn_of n m ≡ choose m (n - m)
unfolding crn_of choose
crn_of_lem n m pos h fits =
    let small : n < 2 ^ 64 = let le = le_fact n in omega arith in
    elim (Bool-cases (n == m)) [
      | inl t ↦ let e : n - m ≡ 0 = ground arith in rw (t, e) (choose_comm 0 m)
      | inr f ↦
          let lt : m < n = ground arith in
          let e : (m + 1) % 2 ^ 64 ≡ suc m = omega arith in
          let parts : n ≡ m + (n - m) = omega arith in
          rw (f, e)
            (ap (λ x. mul x (suc m) / mul (n - m) 1) parts
              ∙ quotient_lem m (n - m) (omega arith) (subst (λ x. fact x < 2 ^ 64) parts fits))
    ]

-- Crn(n, m) is the number of Pascal's triangle, the ways to take m of n elements, for 0 < m <= n and
-- a factorial of n that fits in 64 bits.
pub crn_lem : (n m : ℕ) → 0 < m → m ≤ n → fact n < 2 ^ 64 → crn n m ≡ choose m (n - m)
unfolding crn
crn_lem n m pos h fits =
    let low : ltb n m ≡ false = ground arith in
    let nonzero : m == 0 ≡ false = ground arith in
    let twice : 2 * m % 2 ^ 64 ≡ 2 * m = let doubled = twice-fits n fits in omega arith in
    elim (Bool-cases (ltb (2 * m) n)) [
      | inl t ↦
          let back : n - (n - m) ≡ m = omega arith in
          rw (low, nonzero, twice, t)
            (crn_of_lem n (n - m) (ground arith) (omega arith) fits
              ∙ ap (choose (n - m)) back
              ∙ choose_comm (n - m) m)
      | inr f ↦ rw (low, nonzero, twice, f) (crn_of_lem n m pos h fits)
    ]
