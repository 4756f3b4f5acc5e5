-- ===== src/Math/MathUtil/Arrangements.antt =====
-- Mul, Arn and ArnRec against factorials, as long as these fit in 64 bits.
use native.Mathlib.Nat.{
  mul_assoc, mul_comm, mul-le-mul_left, mod-eq_of_lt, mul-div_cancel, eq_of_mul-eq-mul_right,
}
use ytlib.Base.{
  ℕ, zero, suc, ◌+◌, ◌-◌, ◌*◌, ◌%◌, ◌^◌, ◌≤◌, ◌<◌, ◌≡◌, refl, ap, sym, subst, ◌∙◌, false,
  Bool-cases, ltb, leb, ◌==◌, inl, inr, arith,
}
use ytlib.Math.MathUtil.{sub_u64, mul_loop, mul, arn, arn_rec}

unfoldable pub fact : ℕ → ℕ
fact zero = 1
fact (suc n) = suc n * fact n

pub lt-zero-fact : (n : ℕ) → 0 < fact n
unfolding fact
lt-zero-fact zero = omega arith
lt-zero-fact (suc n) =
    let ih = lt-zero-fact n in
    let le : suc n * 1 ≤ suc n * fact n = mul-le-mul_left (suc n) ih in omega arith

mul_loop_lem :
    (n m re : ℕ) → m ≤ n → re * fact n < 2 ^ 64 → mul_loop (suc n) (suc m) re * fact m ≡ re * fact n
unfolding mul_loop fact
mul_loop_lem zero m re h fits = let e : m ≡ 0 = omega arith in rw e refl
mul_loop_lem (suc k) m re h fits = elim (Bool-cases (leb (suc m) (suc k))) [
  | inl t ↦
      let next : re * suc k * fact k ≡ re * (suc k * fact k) = mul_assoc re (suc k) (fact k) in
      let below : re * suc k * fact k < 2 ^ 64 = subst (λ x. x < 2 ^ 64) (sym next) fits in
      let le : re * suc k * 1 ≤ re * suc k * fact k =
        mul-le-mul_left (re * suc k) (lt-zero-fact k) in
      let small : re * suc k % 2 ^ 64 ≡ re * suc k = mod-eq_of_lt (omega arith) in
      rw (t, small) (mul_loop_lem k m (re * suc k) (ground arith) below ∙ next)
  | inr f ↦ let e : m ≡ suc k = ground arith in rw (f, e) refl
]

pub mul_lem : (n m : ℕ) → m < n → fact n < 2 ^ 64 → mul n (suc m) * fact m ≡ fact n
unfolding mul fact
mul_lem zero m h fits = absurd (omega arith)
mul_lem (suc n) m h fits =
    let big : ltb (suc n) (suc m) ≡ false = ground arith in
    let nonzero : suc m == 0 ≡ false = ground arith in
    rw (big, nonzero) (mul_loop_lem n m (suc n) (omega arith) fits)

pub le_fact : (n : ℕ) → n ≤ fact n
unfolding fact
le_fact zero = omega arith
le_fact (suc n) =
    let le : suc n * 1 ≤ suc n * fact n = mul-le-mul_left (suc n) (lt-zero-fact n) in omega arith

sub_u64_lem : (n m : ℕ) → m ≤ n → n < 2 ^ 64 → sub_u64 n m ≡ n - m
unfolding sub_u64
sub_u64_lem n m h fits = omega arith

pub down_to : (n m : ℕ) → 0 < m → m ≤ n → n < 2 ^ 64 → (sub_u64 n m + 1) % 2 ^ 64 ≡ suc (n - m)
down_to n m pos h fits = let e : sub_u64 n m ≡ n - m = sub_u64_lem n m h fits in rw e (omega arith)

-- Arn(n, m) times the factorial of n - m is the factorial of n, for 0 < m <= n and a factorial of n
-- that fits in 64 bits.
pub arn_lem : (n m : ℕ) → 0 < m → m ≤ n → fact n < 2 ^ 64 → arn n m * fact (n - m) ≡ fact n
unfolding arn
arn_lem n m pos h fits =
    let e : (sub_u64 n m + 1) % 2 ^ 64 ≡ suc (n - m) =
      let le = le_fact n in down_to n m pos h (omega arith) in
    rw e (mul_lem n (n - m) (omega arith) fits)

pub fact-le : (a b : ℕ) → a ≤ b → fact a ≤ fact b
unfolding fact
fact-le a zero h = let e : a ≡ 0 = omega arith in rw e (omega arith)
fact-le a (suc b) h = elim (Bool-cases (leb (suc b) a)) [
  | inl t ↦ let e : a ≡ suc b = ground arith in rw e (omega arith)
  | inr f ↦
      let ih = fact-le a b (ground arith) in
      let more : fact b * 1 ≤ fact b * suc b = mul-le-mul_left (fact b) (omega arith) in
      let swap : fact b * suc b ≡ suc b * fact b = mul_comm (fact b) (suc b) in omega arith
]

-- The product that leads from the arrangements of `p` to those of `q`
module _ (n p q : ℕ) (pos : 0 < p) (lt : p < q) (le : q ≤ n) (fits : fact n < 2 ^ 64) where
  between : ℕ
  between = mul (n - p) (suc (n - q))

  between_lem : between * fact (n - q) ≡ fact (n - p)
  unfolding between
  between_lem =
      let mono = fact-le (n - p) n (omega arith) in
      mul_lem (n - p) (n - q) (omega arith) (omega arith)

  lt-zero-between : 0 < between
  lt-zero-between = elim (Bool-cases (between == 0)) [
    | inl t ↦
        let z : between ≡ 0 = ground arith in
        let none_left : 0 * fact (n - q) ≡ fact (n - p) =
          subst (λ x. x * fact (n - q) ≡ fact (n - p)) z between_lem in
        let some_left = lt-zero-fact (n - p) in absurd (omega arith)
    | inr f ↦ ground arith
  ]

  arn-between : arn n p * between ≡ arn n q
  arn-between =
      eq_of_mul-eq-mul_right (fact (n - q)) (lt-zero-fact (n - q)) (arn n p * between) (arn n q) (
        mul_assoc (arn n p) between (fact (n - q))
        ∙ ap (λ x. arn n p * x) between_lem
        ∙ arn_lem n p pos (omega arith) fits
        ∙ sym (arn_lem n q (omega arith) le fits))

le-arn : (n m : ℕ) → 0 < m → m ≤ n → fact n < 2 ^ 64 → arn n m < 2 ^ 64
le-arn n m pos h fits =
    let more : arn n m * 1 ≤ arn n m * fact (n - m) =
      mul-le-mul_left (arn n m) (lt-zero-fact (n - m)) in
    let all = arn_lem n m pos h fits in omega arith

-- ArnRec takes Arn(n, mr) to Arn(n, m), for m and mr from 1 to n and a factorial of n that fits in
-- 64 bits.
pub arn_rec_lem :
    (n m mr : ℕ)
    → 0 < m
    → m ≤ n
    → 0 < mr
    → mr ≤ n
    → fact n < 2 ^ 64
    → arn_rec n m (arn n mr) mr ≡ arn n m
unfolding arn_rec between
arn_rec_lem n m mr pos h pos' h' fits =
    let small : n < 2 ^ 64 = let le = le_fact n in omega arith in
    let low : ltb n m ≡ false = ground arith in
    let nonzero : m == 0 ≡ false = ground arith in
    let low' : ltb n mr ≡ false = ground arith in
    let nonzero' : mr == 0 ≡ false = ground arith in
    let d = down_to n m pos h small in
    let d' = down_to n mr pos' h' small in
    let s = sub_u64_lem n m h small in
    let s' = sub_u64_lem n mr h' small in
    elim (Bool-cases (ltb m mr)) [
      | inl t ↦
          rw
            (
              low,
              nonzero,
              low',
              nonzero',
              t,
              d',
              s,
              sym (arn-between n m mr pos (ground arith) h' fits),
            )
            (mul-div_cancel (arn n m) (lt-zero-between n m mr pos (ground arith) h' fits))
      | inr f ↦ elim (Bool-cases (ltb mr m)) [
        | inl t ↦
            rw
              (
                low,
                nonzero,
                low',
                nonzero',
                f,
                t,
                d,
                s',
                arn-between n mr m pos' (ground arith) h fits,
              )
              (mod-eq_of_lt (le-arn n m pos h fits))
        | inr g ↦
            let e : mr ≡ m = ground arith in rw (low, nonzero, low', nonzero', f, g) (ap (arn n) e)
      ]
    ]
