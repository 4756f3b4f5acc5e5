-- ===== src/Math/BigNum/Product.antt =====
-- operator*: the loops add up the product of what the operands stand for.
use native.Mathlib.Nat.{mul-add, add-mul, mul_assoc, mul_comm, pow-suc, pow-zero, mul-le-mul}
use ytlib.Base.{
  ℕ, suc, ◌+◌, ◌-◌, ◌*◌, ◌^◌, ◌≤◌, ◌<◌, ◌≡◌, refl, ap, sym, subst, ◌∙◌, true, false, not, List, [],
  ◌∷◌, arith, ◌==◌, if◌then◌else◌, Bool-cases, inl, inr,
}
use ytlib.Math.BigNum.{BigNum, val, assign_u64, from_int, add, mul_row, mul_rows, mul, differs}
use ytlib.Math.BigNum.Digits.{Valid}
use ytlib.Math.BigNum.Sum.{Canonical, WellFormed, val-trim_zeros}
use ytlib.Math.BigNum.Signed.{common, common_lem}
use ytlib.Math.BigNum.Form.{Counts, add-Counts, assign_u64_lem, from_int_zero}

-- The product of two digits, at its place
assign-Counts :
    (base x y k : ℕ)
    → 2 ≤ base
    → base < 2 ^ 32
    → 0 < x
    → 0 < y
    → x < base
    → y < base
    → Counts base (base ^ k * (x * y)) (assign_u64 (x * y) true base k)
assign-Counts base x y k two small px py hx hy =
    let more : 1 * 1 ≤ x * y = mul-le-mul {n₁ = 1} {m₁ = 1} {n₂ = x} {m₂ = y} px py in
    let bound : x * y ≤ (2 ^ 32 - 1) * (2 ^ 32 - 1) =
      mul-le-mul {n₁ = x} {m₁ = y} {n₂ = 2 ^ 32 - 1} {m₂ = 2 ^ 32 - 1} (omega arith)
        (omega arith) in
    let ((_, _, v, t), base', sign, value) =
      assign_u64_lem (x * y) true base k (omega arith) (omega arith) two small in
    let n = assign_u64 (x * y) true base k in
    (
      base',
      sign,
      subst (λ b. Canonical b n.content) base' (v, t),
      ap (λ b. val b n.content) (sym base') ∙ value,
    )

row_step :
    (p base x y v w p' : ℕ)
    → p' ≡ p * base
    → (v + p * (x * y)) + p' * (x * w) ≡ v + p * (x * (y + base * w))
row_step p base x y v w p' e =
    ap (λ k. v + p * (x * y) + k * (x * w)) e
    ∙ ap (λ k. v + p * (x * y) + k)
        (mul_assoc p base (x * w)
          ∙ ap (λ k. p * k)
              (sym (mul_assoc base x w) ∙ ap (λ k. k * w) (mul_comm base x) ∙ mul_assoc x base w))
    ∙ omega (arith, mul-add x y (base * w), mul-add p (x * y) (x * (base * w)))

plus_nothing : (v p x y : ℕ) → y ≡ 0 → v ≡ v + p * (x * y)
plus_nothing v p x y e =
    let z : v ≡ v + p * (x * 0) = omega arith in z ∙ ap (λ k. v + p * (x * k)) (sym e)

mul_row-Counts :
    (base x i : ℕ) (ys : List ℕ) (j v : ℕ) (re : BigNum)
    → 2 ≤ base
    → base < 2 ^ 32
    → 0 < x
    → x < base
    → Valid base ys
    → Counts base v re
    → Counts base (v + base ^ (i + j) * (x * val base ys)) (mul_row base x i ys j re)
unfolding mul_row
mul_row-Counts base x i [] j v re two small px hx w c =
    subst (λ k. Counts base k re) (plus_nothing v (base ^ (i + j)) x 0 refl) c
mul_row-Counts base x i (y ∷ ys) j v re two small px hx w c =
    let p' : base ^ (i + (j + 1)) ≡ base ^ (i + j) * base =
      ap (λ k. base ^ k) {x = i + (j + 1)} {y = suc (i + j)} (omega arith) ∙ pow-suc base (i + j) in
    let next = if y == 0 then re else add re (assign_u64 (x * y) true base (i + j)) in
    let c' : Counts base (v + base ^ (i + j) * (x * y)) next = elim (Bool-cases (y == 0)) [
      | inl z ↦
          let e : y ≡ 0 = ground arith in
          rw z (subst (λ k. Counts base k re) (plus_nothing v (base ^ (i + j)) x y e) c)
      | inr nz ↦ rw nz (
          add-Counts base v (base ^ (i + j) * (x * y)) re _ two small c
            (assign-Counts base x y (i + j) two small px (ground arith) hx w.0))
    ] in
    subst (λ k. Counts base k (mul_row base x i ys (j + 1) next))
      (row_step (base ^ (i + j)) base x y v (val base ys) (base ^ (i + (j + 1))) p')
      (mul_row-Counts base x i ys (j + 1) (v + base ^ (i + j) * (x * y)) next two small px hx w.1
        c')

rows_step :
    (p base x v w u p' : ℕ)
    → p' ≡ p * base
    → (v + p * (x * w)) + p' * (u * w) ≡ v + p * ((x + base * u) * w)
rows_step p base x v w u p' e =
    ap (λ k. v + p * (x * w) + k * (u * w)) e
    ∙ ap (λ k. v + p * (x * w) + k)
        (mul_assoc p base (u * w) ∙ ap (λ k. p * k) (sym (mul_assoc base u w)))
    ∙ omega (arith, mul-add p (x * w) (base * u * w))
    ∙ ap (λ k. v + p * k) (sym (add-mul x (base * u) w))

mul_rows-Counts :
    (base : ℕ) (xs : List ℕ) (i : ℕ) (ys : List ℕ) (v : ℕ) (re : BigNum)
    → 2 ≤ base
    → base < 2 ^ 32
    → Valid base xs
    → Valid base ys
    → Counts base v re
    → Counts base (v + base ^ i * (val base xs * val base ys)) (mul_rows base xs i ys re)
unfolding mul_rows
mul_rows-Counts base [] i ys v re two small h w c =
    let z : v ≡ v + base ^ i * (0 * val base ys) = omega arith in subst (λ k. Counts base k re) z c
mul_rows-Counts base (x ∷ xs) i ys v re two small h w c =
    let p' : base ^ (i + 1) ≡ base ^ i * base =
      ap (λ k. base ^ k) {x = i + 1} {y = suc i} (omega arith) ∙ pow-suc base i in
    let next = if x == 0 then re else mul_row base x i ys 0 re in
    let sum = v + base ^ i * (x * val base ys) in
    let c' : Counts base sum next = elim (Bool-cases (x == 0)) [
      | inl z ↦
          let e : x ≡ 0 = ground arith in
          let nothing : v ≡ v + base ^ i * (0 * val base ys) = omega arith in
          rw z (
            subst (λ k. Counts base k re)
              (nothing ∙ ap (λ k. v + base ^ i * (k * val base ys)) (sym e)) c)
      | inr nz ↦ rw nz (
          subst (λ k. Counts base (v + base ^ k * (x * val base ys)) (mul_row base x i ys 0 re))
            {x = i + 0} {y = i} (omega arith)
            (mul_row-Counts base x i ys 0 v re two small (ground arith) h.0 w c))
    ] in
    subst (λ k. Counts base k (mul_rows base xs (i + 1) ys next))
      (rows_step (base ^ i) base x v (val base ys) (val base xs) (base ^ (i + 1)) p')
      (mul_rows-Counts base xs (i + 1) ys sum next two small h.1 w c')

one_times : (v base : ℕ) → 0 + base ^ 0 * v ≡ v
one_times v base = ap (λ k. 0 + k * v) (pow-zero base) ∙ omega arith

-- operator* multiplies two well-formed numbers, whose bases are 2 or more and fit in 32 bits, whose
-- digits are below the base and whose highest digit is 0 only if it is the only one: the product stands
-- for the product of what the operands stand for, in whatever bases these stand, and it is negative if
-- just one of them is.
pub mul_lem :
    (a value : BigNum)
    → WellFormed a
    → WellFormed value
    → (val (mul a value).base (mul a value).content
        ≡ val a.base a.content * val value.base value.content)
      × ((mul a value).symbol ≡ not (differs a.symbol value.symbol))
unfolding mul
mul_lem a value wa wv =
    let (canonical, sign, same) = common_lem a value wa wv in
    let (two, small, v, t) = wa in
    let b = common a value in
    let ((_, _, v0, t0), base0, sign0, value0) = from_int_zero false a.base 0 two small in
    let zero_num = from_int false 0 a.base 0 in
    let start : Counts a.base 0 zero_num = (
      base0,
      sign0,
      subst (λ k. Canonical k zero_num.content) base0 (v0, t0),
      ap (λ k. val k zero_num.content) (sym base0) ∙ value0 ∙ omega arith,
    ) in
    let (base', sign', c, total) =
      mul_rows-Counts a.base a.content 0 b.content 0 zero_num two small v canonical.0 start in
    let re = mul_rows a.base a.content 0 b.content zero_num in
    (
      val-trim_zeros re.base re.content
          ∙ ap (λ k. val k re.content) base'
          ∙ total
          ∙ one_times (val a.base a.content * val a.base b.content) a.base
          ∙ ap (λ k. val a.base a.content * k) same,
      ap (λ k. not (differs a.symbol k)) sign,
    )
