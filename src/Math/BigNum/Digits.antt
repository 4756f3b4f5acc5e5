-- ===== src/Math/BigNum/Digits.antt =====
-- What the digits stand for, and that the loops of operator+ and of ReBase keep it.
use native.Mathlib.Nat.{mul-add, mul-le-mul_left}
use ytlib.Base.{
  ℕ, zero, suc, ◌+◌, ◌*◌, ◌^◌, ◌≤◌, ◌<◌, ◌≡◌, ap, ◌∙◌, ◌&&◌, ◌||◌, List, [], ◌∷◌, arith, ltb, leb,
  ◌==◌, length, All, Bool-cases, inl, inr, dec_lt,
}
use ytlib.Math.BigNum.{add32, sub32, val, add_rest, add_digits, sub_rest, sub_digits}

-- Digits of the base
abbrev pub Valid : ℕ → List ℕ → Type 0
Valid base ds = All (λ d. d < base) ds

val-add_rest :
    (base carry : ℕ) (xs : List ℕ)
    → 2 ≤ base
    → base < 2 ^ 32
    → carry ≤ 1
    → Valid base xs
    → val base (add_rest base carry xs) ≡ carry + val base xs
unfolding add_rest
val-add_rest base carry [] two b c v = omega arith
val-add_rest base carry (x ∷ xs) two b c v = elim (Bool-cases (add32 carry x == base)) [
  | inl over ↦
      let ih = val-add_rest base 1 xs two b (omega arith) v.1 in
      rw (over, add_rest) (rw ih (ground arith))
  | inr fits ↦
      let ih = val-add_rest base 0 xs two b (omega arith) v.1 in
      rw (fits, add_rest) (rw ih (ground arith))
]

pub val-add_digits :
    (base carry : ℕ) (xs ys : List ℕ)
    → 2 ≤ base
    → base < 2 ^ 32
    → carry ≤ 1
    → Valid base xs
    → Valid base ys
    → length ys ≤ length xs
    → val base (add_digits base carry xs ys) ≡ carry + val base xs + val base ys
unfolding add_digits
val-add_digits base carry xs [] two b c v w le = val-add_rest base carry xs two b c v ∙ omega arith
val-add_digits base carry [] (y ∷ ys) two b c v w le = absurd (omega arith)
val-add_digits base carry (x ∷ xs) (y ∷ ys) two b c v w le =
    let sum = add32 carry (add32 x y) in
    elim (Bool-cases (leb base sum || ltb sum x)) [
      | inl over ↦
          let ih = val-add_digits base 1 xs ys two b (omega arith) v.1 w.1 (omega arith) in
          rw (over, add_digits) (rw ih (ground arith))
      | inr fits ↦
          let ih = val-add_digits base 0 xs ys two b (omega arith) v.1 w.1 (omega arith) in
          rw (fits, add_digits) (rw ih (ground arith))
    ]

pos_of_mul : (b v : ℕ) → 0 < b * v → 0 < v
pos_of_mul b zero h = absurd (omega arith)
pos_of_mul b (suc v) h = omega arith

pub lt_of_mul : (b v w : ℕ) → b * v < b * w → v < w
lt_of_mul b v w h = elim (dec_lt v w) [
  | yes lt ↦ lt
  | no ge ↦ absurd (omega (arith, mul-le-mul_left {m = w} {n = v} b (omega arith)))
]

val-sub_rest :
    (base flag : ℕ) (xs : List ℕ)
    → 2 ≤ base
    → base < 2 ^ 32
    → flag ≤ 1
    → Valid base xs
    → flag ≤ val base xs
    → val base (sub_rest base flag xs) + flag ≡ val base xs
unfolding sub_rest
val-sub_rest base flag [] two b f v le = omega arith
val-sub_rest base flag (x ∷ xs) two b f v le = elim (Bool-cases (flag == 1 && x == 0)) [
  | inl borrow ↦
      let rest : 0 < val base xs = pos_of_mul base (val base xs) (ground arith) in
      let ih = val-sub_rest base 1 xs two b (omega arith) v.1 rest in
      let m = ap (λ k. base * k) ih in rw (borrow, sub_rest) (ground arith)
  | inr enough ↦
      let ih = val-sub_rest base 0 xs two b (omega arith) v.1 (omega arith) in
      let m = ap (λ k. base * k) ih in rw (enough, sub_rest) (ground arith)
]

pub val-sub_digits :
    (base flag : ℕ) (xs ys : List ℕ)
    → 2 ≤ base
    → base < 2 ^ 32
    → flag ≤ 1
    → Valid base xs
    → Valid base ys
    → length ys ≤ length xs
    → flag + val base ys ≤ val base xs
    → val base (sub_digits base flag xs ys) + flag + val base ys ≡ val base xs
unfolding sub_digits
val-sub_digits base flag xs [] two b f v w len le =
    omega (arith, val-sub_rest base flag xs two b f v (omega arith))
val-sub_digits base flag [] (y ∷ ys) two b f v w len le = absurd (omega arith)
val-sub_digits base flag (x ∷ xs) (y ∷ ys) two b f v w len le =
    elim (Bool-cases (flag == 1 && x == 0)) [
      | inl from_zero ↦
          let more : val base ys < val base xs =
            lt_of_mul base (val base ys) (val base xs) (ground arith) in
          let ih =
            val-sub_digits base 1 xs ys two b (omega arith) v.1 w.1 (omega arith) (omega arith) in
          let m = ap (λ k. base * k) ih in rw (from_zero, sub_digits) (ground arith)
      | inr other ↦ elim (Bool-cases (ltb (sub32 x flag) y)) [
        | inl short ↦
            let more : val base ys < val base xs =
              lt_of_mul base (val base ys) (val base xs) (ground arith) in
            let ih =
              val-sub_digits base 1 xs ys two b (omega arith) v.1 w.1 (omega arith) (omega arith) in
            let m = ap (λ k. base * k) ih in rw (other, short, sub_digits) (ground arith)
        | inr enough ↦
            let no_less : val base ys < val base xs + 1 =
              lt_of_mul base (val base ys) (val base xs + 1)
                (ground (arith, mul-add base (val base xs) 1)) in
            let ih =
              val-sub_digits base 0 xs ys two b (omega arith) v.1 w.1 (omega arith) (omega arith) in
            let m = ap (λ k. base * k) ih in rw (other, enough, sub_digits) (ground arith)
      ]
    ]
