-- ===== src/Math/BigNum/Form.antt =====
-- The form of what AssignU64 and operator+ build, and what AssignU64's digits stand for.
use native.Mathlib.Nat.{
  mul-le-mul_left, mod-lt, mod-eq_of_lt, div-eq_of_lt, pow-zero, mul_assoc, pow-suc, pow-succ',
  div-add-mod', mul_comm, div-lt_iff_lt-mul,
}
use ytlib.Base.{
  Bool, not, ℕ, zero, suc, ◌+◌, ◌*◌, ◌/◌, ◌%◌, ◌^◌, ◌≤◌, ◌<◌, ◌≡◌, refl, ap, sym, ◌∙◌, Bool, true,
  false, ◌||◌, List, [], ◌∷◌, ◌++◌, arith, ltb, leb, ltb→lt, ◌==◌, length, replicate, Bool-cases,
  inl, inr,
}
use ytlib.Math.BigNum.{
  BigNum, val, add32, real_base, digits_of, assign_u64, from_int, trim_zeros, add_rest, add_digits,
  add_lists, add_in, add,
}
use ytlib.Math.BigNum.Digits.{Valid}
use ytlib.Math.BigNum.Sum.{Top, Canonical, WellFormed, val-add_lists}
use ytlib.Math.BigNum.Signed.{trim_zeros-Canonical}

-- The digits of a number below `2 ^ fuel`
val-digits_of :
    (fuel base num : ℕ)
    → 2 ≤ base
    → num < 2 ^ fuel
    → (val base (digits_of fuel base num) ≡ num) × Valid base (digits_of fuel base num)
unfolding digits_of
val-digits_of zero base num two lt = (omega arith, tt)
val-digits_of (suc fuel) base num two lt =
    let parts = div-add-mod' num base in
    let rem : num % base < base = mod-lt num (omega arith) in
    elim (Bool-cases (num / base == 0)) [
      | inl done ↦
          let z : num / base * base ≡ 0 = ap (λ q. q * base) {y = 0} (ground arith) ∙ omega arith in
          rw (done, digits_of) (omega arith, (rem, tt))
      | inr more ↦
          let room : 2 ^ fuel * 2 ≤ 2 ^ fuel * base =
            mul-le-mul_left {m = 2} {n = base} (2 ^ fuel) two in
          let less : num / base < 2 ^ fuel =
            (div-lt_iff_lt-mul {k = base} {x = num} {y = 2 ^ fuel} (omega arith)).1
              (omega (arith, pow-suc 2 fuel)) in
          let ih = val-digits_of fuel base (num / base) two less in
          rw (more, digits_of)
            (
              ap (λ v. num % base + base * v) ih.0 ∙ omega (arith, mul_comm base (num / base)),
              (rem, ih.1),
            )
    ]

Top-cons : (d : ℕ) (ds : List ℕ) → Top ds → Top (d ∷ ds)
Top-cons d [] t = absurd (omega arith)
Top-cons d (e ∷ ds) t = t

digits_of-Top :
    (fuel base num : ℕ) → 2 ≤ base → num < 2 ^ fuel → 0 < num → Top (digits_of fuel base num)
unfolding digits_of
digits_of-Top zero base num two lt pos = absurd (omega arith)
digits_of-Top (suc fuel) base num two lt pos =
    let parts = div-add-mod' num base in
    elim (Bool-cases (num / base == 0)) [
      | inl done ↦
          let z : num / base * base ≡ 0 = ap (λ q. q * base) {y = 0} (ground arith) ∙ omega arith in
          rw (done, digits_of) (λ e. absurd (omega arith))
      | inr more ↦
          let room : 2 ^ fuel * 2 ≤ 2 ^ fuel * base =
            mul-le-mul_left {m = 2} {n = base} (2 ^ fuel) two in
          let less : num / base < 2 ^ fuel =
            (div-lt_iff_lt-mul {k = base} {x = num} {y = 2 ^ fuel} (omega arith)).1
              (omega (arith, pow-suc 2 fuel)) in
          rw (more, digits_of)
            (Top-cons (num % base) (digits_of fuel base (num / base))
              (digits_of-Top fuel base (num / base) two less (ground arith)))
    ]

val-shift :
    (base order : ℕ) (ds : List ℕ) → val base (replicate order 0 ++ ds) ≡ base ^ order * val base ds
val-shift base zero ds =
    let one : val base ds ≡ 1 * val base ds = omega arith in
    one ∙ ap (λ k. k * val base ds) (sym (pow-zero base))
val-shift base (suc order) ds =
    let z : (v : ℕ) → 0 + base * v ≡ base * v = λ v. omega arith in
    z (val base (replicate order 0 ++ ds))
    ∙ ap (λ v. base * v) (val-shift base order ds)
    ∙ sym (mul_assoc base (base ^ order) (val base ds))
    ∙ ap (λ k. k * val base ds) (sym (pow-succ' base order))

shift-Valid :
    (base order : ℕ) (ds : List ℕ) → 0 < base → Valid base ds → Valid base (replicate order 0 ++ ds)
shift-Valid base zero ds pos v = v
shift-Valid base (suc order) ds pos v = (pos, shift-Valid base order ds pos v)

shift-Top : (order : ℕ) (ds : List ℕ) → Top ds → Top (replicate order 0 ++ ds)
shift-Top zero ds t = t
shift-Top (suc order) ds t = Top-cons 0 (replicate order 0 ++ ds) (shift-Top order ds t)

digits_of_zero : (fuel base : ℕ) → 0 < base → digits_of (suc fuel) base 0 ≡ 0 ∷ []
unfolding digits_of
digits_of_zero fuel base pos =
    let quot : 0 / base ≡ 0 = div-eq_of_lt pos in
    let done : (0 / base == 0) ≡ true = ground arith in
    rw done (ap (λ d. d ∷ []) (mod-eq_of_lt pos))

-- The constructor from 0 builds the number whose only digit is 0.
pub from_int_zero :
    (negative : Bool) (base order : ℕ)
    → 2 ≤ base
    → base < 2 ^ 32
    → (let n = from_int negative 0 base order in
        WellFormed n × (n.base ≡ base) × (n.symbol ≡ not negative) × (val n.base n.content ≡ 0))
unfolding from_int
from_int_zero negative base order two small =
    let given : real_base base ≡ base = ground arith in
    rw (given, digits_of_zero 63 base (omega arith), from_int)
      ((two, small, (omega arith, tt), inl refl), refl, refl, omega arith)

-- AssignU64 of a number that is not 0 builds a well-formed number of the sign, the base and the value
-- that it is asked for: the number times a power of the base.
pub assign_u64_lem :
    (num : ℕ) (symbol : Bool) (base order : ℕ)
    → 0 < num
    → num < 2 ^ 64
    → 2 ≤ base
    → base < 2 ^ 32
    → (let n = assign_u64 num symbol base order in
        WellFormed n
        × (n.base ≡ base)
        × (n.symbol ≡ symbol)
        × (val n.base n.content ≡ base ^ order * num))
unfolding assign_u64
assign_u64_lem zero symbol base order pos lt two small = absurd (omega arith)
assign_u64_lem (suc num) symbol base order pos lt two small =
    let given : real_base base ≡ base = ground arith in
    let some_num : (suc num == 0) ≡ false = ground arith in
    let digits = val-digits_of 64 base (suc num) two lt in
    rw (given, some_num, assign_u64)
      (
        (
          two,
          small,
          shift-Valid base order _ (omega arith) digits.1,
          inr (shift-Top order _ (digits_of-Top 64 base (suc num) two lt (omega arith))),
        ),
        refl,
        refl,
        val-shift base order _ ∙ ap (λ v. base ^ order * v) digits.0,
      )

add_rest-Valid :
    (base carry : ℕ) (xs : List ℕ)
    → 2 ≤ base
    → base < 2 ^ 32
    → carry ≤ 1
    → Valid base xs
    → Valid base (add_rest base carry xs)
unfolding add_rest
add_rest-Valid base carry [] two b c v = (omega arith, tt)
add_rest-Valid base carry (x ∷ xs) two b c v = elim (Bool-cases (add32 carry x == base)) [
  | inl over ↦ rw (over, add_rest) (omega arith, add_rest-Valid base 1 xs two b (omega arith) v.1)
  | inr fits ↦ rw (fits, add_rest) (ground arith, add_rest-Valid base 0 xs two b (omega arith) v.1)
]

add_digits-Valid :
    (base carry : ℕ) (xs ys : List ℕ)
    → 2 ≤ base
    → base < 2 ^ 32
    → carry ≤ 1
    → Valid base xs
    → Valid base ys
    → Valid base (add_digits base carry xs ys)
unfolding add_digits
add_digits-Valid base carry xs [] two b c v w = add_rest-Valid base carry xs two b c v
add_digits-Valid base carry [] (y ∷ ys) two b c v w = tt
add_digits-Valid base carry (x ∷ xs) (y ∷ ys) two b c v w =
    let sum = add32 carry (add32 x y) in
    elim (Bool-cases (leb base sum || ltb sum x)) [
      | inl over ↦
          rw (over, add_digits)
            (ground arith, add_digits-Valid base 1 xs ys two b (omega arith) v.1 w.1)
      | inr fits ↦
          rw (fits, add_digits)
            (ground arith, add_digits-Valid base 0 xs ys two b (omega arith) v.1 w.1)
    ]

add_rest-nonempty : (base carry : ℕ) (xs : List ℕ) → 0 < length (add_rest base carry xs)
unfolding add_rest
add_rest-nonempty base carry [] = omega arith
add_rest-nonempty base carry (x ∷ xs) = omega arith

add_digits-nonempty :
    (base carry : ℕ) (xs ys : List ℕ)
    → length ys ≤ length xs
    → 0 < length (add_digits base carry xs ys)
unfolding add_digits
add_digits-nonempty base carry xs [] le = add_rest-nonempty base carry xs
add_digits-nonempty base carry [] (y ∷ ys) le = absurd (omega arith)
add_digits-nonempty base carry (x ∷ xs) (y ∷ ys) le = omega arith

trimmed-Canonical :
    (base : ℕ) (ds : List ℕ) → Valid base ds → 0 < length ds → Canonical base (trim_zeros ds)
trimmed-Canonical base [] v h = absurd (omega arith)
trimmed-Canonical base (d ∷ ds) v h = trim_zeros-Canonical base d ds v

add_lists-Canonical :
    (base : ℕ) (xs ys : List ℕ)
    → 2 ≤ base
    → base < 2 ^ 32
    → Valid base xs
    → Valid base ys
    → Canonical base (trim_zeros (add_lists base xs ys))
unfolding add_lists
add_lists-Canonical base xs ys two small v w = elim (Bool-cases (ltb (length xs) (length ys))) [
  | inl less ↦
      let lt = ltb→lt (length xs) (length ys) less in
      rw (less, add_lists)
        (trimmed-Canonical base (add_digits base 0 ys xs)
          (add_digits-Valid base 0 ys xs two small (omega arith) w v)
          (add_digits-nonempty base 0 ys xs (omega arith)))
  | inr more ↦
      let ge : length ys ≤ length xs = ground arith in
      rw (more, add_lists)
        (trimmed-Canonical base (add_digits base 0 xs ys)
          (add_digits-Valid base 0 xs ys two small (omega arith) v w)
          (add_digits-nonempty base 0 xs ys ge))
]

-- A well-formed number above zero, in a base
abbrev pub Counts : ℕ → ℕ → BigNum → Type 0
Counts base v n =
    (n.base ≡ base) × (n.symbol ≡ true) × Canonical base n.content × (val base n.content ≡ v)

-- Adding one such number to another adds what they stand for.
pub add-Counts :
    (base v w : ℕ) (a b : BigNum)
    → 2 ≤ base
    → base < 2 ^ 32
    → Counts base v a
    → Counts base w b
    → Counts base (v + w) (add a b)
unfolding add add_in
add-Counts base v w a b two small (base_a, sign_a, c, val_a) (base_b, sign_b, d, val_b) =
    let same : (a.base == b.base) ≡ true = ground arith in
    let total = val-add_lists base a.content b.content two small c.0 d.0 in
    rw (add, same, sign_a, sign_b, add_in, base_a)
      (
        refl,
        refl,
        add_lists-Canonical base a.content b.content two small c.0 d.0,
        total ∙ omega arith,
      )
