-- ===== src/Math/BigNum/Sum.antt =====
-- operator+ and operator-: the sum and the difference of what the operands stand for.
use Prim.Native.Nat.{compare, Ordering}
use native.Mathlib.Nat.{mul-add, mul-le-mul_left, le_of_lt}
use ytlib.Base.{
  ℕ, ◌+◌, ◌*◌, ◌^◌, ◌≤◌, ◌<◌, ◌≡◌, ◌≢◌, ◌⊎◌, refl, ap, subst, ◌∙◌, Bool, true, false, not, ◌&&◌,
  List, [], ◌∷◌, arith, ltb, ltb→lt, ◌==◌, if◌then◌else◌, length, Bool-cases, inl, inr,
}
use ytlib.Math.BigNum.{BigNum, val, trim_zeros, order_digits, swaps, add_in, add_lists, sub_digits}
use ytlib.Math.BigNum.Digits.{Valid, val-add_digits, val-sub_digits}

pub val-trim_zeros : (base : ℕ) (ds : List ℕ) → val base (trim_zeros ds) ≡ val base ds
unfolding trim_zeros
val-trim_zeros base [] = refl
val-trim_zeros base (d ∷ ds) =
    trim base d (trim_zeros ds) ∙ ap (λ v. d + base * v) (val-trim_zeros base ds)
  where
    trim :
        (base d : ℕ) (es : List ℕ)
        → val base (elim es [
          | [] ↦ d ∷ []
          | e ∷ es ↦ if e == 0 && length es == 0 then d ∷ [] else d ∷ e ∷ es
        ])
          ≡ d + base * val base es
    trim base d [] = refl
    trim base d (e ∷ []) = ground arith
    trim base d (e ∷ f ∷ es) = ground arith

-- What an answer of the comparison says of the values
abbrev pub Ordered : Ordering → ℕ → ℕ → Type 0
Ordered Ordering.lt v w = v < w
Ordered Ordering.eq v w = v ≡ w
Ordered Ordering.gt v w = w < v

compare-Ordered : (v w : ℕ) → Ordered (compare v w) v w
compare-Ordered v w = ground arith

digit-Ordered :
    (o : Ordering) (base x y v w : ℕ)
    → x < base
    → y < base
    → Ordered o v w
    → Ordered
        (elim o [
          | Ordering.eq ↦ compare x y
          | Ordering.lt ↦ Ordering.lt
          | Ordering.gt ↦ Ordering.gt
        ])
        (x + base * v)
        (y + base * w)
digit-Ordered Ordering.lt base x y v w hx hy h =
    let m : base * (v + 1) ≤ base * w = mul-le-mul_left {m = v + 1} {n = w} base (omega arith) in
    omega (arith, mul-add base v 1)
digit-Ordered Ordering.gt base x y v w hx hy h =
    let m : base * (w + 1) ≤ base * v = mul-le-mul_left {m = w + 1} {n = v} base (omega arith) in
    omega (arith, mul-add base w 1)
digit-Ordered Ordering.eq base x y v w hx hy h =
    let m = ap (λ k. base * k) h in last (compare x y) (compare-Ordered x y) m
  where
    last :
        (o : Ordering)
        → Ordered o x y
        → base * v ≡ base * w
        → Ordered o (x + base * v) (y + base * w)
    last Ordering.lt less m = omega arith
    last Ordering.eq same m = omega arith
    last Ordering.gt more m = omega arith

pub order_digits-Ordered :
    (base : ℕ) (xs ys : List ℕ)
    → Valid base xs
    → Valid base ys
    → length xs ≡ length ys
    → Ordered (order_digits xs ys) (val base xs) (val base ys)
unfolding order_digits
order_digits-Ordered base [] [] v w e = refl
order_digits-Ordered base [] (y ∷ ys) v w e = absurd (omega arith)
order_digits-Ordered base (x ∷ xs) [] v w e = absurd (omega arith)
order_digits-Ordered base (x ∷ xs) (y ∷ ys) v w e =
    digit-Ordered (order_digits xs ys) base x y (val base xs) (val base ys) v.0 w.0
      (order_digits-Ordered base xs ys v.1 w.1 (omega arith))

-- The highest digit is not 0.
abbrev pub Top : List ℕ → Type 0
Top [] = 1 ≤ 0
Top (d ∷ []) = d ≢ 0
Top (d ∷ e ∷ ds) = Top (e ∷ ds)

pub Top-pos : (base : ℕ) (ds : List ℕ) → 0 < base → Top ds → 0 < val base ds
Top-pos base [] h t = absurd (omega arith)
Top-pos base (d ∷ []) h t = omega arith
Top-pos base (d ∷ e ∷ ds) h t =
    let m : base * 1 ≤ base * val base (e ∷ ds) =
      mul-le-mul_left {m = 1} {n = val base (e ∷ ds)} base
        (omega (arith, Top-pos base (e ∷ ds) h t)) in
    omega arith

pub longer-lt :
    (base : ℕ) (xs ys : List ℕ)
    → 0 < base
    → Valid base ys
    → Top xs
    → length ys < length xs
    → val base ys < val base xs
longer-lt base [] ys h w t len = absurd (omega arith)
longer-lt base (x ∷ xs) [] h w t len = Top-pos base (x ∷ xs) h t
longer-lt base (x ∷ []) (y ∷ ys) h w t len = absurd (omega arith)
longer-lt base (x ∷ x' ∷ xs) (y ∷ ys) h w t len =
    let ih = longer-lt base (x' ∷ xs) ys h w.1 t (omega arith) in
    let m : base * (val base ys + 1) ≤ base * val base (x' ∷ xs) =
      mul-le-mul_left {m = val base ys + 1} {n = val base (x' ∷ xs)} base (omega arith) in
    omega (arith, mul-add base (val base ys) 1)

-- One digit 0, or digits of the base with no 0 at the top
abbrev pub WellFormed : BigNum → Type 0
WellFormed n =
    (2 ≤ n.base)
    × (n.base < 2 ^ 32)
    × Valid n.base n.content
    × ((n.content ≡ 0 ∷ []) ⊎ Top n.content)

-- The worth of a sign and digits above zero; with the sign turned round, below it
abbrev pub part : Bool → ℕ → ℕ
part true v = v
part false v = 0

-- What a number is worth above zero, and below it
abbrev pub above : BigNum → ℕ
above n = part n.symbol (val n.base n.content)

abbrev pub below : BigNum → ℕ
below n = part (not n.symbol) (val n.base n.content)

pub ordering-cases : (o : Ordering) → (o ≡ Ordering.lt) ⊎ ((o ≡ Ordering.eq) ⊎ (o ≡ Ordering.gt))
ordering-cases Ordering.lt = inl refl
ordering-cases Ordering.eq = inr (inl refl)
ordering-cases Ordering.gt = inr (inr refl)

-- The longer of two well-formed lists of digits is worth no less.
longer-le :
    (base : ℕ) (xs ys : List ℕ)
    → 0 < base
    → Valid base ys
    → (xs ≡ 0 ∷ []) ⊎ Top xs
    → (ys ≡ 0 ∷ []) ⊎ Top ys
    → length ys < length xs
    → val base ys ≤ val base xs
longer-le base xs ys h w (inr t) u len = le_of_lt (longer-lt base xs ys h w t len)
longer-le base xs [] h w (inl e) u len = omega arith
longer-le base xs (y ∷ ys) h w (inl e) u len = absurd (omega (arith, ap length e))

-- What operator+ takes for the larger operand is worth no less than the other, and has no fewer
-- digits.
abbrev Larger : Bool → ℕ → List ℕ → List ℕ → Type 0
Larger true base xs ys = (length xs ≤ length ys) × (val base xs ≤ val base ys)
Larger false base xs ys = (length ys ≤ length xs) × (val base ys ≤ val base xs)

swaps-Larger :
    (base : ℕ) (xs ys : List ℕ)
    → 0 < base
    → Valid base xs
    → Valid base ys
    → (xs ≡ 0 ∷ []) ⊎ Top xs
    → (ys ≡ 0 ∷ []) ⊎ Top ys
    → Larger (swaps xs ys) base xs ys
unfolding swaps
swaps-Larger base xs ys h v w t u = elim (Bool-cases (length xs == length ys)) [
  | inl same ↦
      let e : length xs ≡ length ys = ground arith in
      let o = order_digits-Ordered base xs ys v w e in
      elim (ordering-cases (order_digits xs ys)) [
        | inl lt ↦
            let o' = subst (λ q. Ordered q (val base xs) (val base ys)) lt o in
            rw (same, lt, swaps) (omega arith, omega arith)
        | inr (inl eq) ↦
            let o' = subst (λ q. Ordered q (val base xs) (val base ys)) eq o in
            rw (same, eq, swaps) (omega arith, omega arith)
        | inr (inr gt) ↦
            let o' = subst (λ q. Ordered q (val base xs) (val base ys)) gt o in
            rw (same, gt, swaps) (omega arith, omega arith)
      ]
  | inr other ↦ elim (Bool-cases (ltb (length xs) (length ys))) [
    | inl less ↦
        let lt = ltb→lt (length xs) (length ys) less in
        rw (other, less, swaps) (omega arith, longer-le base ys xs h v u t lt)
    | inr more ↦
        let gt : length ys < length xs = ground arith in
        rw (other, more, swaps) (omega arith, longer-le base xs ys h w t u gt)
  ]
]

-- Digits of the base, and no 0 at the top but in 0
abbrev pub Canonical : ℕ → List ℕ → Type 0
Canonical base xs = Valid base xs × ((xs ≡ 0 ∷ []) ⊎ Top xs)

pub val-add_lists :
    (base : ℕ) (xs ys : List ℕ)
    → 2 ≤ base
    → base < 2 ^ 32
    → Valid base xs
    → Valid base ys
    → val base (trim_zeros (add_lists base xs ys)) ≡ val base xs + val base ys
unfolding add_lists
val-add_lists base xs ys two small v w =
    val-trim_zeros base (add_lists base xs ys) ∙ elim (Bool-cases (ltb (length xs) (length ys))) [
      | inl less ↦
          let lt = ltb→lt (length xs) (length ys) less in
          rw (less, add_lists)
            (val-add_digits base 0 ys xs two small (omega arith) w v (omega arith) ∙ omega arith)
      | inr more ↦
          let ge : length ys ≤ length xs = ground arith in
          rw (more, add_lists)
            (val-add_digits base 0 xs ys two small (omega arith) v w ge ∙ omega arith)
    ]

val-sub_lists :
    (base : ℕ) (xs ys : List ℕ)
    → 2 ≤ base
    → base < 2 ^ 32
    → Valid base xs
    → Valid base ys
    → length ys ≤ length xs
    → val base ys ≤ val base xs
    → val base (trim_zeros (sub_digits base 0 xs ys)) + val base ys ≡ val base xs
val-sub_lists base xs ys two small v w len le =
    let diff = val-sub_digits base 0 xs ys two small (omega arith) v w len (omega arith) in
    omega (arith, val-trim_zeros base (sub_digits base 0 xs ys))

abbrev Balanced : ℕ → Bool → List ℕ → Bool → List ℕ → BigNum → Type 0
Balanced base s xs t ys r =
    above r + part (not s) (val base xs) + part (not t) (val base ys)
    ≡ below r + part s (val base xs) + part t (val base ys)

pub add_in-Balanced :
    (base : ℕ) (s : Bool) (xs : List ℕ) (t : Bool) (ys : List ℕ)
    → 2 ≤ base
    → base < 2 ^ 32
    → Canonical base xs
    → Canonical base ys
    → Balanced base s xs t ys (add_in base s xs t ys)
unfolding add_in
add_in-Balanced base true xs true ys two small (v, x) (w, y) =
    omega (arith, val-add_lists base xs ys two small v w)
add_in-Balanced base false xs false ys two small (v, x) (w, y) =
    omega (arith, val-add_lists base xs ys two small v w)
add_in-Balanced base true xs false ys two small (v, x) (w, y) = elim (Bool-cases (swaps xs ys)) [
  | inl sw ↦
      let (len, le) =
        subst (λ b. Larger b base xs ys) sw (swaps-Larger base xs ys (omega arith) v w x y) in
      rw (sw, add_in) (omega (arith, val-sub_lists base ys xs two small w v len le))
  | inr sw ↦
      let (len, le) =
        subst (λ b. Larger b base xs ys) sw (swaps-Larger base xs ys (omega arith) v w x y) in
      rw (sw, add_in) (omega (arith, val-sub_lists base xs ys two small v w len le))
]
add_in-Balanced base false xs true ys two small (v, x) (w, y) = elim (Bool-cases (swaps xs ys)) [
  | inl sw ↦
      let (len, le) =
        subst (λ b. Larger b base xs ys) sw (swaps-Larger base xs ys (omega arith) v w x y) in
      rw (sw, add_in) (omega (arith, val-sub_lists base ys xs two small w v len le))
  | inr sw ↦
      let (len, le) =
        subst (λ b. Larger b base xs ys) sw (swaps-Larger base xs ys (omega arith) v w x y) in
      rw (sw, add_in) (omega (arith, val-sub_lists base xs ys two small v w len le))
]
