-- ===== src/Math/BigNum/Rebase.antt =====
-- ReBase: the digits in the new base stand for the same number.
use native.Mathlib.Nat.{
  mul-le-mul_right, mul-le-mul, div-lt_iff_lt-mul, mod-lt, div-add-mod', mul_assoc, mul_comm,
  mul-add, add-mul, mul-le-mul_left,
}
use mathlib.Core.List.{cons≢nil}
use ytlib.Base.{
  ℕ, zero, suc, ◌+◌, ◌-◌, ◌*◌, ◌/◌, ◌%◌, ◌^◌, ◌≤◌, ◌<◌, ◌≡◌, ◌⊎◌, refl, ap, subst, ◌∙◌, List, [],
  ◌∷◌, arith, ltb, ltb→lt, ◌==◌, if◌then◌else◌, Bool-cases, inl, inr, dec_lt,
}
use ytlib.Math.BigNum.{BigNum, val, u32, drop_zeros, divide, rebase_loop, rebase}
use ytlib.Math.BigNum.Digits.{Valid}
use ytlib.Math.BigNum.Sum.{val-trim_zeros}

val-drop_zeros : (base : ℕ) (ds : List ℕ) → val base (drop_zeros ds) ≡ val base ds
unfolding drop_zeros
val-drop_zeros base [] = refl
val-drop_zeros base (d ∷ ds) =
    pop base d (drop_zeros ds) ∙ ap (λ v. d + base * v) (val-drop_zeros base ds)
  where
    pop :
        (base d : ℕ) (es : List ℕ)
        → val base (elim es [ [] ↦ if d == 0 then [] else d ∷ [] | e ∷ es ↦ d ∷ e ∷ es ])
          ≡ d + base * val base es
    pop base zero [] = omega arith
    pop base (suc d) [] = ground arith
    pop base d (e ∷ es) = refl

-- One digit of the division: no cast loses anything.
divide_digit :
    (from base rem d : ℕ)
    → from < u32
    → base < u32
    → 0 < base
    → d < from
    → rem < base
    → (let cur_num = (rem * from + d) % 2 ^ 64 in
        (cur_num ≡ rem * from + d) × (cur_num / base < from))
divide_digit from base rem d f b pos h k =
    let m : (rem + 1) * from ≤ base * from =
      mul-le-mul_right {m = rem + 1} {n = base} from (omega arith) in
    let small : base * from ≤ (2 ^ 32 - 1) * (2 ^ 32 - 1) =
      mul-le-mul {n₁ = base} {m₁ = from} {n₂ = 2 ^ 32 - 1} {m₂ = 2 ^ 32 - 1} (omega arith)
        (omega arith) in
    let lt : rem * from + d < from * base = omega arith in
    let e : (rem * from + d) % 2 ^ 64 ≡ rem * from + d = omega arith in
    (e, rw e ((div-lt_iff_lt-mul {k = base} {x = rem * from + d} {y = from} pos).1 lt))

recombine :
    (from base d V r q c L : ℕ)
    → q * base + c ≡ r * from + d
    → V * base + r ≡ L
    → (q + from * V) * base + c ≡ d + from * L
recombine from base d V r q c L e e' =
    let m : from * (V * base + r) ≡ from * L = ap (λ k. from * k) e' in
    omega (
      arith,
      add-mul q (from * V) base,
      mul_assoc from V base,
      mul-add from (V * base) r,
      mul_comm from r,
    )

val-divide :
    (from base : ℕ) (ds : List ℕ)
    → from < u32
    → base < u32
    → 0 < base
    → Valid from ds
    → (let w = divide from base ds in
        Valid from w.0 × (w.1 < base) × (val from w.0 * base + w.1 ≡ val from ds))
unfolding divide
val-divide from base [] f b pos v = (tt, pos, omega arith)
val-divide from base (d ∷ ds) f b pos v =
    let (quot, rem, eq) = val-divide from base ds f b pos v.1 in
    let w = divide from base ds in
    let (cur, small) = divide_digit from base w.1 d f b pos v.0 rem in
    let cur_num = w.1 * from + d in
    let q : cur_num / base < from = subst (λ c. c / base < from) cur small in
    let cast : cur_num / base % u32 ≡ cur_num / base = omega arith in
    let parts : cur_num / base * base + cur_num % base ≡ cur_num = div-add-mod' cur_num base in
    rw (divide, cur)
      (rw cast (
        (q, quot),
        mod-lt cur_num pos,
        recombine from base d (val from w.0) w.1 (cur_num / base) (cur_num % base) (val from ds)
            parts eq,
      ))

drop_zeros-Valid : (base : ℕ) (ds : List ℕ) → Valid base ds → Valid base (drop_zeros ds)
unfolding drop_zeros
drop_zeros-Valid base [] v = tt
drop_zeros-Valid base (d ∷ ds) v = pop (drop_zeros ds) v.0 (drop_zeros-Valid base ds v.1)
  where
    pop :
        (es : List ℕ)
        → d < base
        → Valid base es
        → Valid base (elim es [ [] ↦ if d == 0 then [] else d ∷ [] | e ∷ es ↦ d ∷ e ∷ es ])
    pop [] h w = elim (Bool-cases (d == 0)) [ inl z ↦ rw z tt | inr z ↦ rw z (h, tt) ]
    pop (e ∷ es) h w = (h, w)

zero_of_mul : (b v : ℕ) → 0 < b → b * v ≡ 0 → v ≡ 0
zero_of_mul b zero h e = refl
zero_of_mul b (suc v) h e = absurd (omega (arith, mul-add b v 1))

smaller : (q base r v : ℕ) → 2 ≤ base → q * base + r ≡ v → 0 < q → q < v
smaller q base r v two e pos =
    let m : q * 2 ≤ q * base = mul-le-mul_left {m = 2} {n = base} q two in omega arith

-- A list of digits from which the zeros have been dropped is empty if it stands for 0.
drop_zeros-zero :
    (base : ℕ) (ds : List ℕ) → 0 < base → val base (drop_zeros ds) ≡ 0 → drop_zeros ds ≡ []
unfolding drop_zeros
drop_zeros-zero base [] h e = refl
drop_zeros-zero base (d ∷ ds) h e = pop (drop_zeros ds) (drop_zeros-zero base ds h) e
  where
    pop :
        (es : List ℕ)
        → (val base es ≡ 0 → es ≡ [])
        → val base (elim es [ [] ↦ if d == 0 then [] else d ∷ [] | e ∷ es ↦ d ∷ e ∷ es ]) ≡ 0
        → elim es [ [] ↦ if d == 0 then [] else d ∷ [] | e ∷ es ↦ d ∷ e ∷ es ] ≡ []
    pop [] ih e = elim (Bool-cases (d == 0)) [ inl z ↦ rw z refl | inr z ↦ absurd (ground arith) ]
    pop (e ∷ es) ih eq =
        absurd (cons≢nil (ih (zero_of_mul base (val base (e ∷ es)) h (omega arith))))

pub rebase_loop_lem :
    (fuel from base : ℕ) (content : List ℕ)
    → 2 ≤ from
    → from < u32
    → 2 ≤ base
    → base < u32
    → Valid from content
    → (content ≡ []) ⊎ (val from content < fuel)
    → (val base (rebase_loop fuel from base content) ≡ val from content)
      × Valid base (rebase_loop fuel from base content)
unfolding rebase_loop
rebase_loop_lem zero from base [] f f' b b' v enough = (refl, tt)
rebase_loop_lem zero from base (d ∷ ds) f f' b b' v (inl e) = absurd (ground arith)
rebase_loop_lem zero from base (d ∷ ds) f f' b b' v (inr lt) = absurd (omega arith)
rebase_loop_lem (suc fuel) from base [] f f' b b' v enough = (refl, tt)
rebase_loop_lem (suc fuel) from base (d ∷ ds) f f' b b' v enough =
    let w = divide from base (d ∷ ds) in
    let (quot, rem, eq) = val-divide from base (d ∷ ds) f' b' (omega arith) v in
    let next = drop_zeros w.0 in
    let same = val-drop_zeros from w.0 in
    let fuel_left : (next ≡ []) ⊎ (val from next < fuel) = elim (dec_lt 0 (val from next)) [
      | no none_left ↦ inl (drop_zeros-zero from w.0 (omega arith) (omega arith))
      | yes some_left ↦ elim enough [
        | inl e ↦ absurd (ground arith)
        | inr lt ↦
            let less = smaller (val from w.0) base w.1 (val from (d ∷ ds)) b eq (omega arith) in
            inr (omega arith)
      ]
    ] in
    let ih =
      rebase_loop_lem fuel from base next f f' b b' (drop_zeros-Valid from w.0 quot) fuel_left in
    (
      ap (λ k. w.1 + base * k) (ih.0 ∙ val-drop_zeros from w.0)
          ∙ omega (arith, mul_comm base (val from w.0)),
      (rem, ih.1),
    )

-- ReBase keeps what a number stands for, and its sign; the fuel of its loop is enough.
pub rebase_lem :
    (n : BigNum) (base : ℕ)
    → 2 ≤ n.base
    → n.base < 2 ^ 32
    → Valid n.base n.content
    → base < 2 ^ 32
    → (let m = rebase base n in
        (val m.base m.content ≡ val n.base n.content)
        × (m.symbol ≡ n.symbol)
        × ((2 ≤ base) → m.base ≡ base))
unfolding rebase
rebase_lem n base two small v b = elim (Bool-cases (ltb base 2)) [
  | inl one ↦ rw (one, rebase) (refl, refl, λ h. absurd (omega (arith, ltb→lt base 2 one)))
  | inr more ↦ elim (Bool-cases (n.base == base)) [
    | inl same ↦ rw (more, same, rebase) (refl, refl, λ h. ground arith)
    | inr other ↦
        let loop =
          rebase_loop_lem (suc (val n.base n.content)) n.base base n.content two small
            (ground arith) b v (inr (omega arith)) in
        rw (more, other, rebase)
          (
            val-trim_zeros base (rebase_loop (suc (val n.base n.content)) n.base base n.content)
                ∙ loop.0,
            refl,
            λ h. refl,
          )
  ]
]
