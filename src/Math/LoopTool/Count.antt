-- ===== src/Math/LoopTool/Count.antt =====
-- The digits of a LoopTool count: what a step makes of the number that they stand for.
use mathlib.Core.Option.{map as option_map}
use ytlib.Base.{
  ℕ, zero, suc, ◌+◌, ◌-◌, ◌*◌, ◌%◌, ◌^◌, ◌≤◌, ◌<◌, ◌≡◌, ◌⊎◌, ◌≢◌, refl, ap, ◌∙◌, some, true, false,
  List, [], ◌∷◌, ◌==◌, Bool-cases, inl, inr, arith,
}
use ytlib.Math.LoopTool.{increase, decrease, is_set, start, rounds}

pub value : List ℕ → List ℕ → ℕ
value [] content = 0
value (u ∷ up) [] = 0
value (u ∷ up) (c ∷ content) = c + u * value up content

-- The number of combinations
pub total : List ℕ → ℕ
total [] = 1
total (u ∷ up) = u * total up

-- As many digits as limits, each below its limit, which is a uint32_t
abbrev pub IsWithin : List ℕ → List ℕ → Type 0
IsWithin [] [] = Unit
IsWithin [] (c ∷ content) = ⊥
IsWithin (u ∷ up) [] = ⊥
IsWithin (u ∷ up) (c ∷ content) = (c < u) × (u < 2 ^ 32) × IsWithin up content

-- Limits of 1 or more that fit in a uint32_t
abbrev pub IsLimits : List ℕ → Type 0
IsLimits [] = Unit
IsLimits (u ∷ up) = (0 < u) × (u < 2 ^ 32) × IsLimits up

mul_suc : (u v : ℕ) → u * (v + 1) ≡ u * v + u
mul_suc u v = omega arith

mul_mono : (u v t : ℕ) → v + 1 ≤ t → u * v + u ≤ u * t
mul_mono u v t h = grind arith

value-lt-total : (up content : List ℕ) → IsWithin up content → value up content < total up
unfolding value total
value-lt-total [] [] h = omega arith
value-lt-total [] (c ∷ content) h = absurd h
value-lt-total (u ∷ up) [] h = absurd h
value-lt-total (u ∷ up) (c ∷ content) (lt, fits, h) =
    let rest : value up content + 1 ≤ total up = omega (arith, value-lt-total up content h) in
    omega (arith, mul_mono u (value up content) (total up) rest)

-- One step up counts one more, or goes from the highest number back to 0.
pub value-increase :
    (up content : List ℕ)
    → IsWithin up content
    → IsWithin up (increase up content)
      × ((value up (increase up content) ≡ value up content + 1)
          ⊎ (value up content + 1 ≡ total up) × (value up (increase up content) ≡ 0))
unfolding increase value total
value-increase [] [] h = (tt, inr (refl, refl))
value-increase [] (c ∷ content) h = absurd h
value-increase (u ∷ up) [] h = absurd h
value-increase (u ∷ up) (c ∷ content) (lt, fits, h) =
    let plain : (c + 1) % 2 ^ 32 ≡ c + 1 = omega arith in
    let (rest, sum) = value-increase up content h in
    elim (Bool-cases ((c + 1) % 2 ^ 32 == u)) [
      | inl t ↦
          let e : c + 1 ≡ u = ground (arith, plain) in
          rw (t, increase)
            (
              (omega arith, fits, rest),
              elim sum [
                | inl more ↦ inl (omega (arith, ap (λ n. u * n) more, mul_suc u (value up content)))
                | inr (last, none) ↦ inr (
                  omega (arith, ap (λ n. u * n) last, mul_suc u (value up content)),
                  omega (arith, ap (λ n. u * n) none),
                )
              ],
            )
      | inr f ↦
          let ne : c + 1 ≢ u = ground (arith, plain) in
          rw (f, increase) ((omega arith, fits, h), inl (omega arith))
    ]

-- One step down counts one less, or goes from 0 to the highest number.
pub value-decrease :
    (up content : List ℕ)
    → IsWithin up content
    → IsWithin up (decrease up content)
      × ((value up (decrease up content) + 1 ≡ value up content)
          ⊎ (value up content ≡ 0) × (value up (decrease up content) + 1 ≡ total up))
unfolding decrease value total
value-decrease [] [] h = (tt, inr (refl, omega arith))
value-decrease [] (c ∷ content) h = absurd h
value-decrease (u ∷ up) [] h = absurd h
value-decrease (u ∷ up) (c ∷ content) (lt, fits, h) =
    let plain : (u + 2 ^ 32 - 1) % 2 ^ 32 ≡ u - 1 = omega arith in
    let (rest, sum) = value-decrease up content h in
    elim (Bool-cases (c == 0)) [
      | inl t ↦
          let e : c ≡ 0 = ground arith in
          rw (t, decrease)
            (
              (omega arith, fits, rest),
              elim sum [
                | inl less ↦ inl (
                    omega (arith, ap (λ n. u * n) less, mul_suc u (value up (decrease up content))))
                | inr (none, last) ↦ inr (
                  omega (arith, ap (λ n. u * n) none),
                  omega (arith, ap (λ n. u * n) last, mul_suc u (value up (decrease up content))),
                )
              ],
            )
      | inr f ↦
          let ne : c ≢ 0 = ground arith in
          rw (f, decrease) ((omega arith, fits, h), inl (omega arith))
    ]

-- The counter reads as false exactly at 0.
is_set_iff :
    (up content : List ℕ)
    → IsWithin up content
    → (is_set up content ≡ true) × (0 < value up content)
      ⊎ (is_set up content ≡ false) × (value up content ≡ 0)
unfolding is_set value
is_set_iff [] [] h = inr (refl, refl)
is_set_iff [] (c ∷ content) h = absurd h
is_set_iff (u ∷ up) [] h = absurd h
is_set_iff (u ∷ up) (c ∷ content) (lt, fits, h) = elim (Bool-cases (c == 0)) [
  | inl t ↦
      let e : c ≡ 0 = ground arith in
      elim (is_set_iff up content h) [
        | inl (set, more) ↦
            rw (t, set, is_set)
              (inl (refl, omega (arith, mul_mono u 0 (value up content) (omega arith))))
        | inr (unset, none) ↦
            rw (t, unset, is_set) (inr (refl, omega (arith, ap (λ n. u * n) none)))
      ]
  | inr f ↦ let ne : c ≢ 0 = ground arith in rw (f, is_set) (inl (refl, omega arith))
]

rounds_from :
    (fuel : ℕ) (up content : List ℕ)
    → IsWithin up content
    → 0 < value up content
    → value up content ≤ fuel
    → rounds fuel up content ≡ some (value up content)
unfolding rounds
rounds_from zero up content h pos enough = absurd (omega arith)
rounds_from (suc fuel) up content h pos enough =
    let (rest, sum) = value-decrease up content h in
    elim sum [
      | inr (none, last) ↦ absurd (omega arith)
      | inl less ↦ elim (is_set_iff up (decrease up content) rest) [
        | inl (set, more) ↦
            rw (set, rounds)
              (ap (option_map suc)
                  (rounds_from fuel up (decrease up content) rest more (omega arith))
                ∙ ap some (omega arith))
        | inr (unset, low) ↦ rw (unset, rounds) (ap some (omega arith))
      ]
    ]

start_lem : (up : List ℕ) → IsLimits up → IsWithin up (start up) × (value up (start up) ≡ 0)
unfolding start value
start_lem [] h = (tt, refl)
start_lem (u ∷ up) (pos, fits, h) =
    let (rest, none) = start_lem up h in ((pos, fits, rest), omega (arith, ap (λ n. u * n) none))

rounds_start :
    (fuel : ℕ) (up content : List ℕ)
    → IsWithin up content
    → value up content ≡ 0
    → fuel ≡ total up
    → value up content < total up
    → rounds fuel up content ≡ some (total up)
unfolding rounds
rounds_start zero up content h none e pos = absurd (omega arith)
rounds_start (suc fuel) up content h none e pos =
    let (rest, sum) = value-decrease up content h in
    elim sum [
      | inl less ↦ absurd (omega arith)
      | inr (zero_value, last) ↦ elim (is_set_iff up (decrease up content) rest) [
        | inl (set, more) ↦
            rw (set, rounds)
              (ap (option_map suc)
                  (rounds_from fuel up (decrease up content) rest more (omega arith))
                ∙ ap some (omega arith))
        | inr (unset, low) ↦ rw (unset, rounds) (ap some (omega arith))
      ]
    ]

-- The loop `do { .. } while (--lt)` over a counter as it is made, with limits of 1 or more that fit in
-- 32 bits, ends, and runs its body as many times as there are combinations of digits.
pub rounds-total : (up : List ℕ) → IsLimits up → rounds (total up) up (start up) ≡ some (total up)
unfolding rounds
rounds-total up h =
    let (within, none) = start_lem up h in
    let pos : value up (start up) < total up = value-lt-total up (start up) within in
    rounds_start (total up) up (start up) within none refl pos
