-- ===== src/Math/Sort/Search.antt =====
-- BinarySearch and BinarySearchLast on a sorted array.
use ytlib.Base.{
  ℕ, zero, suc, ◌+◌, ◌-◌, ◌/◌, ◌≤◌, ◌<◌, ◌≡◌, ◌≢◌, ◌⊎◌, refl, ap, ◌∙◌, dec_lt, false, List, [], ◌∷◌,
  arith, ltb, leb, ◌==◌, ltb→lt, leb→le, ==_iff, Bool-cases, inl, inr, All, length, get_or,
}
use ytlib.Math.Sort.{search_first, search_last, binary_search, binary_search_last}
use ytlib.Math.Sort.Sorted.{Sorted}

abbrev pub at : List ℕ → ℕ → ℕ
at arr i = get_or arr i 0

All-at {κ} : (P : ℕ → Type κ) (arr : List ℕ) (i : ℕ) → All P arr → i < length arr → P (at arr i)
All-at P [] i h lt = absurd (omega arith)
All-at P (x ∷ arr) zero h lt = h.0
All-at P (x ∷ arr) (suc i) h lt = All-at P arr i h.1 (omega arith)

-- An element is no larger than a later one.
pub Sorted-at :
    (arr : List ℕ) (i j : ℕ) → Sorted (λ x. x) arr → i ≤ j → j < length arr → at arr i ≤ at arr j
Sorted-at [] i j h le lt = absurd (omega arith)
Sorted-at (x ∷ arr) zero zero h le lt = omega arith
Sorted-at (x ∷ arr) zero (suc j) h le lt = All-at _ arr j h.0 (omega arith)
Sorted-at (x ∷ arr) (suc i) zero h le lt = absurd (omega arith)
Sorted-at (x ∷ arr) (suc i) (suc j) h le lt = Sorted-at arr i j h.1 (omega arith) (omega arith)

-- The loop keeps what is below `low` smaller than the key, and what is from `high` on no smaller,
-- the last element left out.
search_first_lem :
    (fuel : ℕ) (arr : List ℕ) (key low high : ℕ)
    → Sorted (λ x. x) arr
    → high - low ≤ fuel
    → low ≤ high
    → high < length arr
    → ((i : ℕ) → i < low → at arr i < key)
    → (high + 1 ≡ length arr) ⊎ (key ≤ at arr high)
    → (let r = search_first fuel arr key low high in
        (r < length arr)
        × ((i : ℕ) → i < r → at arr i < key)
        × ((r + 1 ≡ length arr) ⊎ (key ≤ at arr r)))
unfolding search_first
search_first_lem zero arr key low high s enough le lt below from =
    let e : low ≡ high = omega arith in rw e (lt, (λ i h. below i (omega arith)), from)
search_first_lem (suc fuel) arr key low high s enough le lt below from =
    elim (Bool-cases (ltb low high)) [
      | inr done ↦
          let e : low ≡ high = ground arith in
          rw (done, search_first) (rw e (lt, (λ i h. below i (omega arith)), from))
      | inl more ↦
          let mid = low + (high - low) / 2 in
          let low_high : low < high = ltb→lt low high more in
          elim (Bool-cases (ltb (at arr mid) key)) [
            | inl small ↦
                let mid_key : at arr mid < key = ltb→lt (at arr mid) key small in
                rw (more, small, search_first)
                  (search_first_lem fuel arr key (mid + 1) high s (omega arith) (omega arith) lt
                    (λ i h. omega (arith, Sorted-at arr i mid s (omega arith) (omega arith))) from)
            | inr large ↦
                rw (more, large, search_first)
                  (search_first_lem fuel arr key low mid s (omega arith) (omega arith) (omega arith)
                    below (inr (ground arith)))
          ]
    ]

not-at_miss :
    (arr : List ℕ) (key r : ℕ)
    → Sorted (λ x. x) arr
    → ((i : ℕ) → i < r → at arr i < key)
    → (r + 1 ≡ length arr) ⊎ (key ≤ at arr r)
    → at arr r ≢ key
    → (i : ℕ) → i < length arr
    → at arr i ≢ key
not-at_miss arr key r s below from miss i lt e = elim (dec_lt i r) [
  | yes before ↦ absurd (omega (arith, below i before))
  | no behind ↦ elim from [
    | inl last ↦ miss (ap (at arr) {y = i} (omega arith) ∙ e)
    | inr above ↦
        let at_i : at arr r ≤ at arr i = Sorted-at arr r i s (omega arith) lt in miss (omega arith)
  ]
]

-- BinarySearch on a sorted array gives the first place of the key, or the length if it has none.
pub binary_search_lem :
    (arr : List ℕ) (key : ℕ)
    → Sorted (λ x. x) arr
    → (let r = binary_search arr key in
        ((r < length arr) × (at arr r ≡ key) × ((i : ℕ) → i < r → at arr i < key))
        ⊎ ((r ≡ length arr) × ((i : ℕ) → i < length arr → at arr i ≢ key)))
unfolding binary_search
binary_search_lem [] key s = inr (refl, λ i h. absurd (omega arith))
binary_search_lem (x ∷ xs) key s =
    let arr = x ∷ xs in
    let some_in : (length arr == 0) ≡ false = ground arith in
    let r = search_first (length arr) arr key 0 (length arr - 1) in
    let (lt, below, from) =
      search_first_lem (length arr) arr key 0 (length arr - 1) s (omega arith) (omega arith)
        (omega arith) (λ i h. absurd (omega arith)) (inl (omega arith)) in
    elim (Bool-cases (at arr r == key)) [
      | inl hit ↦
          let v : binary_search arr key ≡ r = unfold binary_search in rw (some_in, hit) refl in
          rw v (inl (lt, (==_iff (at arr r) key).0 hit, below))
      | inr miss ↦
          let v : binary_search arr key ≡ length arr =
            unfold binary_search in rw (some_in, miss) refl in
          rw v (inr (refl, not-at_miss arr key r s below from (ground arith)))
    ]

search_last_lem :
    (fuel : ℕ) (arr : List ℕ) (key low high : ℕ)
    → Sorted (λ x. x) arr
    → high - low ≤ fuel
    → low ≤ high
    → high < length arr
    → ((i : ℕ) → high < i → i < length arr → key < at arr i)
    → (low ≡ 0) ⊎ (at arr low ≤ key)
    → (let r = search_last fuel arr key low high in
        (r < length arr)
        × ((i : ℕ) → r < i → i < length arr → key < at arr i)
        × ((r ≡ 0) ⊎ (at arr r ≤ key)))
unfolding search_last
search_last_lem zero arr key low high s enough le lt above from =
    let e : high ≡ low = omega arith in rw e (omega arith, (λ i h. above i (omega arith)), from)
search_last_lem (suc fuel) arr key low high s enough le lt above from =
    elim (Bool-cases (ltb low high)) [
      | inr done ↦
          let e : high ≡ low = ground arith in
          rw (done, search_last) (rw e (omega arith, (λ i h. above i (omega arith)), from))
      | inl more ↦
          let mid = low + (high - low + 1) / 2 in
          let low_high : low < high = ltb→lt low high more in
          elim (Bool-cases (leb (at arr mid) key)) [
            | inl small ↦
                rw (more, small, search_last)
                  (search_last_lem fuel arr key mid high s (omega arith) (omega arith) lt above
                    (inr (leb→le (at arr mid) key small)))
            | inr large ↦
                let key_mid : key < at arr mid = ground arith in
                rw (more, large, search_last)
                  (search_last_lem fuel arr key low (mid - 1) s (omega arith) (omega arith)
                    (omega arith) (λ i h k. omega (arith, Sorted-at arr mid i s (omega arith) k))
                    from)
          ]
    ]

not-at_last_miss :
    (arr : List ℕ) (key r : ℕ)
    → Sorted (λ x. x) arr
    → ((i : ℕ) → r < i → i < length arr → key < at arr i)
    → (r ≡ 0) ⊎ (at arr r ≤ key)
    → at arr r ≢ key
    → r < length arr
    → (i : ℕ) → i < length arr
    → at arr i ≢ key
not-at_last_miss arr key r s above from miss within i lt e = elim (dec_lt r i) [
  | yes behind ↦ absurd (omega (arith, above i behind lt))
  | no before ↦ elim from [
    | inl first ↦ miss (ap (at arr) {y = i} (omega arith) ∙ e)
    | inr below ↦
        let at_i : at arr i ≤ at arr r = Sorted-at arr i r s (omega arith) within in
        miss (omega arith)
  ]
]

-- BinarySearchLast on a sorted array gives the last place of the key, or the length if it has none.
pub binary_search_last_lem :
    (arr : List ℕ) (key : ℕ)
    → Sorted (λ x. x) arr
    → (let r = binary_search_last arr key in
        ((r < length arr) × (at arr r ≡ key) × ((i : ℕ) → r < i → i < length arr → key < at arr i))
        ⊎ ((r ≡ length arr) × ((i : ℕ) → i < length arr → at arr i ≢ key)))
unfolding binary_search_last
binary_search_last_lem [] key s = inr (refl, λ i h. absurd (omega arith))
binary_search_last_lem (x ∷ xs) key s =
    let arr = x ∷ xs in
    let some_in : (length arr == 0) ≡ false = ground arith in
    let r = search_last (length arr) arr key 0 (length arr - 1) in
    let (lt, above, from) =
      search_last_lem (length arr) arr key 0 (length arr - 1) s (omega arith) (omega arith)
        (omega arith) (λ i h k. absurd (omega arith)) (inl refl) in
    elim (Bool-cases (at arr r == key)) [
      | inl hit ↦
          let v : binary_search_last arr key ≡ r =
            unfold binary_search_last in rw (some_in, hit) refl in
          rw v (inl (lt, (==_iff (at arr r) key).0 hit, above))
      | inr miss ↦
          let v : binary_search_last arr key ≡ length arr =
            unfold binary_search_last in rw (some_in, miss) refl in
          rw v (inr (refl, not-at_last_miss arr key r s above from (ground arith) lt))
    ]
