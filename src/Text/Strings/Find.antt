-- ===== src/Text/Strings/Find.antt =====
-- What find answers: a place where the pattern stands.
use ytlib.Base.{
  ℕ, suc, ◌+◌, ◌≤◌, ◌≡◌, refl, ap, sym, ◌∙◌, true, List, [], ◌∷◌, ◌++◌, some, arith, leb,
  Bool-cases, inl, inr, length, take, drop,
}
use ytlib.Text.Strings.{is_prefix, find_at, find}

pub is_prefix-split :
    (pat s : List ℕ)
    → is_prefix pat s ≡ true
    → (length pat ≤ length s) × (s ≡ pat ++ drop (length pat) s)
unfolding is_prefix
is_prefix-split [] s h = (omega arith, refl)
is_prefix-split (p ∷ pat) [] h = absurd (ground arith)
is_prefix-split (p ∷ pat) (c ∷ s) h =
    let e : p ≡ c = ground arith in
    let r : is_prefix pat s ≡ true = ground arith in
    let (len, eq) = is_prefix-split pat s r in
    (omega arith, ap (λ x. x ∷ s) (sym e) ∙ ap (λ t. p ∷ t) eq)

-- `pat` stands `n` places behind the start of `s`.
abbrev pub StandsAt : List ℕ → List ℕ → ℕ → Type 0
StandsAt pat s n =
    (n + length pat ≤ length s) × (s ≡ take n s ++ (pat ++ drop (length pat) (drop n s)))

pub find_at_lem :
    (pat : List ℕ) (i : ℕ) (s : List ℕ) {j : ℕ}
    → find_at pat i s ≡ some j
    → (n : ℕ) × (j ≡ i + n) × StandsAt pat s n
unfolding find_at
find_at_lem [] i [] {j} e = let e' : i ≡ j = ground arith in (0, omega arith, (omega arith, refl))
find_at_lem (p ∷ pat) i [] e = absurd (ground arith)
find_at_lem pat i (c ∷ s) {j} e = elim (Bool-cases (is_prefix pat (c ∷ s))) [
  | inl here ↦
      let e' : i ≡ j = ground arith in
      let (len, eq) = is_prefix-split pat (c ∷ s) here in (0, omega arith, (omega arith, eq))
  | inr not_here ↦
      let e' : find_at pat (suc i) s ≡ some j = ground arith in
      let (n, eq, at) = find_at_lem pat (suc i) s e' in
      let len = at.0 in (suc n, omega arith, (omega arith, ap (λ t. c ∷ t) at.1))
]

-- A position that find gives is one where the pattern stands.
pub find_lem :
    (s pat : List ℕ) (pos : ℕ) {j : ℕ}
    → find s pat pos ≡ some j
    → (n : ℕ) × (j ≡ pos + n) × StandsAt pat (drop pos s) n
unfolding find
find_lem s pat pos {j} e = elim (Bool-cases (leb pos (length s))) [
  | inl within ↦ find_at_lem pat pos (drop pos s) (ground arith)
  | inr beyond ↦ absurd (ground arith)
]
