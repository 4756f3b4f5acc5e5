-- ===== src/Text/Affix/Ends.antt =====
-- StartsWith and EndsWith: the string is the pattern with something behind it, or in front of it.
use ytlib.Base.{
  ℕ, ◌-◌, ◌≤◌, ◌<◌, ◌≡◌, ◌↔◌, refl, ap, ap₂, sym, ◌∙◌, true, false, List, [], ◌∷◌, ◌++◌, arith, ltb,
  ◌==◌, length, take, drop, take-append-drop, length-append, length-drop, drop-append, drop_all,
  append-nil, Bool-cases, inl, inr,
}
use ytlib.Text.Affix.{same_chars, starts_with, ends_with}

same_chars-split :
    (pattern str : List ℕ)
    → same_chars false pattern str ≡ true
    → str ≡ pattern ++ drop (length pattern) str
unfolding same_chars
same_chars-split [] str h = refl
same_chars-split (p ∷ pattern) [] h = absurd (ground arith)
same_chars-split (p ∷ pattern) (c ∷ str) h =
    let e : p ≡ c = ground arith in
    let rest : same_chars false pattern str ≡ true = ground arith in
    ap₂ (λ x s. x ∷ s) (sym e) (same_chars-split pattern str rest)

same_chars-append : (pattern rest : List ℕ) → same_chars false pattern (pattern ++ rest) ≡ true
unfolding same_chars
same_chars-append [] rest = refl
same_chars-append (p ∷ pattern) rest =
    let same : (p == p) ≡ true = ground arith in rw same (same_chars-append pattern rest)

-- StartsWith says true, with the case not ignored, of just the strings that are the pattern with
-- something behind it, for a pattern that is not empty.
pub starts_with_iff :
    (str pattern : List ℕ)
    → 0 < length pattern
    → (starts_with str pattern false ≡ true) ↔ ((rest : List ℕ) × (str ≡ pattern ++ rest))
unfolding starts_with
starts_with_iff str pattern pos =
    let some_in : (length pattern == 0) ≡ false = ground arith in
    (
      λ h. elim (Bool-cases (ltb (length str) (length pattern))) [
        | inl short ↦ absurd (ground arith)
        | inr long ↦ (drop (length pattern) str, same_chars-split pattern str (ground arith))
      ],
      λ (rest, e).
          let long : ltb (length str) (length pattern) ≡ false =
            let len = ap length e ∙ length-append pattern rest in ground arith in
          rw (long, some_in, starts_with)
            (ap (λ t. same_chars false pattern t) e ∙ same_chars-append pattern rest),
    )

-- EndsWith says true, with the case not ignored, of just the strings that are the pattern with
-- something in front of it, for a pattern that is not empty.
pub ends_with_iff :
    (str pattern : List ℕ)
    → 0 < length pattern
    → (ends_with str pattern false ≡ true) ↔ ((front : List ℕ) × (str ≡ front ++ pattern))
unfolding ends_with
ends_with_iff str pattern pos =
    let some_in : (length pattern == 0) ≡ false = ground arith in
    let begin = length str - length pattern in
    (
      λ h. elim (Bool-cases (ltb (length str) (length pattern))) [
        | inl short ↦ absurd (ground arith)
        | inr long ↦
            let enough : length pattern ≤ length str = ground arith in
            let split = same_chars-split pattern (drop begin str) (ground arith) in
            let none_behind : drop (length pattern) (drop begin str) ≡ [] =
              drop_all (length pattern) (drop begin str) (omega (arith, length-drop begin str)) in
            (
              take begin str,
              sym (take-append-drop begin str)
                  ∙ ap (λ t. take begin str ++ t)
                      (split ∙ ap (λ t. pattern ++ t) none_behind ∙ append-nil pattern),
            )
      ],
      λ (front, e).
          let len = ap length e ∙ length-append front pattern in
          let long : ltb (length str) (length pattern) ≡ false = ground arith in
          let place : drop begin str ≡ pattern =
            ap (λ t. drop begin t) e ∙ drop-append front pattern begin (omega arith) in
          rw (long, some_in, ends_with)
            (ap (λ t. same_chars false pattern t) (place ∙ sym (append-nil pattern))
              ∙ same_chars-append pattern []),
    )
