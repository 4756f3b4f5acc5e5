-- ===== src/Text/Affix/Chars.antt =====
-- What a second call of the case functions and of StandardisePath does: nothing.
use ytlib.Base.{
  ℕ, ◌≡◌, ◌≢◌, refl, ap₂, List, [], ◌∷◌, ◌++◌, arith, ◌==◌, Bool-cases, inl, inr, All, All-append,
}
use ytlib.Text.Affix.{
  char_to_lower, char_to_upper, str_to_lower, str_to_upper, replace_slashes, last_char,
  standardise_path,
}

char_to_lower_idem : (c : ℕ) → char_to_lower (char_to_lower c) ≡ char_to_lower c
unfolding char_to_lower
char_to_lower_idem c = ground arith

char_to_lower-char_to_upper : (c : ℕ) → char_to_lower (char_to_upper c) ≡ char_to_lower c
unfolding char_to_lower char_to_upper
char_to_lower-char_to_upper c = ground arith

pub str_to_lower_idem : (s : List ℕ) → str_to_lower (str_to_lower s) ≡ str_to_lower s
unfolding str_to_lower
str_to_lower_idem [] = refl
str_to_lower_idem (c ∷ s) = ap₂ (λ x t. x ∷ t) (char_to_lower_idem c) (str_to_lower_idem s)

pub str_to_lower-str_to_upper : (s : List ℕ) → str_to_lower (str_to_upper s) ≡ str_to_lower s
unfolding str_to_lower str_to_upper
str_to_lower-str_to_upper [] = refl
str_to_lower-str_to_upper (c ∷ s) =
    ap₂ (λ x t. x ∷ t) (char_to_lower-char_to_upper c) (str_to_lower-str_to_upper s)

last_char-snoc : (path : List ℕ) (c : ℕ) → last_char (path ++ c ∷ []) ≡ c
unfolding last_char
last_char-snoc [] c = refl
last_char-snoc (d ∷ []) c = refl
last_char-snoc (d ∷ e ∷ path) c = last_char-snoc (e ∷ path) c

-- A standard path ends in a slash and has no backslash.
abbrev pub IsStandard : List ℕ → Type 0
IsStandard path = (last_char path ≡ b'/') × All (λ c. c ≢ 92) path

replace_slashes-All : (path : List ℕ) → All (λ c. c ≢ 92) (replace_slashes path)
unfolding replace_slashes
replace_slashes-All [] = tt
replace_slashes-All (c ∷ path) = (ground arith, replace_slashes-All path)

pub standardise_path-IsStandard : (path : List ℕ) → IsStandard (standardise_path path)
unfolding standardise_path
standardise_path-IsStandard [] = (unfold last_char in refl, (omega arith, tt))
standardise_path-IsStandard (c ∷ path) =
    elim (Bool-cases (last_char (replace_slashes (c ∷ path)) == b'/')) [
      | inl ends ↦ rw ends (ground arith, replace_slashes-All (c ∷ path))
      | inr open_end ↦ rw open_end (
        last_char-snoc (replace_slashes (c ∷ path)) b'/',
        All-append (λ c. c ≢ 92) (replace_slashes (c ∷ path)) (b'/' ∷ [])
            (replace_slashes-All (c ∷ path)) (omega arith, tt),
      )
    ]
