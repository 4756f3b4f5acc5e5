-- ===== src/Text/Affix/Tests.antt =====
-- Runs of the string tests and of the hashes, and the theorems at a string.
use ytlib.Base.{ℕ, ◌≡◌, refl, true, false, List, [], ◌∷◌}
use ytlib.Text.UrlEncode.{isalnum}
use ytlib.Text.Affix.{
  char_to_lower, same_chars, starts_with, ends_with, all_digits, is_digit_str, all_alnum,
  is_alnum_str, replace_slashes, last_char, standardise_path, fnv1a, hash64_fnv1a, hash32_fnv1a,
}

-- "Ab1"
abbrev text : List ℕ
text = b'A' ∷ b'b' ∷ b'1' ∷ []

starts-text : starts_with text (b'a' ∷ b'B' ∷ []) true ≡ true
unfolding starts_with same_chars char_to_lower
starts-text = refl

ends-text : ends_with text (b'b' ∷ b'2' ∷ []) false ≡ false
unfolding ends_with same_chars
ends-text = refl

digits-text : is_digit_str (b'0' ∷ b'9' ∷ []) ≡ true
unfolding is_digit_str all_digits
digits-text = refl

alnum-text : is_alnum_str text ≡ true
unfolding is_alnum_str all_alnum isalnum
alnum-text = refl

path : standardise_path (b'c' ∷ 92 ∷ b'd' ∷ []) ≡ b'c' ∷ b'/' ∷ b'd' ∷ b'/' ∷ []
unfolding standardise_path replace_slashes last_char
path = refl

-- The values that the description of FNV-1a gives for "a"
hash64-letter : hash64_fnv1a (b'a' ∷ []) ≡ 0xaf63dc4c8601ec8c
unfolding hash64_fnv1a fnv1a
hash64-letter = refl

hash32-letter : hash32_fnv1a (b'a' ∷ []) ≡ 0xe40c292c
unfolding hash32_fnv1a fnv1a
hash32-letter = refl
