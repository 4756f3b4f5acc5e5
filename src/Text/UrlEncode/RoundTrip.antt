-- ===== src/Text/UrlEncode/RoundTrip.antt =====
-- Decoding undoes encoding, and what is encoded is safe in a URL.
use Prim.Native.Nat.{bit_or}
use ytlib.Base.{
  ℕ, zero, suc, ◌*◌, ◌/◌, ◌%◌, ◌<◌, ◌≤◌, dec_lt, ◌≡◌, ◌≢◌, refl, ap, ◌∙◌, Bool, true, false, ◌&&◌,
  ◌||◌, List, [], ◌∷◌, ◌++◌, arith, ◌==◌, ==_iff, Bool-cases, inl, inr, All, All-append,
}
use ytlib.Text.UrlEncode.{
  isalnum, is_plain, to_hex, from_hex, encode_byte, encode, join_hex, decode,
}

from_hex-to_hex : (x : ℕ) (up : Bool) → x < 16 → from_hex (to_hex x up) ≡ x
unfolding from_hex to_hex
from_hex-to_hex x true h = ground arith
from_hex-to_hex x false h = ground arith

-- A test that holds of every number up to a bound, by evaluation.
holds_to : (ℕ → Bool) → ℕ → Bool
holds_to test zero = test zero
holds_to test (suc bound) = test (suc bound) && holds_to test bound

holds_to_lem :
    (test : ℕ → Bool) (bound : ℕ) {c : ℕ} → holds_to test bound ≡ true → c ≤ bound → test c ≡ true
unfolding holds_to
holds_to_lem test zero {c} h le = ap test {y = 0} (omega arith) ∙ h
holds_to_lem test (suc bound) {c} h le = elim (dec_lt bound c) [
  | yes above ↦ ap test {y = suc bound} (omega arith) ∙ ground arith
  | no within ↦ holds_to_lem test bound (ground arith) (omega arith)
]

nibbles : holds_to (λ x. bit_or (x / 16 * 16 % 256) (x % 16) == x) 255 ≡ true
unfolding holds_to
nibbles = refl

join_hex-to_hex :
    (c : ℕ) (up : Bool) → c < 256 → join_hex (to_hex (c / 16) up) (to_hex (c % 16) up) ≡ c
unfolding join_hex
join_hex-to_hex c up h =
    rw (from_hex-to_hex (c / 16) up (omega arith), from_hex-to_hex (c % 16) up (omega arith))
      ((==_iff _ c).0 (holds_to_lem _ 255 nibbles (omega arith)))

decode_plain : (c : ℕ) (s : List ℕ) → c ≢ b'+' → c ≢ b'%' → decode (c ∷ s) ≡ c ∷ decode s
unfolding decode
decode_plain c [] h k = ground arith
decode_plain c (a ∷ []) h k = ground arith
decode_plain c (a ∷ b ∷ s) h k = ground arith

decode_plus : (s : List ℕ) → decode (b'+' ∷ s) ≡ b' ' ∷ decode s
unfolding decode
decode_plus [] = refl
decode_plus (a ∷ []) = refl
decode_plus (a ∷ b ∷ s) = refl

decode_coded : (a b : ℕ) (s : List ℕ) → decode (b'%' ∷ a ∷ b ∷ s) ≡ join_hex a b ∷ decode s
unfolding decode
decode_coded a b s = refl

decode-encode_byte :
    (up : Bool) (c : ℕ) (s : List ℕ) → c < 256 → decode (encode_byte up c ++ s) ≡ c ∷ decode s
decode-encode_byte up c s h = elim (Bool-cases (is_plain c)) [
  | inl plain ↦
      unfold encode_byte in
      rw plain (
        decode_plain c s (unfold is_plain isalnum in ground arith)
          (unfold is_plain isalnum in ground arith))
  | inr other ↦ elim (Bool-cases (c == b' ')) [
    | inl space ↦
        let e : c ≡ b' ' = ground arith in
        unfold encode_byte in rw (other, space) (rw e (decode_plus s))
    | inr coded ↦
        unfold encode_byte in
        rw (other, coded)
          (decode_coded (to_hex (c / 16) up) (to_hex (c % 16) up) s
            ∙ ap (λ b. b ∷ decode s) (join_hex-to_hex c up h))
  ]
]

-- Decoding what was encoded gives the string back, in upper and in lower case.
pub decode-encode_url : (up : Bool) (s : List ℕ) → All (λ c. c < 256) s → decode (encode up s) ≡ s
unfolding encode
decode-encode_url up [] h = unfold decode in refl
decode-encode_url up (c ∷ s) h =
    decode-encode_byte up c (encode up s) h.0 ∙ ap (λ t. c ∷ t) (decode-encode_url up s h.1)

-- A byte that needs no escape in a query, or one of the two marks of the code.
abbrev pub IsSafe : ℕ → Type 0
IsSafe b = (is_plain b || b == b'+' || b == b'%') ≡ true

to_hex-IsSafe : (x : ℕ) (up : Bool) → x < 16 → IsSafe (to_hex x up)
unfolding to_hex is_plain isalnum
to_hex-IsSafe x true h = ground arith
to_hex-IsSafe x false h = ground arith

encode_byte-IsSafe : (up : Bool) (c : ℕ) → c < 256 → All IsSafe (encode_byte up c)
unfolding encode_byte
encode_byte-IsSafe up c h = elim (Bool-cases (is_plain c)) [
  | inl plain ↦ rw plain (rw plain, tt)
  | inr other ↦ elim (Bool-cases (c == b' ')) [
    | inl space ↦ rw (other, space) (unfold is_plain isalnum in refl, tt)
    | inr coded ↦
        rw (other, coded)
          (
            unfold is_plain isalnum in refl,
            (
              to_hex-IsSafe (c / 16) up (omega arith),
              (to_hex-IsSafe (c % 16) up (omega arith), tt),
            ),
          )
  ]
]

-- Whatever the string, every byte of its code is alphanumeric or one of `-_.~+%`.
pub encode-IsSafe : (up : Bool) (s : List ℕ) → All (λ c. c < 256) s → All IsSafe (encode up s)
unfolding encode
encode-IsSafe up [] h = tt
encode-IsSafe up (c ∷ s) h =
    All-append IsSafe (encode_byte up c) (encode up s) (encode_byte-IsSafe up c h.0)
      (encode-IsSafe up s h.1)
