-- ===== src/Text/Base64/Tests.antt =====
-- Runs of the base64 coder, and the theorems at a string.
use ytlib.Base.{ℕ, ◌≡◌, refl, List, [], ◌∷◌, arith, length}
use ytlib.Text.Base64.{
  base64_char, bit_val, pick, pad, encode_from, encode, bytes, runtime_error, emit, decode_from,
  decode,
}
use ytlib.Text.Base64.RoundTrip.{length-encode, decode-encode}

-- "fooba"
abbrev text : List ℕ
text = b'f' ∷ b'o' ∷ b'o' ∷ b'b' ∷ b'a' ∷ []

-- "Zm9vYmE="
encode-text : encode text ≡ b'Z' ∷ b'm' ∷ b'9' ∷ b'v' ∷ b'Y' ∷ b'm' ∷ b'E' ∷ b'=' ∷ []
unfolding encode encode_from pick pad base64_char
encode-text = refl

decode_bad : decode (b'Z' ∷ b'!' ∷ b'9' ∷ b'v' ∷ []) ≡ runtime_error
unfolding decode decode_from bit_val emit
decode_bad = refl

decode-encode_example : decode (encode text) ≡ bytes text
decode-encode_example = decode-encode text (omega arith)

length-encode_example : length (encode text) ≡ 8
length-encode_example = length-encode text (omega arith)
