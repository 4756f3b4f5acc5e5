-- ===== src/Text/UrlEncode/Tests.antt =====
-- Runs of the URL coder, and the theorems at a string.
use ytlib.Base.{ℕ, ◌≡◌, refl, true, false, List, [], ◌∷◌, arith}
use ytlib.Text.UrlEncode.{
  isalnum, is_plain, to_hex, from_hex, encode_byte, encode, join_hex, decode,
}
use ytlib.Text.UrlEncode.RoundTrip.{decode-encode_url}

-- "a /~"
abbrev text : List ℕ
text = b'a' ∷ b' ' ∷ b'/' ∷ b'~' ∷ []

encode-text : encode true text ≡ b'a' ∷ b'+' ∷ b'%' ∷ b'2' ∷ b'F' ∷ b'~' ∷ []
unfolding encode encode_byte is_plain isalnum to_hex
encode-text = refl

decode_cut : decode (b'x' ∷ b'%' ∷ b'2' ∷ []) ≡ b'x' ∷ []
unfolding decode join_hex from_hex
decode_cut = refl

decode-encode_url_example : decode (encode false text) ≡ text
decode-encode_url_example = decode-encode_url false text (omega arith)
