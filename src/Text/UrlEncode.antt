-- ===== src/Text/UrlEncode.antt =====
-- ytlib/string/url_encode.hpp. A string is the list of its bytes, as `unsigned char`.
-- `isalnum` is that of the C locale.
pub mod RoundTrip
mod Tests
use Prim.Native.Nat.{bit_or}
use ytlib.Base.{
  ℕ, ◌+◌, ◌-◌, ◌*◌, ◌/◌, ◌%◌, Bool, true, false, ◌&&◌, ◌||◌, List, [], ◌∷◌, ◌++◌, ltb, leb, ◌==◌,
  if◌then◌else◌,
}

unfoldable pub isalnum : ℕ → Bool
isalnum c = leb 48 c && leb c 57 || leb 65 c && leb c 90 || leb 97 c && leb c 122

pub to_hex : ℕ → Bool → ℕ
to_hex x up = if ltb 9 x then (x + (if up then 55 else 87)) % 256 else (x + 48) % 256

pub from_hex : ℕ → ℕ
from_hex x =
    if leb b'A' x && leb x b'Z'
    then x - 55
    else if leb b'a' x && leb x b'z'
    then x - 87
    else if leb b'0' x && leb x b'9'
    then x - b'0'
    else 0

-- The bytes that the encoder copies.
pub is_plain : ℕ → Bool
is_plain c = isalnum c || c == b'-' || c == b'_' || c == b'.' || c == b'~'

-- What the encoder appends for one byte.
pub encode_byte : Bool → ℕ → List ℕ
encode_byte up c =
    if is_plain c
    then c ∷ []
    else if c == b' '
    then b'+' ∷ []
    else b'%' ∷ to_hex (c / 16) up ∷ to_hex (c % 16) up ∷ []

pub encode : Bool → List ℕ → List ℕ
encode up [] = []
encode up (c ∷ s) = encode_byte up c ++ encode up s

-- `c | FromHex(...)` behind `unsigned char c = FromHex(...) << 4`
pub join_hex : ℕ → ℕ → ℕ
join_hex high low = bit_or (from_hex high * 16 % 256) (from_hex low)

-- A `%` with fewer than two bytes behind it ends the loop.
pub decode : List ℕ → List ℕ
decode [] = []
decode (c ∷ []) = if c == b'+' then b' ' ∷ [] else if c == b'%' then [] else c ∷ []
decode (c ∷ a ∷ []) =
    let rest = decode (a ∷ []) in
    if c == b'+' then b' ' ∷ rest else if c == b'%' then [] else c ∷ rest
decode (c ∷ a ∷ b ∷ s) =
    let rest = decode (a ∷ b ∷ s) in
    let coded = join_hex a b ∷ decode s in
    if c == b'+' then b' ' ∷ rest else if c == b'%' then coded else c ∷ rest
