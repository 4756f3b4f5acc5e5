-- ===== src/Text/Base64.antt =====
-- ytlib/string/base64_encode.hpp. A string is the list of its bytes.
-- `bit_stream` is a `uint32_t`; `x >> k & m` masks what the shift leaves, and the masks are written
-- as remainders.
pub mod Groups
pub mod RoundTrip
mod Tests
use ytlib.Base.{
  ℕ, ◌+◌, ◌-◌, ◌*◌, ◌/◌, ◌%◌, ◌^◌, Bool, true, false, ◌&&◌, not, List, [], ◌∷◌, ◌++◌, ltb, leb,
  ◌==◌, if◌then◌else◌, length,
}

-- `base64_chars[v]`, for v below 64
pub base64_char : ℕ → ℕ
base64_char v =
    if ltb v 26
    then b'A' + v
    else if ltb v 52
    then b'a' + (v - 26)
    else if ltb v 62
    then b'0' + (v - 52)
    else if v == 62
    then b'+'
    else b'/'

-- `find_bit_val_func`
pub bit_val : ℕ → ℕ
bit_val c =
    if leb b'A' c && leb c b'Z'
    then c - b'A'
    else if leb b'a' c && leb c b'z'
    then c - b'a' + 26
    else if leb b'0' c && leb c b'9'
    then c - b'0' + 52
    else if c == b'+'
    then 62
    else if c == b'/'
    then 63
    else 255

abbrev pub u32 : ℕ
u32 = 2 ^ 32

-- The character at `bit_stream >> shift & 0x3f`, the shift as a factor.
pub pick : ℕ → ℕ → ℕ
pick bit_stream factor = base64_char (bit_stream / factor % 64)

-- What is appended behind the loop.
pub pad : ℕ → ℕ → List ℕ
pad offset bit_stream =
    if offset == 16
    then pick bit_stream (2 ^ 12) ∷ b'=' ∷ b'=' ∷ []
    else if offset == 8
    then pick bit_stream (2 ^ 6) ∷ b'=' ∷ []
    else []

-- The loop from index `ii` on, and what follows it.
pub encode_from : ℕ → ℕ → ℕ → List ℕ → List ℕ
encode_from ii offset bit_stream [] = pad offset bit_stream
encode_from ii offset bit_stream (c ∷ src) =
    let offset' = 16 - ii % 3 * 8 in
    let bits = (bit_stream + c * 2 ^ offset') % u32 in
    let go_on = encode_from (ii + 1) offset' bits src in
    let restart = encode_from (ii + 1) offset' 0 src in
    if offset' == 16
    then pick bits (2 ^ 18) ∷ go_on
    else if offset' == 8
    then pick bits (2 ^ 12) ∷ go_on
    else if offset' == 0 && not (ii == 3)
    then pick bits (2 ^ 6) ∷ pick bits 1 ∷ restart
    else go_on

pub encode : List ℕ → List ℕ
encode src = encode_from 0 0 0 src

pub data Decoded : Type 0 where
  bytes : List ℕ → Decoded
  runtime_error : Decoded

-- Puts the bytes that an iteration appends before those of the later ones.
abbrev pub after : List ℕ → Decoded → Decoded
after xs (bytes ys) = bytes (xs ++ ys)
after xs runtime_error = runtime_error

-- What one iteration of the decoder appends.
pub emit : ℕ → ℕ → ℕ → List ℕ
emit ii offset bits =
    if offset == 12
    then bits / 2 ^ 16 % 256 ∷ []
    else if offset == 6
    then bits / 2 ^ 8 % 256 ∷ []
    else if offset == 0 && not (ii == 4)
    then bits % 256 ∷ []
    else []

-- The loop from index `ii` on. A `=` is passed over, wherever it stands.
pub decode_from : ℕ → ℕ → List ℕ → Decoded
decode_from ii bit_stream [] = bytes []
decode_from ii bit_stream (c ∷ src) =
    let v = bit_val c in
    let offset = 18 - ii % 4 * 6 in
    let bits = (bit_stream + v * 2 ^ offset) % u32 in
    let next = decode_from (ii + 1) (if offset == 0 && not (ii == 4) then 0 else bits) src in
    let skip = decode_from (ii + 1) bit_stream src in
    if ltb v 64 then after (emit ii offset bits) next else if c == b'=' then skip else runtime_error

pub decode : List ℕ → Decoded
decode [] = bytes []
decode (c ∷ src) =
    let rest = decode_from 0 0 (c ∷ src) in
    if length (c ∷ src) % 4 == 0 then rest else runtime_error
