-- ===== src/Text/Affix.antt =====
-- ytlib/string/string_util.hpp: the tests of a string's ends and characters, case, paths and the FNV-1a
-- hashes. `tolower`, `toupper` and `isalnum` are those of the C locale.
pub mod Ends
pub mod Chars
mod Tests
use Prim.Native.Nat.{bit_xor}
use ytlib.Base.{
  ℕ, zero, suc, ◌+◌, ◌-◌, ◌*◌, ◌%◌, ◌^◌, Bool, true, false, not, ◌&&◌, ◌||◌, List, [], ◌∷◌, ◌++◌,
  map, ltb, leb, ◌==◌, if◌then◌else◌, length, drop,
}
use ytlib.Text.UrlEncode.{isalnum}

pub char_to_lower : ℕ → ℕ
char_to_lower c = if leb b'A' c && leb c b'Z' then c + 32 else c

pub char_to_upper : ℕ → ℕ
char_to_upper c = if leb b'a' c && leb c b'z' then c - 32 else c

pub str_to_lower : List ℕ → List ℕ
str_to_lower str = map char_to_lower str

pub str_to_upper : List ℕ → List ℕ
str_to_upper str = map char_to_upper str

-- The loop of `StartsWith` and of `EndsWith`, from the characters of the string that it starts at
pub same_chars : Bool → List ℕ → List ℕ → Bool
same_chars ignore_case [] str = true
same_chars ignore_case (p ∷ pattern) [] = false
same_chars ignore_case (p ∷ pattern) (c ∷ str) =
    let rest = same_chars ignore_case pattern str in
    let same = if ignore_case then char_to_lower p == char_to_lower c else p == c in
    if not same then false else rest

pub starts_with : List ℕ → List ℕ → Bool → Bool
starts_with str pattern ignore_case =
    if ltb (length str) (length pattern) || length pattern == 0
    then false
    else same_chars ignore_case pattern str

pub ends_with : List ℕ → List ℕ → Bool → Bool
ends_with str pattern ignore_case =
    if ltb (length str) (length pattern) || length pattern == 0
    then false
    else same_chars ignore_case pattern (drop (length str - length pattern) str)

-- The loops of `IsAlnumStr` and `IsDigitStr`
pub all_alnum : List ℕ → Bool
all_alnum [] = true
all_alnum (c ∷ str) = let rest = all_alnum str in if not (isalnum c) then false else rest

pub all_digits : List ℕ → Bool
all_digits [] = true
all_digits (c ∷ str) = let rest = all_digits str in if ltb b'9' c || ltb c b'0' then false else rest

pub is_alnum_str : List ℕ → Bool
is_alnum_str str = if length str == 0 then false else all_alnum str

pub is_digit_str : List ℕ → Bool
is_digit_str str = if length str == 0 then false else all_digits str

-- `std::replace(.., '\\', '/')`
pub replace_slashes : List ℕ → List ℕ
replace_slashes path = map (λ c. if c == 92 then b'/' else c) path

-- `path[path.length() - 1]`, or 0 for an empty path, which the code does not ask for
pub last_char : List ℕ → ℕ
last_char [] = 0
last_char (c ∷ []) = c
last_char (c ∷ d ∷ path) = last_char (d ∷ path)

pub standardise_path : List ℕ → List ℕ
standardise_path [] = b'/' ∷ []
standardise_path (c ∷ path) =
    let replaced = replace_slashes (c ∷ path) in
    if not (last_char replaced == b'/') then replaced ++ b'/' ∷ [] else replaced

-- The loop of the hashes in `bits` bits, which they start with their offset
pub fnv1a : ℕ → ℕ → ℕ → List ℕ → ℕ
fnv1a bits prime hash [] = hash
fnv1a bits prime hash (c ∷ bytes) = fnv1a bits prime (bit_xor hash c * prime % 2 ^ bits) bytes

pub hash64_fnv1a : List ℕ → ℕ
hash64_fnv1a bytes = fnv1a 64 0x100000001b3 0xcbf29ce484222325 bytes

pub hash32_fnv1a : List ℕ → ℕ
hash32_fnv1a bytes = fnv1a 32 0x1000193 0x811c9dc5 bytes
