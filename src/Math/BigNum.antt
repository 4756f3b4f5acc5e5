-- ===== src/Math/BigNum.antt =====
-- ytlib/math/big_num.hpp. A number is its sign, its digits (the lowest first) and its base. Digits and
-- the base are `uint32_t`; sums and differences of them wrap at 2^32, as written.
pub mod Digits
pub mod Sum
pub mod Rebase
pub mod Signed
pub mod Form
pub mod Product
pub mod Compare
mod Tests
use Prim.Native.Nat.{compare, Ordering}
use ytlib.Base.{
  ℕ, zero, suc, ◌+◌, ◌-◌, ◌*◌, ◌/◌, ◌%◌, ◌^◌, Bool, true, false, not, ◌&&◌, ◌||◌, List, [], ◌∷◌,
  ◌++◌, ltb, leb, ◌==◌, if◌then◌else◌, length, replicate, drop,
}

abbrev pub u32 : ℕ
u32 = 2 ^ 32

abbrev pub add32 : ℕ → ℕ → ℕ
add32 a b = (a + b) % u32

abbrev pub sub32 : ℕ → ℕ → ℕ
sub32 a b = (a + u32 - b) % u32

pub record BigNum : Type 0 where
  pub symbol : Bool
  pub content : List ℕ
  pub base : ℕ

-- `base < 2` stands for UINT32_MAX.
abbrev pub real_base : ℕ → ℕ
real_base base = if ltb base 2 then 2 ^ 32 - 1 else base

-- The do-while loop of the constructor and of `AssignU64`
pub digits_of : ℕ → ℕ → ℕ → List ℕ
digits_of zero base num = []
digits_of (suc fuel) base num =
    num % base ∷ elim (num / base == 0) [ true ↦ [] | false ↦ digits_of fuel base (num / base) ]

-- `num` is below 2^64, and 64 rounds divide it down to 0. The number starts with the digit 0, which
-- stays where it is if `num` is 0.
pub assign_u64 : ℕ → Bool → ℕ → ℕ → BigNum
assign_u64 num symbol base order = record {
  symbol = symbol;
  content = (if num == 0 then 0 ∷ [] else replicate order 0) ++ digits_of 64 (real_base base) num;
  base = real_base base;
}

-- `BigNum(int64_t)`: the sign of `num` and its absolute value
pub from_int : Bool → ℕ → ℕ → ℕ → BigNum
from_int negative num base order = record {
  symbol = not negative;
  content = (if num == 0 then [] else replicate order 0) ++ digits_of 64 (real_base base) num;
  base = real_base base;
}

-- `while (content.size() > 1 && content.back() == 0) content.pop_back();`
pub trim_zeros : List ℕ → List ℕ
trim_zeros [] = []
trim_zeros (d ∷ ds) = elim (trim_zeros ds) [
  | [] ↦ d ∷ []
  | e ∷ es ↦ if e == 0 && length es == 0 then d ∷ [] else d ∷ e ∷ es
]

-- `while (content.size() > 0 && content.back() == 0) content.pop_back();`
pub drop_zeros : List ℕ → List ℕ
drop_zeros [] = []
drop_zeros (d ∷ ds) = elim (drop_zeros ds) [
  | [] ↦ if d == 0 then [] else d ∷ []
  | e ∷ es ↦ d ∷ e ∷ es
]

pub is_empty : BigNum → Bool
is_empty n = length n.content == 1 && (elim n.content [ [] ↦ false | d ∷ ds ↦ d == 0 ])

-- The inner loop of `ReBase`, from the highest digit down: the quotient's digits, and what is left.
pub divide : ℕ → ℕ → List ℕ → List ℕ × ℕ
divide from base [] = ([], 0)
divide from base (d ∷ ds) =
    let (quot, rem) = divide from base ds in
    let cur_num = (rem * from + d) % 2 ^ 64 in ((cur_num / base) % u32 ∷ quot, cur_num % base)

-- The outer loop of `ReBase`
pub rebase_loop : ℕ → ℕ → ℕ → List ℕ → List ℕ
rebase_loop zero from base content = []
rebase_loop (suc fuel) from base [] = []
rebase_loop (suc fuel) from base (d ∷ ds) =
    let (quot, rem) = divide from base (d ∷ ds) in
    rem ∷ rebase_loop fuel from base (drop_zeros quot)

-- The loops of `operator+` for one sign; `carry` is what stands in `re.content_[ii]` before.
pub add_rest : ℕ → ℕ → List ℕ → List ℕ
add_rest base carry [] = carry ∷ []
add_rest base carry (x ∷ xs) =
    let sum = add32 carry x in
    let over = sum == base in (if over then 0 else sum) ∷ add_rest base (if over then 1 else 0) xs

pub add_digits : ℕ → ℕ → List ℕ → List ℕ → List ℕ
add_digits base carry xs [] = add_rest base carry xs
add_digits base carry [] (y ∷ ys) = []
add_digits base carry (x ∷ xs) (y ∷ ys) =
    let sum = add32 carry (add32 x y) in
    let over = leb base sum || ltb sum x in
    (if over then sub32 sum base else sum) ∷ add_digits base (if over then 1 else 0) xs ys

-- The loops for two signs; `flag` is the borrow, 1 or 0.
pub sub_rest : ℕ → ℕ → List ℕ → List ℕ
sub_rest base flag [] = []
sub_rest base flag (x ∷ xs) =
    let borrow = flag == 1 && x == 0 in
    (if borrow then base - 1 else sub32 x flag) ∷ sub_rest base (if borrow then 1 else 0) xs

pub sub_digits : ℕ → ℕ → List ℕ → List ℕ → List ℕ
sub_digits base flag xs [] = sub_rest base flag xs
sub_digits base flag [] (y ∷ ys) = []
sub_digits base flag (x ∷ xs) (y ∷ ys) =
    let from_zero = flag == 1 && x == 0 in
    let short = ltb (sub32 x flag) y in
    (if from_zero
      then sub32 (base - 1) y
      else if short
      then add32 (sub32 base y) (sub32 x flag)
      else sub32 (sub32 x flag) y)
    ∷ sub_digits base (if from_zero || short then 1 else 0) xs ys

-- Two lists of the same length, compared from the highest digit down
pub order_digits : List ℕ → List ℕ → Ordering
order_digits [] ys = Ordering.eq
order_digits (x ∷ xs) [] = Ordering.eq
order_digits (x ∷ xs) (y ∷ ys) = elim (order_digits xs ys) [
  | Ordering.eq ↦ compare x y
  | Ordering.lt ↦ Ordering.lt
  | Ordering.gt ↦ Ordering.gt
]

-- Whether `operator+` swaps its operands before it subtracts
pub swaps : List ℕ → List ℕ → Bool
swaps xs ys =
    if length xs == length ys
    then elim (order_digits xs ys) [ Ordering.lt ↦ true | _ ↦ false ]
    else ltb (length xs) (length ys)

-- What the digits stand for
abbrev pub val : ℕ → List ℕ → ℕ
val base [] = 0
val base (d ∷ ds) = d + base * val base ds

-- `ReBase`; each round of its loop divides the value, so that it takes no more rounds than that and
-- one.
pub rebase : ℕ → BigNum → BigNum
rebase base n =
    let fuel = suc (val n.base n.content) in
    if ltb base 2
    then n
    else if n.base == base
    then n
    else record n { content = trim_zeros (rebase_loop fuel n.base base n.content); base = base }

-- `operator+` for one sign: the longer list is the first operand of the loops.
pub add_lists : ℕ → List ℕ → List ℕ → List ℕ
add_lists base xs ys =
    if ltb (length xs) (length ys) then add_digits base 0 ys xs else add_digits base 0 xs ys

-- `symbol_ ^ real_val.symbol_`
abbrev pub differs : Bool → Bool → Bool
differs true symbol = not symbol
differs false symbol = symbol

-- `operator+` behind the change of base
pub add_in : ℕ → Bool → List ℕ → Bool → List ℕ → BigNum
add_in base symbol xs symbol' ys =
    if differs symbol symbol'
    then if swaps xs ys
      then record { symbol = symbol'; content = trim_zeros (sub_digits base 0 ys xs); base = base }
      else record { symbol = symbol; content = trim_zeros (sub_digits base 0 xs ys); base = base }
    else record { symbol = symbol; content = trim_zeros (add_lists base xs ys); base = base }

pub add : BigNum → BigNum → BigNum
add a value =
    let b = if a.base == value.base then value else rebase a.base value in
    add_in a.base a.symbol a.content b.symbol b.content

pub neg : BigNum → BigNum
neg n = record n { symbol = not n.symbol }

pub sub : BigNum → BigNum → BigNum
sub a b = add a (neg b)

-- The inner loop of `operator*`: the digit `x` at place `i` times the digits from place `j` on, added
-- to `re`.
pub mul_row : ℕ → ℕ → ℕ → List ℕ → ℕ → BigNum → BigNum
mul_row base x i [] j re = re
mul_row base x i (y ∷ ys) j re =
    mul_row base x i ys (j + 1)
      (if y == 0 then re else add re (assign_u64 (x * y) true base (i + j)))

-- The outer loop
pub mul_rows : ℕ → List ℕ → ℕ → List ℕ → BigNum → BigNum
mul_rows base [] i ys re = re
mul_rows base (x ∷ xs) i ys re =
    mul_rows base xs (i + 1) ys (if x == 0 then re else mul_row base x i ys 0 re)

pub mul : BigNum → BigNum → BigNum
mul a value =
    let b = if a.base == value.base then value else rebase a.base value in
    let re = mul_rows a.base a.content 0 b.content (from_int false 0 a.base 0) in
    record re { symbol = not (differs a.symbol b.symbol); content = trim_zeros re.content }

-- `operator<<` and `operator>>`
pub shift_left : BigNum → ℕ → BigNum
shift_left n k = if is_empty n then n else record n { content = replicate k 0 ++ n.content }

pub shift_right : BigNum → ℕ → BigNum
shift_right n k =
    if leb (length n.content) k
    then record n { content = 0 ∷ [] }
    else record n { content = drop k n.content }

-- `Compare` behind the signs, which are the same: lt stands for -1, eq for 0, gt for 1.
pub compare_in : Bool → List ℕ → List ℕ → Ordering
compare_in symbol xs ys =
    if length xs == length ys
    then elim (order_digits xs ys) [
      | Ordering.eq ↦ Ordering.eq
      | Ordering.gt ↦ if differs symbol true then Ordering.lt else Ordering.gt
      | Ordering.lt ↦ if differs symbol false then Ordering.lt else Ordering.gt
    ]
    else if differs symbol (ltb (length ys) (length xs))
    then Ordering.lt
    else Ordering.gt

pub compare_nums : BigNum → BigNum → Ordering
compare_nums l value =
    let r = if l.base == value.base then value else rebase l.base value in
    if is_empty l && is_empty value
    then Ordering.eq
    else if l.symbol && not value.symbol
    then Ordering.gt
    else if not l.symbol && value.symbol
    then Ordering.lt
    else compare_in l.symbol l.content r.content
