-- ===== src/Math/BigNum/Tests.antt =====
-- Runs of BigNum, and the theorems at two numbers.
use Prim.Native.Nat.{Ordering}
use ytlib.Base.{not, ◌*◌, ◌+◌, ◌≤◌, ◌≡◌, refl, true, false, [], ◌∷◌, arith, inr}
use ytlib.Math.BigNum.{
  compare_nums, compare_in, is_empty, mul, mul_row, mul_rows, from_int, differs, BigNum, val,
  assign_u64, digits_of, add, add_in, add_lists, add_digits, add_rest, sub, sub_digits, sub_rest,
  neg, swaps, order_digits, trim_zeros, rebase, rebase_loop, divide, drop_zeros,
}
use ytlib.Math.BigNum.Sum.{Ordered, WellFormed, above, below}
use ytlib.Math.BigNum.Rebase.{rebase_lem}
use ytlib.Math.BigNum.Product.{mul_lem}
use ytlib.Math.BigNum.Compare.{compare_nums_lem}
use ytlib.Math.BigNum.Signed.{add_lem}

-- 907 in base 10, and -0xab in base 16
abbrev a : BigNum
a = record { symbol = true; content = 7 ∷ 0 ∷ 9 ∷ []; base = 10 }

abbrev b : BigNum
b = record { symbol = false; content = 11 ∷ 10 ∷ []; base = 16 }

a-WellFormed : WellFormed a
a-WellFormed = (omega arith, omega arith, omega arith, inr (λ e. absurd (omega arith)))

b-WellFormed : WellFormed b
b-WellFormed = (omega arith, omega arith, omega arith, inr (λ e. absurd (omega arith)))

assign :
    assign_u64 907 true 10 1 ≡ record { symbol = true; content = 0 ∷ 7 ∷ 0 ∷ 9 ∷ []; base = 10 }
unfolding assign_u64 digits_of
assign = refl

rebase-b : rebase 10 b ≡ record { symbol = false; content = 1 ∷ 7 ∷ 1 ∷ []; base = 10 }
unfolding rebase rebase_loop divide drop_zeros trim_zeros
rebase-b = refl

-- 907 - 171
add-a-b : add a b ≡ record { symbol = true; content = 6 ∷ 3 ∷ 7 ∷ []; base = 10 }
unfolding add add_in swaps order_digits sub_digits sub_rest rebase rebase_loop divide drop_zeros
    trim_zeros
add-a-b = refl

-- 907 + 171
sub-a-b : sub a b ≡ record { symbol = true; content = 8 ∷ 7 ∷ 0 ∷ 1 ∷ []; base = 10 }
unfolding sub neg add add_in add_lists add_digits add_rest rebase rebase_loop divide drop_zeros
    trim_zeros
sub-a-b = refl

rebase_lem_example :
    (val (rebase 10 b).base (rebase 10 b).content ≡ val 16 b.content)
    × ((rebase 10 b).symbol ≡ false)
    × (2 ≤ 10 → (rebase 10 b).base ≡ 10)
rebase_lem_example = rebase_lem b 10 (omega arith) (omega arith) (omega arith) (omega arith)

add_lem_example : above (add a b) + below a + below b ≡ below (add a b) + above a + above b
add_lem_example = add_lem a b a-WellFormed b-WellFormed

-- 907 * -171
mul-a-b : mul a b ≡ record { symbol = false; content = 7 ∷ 9 ∷ 0 ∷ 5 ∷ 5 ∷ 1 ∷ []; base = 10 }
unfolding mul mul_rows mul_row from_int assign_u64 digits_of add add_in add_lists add_digits
    add_rest rebase rebase_loop divide drop_zeros trim_zeros
mul-a-b = refl

mul_lem_example :
    (val (mul a b).base (mul a b).content ≡ val 10 a.content * val 16 b.content)
    × ((mul a b).symbol ≡ not (differs true false))
mul_lem_example = mul_lem a b a-WellFormed b-WellFormed

compare-b-a : compare_nums b a ≡ Ordering.lt
unfolding compare_nums compare_in is_empty
compare-b-a = refl

compare_nums_lem_example : Ordered (compare_nums b a) (above b + below a) (above a + below b)
compare_nums_lem_example = compare_nums_lem b a b-WellFormed a-WellFormed
