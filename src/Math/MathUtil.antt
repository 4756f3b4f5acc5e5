-- ===== src/Math/MathUtil.antt =====
-- ytlib/math/math_util.hpp: Mul, Arn, ArnRec, Crn and CrnRec, over uint64_t.
pub mod Arrangements
pub mod Combinations
pub mod Steps
mod Tests
use ytlib.Base.{ℕ, zero, suc, ◌+◌, ◌-◌, ◌*◌, ◌/◌, ◌%◌, ◌^◌, ◌||◌, ltb, leb, ◌==◌, if◌then◌else◌}

-- A difference of two uint64_t
pub sub_u64 : ℕ → ℕ → ℕ
sub_u64 a b = (a + (2 ^ 64 - b)) % 2 ^ 64

-- The loop of `Mul`; `m` is not 0, so that `n` is not taken below 0.
pub mul_loop : ℕ → ℕ → ℕ → ℕ
mul_loop zero m re = re
mul_loop (suc n) m re = let rest = mul_loop n m (re * n % 2 ^ 64) in if leb m n then rest else re

pub mul : ℕ → ℕ → ℕ
mul n m = if ltb n m || m == 0 then 0 else mul_loop n m n

pub arn : ℕ → ℕ → ℕ
arn n m = mul n ((sub_u64 n m + 1) % 2 ^ 64)

pub arn_rec : ℕ → ℕ → ℕ → ℕ → ℕ
arn_rec n m a mr =
    if ltb n m || (m == 0 || (ltb n mr || mr == 0))
    then 0
    else if ltb m mr
    then a / mul (sub_u64 n m) ((sub_u64 n mr + 1) % 2 ^ 64)
    else if ltb mr m
    then a * mul (sub_u64 n mr) ((sub_u64 n m + 1) % 2 ^ 64) % 2 ^ 64
    else a

-- `Crn` behind its choice of the smaller product
pub crn_of : ℕ → ℕ → ℕ
crn_of n m = if n == m then 1 else mul n ((m + 1) % 2 ^ 64) / mul (n - m) 1

pub crn : ℕ → ℕ → ℕ
crn n m = if ltb n m || m == 0 then 0 else crn_of n (if ltb (2 * m % 2 ^ 64) n then n - m else m)

-- `CrnRec` behind its choice of the smaller product
pub crn_rec_of : ℕ → ℕ → ℕ → ℕ → ℕ
crn_rec_of n m c mr =
    if ltb m mr
    then c * mul mr ((m + 1) % 2 ^ 64) % 2 ^ 64 / mul (n - m) ((sub_u64 n mr + 1) % 2 ^ 64)
    else if ltb mr m
    then c * mul (n - mr) ((sub_u64 n m + 1) % 2 ^ 64) % 2 ^ 64 / mul m ((mr + 1) % 2 ^ 64)
    else c

pub crn_rec : ℕ → ℕ → ℕ → ℕ → ℕ
crn_rec n m c mr =
    if ltb n m || (m == 0 || (ltb n mr || mr == 0))
    then 0
    else crn_rec_of n (if ltb (2 * m % 2 ^ 64) n then n - m else m) c mr
