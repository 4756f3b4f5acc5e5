-- ===== src/Math/MathUtil/Tests.antt =====
-- Runs of Arn and Crn, and the theorems at small numbers.
use ytlib.Base.{◌≡◌, refl, arith}
use ytlib.Math.MathUtil.{sub_u64, mul_loop, mul, arn, arn_rec, crn, crn_rec}
use ytlib.Math.MathUtil.Arrangements.{fact, arn_rec_lem}
use ytlib.Math.MathUtil.Steps.{crn_rec_lem}
use ytlib.Math.MathUtil.Combinations.{choose, crn_lem}

arn_five : arn 5 2 ≡ 20
unfolding arn mul mul_loop sub_u64
arn_five = refl

-- No elements can be taken in one way, but Crn gives 0.
crn_none : crn 5 0 ≡ 0
unfolding crn
crn_none = refl

arn_rec_lem_example : arn_rec 5 4 (arn 5 2) 2 ≡ arn 5 4
arn_rec_lem_example =
    arn_rec_lem 5 4 2 (omega arith) (omega arith) (omega arith) (omega arith)
      (unfold fact in omega arith)

crn_lem_example : crn 5 1 ≡ choose 1 4
crn_lem_example = crn_lem 5 1 (omega arith) (omega arith) (unfold fact in omega arith)

crn_rec_lem_example : crn_rec 5 1 (crn 5 3) 3 ≡ crn 5 1
crn_rec_lem_example =
    crn_rec_lem 5 1 3 (omega arith) (omega arith) (omega arith) (omega arith)
      (unfold fact in omega arith)
