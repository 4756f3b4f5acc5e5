-- ===== src/Thread/RefCounter/Tests.antt =====
-- The theorems on RefCounter at two objects.
use ytlib.Base.{suc, zero, ◌≡◌, refl, [], ◌∷◌, none, some, arith}
use ytlib.Thread.RefCounter.{Refs, copy_assign, add_ref, sub_ref, and_then}
use ytlib.Thread.RefCounter.Owners.{hit, owners, IsCounted, copy_assign-IsCounted}

abbrev two : Refs
two = record { counters = 1 ∷ 1 ∷ []; handles = some 0 ∷ some 1 ∷ none ∷ [] }

two-IsCounted : IsCounted two
unfolding IsCounted owners hit
two-IsCounted zero = refl
two-IsCounted (suc zero) = refl
two-IsCounted (suc (suc id)) = ground arith

-- The last object of a counter that is assigned over deletes it.
assign_two :
    copy_assign 0 1 two
    ≡ some (record { counters = 0 ∷ 2 ∷ []; handles = some 1 ∷ some 1 ∷ none ∷ [] })
unfolding copy_assign sub_ref add_ref and_then
assign_two = refl

copy_assign-IsCounted_example :
    (r' : Refs) × (copy_assign 0 1 two ≡ some r')
    × IsCounted r'
    × (r'.handles ≡ some 1 ∷ some 1 ∷ none ∷ [])
copy_assign-IsCounted_example =
    copy_assign-IsCounted 0 1 0 1 two two-IsCounted (omega arith) (omega arith) refl refl
