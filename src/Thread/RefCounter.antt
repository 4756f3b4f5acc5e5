-- ===== src/Thread/RefCounter.antt =====
-- ytlib/thread/ref_counter.hpp: RefCounter. The counters are numbered as they are made; a RefCounter is
-- the number of its counter, or none, which stands for the null pointer and for an object that is gone.
pub mod Owners
mod Tests
use ytlib.Base.{
  ℕ, ◌+◌, ◌-◌, ◌%◌, ◌^◌, Bool, true, false, List, [], ◌∷◌, ◌++◌, Option, none, some, length, get_or,
  set, ◌==◌, if◌then◌else◌,
}

-- `n_` of every counter; 0 says that it was deleted, with its object.
pub record Refs : Type 0 where
  counters : List ℕ
  handles : List (Option ℕ)

abbrev pub n_of : ℕ → Refs → ℕ
n_of id r = get_or r.counters id 0

abbrev pub handle : ℕ → Refs → Option ℕ
handle h r = get_or r.handles h none

abbrev pub set_handle : ℕ → Option ℕ → Refs → Refs
set_handle h v r = record r { handles = set r.handles h v }

-- `none` says that a null pointer or a deleted counter is read.
pub add_ref : Option ℕ → Refs → Option Refs
add_ref none r = none
add_ref (some id) r =
    if n_of id r == 0
    then none
    else some (record r { counters = set r.counters id ((n_of id r + 1) % 2 ^ 32) })

pub sub_ref : Option ℕ → Refs → Option Refs
sub_ref none r = none
sub_ref (some id) r =
    if n_of id r == 0
    then none
    else some (record r { counters = set r.counters id (n_of id r - 1) })

pub and_then : Option Refs → (Refs → Option Refs) → Option Refs
and_then none f = none
and_then (some r) f = f r

-- The constructor from a pointer, and MakeRefCounter
pub make_ref_counter : Refs → Refs
make_ref_counter r = record {
  counters = r.counters ++ 1 ∷ [];
  handles = r.handles ++ some (length r.counters) ∷ [];
}

pub copy_construct : ℕ → Refs → Option Refs
copy_construct rhs r =
    add_ref (handle rhs r) (record r { handles = r.handles ++ handle rhs r ∷ [] })

pub move_construct : ℕ → Refs → Refs
move_construct rhs r = record r { handles = set r.handles rhs none ++ handle rhs r ∷ [] }

pub copy_assign : ℕ → ℕ → Refs → Option Refs
copy_assign this rhs r =
    if this == rhs
    then some r
    else and_then (sub_ref (handle this r) r)
        (λ r'. add_ref (handle rhs r) (set_handle this (handle rhs r) r'))

pub move_assign : ℕ → ℕ → Refs → Option Refs
move_assign this rhs r =
    if this == rhs
    then some r
    else and_then (sub_ref (handle this r) r)
        (λ r'. some (set_handle rhs none (set_handle this (handle rhs r) r')))

pub destroy_handle : Option ℕ → ℕ → Refs → Option Refs
destroy_handle none this r = some r
destroy_handle (some id) this r =
    and_then (sub_ref (some id) r) (λ r'. some (set_handle this none r'))

-- `~RefCounter`
pub destroy : ℕ → Refs → Option Refs
destroy this r = destroy_handle (handle this r) this r

-- `Counter` and `Get` read the counter: `none` where there is none.
pub counter : ℕ → Refs → Option ℕ
counter this r = elim (handle this r) [
  | none ↦ none
  | some id ↦ if n_of id r == 0 then none else some (n_of id r)
]
