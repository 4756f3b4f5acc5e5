-- ===== src/Thread/RefCounter/Owners.antt =====
-- A counter counts the objects that point at it, so none is used once it is deleted.
use ytlib.Base.{
  ℕ, zero, suc, ◌+◌, ◌-◌, ◌%◌, ◌^◌, ◌≤◌, ◌<◌, ◌≡◌, ◌≢◌, refl, ap, sym, subst, ◌∙◌, true, false,
  List, [], ◌∷◌, ◌++◌, Option, none, some, length, length-set, get_or, get_or-set_self,
  get_or-set_ne, set, ◌==◌, if◌then◌else◌, Bool-cases, inl, inr, arith,
}
use ytlib.Thread.RefCounter.{
  Refs, n_of, handle, set_handle, add_ref, sub_ref, and_then, make_ref_counter, copy_construct,
  move_construct, copy_assign, move_assign, destroy, destroy_handle,
}

-- Whether an object points at the counter `id`
unfoldable pub hit : ℕ → Option ℕ → ℕ
hit id none = 0
hit id (some k) = if k == id then 1 else 0

unfoldable pub owners : ℕ → List (Option ℕ) → ℕ
owners id [] = 0
owners id (h ∷ hs) = hit id h + owners id hs

-- Every counter holds the number of the objects that point at it; none points past the counters,
-- since there the number is 0.
unfoldable pub IsCounted : Refs → Type 0
IsCounted r = (id : ℕ) → n_of id r ≡ owners id r.handles

owners-append :
    (id : ℕ) (hs ks : List (Option ℕ)) → owners id (hs ++ ks) ≡ owners id hs + owners id ks
unfolding owners
owners-append id [] ks = omega arith
owners-append id (h ∷ hs) ks = omega (arith, owners-append id hs ks)

owners-set :
    (id : ℕ) (hs : List (Option ℕ)) (i : ℕ) (v : Option ℕ)
    → i < length hs
    → owners id (set hs i v) + hit id (get_or hs i none) ≡ owners id hs + hit id v
unfolding owners
owners-set id [] i v h = absurd (omega arith)
owners-set id (x ∷ hs) zero v h = omega arith
owners-set id (x ∷ hs) (suc i) v h = omega (arith, owners-set id hs i v (omega arith))

owners-bound : (id : ℕ) (hs : List (Option ℕ)) → owners id hs ≤ length hs
unfolding owners hit
owners-bound id [] = omega arith
owners-bound id (none ∷ hs) = omega (arith, owners-bound id hs)
owners-bound id (some k ∷ hs) = ground (arith, owners-bound id hs)

owners-at : (hs : List (Option ℕ)) (i id : ℕ) → get_or hs i none ≡ some id → 1 ≤ owners id hs
unfolding owners hit
owners-at [] i id e = absurd (ground arith)
owners-at (h ∷ hs) zero id e = let t : (id == id) ≡ true = ground arith in rw (e, t) (omega arith)
owners-at (h ∷ hs) (suc i) id e = omega (arith, owners-at hs i id e)

hit_self : (id : ℕ) → hit id (some id) ≡ 1
unfolding hit
hit_self id = let t : (id == id) ≡ true = ground arith in rw t refl

hit_ne : (id k : ℕ) → k ≢ id → hit id (some k) ≡ 0
unfolding hit
hit_ne id k ne = let f : (k == id) ≡ false = ground arith in rw f refl

get_or_past : (l : List ℕ) (i : ℕ) → length l ≤ i → get_or l i 0 ≡ 0
get_or_past [] i h = refl
get_or_past (x ∷ l) zero h = absurd (omega arith)
get_or_past (x ∷ l) (suc i) h = get_or_past l i (omega arith)

get_or_within : (l : List ℕ) (i : ℕ) → 1 ≤ get_or l i 0 → i < length l
get_or_within [] i h = absurd (omega arith)
get_or_within (x ∷ l) zero h = omega arith
get_or_within (x ∷ l) (suc i) h = omega (arith, get_or_within l i h)

owners_last :
    (id : ℕ) (hs : List (Option ℕ)) (h : Option ℕ)
    → owners id (hs ++ h ∷ []) ≡ owners id hs + hit id h
owners_last id hs h =
    let one : owners id (h ∷ []) ≡ hit id h = unfold owners in omega arith in
    omega (arith, owners-append id hs (h ∷ []), one)

get_or_last :
    (l : List ℕ) (k : ℕ)
    → get_or (l ++ 1 ∷ []) k 0 ≡ get_or l k 0 + (if length l == k then 1 else 0)
get_or_last [] zero = refl
get_or_last [] (suc k) = ground arith
get_or_last (x ∷ l) zero = ground arith
get_or_last (x ∷ l) (suc k) =
    let same : (suc (length l) == suc k) ≡ (length l == k) = ground arith in
    rw same (get_or_last l k)

-- AddRef and SubRef on a counter that is there
add_ref_lem :
    (id : ℕ) (r : Refs)
    → 1 ≤ n_of id r
    → n_of id r + 1 < 2 ^ 32
    → (r' : Refs) × (add_ref (some id) r ≡ some r')
      × (r'.handles ≡ r.handles)
      × ((k : ℕ) → n_of k r' ≡ n_of k r + hit k (some id))
unfolding add_ref
add_ref_lem id r live fits =
    let f : (n_of id r == 0) ≡ false = ground arith in
    let within : id < length r.counters = get_or_within r.counters id live in
    let wrap : (n_of id r + 1) % 2 ^ 32 ≡ n_of id r + 1 = omega arith in
    (
      record r { counters = set r.counters id ((n_of id r + 1) % 2 ^ 32) },
      rw (f, add_ref) refl,
      refl,
      λ k. elim (Bool-cases (id == k)) [
        | inl t ↦
            let e : id ≡ k = ground arith in
            subst
              (λ i.
                get_or (set r.counters id ((n_of id r + 1) % 2 ^ 32)) i 0
                ≡ n_of i r + hit i (some id))
              e
              (get_or-set_self r.counters id ((n_of id r + 1) % 2 ^ 32) 0 within
                ∙ omega (arith, hit_self id))
        | inr g ↦
            let ne : id ≢ k = ground arith in
            get_or-set_ne r.counters id k ((n_of id r + 1) % 2 ^ 32) 0 ne
            ∙ omega (arith, hit_ne k id ne)
      ],
    )

sub_ref_lem :
    (id : ℕ) (r : Refs)
    → 1 ≤ n_of id r
    → (r' : Refs) × (sub_ref (some id) r ≡ some r')
      × (r'.handles ≡ r.handles)
      × ((k : ℕ) → n_of k r' + hit k (some id) ≡ n_of k r)
unfolding sub_ref
sub_ref_lem id r live =
    let f : (n_of id r == 0) ≡ false = ground arith in
    let within : id < length r.counters = get_or_within r.counters id live in
    (
      record r { counters = set r.counters id (n_of id r - 1) },
      rw (f, sub_ref) refl,
      refl,
      λ k. elim (Bool-cases (id == k)) [
        | inl t ↦
            let e : id ≡ k = ground arith in
            subst (λ i. get_or (set r.counters id (n_of id r - 1)) i 0 + hit i (some id) ≡ n_of i r)
              e (omega (arith, get_or-set_self r.counters id (n_of id r - 1) 0 within, hit_self id))
        | inr g ↦
            let ne : id ≢ k = ground arith in
            omega (arith, get_or-set_ne r.counters id k (n_of id r - 1) 0 ne, hit_ne k id ne)
      ],
    )

-- A new object has a counter of its own at 1.
pub make_ref_counter-IsCounted : (r : Refs) → IsCounted r → IsCounted (make_ref_counter r)
unfolding IsCounted make_ref_counter hit
make_ref_counter-IsCounted r inv k =
    let grown : owners k (r.handles ++ some (length r.counters) ∷ [])
        ≡ owners k r.handles + hit k (some (length r.counters)) =
      owners_last k r.handles (some (length r.counters)) in
    get_or_last r.counters k ∙ ap (λ n. n + hit k (some (length r.counters))) (inv k) ∙ sym grown

-- Copy construction from an object that is not null counts one more, and does not fail.
pub copy_construct-IsCounted :
    (rhs id : ℕ) (r : Refs)
    → IsCounted r
    → length r.handles + 1 < 2 ^ 32
    → handle rhs r ≡ some id
    → (r' : Refs) × (copy_construct rhs r ≡ some r') × IsCounted r'
unfolding IsCounted copy_construct
copy_construct-IsCounted rhs id r inv fits e =
    let live : 1 ≤ n_of id r = omega (arith, inv id, owners-at r.handles rhs id e) in
    let few : n_of id r + 1 < 2 ^ 32 = omega (arith, inv id, owners-bound id r.handles) in
    let (r', run, same, sum) =
      add_ref_lem id (record r { handles = r.handles ++ some id ∷ [] }) live few in
    (
      r',
      rw e run,
      λ k.
          sum k
          ∙ ap (λ n. n + hit k (some id)) (inv k)
          ∙ sym (owners_last k r.handles (some id))
          ∙ ap (owners k) (sym same),
    )

-- Move construction leaves the counters as they are.
pub move_construct-IsCounted :
    (rhs : ℕ) (r : Refs) → IsCounted r → rhs < length r.handles → IsCounted (move_construct rhs r)
unfolding IsCounted move_construct
move_construct-IsCounted rhs r inv h k =
    let none_hit : hit k none ≡ 0 = unfold hit in refl in
    omega (
      arith,
      inv k,
      owners_last k (set r.handles rhs none) (handle rhs r),
      owners-set k r.handles rhs none h,
    )

-- What the objects of a state are without one of them
lost_one :
    (this i : ℕ) (r r' : Refs) (v : Option ℕ)
    → IsCounted r
    → this < length r.handles
    → handle this r ≡ some i
    → ((k : ℕ) → n_of k r' + hit k (some i) ≡ n_of k r)
    → (k : ℕ) → n_of k r' + hit k v ≡ owners k (set r.handles this v)
unfolding IsCounted
lost_one this i r r' v inv h e sum k =
    let swapped : owners k (set r.handles this v) + hit k (some i) ≡ owners k r.handles + hit k v =
      subst (λ x. owners k (set r.handles this v) + hit k x ≡ owners k r.handles + hit k v) e
        (owners-set k r.handles this v h) in
    omega (arith, inv k, sum k, swapped)

copy_assign_self :
    (this rhs : ℕ) (r : Refs) → (this == rhs) ≡ true → copy_assign this rhs r ≡ some r
unfolding copy_assign
copy_assign_self this rhs r t = rw (t, copy_assign) refl

copy_assign_run :
    (this rhs i j : ℕ) (r r1 : Refs) (o : Option Refs)
    → (this == rhs) ≡ false
    → handle this r ≡ some i
    → handle rhs r ≡ some j
    → sub_ref (some i) r ≡ some r1
    → add_ref (some j) (set_handle this (some j) r1) ≡ o
    → copy_assign this rhs r ≡ o
unfolding copy_assign and_then
copy_assign_run this rhs i j r r1 o g e f run run' = rw (g, e, f, run, and_then) run'

set_own :
    (hs : List (Option ℕ)) (i : ℕ) (v : Option ℕ)
    → i < length hs
    → get_or hs i none ≡ v
    → set hs i v ≡ hs
set_own [] i v h e = absurd (omega arith)
set_own (x ∷ hs) zero v h e = ap (λ y. y ∷ hs) (sym e)
set_own (x ∷ hs) (suc i) v h e = ap (λ l. x ∷ l) (set_own hs i v (omega arith) e)

-- Copy assignment between two objects that are not null does not fail, if every counter holds the number
-- of the objects that point at it and there are fewer than 2^32 - 1 objects: the left object points at
-- the counter of the right one then, no other object changes, and every counter again holds the number of
-- the objects that point at it.
pub copy_assign-IsCounted :
    (this rhs i j : ℕ) (r : Refs)
    → IsCounted r
    → length r.handles + 1 < 2 ^ 32
    → this < length r.handles
    → handle this r ≡ some i
    → handle rhs r ≡ some j
    → (r' : Refs) × (copy_assign this rhs r ≡ some r')
      × IsCounted r'
      × (r'.handles ≡ set r.handles this (some j))
copy_assign-IsCounted this rhs i j r inv fits h e f = elim (Bool-cases (this == rhs)) [
  | inl t ↦
      let e' : this ≡ rhs = ground arith in
      let own : get_or r.handles this none ≡ some j = ap (λ k. get_or r.handles k none) e' ∙ f in
      (r, copy_assign_self this rhs r t, inv, sym (set_own r.handles this (some j) h own))
  | inr g ↦
      let ne : this ≢ rhs = ground arith in
      let count : (k : ℕ) → n_of k r ≡ owners k r.handles = unfold IsCounted in inv in
      let live : 1 ≤ n_of i r = omega (arith, count i, owners-at r.handles this i e) in
      let (r1, run, same, sum) = sub_ref_lem i r live in
      let left : (v : Option ℕ) (k : ℕ) → n_of k r1 + hit k v ≡ owners k (set r.handles this v) =
        λ v. lost_one this i r r1 v inv h e sum in
      let still : get_or (set r.handles this none) rhs none ≡ some j =
        get_or-set_ne r.handles this rhs none none ne ∙ f in
      let zero_hit : hit j none ≡ 0 = unfold hit in refl in
      let live' : 1 ≤ n_of j r1 =
        omega (arith, left none j, owners-at (set r.handles this none) rhs j still) in
      let few : n_of j r1 + 1 < 2 ^ 32 = omega (arith, sum j, count j, owners-bound j r.handles) in
      let (r2, run', same', sum') = add_ref_lem j (set_handle this (some j) r1) live' few in
      let named : r2.handles ≡ set r.handles this (some j) =
        same' ∙ ap (λ l. set l this (some j)) same in
      (
        r2,
        copy_assign_run this rhs i j r r1 (some r2) g e f run run',
        unfold IsCounted in λ k. sum' k ∙ left (some j) k ∙ ap (owners k) (sym named),
        named,
      )
]

move_assign_run :
    (this rhs i : ℕ) (r r1 : Refs)
    → (this == rhs) ≡ false
    → handle this r ≡ some i
    → sub_ref (some i) r ≡ some r1
    → move_assign this rhs r ≡ some (set_handle rhs none (set_handle this (handle rhs r) r1))
unfolding move_assign and_then
move_assign_run this rhs i r r1 g e run = rw (g, e, run, and_then) refl

-- Move assignment to an object that is not null does not fail and keeps the counters right.
pub move_assign-IsCounted :
    (this rhs i : ℕ) (r : Refs)
    → IsCounted r
    → this < length r.handles
    → rhs < length r.handles
    → handle this r ≡ some i
    → (r' : Refs) × (move_assign this rhs r ≡ some r') × IsCounted r'
unfolding move_assign and_then
move_assign-IsCounted this rhs i r inv h h' e = elim (Bool-cases (this == rhs)) [
  | inl t ↦ (r, rw (t, move_assign) refl, inv)
  | inr g ↦
      let ne : this ≢ rhs = ground arith in
      let v : Option ℕ = handle rhs r in
      let count : (k : ℕ) → n_of k r ≡ owners k r.handles = unfold IsCounted in inv in
      let live : 1 ≤ n_of i r = omega (arith, count i, owners-at r.handles this i e) in
      let (r1, run, same, sum) = sub_ref_lem i r live in
      let moved : List (Option ℕ) = set r.handles this v in
      let still : get_or moved rhs none ≡ v = get_or-set_ne r.handles this rhs v none ne in
      let named : set (set r1.handles this v) rhs none ≡ set moved rhs none =
        ap (λ l. set (set l this v) rhs none) same in
      (
        set_handle rhs none (set_handle this v r1),
        move_assign_run this rhs i r r1 g e run,
        unfold IsCounted in
            λ k.
              let zero_hit : hit k none ≡ 0 = unfold hit in refl in
              let gone : owners k (set moved rhs none) + hit k v ≡ owners k moved + hit k none =
                subst (λ x. owners k (set moved rhs none) + hit k x ≡ owners k moved + hit k none)
                  still
                  (owners-set k moved rhs none (omega (arith, length-set r.handles this v))) in
              let left : n_of k r1 + hit k v ≡ owners k moved =
                lost_one this i r r1 v inv h e sum k in
              let there : n_of k r1 ≡ owners k (set moved rhs none) = omega arith in
              there ∙ ap (owners k) (sym named),
      )
]

destroy_handle-IsCounted :
    (o : Option ℕ) (this : ℕ) (r : Refs)
    → IsCounted r
    → this < length r.handles
    → handle this r ≡ o
    → (r' : Refs) × (destroy_handle o this r ≡ some r') × IsCounted r'
unfolding destroy_handle and_then
destroy_handle-IsCounted none this r inv h e = (r, refl, inv)
destroy_handle-IsCounted (some i) this r inv h e =
    let count : (k : ℕ) → n_of k r ≡ owners k r.handles = unfold IsCounted in inv in
    let live : 1 ≤ n_of i r = omega (arith, count i, owners-at r.handles this i e) in
    let (r1, run, same, sum) = sub_ref_lem i r live in
    (
      set_handle this none r1,
      ap (λ o. and_then o (λ r'. some (set_handle this none r'))) run,
      unfold IsCounted in
          λ k.
            let zero_hit : hit k none ≡ 0 = unfold hit in refl in
            let there : n_of k r1 ≡ owners k (set r.handles this none) =
              omega (arith, lost_one this i r r1 none inv h e sum k) in
            there ∙ ap (λ l. owners k (set l this none)) (sym same),
    )

-- An object that was moved from is null: copying from it, by construction or by assignment, and
-- assigning to it read a null pointer.
pub moved_from-fails :
    (this rhs i : ℕ) (r : Refs)
    → (this == rhs) ≡ false
    → handle this r ≡ some i
    → 1 ≤ n_of i r
    → handle rhs r ≡ none
    → (copy_construct rhs r ≡ none)
      × (copy_assign this rhs r ≡ none)
      × (copy_assign rhs this r ≡ none)
      × (move_assign rhs this r ≡ none)
unfolding copy_construct copy_assign move_assign add_ref sub_ref and_then
moved_from-fails this rhs i r g e live f =
    let g' : (rhs == this) ≡ false = ground arith in
    let some_left : (n_of i r == 0) ≡ false = ground arith in
    (rw f refl, rw (g, e, f, sub_ref, some_left, and_then) refl, rw (g', f) refl, rw (g', f) refl)

-- The destructor does not fail and takes one off the count; a null object has none.
pub destroy-IsCounted :
    (this : ℕ) (r : Refs)
    → IsCounted r
    → this < length r.handles
    → (r' : Refs) × (destroy this r ≡ some r') × IsCounted r'
unfolding destroy
destroy-IsCounted this r inv h = destroy_handle-IsCounted (handle this r) this r inv h refl
