-- ===== src/Container/RingBuf/Inv.antt =====
-- The representation invariant of `RingBuf`, and which operations keep it.
use ytlib.Base.{
  ℕ, ◌+◌, ◌-◌, ◌^◌, ◌≤◌, ◌<◌, ◌≡◌, ◌↔◌, true, arith, leb, if◌then◌else◌, length, length-set,
}
use ytlib.Container.RingBuf.{
  Ring, is_empty, is_full, capacity, size, unused_capacity, push, pop, pop_array, clear,
}

-- BUF_SIZE is at most 2^31, so that `rpos_ + pos` and `wpos_ + len` do not wrap.
pub record IsValid {ℓ} {A : Type ℓ} (n : ℕ) (r : Ring A) : Type 0 where
  pub storage : length r.content ≡ n
  pub positive : 0 < n
  pub small : n ≤ 2 ^ 31
  pub wpos_in : r.wpos < n
  pub rpos_in : r.rpos < n

module _ {ℓ} {A : Type ℓ} {n : ℕ} {r : Ring A} (v : IsValid n r) where
  pub size_lem : size n r ≡ (if leb r.rpos r.wpos then r.wpos - r.rpos else r.wpos + n - r.rpos)
  unfolding size
  size_lem = ground arith

  pub size-lt : size n r < n
  size-lt = ground (arith, size_lem)

  -- The room left and the elements held make up the capacity, with no wrap.
  pub unused_capacity-add-size : unused_capacity n r + size n r ≡ capacity n
  unfolding unused_capacity capacity
  unused_capacity-add-size = ground (arith, size_lem)

  -- `Full` and `Empty` are read off the positions alone; they hold exactly at `Capacity` and at zero elements.
  pub full_empty_iff :
      ((is_full n r ≡ true) ↔ (size n r ≡ capacity n)) × ((is_empty n r ≡ true) ↔ (size n r ≡ 0))
  unfolding is_full is_empty capacity
  full_empty_iff = ground (arith, size_lem)

  pub push-IsValid : (x : A) → IsValid n (push n x r).1
  unfolding push is_full
  push-IsValid x = ground (arith, length-set r.content r.wpos x)

  pub pop-IsValid : IsValid n (pop n r).1
  unfolding pop is_empty
  pop-IsValid = ground arith

  pub pop_array-IsValid : (len : ℕ) → IsValid n (pop_array n len r).1
  unfolding pop_array
  pop_array-IsValid len = ground (arith, size_lem)

  pub clear-IsValid : IsValid n (clear r)
  unfolding clear
  clear-IsValid = ground arith
