-- ===== src/Container/RingBuf.antt =====
-- ytlib/container/ring_buf.hpp: `RingBuf<T, BUF_SIZE>`.
-- Positions are `uint32_t`: additions wrap modulo 2^32, written out where the source computes them.
-- The template parameter BUF_SIZE is the section's `buf_size`. `content_` is a list of `buf_size`
-- elements; a write past its end changes nothing in the model, and the invariant of
-- RingBuf/Inv.antt is what rules it out.
mod Window
pub mod Queue
pub mod Inv
pub mod Refine
pub mod Arrays
pub mod Views
pub mod Faults
mod Tests
use ytlib.Base.{
  ℕ, zero, suc, ◌+◌, ◌-◌, ◌*◌, ◌/◌, ◌%◌, ◌^◌, Bool, true, false, Option, none, some, List, [], ◌∷◌,
  ◌++◌, ltb, leb, ◌==◌, if◌then◌else◌, get_elem?, set, take, drop,
}

abbrev pub u32 : ℕ
u32 = 2 ^ 32

-- `uint32_t` addition and subtraction
abbrev pub add32 : ℕ → ℕ → ℕ
add32 a b = (a + b) % u32

abbrev pub sub32 : ℕ → ℕ → ℕ
sub32 a b = (a + u32 - b) % u32

-- What `Top` and `Get` give: a reference, read as the element that it names, or an exception.
pub data Access {ℓ} (A : Type ℓ) : Type ℓ where
  item : Option A → Access A
  runtime_error : Access A
  invalid_argument : Access A

-- What `TopArray` and `GetArray` leave in `buf`: a pointer into `content_`, or the copied elements.
pub data View {ℓ} (A : Type ℓ) : Type ℓ where
  refused : View A
  pointer : ℕ → View A
  copied : List A → View A

module _ {ℓ} {A : Type ℓ} where
  -- `memcpy(content_ + pos, src, ...)` of all of `src`
  pub copy_in : List A → ℕ → List A → List A
  copy_in content pos [] = content
  copy_in content pos (x ∷ src) = copy_in (set content pos x) (pos + 1) src

  -- `memcpy(buf, content_ + pos, n * sizeof(T))`
  abbrev pub copy_out : List A → ℕ → ℕ → List A
  copy_out content pos n = take n (drop pos content)

-- The number of elements that `memcpy(.., .., len - tmp_size * sizeof(T))` copies: the size is in
-- bytes, in `size_t` arithmetic, and multiplication binds tighter than subtraction.
pub tail_count : ℕ → ℕ → ℕ → ℕ
tail_count size_of len tmp_size = (len + 2 ^ 64 - (tmp_size * size_of) % 2 ^ 64) % 2 ^ 64 / size_of

pub record Ring {ℓ} (A : Type ℓ) : Type ℓ where
  pub content : List A
  pub wpos : ℕ
  pub rpos : ℕ

pub capacity : ℕ → ℕ
capacity buf_size = buf_size - 1

-- `if (++pos < BUF_SIZE) return true; pos = 0;`
abbrev pub bump : ℕ → ℕ → ℕ
bump buf_size pos = if ltb (add32 pos 1) buf_size then add32 pos 1 else 0

module _ {ℓ} {A : Type ℓ} (buf_size : ℕ) where
  pub is_empty : Ring A → Bool
  is_empty r = r.wpos == r.rpos

  pub is_full : Ring A → Bool
  is_full r = if leb r.rpos r.wpos then r.wpos - r.rpos == buf_size - 1 else r.rpos - r.wpos == 1

  pub size : Ring A → ℕ
  size r = if leb r.rpos r.wpos then r.wpos - r.rpos else sub32 (add32 r.wpos buf_size) r.rpos

  pub unused_capacity : Ring A → ℕ
  unused_capacity r =
      if leb r.rpos r.wpos
      then sub32 (sub32 (add32 buf_size r.rpos) r.wpos) 1
      else r.rpos - r.wpos - 1

  -- Both overloads, by copy and by move, write the same value.
  pub push : A → Ring A → Bool × Ring A
  push x r =
      if is_full r
      then (false, r)
      else (true, record r { content = set r.content r.wpos x; wpos = bump buf_size r.wpos })

  pub pop : Ring A → Bool × Ring A
  pop r = if is_empty r then (false, r) else (true, record r { rpos = bump buf_size r.rpos })

  pub top : Ring A → Access A
  top r = if is_empty r then Access.runtime_error else Access.item (get_elem? r.content r.rpos)

  pub get : ℕ → Ring A → Access A
  get pos r =
      let cur_rpos = add32 r.rpos pos in
      if leb (size r) pos
      then Access.invalid_argument
      else Access.item
          (get_elem? r.content (if ltb cur_rpos buf_size then cur_rpos else cur_rpos - buf_size))

  -- `size_of` is sizeof(T); `len` is the length of `src`, a `uint32_t`.
  pub push_array : ℕ → List A → ℕ → Ring A → Bool × Ring A
  push_array size_of src len r =
      let tmp_size = sub32 buf_size r.wpos in
      if ltb (unused_capacity r) len
      then (false, r)
      else if leb (add32 r.wpos len) buf_size
      then (
        true,
        record r { content = copy_in r.content r.wpos (take len src); wpos = add32 r.wpos len },
      )
      else (
        true,
        record r {
          content =
              copy_in (copy_in r.content r.wpos (take tmp_size src)) 0
                (take (tail_count size_of len tmp_size) (drop tmp_size src));
          wpos = sub32 len tmp_size;
        },
      )

  pub pop_array : ℕ → Ring A → Bool × Ring A
  pop_array len r =
      let rpos = add32 r.rpos len in
      if ltb (size r) len
      then (false, r)
      else if ltb rpos buf_size
      then (true, record r { rpos = rpos })
      else (true, record r { rpos = rpos - buf_size })

  -- `len` elements from index `from` on, as `TopArray` and `GetArray` hand them out; `is_null` says
  -- whether the caller's `buf` is `nullptr`.
  view_from : ℕ → Bool → ℕ → ℕ → Ring A → View A
  view_from size_of is_null from len r =
      let tmp_size = sub32 buf_size from in
      if leb (add32 from len) r.wpos
      then View.pointer from
      else if is_null
      then View.refused
      else View.copied (
          copy_out r.content from tmp_size
          ++ copy_out r.content 0 (tail_count size_of len tmp_size))

  pub top_array : ℕ → Bool → ℕ → Ring A → View A
  top_array size_of is_null len r =
      if ltb (size r) len then View.refused else view_from size_of is_null r.rpos len r

  pub get_array : ℕ → ℕ → Bool → ℕ → Ring A → View A
  get_array size_of pos is_null len r =
      let cur_rpos = add32 r.rpos pos in
      if ltb (size r) (add32 len pos)
      then View.refused
      else view_from size_of is_null
          (if leb buf_size cur_rpos then cur_rpos - buf_size else cur_rpos) len r

pub clear {ℓ} : {A : Type ℓ} → Ring A → Ring A
clear r = record r { wpos = 0; rpos = 0 }
