-- ===== src/Rpc/BufferVec.antt =====
-- ytlib/ytrpc/rpc_util/buffer.hpp. A buffer is the pointer that malloc gave, a number, and a size;
-- what malloc gives is an argument. `size_t` and `int64_t` are their 64 bits, `int` its 32 bits.
pub mod Output
pub mod Input
mod Tests
use ytlib.Base.{
  ℕ, zero, suc, ◌+◌, ◌-◌, ◌*◌, ◌%◌, ◌^◌, Bool, true, false, List, [], ◌∷◌, ◌++◌, Option, none, some,
  ltb, leb, ◌==◌, if◌then◌else◌, length, get_elem?, drop, ◌/◌,
}

abbrev pub u64 : ℕ
u64 = 2 ^ 64

abbrev pub add64 : ℕ → ℕ → ℕ
add64 a b = (a + b) % u64

abbrev pub sub64 : ℕ → ℕ → ℕ
sub64 a b = (a + u64 - b) % u64

-- A `size_t` as an `int`, and an `int` in 64 bits again
abbrev pub to_int : ℕ → ℕ
to_int n = n % 2 ^ 32

abbrev pub extend : ℕ → ℕ
extend n = if ltb n (2 ^ 31) then n else n + (2 ^ 64 - 2 ^ 32)

pub record Buffer : Type 0 where
  pub ptr : ℕ
  pub size : ℕ

-- What `Next` hands out in `data` and `size`: `size` bytes from `offset` on of the buffer at `base`.
pub record Region : Type 0 where
  pub base : ℕ
  pub offset : ℕ
  pub size : ℕ

-- `BufferVec`, a vector of buffers
pub new_buffer : ℕ → ℕ → List Buffer → List Buffer
new_buffer ptr buf_size v = v ++ record { ptr = ptr; size = buf_size } ∷ []

-- `*buffer_vec_.rbegin()`, which an empty vector does not have
pub cur_buffer : List Buffer → Option Buffer
cur_buffer [] = none
cur_buffer (b ∷ []) = some b
cur_buffer (b ∷ c ∷ v) = cur_buffer (c ∷ v)

pub commit_last_buf : ℕ → List Buffer → Option (List Buffer)
commit_last_buf buf_size [] = none
commit_last_buf buf_size (b ∷ []) = some (record { ptr = b.ptr; size = buf_size } ∷ [])
commit_last_buf buf_size (b ∷ c ∷ v) = elim (commit_last_buf buf_size (c ∷ v)) [
  | none ↦ none
  | some w ↦ some (b ∷ w)
]

-- The two vectors behind `Swap` and behind `Merge`
pub swap : List Buffer → List Buffer → List Buffer × List Buffer
swap this v = (v, this)

pub merge : List Buffer → List Buffer → List Buffer × List Buffer
merge this v = (this ++ v, [])

-- `BufferVecZeroCopyOutputStream`, with the vector that it refers to
pub record OutStream : Type 0 where
  pub buffer_vec : List Buffer
  pub cur_block_size : ℕ
  pub cur_buf_used_size : ℕ
  pub byte_count : ℕ

-- `kInitBlockSize / 2`
abbrev pub half_init : ℕ
half_init = 256 / 2

pub open_output : List Buffer → OutStream
open_output v = record {
  buffer_vec = v;
  cur_block_size = half_init;
  cur_buf_used_size = half_init;
  byte_count = 0;
}

-- `Next`; `ptr` is what malloc gives if it is called. `none`: the vector is empty and is read.
pub out_next : ℕ → OutStream → Option (Region × OutStream)
out_next ptr s =
    let block = s.cur_block_size * 2 % u64 in
    let rest = to_int (sub64 s.cur_block_size s.cur_buf_used_size) in
    if s.cur_buf_used_size == s.cur_block_size
    then some (
      record { base = ptr; offset = 0; size = to_int block },
      record {
        buffer_vec = new_buffer ptr block s.buffer_vec;
        cur_block_size = block;
        cur_buf_used_size = block;
        byte_count = add64 s.byte_count (extend (to_int block));
      },
    )
    else elim (cur_buffer s.buffer_vec) [
      | none ↦ none
      | some cur ↦ some (
        record { base = cur.ptr; offset = s.cur_buf_used_size; size = rest },
        record s {
          cur_buf_used_size = s.cur_block_size;
          byte_count = add64 s.byte_count (extend rest);
        },
      )
    ]

pub out_back_up : ℕ → OutStream → OutStream
out_back_up count s = record s {
  cur_buf_used_size = sub64 s.cur_buf_used_size (extend count);
  byte_count = sub64 s.byte_count (extend count);
}

pub init_head : ℕ → ℕ → OutStream → OutStream
init_head ptr head_size s =
    let block = s.cur_block_size * 2 % u64 in
    record {
      buffer_vec = new_buffer ptr block s.buffer_vec;
      cur_block_size = block;
      cur_buf_used_size = head_size;
      byte_count = head_size;
    }

-- `LastBufSize`
abbrev pub last_buf_size : OutStream → ℕ
last_buf_size s = s.cur_buf_used_size

-- `BufferVecZeroCopyInputStream`, less the vector, which it does not change
pub record InStream : Type 0 where
  pub cur_buf_unused_size : ℕ
  pub cur_buf_index : ℕ
  pub byte_count : ℕ

pub open_input : InStream
open_input = record { cur_buf_unused_size = 0; cur_buf_index = 0; byte_count = 0 }

-- `none` is the result false.
pub in_next : List Buffer → InStream → Option (Region × InStream)
in_next v s =
    let unused = s.cur_buf_unused_size in
    let fresh : Option (Region × InStream) = elim (get_elem? v s.cur_buf_index) [
      | none ↦ none
      | some cur ↦ some (
        record { base = cur.ptr; offset = 0; size = to_int cur.size },
        record s {
          cur_buf_index = s.cur_buf_index + 1;
          byte_count = add64 s.byte_count (extend (to_int cur.size));
        },
      )
    ] in
    let again : Option (Region × InStream) = elim (get_elem? v (s.cur_buf_index - 1)) [
      | none ↦ none
      | some cur ↦ some (
        record { base = cur.ptr; offset = sub64 cur.size unused; size = to_int unused },
        record s {
          cur_buf_unused_size = 0;
          byte_count = add64 s.byte_count (extend (to_int unused));
        },
      )
    ] in
    if leb (length v) s.cur_buf_index then none else if unused == 0 then fresh else again

pub in_back_up : ℕ → InStream → InStream
in_back_up count s = record s {
  cur_buf_unused_size = add64 s.cur_buf_unused_size (extend count);
  byte_count = sub64 s.byte_count (extend count);
}

-- The loop of `Skip`, over the buffers from `cur_buf_index_` on: the result, the unused bytes and
-- the index. `count` is an `int` that is not negative.
pub skip_loop : List Buffer → ℕ → ℕ → ℕ → Bool × ℕ × ℕ
skip_loop [] unused index count =
    if ltb count unused then (true, unused - count, index) else (count - unused == 0, unused, index)
skip_loop (b ∷ later) unused index count =
    let rest = skip_loop later b.size (index + 1) (count - unused) in
    if ltb count unused then (true, unused - count, index) else rest

pub skip : List Buffer → ℕ → InStream → Bool × InStream
skip v count s =
    let (done, unused, index) =
      skip_loop (drop s.cur_buf_index v) s.cur_buf_unused_size s.cur_buf_index count in
    (
      done,
      record {
        cur_buf_unused_size = unused;
        cur_buf_index = index;
        byte_count = add64 s.byte_count (extend count);
      },
    )
