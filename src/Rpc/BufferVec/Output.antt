-- ===== src/Rpc/BufferVec/Output.antt =====
-- The output stream: what has been handed out and not given back is the buffers' total, less the
-- unused rest of the last one.
use mathlib.Core.Option.{some-injective}
use ytlib.Base.{
  ℕ, ◌+◌, ◌*◌, ◌%◌, ◌^◌, ◌≤◌, ◌<◌, ◌≡◌, refl, ap, sym, subst, ◌∙◌, List, [], ◌∷◌, ◌++◌, Option,
  some, arith, ◌==◌, Bool-cases, inl, inr,
}
use ytlib.Rpc.BufferVec.{
  Buffer, Region, OutStream, add64, sub64, to_int, extend, new_buffer, cur_buffer, commit_last_buf,
  open_output, out_next, out_back_up, init_head, last_buf_size,
}

-- Below 2^31, what goes through an `int` comes back, and the 64 bits do not wrap.
extend-to_int : (n : ℕ) → n < 2 ^ 31 → extend (to_int n) ≡ n
extend-to_int n h = ground arith

extend_small : (n : ℕ) → n < 2 ^ 31 → extend n ≡ n
extend_small n h = ground arith

-- The bytes of all buffers
unfoldable pub total : List Buffer → ℕ
total [] = 0
total (b ∷ v) = b.size + total v

total-append : (v w : List Buffer) → total (v ++ w) ≡ total v + total w
unfolding total
total-append [] w = omega arith
total-append (b ∷ v) w = omega (arith, total-append v w)

cur_buffer-snoc : (v : List Buffer) (b : Buffer) → cur_buffer (v ++ b ∷ []) ≡ some b
unfolding cur_buffer
cur_buffer-snoc [] b = refl
cur_buffer-snoc (a ∷ []) b = refl
cur_buffer-snoc (a ∷ c ∷ v) b = cur_buffer-snoc (c ∷ v) b

commit_last_buf-snoc :
    (v : List Buffer) (b : Buffer) (n : ℕ)
    → commit_last_buf n (v ++ b ∷ []) ≡ some (v ++ record { ptr = b.ptr; size = n } ∷ [])
unfolding commit_last_buf
commit_last_buf-snoc [] b n = refl
commit_last_buf-snoc (a ∷ []) b n = refl
commit_last_buf-snoc (a ∷ c ∷ v) b n = rw (commit_last_buf-snoc (c ∷ v) b n)

-- The last buffer has the block size, the others fit into one more, and the count is what they hold.
abbrev pub Filled : OutStream → List Buffer → Buffer → Type 0
Filled s front last =
    (s.buffer_vec ≡ front ++ last ∷ [])
    × (last.size ≡ s.cur_block_size)
    × (s.cur_buf_used_size ≤ s.cur_block_size)
    × (0 < s.cur_block_size)
    × (s.cur_block_size < 2 ^ 31)
    × (total front ≤ s.cur_block_size)
    × (total front + s.cur_buf_used_size ≡ s.byte_count)

-- What the callers may ask of a stream: blocks stay below what an `int` counts, and no more is given
-- back than was handed out of the last buffer.
pub data Reach : OutStream → Type 0 where
  first :
      (ptr : ℕ) (r : Region) (s : OutStream) → out_next ptr (open_output []) ≡ some (r, s) → Reach s
  head : (ptr n : ℕ) → n < 256 → Reach (init_head ptr n (open_output []))
  next :
      (ptr : ℕ) (s : OutStream) (r : Region) (s' : OutStream)
      → Reach s
      → s.cur_block_size < 2 ^ 30
      → out_next ptr s ≡ some (r, s')
      → Reach s'
  back_up :
      (count : ℕ) (s : OutStream)
      → Reach s
      → count ≤ s.cur_buf_used_size
      → count < 2 ^ 31
      → Reach (out_back_up count s)

-- One call of Next at a filled stream: a region that is not empty, and a stream that is filled.
abbrev pub Handed : ℕ → OutStream → Type 0
Handed ptr s =
    (r : Region) × (s' : OutStream) × (out_next ptr s ≡ some (r, s'))
    × (0 < r.size)
    × (r.offset + r.size ≡ s'.cur_block_size)
    × (s'.cur_buf_used_size ≡ s'.cur_block_size)
    × (s'.byte_count ≡ s.byte_count + r.size)
    × ((front : List Buffer) × (last : Buffer) × Filled s' front last)

out_next-Filled :
    (ptr : ℕ) (s : OutStream) (front : List Buffer) (last : Buffer)
    → Filled s front last
    → s.cur_block_size < 2 ^ 30
    → Handed ptr s
unfolding out_next new_buffer total
out_next-Filled ptr s front last (eq, size, used, some_block, bound, fits, count) small =
    let block = s.cur_block_size * 2 % 2 ^ 64 in
    let rest = to_int (sub64 s.cur_block_size s.cur_buf_used_size) in
    elim (Bool-cases (s.cur_buf_used_size == s.cur_block_size)) [
      | inl full ↦
          let e : s.cur_buf_used_size ≡ s.cur_block_size = ground arith in
          let int = extend-to_int block (omega arith) in
          let all = total-append front (last ∷ []) in
          let one : total (last ∷ []) ≡ last.size = unfold total in omega arith in
          (
            record { base = ptr; offset = 0; size = to_int block },
            record {
              buffer_vec = s.buffer_vec ++ record { ptr = ptr; size = block } ∷ [];
              cur_block_size = block;
              cur_buf_used_size = block;
              byte_count = add64 s.byte_count (extend (to_int block));
            },
            rw (full, out_next) refl,
            omega arith,
            omega arith,
            refl,
            rw int (omega arith),
            (
              front ++ last ∷ [],
              record { ptr = ptr; size = block },
              (
                rw eq refl,
                refl,
                omega arith,
                omega arith,
                omega arith,
                omega arith,
                rw int (omega arith),
              ),
            ),
          )
      | inr part ↦
          let lt : s.cur_buf_used_size < s.cur_block_size = ground arith in
          let int = extend-to_int (sub64 s.cur_block_size s.cur_buf_used_size) (omega arith) in
          (
            record { base = last.ptr; offset = s.cur_buf_used_size; size = rest },
            record s {
              cur_buf_used_size = s.cur_block_size;
              byte_count = add64 s.byte_count (extend rest);
            },
            rw (part, ap cur_buffer eq ∙ cur_buffer-snoc front last, out_next) refl,
            omega arith,
            omega arith,
            refl,
            rw int (omega arith),
            (front, last, (eq, size, omega arith, some_block, bound, fits, rw int (omega arith))),
          )
    ]

same_stream :
    {r r' : Region} {s s' : OutStream}
    → ◌≡◌ {A = Option (Region × OutStream)} (some (r, s)) (some (r', s'))
    → s ≡ s'
same_stream {r} {r'} {s} {s'} e = ap (λ p. p.1) (some-injective (r, s) (r', s') e)

-- A stream that is reached in this way is filled.
Reach-Filled :
    (s : OutStream) → Reach s → (front : List Buffer) × (last : Buffer) × Filled s front last
unfolding out_next out_back_up init_head new_buffer open_output total
Reach-Filled _ (Reach.first ptr r s e) =
    subst (λ s. (front : List Buffer) × (last : Buffer) × Filled s front last) (same_stream e)
      (
        [],
        record { ptr = ptr; size = 256 },
        (refl, refl, omega arith, omega arith, omega arith, omega arith, omega arith),
      )
Reach-Filled _ (Reach.head ptr n small) = (
  [],
  record { ptr = ptr; size = 256 },
  (refl, refl, omega arith, omega arith, omega arith, omega arith, omega arith),
)
Reach-Filled _ (Reach.next ptr s0 r s reach small e) =
    let (front, last, filled) = Reach-Filled s0 reach in
    let (r', s', e', pos, place, used, count, done) =
      out_next-Filled ptr s0 front last filled small in
    subst (λ s. (front : List Buffer) × (last : Buffer) × Filled s front last)
      (same_stream (sym e' ∙ e)) done
Reach-Filled _ (Reach.back_up count s0 reach le small) =
    let (front, last, (eq, size, used, some_block, bound, fits, count_eq)) =
      Reach-Filled s0 reach in
    let int = extend_small count small in
    (front, last, (eq, size, rw int (omega arith), some_block, bound, fits, rw int (omega arith)))

-- The bytes that the vector holds, once CommitLastBuf has cut the last buffer to LastBufSize, are
-- those that ByteCount counts, for a stream that was opened on an empty BufferVec and began with Next or
-- with InitHead of fewer than 256 bytes, whatever was handed out and given back since, as long as Next
-- is called while the block is shorter than 2^30 bytes, and BackUp gives back fewer than 2^31 bytes and
-- no more than are used in the last buffer.
pub commit-byte_count :
    (s : OutStream)
    → Reach s
    → (v : List Buffer) × (commit_last_buf (last_buf_size s) s.buffer_vec ≡ some v)
      × (total v ≡ s.byte_count)
unfolding total
commit-byte_count s reach =
    let (front, last, (eq, size, used, some_block, bound, fits, count_eq)) = Reach-Filled s reach in
    let cut : Buffer = record { ptr = last.ptr; size = s.cur_buf_used_size } in
    let one : total (cut ∷ []) ≡ s.cur_buf_used_size = unfold total in omega arith in
    (
      front ++ cut ∷ [],
      ap (commit_last_buf s.cur_buf_used_size) eq
          ∙ commit_last_buf-snoc front last s.cur_buf_used_size,
      total-append front (cut ∷ []) ∙ omega arith,
    )

-- Next succeeds on such a stream whose block is shorter than 2^30: it hands out a region that is not
-- empty and ends where its buffer ends, and ByteCount grows by its size.
pub out_next-Handed : (ptr : ℕ) (s : OutStream) → Reach s → s.cur_block_size < 2 ^ 30 → Handed ptr s
out_next-Handed ptr s reach small =
    let (front, last, filled) = Reach-Filled s reach in
    out_next-Filled ptr s front last filled small
