-- ===== src/Rpc/BufferVec/Tests.antt =====
-- Runs of the two streams, and the theorems at one.
use mathlib.Core.Option.{map as option_map}
use ytlib.Base.{◌≡◌, refl, true, List, [], ◌∷◌, some, arith}
use ytlib.Rpc.BufferVec.{
  Buffer, Region, OutStream, InStream, open_output, new_buffer, out_next, out_back_up,
  last_buf_size, commit_last_buf, cur_buffer, in_next, skip, skip_loop, init_head,
}
use ytlib.Rpc.BufferVec.Output.{total, Reach, commit-byte_count}

abbrev buffers : List Buffer
buffers = record { ptr = 7; size = 10 } ∷ record { ptr = 8; size = 4 } ∷ []

-- A head of 16 bytes, and 6 bytes that are given back
abbrev stream : OutStream
stream = record {
  buffer_vec = record { ptr = 9; size = 256 } ∷ [];
  cur_block_size = 256;
  cur_buf_used_size = 10;
  byte_count = 10;
}

stream-Reach : Reach stream
unfolding out_back_up init_head open_output new_buffer
stream-Reach =
    Reach.back_up 6 (init_head 9 16 (open_output [])) (Reach.head 9 16 (omega arith)) (omega arith)
      (omega arith)

next-stream :
    option_map (λ p. p.0) (out_next 5 stream) ≡ some (record { base = 9; offset = 10; size = 246 })
unfolding out_next cur_buffer
next-stream = refl

-- In the first buffer, whose last 3 bytes are not used
abbrev half_read : InStream
half_read = record { cur_buf_unused_size = 3; cur_buf_index = 1; byte_count = 7 }

skip_five :
    skip buffers 5 half_read
    ≡ (true, record { cur_buf_unused_size = 2; cur_buf_index = 2; byte_count = 12 })
unfolding skip skip_loop
skip_five = refl

commit-byte_count_example :
    (v : List Buffer) × (commit_last_buf (last_buf_size stream) stream.buffer_vec ≡ some v)
    × (total v ≡ stream.byte_count)
commit-byte_count_example = commit-byte_count stream stream-Reach

abbrev at_last : InStream
at_last = record { cur_buf_unused_size = 4; cur_buf_index = 2; byte_count = 10 }

abbrev one_left : InStream
one_left = record { cur_buf_unused_size = 0; cur_buf_index = 1; byte_count = 10 }

abbrev none_left : InStream
none_left = record { cur_buf_unused_size = 0; cur_buf_index = 2; byte_count = 14 }

abbrev last_region : Region
last_region = record { base = 8; offset = 0; size = 4 }

next-one_left : in_next buffers one_left ≡ some (last_region, none_left)
unfolding in_next
next-one_left = refl
