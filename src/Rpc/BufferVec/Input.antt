-- ===== src/Rpc/BufferVec/Input.antt =====
-- The input stream: Skip passes over as many bytes as it is asked to, short of the end, and what goes
-- wrong at the last buffer.
use mathlib.Core.Option.{some-injective}
use ytlib.Base.{
  ℕ, suc, ◌+◌, ◌-◌, ◌≤◌, ◌<◌, ◌≡◌, refl, ap, sym, ◌∙◌, subst, true, false, List, [], ◌∷◌, none,
  some, arith, ltb, leb, ◌==◌, Bool-cases, inl, inr, length, drop, drop-drop, drop-nil, drop_all,
  drop-cons,
}
use ytlib.Rpc.BufferVec.{
  Buffer, Region, InStream, add64, to_int, extend, in_next, in_back_up, skip, skip_loop,
}
use ytlib.Rpc.BufferVec.Output.{total}

-- The bytes that a stream has not handed out
abbrev pub left : List Buffer → InStream → ℕ
left v s = s.cur_buf_unused_size + total (drop s.cur_buf_index v)

skip_loop_lem :
    (later : List Buffer) (unused index count : ℕ)
    → count < unused + total later
    → (let w = skip_loop later unused index count in
        (w.0 ≡ true)
        × (index ≤ w.2)
        × (w.1 + total (drop (w.2 - index) later) + count ≡ unused + total later))
unfolding skip_loop total
skip_loop_lem [] unused index count lt =
    let more : ltb count unused ≡ true = ground arith in
    rw (more, skip_loop)
      (refl, omega arith, rw (drop-nil {A = Buffer} (index - index)) (ground arith))
skip_loop_lem (b ∷ later) unused index count lt = elim (Bool-cases (ltb count unused)) [
  | inl within ↦
      let z : index - index ≡ 0 = omega arith in
      rw (within, skip_loop) (refl, omega arith, rw z (ground arith))
  | inr beyond ↦
      let ih = skip_loop_lem later b.size (index + 1) (count - unused) (ground arith) in
      let w = skip_loop later b.size (index + 1) (count - unused) in
      let e : w.2 - index ≡ suc (w.2 - (index + 1)) = omega (arith, ih.1) in
      rw (beyond, skip_loop) (ih.0, omega (arith, ih.1), rw e (ground (arith, ih.2)))
]

-- Skip of fewer bytes than are left succeeds and leaves as many fewer.
pub left-skip :
    (v : List Buffer) (s : InStream) (count : ℕ)
    → count < left v s
    → ((skip v count s).0 ≡ true) × (left v (skip v count s).1 + count ≡ left v s)
unfolding skip
left-skip v s count lt =
    let i = s.cur_buf_index in
    let (done, later, rest) = skip_loop_lem (drop i v) s.cur_buf_unused_size i count lt in
    let w = skip_loop (drop i v) s.cur_buf_unused_size i count in
    let e : drop (w.2 - i) (drop i v) ≡ drop w.2 v =
      drop-drop (w.2 - i) i v ∙ ap (λ k. drop k v) {y = w.2} (omega arith) in
    (done, subst (λ t. w.1 + total t + count ≡ left v s) e rest)

-- Skip of all the bytes that are left says true and stops at the end of the vector, but leaves the
-- last buffer's bytes to be passed over once more, however many they are.
pub skip_all_left :
    (v : List Buffer) (s : InStream)
    → s.cur_buf_index ≡ length v
    → skip v (left v s) s ≡ (true, record s { byte_count = add64 s.byte_count (extend (left v s)) })
unfolding skip skip_loop total
skip_all_left v s e =
    let u = s.cur_buf_unused_size in
    let none_later : drop s.cur_buf_index v ≡ [] = drop_all s.cur_buf_index v (omega arith) in
    let short : ltb (u + 0) u ≡ false = ground arith in
    let used_up : (u + 0 - u == 0) ≡ true = ground arith in
    rw none_later (rw (short, used_up, skip_loop) refl)

-- Once Next has handed out the last buffer, it says false, whatever has been given back of it.
pub next-back_up_last :
    (v : List Buffer) (s s' : InStream) (r : Region) (count : ℕ)
    → s.cur_buf_index + 1 ≡ length v
    → s.cur_buf_unused_size ≡ 0
    → in_next v s ≡ some (r, s')
    → in_next v (in_back_up count s') ≡ none
unfolding in_next in_back_up
next-back_up_last v s s' r count last fresh e =
    let i = s.cur_buf_index in
    let (b, rest, at) = drop-cons v i (omega arith) in
    let within : leb (length v) i ≡ false = ground arith in
    let taken : (s.cur_buf_unused_size == 0) ≡ true = ground arith in
    let after : InStream = record s {
      cur_buf_index = i + 1;
      byte_count = add64 s.byte_count (extend (to_int b.size));
    } in
    let region : Region = record { base = b.ptr; offset = 0; size = to_int b.size } in
    let e' : in_next v s ≡ some (region, after) = rw (within, taken, at, in_next) refl in
    let moved : s'.cur_buf_index ≡ i + 1 =
      ap (λ p. p.1.cur_buf_index) (some-injective (r, s') (region, after) (sym e ∙ e')) in
    let beyond : leb (length v) s'.cur_buf_index ≡ true = ground arith in rw (beyond, in_next) refl
