-- ===== src/Container/RingBuf/Faults.antt =====
-- Where the array operations of ring_buf.hpp leave the invariant or the caller's buffer.
use ytlib.Base.{
  ℕ, ◌+◌, ◌-◌, ◌*◌, ◌^◌, ◌≤◌, ◌<◌, ◌≡◌, ◌≢◌, refl, sym, ap, ◌∙◌, true, false, List, ◌++◌, arith,
  ltb, leb, length, set, take, take_all, zero, suc, [], ◌∷◌, Bool-cases, inl, inr, ◌/◌, ◌%◌,
}
use ytlib.Container.RingBuf.{
  Ring, View, add32, unused_capacity, push, is_full, sub32, pop_array, push_array, top_array,
  view_from, tail_count, copy_in, copy_out, size,
}
use ytlib.Container.RingBuf.Inv.{IsValid, size_lem}
use ytlib.Container.RingBuf.Arrays.{length-copy_in}

-- A write outside `content_` is lost.
set_outside {ℓ} : {A : Type ℓ} (xs : List A) (i : ℕ) (x : A) → length xs ≤ i → set xs i x ≡ xs
set_outside [] i x h = refl
set_outside (y ∷ xs) zero x h = absurd (omega arith)
set_outside (y ∷ xs) (suc i) x h = ap (λ t. y ∷ t) (set_outside xs i x (omega arith))

module _ {ℓ} {A : Type ℓ} (n : ℕ) where
  pop_array_keeps :
      (k : ℕ) (r : Ring A)
      → ((pop_array n k r).1.content ≡ r.content) × ((pop_array n k r).1.wpos ≡ r.wpos)
  unfolding pop_array
  pop_array_keeps k r = elim (Bool-cases (ltb (size n r) k)) [
    | inl few ↦ rw few (refl, refl)
    | inr enough ↦ elim (Bool-cases (ltb (add32 r.rpos k) n)) [
      | inl short ↦ rw (enough, short) (refl, refl)
      | inr long ↦ rw (enough, long) (refl, refl)
    ]
  ]

  push_outside :
      (x : A) (r : Ring A) → length r.content ≤ r.wpos → (push n x r).1.content ≡ r.content
  unfolding push
  push_outside x r h = elim (Bool-cases (is_full n r)) [
    | inl full ↦ rw full
    | inr room ↦ rw room (set_outside r.content r.wpos x h)
  ]

module _ {ℓ} {A : Type ℓ} {n : ℕ} {r : Ring A} (v : IsValid n r) (src : List A) where
  -- An array that ends exactly at the end of `content_` leaves `wpos_` at BUF_SIZE, whatever the size
  -- of an element; however many elements are then removed, the next `Push` writes outside `content_`.
  pub push_array_at_end :
      (size_of : ℕ)
      → 0 < length src
      → length src ≤ unused_capacity n r
      → r.wpos + length src ≡ n
      → let r' = (push_array n size_of src (length src) r).1 in
        (r'.wpos ≡ n) × ((k : ℕ) (x : A) → (push n x (pop_array n k r').1).1.content ≡ r'.content)
  push_array_at_end size_of some p e =
      let enough : ltb (unused_capacity n r) (length src) ≡ false = ground arith in
      let l : add32 r.wpos (length src) ≡ n = omega (arith, v) in
      let short : leb n n ≡ true = ground arith in
      let t : take (length src) src ≡ src = take_all (length src) src refl in
      unfold push_array in
      rw (enough, l, short, t)
        (
          refl,
          λ k x.
              let r' : Ring A = record r { content = copy_in r.content r.wpos src; wpos = n } in
              let (same, at_end) = pop_array_keeps n k r' in
              push_outside n x (pop_array n k r').1
                (rw (same, at_end) (omega (arith, length-copy_in r.content r.wpos src, v.storage)))
              ∙ same,
        )

-- For larger elements the second `memcpy` of a split copy never has the length that is left.
pub tail_count_wrong :
    (size_of len tmp : ℕ)
    → 2 ≤ size_of
    → size_of ≤ 2 ^ 31
    → 0 < tmp
    → tmp < len
    → len < 2 ^ 32
    → tail_count size_of len tmp ≢ len - tmp
unfolding tail_count
tail_count_wrong s len tmp h b p q c e =
    let whole : len * s ≡ (len - tmp) * s + tmp * s = grind arith in
    let large : len * 2 ≤ len * s = grind arith in
    let small : len * s ≤ 2 ^ 63 = grind arith in
    let bytes = (len + 2 ^ 64 - (tmp * s) % 2 ^ 64) % 2 ^ 64 in
    let low : (bytes / s) * s ≤ bytes = grind arith in
    let high : bytes < (bytes / s) * s + s = grind arith in
    let low' : (len - tmp) * s ≤ bytes = rw (sym e) low in
    let high' : bytes < (len - tmp) * s + s = rw (sym e) high in omega arith

module _ {ℓ} {A : Type ℓ} {n : ℕ} {r : Ring A} (v : IsValid n r) where
  -- When the elements go round the end of `content_` and fewer are asked for than lie before it,
  -- `TopArray` copies all those into the caller's buffer, and then nearly 2^64 bytes more.
  pub top_array_overruns :
      (len : ℕ)
      → r.wpos < r.rpos
      → 0 < len
      → len < n - r.rpos
      → (top_array n 1 false len r
          ≡ View.copied (
              copy_out r.content r.rpos (n - r.rpos)
              ++ copy_out r.content 0 (2 ^ 64 + len - (n - r.rpos))))
        × (len < n - r.rpos)
  unfolding top_array view_from tail_count
  top_array_overruns len w p q =
      let e : ltb (size n r) len ≡ false = ground (arith, size_lem v) in
      let f : leb (add32 r.rpos len) r.wpos ≡ false = ground (arith, v) in
      let t : sub32 n r.rpos ≡ n - r.rpos = omega (arith, v) in
      let k : (len + 2 ^ 64 - ((n - r.rpos) * 1) % 2 ^ 64) % 2 ^ 64 / 1
          ≡ 2 ^ 64 + len - (n - r.rpos) =
        omega (arith, v) in
      rw (e, f, t, k) (refl, q)
