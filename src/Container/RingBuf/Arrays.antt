-- ===== src/Container/RingBuf/Arrays.antt =====
-- `PushArray`, `TopArray` and `GetArray`: where they agree with the queue, and where they do not.
use ytlib.Base.{
  ℕ, suc, ◌+◌, ◌-◌, ◌*◌, ◌^◌, ◌≤◌, ◌<◌, ◌≡◌, ◌≢◌, refl, sym, ap, ap₂, ◌∙◌, true, false, some, List,
  [], ◌∷◌, ◌++◌, map, map-append, arith, ltb, leb, length, set, take, drop, Bool-cases, inl, inr,
  length-set, length-drop, length-take, append-nil, append_assoc, take-append-drop, take_all,
}
use ytlib.Container.RingBuf.{
  Ring, add32, sub32, size, unused_capacity, capacity, push_array, copy_in, tail_count,
}
use ytlib.Container.RingBuf.Inv.{IsValid, size_lem, unused_capacity-add-size}
use ytlib.Container.RingBuf.Window.{wrap, window, window-set}
use ytlib.Container.RingBuf.Refine.{Represents, wpos-eq-wrap}

module _ {ℓ} {A : Type ℓ} where
  pub length-copy_in : (c : List A) (i : ℕ) (src : List A) → length (copy_in c i src) ≡ length c
  unfolding copy_in
  length-copy_in c i [] = refl
  length-copy_in c i (x ∷ src) = length-copy_in (set c i x) (i + 1) src ∙ length-set c i x

  -- A block copied just past a window, and not beyond the end of the array, extends it by the block.
  window-copy_in :
      (c : List A) (n h k i : ℕ) (src : List A)
      → n ≤ length c
      → h < n
      → k + length src ≤ n
      → i + length src ≤ n
      → (0 < length src → i ≡ wrap n (h + k))
      → window (copy_in c i src) n h (k + length src) ≡ window c n h k ++ map some src
  unfolding copy_in
  window-copy_in c n h k i [] s p q b e = let z : k + 0 ≡ k = omega arith in rw (z, append-nil)
  window-copy_in c n h k i (x ∷ src) s p q b e =
      let here : i ≡ wrap n (h + k) = e (omega arith) in
      let z : k + suc (length src) ≡ suc k + length src = omega arith in
      let next : 0 < length src → i + 1 ≡ wrap n (h + suc k) = λ m. ground arith in
      rw z (
        window-copy_in (set c i x) n h (suc k) (i + 1) src (omega (arith, length-set c i x)) p
          (omega arith) (omega arith) next
        ∙ ap (λ t. t ++ map some src) (window-set c n x h k i s p (omega arith) here)
        ∙ append_assoc (window c n h k) (some x ∷ []) (map some src))

-- For elements of one byte the second `memcpy` copies what the first left.
pub tail_count_bytes : (len tmp : ℕ) → tmp ≤ len → len < 2 ^ 32 → tail_count 1 len tmp ≡ len - tmp
unfolding tail_count
tail_count_bytes len tmp h b = let e : tmp * 1 ≡ tmp = omega arith in rw e (omega arith)

module _ {ℓ} {A : Type ℓ} {n : ℕ} {r : Ring A} (q : List A) (h : Represents n r q)
    (src : List A) where
  -- `r'` holds `src` behind what `r` held, if the positions say so and the elements lie there.
  extended :
      (r' : Ring A)
      → IsValid n r'
      → r'.rpos ≡ r.rpos
      → size n r' ≡ size n r + length src
      → window r'.content n r.rpos (size n r + length src)
        ≡ window r.content n r.rpos (size n r) ++ map some src
      → Represents n r' (q ++ src)
  extended r' v e s w = record {
    valid = v;
    held =
        ap₂ (window r'.content n) e s
        ∙ w
        ∙ ap (λ t. t ++ map some src) h.held
        ∙ sym (map-append some q src);
  }

  straight :
      r.wpos + length src < n
      → size n r + length src < n
      → Represents n
          (record r { content = copy_in r.content r.wpos src; wpos = r.wpos + length src })
          (q ++ src)
  straight p u =
      extended _ v refl (let l = size_lem v in ground (arith, l, size_lem h.valid, h.valid)) (
        window-copy_in r.content n r.rpos (size n r) r.wpos src (omega (arith, h.valid.storage))
          h.valid.rpos_in (omega arith) (omega arith) (λ _. wpos-eq-wrap q h))
    where
      v :
          IsValid n
            (record r { content = copy_in r.content r.wpos src; wpos = r.wpos + length src })
      v = omega (arith, length-copy_in r.content r.wpos src, h.valid)

  abbrev room : ℕ
  room = n - r.wpos

  abbrev split_copy : List A
  split_copy = copy_in (copy_in r.content r.wpos (take room src)) 0 (drop room src)

  around :
      n < r.wpos + length src
      → size n r + length src < n
      → Represents n (record r { content = split_copy; wpos = length src - room }) (q ++ src)
  around p u =
      extended _ v refl (let l = size_lem v in ground (arith, l, size_lem h.valid, h.valid)) (
        ap (window split_copy n r.rpos) (omega (arith, la, lb))
        ∙ window-copy_in (copy_in r.content r.wpos a) n r.rpos (size n r + length a) 0 b
            (omega (arith, length-copy_in r.content r.wpos a, h.valid.storage)) h.valid.rpos_in
            (omega (arith, la, lb)) (omega (arith, lb, h.valid))
            (λ _. ground (arith, la, size_lem h.valid, h.valid))
        ∙ ap (λ t. t ++ map some b)
            (window-copy_in r.content n r.rpos (size n r) r.wpos a (omega (arith, h.valid.storage))
              h.valid.rpos_in (omega (arith, la)) (omega (arith, la, h.valid))
              (λ _. wpos-eq-wrap q h))
        ∙ append_assoc (window r.content n r.rpos (size n r)) (map some a) (map some b)
        ∙ ap (λ t. window r.content n r.rpos (size n r) ++ t)
            (sym (map-append some a b) ∙ ap (map some) (take-append-drop room src)))
    where
      a : List A
      a = take room src

      b : List A
      b = drop room src

      la : length a ≡ room
      la = omega (arith, length-take room src)

      lb : length b ≡ length src - room
      lb = length-drop room src

      v : IsValid n (record r { content = split_copy; wpos = length src - room })
      v = ground (
        arith,
        length-copy_in r.content r.wpos a,
        length-copy_in (copy_in r.content r.wpos a) 0 b,
        h.valid,
        size_lem h.valid,
      )

  fits : length src ≤ unused_capacity n r → size n r + length src < n
  fits p = unfold capacity in omega (arith, unused_capacity-add-size h.valid, h.valid)

  -- For elements of one byte `PushArray` appends the array to the queue whenever it fits, unless it
  -- would end exactly at the end of `content_`.
  pub push_array_appends :
      length src ≤ unused_capacity n r
      → r.wpos + length src ≢ n
      → ((push_array n 1 src (length src) r).0 ≡ true)
        × Represents n (push_array n 1 src (length src) r).1 (q ++ src)
  unfolding push_array
  push_array_appends p ne =
      let enough : ltb (unused_capacity n r) (length src) ≡ false = ground arith in
      elim (Bool-cases (leb (add32 r.wpos (length src)) n)) [
        | inl short ↦
            let l : add32 r.wpos (length src) ≡ r.wpos + length src =
              omega (arith, fits p, h.valid) in
            let t : take (length src) src ≡ src = take_all (length src) src refl in
            rw (enough, short, l, t) (refl, straight (ground arith) (fits p))
        | inr long ↦
            let l : add32 r.wpos (length src) ≡ r.wpos + length src =
              omega (arith, fits p, h.valid) in
            let over : n < r.wpos + length src = ground arith in
            let d : sub32 n r.wpos ≡ room = omega (arith, h.valid) in
            let w : sub32 (length src) room ≡ length src - room = omega (arith, fits p, h.valid) in
            let k : tail_count 1 (length src) room ≡ length src - room =
              tail_count_bytes (length src) room (omega (arith, h.valid))
                (omega (arith, fits p, h.valid)) in
            let t : take (length src - room) (drop room src) ≡ drop room src =
              take_all (length src - room) (drop room src) (length-drop room src) in
            rw (enough, long, d, w, k, t) (refl, around over (fits p))
      ]

  -- An array that does not fit is refused, and nothing is written.
  pub push_array_refused :
      (size_of : ℕ)
      → unused_capacity n r < length src
      → push_array n size_of src (length src) r ≡ (false, r)
  unfolding push_array
  push_array_refused size_of p =
      let e : ltb (unused_capacity n r) (length src) ≡ true = ground arith in rw e
