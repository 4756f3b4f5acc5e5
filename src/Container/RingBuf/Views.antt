-- ===== src/Container/RingBuf/Views.antt =====
-- What `TopArray` and `GetArray` hand to the caller, against the queue.
use ytlib.Base.{
  ℕ, zero, suc, ◌+◌, ◌-◌, ◌≤◌, ◌<◌, ◌≡◌, ◌⊎◌, refl, sym, ap, ap₂, ◌∙◌, true, false, Option, some,
  List, [], ◌∷◌, ◌++◌, map, map-append, arith, ltb, leb, if◌then◌else◌, length, take, drop, inl,
  inr, take-append, drop-append, drop-cons, take-map, drop-map,
}
use ytlib.Container.RingBuf.{
  Ring, View, add32, sub32, size, view_from, get_array, copy_out, tail_count,
}
use ytlib.Container.RingBuf.Inv.{size-lt}
use ytlib.Container.RingBuf.Window.{wrap, wrap-lt, window, length-window, window-add}
use ytlib.Container.RingBuf.Refine.{Represents}
use ytlib.Container.RingBuf.Arrays.{tail_count_bytes}

-- The elements behind `buf`: those that the pointer names, or those that were copied.
abbrev pub seen {ℓ} : {A : Type ℓ} → ℕ → Ring A → ℕ → View A → List (Option A)
seen n r len View.refused = []
seen n r len (View.pointer i) = window r.content n i len
seen n r len (View.copied xs) = map some xs

module _ {ℓ} {A : Type ℓ} (c : List A) (n : ℕ) where
  copy_out-window :
      (h k : ℕ) → length c ≡ n → h + k ≤ n → map some (copy_out c h k) ≡ window c n h k
  copy_out-window h zero e p = refl
  copy_out-window h (suc zero) e p = let (x, d, g) = drop-cons c h (omega arith) in rw (d, g)
  copy_out-window h (suc (suc k)) e p =
      let (x, d, g) = drop-cons c h (omega arith) in
      let next : wrap n (h + 1) ≡ suc h = ground arith in
      rw (d, g, next) (ap (λ t. some x ∷ t) (copy_out-window (suc h) (suc k) e (omega arith)))

module _ {ℓ} {A : Type ℓ} {n : ℕ} {r : Ring A} (q : List A) (h : Represents n r q) where
  -- The `len` elements from position `pos` of the queue lie in a row round the array.
  segment :
      (pos len : ℕ)
      → pos + len ≤ size n r
      → window r.content n (wrap n (r.rpos + pos)) len ≡ map some (take len (drop pos q))
  segment pos len p =
      let all = window r.content n r.rpos in
      let rest = size n r - (pos + len) in
      let z : size n r ≡ pos + (len + rest) = omega arith in
      let i = wrap n (r.rpos + pos) in
      let i-in : i < n =
        wrap-lt n (r.rpos + pos) (omega (arith, size-lt h.valid, h.valid)) h.valid.positive in
      let split : map some q ≡ all pos ++ window r.content n i (len + rest) =
        sym h.held
        ∙ ap all z
        ∙ window-add r.content n r.rpos pos (len + rest) h.valid.rpos_in
            (omega (arith, size-lt h.valid)) in
      sym (
        take-append (window r.content n i len) (window r.content n (wrap n (i + len)) rest) len
          (length-window r.content n i len))
      ∙ ap (take len) (
          sym (window-add r.content n i len rest i-in (omega (arith, size-lt h.valid)))
          ∙ sym (
              drop-append (all pos) (window r.content n i (len + rest)) pos
                (length-window r.content n r.rpos pos))
          ∙ ap (drop pos) (sym split))
      ∙ ap (take len) (drop-map pos q some)
      ∙ take-map len (drop pos q) some

  -- The part before the end of `content_` and the part from its start make up the segment.
  segment_split :
      (i len : ℕ)
      → i < n
      → n ≤ i + len
      → len < n
      → map some (copy_out r.content i (n - i) ++ copy_out r.content 0 (len - (n - i)))
        ≡ window r.content n i len
  segment_split i len a b c =
      let z : len ≡ (n - i) + (len - (n - i)) = omega arith in
      let start : wrap n (i + (n - i)) ≡ 0 = ground arith in
      map-append some (copy_out r.content i (n - i)) (copy_out r.content 0 (len - (n - i)))
      ∙ ap₂ ◌++◌ (copy_out-window r.content n i (n - i) h.valid.storage (omega arith)) (
          copy_out-window r.content n 0 (len - (n - i)) h.valid.storage (omega arith)
          ∙ ap (λ j. window r.content n j (len - (n - i))) (sym start))
      ∙ sym (window-add r.content n i (n - i) (len - (n - i)) a (omega arith))
      ∙ ap (window r.content n i) (sym z)

  -- With elements of one byte and a buffer of the caller's, `GetArray` shows exactly the `len`
  -- elements from position `pos` on, when they lie before `wpos_` or reach the end of `content_`.
  pub get_array_shows :
      (pos len : ℕ)
      → pos + len ≤ size n r
      → (wrap n (r.rpos + pos) + len ≤ r.wpos) ⊎ (n ≤ wrap n (r.rpos + pos) + len)
      → seen n r len (get_array n 1 pos false len r) ≡ map some (take len (drop pos q))
  unfolding get_array view_from
  get_array_shows pos len p place =
      let i = wrap n (r.rpos + pos) in
      let i-in : i < n =
        wrap-lt n (r.rpos + pos) (omega (arith, size-lt h.valid, h.valid)) h.valid.positive in
      let fits : ltb (size n r) (add32 len pos) ≡ false =
        ground (arith, size-lt h.valid, h.valid) in
      let j : (if leb n (add32 r.rpos pos) then add32 r.rpos pos - n else add32 r.rpos pos) ≡ i =
        ground (arith, size-lt h.valid, h.valid) in
      let sum : add32 i len ≡ i + len = omega (arith, size-lt h.valid, h.valid) in
      rw (fits, j, sum)
        (elim place [
          | inl row ↦ let e : leb (i + len) r.wpos ≡ true = ground arith in rw e (segment pos len p)
          | inr end ↦
              let e : leb (i + len) r.wpos ≡ false = ground (arith, h.valid) in
              let t : sub32 n i ≡ n - i = omega (arith, h.valid) in
              let k : tail_count 1 len (n - i) ≡ len - (n - i) =
                tail_count_bytes len (n - i) (omega arith)
                  (omega (arith, size-lt h.valid, h.valid)) in
              rw (e, t, k)
                (segment_split i len i-in end (omega (arith, size-lt h.valid)) ∙ segment pos len p)
        ])
