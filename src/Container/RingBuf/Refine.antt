-- ===== src/Container/RingBuf/Refine.antt =====
-- A ring behaves as the bounded queue of the elements that it holds, call by call.
use ytlib.Base.{
  ℕ, suc, ◌+◌, ◌-◌, ◌≤◌, ◌<◌, ◌≡◌, refl, sym, ap, ap₂, ◌∙◌, true, false, Option, some, List, [],
  ◌∷◌, ◌++◌, map, arith, ltb, leb, if◌then◌else◌, length, get_elem?, drop, Bool-cases, inl, inr,
  length-map, drop-append, drop-map, map-append, set, get_elem?-map-some,
}
use ytlib.Container.RingBuf.{
  Ring, Access, is_empty, is_full, capacity, size, push, bump, add32, pop, top, get, pop_array,
  clear,
}
use ytlib.Container.RingBuf.Queue.{
  Op, Reply, put, remove, peek, reset, peek_at, remove_many, done, flag, access, call_queue,
  run_queue,
}
use ytlib.Container.RingBuf.Inv.{
  IsValid, size_lem, size-lt, full_empty_iff, push-IsValid, pop_array-IsValid, clear-IsValid,
}
use ytlib.Container.RingBuf.Window.{
  wrap, window, length-window, window-add, window-set, get_elem?-window,
}

-- The elements held, oldest first.
abbrev pub contents {ℓ} : {A : Type ℓ} → ℕ → Ring A → List (Option A)
contents n r = window r.content n r.rpos (size n r)

-- `r` is a valid ring that holds the queue `q`.
pub record Represents {ℓ} {A : Type ℓ} (n : ℕ) (r : Ring A) (q : List A) : Type ℓ where
  pub valid : IsValid n r
  pub held : contents n r ≡ map some q

-- One call on a ring, with what it returns.
unfoldable pub call {ℓ} : {A : Type ℓ} → ℕ → Op A → Ring A → Reply A × Ring A
call n (put x) r = let (b, r') = push n x r in (flag b, r')
call n remove r = let (b, r') = pop n r in (flag b, r')
call n peek r = (access (top n r), r)
call n (peek_at i) r = (access (get n i r), r)
call n (remove_many k) r = let (b, r') = pop_array n k r in (flag b, r')
call n reset r = (done, clear r)

unfoldable pub run {ℓ} : {A : Type ℓ} → ℕ → List (Op A) → Ring A → List (Reply A)
run n [] r = []
run n (op ∷ ops) r = let (a, r') = call n op r in a ∷ run n ops r'

pub record Simulates {ℓ} {A : Type ℓ} (n : ℕ) (a : Reply A × Ring A) (b : Reply A × List A)
    : Type ℓ where
  pub reply : a.0 ≡ b.0
  pub state : Represents n a.1 b.1

module _ {ℓ} {A : Type ℓ} {n : ℕ} {r : Ring A} (q : List A) (h : Represents n r q) where
  pub size-eq-length : size n r ≡ length q
  size-eq-length =
      sym (length-window r.content n r.rpos (size n r)) ∙ ap length h.held ∙ length-map q some

  pub wpos-eq-wrap : r.wpos ≡ wrap n (r.rpos + size n r)
  wpos-eq-wrap = ground (arith, size_lem h.valid, h.valid)

  push_ok :
      (x : A)
      → size n r < capacity n
      → push n x r ≡ (true, record r { content = set r.content r.wpos x; wpos = bump n r.wpos })
  unfolding push
  push_ok x p = let e : is_full n r ≡ false = ground (arith, full_empty_iff h.valid) in rw e

  push_refused : (x : A) → ¬ (size n r < capacity n) → push n x r ≡ (false, r)
  unfolding push
  push_refused x p =
      let e : is_full n r ≡ true =
        unfold capacity in ground (arith, full_empty_iff h.valid, size-lt h.valid) in
      rw e

  size-push : (x : A) → size n r < capacity n → size n (push n x r).1 ≡ suc (size n r)
  unfolding push capacity is_full
  size-push x p = ground (arith, size_lem h.valid, size_lem (push-IsValid h.valid x), h.valid)

  held-push : (x : A) → size n r < capacity n → contents n (push n x r).1 ≡ map some (q ++ x ∷ [])
  held-push x p =
      ap (λ k. window (push n x r).1.content n (push n x r).1.rpos k) (size-push x p)
      ∙ ap (λ r'. window r'.content n r'.rpos (suc (size n r))) (ap (λ t. t.1) (push_ok x p))
      ∙ (window-set r.content n x r.rpos (size n r) r.wpos (omega (arith, h.valid.storage))
            h.valid.rpos_in (size-lt h.valid) wpos-eq-wrap
          ∙ ap (λ t. t ++ some x ∷ []) h.held
          ∙ sym (map-append some q (x ∷ [])))

  put-Simulates : (x : A) → Simulates n (call n (put x) r) (call_queue (capacity n) (put x) q)
  unfolding call
  put-Simulates x = elim (Bool-cases (ltb (length q) (capacity n))) [
    | inl room ↦
        let p : size n r < capacity n = ground (arith, size-eq-length) in
        rw room (record {
          reply = rw (push_ok x p);
          state = record { valid = push-IsValid h.valid x; held = held-push x p };
        })
    | inr full ↦
        let p : ¬ (size n r < capacity n) = ground (arith, size-eq-length) in
        rw (full, push_refused x p) (record { reply = refl; state = h })
  ]

  -- Dropping elements at the front moves `rpos_` over them.
  pop_array_ok :
      (k : ℕ) → k ≤ size n r → pop_array n k r ≡ (true, record r { rpos = wrap n (r.rpos + k) })
  unfolding pop_array
  pop_array_ok k p = elim (Bool-cases (ltb (add32 r.rpos k) n)) [
    | inl inside ↦
        let e : ltb (size n r) k ≡ false = ground arith in
        let i : add32 r.rpos k ≡ wrap n (r.rpos + k) = ground (arith, size_lem h.valid, h.valid) in
        rw (e, inside, i)
    | inr around ↦
        let e : ltb (size n r) k ≡ false = ground arith in
        let i : add32 r.rpos k - n ≡ wrap n (r.rpos + k) =
          ground (arith, size_lem h.valid, h.valid) in
        rw (e, around, i)
  ]

  size-pop_array : (k : ℕ) → k ≤ size n r → size n (pop_array n k r).1 + k ≡ size n r
  size-pop_array k p =
      ground
        (arith, pop_array_ok k p, size_lem h.valid, size_lem (pop_array-IsValid h.valid k), h.valid)

  held-pop_array : (k : ℕ) → k ≤ size n r → contents n (pop_array n k r).1 ≡ map some (drop k q)
  held-pop_array k p =
      let e : size n r ≡ k + size n (pop_array n k r).1 = omega (arith, size-pop_array k p) in
      ap (λ r'. window r'.content n r'.rpos (size n (pop_array n k r).1))
        (ap (λ t. t.1) (pop_array_ok k p))
      ∙ (sym (
            drop-append (window r.content n r.rpos k)
              (window r.content n (wrap n (r.rpos + k)) (size n (pop_array n k r).1)) k
              (length-window r.content n r.rpos k))
          ∙ ap (drop k) (
              sym (
                window-add r.content n r.rpos k (size n (pop_array n k r).1) h.valid.rpos_in
                  (omega (arith, size-lt h.valid)))
              ∙ ap (window r.content n r.rpos) (sym e)
              ∙ h.held)
          ∙ drop-map k q some)

  remove_many-Simulates :
      (k : ℕ) → Simulates n (call n (remove_many k) r) (call_queue (capacity n) (remove_many k) q)
  unfolding call
  remove_many-Simulates k = elim (Bool-cases (ltb (length q) k)) [
    | inl short ↦
        let e : ltb (size n r) k ≡ true = ground (arith, size-eq-length) in
        unfold pop_array in rw (short, e) (record { reply = refl; state = h })
    | inr enough ↦
        let p : k ≤ size n r = ground (arith, size-eq-length) in
        rw enough (record {
          reply = rw (pop_array_ok k p);
          state = record { valid = pop_array-IsValid h.valid k; held = held-pop_array k p };
        })
  ]

  held_at : (i : ℕ) → i < size n r → get_elem? q i ≡ get_elem? r.content (wrap n (r.rpos + i))
  held_at i p = get_elem?-map-some q i _ (
      ap (λ t. get_elem? t i) (sym h.held)
      ∙ get_elem?-window r.content n r.rpos (size n r) i h.valid.rpos_in p
          (omega (arith, size-lt h.valid)))

  peek_at-Simulates :
      (i : ℕ) → Simulates n (call n (peek_at i) r) (call_queue (capacity n) (peek_at i) q)
  unfolding call get
  peek_at-Simulates i = elim (Bool-cases (leb (length q) i)) [
    | inl out ↦
        let e : leb (size n r) i ≡ true = ground (arith, size-eq-length) in
        rw (out, e) (record { reply = refl; state = h })
    | inr inside ↦
        let e : leb (size n r) i ≡ false = ground (arith, size-eq-length) in
        let j : (if ltb (add32 r.rpos i) n then add32 r.rpos i else add32 r.rpos i - n)
            ≡ wrap n (r.rpos + i) =
          ground (arith, size-lt h.valid, h.valid) in
        rw (inside, e, j)
          (record {
            reply =
                ap (λ y. access (Access.item y)) (sym (held_at i (ground (arith, size-eq-length))));
            state = h;
          })
  ]

  reset-Simulates : Simulates n (call n reset r) (call_queue (capacity n) reset q)
  unfolding call
  reset-Simulates = record {
    reply = refl;
    state = record { valid = clear-IsValid h.valid; held = unfold clear size in refl };
  }

  pop-eq-pop_array : 0 < size n r → pop n r ≡ pop_array n 1 r
  unfolding pop
  pop-eq-pop_array p =
      let e : is_empty n r ≡ false = ground (arith, full_empty_iff h.valid) in
      let i : bump n r.rpos ≡ wrap n (r.rpos + 1) = ground (arith, h.valid) in
      rw (e, i) (sym (pop_array_ok 1 p))

module _ {ℓ} {A : Type ℓ} {n : ℕ} {r : Ring A} where
  remove-Simulates :
      (q : List A)
      → Represents n r q
      → Simulates n (call n remove r) (call_queue (capacity n) remove q)
  unfolding call
  remove-Simulates [] h =
      let e : is_empty n r ≡ true = ground (arith, full_empty_iff h.valid, size-eq-length [] h) in
      unfold pop in rw e (record { reply = refl; state = h })
  remove-Simulates (x ∷ q) h =
      let p : 0 < size n r = omega (arith, size-eq-length (x ∷ q) h) in
      rw (pop-eq-pop_array (x ∷ q) h p) (record {
        reply = ap (λ t. flag t.0) (pop_array_ok (x ∷ q) h 1 p);
        state = record { valid = pop_array-IsValid h.valid 1; held = held-pop_array (x ∷ q) h 1 p };
      })

  peek-Simulates :
      (q : List A) → Represents n r q → Simulates n (call n peek r) (call_queue (capacity n) peek q)
  unfolding call top
  peek-Simulates [] h =
      let e : is_empty n r ≡ true = ground (arith, full_empty_iff h.valid, size-eq-length [] h) in
      rw e (record { reply = refl; state = h })
  peek-Simulates (x ∷ q) h =
      let p : 0 < size n r = omega (arith, size-eq-length (x ∷ q) h) in
      let e : is_empty n r ≡ false = ground (arith, full_empty_iff h.valid) in
      let i : wrap n (r.rpos + 0) ≡ r.rpos = ground (arith, h.valid) in
      rw e (record {
        reply =
            ap (λ y. access (Access.item y))
              (ap (get_elem? r.content) (sym i) ∙ sym (held_at (x ∷ q) h 0 p));
        state = h;
      })

  -- Every call returns what the bounded queue returns, and leaves the ring holding its queue: pushes
  -- and pops that are refused, reads of no element and removals of too many included.
  pub call-Simulates :
      (op : Op A) (q : List A)
      → Represents n r q
      → Simulates n (call n op r) (call_queue (capacity n) op q)
  call-Simulates (put x) q h = put-Simulates q h x
  call-Simulates remove q h = remove-Simulates q h
  call-Simulates peek q h = peek-Simulates q h
  call-Simulates (peek_at i) q h = peek_at-Simulates q h i
  call-Simulates (remove_many k) q h = remove_many-Simulates q h k
  call-Simulates reset q h = reset-Simulates q h

-- No sequence of calls of Push, Pop, Top, Get, PopArray and Clear tells a valid ring that holds `q` from
-- the queue `q` bounded by BUF_SIZE - 1; PushArray, TopArray and GetArray are not among the calls.
pub run_refines {ℓ} :
    {A : Type ℓ} (n : ℕ) (ops : List (Op A)) (r : Ring A) (q : List A)
    → Represents n r q
    → run n ops r ≡ run_queue (capacity n) ops q
unfolding run run_queue
run_refines n [] r q h = refl
run_refines n (op ∷ ops) r q h =
    let s = call-Simulates {n = n} {r = r} op q h in
    ap₂ ◌∷◌ s.reply (run_refines n ops (call n op r).1 (call_queue (capacity n) op q).1 s.state)
