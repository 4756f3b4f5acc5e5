-- ===== src/Container/RingBuf/Queue.antt =====
-- What `RingBuf` promises: a queue of at most `cap` elements, oldest first, and the calls of a client.
use ytlib.Base.{
  ℕ, Bool, true, false, Option, List, [], ◌∷◌, ◌++◌, ltb, leb, if◌then◌else◌, length, get_elem?,
  drop,
}
use ytlib.Container.RingBuf.{Access}

pub data Op {ℓ} (A : Type ℓ) : Type ℓ where
  put : A → Op A
  remove peek reset : Op A
  peek_at remove_many : ℕ → Op A

-- What a call returns: nothing, a flag or a reference.
pub data Reply {ℓ} (A : Type ℓ) : Type ℓ where
  done : Reply A
  flag : Bool → Reply A
  access : Access A → Reply A

module _ {ℓ} {A : Type ℓ} where
  abbrev pub peek_queue : List A → Access A
  peek_queue [] = Access.runtime_error
  peek_queue (x ∷ q) = Access.item (Option.some x)

  abbrev pub remove_queue : List A → Reply A × List A
  remove_queue [] = (flag false, [])
  remove_queue (x ∷ q) = (flag true, q)

  abbrev pub call_queue : ℕ → Op A → List A → Reply A × List A
  call_queue cap (put x) q =
      if ltb (length q) cap then (flag true, q ++ x ∷ []) else (flag false, q)
  call_queue cap remove q = remove_queue q
  call_queue cap peek q = (access (peek_queue q), q)
  call_queue cap (peek_at i) q = (
    access (if leb (length q) i then Access.invalid_argument else Access.item (get_elem? q i)),
    q,
  )
  call_queue cap (remove_many k) q =
      if ltb (length q) k then (flag false, q) else (flag true, drop k q)
  call_queue cap reset q = (done, [])

  unfoldable pub run_queue : ℕ → List (Op A) → List A → List (Reply A)
  run_queue cap [] q = []
  run_queue cap (op ∷ ops) q = let (a, q') = call_queue cap op q in a ∷ run_queue cap ops q'
