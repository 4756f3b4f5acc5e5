-- ===== src/Cache/LocalCache/Inv.antt =====
-- How the map and the two lists of `LocalCache` belong together.
use ytlib.Base.{
  ℕ, ◌<◌, ◌≤◌, ◌≡◌, sym, ◌∙◌, some, List, [], ◌∷◌, ◌++◌, arith, length, Bool-cases, inl, inr,
}
use ytlib.Base.Eq.{Eq}
use ytlib.Cache.LocalCache.Dict.{
  count, erase, keys, lookup, remove, count-append, count-erase, length-erase, keys-remove,
  length-remove, lookup-remove,
}
use ytlib.Cache.LocalCache.{Content}

abbrev pub Table : Type 0 → Type 0 → Type 0
Table K V = List (K × Content V)

module _ {K V : Type 0} ⦃e : Eq K⦄ where
  -- Each key of the map stands in it once, once in the LRU list and once in the TTL list.
  pub record Linked (m : Table K V) (lru ttl : List K) : Type 0 where
    pub once : (k : K) → count k (keys m) ≤ 1
    pub in_lru : (k : K) → count k lru ≡ count k (keys m)
    pub in_ttl : (k : K) → count k ttl ≡ count k (keys m)
    pub lru_length : length lru ≡ length m
    pub ttl_length : length ttl ≡ length m

  -- The TTL list is in the order of the load times.
  abbrev pub Ordered : Table K V → List K → Type 0
  Ordered m [] = Unit
  Ordered m (k ∷ ks) =
      ((j : K) (c d : Content V)
        → 0 < count j ks
        → lookup k m ≡ some c
        → lookup j m ≡ some d
        → c.load_time ≤ d.load_time)
      × Ordered m ks

  -- No element was loaded after `now`.
  abbrev pub LoadedBy : ℕ → Table K V → Type 0
  LoadedBy now m = (k : K) (c : Content V) → lookup k m ≡ some c → c.load_time ≤ now

  -- The elements of one map are elements of another.
  abbrev pub Within : Table K V → Table K V → Type 0
  Within m' m = (k : K) (c : Content V) → lookup k m' ≡ some c → lookup k m ≡ some c

  pub Within-remove : (k : K) (m : Table K V) → count k (keys m) ≤ 1 → Within (remove k m) m
  Within-remove k m h j c found = ground (arith, lookup-remove j k m h)

  pub Linked-remove :
      (k : K) (m : Table K V) (lru ttl : List K)
      → 0 < count k (keys m)
      → Linked m lru ttl
      → Linked (remove k m) (erase k lru) (erase k ttl)
  Linked-remove k m lru ttl p h = record {
    once = λ j. rw (keys-remove k m) (ground (arith, count-erase j k (keys m), h.once j));
    in_lru = λ j.
        rw (keys-remove k m)
          (ground (arith, count-erase j k (keys m), count-erase j k lru, h.in_lru j));
    in_ttl = λ j.
        rw (keys-remove k m)
          (ground (arith, count-erase j k (keys m), count-erase j k ttl, h.in_ttl j));
    lru_length = omega (arith, length-remove k m p, length-erase k lru, h.in_lru k, h.lru_length);
    ttl_length = omega (arith, length-remove k m p, length-erase k ttl, h.in_ttl k, h.ttl_length);
  }

  pub Ordered-Within : (m' m : Table K V) (ks : List K) → Within m' m → Ordered m ks → Ordered m' ks
  Ordered-Within m' m [] w h = tt
  Ordered-Within m' m (k ∷ ks) w h =
      (λ j c d p fc fd. h.0 j c d p (w k c fc) (w j d fd), Ordered-Within m' m ks w h.1)

  pub Ordered-erase : (m : Table K V) (k : K) (ks : List K) → Ordered m ks → Ordered m (erase k ks)
  unfolding erase count
  Ordered-erase m k [] h = tt
  Ordered-erase m k (i ∷ ks) h = elim (Bool-cases (e.beq k i)) [
    | inl same ↦ rw same h.1
    | inr other ↦ rw other (
      λ j c d p fc fd. h.0 j c d (ground (arith, count-erase j k ks)) fc fd,
      Ordered-erase m k ks h.1,
    )
  ]

  -- A key loaded last may stand at the end.
  pub Ordered-snoc :
      (m' m : Table K V) (k : K) (now : ℕ) (ks : List K)
      → ((j : K) → 0 < count j ks → lookup j m' ≡ lookup j m)
      → LoadedBy now m
      → ((d : Content V) → lookup k m' ≡ some d → d.load_time ≡ now)
      → Ordered m ks
      → Ordered m' (ks ++ k ∷ [])
  unfolding count
  Ordered-snoc m' m k now [] same by last h = (λ j c d p fc fd. elim p [ ], tt)
  Ordered-snoc m' m k now (i ∷ ks) same by last h = (
    λ j c d p fc fd.
        let ci : lookup i m ≡ some c = sym (same i (ground (arith, e.beq_iff i i))) ∙ fc in
        elim (Bool-cases (e.beq j k)) [
          | inl new ↦
              let fd' : lookup k m' ≡ some d = cc ((e.beq_iff j k).0 new, fd) in
              rw (last d fd') (by i c ci)
          | inr old ↦
              let q : 0 < count j ks = ground (arith, count-append j ks (k ∷ [])) in
              h.0 j c d q ci (sym (same j (ground arith)) ∙ fd)
        ],
    Ordered-snoc m' m k now ks (λ j p. same j (ground arith)) by last h.1,
  )
