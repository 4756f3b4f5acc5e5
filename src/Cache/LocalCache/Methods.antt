-- ===== src/Cache/LocalCache/Methods.antt =====
-- What `Get`, `Update` and `Del` return and leave behind, as a client sees it.
use ytlib.Base.{
  ℕ, ◌<◌, ◌≤◌, ◌≡◌, refl, sym, ap, ◌∙◌, Option, none, some, List, [], ◌∷◌, ◌++◌, arith,
  if◌then◌else◌, Bool-cases, Option-cases, inl, inr, length, length-append,
}
use ytlib.Base.Eq.{Eq}
use ytlib.Cache.LocalCache.Dict.{
  count, erase, lookup, remove, count_of_lookup, lookup-remove, count-append, count-erase,
  length-erase,
}
use ytlib.Cache.LocalCache.Inv.{Table, Within-remove, Linked-remove, Ordered-Within, Ordered-erase}
use ytlib.Cache.LocalCache.Expire.{IsValid, Expired, clean_expired_lem}
use ytlib.Cache.LocalCache.{Content, Cache, get, del, is_expired, ◌>>=◌}

-- An element as a client sees it at the time `now`: gone when its lifetime is over.
abbrev pub alive : {V : Type 0} → ℕ → ℕ → Option (Content V) → Option (Content V)
alive ttl now none = none
alive ttl now (some c) = if is_expired ttl now c then none else some c

abbrev pub value : {V : Type 0} → Option (Content V) → Option V
value none = none
value (some c) = some c.val

module _ {K : Type 0} ⦃e : Eq K⦄ where
  -- The keys of the lists do not change when a key goes to the end of one.
  pub count_to_end :
      (j k : K) (xs : List K) → 0 < count k xs → count j (erase k xs ++ k ∷ []) ≡ count j xs
  unfolding count
  count_to_end j k xs p = ground (
    arith,
    count-append j (erase k xs) (k ∷ []),
    count-erase j k xs,
    e.beq_iff k j,
    e.beq_iff j k,
  )

  pub length_to_end :
      (k : K) (xs : List K) → 0 < count k xs → length (erase k xs ++ k ∷ []) ≡ length xs
  length_to_end k xs p = omega (arith, length-append (erase k xs) (k ∷ []), length-erase k xs p)

module _ {K V : Type 0} ⦃e : Eq K⦄ where
  pub lookup-eq-alive :
      (ttl now : ℕ) (m m' : Table K V)
      → Expired ttl now m m'
      → (k : K) → lookup k m' ≡ alive ttl now (lookup k m)
  lookup-eq-alive ttl now m m' h k = elim (Option-cases (lookup k m)) [
    | inl absent ↦ elim (Option-cases (lookup k m')) [
      | inl gone ↦ rw (absent, gone)
      | inr (c, found) ↦ cc (h.within k c found)
    ]
    | inr (c, found) ↦ elim (Bool-cases (is_expired ttl now c)) [
      | inl old ↦ elim (Option-cases (lookup k m')) [
        | inl gone ↦ rw (found, old, gone)
        | inr (d, there) ↦ cc (h.within k d there, h.fresh k d there, old, found)
      ]
      | inr live ↦ rw (found, live) (h.kept k c found live)
    ]
  ]

  -- `Get`, on a valid cache and at a time that is not before the last one, answers with the value whose
  -- lifetime is not over, removes the expired elements and changes no other; if it found a value, the
  -- key is the last of the LRU list behind it, the most recently used. The cache stays valid.
  pub get_lem :
      (now t : ℕ) (k : K) (c : Cache K V)
      → t ≤ now
      → IsValid t c
      → (c' : Cache K V) × (get now k c
          ≡ some (value (alive c.cfg.ttl now (lookup k c.data_map)), c'))
        × IsValid now c'
        × ((j : K) → lookup j c'.data_map ≡ alive c.cfg.ttl now (lookup j c.data_map))
        × (c'.cfg ≡ c.cfg)
        × ((x : Content V)
            → alive c.cfg.ttl now (lookup k c.data_map) ≡ some x
            → (older : List K) × (c'.lru_list ≡ older ++ k ∷ []))
  unfolding get
  get_lem now t k c p v =
      let (mid, runs, valid, cfg, expired) = clean_expired_lem now t c p v in
      let seen = lookup-eq-alive c.cfg.ttl now c.data_map mid.data_map expired in
      elim (Option-cases (lookup k mid.data_map)) [
        | inl miss ↦ (
          mid,
          rw (runs, ← seen k) (rw (miss, ◌>>=◌)),
          valid,
          seen,
          cfg,
          λ x found. let no : none ≡ some x = sym miss ∙ seen k ∙ found in cc,
        )
        | inr (x, hit) ↦
            let q : 0 < count k mid.lru_list =
              omega (arith, count_of_lookup k mid.data_map x hit, valid.linked.in_lru k) in
            (
              record mid { lru_list = erase k mid.lru_list ++ k ∷ [] },
              rw (runs, ← seen k) (rw (hit, ◌>>=◌)),
              record {
                linked = record {
                  once = valid.linked.once;
                  in_lru = λ j. count_to_end j k mid.lru_list q ∙ valid.linked.in_lru j;
                  in_ttl = valid.linked.in_ttl;
                  lru_length = length_to_end k mid.lru_list q ∙ valid.linked.lru_length;
                  ttl_length = valid.linked.ttl_length;
                };
                ordered = valid.ordered;
                loaded = valid.loaded;
              },
              seen,
              cfg,
              λ y found. (erase k mid.lru_list, refl),
            )
      ]

  -- After `Del` the key is gone, and the other elements are as they were, less the expired ones.
  pub del_lem :
      (now t : ℕ) (k : K) (c : Cache K V)
      → t ≤ now
      → IsValid t c
      → (c' : Cache K V) × (del now k c ≡ some c')
        × IsValid now c'
        × ((j : K)
            → lookup j c'.data_map
              ≡ (if e.beq k j then none else alive c.cfg.ttl now (lookup j c.data_map)))
  unfolding del
  del_lem now t k c p v =
      let (mid, runs, valid, cfg, expired) = clean_expired_lem now t c p v in
      let seen = lookup-eq-alive c.cfg.ttl now c.data_map mid.data_map expired in
      elim (Option-cases (lookup k mid.data_map)) [
        | inl miss ↦ (
          mid,
          rw runs (rw (miss, ◌>>=◌)),
          valid,
          λ j. elim (Bool-cases (e.beq k j)) [
            | inl same ↦
                rw same (ap (λ i. lookup i mid.data_map) (sym ((e.beq_iff k j).0 same)) ∙ miss)
            | inr other ↦ rw other (seen j)
          ],
        )
        | inr (x, hit) ↦
            let q = count_of_lookup k mid.data_map x hit in
            (
              record mid {
                data_map = remove k mid.data_map;
                lru_list = erase k mid.lru_list;
                ttl_list = erase k mid.ttl_list;
              },
              rw runs (rw (hit, ◌>>=◌)),
              record {
                linked = Linked-remove k mid.data_map mid.lru_list mid.ttl_list q valid.linked;
                ordered =
                    Ordered-Within (remove k mid.data_map) mid.data_map (erase k mid.ttl_list)
                      (Within-remove k mid.data_map (valid.linked.once k))
                      (Ordered-erase mid.data_map k mid.ttl_list valid.ordered);
                loaded = λ j d r.
                    valid.loaded j d (Within-remove k mid.data_map (valid.linked.once k) j d r);
              },
              λ j. rw (lookup-remove j k mid.data_map (valid.linked.once k), seen j),
            )
      ]
