-- ===== src/Cache/LocalCache/Expire.antt =====
-- `CleanExpireddata` removes the expired elements, all of them and no others.
use ytlib.Base.{
  subst, ℕ, ◌<◌, ◌≤◌, ◌≡◌, refl, true, false, some, List, [], ◌∷◌, arith, Bool-cases, inl, inr,
}
use ytlib.Base.Eq.{Eq}
use ytlib.Cache.LocalCache.Dict.{
  count, erase, keys, lookup, remove, lookup-some, count_of_lookup, lookup-remove,
}
use ytlib.Cache.LocalCache.Inv.{
  Table, Linked, Ordered, LoadedBy, Within, Within-remove, Linked-remove, Ordered-Within,
}
use ytlib.Cache.LocalCache.{Content, Cache, is_expired, expire, clean_expired}

module _ {K V : Type 0} ⦃e : Eq K⦄ where
  -- What is left of the map `m` when the expired elements are gone.
  pub record Expired (ttl now : ℕ) (m m' : Table K V) : Type 0 where
    pub within : Within m' m
    pub fresh : (k : K) (c : Content V) → lookup k m' ≡ some c → is_expired ttl now c ≡ false
    pub kept :
        (k : K) (c : Content V)
        → lookup k m ≡ some c
        → is_expired ttl now c ≡ false
        → lookup k m' ≡ some c

  record Result (ttl now : ℕ) (m : Table K V) (out : List K × Table K V × List K) : Type 0 where
    linked : Linked out.1 out.0 out.2
    ordered : Ordered out.1 out.2
    expired : Expired ttl now m out.1

  abbrev Returns : ℕ → ℕ → List K → List K → Table K V → Type 0
  Returns ttl now ks lru m =
      (out : List K × Table K V × List K) × (expire ttl now ks lru m ≡ some out)
      × Result ttl now m out

  module _ (ttl now : ℕ) where
    expire-nil : (lru : List K) (m : Table K V) → Linked m lru [] → Returns ttl now [] lru m
    unfolding expire count
    expire-nil lru m h = (
      (lru, m, []),
      refl,
      record {
        linked = h;
        ordered = tt;
        expired = record {
          within = λ k c p. p;
          fresh = λ k c p. absurd (omega (arith, count_of_lookup k m c p, h.in_ttl k));
          kept = λ k c p q. p;
        };
      },
    )

    -- The first element that has not expired shows that those behind it have not.
    expire_stop :
        (k : K) (ks lru : List K) (m : Table K V) (c : Content V)
        → Linked m lru (k ∷ ks)
        → Ordered m (k ∷ ks)
        → lookup k m ≡ some c
        → is_expired ttl now c ≡ false
        → Result ttl now m (lru, m, k ∷ ks)
    unfolding count
    expire_stop k ks lru m c h o found live = record {
      linked = h;
      ordered = o;
      expired = record {
        within = λ k c p. p;
        fresh = λ j d p. elim (Bool-cases (e.beq j k)) [
          | inl same ↦ ground (arith, e.beq_iff j k)
          | inr other ↦
              let q : 0 < count j ks = ground (arith, count_of_lookup j m d p, h.in_ttl j) in
              ground (arith, o.0 j c d q found p)
        ];
        kept = λ k c p q. p;
      };
    }

    expire_more :
        (k : K) (ks lru : List K) (m : Table K V) (c : Content V)
        → Linked m lru (k ∷ ks)
        → lookup k m ≡ some c
        → is_expired ttl now c ≡ true
        → (out : List K × Table K V × List K) → Result ttl now (remove k m) out
        → Result ttl now m out
    expire_more k ks lru m c h found old out r = record {
      linked = r.linked;
      ordered = r.ordered;
      expired = record {
        within = λ j d p. Within-remove k m (h.once k) j d (r.expired.within j d p);
        fresh = r.expired.fresh;
        kept = λ j d p q.
            r.expired.kept j d (ground (arith, lookup-remove j k m (h.once k), e.beq_iff k j)) q;
      };
    }

    -- No `find` of the loop fails.
    expire_lem :
        (ks lru : List K) (m : Table K V)
        → Linked m lru ks
        → Ordered m ks
        → Returns ttl now ks lru m
    unfolding expire
    expire_lem [] lru m h o = expire-nil lru m h
    expire_lem (k ∷ ks) lru m h o =
        let p : 0 < count k (keys m) = unfold count in ground (arith, h.in_ttl k, e.beq_iff k k) in
        let (c, found) = lookup-some k m p in
        let front : erase k (k ∷ ks) ≡ ks = unfold erase in ground (arith, e.beq_iff k k) in
        elim (Bool-cases (is_expired ttl now c)) [
          | inl old ↦
              let linked : Linked (remove k m) (erase k lru) ks =
                subst (Linked (remove k m) (erase k lru)) front
                  (Linked-remove k m lru (k ∷ ks) p h) in
              let (out, runs, r) =
                expire_lem ks (erase k lru) (remove k m) linked
                  (Ordered-Within (remove k m) m ks (Within-remove k m (h.once k)) o.1) in
              (out, rw (found, expire) (rw old runs), expire_more k ks lru m c h found old out r)
          | inr live ↦ (
            (lru, m, k ∷ ks),
            rw (found, expire) (rw live),
            expire_stop k ks lru m c h o found live,
          )
        ]

  -- The lists and the map belong together, the TTL list is in the order of the load times, and no
  -- load time lies in the future.
  pub record IsValid (now : ℕ) (c : Cache K V) : Type 0 where
    pub linked : Linked c.data_map c.lru_list c.ttl_list
    pub ordered : Ordered c.data_map c.ttl_list
    pub loaded : LoadedBy now c.data_map

  -- In a valid cache `CleanExpireddata` finds every key that it looks for, keeps the cache valid and
  -- the configuration, and removes exactly the elements whose lifetime is over.
  pub clean_expired_lem :
      (now t : ℕ) (c : Cache K V)
      → t ≤ now
      → IsValid t c
      → (c' : Cache K V) × (clean_expired now c ≡ some c')
        × IsValid now c'
        × (c'.cfg ≡ c.cfg)
        × Expired c.cfg.ttl now c.data_map c'.data_map
  unfolding clean_expired
  clean_expired_lem now t c p v =
      let ((lru, m, ttl), runs, r) =
        expire_lem c.cfg.ttl now c.ttl_list c.lru_list c.data_map v.linked v.ordered in
      (
        record c { data_map = m; lru_list = lru; ttl_list = ttl },
        rw runs,
        record {
          linked = r.linked;
          ordered = r.ordered;
          loaded = λ k x q. omega (arith, v.loaded k x (r.expired.within k x q));
        },
        refl,
        r.expired,
      )
