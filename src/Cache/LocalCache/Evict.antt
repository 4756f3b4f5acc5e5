-- ===== src/Cache/LocalCache/Evict.antt =====
-- `Clean` drops the least recently used elements.
use ytlib.Base.{
  ℕ, zero, suc, ◌-◌, ◌<◌, ◌≤◌, ◌≡◌, refl, ap, subst, some, List, [], ◌∷◌, arith, leb, Bool-cases,
  inl, inr, length, drop, length-drop,
}
use ytlib.Base.Eq.{Eq}
use ytlib.Cache.LocalCache.Dict.{count, erase, keys, lookup, remove, lookup-some, lookup-remove}
use ytlib.Cache.LocalCache.Inv.{
  Table, Linked, Ordered, Within, Within-remove, Linked-remove, Ordered-Within, Ordered-erase,
}
use ytlib.Cache.LocalCache.Expire.{IsValid, Expired, clean_expired_lem}
use ytlib.Cache.LocalCache.{Cache, evict, shrink, clean}

module _ {K V : Type 0} ⦃e : Eq K⦄ where
  -- The first `n` keys of the LRU list are gone, and the elements of the others are untouched.
  pub record Evicted (n : ℕ) (lru : List K) (m : Table K V) (lru' : List K) (m' : Table K V)
      : Type 0 where
    pub rest : lru' ≡ drop n lru
    pub within : Within m' m
    pub kept : (k : K) → 0 < count k lru' → lookup k m' ≡ lookup k m

  record Result (n : ℕ) (lru : List K) (m : Table K V) (out : List K × List K × Table K V)
      : Type 0 where
    linked : Linked out.2 out.0 out.1
    ordered : Ordered out.2 out.1
    evicted : Evicted n lru m out.0 out.2

  evict_lem :
      (n : ℕ) (ks ttl : List K) (m : Table K V)
      → Linked m ks ttl
      → Ordered m ttl
      → (out : List K × List K × Table K V) × (evict n ks ttl m ≡ some out) × Result n ks m out
  unfolding evict
  evict_lem zero [] ttl m h o = (
    ([], ttl, m),
    refl,
    record {
      linked = h;
      ordered = o;
      evicted = record { rest = refl; within = λ k c p. p; kept = λ k p. refl };
    },
  )
  evict_lem (suc n) [] ttl m h o = (
    ([], ttl, m),
    refl,
    record {
      linked = h;
      ordered = o;
      evicted = record { rest = refl; within = λ k c p. p; kept = λ k p. refl };
    },
  )
  evict_lem zero (k ∷ ks) ttl m h o = (
    (k ∷ ks, ttl, m),
    refl,
    record {
      linked = h;
      ordered = o;
      evicted = record { rest = refl; within = λ k c p. p; kept = λ k p. refl };
    },
  )
  evict_lem (suc n) (k ∷ ks) ttl m h o =
      let p : 0 < count k (keys m) = unfold count in ground (arith, h.in_lru k, e.beq_iff k k) in
      let (c, found) = lookup-some k m p in
      let front : erase k (k ∷ ks) ≡ ks = unfold erase in ground (arith, e.beq_iff k k) in
      let less = Within-remove k m (h.once k) in
      let linked : Linked (remove k m) ks (erase k ttl) =
        subst (λ l. Linked (remove k m) l (erase k ttl)) front
          (Linked-remove k m (k ∷ ks) ttl p h) in
      let (out, runs, r) =
        evict_lem n ks (erase k ttl) (remove k m) linked
          (Ordered-Within (remove k m) m (erase k ttl) less (Ordered-erase m k ttl o)) in
      (
        out,
        rw (found, evict) runs,
        record {
          linked = r.linked;
          ordered = r.ordered;
          evicted = record {
            rest = r.evicted.rest;
            within = λ j d q. less j d (r.evicted.within j d q);
            kept = λ j q.
                let (d, at) = lookup-some j out.2 (omega (arith, r.linked.in_lru j)) in
                let at' = r.evicted.within j d at in
                ground (arith, r.evicted.kept j q, lookup-remove j k m (h.once k));
          };
        },
      )

  pub record Shrunk (c c' : Cache K V) : Type 0 where
    pub cfg : c'.cfg ≡ c.cfg
    pub small : length c'.data_map ≤ c.cfg.clean_size
    pub evicted :
        Evicted (length c.data_map - c.cfg.clean_size) c.lru_list c.data_map c'.lru_list c'.data_map

  pub shrink_lem :
      (now : ℕ) (c : Cache K V)
      → IsValid now c
      → (c' : Cache K V) × (shrink c ≡ some c') × IsValid now c' × Shrunk c c'
  unfolding shrink
  shrink_lem now c v = elim (Bool-cases (leb (length c.data_map) c.cfg.clean_size)) [
    | inl fits ↦
        let none_over : length c.data_map - c.cfg.clean_size ≡ 0 = ground arith in
        (
          c,
          rw fits,
          v,
          record {
            cfg = refl;
            small = ground arith;
            evicted = record { rest = rw none_over; within = λ k x p. p; kept = λ k p. refl };
          },
        )
    | inr over ↦
        let n = length c.data_map - c.cfg.clean_size in
        let (out, runs, r) = evict_lem n c.lru_list c.ttl_list c.data_map v.linked v.ordered in
        (
          record c { data_map = out.2; lru_list = out.0; ttl_list = out.1 },
          rw (over, runs),
          record {
            linked = r.linked;
            ordered = r.ordered;
            loaded = λ k x q. v.loaded k x (r.evicted.within k x q);
          },
          record {
            cfg = refl;
            small = ground (
              arith,
              r.linked.lru_length,
              ap length r.evicted.rest,
              length-drop n c.lru_list,
              v.linked.lru_length,
            );
            evicted = r.evicted;
          },
        )
  ]

  -- In a valid cache `Clean` ends without fault, keeps the cache valid, removes the expired elements
  -- and then the least recently used ones, and leaves at most `clean_size` elements.
  pub clean_lem :
      (now t : ℕ) (c : Cache K V)
      → t ≤ now
      → IsValid t c
      → (mid c' : Cache K V) × (clean now c ≡ some c')
        × IsValid now c'
        × Expired c.cfg.ttl now c.data_map mid.data_map
        × Shrunk mid c'
        × (length c'.data_map ≤ c.cfg.clean_size)
  unfolding clean
  clean_lem now t c p v =
      let (mid, runs, valid, cfg, expired) = clean_expired_lem now t c p v in
      let (c', runs', valid', s) = shrink_lem now mid valid in
      (mid, c', rw runs runs', valid', expired, s, ground (arith, s.small))
