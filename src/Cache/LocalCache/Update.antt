-- ===== src/Cache/LocalCache/Update.antt =====
-- `Update`: a new key, a known key, and a cache that is full.
use ytlib.Base.{
  ℕ, suc, ◌<◌, ◌≤◌, ◌≡◌, refl, ap, ◌∙◌, true, false, none, some, [], ◌∷◌, ◌++◌, arith, ltb, leb,
  if◌then◌else◌, Bool-cases, Option-cases, inl, inr, length, length-append,
}
use ytlib.Base.Eq.{Eq}
use ytlib.Cache.LocalCache.Dict.{
  count, erase, keys, lookup, adjust, lookup-some, count_of_lookup, lookup-adjust, count-append,
  count-erase, keys-adjust, length-keys,
}
use ytlib.Cache.LocalCache.Inv.{Table, Ordered-erase, Ordered-snoc}
use ytlib.Cache.LocalCache.Expire.{IsValid, Expired}
use ytlib.Cache.LocalCache.Evict.{Shrunk, clean_lem}
use ytlib.Cache.LocalCache.Methods.{count_to_end, length_to_end}
use ytlib.Cache.LocalCache.{Content, Cache, Cfg, verify, create, update, size}

module _ {K V : Type 0} ⦃e : Eq K⦄ where
  -- The cache `c'` has the elements of `c`, and `x` loaded at `now` under `k`.
  abbrev pub Holds : ℕ → K → V → Cache K V → Cache K V → Type 0
  Holds now k x c c' =
      (j : K)
      → lookup j c'.data_map
        ≡ (if e.beq k j then some (record { val = x; load_time = now }) else lookup j c.data_map)

  abbrev inserted : ℕ → K → V → Cache K V → Cache K V
  inserted now k x c = record c {
    data_map = (k, record { val = x; load_time = now }) ∷ c.data_map;
    lru_list = c.lru_list ++ k ∷ [];
    ttl_list = c.ttl_list ++ k ∷ [];
  }

  no_key : (k : K) (m : Table K V) → lookup k m ≡ none → count k (keys m) ≡ 0
  no_key k m h = elim (Bool-cases (ltb 0 (count k (keys m)))) [
    | inl some_there ↦ let (c, found) = lookup-some k m (ground arith) in cc
    | inr nothing ↦ ground arith
  ]

  Holds-inserted : (now : ℕ) (k : K) (x : V) (c : Cache K V) → Holds now k x c (inserted now k x c)
  unfolding lookup
  Holds-inserted now k x c j = ground (arith, e.beq_iff k j, e.beq_iff j k)

  inserted-IsValid :
      (now t : ℕ) (k : K) (x : V) (c : Cache K V)
      → t ≤ now
      → IsValid t c
      → lookup k c.data_map ≡ none
      → IsValid now (inserted now k x c)
  inserted-IsValid now t k x c p v absent =
      let zero_key = no_key k c.data_map absent in
      record {
        linked = record {
          once = λ j. unfold count in ground (arith, v.linked.once j, e.beq_iff j k);
          in_lru = λ j.
              unfold count in ground (arith, count-append j c.lru_list (k ∷ []), v.linked.in_lru j);
          in_ttl = λ j.
              unfold count in ground (arith, count-append j c.ttl_list (k ∷ []), v.linked.in_ttl j);
          lru_length = omega (arith, length-append c.lru_list (k ∷ []), v.linked.lru_length);
          ttl_length = omega (arith, length-append c.ttl_list (k ∷ []), v.linked.ttl_length);
        };
        ordered =
            Ordered-snoc (inserted now k x c).data_map c.data_map k now c.ttl_list
              (λ j q. unfold lookup in ground (arith, v.linked.in_ttl j, e.beq_iff j k))
              (λ j d q. omega (arith, v.loaded j d q))
              (λ d q. unfold lookup in ground (arith, e.beq_iff k k)) v.ordered;
        loaded = λ j d q. unfold lookup in ground (arith, v.loaded j d);
      }

  -- A key that is not there, in a cache with room: the first value is stored, nothing else changes.
  pub update_new :
      (now later t : ℕ) (k : K) (first second : V) (c : Cache K V)
      → t ≤ now
      → IsValid t c
      → lookup k c.data_map ≡ none
      → suc (size c) < c.cfg.capacity
      → (c' : Cache K V) × (update now later k first second c ≡ some c')
        × IsValid now c'
        × Holds now k first c c'
        × (size c' ≡ suc (size c))
  unfolding update size
  update_new now later t k first second c p v absent room =
      let test : leb c.cfg.capacity (suc (length c.data_map)) ≡ false = ground arith in
      (
        inserted now k first c,
        rw (absent, update) (rw test),
        inserted-IsValid now t k first c p v absent,
        Holds-inserted now k first c,
        refl,
      )

  -- A key that is not there, in a cache that it fills: `Clean` runs on the cache with the new element,
  -- and at most `clean_size` elements are left.
  pub update_full :
      (now later t : ℕ) (k : K) (first second : V) (c : Cache K V)
      → t ≤ now
      → now ≤ later
      → IsValid t c
      → lookup k c.data_map ≡ none
      → c.cfg.capacity ≤ suc (size c)
      → (mid c' : Cache K V) × (update now later k first second c ≡ some c')
        × IsValid later c'
        × Expired c.cfg.ttl later
            ((k, record { val = first; load_time = now }) ∷ c.data_map)
            mid.data_map
        × Shrunk mid c'
        × (size c' ≤ c.cfg.clean_size)
  unfolding update size
  update_full now later t k first second c p q v absent full =
      let test : leb c.cfg.capacity (suc (length c.data_map)) ≡ true = ground arith in
      let (mid, c', runs, valid, expired, shrunk, small) =
        clean_lem later now (inserted now k first c) q
          (inserted-IsValid now t k first c p v absent) in
      (mid, c', rw (absent, update) (rw test runs), valid, expired, shrunk, small)

  -- A key that is there gets the second value and a new lifetime; no other element changes.
  pub update_known :
      (now later t : ℕ) (k : K) (first second : V) (c : Cache K V) (x : Content V)
      → t ≤ now
      → IsValid t c
      → lookup k c.data_map ≡ some x
      → (c' : Cache K V) × (update now later k first second c ≡ some c')
        × IsValid now c'
        × Holds now k second c c'
        × (size c' ≡ size c)
  unfolding update size
  update_known now later t k first second c x p v found =
      let new : Content V = record { val = second; load_time = now } in
      let m' = adjust k new c.data_map in
      let same = keys-adjust k new c.data_map in
      let q = count_of_lookup k c.data_map x found in
      let there : 0 < count k c.lru_list = omega (arith, v.linked.in_lru k) in
      let timed : 0 < count k c.ttl_list = omega (arith, v.linked.in_ttl k) in
      let len : length m' ≡ length c.data_map =
        omega (arith, length-keys m', length-keys c.data_map, ap length same) in
      (
        record c {
          data_map = m';
          lru_list = erase k c.lru_list ++ k ∷ [];
          ttl_list = erase k c.ttl_list ++ k ∷ [];
        },
        rw (found, update),
        record {
          linked = record {
            once = λ j. rw same (v.linked.once j);
            in_lru = λ j. rw same (count_to_end j k c.lru_list there ∙ v.linked.in_lru j);
            in_ttl = λ j. rw same (count_to_end j k c.ttl_list timed ∙ v.linked.in_ttl j);
            lru_length = omega (arith, len, length_to_end k c.lru_list there, v.linked.lru_length);
            ttl_length = omega (arith, len, length_to_end k c.ttl_list timed, v.linked.ttl_length);
          };
          ordered =
              Ordered-snoc m' c.data_map k now (erase k c.ttl_list)
                (λ j r. ground (
                  arith,
                  lookup-adjust j k new x c.data_map,
                  count-erase j k c.ttl_list,
                  v.linked.in_ttl j,
                  v.linked.once j,
                  e.beq_iff k j,
                ))
                (λ j d r. omega (arith, v.loaded j d r))
                (λ d r. ground (arith, lookup-adjust k k new x c.data_map, e.beq_iff k k))
                (Ordered-erase c.data_map k c.ttl_list v.ordered);
          loaded = λ j d r. ground (arith, lookup-adjust j k new x c.data_map, v.loaded j d);
        },
        λ j. lookup-adjust j k new x c.data_map found,
        len,
      )

  -- `Update` keeps the number of elements below the capacity, whatever the key and the state.
  pub size-update-lt :
      (now later t : ℕ) (k : K) (first second : V) (c : Cache K V)
      → t ≤ now
      → now ≤ later
      → IsValid t c
      → c.cfg.clean_size < c.cfg.capacity
      → size c < c.cfg.capacity
      → (c' : Cache K V) × (update now later k first second c ≡ some c')
        × (size c' < c.cfg.capacity)
  size-update-lt now later t k first second c p q v cfg bound =
      elim (Option-cases (lookup k c.data_map)) [
        | inr (x, found) ↦
            let (c', runs, valid, holds, len) =
              update_known now later t k first second c x p v found in
            (c', runs, omega arith)
        | inl absent ↦ elim (Bool-cases (ltb (suc (size c)) c.cfg.capacity)) [
          | inl room ↦
              let (c', runs, valid, holds, len) =
                update_new now later t k first second c p v absent (ground arith) in
              (c', runs, ground arith)
          | inr full ↦
              let (mid, c', runs, valid, expired, shrunk, small) =
                update_full now later t k first second c p q v absent (ground arith) in
              (c', runs, omega arith)
        ]
      ]

-- The configuration that the constructor keeps cleans to fewer elements than the capacity.
pub verify_bound : (cfg : Cfg) → 0 < cfg.capacity → (verify cfg).clean_size < (verify cfg).capacity
unfolding verify
verify_bound cfg h = ground arith

pub create-IsValid : {K V : Type 0} ⦃e : Eq K⦄ (cfg : Cfg) → IsValid 0 (create {K = K} {V = V} cfg)
unfolding create count lookup
create-IsValid cfg = record {
  linked = record {
    once = λ k. omega arith;
    in_lru = λ k. refl;
    in_ttl = λ k. refl;
    lru_length = refl;
    ttl_length = refl;
  };
  ordered = tt;
  loaded = λ k c p. cc;
}
