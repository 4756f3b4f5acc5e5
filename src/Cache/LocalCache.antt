-- ===== src/Cache/LocalCache.antt =====
-- ytlib/cache/local_cache.hpp: `LocalCache<KeyType, ValType>`.
-- `data_map_` is an association list, `lru_list_` and `ttl_list_` are lists of keys. An iterator into
-- one of those lists is the node that holds its key: a key stands in each list once
-- (LocalCache/Inv.antt), so erasing or splicing the node is erasing or moving the first node with
-- that key. `none` is undefined behaviour: a `find` that fails where the source says that it cannot.
-- Each reading of the steady clock is an argument; times are ticks since the clock's epoch, and
-- `load_time < now - ttl` is read over the integers.
mod Dict
pub mod Inv
pub mod Expire
pub mod Evict
pub mod Methods
pub mod Update
mod Tests
use ytlib.Base.{
  ℕ, zero, suc, ◌+◌, ◌-◌, ◌*◌, ◌/◌, Bool, true, false, Option, none, some, List, [], ◌∷◌, ◌++◌, ltb,
  leb, if◌then◌else◌, length,
}
use ytlib.Base.Eq.{Eq}
use Dict.{erase, lookup, remove, adjust}

pub record Cfg : Type 0 where
  pub capacity : ℕ
  pub clean_size : ℕ
  pub ttl : ℕ

-- `Cfg::Verify`. `capacity * 0.9` is a product of doubles, cut down to an integer: nine tenths of
-- the capacity, rounded down, for every capacity below 2^52.
pub verify : Cfg → Cfg
verify cfg =
    if leb cfg.capacity cfg.clean_size
    then record cfg { clean_size = cfg.capacity * 9 / 10 }
    else cfg

-- `ValContent`, less its two iterators
pub record Content (V : Type 0) : Type 0 where
  pub val : V
  pub load_time : ℕ

pub record Cache (K V : Type 0) : Type 0 where
  pub cfg : Cfg
  pub data_map : List (K × Content V)
  pub lru_list : List K
  pub ttl_list : List K

pub create : {K V : Type 0} → Cfg → Cache K V
create cfg = record { cfg = verify cfg; data_map = []; lru_list = []; ttl_list = [] }

infixl 5 ◌>>=◌
abbrev pub ◌>>=◌ {ℓ κ} : {A : Type ℓ} {B : Type κ} → Option A → (A → Option B) → Option B
none >>= f = none
some a >>= f = f a

-- `load_time < time_line`
abbrev pub is_expired : {V : Type 0} → ℕ → ℕ → Content V → Bool
is_expired ttl now c = ltb (c.load_time + ttl) now

module _ {K V : Type 0} ⦃e : Eq K⦄ where
  -- The loop of `CleanExpireddata` over `ttl_list_`: the LRU list, the map and what is left of the
  -- TTL list.
  pub expire :
      ℕ
      → ℕ
      → List K
      → List K
      → List (K × Content V)
      → Option (List K × List (K × Content V) × List K)
  expire ttl now [] lru m = some (lru, m, [])
  expire ttl now (k ∷ ks) lru m = elim (lookup k m) [
    | none ↦ none
    | some c ↦
        let rest = expire ttl now ks (erase k lru) (remove k m) in
        if is_expired ttl now c then rest else some (lru, m, k ∷ ks)
  ]

  pub clean_expired : ℕ → Cache K V → Option (Cache K V)
  clean_expired now c = do
    (lru, m, ttl) ← expire c.cfg.ttl now c.ttl_list c.lru_list c.data_map
    some (record c { data_map = m; lru_list = lru; ttl_list = ttl })

  -- The loop of `Clean` over `lru_list_`: what is left of it, the TTL list and the map.
  pub evict :
      ℕ → List K → List K → List (K × Content V) → Option (List K × List K × List (K × Content V))
  evict n [] ttl m = some ([], ttl, m)
  evict zero (k ∷ ks) ttl m = some (k ∷ ks, ttl, m)
  evict (suc n) (k ∷ ks) ttl m = elim (lookup k m) [
    | none ↦ none
    | some c ↦ evict n ks (erase k ttl) (remove k m)
  ]

  -- The part of `Clean` behind its call of `CleanExpireddata`
  pub shrink : Cache K V → Option (Cache K V)
  shrink c =
      let size = length c.data_map in
      if leb size c.cfg.clean_size then some c else do
        (lru, ttl, m) ← evict (size - c.cfg.clean_size) c.lru_list c.ttl_list c.data_map
        some (record c { data_map = m; lru_list = lru; ttl_list = ttl })

  pub clean : ℕ → Cache K V → Option (Cache K V)
  clean now c = do c' ← clean_expired now c; shrink c'

  pub get : ℕ → K → Cache K V → Option (Option V × Cache K V)
  get now k c = do
    c' ← clean_expired now c
    elim (lookup k c'.data_map) [
      | none ↦ some (none, c')
      | some x ↦ some (some x.val, record c' { lru_list = erase k c'.lru_list ++ k ∷ [] })
    ]

  -- `Update` forwards its arguments to `emplace`, and again to a constructor if the key is there:
  -- `first` and `second` are the values that the two build (equal unless the arguments are moved
  -- from). `now` is read for `load_time`, `later` by `Clean`.
  pub update : ℕ → ℕ → K → V → V → Cache K V → Option (Cache K V)
  update now later k first second c = elim (lookup k c.data_map) [
    | none ↦
        let c' : Cache K V = record c {
          data_map = (k, record { val = first; load_time = now }) ∷ c.data_map;
          lru_list = c.lru_list ++ k ∷ [];
          ttl_list = c.ttl_list ++ k ∷ [];
        } in
        if leb c.cfg.capacity (length c'.data_map) then clean later c' else some c'
    | some x ↦ some (record c {
      data_map = adjust k (record { val = second; load_time = now }) c.data_map;
      lru_list = erase k c.lru_list ++ k ∷ [];
      ttl_list = erase k c.ttl_list ++ k ∷ [];
    })
  ]

  pub del : ℕ → K → Cache K V → Option (Cache K V)
  del now k c = do
    c' ← clean_expired now c
    elim (lookup k c'.data_map) [
      | none ↦ some c'
      | some x ↦ some (record c' {
        data_map = remove k c'.data_map;
        lru_list = erase k c'.lru_list;
        ttl_list = erase k c'.ttl_list;
      })
    ]

pub clear : {K V : Type 0} → Cache K V → Cache K V
clear c = record c { data_map = []; lru_list = []; ttl_list = [] }

pub size : {K V : Type 0} → Cache K V → ℕ
size c = length c.data_map
