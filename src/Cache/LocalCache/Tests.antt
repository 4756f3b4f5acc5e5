-- ===== src/Cache/LocalCache/Tests.antt =====
-- Runs of `LocalCache`, and the theorems at a concrete cache.
use ytlib.Base.{List, ◌++◌, some, ℕ, ◌<◌, ◌≡◌, refl, none, [], ◌∷◌, arith}
use ytlib.Base.Eq.{nat_eq}
use ytlib.Cache.LocalCache.Dict.{count, erase, lookup, remove}
use ytlib.Cache.LocalCache.Expire.{IsValid, Expired, clean_expired_lem}
use ytlib.Cache.LocalCache.Methods.{alive, value, get_lem}
use ytlib.Cache.LocalCache.Update.{Holds, update_known, size-update-lt}
use ytlib.Cache.LocalCache.{
  Cache, Cfg, Content, get, update, clean, clean_expired, size, expire, evict, shrink,
}

abbrev small : Cfg
small = record { capacity = 3; clean_size = 1; ttl = 5 }

-- Key 1 loaded at time 0 and used last, key 2 loaded at time 3.
abbrev warm : Cache ℕ ℕ
warm = record {
  cfg = small;
  data_map = (1, record { val = 10; load_time = 0 }) ∷ (2, record { val = 20; load_time = 3 }) ∷ [];
  lru_list = 2 ∷ 1 ∷ [];
  ttl_list = 1 ∷ 2 ∷ [];
}

warm-IsValid : IsValid 4 warm
unfolding count lookup
warm-IsValid = record {
  linked = record {
    once = λ k. ground arith;
    in_lru = λ k. ground arith;
    in_ttl = λ k. ground arith;
    lru_length = refl;
    ttl_length = refl;
  };
  ordered = (λ j c d p q r. ground arith, (λ j c d p q r. ground arith, tt));
  loaded = λ k c p. ground arith;
}

-- At time 6 the first element is over and the second is not.
get_expires :
    get 6 1 warm
    ≡ some (
      none,
      record warm {
        data_map = (2, record { val = 20; load_time = 3 }) ∷ [];
        lru_list = 2 ∷ [];
        ttl_list = 2 ∷ [];
      },
    )
unfolding get clean_expired expire lookup erase remove
get_expires = refl

-- The third element fills the cache: the least recently used ones go.
update_evicts :
    update 4 4 7 70 71 warm
    ≡ some (record warm {
      data_map = (7, record { val = 70; load_time = 4 }) ∷ [];
      lru_list = 7 ∷ [];
      ttl_list = 7 ∷ [];
    })
unfolding update clean shrink evict clean_expired expire lookup erase remove
update_evicts = refl

clean_expired_lem_example :
    (c' : Cache ℕ ℕ) × (clean_expired 6 warm ≡ some c')
    × IsValid 6 c'
    × (c'.cfg ≡ small)
    × Expired 5 6 warm.data_map c'.data_map
clean_expired_lem_example = clean_expired_lem 6 4 warm (omega arith) warm-IsValid

get_lem_example :
    (c' : Cache ℕ ℕ) × (get 6 2 warm ≡ some (value (alive 5 6 (lookup 2 warm.data_map)), c'))
    × IsValid 6 c'
    × ((j : ℕ) → lookup j c'.data_map ≡ alive 5 6 (lookup j warm.data_map))
    × (c'.cfg ≡ small)
    × ((x : Content ℕ)
        → alive 5 6 (lookup 2 warm.data_map) ≡ some x
        → (older : List ℕ) × (c'.lru_list ≡ older ++ 2 ∷ []))
get_lem_example = get_lem 6 4 2 warm (omega arith) warm-IsValid

update_known_example :
    (c' : Cache ℕ ℕ) × (update 5 5 2 21 22 warm ≡ some c')
    × IsValid 5 c'
    × Holds 5 2 22 warm c'
    × (size c' ≡ size warm)
update_known_example =
    update_known 5 5 4 2 21 22 warm (record { val = 20; load_time = 3 }) (omega arith) warm-IsValid
      (unfold lookup in refl)

abbrev roomy : Cache ℕ ℕ
roomy = record warm { cfg = record small { capacity = 9 } }

roomy-IsValid : IsValid 4 roomy
roomy-IsValid = record {
  linked = warm-IsValid.linked;
  ordered = warm-IsValid.ordered;
  loaded = warm-IsValid.loaded;
}

size-update-lt_example : (c' : Cache ℕ ℕ) × (update 4 4 7 70 71 warm ≡ some c') × (size c' < 3)
size-update-lt_example =
    size-update-lt 4 4 4 7 70 71 warm (omega arith) (omega arith) warm-IsValid (omega arith)
      (unfold size in omega arith)
