-- ===== src/Storage/Cache.antt =====
-- storage/memcache.go: MemoryCache, for keys that are strings. The mutex makes each call one step, and
-- the goroutine of `cleanup` one step at each tick; a duration is not negative.
use webhook_broker.Base.{
  ℕ, ◌+◌, String, Bool, false, ◌||◌, ◌==◌, ltb, if◌then◌else◌, Option, none, some, [], ◌∷◌, Map,
  lookup, insert, erase,
}

pub record CacheItem {ℓ} (V : Type ℓ) : Type ℓ where
  pub value : V
  pub expiration : ℕ

pub record MemoryCache {ℓ} (V : Type ℓ) : Type ℓ where
  pub cache : Map (CacheItem V)
  pub ttl : ℕ
  pub cleaning : Bool

module _ {ℓ} {V : Type ℓ} where
  -- NewMemoryCache; `cleaning` says whether the goroutine runs.
  unfoldable pub new_memory_cache : ℕ → MemoryCache V
  new_memory_cache ttl = record { cache = []; ttl = ttl; cleaning = ltb 0 ttl }

  unfoldable pub cache_get : ℕ → String → MemoryCache V → Option V
  cache_get now key c = elim (lookup key c.cache) [
    | none ↦ none
    | some item ↦ if (c.ttl == 0) || ltb now item.expiration then some item.value else none
  ]

  unfoldable pub cache_set : ℕ → String → V → MemoryCache V → MemoryCache V
  cache_set now key value c =
      let expiration = if c.ttl == 0 then 0 else now + c.ttl in
      record c { cache = insert key (record { value = value; expiration = expiration }) c.cache }

  unfoldable pub cache_delete : String → MemoryCache V → MemoryCache V
  cache_delete key c = record c { cache = erase key c.cache }

  -- The entries that a tick leaves.
  unfoldable pub sweep : ℕ → Map (CacheItem V) → Map (CacheItem V)
  sweep now [] = []
  sweep now ((key, item) ∷ rest) =
      let kept = sweep now rest in if ltb item.expiration now then kept else (key, item) ∷ kept

  unfoldable pub cleanup : ℕ → MemoryCache V → MemoryCache V
  unfolding sweep
  cleanup now c = if c.cleaning then record c { cache = sweep now c.cache } else c

  unfoldable pub cache_close : MemoryCache V → MemoryCache V
  cache_close c = record c { cleaning = false }
