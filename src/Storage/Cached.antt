-- ===== src/Storage/Cached.antt =====
-- CachedChannelRepository and CachedProducerRepository of storage/channelrepo.go and producerrepo.go: the
-- cache of a node before the repository. A call is one step; two calls do not overlap.
use webhook_broker.Base.{ℕ, String, Bool, Option, none, some, List, [], ◌∷◌}
use webhook_broker.Data.{Clock}
use webhook_broker.Storage.Transactions.{Error, Database}
use webhook_broker.Storage.Cache.{MemoryCache, cache_get, cache_set, cache_delete, cleanup}
use webhook_broker.Storage.Stakeholders.{Kind, get_by_key, store}

-- Get of a cached repository: `found` is what the repository behind it answers.
unfoldable pub cached_get {ℓ} :
    {V : Type ℓ} → ℕ → String → Option V → MemoryCache V → Option V × MemoryCache V
cached_get now key found c = elim (cache_get now key c) [
  | some v ↦ (some v, c)
  | none ↦ elim found [ none ↦ (none, c) | some v ↦ (some v, cache_set now key v c) ]
]

-- A table, and the cache that a node has of it.
pub record Repository (A : Type 0) : Type 0 where
  pub rows : List A
  pub cache : MemoryCache A

-- What is called at a node; the cleanup ticks in between.
pub data Call (A : Type 0) : Type 0 where
  get_call : ℕ → Bool → String → Call A
  store_call : Database → Bool → Clock → String → A → Call A
  tick : ℕ → Call A

module _ {A : Type 0} (kind : Kind A) (like : String → String → Bool) where
  -- Store of a cached repository.
  unfoldable pub cached_store :
      Database → Bool → Clock → String → A → Repository A → Repository A × Option Error
  cached_store db query_fails now fresh a r =
      let (rows, b, err) = store kind like db query_fails now fresh a r.rows in
      (
        record {
          rows = rows;
          cache = elim err [ none ↦ cache_delete (kind.key b) r.cache | some e ↦ r.cache ];
        },
        err,
      )

  unfoldable pub answer : Call A → Repository A → Repository A
  unfolding cached_get cached_store
  answer (get_call now query_fails key) r = record r {
    cache = (cached_get now key (get_by_key kind like query_fails key r.rows) r.cache).1;
  }
  answer (store_call db query_fails now fresh a) r = (cached_store db query_fails now fresh a r).0
  answer (tick now) r = record r { cache = cleanup now r.cache }

  unfoldable pub answer_all : List (Call A) → Repository A → Repository A
  unfolding answer
  answer_all [] r = r
  answer_all (call ∷ calls) r = answer_all calls (answer call r)
