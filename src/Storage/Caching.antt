-- ===== src/Storage/Caching.antt =====
-- MemoryCache of storage/memcache.go refines the history of its calls.
use webhook_broker.Base.{
  ℕ, ◌+◌, String, Bool, true, ◌&&◌, ◌||◌, ◌==◌, ltb, leb, str_eq, if◌then◌else◌, Option, none, some,
  List, [], ◌∷◌, Map, lookup, insert, erase, lookup-insert, lookup-erase, ◌≡◌, refl, sym, ap, ◌∙◌,
  arith, inl, inr, Bool-cases, eq_iff,
}
use webhook_broker.Storage.Cache.{
  CacheItem, MemoryCache, new_memory_cache, cache_get, cache_set, cache_delete, sweep, cleanup,
  cache_close,
}

-- The calls that change a cache, with their times.
pub data CacheCall {ℓ} (V : Type ℓ) : Type ℓ where
  set_at : ℕ → String → V → CacheCall V
  delete_key : String → CacheCall V
  cleanup_at : ℕ → CacheCall V
  close : CacheCall V

module _ {ℓ} {V : Type ℓ} where
  unfoldable pub call : CacheCall V → MemoryCache V → MemoryCache V
  call (set_at now key value) c = cache_set now key value c
  call (delete_key key) c = cache_delete key c
  call (cleanup_at now) c = cleanup now c
  call close c = cache_close c

  -- A cache after a history, the last call first.
  unfoldable pub after_calls : ℕ → List (CacheCall V) → MemoryCache V
  unfolding call
  after_calls ttl [] = new_memory_cache ttl
  after_calls ttl (h ∷ hs) = call h (after_calls ttl hs)

  -- What a key holds by the history alone: what was set last, unless deleted since or too old.
  unfoldable pub last_set : ℕ → ℕ → String → List (CacheCall V) → Option V
  last_set ttl now key [] = none
  last_set ttl now key (set_at at other value ∷ hs) =
      let before = last_set ttl now key hs in
      if str_eq other key
      then (if (ttl == 0) || ltb now (at + ttl) then some value else none)
      else before
  last_set ttl now key (delete_key other ∷ hs) =
      let before = last_set ttl now key hs in if str_eq other key then none else before
  last_set ttl now key (cleanup_at at ∷ hs) = last_set ttl now key hs
  last_set ttl now key (close ∷ hs) = last_set ttl now key hs

  -- No tick is later than a time.
  abbrev pub ticked_by : ℕ → List (CacheCall V) → Bool
  ticked_by now [] = true
  ticked_by now (cleanup_at at ∷ hs) = leb at now && ticked_by now hs
  ticked_by now (h ∷ hs) = ticked_by now hs

  -- Each key stands once.
  abbrev Unique : Map (CacheItem V) → Type ℓ
  Unique [] = Unit
  Unique ((key, item) ∷ rest) = (lookup key rest ≡ none) × Unique rest

  Unique-insert :
      (key : String) (item : CacheItem V) (m : Map (CacheItem V))
      → Unique m
      → Unique (insert key item m)
  unfolding lookup insert
  Unique-insert key item [] u = (refl, tt)
  Unique-insert key item ((other, old) ∷ rest) u = elim (Bool-cases (str_eq other key)) [
    | inl same ↦
        let named = (eq_iff other key).0 same in
        rw same (ap (λ k. lookup k rest) (sym named) ∙ u.0, u.1)
    | inr differ ↦
        let absent =
          lookup-insert key other item rest
          ∙ ground (arith, u.0, eq_iff key other, eq_iff other key) in
        rw differ (absent, Unique-insert key item rest u.1)
  ]

  Unique-erase : (key : String) (m : Map (CacheItem V)) → Unique m → Unique (erase key m)
  unfolding erase
  Unique-erase key [] u = tt
  Unique-erase key ((other, old) ∷ rest) u = elim (Bool-cases (str_eq other key)) [
    | inl same ↦ rw same (Unique-erase key rest u.1)
    | inr differ ↦
        rw differ (lookup-erase key other rest ∙ ground (arith, u.0), Unique-erase key rest u.1)
  ]

  abbrev unexpired : ℕ → Option (CacheItem V) → Option (CacheItem V)
  unexpired now none = none
  unexpired now (some item) = if ltb item.expiration now then none else some item

  lookup-sweep-none :
      (now : ℕ) (key : String) (m : Map (CacheItem V))
      → lookup key m ≡ none
      → lookup key (sweep now m) ≡ none
  unfolding sweep lookup
  lookup-sweep-none now key [] h = refl
  lookup-sweep-none now key ((other, item) ∷ rest) h =
      ground (arith, lookup-sweep-none now key rest)

  lookup-sweep :
      (now : ℕ) (key : String) (m : Map (CacheItem V))
      → Unique m
      → lookup key (sweep now m) ≡ unexpired now (lookup key m)
  unfolding sweep lookup
  lookup-sweep now key [] u = refl
  lookup-sweep now key ((other, item) ∷ rest) u = elim (Bool-cases (ltb item.expiration now)) [
    | inl old ↦ elim (Bool-cases (str_eq other key)) [
      | inl same ↦
          rw (old, same)
            (lookup-sweep-none now key rest
                (ap (λ k. lookup k rest) (sym ((eq_iff other key).0 same)) ∙ u.0)
              ∙ rw old refl)
      | inr differ ↦ rw (old, differ) (lookup-sweep now key rest u.1)
    ]
    | inr fresh ↦ elim (Bool-cases (str_eq other key)) [
      | inl same ↦ rw (fresh, same) (rw fresh refl)
      | inr differ ↦ rw (fresh, differ) (lookup-sweep now key rest u.1)
    ]
  ]

  Unique-sweep : (now : ℕ) (m : Map (CacheItem V)) → Unique m → Unique (sweep now m)
  unfolding sweep
  Unique-sweep now [] u = tt
  Unique-sweep now ((key, item) ∷ rest) u = elim (Bool-cases (ltb item.expiration now)) [
    | inl old ↦ rw old (Unique-sweep now rest u.1)
    | inr fresh ↦ rw fresh (lookup-sweep-none now key rest u.0, Unique-sweep now rest u.1)
  ]

  -- A key stands once, the duration stays, and the goroutine runs only if there is one.
  after_calls_lem :
      (ttl : ℕ) (hs : List (CacheCall V))
      → let c = after_calls ttl hs in
        Unique c.cache × (c.ttl ≡ ttl) × (c.cleaning ≡ true → ltb 0 ttl ≡ true)
  unfolding after_calls new_memory_cache cache_set cache_delete cleanup cache_close
  after_calls_lem ttl [] = (tt, refl, λ e. e)
  after_calls_lem ttl (set_at at key value ∷ hs) =
      let (u, same, only) = after_calls_lem ttl hs in (Unique-insert key _ _ u, same, only)
  after_calls_lem ttl (delete_key key ∷ hs) =
      let (u, same, only) = after_calls_lem ttl hs in (Unique-erase key _ u, same, only)
  after_calls_lem ttl (cleanup_at at ∷ hs) =
      let (u, same, only) = after_calls_lem ttl hs in
      elim (Bool-cases (after_calls ttl hs).cleaning) [
        | inl on ↦ simp on (Unique-sweep at _ u, same, λ e. only on)
        | inr off ↦ simp off (u, same, λ e. absurd (ground arith))
      ]
  after_calls_lem ttl (close ∷ hs) =
      let (u, same, only) = after_calls_lem ttl hs in (u, same, λ e. absurd (ground arith))

  -- Get answers what the history of the calls says, whenever the cleanup ticked up to then.
  pub cache_get-last_set :
      (ttl now : ℕ) (key : String) (hs : List (CacheCall V))
      → ticked_by now hs ≡ true
      → cache_get now key (after_calls ttl hs) ≡ last_set ttl now key hs
  unfolding cache_get cache_set cache_delete cleanup cache_close after_calls last_set
      new_memory_cache lookup
  cache_get-last_set ttl now key [] h = refl
  cache_get-last_set ttl now key (set_at at other value ∷ hs) h =
      let c = after_calls ttl hs in
      let item : CacheItem V = record {
        value = value;
        expiration = if c.ttl == 0 then 0 else at + c.ttl;
      } in
      ground (
        arith,
        cache_get-last_set ttl now key hs,
        (after_calls_lem ttl hs).1,
        lookup-insert other key item c.cache,
      )
  cache_get-last_set ttl now key (delete_key other ∷ hs) h =
      ground (
        arith,
        cache_get-last_set ttl now key hs,
        lookup-erase other key (after_calls ttl hs).cache,
      )
  cache_get-last_set ttl now key (cleanup_at at ∷ hs) h =
      let c = after_calls ttl hs in
      let (u, same, only) = after_calls_lem ttl hs in
      ground (arith, cache_get-last_set ttl now key hs, same, only, lookup-sweep at key c.cache u)
  cache_get-last_set ttl now key (close ∷ hs) h = cache_get-last_set ttl now key hs h
