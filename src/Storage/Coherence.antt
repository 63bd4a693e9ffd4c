-- ===== src/Storage/Coherence.antt =====
-- The cached repositories answer what the table has, while the node that caches makes all the writes.
use webhook_broker.Base.{
  ℕ, String, Bool, false, ltb, if◌then◌else◌, str_eq, eq_iff, Option, none, some, List, [], ◌∷◌,
  All, Map, lookup, insert, erase, ◌≡◌, ◌⊎◌, true, refl, ap, sym, ◌∙◌, subst, arith, inl, inr,
  Bool-cases, Option-cases,
}
use webhook_broker.Storage.Cache.{
  CacheItem, MemoryCache, new_memory_cache, cache_get, cache_set, cache_delete, sweep, cleanup,
}
use webhook_broker.Storage.Stakeholders.{Kind, get_by_key, store}
use webhook_broker.Storage.Storing.{store-Stored, otherwise}
use webhook_broker.Storage.RowKeys.{KindLaws, row_of, UniqueKeys, find_row_ext, find_row-keyed}
use webhook_broker.Storage.Cached.{
  cached_get, Repository, Call, get_call, store_call, tick, cached_store, answer, answer_all,
}

-- What holds of every entry of a map.
module _ {ℓ κ} {V : Type ℓ} (P : String × V → Type κ) where
  lookup-All : (k : String) (m : Map V) (v : V) → All P m → lookup k m ≡ some v → P (k, v)
  unfolding lookup
  lookup-All k [] v h e = absurd (ground arith)
  lookup-All k ((j, w) ∷ m) v h e = elim (Bool-cases (str_eq j k)) [
    | inl same ↦ subst P (ground (arith, eq_iff j k, same)) h.0
    | inr other ↦ lookup-All k m v h.1 (ground (arith, other))
  ]

  All-insert : (k : String) (v : V) (m : Map V) → P (k, v) → All P m → All P (insert k v m)
  unfolding insert
  All-insert k v [] p h = (p, tt)
  All-insert k v ((j, w) ∷ m) p h = elim (Bool-cases (str_eq j k)) [
    | inl same ↦ rw same (p, h.1)
    | inr other ↦ rw other (h.0, All-insert k v m p h.1)
  ]

  All-erase {ι} :
      (Q : String × V → Type ι) (k : String) (m : Map V)
      → ((j : String) (w : V) → str_eq j k ≡ false → P (j, w) → Q (j, w))
      → All P m
      → All Q (erase k m)
  unfolding erase
  All-erase Q k [] stays h = tt
  All-erase Q k ((j, w) ∷ m) stays h = elim (Bool-cases (str_eq j k)) [
    | inl same ↦ rw same (All-erase Q k m stays h.1)
    | inr other ↦ rw other (stays j w other h.0, All-erase Q k m stays h.1)
  ]

All-sweep {ℓ κ} :
    {V : Type ℓ} (P : String × CacheItem V → Type κ) (now : ℕ) (m : Map (CacheItem V))
    → All P m
    → All P (sweep now m)
unfolding sweep
All-sweep P now [] h = tt
All-sweep P now ((k, item) ∷ m) h = elim (Bool-cases (ltb item.expiration now)) [
  | inl e ↦ rw e (All-sweep P now m h.1)
  | inr e ↦ rw e (h.0, All-sweep P now m h.1)
]

module _ {A : Type 0} (kind : Kind A) (laws : KindLaws kind) (like : String → String → Bool) where
  -- Every entry of the cache is the row of its key.
  abbrev IsRow : List A → String × CacheItem A → Type 0
  IsRow rows e = row_of kind laws like e.0 rows ≡ some (e.1.value)

  abbrev pub Coherent : Repository A → Type 0
  Coherent r = All (IsRow r.rows) r.cache.cache × UniqueKeys kind laws like r.rows

  -- No wildcard of LIKE is in a key.
  abbrev pub Plain : String → Type 0
  Plain k = (x : String) → like x k ≡ str_eq x k

  abbrev pub PlainCall : Call A → Type 0
  PlainCall (get_call now query_fails key) = Plain key
  PlainCall (store_call db query_fails now fresh a) = Plain (kind.key a)
  PlainCall (tick now) = Unit

  get_by_key_lem :
      (query_fails : Bool) (key : String) (rows : List A)
      → Plain key
      → get_by_key kind like query_fails key rows
        ≡ (if query_fails then none else row_of kind laws like key rows)
  unfolding get_by_key
  get_by_key_lem query_fails key rows plain =
      rw
        (find_row_ext kind laws like (λ x. like (kind.key x) key) (λ x. str_eq (kind.key x) key)
          rows (λ x. plain (kind.key x)))
        refl

  cache_get_item :
      (now : ℕ) (key : String) (c : MemoryCache A) (v : A)
      → cache_get now key c ≡ some v
      → (item : CacheItem A) × (lookup key c.cache ≡ some item) × (item.value ≡ v)
  unfolding cache_get
  cache_get_item now key c v h = elim (Option-cases (lookup key c.cache)) [
    | inl e ↦ absurd (ground (arith, e, h))
    | inr (item, e) ↦ (item, e, ground (arith, e, h))
  ]

  pub cached_get_lem :
      (now : ℕ) (query_fails : Bool) (key : String) (r : Repository A)
      → Plain key
      → Coherent r
      → let (v, c) = cached_get now key (get_by_key kind like query_fails key r.rows) r.cache in
        (query_fails ≡ false → v ≡ row_of kind laws like key r.rows)
        × ((a : A) → v ≡ some a → row_of kind laws like key r.rows ≡ some a)
        × All (IsRow r.rows) c.cache
  unfolding cached_get
  cached_get_lem now query_fails key r plain h =
      go (cache_get now key r.cache) refl (get_by_key kind like query_fails key r.rows) refl
    where
      go :
          (hit : Option A)
          → cache_get now key r.cache ≡ hit
          → (found : Option A) → get_by_key kind like query_fails key r.rows ≡ found
          → let (v, c) = cached_get now key (get_by_key kind like query_fails key r.rows) r.cache in
            (query_fails ≡ false → v ≡ row_of kind laws like key r.rows)
            × ((a : A) → v ≡ some a → row_of kind laws like key r.rows ≡ some a)
            × All (IsRow r.rows) c.cache
      go (some v) e found f =
          let (item, at, same) = cache_get_item now key r.cache v e in
          let row = lookup-All (IsRow r.rows) key r.cache.cache item h.0 at ∙ ap some same in
          rw (cached_get, e) ((λ works. sym row), (λ a is. row ∙ is), h.0)
      go none e none f =
          rw (cached_get, e, f)
            (
              (λ works.
                  sym (sym (get_by_key_lem query_fails key r.rows plain ∙ rw works refl) ∙ f)),
              (λ a is. absurd (ground arith)),
              h.0,
            )
      go none e (some v) f =
          let row = found_row v f in
          rw (cached_get, e, f)
            (
              (λ works. sym row),
              (λ a is. row ∙ is),
              unfold cache_set in All-insert (IsRow r.rows) key _ r.cache.cache row h.0,
            )
        where
          found_row :
              (v' : A)
              → get_by_key kind like query_fails key r.rows ≡ some v'
              → row_of kind laws like key r.rows ≡ some v'
          found_row v' g = elim (Bool-cases query_fails) [
            | inl broken ↦
                absurd (ground (arith, broken, g, get_by_key_lem query_fails key r.rows plain))
            | inr works ↦ ground (arith, works, g, get_by_key_lem query_fails key r.rows plain)
          ]

  pub answer-Coherent :
      (call : Call A) (r : Repository A)
      → PlainCall call
      → Coherent r
      → Coherent (answer kind like call r)
  unfolding answer cleanup cache_delete
  answer-Coherent (get_call now query_fails key) r plain h =
      ((cached_get_lem now query_fails key r plain h).2, h.1)
  answer-Coherent (store_call db query_fails now fresh a) r plain h =
      let out = store kind like db query_fails now fresh a r.rows in
      let stored = store-Stored kind laws like db a r.rows query_fails now fresh plain h.1 in
      elim stored.2 [
        | inl (row, ok, own, (same_key, _, _, _, _, _), token, name) ↦
            let mine = sym same_key ∙ find_row-keyed kind laws like (kind.key a) out.0 row own in
            rw (answer, cached_store, ok)
              (
                All-erase (IsRow r.rows) (IsRow out.0) (kind.key out.1) r.cache.cache
                    (λ j w differs was.
                      otherwise (stored.0 j)
                        (ground (arith, eq_iff (kind.key a) j, eq_iff j (kind.key out.1)))
                      ∙ was)
                    h.0,
                stored.1,
              )
        | inr (e, failed, same) ↦
            rw (answer, cached_store, failed)
              (subst (λ rows. All (IsRow rows) r.cache.cache) (sym same) h.0, stored.1)
      ]
  answer-Coherent (tick now) r plain h = elim (Bool-cases r.cache.cleaning) [
    | inl on ↦ rw on (All-sweep (IsRow r.rows) now r.cache.cache h.0, h.1)
    | inr off ↦ rw off h
  ]

  answer_all-Coherent :
      (calls : List (Call A)) (r : Repository A)
      → All PlainCall calls
      → Coherent r
      → Coherent (answer_all kind like calls r)
  unfolding answer_all
  answer_all-Coherent [] r plain h = h
  answer_all-Coherent (call ∷ calls) r plain h =
      answer_all-Coherent calls (answer kind like call r) plain.1 (answer-Coherent call r plain.0 h)

  -- After any Gets and Stores at a node, whatever fails, a Get of the cached repository at any time
  -- answers the row that its key has in the table, or nothing if the query fails; no other node writes
  -- the table, no two rows had one key before, and the keys have no wildcard of LIKE.
  pub cached_get-row_of :
      (ttl : ℕ) (rows : List A) (calls : List (Call A)) (now : ℕ) (query_fails : Bool)
      (key : String)
      → UniqueKeys kind laws like rows
      → All PlainCall calls
      → Plain key
      → let r = answer_all kind like calls (record { rows = rows; cache = new_memory_cache ttl }) in
        let v = (cached_get now key (get_by_key kind like query_fails key r.rows) r.cache).0 in
        (v ≡ row_of kind laws like key r.rows) ⊎ ((query_fails ≡ true) × (v ≡ none))
  unfolding new_memory_cache
  cached_get-row_of ttl rows calls now query_fails key unique plain_calls plain =
      let start : Repository A = record { rows = rows; cache = new_memory_cache ttl } in
      let h = answer_all-Coherent calls start plain_calls (tt, unique) in
      let lem = cached_get_lem now query_fails key (answer_all kind like calls start) plain h in
      elim (Bool-cases query_fails) [
        | inr works ↦ inl (lem.0 works)
        | inl broken ↦ elim (Option-cases (get (answer_all kind like calls start))) [
          | inl e ↦ inr (broken, e)
          | inr (a, e) ↦ inl (e ∙ sym (lem.1 a e))
        ]
      ]
    where
      get : Repository A → Option A
      get r = (cached_get now key (get_by_key kind like query_fails key r.rows) r.cache).0
