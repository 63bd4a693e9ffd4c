-- ===== src/Storage/Pruned.antt =====
-- What the queries and deletions of Storage.Pruning promise, storage/messagerepo.go.
use webhook_broker.Base.{
  ℕ, zero, suc, ◌≤◌, String, Bool, true, false, ◌&&◌, leb, Option, none, some, List, [], ◌∷◌, ◌++◌,
  length, take, drop, keep_if, All, ◌≡◌, refl, subst, ◌∙◌, arith, inl, inr, Bool-cases,
}
use webhook_broker.Storage.Tables.{JobRow, MessageRow, Tables, count_where}
use webhook_broker.Storage.Transactions.{
  Database, ok, in_transaction_exec, transactional_writes, run_ops, run_ops_cons, committed,
}
use webhook_broker.Storage.Parking.{listed}
use webhook_broker.Storage.Pruning.{
  prunable, newer, insert_newest, order_messages, after_cursor, last_of, prunable_page,
  collect_prunable, completely_delivered, delete_jobs_of, delete_messages_of, delete_batches,
  delete_messages_and_jobs,
}
use webhook_broker.Storage.Counts.{count_delete_le}

listed-take :
    (n : ℕ) (ids : List String) (x : String) → listed (take n ids) x ≡ true → listed ids x ≡ true
listed-take zero ids x h = absurd (ground arith)
listed-take (suc n) [] x h = absurd (ground arith)
listed-take (suc n) (id ∷ ids) x h = ground (arith, listed-take n ids x)

listed-drop :
    (n : ℕ) (ids : List String) (x : String) → listed (drop n ids) x ≡ true → listed ids x ≡ true
listed-drop zero ids x h = h
listed-drop (suc n) [] x h = absurd (ground arith)
listed-drop (suc n) (id ∷ ids) x h = ground (arith, listed-drop n ids x)

-- Rows that no listed id names stay.
module _ (p : JobRow → Bool) (q : MessageRow → Bool) where
  abbrev pub Spares : Tables → Tables → Type 0
  Spares t u =
      (count_where p t.job ≤ count_where p u.job)
      × (count_where q t.message ≤ count_where q u.message)
      × (u.job_parking ≡ t.job_parking)

  Spares-trans : (t u v : Tables) → Spares t u → Spares u v → Spares t v
  Spares-trans t u v a b = (omega (arith, a.0, b.0), omega (arith, a.1, b.1), b.2 ∙ a.2)

  abbrev pub Unnamed : List String → Type 0
  Unnamed ids =
      ((r : JobRow) → listed ids r.message_id ≡ true → p r ≡ false)
      × ((m : MessageRow) → listed ids m.id ≡ true → q m ≡ false)

  batch-Spares :
      (db : Database) (ids : List String) (i j : ℕ) (t u v : Tables)
      → Unnamed ids
      → in_transaction_exec db (delete_jobs_of ids) 0 i t ≡ ok u
      → in_transaction_exec db (delete_messages_of ids) 0 j u ≡ ok v
      → Spares t v
  unfolding in_transaction_exec
  batch-Spares db ids i j t u v safe a b =
      let jobs = count_delete_le p (λ r. listed ids r.message_id) safe.0 t.job in
      let messages = count_delete_le q (λ m. listed ids m.id) safe.1 t.message in
      (ground (arith, jobs), ground (arith, messages), ground arith)

  delete_batches-Spares :
      (db : Database) (fuel : ℕ) (ids : List String) (i : ℕ) (t v : Tables)
      → Unnamed ids
      → run_ops (delete_batches db fuel ids) i t ≡ ok v
      → Spares t v
  unfolding delete_batches run_ops
  delete_batches-Spares db zero ids i t v safe h =
      let same : t ≡ v = ground arith in subst (Spares t) same (omega arith, omega arith, refl)
  delete_batches-Spares db (suc fuel) [] i t v safe h =
      let same : t ≡ v = ground arith in subst (Spares t) same (omega arith, omega arith, refl)
  delete_batches-Spares db (suc fuel) (id ∷ ids) i t v safe h =
      let batch = take 100 (id ∷ ids) in
      let rest = drop 100 (id ∷ ids) in
      let jobs_op = in_transaction_exec db (delete_jobs_of batch) 0 in
      let messages_op = in_transaction_exec db (delete_messages_of batch) 0 in
      let (u, a, h1) = run_ops_cons jobs_op (messages_op ∷ delete_batches db fuel rest) i t v h in
      let (w, b, h2) = run_ops_cons messages_op (delete_batches db fuel rest) (suc i) u v h1 in
      Spares-trans t w v
        (batch-Spares db batch i (suc i) t u w
          (
            λ r e. safe.0 r (listed-take 100 (id ∷ ids) r.message_id e),
            λ m e. safe.1 m (listed-take 100 (id ∷ ids) m.id e),
          )
          a b)
        (delete_batches-Spares db fuel rest (suc (suc i)) w v
          (
            λ r e. safe.0 r (listed-drop 100 (id ∷ ids) r.message_id e),
            λ m e. safe.1 m (listed-drop 100 (id ∷ ids) m.id e),
          )
          h2)

  pub delete_messages_and_jobs-Spares :
      (db : Database) (ids : List String) (t : Tables)
      → Unnamed ids
      → Spares t (delete_messages_and_jobs db ids t).0
  unfolding delete_messages_and_jobs transactional_writes
  delete_messages_and_jobs-Spares db [] t safe = (omega arith, omega arith, refl)
  delete_messages_and_jobs-Spares db (id ∷ ids) t safe =
      let n = length (id ∷ ids) in
      committed (Spares t) db (run_ops (delete_batches db n (id ∷ ids)) 0) t
        (omega arith, omega arith, refl) (λ v e. delete_batches-Spares db n (id ∷ ids) 0 t v safe e)

-- All of a list, through what the query does with it.
module _ (P : MessageRow → Type 0) where
  pub All-take : (n : ℕ) (ms : List MessageRow) → All P ms → All P (take n ms)
  All-take zero ms h = tt
  All-take (suc n) [] h = tt
  All-take (suc n) (m ∷ ms) h = (h.0, All-take n ms h.1)

  pub All-append : (ms ns : List MessageRow) → All P ms → All P ns → All P (ms ++ ns)
  All-append [] ns a b = b
  All-append (m ∷ ms) ns a b = (a.0, All-append ms ns a.1 b)

  module _ (precedes : String → String → Bool) where
    All-insert_newest :
        (m : MessageRow) (ms : List MessageRow)
        → P m
        → All P ms
        → All P (insert_newest precedes m ms)
    unfolding insert_newest
    All-insert_newest m [] a b = (a, tt)
    All-insert_newest m (n ∷ ns) a b = elim (Bool-cases (newer precedes n m)) [
      | inl e ↦ rw e (b.0, All-insert_newest m ns a b.1)
      | inr e ↦ rw e (a, b)
    ]

    pub All-order_messages : (ms : List MessageRow) → All P ms → All P (order_messages precedes ms)
    unfolding order_messages
    All-order_messages [] h = tt
    All-order_messages (m ∷ ms) h =
        All-insert_newest m (order_messages precedes ms) h.0 (All-order_messages ms h.1)

module _ (precedes : String → String → Bool) (t : Tables) (before : ℕ) where
  abbrev pub Prunable : MessageRow → Type 0
  Prunable m = prunable t before m ≡ true

  kept_Prunable :
      (cursor : Option MessageRow) (ms : List MessageRow)
      → All Prunable (keep_if (λ m. prunable t before m && after_cursor precedes cursor m) ms)
  kept_Prunable cursor [] = tt
  kept_Prunable cursor (m ∷ ms) =
      elim (Bool-cases (prunable t before m && after_cursor precedes cursor m)) [
        | inl e ↦ rw e (ground arith, kept_Prunable cursor ms)
        | inr e ↦ rw e (kept_Prunable cursor ms)
      ]

  prunable_page-Prunable :
      (cursor : Option MessageRow) → All Prunable (prunable_page precedes t before cursor)
  unfolding prunable_page
  prunable_page-Prunable cursor =
      let found = keep_if (λ m. prunable t before m && after_cursor precedes cursor m) t.message in
      All-take Prunable 100 (order_messages precedes found)
        (All-order_messages Prunable precedes found (kept_Prunable cursor t.message))

  collect_prunable-Prunable :
      (fuel : ℕ) (query_fails : ℕ → Bool) (limit page : ℕ) (cursor : Option MessageRow)
      → (got : List MessageRow) → All Prunable got
      → All Prunable (collect_prunable precedes fuel query_fails t before limit page cursor got)
  unfolding collect_prunable
  collect_prunable-Prunable zero query_fails limit page cursor got h = h
  collect_prunable-Prunable (suc fuel) query_fails limit page cursor got h =
      elim (Bool-cases (query_fails page)) [
        | inl broken ↦ rw broken h
        | inr works ↦
            go (λ c all k. collect_prunable-Prunable fuel query_fails limit (suc page) c all k)
              works (prunable_page precedes t before cursor) refl
      ]
    where
      go :
          ((c : Option MessageRow) (all : List MessageRow)
            → All Prunable all
            → All Prunable
                (collect_prunable precedes fuel query_fails t before limit (suc page) c all))
          → query_fails page ≡ false
          → (ms : List MessageRow) → prunable_page precedes t before cursor ≡ ms
          → All Prunable
              (collect_prunable precedes (suc fuel) query_fails t before limit page cursor got)
      go later works [] e = rw (works, e) h
      go later works (m ∷ ms) e =
          let all =
            All-append Prunable got (m ∷ ms) h
              (subst (All Prunable) e (prunable_page-Prunable cursor)) in
          elim (Bool-cases (leb limit (length (got ++ m ∷ ms)))) [
            | inl enough ↦ rw (works, e, enough) all
            | inr more ↦
                rw (works, e, more) (later (some (last_of precedes m ms)) (got ++ m ∷ ms) all)
          ]

  -- Every message that the query collects is dispatched, and all its jobs are delivered.
  pub completely_delivered-Prunable :
      (query_fails : ℕ → Bool) (limit : ℕ)
      → All Prunable (completely_delivered precedes query_fails t before limit)
  unfolding completely_delivered
  completely_delivered-Prunable query_fails limit =
      collect_prunable-Prunable limit query_fails limit 0 none [] tt
