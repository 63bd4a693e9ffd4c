-- ===== src/Storage/Removal.antt =====
-- What one deletion of completely delivered messages takes away, storage/messagerepo.go: the
-- messages that the query returns are stored, and DeleteMessagesAndJobs takes the first of them.
use webhook_broker.Base.{
  ℕ, zero, suc, ◌+◌, ◌≤◌, ◌<◌, String, Bool, true, false, ◌&&◌, leb, str_eq, Option, none, some,
  List, [], ◌∷◌, ◌++◌, length, take, drop, keep_if, All, ◌≡◌, refl, subst, arith, inl, inr, ◌⊎◌,
  Bool-cases, str_eq_refl,
}
use webhook_broker.Storage.Tables.{MessageRow, Tables, count_where}
use webhook_broker.Storage.Transactions.{
  Database, TxOp, TxResult, ok, fail, panic, in_transaction_exec, transactional_operations,
  transactional_writes, run_ops, run_ops_cons,
}
use webhook_broker.Storage.Parking.{listed}
use webhook_broker.Storage.Counts.{count_delete, count_le}
use webhook_broker.Storage.Pruning.{
  prunable, order_messages, after_cursor, last_of, prunable_page, collect_prunable,
  completely_delivered, delete_jobs_of, delete_messages_of, delete_batches,
  delete_messages_and_jobs,
}
use webhook_broker.Storage.Pruned.{All-take, All-append, All-order_messages}

abbrev any : MessageRow → Bool
any m = true

-- How many messages are stored.
abbrev pub stored : Tables → ℕ
stored t = count_where any t.message

module _ (P : MessageRow → Type 0) where
  All-keep_if : (p : MessageRow → Bool) (ms : List MessageRow) → All P ms → All P (keep_if p ms)
  All-keep_if p [] h = tt
  All-keep_if p (m ∷ ms) h = elim (Bool-cases (p m)) [
    | inl e ↦ rw e (h.0, All-keep_if p ms h.1)
    | inr e ↦ rw e (All-keep_if p ms h.1)
  ]

  module _ (precedes : String → String → Bool) (t : Tables) (before : ℕ)
      (rows : All P t.message) where
    prunable_page-All :
        (cursor : Option MessageRow) → All P (prunable_page precedes t before cursor)
    unfolding prunable_page
    prunable_page-All cursor =
        let p = λ (m : MessageRow). prunable t before m && after_cursor precedes cursor m in
        All-take P 100 (order_messages precedes (keep_if p t.message))
          (All-order_messages P precedes (keep_if p t.message) (All-keep_if p t.message rows))

    collect_prunable-All :
        (fuel : ℕ) (query_fails : ℕ → Bool) (limit page : ℕ) (cursor : Option MessageRow)
        → (got : List MessageRow) → All P got
        → All P (collect_prunable precedes fuel query_fails t before limit page cursor got)
    unfolding collect_prunable
    collect_prunable-All zero query_fails limit page cursor got h = h
    collect_prunable-All (suc fuel) query_fails limit page cursor got h =
        elim (Bool-cases (query_fails page)) [
          | inl broken ↦ rw broken h
          | inr works ↦
              go (λ c all k. collect_prunable-All fuel query_fails limit (suc page) c all k) works
                (prunable_page precedes t before cursor) refl
        ]
      where
        go :
            ((c : Option MessageRow) (all : List MessageRow)
              → All P all
              → All P (collect_prunable precedes fuel query_fails t before limit (suc page) c all))
            → query_fails page ≡ false
            → (ms : List MessageRow) → prunable_page precedes t before cursor ≡ ms
            → All P
                (collect_prunable precedes (suc fuel) query_fails t before limit page cursor got)
        go later works [] e = rw (works, e) h
        go later works (m ∷ ms) e =
            let all = All-append P got (m ∷ ms) h (subst (All P) e (prunable_page-All cursor)) in
            elim (Bool-cases (leb limit (length (got ++ m ∷ ms)))) [
              | inl enough ↦ rw (works, e, enough) all
              | inr more ↦
                  rw (works, e, more) (later (some (last_of precedes m ms)) (got ++ m ∷ ms) all)
            ]

-- A row of the list has its id there.
abbrev pub Present : List MessageRow → MessageRow → Type 0
Present rows m = 1 ≤ count_where (λ (n : MessageRow). str_eq m.id n.id) rows

count_where-All :
    (rows ms : List MessageRow)
    → ((m : MessageRow)
        → count_where (λ (n : MessageRow). str_eq m.id n.id) ms
          ≤ count_where (λ (n : MessageRow). str_eq m.id n.id) rows)
    → All (Present rows) ms
unfolding count_where
count_where-All rows [] part = tt
count_where-All rows (m ∷ ms) part = (
  ground (arith, part m, str_eq_refl m.id),
  count_where-All rows ms (λ n. ground (arith, part n)),
)

pub completely_delivered-All :
    (precedes : String → String → Bool) (query_fails : ℕ → Bool) (t : Tables) (before : ℕ)
    → All (Present t.message) (completely_delivered precedes query_fails t before 1000)
unfolding completely_delivered
completely_delivered-All precedes query_fails t before =
    collect_prunable-All (Present t.message) precedes t before
      (count_where-All t.message t.message (λ m. omega arith)) 1000 query_fails 1000 0 none [] tt

-- A batch adds no message, and takes a stored message that it lists.
batch_fewer :
    (db : Database) (ids : List String) (i j : ℕ) (t u v : Tables)
    → in_transaction_exec db (delete_jobs_of ids) 0 i t ≡ ok u
    → in_transaction_exec db (delete_messages_of ids) 0 j u ≡ ok v
    → stored v + count_where (λ (m : MessageRow). listed ids m.id && true) t.message ≡ stored t
unfolding in_transaction_exec
batch_fewer db ids i j t u v a b = ground (arith, count_delete any (λ m. listed ids m.id) t.message)

delete_batches_fewer :
    (db : Database) (fuel : ℕ) (ids : List String) (i : ℕ) (t v : Tables)
    → run_ops (delete_batches db fuel ids) i t ≡ ok v
    → stored v ≤ stored t
unfolding delete_batches run_ops
delete_batches_fewer db zero ids i t v h =
    let same : t ≡ v = ground arith in subst (λ x. stored x ≤ stored t) same (omega arith)
delete_batches_fewer db (suc fuel) [] i t v h =
    let same : t ≡ v = ground arith in subst (λ x. stored x ≤ stored t) same (omega arith)
delete_batches_fewer db (suc fuel) (id ∷ ids) i t v h =
    let batch = take 100 (id ∷ ids) in
    let rest = drop 100 (id ∷ ids) in
    let jobs_op = in_transaction_exec db (delete_jobs_of batch) 0 in
    let messages_op = in_transaction_exec db (delete_messages_of batch) 0 in
    let (u, a, h1) = run_ops_cons jobs_op (messages_op ∷ delete_batches db fuel rest) i t v h in
    let (w, b, h2) = run_ops_cons messages_op (delete_batches db fuel rest) (suc i) u v h1 in
    omega (
      arith,
      batch_fewer db batch i (suc i) t u w a b,
      delete_batches_fewer db fuel rest (suc (suc i)) w v h2,
    )

delete_first :
    (db : Database) (fuel : ℕ) (id : String) (ids : List String) (i : ℕ) (t v : Tables)
    → 1 ≤ count_where (λ (n : MessageRow). str_eq id n.id) t.message
    → run_ops (delete_batches db (suc fuel) (id ∷ ids)) i t ≡ ok v
    → stored v < stored t
unfolding delete_batches
delete_first db fuel id ids i t v here h =
    let batch = take 100 (id ∷ ids) in
    let rest = drop 100 (id ∷ ids) in
    let jobs_op = in_transaction_exec db (delete_jobs_of batch) 0 in
    let messages_op = in_transaction_exec db (delete_messages_of batch) 0 in
    let (u, a, h1) = run_ops_cons jobs_op (messages_op ∷ delete_batches db fuel rest) i t v h in
    let (w, b, h2) = run_ops_cons messages_op (delete_batches db fuel rest) (suc i) u v h1 in
    let one =
      count_le (λ (n : MessageRow). str_eq id n.id) (λ n. listed batch n.id && true)
        (λ n e. rw e refl) t.message in
    omega (
      arith,
      here,
      one,
      batch_fewer db batch i (suc i) t u w a b,
      delete_batches_fewer db fuel rest (suc (suc i)) w v h2,
    )

-- A transaction without an error leaves what its function returned.
committed_ok :
    (P : Tables → Type 0) (db : Database) (op : Tables → TxResult) (t : Tables)
    → ((v : Tables) → op t ≡ ok v → P v)
    → ¬ (op t ≡ panic)
    → (transactional_operations db op t).1 ≡ none
    → P (transactional_operations db op t).0
unfolding transactional_operations
committed_ok P db op t after calm clean = go (op t) refl
  where
    go : (r : TxResult) → op t ≡ r → P (transactional_operations db op t).0
    go (ok v) e = elim (Bool-cases db.begin_fails) [
      | inl b ↦ absurd (ground (arith, b, clean))
      | inr b ↦ elim (Bool-cases db.commit_fails) [
        | inl c ↦ absurd (ground (arith, b, c, e, clean))
        | inr c ↦ simp (b, e, c) (after v e)
      ]
    ]
    go (fail x) e = absurd (elim (Bool-cases db.begin_fails) [
      | inl b ↦ ground (arith, b, e, clean)
      | inr b ↦ ground (arith, b, e, clean)
    ])
    go panic e = absurd (calm e)

-- The statements of the deletion do not panic.
run_ops_panic :
    (a : TxOp) (ops : List TxOp) (i : ℕ) (t : Tables)
    → run_ops (a ∷ ops) i t ≡ panic
    → (a i t ≡ panic) ⊎ ((u : Tables) × (run_ops ops (suc i) u ≡ panic))
unfolding run_ops
run_ops_panic a ops i t h = go (a i t) refl
  where
    go :
        (r : TxResult)
        → a i t ≡ r
        → (a i t ≡ panic) ⊎ ((u : Tables) × (run_ops ops (suc i) u ≡ panic))
    go (ok u) e = inr (u, ground arith)
    go (fail x) e = absurd (ground arith)
    go panic e = inl e

delete_batches_calm :
    (db : Database) (fuel : ℕ) (ids : List String) (i : ℕ) (t : Tables)
    → ¬ (run_ops (delete_batches db fuel ids) i t ≡ panic)
unfolding delete_batches run_ops in_transaction_exec
delete_batches_calm db zero ids i t h = ground arith
delete_batches_calm db (suc fuel) [] i t h = ground arith
delete_batches_calm db (suc fuel) (id ∷ ids) i t h =
    let batch = take 100 (id ∷ ids) in
    let rest = drop 100 (id ∷ ids) in
    let jobs_op = in_transaction_exec db (delete_jobs_of batch) 0 in
    let messages_op = in_transaction_exec db (delete_messages_of batch) 0 in
    elim (run_ops_panic jobs_op (messages_op ∷ delete_batches db fuel rest) i t h) [
      | inl e ↦ ground arith
      | inr (u, h1) ↦ elim (run_ops_panic messages_op (delete_batches db fuel rest) (suc i) u h1) [
        | inl e ↦ ground arith
        | inr (w, h2) ↦ delete_batches_calm db fuel rest (suc (suc i)) w h2
      ]
    ]

pub deleted_fewer :
    (db : Database) (m : MessageRow) (ids : List String) (t : Tables)
    → Present t.message m
    → (delete_messages_and_jobs db (m.id ∷ ids) t).1 ≡ none
    → stored (delete_messages_and_jobs db (m.id ∷ ids) t).0 < stored t
unfolding delete_messages_and_jobs transactional_writes
deleted_fewer db m ids t here clean =
    let n = length (m.id ∷ ids) in
    committed_ok (λ v. stored v < stored t) db (run_ops (delete_batches db n (m.id ∷ ids)) 0) t
      (λ v e. delete_first db (length ids) m.id ids 0 t v here e)
      (delete_batches_calm db n (m.id ∷ ids) 0 t) clean
