-- ===== src/Storage/Parking.antt =====
-- storage/jobparkingrepo.go. The rows that DrainPage returns are those it inserts; populateJobs, which
-- loads their messages and listeners, is left out.
use webhook_broker.Base.{
  ℕ, String, Bool, false, ◌&&◌, ◌||◌, not, ◌==◌, ltb, str_eq, if◌then◌else◌, Option, none, some,
  List, [], ◌∷◌, length, take, map, keep_if, is_some,
}
use mathlib.Core.Option
use webhook_broker.Data.{
  DeliveryJob, DispatchPause, job_queued, job_parked, global_dispatch_pause_scope,
}
use webhook_broker.Storage.Tables.{
  JobRow, ParkedRow, Tables, count_where, delete_where, effectively_paused,
}
use webhook_broker.Storage.Transactions.{
  Error, db_error, Database, Statement, TxResult, ok, fail, in_transaction_exec,
  transactional_operations, run_ops,
}
use webhook_broker.Storage.Rows.{insert_jobs, insert_all_parked}

-- The rows that reparkQuery copies.
abbrev pub reparkable : Tables → String → JobRow → Bool
reparkable t id r =
    str_eq r.id id && (r.status == job_queued && effectively_paused t.dispatch_pause r.consumer_id)

abbrev pub parked_copy : ℕ → JobRow → ParkedRow
parked_copy parked_at r = record {
  seq = 0;
  id = r.id;
  message_id = r.message_id;
  consumer_id = r.consumer_id;
  dispatch_received_at = r.dispatch_received_at;
  retry_attempt_count = r.retry_attempt_count;
  earliest_next_attempt_at = r.earliest_next_attempt_at;
  priority = r.priority;
  incremental_timeout = r.incremental_timeout;
  created_at = r.created_at;
  parked_at = parked_at;
}

-- reparkDeleteQuery
abbrev pub repark_delete : String → Statement
repark_delete id t =
    let p = λ (r : JobRow). str_eq r.id id && r.status == job_queued in
    some (record t { job = delete_where p t.job }, count_where p t.job)

module _ (db : Database) where
  unfoldable pub repark_op : String → ℕ → Tables → TxResult
  repark_op id now t =
      if db.exec_fails 0
      then fail db_error
      else elim (insert_all_parked (map (parked_copy now) (keep_if (reparkable t id) t.job)) t) [
        | none ↦ fail db_error
        | some t' ↦
            if count_where (reparkable t id) t.job == 0
            then ok t'
            else in_transaction_exec db (repark_delete id) 1 1 t'
      ]

  -- ReparkQueuedJob of a job that is not nil: the tables, the job, whether it moved, and the error.
  unfoldable pub repark_queued_job :
      ℕ → Tables → DeliveryJob → Tables × DeliveryJob × Bool × Option Error
  repark_queued_job now t d =
      let (t', err) = transactional_operations db (repark_op d.base.id now) t in
      let moved = not (is_some err) && not (count_where (reparkable t d.base.id) t.job == 0) in
      (t', if moved then record d { status = job_parked } else d, moved, err)

-- ORDER BY createdAt, seq
abbrev pub before : ParkedRow → ParkedRow → Bool
before r q = if r.created_at == q.created_at then ltb r.seq q.seq else ltb r.created_at q.created_at

unfoldable pub insert_ordered : ParkedRow → List ParkedRow → List ParkedRow
insert_ordered r [] = r ∷ []
insert_ordered r (q ∷ qs) = if before q r then q ∷ insert_ordered r qs else r ∷ q ∷ qs

unfoldable pub order_rows : List ParkedRow → List ParkedRow
unfolding insert_ordered
order_rows [] = []
order_rows (r ∷ rs) = insert_ordered r (order_rows rs)

abbrev pub of_consumer : String → ParkedRow → Bool
of_consumer consumer r = str_eq r.consumer_id consumer

-- drainPageQuery
unfoldable pub drain_page_rows : Tables → String → ℕ → List ParkedRow
unfolding order_rows effectively_paused
drain_page_rows t consumer page_size =
    if effectively_paused t.dispatch_pause consumer
    then []
    else take page_size (order_rows (keep_if (of_consumer consumer) t.job_parking))

-- The seq of a row is among those of a list.
abbrev pub seq_in : List ParkedRow → ℕ → Bool
seq_in [] n = false
seq_in (r ∷ rs) n = r.seq == n || seq_in rs n

abbrev pub drained_row : ℕ → ℕ → ParkedRow → JobRow
drained_row now earliest r = record {
  id = r.id;
  message_id = r.message_id;
  consumer_id = r.consumer_id;
  status = job_queued;
  dispatch_received_at = r.dispatch_received_at;
  status_changed_at = now;
  earliest_next_attempt_at = earliest;
  retry_attempt_count = r.retry_attempt_count;
  created_at = r.created_at;
  updated_at = now;
  priority = r.priority;
  incremental_timeout = r.incremental_timeout;
}

-- The deletion and the insertion of DrainPage.
abbrev pub drain_delete : List ParkedRow → Statement
drain_delete rows t =
    let p = λ (r : ParkedRow). seq_in rows r.seq in
    some (record t { job_parking = delete_where p t.job_parking }, count_where p t.job_parking)

abbrev pub drain_insert : ℕ → ℕ → List ParkedRow → Statement
drain_insert now earliest rows t = elim (insert_jobs (map (drained_row now earliest) rows) t.job) [
  | none ↦ none
  | some jobs ↦ some (record t { job = jobs }, length rows)
]

module _ (db : Database) where
  -- The function of the transaction, whose first statement is the query.
  unfoldable pub drain_op : String → ℕ → ℕ → ℕ → Tables → TxResult
  drain_op consumer page_size now earliest t =
      let rows = drain_page_rows t consumer page_size in
      if db.exec_fails 0
      then fail db_error
      else if length rows == 0
      then ok t
      else run_ops
          (in_transaction_exec db (drain_delete rows) (length rows)
            ∷ in_transaction_exec db (drain_insert now earliest rows) (length rows)
            ∷ [])
          1 t

  -- DrainPage: the tables, the rows that were moved, and the error.
  unfoldable pub drain_page : String → ℕ → ℕ → ℕ → Tables → Tables × List JobRow × Option Error
  drain_page consumer page_size now earliest t =
      if page_size == 0
      then (t, [], none)
      else (let (t', err) =
            transactional_operations db (drain_op consumer page_size now earliest) t in
          let rows = drain_page_rows t consumer page_size in
          (t', if is_some err then [] else map (drained_row now earliest) rows, err))

-- The loop of GetDrainableConsumerIDs over the scopes: `none` if one is the global scope.
unfoldable pub paused_scopes : List DispatchPause → Option (List String)
paused_scopes [] = some []
paused_scopes (d ∷ ds) =
    if str_eq d.scope global_dispatch_pause_scope
    then none
    else Option.map (λ l. d.scope ∷ l) (paused_scopes ds)

abbrev pub listed : List String → String → Bool
listed [] x = false
listed (y ∷ ys) x = str_eq y x || listed ys x

-- SELECT DISTINCT consumerId FROM job_parking
unfoldable pub parked_consumers : List ParkedRow → List String
parked_consumers [] = []
parked_consumers (r ∷ rs) =
    let rest = parked_consumers rs in
    if listed rest r.consumer_id then rest else r.consumer_id ∷ rest

-- GetDrainableConsumerIDs, when its two queries succeed.
unfoldable pub drainable_consumer_ids : Tables → List String
unfolding paused_scopes parked_consumers
drainable_consumer_ids t = elim (paused_scopes t.dispatch_pause) [
  | none ↦ []
  | some scopes ↦ keep_if (λ c. not (listed scopes c)) (parked_consumers t.job_parking)
]
