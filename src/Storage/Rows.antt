-- ===== src/Storage/Rows.antt =====
-- INSERT into `job` and `job_parking`, under the keys that migration/sqls declares.
use webhook_broker.Base.{
  ℕ, suc, String, Bool, ◌&&◌, ◌||◌, ◌==◌, str_eq, if◌then◌else◌, Option, none, some, List, [], ◌∷◌,
  ◌++◌,
}
use webhook_broker.Data.{DeliveryJob}
use webhook_broker.Storage.Tables.{JobRow, ParkedRow, Tables, count_where}

abbrev pub message_id_of : DeliveryJob → String
message_id_of d = elim d.message [ none ↦ "" | some m ↦ m.base.id ]

abbrev pub consumer_id_of : DeliveryJob → String
consumer_id_of d = elim d.listener [ none ↦ "" | some c ↦ c.stakeholder.base.id ]

-- PRIMARY KEY (id) and UNIQUE (messageId, consumerId) of `job`.
abbrev pub clashes : JobRow → JobRow → Bool
clashes r q =
    str_eq r.id q.id || (str_eq r.message_id q.message_id && str_eq r.consumer_id q.consumer_id)

abbrev pub parked_clashes : ParkedRow → ParkedRow → Bool
parked_clashes r q =
    str_eq r.id q.id || (str_eq r.message_id q.message_id && str_eq r.consumer_id q.consumer_id)

-- INSERT INTO job of one row, and of several.
unfoldable pub insert_job : JobRow → List JobRow → Option (List JobRow)
unfolding count_where
insert_job r rows = if count_where (clashes r) rows == 0 then some (rows ++ r ∷ []) else none

unfoldable pub insert_jobs : List JobRow → List JobRow → Option (List JobRow)
insert_jobs [] rows = some rows
insert_jobs (r ∷ rs) rows = elim (insert_job r rows) [
  | none ↦ none
  | some rows' ↦ insert_jobs rs rows'
]

-- INSERT INTO job_parking of one row, which is given the next seq, and of several.
unfoldable pub insert_parked : ParkedRow → Tables → Option Tables
unfolding count_where
insert_parked r t =
    let row = record r { seq = t.next_seq } in
    if count_where (parked_clashes row) t.job_parking == 0
    then some (record t { job_parking = t.job_parking ++ row ∷ []; next_seq = suc t.next_seq })
    else none

unfoldable pub insert_all_parked : List ParkedRow → Tables → Option Tables
insert_all_parked [] t = some t
insert_all_parked (r ∷ rs) t = elim (insert_parked r t) [
  | none ↦ none
  | some t' ↦ insert_all_parked rs t'
]

abbrev pub affecting : ℕ → Option Tables → Option (Tables × ℕ)
affecting n none = none
affecting n (some t) = some (t, n)

-- The row that DispatchMessageWithParking inserts for a job, and that insertParkedJobsInTx does.
abbrev pub job_row : DeliveryJob → JobRow
job_row d = record {
  id = d.base.id;
  message_id = message_id_of d;
  consumer_id = consumer_id_of d;
  status = d.status;
  dispatch_received_at = d.dispatch_received_at;
  status_changed_at = d.status_changed_at;
  earliest_next_attempt_at = d.earliest_next_attempt_at;
  retry_attempt_count = 0;
  created_at = d.base.created_at;
  updated_at = d.base.updated_at;
  priority = d.priority;
  incremental_timeout = d.incremental_timeout;
}

abbrev pub parked_row : ℕ → DeliveryJob → ParkedRow
parked_row parked_at d = record {
  seq = 0;
  id = d.base.id;
  message_id = message_id_of d;
  consumer_id = consumer_id_of d;
  dispatch_received_at = d.dispatch_received_at;
  retry_attempt_count = d.retry_attempt_count;
  earliest_next_attempt_at = d.earliest_next_attempt_at;
  priority = d.priority;
  incremental_timeout = d.incremental_timeout;
  created_at = d.base.created_at;
  parked_at = parked_at;
}
