-- ===== src/Storage/DeadJobs.antt =====
-- storage/deliveryjobrepo.go: the writes to dead jobs, and DeleteJobsForMessage. Each is one
-- statement whose rows affected are returned, those of a commit that fails too.
use webhook_broker.Base.{
  ℕ, String, Bool, ◌&&◌, ◌||◌, not, ◌==◌, leb, str_eq, if◌then◌else◌, Option, some, [], ◌∷◌,
}
use webhook_broker.Data.{job_queued, job_dead}
use webhook_broker.Storage.Tables.{JobRow, Tables, count_where, delete_where}
use webhook_broker.Storage.Transactions.{
  Error, no_rows_updated, Database, Statement, TxOp, fail, in_transaction_exec,
  transactional_writes,
}
use webhook_broker.Storage.Jobs.{update_jobs, has_status}

abbrev pub delete_jobs : (JobRow → Bool) → Statement
delete_jobs p t = some (record t { job = delete_where p t.job }, count_where p t.job)

-- RowsAffected of the one statement over the rows that `p` selects: 0 if it did not run.
abbrev pub rows_affected : Database → (JobRow → Bool) → Tables → ℕ
rows_affected db p t = if db.begin_fails || db.exec_fails 0 then 0 else count_where p t.job

abbrev pub dead_of_consumer : String → JobRow → Bool
dead_of_consumer consumer r = str_eq r.consumer_id consumer && r.status == job_dead

abbrev pub requeued : ℕ → JobRow → JobRow
requeued now r = record r {
  status = job_queued;
  status_changed_at = now;
  updated_at = now;
  retry_attempt_count = 0;
}

abbrev pub exhausted : ℕ → JobRow → Bool
exhausted max_retry r = leb max_retry r.retry_attempt_count

module _ (db : Database) (t : Tables) where
  -- The tables, the rows affected, and the error.
  unfoldable pub requeue_dead_jobs_for_consumer : ℕ → String → Tables × ℕ × Option Error
  unfolding update_jobs
  requeue_dead_jobs_for_consumer now consumer =
      let (t', err) =
        transactional_writes db
          (in_transaction_exec db (update_jobs (dead_of_consumer consumer) (requeued now)) 0 ∷ [])
          t in
      (t', rows_affected db (dead_of_consumer consumer) t, err)

  unfoldable pub requeue_dead_job : ℕ → String → Tables × ℕ × Option Error
  unfolding update_jobs
  requeue_dead_job now id =
      let p = has_status id job_dead in
      let op : TxOp = λ i u.
        if count_where p u.job == 0 && (not (db.exec_fails i))
        then fail no_rows_updated
        else in_transaction_exec db (update_jobs p (requeued now)) 0 i u in
      let (t', err) = transactional_writes db (op ∷ []) t in (t', rows_affected db p t, err)

  unfoldable pub delete_dead_jobs_for_consumer : String → ℕ → Tables × ℕ × Option Error
  unfolding count_where
  delete_dead_jobs_for_consumer consumer max_retry =
      let p = λ (r : JobRow). dead_of_consumer consumer r && exhausted max_retry r in
      let (t', err) = transactional_writes db (in_transaction_exec db (delete_jobs p) 0 ∷ []) t in
      (t', rows_affected db p t, err)

  unfoldable pub delete_dead_job : String → ℕ → Tables × ℕ × Option Error
  unfolding count_where
  delete_dead_job id max_retry =
      let p = λ (r : JobRow). has_status id job_dead r && exhausted max_retry r in
      let (t', err) = transactional_writes db (in_transaction_exec db (delete_jobs p) 0 ∷ []) t in
      (t', rows_affected db p t, err)

  unfoldable pub delete_jobs_for_message : String → Tables × Option Error
  unfolding count_where
  delete_jobs_for_message message =
      transactional_writes db
        (in_transaction_exec db (delete_jobs (λ r. str_eq r.message_id message)) 0 ∷ []) t
