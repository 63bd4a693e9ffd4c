-- ===== src/Storage/Lifecycle.antt =====
-- The life of a job row in storage/deliveryjobrepo.go: what sequences of its writes cannot undo.
use webhook_broker.Base.{
  ℕ, ◌≤◌, String, Bool, true, false, ◌&&◌, Option, none, some, [], ◌∷◌, ◌≡◌, refl, ap, arith,
}
use webhook_broker.Data.{DeliveryJob, job_delivered, job_dead}
use webhook_broker.Storage.Tables.{JobRow, Tables, count_where, update_where, delete_where}
use webhook_broker.Storage.Transactions.{
  Error, Database, Statement, single_row_write, transactional_writes, transactional_operations,
  run_ops, in_transaction_exec,
}
use webhook_broker.Storage.Jobs.{
  update_jobs, after_write, has_status, update_job_status, mark_job_inflight, mark_job_delivered,
  mark_job_dead, mark_queued_job_as_dead, mark_job_retry, mark_dead_job_as_inflight,
}
use webhook_broker.Storage.DeadJobs.{
  requeued, dead_of_consumer, exhausted, delete_jobs, requeue_dead_job,
  requeue_dead_jobs_for_consumer, delete_dead_job, delete_dead_jobs_for_consumer,
}
use webhook_broker.Storage.Counts.{count_update_le, count_delete_le}

-- The delivered rows of a job.
unfoldable pub delivered : String → Tables → ℕ
unfolding count_where
delivered id t = count_where (has_status id job_delivered) t.job

-- A write of one job or of the dead jobs, which may fail.
pub data Write (db : Database) (t : Tables) : Tables → Type 0 where
  starts : (now : ℕ) (d : DeliveryJob) → Write db t (mark_job_inflight db now t d).0
  delivers : (now : ℕ) (d : DeliveryJob) → Write db t (mark_job_delivered db now t d).0
  gives_up : (now : ℕ) (d : DeliveryJob) → Write db t (mark_job_dead db now t d).0
  gives_up_queued : (now : ℕ) (d : DeliveryJob) → Write db t (mark_queued_job_as_dead db now t d).0
  retries : (now delta : ℕ) (d : DeliveryJob) → Write db t (mark_job_retry db now t d delta).0
  restarts : (now : ℕ) (d : DeliveryJob) → Write db t (mark_dead_job_as_inflight db now t d).0
  requeues : (now : ℕ) (id : String) → Write db t (requeue_dead_job db t now id).0
  requeues_all :
      (now : ℕ) (consumer : String)
      → Write db t (requeue_dead_jobs_for_consumer db t now consumer).0
  deletes : (id : String) (max_retry : ℕ) → Write db t (delete_dead_job db t id max_retry).0
  deletes_all :
      (consumer : String) (max_retry : ℕ)
      → Write db t (delete_dead_jobs_for_consumer db t consumer max_retry).0

-- Sequences of writes, each met by a database of its own.
pub data Writes (t : Tables) : Tables → Type 0 where
  here : Writes t t
  next : {u v : Tables} (db : Database) → Writes t u → Write db u v → Writes t v

module _ (k : String) where
  -- What a transaction of one statement leaves delivered.
  one_statement :
      (db : Database) (statement : Statement) (n : ℕ) (t : Tables)
      → ((t' : Tables) (m : ℕ) → statement t ≡ some (t', m) → delivered k t ≤ delivered k t')
      → delivered k t
        ≤ delivered k (transactional_writes db (in_transaction_exec db statement n ∷ []) t).0
  unfolding transactional_writes transactional_operations run_ops in_transaction_exec
  one_statement db statement n t keeps = go (statement t) refl
    where
      go :
          (r : Option (Tables × ℕ))
          → statement t ≡ r
          → delivered k t
            ≤ delivered k (transactional_writes db (in_transaction_exec db statement n ∷ []) t).0
      go none e = ground (arith, ap (delivered k) refl)
      go (some (t', m)) e = ground (arith, keeps t' m e)

  module _ (db : Database) (n : ℕ) (t : Tables) (p : JobRow → Bool) where
    updates :
        (f : JobRow → JobRow)
        → ((r : JobRow)
            → p r ≡ true
            → has_status k job_delivered r ≡ true
            → has_status k job_delivered (f r) ≡ true)
        → delivered k t
          ≤ delivered k
              (transactional_writes db (in_transaction_exec db (update_jobs p f) n ∷ []) t).0
    unfolding update_jobs delivered
    updates f keeps = one_statement db (update_jobs p f) n t (λ t' m e. ground (
      arith,
      count_update_le (has_status k job_delivered) p f keeps t.job,
      ap (count_where (has_status k job_delivered)) (rows t' m e),
    ))
      where
        rows :
            (t' : Tables) (m : ℕ)
            → update_jobs p f t ≡ some (t', m)
            → t'.job ≡ update_where p f t.job
        rows t' m e = ground arith

    deletions :
        ((r : JobRow) → p r ≡ true → has_status k job_delivered r ≡ false)
        → delivered k t
          ≤ delivered k
              (transactional_writes db (in_transaction_exec db (delete_jobs p) n ∷ []) t).0
    unfolding delivered
    deletions spares = one_statement db (delete_jobs p) n t (λ t' m e. ground (
      arith,
      count_delete_le (has_status k job_delivered) p spares t.job,
      ap (count_where (has_status k job_delivered)) (rows t' m e),
    ))
      where
        rows :
            (t' : Tables) (m : ℕ) → delete_jobs p t ≡ some (t', m) → t'.job ≡ delete_where p t.job
        rows t' m e = ground arith

kept :
    (k : String) (t : Tables) (d d' : DeliveryJob) (w : Tables × Option Error)
    → delivered k t ≤ delivered k w.0
    → delivered k t ≤ delivered k (after_write d d' w).0
kept k t d d' (u, none) h = h
kept k t d d' (u, some e) h = h

-- One write leaves as many delivered rows of a job, or more.
pub Write-delivered :
    (db : Database) (t u : Tables) (k : String) → Write db t u → delivered k t ≤ delivered k u
unfolding mark_job_inflight mark_job_delivered mark_job_dead mark_queued_job_as_dead mark_job_retry
    mark_dead_job_as_inflight update_job_status requeue_dead_job requeue_dead_jobs_for_consumer
    delete_dead_job delete_dead_jobs_for_consumer single_row_write
Write-delivered db t u k (starts now d) =
    kept k t d _ _ (updates k db 1 t _ _ (λ r e f. ground arith))
Write-delivered db t u k (delivers now d) =
    kept k t d _ _ (updates k db 1 t _ _ (λ r e f. ground arith))
Write-delivered db t u k (gives_up now d) =
    kept k t d _ _ (updates k db 1 t _ _ (λ r e f. ground arith))
Write-delivered db t u k (gives_up_queued now d) =
    kept k t d _ _ (updates k db 1 t _ _ (λ r e f. ground arith))
Write-delivered db t u k (retries now delta d) =
    kept k t d _ _ (updates k db 1 t _ _ (λ r e f. ground arith))
Write-delivered db t u k (restarts now d) =
    kept k t d _ _ (updates k db 1 t _ _ (λ r e f. ground arith))
Write-delivered db t u k (requeues now id) =
    ground (arith, updates k db 0 t (has_status id job_dead) (requeued now) (λ r e f. ground arith))
Write-delivered db t u k (requeues_all now consumer) =
    updates k db 0 t (dead_of_consumer consumer) (requeued now) (λ r e f. ground arith)
Write-delivered db t u k (deletes id max_retry) =
    deletions k db 0 t (λ r. has_status id job_dead r && exhausted max_retry r)
      (λ r e. ground arith)
Write-delivered db t u k (deletes_all consumer max_retry) =
    deletions k db 0 t (λ r. dead_of_consumer consumer r && exhausted max_retry r)
      (λ r e. ground arith)

-- No sequence of the status writes, requeues and deletions of dead jobs above takes a delivered job out
-- of that state. DeleteJobsForMessage, which pruning deletes with, is not among them.
pub Writes-delivered : (t u : Tables) (k : String) → Writes t u → delivered k t ≤ delivered k u
Writes-delivered t u k here = omega arith
Writes-delivered t u k (next {u = v} db ws w) =
    omega (arith, Writes-delivered t v k ws, Write-delivered db v u k w)
