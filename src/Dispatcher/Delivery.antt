-- ===== src/Dispatcher/Delivery.antt =====
-- dispatcher/worker.go: what a delivery does to the rows of the jobs.
use webhook_broker.Base.{ℕ, ◌+◌, String, some, List, ◌≡◌, ◌∙◌, arith, inl, inr, Option-cases}
use webhook_broker.Data.{DeliveryJob}
use webhook_broker.Storage.Tables.{Tables}
use webhook_broker.Storage.Transactions.{Database}
use webhook_broker.Storage.Jobs.{mark_job_inflight}
use webhook_broker.Storage.Parking.{repark_queued_job}
use webhook_broker.Storage.Ownership.{owned, repark_queued_job-owned}
use webhook_broker.Storage.Updates.{
  mark_job_inflight-owned, mark_job_delivered-owned, mark_job_dead-owned, mark_job_retry-owned,
}
use webhook_broker.Dispatcher.Backoff.{compute_earliest_delta}
use webhook_broker.Dispatcher.Worker.{Attempt, Delivery, repark_job, settle_attempt, deliver_job}

-- Re-parking a job from the dispatcher conserves the rows of every job.
pub repark_job-owned :
    (db : Database) (now : ℕ) (t : Tables) (d : DeliveryJob) (k : String)
    → owned k (repark_job db now t d).0 ≡ owned k t
unfolding repark_job
repark_job-owned db now t d k = elim (Option-cases (repark_queued_job db now t d).3) [
  | inl ok ↦ rw (repark_job, ok) (repark_queued_job-owned db now t d k)
  | inr (e, bad) ↦ rw (repark_job, bad) (repark_queued_job-owned db now t d k)
]

module _ (db : ℕ → Database) (now : ℕ → ℕ) (max_retry : ℕ) (delays : List ℕ) (k : String) where
  settle_attempt-owned :
      (a : Attempt) (t : Tables) (d : DeliveryJob) (r : Delivery)
      → settle_attempt db now max_retry delays a t d ≡ some r
      → owned k r.tables ≡ owned k t
  unfolding settle_attempt
  settle_attempt-owned a t d r h =
      let delivered = mark_job_delivered-owned k (db 1) (now 1) t d in
      let dead = mark_job_dead-owned k (db 1) (now 1) t d in
      elim (Option-cases (compute_earliest_delta (d.retry_attempt_count + 1) delays)) [
        | inl e ↦ ground (arith, delivered, dead)
        | inr (delta, e) ↦
            ground (arith, delivered, dead, mark_job_retry-owned k (db 1) (now 1) t d delta)
      ]

  -- A delivery, whatever the consumer and the database do, leaves every job in as many rows of the
  -- two tables as before.
  pub deliver_job-owned :
      (a : Attempt) (t : Tables) (d : DeliveryJob) (r : Delivery)
      → deliver_job db now max_retry delays a t d ≡ some r
      → owned k r.tables ≡ owned k t
  unfolding deliver_job
  deliver_job-owned a t d r h =
      let w = mark_job_inflight (db 0) (now 0) t d in
      let started = mark_job_inflight-owned k (db 0) (now 0) t d in
      elim (Option-cases w.2) [
        | inl success ↦ settle_attempt-owned a w.0 w.1 r (ground arith) ∙ started
        | inr (e, failure) ↦ ground (arith, started, repark_job-owned (db 1) (now 1) w.0 w.1 k)
      ]
