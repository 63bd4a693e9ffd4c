-- ===== src/Dispatcher/Worker.antt =====
-- dispatcher/worker.go: deliverJob, executeJob and the test that callConsumer makes of the answer,
-- and reparkJob of dispatcher/msgdispatcher.go. The HTTP client is not modelled: `Attempt` says how
-- the call of the consumer ends; that the request cannot be made, or the call panics, counts as a
-- failure too. The log lines read the job's message and listener, which are taken to be loaded. The
-- i-th write meets the database `db i` and reads `now i`.
use webhook_broker.Base.{
  ℕ, ◌+◌, ◌≤◌, ◌<◌, Bool, false, ◌||◌, not, ltb, leb, if◌then◌else◌, Option, none, some, List, ◌≡◌,
  arith, inl, inr, Option-cases,
}
use webhook_broker.Data.{DeliveryJob}
use webhook_broker.Storage.Tables.{Tables}
use webhook_broker.Storage.Transactions.{Error, Database}
use webhook_broker.Storage.Jobs.{
  after_write, update_job_status, mark_job_inflight, mark_job_delivered, mark_job_dead,
  mark_job_retry,
}
use webhook_broker.Storage.Parking.{repark_queued_job}
use webhook_broker.Dispatcher.Backoff.{compute_earliest_delta}

-- The client answers with a status code, fails (`none`), or the call panics.
pub data Attempt : Type 0 where
  returned : Option ℕ → Attempt
  panicked : Attempt

-- Whether executeJob returns nil.
unfoldable pub execute_job : Attempt → Bool
execute_job panicked = false
execute_job (returned none) = false
execute_job (returned (some code)) = not (ltb code 200 || ltb 299 code)

-- reparkJob: its result, and how much the counter of parked jobs grows.
unfoldable pub repark_job : Database → ℕ → Tables → DeliveryJob → Tables × DeliveryJob × Bool × ℕ
unfolding repark_queued_job
repark_job db now t d =
    let (t', d', moved, err) = repark_queued_job db now t d in
    elim err [ some e ↦ (t', d', false, 0) | none ↦ (t', d', moved, if moved then 1 else 0) ]

-- What deliverJob leaves: the tables and the job. A logged error is not kept.
pub record Delivery : Type 0 where
  pub tables : Tables
  pub job : DeliveryJob

abbrev pub delivery_of : Tables × DeliveryJob × Option Error → Delivery
delivery_of w = record { tables = w.0; job = w.1 }

module _ (db : ℕ → Database) (now : ℕ → ℕ) (max_retry : ℕ) (delays : List ℕ) where
  -- The end of deliverJob, after the hand-out; `none` is a panic of computeEarliestDelta.
  unfoldable pub settle_attempt : Attempt → Tables → DeliveryJob → Option Delivery
  unfolding execute_job mark_job_delivered mark_job_dead mark_job_retry compute_earliest_delta
  settle_attempt attempt t d =
      if execute_job attempt
      then some (delivery_of (mark_job_delivered (db 1) (now 1) t d))
      else if leb max_retry d.retry_attempt_count
      then some (delivery_of (mark_job_dead (db 1) (now 1) t d))
      else elim (compute_earliest_delta (d.retry_attempt_count + 1) delays) [
        | none ↦ none
        | some delta ↦ some (delivery_of (mark_job_retry (db 1) (now 1) t d delta))
      ]

  unfoldable pub deliver_job : Attempt → Tables → DeliveryJob → Option Delivery
  unfolding repark_job
  deliver_job attempt t d =
      let (t', d', err) = mark_job_inflight (db 0) (now 0) t d in
      elim err [
        | none ↦ settle_attempt attempt t' d'
        | some e ↦
            let (u, d'', moved, parked) = repark_job (db 1) (now 1) t' d' in
            some (record { tables = u; job = d'' })
      ]

module _ (db : ℕ → Database) (now : ℕ → ℕ) (max_retry : ℕ) (delays : List ℕ) where
  -- The jobs' part of a delivery: the count of retries never passes the maximum.
  after_write_retry :
      (e e' : DeliveryJob) (w : Tables × Option Error)
      → e.retry_attempt_count ≤ max_retry
      → e'.retry_attempt_count ≤ max_retry
      → (after_write e e' w).1.retry_attempt_count ≤ max_retry
  after_write_retry e e' (u, none) old new = new
  after_write_retry e e' (u, some x) old new = old

  marks_retry :
      (t : Tables) (d : DeliveryJob)
      → d.retry_attempt_count ≤ max_retry
      → ((mark_job_inflight (db 0) (now 0) t d).1.retry_attempt_count ≤ max_retry)
        × ((mark_job_delivered (db 1) (now 1) t d).1.retry_attempt_count ≤ max_retry)
        × ((mark_job_dead (db 1) (now 1) t d).1.retry_attempt_count ≤ max_retry)
  unfolding mark_job_inflight mark_job_delivered mark_job_dead update_job_status
  marks_retry t d old = (
    after_write_retry d _ _ old old,
    after_write_retry d _ _ old old,
    after_write_retry d _ _ old old,
  )

  mark_job_retry_retry :
      (t : Tables) (d : DeliveryJob) (delta : ℕ)
      → d.retry_attempt_count < max_retry
      → (mark_job_retry (db 1) (now 1) t d delta).1.retry_attempt_count ≤ max_retry
  unfolding mark_job_retry
  mark_job_retry_retry t d delta below =
      let next : d.retry_attempt_count + 1 ≤ max_retry = omega arith in
      after_write_retry d _ _ (omega arith) next

  settle_attempt_retry :
      (a : Attempt) (t : Tables) (d : DeliveryJob) (r : Delivery)
      → settle_attempt db now max_retry delays a t d ≡ some r
      → d.retry_attempt_count ≤ max_retry
      → r.job.retry_attempt_count ≤ max_retry
  unfolding settle_attempt
  settle_attempt_retry a t d r h bounded =
      let marks = marks_retry t d bounded in
      elim (Option-cases (compute_earliest_delta (d.retry_attempt_count + 1) delays)) [
        | inl e ↦ ground (arith, marks)
        | inr (delta, e) ↦ ground (arith, marks, mark_job_retry_retry t d delta)
      ]

  repark_job_retry :
      (t : Tables) (d : DeliveryJob)
      → (repark_job (db 1) (now 1) t d).1.retry_attempt_count ≡ d.retry_attempt_count
  unfolding repark_job repark_queued_job
  repark_job_retry t d = ground arith

  -- One delivery never takes the count of retries past the maximum.
  pub deliver_job-max_retry :
      (a : Attempt) (t : Tables) (d : DeliveryJob) (r : Delivery)
      → deliver_job db now max_retry delays a t d ≡ some r
      → d.retry_attempt_count ≤ max_retry
      → r.job.retry_attempt_count ≤ max_retry
  unfolding deliver_job
  deliver_job-max_retry a t d r h bounded =
      let marks = marks_retry t d bounded in
      let w = mark_job_inflight (db 0) (now 0) t d in
      elim (Option-cases w.2) [
        | inl success ↦ settle_attempt_retry a w.0 w.1 r (ground arith) marks.0
        | inr (e, failure) ↦ ground (arith, marks, repark_job_retry w.0 w.1)
      ]
