-- ===== src/Storage/Jobs.antt =====
-- storage/deliveryjobrepo.go: the writes. `now` is the one reading of the clock that
-- each makes; of it the column statusChangedAt keeps what it can.
use webhook_broker.Base.{
  ℕ, ◌+◌, String, Bool, ◌&&◌, not, ◌==◌, str_eq, Option, none, some, ◌≡◌, refl,
}
use webhook_broker.Data.{DeliveryJob, job_queued, job_inflight, job_delivered, job_dead}
use webhook_broker.Storage.Tables.{JobRow, Tables, update_where, count_where, effectively_paused}
use webhook_broker.Storage.Transactions.{Error, Database, Statement, single_row_write}

-- An UPDATE of `job`.
unfoldable pub update_jobs : (JobRow → Bool) → (JobRow → JobRow) → Statement
unfolding update_where count_where
update_jobs p f t = some (record t { job = update_where p f t.job }, count_where p t.job)

-- The end of a write of one job: the object changes only if there was no error.
abbrev pub after_write :
    DeliveryJob → DeliveryJob → Tables × Option Error → Tables × DeliveryJob × Option Error
after_write d d' (t, none) = (t, d', none)
after_write d d' (t, some e) = (t, d, some e)

-- A write of one job that returns no error.
pub after_write_lem :
    (d d' : DeliveryJob) (w : Tables × Option Error) (t : Tables) (e : DeliveryJob)
    → after_write d d' w ≡ (t, e, none)
    → (w ≡ (t, none)) × (e ≡ d')
after_write_lem d d' (u, none) t e h = (cc, cc)
after_write_lem d d' (u, some x) t e h = cc

-- A write of one job that returns an error leaves the tables, if its transaction does.
pub after_write_error :
    (d d' : DeliveryJob) (w : Tables × Option Error) (t : Tables)
    → ((e : Error) → w.1 ≡ some e → w.0 ≡ t)
    → (e : Error) → (after_write d d' w).2 ≡ some e
    → after_write d d' w ≡ (t, d, some e)
after_write_error d d' (u, none) t keeps e h = cc
after_write_error d d' (u, some x) t keeps e h = let same : u ≡ t = keeps x refl in cc

-- WHERE id like ? and status = ?
abbrev pub has_status : String → ℕ → JobRow → Bool
has_status id status r = str_eq r.id id && r.status == status

module _ (db : Database) (now : ℕ) (t : Tables) (d : DeliveryJob) where
  -- updateJobStatus
  unfoldable pub update_job_status : ℕ → ℕ → Tables × DeliveryJob × Option Error
  unfolding update_jobs
  update_job_status from to =
      after_write d
        (record d {
          status = to;
          status_changed_at = now;
          base = record (d.base) { updated_at = now };
        })
        (single_row_write db
          (update_jobs (has_status d.base.id from) (λ r. record r {
            status = to;
            incremental_timeout = d.incremental_timeout;
            status_changed_at = db.stored_time now;
            updated_at = now;
          }))
          t)

  -- The WHERE of MarkJobInflight.
  abbrev pub may_start : JobRow → Bool
  may_start r =
      has_status d.base.id job_queued r
      && (r.retry_attempt_count == d.retry_attempt_count
          && not (effectively_paused t.dispatch_pause r.consumer_id))

  unfoldable pub mark_job_inflight : Tables × DeliveryJob × Option Error
  unfolding update_jobs
  mark_job_inflight =
      after_write d
        (record d {
          status = job_inflight;
          status_changed_at = now;
          base = record (d.base) { updated_at = now };
        })
        (single_row_write db
          (update_jobs may_start (λ r. record r {
            status = job_inflight;
            incremental_timeout = d.incremental_timeout;
            status_changed_at = db.stored_time now;
            updated_at = now;
          }))
          t)

  unfoldable pub mark_job_delivered : Tables × DeliveryJob × Option Error
  unfolding update_job_status
  mark_job_delivered = update_job_status job_inflight job_delivered

  unfoldable pub mark_job_dead : Tables × DeliveryJob × Option Error
  unfolding update_job_status
  mark_job_dead = update_job_status job_inflight job_dead

  unfoldable pub mark_queued_job_as_dead : Tables × DeliveryJob × Option Error
  unfolding update_job_status
  mark_queued_job_as_dead = update_job_status job_queued job_dead

  -- MarkJobRetry
  unfoldable pub mark_job_retry : ℕ → Tables × DeliveryJob × Option Error
  unfolding update_jobs
  mark_job_retry earliest_delta =
      after_write d
        (record d {
          status = job_queued;
          status_changed_at = now;
          base = record (d.base) { updated_at = now };
          earliest_next_attempt_at = now + earliest_delta;
          retry_attempt_count = d.retry_attempt_count + 1;
        })
        (single_row_write db
          (update_jobs (has_status d.base.id job_inflight) (λ r. record r {
            status = job_queued;
            status_changed_at = db.stored_time now;
            updated_at = now;
            earliest_next_attempt_at = now + earliest_delta;
            retry_attempt_count = d.retry_attempt_count + 1;
          }))
          t)

  -- MarkDeadJobAsInflight
  unfoldable pub mark_dead_job_as_inflight : Tables × DeliveryJob × Option Error
  unfolding update_jobs
  mark_dead_job_as_inflight =
      after_write d
        (record d {
          status = job_inflight;
          status_changed_at = now;
          base = record (d.base) { updated_at = now };
          earliest_next_attempt_at = now;
          retry_attempt_count = d.retry_attempt_count + 1;
        })
        (single_row_write db
          (update_jobs
            (λ r.
              has_status d.base.id job_dead r
              && not (effectively_paused t.dispatch_pause r.consumer_id))
            (λ r. record r {
              status = job_inflight;
              incremental_timeout = d.incremental_timeout;
              status_changed_at = db.stored_time now;
              updated_at = now;
              earliest_next_attempt_at = now;
              retry_attempt_count = d.retry_attempt_count + 1;
            }))
          t)
