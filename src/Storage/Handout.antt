-- ===== src/Storage/Handout.antt =====
-- Handing a queued job out for delivery: MarkJobInflight of storage/deliveryjobrepo.go.
use webhook_broker.Base.{
  ℕ, String, Bool, ◌&&◌, not, ◌==◌, str_eq, none, some, ◌≡◌, ◌≢◌, ap, arith, inl, inr, Option-cases,
}
use webhook_broker.Data.{DeliveryJob, job_inflight, job_queued}
use webhook_broker.Storage.Tables.{JobRow, Tables, count_where, update_where, effectively_paused}
use webhook_broker.Storage.Transactions.{
  Error, Database, single_row_write_lem, single_row_write_atomic,
}
use webhook_broker.Storage.Jobs.{
  update_jobs, after_write_lem, after_write_error, may_start, mark_job_inflight,
}
use webhook_broker.Storage.Counts.{count_update, count_le}

module _ (db : Database) (now : ℕ) (t : Tables) (d : DeliveryJob) where
  abbrev handed_out : JobRow → JobRow
  handed_out r = record r {
    status = job_inflight;
    incremental_timeout = d.incremental_timeout;
    status_changed_at = db.stored_time now;
    updated_at = now;
  }

  abbrev starts : JobRow → Bool
  starts = may_start db now t d

  -- A success has updated the one row that may start, and the object agrees.
  pub mark_job_inflight_row :
      (t' : Tables) (d' : DeliveryJob)
      → mark_job_inflight db now t d ≡ (t', d', none)
      → (count_where starts t.job ≡ 1)
        × (t'.job ≡ update_where starts handed_out t.job)
        × (t'.dispatch_pause ≡ t.dispatch_pause)
        × (d'.status ≡ job_inflight)
  unfolding mark_job_inflight update_jobs
  mark_job_inflight_row t' d' h =
      let (w, same) = after_write_lem d _ _ t' d' h in
      let done = single_row_write_lem db (update_jobs starts handed_out) t t' w in
      (
        ground (arith, done),
        ground (arith, done),
        ground (arith, done),
        ap (λ (j : DeliveryJob). j.status) same,
      )

  -- Whatever fails, the tables and the object are as they were.
  pub mark_job_inflight_error :
      (e : Error)
      → (mark_job_inflight db now t d).2 ≡ some e
      → mark_job_inflight db now t d ≡ (t, d, some e)
  unfolding mark_job_inflight
  mark_job_inflight_error e h =
      after_write_error d _ _ t (single_row_write_atomic db (update_jobs starts handed_out) t) e h

  -- While the consumer is paused in the database, no hand-out of its job succeeds.
  pub mark_job_inflight-paused :
      count_where
          (λ (r : JobRow).
            str_eq r.id d.base.id && not (effectively_paused t.dispatch_pause r.consumer_id))
          t.job
        ≡ 0
      → (mark_job_inflight db now t d).2 ≢ none
  mark_job_inflight-paused paused success =
      let row =
        mark_job_inflight_row (mark_job_inflight db now t d).0 (mark_job_inflight db now t d).1 (
          ap (λ o. ((mark_job_inflight db now t d).0, (mark_job_inflight db now t d).1, o))
            success) in
      omega (
        arith,
        row.0,
        paused,
        count_le starts
            (λ (r : JobRow).
              str_eq r.id d.base.id && not (effectively_paused t.dispatch_pause r.consumer_id))
            (λ r s. ground arith) t.job,
      )

-- The queued rows of a job.
abbrev waiting : String → JobRow → Bool
waiting id r = str_eq r.id id && r.status == job_queued

-- After a hand-out of a job that has one row, no row of it is queued.
none-waiting :
    (db : Database) (now : ℕ) (t t' : Tables) (d d' : DeliveryJob)
    → count_where (λ (r : JobRow). str_eq r.id d.base.id) t.job ≡ 1
    → mark_job_inflight db now t d ≡ (t', d', none)
    → count_where (waiting d.base.id) t'.job ≡ 0
none-waiting db now t t' d d' one h =
    let row = mark_job_inflight_row db now t d t' d' h in
    let p = waiting d.base.id in
    let q = starts db now t d in
    omega (
      arith,
      one,
      row.0,
      ap (count_where p) row.1,
      count_update p q (handed_out db now t d) (λ r. ground arith) t.job,
      count_le q (λ r. q r && p r) (λ r s. ground arith) t.job,
      count_le p (λ r. str_eq r.id d.base.id) (λ r s. ground arith) t.job,
    )

-- Two hand-outs of a job that has one row, by any nodes, of copies of one attempt or of different
-- ones: when the first has succeeded, the second fails and changes nothing.
pub mark_job_inflight-once :
    (db db' : Database) (now now' : ℕ) (t t' : Tables) (d d' e : DeliveryJob)
    → count_where (λ (r : JobRow). str_eq r.id d.base.id) t.job ≡ 1
    → e.base.id ≡ d.base.id
    → mark_job_inflight db now t d ≡ (t', d', none)
    → (x : Error) × (mark_job_inflight db' now' t' e ≡ (t', e, some x))
mark_job_inflight-once db db' now now' t t' d d' e one same h =
    let r = mark_job_inflight db' now' t' e in
    elim (Option-cases r.2) [
      | inl success ↦
          let row = mark_job_inflight_row db' now' t' e r.0 r.1 (ap (λ o. (r.0, r.1, o)) success) in
          absurd (
            omega (
              arith,
              row.0,
              none-waiting db now t t' d d' one h,
              ap (λ id. count_where (waiting id) t'.job) same,
              count_le (starts db' now' t' e) (waiting e.base.id) (λ x s. ground arith) t'.job,
            ))
      | inr (x, failure) ↦ (x, mark_job_inflight_error db' now' t' e x failure)
    ]
