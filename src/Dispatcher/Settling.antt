-- ===== src/Dispatcher/Settling.antt =====
-- deliverJob of dispatcher/worker.go on a database that does what it is asked: what the job's row and
-- object become.
use webhook_broker.Base.{
  ℕ, ◌+◌, ◌≤◌, Bool, true, false, ◌&&◌, ◌==◌, leb, str_eq, if◌then◌else◌, Option, none, some, List,
  [], ◌∷◌, ◌≡◌, refl, ap, ◌∙◌, arith, inl, inr, Bool-cases, Option-cases,
}
use webhook_broker.Data.{DeliveryJob, job_queued, job_inflight, job_delivered, job_dead}
use webhook_broker.Storage.Tables.{JobRow, Tables, count_where, update_where}
use webhook_broker.Storage.Transactions.{
  Error, Database, single_row_write, transactional_writes, transactional_operations, run_ops,
  in_transaction_exec,
}
use webhook_broker.Storage.Jobs.{
  update_jobs, after_write, has_status, may_start, update_job_status, mark_job_inflight,
  mark_job_delivered, mark_job_dead, mark_job_retry,
}
use webhook_broker.Storage.Counts.{count_le, count_update_same}
use webhook_broker.Dispatcher.Backoff.{compute_earliest_delta}
use webhook_broker.Dispatcher.Worker.{
  Attempt, execute_job, settle_attempt, Delivery, delivery_of, deliver_job,
}

-- The database runs the statement of a single-row write.
abbrev pub Works : Database → Type 0
Works db = (db.begin_fails ≡ false) × (db.exec_fails 0 ≡ false) × (db.commit_fails ≡ false)

-- The rows that are updated, of which each then passes a test.
count_gained :
    (s p q : JobRow → Bool) (f : JobRow → JobRow)
    → ((r : JobRow) → s r ≡ true → (q r ≡ true) × (p (f r) ≡ true))
    → (rows : List JobRow) → count_where s rows ≤ count_where p (update_where q f rows)
unfolding count_where update_where
count_gained s p q f passes [] = omega arith
count_gained s p q f passes (r ∷ rows) = ground (arith, passes r, count_gained s p q f passes rows)

-- A write of one job whose WHERE holds of one row.
write_done :
    (db : Database) (d d' : DeliveryJob) (q : JobRow → Bool) (f : JobRow → JobRow) (t : Tables)
    → Works db
    → count_where q t.job ≡ 1
    → after_write d d' (single_row_write db (update_jobs q f) t)
      ≡ (record t { job = update_where q f t.job }, d', none)
unfolding single_row_write transactional_writes transactional_operations run_ops in_transaction_exec
    update_jobs
write_done db d d' q f t works one =
    let done : single_row_write db (update_jobs q f) t
        ≡ (record t { job = update_where q f t.job }, none) =
      ground (arith, works) in
    ap (after_write d d') done

-- The row of a job in a state with a retry count.
abbrev pub settled : DeliveryJob → ℕ → ℕ → JobRow → Bool
settled d status retries r = has_status d.base.id status r && r.retry_attempt_count == retries

abbrev of_job : DeliveryJob → JobRow → Bool
of_job d r = str_eq r.id d.base.id

-- An update of the one row of a job that passes a test.
one_settled :
    (d : DeliveryJob) (s q : JobRow → Bool) (f : JobRow → JobRow) (status retries : ℕ)
    → ((r : JobRow) → s r ≡ true → (q r ≡ true) × (settled d status retries (f r) ≡ true))
    → ((r : JobRow) → of_job d (f r) ≡ of_job d r)
    → (rows : List JobRow) → count_where (of_job d) rows ≡ 1
    → count_where s rows ≡ 1
    → (count_where (of_job d) (update_where q f rows) ≡ 1)
      × (count_where (settled d status retries) (update_where q f rows) ≡ 1)
one_settled d s q f status retries passes keeps rows one found =
    let ids = count_update_same (of_job d) q f keeps rows in
    let more = count_gained s (settled d status retries) q f passes rows in
    let fewer =
      count_le (settled d status retries) (of_job d) (λ r e. ground arith)
        (update_where q f rows) in
    (omega (arith, ids, one), omega (arith, ids, one, found, more, fewer))

-- The state that an attempt ends in, and the job's retry count then.
unfoldable pub end_of : Attempt → ℕ → DeliveryJob → ℕ × ℕ
unfolding execute_job
end_of a max_retry d =
    if execute_job a
    then (job_delivered, d.retry_attempt_count)
    else if leb max_retry d.retry_attempt_count
    then (job_dead, d.retry_attempt_count)
    else (job_queued, d.retry_attempt_count + 1)

module _ (db : ℕ → Database) (now : ℕ → ℕ) (max_retry : ℕ) (delays : List ℕ) where
  -- The row and the object of a delivery.
  abbrev EndsAs : DeliveryJob → ℕ → ℕ → Delivery → Type 0
  EndsAs d status retries r =
      (count_where (settled d status retries) r.tables.job ≡ 1)
      × (r.job.status ≡ status)
      × (r.job.retry_attempt_count ≡ retries)

  finished :
      (d d' : DeliveryJob) (w : Tables × DeliveryJob × Option Error) (t : Tables)
      (rows : List JobRow) (status retries : ℕ) (r : Delivery)
      → r ≡ delivery_of w
      → w ≡ (record t { job = rows }, d', none)
      → count_where (settled d status retries) rows ≡ 1
      → d'.status ≡ status
      → d'.retry_attempt_count ≡ retries
      → EndsAs d status retries r
  finished d d' w t rows status retries r e done one same count =
      let f = e ∙ ap delivery_of done in
      (
        ap (λ (x : Delivery). count_where (settled d status retries) x.tables.job) f ∙ one,
        ap (λ (x : Delivery). x.job.status) f ∙ same,
        ap (λ (x : Delivery). x.job.retry_attempt_count) f ∙ count,
      )

  -- One of the three writes at the end of deliverJob, by what it sets in the row and in the object.
  marked :
      (d d' : DeliveryJob) (f : JobRow → JobRow) (t : Tables) (status retries : ℕ) (r : Delivery)
      → r
        ≡ delivery_of (
            after_write d d'
              (single_row_write (db 1) (update_jobs (has_status d.base.id job_inflight) f) t))
      → Works (db 1)
      → count_where (of_job d) t.job ≡ 1
      → count_where (settled d job_inflight d.retry_attempt_count) t.job ≡ 1
      → ((row : JobRow)
          → settled d job_inflight d.retry_attempt_count row ≡ true
          → settled d status retries (f row) ≡ true)
      → ((row : JobRow) → of_job d (f row) ≡ of_job d row)
      → d'.status ≡ status
      → d'.retry_attempt_count ≡ retries
      → EndsAs d status retries r
  marked d d' f t status retries r e works one found passes keeps same count =
      let q = has_status d.base.id job_inflight in
      let s = settled d job_inflight d.retry_attempt_count in
      let least = count_le s q (λ x e. ground arith) t.job in
      let most = count_le q (of_job d) (λ x e. ground arith) t.job in
      let single : count_where q t.job ≡ 1 = omega (arith, least, most, one, found) in
      let rows =
        one_settled d s q f status retries (λ x e. (ground arith, passes x e)) keeps t.job one
          found in
      finished d d' _ t _ status retries r e (write_done (db 1) d d' q f t works single) rows.1 same
        count

  settle_attempt_ends :
      (a : Attempt) (t : Tables) (d : DeliveryJob) (r : Delivery)
      → settle_attempt db now max_retry delays a t d ≡ some r
      → Works (db 1)
      → count_where (of_job d) t.job ≡ 1
      → count_where (settled d job_inflight d.retry_attempt_count) t.job ≡ 1
      → EndsAs d (end_of a max_retry d).0 (end_of a max_retry d).1 r
  unfolding settle_attempt end_of mark_job_delivered mark_job_dead mark_job_retry update_job_status
  settle_attempt_ends a t d r h works one found =
      let moved = λ (status : ℕ) (row : JobRow). record row {
        status = status;
        incremental_timeout = d.incremental_timeout;
        status_changed_at = (db 1).stored_time (now 1);
        updated_at = now 1;
      } in
      let object = λ (status : ℕ). record d {
        status = status;
        status_changed_at = now 1;
        base = record (d.base) { updated_at = now 1 };
      } in
      elim (Bool-cases (execute_job a)) [
        | inl accepted ↦ rw accepted (
            marked d (object job_delivered) (moved job_delivered) t job_delivered
              d.retry_attempt_count r (ground arith) works one found (λ x e. ground arith)
              (λ x. refl) refl refl)
        | inr refused ↦ elim (Bool-cases (leb max_retry d.retry_attempt_count)) [
          | inl exhausted ↦
              rw (refused, exhausted)
                (marked d (object job_dead) (moved job_dead) t job_dead d.retry_attempt_count r
                  (ground arith) works one found (λ x e. ground arith) (λ x. refl) refl refl)
          | inr again ↦
              elim (Option-cases (compute_earliest_delta (d.retry_attempt_count + 1) delays)) [
                | inl unset ↦ absurd (ground arith)
                | inr (delta, e) ↦
                    rw (refused, again)
                      (marked d
                        (record (object job_queued) {
                          earliest_next_attempt_at = now 1 + delta;
                          retry_attempt_count = d.retry_attempt_count + 1;
                        })
                        (λ row. record row {
                          status = job_queued;
                          status_changed_at = (db 1).stored_time (now 1);
                          updated_at = now 1;
                          earliest_next_attempt_at = now 1 + delta;
                          retry_attempt_count = d.retry_attempt_count + 1;
                        })
                        t job_queued (d.retry_attempt_count + 1) r (ground arith) works one found
                        (λ x e. ground arith) (λ x. refl) refl refl)
              ]
        ]
      ]

  -- On a database that does what it is asked, a job whose one row is queued, of this attempt and not
  -- paused ends delivered if the consumer accepted it; otherwise dead, if its retry count has reached
  -- the maximum; otherwise queued with one retry more. The row and the object agree on both.
  pub deliver_job-settled :
      (a : Attempt) (t : Tables) (d : DeliveryJob) (r : Delivery)
      → deliver_job db now max_retry delays a t d ≡ some r
      → Works (db 0)
      → Works (db 1)
      → count_where (of_job d) t.job ≡ 1
      → count_where (may_start (db 0) (now 0) t d) t.job ≡ 1
      → EndsAs d (end_of a max_retry d).0 (end_of a max_retry d).1 r
  unfolding deliver_job mark_job_inflight end_of
  deliver_job-settled a t d r h works works' one may =
      let f = λ (row : JobRow). record row {
        status = job_inflight;
        incremental_timeout = d.incremental_timeout;
        status_changed_at = (db 0).stored_time (now 0);
        updated_at = now 0;
      } in
      let object = record d {
        status = job_inflight;
        status_changed_at = now 0;
        base = record (d.base) { updated_at = now 0 };
      } in
      let started = write_done (db 0) d object (may_start (db 0) (now 0) t d) f t works may in
      let rows =
        one_settled d (may_start (db 0) (now 0) t d) (may_start (db 0) (now 0) t d) f job_inflight
          d.retry_attempt_count (λ x e. ground arith) (λ x. refl) t.job one may in
      let after = record t { job = update_where (may_start (db 0) (now 0) t d) f t.job } in
      settle_attempt_ends a after object r (ground (arith, started)) works' rows.0 rows.1
