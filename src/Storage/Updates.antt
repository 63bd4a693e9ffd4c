-- ===== src/Storage/Updates.antt =====
-- The writes of one job in storage/deliveryjobrepo.go neither add nor remove rows.
use webhook_broker.Base.{ℕ, String, Bool, str_eq, Option, none, some, ◌≡◌, refl, arith}
use webhook_broker.Data.{DeliveryJob}
use webhook_broker.Storage.Tables.{JobRow, Tables}
use webhook_broker.Storage.Transactions.{Error, Database, single_row_write}
use webhook_broker.Storage.Jobs.{
  update_jobs, after_write, update_job_status, mark_job_inflight, mark_job_delivered, mark_job_dead,
  mark_job_retry,
}
use webhook_broker.Storage.Counts.{count_update_same}
use webhook_broker.Storage.Ownership.{owned}

module _ (k : String) where
  kept :
      (t : Tables) (d d' : DeliveryJob) (w : Tables × Option Error)
      → owned k w.0 ≡ owned k t
      → owned k (after_write d d' w).0 ≡ owned k t
  kept t d d' (u, none) h = h
  kept t d d' (u, some e) h = h

  module _ (db : Database) (t : Tables) (p : JobRow → Bool) (f : JobRow → JobRow) where
    update_jobs-owned :
        ((r : JobRow) → str_eq (f r).id k ≡ str_eq r.id k)
        → owned k (single_row_write db (update_jobs p f) t).0 ≡ owned k t
    unfolding single_row_write update_jobs owned
    update_jobs-owned same =
        ground (arith, count_update_same (λ (r : JobRow). str_eq r.id k) p f same t.job)

  module _ (db : Database) (now : ℕ) (t : Tables) (d : DeliveryJob) where
    pub mark_job_inflight-owned : owned k (mark_job_inflight db now t d).0 ≡ owned k t
    unfolding mark_job_inflight
    mark_job_inflight-owned = kept t d _ _ (update_jobs-owned db t _ _ (λ r. refl))

    pub mark_job_delivered-owned : owned k (mark_job_delivered db now t d).0 ≡ owned k t
    unfolding mark_job_delivered update_job_status
    mark_job_delivered-owned = kept t d _ _ (update_jobs-owned db t _ _ (λ r. refl))

    pub mark_job_dead-owned : owned k (mark_job_dead db now t d).0 ≡ owned k t
    unfolding mark_job_dead update_job_status
    mark_job_dead-owned = kept t d _ _ (update_jobs-owned db t _ _ (λ r. refl))

    pub mark_job_retry-owned : (delta : ℕ) → owned k (mark_job_retry db now t d delta).0 ≡ owned k t
    unfolding mark_job_retry
    mark_job_retry-owned delta = kept t d _ _ (update_jobs-owned db t _ _ (λ r. refl))
