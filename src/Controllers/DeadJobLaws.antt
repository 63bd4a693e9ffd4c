-- ===== src/Controllers/DeadJobLaws.antt =====
-- The requests on dead jobs write by the job repository alone, controllers/job.go and dlqdelete.go.
use webhook_broker.Base.{
  ℕ, ◌≤◌, String, ◌==◌, Option, ◌≡◌, refl, sym, subst, arith, inl, inr, Bool-cases, Option-cases,
  str_eq,
}
use webhook_broker.Data.{Consumer, DeliveryJob, job_dead}
use webhook_broker.Storage.Tables.{Tables}
use webhook_broker.Storage.Transactions.{Database}
use webhook_broker.Storage.DeadJobs.{
  requeue_dead_job, delete_dead_jobs_for_consumer, delete_dead_job,
}
use webhook_broker.Storage.Lifecycle.{
  Writes, here, next, requeues, deletes, deletes_all, delivered, Writes-delivered,
}
use webhook_broker.Controllers.Access.{
  Request, Directory, Access, granted, refused, get_channel_consumer_with_auth,
  get_job_with_validation,
}
use webhook_broker.Controllers.DeadJobs.{
  DeadNode, post_requeue, purge_dead_jobs, delete_found, delete_dead_job_request,
}

module _ (db : Database) (now max_retry : ℕ) (dir : Directory) (r : Request) (node : DeadNode) where
  purge_dead_jobs-Writes : Writes node.tables (purge_dead_jobs db now max_retry dir r node).0.tables
  unfolding purge_dead_jobs
  purge_dead_jobs-Writes = go (get_channel_consumer_with_auth dir r) refl
    where
      after : Tables
      after = (purge_dead_jobs db now max_retry dir r node).0.tables

      go :
          (a : Access Consumer)
          → get_channel_consumer_with_auth dir r ≡ a
          → Writes node.tables after
      go (refused status) e =
          let same : after ≡ node.tables = ground arith in
          subst (Writes node.tables) (sym same) here
      go (granted c) e =
          let id = c.stakeholder.base.id in
          let same : after ≡ (delete_dead_jobs_for_consumer db node.tables id max_retry).0 =
            ground arith in
          subst (Writes node.tables) (sym same) (next db here (deletes_all id max_retry))

  module _ (jobs : String → Option DeliveryJob) (id : String) where
    post_requeue-Writes :
        Writes node.tables (post_requeue db now max_retry dir r node jobs id).0.tables
    unfolding post_requeue
    post_requeue-Writes = go (get_job_with_validation dir r jobs id) refl
      where
        after : Tables
        after = (post_requeue db now max_retry dir r node jobs id).0.tables

        go :
            (a : Access DeliveryJob)
            → get_job_with_validation dir r jobs id ≡ a
            → Writes node.tables after
        go (refused status) e =
            let same : after ≡ node.tables = ground arith in
            subst (Writes node.tables) (sym same) here
        go (granted d) e = elim (Bool-cases (d.status == job_dead)) [
          | inr other ↦
              let same : after ≡ node.tables = ground arith in
              subst (Writes node.tables) (sym same) here
          | inl dead ↦
              let same : after ≡ (requeue_dead_job db node.tables now d.base.id).0 = ground arith in
              subst (Writes node.tables) (sym same) (next db here (requeues now d.base.id))
        ]

    delete_found-Writes :
        (c : Consumer) (d : DeliveryJob)
        → Writes node.tables (delete_found db now max_retry dir r node c d).0.tables
    unfolding delete_found
    delete_found-Writes c d =
        let after = (delete_found db now max_retry dir r node c d).0.tables in
        elim (Bool-cases (d.status == job_dead)) [
          | inr other ↦
              let same : after ≡ node.tables = ground arith in
              subst (Writes node.tables) (sym same) here
          | inl dead ↦
              let same : after ≡ (delete_dead_job db node.tables d.base.id max_retry).0 =
                ground arith in
              subst (Writes node.tables) (sym same) (next db here (deletes d.base.id max_retry))
        ]

    delete_dead_job_request-Writes :
        Writes node.tables (delete_dead_job_request db now max_retry dir r node jobs id).0.tables
    unfolding delete_dead_job_request
    delete_dead_job_request-Writes = go (get_channel_consumer_with_auth dir r) refl
      where
        after : Tables
        after = (delete_dead_job_request db now max_retry dir r node jobs id).0.tables

        left : after ≡ node.tables → Writes node.tables after
        left same = subst (Writes node.tables) (sym same) here

        go :
            (a : Access Consumer)
            → get_channel_consumer_with_auth dir r ≡ a
            → Writes node.tables after
        go (refused status) e = left (ground arith)
        go (granted c) e = elim (Option-cases (jobs id)) [
          | inl f ↦ left (ground arith)
          | inr (d, f) ↦ elim (Option-cases d.listener) [
            | inl g ↦ left (ground arith)
            | inr (l, g) ↦ elim (Bool-cases (str_eq l.consumer_id c.consumer_id)) [
              | inr other ↦ left (ground arith)
              | inl own ↦
                  let same : after ≡ (delete_found db now max_retry dir r node c d).0.tables =
                    ground arith in
                  subst (Writes node.tables) (sym same) (delete_found-Writes c d)
            ]
          ]
        ]

    -- No request to requeue, to purge or to delete dead jobs takes a row from a delivered job.
    pub dead_job_requests-delivered :
        (k : String)
        → (delivered k node.tables
            ≤ delivered k (post_requeue db now max_retry dir r node jobs id).0.tables)
          × (delivered k node.tables
              ≤ delivered k (purge_dead_jobs db now max_retry dir r node).0.tables)
          × (delivered k node.tables
              ≤ delivered k (delete_dead_job_request db now max_retry dir r node jobs id).0.tables)
    dead_job_requests-delivered k = (
      Writes-delivered node.tables (post_requeue db now max_retry dir r node jobs id).0.tables k
          post_requeue-Writes,
      Writes-delivered node.tables (purge_dead_jobs db now max_retry dir r node).0.tables k
          purge_dead_jobs-Writes,
      Writes-delivered node.tables
          (delete_dead_job_request db now max_retry dir r node jobs id).0.tables k
          delete_dead_job_request-Writes,
    )
