-- ===== src/Controllers/DeadJobs.antt =====
-- controllers/job.go and controllers/dlqdelete.go: requeuing and deleting dead jobs; and
-- controllers/internaljobs.go: the hand-off's request. `jobs` is GetByID of the job repository. The
-- summary's counts by consumer are `dead_counts`, which a deletion decrements, but not below 0; that
-- write is taken to succeed, and the gauge beside it is left out.
use webhook_broker.Base.{
  ℕ, ◌+◌, ◌-◌, String, not, ◌==◌, ltb, str_eq, if◌then◌else◌, Option, none, some, List, length,
  is_some,
}
use webhook_broker.Data.{Consumer, DeliveryJob, job_dead}
use webhook_broker.Storage.Tables.{Tables}
use webhook_broker.Storage.Transactions.{Database}
use webhook_broker.Storage.DeadJobs.{
  requeue_dead_job, delete_dead_jobs_for_consumer, delete_dead_job,
}
use webhook_broker.Controllers.Access.{
  Request, Directory, granted, refused, get_channel_consumer_with_auth, get_job_with_validation,
  check_admin_token,
}

pub record DeadNode : Type 0 where
  pub tables : Tables
  pub dead_counts : String → ℕ

-- DecrementCount
abbrev pub decrement : String → ℕ → DeadNode → DeadNode
decrement id n node = record node {
  dead_counts = λ j. if str_eq id j then node.dead_counts j - n else node.dead_counts j;
}

module _ (db : Database) (now max_retry : ℕ) (dir : Directory) (r : Request) (node : DeadNode) where
  -- Post of the JobRequeueController.
  unfoldable pub post_requeue : (String → Option DeliveryJob) → String → DeadNode × ℕ
  unfolding get_job_with_validation requeue_dead_job
  post_requeue jobs id = elim (get_job_with_validation dir r jobs id) [
    | refused status ↦ (node, status)
    | granted d ↦
        let (t, n, err) = requeue_dead_job db node.tables now d.base.id in
        if not (d.status == job_dead)
        then (node, 400)
        else (record node { tables = t }, if is_some err then 500 else 202)
  ]

  -- Delete of the DLQPurgeController.
  unfoldable pub purge_dead_jobs : DeadNode × ℕ
  unfolding get_channel_consumer_with_auth delete_dead_jobs_for_consumer
  purge_dead_jobs = elim (get_channel_consumer_with_auth dir r) [
    | refused status ↦ (node, status)
    | granted c ↦
        let id = c.stakeholder.base.id in
        let (t, n, err) = delete_dead_jobs_for_consumer db node.tables id max_retry in
        let purged = record node { tables = t } in
        if is_some err
        then (purged, 500)
        else (if ltb 0 n then decrement id n purged else purged, 200)
  ]

  -- Delete of the DeadJobDeleteController, once the job is found to be the consumer's.
  unfoldable pub delete_found : Consumer → DeliveryJob → DeadNode × ℕ
  unfolding delete_dead_job
  delete_found c d =
      let (t, n, err) = delete_dead_job db node.tables d.base.id max_retry in
      let purged = record node { tables = t } in
      if not (d.status == job_dead)
      then (node, 404)
      else if is_some err
      then (purged, 500)
      else if n == 0
      then (purged, 404)
      else (decrement c.stakeholder.base.id n purged, 204)

  unfoldable pub delete_dead_job_request : (String → Option DeliveryJob) → String → DeadNode × ℕ
  unfolding get_channel_consumer_with_auth delete_found
  delete_dead_job_request jobs id = elim (get_channel_consumer_with_auth dir r) [
    | refused status ↦ (node, status)
    | granted c ↦ elim (jobs id) [
      | none ↦ (node, 404)
      | some d ↦ elim d.listener [
        | none ↦ (node, 404)
        | some l ↦
            if not (str_eq l.consumer_id c.consumer_id) then (node, 404) else delete_found c d
      ]
    ]
  ]

-- Post of the InternalJobEnqueueController: a node, and how it enqueues; `body` is the ids, `queued` is
-- GetQueuedJobsByIDs, each `none` for an error, and `depth` is the node's queue depth.
module _ {N : Type 0} (token : String) (page_size high_water_mark depth : ℕ)
    (queued : List String → Option (List DeliveryJob)) (enqueue : List DeliveryJob → N × ℕ) where
  unfoldable pub post_enqueue : Request → Option (List String) → N → N × ℕ × ℕ
  unfolding check_admin_token
  post_enqueue r body node = elim (check_admin_token token r) [
    | some status ↦ (node, status, 0)
    | none ↦ elim body [
      | none ↦ (node, 400, 0)
      | some ids ↦
          if ltb page_size (length ids)
          then (node, 400, 0)
          else if ltb high_water_mark (depth + length ids)
          then (node, 503, 0)
          else elim (queued ids) [
            | none ↦ (node, 500, 0)
            | some jobs ↦ let (after, accepted) = enqueue jobs in (after, 202, accepted)
          ]
    ]
  ]
