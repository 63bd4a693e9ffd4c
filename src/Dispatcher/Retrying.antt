-- ===== src/Dispatcher/Retrying.antt =====
-- dispatcher/msgdispatcher.go: Dispatch and retryQueuedJobs, on a node.
-- `pages` and `failed` are what the consumers' list gives to createJobs; `jobs` is what
-- GetJobsReadyForInflightSince returns, and `held` is isHeld of the scheduler. A nil listener panics:
-- Dispatch then gives `none`, and retryQueuedJobs, which recovers, ends where it is.
use Prim.Native.String.{◌++◌ as text_append}
use webhook_broker.Base.{
  ℕ, suc, ◌+◌, String, Bool, not, ◌==◌, leb, if◌then◌else◌, Option, none, some, List, [], ◌∷◌,
  length,
}
use webhook_broker.Data.{Clock, DeliveryJob, Message, Consumer, message_is_valid, pull_consumer}
use webhook_broker.Storage.Transactions.{Database, Error}
use webhook_broker.Storage.Jobs.{mark_queued_job_as_dead}
use webhook_broker.Storage.Dispatch.{dispatch_message_with_parking}
use webhook_broker.Dispatcher.Pause.{PauseRegistry}
use webhook_broker.Dispatcher.Dispatching.{
  Node, create_jobs, split_paused_jobs, queue_job, in_lock_run,
}

-- GetLockID of a job.
abbrev pub job_lock_id : DeliveryJob → String
job_lock_id d = text_append "dj-" d.base.id

module _ (db : ℕ → Database) (now : ℕ → ℕ) (registry : PauseRegistry) where
  unfoldable pub queue_all : Node → List DeliveryJob → Option Node
  unfolding queue_job
  queue_all n [] = some n
  queue_all n (d ∷ ds) = elim (queue_job db now registry n d) [
    | none ↦ none
    | some m ↦ queue_all m ds
  ]

  -- Dispatch; `stamp` has the clock of the i-th new job, and `insert_clock` that of the transaction.
  unfoldable pub dispatch :
      (String → Bool)
      → (ℕ → Clock)
      → (ℕ → String)
      → Clock
      → List (List Consumer)
      → Bool
      → Node
      → Option Message
      → Option Node
  unfolding create_jobs split_paused_jobs dispatch_message_with_parking queue_all
  dispatch absolute stamp fresh insert_clock pages failed n none = some n
  dispatch absolute stamp fresh insert_clock pages failed n (some m) =
      if not (message_is_valid m)
      then some n
      else elim (create_jobs absolute stamp fresh m pages failed) [
        | none ↦ some n
        | some jobs ↦
            let (active, parked) = split_paused_jobs registry jobs in
            let (t, dispatched, parked', err) =
              dispatch_message_with_parking (db n.calls) absolute insert_clock n.tables m active
                parked in
            elim err [
              | some e ↦ some (record n { tables = t; calls = suc n.calls })
              | none ↦
                  queue_all
                    (record n {
                      tables = t;
                      calls = suc n.calls;
                      parked_jobs_total = n.parked_jobs_total + length parked';
                    })
                    active
            ]
      ]

  module _ (max_retry : ℕ) (held : DeliveryJob → Bool) where
    -- What is run under the lock of a job of a pull consumer, and of a push consumer.
    unfoldable pub kill_queued : DeliveryJob → Node → Node × Option Error
    unfolding mark_queued_job_as_dead
    kill_queued d n =
        let (t, d', err) = mark_queued_job_as_dead (db n.calls) (now n.calls) n.tables d in
        (record n { tables = t; calls = suc n.calls }, err)

    unfoldable pub queue_again : DeliveryJob → Node → Node × Option Error
    unfolding queue_job
    queue_again d n = elim (queue_job db now registry n d) [ none ↦ (n, none) | some m ↦ (m, none) ]

    unfoldable pub retry_one : Node → DeliveryJob → Consumer → Node
    unfolding kill_queued queue_again in_lock_run
    retry_one n d c =
        if c.consumer_type == pull_consumer
        then (if leb max_retry d.retry_attempt_count
            then (in_lock_run db now n (some (job_lock_id d)) (kill_queued d)).0
            else n)
        else if held d
        then n
        else (in_lock_run db now n (some (job_lock_id d)) (queue_again d)).0

    unfoldable pub retry_queued_jobs : Node → List DeliveryJob → Node
    unfolding retry_one
    retry_queued_jobs n [] = n
    retry_queued_jobs n (d ∷ ds) = elim d.listener [
      | none ↦ n
      | some c ↦ retry_queued_jobs (retry_one n d c) ds
    ]
