-- ===== src/Tests/Delivering.antt =====
-- The workers and the dispatching at a job of one consumer.
use webhook_broker.Base.{
  ℕ, suc, ◌+◌, ◌≤◌, str_eq, false, ◌==◌, Option, none, some, List, [], ◌∷◌, ◌≡◌, refl, arith,
}
use webhook_broker.Data.{DeliveryJob}
use webhook_broker.Storage.Tables.{JobRow, Tables, count_where, update_where, effectively_paused}
use webhook_broker.Storage.Transactions.{
  Database, Error, healthy, in_transaction_exec, transactional_operations, run_ops,
  transactional_writes, single_row_write,
}
use webhook_broker.Storage.Jobs.{update_jobs, may_start, mark_job_inflight, mark_job_retry}
use webhook_broker.Storage.Locks.{holders}
use webhook_broker.Storage.Ownership.{owned}
use webhook_broker.Dispatcher.Backoff.{compute_earliest_delta}
use webhook_broker.Dispatcher.Worker.{
  returned, Delivery, execute_job, settle_attempt, delivery_of, deliver_job, deliver_job-max_retry,
}
use webhook_broker.Dispatcher.Settling.{settled, end_of, deliver_job-settled}
use webhook_broker.Dispatcher.Delivery.{deliver_job-owned}
use webhook_broker.Dispatcher.Dispatching.{Node, enqueue_jobs, in_lock_run}
use webhook_broker.Dispatcher.Queueing.{Grew, enqueue_jobs-Grew}
use webhook_broker.Dispatcher.Exclusion.{in_lock_run-held}
use webhook_broker.Tests.Values.{a_job, a_lock, some_tables, paused_tables, a_registry}

abbrev each_healthy : ℕ → Database
each_healthy i = healthy

abbrev clock : ℕ → ℕ
clock i = 20 + i

abbrev delays : List ℕ
delays = 5 ∷ 30 ∷ []

-- The consumer answers 500, and the job waits for its second attempt.
abbrev started : Tables × DeliveryJob × Option Error
started = mark_job_inflight healthy (clock 0) some_tables a_job

abbrev delivery : Delivery
delivery = delivery_of (mark_job_retry healthy (clock 1) started.0 started.1 5)

has_retried :
    deliver_job each_healthy clock 3 delays (returned (some 500)) some_tables a_job ≡ some delivery
unfolding deliver_job settle_attempt execute_job compute_earliest_delta mark_job_inflight
    update_jobs single_row_write transactional_writes transactional_operations run_ops
    in_transaction_exec count_where update_where effectively_paused
has_retried = refl

deliver_job-owned_example : owned "j1" delivery.tables ≡ owned "j1" some_tables
deliver_job-owned_example =
    deliver_job-owned each_healthy clock 3 delays "j1" (returned (some 500)) some_tables a_job
      delivery has_retried

may_start_one : count_where (may_start healthy (clock 0) some_tables a_job) some_tables.job ≡ 1
unfolding count_where effectively_paused
may_start_one = refl

has_one_row : count_where (λ (r : JobRow). str_eq r.id "j1") some_tables.job ≡ 1
unfolding count_where
has_one_row = refl

deliver_job-settled_example :
    let (status, retries) = end_of (returned (some 500)) 3 a_job in
    (count_where (settled a_job status retries) delivery.tables.job ≡ 1)
    × (delivery.job.status ≡ status)
    × (delivery.job.retry_attempt_count ≡ retries)
deliver_job-settled_example =
    deliver_job-settled each_healthy clock 3 delays (returned (some 500)) some_tables a_job delivery
      has_retried (refl, refl, refl) (refl, refl, refl) has_one_row may_start_one

deliver_job-max_retry_example : delivery.job.retry_attempt_count ≤ 3
deliver_job-max_retry_example =
    deliver_job-max_retry each_healthy clock 3 delays (returned (some 500)) some_tables a_job
      delivery has_retried (omega arith)

abbrev a_node : Node
a_node = record { tables = paused_tables; queued = []; parked_jobs_total = 0; calls = 0 }

enqueue_jobs-Grew_example :
    let (m, enqueued) =
      enqueue_jobs each_healthy clock a_registry a_node (some a_job ∷ none ∷ []) in
    Grew a_node m enqueued
enqueue_jobs-Grew_example =
    enqueue_jobs-Grew each_healthy clock a_registry a_node (some a_job ∷ none ∷ [])

abbrev locked_node : Node
locked_node = record a_node { tables = record paused_tables { lock = a_lock ∷ [] } }

is_locked : (holders "drain" locked_node.tables == 0) ≡ false
unfolding holders count_where
is_locked = refl

abbrev no_work : Node → Node × Option Error
no_work n = (n, none)

in_lock_run-held_example :
    in_lock_run each_healthy clock locked_node (some "drain") no_work
    ≡ (record locked_node { calls = suc locked_node.calls }, none)
in_lock_run-held_example = in_lock_run-held clock locked_node "drain" no_work is_locked
