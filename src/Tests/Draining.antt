-- ===== src/Tests/Draining.antt =====
-- The drainer at tables where one job of a push consumer is parked.
use webhook_broker.Base.{
  ◌<◌, String, true, false, [], ◌∷◌, none, some, ◌≡◌, refl, arith, str_eq, if◌then◌else◌,
}
use webhook_broker.Storage.Tables.{count_where, delete_where, update_where, effectively_paused}
use webhook_broker.Storage.Transactions.{
  healthy, in_transaction_exec, transactional_operations, run_ops, transactional_writes,
}
use webhook_broker.Storage.Rows.{insert_job, insert_jobs}
use webhook_broker.Storage.Locks.{holders, renew_lock}
use webhook_broker.Storage.Parking.{
  drain_page, drain_op, drain_page_rows, order_rows, insert_ordered, of_consumer,
}
use webhook_broker.Storage.Ownership.{owned}
use webhook_broker.Parking.Handoff.{saturated, submit}
use webhook_broker.Parking.Drainer.{
  Drainer, Surroundings, RunSurroundings, hand_off, drain_for, visit_consumer, round,
  drain_round_robin, run_once,
}
use webhook_broker.Parking.Draining.{parked}
use webhook_broker.Parking.Runs.{run_once-ends}
use webhook_broker.Parking.Liveness.{drain_round_robin-drained}
use webhook_broker.Tests.Values.{a_consumer, a_job, a_lock, some_tables}

abbrev a_drainer : Drainer
a_drainer = record {
  tables = record some_tables { lock = a_lock ∷ [] };
  handoff = record {
    cfg = record { http_enabled = false; max_attempts = 1; concurrency = 1; local_fallback = true };
    pending = [];
    closed = false;
  };
  lock = some a_lock;
  drained_jobs_total = 0;
  last_count_refresh = 0;
  parked_job_count = λ ch c. none;
  logged_errors = 0;
}

abbrev quiet : Surroundings
quiet = record {
  stopping = λ n. false;
  taken = λ n. 1;
  now = λ n. 50;
  drain_db = λ n. healthy;
  renew_db = λ n. healthy;
  consumers = λ n id. if str_eq id "c1" then some a_consumer else none;
  populate = λ n rows. some (a_job ∷ []);
}

abbrev at_start : RunSurroundings
at_start = record {
  lists = true;
  at = 40;
  counts = some [];
  lock_db = healthy;
  release_db = healthy;
}

one_parked : parked a_drainer.tables < 2
unfolding parked count_where
one_parked = omega arith

run_once-ends_example :
    (d' : Drainer) × (run_once 10 5 at_start quiet 2 a_drainer ≡ some d')
    × ((k : String) → owned k d'.tables ≡ owned k a_drainer.tables)
run_once-ends_example = run_once-ends 10 5 at_start quiet 2 a_drainer one_parked

abbrev after_drain : Drainer
after_drain = elim (drain_round_robin 10 5 quiet 2 ("c1" ∷ []) 0 a_drainer) [
  | none ↦ a_drainer
  | some (held, d) ↦ d
]

drains : drain_round_robin 10 5 quiet 2 ("c1" ∷ []) 0 a_drainer ≡ some (true, after_drain)
unfolding drain_round_robin round visit_consumer drain_for hand_off drain_page drain_op
    drain_page_rows order_rows insert_ordered transactional_operations transactional_writes run_ops
    in_transaction_exec insert_jobs insert_job count_where delete_where update_where
    effectively_paused renew_lock holders saturated submit
drains = refl

unsaturated : saturated after_drain.handoff ≡ false
unfolding drain_round_robin round visit_consumer drain_for hand_off drain_page drain_op
    drain_page_rows order_rows insert_ordered transactional_operations transactional_writes run_ops
    in_transaction_exec insert_jobs insert_job count_where delete_where update_where
    effectively_paused renew_lock holders saturated submit
unsaturated = refl

no_errors : after_drain.logged_errors ≡ a_drainer.logged_errors
unfolding drain_round_robin round visit_consumer drain_for hand_off drain_page drain_op
    drain_page_rows order_rows insert_ordered transactional_operations transactional_writes run_ops
    in_transaction_exec insert_jobs insert_job count_where delete_where update_where
    effectively_paused renew_lock holders saturated submit
no_errors = refl

free : effectively_paused a_drainer.tables.dispatch_pause "c1" ≡ false
unfolding effectively_paused
free = refl

drain_round_robin-drained_example :
    count_where (of_consumer "c1") after_drain.tables.job_parking ≡ 0
drain_round_robin-drained_example =
    drain_round_robin-drained 10 5 quiet "c1" refl 2 ("c1" ∷ []) 0 a_drainer after_drain drains
      (λ n. refl) unsaturated no_errors free refl
