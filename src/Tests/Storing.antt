-- ===== src/Tests/Storing.antt =====
-- The repositories at a queued and a parked job of one consumer.
use webhook_broker.Base.{
  ℕ, String, Bool, true, false, ◌⊎◌, [], ◌∷◌, not, str_eq, ◌≤◌, ◌&&◌, Option, none, some, ◌≡◌, ◌≢◌,
  refl,
}
use webhook_broker.Data.{DeliveryJob, Message, message_is_valid}
use webhook_broker.Storage.Dispatch.{set_dispatched_object, dispatch_message_with_parking}
use webhook_broker.Storage.Dispatched.{dispatch_message_with_parking_atomic}
use webhook_broker.Storage.Tables.{JobRow, Tables, count_where, update_where, effectively_paused}
use webhook_broker.Storage.Transactions.{
  Error, db_error, already_locked, invalid_state_to_save, Database, TxResult, fail, healthy,
  in_transaction_exec, transactional_operations, run_ops, transactional_writes, single_row_write,
}
use webhook_broker.Storage.Jobs.{update_jobs, mark_job_inflight, mark_job_delivered}
use webhook_broker.Storage.Parking.{repark_queued_job, drain_page}
use webhook_broker.Storage.Locks.{
  holders, normalize_lock_error, try_lock, insert_lock, try_lock-exclusive,
}
use webhook_broker.Storage.Handout.{mark_job_inflight-once, mark_job_inflight-paused}
use webhook_broker.Storage.Ownership.{owned, repark_queued_job-owned, drain_page-owned}
use webhook_broker.Storage.Lifecycle.{
  delivered, Writes, here, next, starts, delivers, Writes-delivered,
}
use webhook_broker.Tests.Values.{stored, a_job, a_lock, some_tables, paused_tables}

abbrev started : Tables × DeliveryJob × Option Error
started = mark_job_inflight healthy 20 some_tables a_job

has_started : started ≡ (started.0, started.1, none)
unfolding mark_job_inflight update_jobs single_row_write transactional_writes
    transactional_operations run_ops in_transaction_exec count_where update_where effectively_paused
has_started = refl

one_row : count_where (λ (r : JobRow). str_eq r.id a_job.base.id) some_tables.job ≡ 1
unfolding count_where
one_row = refl

mark_job_inflight-once_example :
    (x : Error) × (mark_job_inflight healthy 30 started.0 a_job ≡ (started.0, a_job, some x))
mark_job_inflight-once_example =
    mark_job_inflight-once healthy healthy 20 30 some_tables started.0 a_job started.1 a_job one_row
      refl has_started

all_paused :
    count_where
      (λ (r : JobRow).
        str_eq r.id a_job.base.id
        && not (effectively_paused paused_tables.dispatch_pause r.consumer_id))
      paused_tables.job
    ≡ 0
unfolding count_where effectively_paused
all_paused = refl

mark_job_inflight-paused_example : (mark_job_inflight healthy 20 paused_tables a_job).2 ≢ none
mark_job_inflight-paused_example =
    mark_job_inflight-paused healthy 20 paused_tables a_job all_paused

abbrev broken : Database
broken = record healthy { exec_fails = λ i. true }

refused : (mark_job_inflight broken 20 some_tables a_job).2 ≡ some db_error
unfolding mark_job_inflight update_jobs single_row_write transactional_writes
    transactional_operations run_ops in_transaction_exec
refused = refl

repark_queued_job-owned_example :
    owned "j1" (repark_queued_job healthy 30 paused_tables a_job).0 ≡ owned "j1" paused_tables
repark_queued_job-owned_example = repark_queued_job-owned healthy 30 paused_tables a_job "j1"

drain_page-owned_example :
    owned "j2" (drain_page healthy "c1" 10 30 90 some_tables).0 ≡ owned "j2" some_tables
drain_page-owned_example = drain_page-owned healthy "c1" 10 30 90 some_tables "j2"

abbrev sent : Tables
sent = (mark_job_delivered healthy 40 started.0 started.1).0

sent-Writes : Writes some_tables sent
sent-Writes = next healthy (next healthy here (starts 20 a_job)) (delivers 40 started.1)

Writes-delivered_example : delivered "j1" some_tables ≤ delivered "j1" sent
Writes-delivered_example = Writes-delivered some_tables sent "j1" sent-Writes

abbrev locked : Tables
locked = record some_tables { lock = a_lock ∷ [] }

has_locked : try_lock healthy some_tables (some a_lock) ≡ (locked, none)
unfolding try_lock normalize_lock_error holders single_row_write transactional_writes
    transactional_operations run_ops in_transaction_exec count_where
has_locked = refl

try_lock-exclusive_example : try_lock healthy locked (some a_lock) ≡ (locked, some already_locked)
try_lock-exclusive_example =
    try_lock-exclusive healthy healthy some_tables locked a_lock a_lock refl has_locked refl refl

abbrev failing : Tables → TxResult
failing t = fail db_error

failed : (transactional_operations healthy failing some_tables).1 ≡ some db_error
unfolding transactional_operations
failed = refl

inserted : single_row_write healthy (insert_lock a_lock) some_tables ≡ (locked, none)
unfolding single_row_write transactional_writes transactional_operations run_ops in_transaction_exec
    holders count_where
inserted = refl

abbrev unstored : Message
unstored = record {
  base = stored "m9";
  message_id = "";
  payload = "";
  content_type = "";
  priority = 0;
  status = 0;
  broadcasted_to = none;
  produced_by = none;
  received_at = 0;
  outboxed_at = 0;
  headers = [];
}

abbrev any_url : String → Bool
any_url s = true

abbrev at_five : ℕ → ℕ
at_five i = 5

rejected :
    (dispatch_message_with_parking healthy any_url at_five some_tables unstored [] (a_job ∷ [])).3
    ≡ some invalid_state_to_save
unfolding dispatch_message_with_parking message_is_valid
rejected = refl

dispatch_message_with_parking_atomic_example :
    let out =
      dispatch_message_with_parking healthy any_url at_five some_tables unstored [] (a_job ∷ []) in
    (out.0 ≡ some_tables)
    × (out.2 ≡ a_job ∷ [])
    × ((out.1 ≡ unstored)
        ⊎ ((out.1 ≡ set_dispatched_object healthy unstored (at_five 1)) × (false ≡ true)))
dispatch_message_with_parking_atomic_example =
    dispatch_message_with_parking_atomic healthy any_url at_five some_tables unstored []
      (a_job ∷ []) invalid_state_to_save rejected
