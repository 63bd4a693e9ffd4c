-- ===== src/Data/Jobs.antt =====
-- storage/data/job.go. JobStatus is an int: JobQueued is 1001, and JobParked 1100.
use webhook_broker.Base.{
  ℕ, String, Bool, false, ◌&&◌, ◌||◌, not, ◌==◌, if◌then◌else◌, Option, none, some,
}
use webhook_broker.Data.Clocks.{Clock, BasePaginateable, base_quick_fix, is_zero, nil_id}
use webhook_broker.Data.Stakeholders.{Consumer, consumer_ref_is_valid}
use webhook_broker.Data.Messages.{Message, message_is_valid}

abbrev pub job_queued : ℕ
job_queued = 1001

abbrev pub job_inflight : ℕ
job_inflight = 1002

abbrev pub job_delivered : ℕ
job_delivered = 1003

abbrev pub job_dead : ℕ
job_dead = 1004

abbrev pub job_parked : ℕ
job_parked = 1100

pub record DeliveryJob : Type 0 where
  pub base : BasePaginateable
  pub message : Option Message
  pub listener : Option Consumer
  pub status : ℕ
  pub status_changed_at : ℕ
  pub dispatch_received_at : ℕ
  pub earliest_next_attempt_at : ℕ
  pub retry_attempt_count : ℕ
  pub priority : ℕ
  pub incremental_timeout : ℕ

-- The statuses that may be written to the job table.
abbrev pub is_persisted_status : ℕ → Bool
is_persisted_status s =
    s == job_queued || (s == job_inflight || (s == job_delivered || s == job_dead))

abbrev pub is_job_status : ℕ → Bool
is_job_status s = is_persisted_status s || s == job_parked

unfoldable pub job_quick_fix : Clock → String → DeliveryJob → DeliveryJob × Bool
unfolding base_quick_fix
job_quick_fix now fresh j =
    let (base, base_changed) = base_quick_fix now fresh j.base in
    let unreceived = is_zero j.dispatch_received_at in
    let received = if unreceived then now 2 else j.dispatch_received_at in
    let earliest = if unreceived then now 3 else j.earliest_next_attempt_at in
    (
      record j {
        base = base;
        dispatch_received_at = received;
        status_changed_at = if is_zero j.status_changed_at then now 4 else j.status_changed_at;
        earliest_next_attempt_at = if is_zero earliest then received else earliest;
        status = if is_job_status j.status then j.status else job_queued;
      },
      base_changed
          || (unreceived
              || (is_zero j.status_changed_at
                  || (is_zero earliest || not (is_job_status j.status)))),
    )

unfoldable pub message_ref_is_valid : Option Message → Bool
message_ref_is_valid none = false
message_ref_is_valid (some m) = message_is_valid m

unfoldable pub job_is_valid : (String → Bool) → DeliveryJob → Bool
job_is_valid absolute j =
    message_ref_is_valid j.message
    && (consumer_ref_is_valid absolute j.listener
        && (is_persisted_status j.status
            && not (
                is_zero j.dispatch_received_at
                || (is_zero j.status_changed_at || is_zero j.earliest_next_attempt_at))))

-- NewDeliveryJob; the Boolean is `err != nil`.
unfoldable pub new_delivery_job :
    (String → Bool) → Clock → String → Option Message → Option Consumer → DeliveryJob × Bool
unfolding job_quick_fix job_is_valid
new_delivery_job absolute now fresh msg consumer =
    let j =
      (job_quick_fix now fresh (record {
        base = record { id = nil_id; created_at = 0; updated_at = 0 };
        message = msg;
        listener = consumer;
        status = 0;
        status_changed_at = 0;
        dispatch_received_at = 0;
        earliest_next_attempt_at = 0;
        retry_attempt_count = 0;
        priority = elim msg [ none ↦ 0 | some m ↦ m.priority ];
        incremental_timeout = 0;
      })).0 in
    (j, not (job_is_valid absolute j))

-- String of a JobStatus; `itoa` is strconv.Itoa.
unfoldable pub job_status_text : (ℕ → String) → ℕ → String
job_status_text itoa s =
    if s == job_queued
    then "QUEUED"
    else if s == job_inflight
    then "INFLIGHT"
    else if s == job_delivered
    then "DELIVERED"
    else if s == job_dead
    then "DEAD"
    else if s == job_parked
    then "PARKED"
    else itoa s
