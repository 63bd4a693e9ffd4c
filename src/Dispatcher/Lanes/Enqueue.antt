-- ===== src/Dispatcher/Lanes/Enqueue.antt =====
-- dispatcher/lanes.go: enqueue.
use webhook_broker.Base.{
  ℕ, suc, String, Bool, true, false, ◌&&◌, not, ltb, if◌then◌else◌, Option, none, some, [], lookup,
  insert, update,
}
use webhook_broker.Data.{DeliveryJob, Consumer}
use webhook_broker.Dispatcher.Queue.{Job, HeapPackage}
use webhook_broker.Dispatcher.Lanes.State.{
  Scheduler, Held, inc, at_label, lane_key, lane_channel, put_lane, mark_ready, signal,
}

-- The data of a held copy that waits and is out of date is replaced in place.
unfoldable pub refresh : Scheduler → Held → DeliveryJob → Scheduler
refresh s held d =
    if not held.running && ltb (s.data_of held.ptr).retry_attempt_count d.retry_attempt_count
    then record s { data_of = update s.data_of held.ptr d }
    else s

-- The lane of the key, made when there is none.
unfoldable pub lane_for : (String → String → ℕ) → Scheduler → String → String → Scheduler × ℕ
lane_for limit_for s channel consumer =
    let key = lane_key channel consumer in
    elim (lookup key s.lanes) [
      | some a ↦ (s, a)
      | none ↦ (
        record (put_lane s s.fresh_lane (record {
          key = key;
          channel_id = channel;
          consumer_id = consumer;
          queue = [];
          inflight = 0;
          limit = limit_for channel consumer;
          ready = false;
        })) { lanes = insert key s.fresh_lane s.lanes; fresh_lane = suc s.fresh_lane },
        s.fresh_lane,
      )
    ]

module _ (heap : HeapPackage) where
  -- The job enters the lane at `a`, with the next number.
  unfoldable pub push_job : Scheduler → String → String → ℕ → ℕ → ℕ → Scheduler
  push_job s channel consumer a ptr priority =
      let l = s.lane_at a in
      let seq = suc s.seq in
      let job : Job = record { ptr = ptr; priority = priority; seq = seq } in
      let pushed = put_lane s a (record l { queue = heap.push l.queue job }) in
      let metrics = record s.metrics {
        queued_job_count = inc s.metrics.queued_job_count;
        consumer_queued_job_count =
            at_label channel consumer inc s.metrics.consumer_queued_job_count;
      } in
      signal (mark_ready (record pushed { seq = seq; metrics = metrics }) a)

  -- What enqueue does with a job that is not held, whose listener is `c`.
  unfoldable pub admit :
      (String → String → ℕ) → Scheduler → ℕ → ℕ → DeliveryJob → Consumer → Scheduler
  admit limit_for s ptr priority d c =
      let channel = lane_channel c d.message in
      let tracked = insert d.base.id (record { ptr = ptr; running = false }) s.tracked in
      let found = lane_for limit_for (record s { tracked = tracked }) channel c.consumer_id in
      push_job found.0 channel c.consumer_id found.1 ptr priority

  -- enqueue of the job at `ptr`: whether it was added.
  unfoldable pub enqueue : (String → String → ℕ) → Scheduler → ℕ → ℕ → Option (Scheduler × Bool)
  enqueue limit_for s ptr priority =
      let d = s.data_of ptr in
      elim (lookup d.base.id s.tracked) [
        | some held ↦ some (refresh s held d, false)
        | none ↦ elim d.listener [
          | none ↦ none
          | some c ↦ some (admit limit_for s ptr priority d c, true)
        ]
      ]
