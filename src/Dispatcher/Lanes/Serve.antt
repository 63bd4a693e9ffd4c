-- ===== src/Dispatcher/Lanes/Serve.antt =====
-- dispatcher/lanes.go: tryNext, done and discardQueued.
use webhook_broker.Base.{
  ℕ, zero, suc, ◌-◌, String, true, false, ◌&&◌, not, ◌==◌, ltb, if◌then◌else◌, Option, none, some,
  List, [], ◌∷◌, ◌++◌, Map, lookup, insert, erase, update, length, get_elem?, erase_at,
}
use webhook_broker.Dispatcher.Queue.{Job, HeapPackage}
use webhook_broker.Dispatcher.Lanes.State.{
  Lane, Scheduler, dec, inc, at_label, can_run, lane_key, lane_channel, put_lane, mark_ready,
  signal,
}

-- The loop of tryNext over the ready list: lanes that can run are kept in order, the others lose
-- their mark, and `best` is the index and priority of the first lane of the highest priority.
-- `canRun` held where the queue is peeked at, so the queue is not empty there.
abbrev pub head_priority : List Job → ℕ
head_priority [] = 0
head_priority (j ∷ q) = j.priority

abbrev pub better : ℕ → ℕ → Option (ℕ × ℕ) → Option (ℕ × ℕ)
better index priority none = some (index, priority)
better index priority (some (i, p)) = if ltb p priority then some (index, priority) else some (i, p)

pub record Scan : Type 0 where
  pub lane_at : ℕ → Lane
  pub runnable : List ℕ
  pub best : Option (ℕ × ℕ)

unfoldable pub visit : Scan → ℕ → Scan
visit c a =
    let l = c.lane_at a in
    if can_run l
    then record c {
      runnable = c.runnable ++ a ∷ [];
      best = better (length c.runnable) (head_priority l.queue) c.best;
    }
    else record c { lane_at = update c.lane_at a (record l { ready = false }) }

unfoldable pub scan : List ℕ → Scan → Scan
scan [] c = c
scan (a ∷ rest) c = scan rest (visit c a)

-- The lane leaves the ready list, and its mark goes.
unfoldable pub unready : Scheduler → ℕ → List ℕ → Scheduler
unready s a ready = record (put_lane s a (record (s.lane_at a) { ready = false })) { ready = ready }

-- held.running = true for the job's id, if it is tracked.
unfoldable pub mark_running : Scheduler → String → Scheduler
mark_running s id = record s {
  tracked = elim (lookup id s.tracked) [
    | none ↦ s.tracked
    | some held ↦ insert id (record held { running = true }) s.tracked
  ];
}

-- The job taken from the lane counts as a running delivery of it.
unfoldable pub start : Scheduler → ℕ → Job → List Job → Scheduler
start s a job rest =
    let l = s.lane_at a in
    let t = mark_running s (s.data_of job.ptr).base.id in
    record (put_lane t a (record l { queue = rest; inflight = suc l.inflight })) {
      metrics = record t.metrics {
        queued_job_count = dec t.metrics.queued_job_count;
        consumer_queued_job_count =
            at_label l.channel_id l.consumer_id dec t.metrics.consumer_queued_job_count;
        consumer_inflight_job_count =
            at_label l.channel_id l.consumer_id inc t.metrics.consumer_inflight_job_count;
      };
    }

module _ (heap : HeapPackage) where
  -- tryNext; the inner `none` is its nil result.
  unfoldable pub serve : Scheduler → ℕ → Option (Scheduler × Option Job)
  serve s a = elim (heap.pop (s.lane_at a).queue) [
    | none ↦ none
    | some (job, rest) ↦ some (mark_ready (start s a job rest) a, some job)
  ]

  unfoldable pub try_next : Scheduler → Option (Scheduler × Option Job)
  try_next s =
      let c = scan s.ready (record { lane_at = s.lane_at; runnable = []; best = none }) in
      let t = record s { lane_at = c.lane_at; ready = c.runnable } in
      elim c.best [
        | none ↦ some (t, none)
        | some (best, priority) ↦ elim (get_elem? c.runnable best) [
          | none ↦ none
          | some a ↦ serve (unready t a (erase_at c.runnable best)) a
        ]
      ]

  -- The inner loop of discardQueued over one lane, by the number of its jobs.
  unfoldable pub discard_jobs : ℕ → Scheduler → ℕ → Option Scheduler
  discard_jobs zero s a = some s
  discard_jobs (suc n) s a =
      let l = s.lane_at a in
      elim (heap.pop l.queue) [
        | none ↦ none
        | some (job, rest) ↦
            discard_jobs n
              (record (put_lane s a (record l { queue = rest })) {
                tracked = erase (s.data_of job.ptr).base.id s.tracked;
                metrics = record s.metrics {
                  queued_job_count = dec s.metrics.queued_job_count;
                  consumer_queued_job_count =
                      at_label l.channel_id l.consumer_id dec s.metrics.consumer_queued_job_count;
                };
              })
              a
      ]

  -- The outer loop, over the entries of the map.
  unfoldable pub discard_lanes : Map ℕ → Scheduler → Option Scheduler
  discard_lanes [] s = some s
  discard_lanes ((key, a) ∷ m) s = elim (discard_jobs (length (s.lane_at a).queue) s a) [
    | none ↦ none
    | some t ↦
        let u = put_lane t a (record (t.lane_at a) { ready = false }) in
        discard_lanes m
          (if (t.lane_at a).inflight == 0 then record u { lanes = erase key u.lanes } else u)
  ]

  unfoldable pub discard_queued : Scheduler → Option Scheduler
  discard_queued s = elim (discard_lanes s.lanes s) [
    | none ↦ none
    | some t ↦ some (record t { ready = [] })
  ]

-- The slot of one delivery is freed, if the lane counts one.
unfoldable pub free_slot : Scheduler → ℕ → Scheduler
free_slot s a =
    let l = s.lane_at a in
    if ltb 0 l.inflight
    then record (put_lane s a (record l { inflight = l.inflight - 1 })) {
      metrics = record s.metrics {
        consumer_inflight_job_count =
            at_label l.channel_id l.consumer_id dec s.metrics.consumer_inflight_job_count;
      };
    }
    else s

-- A lane with nothing to do is dropped; another is marked ready if it can run.
unfoldable pub settle : Scheduler → String → ℕ → Scheduler
settle s key a =
    let l = s.lane_at a in
    if length l.queue == 0 && (l.inflight == 0 && not l.ready)
    then record s { lanes = erase key s.lanes }
    else mark_ready s a

unfoldable pub done : Scheduler → ℕ → Option Scheduler
done s ptr =
    let d = s.data_of ptr in
    elim d.listener [
      | none ↦ none
      | some c ↦
          let key = lane_key (lane_channel c d.message) c.consumer_id in
          let t = record s { tracked = erase d.base.id s.tracked } in
          some (
            signal (elim (lookup key t.lanes) [ none ↦ t | some a ↦ settle (free_slot t a) key a ]))
    ]
