-- ===== src/Tests/Scheduling.antt =====
-- The lanes at a scheduler with one waiting job.
use webhook_broker.Base.{
  ℕ, String, true, false, Option, some, [], ◌≡◌, refl, lookup, insert, update,
}
use webhook_broker.Dispatcher.Queue.{Job}
use webhook_broker.Dispatcher.Lanes.State.{
  Gauge, Metrics, Lane, Scheduler, is_held, new_lane_scheduler, lane_channel, mark_ready,
}
use webhook_broker.Dispatcher.Lanes.Enqueue.{admit, push_job, lane_for, enqueue}
use webhook_broker.Dispatcher.Lanes.Serve.{try_next}
use webhook_broker.Dispatcher.Lanes.Invariant.{Inv}
use webhook_broker.Dispatcher.Lanes.Admission.{enqueue-is_held}
use webhook_broker.Dispatcher.Lanes.Next.{Answers, try_next-Inv}
use webhook_broker.Dispatcher.Lanes.Wakeup.{
  System, Reach, Awake, away, no_lost_wakeup, enqueues, here, next,
}
use webhook_broker.Tests.Heap.{sorted_heap}
use webhook_broker.Tests.Values.{a_job, a_consumer}

abbrev no_changes : Gauge
no_changes = record { incs = 0; decs = 0 }

abbrev no_metrics : Metrics
no_metrics = record {
  queued_job_count = no_changes;
  consumer_queued_job_count = λ ch co. no_changes;
  consumer_inflight_job_count = λ ch co. no_changes;
}

abbrev no_lane : Lane
no_lane = record {
  key = "";
  channel_id = "";
  consumer_id = "";
  queue = [];
  inflight = 0;
  limit = 0;
  ready = false;
}

abbrev one_each : String → String → ℕ
one_each channel consumer = 1

abbrev nothing_waits : Scheduler
nothing_waits = new_lane_scheduler (λ a. no_lane) (λ ptr. a_job) no_metrics

abbrev one_waits : Scheduler
one_waits = admit sorted_heap one_each nothing_waits 0 2 a_job a_consumer

abbrev at_start : System
at_start = record { scheduler = nothing_waits; phase = away }

abbrev after_one : System
after_one = record { scheduler = one_waits; phase = away }

enqueue-nothing_waits : enqueue sorted_heap one_each nothing_waits 0 2 ≡ some (one_waits, true)
unfolding enqueue new_lane_scheduler lookup
enqueue-nothing_waits = refl

one_enqueued : Reach sorted_heap one_each at_start after_one
one_enqueued = next here (enqueues at_start 0 2 enqueue-nothing_waits refl)

no_lost_wakeup_example : Awake sorted_heap after_one
no_lost_wakeup_example =
    no_lost_wakeup sorted_heap one_each (λ a. no_lane) (λ ptr. a_job) no_metrics after_one
      one_enqueued

nothing_waits-Inv : Inv sorted_heap nothing_waits
nothing_waits-Inv =
    (no_lost_wakeup sorted_heap one_each (λ a. no_lane) (λ ptr. a_job) no_metrics at_start here).inv

one_waits-Inv : Inv sorted_heap one_waits
one_waits-Inv =
    (no_lost_wakeup sorted_heap one_each (λ a. no_lane) (λ ptr. a_job) no_metrics after_one
      one_enqueued).inv

enqueue-is_held_example : is_held one_waits (nothing_waits.data_of 0) ≡ true
enqueue-is_held_example =
    enqueue-is_held sorted_heap one_each nothing_waits 0 2 one_waits true enqueue-nothing_waits

try_next-Inv_example :
    (t : Scheduler) × (r : Option Job) × (try_next sorted_heap one_waits ≡ some (t, r))
    × Inv sorted_heap t
    × Answers one_waits t r
try_next-Inv_example = try_next-Inv sorted_heap one_waits one_waits-Inv

one_waits-data : (one_waits.data_of 0).listener ≡ some a_consumer
unfolding admit new_lane_scheduler push_job mark_ready lane_for lane_channel lookup insert update
one_waits-data = refl
