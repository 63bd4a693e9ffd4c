-- ===== src/Dispatcher/Lanes/State.antt =====
-- dispatcher/lanes.go: the laneScheduler.
-- Objects that the code shares by pointer live in stores. `lane_at` holds the lanes, which both
-- the map `lanes` and the list `ready` point to; `data_of` holds the field Data of each Job, which
-- its lane's queue and `tracked` share. A Go map is its list of entries, and every theorem holds
-- for any order of them. The metrics' gauges are counts of Inc and Dec. `wake` says whether the
-- channel of capacity 1 holds its token. A result `none` is a panic: of a nil listener, or of a
-- queue that container/heap finds empty. `limit_for` is BrokerConfig.GetConsumerMaxConcurrency.
use Prim.Native.String.{◌++◌ as text_append}
use webhook_broker.Base.{
  ℕ, suc, ◌+◌, String, Bool, true, false, ◌&&◌, ◌||◌, not, ◌==◌, str_eq, ltb, leb, if◌then◌else◌,
  Option, none, some, List, [], ◌∷◌, ◌++◌, Map, lookup, update, length,
}
use webhook_broker.Data.{DeliveryJob, Message, Consumer, message_channel_id}
use webhook_broker.Dispatcher.Queue.{Job}

pub record Gauge : Type 0 where
  pub incs : ℕ
  pub decs : ℕ

abbrev pub inc : Gauge → Gauge
inc g = record g { incs = suc g.incs }

abbrev pub dec : Gauge → Gauge
dec g = record g { decs = suc g.decs }

-- One gauge of a GaugeVec with the labels channel and consumer is changed.
abbrev pub at_label :
    String → String → (Gauge → Gauge) → (String → String → Gauge) → String → String → Gauge
at_label ch co f v ch' co' = if str_eq ch ch' && str_eq co co' then f (v ch' co') else v ch' co'

pub record Metrics : Type 0 where
  pub queued_job_count : Gauge
  pub consumer_queued_job_count : String → String → Gauge
  pub consumer_inflight_job_count : String → String → Gauge

pub record Lane : Type 0 where
  pub key : String
  pub channel_id : String
  pub consumer_id : String
  pub queue : List Job
  pub inflight : ℕ
  pub limit : ℕ
  pub ready : Bool

-- heldJob: the address of the job, and whether a worker has it.
pub record Held : Type 0 where
  pub ptr : ℕ
  pub running : Bool

pub record Scheduler : Type 0 where
  pub lane_at : ℕ → Lane
  pub fresh_lane : ℕ
  pub lanes : Map ℕ
  pub ready : List ℕ
  pub data_of : ℕ → DeliveryJob
  pub tracked : Map Held
  pub seq : ℕ
  pub metrics : Metrics
  pub wake : Bool

abbrev pub has_room : Lane → Bool
has_room l = l.limit == 0 || ltb l.inflight l.limit

abbrev pub can_run : Lane → Bool
can_run l = ltb 0 (length l.queue) && has_room l

-- The key of a lane.
abbrev pub lane_key : String → String → String
lane_key channel consumer = text_append channel (text_append "/" consumer)

unfoldable pub lane_channel : Consumer → Option Message → String
lane_channel c message = elim c.consuming_from [
  | some ch ↦ ch.channel_id
  | none ↦ elim message [ none ↦ "" | some m ↦ message_channel_id m ]
]

-- newLaneScheduler, over a store of jobs and gauges that outlive it.
unfoldable pub new_lane_scheduler : (ℕ → Lane) → (ℕ → DeliveryJob) → Metrics → Scheduler
new_lane_scheduler lane_at data_of metrics = record {
  lane_at = lane_at;
  fresh_lane = 0;
  lanes = [];
  ready = [];
  data_of = data_of;
  tracked = [];
  seq = 0;
  metrics = metrics;
  wake = false;
}

abbrev pub put_lane : Scheduler → ℕ → Lane → Scheduler
put_lane s a l = record s { lane_at = update s.lane_at a l }

-- markReadyLocked
unfoldable pub mark_ready : Scheduler → ℕ → Scheduler
mark_ready s a =
    let l = s.lane_at a in
    if not l.ready && can_run l
    then record (put_lane s a (record l { ready = true })) { ready = s.ready ++ a ∷ [] }
    else s

-- A send on `wake` that does not block: the token is there afterwards.
abbrev pub signal : Scheduler → Scheduler
signal s = record s { wake = true }

-- isHeld
unfoldable pub is_held : Scheduler → DeliveryJob → Bool
is_held s j = elim (lookup j.base.id s.tracked) [
  | none ↦ false
  | some held ↦ held.running || leb j.retry_attempt_count (s.data_of held.ptr).retry_attempt_count
]

-- The sum of the queues' lengths over the lanes.
unfoldable pub sum_queues : (ℕ → Lane) → Map ℕ → ℕ
sum_queues lane_at [] = 0
sum_queues lane_at ((k, a) ∷ m) = length (lane_at a).queue + sum_queues lane_at m

unfoldable pub queued_len : Scheduler → ℕ
unfolding sum_queues
queued_len s = sum_queues s.lane_at s.lanes
