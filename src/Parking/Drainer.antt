-- ===== src/Parking/Drainer.antt =====
-- parking/drainer.go: one run of the drain loop.
-- What the code is given by others is read at each visit of a consumer, which is numbered: whether
-- Stop was called, what the database does in the two transactions, the clock, ConsumerRepo.GetByID
-- and populateJobs (`none` for an error), and how many batches the goroutines of the hand-off have
-- taken since the visit before. `logged_errors` counts the errors that this file logs.
use webhook_broker.Base.{
  ℕ, zero, suc, ◌+◌, String, Bool, true, false, ◌&&◌, ◌||◌, str_eq, not, ◌==◌, leb, if◌then◌else◌,
  Option, none, some, List, [], ◌∷◌, drop, length, is_some,
}
use webhook_broker.Data.{Consumer, DeliveryJob, push_consumer}
use webhook_broker.Storage.Tables.{JobRow, LockRow, Tables}
use webhook_broker.Storage.Transactions.{Error, already_locked, Database}
use webhook_broker.Storage.Parking.{drain_page, drainable_consumer_ids}
use webhook_broker.Storage.Locks.{new_lock, try_lock, release_lock, renew_lock}
use webhook_broker.Parking.Handoff.{HandoffSender, saturated, submit}

-- GetLockID of a DrainLock.
abbrev pub drain_lock_id : String
drain_lock_id = "job-parking-drainer"

-- parkedCountRefreshInterval
abbrev pub parked_count_refresh_interval : ℕ
parked_count_refresh_interval = 60_000_000_000

-- `drained_jobs_total` is the metric over all consumers, and `parked_job_count` the
-- gauge, by the labels channel and consumer.
pub record Drainer : Type 0 where
  pub tables : Tables
  pub handoff : HandoffSender
  pub lock : Option LockRow
  pub drained_jobs_total : ℕ
  pub last_count_refresh : ℕ
  pub parked_job_count : String → String → Option ℕ
  pub logged_errors : ℕ

pub record Surroundings : Type 0 where
  pub stopping : ℕ → Bool
  pub taken : ℕ → ℕ
  pub now : ℕ → ℕ
  pub drain_db : ℕ → Database
  pub renew_db : ℕ → Database
  pub consumers : ℕ → String → Option Consumer
  pub populate : ℕ → List JobRow → Option (List DeliveryJob)

-- How a visit ends: the run returns, the consumer is left out of the next round, or it is in it.
pub data Visit : Type 0 where
  returned : Bool → Drainer → Visit
  finished : Drainer → Visit
  remaining : Drainer → Visit

abbrev pub log_error : Drainer → Drainer
log_error d = record d { logged_errors = suc d.logged_errors }

-- The goroutines take batches from the channel.
abbrev pub served : ℕ → HandoffSender → HandoffSender
served n s = record s { pending = drop n s.pending }

abbrev pub is_push : Consumer → Bool
is_push c = c.consumer_type == push_consumer

module _ (page_size lease : ℕ) (around : Surroundings) where
  -- The lease keeps the jobs of a push consumer from the retry worker while they are handed off.
  abbrev pub earliest_attempt : ℕ → Consumer → ℕ
  earliest_attempt n c = if is_push c then around.now n + lease else around.now n

  -- A page that was moved: hand it off and renew the lock.
  unfoldable pub hand_off : ℕ → Consumer → List DeliveryJob → Drainer → Visit
  hand_off n c jobs d =
      let sender = if is_push c then (submit d.handoff jobs).0 else d.handoff in
      let (t, l, err) = renew_lock (around.renew_db n) d.tables (around.now n) d.lock in
      let moved = record d {
        tables = t;
        handoff = sender;
        lock = l;
        drained_jobs_total = d.drained_jobs_total + length jobs;
      } in
      if is_some err then returned false moved else remaining moved

  unfoldable pub drain_for : ℕ → String → Consumer → Drainer → Visit
  unfolding hand_off
  drain_for n id c d =
      let (t, rows, err) =
        drain_page (around.drain_db n) id page_size (around.now n) (earliest_attempt n c)
          d.tables in
      let moved = record d { tables = t } in
      if is_some err
      then finished (log_error moved)
      else if length rows == 0
      then finished moved
      else elim (around.populate n rows) [
        | none ↦ finished (log_error moved)
        | some jobs ↦ hand_off n c jobs moved
      ]

  -- The body of the inner loop of drainRoundRobin.
  unfoldable pub visit_consumer : ℕ → String → Drainer → Visit
  unfolding drain_for saturated
  visit_consumer n id d =
      let d' = record d { handoff = served (around.taken n) d.handoff } in
      if around.stopping n || saturated d'.handoff
      then returned true d'
      else elim (around.consumers n id) [
        | none ↦ finished (log_error d')
        | some c ↦ drain_for n id c d'
      ]

  -- How a round ends: the run returns, or the next round has these consumers and visits from there.
  pub data Round : Type 0 where
    run_returned : Bool → Drainer → Round
    next_round : List String → ℕ → Drainer → Round

  abbrev pub keep_active : String → Round → Round
  keep_active id (run_returned held d) = run_returned held d
  keep_active id (next_round ids n d) = next_round (id ∷ ids) n d

  unfoldable pub round : List String → ℕ → Drainer → Round
  unfolding visit_consumer
  round [] n d = next_round [] n d
  round (id ∷ ids) n d = elim (visit_consumer n id d) [
    | returned held d' ↦ run_returned held d'
    | finished d' ↦ round ids (suc n) d'
    | remaining d' ↦ keep_active id (round ids (suc n) d')
  ]

  -- drainRoundRobin, of at most so many rounds: whether the lock is held, and the drainer.
  unfoldable pub drain_round_robin : ℕ → List String → ℕ → Drainer → Option (Bool × Drainer)
  unfolding round
  drain_round_robin fuel [] n d = some (true, d)
  drain_round_robin zero (id ∷ ids) n d = none
  drain_round_robin (suc fuel) (id ∷ ids) n d = elim (round (id ∷ ids) n d) [
    | run_returned held d' ↦ some (held, d')
    | next_round active n' d' ↦ drain_round_robin fuel active n' d'
  ]

-- The rows of GetCountsByConsumer: channel, consumer and count; `none` if the query fails.
abbrev pub Counted : Type 0
Counted = List (String × String × ℕ)

abbrev pub set_gauge :
    String → String → ℕ → (String → String → Option ℕ) → String → String → Option ℕ
set_gauge channel consumer n g ch c =
    if str_eq ch channel && str_eq c consumer then some n else g ch c

-- The loop of refreshParkedCounts; a consumer that is not found is labelled by its internal id.
unfoldable pub set_counts :
    (String → Option Consumer) → Counted → (String → String → Option ℕ) → String → String → Option ℕ
set_counts consumers [] g = g
set_counts consumers ((ch, id, n) ∷ rest) g =
    let label : String = elim (consumers id) [ none ↦ id | some c ↦ c.consumer_id ] in
    set_counts consumers rest (set_gauge ch label n g)

unfoldable pub refresh_parked_counts :
    (String → Option Consumer) → Option Counted → ℕ → Drainer → Drainer
unfolding set_counts
refresh_parked_counts consumers none at d = log_error d
refresh_parked_counts consumers (some counts) at d = record d {
  last_count_refresh = at;
  parked_job_count = set_counts consumers counts (λ ch c. none);
}

abbrev pub count_refresh_due : ℕ → Drainer → Bool
count_refresh_due at d = leb (d.last_count_refresh + parked_count_refresh_interval) at

-- What a run reads before its loop and after it: whether the consumers can be listed, the clock, the
-- counts, and the database as the lock is taken and released.
pub record RunSurroundings : Type 0 where
  pub lists : Bool
  pub at : ℕ
  pub counts : Option Counted
  pub lock_db : Database
  pub release_db : Database

-- A lock that another node holds is not logged.
abbrev pub error_count : Option Error → ℕ
error_count none = 0
error_count (some already_locked) = 0
error_count (some e) = 1

module _ (page_size lease : ℕ) (start : RunSurroundings) (around : Surroundings) where
  -- The deferred release, and the drainer that goes on without the lock.
  unfoldable pub end_run : Bool → Drainer → Drainer
  end_run held d =
      if held
      then record d { tables = (release_lock start.release_db d.tables d.lock).0; lock = none }
      else record d { lock = none }

  unfoldable pub with_lock : ℕ → List String → Drainer → Option Drainer
  unfolding drain_round_robin refresh_parked_counts end_run
  with_lock fuel ids d =
      let d' =
        if count_refresh_due start.at d
        then refresh_parked_counts (around.consumers 0) start.counts start.at d
        else d in
      elim (drain_round_robin page_size lease around fuel ids 0 d') [
        | none ↦ none
        | some (held, d'') ↦ some (end_run held d'')
      ]

  unfoldable pub run_once : ℕ → Drainer → Option Drainer
  unfolding with_lock drainable_consumer_ids new_lock try_lock
  run_once fuel d =
      let ids = drainable_consumer_ids d.tables in
      let l = (new_lock (some drain_lock_id) start.at).0 in
      let (t, err) = try_lock start.lock_db d.tables l in
      let entered = with_lock fuel ids (record d { tables = t; lock = l }) in
      if not start.lists
      then some (log_error d)
      else if length ids == 0 && not (count_refresh_due start.at d)
      then some d
      else if is_some err
      then some (record d { logged_errors = d.logged_errors + error_count err })
      else entered
