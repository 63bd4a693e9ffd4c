-- ===== src/Dispatcher/Dispatching.antt =====
-- dispatcher/msgdispatcher.go: createJobs, splitPausedJobs, parkOrQueue, queueJob, EnqueueJobs,
-- shouldEnqueueLongInflightJob and inLockRun.
-- `queued` is what was sent to jobQueue, in order; a send waits for room, so none is lost. Each use
-- of the repository takes the next database and time: `calls` counts them. `none` is a panic of a
-- nil listener.
use mathlib.Core.Option
use webhook_broker.Base.{
  ℕ, suc, ◌+◌, ◌*◌, String, Bool, true, false, ◌&&◌, ◌||◌, ◌==◌, ltb, if◌then◌else◌, Option, none,
  some, List, [], ◌∷◌, ◌++◌,
}
use webhook_broker.Data.{
  Clock, DeliveryJob, Message, Consumer, new_delivery_job, push_consumer, pull_consumer,
}
use webhook_broker.Storage.Tables.{Tables}
use webhook_broker.Storage.Transactions.{Database, Error, already_locked}
use webhook_broker.Storage.Locks.{new_lock, try_lock, release_lock}
use webhook_broker.Dispatcher.Pause.{PauseRegistry, is_effectively_paused}
use webhook_broker.Dispatcher.Worker.{repark_job}

pub record Node : Type 0 where
  pub tables : Tables
  pub queued : List DeliveryJob
  pub parked_jobs_total : ℕ
  pub calls : ℕ

abbrev pub is_push : Consumer → Bool
is_push c = c.consumer_type == push_consumer

module _ (db : ℕ → Database) (now : ℕ → ℕ) (registry : PauseRegistry) where
  -- reparkJob on this node.
  unfoldable pub repark_here : Node → DeliveryJob → Node × DeliveryJob × Bool
  unfolding repark_job
  repark_here n d =
      let (t', d', moved, parked) = repark_job (db n.calls) (now n.calls) n.tables d in
      (
        record n {
          tables = t';
          parked_jobs_total = n.parked_jobs_total + parked;
          calls = suc n.calls;
        },
        d',
        moved,
      )

  -- parkOrQueue of a job whose listener is `c`; the Boolean says whether it was queued.
  unfoldable pub park_or_queue : Node → DeliveryJob → Consumer → Node × Bool
  unfolding repark_here
  park_or_queue n d c =
      if is_effectively_paused registry c.stakeholder.base.id
      then (let (m, d', moved) = repark_here n d in
          if moved then (m, false) else (record m { queued = m.queued ++ d' ∷ [] }, true))
      else (record n { queued = n.queued ++ d ∷ [] }, true)

  unfoldable pub queue_job : Node → DeliveryJob → Option Node
  unfolding park_or_queue
  queue_job n d = elim d.listener [
    | none ↦ none
    | some c ↦ some (if is_push c then (park_or_queue n d c).0 else n)
  ]

  -- The loop of EnqueueJobs; a nil job or listener is passed over.
  unfoldable pub enqueue_one : Node → Option DeliveryJob → Node × Bool
  unfolding park_or_queue
  enqueue_one n none = (n, false)
  enqueue_one n (some d) = elim d.listener [
    | none ↦ (n, false)
    | some c ↦ if is_push c then park_or_queue n d c else (n, false)
  ]

  unfoldable pub enqueue_jobs : Node → List (Option DeliveryJob) → Node × ℕ
  unfolding enqueue_one
  enqueue_jobs n [] = (n, 0)
  enqueue_jobs n (d ∷ ds) =
      let (m, queued) = enqueue_one n d in
      let (k, enqueued) = enqueue_jobs m ds in (k, if queued then suc enqueued else enqueued)

module _ (registry : PauseRegistry) where
  -- splitPausedJobs of jobs whose listeners are not nil.
  abbrev pub consumer_paused : DeliveryJob → Bool
  consumer_paused d = elim d.listener [
    | none ↦ false
    | some c ↦ is_effectively_paused registry c.stakeholder.base.id
  ]

  unfoldable pub split_paused_jobs : List DeliveryJob → List DeliveryJob × List DeliveryJob
  split_paused_jobs [] = ([], [])
  split_paused_jobs (d ∷ ds) =
      let (active, parked) = split_paused_jobs ds in
      if consumer_paused d then (active, d ∷ parked) else (d ∷ active, parked)

module _ (db : ℕ → Database) (now : ℕ → ℕ) where
  -- inLockRun: the lock is there for the run, and is released after it.
  unfoldable pub in_lock_run :
      Node → Option String → (Node → Node × Option Error) → Node × Option Error
  unfolding new_lock try_lock release_lock
  in_lock_run n lockable run =
      let (lock, err) = new_lock lockable (now n.calls) in
      elim err [
        | some e ↦ (n, some e)
        | none ↦
            let (t, refused) = try_lock (db n.calls) n.tables lock in
            elim refused [
              | some already_locked ↦ (record n { tables = t; calls = suc n.calls }, none)
              | some other ↦ (record n { tables = t; calls = suc n.calls }, some other)
              | none ↦
                  let (m, failure) = run (record n { tables = t; calls = suc n.calls }) in
                  let (u, ignored) = release_lock (db m.calls) m.tables lock in
                  (
                    record m { tables = u; calls = suc m.calls },
                    elim failure [
                      | none ↦ none
                      | some already_locked ↦ none
                      | some other ↦ some other
                    ],
                  )
            ]
      ]

-- createJobs, of the pages that GetList gave until the last one; `failed` says that the last failed.
unfoldable pub concat_pages : List (List Consumer) → List Consumer
concat_pages [] = []
concat_pages (p ∷ ps) = p ++ concat_pages ps

module _ (absolute : String → Bool) (now : ℕ → Clock) (fresh : ℕ → String) (message : Message) where
  -- A job for each consumer, by their order; `none` is an error.
  unfoldable pub jobs_for : ℕ → List Consumer → Option (List DeliveryJob)
  unfolding new_delivery_job
  jobs_for i [] = some []
  jobs_for i (c ∷ cs) =
      let rest = jobs_for (suc i) cs in
      let (job, err) = new_delivery_job absolute (now i) (fresh i) (some message) (some c) in
      if err then none else Option.map (λ js. job ∷ js) rest

  unfoldable pub create_jobs : List (List Consumer) → Bool → Option (List DeliveryJob)
  unfolding jobs_for concat_pages
  create_jobs pages failed = if failed then none else jobs_for 0 (concat_pages pages)

-- shouldEnqueueLongInflightJob; times are natural numbers, so the threshold is written on the left.
unfoldable pub should_enqueue_long_inflight_job : ℕ → ℕ → ℕ → Consumer → DeliveryJob → Bool
should_enqueue_long_inflight_job now rational_delay stop_timeout c d =
    let total = d.incremental_timeout * 1000000000 + rational_delay + stop_timeout in
    is_push c || (c.consumer_type == pull_consumer && ltb (d.status_changed_at + total) now)
