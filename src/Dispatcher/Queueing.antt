-- ===== src/Dispatcher/Queueing.antt =====
-- dispatcher/msgdispatcher.go: what enqueueing and splitting promise.
use webhook_broker.Base.{
  ℕ, ◌+◌, String, true, false, if◌then◌else◌, Option, none, some, List, [], ◌∷◌, length, ◌≡◌, refl,
  arith, ◌∙◌, All, Bool-cases, Option-cases, inl, inr, length-append,
}
use webhook_broker.Data.{DeliveryJob, Consumer}
use webhook_broker.Storage.Transactions.{Database}
use webhook_broker.Storage.Ownership.{owned}
use webhook_broker.Dispatcher.Pause.{PauseRegistry, is_effectively_paused}
use webhook_broker.Dispatcher.Worker.{repark_job}
use webhook_broker.Dispatcher.Delivery.{repark_job-owned}
use webhook_broker.Dispatcher.Dispatching.{
  Node, is_push, repark_here, park_or_queue, enqueue_one, enqueue_jobs, consumer_paused,
  split_paused_jobs,
}

-- The queue of a node grew by `k` jobs, and no job lost or gained a row.
abbrev pub Grew : Node → Node → ℕ → Type 0
Grew n m k =
    (length m.queued ≡ length n.queued + k)
    × ((id : String) → owned id m.tables ≡ owned id n.tables)

module _ (db : ℕ → Database) (now : ℕ → ℕ) (registry : PauseRegistry) where
  park_or_queue-Grew :
      (n : Node) (d : DeliveryJob) (c : Consumer)
      → let (m, queued) = park_or_queue db now registry n d c in Grew n m (if queued then 1 else 0)
  unfolding park_or_queue repark_here
  park_or_queue-Grew n d c =
      let r = repark_job (db n.calls) (now n.calls) n.tables d in
      let conserved = repark_job-owned (db n.calls) (now n.calls) n.tables d in
      elim (Bool-cases (is_effectively_paused registry c.stakeholder.base.id)) [
        | inr running ↦ rw running (length-append n.queued (d ∷ []), λ id. refl)
        | inl paused ↦ elim (Bool-cases r.2) [
          | inl moved ↦ rw (paused, moved) (omega arith, conserved)
          | inr stays ↦ rw (paused, stays) (length-append n.queued (r.1 ∷ []), conserved)
        ]
      ]

  enqueue_one-Grew :
      (n : Node) (d : Option DeliveryJob)
      → let (m, queued) = enqueue_one db now registry n d in Grew n m (if queued then 1 else 0)
  unfolding enqueue_one
  enqueue_one-Grew n none = (omega arith, λ id. refl)
  enqueue_one-Grew n (some d) = elim (Option-cases d.listener) [
    | inl nobody ↦ rw nobody (omega arith, λ id. refl)
    | inr (c, e) ↦ elim (Bool-cases (is_push c)) [
      | inl push ↦ simp (e, push) (park_or_queue-Grew n d c)
      | inr pull ↦ simp (e, pull) (omega arith, λ id. refl)
    ]
  ]

  -- EnqueueJobs returns by how many jobs the node's queue grew; the jobs that it did not queue are
  -- where they were, or parked: no job lost or gained a row of the two tables.
  pub enqueue_jobs-Grew :
      (n : Node) (ds : List (Option DeliveryJob))
      → let (m, enqueued) = enqueue_jobs db now registry n ds in Grew n m enqueued
  unfolding enqueue_jobs
  enqueue_jobs-Grew n [] = (omega arith, λ id. refl)
  enqueue_jobs-Grew n (d ∷ ds) =
      let m = (enqueue_one db now registry n d).0 in
      let one = enqueue_one-Grew n d in
      let rest = enqueue_jobs-Grew m ds in
      (ground (arith, one.0, rest.0), λ id. rest.1 id ∙ one.1 id)

module _ (registry : PauseRegistry) where
  -- splitPausedJobs puts each job in one of its results, and those of effectively paused consumers
  -- in the second.
  pub split_paused_jobs_lem :
      (ds : List DeliveryJob)
      → let (active, parked) = split_paused_jobs registry ds in
        (length active + length parked ≡ length ds)
        × All (λ d. consumer_paused registry d ≡ false) active
        × All (λ d. consumer_paused registry d ≡ true) parked
  unfolding split_paused_jobs
  split_paused_jobs_lem [] = (refl, tt, tt)
  split_paused_jobs_lem (d ∷ ds) =
      let (count, running, paused) = split_paused_jobs_lem ds in
      elim (Bool-cases (consumer_paused registry d)) [
        | inl held ↦ rw held (omega arith, running, (held, paused))
        | inr free ↦ rw free (omega arith, (free, running), paused)
      ]
