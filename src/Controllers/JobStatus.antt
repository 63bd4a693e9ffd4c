-- ===== src/Controllers/JobStatus.antt =====
-- controllers/job.go: POST of a job's next state.
-- `body` is the decoded request, `none` if it cannot be decoded; `itoa` is strconv.Itoa. The pause
-- repository is there or not, and its query may fail.
use webhook_broker.Base.{
  ℕ, String, Bool, true, false, ◌&&◌, ◌||◌, not, ◌==◌, str_eq, if◌then◌else◌, Option, none, some,
}
use webhook_broker.Data.{
  Consumer, DeliveryJob, job_queued, job_inflight, job_delivered, job_dead, job_parked,
  job_status_text,
}
use webhook_broker.Storage.Tables.{Tables}
use webhook_broker.Storage.Transactions.{Error, Database}
use webhook_broker.Storage.Jobs.{
  mark_job_inflight, mark_job_delivered, mark_job_dead, mark_dead_job_as_inflight,
}
use webhook_broker.Storage.Pausing.{repo_is_effectively_paused}
use webhook_broker.Controllers.Access.{
  Request, Directory, granted, refused, get_job_with_validation,
}

pub record JobUpdate : Type 0 where
  pub next_state : String
  pub incremental_timeout : ℕ

-- isConsumerEffectivelyPaused: `repo` says whether there is a repository, and its query fails or not.
unfoldable pub is_consumer_effectively_paused : Option Bool → Tables → Option Consumer → Bool
unfolding repo_is_effectively_paused
is_consumer_effectively_paused none t c = false
is_consumer_effectively_paused (some query_fails) t none = false
is_consumer_effectively_paused (some query_fails) t (some c) =
    elim (repo_is_effectively_paused query_fails t c.stakeholder.base.id) [
      | none ↦ false
      | some paused ↦ paused
    ]

module _ (itoa : ℕ → String) (db : Database) (now : ℕ) (repo : Option Bool) (t : Tables) where
  -- The answer after a write.
  abbrev pub answer_write : Bool → DeliveryJob → Tables × DeliveryJob × Option Error → Tables × ℕ
  answer_write hand_out d (t', d', none) = (t', 202)
  answer_write hand_out d (t', d', some e) =
      (t', if hand_out && is_consumer_effectively_paused repo t' d.listener then 409 else 400)

  -- The switch over the next state.
  unfoldable pub move_job : DeliveryJob → String → Tables × ℕ
  unfolding mark_job_inflight mark_job_delivered mark_job_dead mark_dead_job_as_inflight
      is_consumer_effectively_paused
  move_job d next_state =
      if str_eq next_state (job_status_text itoa job_inflight)
      then (if d.status == job_queued
          then answer_write true d (mark_job_inflight db now t d)
          else if d.status == job_dead
          then answer_write true d (mark_dead_job_as_inflight db now t d)
          else (t, 400))
      else if str_eq next_state (job_status_text itoa job_delivered)
      then answer_write false d (mark_job_delivered db now t d)
      else if str_eq next_state (job_status_text itoa job_dead)
      then answer_write false d (mark_job_dead db now t d)
      else (t, 400)

  -- What follows the check of the timeout.
  unfoldable pub change_state : DeliveryJob → String → Tables × ℕ
  unfolding move_job
  change_state d next_state =
      if d.status == job_parked
      then (t, 409)
      else if str_eq (job_status_text itoa d.status) next_state
      then (t, 202)
      else move_job d next_state

  unfoldable pub post_job :
      Directory → (String → Option DeliveryJob) → Request → String → Option JobUpdate → Tables × ℕ
  unfolding get_job_with_validation change_state
  post_job dir jobs r id body = elim (get_job_with_validation dir r jobs id) [
    | refused status ↦ (t, status)
    | granted d ↦ elim body [
      | none ↦ (t, 500)
      | some update ↦
          if update.incremental_timeout == 0
          then change_state d update.next_state
          else if not (str_eq update.next_state (job_status_text itoa job_inflight))
              || d.status == job_inflight
          then (t, 400)
          else change_state (record d { incremental_timeout = update.incremental_timeout })
              update.next_state
    ]
  ]
