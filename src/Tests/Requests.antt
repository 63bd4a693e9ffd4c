-- ===== src/Tests/Requests.antt =====
-- The requests of a pull consumer and of an admin.
use webhook_broker.Base.{
  ◌≤◌, ℕ, String, Bool, true, false, [], ◌∷◌, Option, some, List, ◌==◌, ◌⊎◌, ◌≡◌, refl,
}
use webhook_broker.Data.{Consumer, DeliveryJob, pull_consumer, job_parked}
use webhook_broker.Storage.Transactions.{healthy}
use webhook_broker.Storage.Lifecycle.{Write, delivered}
use webhook_broker.Storage.Pausing.{find_pause}
use webhook_broker.Dispatcher.Pause.{
  PauseRegistry, new_pause_snapshot, new_pause_registry, refresh_pauses-pause_of,
}
use webhook_broker.Controllers.Access.{Request, Directory}
use webhook_broker.Controllers.JobStatus.{JobUpdate, post_job}
use webhook_broker.Controllers.DeadJobs.{
  DeadNode, post_requeue, purge_dead_jobs, delete_dead_job_request,
}
use webhook_broker.Controllers.DeadJobLaws.{dead_job_requests-delivered}
use webhook_broker.Controllers.Transitions.{MayChange, post_job-Allowed}
use webhook_broker.Controllers.PauseRequests.{PauseNode}
use webhook_broker.Controllers.PauseAgreement.{
  Agrees, as_given, PauseRequest, put_global, delete_consumer, Handling, handle_all,
  handle_all-Agrees,
}
use webhook_broker.Tests.Values.{
  a_channel, a_consumer, a_job, a_pause, a_registry, get_consumer, some_tables, paused_tables,
}

abbrev a_request : Request
a_request = record {
  channel_id = "news";
  channel_token = "t";
  consumer_id = "first";
  consumer_token = "t";
  admin_token = "secret";
}

abbrev pulling : Consumer
pulling = record a_consumer { consumer_type = pull_consumer }

abbrev a_directory : Directory
a_directory = record { channels = λ id. some a_channel; consumers = λ ch id. some pulling }

abbrev jobs : String → Option DeliveryJob
jobs id = some (record a_job { listener = some pulling })

abbrev itoa : ℕ → String
itoa n = "0"

abbrev to_inflight : JobUpdate
to_inflight = record { next_state = "INFLIGHT"; incremental_timeout = 0 }

post_job-Allowed_example :
    let (t', status) =
      post_job itoa healthy 20
        (some false)
        some_tables
        a_directory
        jobs
        a_request
        "j1"
        (some to_inflight) in
    (t' ≡ some_tables)
    ⊎ ((d : DeliveryJob) × MayChange a_directory a_request jobs "j1" d
        × ((d.status == job_parked) ≡ false)
        × Write healthy some_tables t'
        × (status ≡ 202))
post_job-Allowed_example =
    post_job-Allowed itoa healthy 20 (some false) some_tables a_directory jobs a_request "j1"
      (some to_inflight)

abbrev a_node : PauseNode
a_node = record { tables = paused_tables; registry = a_registry }

abbrev unloaded : PauseRegistry
unloaded = record { state = new_pause_snapshot []; dispatch_paused = [] }

a_node-Agrees : Agrees healthy.stored_time a_node
unfolding new_pause_registry find_pause
a_node-Agrees =
    let loaded = (refresh_pauses-pause_of get_consumer unloaded).1 (a_pause ∷ []) in
    (loaded.1, λ j. as_given healthy.stored_time _ _ (loaded.2 j))

abbrev exists_any : String → Bool
exists_any id = true

abbrev handling : Handling
handling = record { db = healthy; get_fails = false; counts_fail = false; now = 30 }

abbrev requests : List (Handling × PauseRequest)
requests =
    (handling, put_global "secret" a_request [])
    ∷ (handling, delete_consumer a_directory a_request)
    ∷ []

handle_all-Agrees_example :
    Agrees healthy.stored_time (handle_all exists_any get_consumer a_node requests)
handle_all-Agrees_example =
    handle_all-Agrees exists_any get_consumer healthy.stored_time a_node requests (refl, (refl, tt))
      a_node-Agrees

abbrev a_dead_node : DeadNode
a_dead_node = record { tables = some_tables; dead_counts = λ id. 1 }

dead_job_requests-delivered_example :
    (delivered "j1" a_dead_node.tables
      ≤ delivered "j1"
          (post_requeue healthy 30 5 a_directory a_request a_dead_node jobs "j1").0.tables)
    × (delivered "j1" a_dead_node.tables
        ≤ delivered "j1" (purge_dead_jobs healthy 30 5 a_directory a_request a_dead_node).0.tables)
    × (delivered "j1" a_dead_node.tables
        ≤ delivered "j1"
            (delete_dead_job_request healthy 30 5 a_directory a_request a_dead_node jobs
              "j1").0.tables)
dead_job_requests-delivered_example =
    dead_job_requests-delivered healthy 30 5 a_directory a_request a_dead_node jobs "j1" "j1"
