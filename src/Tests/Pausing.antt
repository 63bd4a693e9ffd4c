-- ===== src/Tests/Pausing.antt =====
-- The pauses at a registry that one consumer's pause was loaded into, and the smaller parts.
use webhook_broker.Base.{
  ℕ, suc, ◌+◌, ◌*◌, ◌++◌, All, ◌≤◌, String, true, false, not, ◌&&◌, ◌||◌, if◌then◌else◌, Option,
  none, some, List, [], ◌∷◌, length, ◌≡◌, ◌≢◌, refl, arith,
}
use webhook_broker.Data.{DispatchPause, global_dispatch_pause_scope, is_global}
use webhook_broker.Dispatcher.Pause.{
  PauseRegistry, new_pause_snapshot, IsSnapshot, pause_of, last_of, is_effectively_paused,
  refresh_pauses, new_pause_registry, refresh_pauses-repo_is_effectively_paused,
  refresh_pauses-pause_of,
}
use webhook_broker.Parking.Handoff.{
  HandoffConfiguration, HandoffMetrics, at_least_one, new_handoff_sender, send, some_accepted,
  send_lem,
}
use webhook_broker.Parking.Passage.{
  HandoffStep, submits, receives, stops, MayRefuse, run_handoff, run_handoff-in_order,
}
use webhook_broker.Storage.Pausing.{get_all_pauses, repo_is_effectively_paused}
use webhook_broker.Tests.Values.{a_job, a_pause, get_consumer, a_registry, paused_tables}

abbrev unloaded : PauseRegistry
unloaded = record { state = new_pause_snapshot []; dispatch_paused = [] }

a_registry-IsSnapshot : IsSnapshot a_registry.state
unfolding new_pause_registry
a_registry-IsSnapshot = ((refresh_pauses-pause_of get_consumer unloaded).1 (a_pause ∷ [])).1

abbrev everything : DispatchPause
everything = record {
  scope = global_dispatch_pause_scope;
  consumer_id = "";
  reason = [];
  paused_at = 13;
}

refresh_pauses-repo_is_effectively_paused_example :
    let loaded = refresh_pauses get_consumer unloaded (get_all_pauses false paused_tables) in
    repo_is_effectively_paused false paused_tables "c1" ≡ some (is_effectively_paused loaded.0 "c1")
refresh_pauses-repo_is_effectively_paused_example =
    refresh_pauses-repo_is_effectively_paused get_consumer unloaded paused_tables "c1"

refresh_pauses-pause_of_example :
    (refresh_pauses get_consumer a_registry none ≡ (a_registry, true))
    × ((ps : List DispatchPause)
        → let t = refresh_pauses get_consumer a_registry (some ps) in
          (t.1 ≡ false)
          × IsSnapshot t.0.state
          × ((j : String) → pause_of t.0.state j ≡ last_of ps j))
refresh_pauses-pause_of_example = refresh_pauses-pause_of get_consumer a_registry

a_pause_local : is_global a_pause ≡ false
unfolding is_global
a_pause_local = refl

nine_nonzero : ◌≢◌ {A = ℕ} 9 0
nine_nonzero e = absurd (omega arith)

abbrev delays : List ℕ
delays = 5 ∷ 30 ∷ 60 ∷ []

abbrev two_attempts : HandoffConfiguration
two_attempts = record {
  http_enabled = true;
  max_attempts = 2;
  concurrency = 1;
  local_fallback = true;
}

abbrev no_requests : HandoffMetrics
no_requests = record { accepted = 0; busy = 0; error = 0; enqueued_locally = 0; failures = 0 }

abbrev always_busy : ℕ → Option ℕ
always_busy i = some 503

send_lem_example :
    let (p, locally) = send always_busy two_attempts no_requests in
    let accepted = some_accepted always_busy two_attempts.max_attempts 1 in
    (locally ≡ (not two_attempts.http_enabled || (not accepted && two_attempts.local_fallback)))
    × (p.accepted + p.busy + p.error
        ≤ no_requests.accepted + no_requests.busy + no_requests.error + two_attempts.max_attempts)
    × (p.failures ≡ (
        if two_attempts.http_enabled && not accepted
        then suc no_requests.failures
        else no_requests.failures))
    × (p.enqueued_locally
        ≡ (if locally then suc no_requests.enqueued_locally else no_requests.enqueued_locally))
send_lem_example = send_lem always_busy two_attempts no_requests

abbrev hand_off_steps : List HandoffStep
hand_off_steps =
    submits (a_job ∷ [])
    ∷ submits (a_job ∷ [])
    ∷ submits (a_job ∷ [])
    ∷ receives
    ∷ stops
    ∷ submits (a_job ∷ [])
    ∷ []

run_handoff-in_order_example :
    let out = run_handoff (new_handoff_sender two_attempts) hand_off_steps in
    (out.received ++ out.sender.pending ≡ out.accepted)
    × (length out.sender.pending ≤ at_least_one two_attempts.concurrency * 2)
    × All MayRefuse out.refused_at
run_handoff-in_order_example = run_handoff-in_order two_attempts hand_off_steps
