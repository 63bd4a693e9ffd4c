-- ===== src/Parking/Wiring.antt =====
-- NewDrainer of parking/drainer.go, from the configuration, and what the settings give a run.
use webhook_broker.Base.{ℕ, ◌≤◌, ltb, String, true, false, none, some, List, ◌≡◌, refl, arith}
use webhook_broker.Storage.Tables.{Tables, count_where, effectively_paused}
use webhook_broker.Storage.Parking.{of_consumer, listed}
use webhook_broker.Config.DispatchPause.{
  Section, Config, setup_dispatch_pause_configuration, is_http_handoff_enabled,
  get_handoff_max_attempts, get_handoff_concurrency, get_drain_page_size, get_handoff_lease,
  is_handoff_local_fallback_enabled,
}
use webhook_broker.Config.Bounds.{setup_dispatch_pause_configuration-within}
use webhook_broker.Parking.Handoff.{new_handoff_sender, saturated}
use webhook_broker.Parking.Drainer.{Drainer, Surroundings, drain_round_robin}
use webhook_broker.Parking.Liveness.{drain_round_robin-drained}

-- The endpoint, the secret and the timeout go into the request alone; a part that is nil, which panics,
-- is left out.
unfoldable pub new_drainer : Config → Tables → Drainer
unfolding new_handoff_sender is_http_handoff_enabled get_handoff_max_attempts
    get_handoff_concurrency
new_drainer c t = record {
  tables = t;
  handoff = new_handoff_sender (record {
    http_enabled = is_http_handoff_enabled c;
    max_attempts = get_handoff_max_attempts c;
    concurrency = get_handoff_concurrency c;
    local_fallback = is_handoff_local_fallback_enabled c;
  });
  lock = none;
  drained_jobs_total = 0;
  last_count_refresh = 0;
  parked_job_count = λ ch c. none;
  logged_errors = 0;
}

module _ (s : Section) (given : Config) where
  abbrev read : Config
  read = setup_dispatch_pause_configuration (some s) given

  -- A new drainer's hand-off is open and not saturated, whatever the section says.
  pub new_drainer-saturated :
      (t : Tables)
      → ((new_drainer read t).handoff.closed ≡ false)
        × (saturated (new_drainer read t).handoff ≡ false)
  unfolding new_drainer saturated new_handoff_sender
  new_drainer-saturated t = (refl, ground arith)

  -- The run with the page size and the lease of the configuration drains what it is given.
  pub configured_drained :
      (around : Surroundings) (id : String) (fuel : ℕ) (ids : List String) (n : ℕ) (d d' : Drainer)
      → drain_round_robin (get_drain_page_size read) (get_handoff_lease read) around fuel ids n d
        ≡ some (true, d')
      → ((m : ℕ) → around.stopping m ≡ false)
      → saturated d'.handoff ≡ false
      → d'.logged_errors ≡ d.logged_errors
      → effectively_paused d.tables.dispatch_pause id ≡ false
      → listed ids id ≡ true
      → count_where (of_consumer id) d'.tables.job_parking ≡ 0
  configured_drained around id fuel ids n d d' =
      drain_round_robin-drained (get_drain_page_size read) (get_handoff_lease read) around id
        (positive (setup_dispatch_pause_configuration-within s given).0.0) fuel ids n d d'
    where
      positive : {m : ℕ} → 1 ≤ m → ltb 0 m ≡ true
      positive le = ground arith
