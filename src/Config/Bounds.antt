-- ===== src/Config/Bounds.antt =====
-- The bounds that the drainer and the hand-off rely on, config/dispatch_pause_config.go.
use webhook_broker.Base.{ℕ, ◌*◌, ◌≤◌, String, some, arith}
use webhook_broker.Config.DispatchPause.{
  Section, Config, second, uint_or_default, seconds_or_default, bounded_uint,
  setup_dispatch_pause_configuration, get_drain_page_size, get_handoff_lease,
  get_handoff_max_attempts, get_handoff_concurrency, get_handoff_timeout, get_drain_interval,
  get_registry_refresh_interval,
}

bounded_uint-within :
    (s : Section) (key : String) (default_value min max : ℕ)
    → min ≤ default_value
    → default_value ≤ max
    → let v = bounded_uint s key default_value min max in (min ≤ v) × (v ≤ max)
unfolding bounded_uint
bounded_uint-within s key default_value min max low high = ground arith

uint_or_default-within :
    (v default_value max : ℕ)
    → (1 ≤ v) × (v ≤ max)
    → let u = uint_or_default v default_value in (1 ≤ u) × (u ≤ max)
unfolding uint_or_default
uint_or_default-within v default_value max within = ground arith

seconds_or_default-within :
    (v default_value max : ℕ)
    → (1 ≤ v) × (v ≤ max)
    → let u = seconds_or_default v default_value in (second ≤ u) × (u ≤ max * second)
unfolding seconds_or_default
seconds_or_default-within v default_value max within =
    let (low, high) = uint_or_default-within v default_value max within in
    (omega (arith, low), omega (arith, high))

-- A configuration whose section was read.
module _ (s : Section) (given : Config) where
  abbrev read : Config
  read = setup_dispatch_pause_configuration (some s) given

  pub setup_dispatch_pause_configuration-within :
      let within = λ (low high v : ℕ). (low ≤ v) × (v ≤ high) in
      within 1 500 (get_drain_page_size read)
      × within second (60 * second) (get_drain_interval read)
      × within second (300 * second) (get_registry_refresh_interval read)
      × within 1 10 (get_handoff_max_attempts read)
      × within 1 64 (get_handoff_concurrency read)
      × within second (60 * second) (get_handoff_timeout read)
      × (5 * read.rational_delay ≤ get_handoff_lease read)
  unfolding get_drain_page_size get_drain_interval get_registry_refresh_interval
      get_handoff_max_attempts get_handoff_concurrency get_handoff_timeout get_handoff_lease
      setup_dispatch_pause_configuration
  setup_dispatch_pause_configuration-within = (
    uint_or_default-within read.drain_page_size 50 500
        (bounded_uint-within s "drain-page-size" 50 1 500 (omega arith) (omega arith)),
    seconds_or_default-within read.drain_interval_seconds 1 60
        (bounded_uint-within s "drain-interval-seconds" 1 1 60 (omega arith) (omega arith)),
    seconds_or_default-within read.registry_refresh_interval_seconds 5 300 (
        bounded_uint-within s "registry-refresh-interval-seconds" 5 1 300 (omega arith)
          (omega arith)),
    uint_or_default-within read.handoff_max_attempts 3 10
        (bounded_uint-within s "handoff-max-attempts" 3 1 10 (omega arith) (omega arith)),
    uint_or_default-within read.handoff_concurrency 4 64
        (bounded_uint-within s "handoff-concurrency" 4 1 64 (omega arith) (omega arith)),
    seconds_or_default-within read.handoff_timeout_seconds 5 60
        (bounded_uint-within s "handoff-timeout-seconds" 5 1 60 (omega arith) (omega arith)),
    ground arith,
  )
