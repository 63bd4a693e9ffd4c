-- ===== src/Config/DispatchPause.antt =====
-- config/dispatch_pause_config.go, and of config/config.go the limit per consumer and whether messages
-- are pruned. The section of the ini file is the library's: whether it has a key, the key's text, and
-- its value as a number or a Boolean, if it can be read as one. A duration is in nanoseconds.
use Prim.Native.Nat.{◌/◌}
use webhook_broker.Base.{
  ℕ, ◌*◌, String, Bool, true, ◌&&◌, ◌||◌, not, ◌==◌, ltb, str_eq, if◌then◌else◌, Option, none, some,
  Map, lookup,
}
use webhook_broker.Data.{is_empty}

pub record Section : Type 0 where
  pub has_key : String → Bool
  pub text : String → String
  pub uint : String → Option ℕ
  pub bool : String → Option Bool

-- The settings of Config that these functions use.
pub record Config : Type 0 where
  pub dispatch_pause_admin_token : String
  pub registry_refresh_interval_seconds : ℕ
  pub drain_interval_seconds : ℕ
  pub drain_page_size : ℕ
  pub handoff_mode : String
  pub handoff_lease_seconds : ℕ
  pub handoff_timeout_seconds : ℕ
  pub handoff_max_attempts : ℕ
  pub handoff_concurrency : ℕ
  pub handoff_high_water_mark : ℕ
  pub handoff_local_fallback_disabled : Bool
  pub rational_delay : ℕ
  pub max_message_queue_size : ℕ
  pub default_consumer_max_concurrency : ℕ
  pub consumer_max_concurrency_overrides : Map ℕ
  pub export_node_name : String
  pub message_retention_days : ℕ

abbrev pub second : ℕ
second = 1_000_000_000

unfoldable pub uint_or_default : ℕ → ℕ → ℕ
uint_or_default value default_value = if value == 0 then default_value else value

unfoldable pub seconds_or_default : ℕ → ℕ → ℕ
unfolding uint_or_default
seconds_or_default value default_value = uint_or_default value default_value * second

unfoldable pub bounded_uint : Section → String → ℕ → ℕ → ℕ → ℕ
bounded_uint s key default_value min max =
    if not (s.has_key key) then default_value else elim (s.uint key) [
      | none ↦ default_value
      | some value ↦ if ltb value min || ltb max value then default_value else value
    ]

-- MustString and MustBool
abbrev pub must_string : Section → String → String → String
must_string s key default_value = if is_empty (s.text key) then default_value else s.text key

abbrev pub must_bool : Section → String → Bool → Bool
must_bool s key default_value = elim (s.bool key) [ none ↦ default_value | some b ↦ b ]

abbrev pub is_handoff_mode : String → Bool
is_handoff_mode mode = str_eq mode "http" || str_eq mode "local"

-- setupDispatchPauseConfiguration; without the section the configuration stays.
unfoldable pub setup_dispatch_pause_configuration : Option Section → Config → Config
unfolding bounded_uint
setup_dispatch_pause_configuration none c = c
setup_dispatch_pause_configuration (some s) c =
    let mode = must_string s "handoff-mode" "http" in
    record c {
      dispatch_pause_admin_token = must_string s "admin-token" "";
      registry_refresh_interval_seconds =
          bounded_uint s "registry-refresh-interval-seconds" 5 1 300;
      drain_interval_seconds = bounded_uint s "drain-interval-seconds" 1 1 60;
      drain_page_size = bounded_uint s "drain-page-size" 50 1 500;
      handoff_mode = if is_handoff_mode mode then mode else "http";
      handoff_lease_seconds = bounded_uint s "handoff-lease-seconds" 60 1 3600;
      handoff_timeout_seconds = bounded_uint s "handoff-timeout-seconds" 5 1 60;
      handoff_max_attempts = bounded_uint s "handoff-max-attempts" 3 1 10;
      handoff_concurrency = bounded_uint s "handoff-concurrency" 4 1 64;
      handoff_high_water_mark = bounded_uint s "handoff-high-water-mark" 0 0 2_147_483_647;
      handoff_local_fallback_disabled = not (must_bool s "handoff-local-fallback" true);
    }

module _ (c : Config) where
  abbrev pub is_admin_token_configured : Bool
  is_admin_token_configured = not (is_empty c.dispatch_pause_admin_token)

  unfoldable pub get_registry_refresh_interval : ℕ
  unfolding seconds_or_default
  get_registry_refresh_interval = seconds_or_default c.registry_refresh_interval_seconds 5

  unfoldable pub get_drain_interval : ℕ
  unfolding seconds_or_default
  get_drain_interval = seconds_or_default c.drain_interval_seconds 1

  unfoldable pub get_drain_page_size : ℕ
  unfolding uint_or_default
  get_drain_page_size = uint_or_default c.drain_page_size 50

  unfoldable pub get_handoff_mode : String
  get_handoff_mode = if is_handoff_mode c.handoff_mode then c.handoff_mode else "http"

  unfoldable pub is_http_handoff_enabled : Bool
  unfolding get_handoff_mode
  is_http_handoff_enabled = str_eq get_handoff_mode "http" && is_admin_token_configured

  unfoldable pub get_handoff_lease : ℕ
  unfolding seconds_or_default
  get_handoff_lease =
      let lease = seconds_or_default c.handoff_lease_seconds 60 in
      if ltb lease (5 * c.rational_delay) then 5 * c.rational_delay else lease

  unfoldable pub get_handoff_timeout : ℕ
  unfolding seconds_or_default
  get_handoff_timeout = seconds_or_default c.handoff_timeout_seconds 5

  unfoldable pub get_handoff_max_attempts : ℕ
  unfolding uint_or_default
  get_handoff_max_attempts = uint_or_default c.handoff_max_attempts 3

  unfoldable pub get_handoff_concurrency : ℕ
  unfolding uint_or_default
  get_handoff_concurrency = uint_or_default c.handoff_concurrency 4

  unfoldable pub get_handoff_high_water_mark : ℕ
  get_handoff_high_water_mark =
      let half = c.max_message_queue_size / 2 in
      if ltb 0 c.handoff_high_water_mark
      then c.handoff_high_water_mark
      else if ltb half 1
      then 1
      else half

  abbrev pub is_handoff_local_fallback_enabled : Bool
  is_handoff_local_fallback_enabled = not c.handoff_local_fallback_disabled

  -- GetConsumerMaxConcurrency; `joined` is the channel id, a slash and the consumer id.
  unfoldable pub get_consumer_max_concurrency : (String → String → String) → String → String → ℕ
  get_consumer_max_concurrency joined channel consumer =
      elim (lookup (joined channel consumer) c.consumer_max_concurrency_overrides) [
        | some limit ↦ limit
        | none ↦ elim (lookup consumer c.consumer_max_concurrency_overrides) [
          | some limit ↦ limit
          | none ↦ c.default_consumer_max_concurrency
        ]
      ]

  unfoldable pub is_pruning_enabled : Bool
  is_pruning_enabled = not (is_empty c.export_node_name) && ltb 0 c.message_retention_days
