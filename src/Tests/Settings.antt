-- ===== src/Tests/Settings.antt =====
-- A section of the configuration with a page size that is too large, and a tick of the scheduler.
use webhook_broker.Base.{ℕ, String, Bool, true, false, str_eq, none, some, [], ◌∷◌, arith}
use webhook_broker.Data.{ScheduledMessage, Producer, scheduled_msg_status_scheduled}
use webhook_broker.Storage.Tables.{count_where}
use webhook_broker.Storage.Transactions.{healthy}
use webhook_broker.Config.DispatchPause.{Section, Config, setup_dispatch_pause_configuration}
use webhook_broker.Scheduler.Service.{Schedule, Meanwhile, process_scheduled_messages}
use webhook_broker.Scheduler.Once.{Once, process_scheduled_messages-Once}
use webhook_broker.Tests.Values.{stored, a_channel, some_tables}

abbrev a_section : Section
a_section = record {
  has_key = λ k. str_eq k "drain-page-size";
  text = λ k. "";
  uint = λ k. some 10000;
  bool = λ k. none;
}

abbrev a_config : Config
a_config = record {
  dispatch_pause_admin_token = "";
  registry_refresh_interval_seconds = 0;
  drain_interval_seconds = 0;
  drain_page_size = 0;
  handoff_mode = "";
  handoff_lease_seconds = 0;
  handoff_timeout_seconds = 0;
  handoff_max_attempts = 0;
  handoff_concurrency = 0;
  handoff_high_water_mark = 0;
  handoff_local_fallback_disabled = false;
  rational_delay = 2_000_000_000;
  max_message_queue_size = 100;
  default_consumer_max_concurrency = 0;
  consumer_max_concurrency_overrides = [];
  export_node_name = "";
  message_retention_days = 0;
}

abbrev read : Config
read = setup_dispatch_pause_configuration (some a_section) a_config

abbrev a_producer : Producer
a_producer = record {
  stakeholder = record { base = stored "p"; name = "desk"; token = "t" };
  producer_id = "desk";
}

abbrev a_scheduled : ScheduledMessage
a_scheduled = record {
  base = stored "s1";
  message_id = "later";
  payload = "text";
  content_type = "text/plain";
  priority = 1;
  status = scheduled_msg_status_scheduled;
  broadcasted_to = some a_channel;
  produced_by = some a_producer;
  dispatch_schedule = 20;
  dispatched_at = 0;
  headers = [];
}

abbrev a_schedule : Schedule
a_schedule = record {
  tables = some_tables;
  messages = [];
  scheduled = a_scheduled ∷ [];
  dispatched = [];
  error_count = 0;
  dispatched_count = 0;
}

abbrev meanwhile : ℕ → Meanwhile
meanwhile n = record {
  clock = λ i. 30;
  fresh = "m7";
  fresh_message = "x7";
  at = 31;
  get_fails = false;
  lock_db = healthy;
  create_db = healthy;
  mark_db = healthy;
  release_db = healthy;
}

abbrev lock_id : ScheduledMessage → String
lock_id m = m.base.id

abbrev all_loaded : ScheduledMessage → Bool
all_loaded m = true

a_schedule-Once : Once a_schedule
unfolding count_where
a_schedule-Once channel id = (omega arith, omega arith)

process_scheduled_messages-Once_example :
    Once (process_scheduled_messages meanwhile lock_id all_loaded false 10 30 a_schedule)
process_scheduled_messages-Once_example =
    process_scheduled_messages-Once meanwhile lock_id all_loaded false 10 30 a_schedule
      a_schedule-Once
