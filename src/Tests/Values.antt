-- ===== src/Tests/Values.antt =====
-- Values that the tests share.
use webhook_broker.Base.{String, Option, none, some, [], ◌∷◌}
use webhook_broker.Data.{
  BasePaginateable, Channel, Consumer, DeliveryJob, DispatchPause, push_consumer, job_queued,
}
use webhook_broker.Storage.Tables.{JobRow, ParkedRow, Tables, LockRow}
use webhook_broker.Dispatcher.Pause.{PauseRegistry, new_pause_registry}

abbrev pub stored : String → BasePaginateable
stored id = record { id = id; created_at = 10; updated_at = 10 }

abbrev pub a_channel : Channel
a_channel = record {
  stakeholder = record { base = stored "ch"; name = "news"; token = "t" };
  channel_id = "news";
}

abbrev pub a_consumer : Consumer
a_consumer = record {
  stakeholder = record { base = stored "c1"; name = "first"; token = "t" };
  consumer_id = "first";
  callback_url = "http://first";
  consuming_from = some a_channel;
  consumer_type = push_consumer;
}

-- A job of the consumer, whose row is queued for its first attempt.
abbrev pub a_job : DeliveryJob
a_job = record {
  base = stored "j1";
  message = none;
  listener = some a_consumer;
  status = job_queued;
  status_changed_at = 10;
  dispatch_received_at = 10;
  earliest_next_attempt_at = 10;
  retry_attempt_count = 0;
  priority = 2;
  incremental_timeout = 0;
}

abbrev pub a_row : JobRow
a_row = record {
  id = "j1";
  message_id = "m1";
  consumer_id = "c1";
  status = job_queued;
  dispatch_received_at = 10;
  status_changed_at = 10;
  earliest_next_attempt_at = 10;
  retry_attempt_count = 0;
  created_at = 10;
  updated_at = 10;
  priority = 2;
  incremental_timeout = 0;
}

abbrev pub a_parked_row : ParkedRow
a_parked_row = record {
  seq = 1;
  id = "j2";
  message_id = "m2";
  consumer_id = "c1";
  dispatch_received_at = 10;
  retry_attempt_count = 0;
  earliest_next_attempt_at = 10;
  priority = 2;
  incremental_timeout = 0;
  created_at = 9;
  parked_at = 11;
}

-- The consumer's pause, and tables with one queued and one parked job.
abbrev pub a_pause : DispatchPause
a_pause = record { scope = "c1"; consumer_id = "c1"; reason = 97 ∷ []; paused_at = 12 }

abbrev pub some_tables : Tables
some_tables = record {
  job = a_row ∷ [];
  job_parking = a_parked_row ∷ [];
  next_seq = 2;
  dispatch_pause = [];
  lock = [];
  message = [];
}

abbrev pub paused_tables : Tables
paused_tables = record some_tables { dispatch_pause = a_pause ∷ [] }

abbrev pub a_lock : LockRow
a_lock = record { lock_id = "drain"; attained_at = 20 }

abbrev pub get_consumer : String → Option Consumer
get_consumer id = some a_consumer

abbrev pub a_registry : PauseRegistry
a_registry = new_pause_registry get_consumer (some (a_pause ∷ []))
