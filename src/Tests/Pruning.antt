-- ===== src/Tests/Pruning.antt =====
-- Pruning at tables with one delivered message, and the cache at a short history.
use webhook_broker.Base.{ℕ, true, false, [], ◌∷◌, none, some, List, ◌≡◌, refl}
use webhook_broker.Data.{job_delivered, msg_status_dispatched}
use webhook_broker.Storage.Tables.{delete_where}
use webhook_broker.Storage.Transactions.{healthy, transactional_writes, in_transaction_exec}
use webhook_broker.Storage.Pruning.{delete_messages_and_jobs}
use webhook_broker.Storage.Cache.{cache_get}
use webhook_broker.Storage.Caching.{
  CacheCall, set_at, delete_key, cleanup_at, after_calls, last_set, cache_get-last_set,
}
use webhook_broker.Prune.Archive.{Bucket, ArchiveWriteManager}
use webhook_broker.Prune.Service.{PruneSetting, Pruning, prune_passes}
use webhook_broker.Tests.Values.{a_row, some_tables}

abbrev a_bucket : Bucket
a_bucket = record {
  new_writer = λ n. true;
  write = λ n text. some 4;
  close = λ n. true;
  copy = λ n. true;
  overtake = λ n. 1;
}

abbrev pub a_setting : PruneSetting
a_setting = record {
  marshal = λ m jobs. some m.id;
  local_bucket = a_bucket;
  remote_bucket = a_bucket;
  precedes = λ a b. false;
  query_fails = λ pass page. false;
  jobs_fail = λ pass. false;
  delete_db = λ pass. healthy;
  before = λ pass. 30;
}

abbrev a_manager : ArchiveWriteManager
a_manager = record {
  max_size = 100;
  current_size = 0;
  writer = false;
  rotations_due = 0;
  calls = 0;
  written = [];
  buffered = [];
  object = [];
  copies = [];
}

abbrev pub a_pruning : Pruning
a_pruning = record {
  tables = record some_tables {
    job = record a_row { status = job_delivered } ∷ [];
    message =
        record {
          id = "m1";
          created_at = 9;
          status = msg_status_dispatched;
          outboxed_at = 10;
          updated_at = 10;
        }
        ∷ [];
  };
  director = record { local_archive_manager = a_manager; remote_archive_manager = none };
}

abbrev a_history : List (CacheCall ℕ)
a_history = cleanup_at 8 ∷ delete_key "b" ∷ set_at 5 "a" 7 ∷ set_at 4 "b" 6 ∷ []

cache_get-last_set_example :
    cache_get 9 "a" (after_calls 10 a_history) ≡ last_set 10 9 "a" a_history
cache_get-last_set_example = cache_get-last_set 10 9 "a" a_history refl

pruned : (prune_passes a_setting 2 0 a_pruning).0.tables.message ≡ []
unfolding prune_passes delete_messages_and_jobs transactional_writes in_transaction_exec
    delete_where
pruned = refl
