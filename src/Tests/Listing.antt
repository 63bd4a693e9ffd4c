-- ===== src/Tests/Listing.antt =====
-- A table read page by page, and the tables of channels and of the dead jobs' counts.
use webhook_broker.Base.{
  is_some, ℕ, Bool, true, false, ltb, str_eq, none, some, List, [], ◌∷◌, All, ◌⊎◌, ◌≡◌, refl, arith,
}
use webhook_broker.Text.Strings.{Bytes}
use webhook_broker.Data.{Channel, new_channel, job_dead}
use webhook_broker.Data.Cursors.{Cursor}
use webhook_broker.Storage.Tables.{count_where}
use webhook_broker.Storage.Transactions.{healthy}
use webhook_broker.Storage.Pages.{walk}
use webhook_broker.Storage.Ranks.{by_rank, Falling}
use webhook_broker.Storage.Walking.{Aligned, walk-by_rank}
use webhook_broker.Storage.Stakeholders.{channel_kind, get_by_key, store}
use webhook_broker.Storage.RowKeys.{row_of, channel_laws, UniqueKeys}
use webhook_broker.Storage.Storing.{Stored, store-Stored}
use webhook_broker.Storage.Cache.{new_memory_cache}
use webhook_broker.Storage.Cached.{
  Repository, Call, get_call, store_call, tick, answer_all, cached_get,
}
use webhook_broker.Storage.Coherence.{Coherent, cached_get-row_of}
use webhook_broker.Dlq.Updater.{Updater, Cycle, process_update}
use webhook_broker.Dlq.Counts.{Refreshed, process_update-Refreshed}
use webhook_broker.Dlq.Increments.{checked_at, Grown, process_update-Grown}
use webhook_broker.Storage.Summaries.{Summary}
use webhook_broker.Storage.Locks.{new_lock, try_lock}
use webhook_broker.Controllers.Registration.{PutRequest, Putting, put_channel}
use webhook_broker.Controllers.Registered.{Put, put-Put, channel_makes}
use webhook_broker.Tests.Values.{a_channel, a_row, some_tables}

-- Rows that are numbers: their ids and their times are in one order.
abbrev precedes : Bytes → Bytes → Bool
precedes [] y = false
precedes (a ∷ x) [] = false
precedes (a ∷ x) (b ∷ y) = ltb a b

abbrev cursor : ℕ → Cursor
cursor n = record { id = n ∷ []; timestamp = n }

abbrev three : List ℕ
three = 2 ∷ 1 ∷ 3 ∷ []

abbrev self : ℕ → ℕ
self n = n

aligned : (x y : ℕ) → Aligned precedes cursor self x y
aligned x y = ((refl, λ h. h), (refl, λ h. h))

with-All : (x : ℕ) → All (Aligned precedes cursor self x) three
with-All x = (aligned x 2, (aligned x 1, (aligned x 3, tt)))

walk-by_rank_example :
    (walk precedes cursor 2 4 none three ≡ by_rank self three)
    × Falling self (by_rank self three)
    × ((p : ℕ → Bool) → count_where p (by_rank self three) ≡ count_where p three)
walk-by_rank_example =
    walk-by_rank precedes cursor self three (with-All 2, (with-All 1, (with-All 3, tt)))
      (((λ e. omega arith), ((λ e. omega arith), tt)), (((λ e. omega arith), tt), (tt, tt))) 1 4
      (omega arith)

one_channel : UniqueKeys channel_kind channel_laws str_eq (a_channel ∷ [])
unfolding count_where
one_channel k = ground arith

abbrev renamed_channel : Channel
renamed_channel = record a_channel {
  stakeholder = record (a_channel.stakeholder) { name = "weather" };
}

abbrev now : ℕ → ℕ
now i = 20

store-Stored_example :
    let (rows, b, err) =
      store channel_kind str_eq healthy false now "fresh" renamed_channel (a_channel ∷ []) in
    Stored channel_kind channel_laws str_eq healthy renamed_channel (a_channel ∷ []) rows b err
store-Stored_example =
    store-Stored channel_kind channel_laws str_eq healthy renamed_channel (a_channel ∷ []) false now
      "fresh" (λ x. refl) one_channel

abbrev calls : List (Call Channel)
calls =
    get_call 5 false "news"
    ∷ store_call healthy false now "fresh" renamed_channel
    ∷ tick 30
    ∷ get_call 31 false "news"
    ∷ []

abbrev after_calls : Repository Channel
after_calls =
    answer_all channel_kind str_eq calls
      (record { rows = a_channel ∷ []; cache = new_memory_cache 10 })

cached_get-row_of_example :
    let v =
      (cached_get 32 "news"
        (get_by_key channel_kind str_eq false "news" after_calls.rows)
        after_calls.cache).0 in
    (v ≡ row_of channel_kind channel_laws str_eq "news" after_calls.rows)
    ⊎ ((false ≡ true) × (v ≡ none))
cached_get-row_of_example =
    cached_get-row_of channel_kind channel_laws str_eq 10 (a_channel ∷ []) calls 32 false "news"
      one_channel (λ x. refl, (λ x. refl, (tt, (λ x. refl, tt)))) (λ x. refl)

abbrev a_cycle : Cycle
a_cycle = record {
  last_checked_fails = false;
  counts_fail = false;
  gauges_fail = false;
  lock_db = healthy;
  release_db = healthy;
  bootstrap_db = healthy;
  upsert_db = λ i. healthy;
  names = λ id. some ("first", "news", "News");
  now = 50;
  interval = 10;
}

abbrev an_updater : Updater
an_updater = record {
  tables = record some_tables { job = record a_row { status = job_dead } ∷ [] };
  summaries = [];
  gauges = [];
}

process_update-Refreshed_example :
    ((process_update a_cycle an_updater).tables.job ≡ an_updater.tables.job)
    × Refreshed a_cycle an_updater (process_update a_cycle an_updater)
process_update-Refreshed_example = process_update-Refreshed a_cycle an_updater refl

-- A second cycle, a minute after the summary that the first left.
abbrev a_summary : Summary
a_summary = record {
  consumer_id = "c1";
  consumer_name = "first";
  channel_id = "news";
  channel_name = "News";
  dead_count = 2;
  last_checked_at = 5000000000;
}

abbrev a_later_updater : Updater
a_later_updater = record an_updater { summaries = a_summary ∷ [] }

abbrev a_later_cycle : Cycle
a_later_cycle = record a_cycle { now = 65000000000; interval = 10000000000 }

process_update-Grown_example :
    let v = process_update a_later_cycle a_later_updater in
    (v.tables.job ≡ a_later_updater.tables.job)
    × (((v.summaries ≡ a_later_updater.summaries)
          × ((is_some
                  (try_lock healthy a_later_updater.tables
                    (new_lock (some "dlq-summary-updater") a_later_cycle.now).0).1
                ≡ true)
              ⊎ ((false ≡ true) ⊎ (false ≡ true))))
        ⊎ Grown a_later_cycle a_later_updater (checked_at a_later_updater) v)
process_update-Grown_example =
    process_update-Grown a_later_cycle a_later_updater (λ e. omega arith) (omega arith)

abbrev a_put : PutRequest
a_put = record {
  media_type = "application/x-www-form-urlencoded";
  unmodified_since = "Mon, 01 Jan 0001 00:00:00 GMT";
  token = "t2";
  name = "";
}

abbrev a_putting : Putting
a_putting = record {
  now = 12;
  http_time = λ t. "Mon, 01 Jan 0001 00:00:00 GMT";
  random_token = "random";
  fresh_object = "c2";
  fresh = "c3";
  clock = now;
  get_fails = false;
  query_fails = false;
  store_db = healthy;
}

abbrev a_repository : Repository Channel
a_repository = record { rows = a_channel ∷ []; cache = new_memory_cache 10 }

a_repository-Coherent : Coherent channel_kind channel_laws str_eq a_repository
unfolding new_memory_cache
a_repository-Coherent = (tt, one_channel)

put-Put_example :
    let out = put_channel str_eq a_putting a_put "news" a_repository in
    Put channel_kind channel_laws new_channel str_eq a_putting a_put "news" a_repository out.0 out.1
put-Put_example =
    put-Put channel_kind channel_laws new_channel str_eq a_putting a_put "news" a_repository
      (channel_makes str_eq a_putting) (λ x. refl) a_repository-Coherent
