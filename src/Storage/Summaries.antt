-- ===== src/Storage/Summaries.antt =====
-- storage/dlqsummaryrepo.go, and GetDeadJobCountsSinceCheckpoint of storage/deliveryjobrepo.go. A table is
-- its list of rows; `names` is the consumer's name, its channel's id and its channel's name, where the
-- query for them finds them. GROUP BY gives the groups in the order of their last rows.
use Prim.Native.Nat.{◌/◌}
use webhook_broker.Base.{
  ℕ, suc, ◌+◌, ◌-◌, ◌*◌, String, Bool, ◌&&◌, ◌||◌, not, ◌==◌, ltb, leb, str_eq, if◌then◌else◌,
  Option, none, some, List, [], ◌∷◌, ◌++◌,
}
use webhook_broker.Data.{job_dead}
use webhook_broker.Config.DispatchPause.{second}
use webhook_broker.Storage.Tables.{JobRow, count_where, update_where}
use webhook_broker.Storage.Transactions.{Error, db_error, Database}
use webhook_broker.Storage.Parking.{listed}

-- A row of `dlq_summary`, and DLQSummary of storage/data/dlqsummary.go.
pub record Summary : Type 0 where
  pub consumer_id : String
  pub consumer_name : String
  pub channel_id : String
  pub channel_name : String
  pub dead_count : ℕ
  pub last_checked_at : ℕ

abbrev pub of_summary : String → Summary → Bool
of_summary id s = str_eq s.consumer_id id

abbrev pub Outcome : Type 0
Outcome = List Summary × Option Error

-- The end of transactionalOperations.
abbrev pub commit : Database → List Summary → List Summary → Outcome
commit db before after = if db.commit_fails then (before, some db_error) else (after, none)

abbrev pub counted : Summary → Summary → Summary
counted s row = record s { dead_count = row.dead_count + s.dead_count }

-- What a row keeps of a summary: its time as the column keeps it.
abbrev pub summary_row : Database → Summary → Summary
summary_row db s = record s { last_checked_at = db.stored_time s.last_checked_at }

-- The transaction of UpsertCounts for one summary.
unfoldable pub upsert_count : Database → Summary → List Summary → Outcome
unfolding count_where update_where
upsert_count db s rows =
    if db.begin_fails || db.exec_fails 0
    then (rows, some db_error)
    else if ltb 0 (count_where (of_summary s.consumer_id) rows)
    then commit db rows (update_where (of_summary s.consumer_id) (counted (summary_row db s)) rows)
    else if db.exec_fails 1
    then (rows, some db_error)
    else commit db rows (rows ++ summary_row db s ∷ [])

-- UpsertCounts; `db i` says what fails in the i-th transaction.
unfoldable pub upsert_counts : (ℕ → Database) → ℕ → List Summary → List Summary → Outcome
unfolding upsert_count
upsert_counts db i [] rows = (rows, none)
upsert_counts db i (s ∷ ss) rows =
    let (rows', err) = upsert_count (db i) s rows in
    elim err [ none ↦ upsert_counts db (suc i) ss rows' | some e ↦ (rows', some e) ]

-- DecrementCount
unfoldable pub decrement_count : Database → String → ℕ → List Summary → Outcome
unfolding update_where
decrement_count db id count rows =
    if count == 0
    then (rows, none)
    else if db.begin_fails || db.exec_fails 0
    then (rows, some db_error)
    else commit db rows (
        update_where (of_summary id)
          (λ s. record s {
            dead_count = if leb count s.dead_count then s.dead_count - count else 0;
          })
          rows)

abbrev pub is_dead_of : String → JobRow → Bool
is_dead_of id r = str_eq r.consumer_id id && r.status == job_dead

-- SELECT consumerId, COUNT(id) … GROUP BY consumerId, of the jobs that pass the WHERE clause.
abbrev pub consumers_of : (JobRow → Bool) → List JobRow → List String
consumers_of p [] = []
consumers_of p (r ∷ rs) =
    let rest = consumers_of p rs in
    if p r && not (listed rest r.consumer_id) then r.consumer_id ∷ rest else rest

abbrev pub count_each : (JobRow → Bool) → List JobRow → List String → List (String × ℕ)
count_each p rows [] = []
count_each p rows (id ∷ ids) =
    (id, count_where (λ r. str_eq r.consumer_id id && p r) rows) ∷ count_each p rows ids

unfoldable pub group_counts : (JobRow → Bool) → List JobRow → List (String × ℕ)
unfolding count_where
group_counts p rows = count_each p rows (consumers_of p rows)

-- GetDeadJobCountsSinceCheckpoint
unfoldable pub get_dead_job_counts_since : Bool → ℕ → List JobRow → Option (List (String × ℕ))
unfolding group_counts
get_dead_job_counts_since query_fails since rows =
    if query_fails
    then none
    else some (group_counts (λ r. r.status == job_dead && ltb since r.status_changed_at) rows)

abbrev pub Names : Type 0
Names = String → Option (String × String × String)

-- The summaries of the groups whose names are found.
unfoldable pub summaries_of : Names → ℕ → List (String × ℕ) → List Summary
summaries_of names now [] = []
summaries_of names now ((id, n) ∷ groups) =
    let rest = summaries_of names now groups in
    elim (names id) [
      | none ↦ rest
      | some (name, channel, channel_name) ↦
          record {
            consumer_id = id;
            consumer_name = name;
            channel_id = channel;
            channel_name = channel_name;
            dead_count = n;
            last_checked_at = now;
          }
          ∷ rest
    ]

-- The INSERTs of BootstrapCounts, the i-th statement of the transaction on.
unfoldable pub insert_summaries : Database → ℕ → List Summary → List Summary → Option (List Summary)
unfolding count_where
insert_summaries db i [] rows = some rows
insert_summaries db i (s ∷ ss) rows =
    let rest = insert_summaries db (suc i) ss (rows ++ summary_row db s ∷ []) in
    if db.exec_fails i || not (count_where (of_summary s.consumer_id) rows == 0) then none else rest

-- BootstrapCounts
unfoldable pub bootstrap_counts : Database → Bool → Names → ℕ → List JobRow → List Summary → Outcome
unfolding group_counts summaries_of insert_summaries
bootstrap_counts db query_fails names now jobs rows =
    if query_fails || (db.begin_fails || db.exec_fails 0)
    then (rows, some db_error)
    else elim (insert_summaries db 1
        (summaries_of names now (group_counts (λ r. r.status == job_dead) jobs)) []) [
          | none ↦ (rows, some db_error)
          | some fresh ↦ commit db rows fresh
        ]

abbrev pub latest : List Summary → ℕ
latest [] = 0
latest (s ∷ ss) = let m = latest ss in if ltb m s.last_checked_at then s.last_checked_at else m

-- GetLastCheckedAt: its text is cut after the seconds, and no row gives the zero time.
unfoldable pub get_last_checked_at : Bool → List Summary → Option ℕ
get_last_checked_at query_fails rows =
    if query_fails then none else some (latest rows / second * second)
