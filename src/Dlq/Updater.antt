-- ===== src/Dlq/Updater.antt =====
-- dlq/updater.go: one cycle of the DLQ summary updater. The gauges are the labels that DeadJobCount has, with
-- their values; `groups` are given to the loop in the order of the query, for that of the map.
use webhook_broker.Base.{
  ℕ, ◌+◌, String, Bool, ◌==◌, ltb, if◌then◌else◌, Option, none, some, List, [], ◌∷◌, is_some,
}
use webhook_broker.Storage.Tables.{Tables}
use webhook_broker.Storage.Transactions.{Error, Database}
use webhook_broker.Storage.Locks.{new_lock, try_lock, release_lock}
use webhook_broker.Storage.Summaries.{
  Summary, Names, summaries_of, get_dead_job_counts_since, upsert_counts, bootstrap_counts,
  get_last_checked_at,
}

pub record Updater : Type 0 where
  pub tables : Tables
  pub summaries : List Summary
  pub gauges : List (String × String × ℕ)

-- What happens around a cycle: which queries fail, what the database does in the transactions, and
-- when it is now.
pub record Cycle : Type 0 where
  pub last_checked_fails : Bool
  pub counts_fail : Bool
  pub gauges_fail : Bool
  pub lock_db : Database
  pub release_db : Database
  pub bootstrap_db : Database
  pub upsert_db : ℕ → Database
  pub names : Names
  pub now : ℕ
  pub interval : ℕ

abbrev pub gauges_of : List Summary → List (String × String × ℕ)
gauges_of [] = []
gauges_of (s ∷ ss) = (s.channel_id, s.consumer_id, s.dead_count) ∷ gauges_of ss

module _ (c : Cycle) where
  -- updatePrometheusGauges
  unfoldable pub update_gauges : Updater → Updater
  update_gauges u = if c.gauges_fail then u else record u { gauges = gauges_of u.summaries }

  -- A write of the summary, and the gauges if it succeeded.
  abbrev pub with_gauges : Updater → List Summary × Option Error → Updater
  with_gauges u (rows, none) = update_gauges (record u { summaries = rows })
  with_gauges u (rows, some e) = record u { summaries = rows }

  -- processUpdate, from the last check on; a time that is earlier than the last check is not longer
  -- ago than the interval.
  unfoldable pub refresh_summary : ℕ → Updater → Updater
  unfolding update_gauges
  refresh_summary checked u =
      if checked == 0
      then with_gauges u
          (bootstrap_counts c.bootstrap_db c.counts_fail c.names c.now u.tables.job u.summaries)
      else if ltb c.now (checked + c.interval)
      then u
      else elim (get_dead_job_counts_since c.counts_fail checked u.tables.job) [
        | none ↦ u
        | some groups ↦
            with_gauges u
              (upsert_counts c.upsert_db 0 (summaries_of c.names c.now groups) u.summaries)
      ]

  -- processUpdate
  unfoldable pub process_update : Updater → Updater
  unfolding refresh_summary new_lock
  process_update u =
      let (lock, ignored) = new_lock (some "dlq-summary-updater") c.now in
      let (t, refused) = try_lock c.lock_db u.tables lock in
      let locked = record u { tables = t } in
      if is_some refused
      then locked
      else (let checked =
            elim (get_last_checked_at c.last_checked_fails locked.summaries) as (λ o. Updater) [
              | none ↦ locked
              | some checked ↦ refresh_summary checked locked
            ] in
          let (t', failed) = release_lock c.release_db checked.tables lock in
          record checked { tables = t' })
