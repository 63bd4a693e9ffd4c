-- ===== src/Parking/Runs.antt =====
-- runOnce of parking/drainer.go: that a run ends, and that it loses no job.
use webhook_broker.Base.{
  ℕ, ◌+◌, suc, ◌<◌, String, Bool, true, false, ◌==◌, ◌&&◌, not, Option, none, some, List, length,
  ◌≡◌, refl, ap, sym, subst, ◌∙◌, if◌then◌else◌, arith, inl, inr, Bool-cases, is_some,
}
use webhook_broker.Storage.Tables.{Tables, LockRow}
use webhook_broker.Storage.Transactions.{
  Database, single_row_write, transactional_writes, transactional_operations, run_ops,
  in_transaction_exec,
}
use webhook_broker.Storage.Locks.{try_lock, release_lock, new_lock}
use webhook_broker.Storage.Ownership.{owned}
use webhook_broker.Storage.Parking.{drainable_consumer_ids}
use webhook_broker.Parking.Drainer.{
  Drainer, Surroundings, RunSurroundings, drain_lock_id, count_refresh_due, refresh_parked_counts,
  error_count, drain_round_robin, end_run, with_lock, run_once,
}
use webhook_broker.Parking.Draining.{parked}
use webhook_broker.Parking.Rounds.{drain_round_robin-ends}
use webhook_broker.Parking.Liveness.{drain_round_robin-Later}

-- Taking and releasing a lock touches no job.
try_lock-jobs :
    (db : Database) (t : Tables) (l : Option LockRow)
    → let u = (try_lock db t l).0 in (u.job ≡ t.job) × (u.job_parking ≡ t.job_parking)
unfolding try_lock single_row_write transactional_writes transactional_operations run_ops
    in_transaction_exec
try_lock-jobs db t none = (refl, refl)
try_lock-jobs db t (some l) = ground arith

release_lock-jobs :
    (db : Database) (t : Tables) (l : Option LockRow)
    → let u = (release_lock db t l).0 in (u.job ≡ t.job) × (u.job_parking ≡ t.job_parking)
unfolding release_lock single_row_write transactional_writes transactional_operations run_ops
    in_transaction_exec
release_lock-jobs db t none = (refl, refl)
release_lock-jobs db t (some l) = ground arith

same_owned :
    (t u : Tables) (k : String)
    → (u.job ≡ t.job) × (u.job_parking ≡ t.job_parking)
    → owned k u ≡ owned k t
unfolding owned
same_owned t u k (jobs, parkings) = ground arith

module _ (page_size lease : ℕ) (start : RunSurroundings) (around : Surroundings) where
  end_run-owned :
      (held : Bool) (d : Drainer) (k : String)
      → owned k (end_run page_size lease start around held d).tables ≡ owned k d.tables
  unfolding end_run
  end_run-owned false d k = refl
  end_run-owned true d k =
      same_owned d.tables (release_lock start.release_db d.tables d.lock).0 k
        (release_lock-jobs start.release_db d.tables d.lock)

  refreshed_tables :
      (d : Drainer)
      → (if count_refresh_due start.at d
          then refresh_parked_counts (around.consumers 0) start.counts start.at d
          else d).tables
        ≡ d.tables
  unfolding refresh_parked_counts
  refreshed_tables d = ground arith

  with_lock-ends :
      (fuel : ℕ) (ids : List String) (d : Drainer)
      → parked d.tables < fuel
      → (d' : Drainer) × (with_lock page_size lease start around fuel ids d ≡ some d')
        × ((k : String) → owned k d'.tables ≡ owned k d.tables)
  unfolding with_lock
  with_lock-ends fuel ids d enough =
      let entered =
        if count_refresh_due start.at d
        then refresh_parked_counts (around.consumers 0) start.counts start.at d
        else d in
      let (held, d', e) =
        drain_round_robin-ends page_size lease around fuel ids 0 entered
          (subst (λ t. parked t < fuel) (sym (refreshed_tables d)) enough) in
      let later = drain_round_robin-Later page_size lease around fuel ids 0 entered d' held e in
      (
        end_run page_size lease start around held d',
        ended held d' e,
        λ k. end_run-owned held d' k ∙ later.0.2 k ∙ ap (owned k) (refreshed_tables d),
      )
    where
      ended :
          (held : Bool) (d' : Drainer)
          → drain_round_robin page_size lease around fuel ids 0 (
              if count_refresh_due start.at d
              then refresh_parked_counts (around.consumers 0) start.counts start.at d
              else d)
            ≡ some (held, d')
          → with_lock page_size lease start around fuel ids d
            ≡ some (end_run page_size lease start around held d')
      ended held d' e = ground arith

  -- A run of the drainer ends: as many rounds are enough as there are parked rows, and one more.
  -- Afterwards each job has as many rows in the two tables as before.
  pub run_once-ends :
      (fuel : ℕ) (d : Drainer)
      → parked d.tables < fuel
      → (d' : Drainer) × (run_once page_size lease start around fuel d ≡ some d')
        × ((k : String) → owned k d'.tables ≡ owned k d.tables)
  unfolding run_once parked
  run_once-ends fuel d enough =
      let l = (new_lock (some drain_lock_id) start.at).0 in
      let tried = (try_lock start.lock_db d.tables l).0 in
      let same = try_lock-jobs start.lock_db d.tables l in
      let (d', e, kept) =
        with_lock-ends fuel (drainable_consumer_ids d.tables)
          (record d { tables = tried; lock = l }) (ground (arith, same.1)) in
      elim (Bool-cases start.lists) [
        | inr no_list ↦
            (record d { logged_errors = suc d.logged_errors }, rw no_list refl, λ k. refl)
        | inl listed ↦
            elim (Bool-cases (
              length (drainable_consumer_ids d.tables) == 0
              && not (count_refresh_due start.at d))) [
                | inl idle ↦ (d, rw (listed, idle) refl, λ k. refl)
                | inr busy ↦ elim (Bool-cases (is_some (try_lock start.lock_db d.tables l).1)) [
                  | inl refused ↦ (
                    record d {
                      logged_errors =
                          d.logged_errors + error_count (try_lock start.lock_db d.tables l).1;
                    },
                    rw (listed, busy, refused) refl,
                    λ k. refl,
                  )
                  | inr entered ↦ (
                    d',
                    simp (listed, busy, entered) e,
                    λ k. kept k ∙ same_owned d.tables tried k same,
                  )
                ]
              ]
      ]
