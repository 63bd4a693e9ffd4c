-- ===== src/Dlq/Increments.antt =====
-- What the later cycles of dlq/updater.go add to the summary.
use Prim.Native.Nat.{◌/◌}
use webhook_broker.Config.DispatchPause.{second}
use webhook_broker.Base.{
  ◌*◌, subst, ℕ, suc, ◌+◌, ◌≤◌, String, Bool, true, false, ◌&&◌, ◌||◌, not, ◌==◌, ltb, str_eq,
  eq_iff, if◌then◌else◌, Option, none, some, List, [], ◌∷◌, ◌++◌, ◌≡◌, ◌≢◌, refl, ap, sym, ◌∙◌,
  arith, inl, inr, Bool-cases, Option-cases, str_cases, ◌⊎◌, is_some,
}
use webhook_broker.Data.{job_dead}
use webhook_broker.Storage.Tables.{LockRow, JobRow, count_where, update_where}
use webhook_broker.Storage.Transactions.{Error, db_error, Database}
use webhook_broker.Storage.Parking.{listed}
use webhook_broker.Storage.Locks.{new_lock, try_lock, release_lock}
use webhook_broker.Storage.Stakeholders.{find_row}
use webhook_broker.Dlq.Updater.{
  Updater, Cycle, update_gauges, with_gauges, refresh_summary, process_update,
}
use webhook_broker.Dlq.Counts.{dead_of, counts_of, dead_of-summaries_of, lock_jobs, unlock_jobs}
use webhook_broker.Storage.Summaries.{
  Summary, of_summary, consumers_of, count_each, group_counts, Names, summaries_of, counted,
  summary_row, latest, get_last_checked_at, upsert_count, upsert_counts, get_dead_job_counts_since,
}

-- What a summary adds to a consumer's count.
abbrev part_of : String → Summary → ℕ
part_of id s = if str_eq s.consumer_id id then s.dead_count else 0

dead_of-update :
    (id : String) (s : Summary) (rows : List Summary)
    → dead_of id (update_where (of_summary s.consumer_id) (counted s) rows) ≡ (
        if ltb 0 (count_where (of_summary s.consumer_id) rows)
        then dead_of id rows + part_of id s
        else dead_of id rows)
unfolding find_row update_where count_where
dead_of-update id s [] = refl
dead_of-update id s (r ∷ rs) = ground (
  arith,
  dead_of-update id s rs,
  eq_iff r.consumer_id id,
  eq_iff s.consumer_id id,
  eq_iff r.consumer_id s.consumer_id,
)

dead_of-append :
    (id : String) (s : Summary) (rows : List Summary)
    → count_where (of_summary s.consumer_id) rows ≡ 0
    → dead_of id (rows ++ s ∷ []) ≡ dead_of id rows + part_of id s
unfolding find_row count_where
dead_of-append id s [] h = ground arith
dead_of-append id s (r ∷ rs) h = ground (
  arith,
  dead_of-append id s rs,
  eq_iff r.consumer_id id,
  eq_iff s.consumer_id id,
  eq_iff r.consumer_id s.consumer_id,
)

upsert_count_lem :
    (db : Database) (s : Summary) (rows : List Summary) (id : String)
    → let (rows', err) = upsert_count db s rows in
      ((err ≡ none) × (dead_of id rows' ≡ dead_of id rows + part_of id s))
      ⊎ ((e : Error) × (err ≡ some e) × (rows' ≡ rows))
unfolding upsert_count
upsert_count_lem db s rows id = elim (Bool-cases (db.begin_fails || db.exec_fails 0)) [
  | inl broken ↦ rw broken (inr (db_error, refl, refl))
  | inr works ↦ elim (Bool-cases (ltb 0 (count_where (of_summary s.consumer_id) rows))) [
    | inl there ↦ elim (Bool-cases db.commit_fails) [
      | inl c ↦ rw (upsert_count, works, there, c) (inr (db_error, refl, refl))
      | inr c ↦
          rw (upsert_count, works, there, c)
            (inl (refl, dead_of-update id (summary_row db s) rows ∙ rw there refl))
    ]
    | inr absent ↦ elim (Bool-cases (db.exec_fails 1 || db.commit_fails)) [
      | inl c ↦ inr (db_error, ground (arith, works, absent, c), ground (arith, works, absent, c))
      | inr c ↦ inl (
        ground (arith, works, absent, c),
        ap (dead_of id) (ground (arith, works, absent, c))
            ∙ dead_of-append id (summary_row db s) rows (ground arith),
      )
    ]
  ]
]

abbrev total : String → List Summary → ℕ
total id [] = 0
total id (s ∷ ss) = part_of id s + total id ss

upsert_counts_lem :
    (db : ℕ → Database) (i : ℕ) (ss rows : List Summary) (id : String)
    → let (rows', err) = upsert_counts db i ss rows in
      (dead_of id rows' ≡ dead_of id rows + total id ss) ⊎ ((e : Error) × (err ≡ some e))
unfolding upsert_counts
upsert_counts_lem db i [] rows id = inl (omega arith)
upsert_counts_lem db i (s ∷ ss) rows id = elim (upsert_count_lem (db i) s rows id) [
  | inr (e, failed, same) ↦ inr (e, rw (upsert_counts, failed) refl)
  | inl (fine, one) ↦ elim (upsert_counts_lem db (suc i) ss (upsert_count (db i) s rows).0 id) [
    | inl rest ↦ inl (ap (dead_of id) (ap (λ o. o.0) (step fine)) ∙ omega (arith, one, rest))
    | inr (e, failed) ↦ inr (e, ap (λ o. o.1) (step fine) ∙ failed)
  ]
]
  where
    step :
        (upsert_count (db i) s rows).1 ≡ none
        → upsert_counts db i (s ∷ ss) rows
          ≡ upsert_counts db (suc i) ss (upsert_count (db i) s rows).0
    step fine = rw (upsert_counts, fine) refl

-- No id is in a list twice.
abbrev Distinct : List String → Type 0
Distinct [] = Unit
Distinct (j ∷ js) = (listed js j ≡ false) × Distinct js

consumers_of-Distinct : (p : JobRow → Bool) (rows : List JobRow) → Distinct (consumers_of p rows)
consumers_of-Distinct p [] = tt
consumers_of-Distinct p (r ∷ rs) =
    elim (Bool-cases (p r && not (listed (consumers_of p rs) r.consumer_id))) [
      | inl e ↦ rw e (ground arith, consumers_of-Distinct p rs)
      | inr e ↦ rw e (consumers_of-Distinct p rs)
    ]

-- Of distinct ids, the sum of the parts is the one that is found.
total-dead_of :
    (names : Names) (now : ℕ) (p : JobRow → Bool) (rows : List JobRow) (ids : List String)
    (id : String)
    → Distinct ids
    → total id (summaries_of names now (count_each p rows ids))
      ≡ dead_of id (summaries_of names now (count_each p rows ids))
unfolding summaries_of find_row
total-dead_of names now p rows [] id h = refl
total-dead_of names now p rows (j ∷ js) id h = elim (Option-cases (names j)) [
  | inl f ↦ rw (summaries_of, f) (total-dead_of names now p rows js id h.1)
  | inr (known, f) ↦ elim (str_cases j id) [
    | inr (differ, e) ↦
        rw (summaries_of, f) (rw e (omega (arith, total-dead_of names now p rows js id h.1)))
    | inl (same, e) ↦
        let others : total id (summaries_of names now (count_each p rows js)) ≡ 0 =
          total-dead_of names now p rows js id h.1
          ∙ dead_of-summaries_of names now id p rows js known (ap names (sym same) ∙ f)
          ∙ ap
              (λ k.
                if listed js k
                then count_where (λ (r : JobRow). str_eq r.consumer_id k && p r) rows
                else 0)
              (sym same)
          ∙ rw h.0 refl in
        rw (summaries_of, f) (rw (e, others) (omega arith))
  ]
]

with_gauges_lem :
    (c : Cycle) (u : Updater) (out : List Summary × Option Error)
    → ((with_gauges c u out).tables ≡ u.tables) × ((with_gauges c u out).summaries ≡ out.0)
unfolding update_gauges
with_gauges_lem c u (rows, some e) = (refl, refl)
with_gauges_lem c u (rows, none) = elim (Bool-cases c.gauges_fail) [
  | inl broken ↦ rw broken (refl, refl)
  | inr works ↦ rw works (refl, refl)
]

abbrev pub is_new : ℕ → JobRow → Bool
is_new since r = r.status == job_dead && ltb since r.status_changed_at

-- The time of the last check, to the second.
abbrev pub checked_at : Updater → ℕ
checked_at u = latest u.summaries / second * second

module _ (c : Cycle) (u : Updater) (checked : ℕ) where
  -- A write of the summary failed, or each consumer's count has grown by the number of its jobs that
  -- are dead since, if its names are found.
  abbrev pub Grown : Updater → Type 0
  Grown v =
      ((e : Error) × ((upsert_counts c.upsert_db 0
            (summaries_of c.names c.now (group_counts (is_new checked) u.tables.job)) u.summaries).1
          ≡ some e))
      ⊎ ((id : String)
          → dead_of id v.summaries
            ≡ dead_of id u.summaries
              + (if is_some (c.names id)
                  then count_where (λ (r : JobRow). str_eq r.consumer_id id && is_new checked r)
                      u.tables.job
                  else 0))

  refresh_summary-Grown :
      checked ≢ 0
      → checked + c.interval ≤ c.now
      → let v = refresh_summary c checked u in
        (v.tables ≡ u.tables) × (((v.summaries ≡ u.summaries) × (c.counts_fail ≡ true)) ⊎ Grown v)
  unfolding refresh_summary get_dead_job_counts_since group_counts
  refresh_summary-Grown nonzero late =
      let groups = group_counts (is_new checked) u.tables.job in
      let ss = summaries_of c.names c.now groups in
      let out = upsert_counts c.upsert_db 0 ss u.summaries in
      let later : (checked == 0) ≡ false = ground arith in
      let due : ltb c.now (checked + c.interval) ≡ false = ground arith in
      elim (Bool-cases c.counts_fail) [
        | inl broken ↦ rw (refresh_summary, later, due, broken) (refl, inl (refl, refl))
        | inr works ↦
            let same : refresh_summary c checked u ≡ with_gauges c u out =
              rw (refresh_summary, later, due, works) refl in
            let (stays, written) = with_gauges_lem c u out in
            (
              ap (λ v. v.tables) same ∙ stays,
              inr (elim (Option-cases out.1) [
                | inr failed ↦ inl failed
                | inl fine ↦ inr (λ id. elim (upsert_counts_lem c.upsert_db 0 ss u.summaries id) [
                  | inr (e, failed) ↦ absurd (ground (arith, fine, failed))
                  | inl grown ↦
                      ap (λ v. dead_of id v.summaries) same
                      ∙ ap (dead_of id) written
                      ∙ grown
                      ∙ ap (λ n. dead_of id u.summaries + n)
                          (total-dead_of c.names c.now (is_new checked) u.tables.job
                              (consumers_of (is_new checked) u.tables.job) id
                              (consumers_of-Distinct (is_new checked) u.tables.job)
                            ∙ counts_of c.names c.now (is_new checked) u.tables.job id)
                ])
              ]),
            )
      ]

-- A cycle of processUpdate that is not the first, and not too early after the last check, to the
-- second, whatever fails, leaves the jobs. It leaves the summary if the lock is not had or a query
-- fails. Otherwise a write of the summary has failed, or each consumer's count has grown by the number
-- of its dead jobs whose statusChangedAt is later than the last check to the second, if its names are
-- found.
pub process_update-Grown :
    (c : Cycle) (u : Updater)
    → checked_at u ≢ 0
    → checked_at u + c.interval ≤ c.now
    → let v = process_update c u in
      (v.tables.job ≡ u.tables.job)
      × (((v.summaries ≡ u.summaries)
            × ((is_some
                    (try_lock c.lock_db u.tables (new_lock (some "dlq-summary-updater") c.now).0).1
                  ≡ true)
                ⊎ ((c.last_checked_fails ≡ true) ⊎ (c.counts_fail ≡ true))))
          ⊎ Grown c u (checked_at u) v)
unfolding process_update new_lock get_last_checked_at
process_update-Grown c u nonzero late =
    let lock : Option LockRow =
      some (record { lock_id = "dlq-summary-updater"; attained_at = c.now }) in
    let locked = record u { tables = (try_lock c.lock_db u.tables lock).0 } in
    let kept : locked.tables.job ≡ u.tables.job = lock_jobs c.lock_db u.tables lock in
    elim (Option-cases (try_lock c.lock_db u.tables lock).1) [
      | inr (e, refused) ↦ rw refused (kept, inl (refl, inl refl))
      | inl held ↦ elim (Bool-cases c.last_checked_fails) [
        | inl broken ↦
            rw (held, broken)
              (unlock_jobs c.release_db locked.tables lock ∙ kept, inl (refl, inr (inl refl)))
        | inr works ↦
            let fresh = refresh_summary c (checked_at u) locked in
            let (stays, out) = refresh_summary-Grown c locked (checked_at u) nonzero late in
            let same : process_update c u
                ≡ record fresh { tables = (release_lock c.release_db fresh.tables lock).0 } =
              rw (held, works) refl in
            (
              ap (λ v. v.tables.job) same
                  ∙ unlock_jobs c.release_db fresh.tables lock
                  ∙ ap (λ t. t.job) stays
                  ∙ kept,
              elim out [
                | inl (left, failed) ↦ inl (ap (λ v. v.summaries) same ∙ left, inr (inr failed))
                | inr grown ↦ inr (
                    subst
                      (λ jobs.
                        Grown c (record u { tables = record (u.tables) { job = jobs } })
                          (checked_at u) (process_update c u))
                      kept
                      (subst
                        (λ rows.
                          Grown c locked (checked_at u)
                            (record (process_update c u) { summaries = rows }))
                        (sym (ap (λ v. v.summaries) same)) grown))
              ],
            )
      ]
    ]
