-- ===== src/Dlq/Counts.antt =====
-- What BootstrapCounts of storage/dlqsummaryrepo.go counts, and what dlq/updater.go then shows.
use mathlib.Core.List.{append_assoc, append-nil}
use webhook_broker.Base.{
  ℕ, suc, ◌≤◌, String, Bool, false, ◌&&◌, ◌||◌, not, ◌==◌, str_eq, eq_iff, if◌then◌else◌, Option,
  none, some, List, [], ◌∷◌, ◌++◌, ◌≡◌, refl, ap, sym, ◌∙◌, subst, arith, inl, inr, Bool-cases,
  Option-cases, str_cases, ◌⊎◌, is_some, map,
}
use webhook_broker.Data.{job_dead}
use webhook_broker.Storage.Tables.{Tables, LockRow, JobRow, count_where}
use webhook_broker.Storage.Transactions.{
  Error, db_error, Database, Statement, single_row_write, single_row_write_lem,
  single_row_write_atomic,
}
use webhook_broker.Storage.Parking.{listed}
use webhook_broker.Storage.Counts.{count_append}
use webhook_broker.Storage.Stakeholders.{find_row}
use webhook_broker.Dlq.Updater.{
  Updater, Cycle, gauges_of, update_gauges, refresh_summary, process_update,
}
use webhook_broker.Storage.Locks.{new_lock, try_lock, release_lock, normalized, insert_lock}
use webhook_broker.Storage.Summaries.{
  Summary, of_summary, is_dead_of, consumers_of, count_each, group_counts, Names, summaries_of,
  summary_row, insert_summaries, bootstrap_counts, get_last_checked_at,
}

-- The count of a consumer, 0 if it has no row.
abbrev pub dead_of : String → List Summary → ℕ
dead_of id rows = elim (find_row (of_summary id) rows) [ none ↦ 0 | some s ↦ s.dead_count ]

abbrev pub OneEach : List Summary → Type 0
OneEach rows = (id : String) → count_where (of_summary id) rows ≤ 1

unlisted_count :
    (p : JobRow → Bool) (rows : List JobRow) (id : String)
    → listed (consumers_of p rows) id ≡ false
    → count_where (λ (r : JobRow). str_eq r.consumer_id id && p r) rows ≡ 0
unfolding count_where
unlisted_count p [] id h = refl
unlisted_count p (r ∷ rs) id h = ground (arith, eq_iff r.consumer_id id, unlisted_count p rs id)

module _ (names : Names) (now : ℕ) (id : String) where
  pub dead_of-summaries_of :
      (p : JobRow → Bool) (rows : List JobRow) (ids : List String)
      (known : String × String × String)
      → names id ≡ some known
      → dead_of id (summaries_of names now (count_each p rows ids)) ≡ (
          if listed ids id
          then count_where (λ (r : JobRow). str_eq r.consumer_id id && p r) rows
          else 0)
  unfolding summaries_of find_row
  dead_of-summaries_of p rows [] known h = refl
  dead_of-summaries_of p rows (j ∷ js) known h = elim (str_cases j id) [
    | inl (same, e) ↦
        let named : names j ≡ some known = ap names same ∙ h in
        rw (named, e)
          (ap (λ k. count_where (λ (r : JobRow). str_eq r.consumer_id k && p r) rows) same)
    | inr (differ, e) ↦ elim (Option-cases (names j)) [
      | inl f ↦ rw (f, e) (dead_of-summaries_of p rows js known h)
      | inr (other, f) ↦ rw (f, e) (dead_of-summaries_of p rows js known h)
    ]
  ]

  unnamed :
      (groups : List (String × ℕ))
      → names id ≡ none
      → dead_of id (summaries_of names now groups) ≡ 0
  unfolding summaries_of find_row
  unnamed [] h = refl
  unnamed ((j, n) ∷ groups) h = elim (Option-cases (names j)) [
    | inl f ↦ rw (summaries_of, f) (unnamed groups h)
    | inr (other, f) ↦ elim (str_cases j id) [
      | inl (same, e) ↦ absurd (ground (arith, f, h, ap names same))
      | inr (differ, e) ↦ rw (summaries_of, f) (ground (arith, e, unnamed groups h))
    ]
  ]

-- The rows of summaries have their counts.
dead_of-map :
    (db : Database) (id : String) (ss : List Summary)
    → dead_of id (map (summary_row db) ss) ≡ dead_of id ss
unfolding find_row
dead_of-map db id [] = refl
dead_of-map db id (s ∷ ss) = ground (arith, dead_of-map db id ss)

insert_summaries_lem :
    (db : Database) (i : ℕ) (ss rows fresh : List Summary)
    → insert_summaries db i ss rows ≡ some fresh
    → OneEach rows
    → (fresh ≡ rows ++ map (summary_row db) ss) × OneEach fresh
unfolding insert_summaries count_where
insert_summaries_lem db i [] rows fresh h one =
    let same : fresh ≡ rows = ground arith in
    (same ∙ sym (append-nil rows), subst OneEach (sym same) one)
insert_summaries_lem db i (s ∷ ss) rows fresh h one =
    elim (Bool-cases (db.exec_fails i || not (count_where (of_summary s.consumer_id) rows == 0))) [
      | inl broken ↦ absurd (ground arith)
      | inr works ↦
          let grown =
            insert_summaries_lem db (suc i) ss (rows ++ summary_row db s ∷ []) fresh (ground arith)
              (λ id. ground (
                arith,
                count_append (of_summary id) rows (summary_row db s ∷ []),
                one id,
                eq_iff s.consumer_id id,
              )) in
          (grown.0 ∙ append_assoc rows (summary_row db s ∷ []) (map (summary_row db) ss), grown.1)
    ]

abbrev is_dead : JobRow → Bool
is_dead r = r.status == job_dead

pub counts_of :
    (names : Names) (now : ℕ) (p : JobRow → Bool) (jobs : List JobRow) (id : String)
    → dead_of id (summaries_of names now (group_counts p jobs)) ≡ (
        if is_some (names id)
        then count_where (λ (r : JobRow). str_eq r.consumer_id id && p r) jobs
        else 0)
unfolding group_counts
counts_of names now p jobs id = elim (Option-cases (names id)) [
  | inl f ↦ rw f (unnamed names now id (group_counts p jobs) f)
  | inr (known, f) ↦ elim (Bool-cases (listed (consumers_of p jobs) id)) [
    | inl e ↦
        rw f (dead_of-summaries_of names now id p jobs (consumers_of p jobs) known f ∙ rw e refl)
    | inr e ↦ rw f (
        dead_of-summaries_of names now id p jobs (consumers_of p jobs) known f
        ∙ rw e (sym (unlisted_count p jobs id e)))
  ]
]

-- A bootstrap that succeeds leaves the number of dead jobs of each consumer whose names are found, no row
-- of any other, and at most one of each; one that fails leaves the summaries.
pub bootstrap_counts-dead_of :
    (db : Database) (query_fails : Bool) (names : Names) (now : ℕ) (jobs : List JobRow)
    → (rows : List Summary)
    → let (rows', err) = bootstrap_counts db query_fails names now jobs rows in
      ((e : Error) × (err ≡ some e) × (rows' ≡ rows))
      ⊎ ((err ≡ none)
          × OneEach rows'
          × ((id : String)
              → dead_of id rows'
                ≡ (if is_some (names id) then count_where (is_dead_of id) jobs else 0)))
unfolding bootstrap_counts
bootstrap_counts-dead_of db query_fails names now jobs rows =
    elim (Bool-cases (query_fails || (db.begin_fails || db.exec_fails 0))) [
      | inl broken ↦ rw broken (inl (db_error, refl, refl))
      | inr works ↦
          go works (insert_summaries db 1 (summaries_of names now (group_counts is_dead jobs)) [])
            refl
    ]
  where
    go :
        (query_fails || (db.begin_fails || db.exec_fails 0)) ≡ false
        → (o : Option (List Summary))
        → insert_summaries db 1 (summaries_of names now (group_counts is_dead jobs)) [] ≡ o
        → let (rows', err) = bootstrap_counts db query_fails names now jobs rows in
          ((e : Error) × (err ≡ some e) × (rows' ≡ rows))
          ⊎ ((err ≡ none)
              × OneEach rows'
              × ((id : String)
                  → dead_of id rows'
                    ≡ (if is_some (names id) then count_where (is_dead_of id) jobs else 0)))
    go works none e = rw (bootstrap_counts, works, e) (inl (db_error, refl, refl))
    go works (some fresh) e = elim (Bool-cases db.commit_fails) [
      | inl c ↦ rw (bootstrap_counts, works, e, c) (inl (db_error, refl, refl))
      | inr c ↦
          let grown =
            insert_summaries_lem db 1 (summaries_of names now (group_counts is_dead jobs)) [] fresh
              e (λ id. unfold count_where in omega arith) in
          rw (bootstrap_counts, works, e, c)
            (inr (
              refl,
              grown.1,
              λ id.
                  ap (dead_of id) grown.0
                  ∙ dead_of-map db id (summaries_of names now (group_counts is_dead jobs))
                  ∙ counts_of names now is_dead jobs id,
            ))
    ]

-- A write whose statement leaves the jobs leaves them.
write_jobs :
    (db : Database) (statement : Statement) (t : Tables)
    → ((t' : Tables) (n : ℕ) → statement t ≡ some (t', n) → t'.job ≡ t.job)
    → (single_row_write db statement t).0.job ≡ t.job
write_jobs db statement t keeps =
    let w = single_row_write db statement t in
    elim (Option-cases w.1) [
      | inl fine ↦
          keeps w.0 1 (single_row_write_lem db statement t w.0 (ap (λ err. (w.0, err)) fine))
      | inr (e, failed) ↦ ap (λ u. u.job) (single_row_write_atomic db statement t e failed)
    ]

normalized_lem : (r : Tables × Option Error) → (normalized r).0 ≡ r.0
normalized_lem (t, none) = refl
normalized_lem (t, some e) = refl

pub lock_jobs : (db : Database) (t : Tables) (l : Option LockRow) → (try_lock db t l).0.job ≡ t.job
unfolding try_lock
lock_jobs db t none = refl
lock_jobs db t (some l) =
    ap (λ u. u.job) (normalized_lem (single_row_write db (insert_lock l) t))
    ∙ write_jobs db (insert_lock l) t (λ t' n h. ground arith)

pub unlock_jobs :
    (db : Database) (t : Tables) (l : Option LockRow) → (release_lock db t l).0.job ≡ t.job
unfolding release_lock
unlock_jobs db t none = refl
unlock_jobs db t (some l) = write_jobs db _ t (λ t' n h. ground arith)

module _ (c : Cycle) (u : Updater) where
  -- The summary and the gauges stay, or the summary has the number of dead jobs of each consumer whose
  -- names are found, and the gauges, where they could be read, are those of the summary.
  abbrev pub Refreshed : Updater → Type 0
  Refreshed v =
      ((v.summaries ≡ u.summaries) × (v.gauges ≡ u.gauges))
      ⊎ (((id : String)
            → dead_of id v.summaries
              ≡ (if is_some (c.names id) then count_where (is_dead_of id) u.tables.job else 0))
          × (v.gauges ≡ (if c.gauges_fail then u.gauges else gauges_of v.summaries)))

  refresh_summary-dead_of : let v = refresh_summary c 0 u in (v.tables ≡ u.tables) × Refreshed v
  unfolding refresh_summary update_gauges
  refresh_summary-dead_of =
      let out =
        bootstrap_counts c.bootstrap_db c.counts_fail c.names c.now u.tables.job u.summaries in
      elim (bootstrap_counts-dead_of c.bootstrap_db c.counts_fail c.names c.now u.tables.job
        u.summaries) [
          | inl (e, failed, same) ↦ rw failed (refl, inl (same, refl))
          | inr (ok, one, counts) ↦ elim (Bool-cases c.gauges_fail) [
            | inl broken ↦ rw (ok, broken) (refl, inr (counts, refl))
            | inr works ↦ rw (ok, works) (refl, inr (counts, refl))
          ]
        ]

-- A cycle of processUpdate on a summary with no row, whatever fails, leaves the jobs, and either leaves the
-- summary and the gauges, or the summary has the number of dead jobs of each consumer whose names are
-- found, and the gauges, where they could be read, are those of the summary.
pub process_update-Refreshed :
    (c : Cycle) (u : Updater)
    → u.summaries ≡ []
    → ((process_update c u).tables.job ≡ u.tables.job) × Refreshed c u (process_update c u)
unfolding process_update new_lock get_last_checked_at
process_update-Refreshed c u empty =
    let lock : Option LockRow =
      some (record { lock_id = "dlq-summary-updater"; attained_at = c.now }) in
    let locked = record u { tables = (try_lock c.lock_db u.tables lock).0 } in
    let kept : locked.tables.job ≡ u.tables.job = lock_jobs c.lock_db u.tables lock in
    elim (Option-cases (try_lock c.lock_db u.tables lock).1) [
      | inr (e, refused) ↦ rw refused (kept, inl (refl, refl))
      | inl held ↦ elim (Bool-cases c.last_checked_fails) [
        | inl broken ↦
            rw (held, broken) (unlock_jobs c.release_db locked.tables lock ∙ kept, inl (refl, refl))
        | inr works ↦
            let (stays, counted) = refresh_summary-dead_of c locked in
            let fresh = refresh_summary c 0 locked in
            let same : process_update c u
                ≡ record fresh { tables = (release_lock c.release_db fresh.tables lock).0 } =
              rw (held, works, empty) refl in
            subst (λ v. (v.tables.job ≡ u.tables.job) × Refreshed c u v) (sym same)
              (
                unlock_jobs c.release_db fresh.tables lock ∙ ap (λ t. t.job) stays ∙ kept,
                elim counted [
                  | inl left ↦ inl left
                  | inr (counts, shown) ↦ inr (
                    λ id.
                        counts id
                        ∙ ap
                            (λ jobs.
                              if is_some (c.names id) then count_where (is_dead_of id) jobs else 0)
                            kept,
                    shown,
                  )
                ],
              )
      ]
    ]
