-- ===== src/Storage/Ownership.antt =====
-- A job is in one place: moving between `job` and `job_parking` neither loses nor duplicates it.
use webhook_broker.Base.{
  ℕ, ◌+◌, ◌≤◌, String, Bool, true, false, ◌&&◌, not, ◌==◌, str_eq, some, List, [], ◌∷◌, map,
  keep_if, length, ◌≡◌, refl, ◌∙◌, ap, sym, arith, inl, inr, Bool-cases, Option-cases,
}
use webhook_broker.Data.{DeliveryJob, job_queued}
use webhook_broker.Storage.Tables.{JobRow, ParkedRow, Tables, count_where, delete_where}
use webhook_broker.Storage.Transactions.{
  TxResult, ok, fail, panic, Database, transactional_operations, in_transaction_exec,
  in_transaction_exec_lem, run_ops_two,
}
use webhook_broker.Storage.Rows.{insert_jobs, insert_all_parked}
use webhook_broker.Storage.Parking.{
  reparkable, parked_copy, repark_delete, repark_op, repark_queued_job, order_rows, of_consumer,
  drain_page_rows, seq_in, drained_row, drain_delete, drain_insert, drain_op, drain_page,
}
use webhook_broker.Storage.Counts.{
  count_keep_if, count_take_le, count_delete, count_split, count_squeeze, count_and_le, count_map,
  count_order_rows, count_insert_jobs, count_insert_parked,
}

-- How many rows the job of an id has in the two tables.
unfoldable pub owned : String → Tables → ℕ
unfolding count_where
owned id t =
    count_where (λ (r : JobRow). str_eq r.id id) t.job
    + count_where (λ (r : ParkedRow). str_eq r.id id) t.job_parking

abbrev job_id : String → JobRow → Bool
job_id id r = str_eq r.id id

abbrev parked_id : String → ParkedRow → Bool
parked_id id r = str_eq r.id id

-- A transaction whose function conserves a count when it is ok conserves it.
conserving :
    (db : Database) (op : Tables → TxResult) (t : Tables) (f : Tables → ℕ)
    → ((t' : Tables) → op t ≡ ok t' → f t' ≡ f t)
    → f (transactional_operations db op t).0 ≡ f t
unfolding transactional_operations
conserving db op t f c = go (op t) refl
  where
    go : (r : TxResult) → op t ≡ r → f (transactional_operations db op t).0 ≡ f t
    go (ok t') e = ground (arith, c t' e)
    go (fail x) e = ground arith
    go panic e = ground arith

module _ (t : Tables) (id : String) (now : ℕ) where
  abbrev taken : JobRow → Bool
  taken r = str_eq r.id id && r.status == job_queued

  abbrev copies : List ParkedRow
  copies = map (parked_copy now) (keep_if (reparkable t id) t.job)

  count_copies :
      (k : String)
      → count_where (parked_id k) copies ≡ count_where (λ r. reparkable t id r && job_id k r) t.job
  count_copies k =
      count_map (parked_id k) (parked_copy now) (keep_if (reparkable t id) t.job)
      ∙ count_keep_if (job_id k) (reparkable t id) t.job

  -- The deletion takes just the rows that were copied.
  moved :
      (u t' : Tables) (k : String)
      → u.job ≡ t.job
      → count_where (parked_id k) u.job_parking
        ≡ count_where (parked_id k) t.job_parking + count_where (parked_id k) copies
      → (count_where (reparkable t id) t.job == 0) ≡ false
      → repark_delete id u ≡ some (t', 1)
      → owned k t' ≡ owned k t
  unfolding owned
  moved u t' k same grown some_there h =
      let one : count_where taken t.job ≡ 1 = ap (count_where taken) (sym same) ∙ ground arith in
      let left : t'.job ≡ delete_where taken t.job =
        ground (arith, same) ∙ ap (delete_where taken) same in
      let parked : t'.job_parking ≡ u.job_parking = ground arith in
      omega (
        arith,
        ap (count_where (job_id k)) left,
        ap (count_where (parked_id k)) parked,
        grown,
        count_copies k,
        count_delete (job_id k) taken t.job,
        count_squeeze (reparkable t id) taken (job_id k) (λ x e. ground arith) t.job (ground arith),
      )

  repark_op-owned :
      (db : Database) (t' : Tables) (k : String)
      → repark_op db id now t ≡ ok t'
      → owned k t' ≡ owned k t
  unfolding repark_op in_transaction_exec owned
  repark_op-owned db t' k h = elim (Option-cases (insert_all_parked copies t)) [
    | inl e ↦ ground arith
    | inr (u, e) ↦
        let ins = count_insert_parked (parked_id k) (λ r n. refl) copies t u e in
        let same_job = ins.0 in
        elim (Bool-cases (count_where (reparkable t id) t.job == 0)) [
          | inl nothing ↦ ground (arith, ins.1, count_copies k, empty nothing k)
          | inr moves ↦
              moved u t' k ins.0 ins.1 moves
                (in_transaction_exec_lem db (repark_delete id) 1 1 u t' refl (ground arith))
        ]
  ]
    where
      empty :
          (count_where (reparkable t id) t.job == 0) ≡ true
          → (k : String) → count_where (λ r. reparkable t id r && job_id k r) t.job ≡ 0
      empty z k = ground (arith, count_split (job_id k) (reparkable t id) t.job)

-- ReparkQueuedJob, whatever it returns, leaves every job in as many rows of the two tables as before.
pub repark_queued_job-owned :
    (db : Database) (now : ℕ) (t : Tables) (d : DeliveryJob) (k : String)
    → owned k (repark_queued_job db now t d).0 ≡ owned k t
unfolding repark_queued_job
repark_queued_job-owned db now t d k =
    conserving db (repark_op db d.base.id now) t (owned k)
      (λ t' e. repark_op-owned t d.base.id now db t' k e)

-- The rows that one page of a drain takes.
in_rows_all :
    (all rows : List ParkedRow) (k : ParkedRow → Bool)
    → ((n : ℕ) → seq_in rows n ≡ true → seq_in all n ≡ true)
    → count_where (λ r. seq_in all r.seq && k r) rows ≡ count_where k rows
unfolding count_where
in_rows_all all [] k e = refl
in_rows_all all (r ∷ rs) k e =
    ground (arith, e r.seq, in_rows_all all rs k (λ n m. e n (ground arith)))

module _ (t : Tables) (consumer : String) (page_size : ℕ) where
  abbrev page : List ParkedRow
  page = drain_page_rows t consumer page_size

  abbrev in_page : ParkedRow → Bool
  in_page r = seq_in page r.seq

  -- The page is part of the parked rows.
  page_le : (k : ParkedRow → Bool) → count_where k page ≤ count_where k t.job_parking
  unfolding drain_page_rows count_where
  page_le k =
      let parked = keep_if (of_consumer consumer) t.job_parking in
      ground (
        arith,
        count_take_le k page_size (order_rows parked),
        count_order_rows k parked,
        count_keep_if k (of_consumer consumer) t.job_parking,
        count_and_le k (of_consumer consumer) t.job_parking,
      )

  page_in :
      (k : ParkedRow → Bool)
      → count_where k page ≤ count_where (λ r. in_page r && k r) t.job_parking
  page_in k = omega (arith, page_le (λ r. in_page r && k r), in_rows_all page page k (λ n e. e))

  count_length : (rows : List ParkedRow) → count_where (λ r. true) rows ≡ length rows
  unfolding count_where
  count_length [] = refl
  count_length (r ∷ rs) = ground (arith, count_length rs)

  -- The deletion takes just the rows of the page, if it takes so many.
  page_taken :
      (k : ParkedRow → Bool)
      → count_where in_page t.job_parking ≡ length page
      → count_where (λ r. in_page r && k r) t.job_parking ≡ count_where k page
  page_taken k e = omega (
    arith,
    e,
    page_in k,
    page_in (λ r. not (k r)),
    count_split k in_page t.job_parking,
    count_split k (λ r. true) page,
    count_length page,
  )

  -- The deletion and the insertion of a page.
  page_moved :
      (now earliest : ℕ) (u t' : Tables) (k : String)
      → drain_delete page t ≡ some (u, length page)
      → drain_insert now earliest page u ≡ some (t', length page)
      → owned k t' ≡ owned k t
  unfolding owned
  page_moved now earliest u t' k deleted inserted =
      elim (Option-cases (insert_jobs (map (drained_row now earliest) page) u.job)) [
        | inl e ↦ absurd (ground arith)
        | inr (jobs, e) ↦
            let into : t'.job ≡ jobs = ground arith in
            let kept : t'.job_parking ≡ delete_where in_page t.job_parking = ground arith in
            let same : u.job ≡ t.job = ground arith in
            omega (
              arith,
              ap (count_where (job_id k)) into,
              ap (count_where (parked_id k)) kept,
              ap (count_where (job_id k)) same,
              count_insert_jobs (job_id k) (map (drained_row now earliest) page) u.job jobs e,
              count_map (job_id k) (drained_row now earliest) page,
              count_delete (parked_id k) in_page t.job_parking,
              page_taken (parked_id k) (ground arith),
            )
      ]

  drain_op-owned :
      (db : Database) (now earliest : ℕ) (t' : Tables) (k : String)
      → drain_op db consumer page_size now earliest t ≡ ok t'
      → owned k t' ≡ owned k t
  unfolding drain_op
  drain_op-owned db now earliest t' k h = elim (Bool-cases (db.exec_fails 0)) [
    | inl broken ↦ absurd (ground arith)
    | inr works ↦ elim (Bool-cases (length page == 0)) [
      | inl nothing ↦ ap (owned k) (ground arith)
      | inr moves ↦
          let delete_op = in_transaction_exec db (drain_delete page) (length page) in
          let insert_op = in_transaction_exec db (drain_insert now earliest page) (length page) in
          let (u, d, i) = run_ops_two delete_op insert_op 1 t t' (ground arith) in
          page_moved now earliest u t' k
            (in_transaction_exec_lem db (drain_delete page) (length page) 1 t u (ground arith) d)
            (in_transaction_exec_lem db (drain_insert now earliest page) (length page) 2 u t'
              (ground arith) i)
    ]
  ]

-- DrainPage, whatever it returns, leaves every job in as many rows of the two tables as before.
pub drain_page-owned :
    (db : Database) (consumer : String) (page_size now earliest : ℕ) (t : Tables) (k : String)
    → owned k (drain_page db consumer page_size now earliest t).0 ≡ owned k t
unfolding drain_page
drain_page-owned db consumer page_size now earliest t k = elim (Bool-cases (page_size == 0)) [
  | inl nothing ↦ rw nothing refl
  | inr some_rows ↦ rw some_rows (
      conserving db (drain_op db consumer page_size now earliest) t (owned k)
        (λ t' e. drain_op-owned t consumer page_size db now earliest t' k e))
]
