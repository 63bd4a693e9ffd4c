-- ===== src/Storage/Drained.antt =====
-- What DrainPage leaves in job_parking, storage/jobparkingrepo.go.
use webhook_broker.Base.{
  ℕ, ◌≤◌, ◌<◌, ltb, String, Bool, true, false, ◌&&◌, ◌==◌, none, List, [], ◌∷◌, map, length, take,
  keep_if, ◌≡◌, ◌≢◌, sym, subst, ◌∙◌, zero, suc, ◌||◌, is_some, refl, arith, inl, inr, ◌⊎◌, ap,
  Bool-cases, Option-cases,
}
use webhook_broker.Storage.Tables.{
  JobRow, ParkedRow, Tables, count_where, delete_where, effectively_paused,
}
use webhook_broker.Storage.Transactions.{
  TxResult, ok, fail, panic, run_ops, Database, transactional_operations, in_transaction_exec,
  in_transaction_exec_lem, run_ops_two,
}
use webhook_broker.Storage.Rows.{insert_jobs}
use webhook_broker.Storage.Parking.{
  drain_page_rows, order_rows, of_consumer, seq_in, drained_row, drain_delete, drain_insert,
  drain_op, drain_page,
}
use webhook_broker.Storage.Counts.{count_delete, count_ext, count_keep_if, count_order_rows}

length-map : (f : ParkedRow → JobRow) (rs : List ParkedRow) → length (map f rs) ≡ length rs
length-map f [] = refl
length-map f (r ∷ rs) = ground (arith, length-map f rs)

module _ (t : Tables) (consumer : String) (page_size : ℕ) where
  abbrev page : List ParkedRow
  page = drain_page_rows t consumer page_size

  abbrev in_page : ParkedRow → Bool
  in_page r = seq_in page r.seq

  -- The page was taken out of the parked rows.
  abbrev Taken : Tables → Type 0
  Taken t' =
      (t'.job_parking ≡ delete_where in_page t.job_parking)
      × (t'.dispatch_pause ≡ t.dispatch_pause)
      × (count_where in_page t.job_parking ≡ length page)
      × ((length page == 0) ≡ false)

  drain_op_cases :
      (db : Database) (now earliest : ℕ) (t' : Tables)
      → drain_op db consumer page_size now earliest t ≡ ok t'
      → ((t' ≡ t) × ((length page == 0) ≡ true)) ⊎ Taken t'
  unfolding drain_op
  drain_op_cases db now earliest t' h = elim (Bool-cases (db.exec_fails 0)) [
    | inl broken ↦ absurd (ground arith)
    | inr works ↦ elim (Bool-cases (length page == 0)) [
      | inl nothing ↦ inl (ground arith, nothing)
      | inr moves ↦
          let delete_op = in_transaction_exec db (drain_delete page) (length page) in
          let insert_op = in_transaction_exec db (drain_insert now earliest page) (length page) in
          let (u, d, i) = run_ops_two delete_op insert_op 1 t t' (ground arith) in
          let deleted =
            in_transaction_exec_lem db (drain_delete page) (length page) 1 t u (ground arith) d in
          let inserted =
            in_transaction_exec_lem db (drain_insert now earliest page) (length page) 2 u t'
              (ground arith) i in
          elim (Option-cases (insert_jobs (map (drained_row now earliest) page) u.job)) [
            | inl e ↦ absurd (ground arith)
            | inr (jobs, e) ↦ inr (ground arith, ground arith, ground arith, moves)
          ]
    ]
  ]

  no_panic :
      (db : Database) (now earliest : ℕ) → drain_op db consumer page_size now earliest t ≢ panic
  unfolding drain_op run_ops in_transaction_exec
  no_panic db now earliest h = ground arith

  -- DrainPage either leaves the tables, and says why, or has taken a page.
  drain_page_cases :
      (db : Database) (now earliest : ℕ)
      → let (u, rows, err) = drain_page db consumer page_size now earliest t in
        ((u ≡ t)
          × (length rows ≡ 0)
          × ((is_some err || ((page_size == 0) || (length page == 0))) ≡ true))
        ⊎ (Taken u × (length rows ≡ length page) × (err ≡ none))
  unfolding drain_page transactional_operations
  drain_page_cases db now earliest = go (drain_op db consumer page_size now earliest t) refl
    where
      go :
          (r : TxResult)
          → drain_op db consumer page_size now earliest t ≡ r
          → let (u, rows, err) = drain_page db consumer page_size now earliest t in
            ((u ≡ t)
              × (length rows ≡ 0)
              × ((is_some err || ((page_size == 0) || (length page == 0))) ≡ true))
            ⊎ (Taken u × (length rows ≡ length page) × (err ≡ none))
      go (ok t') e = elim (drain_op_cases db now earliest t' e) [
        | inl (same, z) ↦ inl (ground (arith, length-map (drained_row now earliest) page))
        | inr took ↦ elim (Bool-cases (page_size == 0)) [
          | inl z ↦ inl (ground arith)
          | inr s ↦ elim (Bool-cases db.begin_fails) [
            | inl b ↦ inl (ground arith)
            | inr b ↦ elim (Bool-cases db.commit_fails) [
              | inl c ↦ inl (ground arith)
              | inr c ↦
                  let there : (drain_page db consumer page_size now earliest t).0 ≡ t' =
                    ground arith in
                  inr (
                    subst Taken (sym there) took,
                    ground (arith, length-map (drained_row now earliest) page),
                    ground arith,
                  )
            ]
          ]
        ]
      ]
      go (fail x) e = inl (ground arith)
      go panic e = absurd (no_panic db now earliest e)

  none_parked :
      ltb 0 page_size ≡ true
      → effectively_paused t.dispatch_pause consumer ≡ false
      → (length page == 0) ≡ true
      → count_where (of_consumer consumer) t.job_parking ≡ 0
  unfolding drain_page_rows count_where
  none_parked positive free empty =
      let mine = of_consumer consumer in
      let parked = keep_if mine t.job_parking in
      omega (
        arith,
        taken_none page_size (order_rows parked) positive (ground arith),
        count_order_rows mine parked,
        count_keep_if mine mine t.job_parking,
        count_ext (λ r. mine r && mine r) mine (λ r. ground arith) t.job_parking,
      )
    where
      taken_none :
          (n : ℕ) (rs : List ParkedRow)
          → ltb 0 n ≡ true
          → (length (take n rs) == 0) ≡ true
          → count_where (of_consumer consumer) rs ≡ 0
      taken_none zero rs positive e = absurd (ground arith)
      taken_none (suc n) [] positive e = refl
      taken_none (suc n) (r ∷ rs) positive e = absurd (ground arith)

  module _ (db : Database) (now earliest : ℕ) where
    abbrev after_page : Tables
    after_page = (drain_page db consumer page_size now earliest t).0

    abbrev moved_rows : List JobRow
    moved_rows = (drain_page db consumer page_size now earliest t).1

    -- Whatever DrainPage returns, it adds no parked row and changes no pause.
    pub drain_page-parked :
        (p : ParkedRow → Bool)
        → (count_where p after_page.job_parking ≤ count_where p t.job_parking)
          × (after_page.dispatch_pause ≡ t.dispatch_pause)
    drain_page-parked p = elim (drain_page_cases db now earliest) [
      | inl (same, n, z) ↦ (
        omega (arith, ap (λ u. count_where p u.job_parking) same),
        ap (λ u. u.dispatch_pause) same,
      )
      | inr (took, long, fine) ↦
          (omega (arith, ap (count_where p) took.0, count_delete p in_page t.job_parking), took.1)
    ]

    -- A page that was moved has left the parked rows.
    pub drain_page-fewer :
        (length moved_rows == 0) ≡ false
        → count_where (λ (r : ParkedRow). true) after_page.job_parking
          < count_where (λ (r : ParkedRow). true) t.job_parking
    drain_page-fewer some_rows = elim (drain_page_cases db now earliest) [
      | inl (same, n, z) ↦ absurd (ground arith)
      | inr (took, long, fine) ↦ omega (
        arith,
        ap (count_where (λ (r : ParkedRow). true)) took.0,
        count_delete (λ (r : ParkedRow). true) in_page t.job_parking,
        count_ext (λ r. in_page r && true) in_page (λ r. ground arith) t.job_parking,
        took.2,
        nonzero took.3,
      )
    ]
      where
        nonzero : {m : ℕ} → (m == 0) ≡ false → 0 < m
        nonzero e = ground arith

    -- When DrainPage succeeds and moves nothing, nothing of the consumer is parked or it is paused.
    pub drain_page-none :
        ltb 0 page_size ≡ true
        → effectively_paused t.dispatch_pause consumer ≡ false
        → (drain_page db consumer page_size now earliest t).2 ≡ none
        → (length moved_rows == 0) ≡ true
        → count_where (of_consumer consumer) after_page.job_parking ≡ 0
    drain_page-none positive free fine nothing = elim (drain_page_cases db now earliest) [
      | inl (same, n, z) ↦
          ap (λ u. count_where (of_consumer consumer) u.job_parking) same
          ∙ none_parked positive free (ground arith)
      | inr (took, long, clean) ↦ absurd (ground arith)
    ]
