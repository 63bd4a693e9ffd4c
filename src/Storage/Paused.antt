-- ===== src/Storage/Paused.antt =====
-- What Pause and Resume of storage/dispatchpauserepo.go leave in their table.
use webhook_broker.Base.{
  ℕ, String, Bool, true, ◌||◌, ltb, str_eq, if◌then◌else◌, Option, none, some, List, [], ◌∷◌, ◌++◌,
  ◌≡◌, refl, sym, ap, subst, ◌∙◌, arith, inl, inr, ◌⊎◌, Bool-cases, Option-cases, eq_iff, is_some,
}
use webhook_broker.Data.{DispatchPause, pause_quick_fix, pause_is_valid, is_global}
use webhook_broker.Storage.Tables.{Tables, count_where, delete_where}
use webhook_broker.Storage.Transactions.{
  Error, db_error, duplicate_key, no_rows_updated, invalid_state_to_save, no_lock, already_locked,
  lockable_nil, Database, transactional_writes, transactional_operations,
  transactional_operations_atomic, run_ops, in_transaction_exec,
}
use webhook_broker.Storage.Pausing.{
  of_scope, find_pause, get_pause, stored_pause, insert_pause, pause, resume,
}

find_pause-scope :
    (scope : String) (ds : List DispatchPause) (d : DispatchPause)
    → find_pause scope ds ≡ some d
    → str_eq d.scope scope ≡ true
unfolding find_pause
find_pause-scope scope [] d h = absurd (ground arith)
find_pause-scope scope (e ∷ ds) d h = ground (arith, find_pause-scope scope ds d)

-- A row at the end, of a scope that no row had.
find_pause-append :
    (p : DispatchPause) (j : String) (ds : List DispatchPause)
    → count_where (of_scope p.scope) ds ≡ 0
    → find_pause j (ds ++ p ∷ []) ≡ (if str_eq p.scope j then some p else find_pause j ds)
unfolding find_pause count_where
find_pause-append p j [] h = refl
find_pause-append p j (d ∷ ds) h =
    ground
      (arith, find_pause-append p j ds, eq_iff d.scope j, eq_iff p.scope j, eq_iff d.scope p.scope)

find_pause-delete_where :
    (scope j : String) (ds : List DispatchPause)
    → find_pause j (delete_where (of_scope scope) ds)
      ≡ (if str_eq scope j then none else find_pause j ds)
unfolding find_pause delete_where
find_pause-delete_where scope j [] = ground arith
find_pause-delete_where scope j (d ∷ ds) = ground (
  arith,
  find_pause-delete_where scope j ds,
  eq_iff d.scope j,
  eq_iff scope j,
  eq_iff d.scope scope,
)

count_find :
    (scope : String) (ds : List DispatchPause)
    → ltb 0 (count_where (of_scope scope) ds) ≡ is_some (find_pause scope ds)
unfolding find_pause count_where
count_find scope [] = ground arith
count_find scope (d ∷ ds) = ground (arith, count_find scope ds)

inserted :
    (db : Database) (consumer_exists : String → Bool) (p : DispatchPause) (t t' : Tables)
    → transactional_writes db (insert_pause consumer_exists db p ∷ []) t ≡ (t', none)
    → (count_where (of_scope p.scope) t.dispatch_pause ≡ 0)
      × (t'.dispatch_pause ≡ t.dispatch_pause ++ stored_pause db p ∷ [])
unfolding transactional_writes transactional_operations run_ops in_transaction_exec is_global
inserted db consumer_exists p t t' h = (ground arith, ground arith)

insert_atomic :
    (db : Database) (consumer_exists : String → Bool) (p : DispatchPause) (t : Tables) (e : Error)
    → (transactional_writes db (insert_pause consumer_exists db p ∷ []) t).1 ≡ some e
    → (transactional_writes db (insert_pause consumer_exists db p ∷ []) t).0 ≡ t
unfolding transactional_writes
insert_atomic db consumer_exists p t e h =
    transactional_operations_atomic db (run_ops (insert_pause consumer_exists db p ∷ []) 0) t e h

module _ (db : Database) (consumer_exists : String → Bool) (get_fails : Bool) (now : ℕ)
    (t : Tables) where
  -- What each result of Pause has left: its scope has the row that the returned pause was read from or
  -- stored as, and no other scope has changed; or it returns none, and nothing has changed.
  abbrev pub Kept : Tables × Option DispatchPause × Option Error → Type 0
  Kept (t', q, err) =
      ((p : DispatchPause) × (row : DispatchPause) × (q ≡ some p)
        × (err ≡ none)
        × ((row ≡ p) ⊎ (row ≡ stored_pause db p))
        × ((j : String)
            → find_pause j t'.dispatch_pause
              ≡ (if str_eq p.scope j then some row else find_pause j t.dispatch_pause)))
      ⊎ ((is_some err ≡ true) × (t' ≡ t))

  pub pause-Kept :
      (given : Option DispatchPause) → Kept (pause db consumer_exists get_fails now t given)
  unfolding pause get_pause
  pause-Kept none = inr (refl, refl)
  pause-Kept (some given) = elim (Bool-cases (pause_is_valid p)) [
    | inr invalid ↦
        let same : result ≡ (t, none, some invalid_state_to_save) = ground arith in
        subst Kept (sym same) (inr (refl, refl))
    | inl valid ↦ go valid w.1 refl
  ]
    where
      result : Tables × Option DispatchPause × Option Error
      result = pause db consumer_exists get_fails now t (some given)

      p : DispatchPause
      p = (pause_quick_fix now given).0

      w : Tables × Option Error
      w = transactional_writes db (insert_pause consumer_exists db p ∷ []) t

      failed : (e : Error) → w.1 ≡ some e → result ≡ (w.0, none, some e) → Kept result
      failed e f same = subst Kept (sym same) (inr (refl, insert_atomic db consumer_exists p t e f))

      kept :
          w.0 ≡ t
          → (d : DispatchPause) → find_pause p.scope w.0.dispatch_pause ≡ some d
          → (j : String)
          → find_pause j w.0.dispatch_pause
            ≡ (if str_eq d.scope j then some d else find_pause j t.dispatch_pause)
      kept left d found j =
          let named =
            (eq_iff d.scope p.scope).0 (find_pause-scope p.scope w.0.dispatch_pause d found) in
          let here = ap (λ k. find_pause k w.0.dispatch_pause) named ∙ found in
          let same = ap (λ (u : Tables). find_pause j u.dispatch_pause) left in
          elim (Bool-cases (str_eq d.scope j)) [
            | inl e ↦
                rw e
                  (ap (λ k. find_pause k w.0.dispatch_pause) (sym ((eq_iff d.scope j).0 e)) ∙ here)
            | inr e ↦ rw e same
          ]

      go : pause_is_valid p ≡ true → (err : Option Error) → w.1 ≡ err → Kept result
      go valid none f =
          let same : result ≡ (w.0, some p, none) = ground arith in
          let (fresh, rows) = inserted db consumer_exists p t w.0 (ap (λ e. (w.0, e)) f) in
          subst Kept (sym same) (
            inl (
              p,
              stored_pause db p,
              refl,
              refl,
              inr refl,
              λ j.
                  ap (find_pause j) rows
                  ∙ find_pause-append (stored_pause db p) j t.dispatch_pause fresh,
            ))
      go valid (some duplicate_key) f =
          let left = insert_atomic db consumer_exists p t duplicate_key f in
          elim (Option-cases (get_pause get_fails w.0 p.scope)) [
            | inl g ↦ failed duplicate_key f (ground arith)
            | inr (existing, g) ↦
                let same : result ≡ (w.0, some existing, none) = ground arith in
                let found : find_pause p.scope w.0.dispatch_pause ≡ some existing = ground arith in
                subst Kept (sym same)
                  (inl (existing, existing, refl, refl, inl refl, λ j. kept left existing found j))
          ]
      go valid (some db_error) f = failed db_error f (ground arith)
      go valid (some no_rows_updated) f = failed no_rows_updated f (ground arith)
      go valid (some invalid_state_to_save) f = failed invalid_state_to_save f (ground arith)
      go valid (some no_lock) f = failed no_lock f (ground arith)
      go valid (some already_locked) f = failed already_locked f (ground arith)
      go valid (some lockable_nil) f = failed lockable_nil f (ground arith)

-- Resume that returns no error has removed the pause of the scope, if there was one, and says so; with
-- an error, nothing has changed.
pub resume_lem :
    (db : Database) (t : Tables) (scope : String)
    → let (t', resumed, err) = resume db t scope in
      ((err ≡ none)
        × ((j : String)
            → find_pause j t'.dispatch_pause
              ≡ (if str_eq scope j then none else find_pause j t.dispatch_pause))
        × (resumed ≡ is_some (find_pause scope t.dispatch_pause)))
      ⊎ ((is_some err ≡ true) × (t' ≡ t))
unfolding resume transactional_writes transactional_operations run_ops in_transaction_exec
resume_lem db t scope =
    let present = count_find scope t.dispatch_pause in
    elim (Bool-cases (db.begin_fails || (db.exec_fails 0 || db.commit_fails))) [
      | inl broken ↦ inr (ground arith, ground arith)
      | inr works ↦ inl (
        ground arith,
        λ j. ground (arith, find_pause-delete_where scope j t.dispatch_pause),
        ground (arith, present),
      )
    ]
