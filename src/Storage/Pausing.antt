-- ===== src/Storage/Pausing.antt =====
-- storage/dispatchpauserepo.go. `consumer_exists` is the foreign key of consumerId. The query of
-- Get and those of GetAll and IsEffectivelyPaused fail when their argument says so.
use webhook_broker.Base.{
  ℕ, String, Bool, ◌&&◌, ◌||◌, not, ◌==◌, ltb, str_eq, if◌then◌else◌, Option, none, some, List, [],
  ◌∷◌, ◌++◌,
}
use webhook_broker.Data.{DispatchPause, is_global, pause_quick_fix, pause_is_valid}
use webhook_broker.Storage.Tables.{Tables, count_where, delete_where, effectively_paused}
use webhook_broker.Storage.Transactions.{
  Error, db_error, duplicate_key, invalid_state_to_save, Database, TxOp, fail, in_transaction_exec,
  transactional_writes,
}

abbrev pub of_scope : String → DispatchPause → Bool
of_scope scope d = str_eq d.scope scope

-- The first row of a scope, which is its primary key.
unfoldable pub find_pause : String → List DispatchPause → Option DispatchPause
find_pause scope [] = none
find_pause scope (d ∷ ds) = if str_eq d.scope scope then some d else find_pause scope ds

-- Get; `none` is an error.
unfoldable pub get_pause : Bool → Tables → String → Option DispatchPause
unfolding find_pause
get_pause query_fails t scope = if query_fails then none else find_pause scope t.dispatch_pause

-- The row of a pause.
abbrev pub stored_pause : Database → DispatchPause → DispatchPause
stored_pause db p = record p { paused_at = db.stored_time p.paused_at }

abbrev pub insert_pause : (String → Bool) → Database → DispatchPause → TxOp
insert_pause consumer_exists db p i t =
    if not (is_global p || consumer_exists p.consumer_id)
    then fail db_error
    else in_transaction_exec db
        (λ u.
          if count_where (of_scope p.scope) u.dispatch_pause == 0
          then some (record u { dispatch_pause = u.dispatch_pause ++ stored_pause db p ∷ [] }, 1)
          else none)
        1 i t

module _ (db : Database) (consumer_exists : String → Bool) (get_fails : Bool) where
  -- Pause: the tables, the pause that it returns, and the error.
  unfoldable pub pause :
      ℕ → Tables → Option DispatchPause → Tables × Option DispatchPause × Option Error
  unfolding pause_quick_fix get_pause is_global count_where
  pause now t none = (t, none, some invalid_state_to_save)
  pause now t (some given) =
      let p = (pause_quick_fix now given).0 in
      if not (pause_is_valid p)
      then (t, none, some invalid_state_to_save)
      else (let (t', err) = transactional_writes db (insert_pause consumer_exists db p ∷ []) t in
          elim err [
            | none ↦ (t', some p, none)
            | some e ↦ elim e [
              | duplicate_key ↦ elim (get_pause get_fails t' p.scope) [
                | none ↦ (t', none, some duplicate_key)
                | some existing ↦ (t', some existing, none)
              ]
              | other ↦ (t', none, some other)
            ]
          ])

-- Resume: the tables, whether a pause existed, and the error.
unfoldable pub resume : Database → Tables → String → Tables × Bool × Option Error
unfolding count_where
resume db t scope =
    let (t', err) =
      transactional_writes db
        (in_transaction_exec db
            (λ u. some (
              record u { dispatch_pause = delete_where (of_scope scope) u.dispatch_pause },
              count_where (of_scope scope) u.dispatch_pause,
            ))
            0
          ∷ [])
        t in
    -- The count of the deletion is read before the transaction commits.
    (
      t',
      not (db.begin_fails || db.exec_fails 0)
          && ltb 0 (count_where (of_scope scope) t.dispatch_pause),
      err,
    )

-- ORDER BY pausedAt
unfoldable pub insert_by_time : DispatchPause → List DispatchPause → List DispatchPause
insert_by_time d [] = d ∷ []
insert_by_time d (e ∷ es) =
    let rest = insert_by_time d es in if ltb e.paused_at d.paused_at then e ∷ rest else d ∷ e ∷ es

unfoldable pub by_time : List DispatchPause → List DispatchPause
unfolding insert_by_time
by_time [] = []
by_time (d ∷ ds) = insert_by_time d (by_time ds)

-- GetAll; `none` is an error.
unfoldable pub get_all_pauses : Bool → Tables → Option (List DispatchPause)
unfolding by_time
get_all_pauses query_fails t = if query_fails then none else some (by_time t.dispatch_pause)

-- IsEffectivelyPaused of the repository; `none` is an error.
unfoldable pub repo_is_effectively_paused : Bool → Tables → String → Option Bool
unfolding effectively_paused
repo_is_effectively_paused query_fails t consumer =
    if query_fails then none else some (effectively_paused t.dispatch_pause consumer)
