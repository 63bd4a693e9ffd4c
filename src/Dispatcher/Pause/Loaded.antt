-- ===== src/Dispatcher/Pause/Loaded.antt =====
-- The registry after Refresh of dispatcher/pause.go, against IsEffectivelyPaused of
-- storage/dispatchpauserepo.go.
use webhook_broker.Base.{
  String, false, ◌||◌, ◌≡◌, ap, sym, ◌∙◌, arith, str_eq, is_some, some, List, [], ◌∷◌,
}
use webhook_broker.Data.{DispatchPause, Consumer, global_dispatch_pause_scope}
use webhook_broker.Base.{Option}
use webhook_broker.Storage.Tables.{Tables, effectively_paused}
use webhook_broker.Storage.Pausing.{
  insert_by_time, by_time, get_all_pauses, repo_is_effectively_paused,
}
use webhook_broker.Dispatcher.Pause.View.{last_of}
use webhook_broker.Dispatcher.Pause.Refinement.{
  refresh_pauses-pause_of, is_effectively_paused-pause_of,
}
use webhook_broker.Dispatcher.Pause.Defs.{
  PauseRegistry, has_scope, is_effectively_paused, refresh_pauses,
}

last_of-has_scope : (ds : List DispatchPause) (j : String) → is_some (last_of ds j) ≡ has_scope j ds
last_of-has_scope [] j = ground arith
last_of-has_scope (d ∷ ds) j = ground (arith, last_of-has_scope ds j)

insert_by_time-has_scope :
    (j : String) (d : DispatchPause) (ds : List DispatchPause)
    → has_scope j (insert_by_time d ds) ≡ (str_eq d.scope j || has_scope j ds)
unfolding insert_by_time
insert_by_time-has_scope j d [] = ground arith
insert_by_time-has_scope j d (e ∷ es) = ground (arith, insert_by_time-has_scope j d es)

by_time-has_scope :
    (j : String) (ds : List DispatchPause) → has_scope j (by_time ds) ≡ has_scope j ds
unfolding by_time
by_time-has_scope j [] = ground arith
by_time-has_scope j (d ∷ ds) =
    ground (arith, insert_by_time-has_scope j d (by_time ds), by_time-has_scope j ds)

effectively_paused-has_scope :
    (consumer : String) (ds : List DispatchPause)
    → effectively_paused ds consumer
      ≡ (has_scope global_dispatch_pause_scope ds || has_scope consumer ds)
unfolding effectively_paused
effectively_paused-has_scope consumer [] = ground arith
effectively_paused-has_scope consumer (d ∷ ds) =
    ground (arith, effectively_paused-has_scope consumer ds)

-- After Refresh has loaded the rows that GetAll gives, ordered by their times, the registry holds
-- exactly those consumers for effectively paused that the database's IsEffectivelyPaused does.
pub refresh_pauses-repo_is_effectively_paused :
    (get_consumer : String → Option Consumer) (r : PauseRegistry) (t : Tables) (consumer : String)
    → let loaded = refresh_pauses get_consumer r (get_all_pauses false t) in
      repo_is_effectively_paused false t consumer ≡ some (is_effectively_paused loaded.0 consumer)
unfolding get_all_pauses repo_is_effectively_paused
refresh_pauses-repo_is_effectively_paused get_consumer r t consumer =
    let ds = by_time t.dispatch_pause in
    let loaded = (refresh_pauses-pause_of get_consumer r).1 ds in
    let s = (refresh_pauses get_consumer r (some ds)).0 in
    ap some (
      effectively_paused-has_scope consumer t.dispatch_pause
      ∙ sym (
          is_effectively_paused-pause_of get_consumer s loaded.1 consumer
          ∙ ground (
            arith,
            loaded.2 global_dispatch_pause_scope,
            loaded.2 consumer,
            last_of-has_scope ds global_dispatch_pause_scope,
            last_of-has_scope ds consumer,
            by_time-has_scope global_dispatch_pause_scope t.dispatch_pause,
            by_time-has_scope consumer t.dispatch_pause,
          )))
