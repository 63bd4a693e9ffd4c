-- ===== src/Dispatcher/Pause/Defs.antt =====
-- dispatcher/pause.go: the snapshot and the operations.
use webhook_broker.Base.{
  String, Bool, true, false, ◌||◌, not, str_eq, if◌then◌else◌, is_some, Option, none, some, List,
  [], ◌∷◌, ◌++◌, Map, lookup, insert, keep_if,
}
use webhook_broker.Data.{DispatchPause, is_global, Consumer, consumer_channel_id}

pub record PauseSnapshot : Type 0 where
  pub global : Option DispatchPause
  pub consumers : Map DispatchPause

pub record PauseRegistry : Type 0 where
  pub state : PauseSnapshot
  pub dispatch_paused : List (String × String)

-- One round of the loop of newPauseSnapshot.
unfoldable pub add_pause : PauseSnapshot → DispatchPause → PauseSnapshot
unfolding is_global
add_pause s p =
    if is_global p
    then record s { global = some p }
    else record s { consumers = insert p.scope p s.consumers }

unfoldable pub add_pauses : PauseSnapshot → List DispatchPause → PauseSnapshot
add_pauses s [] = s
add_pauses s (p ∷ ps) = add_pauses (add_pause s p) ps

unfoldable pub new_pause_snapshot : List DispatchPause → PauseSnapshot
unfolding add_pauses
new_pause_snapshot ps = add_pauses (record { global = none; consumers = [] }) ps

abbrev pub values : Map DispatchPause → List DispatchPause
values [] = []
values ((k, p) ∷ m) = p ∷ values m

unfoldable pub all_pauses : PauseSnapshot → List DispatchPause
all_pauses s = elim s.global [ none ↦ values s.consumers | some p ↦ p ∷ values s.consumers ]

-- The labels of a consumer's pause.
abbrev pub labels_of : (String → Option Consumer) → String → String × String
labels_of get_consumer id = elim (get_consumer id) [
  | none ↦ (id, id)
  | some c ↦ (consumer_channel_id c, c.consumer_id)
]

abbrev pub consumer_labels : (String → Option Consumer) → Map DispatchPause → List (String × String)
consumer_labels get_consumer [] = []
consumer_labels get_consumer ((k, p) ∷ m) =
    labels_of get_consumer k ∷ consumer_labels get_consumer m

unfoldable pub publish : (String → Option Consumer) → PauseSnapshot → PauseRegistry
publish get_consumer s = record {
  state = s;
  dispatch_paused =
      let labels = consumer_labels get_consumer s.consumers in
      if is_some s.global then ("*", "*") ∷ labels else labels;
}

unfoldable pub is_globally_paused : PauseRegistry → Bool
is_globally_paused r = is_some r.state.global

unfoldable pub is_effectively_paused : PauseRegistry → String → Bool
is_effectively_paused r consumer_id =
    if is_some r.state.global then true else is_some (lookup consumer_id r.state.consumers)

unfoldable pub snapshot : PauseRegistry → List DispatchPause
unfolding all_pauses
snapshot r = all_pauses r.state

-- The loop of Apply, which puts the pause in the place of those of its scope.
abbrev pub replace_scope : DispatchPause → List DispatchPause → List DispatchPause
replace_scope p [] = []
replace_scope p (q ∷ qs) = (if str_eq q.scope p.scope then p else q) ∷ replace_scope p qs

-- Whether that loop met one.
abbrev pub has_scope : String → List DispatchPause → Bool
has_scope k [] = false
has_scope k (q ∷ qs) = str_eq q.scope k || has_scope k qs

module _ (get_consumer : String → Option Consumer) where
  unfoldable pub apply_pause : PauseRegistry → Option DispatchPause → PauseRegistry
  unfolding all_pauses new_pause_snapshot publish
  apply_pause r none = r
  apply_pause r (some p) =
      let pauses = all_pauses r.state in
      let replaced = replace_scope p pauses in
      publish get_consumer
        (new_pause_snapshot (if has_scope p.scope pauses then replaced else replaced ++ p ∷ []))

  unfoldable pub remove_pause : PauseRegistry → String → PauseRegistry
  unfolding all_pauses new_pause_snapshot publish
  remove_pause r scope =
      publish get_consumer
        (new_pause_snapshot (keep_if (λ p. not (str_eq p.scope scope)) (all_pauses r.state)))

  -- Refresh, by what pauseRepo.GetAll gives; `none` is its error. The Boolean says that it failed.
  unfoldable pub refresh_pauses : PauseRegistry → Option (List DispatchPause) → PauseRegistry × Bool
  unfolding new_pause_snapshot publish
  refresh_pauses r none = (r, true)
  refresh_pauses r (some pauses) = (publish get_consumer (new_pause_snapshot pauses), false)

  -- NewPauseRegistry, whose dependencies are not nil.
  unfoldable pub new_pause_registry : Option (List DispatchPause) → PauseRegistry
  unfolding refresh_pauses new_pause_snapshot
  new_pause_registry loaded =
      (refresh_pauses (record { state = new_pause_snapshot []; dispatch_paused = [] }) loaded).0
