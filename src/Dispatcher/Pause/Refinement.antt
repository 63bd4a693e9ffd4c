-- ===== src/Dispatcher/Pause/Refinement.antt =====
-- The operations of the registry against the map from scopes to pauses.
use webhook_broker.Base.{
  String, true, false, ◌||◌, not, ◌≡◌, refl, ◌∙◌, arith, str_eq, eq_iff, if◌then◌else◌, is_some,
  Option, none, some, List, [], ◌∷◌, ◌++◌, keep_if, str_eq_refl,
}
use webhook_broker.Data.{DispatchPause, is_global, Consumer, global_dispatch_pause_scope}
use webhook_broker.Dispatcher.Pause.View.{
  IsSnapshot, pause_of, last_of, new_pause_snapshot-IsSnapshot, new_pause_snapshot-pause_of,
  keyed_not_global, last_of-all_pauses, last_of-replace_scope, last_of-snoc, last_of-keep_if,
}
use webhook_broker.Dispatcher.Pause.Defs.{
  PauseRegistry, all_pauses, publish, is_effectively_paused, replace_scope, has_scope, apply_pause,
  remove_pause, refresh_pauses,
}

module _ (get_consumer : String → Option Consumer) (r : PauseRegistry)
    (v : IsSnapshot r.state) where
  -- Apply sets the pause of its scope and of no other, and keeps the snapshot well formed.
  pub apply_pause-pause_of :
      (p : DispatchPause) (j : String)
      → IsSnapshot (apply_pause get_consumer r (some p)).state
        × (pause_of (apply_pause get_consumer r (some p)).state j
            ≡ (if str_eq p.scope j then some p else pause_of r.state j))
  unfolding apply_pause publish
  apply_pause-pause_of p j =
      let pauses = all_pauses r.state in
      let replaced = replace_scope p pauses in
      let l = if has_scope p.scope pauses then replaced else replaced ++ p ∷ [] in
      (
        new_pause_snapshot-IsSnapshot l,
        new_pause_snapshot-pause_of l j
            ∙ ground (
              arith,
              last_of-replace_scope p pauses j,
              last_of-snoc replaced p j,
              last_of-all_pauses r.state j v,
            ),
      )

  -- Remove forgets the pause of the scope and of no other, and keeps the snapshot well formed.
  pub remove_pause-pause_of :
      (scope j : String)
      → IsSnapshot (remove_pause get_consumer r scope).state
        × (pause_of (remove_pause get_consumer r scope).state j
            ≡ (if str_eq scope j then none else pause_of r.state j))
  unfolding remove_pause publish
  remove_pause-pause_of scope j =
      let kept = keep_if (λ p. not (str_eq p.scope scope)) (all_pauses r.state) in
      (
        new_pause_snapshot-IsSnapshot kept,
        new_pause_snapshot-pause_of kept j
            ∙ ground (
              arith,
              last_of-keep_if scope (all_pauses r.state) j,
              last_of-all_pauses r.state j v,
            ),
      )

  -- A consumer is effectively paused in the snapshot exactly when the broker or it is paused.
  pub is_effectively_paused-pause_of :
      (consumer : String)
      → is_effectively_paused r consumer ≡ (
          is_some (pause_of r.state global_dispatch_pause_scope)
          || is_some (pause_of r.state consumer))
  unfolding is_effectively_paused pause_of
  is_effectively_paused-pause_of consumer = ground (
    arith,
    keyed_not_global r.state.consumers v.keyed,
    eq_iff global_dispatch_pause_scope consumer,
    str_eq_refl global_dispatch_pause_scope,
  )

-- Refresh: after an error the registry is as it was; otherwise its snapshot is well formed and has
-- for each scope the last pause of that scope that the database gave.
pub refresh_pauses-pause_of :
    (get_consumer : String → Option Consumer) (r : PauseRegistry)
    → (refresh_pauses get_consumer r none ≡ (r, true))
      × ((ps : List DispatchPause)
          → let t = refresh_pauses get_consumer r (some ps) in
            (t.1 ≡ false)
            × IsSnapshot t.0.state
            × ((j : String) → pause_of t.0.state j ≡ last_of ps j))
unfolding refresh_pauses publish
refresh_pauses-pause_of get_consumer r =
    (refl, λ ps. (refl, new_pause_snapshot-IsSnapshot ps, new_pause_snapshot-pause_of ps))

-- A local pause and its resume: after Apply the consumer is effectively paused; after Remove of the
-- same scope it is if and only if the broker is.
pub apply_pause-remove_pause :
    (get_consumer : String → Option Consumer) (r : PauseRegistry) (p : DispatchPause)
    → IsSnapshot r.state
    → is_global p ≡ false
    → let t = apply_pause get_consumer r (some p) in
      (is_effectively_paused t p.scope ≡ true)
      × (is_effectively_paused (remove_pause get_consumer t p.scope) p.scope
          ≡ is_some (pause_of r.state global_dispatch_pause_scope))
unfolding is_global
apply_pause-remove_pause get_consumer r p v g =
    let t = apply_pause get_consumer r (some p) in
    let u = remove_pause get_consumer t p.scope in
    let a = apply_pause-pause_of get_consumer r v p in
    let w = (a p.scope).0 in
    let b = remove_pause-pause_of get_consumer t w p.scope in
    (
      is_effectively_paused-pause_of get_consumer t w p.scope
          ∙ ground (arith, (a p.scope).1, str_eq_refl p.scope),
      is_effectively_paused-pause_of get_consumer u (b p.scope).0 p.scope
          ∙ ground (
            arith,
            (b global_dispatch_pause_scope).1,
            (b p.scope).1,
            (a global_dispatch_pause_scope).1,
            str_eq_refl p.scope,
          ),
    )
