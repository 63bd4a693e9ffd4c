-- ===== src/Dispatcher/Pause/View.antt =====
-- The registry refines a map from scopes to pauses, whatever the order of its entries.
use webhook_broker.Base.{
  String, false, not, ◌≡◌, refl, sym, ap, ◌∙◌, inl, inr, arith, str_eq, eq_iff, if◌then◌else◌,
  Option, none, some, List, [], ◌∷◌, ◌++◌, Map, lookup, insert, lookup-insert, keep_if, Bool-cases,
  Option-cases, str_cases,
}
use webhook_broker.Data.{DispatchPause, global_dispatch_pause_scope}
use webhook_broker.Dispatcher.Pause.Defs.{
  PauseSnapshot, add_pause, add_pauses, new_pause_snapshot, values, all_pauses, replace_scope,
  has_scope,
}

-- The pause of a scope.
unfoldable pub pause_of : PauseSnapshot → String → Option DispatchPause
pause_of s j = if str_eq global_dispatch_pause_scope j then s.global else lookup j s.consumers

-- The last pause of a scope in a list.
abbrev pub last_of : List DispatchPause → String → Option DispatchPause
last_of [] j = none
last_of (p ∷ ps) j = elim (last_of ps j) [
  | some q ↦ some q
  | none ↦ if str_eq p.scope j then some p else none
]

abbrev pub or_else : Option DispatchPause → Option DispatchPause → Option DispatchPause
or_else none o = o
or_else (some p) o = some p

add_pause-pause_of :
    (s : PauseSnapshot) (p : DispatchPause) (j : String)
    → pause_of (add_pause s p) j ≡ (if str_eq p.scope j then some p else pause_of s j)
unfolding add_pause pause_of
add_pause-pause_of s p j = ground (
  arith,
  lookup-insert p.scope j p s.consumers,
  eq_iff p.scope j,
  eq_iff p.scope global_dispatch_pause_scope,
  eq_iff global_dispatch_pause_scope j,
)

add_pauses-pause_of :
    (s : PauseSnapshot) (ps : List DispatchPause) (j : String)
    → pause_of (add_pauses s ps) j ≡ or_else (last_of ps j) (pause_of s j)
unfolding add_pauses
add_pauses-pause_of s [] j = refl
add_pauses-pause_of s (p ∷ ps) j =
    ground (arith, add_pauses-pause_of (add_pause s p) ps j, add_pause-pause_of s p j)

-- Each consumer's pause stands once, under its own scope, which is not the global one.
abbrev pub IsKeyed : Map DispatchPause → Type 0
IsKeyed [] = Unit
IsKeyed ((k, p) ∷ m) =
    (p.scope ≡ k) × (str_eq global_dispatch_pause_scope k ≡ false) × (lookup k m ≡ none) × IsKeyed m

pub record IsSnapshot (s : PauseSnapshot) : Type 0 where
  pub keyed : IsKeyed s.consumers
  pub global_scope : (p : DispatchPause) → s.global ≡ some p → p.scope ≡ global_dispatch_pause_scope

insert-IsKeyed :
    (p : DispatchPause) (m : Map DispatchPause)
    → str_eq global_dispatch_pause_scope p.scope ≡ false
    → IsKeyed m
    → IsKeyed (insert p.scope p m)
unfolding insert lookup
insert-IsKeyed p [] g v = (refl, g, refl, tt)
insert-IsKeyed p ((k, q) ∷ m) g v = elim (Bool-cases (str_eq k p.scope)) [
  | inl here ↦ rw here (refl, g, ap (λ x. lookup x m) (sym ((eq_iff k p.scope).0 here)) ∙ v.2, v.3)
  | inr there ↦ rw there (
    v.0,
    v.1,
    ground (arith, lookup-insert p.scope k p m, eq_iff p.scope k, eq_iff k p.scope),
    insert-IsKeyed p m g v.3,
  )
]

add_pause-IsSnapshot :
    (s : PauseSnapshot) (p : DispatchPause) → IsSnapshot s → IsSnapshot (add_pause s p)
unfolding add_pause
add_pause-IsSnapshot s p v = elim (str_cases p.scope global_dispatch_pause_scope) [
  | inl (same, e) ↦ rw e (record { keyed = v.keyed; global_scope = λ q h. ground arith })
  | inr (other, e) ↦ rw e (record {
    keyed =
        insert-IsKeyed p s.consumers (ground (arith, eq_iff global_dispatch_pause_scope p.scope))
          v.keyed;
    global_scope = v.global_scope;
  })
]

add_pauses-IsSnapshot :
    (s : PauseSnapshot) (ps : List DispatchPause) → IsSnapshot s → IsSnapshot (add_pauses s ps)
unfolding add_pauses
add_pauses-IsSnapshot s [] v = v
add_pauses-IsSnapshot s (p ∷ ps) v =
    add_pauses-IsSnapshot (add_pause s p) ps (add_pause-IsSnapshot s p v)

pub new_pause_snapshot-IsSnapshot : (ps : List DispatchPause) → IsSnapshot (new_pause_snapshot ps)
unfolding new_pause_snapshot
new_pause_snapshot-IsSnapshot ps =
    add_pauses-IsSnapshot _ ps (record { keyed = tt; global_scope = λ p e. cc })

pub new_pause_snapshot-pause_of :
    (ps : List DispatchPause) (j : String) → pause_of (new_pause_snapshot ps) j ≡ last_of ps j
unfolding new_pause_snapshot pause_of lookup
new_pause_snapshot-pause_of ps j =
    ground (arith, add_pauses-pause_of (record { global = none; consumers = [] }) ps j)

-- What `all` lists has the same pauses.
last_of-values :
    (m : Map DispatchPause) (j : String) → IsKeyed m → last_of (values m) j ≡ lookup j m
unfolding lookup
last_of-values [] j v = refl
last_of-values ((k, p) ∷ m) j v =
    ground (arith, last_of-values m j v.3, eq_iff k j, eq_iff p.scope j)

pub keyed_not_global :
    (m : Map DispatchPause) → IsKeyed m → lookup global_dispatch_pause_scope m ≡ none
unfolding lookup
keyed_not_global [] v = refl
keyed_not_global ((k, p) ∷ m) v = ground (
  arith,
  keyed_not_global m v.3,
  eq_iff k global_dispatch_pause_scope,
  eq_iff global_dispatch_pause_scope k,
)

pub last_of-all_pauses :
    (s : PauseSnapshot) (j : String) → IsSnapshot s → last_of (all_pauses s) j ≡ pause_of s j
unfolding all_pauses pause_of
last_of-all_pauses s j v =
    let l = last_of-values s.consumers j v.keyed in
    let n = keyed_not_global s.consumers v.keyed in
    elim (Option-cases s.global) [
      | inl e ↦ rw e (elim (str_cases global_dispatch_pause_scope j) [
        | inl (same, t) ↦ rw t (l ∙ (ap (λ x. lookup x s.consumers) (sym same) ∙ n))
        | inr (other, t) ↦ rw t l
      ])
      | inr (p, e) ↦ rw e (
          ground (
            arith,
            l,
            n,
            v.global_scope p e,
            eq_iff p.scope j,
            eq_iff global_dispatch_pause_scope j,
          ))
    ]

pub last_of-replace_scope :
    (p : DispatchPause) (l : List DispatchPause) (j : String)
    → last_of (replace_scope p l) j
      ≡ (if str_eq p.scope j then (if has_scope p.scope l then some p else none) else last_of l j)
last_of-replace_scope p [] j = ground arith
last_of-replace_scope p (q ∷ l) j =
    ground (
      arith,
      last_of-replace_scope p l j,
      eq_iff p.scope j,
      eq_iff q.scope p.scope,
      eq_iff q.scope j,
    )

pub last_of-snoc :
    (l : List DispatchPause) (p : DispatchPause) (j : String)
    → last_of (l ++ p ∷ []) j ≡ (if str_eq p.scope j then some p else last_of l j)
last_of-snoc [] p j = refl
last_of-snoc (q ∷ l) p j = ground (arith, last_of-snoc l p j)

pub last_of-keep_if :
    (k : String) (l : List DispatchPause) (j : String)
    → last_of (keep_if (λ p. not (str_eq p.scope k)) l) j
      ≡ (if str_eq k j then none else last_of l j)
last_of-keep_if k [] j = ground arith
last_of-keep_if k (q ∷ l) j =
    ground (arith, last_of-keep_if k l j, eq_iff k j, eq_iff q.scope k, eq_iff q.scope j)
