-- ===== src/Controllers/PauseAgreement.antt =====
-- The requests of controllers/dispatchpause.go keep the registry of their node and the database in
-- step, whatever fails.
use webhook_broker.Base.{
  ℕ, String, Bool, false, str_eq, if◌then◌else◌, Option, none, some, List, [], ◌∷◌, ◌≡◌, refl, sym,
  ap, subst, ◌∙◌, arith, inl, inr, ◌⊎◌, Bool-cases, Option-cases, eq_iff, is_some, All,
}
use webhook_broker.Data.{
  Consumer, DispatchPause, global_dispatch_pause_scope, new_consumer_dispatch_pause,
  new_global_dispatch_pause,
}
use webhook_broker.Storage.Tables.{Tables}
use webhook_broker.Storage.Transactions.{Database}
use webhook_broker.Storage.Pausing.{find_pause, stored_pause, pause, resume}
use webhook_broker.Storage.Paused.{pause-Kept, resume_lem}
use webhook_broker.Dispatcher.Pause.{
  IsSnapshot, pause_of, apply_pause, remove_pause, apply_pause-pause_of, remove_pause-pause_of,
}
use webhook_broker.Controllers.Access.{
  Request, Directory, Access, granted, refused, get_channel_consumer_with_auth, check_admin_token,
}
use webhook_broker.Controllers.PauseRequests.{
  PauseNode, put_pause, delete_pause, put_consumer_pause, delete_consumer_pause, put_global_pause,
  delete_global_pause, too_long,
}

-- A pause of the registry and a row: neither is there, or the row is the pause, but for its time, of
-- which the row may have what the column keeps.
abbrev pub AsStored : (ℕ → ℕ) → Option DispatchPause → Option DispatchPause → Type 0
AsStored keep none row = row ≡ none
AsStored keep (some p) row =
    (row ≡ some p) ⊎ (row ≡ some (record p { paused_at = keep p.paused_at }))

-- The registry's snapshot is well formed and has for each scope the pause of the database.
abbrev pub Agrees : (ℕ → ℕ) → PauseNode → Type 0
Agrees keep n =
    IsSnapshot n.registry.state
    × ((j : String)
        → AsStored keep (pause_of n.registry.state j) (find_pause j n.tables.dispatch_pause))

pub as_given : (keep : ℕ → ℕ) (p row : Option DispatchPause) → p ≡ row → AsStored keep p row
as_given keep none row same = sym same
as_given keep (some p) row same = inl (sym same)

same_row :
    (keep : ℕ → ℕ) (p row row' : Option DispatchPause)
    → row' ≡ row
    → AsStored keep p row
    → AsStored keep p row'
same_row keep p row row' e h = subst (AsStored keep p) (sym e) h

absent_row :
    (keep : ℕ → ℕ) (p row : Option DispatchPause)
    → AsStored keep p row
    → is_some row ≡ false
    → p ≡ none
absent_row keep none row h gone = refl
absent_row keep (some p) row h gone =
    absurd (elim h [ inl e ↦ ground (arith, ap is_some e) | inr e ↦ ground (arith, ap is_some e) ])

module _ (consumer_exists : String → Bool) (get_consumer : String → Option Consumer) (db : Database)
    (get_fails counts_fail : Bool) (now : ℕ) (n : PauseNode) where
  put_pause-Agrees :
      (given : Option DispatchPause)
      → Agrees db.stored_time n
      → Agrees db.stored_time
          (put_pause consumer_exists get_consumer db get_fails counts_fail now n given).0
  unfolding put_pause
  put_pause-Agrees given (v, same) =
      let keep = db.stored_time in
      let out = pause db consumer_exists get_fails now n.tables given in
      let after = (put_pause consumer_exists get_consumer db get_fails counts_fail now n given).0 in
      elim (pause-Kept db consumer_exists get_fails now n.tables given) [
        | inr (failed, left) ↦
            let e : after ≡ record n { tables = out.0 } = ground arith in
            subst (Agrees keep) (sym e) (
              v,
              λ j.
                  same_row keep _ _ _ (ap (λ (t : Tables). find_pause j t.dispatch_pause) left)
                    (same j),
            )
        | inl (p, row, given_back, fine, kept, rows) ↦
            let e : after ≡ record n {
              tables = out.0;
              registry = apply_pause get_consumer n.registry (some p);
            } =
              ground arith in
            subst (Agrees keep) (sym e) (
              (apply_pause-pause_of get_consumer n.registry v p "").0,
              λ j.
                  overwritten p row j _ _ (apply_pause-pause_of get_consumer n.registry v p j).1
                    (rows j) kept (same j),
            )
      ]
    where
      overwritten :
          (p row : DispatchPause) (j : String) (here there : Option DispatchPause)
          → here ≡ (if str_eq p.scope j then some p else pause_of n.registry.state j)
          → there ≡ (if str_eq p.scope j then some row else find_pause j n.tables.dispatch_pause)
          → (row ≡ p) ⊎ (row ≡ stored_pause db p)
          → AsStored db.stored_time
              (pause_of n.registry.state j)
              (find_pause j n.tables.dispatch_pause)
          → AsStored db.stored_time here there
      overwritten p row j here there a b kept same = elim (Bool-cases (str_eq p.scope j)) [
        | inr other ↦
            let f : here ≡ pause_of n.registry.state j = ground arith in
            let g : there ≡ find_pause j n.tables.dispatch_pause = ground arith in
            subst (λ x. AsStored db.stored_time x there) (sym f)
              (same_row db.stored_time _ _ _ g same)
        | inl mine ↦
            let f : here ≡ some p = ground arith in
            let g : there ≡ some row = ground arith in
            subst (λ x. AsStored db.stored_time x there) (sym f)
              (elim kept [ inl exact ↦ inl (g ∙ ap some exact) | inr cut ↦ inr (g ∙ ap some cut) ])
      ]

  delete_pause-Agrees :
      (scope : String)
      → Agrees db.stored_time n
      → Agrees db.stored_time
          (delete_pause consumer_exists get_consumer db get_fails counts_fail now n scope).0
  unfolding delete_pause
  delete_pause-Agrees scope (v, same) =
      let keep = db.stored_time in
      let out = resume db n.tables scope in
      let after =
        (delete_pause consumer_exists get_consumer db get_fails counts_fail now n scope).0 in
      elim (resume_lem db n.tables scope) [
        | inr (failed, left) ↦
            let e : after ≡ record n { tables = out.0 } = ground arith in
            subst (Agrees keep) (sym e) (
              v,
              λ j.
                  same_row keep _ _ _ (ap (λ (t : Tables). find_pause j t.dispatch_pause) left)
                    (same j),
            )
        | inl (fine, rows, told) ↦ elim (Bool-cases out.1) [
          | inl resumed ↦
              let e : after ≡ record n {
                tables = out.0;
                registry = remove_pause get_consumer n.registry scope;
              } =
                ground arith in
              subst (Agrees keep) (sym e) (
                (remove_pause-pause_of get_consumer n.registry v scope "").0,
                λ j.
                    removed j _ _ (remove_pause-pause_of get_consumer n.registry v scope j).1
                      (rows j) (same j),
              )
          | inr absent ↦
              let e : after ≡ record n { tables = out.0 } = ground arith in
              subst (Agrees keep) (sym e)
                (v, λ j. unchanged j _ (sym told ∙ absent) (rows j) (same j))
        ]
      ]
    where
      removed :
          (j : String) (here there : Option DispatchPause)
          → here ≡ (if str_eq scope j then none else pause_of n.registry.state j)
          → there ≡ (if str_eq scope j then none else find_pause j n.tables.dispatch_pause)
          → AsStored db.stored_time
              (pause_of n.registry.state j)
              (find_pause j n.tables.dispatch_pause)
          → AsStored db.stored_time here there
      removed j here there a b same = elim (Bool-cases (str_eq scope j)) [
        | inr other ↦
            let f : here ≡ pause_of n.registry.state j = ground arith in
            let g : there ≡ find_pause j n.tables.dispatch_pause = ground arith in
            subst (λ x. AsStored db.stored_time x there) (sym f)
              (same_row db.stored_time _ _ _ g same)
        | inl mine ↦
            let f : here ≡ none = ground arith in
            let g : there ≡ none = ground arith in
            subst (λ x. AsStored db.stored_time x there) (sym f) g
      ]

      unchanged :
          (j : String) (there : Option DispatchPause)
          → is_some (find_pause scope n.tables.dispatch_pause) ≡ false
          → there ≡ (if str_eq scope j then none else find_pause j n.tables.dispatch_pause)
          → AsStored db.stored_time
              (pause_of n.registry.state j)
              (find_pause j n.tables.dispatch_pause)
          → AsStored db.stored_time (pause_of n.registry.state j) there
      unchanged j there absent row same = elim (Bool-cases (str_eq scope j)) [
        | inr other ↦ same_row db.stored_time _ _ _ (ground arith) same
        | inl here ↦
            let named = ap (λ k. find_pause k n.tables.dispatch_pause) ((eq_iff scope j).0 here) in
            let gone : is_some (find_pause j n.tables.dispatch_pause) ≡ false =
              ap is_some (sym named) ∙ absent in
            let f = absent_row db.stored_time _ _ same gone in
            let g : there ≡ none = ground arith in
            subst (λ x. AsStored db.stored_time x there) (sym f) g
      ]

Access-cases :
    {A : Type 0} (a : Access A)
    → ((status : ℕ) × (a ≡ refused status)) ⊎ ((x : A) × (a ≡ granted x))
Access-cases (refused status) = inl (status, refl)
Access-cases (granted x) = inr (x, refl)

-- The requests that pause and resume.
pub data PauseRequest : Type 0 where
  put_consumer : Directory → Request → List ℕ → PauseRequest
  delete_consumer : Directory → Request → PauseRequest
  put_global : String → Request → List ℕ → PauseRequest
  delete_global : String → Request → PauseRequest

-- What the database does and the time while a request is handled.
pub record Handling : Type 0 where
  pub db : Database
  pub get_fails : Bool
  pub counts_fail : Bool
  pub now : ℕ

module _ (consumer_exists : String → Bool) (get_consumer : String → Option Consumer) where
  unfoldable pub handle : Handling → PauseNode → PauseRequest → PauseNode × ℕ
  unfolding put_consumer_pause delete_consumer_pause put_global_pause delete_global_pause
  handle h n (put_consumer dir r reason) =
      put_consumer_pause consumer_exists get_consumer h.db h.get_fails h.counts_fail h.now n dir r
        reason
  handle h n (delete_consumer dir r) =
      delete_consumer_pause consumer_exists get_consumer h.db h.get_fails h.counts_fail h.now n dir
        r
  handle h n (put_global token r reason) =
      put_global_pause consumer_exists get_consumer h.db h.get_fails h.counts_fail h.now n token r
        reason
  handle h n (delete_global token r) =
      delete_global_pause consumer_exists get_consumer h.db h.get_fails h.counts_fail h.now n token
        r

  -- Requests one after the other.
  unfoldable pub handle_all : PauseNode → List (Handling × PauseRequest) → PauseNode
  unfolding handle
  handle_all n [] = n
  handle_all n ((h, q) ∷ hs) = handle_all (handle h n q).0 hs

  module _ (keep : ℕ → ℕ) (h : Handling) (column : h.db.stored_time ≡ keep) (n : PauseNode)
      (agrees : Agrees keep n) where
    put_pause_kept :
        (p : DispatchPause)
        → Agrees keep
            (put_pause consumer_exists get_consumer h.db h.get_fails h.counts_fail h.now n
              (some p)).0
    put_pause_kept p =
        subst
          (λ k.
            Agrees k
              (put_pause consumer_exists get_consumer h.db h.get_fails h.counts_fail h.now n
                (some p)).0)
          column
          (put_pause-Agrees consumer_exists get_consumer h.db h.get_fails h.counts_fail h.now n
            (some p) (subst (λ k. Agrees k n) (sym column) agrees))

    delete_pause_kept :
        (scope : String)
        → Agrees keep
            (delete_pause consumer_exists get_consumer h.db h.get_fails h.counts_fail h.now n
              scope).0
    delete_pause_kept scope =
        subst
          (λ k.
            Agrees k
              (delete_pause consumer_exists get_consumer h.db h.get_fails h.counts_fail h.now n
                scope).0)
          column
          (delete_pause-Agrees consumer_exists get_consumer h.db h.get_fails h.counts_fail h.now n
            scope (subst (λ k. Agrees k n) (sym column) agrees))

    -- The node is as it was, or a pause is put or deleted.
    abbrev Done : PauseNode → Type 0
    Done m =
        (m ≡ n)
        ⊎ ((p : DispatchPause) × (m
              ≡ (put_pause consumer_exists get_consumer h.db h.get_fails h.counts_fail h.now n
                  (some p)).0))
        ⊎ ((scope : String) × (m
              ≡ (delete_pause consumer_exists get_consumer h.db h.get_fails h.counts_fail h.now n
                  scope).0))

    Done-Agrees : (m : PauseNode) → Done m → Agrees keep m
    Done-Agrees m (inl same) = subst (Agrees keep) (sym same) agrees
    Done-Agrees m (inr (inl (p, same))) = subst (Agrees keep) (sym same) (put_pause_kept p)
    Done-Agrees m (inr (inr (scope, same))) =
        subst (Agrees keep) (sym same) (delete_pause_kept scope)

    handle-Done : (q : PauseRequest) → Done (handle h n q).0
    unfolding handle put_consumer_pause delete_consumer_pause put_global_pause delete_global_pause
    handle-Done (put_consumer dir r reason) =
        elim (Access-cases (get_channel_consumer_with_auth dir r)) [
          | inl (status, f) ↦ inl (ground arith)
          | inr (c, f) ↦ elim (Bool-cases (too_long reason)) [
            | inl long ↦ inl (ground arith)
            | inr short ↦ elim (Option-cases (new_consumer_dispatch_pause h.now (some c) reason)) [
              | inl g ↦ inl (ground arith)
              | inr (p, g) ↦ inr (inl (p, ground arith))
            ]
          ]
        ]
    handle-Done (delete_consumer dir r) =
        elim (Access-cases (get_channel_consumer_with_auth dir r)) [
          | inl (status, f) ↦ inl (ground arith)
          | inr (c, f) ↦ inr (inr (c.stakeholder.base.id, ground arith))
        ]
    handle-Done (put_global token r reason) = elim (Option-cases (check_admin_token token r)) [
      | inr (status, f) ↦ inl (ground arith)
      | inl f ↦ elim (Bool-cases (too_long reason)) [
        | inl long ↦ inl (ground arith)
        | inr short ↦ inr (inl (new_global_dispatch_pause h.now reason, ground arith))
      ]
    ]
    handle-Done (delete_global token r) = elim (Option-cases (check_admin_token token r)) [
      | inr (status, f) ↦ inl (ground arith)
      | inl f ↦ inr (inr (global_dispatch_pause_scope, ground arith))
    ]

    handle-Agrees : (q : PauseRequest) → Agrees keep (handle h n q).0
    handle-Agrees q = Done-Agrees (handle h n q).0 (handle-Done q)

  -- If the time column keeps `keep p` of a time p whatever fails, and the registry of the node has for
  -- each scope the pause that the database has, its time given or as the column keeps it, then the
  -- same holds after any requests to pause and to resume, allowed or refused, whatever fails.
  pub handle_all-Agrees :
      (keep : ℕ → ℕ) (n : PauseNode) (hs : List (Handling × PauseRequest))
      → All (λ (h, q). h.db.stored_time ≡ keep) hs
      → Agrees keep n
      → Agrees keep (handle_all n hs)
  unfolding handle_all
  handle_all-Agrees keep n [] columns agrees = agrees
  handle_all-Agrees keep n ((h, q) ∷ hs) (column, columns) agrees =
      handle_all-Agrees keep (handle h n q).0 hs columns (handle-Agrees keep h column n agrees q)
