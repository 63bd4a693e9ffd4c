-- ===== src/Scheduler/Once.antt =====
-- scheduler/scheduler.go dispatches no message twice.
use webhook_broker.Base.{
  ℕ, suc, ◌≤◌, String, Bool, true, none, some, List, [], ◌∷◌, ◌++◌, ◌≡◌, refl, ap, sym, subst, ◌∙◌,
  arith, inl, inr, ◌⊎◌, Bool-cases, Option-cases, eq_iff,
}
use webhook_broker.Data.{Message, ScheduledMessage, message_channel_id}
use webhook_broker.Storage.Tables.{count_where}
use webhook_broker.Storage.Transactions.{Database}
use webhook_broker.Storage.Counts.{count_append, count_le}
use webhook_broker.Storage.Locks.{new_lock, try_lock}
use webhook_broker.Scheduler.Store.{
  StoreError, write_row, has_key, message_clash, create_message, ready_for_dispatch,
}
use webhook_broker.Scheduler.Service.{
  Schedule, Meanwhile, regular_message, mark_and_dispatch, dispatch_locked, dispatch_scheduled,
  dispatch_each, process_scheduled_messages,
}

abbrev keyed : String → String → List Message → ℕ
keyed channel id ms = count_where (has_key channel id) ms

-- Of each message id in a channel at most one message is stored, and no more are dispatched.
abbrev pub Once : Schedule → Type 0
Once s =
    (channel id : String)
    → (keyed channel id s.dispatched ≤ keyed channel id s.messages)
      × (keyed channel id s.messages ≤ 1)

-- A message that Create stores is the first with its key.
pub create_message_lem :
    (db : Database) (get_fails : Bool) (m : Message) (rows : List Message)
    → let (rows', err) = create_message db get_fails m rows in
      ((err ≡ none) × (rows' ≡ rows ++ m ∷ []) × (count_where (message_clash m) rows ≡ 0))
      ⊎ ((rows' ≡ rows) × ((e : StoreError) × (err ≡ some e)))
unfolding create_message write_row
create_message_lem db get_fails m rows =
    elim (Option-cases (create_message db get_fails m rows).1) [
      | inl e ↦ inl (e, ground arith, ground arith)
      | inr (x, e) ↦ inr (ground arith, (x, e))
    ]

-- No message has the key of one that clashes with none.
fresh_key :
    (m : Message) (rows : List Message) (channel id : String)
    → count_where (message_clash m) rows ≡ 0
    → has_key channel id m ≡ true
    → keyed channel id rows ≡ 0
fresh_key m rows channel id free named =
    let ch = (eq_iff (message_channel_id m) channel).0 (ground arith) in
    let mid = (eq_iff m.message_id id).0 (ground arith) in
    let own =
      count_le (has_key (message_channel_id m) m.message_id) (message_clash m) (λ q e. ground arith)
        rows in
    let same = ap (λ c. keyed c m.message_id rows) ch ∙ ap (λ i. keyed channel i rows) mid in
    omega (arith, own, free, same)

-- A message that was stored just now may be dispatched, once.
pub stored-Once :
    (s s' : Schedule) (m : Message)
    → Once s
    → count_where (message_clash m) s.messages ≡ 0
    → s'.messages ≡ s.messages ++ m ∷ []
    → (s'.dispatched ≡ s.dispatched) ⊎ (s'.dispatched ≡ m ∷ s.dispatched)
    → Once s'
unfolding count_where
stored-Once s s' m once free messages calls channel id =
    let (fewer, one) = once channel id in
    let added = ap (keyed channel id) messages in
    let grown = count_append (has_key channel id) s.messages (m ∷ []) in
    elim (Bool-cases (has_key channel id m)) [
      | inl named ↦
          let none_yet = fresh_key m s.messages channel id free named in
          elim calls [
            | inl same ↦ ground (arith, ap (keyed channel id) same)
            | inr more ↦ ground (arith, ap (keyed channel id) more)
          ]
      | inr other ↦ elim calls [
        | inl same ↦ ground (arith, ap (keyed channel id) same)
        | inr more ↦ ground (arith, ap (keyed channel id) more)
      ]
    ]

pub same-Once :
    (s s' : Schedule) → Once s → s'.messages ≡ s.messages → s'.dispatched ≡ s.dispatched → Once s'
same-Once s s' once messages calls channel id =
    let (fewer, one) = once channel id in
    omega (arith, ap (keyed channel id) messages, ap (keyed channel id) calls, fewer, one)

module _ (w : Meanwhile) where
  mark_and_dispatch_lem :
      (sm : ScheduledMessage) (m : Message) (s : Schedule)
      → let s' = mark_and_dispatch w sm m s in
        (s'.messages ≡ s.messages)
        × ((s'.dispatched ≡ s.dispatched) ⊎ (s'.dispatched ≡ m ∷ s.dispatched))
  unfolding mark_and_dispatch
  mark_and_dispatch_lem sm m s = ground arith

  dispatch_locked-Once :
      (sm : ScheduledMessage) (s : Schedule) → Once s → Once (dispatch_locked w sm s)
  unfolding dispatch_locked
  dispatch_locked-Once sm s once =
      let m = (regular_message w sm).0 in
      let out = create_message w.create_db w.get_fails m s.messages in
      let stored = record s { messages = out.0 } in
      let result = dispatch_locked w sm s in
      elim (create_message_lem w.create_db w.get_fails m s.messages) [
        | inr (left, (e, failed)) ↦ same-Once s result once (ground arith) (ground arith)
        | inl (fine, rows, free) ↦ elim (Bool-cases (regular_message w sm).1) [
          | inl bad ↦ same-Once s result once (ground arith) (ground arith)
          | inr good ↦
              let (kept, calls) = mark_and_dispatch_lem sm m stored in
              let same : result ≡ mark_and_dispatch w sm m stored = ground arith in
              subst Once (sym same)
                (stored-Once s (mark_and_dispatch w sm m stored) m once free (kept ∙ rows) calls)
        ]
      ]

  dispatch_scheduled-Once :
      (lock_id : ScheduledMessage → String) (sm : ScheduledMessage) (s : Schedule)
      → Once s
      → Once (dispatch_scheduled w lock_id sm s)
  unfolding dispatch_scheduled
  dispatch_scheduled-Once lock_id sm s once =
      let l = (new_lock (some (lock_id sm)) w.at).0 in
      let tried = try_lock w.lock_db s.tables l in
      let entered = record s { tables = tried.0 } in
      let done = dispatch_locked w sm entered in
      elim (Option-cases tried.1) [
        | inr (e, refused) ↦
            same-Once s (dispatch_scheduled w lock_id sm s) once (ground arith) (ground arith)
        | inl held ↦
            same-Once done (dispatch_scheduled w lock_id sm s)
              (dispatch_locked-Once sm entered (same-Once s entered once refl refl)) (ground arith)
              (ground arith)
      ]

dispatch_each-Once :
    (w : ℕ → Meanwhile) (lock_id : ScheduledMessage → String) (n : ℕ) (sms : List ScheduledMessage)
    → (s : Schedule) → Once s
    → Once (dispatch_each w lock_id n sms s)
unfolding dispatch_each
dispatch_each-Once w lock_id n [] s once = once
dispatch_each-Once w lock_id n (sm ∷ sms) s once =
    dispatch_each-Once w lock_id (suc n) sms (dispatch_scheduled (w n) lock_id sm s)
      (dispatch_scheduled-Once (w n) lock_id sm s once)

-- A tick of the scheduler, whatever fails: each message id of a channel is stored at most once, and
-- dispatched at most as often as it is stored, if that was so before.
pub process_scheduled_messages-Once :
    (w : ℕ → Meanwhile) (lock_id : ScheduledMessage → String) (loaded : ScheduledMessage → Bool)
    → (query_fails : Bool) (batch_size now : ℕ) (s : Schedule) → Once s
    → Once (process_scheduled_messages w lock_id loaded query_fails batch_size now s)
unfolding process_scheduled_messages
process_scheduled_messages-Once w lock_id loaded query_fails batch_size now s once =
    dispatch_each-Once w lock_id 0
      (ready_for_dispatch loaded query_fails batch_size now s.scheduled) s once
