-- ===== src/Scheduler/Store.antt =====
-- What the scheduler uses of storage/messagerepo.go and storage/scheduledmessagerepo.go. A table holds
-- the objects that its rows were made from; the query of Get may fail.
use webhook_broker.Base.{
  ℕ, String, Bool, ◌&&◌, ◌||◌, not, ◌==◌, leb, ltb, str_eq, if◌then◌else◌, Option, none, some, List,
  [], ◌∷◌, ◌++◌, take, keep_if,
}
use webhook_broker.Data.{
  Message, message_is_valid, message_channel_id, ScheduledMessage, scheduled_is_valid,
  scheduled_channel_id, scheduled_msg_status_scheduled, scheduled_msg_status_dispatched,
}
use webhook_broker.Storage.Tables.{count_where, update_where}
use webhook_broker.Storage.Transactions.{Database}

pub data StoreError : Type 0 where
  insufficient_information : StoreError
  duplicate_message : StoreError
  not_dispatched : StoreError
  one_row_expected : StoreError
  database_error : StoreError

-- transactionalSingleRowWriteExec over one table: the rows and how many are affected, `none` if a key
-- refuses the statement.
unfoldable pub write_row {ℓ} :
    {A : Type ℓ} → Database → (List A → Option (List A × ℕ)) → List A → List A × Option StoreError
write_row db statement rows =
    if db.begin_fails || db.exec_fails 0
    then (rows, some database_error)
    else elim (statement rows) [
      | none ↦ (rows, some duplicate_message)
      | some (rows', n) ↦
          if not (n == 1)
          then (rows, some one_row_expected)
          else if db.commit_fails
          then (rows, some database_error)
          else (rows', none)
    ]

-- The key of a message in its channel.
abbrev pub has_key : String → String → Message → Bool
has_key channel id m = str_eq (message_channel_id m) channel && str_eq m.message_id id

-- PRIMARY KEY (id) and UNIQUE (messageId, channelId) of `message`.
abbrev pub message_clash : Message → Message → Bool
message_clash m q = str_eq q.base.id m.base.id || has_key (message_channel_id m) m.message_id q

abbrev pub insert_message : Message → List Message → Option (List Message × ℕ)
insert_message m rows =
    if count_where (message_clash m) rows == 0 then some (rows ++ m ∷ [], 1) else none

-- Create of a message.
unfoldable pub create_message :
    Database → Bool → Message → List Message → List Message × Option StoreError
unfolding write_row message_is_valid count_where
create_message db get_fails m rows =
    if not (message_is_valid m)
    then (rows, some insufficient_information)
    else if not get_fails && ltb 0 (count_where (has_key (message_channel_id m) m.message_id) rows)
    then (rows, some duplicate_message)
    else write_row db (insert_message m) rows

abbrev pub has_scheduled_key : String → String → ScheduledMessage → Bool
has_scheduled_key channel id m = str_eq (scheduled_channel_id m) channel && str_eq m.message_id id

abbrev pub scheduled_clash : ScheduledMessage → ScheduledMessage → Bool
scheduled_clash m q =
    str_eq q.base.id m.base.id || has_scheduled_key (scheduled_channel_id m) m.message_id q

-- Create of a scheduled message.
unfoldable pub create_scheduled :
    Database
    → Bool
    → ScheduledMessage
    → List ScheduledMessage
    → List ScheduledMessage × Option StoreError
unfolding write_row scheduled_is_valid count_where
create_scheduled db get_fails m rows =
    if not (scheduled_is_valid m)
    then (rows, some insufficient_information)
    else if not get_fails
        && ltb 0 (count_where (has_scheduled_key (scheduled_channel_id m) m.message_id) rows)
    then (rows, some duplicate_message)
    else write_row db
        (λ rs. if count_where (scheduled_clash m) rs == 0 then some (rs ++ m ∷ [], 1) else none)
        rows

-- MarkDispatched
unfoldable pub mark_dispatched :
    Database
    → ℕ
    → ScheduledMessage
    → List ScheduledMessage
    → List ScheduledMessage × Option StoreError
unfolding write_row update_where count_where
mark_dispatched db now m rows =
    if not (m.status == scheduled_msg_status_dispatched)
    then (rows, some not_dispatched)
    else write_row db
        (λ rs. some (
          update_where (λ (q : ScheduledMessage). str_eq q.base.id m.base.id)
              (λ q. record q {
                status = m.status;
                dispatched_at = m.dispatched_at;
                base = record (q.base) { updated_at = now };
              })
              rs,
          count_where (λ (q : ScheduledMessage). str_eq q.base.id m.base.id) rs,
        ))
        rows

-- ORDER BY dispatchSchedule ASC
unfoldable pub insert_due : ScheduledMessage → List ScheduledMessage → List ScheduledMessage
insert_due m [] = m ∷ []
insert_due m (q ∷ qs) =
    if ltb q.dispatch_schedule m.dispatch_schedule then q ∷ insert_due m qs else m ∷ q ∷ qs

unfoldable pub order_due : List ScheduledMessage → List ScheduledMessage
unfolding insert_due
order_due [] = []
order_due (m ∷ ms) = insert_due m (order_due ms)

-- GetMessagesReadyForDispatch; `loaded` is whether the producer and the channel of a row are found.
unfoldable pub ready_for_dispatch :
    (ScheduledMessage → Bool) → Bool → ℕ → ℕ → List ScheduledMessage → List ScheduledMessage
unfolding order_due
ready_for_dispatch loaded query_fails limit now rows =
    if query_fails
    then []
    else keep_if loaded (
        take limit (
          order_due (
            keep_if
              (λ (m : ScheduledMessage).
                m.status == scheduled_msg_status_scheduled && leb m.dispatch_schedule now)
              rows)))
