-- ===== src/Scheduler/Service.antt =====
-- scheduler/scheduler.go: dispatchMessage and processScheduledMessages.
-- The goroutines of one tick are run one after the other. `dispatched` is the history of the calls of
-- Dispatch, and the three counts are the metrics. What a call meets is `Meanwhile`.
use webhook_broker.Base.{ℕ, suc, String, Bool, if◌then◌else◌, none, some, List, [], ◌∷◌}
use webhook_broker.Data.{
  Clock, Message, ScheduledMessage, new_message, scheduled_msg_status_dispatched,
}
use webhook_broker.Storage.Tables.{Tables}
use webhook_broker.Storage.Transactions.{Database}
use webhook_broker.Storage.Locks.{new_lock, try_lock, release_lock}
use webhook_broker.Scheduler.Store.{
  duplicate_message, create_message, mark_dispatched, ready_for_dispatch,
}

pub record Schedule : Type 0 where
  pub tables : Tables
  pub messages : List Message
  pub scheduled : List ScheduledMessage
  pub dispatched : List Message
  pub error_count : ℕ
  pub dispatched_count : ℕ

pub record Meanwhile : Type 0 where
  pub clock : Clock
  pub fresh : String
  pub fresh_message : String
  pub at : ℕ
  pub get_fails : Bool
  pub lock_db : Database
  pub create_db : Database
  pub mark_db : Database
  pub release_db : Database

abbrev pub count_error : Schedule → Schedule
count_error s = record s { error_count = suc s.error_count }

module _ (w : Meanwhile) where
  -- The regular message of a scheduled one, and whether NewMessage returned an error.
  unfoldable pub regular_message : ScheduledMessage → Message × Bool
  unfolding new_message
  regular_message sm =
      let (m, bad) =
        new_message w.clock w.fresh w.fresh_message sm.broadcasted_to sm.produced_by sm.payload
          sm.content_type sm.headers in
      (record m { message_id = sm.message_id; priority = sm.priority }, bad)

  -- From the marking on.
  unfoldable pub mark_and_dispatch : ScheduledMessage → Message → Schedule → Schedule
  unfolding mark_dispatched
  mark_and_dispatch sm m s =
      let marked = record sm { status = scheduled_msg_status_dispatched; dispatched_at = w.at } in
      let (rows, err) = mark_dispatched w.mark_db w.at marked s.scheduled in
      elim err [
        | some e ↦ count_error (record s { scheduled = rows })
        | none ↦ record s {
          scheduled = rows;
          dispatched = m ∷ s.dispatched;
          dispatched_count = suc s.dispatched_count;
        }
      ]

  -- The function that runs under the lock.
  unfoldable pub dispatch_locked : ScheduledMessage → Schedule → Schedule
  unfolding regular_message create_message mark_and_dispatch
  dispatch_locked sm s =
      let (m, bad) = regular_message sm in
      let (rows, err) = create_message w.create_db w.get_fails m s.messages in
      let stored = record s { messages = rows } in
      if bad then count_error s else elim err [
        | some duplicate_message ↦ stored
        | some other ↦ count_error stored
        | none ↦ mark_and_dispatch sm m stored
      ]

  -- dispatchMessage; `lock_id` is GetLockID of the scheduled message.
  unfoldable pub dispatch_scheduled :
      (ScheduledMessage → String) → ScheduledMessage → Schedule → Schedule
  unfolding new_lock try_lock release_lock dispatch_locked
  dispatch_scheduled lock_id sm s =
      let l = (new_lock (some (lock_id sm)) w.at).0 in
      let (t, refused) = try_lock w.lock_db s.tables l in
      elim refused [
        | some e ↦ record s { tables = t }
        | none ↦
            let done = dispatch_locked sm (record s { tables = t }) in
            record done { tables = (release_lock w.release_db done.tables l).0 }
      ]

-- The messages of one tick, each with what it meets.
unfoldable pub dispatch_each :
    (ℕ → Meanwhile) → (ScheduledMessage → String) → ℕ → List ScheduledMessage → Schedule → Schedule
unfolding dispatch_scheduled
dispatch_each w lock_id n [] s = s
dispatch_each w lock_id n (sm ∷ sms) s =
    dispatch_each w lock_id (suc n) sms (dispatch_scheduled (w n) lock_id sm s)

-- processScheduledMessages
unfoldable pub process_scheduled_messages :
    (ℕ → Meanwhile)
    → (ScheduledMessage → String)
    → (ScheduledMessage → Bool)
    → Bool
    → ℕ
    → ℕ
    → Schedule
    → Schedule
unfolding dispatch_each ready_for_dispatch
process_scheduled_messages w lock_id loaded query_fails batch_size now s =
    dispatch_each w lock_id 0 (ready_for_dispatch loaded query_fails batch_size now s.scheduled) s
