-- ===== src/Storage/Dispatch.antt =====
-- storage/deliveryjobrepo.go: DispatchMessageWithParking, with SetDispatched of
-- storage/messagerepo.go and insertParkedJobsInTx of storage/jobparkingrepo.go.
use webhook_broker.Base.{
  ℕ, String, Bool, true, ◌&&◌, ◌==◌, str_eq, if◌then◌else◌, Option, none, some, List, [], ◌∷◌,
  length, map,
}
use webhook_broker.Data.{
  Clock, DeliveryJob, Message, job_parked, message_is_valid, job_is_valid, msg_status_acknowledged,
  msg_status_dispatched,
}
use webhook_broker.Storage.Tables.{MessageRow, Tables, update_where, count_where}
use webhook_broker.Storage.Transactions.{
  Error, invalid_state_to_save, Database, TxOp, ok, fail, panic, run_ops, in_transaction_exec,
  transactional_writes,
}
use webhook_broker.Storage.Rows.{
  message_id_of, insert_jobs, insert_all_parked, affecting, job_row, parked_row,
}

module _ (db : Database) where
  unfoldable pub insert_jobs_op : List DeliveryJob → TxOp
  insert_jobs_op jobs =
      in_transaction_exec db
        (λ t. elim (insert_jobs (map job_row jobs) t.job) [
          | none ↦ none
          | some rows ↦ some (record t { job = rows }, length jobs)
        ])
        (length jobs)

  -- insertParkedJobsInTx
  unfoldable pub insert_parked_op : List DeliveryJob → ℕ → TxOp
  insert_parked_op [] parked_at i t = ok t
  insert_parked_op (d ∷ ds) parked_at i t =
      in_transaction_exec db
        (λ u.
          affecting (length (d ∷ ds)) (insert_all_parked (map (parked_row parked_at) (d ∷ ds)) u))
        (length (d ∷ ds)) i t

  -- SetDispatched, but for the object: whether its statement runs.
  unfoldable pub set_dispatched_op : Message → ℕ → TxOp
  set_dispatched_op m now i t =
      if message_is_valid m
      then in_transaction_exec db
          (λ u.
            let p =
              λ (r : MessageRow). str_eq r.id m.base.id && r.status == msg_status_acknowledged in
            some (
              record u {
                message =
                    update_where p
                      (λ r. record r {
                        status = msg_status_dispatched;
                        outboxed_at = now;
                        updated_at = now;
                      })
                      u.message;
              },
              count_where p u.message,
            ))
          1 i t
      else fail invalid_state_to_save

  -- Whether a job may be saved with the message.
  abbrev pub savable : (String → Bool) → Message → DeliveryJob → Bool
  savable absolute m d = job_is_valid absolute d && str_eq (message_id_of d) m.base.id

  abbrev pub all_savable : (String → Bool) → Message → List DeliveryJob → Bool
  all_savable absolute m [] = true
  all_savable absolute m (d ∷ ds) = savable absolute m d && all_savable absolute m ds

  -- The functions of the transaction; an empty list of jobs adds none.
  abbrev pub dispatch_ops : Clock → Message → List DeliveryJob → List DeliveryJob → List TxOp
  dispatch_ops now m jobs parked =
      let last : List TxOp = set_dispatched_op m (now 1) ∷ [] in
      let rest : List TxOp =
        (if length parked == 0 then last else insert_parked_op parked (now 0) ∷ last) in
      if length jobs == 0 then rest else insert_jobs_op jobs ∷ rest

  -- What SetDispatched makes of the message's object once its statement has run.
  abbrev pub set_dispatched_object : Message → ℕ → Message
  set_dispatched_object m now = record m {
    status = msg_status_dispatched;
    outboxed_at = now;
    base = record (m.base) { updated_at = now };
  }

  -- The message's object after the transaction's functions. SetDispatched is the last of them, so its
  -- statement has run if they all have; whether the transaction then commits does not matter.
  unfoldable pub message_after :
      Clock → Tables → Message → List DeliveryJob → List DeliveryJob → Message
  message_after now t m jobs parked =
      if db.begin_fails then m else elim (run_ops (dispatch_ops now m jobs parked) 0 t) [
        | ok u ↦ set_dispatched_object m (now 1)
        | fail e ↦ m
        | panic ↦ m
      ]

  -- DispatchMessageWithParking of a message and jobs that are not nil: the tables, the message, the
  -- parked jobs and the error.
  unfoldable pub dispatch_message_with_parking :
      (String → Bool)
      → Clock
      → Tables
      → Message
      → List DeliveryJob
      → List DeliveryJob
      → Tables × Message × List DeliveryJob × Option Error
  unfolding message_after
  dispatch_message_with_parking absolute now t m jobs parked =
      if message_is_valid m && (all_savable absolute m jobs && all_savable absolute m parked)
      then (let (t', err) = transactional_writes db (dispatch_ops now m jobs parked) t in
          (
            t',
            message_after now t m jobs parked,
            elim err [
              | none ↦ map (λ (d : DeliveryJob). record d { status = job_parked }) parked
              | some e ↦ parked
            ],
            err,
          ))
      else (t, m, parked, some invalid_state_to_save)
