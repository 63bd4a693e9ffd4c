-- ===== src/Storage/Dispatched.antt =====
-- storage/deliveryjobrepo.go: DispatchMessageWithParking is all or nothing.
use webhook_broker.Base.{
  String, Bool, true, ◌&&◌, some, List, ◌≡◌, ◌⊎◌, refl, ◌∙◌, arith, inl, inr, Bool-cases,
}
use webhook_broker.Data.{Clock, DeliveryJob, Message, message_is_valid}
use webhook_broker.Storage.Tables.{Tables}
use webhook_broker.Storage.Transactions.{
  Error, Database, TxOp, TxResult, ok, fail, panic, transactional_writes, transactional_operations,
  run_ops, transactional_operations_atomic,
}
use webhook_broker.Storage.Dispatch.{
  dispatch_ops, all_savable, set_dispatched_object, message_after, dispatch_message_with_parking,
}

writes_atomic :
    (db : Database) (ops : List TxOp) (t : Tables) (e : Error)
    → (transactional_writes db ops t).1 ≡ some e
    → (transactional_writes db ops t).0 ≡ t
unfolding transactional_writes
writes_atomic db ops t e h = transactional_operations_atomic db (run_ops ops 0) t e h

-- The object is not changed unless every function of the transaction has run.
message_after-cases :
    (db : Database) (now : Clock) (t : Tables) (m : Message) (jobs parked : List DeliveryJob)
    (e : Error)
    → (transactional_writes db (dispatch_ops db now m jobs parked) t).1 ≡ some e
    → (message_after db now t m jobs parked ≡ m)
      ⊎ ((message_after db now t m jobs parked ≡ set_dispatched_object db m (now 1))
          × (db.commit_fails ≡ true))
unfolding transactional_writes transactional_operations message_after
message_after-cases db now t m jobs parked e h =
    go (run_ops (dispatch_ops db now m jobs parked) 0 t) refl
  where
    go :
        (r : TxResult)
        → run_ops (dispatch_ops db now m jobs parked) 0 t ≡ r
        → (message_after db now t m jobs parked ≡ m)
          ⊎ ((message_after db now t m jobs parked ≡ set_dispatched_object db m (now 1))
              × (db.commit_fails ≡ true))
    go (ok u) f = elim (Bool-cases db.begin_fails) [
      | inl broken ↦ inl (ground arith)
      | inr begun ↦ inr (ground arith, ground arith)
    ]
    go (fail x) f = inl (ground arith)
    go panic f = inl (ground arith)

-- DispatchMessageWithParking that returns an error has stored no job, parked none and left the
-- message's row as it was, and the parked jobs' objects keep their status. The message's object is as
-- it was too, unless the commit failed: then SetDispatched may have marked it dispatched.
pub dispatch_message_with_parking_atomic :
    (db : Database) (absolute : String → Bool) (now : Clock) (t : Tables) (m : Message)
    (jobs parked : List DeliveryJob) (e : Error)
    → (dispatch_message_with_parking db absolute now t m jobs parked).3 ≡ some e
    → let out = dispatch_message_with_parking db absolute now t m jobs parked in
      (out.0 ≡ t)
      × (out.2 ≡ parked)
      × ((out.1 ≡ m) ⊎ ((out.1 ≡ set_dispatched_object db m (now 1)) × (db.commit_fails ≡ true)))
unfolding dispatch_message_with_parking
dispatch_message_with_parking_atomic db absolute now t m jobs parked e h =
    let ops = dispatch_ops db now m jobs parked in
    elim (Bool-cases (
      message_is_valid m && (all_savable db absolute m jobs && all_savable db absolute m parked))) [
        | inr bad ↦ (ground arith, ground arith, inl (ground arith))
        | inl good ↦
            let failed : (transactional_writes db ops t).1 ≡ some e = ground arith in
            let same : (dispatch_message_with_parking db absolute now t m jobs parked).1
                ≡ message_after db now t m jobs parked =
              ground arith in
            (
              ground (arith, writes_atomic db ops t e failed),
              ground arith,
              elim (message_after-cases db now t m jobs parked e failed) [
                | inl kept ↦ inl (same ∙ kept)
                | inr (marked, lost) ↦ inr (same ∙ marked, lost)
              ],
            )
      ]
