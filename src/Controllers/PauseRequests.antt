-- ===== src/Controllers/PauseRequests.antt =====
-- controllers/dispatchpause.go: PUT and DELETE of a consumer's and of the global pause.
-- A node has the tables and its registry. `get_consumer` is GetByID of the consumer repository; the
-- counts of a model's body may fail. A reason is its bytes.
use webhook_broker.Base.{
  ℕ, String, Bool, not, ltb, if◌then◌else◌, Option, none, some, List, length, is_some,
}
use webhook_broker.Data.{
  Consumer, DispatchPause, global_dispatch_pause_scope, max_dispatch_pause_reason_length,
  new_consumer_dispatch_pause, new_global_dispatch_pause,
}
use webhook_broker.Storage.Tables.{Tables}
use webhook_broker.Storage.Transactions.{Database}
use webhook_broker.Storage.Pausing.{pause, resume}
use webhook_broker.Dispatcher.Pause.{PauseRegistry, apply_pause, remove_pause}
use webhook_broker.Controllers.Access.{
  Request, Directory, granted, refused, get_channel_consumer_with_auth, check_admin_token,
}

pub record PauseNode : Type 0 where
  pub tables : Tables
  pub registry : PauseRegistry

-- readPauseReason refuses it.
abbrev pub too_long : List ℕ → Bool
too_long reason = ltb max_dispatch_pause_reason_length (length reason)

module _ (consumer_exists : String → Bool) (get_consumer : String → Option Consumer) (db : Database)
    (get_fails counts_fail : Bool) (now : ℕ) (n : PauseNode) where
  -- The pause in the database, then in the registry, and the answer.
  unfoldable pub put_pause : Option DispatchPause → PauseNode × ℕ
  put_pause given =
      let (t, p, err) = pause db consumer_exists get_fails now n.tables given in
      if is_some err then (record n { tables = t }, 500) else (
        record n { tables = t; registry = apply_pause get_consumer n.registry p },
        if counts_fail then 500 else 200,
      )

  unfoldable pub delete_pause : String → PauseNode × ℕ
  delete_pause scope =
      let (t, resumed, err) = resume db n.tables scope in
      if is_some err
      then (record n { tables = t }, 500)
      else if not resumed
      then (record n { tables = t }, 404)
      else (record n { tables = t; registry = remove_pause get_consumer n.registry scope }, 204)

  -- Put and Delete of the ConsumerDispatchPauseController.
  unfoldable pub put_consumer_pause : Directory → Request → List ℕ → PauseNode × ℕ
  unfolding get_channel_consumer_with_auth put_pause
  put_consumer_pause dir r reason = elim (get_channel_consumer_with_auth dir r) [
    | refused status ↦ (n, status)
    | granted c ↦
        if too_long reason
        then (n, 400)
        else elim (new_consumer_dispatch_pause now (some c) reason) [
          | none ↦ (n, 500)
          | some p ↦ put_pause (some p)
        ]
  ]

  unfoldable pub delete_consumer_pause : Directory → Request → PauseNode × ℕ
  unfolding get_channel_consumer_with_auth delete_pause
  delete_consumer_pause dir r = elim (get_channel_consumer_with_auth dir r) [
    | refused status ↦ (n, status)
    | granted c ↦ delete_pause c.stakeholder.base.id
  ]

  -- Put and Delete of the GlobalDispatchPauseController, by the configured token.
  unfoldable pub put_global_pause : String → Request → List ℕ → PauseNode × ℕ
  unfolding check_admin_token put_pause
  put_global_pause token r reason = elim (check_admin_token token r) [
    | some status ↦ (n, status)
    | none ↦
        if too_long reason
        then (n, 400)
        else put_pause (some (new_global_dispatch_pause now reason))
  ]

  unfoldable pub delete_global_pause : String → Request → PauseNode × ℕ
  unfolding check_admin_token delete_pause
  delete_global_pause token r = elim (check_admin_token token r) [
    | some status ↦ (n, status)
    | none ↦ delete_pause global_dispatch_pause_scope
  ]
