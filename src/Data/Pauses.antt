-- ===== src/Data/Pauses.antt =====
-- storage/data/dispatchpause.go. A reason is the list of its bytes, which the code counts and cuts.
use webhook_broker.Base.{
  ℕ, String, Bool, false, ◌||◌, str_eq, ltb, if◌then◌else◌, Option, none, some, List, length, take,
}
use webhook_broker.Data.Clocks.{is_empty, is_zero, nil_id}
use webhook_broker.Data.Stakeholders.{Consumer}

abbrev pub global_dispatch_pause_scope : String
global_dispatch_pause_scope = "__global__"

abbrev pub max_dispatch_pause_reason_length : ℕ
max_dispatch_pause_reason_length = 1024

pub record DispatchPause : Type 0 where
  pub scope : String
  pub consumer_id : String
  pub reason : List ℕ
  pub paused_at : ℕ

unfoldable pub is_global : DispatchPause → Bool
is_global p = str_eq p.scope global_dispatch_pause_scope

unfoldable pub pause_quick_fix : ℕ → DispatchPause → DispatchPause × Bool
pause_quick_fix now p =
    let long = ltb max_dispatch_pause_reason_length (length p.reason) in
    (
      record p {
        paused_at = if is_zero p.paused_at then now else p.paused_at;
        reason = if long then take max_dispatch_pause_reason_length p.reason else p.reason;
      },
      is_zero p.paused_at || long,
    )

unfoldable pub pause_is_valid : DispatchPause → Bool
unfolding is_global
pause_is_valid p =
    if is_empty p.scope
      || (is_zero p.paused_at || ltb max_dispatch_pause_reason_length (length p.reason))
    then false
    else if is_global p
    then is_empty p.consumer_id
    else str_eq p.consumer_id p.scope

unfoldable pub new_global_dispatch_pause : ℕ → List ℕ → DispatchPause
unfolding pause_quick_fix
new_global_dispatch_pause now reason =
    (pause_quick_fix now (record {
      scope = global_dispatch_pause_scope;
      consumer_id = "";
      reason = reason;
      paused_at = 0;
    })).0

-- `none` is ErrInsufficientInformationForCreating.
unfoldable pub new_consumer_dispatch_pause : ℕ → Option Consumer → List ℕ → Option DispatchPause
unfolding pause_quick_fix
new_consumer_dispatch_pause now none reason = none
new_consumer_dispatch_pause now (some c) reason =
    let id = c.stakeholder.base.id in
    if str_eq id nil_id
    then none
    else some
        (pause_quick_fix now
          (record { scope = id; consumer_id = id; reason = reason; paused_at = 0 })).0
