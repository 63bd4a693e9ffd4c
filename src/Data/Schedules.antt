-- ===== src/Data/Schedules.antt =====
-- storage/data/scheduledmessage.go. ScheduledMsgStatusScheduled is 101.
use webhook_broker.Base.{
  ℕ, String, Bool, ◌+◌, ◌&&◌, ◌||◌, not, ◌==◌, if◌then◌else◌, Option, none, some, List,
}
use webhook_broker.Data.Clocks.{Clock, BasePaginateable, base_quick_fix, is_empty, is_zero, nil_id}
use webhook_broker.Data.Stakeholders.{
  Channel, Producer, channel_ref_is_valid, producer_ref_is_valid,
}

abbrev pub scheduled_msg_status_scheduled : ℕ
scheduled_msg_status_scheduled = 101

abbrev pub scheduled_msg_status_dispatched : ℕ
scheduled_msg_status_dispatched = 102

-- 2 * time.Minute
abbrev pub two_minutes : ℕ
two_minutes = 120_000_000_000

pub record ScheduledMessage : Type 0 where
  pub base : BasePaginateable
  pub message_id : String
  pub payload : String
  pub content_type : String
  pub priority : ℕ
  pub status : ℕ
  pub broadcasted_to : Option Channel
  pub produced_by : Option Producer
  pub dispatch_schedule : ℕ
  pub dispatched_at : ℕ
  pub headers : List (String × String)

abbrev pub is_scheduled_status : ℕ → Bool
is_scheduled_status s = s == scheduled_msg_status_scheduled || s == scheduled_msg_status_dispatched

unfoldable pub scheduled_quick_fix :
    Clock → String → String → ScheduledMessage → ScheduledMessage × Bool
unfolding base_quick_fix
scheduled_quick_fix now fresh fresh_message m =
    let (base, base_changed) = base_quick_fix now fresh m.base in
    (
      record m {
        base = base;
        dispatch_schedule =
            if is_zero m.dispatch_schedule then now 2 + two_minutes else m.dispatch_schedule;
        status = if is_scheduled_status m.status then m.status else scheduled_msg_status_scheduled;
        message_id = if is_empty m.message_id then fresh_message else m.message_id;
      },
      base_changed
          || (is_zero m.dispatch_schedule
              || (not (is_scheduled_status m.status) || is_empty m.message_id)),
    )

unfoldable pub scheduled_is_valid : ScheduledMessage → Bool
scheduled_is_valid m =
    not (is_empty m.message_id || (is_empty m.payload || is_empty m.content_type))
    && (channel_ref_is_valid m.broadcasted_to
        && (producer_ref_is_valid m.produced_by
            && (is_scheduled_status m.status
                && (if m.status == scheduled_msg_status_scheduled
                    then not (is_zero m.dispatch_schedule)
                    else not (is_zero m.dispatched_at)))))

-- GetChannelIDSafely of a scheduled message.
unfoldable pub scheduled_channel_id : ScheduledMessage → String
scheduled_channel_id m = elim m.broadcasted_to [ none ↦ "" | some ch ↦ ch.channel_id ]

-- NewScheduledMessage; the Boolean is `err != nil`.
unfoldable pub new_scheduled_message :
    Clock
    → String
    → String
    → Option Channel
    → Option Producer
    → String
    → String
    → ℕ
    → List (String × String)
    → ScheduledMessage × Bool
unfolding scheduled_quick_fix scheduled_is_valid
new_scheduled_message now fresh fresh_message channel produced_by payload content_type at headers =
    let m =
      (scheduled_quick_fix now fresh fresh_message (record {
        base = record { id = nil_id; created_at = 0; updated_at = 0 };
        message_id = "";
        payload = payload;
        content_type = content_type;
        priority = 0;
        status = 0;
        broadcasted_to = channel;
        produced_by = produced_by;
        dispatch_schedule = at;
        dispatched_at = 0;
        headers = headers;
      })).0 in
    (m, not (scheduled_is_valid m))

-- String of a ScheduledMsgStatus; `itoa` is strconv.Itoa.
unfoldable pub scheduled_status_text : (ℕ → String) → ℕ → String
scheduled_status_text itoa s =
    if s == scheduled_msg_status_scheduled
    then "SCHEDULED"
    else if s == scheduled_msg_status_dispatched
    then "DISPATCHED"
    else itoa s
