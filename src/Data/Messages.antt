-- ===== src/Data/Messages.antt =====
-- storage/data/message.go. MsgStatus is an int: MsgStatusAcknowledged is 101.
use webhook_broker.Base.{
  ℕ, String, Bool, ◌&&◌, ◌||◌, not, ◌==◌, ltb, if◌then◌else◌, Option, none, some, List,
}
use webhook_broker.Data.Clocks.{Clock, BasePaginateable, base_quick_fix, is_empty, is_zero, nil_id}
use webhook_broker.Data.Stakeholders.{
  Channel, Producer, channel_ref_is_valid, producer_ref_is_valid,
}

abbrev pub msg_status_acknowledged : ℕ
msg_status_acknowledged = 101

abbrev pub msg_status_dispatched : ℕ
msg_status_dispatched = 102

-- `headers` holds the entries of the HeadersMap.
pub record Message : Type 0 where
  pub base : BasePaginateable
  pub message_id : String
  pub payload : String
  pub content_type : String
  pub priority : ℕ
  pub status : ℕ
  pub broadcasted_to : Option Channel
  pub produced_by : Option Producer
  pub received_at : ℕ
  pub outboxed_at : ℕ
  pub headers : List (String × String)

abbrev pub is_msg_status : ℕ → Bool
is_msg_status s = s == msg_status_acknowledged || s == msg_status_dispatched

-- Readings 0 and 1 are the base's; `fresh` and `fresh_message` are the two xids that may be drawn.
unfoldable pub message_quick_fix : Clock → String → String → Message → Message × Bool
unfolding base_quick_fix
message_quick_fix now fresh fresh_message m =
    let (base, base_changed) = base_quick_fix now fresh m.base in
    let received = if is_zero m.received_at then now 2 else m.received_at in
    let late = ltb received base.created_at in
    (
      record m {
        base = if late then record base { created_at = received } else base;
        received_at = received;
        outboxed_at = if is_zero m.outboxed_at then now 3 else m.outboxed_at;
        status = if is_msg_status m.status then m.status else msg_status_acknowledged;
        message_id = if is_empty m.message_id then fresh_message else m.message_id;
      },
      base_changed
          || (is_zero m.received_at
              || (is_zero m.outboxed_at
                  || (late || (not (is_msg_status m.status) || is_empty m.message_id)))),
    )

unfoldable pub message_is_valid : Message → Bool
message_is_valid m =
    not (is_empty m.message_id || (is_empty m.payload || is_empty m.content_type))
    && (channel_ref_is_valid m.broadcasted_to
        && (producer_ref_is_valid m.produced_by
            && (is_msg_status m.status
                && (if m.status == msg_status_acknowledged
                    then not (is_zero m.received_at)
                    else not (is_zero m.outboxed_at)))))

-- GetChannelIDSafely of a message.
unfoldable pub message_channel_id : Message → String
message_channel_id m = elim m.broadcasted_to [ none ↦ "" | some ch ↦ ch.channel_id ]

-- NewMessage returns the message also when it is not valid: the Boolean is `err != nil`.
unfoldable pub new_message :
    Clock
    → String
    → String
    → Option Channel
    → Option Producer
    → String
    → String
    → List (String × String)
    → Message × Bool
unfolding message_quick_fix message_is_valid
new_message now fresh fresh_message channel produced_by payload content_type headers =
    let m =
      (message_quick_fix now fresh fresh_message (record {
        base = record { id = nil_id; created_at = 0; updated_at = 0 };
        message_id = "";
        payload = payload;
        content_type = content_type;
        priority = 0;
        status = 0;
        broadcasted_to = channel;
        produced_by = produced_by;
        received_at = 0;
        outboxed_at = 0;
        headers = headers;
      })).0 in
    (m, not (message_is_valid m))

-- String of a MsgStatus; `itoa` is strconv.Itoa.
unfoldable pub msg_status_text : (ℕ → String) → ℕ → String
msg_status_text itoa s =
    if s == msg_status_acknowledged
    then "ACKNOWLEDGED"
    else if s == msg_status_dispatched
    then "DISPATCHED"
    else itoa s
