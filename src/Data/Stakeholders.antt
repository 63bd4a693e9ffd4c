-- ===== src/Data/Stakeholders.antt =====
-- storage/data/channel.go, producer.go and consumer.go.
-- `absolute` stands for `url.Parse` without an error and with `IsAbs`.
use webhook_broker.Base.{
  ℕ, String, Bool, false, ◌&&◌, ◌||◌, not, str_eq, ◌==◌, if◌then◌else◌, Option, none, some,
}
use mathlib.Core.Option
use webhook_broker.Data.Clocks.{
  Clock, BasePaginateable, base_quick_fix, set_val_if_both_not_empty, is_empty,
}

pub record MessageStakeholder : Type 0 where
  pub base : BasePaginateable
  pub name : String
  pub token : String

pub record Channel : Type 0 where
  pub stakeholder : MessageStakeholder
  pub channel_id : String

pub record Producer : Type 0 where
  pub stakeholder : MessageStakeholder
  pub producer_id : String

-- ConsumerType is an int: PullConsumer is 0.
abbrev pub pull_consumer : ℕ
pull_consumer = 0

abbrev pub push_consumer : ℕ
push_consumer = 1

pub record Consumer : Type 0 where
  pub stakeholder : MessageStakeholder
  pub consumer_id : String
  pub callback_url : String
  pub consuming_from : Option Channel
  pub consumer_type : ℕ

-- The part that the three `QuickFix` methods share.
stakeholder_quick_fix : Clock → String → String → MessageStakeholder → MessageStakeholder × Bool
unfolding base_quick_fix set_val_if_both_not_empty
stakeholder_quick_fix now fresh own_id s =
    let (base, base_changed) = base_quick_fix now fresh s.base in
    let (name, name_changed) = set_val_if_both_not_empty s.name own_id in
    (record s { base = base; name = name }, name_changed || base_changed)

unfoldable pub channel_quick_fix : Clock → String → Channel → Channel × Bool
unfolding stakeholder_quick_fix
channel_quick_fix now fresh c =
    let (s, changed) = stakeholder_quick_fix now fresh c.channel_id c.stakeholder in
    (record c { stakeholder = s }, changed)

unfoldable pub producer_quick_fix : Clock → String → Producer → Producer × Bool
unfolding stakeholder_quick_fix
producer_quick_fix now fresh p =
    let (s, changed) = stakeholder_quick_fix now fresh p.producer_id p.stakeholder in
    (record p { stakeholder = s }, changed)

unfoldable pub consumer_quick_fix : Clock → String → Consumer → Consumer × Bool
unfolding stakeholder_quick_fix
consumer_quick_fix now fresh c =
    let (s, changed) = stakeholder_quick_fix now fresh c.consumer_id c.stakeholder in
    (record c { stakeholder = s }, changed)

unfoldable pub channel_is_valid : Channel → Bool
channel_is_valid c =
    not (is_empty c.channel_id || (is_empty c.stakeholder.name || is_empty c.stakeholder.token))

unfoldable pub producer_is_valid : Producer → Bool
producer_is_valid p =
    not (is_empty p.producer_id || (is_empty p.stakeholder.name || is_empty p.stakeholder.token))

-- The pointer is not nil and what it points to is valid.
unfoldable pub channel_ref_is_valid : Option Channel → Bool
channel_ref_is_valid none = false
channel_ref_is_valid (some c) = channel_is_valid c

unfoldable pub producer_ref_is_valid : Option Producer → Bool
producer_ref_is_valid none = false
producer_ref_is_valid (some p) = producer_is_valid p

unfoldable pub consumer_is_valid : (String → Bool) → Consumer → Bool
consumer_is_valid absolute c =
    not (is_empty c.consumer_id || (is_empty c.stakeholder.name || is_empty c.stakeholder.token))
    && (channel_ref_is_valid c.consuming_from && absolute c.callback_url)

unfoldable pub consumer_ref_is_valid : (String → Bool) → Option Consumer → Bool
consumer_ref_is_valid absolute none = false
consumer_ref_is_valid absolute (some c) = consumer_is_valid absolute c

-- GetChannelIDSafely of a consumer.
unfoldable pub consumer_channel_id : Consumer → String
consumer_channel_id c = elim c.consuming_from [ none ↦ "" | some ch ↦ ch.channel_id ]

-- createMessageStakeholder: the id is new, the times stay zero.
create_message_stakeholder : String → String → String → MessageStakeholder
create_message_stakeholder fresh name token = record {
  base = record { id = fresh; created_at = 0; updated_at = 0 };
  name = name;
  token = token;
}

unfoldable pub new_channel : String → String → String → Option Channel
unfolding create_message_stakeholder
new_channel fresh channel_id token =
    if is_empty channel_id || is_empty token
    then none
    else some (record {
      stakeholder = create_message_stakeholder fresh channel_id token;
      channel_id = channel_id;
    })

unfoldable pub new_producer : String → String → String → Option Producer
unfolding create_message_stakeholder
new_producer fresh producer_id token =
    if is_empty producer_id || is_empty token
    then none
    else some (record {
      stakeholder = create_message_stakeholder fresh producer_id token;
      producer_id = producer_id;
    })

-- getConsumerTypeFromString; `none` is its error.
unfoldable pub consumer_type_of : String → Option ℕ
consumer_type_of value =
    if str_eq value "pull"
    then some pull_consumer
    else if str_eq value "push" || is_empty value
    then some push_consumer
    else none

unfoldable pub consumer_type_text : ℕ → String
consumer_type_text t = if t == pull_consumer then "pull" else "push"

-- NewConsumer; `callback` is the text of the parsed URL.
unfoldable pub new_consumer :
    (String → Bool) → String → Option Channel → String → String → String → String → Option Consumer
unfolding create_message_stakeholder consumer_type_of
new_consumer absolute fresh none consumer_id token callback type_text = none
new_consumer absolute fresh (some channel) consumer_id token callback type_text =
    if is_empty consumer_id || (is_empty token || not (absolute callback))
    then none
    else Option.map
        (λ t. record {
          stakeholder = create_message_stakeholder fresh consumer_id token;
          consumer_id = consumer_id;
          callback_url = callback;
          consuming_from = some channel;
          consumer_type = t;
        })
        (consumer_type_of type_text)
