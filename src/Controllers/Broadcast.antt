-- ===== src/Controllers/Broadcast.antt =====
-- controllers/broadcast.go: the POST of a message to a channel. `header` is the value of a request's
-- header, "" for one that is missing, with the names in lower case; the times that are parsed and `keys_of`,
-- strings.Split at a comma, are the standard library's. The goroutine of Dispatch is one more message in
-- `dispatched`. The absolute value of the priority is exact, as those below 2 ^ 53 are in a float64.
use webhook_broker.Base.{
  ℕ, ◌+◌, ◌-◌, ◌*◌, String, Bool, not, ltb, str_eq, if◌then◌else◌, Option, none, some, List, [],
  ◌∷◌,
}
use webhook_broker.Text.Strings.{codes}
use webhook_broker.Text.Decimal.{word_mod, sign_bit, parse_int}
use webhook_broker.Config.DispatchPause.{second}
use webhook_broker.Data.{
  Clock, Channel, Producer, new_message, new_scheduled_message, is_empty, is_zero,
}
use webhook_broker.Storage.Transactions.{Database}
use webhook_broker.Scheduler.Store.{StoreError, duplicate_message, create_message, create_scheduled}
use webhook_broker.Scheduler.Service.{Schedule}
use webhook_broker.Controllers.Access.{Access, granted, refused}

pub record Broadcast : Type 0 where
  pub channel_id : String
  pub header : String → String
  pub body : Option String

-- The Get of the channel and of the producer repository, `none` for an error.
pub record Senders : Type 0 where
  pub channels : String → Option Channel
  pub producers : String → Option Producer

-- The standard library's parsing, the clock, the xids, and what the database does.
pub record Posting : Type 0 where
  pub parse_time : String → Option ℕ
  pub keys_of : String → List String
  pub clock : Clock
  pub at : ℕ
  pub fresh : String
  pub fresh_message : String
  pub get_fails : Bool
  pub create_db : Database

module _ (senders : Senders) (r : Broadcast) where
  -- getChannelAndProducerWithValidation
  unfoldable pub get_channel_and_producer : Access (Channel × Producer)
  get_channel_and_producer = elim (senders.channels r.channel_id) [
    | none ↦ refused 404
    | some channel ↦
        if not (str_eq channel.stakeholder.token (r.header "x-broker-channel-token"))
        then refused 403
        else elim (senders.producers (r.header "x-broker-producer-id")) [
          | none ↦ refused 401
          | some producer ↦
              if not (str_eq producer.stakeholder.token (r.header "x-broker-producer-token"))
              then refused 403
              else granted (channel, producer)
        ]
  ]

-- The loop over the names of X-Broker-Metadata-Headers; a name that is listed twice is set twice.
abbrev pub headers_of : (String → String) → List String → List (String × String)
headers_of header [] = []
headers_of header (key ∷ keys) =
    let rest = headers_of header keys in
    if is_empty (header key) then rest else (key, header key) ∷ rest

-- getMetadataHeaders
abbrev pub get_metadata_headers : Posting → Broadcast → List String
get_metadata_headers p r =
    let value = r.header "x-broker-metadata-headers" in
    if is_empty value then [] else p.keys_of value

-- getPriority, and its absolute value; a priority that is no number is 0.
unfoldable pub get_priority : Broadcast → ℕ
get_priority r = elim (parse_int (codes (r.header "x-broker-message-priority"))) [
  | none ↦ 0
  | some w ↦ if ltb w sign_bit then w else word_mod - w
]

unfoldable pub get_content_type : Broadcast → String
get_content_type r =
    let value = r.header "content-type" in
    if is_empty value then "application/octet-stream" else value

-- parseAndValidateScheduledTime: the zero time, if the header is missing.
unfoldable pub parse_and_validate_scheduled_time : Posting → Broadcast → Access ℕ
parse_and_validate_scheduled_time p r =
    let value = r.header "x-broker-scheduled-for" in
    if is_empty value then granted 0 else elim (p.parse_time value) [
      | none ↦ refused 400
      | some at ↦ if ltb at (p.at + 120 * second) then refused 412 else granted at
    ]

abbrev pub status_of : Option StoreError → ℕ
status_of none = 201
status_of (some duplicate_message) = 409
status_of (some other) = 500

module _ (p : Posting) (r : Broadcast) (channel : Channel) (producer : Producer)
    (body : String) where
  abbrev pub metadata : List (String × String)
  metadata = headers_of r.header (get_metadata_headers p r)

  abbrev pub incoming : String → String
  incoming drawn = let id = r.header "x-broker-message-id" in if is_empty id then drawn else id

  unfoldable pub post_scheduled : ℕ → Schedule → Schedule × ℕ
  unfolding get_content_type get_priority
  post_scheduled at s =
      let drawn =
        (new_scheduled_message p.clock p.fresh p.fresh_message (some channel) (some producer) body
          (get_content_type r) at metadata).0 in
      let m = record drawn { message_id = incoming drawn.message_id; priority = get_priority r } in
      let (rows, err) = create_scheduled p.create_db p.get_fails m s.scheduled in
      (record s { scheduled = rows }, status_of err)

  unfoldable pub post_regular : Schedule → Schedule × ℕ
  unfolding get_content_type get_priority
  post_regular s =
      let drawn =
        (new_message p.clock p.fresh p.fresh_message (some channel) (some producer) body
          (get_content_type r) metadata).0 in
      let m = record drawn { message_id = incoming drawn.message_id; priority = get_priority r } in
      let (rows, err) = create_message p.create_db p.get_fails m s.messages in
      (
        record s {
          messages = rows;
          dispatched = elim err [ none ↦ m ∷ s.dispatched | some e ↦ s.dispatched ];
        },
        status_of err,
      )

-- Post
unfoldable pub post_broadcast : Senders → Posting → Broadcast → Schedule → Schedule × ℕ
unfolding get_channel_and_producer parse_and_validate_scheduled_time post_scheduled post_regular
post_broadcast senders p r s = elim (get_channel_and_producer senders r) [
  | refused status ↦ (s, status)
  | granted (channel, producer) ↦ elim r.body [
    | none ↦ (s, 500)
    | some body ↦ elim (parse_and_validate_scheduled_time p r) [
      | refused status ↦ (s, status)
      | granted at ↦
          if is_zero at
          then post_regular p r channel producer body s
          else post_scheduled p r channel producer body at s
    ]
  ]
]
