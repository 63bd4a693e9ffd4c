-- ===== src/Tests/Posting.antt =====
-- A message that is posted to a channel, and a broker that prunes until no message is left.
use webhook_broker.Base.{
  String, false, str_eq, if◌then◌else◌, none, some, [], ◌≡◌, ◌⊎◌, ◌<◌, refl, arith,
}
use webhook_broker.Data.{
  Producer, new_message, channel_ref_is_valid, channel_is_valid, producer_ref_is_valid,
  producer_is_valid,
}
use webhook_broker.Storage.Transactions.{healthy}
use webhook_broker.Scheduler.Service.{Schedule}
use webhook_broker.Scheduler.Once.{Once}
use webhook_broker.Controllers.Broadcast.{Broadcast, Senders, Posting, post_broadcast}
use webhook_broker.Controllers.Accepted.{Refused, Served, post_broadcast-Sent, post_broadcast-Once}
use webhook_broker.Prune.Service.{prune_passes}
use webhook_broker.Scheduler.Store.{create_message, write_row}
use webhook_broker.Storage.Removal.{stored as messages_stored}
use webhook_broker.Prune.Ends.{prune_passes_enough}
use webhook_broker.Storage.Tables.{count_where}
use webhook_broker.Tests.Values.{stored, a_channel, some_tables}
use webhook_broker.Tests.Pruning.{a_setting, a_pruning}

abbrev a_producer : Producer
a_producer = record {
  stakeholder = record { base = stored "p"; name = "desk"; token = "t" };
  producer_id = "desk";
}

abbrev some_senders : Senders
some_senders = record {
  channels = λ id. if str_eq id "news" then some a_channel else none;
  producers = λ id. if str_eq id "desk" then some a_producer else none;
}

abbrev headers : String → String
headers name =
    if str_eq name "x-broker-message-priority"
    then ""
    else if str_eq name "x-broker-producer-id"
    then "desk"
    else if str_eq name "x-broker-channel-token"
    then "t"
    else if str_eq name "x-broker-producer-token"
    then "t"
    else ""

abbrev a_broadcast : Broadcast
a_broadcast = record { channel_id = "news"; header = headers; body = some "text" }

abbrev a_posting : Posting
a_posting = record {
  parse_time = λ s. none;
  keys_of = λ s. [];
  clock = λ i. 20;
  at = 20;
  fresh = "m1";
  fresh_message = "m1";
  get_fails = false;
  create_db = healthy;
}

abbrev nothing_posted : Schedule
nothing_posted = record {
  tables = some_tables;
  messages = [];
  scheduled = [];
  dispatched = [];
  error_count = 0;
  dispatched_count = 0;
}

accepted : (post_broadcast some_senders a_posting a_broadcast nothing_posted).1 ≡ 201
unfolding post_broadcast create_message write_row new_message channel_ref_is_valid channel_is_valid
    producer_ref_is_valid producer_is_valid
accepted = refl

post_broadcast-Sent_example :
    let out = post_broadcast some_senders a_posting a_broadcast nothing_posted in
    Refused some_senders a_posting a_broadcast nothing_posted out
    ⊎ Served some_senders a_posting a_broadcast nothing_posted out
post_broadcast-Sent_example = post_broadcast-Sent some_senders a_posting a_broadcast nothing_posted

nothing_posted-Once : Once nothing_posted
unfolding count_where
nothing_posted-Once channel id = omega arith

post_broadcast-Once_example :
    Once (post_broadcast some_senders a_posting a_broadcast nothing_posted).0
post_broadcast-Once_example =
    post_broadcast-Once some_senders a_posting a_broadcast nothing_posted nothing_posted-Once

few_stored : messages_stored a_pruning.tables < 2
unfolding count_where
few_stored = omega arith

prune_passes_enough_example :
    prune_passes a_setting 2 0 a_pruning ≡ prune_passes a_setting 3 0 a_pruning
prune_passes_enough_example = prune_passes_enough a_setting 2 0 a_pruning few_stored
