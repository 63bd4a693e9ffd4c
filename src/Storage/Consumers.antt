-- ===== src/Storage/Consumers.antt =====
-- storage/consumerrepo.go. A row of `consumer` has its channel's id; `channels` is the Get of the channel
-- repository and `like` SQL's LIKE of a value and a pattern, and a query reads the first row that matches.
-- The channel that was read is there when its consumer is written.
use webhook_broker.Base.{
  ℕ, String, Bool, ◌&&◌, ◌||◌, not, ◌==◌, str_eq, if◌then◌else◌, Option, none, some, List, [], ◌∷◌,
  ◌++◌,
}
use webhook_broker.Data.{
  Clock, MessageStakeholder, Channel, Consumer, consumer_quick_fix, consumer_is_valid,
  consumer_channel_id,
}
use webhook_broker.Storage.Tables.{count_where, update_where, delete_where}
use webhook_broker.Storage.Transactions.{Error, db_error, invalid_state_to_save, Database}
use webhook_broker.Storage.Stakeholders.{find_row, write_single}

pub record ConsumerRow : Type 0 where
  pub stakeholder : MessageStakeholder
  pub consumer_id : String
  pub channel_id : String
  pub callback_url : String
  pub consumer_type : ℕ

abbrev pub consumer_of : Channel → ConsumerRow → Consumer
consumer_of channel r = record {
  stakeholder = r.stakeholder;
  consumer_id = r.consumer_id;
  callback_url = r.callback_url;
  consuming_from = some channel;
  consumer_type = r.consumer_type;
}

-- The row of a consumer whose channel is known.
abbrev pub consumer_row : Consumer → ConsumerRow
consumer_row c = record {
  stakeholder = c.stakeholder;
  consumer_id = c.consumer_id;
  channel_id = consumer_channel_id c;
  callback_url = c.callback_url;
  consumer_type = c.consumer_type;
}

abbrev pub is_row_of : String → String → ConsumerRow → Bool
is_row_of channel_id consumer_id r =
    str_eq r.consumer_id consumer_id && str_eq r.channel_id channel_id

module _ (channels : String → Option Channel) (like : String → String → Bool)
    (query_fails : Bool) where
  -- Get; `none` is an error.
  unfoldable pub get_consumer : String → String → List ConsumerRow → Option Consumer
  unfolding find_row
  get_consumer channel_id consumer_id rows = elim (channels channel_id) [
    | none ↦ none
    | some channel ↦
        if query_fails
        then none
        else elim (find_row (λ r. like r.channel_id channel_id && like r.consumer_id consumer_id)
            rows) [ none ↦ none | some r ↦ some (consumer_of channel r) ]
  ]

  -- GetByID
  unfoldable pub get_consumer_by_id : String → List ConsumerRow → Option Consumer
  unfolding find_row
  get_consumer_by_id id rows =
      if query_fails then none else elim (find_row (λ r. like r.stakeholder.base.id id) rows) [
        | none ↦ none
        | some r ↦ elim (channels r.channel_id) [
          | none ↦ none
          | some channel ↦ some (consumer_of channel r)
        ]
      ]

  module _ (absolute : String → Bool) (db : Database) where
    abbrev pub changed : Consumer → ℕ → MessageStakeholder → MessageStakeholder
    changed c now s = record s {
      name = c.stakeholder.name;
      token = c.stakeholder.token;
      base = record (s.base) { updated_at = now };
    }

    abbrev pub changed_row : Consumer → ℕ → ConsumerRow → ConsumerRow
    changed_row c now r = record r {
      stakeholder = changed c now r.stakeholder;
      callback_url = c.callback_url;
      consumer_type = c.consumer_type;
    }

    -- updateConsumer of the one that was found, to be as another: the object is changed before the
    -- statement runs.
    unfoldable pub update_consumer :
        Consumer → Consumer → ℕ → List ConsumerRow → List ConsumerRow × Consumer × Option Error
    unfolding write_single update_where count_where
    update_consumer old c now rows =
        let p = is_row_of (consumer_channel_id old) old.consumer_id in
        let (rows', err) =
          write_single db (λ rs. some (update_where p (changed_row c now) rs, count_where p rs))
            rows in
        (
          rows',
          record old {
            stakeholder = changed c now old.stakeholder;
            callback_url = c.callback_url;
            consumer_type = c.consumer_type;
          },
          err,
        )

    -- The two keys of the table.
    abbrev pub same_consumer : Consumer → ConsumerRow → Bool
    same_consumer c r =
        str_eq r.stakeholder.base.id c.stakeholder.base.id
        || is_row_of (consumer_channel_id c) c.consumer_id r

    -- insertConsumer
    unfoldable pub insert_consumer :
        Clock → String → Consumer → List ConsumerRow → List ConsumerRow × Consumer × Option Error
    unfolding write_single count_where
    insert_consumer now fresh c rows =
        let fixed = (consumer_quick_fix now fresh c).0 in
        if consumer_is_valid absolute fixed
        then (let (rows', err) =
              write_single db
                (λ rs.
                  if count_where (same_consumer fixed) rs == 0
                  then some (rs ++ consumer_row fixed ∷ [], 1)
                  else none)
                rows in
            (rows', fixed, err))
        else (rows, fixed, some invalid_state_to_save)

    abbrev pub differs : Consumer → Consumer → Bool
    differs c old =
        (not (str_eq c.stakeholder.name old.stakeholder.name)
          || not (str_eq c.stakeholder.token old.stakeholder.token))
        || (not (str_eq c.callback_url old.callback_url)
            || not (c.consumer_type == old.consumer_type))

    -- Store. The object that it returns with a channel that is not found is empty: the one that it was
    -- given stands for it.
    unfoldable pub store_consumer :
        Clock → String → Consumer → List ConsumerRow → List ConsumerRow × Consumer × Option Error
    unfolding get_consumer update_consumer insert_consumer
    store_consumer now fresh c rows = elim (channels (consumer_channel_id c)) [
      | none ↦ (rows, c, some db_error)
      | some channel ↦ elim (get_consumer channel.channel_id c.consumer_id rows) [
        | none ↦ insert_consumer now fresh c rows
        | some old ↦
            if differs c old
            then (if consumer_is_valid absolute c
                then update_consumer old c (now 0) rows
                else (rows, old, some invalid_state_to_save))
            else (rows, old, none)
      ]
    ]

    -- Delete; the database refuses it while a row refers to the consumer, as `restricted` says.
    unfoldable pub delete_consumer :
        (Consumer → Bool) → Consumer → List ConsumerRow → List ConsumerRow × Option Error
    unfolding write_single delete_where count_where
    delete_consumer restricted c rows =
        let p = is_row_of (consumer_channel_id c) c.consumer_id in
        write_single db
          (λ rs. if restricted c then none else some (delete_where p rs, count_where p rs)) rows
