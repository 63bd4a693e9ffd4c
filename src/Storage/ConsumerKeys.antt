-- ===== src/Storage/ConsumerKeys.antt =====
-- storage/consumerrepo.go keeps the key of a consumer unique.
use webhook_broker.Base.{
  ℕ, ◌≤◌, String, Bool, ◌==◌, eq_iff, if◌then◌else◌, Option, none, some, List, [], ◌∷◌, ◌++◌, ◌≡◌,
  refl, ap, sym, subst, arith, inl, inr, Bool-cases, Option-cases,
}
use webhook_broker.Data.{
  Clock, Channel, Consumer, consumer_quick_fix, consumer_is_valid, consumer_channel_id,
}
use webhook_broker.Storage.Tables.{count_where, update_where}
use webhook_broker.Storage.Transactions.{Database}
use webhook_broker.Storage.Counts.{count_append, count_le, count_update_same}
use webhook_broker.Storage.Stakeholders.{write_single}
use webhook_broker.Storage.Storing.{write_single_cases}
use webhook_broker.Storage.Consumers.{
  ConsumerRow, consumer_row, is_row_of, get_consumer, changed_row, update_consumer, same_consumer,
  insert_consumer, differs, store_consumer,
}

-- UNIQUE (consumerId, channelId)
abbrev pub UniqueConsumers : List ConsumerRow → Type 0
UniqueConsumers rows = (channel id : String) → count_where (is_row_of channel id) rows ≤ 1

module _ (channels : String → Option Channel) (like : String → String → Bool) (query_fails : Bool)
    (absolute : String → Bool) (db : Database) where
  -- A write that keeps the keys unique if it is done keeps them.
  write_single-UniqueConsumers :
      (statement : List ConsumerRow → Option (List ConsumerRow × ℕ)) (rows : List ConsumerRow)
      → ((rows' : List ConsumerRow) (n : ℕ)
          → statement rows ≡ some (rows', n)
          → UniqueConsumers rows')
      → UniqueConsumers rows
      → UniqueConsumers (write_single db statement rows).0
  write_single-UniqueConsumers statement rows keeps unique =
      elim (write_single_cases db statement rows) [
        | inl (ok, did) ↦ keeps _ 1 did
        | inr (e, failed, same) ↦ subst UniqueConsumers (sym same) unique
      ]

  insert_consumer-UniqueConsumers :
      (now : Clock) (fresh : String) (c : Consumer) (rows : List ConsumerRow)
      → UniqueConsumers rows
      → UniqueConsumers (insert_consumer channels like query_fails absolute db now fresh c rows).0
  unfolding insert_consumer count_where
  insert_consumer-UniqueConsumers now fresh c rows unique =
      let fixed = (consumer_quick_fix now fresh c).0 in
      let clash = same_consumer channels like query_fails absolute db fixed in
      elim (Bool-cases (consumer_is_valid absolute fixed)) [
        | inr bad ↦ rw bad unique
        | inl good ↦ rw good (
            write_single-UniqueConsumers
              (λ rs.
                if count_where clash rs == 0 then some (rs ++ consumer_row fixed ∷ [], 1) else none)
              rows
              (λ rows' n did channel id.
                let free : count_where clash rows ≡ 0 = ground arith in
                let grown : rows' ≡ rows ++ consumer_row fixed ∷ [] = ground arith in
                let added = ap (count_where (is_row_of channel id)) grown in
                let sum = count_append (is_row_of channel id) rows (consumer_row fixed ∷ []) in
                elim (Bool-cases (is_row_of channel id (consumer_row fixed))) [
                  | inr other ↦ ground (arith, unique channel id)
                  | inl own ↦
                      let fewer =
                        count_le (is_row_of channel id) clash
                          (λ x h. ground (
                            arith,
                            eq_iff x.consumer_id id,
                            eq_iff fixed.consumer_id id,
                            eq_iff x.consumer_id fixed.consumer_id,
                            eq_iff x.channel_id channel,
                            eq_iff (consumer_channel_id fixed) channel,
                            eq_iff x.channel_id (consumer_channel_id fixed),
                          ))
                          rows in
                      ground arith
                ])
              unique)
      ]

  update_consumer-UniqueConsumers :
      (old c : Consumer) (now : ℕ) (rows : List ConsumerRow)
      → UniqueConsumers rows
      → UniqueConsumers (update_consumer channels like query_fails absolute db old c now rows).0
  unfolding update_consumer
  update_consumer-UniqueConsumers old c now rows unique =
      let p = is_row_of (consumer_channel_id old) old.consumer_id in
      let f = changed_row channels like query_fails absolute db c now in
      write_single-UniqueConsumers (λ rs. some (update_where p f rs, count_where p rs)) rows
        (λ rows' n did.
          let same : update_where p f rows ≡ rows' = ground arith in
          subst UniqueConsumers same (λ channel id.
            rw (count_update_same (is_row_of channel id) p f (λ x. refl) rows) (unique channel id)))
        unique

  -- Store, whatever fails, keeps that a channel has at most one consumer of an id.
  pub store_consumer-UniqueConsumers :
      (now : Clock) (fresh : String) (c : Consumer) (rows : List ConsumerRow)
      → UniqueConsumers rows
      → UniqueConsumers (store_consumer channels like query_fails absolute db now fresh c rows).0
  unfolding store_consumer
  store_consumer-UniqueConsumers now fresh c rows unique =
      elim (Option-cases (channels (consumer_channel_id c))) [
        | inl e ↦ rw (store_consumer, e) unique
        | inr (channel, e) ↦
            elim (Option-cases
              (get_consumer channels like query_fails channel.channel_id c.consumer_id rows)) [
                | inl f ↦
                    rw (store_consumer, e, f)
                      (insert_consumer-UniqueConsumers now fresh c rows unique)
                | inr (old, f) ↦
                    elim (Bool-cases (differs channels like query_fails absolute db c old)) [
                      | inr same ↦ rw (store_consumer, e, f, same) unique
                      | inl other ↦ elim (Bool-cases (consumer_is_valid absolute c)) [
                        | inl good ↦
                            rw (store_consumer, e, f, other, good)
                              (update_consumer-UniqueConsumers old c (now 0) rows unique)
                        | inr bad ↦ rw (store_consumer, e, f, other, bad) unique
                      ]
                    ]
              ]
      ]
