-- ===== src/Controllers/ConsumerRequests.antt =====
-- The PUT and DELETE of controllers/consumer.go at a node with its cached repository of consumers,
-- CachedConsumerRepository of storage/consumerrepo.go. `parsed` is the text of a URL that url.Parse reads, and
-- `absolute` its IsAbs; `channels` is the Get of the channel repository.
use Prim.Native.String.{◌++◌ as str_append}
use webhook_broker.Base.{
  ℕ, String, Bool, ◌||◌, not, str_eq, if◌then◌else◌, Option, none, some, List, inl, inr, Bool-cases,
  Option-cases,
}
use webhook_broker.Data.{Channel, Consumer, new_consumer, consumer_channel_id, is_empty}
use webhook_broker.Storage.Transactions.{Error}
use webhook_broker.Storage.Cache.{MemoryCache, cache_delete}
use webhook_broker.Storage.Cached.{cached_get}
use webhook_broker.Storage.Consumers.{
  ConsumerRow, get_consumer, get_consumer_by_id, store_consumer, delete_consumer,
}
use webhook_broker.Storage.ConsumerKeys.{UniqueConsumers, store_consumer-UniqueConsumers}
use webhook_broker.Controllers.Registration.{
  PutRequest, Putting, token_of, name_of, conditional_update_refusal,
}

pub record ConsumerRepository : Type 0 where
  pub rows : List ConsumerRow
  pub cache : MemoryCache Consumer

-- What a form has of a consumer, besides what it has of every stakeholder.
pub record ConsumerForm : Type 0 where
  pub callback_url : String
  pub type : String

-- The key of a consumer in the cache.
abbrev pub cache_key : String → String → String
cache_key channel_id consumer_id = str_append channel_id (str_append ":" consumer_id)

abbrev pub forget : Consumer → MemoryCache Consumer → MemoryCache Consumer
forget c cache =
    cache_delete c.stakeholder.base.id
      (cache_delete (cache_key (consumer_channel_id c) c.consumer_id) cache)

module _ (channels : String → Option Channel) (like : String → String → Bool)
    (absolute : String → Bool) (parsed : String → Option String) (p : Putting) where
  -- Get of the cached repository, and the repository after it.
  unfoldable pub cached_get_consumer :
      String → String → ConsumerRepository → Option Consumer × ConsumerRepository
  unfolding cached_get
  cached_get_consumer channel_id consumer_id r =
      let (found, cache) =
        cached_get p.now (cache_key channel_id consumer_id)
          (get_consumer channels like p.get_fails channel_id consumer_id r.rows) r.cache in
      (found, record r { cache = cache })

  -- GetByID of the cached repository.
  unfoldable pub cached_get_consumer_by_id :
      String → ConsumerRepository → Option Consumer × ConsumerRepository
  unfolding cached_get
  cached_get_consumer_by_id id r =
      let (found, cache) =
        cached_get p.now id (get_consumer_by_id channels like p.get_fails id r.rows) r.cache in
      (found, record r { cache = cache })

  -- Store of the cached repository.
  unfoldable pub cached_store_consumer :
      Consumer → ConsumerRepository → ConsumerRepository × Option Error
  cached_store_consumer c r =
      let (rows, b, err) =
        store_consumer channels like p.query_fails absolute p.store_db p.clock p.fresh c r.rows in
      (record { rows = rows; cache = elim err [ none ↦ forget b r.cache | some e ↦ r.cache ] }, err)

  -- Delete of the cached repository.
  unfoldable pub cached_delete_consumer :
      (Consumer → Bool) → Consumer → ConsumerRepository → ConsumerRepository × Option Error
  cached_delete_consumer restricted c r =
      let (rows, err) =
        delete_consumer channels like p.query_fails absolute p.store_db restricted c r.rows in
      (record { rows = rows; cache = elim err [ none ↦ forget c r.cache | some e ↦ r.cache ] }, err)

  -- Put, from the form on.
  unfoldable pub save_consumer :
      PutRequest → ConsumerForm → Channel → String → ConsumerRepository → ConsumerRepository × ℕ
  unfolding cached_store_consumer
  save_consumer q form channel consumer_id r = elim (parsed form.callback_url) [
    | none ↦ (r, 400)
    | some url ↦
        if is_empty form.callback_url || not (absolute url)
        then (r, 400)
        else elim (new_consumer absolute p.fresh_object (some channel) consumer_id (token_of p q)
            url form.type) [
              | none ↦ (r, 400)
              | some c ↦
                  let (r', err) =
                    cached_store_consumer
                      (record c {
                        stakeholder = record (c.stakeholder) { name = name_of q consumer_id };
                      })
                      r in
                  (r', elim err [ none ↦ 200 | some e ↦ 500 ])
            ]
  ]

  -- Put
  unfoldable pub put_consumer :
      PutRequest → ConsumerForm → String → String → ConsumerRepository → ConsumerRepository × ℕ
  unfolding cached_get_consumer conditional_update_refusal save_consumer
  put_consumer q form channel_id consumer_id r =
      if not (str_eq q.media_type "application/x-www-form-urlencoded")
      then (r, 415)
      else elim (channels channel_id) [
        | none ↦ (r, 404)
        | some channel ↦
            let (found, looked) = cached_get_consumer channel_id consumer_id r in
            elim found [
              | none ↦ save_consumer q form channel consumer_id looked
              | some old ↦ elim (conditional_update_refusal p q old.stakeholder.base.updated_at) [
                | some status ↦ (looked, status)
                | none ↦ save_consumer q form channel consumer_id looked
              ]
            ]
      ]

  -- Delete; `missing` is what is written for an error of Get, 404 if it says that there is no row.
  unfoldable pub delete_consumer_request :
      (Consumer → Bool)
      → ℕ
      → PutRequest
      → String
      → String
      → ConsumerRepository
      → ConsumerRepository × ℕ
  unfolding cached_get_consumer conditional_update_refusal cached_delete_consumer
  delete_consumer_request restricted missing q channel_id consumer_id r =
      let (found, looked) = cached_get_consumer channel_id consumer_id r in
      elim found [
        | none ↦ (looked, missing)
        | some old ↦ elim (conditional_update_refusal p q old.stakeholder.base.updated_at) [
          | some status ↦ (looked, status)
          | none ↦
              let (r', err) = cached_delete_consumer restricted old looked in
              (r', elim err [ none ↦ 204 | some e ↦ 500 ])
        ]
      ]

  save_consumer-UniqueConsumers :
      (q : PutRequest) (form : ConsumerForm) (channel : Channel) (id : String)
      (r : ConsumerRepository)
      → UniqueConsumers r.rows
      → UniqueConsumers (save_consumer q form channel id r).0.rows
  unfolding save_consumer cached_store_consumer
  save_consumer-UniqueConsumers q form channel id r unique =
      elim (Option-cases (parsed form.callback_url)) [
        | inl e ↦ rw (save_consumer, e) unique
        | inr (url, e) ↦ elim (Bool-cases (is_empty form.callback_url || not (absolute url))) [
          | inl bad ↦ rw (save_consumer, e, bad) unique
          | inr good ↦
              elim (Option-cases (
                new_consumer absolute p.fresh_object (some channel) id (token_of p q) url
                  form.type)) [
                    | inl f ↦ rw (save_consumer, e, good, f) unique
                    | inr (c, f) ↦
                        rw (save_consumer, e, good, f)
                          (store_consumer-UniqueConsumers channels like p.query_fails absolute
                            p.store_db p.clock p.fresh _ r.rows unique)
                  ]
        ]
      ]

  -- A PUT of a consumer, whatever fails, keeps that a channel has at most one consumer of an id.
  pub put_consumer-UniqueConsumers :
      (q : PutRequest) (form : ConsumerForm) (channel_id consumer_id : String)
      (r : ConsumerRepository)
      → UniqueConsumers r.rows
      → UniqueConsumers (put_consumer q form channel_id consumer_id r).0.rows
  unfolding put_consumer cached_get_consumer
  put_consumer-UniqueConsumers q form channel_id consumer_id r unique =
      elim (Bool-cases (str_eq q.media_type "application/x-www-form-urlencoded")) [
        | inr other ↦ rw (put_consumer, other) unique
        | inl is_form ↦ elim (Option-cases (channels channel_id)) [
          | inl e ↦ rw (put_consumer, is_form, e) unique
          | inr (channel, e) ↦
              let look = cached_get_consumer channel_id consumer_id r in
              let saved = save_consumer-UniqueConsumers q form channel consumer_id look.1 unique in
              elim (Option-cases look.0) [
                | inl f ↦ rw (put_consumer, is_form, e, f) saved
                | inr (old, f) ↦
                    elim (Option-cases
                      (conditional_update_refusal p q old.stakeholder.base.updated_at)) [
                        | inl g ↦ rw (put_consumer, is_form, e, f, g) saved
                        | inr (status, g) ↦ rw (put_consumer, is_form, e, f, g) unique
                      ]
              ]
        ]
      ]
