-- ===== src/Controllers/Registration.antt =====
-- controllers/channel.go and controllers/producer.go: the PUT of a channel and of a producer, at a node with its
-- cached repository. `media_type` is what stands before a semicolon in the header Content-Type, a form's
-- value is "" for one that is missing, and `http_time` is time.Time's text in net/http.TimeFormat.
use webhook_broker.Base.{ℕ, String, Bool, not, str_eq, if◌then◌else◌, Option, none, some}
use webhook_broker.Data.{Clock, Channel, new_channel, Producer, new_producer, is_empty}
use webhook_broker.Storage.Transactions.{Database}
use webhook_broker.Storage.Stakeholders.{Kind, channel_kind, producer_kind, get_by_key}
use webhook_broker.Storage.Cached.{Repository, cached_get, cached_store}

pub record PutRequest : Type 0 where
  pub media_type : String
  pub unmodified_since : String
  pub token : String
  pub name : String

-- When the cache is read, the xids and the random token that are drawn, and what the database does.
pub record Putting : Type 0 where
  pub now : ℕ
  pub http_time : ℕ → String
  pub random_token : String
  pub fresh_object : String
  pub fresh : String
  pub clock : Clock
  pub get_fails : Bool
  pub query_fails : Bool
  pub store_db : Database

-- getUpdateData
abbrev pub token_of : Putting → PutRequest → String
token_of p q = if is_empty q.token then p.random_token else q.token

abbrev pub name_of : PutRequest → String → String
name_of q default_name = if is_empty q.name then default_name else q.name

-- isConditionalUpdateCalled, of a row that was updated at a time: the status of its refusal, if any.
unfoldable pub conditional_update_refusal : Putting → PutRequest → ℕ → Option ℕ
conditional_update_refusal p q updated_at =
    if is_empty q.unmodified_since
    then some 400
    else if not (str_eq q.unmodified_since (p.http_time updated_at))
    then some 412
    else none

module _ {A : Type 0} (kind : Kind A) (make : String → String → String → Option A)
    (like : String → String → Bool) (p : Putting) where
  -- What is stored for a request, of a new object.
  abbrev pub requested : PutRequest → String → A → A
  requested q id made =
      kind.with_stakeholder (record (kind.stakeholder made) { name = name_of q id }) made

  -- The end of Put, `none` where it panics: an object that NewChannel or NewProducer refuses is nil.
  abbrev pub save : PutRequest → String → Repository A → Repository A × Option ℕ
  save q id r = elim (make p.fresh_object id (token_of p q)) [
    | none ↦ (r, none)
    | some made ↦
        let (r', err) =
          cached_store kind like p.store_db p.query_fails p.clock p.fresh (requested q id made) r in
        (r', elim err [ none ↦ some 200 | some e ↦ some 500 ])
  ]

  -- Put
  unfoldable pub put : PutRequest → String → Repository A → Repository A × Option ℕ
  unfolding cached_get cached_store conditional_update_refusal
  put q id r =
      let (found, cache) =
        cached_get p.now id (get_by_key kind like p.get_fails id r.rows) r.cache in
      let looked = record r { cache = cache } in
      if not (str_eq q.media_type "application/x-www-form-urlencoded")
      then (looked, some 415)
      else elim found [
        | none ↦ save q id looked
        | some a ↦ elim (conditional_update_refusal p q (kind.stakeholder a).base.updated_at) [
          | some status ↦ (looked, some status)
          | none ↦ save q id looked
        ]
      ]

abbrev pub put_channel :
    (String → String → Bool)
    → Putting
    → PutRequest
    → String
    → Repository Channel
    → Repository Channel × Option ℕ
put_channel = put channel_kind new_channel

abbrev pub put_producer :
    (String → String → Bool)
    → Putting
    → PutRequest
    → String
    → Repository Producer
    → Repository Producer × Option ℕ
put_producer = put producer_kind new_producer
