-- ===== src/Controllers/Access.antt =====
-- How controllers/*.go let a request through: job.go, dlqdelete.go, internaljobs.go, dispatchpause.go.
-- The Get of the channel and the consumer repository is `Directory`, `none` for an error.
use webhook_broker.Base.{
  ℕ, String, Bool, ◌&&◌, not, ◌==◌, str_eq, if◌then◌else◌, Option, none, some,
}
use webhook_broker.Data.{Channel, Consumer, DeliveryJob, is_empty, pull_consumer}

pub record Request : Type 0 where
  pub channel_id : String
  pub channel_token : String
  pub consumer_id : String
  pub consumer_token : String
  pub admin_token : String

pub record Directory : Type 0 where
  pub channels : String → Option Channel
  pub consumers : String → String → Option Consumer

-- What a check gives: a value, or the status that was written.
pub data Access {ℓ} (A : Type ℓ) : Type ℓ where
  granted : A → Access A
  refused : ℕ → Access A

module _ (dir : Directory) (r : Request) where
  -- getConsumerWithValidation
  unfoldable pub get_consumer_with_validation : Access Consumer
  get_consumer_with_validation = elim (dir.channels r.channel_id) [
    | none ↦ refused 404
    | some ch ↦
        if not (str_eq ch.stakeholder.token r.channel_token)
        then refused 403
        else elim (dir.consumers r.channel_id r.consumer_id) [
          | none ↦ refused 401
          | some c ↦
              if not (str_eq c.stakeholder.token r.consumer_token)
              then refused 403
              else if not (c.consumer_type == pull_consumer)
              then refused 412
              else granted c
        ]
  ]

  -- getChannelConsumerWithAuth
  unfoldable pub get_channel_consumer_with_auth : Access Consumer
  get_channel_consumer_with_auth = elim (dir.channels r.channel_id) [
    | none ↦ refused 404
    | some ch ↦
        if not (str_eq ch.stakeholder.token r.channel_token)
        then refused 403
        else elim (dir.consumers r.channel_id r.consumer_id) [
          | none ↦ refused 404
          | some c ↦
              if not (str_eq c.stakeholder.token r.consumer_token) then refused 403 else granted c
        ]
  ]

  -- getJobWithValidation; `jobs` is GetByID of the job repository.
  unfoldable pub get_job_with_validation :
      (String → Option DeliveryJob) → String → Access DeliveryJob
  unfolding get_consumer_with_validation
  get_job_with_validation jobs id = elim get_consumer_with_validation [
    | refused status ↦ refused status
    | granted c ↦ elim (jobs id) [
      | none ↦ refused 404
      | some d ↦ elim d.listener [
        | none ↦ refused 401
        | some l ↦ if not (str_eq l.consumer_id c.consumer_id) then refused 401 else granted d
      ]
    ]
  ]

-- isAdminAuthorized
unfoldable pub is_admin_authorized : String → Request → Bool
is_admin_authorized expected r = not (is_empty expected) && str_eq expected r.admin_token

-- checkAdminToken: the status that it writes, if any.
unfoldable pub check_admin_token : String → Request → Option ℕ
unfolding is_admin_authorized
check_admin_token configured r =
    if is_empty configured
    then some 404
    else if not (is_admin_authorized configured r)
    then some 401
    else none
