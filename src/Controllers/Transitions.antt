-- ===== src/Controllers/Transitions.antt =====
-- What a POST of a job's state may do, controllers/job.go.
use webhook_broker.Base.{
  ℕ, String, Bool, true, false, ◌||◌, not, ◌==◌, str_eq, Option, none, some, ◌≡◌, refl, sym, subst,
  ap, ◌∙◌, arith, inl, inr, ◌⊎◌, Bool-cases, Option-cases, eq_iff,
}
use webhook_broker.Data.{
  Channel, Consumer, DeliveryJob, job_queued, job_inflight, job_delivered, job_dead, job_parked,
  job_status_text, pull_consumer,
}
use webhook_broker.Storage.Tables.{Tables}
use webhook_broker.Storage.Transactions.{Error, Database, single_row_write_atomic}
use webhook_broker.Storage.Jobs.{
  after_write_error, update_job_status, mark_job_inflight, mark_job_delivered, mark_job_dead,
  mark_dead_job_as_inflight,
}
use webhook_broker.Storage.Handout.{mark_job_inflight_error}
use webhook_broker.Storage.Lifecycle.{Write, starts, delivers, gives_up, restarts}
use webhook_broker.Controllers.Access.{
  Request, Directory, Access, granted, refused, get_consumer_with_validation,
  get_job_with_validation,
}
use webhook_broker.Controllers.JobStatus.{JobUpdate, answer_write, move_job, change_state, post_job}

module _ (db : Database) (now : ℕ) (t : Tables) (d : DeliveryJob) where
  -- A status write that returns an error leaves the tables.
  update_job_status_error :
      (from to : ℕ) (e : Error)
      → (update_job_status db now t d from to).2 ≡ some e
      → (update_job_status db now t d from to).0 ≡ t
  unfolding update_job_status
  update_job_status_error from to e h =
      ap (λ w. w.0) (after_write_error d _ _ t (single_row_write_atomic db _ t) e h)

  mark_dead_job_as_inflight_error :
      (e : Error)
      → (mark_dead_job_as_inflight db now t d).2 ≡ some e
      → (mark_dead_job_as_inflight db now t d).0 ≡ t
  unfolding mark_dead_job_as_inflight
  mark_dead_job_as_inflight_error e h =
      ap (λ w. w.0) (after_write_error d _ _ t (single_row_write_atomic db _ t) e h)

module _ (itoa : ℕ → String) (db : Database) (now : ℕ) (repo : Option Bool) (t : Tables) where
  -- The tables are left, or one write of the job repository succeeded and the answer is 202.
  abbrev pub Sound : Tables × ℕ → Type 0
  Sound (t', status) = (t' ≡ t) ⊎ (Write db t t' × (status ≡ 202))

  answer_write-Sound :
      (hand_out : Bool) (d : DeliveryJob) (w : Tables × DeliveryJob × Option Error)
      → Write db t w.0
      → ((e : Error) → w.2 ≡ some e → w.0 ≡ t)
      → Sound (answer_write itoa db now repo t hand_out d w)
  answer_write-Sound hand_out d (t', d', none) made keeps = inr (made, refl)
  answer_write-Sound hand_out d (t', d', some e) made keeps = inl (keeps e refl)

  move_job-Sound :
      (d : DeliveryJob) (next_state : String) → Sound (move_job itoa db now repo t d next_state)
  unfolding move_job mark_job_delivered mark_job_dead
  move_job-Sound d next_state =
      elim (Bool-cases (str_eq next_state (job_status_text itoa job_inflight))) [
        | inl to_inflight ↦ elim (Bool-cases (d.status == job_queued)) [
          | inl queued ↦
              rw (to_inflight, queued)
                (answer_write-Sound true d (mark_job_inflight db now t d) (starts now d)
                  (λ e h. ap (λ w. w.0) (mark_job_inflight_error db now t d e h)))
          | inr waiting ↦ elim (Bool-cases (d.status == job_dead)) [
            | inl dead ↦
                rw (to_inflight, waiting, dead)
                  (answer_write-Sound true d (mark_dead_job_as_inflight db now t d) (restarts now d)
                    (mark_dead_job_as_inflight_error db now t d))
            | inr other ↦ rw (to_inflight, waiting, other) (inl refl)
          ]
        ]
        | inr n1 ↦ elim (Bool-cases (str_eq next_state (job_status_text itoa job_delivered))) [
          | inl to_delivered ↦
              rw (n1, to_delivered)
                (answer_write-Sound false d (mark_job_delivered db now t d) (delivers now d)
                  (update_job_status_error db now t d job_inflight job_delivered))
          | inr n2 ↦ elim (Bool-cases (str_eq next_state (job_status_text itoa job_dead))) [
            | inl to_dead ↦
                rw (n1, n2, to_dead)
                  (answer_write-Sound false d (mark_job_dead db now t d) (gives_up now d)
                    (update_job_status_error db now t d job_inflight job_dead))
            | inr n3 ↦ rw (n1, n2, n3) (inl refl)
          ]
        ]
      ]

  change_state-Sound :
      (d : DeliveryJob) (next_state : String)
      → Sound (change_state itoa db now repo t d next_state)
        × ((d.status == job_parked) ≡ true
            → change_state itoa db now repo t d next_state ≡ (t, 409))
  unfolding change_state
  change_state-Sound d next_state = elim (Bool-cases (d.status == job_parked)) [
    | inl parked ↦ (rw parked (inl refl), λ e. rw parked refl)
    | inr free ↦ elim (Bool-cases (str_eq (job_status_text itoa d.status) next_state)) [
      | inl there ↦ (rw (free, there) (inl refl), λ e. absurd (ground arith))
      | inr moves ↦ (rw (free, moves) (move_job-Sound d next_state), λ e. absurd (ground arith))
    ]
  ]

module _ (dir : Directory) (r : Request) where
  -- The channel and the consumer that the request names have the tokens that it has, and the consumer
  -- pulls.
  abbrev pub Authorised : Consumer → Type 0
  Authorised c =
      (ch : Channel) × (dir.channels r.channel_id ≡ some ch)
      × (ch.stakeholder.token ≡ r.channel_token)
      × (dir.consumers r.channel_id r.consumer_id ≡ some c)
      × (c.stakeholder.token ≡ r.consumer_token)
      × (c.consumer_type ≡ pull_consumer)

  get_consumer_with_validation-Authorised :
      (c : Consumer) → get_consumer_with_validation dir r ≡ granted c → Authorised c
  unfolding get_consumer_with_validation
  get_consumer_with_validation-Authorised c h = elim (Option-cases (dir.channels r.channel_id)) [
    | inl e ↦ absurd (ground arith)
    | inr (ch, e) ↦ elim (Option-cases (dir.consumers r.channel_id r.consumer_id)) [
      | inl f ↦ absurd (ground arith)
      | inr (found, f) ↦
          let same : found ≡ c = ground arith in
          (
            ch,
            e,
            ground (arith, eq_iff ch.stakeholder.token r.channel_token),
            subst (λ x. dir.consumers r.channel_id r.consumer_id ≡ some x) same f,
            ap (λ (x : Consumer). x.stakeholder.token) (sym same)
                ∙ ground (arith, eq_iff found.stakeholder.token r.consumer_token),
            ap (λ (x : Consumer). x.consumer_type) (sym same) ∙ ground arith,
          )
    ]
  ]

  -- The job that a request may change: one of a consumer with the consumer id of the request's.
  abbrev pub MayChange : (String → Option DeliveryJob) → String → DeliveryJob → Type 0
  MayChange jobs id d =
      (c l : Consumer) × Authorised c
      × (jobs id ≡ some d)
      × (d.listener ≡ some l)
      × (l.consumer_id ≡ c.consumer_id)

  get_job_with_validation-MayChange :
      (jobs : String → Option DeliveryJob) (id : String) (d : DeliveryJob)
      → get_job_with_validation dir r jobs id ≡ granted d
      → MayChange jobs id d
  unfolding get_job_with_validation
  get_job_with_validation-MayChange jobs id d h = go (get_consumer_with_validation dir r) refl
    where
      go : (a : Access Consumer) → get_consumer_with_validation dir r ≡ a → MayChange jobs id d
      go (refused status) e = absurd (ground arith)
      go (granted c) e = elim (Option-cases (jobs id)) [
        | inl f ↦ absurd (ground arith)
        | inr (found, f) ↦ elim (Option-cases found.listener) [
          | inl g ↦ absurd (ground arith)
          | inr (l, g) ↦
              let same : found ≡ d = ground arith in
              (
                c,
                l,
                get_consumer_with_validation-Authorised c e,
                subst (λ x. jobs id ≡ some x) same f,
                ap (λ (x : DeliveryJob). x.listener) (sym same) ∙ g,
                ground (arith, eq_iff l.consumer_id c.consumer_id),
              )
        ]
      ]

module _ (itoa : ℕ → String) (db : Database) (now : ℕ) (repo : Option Bool) (t : Tables)
    (dir : Directory) (jobs : String → Option DeliveryJob) (r : Request) (id : String) where
  abbrev pub Allowed : Tables × ℕ → Type 0
  Allowed (t', status) =
      (t' ≡ t)
      ⊎ ((d : DeliveryJob) × MayChange dir r jobs id d
          × ((d.status == job_parked) ≡ false)
          × Write db t t'
          × (status ≡ 202))

  change_state-Allowed :
      (d e : DeliveryJob) (next_state : String)
      → MayChange dir r jobs id d
      → e.status ≡ d.status
      → Allowed (change_state itoa db now repo t e next_state)
  change_state-Allowed d e next_state may same = elim (Bool-cases (e.status == job_parked)) [
    | inl parked ↦
        inl (ap (λ o. o.0) ((change_state-Sound itoa db now repo t e next_state).1 parked))
    | inr free ↦ elim (change_state-Sound itoa db now repo t e next_state).0 [
      | inl left ↦ inl left
      | inr (made, answer) ↦ inr (d, may, ground arith, made, answer)
    ]
  ]

  -- A POST of a job's state leaves the tables as they are, unless the tokens of the channel and the
  -- pull consumer are those of the request and the job is of a consumer with that consumer id and is
  -- not parked; then one write of the job repository was made, and the answer is 202.
  pub post_job-Allowed :
      (body : Option JobUpdate)
      → let (t', status) = post_job itoa db now repo t dir jobs r id body in
        (t' ≡ t)
        ⊎ ((d : DeliveryJob) × MayChange dir r jobs id d
            × ((d.status == job_parked) ≡ false)
            × Write db t t'
            × (status ≡ 202))
  unfolding post_job
  post_job-Allowed body = go (get_job_with_validation dir r jobs id) refl
    where
      posted : Tables × ℕ
      posted = post_job itoa db now repo t dir jobs r id body

      go :
          (a : Access DeliveryJob)
          → get_job_with_validation dir r jobs id ≡ a
          → Allowed (post_job itoa db now repo t dir jobs r id body)
      go (refused status) e =
          let same : posted ≡ (t, status) = ground arith in subst Allowed (sym same) (inl refl)
      go (granted d) e =
          let may = get_job_with_validation-MayChange dir r jobs id d e in
          elim (Option-cases body) [
            | inl unread ↦
                let same : posted ≡ (t, 500) = ground arith in subst Allowed (sym same) (inl refl)
            | inr (update, read) ↦
                let timed = record d { incremental_timeout = update.incremental_timeout } in
                let plain = change_state itoa db now repo t d update.next_state in
                let with_timeout = change_state itoa db now repo t timed update.next_state in
                elim (Bool-cases (update.incremental_timeout == 0)) [
                  | inl unset ↦
                      let same : posted ≡ plain = ground arith in
                      subst Allowed (sym same) (change_state-Allowed d d update.next_state may refl)
                  | inr set ↦
                      elim (Bool-cases (
                        not (str_eq update.next_state (job_status_text itoa job_inflight))
                        || d.status == job_inflight)) [
                          | inl wrong ↦
                              let same : posted ≡ (t, 400) = ground arith in
                              subst Allowed (sym same) (inl refl)
                          | inr right ↦
                              let same : posted ≡ with_timeout = ground arith in
                              subst Allowed (sym same)
                                (change_state-Allowed d timed update.next_state may refl)
                        ]
                ]
          ]
