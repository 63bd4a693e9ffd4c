-- ===== src/Controllers/Accepted.antt =====
-- What a POST to controllers/broadcast.go does: when it stores a message, and that no message is stored or
-- dispatched twice.
use webhook_broker.Base.{
  ℕ, ◌+◌, ◌*◌, ◌≤◌, String, Bool, false, ltb, str_eq, eq_iff, none, some, List, [], ◌∷◌, ◌++◌, ◌≡◌,
  ◌≢◌, ◌⊎◌, refl, ap, sym, subst, arith, inl, inr, Bool-cases, Option-cases,
}
use webhook_broker.Config.DispatchPause.{second}
use webhook_broker.Data.{
  Channel, Producer, Message, new_message, ScheduledMessage, new_scheduled_message, is_zero,
  message_quick_fix, scheduled_quick_fix, is_empty,
}
use webhook_broker.Storage.Tables.{count_where}
use webhook_broker.Storage.Transactions.{Database}
use webhook_broker.Scheduler.Store.{
  StoreError, duplicate_message, write_row, message_clash, create_scheduled,
}
use webhook_broker.Scheduler.Service.{Schedule}
use webhook_broker.Scheduler.Once.{Once, create_message_lem, stored-Once, same-Once}
use webhook_broker.Controllers.Access.{granted, refused}
use webhook_broker.Controllers.Broadcast.{
  Broadcast, Senders, Posting, get_channel_and_producer, get_content_type, get_priority,
  parse_and_validate_scheduled_time, status_of, metadata, incoming, post_scheduled, post_regular,
  post_broadcast,
}

create_scheduled_lem :
    (db : Database) (get_fails : Bool) (m : ScheduledMessage) (rows : List ScheduledMessage)
    → let (rows', err) = create_scheduled db get_fails m rows in
      ((err ≡ none) × (rows' ≡ rows ++ m ∷ []))
      ⊎ ((rows' ≡ rows) × ((e : StoreError) × (err ≡ some e)))
unfolding create_scheduled write_row
create_scheduled_lem db get_fails m rows =
    elim (Option-cases (create_scheduled db get_fails m rows).1) [
      | inl e ↦ inl (e, ground arith)
      | inr (x, e) ↦ inr (ground arith, (x, e))
    ]

status_of_error : (e : StoreError) → ◌≢◌ {A = ℕ} (status_of (some e)) 201
status_of_error duplicate_message = omega arith
status_of_error other = omega arith

module _ (senders : Senders) (r : Broadcast) where
  abbrev pub Trusted : Channel → Producer → Type 0
  Trusted channel producer =
      (senders.channels r.channel_id ≡ some channel)
      × (channel.stakeholder.token ≡ r.header "x-broker-channel-token")
      × (senders.producers (r.header "x-broker-producer-id") ≡ some producer)
      × (producer.stakeholder.token ≡ r.header "x-broker-producer-token")

  get_channel_and_producer_lem :
      ((status : ℕ) × (get_channel_and_producer senders r ≡ refused status) × (status ≢ 201))
      ⊎ ((channel : Channel) × (producer : Producer) × (get_channel_and_producer senders r
            ≡ granted (channel, producer))
          × Trusted channel producer)
  unfolding get_channel_and_producer
  get_channel_and_producer_lem = elim (Option-cases (senders.channels r.channel_id)) [
    | inl e ↦ inl (404, rw (get_channel_and_producer, e) refl, omega arith)
    | inr (channel, e) ↦
        elim (Bool-cases (str_eq channel.stakeholder.token (r.header "x-broker-channel-token"))) [
          | inr bad ↦ inl (403, rw (get_channel_and_producer, e, bad) refl, omega arith)
          | inl ok ↦ elim (Option-cases (senders.producers (r.header "x-broker-producer-id"))) [
            | inl e' ↦ inl (401, rw (get_channel_and_producer, e, ok, e') refl, omega arith)
            | inr (producer, e') ↦
                elim (Bool-cases
                  (str_eq producer.stakeholder.token (r.header "x-broker-producer-token"))) [
                    | inr bad ↦
                        inl (403, rw (get_channel_and_producer, e, ok, e', bad) refl, omega arith)
                    | inl ok2 ↦ inr (
                      channel,
                      producer,
                      rw (get_channel_and_producer, e, ok, e', ok2) refl,
                      (
                        e,
                        (eq_iff channel.stakeholder.token (r.header "x-broker-channel-token")).0 ok,
                        e',
                        (eq_iff producer.stakeholder.token (r.header "x-broker-producer-token")).0
                            ok2,
                      ),
                    )
                  ]
          ]
        ]
  ]

parse_lem :
    (p : Posting) (r : Broadcast)
    → ((status : ℕ) × (parse_and_validate_scheduled_time p r ≡ refused status) × (status ≢ 201))
      ⊎ ((parse_and_validate_scheduled_time p r ≡ granted 0)
          ⊎ ((at : ℕ) × (parse_and_validate_scheduled_time p r ≡ granted at)
              × (p.at + 120 * second ≤ at)))
unfolding parse_and_validate_scheduled_time
parse_lem p r = elim (Bool-cases (is_empty (r.header "x-broker-scheduled-for"))) [
  | inl ok ↦ inr (inl (rw (parse_and_validate_scheduled_time, ok) refl))
  | inr bad ↦ elim (Option-cases (p.parse_time (r.header "x-broker-scheduled-for"))) [
    | inl e ↦ inl (400, rw (parse_and_validate_scheduled_time, bad, e) refl, omega arith)
    | inr (at, e) ↦ elim (Bool-cases (ltb at (p.at + 120 * second))) [
      | inl ok ↦ inl (412, rw (parse_and_validate_scheduled_time, bad, e, ok) refl, omega arith)
      | inr late ↦
          inr (inr (at, rw (parse_and_validate_scheduled_time, bad, e, late) refl, ground arith))
    ]
  ]
]

module _ (senders : Senders) (p : Posting) (r : Broadcast) where
  module _ (channel : Channel) (producer : Producer) (body : String) (s : Schedule) where
    -- One message of the channel and the producer was stored and dispatched.
    abbrev pub Sent : Schedule → Type 0
    Sent s' =
        (m : Message) × (s'.messages ≡ s.messages ++ m ∷ [])
        × (s'.dispatched ≡ m ∷ s.dispatched)
        × (s'.scheduled ≡ s.scheduled)
        × (m.broadcasted_to ≡ some channel)
        × (m.produced_by ≡ some producer)
        × (m.payload ≡ body)
        × (count_where (message_clash m) s.messages ≡ 0)

    -- One was stored to be sent two minutes later or more.
    abbrev pub Planned : Schedule → Type 0
    Planned s' =
        (m : ScheduledMessage) × (s'.scheduled ≡ s.scheduled ++ m ∷ [])
        × (s'.messages ≡ s.messages)
        × (s'.dispatched ≡ s.dispatched)
        × (m.broadcasted_to ≡ some channel)
        × (m.produced_by ≡ some producer)
        × (m.payload ≡ body)
        × (p.at + 120 * second ≤ m.dispatch_schedule)

    post_regular_lem :
        let (s', status) = post_regular p r channel producer body s in
        ((s' ≡ s) × (status ≢ 201)) ⊎ ((status ≡ 201) × Sent s')
    unfolding post_regular new_message message_quick_fix
    post_regular_lem =
        let drawn =
          (new_message p.clock p.fresh p.fresh_message (some channel) (some producer) body
            (get_content_type r) (metadata p r channel producer body)).0 in
        let m : Message = record drawn {
          message_id = incoming p r channel producer body drawn.message_id;
          priority = get_priority r;
        } in
        elim (create_message_lem p.create_db p.get_fails m s.messages) [
          | inl (fine, rows, free) ↦ inr (
            ap status_of fine,
            (
              m,
              rows,
              ap (λ err. elim err [ none ↦ m ∷ s.dispatched | some e ↦ s.dispatched ]) fine,
              refl,
              refl,
              refl,
              refl,
              free,
            ),
          )
          | inr (same, (e, failed)) ↦ rw (failed, same) (inl (refl, status_of_error e))
        ]

    post_scheduled_lem :
        (at : ℕ)
        → is_zero at ≡ false
        → p.at + 120 * second ≤ at
        → let (s', status) = post_scheduled p r channel producer body at s in
          ((s' ≡ s) × (status ≢ 201)) ⊎ ((status ≡ 201) × Planned s')
    unfolding post_scheduled new_scheduled_message scheduled_quick_fix
    post_scheduled_lem at nonzero late =
        let drawn =
          (new_scheduled_message p.clock p.fresh p.fresh_message (some channel) (some producer) body
            (get_content_type r) at (metadata p r channel producer body)).0 in
        let m : ScheduledMessage = record drawn {
          message_id = incoming p r channel producer body drawn.message_id;
          priority = get_priority r;
        } in
        elim (create_scheduled_lem p.create_db p.get_fails m s.scheduled) [
          | inl (fine, rows) ↦
              let kept : m.dispatch_schedule ≡ at = rw nonzero refl in
              rw fine (inr (refl, (m, rows, refl, refl, refl, refl, refl, omega arith)))
          | inr (same, (e, failed)) ↦ rw (failed, same) (inl (refl, status_of_error e))
        ]

  -- The POST left everything and was refused.
  abbrev pub Refused : Schedule → Schedule × ℕ → Type 0
  Refused s (s', status) = (s' ≡ s) × (status ≢ 201)

  abbrev pub Served : Schedule → Schedule × ℕ → Type 0
  Served s (s', status) =
      (status ≡ 201)
      × ((channel : Channel) × (producer : Producer) × (body : String) × Trusted senders r channel
            producer
          × (r.body ≡ some body)
          × (Sent channel producer body s s' ⊎ Planned channel producer body s s'))

  -- A POST leaves everything and is not answered 201, unless the channel's and the producer's tokens are
  -- those of the request; then it is answered 201, and one message of theirs with the request's body,
  -- whose id no message had, was stored and dispatched, or one was stored to be sent in two minutes or
  -- later.
  pub post_broadcast-Sent :
      (s : Schedule)
      → Refused s (post_broadcast senders p r s) ⊎ Served s (post_broadcast senders p r s)
  unfolding post_broadcast
  post_broadcast-Sent s = elim (get_channel_and_producer_lem senders r) [
    | inl (status, e, other) ↦ rw (post_broadcast, e) (inl (refl, other))
    | inr (channel, producer, e, trusted) ↦ elim (Option-cases r.body) [
      | inl none_body ↦ rw (post_broadcast, e, none_body) (inl (refl, omega arith))
      | inr (body, b) ↦ elim (parse_lem p r) [
        | inl (status, t, other) ↦ rw (post_broadcast, e, b, t) (inl (refl, other))
        | inr (inl t) ↦
            let same : post_broadcast senders p r s ≡ post_regular p r channel producer body s =
              rw (post_broadcast, e, b, t) refl in
            subst (λ out. Refused s out ⊎ Served s out) (sym same)
              (elim (post_regular_lem channel producer body s) [
                | inl left ↦ inl left
                | inr (created, sent) ↦
                    inr (created, (channel, producer, body, trusted, b, inl sent))
              ])
        | inr (inr (at, t, late)) ↦
            let nonzero : is_zero at ≡ false = ground arith in
            let same : post_broadcast senders p r s
                ≡ post_scheduled p r channel producer body at s =
              rw (post_broadcast, e, b, t, nonzero) refl in
            subst (λ out. Refused s out ⊎ Served s out) (sym same)
              (elim (post_scheduled_lem channel producer body s at nonzero late) [
                | inl left ↦ inl left
                | inr (created, planned) ↦
                    inr (created, (channel, producer, body, trusted, b, inr planned))
              ])
      ]
    ]
  ]

  -- Post keeps that each message id of a channel is stored at most once and dispatched at most as often.
  pub post_broadcast-Once : (s : Schedule) → Once s → Once (post_broadcast senders p r s).0
  post_broadcast-Once s once = elim (post_broadcast-Sent s) [
    | inl (same, other) ↦ subst Once (sym same) once
    | inr
          (
            created,
            (channel, producer, body, trusted, b, inl (m, rows, calls, kept, to, by, text, free)),
          ) ↦
        stored-Once s (post_broadcast senders p r s).0 m once free rows (inr calls)
    | inr
          (
            created,
            (channel, producer, body, trusted, b, inr (m, rows, kept, calls, to, by, text, late)),
          ) ↦
        same-Once s (post_broadcast senders p r s).0 once kept calls
  ]
