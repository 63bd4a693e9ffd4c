-- ===== src/Controllers/Registered.antt =====
-- What a PUT of controllers/channel.go and producer.go does to the table of a node that makes all writes.
use webhook_broker.Base.{
  ℕ, String, Bool, true, false, str_eq, eq_iff, Option, none, some, List, ◌≡◌, ◌≢◌, ◌⊎◌, refl, ap,
  sym, ◌∙◌, subst, arith, inl, inr, Bool-cases, Option-cases,
}
use webhook_broker.Data.{new_channel, new_producer, is_empty}
use webhook_broker.Storage.Transactions.{Error}
use webhook_broker.Storage.Stakeholders.{Kind, channel_kind, producer_kind, get_by_key, store}
use webhook_broker.Storage.RowKeys.{KindLaws, channel_laws, producer_laws, row_of}
use webhook_broker.Storage.Storing.{store-Stored}
use webhook_broker.Storage.Cached.{Repository, store_call, answer, cached_get, cached_store}
use webhook_broker.Storage.Coherence.{Coherent, Plain, cached_get_lem, answer-Coherent}
use webhook_broker.Controllers.Registration.{
  PutRequest, Putting, token_of, name_of, conditional_update_refusal, requested, save, put,
}

module _ {A : Type 0} (kind : Kind A) (laws : KindLaws kind)
    (make : String → String → String → Option A) (like : String → String → Bool) (p : Putting) where
  -- NewChannel and NewProducer give an object with the id and the token.
  abbrev pub Makes : Type 0
  Makes =
      (fresh id token : String) (a : A)
      → make fresh id token ≡ some a
      → (kind.key a ≡ id) × ((kind.stakeholder a).token ≡ token)

  module _ (q : PutRequest) (id : String) where
    -- The header names the time at which the row of the id was updated, no row has the id, or the
    -- query for it failed.
    abbrev pub Unchanged : List A → Type 0
    Unchanged rows =
        ((a : A) × (row_of kind laws like id rows ≡ some a)
          × (is_empty q.unmodified_since ≡ false)
          × (q.unmodified_since ≡ p.http_time (kind.stakeholder a).base.updated_at))
        ⊎ ((row_of kind laws like id rows ≡ none) ⊎ (p.get_fails ≡ true))

    -- The row of the id is as requested, and the other rows stay.
    abbrev pub Saved : List A → List A → Type 0
    Saved rows rows' =
        ((b : A) × (row_of kind laws like id rows' ≡ some b)
          × ((kind.stakeholder b).token ≡ token_of p q)
          × ((is_empty (name_of q id) ≡ true) ⊎ ((kind.stakeholder b).name ≡ name_of q id)))
        × ((k : String)
            → (str_eq id k ≡ true) ⊎ (row_of kind laws like k rows' ≡ row_of kind laws like k rows))

    abbrev pub Put : Repository A → Repository A → Option ℕ → Type 0
    Put r r' status =
        Coherent kind laws like r'
        × (((r'.rows ≡ r.rows) × (status ≢ some 200))
            ⊎ ((status ≡ some 200) × Unchanged r.rows × Saved r.rows r'.rows))

    some_inj : {a b : ℕ} → some a ≡ some b → a ≡ b
    some_inj e = ground arith

    refusal_cases :
        (updated_at : ℕ)
        → ((status : ℕ) × (conditional_update_refusal p q updated_at ≡ some status)
            × (status ≢ 200))
          ⊎ ((conditional_update_refusal p q updated_at ≡ none)
              × (is_empty q.unmodified_since ≡ false)
              × (q.unmodified_since ≡ p.http_time updated_at))
    unfolding conditional_update_refusal
    refusal_cases t = elim (Bool-cases (is_empty q.unmodified_since)) [
      | inl e ↦ inl (400, rw (conditional_update_refusal, e) refl, omega arith)
      | inr e ↦ elim (Bool-cases (str_eq q.unmodified_since (p.http_time t))) [
        | inr f ↦ inl (412, rw (conditional_update_refusal, e, f) refl, omega arith)
        | inl f ↦ inr (
          rw (conditional_update_refusal, e, f) refl,
          e,
          (eq_iff q.unmodified_since (p.http_time t)).0 f,
        )
      ]
    ]

    cached_store-Saved :
        (r : Repository A) (a : A)
        → kind.key a ≡ id
        → (kind.stakeholder a).token ≡ token_of p q
        → (kind.stakeholder a).name ≡ name_of q id
        → Plain kind laws like id
        → Coherent kind laws like r
        → let (r', err) = cached_store kind like p.store_db p.query_fails p.clock p.fresh a r in
          Coherent kind laws like r'
          × (((err ≡ none) × Saved r.rows r'.rows)
              ⊎ ((e : Error) × (err ≡ some e) × (r'.rows ≡ r.rows)))
    unfolding cached_store answer
    cached_store-Saved r a own_key own_token own_name plain h =
        let plain_key = subst (Plain kind laws like) (sym own_key) plain in
        let coherent =
          answer-Coherent kind laws like (store_call p.store_db p.query_fails p.clock p.fresh a) r
            plain_key h in
        let stored =
          store-Stored kind laws like p.store_db a r.rows p.query_fails p.clock p.fresh plain_key
            h.1 in
        elim stored.2 [
          | inr (e, failed, same) ↦ (coherent, inr (e, failed, same))
          | inl (row, ok, own, (_, _, same_name, same_token, _, _), token, name) ↦ (
            coherent,
            inl (
              ok,
              (
                (
                  row,
                  ap
                        (λ k.
                          row_of kind laws like k
                            (store kind like p.store_db p.query_fails p.clock p.fresh a r.rows).0)
                        (sym own_key)
                      ∙ own,
                  same_token ∙ token ∙ own_token,
                  elim name [
                    | inl e ↦ inl (ap is_empty (sym own_name) ∙ e)
                    | inr e ↦ inr (same_name ∙ e ∙ own_name)
                  ],
                ),
                λ k.
                    subst
                      (λ i.
                        (str_eq i k ≡ true)
                        ⊎ (row_of kind laws like k
                              (store kind like p.store_db p.query_fails p.clock p.fresh a r.rows).0
                            ≡ row_of kind laws like k r.rows))
                      own_key (stored.0 k),
              ),
            ),
          )
        ]

    save-Put :
        (r : Repository A)
        → Makes
        → Plain kind laws like id
        → Coherent kind laws like r
        → Unchanged r.rows
        → let out = save kind make like p q id r in Put r out.0 out.1
    save-Put r makes plain h free = elim (Option-cases (make p.fresh_object id (token_of p q))) [
      | inl e ↦ rw (save, e) (h, inl (refl, λ x. ground arith))
      | inr (made, e) ↦
          let (own_key, own_token) = makes p.fresh_object id (token_of p q) made e in
          let s = record (kind.stakeholder made) { name = name_of q id } in
          let given = laws.stakeholder-with s made in
          let (coherent, out) =
            cached_store-Saved r (requested kind make like p q id made)
              (laws.key-with s made ∙ own_key) (ap (λ t. t.token) given ∙ own_token)
              (ap (λ t. t.name) given) plain h in
          elim out [
            | inl (ok, saved) ↦ rw (save, e, ok) (coherent, inr (refl, free, saved))
            | inr (x, failed, same) ↦ rw (save, e, failed) (coherent, inl (same, λ y. ground arith))
          ]
    ]

    -- A PUT of a channel or a producer at the node that makes all writes, whatever fails, either is not
    -- answered 200 and leaves the table, or the row of the id is as requested, no other row is changed, and the
    -- request named the time of the row's last update, if the row was there and could be read. No two rows
    -- had one key before, the cache had only rows of the table, and the id has no wildcard of LIKE.
    pub put-Put :
        (r : Repository A)
        → Makes
        → Plain kind laws like id
        → Coherent kind laws like r
        → let out = put kind make like p q id r in Put r out.0 out.1
    unfolding put
    put-Put r makes plain h =
        let look = cached_get p.now id (get_by_key kind like p.get_fails id r.rows) r.cache in
        let looked = record r { cache = look.1 } in
        let (complete, exact, rows) =
          cached_get_lem kind laws like p.now p.get_fails id r plain h in
        let h' : Coherent kind laws like looked = (rows, h.1) in
        elim (Bool-cases (str_eq q.media_type "application/x-www-form-urlencoded")) [
          | inr other ↦ rw (put, other) (h', inl (refl, λ x. ground arith))
          | inl form ↦ elim (Option-cases look.0) [
            | inl e ↦
                let free : Unchanged r.rows = elim (Bool-cases p.get_fails) [
                  | inl broken ↦ inr (inr broken)
                  | inr works ↦ inr (inl (sym (complete works) ∙ e))
                ] in
                let same : put kind make like p q id r ≡ save kind make like p q id looked =
                  rw (put, form, e) refl in
                subst (λ out. Put r out.0 out.1) (sym same) (save-Put looked makes plain h' free)
            | inr (a, e) ↦ elim (refusal_cases (kind.stakeholder a).base.updated_at) [
              | inl (status, refused, other) ↦
                  rw (put, form, e, refused) (h', inl (refl, λ x. other (some_inj x)))
              | inr (accepted, given, equal) ↦
                  let same : put kind make like p q id r ≡ save kind make like p q id looked =
                    rw (put, form, e, accepted) refl in
                  subst (λ out. Put r out.0 out.1) (sym same)
                    (save-Put looked makes plain h' (inl (a, exact a e, given, equal)))
            ]
          ]
        ]

pub channel_makes :
    (like : String → String → Bool) (p : Putting)
    → Makes channel_kind channel_laws new_channel like p
unfolding new_channel
channel_makes like p fresh id token a e = (ground arith, ground arith)

pub producer_makes :
    (like : String → String → Bool) (p : Putting)
    → Makes producer_kind producer_laws new_producer like p
unfolding new_producer
producer_makes like p fresh id token a e = (ground arith, ground arith)
