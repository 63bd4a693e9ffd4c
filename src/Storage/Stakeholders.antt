-- ===== src/Storage/Stakeholders.antt =====
-- storage/channelrepo.go and storage/producerrepo.go: one text, but for the names of the type and the
-- table. `Kind` is what they differ in. A table is its list of rows; `like` is SQL's LIKE of a value and a
-- pattern, and a query reads the first row that matches. Ids that the database's collation compares equal
-- are equal.
use webhook_broker.Base.{
  ℕ, String, Bool, ◌||◌, not, ◌==◌, str_eq, if◌then◌else◌, Option, none, some, List, [], ◌∷◌, ◌++◌,
}
use webhook_broker.Data.{
  Clock, MessageStakeholder, Channel, channel_quick_fix, channel_is_valid, Producer,
  producer_quick_fix, producer_is_valid,
}
use webhook_broker.Storage.Tables.{count_where, update_where}
use webhook_broker.Storage.Transactions.{
  Error, db_error, duplicate_key, no_rows_updated, invalid_state_to_save, Database,
}

-- The first row that passes a test.
unfoldable pub find_row {ℓ} : {A : Type ℓ} → (A → Bool) → List A → Option A
find_row p [] = none
find_row p (x ∷ xs) = let rest = find_row p xs in if p x then some x else rest

-- transactionalSingleRowWriteExec over one table: the statement gives the rows and how many it affects,
-- or `none` if a key refuses it.
unfoldable pub write_single {ℓ} :
    {A : Type ℓ} → Database → (List A → Option (List A × ℕ)) → List A → List A × Option Error
write_single db statement rows =
    if db.begin_fails || db.exec_fails 0 then (rows, some db_error) else elim (statement rows) [
      | none ↦ (rows, some duplicate_key)
      | some (rows', n) ↦
          if not (n == 1)
          then (rows, some no_rows_updated)
          else if db.commit_fails
          then (rows, some db_error)
          else (rows', none)
    ]

pub record Kind (A : Type 0) : Type 0 where
  pub key : A → String
  pub stakeholder : A → MessageStakeholder
  pub with_stakeholder : MessageStakeholder → A → A
  pub quick_fix : Clock → String → A → A
  pub is_valid : A → Bool

abbrev pub channel_kind : Kind Channel
channel_kind = record {
  key = λ c. c.channel_id;
  stakeholder = λ c. c.stakeholder;
  with_stakeholder = λ s c. record c { stakeholder = s };
  quick_fix = λ now fresh c. (channel_quick_fix now fresh c).0;
  is_valid = channel_is_valid;
}

abbrev pub producer_kind : Kind Producer
producer_kind = record {
  key = λ p. p.producer_id;
  stakeholder = λ p. p.stakeholder;
  with_stakeholder = λ s p. record p { stakeholder = s };
  quick_fix = λ now fresh p. (producer_quick_fix now fresh p).0;
  is_valid = producer_is_valid;
}

module _ {A : Type 0} (kind : Kind A) (like : String → String → Bool) where
  -- Get; `none` is an error.
  unfoldable pub get_by_key : Bool → String → List A → Option A
  unfolding find_row
  get_by_key query_fails id rows =
      if query_fails then none else find_row (λ a. like (kind.key a) id) rows

  -- The row with another name and token, and when it was updated.
  abbrev pub renamed : String → String → ℕ → A → A
  renamed name token now a =
      let s = kind.stakeholder a in
      kind.with_stakeholder
        (record s { name = name; token = token; base = record (s.base) { updated_at = now } }) a

  -- What a row keeps of a new object: its times as their columns keep them.
  abbrev pub stored_row : Database → A → A
  stored_row db a =
      let s = kind.stakeholder a in
      kind.with_stakeholder
        (record s {
          base = record (s.base) {
            created_at = db.stored_time s.base.created_at;
            updated_at = db.stored_time s.base.updated_at;
          };
        })
        a

  -- The two keys of the table.
  abbrev pub same_row : A → A → Bool
  same_row a b =
      str_eq (kind.stakeholder b).base.id (kind.stakeholder a).base.id
      || str_eq (kind.key b) (kind.key a)

  module _ (db : Database) where
    -- updateChannel and updateProducer: the object is changed before the statement runs.
    unfoldable pub update_row : A → String → String → ℕ → List A → List A × A × Option Error
    unfolding write_single update_where count_where
    update_row a name token now rows =
        let p = λ (b : A). str_eq (kind.key b) (kind.key a) in
        let statement = λ (rs : List A).
          some (update_where p (renamed name token (db.stored_time now)) rs, count_where p rs) in
        let (rows', err) = write_single db statement rows in (rows', renamed name token now a, err)

    -- insertChannel and insertProducer
    unfoldable pub insert_new : Clock → String → A → List A → List A × A × Option Error
    unfolding write_single count_where
    insert_new now fresh a rows =
        let fixed = kind.quick_fix now fresh a in
        if not (kind.is_valid fixed)
        then (rows, fixed, some invalid_state_to_save)
        else (let (rows', err) =
              write_single db
                (λ rs.
                  if count_where (same_row fixed) rs == 0
                  then some (rs ++ stored_row db fixed ∷ [], 1)
                  else none)
                rows in
            (rows', fixed, err))

    -- Store. The object that it returns with an invalid one is empty, and no caller uses it: the one
    -- that it was given stands for it.
    unfoldable pub store : Bool → Clock → String → A → List A → List A × A × Option Error
    unfolding get_by_key update_row insert_new
    store query_fails now fresh a rows = elim (get_by_key query_fails (kind.key a) rows) [
      | none ↦ insert_new now fresh a rows
      | some old ↦
          let s = kind.stakeholder a in
          let o = kind.stakeholder old in
          if not (str_eq s.name o.name) || not (str_eq s.token o.token)
          then (if not (kind.is_valid a)
              then (rows, a, some invalid_state_to_save)
              else update_row old s.name s.token (now 0) rows)
          else (rows, old, none)
    ]
